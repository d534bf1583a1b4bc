-- ===== src/Userprog/Children.antt =====
-- The record that a parent and a child share: add_child_to_list and find_child_element of
-- userprog/syscall.c, process_wait and process_exit of userprog/process.c. Threads, child elements
-- and their semaphores are blocks at addresses, 0 for NULL. `none` is an access through NULL or to
-- a block that is not allocated.
pub mod Wait
pub mod Exit
mod Tests
use ee461s_projects.Common.{
  ℕ, ◌+◌, ◌-◌, ◌%◌, ◌^◌, Bool, true, false, Option, none, some, List, [], ◌∷◌, ◌++◌, ◌==◌,
  if◌then◌else◌, update, erase_all, ◌>>=◌,
}

-- enum child_status_t
pub data ChildStatus : Type 0 where
  process_running process_stopped process_done : ChildStatus

-- struct child_list_elem, less its list element and load_status. `inception` is the thread whose
-- member `child_data` the pointer leads to.
pub record ChildElem : Type 0 where
  pub out_of_money : Bool
  pub pid : ℕ
  pub parent_pid : ℕ
  pub status : ChildStatus
  pub sema : ℕ
  pub exit_status : ℕ
  pub inception : ℕ

-- struct thread: the members that this code uses.
pub record Process : Type 0 where
  pub tid : ℕ
  pub child_list : List ℕ
  pub child_data : ℕ

-- The list of all threads, their pages, the child elements and the values of their semaphores.
pub record Machine : Type 0 where
  pub all_list : List ℕ
  pub processes : ℕ → Option Process
  pub elems : ℕ → Option ChildElem
  pub semas : ℕ → Option ℕ

abbrev pub null : ℕ
null = 0

-- -1 as an int
abbrev pub minus_one : ℕ
minus_one = 2 ^ 32 - 1

-- find_thread, threads/thread.c
find_in : Machine → ℕ → List ℕ → Option ℕ
find_in m tid [] = some null
find_in m tid (t ∷ rest) =
    let later = find_in m tid rest in m.processes t >>= λ p. if p.tid == tid then some t else later

unfoldable pub find_thread : Machine → ℕ → Option ℕ
unfolding find_in
find_thread m tid = find_in m tid m.all_list

-- The loop of find_child_element; NULL if no child has this pid.
unfoldable pub find_child : (ℕ → Option ChildElem) → ℕ → List ℕ → Option ℕ
find_child elems pid [] = some null
find_child elems pid (e ∷ rest) =
    let later = find_child elems pid rest in elems e >>= λ c. if c.pid == pid then some e else later

unfoldable pub find_child_element : Machine → ℕ → ℕ → Option ℕ
find_child_element m t pid = do p ← m.processes t; find_child m.elems pid p.child_list

-- `elem` and `sema` are what malloc returns; the code does not test them for NULL. `garbage` is what
-- the fresh block holds where exit_status will stand, which the code leaves as it is.
unfoldable pub add_child_to_list :
    (elem sema garbage : ℕ) → Machine → (parent pid : ℕ) → Option Machine
unfolding find_thread
add_child_to_list elem sema garbage m parent pid =
    if elem == null then none else if sema == null then none else do
      p ← m.processes parent
      child ← find_thread m pid
      c ← m.processes child
      let procs = update m.processes child (some (record c { child_data = elem }))
      p' ← procs parent
      some (record m {
        processes =
            update procs parent (some (record p' { child_list = p'.child_list ++ (elem ∷ []) }));
        elems = update m.elems elem (
            some (record {
              out_of_money = false;
              pid = pid;
              parent_pid = p.tid;
              status = process_running;
              sema = sema;
              exit_status = garbage;
              inception = child;
            }));
        semas = update m.semas sema (some 0);
      })

-- process_wait returns, or sleeps in sema_down on the semaphore of a child element.
pub data Waiting : Type 0 where
  returned : ℕ → Waiting
  sleeping : ℕ → Waiting

-- process_wait behind find_child_element, and again whenever the sleeping thread is woken up:
-- sema_down, and what follows it.
unfoldable pub wait_for : Machine → (t elem : ℕ) → Option (Waiting × Machine)
wait_for m t elem = do
  c ← m.elems elem
  value ← m.semas c.sema
  if value == 0 then some (sleeping elem, m) else do
    p ← m.processes t
    some (
      returned c.exit_status,
      record m {
        processes =
            update m.processes t (some (record p { child_list = erase_all elem p.child_list }));
        elems = update m.elems elem none;
        semas = update m.semas c.sema none;
      },
    )

unfoldable pub process_wait : Machine → (t child_tid : ℕ) → Option (Waiting × Machine)
process_wait m t child_tid = do
  elem ← find_child_element m t child_tid
  if elem == null then some (returned minus_one, m) else wait_for m t elem

-- The part of process_exit that reports the status to the parent, if it lives.
unfoldable pub report_exit : Machine → (t exit_status : ℕ) → Option Machine
report_exit m t exit_status = do
  p ← m.processes t
  if p.child_data == null then some m else do
    c ← m.elems p.child_data
    value ← m.semas c.sema
    some (record m {
      elems =
          update m.elems p.child_data
            (some (record c { status = process_done; exit_status = exit_status }));
      semas = update m.semas c.sema (some ((value + 1) % 2 ^ 32));
    })

-- The loop that tells the children that their parent has died, and frees the elements.
unfoldable pub leave_children : Machine → List ℕ → Option Machine
leave_children m [] = some m
leave_children m (e ∷ rest) = m.elems e >>= λ c. m.processes c.inception >>= λ p.
    leave_children
      (record m {
        processes = update m.processes c.inception (some (record p { child_data = null }));
        elems = update m.elems e none;
      })
      rest

-- process_exit between the closing of its files and the end of its page directory, which act on no
-- state of this model.
unfoldable pub process_exit : Machine → (t exit_status : ℕ) → Option Machine
process_exit m t exit_status = do
  m' ← report_exit m t exit_status
  p ← m'.processes t
  m'' ← leave_children m' p.child_list
  p' ← m''.processes t
  some (record m'' { processes = update m''.processes t (some (record p' { child_list = [] })) })

-- thread_exit_process: process_exit, and then the thread leaves the list of all threads; the next
-- thread frees its page (thread_schedule_tail).
unfoldable pub thread_exit_process : Machine → (t exit_status : ℕ) → Option Machine
thread_exit_process m t exit_status = do
  m' ← process_exit m t exit_status
  some (record m' { all_list = erase_all t m'.all_list; processes = update m'.processes t none })
