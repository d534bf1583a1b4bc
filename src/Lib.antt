-- ===== src/Lib.antt =====
-- A verification library for the Pintos kernel of this repository: threads, synchronisation,
-- processes and files.
--
-- The program and its parts. threads/thread.c keeps the threads, the run queue ready_list and
-- the switch between threads; threads/synch.c builds semaphores on thread_block and
-- thread_unblock, and locks on semaphores. userprog/process.c and userprog/syscall.c run user
-- programs as threads: a parent shares a child element with each child, through which the child
-- hands over its exit status when it leaves by thread_exit_process. filesys/inode.c reads and
-- writes files that lie contiguously on the disk.
--
-- Common (Tests, Lists, Bytes, Bits) has the Boolean tests and the lemmas on lists, byte ranges and
-- binary digits that all parts share.
--
-- Threads.Kernel (threads/thread.c): the record Kernel is the state of thread.c and the value
-- and wait list of each semaphore; thread_block, thread_unblock, thread_yield, thread_exit,
-- thread_create and schedule are functions of it that return none where an ASSERT fails.
-- Threads.Synch (threads/synch.c): sema_down is cut where it sleeps into rounds
-- (sema_down_round: one test of the loop), since other threads run between them; lock_acquire and
-- lock_try_acquire are cut before the store of the holder, lock_release behind it. Threads.System
-- makes them a step relation: Move is one atomic part (a stretch with interrupts off) and Reach the
-- states that some order of them leads to.
-- Threads.Queues is the invariant of the run queue and the wait lists, Threads.Locks that of
-- the locks.
--
-- Filesys.Inode (filesys/inode.c): a disk is a function from sectors to lists of bytes, and
-- read_loop and write_loop are the loops of inode_read_at and inode_write_at on fuel; the
-- fuel is the number of bytes asked for, which is enough since each round does one at least.
--
-- KernelLib.Bitmap (lib/kernel/bitmap.c): a bitmap is its list of 32-bit words, and mark, reset,
-- flip and test are the word operations; Words relates them to single bits, Ranges and Scan the
-- operations on ranges to sets of bits.
--
-- Filesys.Store, Filesys.OpenInodes and Filesys.File (filesys/free-map.c, filesys/inode.c,
-- filesys/file.c): the record FileSystem has the disk, the open inodes and files as a store with
-- addresses, and the free map with the file that it is kept in. What malloc and calloc return is an
-- argument (0 for NULL). Filesys.Counts relates the counters of an inode to the files that have
-- it open; Filesys.FreeMap is about the allocation of sectors and the creation of inodes.
--
-- Userprog.Children (userprog/process.c, userprog/syscall.c, threads/thread.c): the record
-- Machine has the processes, the child elements and their semaphores as a store with addresses,
-- since parent and child share them; freeing is a change of that store, and a write through a
-- freed address returns none. The parent's sleep in sema_down is the result waiting.
--
-- Userprog.Stack (userprog/process.c, lib/string.c): the words of a command line by strtok_r, and
-- the stack page that setup_stack fills, as a function from addresses to bytes. The loop of
-- parse_command_string has a fuel of the line's length and one, since each round takes a character.
--
-- Userprog.Descriptors (userprog/syscall.c): the file descriptors of a process and the system calls
-- on them, above Filesys.File. What filesys_open gives is an argument of open_fd (the function open).
--
-- Userprog.Handler (userprog/syscall.c, userprog/exception.c): what syscall_handler reads from the
-- stack of a process and checks, up to the call that it makes; memory is a function from addresses to
-- bytes or a fault, and a fault ends the process with -1.
--
-- Userprog.Load (userprog/process.c): validate_segment, the arithmetic of load on a program header,
-- and load_segment, whose loop has as many rounds of fuel as the segment has pages.
--
-- Devices.Intq (devices/intq.c): the queue of bytes between interrupt handlers and threads, as a
-- circular buffer whose waiters are threads of Threads.Kernel.
--
-- KernelLib.List (lib/kernel/list.c): doubly linked lists. Links are the prev and next of every
-- address, and LinkedList the addresses of the two header elements; Chain.IsList says which elements
-- a list has. Sort has list_sort and what it calls. Each loop has a fuel above the list's length, which
-- is enough since each round moves on by an element, and each pass of list_sort halves the runs.
--
-- Libc.Strings and Libc.Blocks (lib/string.c): strings are lists of bytes with their zero byte, and an
-- access past the object's end is none; blocks are ranges of a memory from addresses to bytes.
--
-- Filesys.Directory (filesys/directory.c): a struct dir is a value, its entries are 20 bytes each of the
-- directory's file. Entries and Lookup relate the loops to a list of entries, Slots and Add are about
-- dir_add. Each loop has a round of fuel for each byte of the file and one, more than it has entries.
--
-- KernelLib.Hash (lib/kernel/hash.c): hash tables, whose buckets are lists of elements. Buckets counts
-- what moves, Rehash has the invariant IsHash, and Operations relates the operations to hash_find.
-- The loop that rounds the number of buckets has that number as fuel, since each round lowers it.
--
-- Libc.Printf (lib/stdio.c): printf's formatting. Digits and Numbers are about format_integer, whose loops
-- have the fuel that 64 bits and the buffer of 64 characters need, Format has parse_conversion and the
-- loop of __vprintf, and Rounds shows that its fuel, the format's length and one, is enough.
--
-- Threads.Palloc (threads/palloc.c, threads/vaddr.h): the record Ram has the two pools, each a bitmap of
-- KernelLib.Bitmap and a base address, and the bytes of the memory as a function from addresses.
--
-- Threads.Malloc (threads/malloc.c) above it: the record Heap has the pools, the arenas as a store with
-- addresses and the descriptors by their index; a free list is the list of its blocks' addresses.
-- malloc_init's loop has a fuel of 12, more than the ten descriptors that its ASSERT allows.
--
-- Filesys.Root (filesys/filesys.c, filesys/free-map.c) puts the file system together: the formatting, and
-- filesys_create, filesys_open and filesys_remove above the root directory; its tests run them in a row.
--
-- Not modelled: the hardware set-up, assembly and port I/O; the
-- timer's slices (a yield may come at any point where interrupts are on, which the step
-- relation allows); condition variables, and the look-up of the file system's device.
pub mod Common
pub mod Devices
pub mod Filesys
pub mod KernelLib
pub mod Libc
pub mod Threads
pub mod Userprog
