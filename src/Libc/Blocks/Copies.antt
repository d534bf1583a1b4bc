-- ===== src/Libc/Blocks/Copies.antt =====
-- lib/string.c: what memmove, memcpy and memset leave in memory.
use ee461s_projects.Common.{
  ℕ, zero, suc, ◌+◌, ◌-◌, ◌%◌, ◌≤◌, ◌<◌, ◌≡◌, ◌≢◌, false, ◌&&◌, some, arith, leb, ltb, ◌==◌,
  if◌then◌else◌, update, ap, ◌∙◌, fun_ext, Bool-cases, ◌⊎◌, inl, inr,
}
use ee461s_projects.Libc.Blocks.{Bytes, copy_up, copy_down, memcpy, memmove, memset, fill}

-- Memory with the `size` bytes from `src` on, as they were, at `dst`.
abbrev pub moved : Bytes → (dst src size : ℕ) → Bytes
moved m dst src size a = if leb dst a && ltb a (dst + size) then m (src + (a - dst)) else m a

copy_up_lem :
    (m : Bytes) (dst src size a : ℕ)
    → (dst < src) ⊎ ((dst ≡ src) ⊎ (src + size ≤ dst))
    → copy_up m dst src size a ≡ moved m dst src size a
unfolding copy_up
copy_up_lem m dst src zero a h = ground arith
copy_up_lem m dst src (suc size) a h =
    copy_up_lem (update m dst (m src)) (dst + 1) (src + 1) size a (ground arith) ∙ step
  where
    step : moved (update m dst (m src)) (dst + 1) (src + 1) size a ≡ moved m dst src (suc size) a
    step = ground arith

copy_down_lem :
    (m : Bytes) (dst src size a : ℕ)
    → src ≤ dst
    → copy_down m dst src size a ≡ moved m dst src size a
unfolding copy_down
copy_down_lem m dst src zero a h = ground arith
copy_down_lem m dst src (suc size) a h =
    copy_down_lem (update m (dst + size) (m (src + size))) dst src size a h ∙ step
  where
    step :
        moved (update m (dst + size) (m (src + size))) dst src size a ≡ moved m dst src (suc size) a
    step = ground arith

disjoint :
    (m : Bytes) (dst src size a : ℕ)
    → (dst + size ≤ src) ⊎ (src + size ≤ dst)
    → copy_up m dst src size a ≡ moved m dst src size a
unfolding copy_up
disjoint m dst src zero a o = ground arith
disjoint m dst src (suc size) a (inl h) = copy_up_lem m dst src (suc size) a (inl (omega arith))
disjoint m dst src (suc size) a (inr h) = copy_up_lem m dst src (suc size) a (inr (inr h))

-- memmove of blocks that are not at NULL leaves at the destination the bytes that the source held
-- before, however the blocks overlap, and changes no other byte. It returns the destination only
-- where that does not lie below the source; else it returns the end of the destination.
pub memmove_lem :
    (m : Bytes) (dst src size : ℕ)
    → dst ≢ 0
    → src ≢ 0
    → memmove m dst src size
      ≡ some ((if ltb dst src then dst + size else dst), moved m dst src size)
unfolding memmove
memmove_lem m dst src size d s =
    let nd : (dst == 0) ≡ false = ground arith in
    let ns : (src == 0) ≡ false = ground arith in
    elim (Bool-cases (ltb dst src)) [
      | inl up ↦
          rw (nd, ns, up)
            (ap (λ f. some (dst + size, f))
              (fun_ext (λ a. copy_up_lem m dst src size a (inl (ground arith)))))
      | inr down ↦
          rw (nd, ns, down)
            (ap (λ f. some (dst, f)) (fun_ext (λ a. copy_down_lem m dst src size a (ground arith))))
    ]

-- memcpy of blocks that do not overlap leaves the source's bytes at the destination.
pub memcpy_lem :
    (m : Bytes) (dst src size : ℕ)
    → dst ≢ 0
    → src ≢ 0
    → (dst + size ≤ src) ⊎ (src + size ≤ dst)
    → memcpy m dst src size ≡ some (dst, moved m dst src size)
unfolding memcpy
memcpy_lem m dst src size d s o =
    let nd : (dst == 0) ≡ false = ground arith in
    let ns : (src == 0) ≡ false = ground arith in
    rw (nd, ns) (ap (λ f. some (dst, f)) (fun_ext (λ a. apart_lem a)))
  where
    apart_lem : (a : ℕ) → copy_up m dst src size a ≡ moved m dst src size a
    apart_lem a = disjoint m dst src size a o

fill_lem :
    (m : Bytes) (dst value size a : ℕ)
    → fill m dst value size a ≡ (if leb dst a && ltb a (dst + size) then value % 256 else m a)
unfolding fill
fill_lem m dst value zero a = ground arith
fill_lem m dst value (suc size) a =
    ground (arith, fill_lem (update m dst (value % 256)) (dst + 1) value size a)

pub memset_lem :
    (m : Bytes) (dst value size : ℕ)
    → dst ≢ 0
    → memset m dst value size
      ≡ some (dst, λ a. if leb dst a && ltb a (dst + size) then value % 256 else m a)
unfolding memset
memset_lem m dst value size d =
    let nd : (dst == 0) ≡ false = ground arith in
    rw nd (ap (λ f. some (dst, f)) (fun_ext (λ a. fill_lem m dst value size a)))
