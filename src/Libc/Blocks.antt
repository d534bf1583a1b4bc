-- ===== src/Libc/Blocks.antt =====
-- lib/string.c: blocks of bytes in memory. Memory is a function from addresses to bytes; addresses do
-- not wrap around. `none` is a failed ASSERT.
mod Copies
mod Tests
use ee461s_projects.Common.{
  ℕ, zero, suc, ◌+◌, ◌%◌, Bool, true, ◌&&◌, Option, none, some, ◌==◌, ltb, if◌then◌else◌, update,
}

abbrev pub Bytes : Type 0
Bytes = ℕ → ℕ

-- dst != NULL || size == 0
abbrev pub block_ok : (address size : ℕ) → Bool
block_ok address size = if address == 0 then size == 0 else true

-- while (size-- > 0) *dst++ = *src++;
unfoldable pub copy_up : Bytes → (dst src size : ℕ) → Bytes
copy_up m dst src zero = m
copy_up m dst src (suc size) = copy_up (update m dst (m src)) (dst + 1) (src + 1) size

-- while (size-- > 0) *--dst = *--src; from the ends `dst + size` and `src + size`
unfoldable pub copy_down : Bytes → (dst src size : ℕ) → Bytes
copy_down m dst src zero = m
copy_down m dst src (suc size) = copy_down (update m (dst + size) (m (src + size))) dst src size

unfoldable pub memcpy : Bytes → (dst src size : ℕ) → Option (ℕ × Bytes)
memcpy m dst src size =
    if block_ok dst size && block_ok src size then some (dst, copy_up m dst src size) else none

-- The pointer that it returns has moved on with the copy where the copy goes up.
unfoldable pub memmove : Bytes → (dst src size : ℕ) → Option (ℕ × Bytes)
memmove m dst src size =
    if block_ok dst size && block_ok src size
    then (if ltb dst src
        then some (dst + size, copy_up m dst src size)
        else some (dst, copy_down m dst src size))
    else none

unfoldable pub fill : Bytes → (dst value size : ℕ) → Bytes
fill m dst value zero = m
fill m dst value (suc size) = fill (update m dst (value % 256)) (dst + 1) value size

unfoldable pub memset : Bytes → (dst value size : ℕ) → Option (ℕ × Bytes)
memset m dst value size = if block_ok dst size then some (dst, fill m dst value size) else none
