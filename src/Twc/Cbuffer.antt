-- ===== src/Twc/Cbuffer.antt =====
-- cbuffer_t and the functions cb_* of external_src/twc.h and twc.c. A pointer into the buffer is its
-- offset. `none` stands for a failed `assert`.
pub mod Pending
pub mod Relay
pub mod End
use pixiecpp.Base.{
  ℕ, ◌+◌, ◌-◌, Bool, true, false, Option, none, some, [], ◌++◌, ltb, leb, ◌==◌, if◌then◌else◌, ℤ,
  sub_ℕ, Bytes, take, drop, length,
}

pub record Cbuffer : Type 0 where
  pub buffer : Bytes
  pub buffer_size : ℕ
  pub read_ptr : ℕ
  pub write_ptr : ℕ
  pub was_malloced : Bool

-- CB_BUFFER_SIZE
abbrev pub cb_buffer_size : ℕ
cb_buffer_size = 1000

-- cb_init. `memory` is the block that malloc returns.
unfoldable pub cb_init : ℕ → Bytes → Cbuffer
cb_init buffer_size memory = record {
  buffer = memory;
  buffer_size = if buffer_size == 0 then cb_buffer_size else buffer_size;
  read_ptr = 0;
  write_ptr = 0;
  was_malloced = false;
}

-- cb_new
unfoldable pub cb_new : ℕ → Bytes → Cbuffer
unfolding cb_init
cb_new buffer_size memory = record (cb_init buffer_size memory) { was_malloced = true }

-- cb_read_available: the room behind the read pointer
abbrev pub cb_read_available : Cbuffer → ℤ
cb_read_available cb = sub_ℕ cb.buffer_size cb.read_ptr

-- cb_write_available: the bytes from the write pointer to the read pointer
abbrev pub cb_write_available : Cbuffer → ℤ
cb_write_available cb = sub_ℕ cb.read_ptr cb.write_ptr

-- `n <= available`
abbrev pub at_most : ℕ → ℤ → Bool
at_most n (ℤ.pos m) = leb n m
at_most n (ℤ.negsuc m) = false

-- cb_advance_read_ptr
unfoldable pub cb_advance_read_ptr : Cbuffer → ℕ → Option Cbuffer
cb_advance_read_ptr cb n =
    if at_most n (cb_read_available cb)
    then (if ltb (cb.buffer_size - 1) (cb.read_ptr + n)
        then none
        else if cb.read_ptr + n == cb.buffer_size - 1
        then some (record cb { read_ptr = 0 })
        else some (record cb { read_ptr = cb.read_ptr + n }))
    else none

-- cb_advance_write
unfoldable pub cb_advance_write : Cbuffer → ℕ → Option Cbuffer
cb_advance_write cb n =
    if at_most n (cb_write_available cb)
    then (if ltb (cb.buffer_size - 1) (cb.write_ptr + n)
        then none
        else if cb.write_ptr + n == cb.buffer_size - 1
        then some (record cb { write_ptr = 0 })
        else some (record cb { write_ptr = cb.write_ptr + n }))
    else none

-- cb_clean
unfoldable pub cb_clean : Cbuffer → Option Cbuffer
cb_clean cb = if cb.was_malloced then none else some (record cb { buffer = []; buffer_size = 0 })

-- cb_free: the flag is reset before cb_clean asserts that it is reset.
unfoldable pub cb_free : Cbuffer → Option Cbuffer
unfolding cb_clean
cb_free cb = if cb.was_malloced then cb_clean (record cb { was_malloced = false }) else none

-- What `read(fd, cb->read_ptr, r_avail)` does to the buffer when it stores `bs`.
abbrev pub store_at : ℕ → Bytes → Bytes → Bytes
store_at i bs mem = take i mem ++ (bs ++ drop (i + length bs) mem)

-- The `n` bytes from the write pointer on.
abbrev pub bytes_at : ℕ → ℕ → Bytes → Bytes
bytes_at i n mem = take n (drop i mem)
