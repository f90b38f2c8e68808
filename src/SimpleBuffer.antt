-- ===== src/SimpleBuffer.antt =====
-- external_src/simple_buffer.h and simple_buffer.c: a growing byte buffer. A block that malloc returns
-- is the list of its bytes; `none` stands for a write or a read outside of a block.
pub mod Append
use pixiecpp.Base.{
  ℕ, ◌+◌, ◌%◌, ◌^◌, Option, none, some, ◌++◌, leb, ltb, if◌then◌else◌, ℤ, pos, negsuc, to_size,
  to_int, to_ℕ, Bytes, take, drop, length,
}

-- kSIMPLE_BUFFER_SIZE
abbrev pub buffer_size : ℕ
buffer_size = 100000

-- `used` and `length` are of type int. The guards are not read by any code that runs and are left out.
pub record SimpleBuffer : Type 0 where
  pub buffer : Bytes
  pub used : ℤ
  pub length : ℤ

-- sb_create; `memory` is the block that malloc returns.
unfoldable pub sb_create : Bytes → SimpleBuffer
sb_create memory = record { buffer = memory; used = pos 0; length = pos buffer_size }

-- sb_get_used
abbrev pub sb_get_used : SimpleBuffer → ℤ
sb_get_used sb = sb.used

-- memcpy(&block[i], bytes, n), with its bounds
unfoldable pub copy_to : Bytes → ℕ → Bytes → Option Bytes
copy_to block i bytes =
    if leb (i + length bytes) (length block)
    then some (take i block ++ (bytes ++ drop (i + length bytes) block))
    else none

-- memcpy(&block[i], bytes, n) with an index of type int
copy_at : Bytes → ℤ → Bytes → Option Bytes
copy_at block (pos i) bytes = copy_to block i bytes
copy_at block (negsuc i) bytes = none

-- `sb->used + length`, as a size_t
abbrev pub space_needed : SimpleBuffer → ℕ → ℕ
space_needed sb n = (to_size sb.used + n) % 2 ^ 64

-- The number of bytes that sb_append asks malloc for when it extends the buffer.
abbrev pub extended_size : SimpleBuffer → ℕ → ℕ
extended_size sb n =
    let more = if leb (space_needed sb n) buffer_size then buffer_size else space_needed sb n in
    (to_size sb.length + more) % 2 ^ 64

-- The extension: `malloc n` is the new block; the field `length` keeps its value.
extend : (ℕ → Bytes) → SimpleBuffer → ℕ → Option SimpleBuffer
extend malloc sb n =
    if leb (to_size sb.used) (length sb.buffer)
    then elim (copy_to (malloc (extended_size sb n)) 0 (take (to_size sb.used) sb.buffer)) [
      | none ↦ none
      | some b ↦ some (record sb { buffer = b })
    ]
    else none

-- `sb->used += length` adds as a size_t, and the sum is made an int.
write_bytes : SimpleBuffer → Bytes → Option SimpleBuffer
unfolding copy_at
write_bytes sb at = elim (copy_at sb.buffer sb.used at) [
  | none ↦ none
  | some b ↦ some (record sb { buffer = b; used = to_int (space_needed sb (length at)) })
]

abbrev then_write : Bytes → Option SimpleBuffer → Option SimpleBuffer
then_write at none = none
then_write at (some sb) = write_bytes sb at

-- sb_append. `length == 1` and the general case write the same bytes.
unfoldable pub sb_append : (ℕ → Bytes) → SimpleBuffer → Bytes → Option SimpleBuffer
unfolding extend write_bytes copy_to copy_at
sb_append malloc sb at =
    if ltb (to_size sb.length) (space_needed sb (length at))
    then then_write at (extend malloc sb (length at))
    else write_bytes sb at

-- std::string(sb->buffer, sb->used), as the parser's callbacks read a buffer. At a negative `used`,
-- which only a text of 2^31 bytes or more leads to, it would throw; there is no text then.
abbrev pub contents : SimpleBuffer → Bytes
contents sb = take (to_ℕ sb.used) sb.buffer
