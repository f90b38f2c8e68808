-- ===== src/SimpleBuffer/Append.antt =====
-- sb_append stays inside its blocks and appends.
use pixiecpp.Base.{
  ◌<◌, ◌%◌, ◌^◌, pos, to_int-small, subst, lengths, leb-true, ℕ, ◌+◌, ◌≤◌, ◌≡◌, inl, inr, refl, sym,
  ◌∙◌, ap, Bool-cases, some, ◌++◌, append_assoc, arith, ltb, Bytes, take, drop, length,
  take-length-append,
}
use pixiecpp.SimpleBuffer.{
  SimpleBuffer, sb_append, contents, copy_to, copy_at, extended_size, extend, write_bytes,
}

-- A buffer with `u` bytes of text, and the size `l` in its field `length`: no count is negative, and the
-- block holds at least what the fields say.
pub record IsBuffer (u l : ℕ) (sb : SimpleBuffer) : Type 0 where
  pub used : sb.used ≡ pos u
  pub size : sb.length ≡ pos l
  pub small : l < 2 ^ 31
  pub room : l ≤ length sb.buffer
  pub within : u ≤ length sb.buffer

-- The counts of the fields, and what they say.
abbrev pub IsValid : SimpleBuffer → Type 0
IsValid sb = (u : ℕ) × (l : ℕ) × IsBuffer u l sb

-- A text whose length fits the `int used` of a buffer.
abbrev pub FitsBuffer : Bytes → Type 0
FitsBuffer t = length t < 2 ^ 31

-- malloc returns blocks of the size asked for.
abbrev pub Allocates : (ℕ → Bytes) → Type 0
Allocates malloc = (n : ℕ) → length (malloc n) ≡ n

copied : (block bytes : Bytes) (i : ℕ) → Bytes
copied block bytes i = take i block ++ (bytes ++ drop (i + length bytes) block)

copy_to-fits :
    (block bytes : Bytes) (i : ℕ)
    → i + length bytes ≤ length block
    → copy_to block i bytes ≡ some (copied block bytes i)
unfolding copied copy_to
copy_to-fits block bytes i h = ground arith

length-copied :
    (block bytes : Bytes) (i : ℕ)
    → i + length bytes ≤ length block
    → length (copied block bytes i) ≡ length block
unfolding copied
length-copied block bytes i h = grind lengths

take-copied :
    (block bytes : Bytes) (i : ℕ)
    → i + length bytes ≤ length block
    → take (i + length bytes) (copied block bytes i) ≡ take i block ++ bytes
unfolding copied
take-copied block bytes i h =
    let size : i + length bytes ≡ length (take i block ++ bytes) = grind lengths in
    ap (take (i + length bytes)) (sym (append_assoc (take i block) bytes _))
    ∙ (ap (λ n. take n ((take i block ++ bytes) ++ drop (i + length bytes) block)) size
        ∙ take-length-append (take i block ++ bytes) _)

pub record Appended (sb : SimpleBuffer) (at : Bytes) (sb' : SimpleBuffer) : Type 0 where
  pub valid : IsValid sb'
  pub text : contents sb' ≡ contents sb ++ at
  pub count : sb'.used ≡ pos (length (contents sb) + length at)
  pub same_length : sb'.length ≡ sb.length

abbrev buffer_of : Bytes → ℕ → ℕ → SimpleBuffer
buffer_of b u l = record { buffer = b; used = pos u; length = pos l }

module _ (l : ℕ) (small : l < 2 ^ 31) where
  write_bytes-Appended :
      (b : Bytes) (u : ℕ) (at : Bytes)
      → l ≤ length b
      → u + length at ≤ length b
      → u + length at < 2 ^ 31
      → (sb' : SimpleBuffer) × (write_bytes (buffer_of b u l) at ≡ some sb')
        × Appended (buffer_of b u l) at sb'
  unfolding write_bytes copy_at
  write_bytes-Appended b u at room h fits =
      let sum : (u + length at) % 2 ^ 64 ≡ u + length at = omega arith in
      let size = length-copied b at u h in
      (
        buffer_of (copied b at u) (u + length at) l,
        rw (copy_to-fits b at u h, sum, to_int-small (u + length at) fits, write_bytes, copy_at)
            refl,
        record {
          valid = (
            u + length at,
            l,
            record {
              used = refl;
              size = refl;
              small = small;
              room = omega (arith, size);
              within = omega (arith, size);
            },
          );
          text = take-copied b at u h;
          count = ap pos (grind lengths);
          same_length = refl;
        },
      )

  -- The new block is long enough for the old bytes and the new ones, and the old ones are copied.
  extended : (ℕ → Bytes) → Bytes → ℕ → ℕ → Bytes
  extended malloc b u n = copied (malloc (extended_size (buffer_of b u l) n)) (take u b) 0

  extend_lem :
      (malloc : ℕ → Bytes) (b : Bytes) (u n : ℕ)
      → Allocates malloc
      → u ≤ length b
      → u + n < 2 ^ 31
      → (extend malloc (buffer_of b u l) n ≡ some (buffer_of (extended malloc b u n) u l))
        × (take u (extended malloc b u n) ≡ take u b)
        × (u + n + l ≤ length (extended malloc b u n))
  unfolding extend extended
  extend_lem malloc b u n alloc within fits =
      let old = take u b in
      let block = malloc (extended_size (buffer_of b u l) n) in
      let size : length old ≡ u = grind (lengths, within) in
      let big : u + n + l ≤ length block =
        ground (arith, alloc (extended_size (buffer_of b u l) n)) in
      let fits_old : 0 + length old ≤ length block = omega arith in
      (
        rw (leb-true u (length b) within, copy_to-fits block old 0 fits_old) refl,
        ap (λ k. take k (copied block old 0)) {x = u} (omega arith)
            ∙ take-copied block old 0 fits_old,
        omega (arith, length-copied block old 0 fits_old),
      )

  append_lem :
      (malloc : ℕ → Bytes) (b : Bytes) (u : ℕ) (at : Bytes)
      → Allocates malloc
      → l ≤ length b
      → u ≤ length b
      → u + length at < 2 ^ 31
      → (sb' : SimpleBuffer) × (sb_append malloc (buffer_of b u l) at ≡ some sb')
        × Appended (buffer_of b u l) at sb'
  unfolding sb_append
  append_lem malloc b u at alloc room within fits =
      elim (Bool-cases (ltb l ((u + length at) % 2 ^ 64))) [
        | inl grows ↦
            let (e, same, big) = extend_lem malloc b u (length at) alloc within fits in
            let (sb', e', app) =
              write_bytes-Appended (extended malloc b u (length at)) u at (omega arith)
                (omega arith) fits in
            (
              sb',
              rw (grows, e) e',
              record {
                valid = app.valid;
                text = app.text ∙ ap (λ t. t ++ at) same;
                count = app.count ∙ ap (λ t. pos (length t + length at)) same;
                same_length = app.same_length;
              },
            )
        | inr fitting ↦
            let (sb', e, app) = write_bytes-Appended b u at room (ground (arith, room)) fits in
            (sb', rw fitting e, app)
      ]

-- Where malloc returns blocks of the size asked for, and the old text and the new bytes together are
-- fewer than 2^31, so that `used` does not wrap: sb_append never leaves its blocks, keeps the
-- invariant, and appends: the text is the old text followed by the new bytes, and `used` is its
-- length. The field `length` keeps its value also when the block grows.
pub sb_append-Appended :
    (malloc : ℕ → Bytes) (sb : SimpleBuffer) (at : Bytes)
    → Allocates malloc
    → IsValid sb
    → length (contents sb) + length at < 2 ^ 31
    → (sb' : SimpleBuffer) × (sb_append malloc sb at ≡ some sb') × Appended sb at sb'
sb_append-Appended malloc sb at alloc (u, l, v) fits =
    let same : sb ≡ buffer_of sb.buffer u l = rw (sym v.used, sym v.size) refl in
    let text : contents sb ≡ take u sb.buffer = rw v.used refl in
    let count : length (contents sb) ≡ u = rw text (grind (lengths, v.within)) in
    subst (λ b. (sb' : SimpleBuffer) × (sb_append malloc b at ≡ some sb') × Appended b at sb')
      (sym same) (append_lem l v.small malloc sb.buffer u at alloc v.room v.within (omega arith))
