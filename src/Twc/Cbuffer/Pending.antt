-- ===== src/Twc/Cbuffer/Pending.antt =====
-- The bytes in the buffer of external_src/twc.c between its two pointers.
use pixiecpp.Base.{
  lengths, ℕ, zero, suc, ◌+◌, ◌-◌, ◌≤◌, ◌<◌, ◌≡◌, refl, sym, ◌∙◌, ap, Option, some, [], ◌∷◌, ◌++◌,
  append_assoc, arith, Bytes, length, take, drop, take-nil, drop-nil, take-length-append,
}
use pixiecpp.Twc.Cbuffer.{Cbuffer, cb_advance_read_ptr, cb_advance_write, store_at, bytes_at}

-- The bytes that were read and not yet written.
abbrev pub pending : Cbuffer → Bytes
pending cb = bytes_at cb.write_ptr (cb.read_ptr - cb.write_ptr) cb.buffer

-- The pointers have not gone round: this holds from cb_init on, until `buffer_size - 1` bytes have
-- been read.
pub record IsLinear (cb : Cbuffer) : Type 0 where
  pub ordered : cb.write_ptr ≤ cb.read_ptr
  pub inside : suc cb.read_ptr < cb.buffer_size
  pub whole : length cb.buffer ≡ cb.buffer_size

-- A read that stores `bs`, as sm_execute makes it.
unfoldable pub fill : Cbuffer → Bytes → Option Cbuffer
fill cb bs =
    cb_advance_read_ptr (record cb { buffer = store_at cb.read_ptr bs cb.buffer }) (length bs)

drop-take-append :
    (w r : ℕ) (mem ys : Bytes)
    → w ≤ r
    → r ≤ length mem
    → drop w (take r mem ++ ys) ≡ take (r - w) (drop w mem) ++ ys
drop-take-append zero r mem ys h h' = let e : r - 0 ≡ r = omega arith in rw e
drop-take-append (suc w) zero mem ys h h' = absurd (omega arith)
drop-take-append (suc w) (suc r) [] ys h h' = absurd (omega arith)
drop-take-append (suc w) (suc r) (x ∷ mem) ys h h' =
    let e : suc r - suc w ≡ r - w = omega arith in
    rw e (drop-take-append w r mem ys (omega arith) (omega arith))

length-bytes_at : (w r : ℕ) (mem : Bytes) → r ≤ length mem → length (bytes_at w (r - w) mem) ≡ r - w
length-bytes_at w r mem h = grind lengths

pub length-pending : (cb : Cbuffer) → IsLinear cb → length (pending cb) ≡ cb.read_ptr - cb.write_ptr
length-pending cb l =
    length-bytes_at cb.write_ptr cb.read_ptr cb.buffer (omega (arith, l.inside, l.whole))

length-store_at :
    (r : ℕ) (bs mem : Bytes) → r + length bs ≤ length mem → length (store_at r bs mem) ≡ length mem
length-store_at r bs mem h = grind lengths

bytes_at-store_at :
    (w r : ℕ) (bs mem : Bytes)
    → w ≤ r
    → r + length bs ≤ length mem
    → bytes_at w (r + length bs - w) (store_at r bs mem) ≡ bytes_at w (r - w) mem ++ bs
bytes_at-store_at w r bs mem h h' =
    let old = bytes_at w (r - w) mem in
    let rest = drop (r + length bs) mem in
    let size : r + length bs - w ≡ length (old ++ bs) =
      grind (lengths, length-bytes_at w r mem (omega arith)) in
    ap (take (r + length bs - w)) (drop-take-append w r mem (bs ++ rest) h (omega arith))
    ∙ (ap (take (r + length bs - w)) (sym (append_assoc old bs rest))
        ∙ (ap (λ n. take n ((old ++ bs) ++ rest)) size ∙ take-length-append (old ++ bs) rest))

take-drop : (n m : ℕ) (xs : Bytes) → n ≤ m → take (m - n) (drop n xs) ≡ drop n (take m xs)
take-drop zero m xs h = let e : m - 0 ≡ m = omega arith in rw e
take-drop (suc n) zero xs h = absurd (omega arith)
take-drop (suc n) (suc m) [] h = take-nil (suc m - suc n)
take-drop (suc n) (suc m) (x ∷ xs) h =
    let e : suc m - suc n ≡ m - n = omega arith in rw e (take-drop n m xs (omega arith))

drop-drop : (n w : ℕ) (xs : Bytes) → drop n (drop w xs) ≡ drop (w + n) xs
drop-drop n zero xs = let e : 0 + n ≡ n = omega arith in rw e
drop-drop n (suc w) [] = drop-nil n ∙ sym (drop-nil (suc w + n))
drop-drop n (suc w) (x ∷ xs) =
    let e : suc w + n ≡ suc (w + n) = omega arith in rw e (drop-drop n w xs)

-- cb_advance_write after the system has taken `n` of the pending bytes.
unfoldable pub drain : Cbuffer → ℕ → Option Cbuffer
drain cb n = cb_advance_write cb n

-- The queue after a read and after a write, as long as the read pointer stays short of the end.
pub fill_lem :
    (cb : Cbuffer) (bs : Bytes)
    → IsLinear cb
    → suc (cb.read_ptr + length bs) < cb.buffer_size
    → (cb' : Cbuffer) × (fill cb bs ≡ some cb')
      × IsLinear cb'
      × (pending cb' ≡ pending cb ++ bs)
      × (cb'.read_ptr ≡ cb.read_ptr + length bs)
      × (cb'.buffer_size ≡ cb.buffer_size)
unfolding fill cb_advance_read_ptr
fill_lem cb bs l h = (
  record cb { buffer = store_at cb.read_ptr bs cb.buffer; read_ptr = cb.read_ptr + length bs },
  ground arith,
  record {
    ordered = omega (arith, l.ordered);
    inside = h;
    whole = length-store_at cb.read_ptr bs cb.buffer (omega (arith, l.whole)) ∙ l.whole;
  },
  bytes_at-store_at cb.write_ptr cb.read_ptr bs cb.buffer l.ordered (omega (arith, l.whole)),
  refl,
  refl,
)

pub drain_lem :
    (cb : Cbuffer) (n : ℕ)
    → IsLinear cb
    → n ≤ cb.read_ptr - cb.write_ptr
    → (cb' : Cbuffer) × (drain cb n ≡ some cb')
      × IsLinear cb'
      × (pending cb' ≡ drop n (pending cb))
      × (cb'.read_ptr ≡ cb.read_ptr)
      × (cb'.buffer_size ≡ cb.buffer_size)
unfolding drain cb_advance_write
drain_lem cb n l h = (
  record cb { write_ptr = cb.write_ptr + n },
  ground (arith, l.ordered, l.inside),
  record { ordered = omega (arith, l.ordered); inside = l.inside; whole = l.whole },
  ap (take (cb.read_ptr - (cb.write_ptr + n))) (sym (drop-drop n cb.write_ptr cb.buffer))
      ∙ (ap (λ k. take k (drop n (drop cb.write_ptr cb.buffer))) (omega arith)
          ∙ take-drop n (cb.read_ptr - cb.write_ptr) (drop cb.write_ptr cb.buffer) h),
  refl,
  refl,
)
