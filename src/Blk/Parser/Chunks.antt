-- ===== src/Blk/Parser/Chunks.antt =====
-- BlkParser::append against feeding the bytes one by one, and in several calls.
use pixiecpp.Base.{
  ℕ, suc, ◌+◌, ◌-◌, ◌<◌, ◌≡◌, inl, inr, refl, sym, ◌∙◌, ap, [], ◌∷◌, ◌++◌, arith, ℤ, pos, negsuc,
  Bytes, length,
}
use pixiecpp.Blk.Parser.{BlkParser, parse_character, append_from, append}
use pixiecpp.Blk.Parser.Lines.{IsOpen}
use pixiecpp.Blk.Parser.Feeding.{feed, append_lem}

abbrev pub shift : ℕ → ℤ → ℤ
shift n (pos k) = pos (n + k)
shift n (negsuc j) = negsuc j

append_from-shift :
    (n k : ℕ) (p : BlkParser) (xs : Bytes)
    → append_from (n + k) p xs ≡ (shift n (append_from k p xs).0, (append_from k p xs).1)
unfolding append_from
append_from-shift n k p [] = refl
append_from-shift n k p (x ∷ xs) =
    let e : n + k + 1 ≡ n + (k + 1) = omega arith in
    rw e (ground (arith, append_from-shift n (k + 1) (parse_character p x) xs))

append_from-append :
    (k : ℕ) (p : BlkParser) (xs ys : Bytes) (q : BlkParser)
    → append_from k p xs ≡ (negsuc 0, q)
    → append_from k p (xs ++ ys) ≡ append_from (k + length xs) q ys
unfolding append_from
append_from-append k p [] ys q h = let e : k + 0 ≡ k = omega arith in rw e (ground arith)
append_from-append k p (x ∷ xs) ys q h =
    let e : k + suc (length xs) ≡ k + 1 + length xs = omega arith in
    rw e (ground (arith, append_from-append (k + 1) (parse_character p x) xs ys q))

-- A buffer that leaves the parser open can be split off: the two calls do what one would have done,
-- and the second counts from its own start.
pub append-append :
    (p : BlkParser) (xs ys : Bytes) (q : BlkParser)
    → append p xs ≡ (negsuc 0, q)
    → append p (xs ++ ys) ≡ (shift (length xs) (append q ys).0, (append q ys).1)
unfolding append
append-append p xs ys q h =
    append_from-append 1 p xs ys q h
    ∙ (ap (λ n. append_from n q ys) (omega arith) ∙ append_from-shift (length xs) 1 q ys)

-- A closed parser ignores the rest of the buffer.
append_from-stop :
    (k : ℕ) (p : BlkParser) (xs ys : Bytes) (n : ℕ) (q : BlkParser)
    → append_from k p xs ≡ (pos n, q)
    → append_from k p (xs ++ ys) ≡ (pos n, q)
unfolding append_from
append_from-stop k p [] ys n q h = ground arith
append_from-stop k p (x ∷ xs) ys n q h =
    ground (arith, append_from-stop (k + 1) (parse_character p x) xs ys n q)

pub append-stop :
    (p : BlkParser) (xs ys : Bytes) (n : ℕ) (q : BlkParser)
    → append p xs ≡ (pos n, q)
    → append p (xs ++ ys) ≡ (pos n, q)
unfolding append
append-stop p xs ys n q h = append_from-stop 1 p xs ys n q h

append_from-IsOpen :
    (k : ℕ) (p : BlkParser) (xs : Bytes) (q : BlkParser)
    → IsOpen p
    → append_from k p xs ≡ (negsuc 0, q)
    → IsOpen q
unfolding append_from
append_from-IsOpen k p [] q o h = ground arith
append_from-IsOpen k p (x ∷ xs) q o h =
    ground (arith, append_from-IsOpen (k + 1) (parse_character p x) xs q)

pub append-none : (p : BlkParser) → append p [] ≡ (negsuc 0, p)
unfolding append append_from
append-none p = refl

pub append-empty : (p q : BlkParser) → append p [] ≡ (negsuc 0, q) → p ≡ q
unfolding append append_from
append-empty p q h = ground arith

pub append-IsOpen :
    (p : BlkParser) (xs : Bytes) (q : BlkParser) → IsOpen p → append p xs ≡ (negsuc 0, q) → IsOpen q
unfolding append
append-IsOpen p xs q o h = append_from-IsOpen 1 p xs q o h

-- If a whole buffer leaves the parser open, so does its first part, and the rest follows on.
pub append-split :
    (p : BlkParser) (xs ys : Bytes) (q : BlkParser)
    → append p (xs ++ ys) ≡ (negsuc 0, q)
    → (append p xs ≡ (negsuc 0, feed p xs)) × (append (feed p xs) ys ≡ (negsuc 0, q))
append-split p xs ys q h = elim (append_lem p xs) [
  | inl (e, o) ↦ (e, shift_minus (length xs) _ q (sym (append-append p xs ys (feed p xs) e) ∙ h))
  | inr (m, e, lt, shut, o) ↦ cc (append-stop p xs ys (suc m) _ e)
]
  where
    shift_minus :
        (n : ℕ) (r : ℤ × BlkParser) (q : BlkParser)
        → ◌≡◌ {A = ℤ × BlkParser} (shift n r.0, r.1) (negsuc 0, q)
        → r ≡ (negsuc 0, q)
    shift_minus n r q h = ground arith

-- If a buffer closes the parser behind its first part, the first part leaves the parser open.
pub append-split_closed :
    (p : BlkParser) (xs ys : Bytes) (n : ℕ) (q : BlkParser)
    → append p (xs ++ ys) ≡ (pos n, q)
    → length xs < n
    → (append p xs ≡ (negsuc 0, feed p xs)) × (append (feed p xs) ys ≡ (pos (n - length xs), q))
append-split_closed p xs ys n q h lt = elim (append_lem p xs) [
  | inl (e, o) ↦ (e, shift_back (length xs) _ n q (sym (append-append p xs ys (feed p xs) e) ∙ h))
  | inr (m, e, bound, shut, o) ↦ absurd (too_far m (append-stop p xs ys (suc m) _ e) bound)
]
  where
    shift_back :
        (k : ℕ) (r : ℤ × BlkParser) (n : ℕ) (q : BlkParser)
        → ◌≡◌ {A = ℤ × BlkParser} (shift k r.0, r.1) (pos n, q)
        → r ≡ (pos (n - k), q)
    shift_back k r n q h = ground arith

    too_far : (m : ℕ) {r : BlkParser} → append p (xs ++ ys) ≡ (pos (suc m), r) → m < length xs → ⊥
    too_far m e bound = ground arith
