-- ===== src/Blk/Parser/Feeding.antt =====
-- BlkParser::append against feeding the bytes one by one.
use pixiecpp.Base.{
  ℕ, zero, suc, ◌+◌, ◌<◌, ◌≡◌, ◌⊎◌, inl, inr, refl, ◌∙◌, ap, Bool, true, false, Bool-cases, ◌||◌,
  [], ◌∷◌, arith, pos, negsuc, Bytes, length, take,
}
use pixiecpp.Blk.Parser.{BlkParser, parse_character, append_from, append}

-- parseCharacter on each byte in turn, with no test in between.
pub feed : BlkParser → Bytes → BlkParser
feed p [] = p
feed p (c ∷ cs) = feed (parse_character p c) cs

abbrev pub closed : BlkParser → Bool
closed p = p.parse_error || p.message_complete

-- No byte of the first `m` closes the parser.
abbrev pub StaysOpen : ℕ → BlkParser → Bytes → Type 0
StaysOpen m p buf = (j : ℕ) → j < m → closed (feed p (take (suc j) buf)) ≡ false

StaysOpen-cons :
    (m : ℕ) (p : BlkParser) (c : ℕ) (cs : Bytes)
    → closed (parse_character p c) ≡ false
    → StaysOpen m (parse_character p c) cs
    → StaysOpen (suc m) p (c ∷ cs)
unfolding feed
StaysOpen-cons m p c cs h o zero lt = h
StaysOpen-cons m p c cs h o (suc j) lt = o j (omega arith)

-- The two ways in which the loop ends: behind the last byte with the parser open all along, or at
-- the first byte that closes it, the one at index `m`.
abbrev RunsOut : ℕ → BlkParser → Bytes → Type 0
RunsOut k p buf = (append_from k p buf ≡ (negsuc 0, feed p buf)) × StaysOpen (length buf) p buf

abbrev ClosesAt : ℕ → BlkParser → Bytes → ℕ → Type 0
ClosesAt k p buf m =
    (append_from k p buf ≡ (pos (k + m), feed p (take (suc m) buf)))
    × (m < length buf)
    × (closed (feed p (take (suc m) buf)) ≡ true)
    × StaysOpen m p buf

append_from-skip :
    (k : ℕ) (p : BlkParser) (c : ℕ) (cs : Bytes)
    → closed (parse_character p c) ≡ false
    → append_from k p (c ∷ cs) ≡ append_from (k + 1) (parse_character p c) cs
unfolding append_from
append_from-skip k p c cs h = ground arith

append_from-close :
    (k : ℕ) (p : BlkParser) (c : ℕ) (cs : Bytes)
    → closed (parse_character p c) ≡ true
    → append_from k p (c ∷ cs) ≡ (pos k, parse_character p c)
unfolding append_from
append_from-close k p c cs h = ground arith

append_from-ends :
    (k : ℕ) (p : BlkParser) (buf : Bytes) → RunsOut k p buf ⊎ ((m : ℕ) × ClosesAt k p buf m)
unfolding feed
append_from-ends k p [] = inl (unfold append_from in refl, λ j h. absurd (omega arith))
append_from-ends k p (c ∷ cs) = elim (Bool-cases (closed (parse_character p c))) [
  | inl shut ↦ inr (
    0,
    (
      append_from-close k p c cs shut ∙ ap (λ n. (pos n, parse_character p c)) (omega arith),
      omega arith,
      shut,
      λ j h. absurd (omega arith),
    ),
  )
  | inr open_p ↦ elim (append_from-ends (k + 1) (parse_character p c) cs) [
    | inl (e, o) ↦
        inl (append_from-skip k p c cs open_p ∙ e, StaysOpen-cons (length cs) p c cs open_p o)
    | inr (m, (e, lt, shut, o)) ↦ inr (
      suc m,
      (
        append_from-skip k p c cs open_p
            ∙ (e ∙ ap (λ n. (pos n, feed (parse_character p c) (take (suc m) cs))) (omega arith)),
        omega arith,
        shut,
        StaysOpen-cons m p c cs open_p o,
      ),
    )
  ]
]

-- BlkParser::append returns -1 exactly when every byte was fed and none closed the parser; else it
-- returns the number of bytes up to and including the first that closed it, and has fed just those.
pub append_lem :
    (p : BlkParser) (buf : Bytes)
    → ((append p buf ≡ (negsuc 0, feed p buf)) × StaysOpen (length buf) p buf)
      ⊎ ((m : ℕ) × (append p buf ≡ (pos (suc m), feed p (take (suc m) buf)))
          × (m < length buf)
          × (closed (feed p (take (suc m) buf)) ≡ true)
          × StaysOpen m p buf)
unfolding append
append_lem p buf = elim (append_from-ends 1 p buf) [
  | inl out ↦ inl out
  | inr (m, (e, lt, shut, o)) ↦
      inr (m, e ∙ ap (λ n. (pos n, feed p (take (suc m) buf))) (omega arith), lt, shut, o)
]
