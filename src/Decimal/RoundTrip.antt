-- ===== src/Decimal/RoundTrip.antt =====
-- Reading back what was printed.
use pixiecpp.Base.{
  ℕ, zero, suc, ◌+◌, ◌-◌, ◌/◌, ◌%◌, ◌≤◌, ◌<◌, ◌≡◌, ◌≢◌, some, [], ◌∷◌, arith, ℤ, pos, negsuc,
  FitsInt, Bytes, All, All-map,
}
use pixiecpp.Decimal.{digits, format_ℕ, to_string, scan, magnitude, after_space, skip_space, stoi}

-- `digits` writes the digits of `n` before `out`, so reading them and then `out` is reading `out`
-- behind the value `n`.
scan-digits : (f n : ℕ) (out : Bytes) → n < f → scan (digits f n out) 0 ≡ scan out n
unfolding digits scan
scan-digits zero n out h = elim h [ ]
scan-digits (suc f) n out h = ground (arith, scan-digits f (n / 10) ((48 + n % 10) ∷ out))

abbrev FirstDigit : Bytes → Type 0
FirstDigit [] = ⊥
FirstDigit (c ∷ cs) = (48 ≤ c) × (c ≤ 57)

digits-FirstDigit : (f n : ℕ) (out : Bytes) → n < f → FirstDigit (digits f n out)
unfolding digits
digits-FirstDigit zero n out h = elim h [ ]
digits-FirstDigit (suc f) n out h =
    ground (arith, digits-FirstDigit f (n / 10) ((48 + n % 10) ∷ out))

magnitude-scan : (s : Bytes) → FirstDigit s → magnitude s ≡ some (scan s 0)
unfolding magnitude scan
magnitude-scan [] h = absurd h
magnitude-scan (c ∷ cs) h = ground arith

skip_space-digit : (s : Bytes) → FirstDigit s → skip_space s ≡ some (pos (scan s 0))
unfolding skip_space after_space magnitude scan
skip_space-digit [] h = absurd h
skip_space-digit (c ∷ cs) h = ground arith

scan-format_ℕ : (n : ℕ) → scan (format_ℕ n) 0 ≡ n
unfolding format_ℕ scan
scan-format_ℕ n = scan-digits (suc n) n [] (omega arith)

format_ℕ-FirstDigit : (n : ℕ) → FirstDigit (format_ℕ n)
unfolding format_ℕ
format_ℕ-FirstDigit n = digits-FirstDigit (suc n) n [] (omega arith)

skip_space-minus :
    (s : Bytes) → FirstDigit s → scan s 0 ≢ 0 → skip_space (b'-' ∷ s) ≡ some (negsuc (scan s 0 - 1))
unfolding skip_space after_space
skip_space-minus s h ne = ground (arith, magnitude-scan s h)

-- Every `int` is read back from its print.
pub stoi-to_string : (v : ℤ) → FitsInt v → stoi (to_string v) ≡ some v
unfolding stoi to_string
stoi-to_string (pos n) h =
    rw (skip_space-digit (format_ℕ n) (format_ℕ-FirstDigit n), scan-format_ℕ n) (ground arith)
stoi-to_string (negsuc n) h =
    rw
      (
        skip_space-minus (format_ℕ (suc n)) (format_ℕ-FirstDigit (suc n))
            (omega (arith, scan-format_ℕ (suc n))),
        scan-format_ℕ (suc n),
      )
      (ground arith)

digits-All : (f n : ℕ) (out : Bytes) → All (λ c. 44 < c) out → All (λ c. 44 < c) (digits f n out)
unfolding digits
digits-All zero n out h = h
digits-All (suc f) n out h = ground (arith, digits-All f (n / 10) ((48 + n % 10) ∷ out))

-- The print of an `int` is of digits and the minus sign.
pub to_string-All : (v : ℤ) → All (λ c. 44 < c) (to_string v)
unfolding to_string format_ℕ
to_string-All (pos n) = digits-All (suc n) n [] tt
to_string-All (negsuc n) = (omega arith, digits-All (suc (suc n)) (suc n) [] tt)

-- No print of an `int` holds a newline.
pub to_string-ne_newline : (v : ℤ) → All (λ c. c ≢ 10) (to_string v)
to_string-ne_newline v = All-map (λ c h. omega arith) (to_string v) (to_string-All v)
