-- ===== src/Decimal.antt =====
-- The two conversions of the standard library that the BLK protocol goes by: `std::to_string(int)`,
-- which BlkMessage::toRawString prints a port and a length with, and `std::stoi`, which
-- BlkParser::parseInt reads them with.
pub mod RoundTrip
use pixiecpp.Base.{
  ℕ, zero, suc, ◌+◌, ◌-◌, ◌*◌, ◌/◌, ◌%◌, ◌≡◌, refl, Bool, ◌&&◌, Option, none, some, [], ◌∷◌, ltb,
  leb, ◌==◌, if◌then◌else◌, ℤ, pos, negsuc, minus, fits_int, Bytes, codes, isspace,
}

-- The digits of `n` in front of `out`, last digit first. `n < f` rounds suffice.
digits : ℕ → ℕ → Bytes → Bytes
digits zero n out = out
digits (suc f) n out =
    let rest = digits f (n / 10) ((48 + n % 10) ∷ out) in if ltb n 10 then (48 + n) ∷ out else rest

pub format_ℕ : ℕ → Bytes
format_ℕ n = digits (suc n) n []

-- std::to_string(int)
unfoldable pub to_string : ℤ → Bytes
unfolding format_ℕ digits
to_string (pos n) = format_ℕ n
to_string (negsuc n) = b'-' ∷ format_ℕ (suc n)

abbrev pub is_digit : ℕ → Bool
is_digit c = leb b'0' c && leb c b'9'

-- The value of the longest run of digits, behind the value `n` of those that stand before it.
scan : Bytes → ℕ → ℕ
scan [] n = n
scan (c ∷ cs) n = let rest = scan cs (n * 10 + (c - 48)) in if is_digit c then rest else n

-- strtol in base 10 fails unless a digit stands first.
pub magnitude : Bytes → Option ℕ
unfolding scan
magnitude [] = none
magnitude (c ∷ cs) = if is_digit c then some (scan cs (c - 48)) else none

abbrev checked : Option ℤ → Option ℤ
checked none = none
checked (some v) = if fits_int v then some v else none

abbrev signed : (ℕ → ℤ) → Option ℕ → Option ℤ
signed f none = none
signed f (some n) = some (f n)

after_space : Bytes → Option ℤ
unfolding magnitude
after_space [] = none
after_space (c ∷ cs) =
    if c == b'-'
    then signed minus (magnitude cs)
    else if c == b'+'
    then signed pos (magnitude cs)
    else signed pos (magnitude (c ∷ cs))

skip_space : Bytes → Option ℤ
unfolding after_space
skip_space [] = none
skip_space (c ∷ cs) = let rest = skip_space cs in if isspace c then rest else after_space (c ∷ cs)

-- std::stoi: space, a sign and digits; what follows the digits is ignored. `none` stands for the
-- two exceptions: no digits, and a value that no `int` holds.
unfoldable pub stoi : Bytes → Option ℤ
unfolding skip_space
stoi s = checked (skip_space s)

trailing_text : stoi (codes " 12abc") ≡ some (pos 12)
unfolding stoi
trailing_text = refl

negative : stoi (codes "-7") ≡ some (negsuc 6)
unfolding stoi
negative = refl

out_of_range : stoi (codes "2147483648") ≡ none
unfolding stoi
out_of_range = refl

printed : to_string (negsuc 1203) ≡ codes "-1204"
unfolding to_string
printed = refl
