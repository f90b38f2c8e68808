-- ===== src/Http/Message/Headers.antt =====
-- The header map of an HTTP message under its operations.
use pixiecpp.Base.{
  ◌≡◌, refl, sym, ◌∙◌, ap, inl, inr, true, false, Bool-cases, none, some, [], ◌∷◌, if◌then◌else◌,
  Bytes, arith, bytes_eq, bytes_eq_sound, bytes_eq_refl,
}
use pixiecpp.Http.Message.{
  MessageHeaders, find, erase, assign, HttpMessage, set_header, get_header, remove_header,
}

true-false : ¬ (true ≡ false)
true-false e = ground arith

bytes_eq_sym : (xs ys : Bytes) → bytes_eq xs ys ≡ false → bytes_eq ys xs ≡ false
bytes_eq_sym xs ys ne = elim (Bool-cases (bytes_eq ys xs)) [
  | inl e ↦
      absurd (
        true-false
          (sym (bytes_eq_refl xs) ∙ (ap (bytes_eq xs) (sym (bytes_eq_sound ys xs e)) ∙ ne)))
  | inr f ↦ f
]

-- A key found equal to `k` is not equal to one that is not `k`.
other_key :
    (key other k : Bytes)
    → bytes_eq key k ≡ false
    → bytes_eq other k ≡ true
    → bytes_eq other key ≡ false
other_key key other k ne e =
    ap (λ z. bytes_eq z key) (bytes_eq_sound other k e) ∙ bytes_eq_sym key k ne

same_key : (key other k : Bytes) → bytes_eq key k ≡ true → bytes_eq other key ≡ bytes_eq other k
same_key key other k e = ap (bytes_eq other) (bytes_eq_sound key k e)

find-assign :
    (key other value : Bytes) (hs : MessageHeaders)
    → find other (assign key value hs) ≡ (if bytes_eq other key then some value else find other hs)
find-assign key other value [] = refl
find-assign key other value ((k, v) ∷ rest) =
    ground (arith, find-assign key other value rest, same_key key other k, other_key key other k)

find-erase :
    (key other : Bytes) (hs : MessageHeaders)
    → find other (erase key hs) ≡ (if bytes_eq other key then none else find other hs)
find-erase key other [] = ground arith
find-erase key other ((k, v) ∷ rest) =
    ground (arith, find-erase key other rest, same_key key other k, other_key key other k)

-- After setHeader, getHeader finds the value under the key that was set, and under any other key what
-- it found before.
pub get_header-set_header :
    (key other value : Bytes) (m : HttpMessage)
    → get_header other (set_header key value m)
      ≡ (if bytes_eq other key then some value else get_header other m)
unfolding get_header set_header
get_header-set_header key other value m = find-assign key other value m.headers

-- After removeHeader, getHeader finds nothing under the key that was removed, and under any other key
-- what it found before.
pub get_header-remove_header :
    (key other : Bytes) (m : HttpMessage)
    → get_header other (remove_header key m)
      ≡ (if bytes_eq other key then none else get_header other m)
unfolding get_header remove_header
get_header-remove_header key other m = find-erase key other m.headers
