-- ===== src/Base/Count.antt =====
-- How often the elements of a list pass a test.
use Prim.Native.Nat.{ℕ, ◌+◌}
use mathlib.Core.Path.{◌≡◌, refl, ap}
use mathlib.Core.Bool.{Bool, true, false}
use mathlib.Core.List.{List, [], ◌∷◌, ◌++◌}
use native.Mathlib.Omega.{arith}
use pixiecpp.Base.Lists.{length}

abbrev pub bit : Bool → ℕ
bit true = 1
bit false = 0

module _ {ℓ} {A : Type ℓ} (p : A → Bool) where
  abbrev pub count : List A → ℕ
  count [] = 0
  count (x ∷ xs) = bit (p x) + count xs

  pub count-append : (xs ys : List A) → count (xs ++ ys) ≡ count xs + count ys
  count-append [] ys = omega arith
  count-append (x ∷ xs) ys = omega (arith, count-append xs ys)

  -- Where an element stands in the middle of a list.
  pub count-at :
      (l xs ys : List A) (x : A) → l ≡ xs ++ (x ∷ ys) → count l ≡ bit (p x) + count (xs ++ ys)
  count-at l xs ys x e = omega (arith, ap count e, count-append xs (x ∷ ys), count-append xs ys)

pub count-all {ℓ} : {A : Type ℓ} (xs : List A) → count (λ _. true) xs ≡ length xs
count-all [] = refl
count-all (x ∷ xs) = omega (arith, count-all xs)

-- The counts of the lists that the operations build.
pub ruleset counts = (arith, count-append, count-at, count-all)
