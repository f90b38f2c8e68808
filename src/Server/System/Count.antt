-- ===== src/Server/System/Count.antt =====
-- The workers of the server, counted.
use pixiecpp.Base.{
  bit, count, ℕ, zero, suc, ◌<◌, ◌≡◌, refl, ap, arith, ◌==◌, inl, inr, Bool-cases, length,
}
use pixiecpp.Server.System.{everyone}

pub length-everyone : (n : ℕ) → length (everyone n) ≡ n
length-everyone zero = refl
length-everyone (suc n) = ap suc (length-everyone n)

none-everyone : (n t : ℕ) → n < suc t → count (λ x. x == t) (everyone n) ≡ 0
none-everyone zero t h = refl
none-everyone (suc n) t h = ground (arith, none-everyone n t (omega arith))

-- Every number below `n` stands once among the workers.
pub once-everyone : (n t : ℕ) → t < n → count (λ x. x == t) (everyone n) ≡ 1
once-everyone zero t h = absurd (omega arith)
once-everyone (suc n) t h = elim (Bool-cases (n == t)) [
  | inl e ↦ omega (arith, ap bit e, none-everyone n t (ground (arith, e)))
  | inr e ↦ omega (arith, ap bit e, once-everyone n t (ground (arith, e)))
]
