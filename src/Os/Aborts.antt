-- ===== src/Os/Aborts.antt =====
-- What a computation has done when an assertion of it fails.
use pixiecpp.Base.{◌≡◌, refl, Bool, true, false, List, [], ◌∷◌, ◌++◌, if◌then◌else◌}
use pixiecpp.Os.{
  World, M, Outcome, returned, blocked, threw, aborted, exited, bind, Call, ask, Reply,
}
use pixiecpp.Os.Exchange.{Exchange, Leads, Leads-trans, Makes}

-- A computation that starts in `w` and fails an assertion has made exchanges that satisfy `E`.
abbrev pub Aborts {ℓ κ} : {A : Type ℓ} → World → (List Exchange → Type κ) → Outcome A → Type κ
Aborts w E (aborted w') = (t : List Exchange) × Leads w w' t × E t
Aborts w E _ = Unit

Aborts-later {ℓ κ} :
    {A : Type ℓ} (w w' : World) (t : List Exchange) (E : List Exchange → Type κ) (o : Outcome A)
    → Leads w w' t
    → Aborts w' (λ t'. E (t ++ t')) o
    → Aborts w E o
Aborts-later w w' t E (aborted w'') l (t', l', e) = (t ++ t', Leads-trans w w' w'' t t' l l', e)
Aborts-later w w' t E (returned _ _) l h = tt
Aborts-later w w' t E (blocked _) l h = tt
Aborts-later w w' t E (threw _) l h = tt
Aborts-later w w' t E (exited _ _) l h = tt

pub Aborts-bind {ℓ κ μ ν} :
    {A : Type ℓ} {B : Type κ} (w : World) (o : Outcome A) (k : A → M B)
    (P : A → List Exchange → Type μ) (E : List Exchange → Type ν)
    → Makes w P o
    → Aborts w E o
    → ((a : A) (w' : World) (t : List Exchange) → P a t → Aborts w' (λ t'. E (t ++ t')) (k a w'))
    → Aborts w E (bind o k)
Aborts-bind w (returned a w') k P E (t, l, p) h later =
    Aborts-later w w' t E (k a w') l (later a w' t p)
Aborts-bind w (aborted w') k P E made h later = h
Aborts-bind w (blocked _) k P E made h later = tt
Aborts-bind w (threw _) k P E made h later = tt
Aborts-bind w (exited _ _) k P E made h later = tt

pub Aborts-if {ℓ κ} :
    {A : Type ℓ} (b : Bool) (m k : M A) (w : World) (E : List Exchange → Type κ)
    → (b ≡ true → Aborts w E (m w))
    → (b ≡ false → Aborts w E (k w))
    → Aborts w E ((if b then m else k) w)
Aborts-if true m k w E hm hk = hm refl
Aborts-if false m k w E hm hk = hk refl

pub Aborts-map {ℓ κ μ} :
    {A : Type ℓ} (w : World) (o : Outcome A) (E : List Exchange → Type κ)
    (F : List Exchange → Type μ)
    → ((t : List Exchange) → E t → F t)
    → Aborts w E o
    → Aborts w F o
Aborts-map w (aborted w') E F f (t, l, e) = (t, l, f t e)
Aborts-map w (returned _ _) E F f h = tt
Aborts-map w (blocked _) E F f h = tt
Aborts-map w (threw _) E F f h = tt
Aborts-map w (exited _ _) E F f h = tt

pub ask-Aborts {κ} : (c : Call) (w : World) (E : List Exchange → Type κ) → Aborts w E (ask c w)
unfolding ask
ask-Aborts c w E = by_script w.script c w refl
  where
    by_script : (rs : List Reply) (c : Call) (w : World) → w.script ≡ rs → Aborts w E (ask c w)
    by_script [] c w e = rw e tt
    by_script (r ∷ rs) c w e = rw e tt
