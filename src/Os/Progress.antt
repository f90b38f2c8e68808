-- ===== src/Os/Progress.antt =====
-- How many replies a computation uses: what the fuel of the loops rests on.
use pixiecpp.Base.{
  ◌≤◌, ◌<◌, ◌≡◌, refl, Bool, true, false, List, [], ◌∷◌, arith, if◌then◌else◌, length,
}
use pixiecpp.Os.{
  World, M, Outcome, returned, blocked, threw, aborted, exited, bind, Call, ask, Reply,
}

-- A computation that starts in `w` and returns has left no more replies than there were, or fewer.
abbrev pub Keeps {ℓ} : {A : Type ℓ} → World → Outcome A → Type 0
Keeps w (returned a w') = length w'.script ≤ length w.script
Keeps w _ = Unit {0}

abbrev pub Uses {ℓ} : {A : Type ℓ} → World → Outcome A → Type 0
Uses w (returned a w') = length w'.script < length w.script
Uses w _ = Unit {0}

Keeps-trans {ℓ} :
    {A : Type ℓ} (w w' : World) (o : Outcome A)
    → length w'.script ≤ length w.script
    → Keeps w' o
    → Keeps w o
Keeps-trans w w' (returned a w'') h k = omega arith
Keeps-trans w w' (blocked _) h k = tt
Keeps-trans w w' (threw _) h k = tt
Keeps-trans w w' (aborted _) h k = tt
Keeps-trans w w' (exited _ _) h k = tt

Uses-trans {ℓ} :
    {A : Type ℓ} (w w' : World) (o : Outcome A)
    → length w'.script < length w.script
    → Keeps w' o
    → Uses w o
Uses-trans w w' (returned a w'') h k = omega arith
Uses-trans w w' (blocked _) h k = tt
Uses-trans w w' (threw _) h k = tt
Uses-trans w w' (aborted _) h k = tt
Uses-trans w w' (exited _ _) h k = tt

pub Uses-Keeps {ℓ} : {A : Type ℓ} (w : World) (o : Outcome A) → Uses w o → Keeps w o
Uses-Keeps w (returned a w') h = omega arith
Uses-Keeps w (blocked _) h = tt
Uses-Keeps w (threw _) h = tt
Uses-Keeps w (aborted _) h = tt
Uses-Keeps w (exited _ _) h = tt

pub Keeps-bind {ℓ κ} :
    {A : Type ℓ} {B : Type κ} (w : World) (o : Outcome A) (k : A → M B)
    → Keeps w o
    → ((a : A) (w' : World) → Keeps w' (k a w'))
    → Keeps w (bind o k)
Keeps-bind w (returned a w') k h later = Keeps-trans w w' (k a w') h (later a w')
Keeps-bind w (blocked _) k h later = tt
Keeps-bind w (threw _) k h later = tt
Keeps-bind w (aborted _) k h later = tt
Keeps-bind w (exited _ _) k h later = tt

pub Uses-bind {ℓ κ} :
    {A : Type ℓ} {B : Type κ} (w : World) (o : Outcome A) (k : A → M B)
    → Uses w o
    → ((a : A) (w' : World) → Keeps w' (k a w'))
    → Uses w (bind o k)
Uses-bind w (returned a w') k h later = Uses-trans w w' (k a w') h (later a w')
Uses-bind w (blocked _) k h later = tt
Uses-bind w (threw _) k h later = tt
Uses-bind w (aborted _) k h later = tt
Uses-bind w (exited _ _) k h later = tt

pub ask-Uses : (c : Call) (w : World) → Uses w (ask c w)
unfolding ask
ask-Uses c w = by_script w.script c w refl
  where
    by_script : (rs : List Reply) (c : Call) (w : World) → w.script ≡ rs → Uses w (ask c w)
    by_script [] c w e = rw e tt
    by_script (r ∷ rs) c w e = rw e (omega arith)

pub Keeps-if {ℓ} :
    {A : Type ℓ} (b : Bool) (m k : M A) (w : World)
    → Keeps w (m w)
    → Keeps w (k w)
    → Keeps w ((if b then m else k) w)
Keeps-if true m k w hm hk = hm
Keeps-if false m k w hm hk = hk

-- Two ways to go on after a computation that uses a reply agree where they agree in every world with
-- fewer replies.
pub bind-agree {ℓ κ} :
    {A : Type ℓ} {B : Type κ} (w : World) (o : Outcome A) (k l : A → M B)
    → Uses w o
    → ((a : A) (w' : World) → length w'.script < length w.script → k a w' ≡ l a w')
    → bind o k ≡ bind o l
bind-agree w (returned a w') k l h same = same a w' h
bind-agree w (blocked _) k l h same = refl
bind-agree w (threw _) k l h same = refl
bind-agree w (aborted _) k l h same = refl
bind-agree w (exited _ _) k l h same = refl
