-- ===== src/Os/Calls.antt =====
-- Which calls a computation makes, however it ends: one rule for each way to build a computation.
use pixiecpp.Base.{
  ℕ, ◌≡◌, refl, sym, ap, ◌∙◌, Bool, true, false, List, [], ◌∷◌, ◌++◌, append_assoc, append-nil,
  if◌then◌else◌, All, All-append,
}
use pixiecpp.Os.{
  World, M, Outcome, returned, blocked, threw, aborted, exited, bind, pure, ◌>>=◌, ◌>>◌, note, ask,
  when, throw_exception, assert_failed, exit, Call, Reply,
}

-- From `w` to `w'` all calls satisfy `G`.
abbrev pub Adds : (Call → Type 0) → World → World → Type 0
Adds G w w' = (cs : List Call) × (w'.log ≡ w.log ++ cs) × All G cs

-- The calls up to the end, and the result, if there is one.
abbrev pub Ends {ℓ} : {A : Type ℓ} → (Call → Type 0) → (A → Type 0) → World → Outcome A → Type 0
Ends G P w (returned a w') = Adds G w w' × P a
Ends G P w (blocked w') = Adds G w w'
Ends G P w (threw w') = Adds G w w'
Ends G P w (aborted w') = Adds G w w'
Ends G P w (exited c w') = Adds G w w'

-- From every world, `m` makes only calls that satisfy `G`, and what it returns satisfies `P`.
pub record Only {ℓ} {A : Type ℓ} (G : Call → Type 0) (P : A → Type 0) (m : M A) : Type ℓ where
  pub from : (w : World) → Ends G P w (m w)

module _ (G : Call → Type 0) where
  Adds-none : (w : World) → Adds G w w
  Adds-none w = ([], sym (append-nil w.log), tt)

  Adds-trans : (w w' w'' : World) → Adds G w w' → Adds G w' w'' → Adds G w w''
  Adds-trans w w' w'' (cs, e, h) (cs', e', h') =
      (cs ++ cs', e' ∙ (ap (λ l. l ++ cs') e ∙ append_assoc w.log cs cs'), All-append G cs cs' h h')

  pub Ends-later {ℓ} :
      {A : Type ℓ} (P : A → Type 0) (w w' : World) (o : Outcome A)
      → Adds G w w'
      → Ends G P w' o
      → Ends G P w o
  Ends-later P w w' (returned a u) d (d', p) = (Adds-trans w w' u d d', p)
  Ends-later P w w' (blocked u) d d' = Adds-trans w w' u d d'
  Ends-later P w w' (threw u) d d' = Adds-trans w w' u d d'
  Ends-later P w w' (aborted u) d d' = Adds-trans w w' u d d'
  Ends-later P w w' (exited c u) d d' = Adds-trans w w' u d d'

  Ends-bind {ℓ κ} :
      {A : Type ℓ} {B : Type κ} (P : A → Type 0) (Q : B → Type 0) (f : A → M B) (w : World)
      (o : Outcome A)
      → Ends G P w o
      → ((a : A) → P a → Only G Q (f a))
      → Ends G Q w (bind o f)
  Ends-bind P Q f w (returned a w') (d, p) later =
      Ends-later Q w w' (f a w') d ((later a p).from w')
  Ends-bind P Q f w (blocked u) d later = d
  Ends-bind P Q f w (threw u) d later = d
  Ends-bind P Q f w (aborted u) d later = d
  Ends-bind P Q f w (exited c u) d later = d

  by_script :
      (P : Reply → Type 0) (c : Call) (rs : List Reply) (log : List Call)
      → G c
      → ((r : Reply) → P r)
      → Ends G P (record { script = rs; log = log }) (ask c (record { script = rs; log = log }))
  unfolding ask
  by_script P c [] log g p = (c ∷ [], refl, (g, tt))
  by_script P c (r ∷ rs) log g p = ((c ∷ [], refl, (g, tt)), p r)

module _ {G : Call → Type 0} where
  pub Only-bind {ℓ κ} :
      {A : Type ℓ} {B : Type κ} {P : A → Type 0} {Q : B → Type 0} {m : M A} {f : A → M B}
      → Only G P m
      → ((a : A) → P a → Only G Q (f a))
      → Only G Q (m >>= f)
  Only-bind {P = P} {Q = Q} {m = m} {f = f} k later = record {
    from = λ w. Ends-bind G P Q f w (m w) (k.from w) later;
  }

  pub Only-then {ℓ κ} :
      {A : Type ℓ} {B : Type κ} {Q : B → Type 0} {m : M A} {k : M B}
      → Only G (λ _. Unit {0}) m
      → Only G Q k
      → Only G Q (m >> k)
  Only-then done later = Only-bind done (λ _ _. later)

  pub Only-pure {ℓ} : {A : Type ℓ} {P : A → Type 0} {a : A} → P a → Only G P (pure a)
  Only-pure p = record { from = λ w. (Adds-none G w, p) }

  pub Only-note : {P : Unit {0} → Type 0} (c : Call) → G c → P tt → Only G P (note c)
  Only-note c g p = record { from = λ w. ((c ∷ [], refl, (g, tt)), p) }

  pub Only-ask : {P : Reply → Type 0} (c : Call) → G c → ((r : Reply) → P r) → Only G P (ask c)
  Only-ask {P = P} c g p = record { from = λ w. by_script G P c w.script w.log g p }

  pub Only-throw {ℓ} : {A : Type ℓ} {P : A → Type 0} → Only G P (throw_exception {A = A})
  Only-throw = record { from = λ w. Adds-none G w }

  pub Only-assert {ℓ} : {A : Type ℓ} {P : A → Type 0} → Only G P (assert_failed {A = A})
  Only-assert = record { from = λ w. Adds-none G w }

  pub Only-exit {ℓ} : {A : Type ℓ} {P : A → Type 0} {c : ℕ} → Only G P (exit {A = A} c)
  Only-exit = record { from = λ w. Adds-none G w }

  pub Only-blocked {ℓ} : {A : Type ℓ} {P : A → Type 0} → Only G P (λ w. blocked w)
  Only-blocked = record { from = λ w. Adds-none G w }

  pub Only-if {ℓ} :
      {A : Type ℓ} {P : A → Type 0} (b : Bool) {m k : M A}
      → (b ≡ true → Only G P m)
      → (b ≡ false → Only G P k)
      → Only G P (if b then m else k)
  Only-if true hm hk = hm refl
  Only-if false hm hk = hk refl

  pub Only-when :
      {P : Unit {0} → Type 0} (b : Bool) {m : M (Unit {0})}
      → Only G P m
      → P tt
      → Only G P (when b m)
  Only-when true h p = h
  Only-when false h p = Only-pure p
