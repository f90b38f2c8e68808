-- ===== src/Os/Exchange.antt =====
-- The system calls of a computation with their replies, and the bytes that they carry.
use pixiecpp.Base.{
  ◌≤◌, ◌≡◌, refl, sym, ap, ◌∙◌, Bool, true, false, List, [], ◌∷◌, ◌++◌, append_assoc, append-nil,
  if◌then◌else◌, ℤ, eq_ℤ, to_ℕ, Bytes, length, take, drop,
}
use pixiecpp.Os.{
  World, M, Outcome, returned, blocked, threw, aborted, exited, bind, Call, ask, Reply, sys_read,
  sys_write,
}

abbrev pub Exchange : Type 0
Exchange = Call × Reply

abbrev pub calls : List Exchange → List Call
calls [] = []
calls ((c, r) ∷ t) = c ∷ calls t

abbrev pub replies : List Exchange → List Reply
replies [] = []
replies ((c, r) ∷ t) = r ∷ replies t

-- The calls between two worlds, each with its reply, where every call has one.
abbrev pub zip : List Call → List Reply → List Exchange
zip [] rs = []
zip (c ∷ cs) [] = []
zip (c ∷ cs) (r ∷ rs) = (c, r) ∷ zip cs rs

abbrev pub exchanged : World → World → List Exchange
exchanged w w' = zip (drop (length w.log) w'.log) w.script

-- The bytes that one exchange reads from `fd`, and those of its bytes that `fd` takes.
abbrev pub got : ℤ → Call → Reply → Bytes
got fd (sys_read f n) r = if eq_ℤ f fd then take (to_ℕ r.value) r.bytes else []
got fd _ r = []

abbrev pub gave : ℤ → Call → Reply → Bytes
gave fd (sys_write f bs) r = if eq_ℤ f fd then take (to_ℕ r.value) bs else []
gave fd _ r = []

abbrev pub received : ℤ → List Exchange → Bytes
received fd [] = []
received fd ((c, r) ∷ t) = got fd c r ++ received fd t

abbrev pub sent : ℤ → List Exchange → Bytes
sent fd [] = []
sent fd ((c, r) ∷ t) = gave fd c r ++ sent fd t

-- A read stores the number of bytes that it returns.
abbrev pub Stores : Call → Reply → Type 0
Stores (sys_read f n) r = to_ℕ r.value ≤ length r.bytes
Stores _ r = Unit {0}

abbrev pub IsHonest : List Exchange → Type 0
IsHonest [] = Unit {0}
IsHonest ((c, r) ∷ t) = Stores c r × IsHonest t

-- A write takes no more bytes than it is given.
abbrev pub Takes : Call → Reply → Type 0
Takes (sys_write f bs) r = to_ℕ r.value ≤ length bs
Takes _ r = Unit {0}

abbrev pub IsBounded : List Exchange → Type 0
IsBounded [] = Unit {0}
IsBounded ((c, r) ∷ t) = Takes c r × IsBounded t

pub IsBounded-append : (t t' : List Exchange) → IsBounded (t ++ t') → IsBounded t × IsBounded t'
IsBounded-append [] t' h = (tt, h)
IsBounded-append ((c, r) ∷ t) t' (s, h) = let (a, b) = IsBounded-append t t' h in ((s, a), b)

pub received-append :
    (fd : ℤ) (t t' : List Exchange) → received fd (t ++ t') ≡ received fd t ++ received fd t'
received-append fd [] t' = refl
received-append fd ((c, r) ∷ t) t' =
    rw (received-append fd t t') (sym (append_assoc (got fd c r) (received fd t) (received fd t')))

pub sent-append : (fd : ℤ) (t t' : List Exchange) → sent fd (t ++ t') ≡ sent fd t ++ sent fd t'
sent-append fd [] t' = refl
sent-append fd ((c, r) ∷ t) t' =
    rw (sent-append fd t t') (sym (append_assoc (gave fd c r) (sent fd t) (sent fd t')))

pub IsHonest-append : (t t' : List Exchange) → IsHonest (t ++ t') → IsHonest t × IsHonest t'
IsHonest-append [] t' h = (tt, h)
IsHonest-append ((c, r) ∷ t) t' (s, h) = let (a, b) = IsHonest-append t t' h in ((s, a), b)

calls-append : (t t' : List Exchange) → calls (t ++ t') ≡ calls t ++ calls t'
calls-append [] t' = refl
calls-append ((c, r) ∷ t) t' = ap (λ l. c ∷ l) (calls-append t t')

replies-append : (t t' : List Exchange) → replies (t ++ t') ≡ replies t ++ replies t'
replies-append [] t' = refl
replies-append ((c, r) ∷ t) t' = ap (λ l. r ∷ l) (replies-append t t')

-- The exchanges `t` lead from one world to another.
pub record Leads (w w' : World) (t : List Exchange) : Type 0 where
  pub logged : w'.log ≡ w.log ++ calls t
  pub used : w.script ≡ replies t ++ w'.script

pub Leads-refl : (w : World) → Leads w w []
Leads-refl w = record { logged = sym (append-nil w.log); used = refl }

pub Leads-trans :
    (w w' w'' : World) (t t' : List Exchange)
    → Leads w w' t
    → Leads w' w'' t'
    → Leads w w'' (t ++ t')
Leads-trans w w' w'' t t' a b = record {
  logged =
      b.logged
      ∙ (ap (λ l. l ++ calls t') a.logged
          ∙ (append_assoc w.log (calls t) (calls t')
              ∙ ap (λ l. w.log ++ l) (sym (calls-append t t'))));
  used =
      a.used
      ∙ (ap (λ l. replies t ++ l) b.used
          ∙ (sym (append_assoc (replies t) (replies t') w''.script)
              ∙ ap (λ l. l ++ w''.script) (sym (replies-append t t'))));
}

drop-exact : {A : Type 0} (xs ys : List A) → drop (length xs) (xs ++ ys) ≡ ys
drop-exact [] ys = refl
drop-exact (x ∷ xs) ys = drop-exact xs ys

zip-calls : (t : List Exchange) (rest : List Reply) → zip (calls t) (replies t ++ rest) ≡ t
zip-calls [] rest = refl
zip-calls ((c, r) ∷ t) rest = ap (λ l. (c, r) ∷ l) (zip-calls t rest)

pub Leads-exchanged : (w w' : World) (t : List Exchange) → Leads w w' t → exchanged w w' ≡ t
Leads-exchanged w w' t l =
    ap (λ k. zip (drop (length w.log) k) w.script) l.logged
    ∙ (ap (λ k. zip k w.script) (drop-exact w.log (calls t))
        ∙ (ap (λ k. zip (calls t) k) l.used ∙ zip-calls t w'.script))

-- A computation that starts in `w` and returns has made exchanges that satisfy `P` with its result.
abbrev pub Makes {ℓ κ} : {A : Type ℓ} → World → (A → List Exchange → Type κ) → Outcome A → Type κ
Makes w P (returned a w') = (t : List Exchange) × Leads w w' t × P a t
Makes w P _ = Unit

pub Makes-bind {ℓ κ μ ν} :
    {A : Type ℓ} {B : Type κ} (w : World) (o : Outcome A) (k : A → M B)
    (P : A → List Exchange → Type μ) (Q : B → List Exchange → Type ν)
    → Makes w P o
    → ((a : A) (w' : World) (t : List Exchange) → P a t → Makes w' (λ b t'. Q b (t ++ t')) (k a w'))
    → Makes w Q (bind o k)
Makes-bind {B = B} w (returned a w') k P Q (t, l, p) later = onward (k a w') (later a w' t p)
  where
    onward : (o : Outcome B) → Makes w' (λ b t'. Q b (t ++ t')) o → Makes w Q o
    onward (returned b w'') (t', l', q) = (t ++ t', Leads-trans w w' w'' t t' l l', q)
    onward (blocked _) h = tt
    onward (threw _) h = tt
    onward (aborted _) h = tt
    onward (exited _ _) h = tt
Makes-bind w (blocked _) k P Q h later = tt
Makes-bind w (threw _) k P Q h later = tt
Makes-bind w (aborted _) k P Q h later = tt
Makes-bind w (exited _ _) k P Q h later = tt

pub Makes-if {ℓ κ} :
    {A : Type ℓ} (b : Bool) (m k : M A) (w : World) (P : A → List Exchange → Type κ)
    → (b ≡ true → Makes w P (m w))
    → (b ≡ false → Makes w P (k w))
    → Makes w P ((if b then m else k) w)
Makes-if true m k w P hm hk = hm refl
Makes-if false m k w P hm hk = hk refl

pub ask-Makes : (c : Call) (w : World) → Makes w (λ r t. t ≡ (c, r) ∷ []) (ask c w)
unfolding ask
ask-Makes c w = by_script w.script c w refl
  where
    by_script :
        (rs : List Reply) (c : Call) (w : World)
        → w.script ≡ rs
        → Makes w (λ r t. t ≡ (c, r) ∷ []) (ask c w)
    by_script [] c w e = rw e tt
    by_script (r ∷ rs) c w e = rw e ((c, r) ∷ [], record { logged = refl; used = refl }, refl)

pub Makes-map {ℓ κ μ} :
    {A : Type ℓ} (w : World) (o : Outcome A) (P : A → List Exchange → Type κ)
    (Q : A → List Exchange → Type μ)
    → ((a : A) (t : List Exchange) → P a t → Q a t)
    → Makes w P o
    → Makes w Q o
Makes-map w (returned a w') P Q f (t, l, p) = (t, l, f a t p)
Makes-map w (blocked _) P Q f h = tt
Makes-map w (threw _) P Q f h = tt
Makes-map w (aborted _) P Q f h = tt
Makes-map w (exited _ _) P Q f h = tt
