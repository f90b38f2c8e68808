-- ===== src/Server/System/Invariant.antt =====
-- Where the workers and the descriptors of the server are.
use pixiecpp.Base.{
  counts, bit, count, ℕ, ◌+◌, ◌<◌, ◌≡◌, refl, ap, ◌∙◌, Bool, inl, List, [], ◌∷◌, ◌++◌, arith, ◌==◌,
  ℤ, eq_ℤ,
}
use pixiecpp.Queue
use pixiecpp.Queue.{Queue}
use pixiecpp.Queue.Threads.{
  Traced, start, after_remove, IsSound, add-IsSound, after_remove-IsSound, Step-IsSound,
}
use pixiecpp.Server.System.{Setup, System, Step, Reach, everyone, boot, takes}
use pixiecpp.Server.System.Count.{once-everyone}

abbrev pub workers_where : (ℕ → Bool) → System → ℕ
workers_where p s =
    count p s.idle
    + (count p s.traced.queue.waiting + count p s.traced.queue.woken)
    + count (λ x. p x.0) s.serving

abbrev pub taken_where : (ℤ → Bool) → System → ℕ
taken_where p s = count (λ x. p x.1) s.serving + count p s.finished

-- Every worker is in one place, and every descriptor that was handed out is in one place.
pub record Holds (n : ℕ) (s : System) : Type 0 where
  pub sound : IsSound s.traced
  pub workers : (p : ℕ → Bool) → workers_where p s ≡ count p (everyone n)
  pub descriptors : (p : ℤ → Bool) → taken_where p s ≡ count p s.traced.removed

takes-workers :
    (p : ℕ → Bool) (s : System) (t : ℕ) (q : Queue) (l : List ℤ)
    → q.q ≡ l
    → workers_where p (takes s t q)
      ≡ bit (p t)
        + (count p s.idle + (count p q.waiting + count p q.woken) + count (λ x. p x.0) s.serving)
unfolding Queue.remove
takes-workers p s t q [] e = rw e (grind counts)
takes-workers p s t q (a ∷ rest) e = rw e (omega arith)

takes-descriptors :
    (p : ℤ → Bool) (s : System) (t : ℕ) (q : Queue) (l : List ℤ)
    → q.q ≡ l
    → taken_where p s ≡ count p s.traced.removed
    → taken_where p (takes s t q) ≡ count p (takes s t q).traced.removed
unfolding Queue.remove
takes-descriptors p s t q [] e h = rw e h
takes-descriptors p s t q (a ∷ rest) e h = rw e (grind counts)

add-counts :
    (p : ℕ → Bool) (a : ℤ) (q : Queue)
    → count p (Queue.add a q).waiting + count p (Queue.add a q).woken
      ≡ count p q.waiting + count p q.woken
unfolding Queue.add
add-counts p a q = grind counts

pub Step-Holds : (p : Setup) (n : ℕ) {s u : System} → Step p s u → Holds n s → Holds n u
Step-Holds p n {s} (Step.accepts a positive) h = record {
  sound = add-IsSound s.traced a h.sound;
  workers = λ p. omega (arith, add-counts p a s.traced.queue, h.workers p);
  descriptors = h.descriptors;
}
Step-Holds p n {s} (Step.enters t xs ys e) h = record {
  sound =
      after_remove-IsSound s.traced t s.traced.queue s.traced.queue.q refl h.sound.awake
        h.sound.in_order;
  workers = λ p. grind (
    counts,
    takes-workers p (record s { idle = xs ++ ys }) t s.traced.queue s.traced.queue.q refl,
    h.workers p,
  );
  descriptors = λ p.
      takes-descriptors p (record s { idle = xs ++ ys }) t s.traced.queue s.traced.queue.q refl
        (h.descriptors p);
}
Step-Holds p n {s} (Step.resumes t xs ys e) h =
    let q = record s.traced.queue { woken = xs ++ ys } in
    record {
      sound =
          after_remove-IsSound s.traced t q s.traced.queue.q refl h.sound.awake h.sound.in_order;
      workers = λ p. grind (counts, takes-workers p s t q s.traced.queue.q refl, h.workers p);
      descriptors = λ p. takes-descriptors p s t q s.traced.queue.q refl (h.descriptors p);
    }
Step-Holds p n {s} (Step.wakes t xs ys e) h = record {
  sound = Step-IsSound (Queue.Threads.Step.wakes t xs ys e) h.sound;
  workers = λ p. grind (counts, h.workers p);
  descriptors = h.descriptors;
}
Step-Holds p n {s} (Step.ends t a xs ys w w' world world' e protocol id ran) h = record {
  sound = h.sound;
  workers = λ p. grind (counts, h.workers p);
  descriptors = λ p. grind (counts, h.descriptors p);
}

pub Reach-Holds : (p : Setup) (n : ℕ) {s : System} → Reach p (boot n) s → Holds n s
Reach-Holds p n Reach.here = record {
  sound = record { awake = inl refl; in_order = refl };
  workers = λ p. omega arith;
  descriptors = λ p. refl;
}
Reach-Holds p n (Reach.next r st) = Step-Holds p n st (Reach-Holds p n r)

pub Holds-accounts :
    (n : ℕ) (s : System)
    → Holds n s
    → (a : ℤ)
    → count (eq_ℤ a) s.traced.queue.q + taken_where (eq_ℤ a) s ≡ count (eq_ℤ a) s.traced.added
Holds-accounts n s h a =
    grind (counts, h.descriptors (eq_ℤ a), ap (count (eq_ℤ a)) h.sound.in_order)

-- In every state that the server's threads can reach: each worker is in exactly one place, at the
-- head of its loop, in Queue::remove or in a handler, and each descriptor stands in the queue, with
-- the workers that serve it and among the finished ones as often, together, as accept returned it,
-- so that none is lost and none is served twice.
pub Reach-accounts :
    (p : Setup) (n : ℕ) (s : System)
    → Reach p (boot n) s
    → ((t : ℕ) → t < n → workers_where (λ x. x == t) s ≡ 1)
      × ((a : ℤ)
          → count (eq_ℤ a) s.traced.queue.q + taken_where (eq_ℤ a) s
            ≡ count (eq_ℤ a) s.traced.added)
Reach-accounts p n s r =
    let h = Reach-Holds p n r in
    (λ t lt. h.workers (λ x. x == t) ∙ once-everyone n t lt, Holds-accounts n s h)
