-- ===== src/Server/System/Schedule.antt =====
-- The server under every schedule of its threads.
use pixiecpp.Base.{
  count, count-all, ℕ, ◌+◌, ◌<◌, ◌≡◌, ◌⊎◌, refl, sym, ap, ◌∙◌, true, inl, inr, List, [], ◌∷◌, arith,
  ℤ, pos, eq_ℤ, length,
}
use pixiecpp.Server.Worker.{new_worker}
use pixiecpp.Server.System.{Setup, System, Step, Reach, boot, takes, everyone}
use pixiecpp.Server.System.Count.{length-everyone}
use pixiecpp.Server.System.Invariant.{Holds, Reach-Holds, Holds-accounts}
use pixiecpp.Server.System.Ending.{worker_round-ends}
use pixiecpp.Server.System.Effort.{effort, spent, spent_in, brought_in, Reach-effort}

pub workers-total :
    (n : ℕ) (s : System)
    → Holds n s
    → length s.idle
        + (length s.traced.queue.waiting + length s.traced.queue.woken)
        + length s.serving
      ≡ n
workers-total n s h = omega (
  arith,
  h.workers (λ _. true),
  count-all s.idle,
  count-all s.traced.queue.waiting,
  count-all s.traced.queue.woken,
  count-all s.serving,
  count-all (everyone n),
  length-everyone n,
)

-- Nothing is in the queue, nobody serves, all `n` workers wait, and each descriptor that accept
-- returned has been served as often as it was returned.
pub record AtRest (n : ℕ) (s : System) : Type 0 where
  pub none_queued : s.traced.queue.q ≡ []
  pub none_serving : s.serving ≡ []
  pub all_wait : length s.traced.queue.waiting ≡ n
  pub all_served : (a : ℤ) → count (eq_ℤ a) s.finished ≡ count (eq_ℤ a) s.traced.added

-- A worker can take a step of its own.
pub record GoesOn (p : Setup) (s : System) : Type 0 where
  pub after : System
  pub by : Step p s after
  pub own : spent by ≡ 1

-- A worker can go on, or the server is at rest.
works-or-rests :
    (p : Setup) (n : ℕ) (s : System) (q : List ℤ) (serving : List (ℕ × ℤ)) (idle woken : List ℕ)
    → 0 < n
    → Holds n s
    → s.traced.queue.q ≡ q
    → s.serving ≡ serving
    → s.idle ≡ idle
    → s.traced.queue.woken ≡ woken
    → ((0 < effort s) × GoesOn p s) ⊎ ((effort s ≡ 0) × AtRest n s)
works-or-rests p n s q ((t, a) ∷ serving) idle woken some_workers h eq es ei ew =
    let (world, world', w', ran) = worker_round-ends p t a in
    inl (
      omega (arith, ap length es),
      record {
        after = record s { idle = t ∷ s.idle; serving = serving; finished = a ∷ s.finished };
        by =
            Step.ends t a [] serving (new_worker p.protocol (pos t)) w' world world' es refl refl
              ran;
        own = refl;
      },
    )
works-or-rests p n s q [] (t ∷ idle) woken some_workers h eq es ei ew = inl (
  omega (arith, ap length ei),
  record {
    after = takes (record s { idle = idle }) t s.traced.queue;
    by = Step.enters t [] idle ei;
    own = refl;
  },
)
works-or-rests p n s q [] [] (t ∷ woken) some_workers h eq es ei ew = inl (
  omega (arith, ap length ew),
  record {
    after = takes s t (record s.traced.queue { woken = woken });
    by = Step.resumes t [] woken ew;
    own = refl;
  },
)
works-or-rests p n s (a ∷ q) [] [] [] some_workers h eq es ei ew = elim h.sound.awake [
  | inl none_waits ↦ absurd (
      omega (
        arith,
        workers-total n s h,
        ap length none_waits,
        ap length es,
        ap length ei,
        ap length ew,
      ))
  | inr empty ↦ absurd (omega (arith, ap length (sym eq ∙ empty)))
]
works-or-rests p n s [] [] [] [] some_workers h eq es ei ew = inr (
  omega (arith, ap length eq, ap length es, ap length ei, ap length ew),
  record {
    none_queued = eq;
    none_serving = es;
    all_wait = omega (arith, workers-total n s h, ap length es, ap length ei, ap length ew);
    all_served = λ a.
        omega
          (arith, Holds-accounts n s h a, ap (count (eq_ℤ a)) eq, ap (count (λ x. eq_ℤ a x.1)) es);
  },
)

pub goes-or-rests :
    (p : Setup) (n : ℕ) (s : System)
    → 0 < n
    → Holds n s
    → ((0 < effort s) × GoesOn p s) ⊎ ((effort s ≡ 0) × AtRest n s)
goes-or-rests p n s some_workers h =
    works-or-rests p n s s.traced.queue.q s.serving s.idle s.traced.queue.woken some_workers h refl
      refl refl refl

-- In every run of a server with at least one worker, in whatever order its threads step: the steps that workers take of their own are at most one for each worker,
-- two and one more for each waiting worker for each connection, and one for each wake-up without a
-- broadcast. While they are fewer, a worker can go on; when they are as many, nothing is in the
-- queue, nobody serves, all workers wait, and each descriptor that accept returned has been served
-- as often as it was returned.
pub Reach-finishes :
    (p : Setup) (n : ℕ) (u : System)
    → 0 < n
    → (r : Reach p (boot n) u)
    → ((spent_in r < n + brought_in r) × GoesOn p u)
      ⊎ ((spent_in r ≡ n + brought_in r) × AtRest n u)
Reach-finishes p n u some_workers r = elim (goes-or-rests p n u some_workers (Reach-Holds p n r)) [
  | inl (more, goes_on) ↦ inl (omega (arith, Reach-effort p n r), goes_on)
  | inr (done, rests) ↦ inr (omega (arith, Reach-effort p n r), rests)
]
