-- ===== src/Server/System/Progress.antt =====
-- The server serves what it has accepted.
use pixiecpp.Base.{count, ℕ, zero, suc, ◌<◌, ◌≡◌, refl, ap, ◌∙◌, inl, inr, [], arith, ℤ, eq_ℤ}
use pixiecpp.Server.System.{Setup, System, Step, Reach, boot}
use pixiecpp.Server.System.Invariant.{Holds, Step-Holds, Reach-Holds}
use pixiecpp.Server.System.Effort.{effort, spent, brought, Step-effort}
use pixiecpp.Server.System.Schedule.{AtRest, goes-or-rests}

-- A worker's own step brings no work, and no connection.
record Own {p : Setup} {s u : System} (st : Step p s u) : Type 0 where
  pub brings_nothing : brought st ≡ 0
  pub same_added : u.traced.added ≡ s.traced.added

spent-Own : {p : Setup} {s u : System} (st : Step p s u) → spent st ≡ 1 → Own st
spent-Own (Step.accepts a positive) e = absurd (omega (arith, e))
spent-Own (Step.wakes t xs ys e') e = absurd (omega (arith, e))
spent-Own (Step.enters t xs ys e') e = record { brings_nothing = refl; same_added = refl }
spent-Own (Step.resumes t xs ys e') e = record { brings_nothing = refl; same_added = refl }
spent-Own (Step.ends t a xs ys w w' world world' e' protocol id ran) e = record {
  brings_nothing = refl;
  same_added = refl;
}

Reach-first : (p : Setup) (s t : System) {u : System} → Step p s t → Reach p t u → Reach p s u
Reach-first p s t st Reach.here = Reach.next Reach.here st
Reach-first p s t st (Reach.next r st') = Reach.next (Reach-first p s t st r) st'

record Drained (p : Setup) (n : ℕ) (s u : System) : Type 0 where
  pub reached : Reach p s u
  pub same_added : u.traced.added ≡ s.traced.added
  pub rests : AtRest n u

-- The workers go on until they rest.
drain :
    (p : Setup) (n fuel : ℕ) (s : System)
    → 0 < n
    → Holds n s
    → effort s < fuel
    → (u : System) × Drained p n s u
drain p n zero s some_workers h lt = absurd (omega arith)
drain p n (suc fuel) s some_workers h lt = elim (goes-or-rests p n s some_workers h) [
  | inr (done, rests) ↦ (s, record { reached = Reach.here; same_added = refl; rests = rests })
  | inl (more, on) ↦
      let own = spent-Own on.by on.own in
      let (u, d) =
        drain p n fuel on.after some_workers (Step-Holds p n on.by h)
          (omega (arith, Step-effort p n on.by h, on.own, own.brings_nothing)) in
      (
        u,
        record {
          reached = Reach-first p s on.after on.by d.reached;
          same_added = d.same_added ∙ own.same_added;
          rests = d.rests;
        },
      )
]

-- From every state that the threads of a server with at least one worker can reach: without another connection, the threads can go on to a state in which nothing is
-- in the queue, nobody serves, and every descriptor that accept returned has been served as often
-- as it was returned.
pub Reach-serves :
    (p : Setup) (n : ℕ) (s : System)
    → 0 < n
    → Reach p (boot n) s
    → (u : System) × Reach p s u
      × (u.traced.queue.q ≡ [])
      × (u.serving ≡ [])
      × ((a : ℤ) → count (eq_ℤ a) u.finished ≡ count (eq_ℤ a) s.traced.added)
Reach-serves p n s some_workers r =
    let (u, d) = drain p n (suc (effort s)) s some_workers (Reach-Holds p n r) (omega arith) in
    (
      u,
      d.reached,
      d.rests.none_queued,
      d.rests.none_serving,
      λ a. d.rests.all_served a ∙ ap (count (eq_ℤ a)) d.same_added,
    )
