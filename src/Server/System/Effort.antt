-- ===== src/Server/System/Effort.antt =====
-- The steps that the server's threads can take, counted.
use pixiecpp.Base.{
  ℕ, suc, ◌+◌, ◌*◌, ◌≡◌, ◌⊎◌, ◌++◌, refl, ap, inl, inr, List, [], ◌∷◌, arith, ℤ, length, lengths,
  append-nil,
}
use pixiecpp.Queue
use pixiecpp.Queue.{Queue}
use pixiecpp.Server.System.{Setup, System, Step, Reach, boot, takes}
use pixiecpp.Server.System.Count.{length-everyone}
use pixiecpp.Server.System.Invariant.{Holds, Reach-Holds}

-- The steps that the workers still have to take before all of them wait: two for each descriptor in
-- the queue, two for each in a handler, one for each worker that is about to test the queue.
abbrev pub effort : System → ℕ
effort s =
    2 * length s.traced.queue.q + 2 * length s.serving + length s.idle + length s.traced.queue.woken

-- Whether a step is one of a worker's own: it tests the queue or ends its handler.
abbrev pub spent : {p : Setup} {s u : System} → Step p s u → ℕ
spent (Step.accepts a positive) = 0
spent (Step.wakes t xs ys e) = 0
spent (Step.enters t xs ys e) = 1
spent (Step.resumes t xs ys e) = 1
spent (Step.ends t a xs ys w w' world world' e protocol id ran) = 1

-- The work that a step brings: a connection is taken and served, after every thread that waits was
-- woken for it; a thread that wakes by itself tests the queue again.
abbrev pub brought : {p : Setup} {s u : System} → Step p s u → ℕ
brought {s = s} (Step.accepts a positive) = 2 + length s.traced.queue.waiting
brought (Step.wakes t xs ys e) = 1
brought (Step.enters t xs ys e) = 0
brought (Step.resumes t xs ys e) = 0
brought (Step.ends t a xs ys w w' world world' e protocol id ran) = 0

abbrev pub spent_in : {p : Setup} {s u : System} → Reach p s u → ℕ
spent_in Reach.here = 0
spent_in (Reach.next r st) = spent st + spent_in r

abbrev pub brought_in : {p : Setup} {s u : System} → Reach p s u → ℕ
brought_in Reach.here = 0
brought_in (Reach.next r st) = brought st + brought_in r

takes-effort :
    (s : System) (t : ℕ) (q : Queue) (l : List ℤ)
    → q.q ≡ l
    → effort (takes s t q) ≡ 2 * length l + 2 * length s.serving + length s.idle + length q.woken
unfolding Queue.remove
takes-effort s t q [] e = rw e (omega arith)
takes-effort s t q (a ∷ rest) e = rw e (omega arith)

-- Threads wait only while the queue is empty, so an item that is added wakes all of them.
add-effort :
    (a : ℤ) (q : Queue)
    → (q.waiting ≡ []) ⊎ (q.q ≡ [])
    → 2 * length (Queue.add a q).q + length (Queue.add a q).woken
      ≡ 2 + length q.waiting + 2 * length q.q + length q.woken
unfolding Queue.add
add-effort a q (inl e) = rw e (grind (lengths, append-nil q.woken))
add-effort a q (inr e) = rw e (grind lengths)

-- A list from whose middle an element is taken.
length-at :
    {A : Type 0} (l xs ys : List A) (x : A)
    → l ≡ xs ++ (x ∷ ys)
    → length l ≡ suc (length (xs ++ ys))
length-at l xs ys x e = grind (lengths, ap length e)

-- A step takes from the effort what it spends, and adds what it brings.
pub Step-effort :
    (p : Setup) (n : ℕ) {s u : System} (st : Step p s u)
    → Holds n s
    → spent st + effort u ≡ effort s + brought st
Step-effort p n {s} (Step.accepts a positive) h =
    omega (arith, add-effort a s.traced.queue h.sound.awake)
Step-effort p n {s} (Step.enters t xs ys e) h = omega (
  arith,
  takes-effort (record s { idle = xs ++ ys }) t s.traced.queue s.traced.queue.q refl,
  length-at s.idle xs ys t e,
)
Step-effort p n {s} (Step.resumes t xs ys e) h = omega (
  arith,
  takes-effort s t (record s.traced.queue { woken = xs ++ ys }) s.traced.queue.q refl,
  length-at s.traced.queue.woken xs ys t e,
)
Step-effort p n {s} (Step.wakes t xs ys e) h = grind lengths
Step-effort p n {s} (Step.ends t a xs ys w w' world world' e protocol id ran) h =
    omega (arith, length-at s.serving xs ys (t, a) e)

pub Reach-effort :
    (p : Setup) (n : ℕ) {u : System} (r : Reach p (boot n) u)
    → spent_in r + effort u ≡ n + brought_in r
Reach-effort p n Reach.here = omega (arith, length-everyone n)
Reach-effort p n (Reach.next r st) =
    omega (arith, Reach-effort p n r, Step-effort p n st (Reach-Holds p n r))
