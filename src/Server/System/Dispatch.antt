-- ===== src/Server/System/Dispatch.antt =====
-- What the server's threads do, seen without the threads: a queue in front of `n` servers.
use pixiecpp.Base.{
  bit, count, count-at, subst, ℕ, suc, ◌+◌, ◌≤◌, ◌≡◌, ◌⊎◌, inl, inr, refl, ap, true, List, [], ◌∷◌,
  ◌++◌, arith, lengths, ℤ, is_pos, eq_ℤ, length,
}
use pixiecpp.Queue
use pixiecpp.Queue.{Queue}
use pixiecpp.Queue.Threads.{add-q}
use pixiecpp.Server.System.{Setup, System, Step, Reach, boot, takes}
use pixiecpp.Server.System.Invariant.{Holds, Reach-Holds}
use pixiecpp.Server.System.Schedule.{workers-total}

-- `busy` and `served` are bags of descriptors, each told by how often a descriptor is in it, and
-- `load` is the number of servers at work.
pub record Dispatcher : Type 0 where
  pub pending : List ℤ
  pub load : ℕ
  pub busy : ℤ → ℕ
  pub served : ℤ → ℕ

abbrev pub idle_dispatcher : Dispatcher
idle_dispatcher = record { pending = []; load = 0; busy = λ _. 0; served = λ _. 0 }

-- Of `n` servers: a descriptor arrives, behind all others; the one in front goes to a free server;
-- a server is done with one.
pub data Dispatches (n : ℕ) (d e : Dispatcher) : Type 0 where
  arrives :
      (a : ℤ)
      → is_pos a ≡ true
      → e.pending ≡ d.pending ++ (a ∷ [])
      → e.load ≡ d.load
      → e.busy ≡ d.busy
      → e.served ≡ d.served
      → Dispatches n d e
  hands_out :
      (a : ℤ)
      → d.pending ≡ a ∷ e.pending
      → e.load ≡ suc d.load
      → e.load ≤ n
      → ((b : ℤ) → e.busy b ≡ bit (eq_ℤ b a) + d.busy b)
      → e.served ≡ d.served
      → Dispatches n d e
  finishes :
      (a : ℤ)
      → e.pending ≡ d.pending
      → d.load ≡ suc e.load
      → ((b : ℤ) → d.busy b ≡ bit (eq_ℤ b a) + e.busy b)
      → ((b : ℤ) → e.served b ≡ bit (eq_ℤ b a) + d.served b)
      → Dispatches n d e

pub data Runs (n : ℕ) (d : Dispatcher) : Dispatcher → Type 0 where
  here : Runs n d d
  next : {e f : Dispatcher} → Runs n d e → Dispatches n e f → Runs n d f

-- What is seen of the server: neither which worker serves what, nor in which order.
abbrev pub view : System → Dispatcher
view s = record {
  pending = s.traced.queue.q;
  load = length s.serving;
  busy = λ a. count (λ x. eq_ℤ a x.1) s.serving;
  served = λ a. count (eq_ℤ a) s.finished;
}

-- A worker that tests the queue: nothing is seen of it if the queue is empty.
takes-Dispatches :
    (n : ℕ) (s : System) (t : ℕ) (q : Queue) (l : List ℤ)
    → q.q ≡ l
    → s.traced.queue.q ≡ l
    → suc (length s.serving) ≤ n
    → (view s ≡ view (takes s t q)) ⊎ Dispatches n (view s) (view (takes s t q))
unfolding Queue.remove
takes-Dispatches n s t q [] e e' free = inl (rw (e, e') refl)
takes-Dispatches n s t q (a ∷ rest) e e' free =
    inr (Dispatches.hands_out a (rw e e') (rw e refl) (rw e free) (λ b. rw e refl) refl)

-- A worker in one of the other places is not in a handler.
free_server :
    (n : ℕ) (s : System)
    → Holds n s
    → 1 ≤ length s.idle + length s.traced.queue.woken
    → suc (length s.serving) ≤ n
free_server n s h some_other = omega (arith, workers-total n s h)

Step-Dispatches :
    (p : Setup) (n : ℕ) {s u : System}
    → Step p s u
    → Holds n s
    → (view s ≡ view u) ⊎ Dispatches n (view s) (view u)
Step-Dispatches p n {s} (Step.accepts a positive) h =
    inr (Dispatches.arrives a positive (add-q a s.traced.queue) refl refl refl)
Step-Dispatches p n {s} (Step.enters t xs ys e) h =
    takes-Dispatches n (record s { idle = xs ++ ys }) t s.traced.queue s.traced.queue.q refl refl
      (free_server n s h (grind (lengths, ap length e)))
Step-Dispatches p n {s} (Step.resumes t xs ys e) h =
    takes-Dispatches n s t (record s.traced.queue { woken = xs ++ ys }) s.traced.queue.q refl refl
      (free_server n s h (grind (lengths, ap length e)))
Step-Dispatches p n {s} (Step.wakes t xs ys e) h = inl refl
Step-Dispatches p n {s} (Step.ends t a xs ys w w' world world' e protocol id ran) h = inr (
    Dispatches.finishes a refl (grind (lengths, ap length e))
      (λ b. count-at (λ x. eq_ℤ b x.1) s.serving xs ys (t, a) e) (λ b. refl))

-- Every run of the server's threads, with `n` workers, is seen from outside as a run of `n` servers
-- behind one queue: descriptors arrive behind those that wait, the one in front is handed to a free
-- server, at most `n` are served at a time, and a server is done with one. Steps that only wake a
-- worker, or find the queue empty, are not seen.
pub Reach-Dispatches :
    (p : Setup) (n : ℕ) {u : System} → Reach p (boot n) u → Runs n idle_dispatcher (view u)
Reach-Dispatches p n Reach.here = Runs.here
Reach-Dispatches p n (Reach.next r st) = elim (Step-Dispatches p n st (Reach-Holds p n r)) [
  | inl same ↦ subst (Runs n idle_dispatcher) same (Reach-Dispatches p n r)
  | inr d ↦ Runs.next (Reach-Dispatches p n r) d
]
