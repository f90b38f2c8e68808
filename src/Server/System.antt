-- ===== src/Server/System.antt =====
-- The threads of Server::listen together: the listener of Listener.cpp, which puts descriptors into the
-- queue, and the workers of Worker.cpp, each of which takes one, serves it and takes the next.
pub mod Count
pub mod Invariant
pub mod Ending
pub mod Effort
pub mod Schedule
pub mod Progress
pub mod Dispatch
use pixiecpp.Base.{ℕ, zero, suc, ◌≡◌, true, Option, none, some, List, [], ◌∷◌, ◌++◌, ℤ, pos, is_pos}
use pixiecpp.Os.{World, returned}
use pixiecpp.Queue
use pixiecpp.Queue.{Queue}
use pixiecpp.Queue.Threads.{Traced, start, after_remove}
use pixiecpp.Blk.Client.{Junk}
use pixiecpp.Blk.Handler.{Protocol}
use pixiecpp.Blk.Handler.Proxy.{TunnelMemory}
use pixiecpp.Server.Worker.{Worker, worker_round}

-- What the workers run with: the protocol of the server, and what unset memory holds.
pub record Setup : Type 0 where
  pub junk : Junk
  pub mem : TunnelMemory
  pub protocol : Protocol

-- `idle` are the workers at the head of the loop of Worker::main, `serving` those in a handler, with
-- their descriptors; the others are in Queue::remove. `finished` are the descriptors whose handler
-- has ended.
pub record System : Type 0 where
  pub traced : Traced
  pub idle : List ℕ
  pub serving : List (ℕ × ℤ)
  pub finished : List ℤ

-- The workers of Server::listen.
abbrev pub everyone : ℕ → List ℕ
everyone zero = []
everyone (suc n) = n ∷ everyone n

abbrev pub boot : ℕ → System
boot n = record { traced = start; idle = everyone n; serving = []; finished = [] }

abbrev pub serve : ℕ → Option ℤ → List (ℕ × ℤ) → List (ℕ × ℤ)
serve t none l = l
serve t (some a) l = (t, a) ∷ l

-- Queue::remove in thread `t`, up to the wait or to the handler that serves what it returns.
abbrev pub takes : System → ℕ → Queue → System
takes s t q =
    let r = Queue.remove t q in
    record s { traced = after_remove s.traced r; serving = serve t r.0 s.serving }

-- The listener adds what accept returned; an idle worker enters `remove`; a woken one takes the mutex
-- and tests again; a waiting one wakes with no broadcast; and a handler ends, by a return or by an
-- exception that its worker catches, with any calls of the system on the way.
pub data Step (p : Setup) (s : System) : System → Type 0 where
  accepts :
      (a : ℤ)
      → is_pos a ≡ true
      → Step p s (record s {
        traced = record s.traced {
          queue = Queue.add a s.traced.queue;
          added = s.traced.added ++ (a ∷ []);
        };
      })
  enters :
      (t : ℕ) (xs ys : List ℕ)
      → s.idle ≡ xs ++ (t ∷ ys)
      → Step p s (takes (record s { idle = xs ++ ys }) t s.traced.queue)
  resumes :
      (t : ℕ) (xs ys : List ℕ)
      → s.traced.queue.woken ≡ xs ++ (t ∷ ys)
      → Step p s (takes s t (record s.traced.queue { woken = xs ++ ys }))
  wakes :
      (t : ℕ) (xs ys : List ℕ)
      → s.traced.queue.waiting ≡ xs ++ (t ∷ ys)
      → Step p s (record s {
        traced = record s.traced {
          queue = record s.traced.queue {
            waiting = xs ++ ys;
            woken = s.traced.queue.woken ++ (t ∷ []);
          };
        };
      })
  ends :
      (t : ℕ) (a : ℤ) (xs ys : List (ℕ × ℤ)) (w w' : Worker) (world world' : World)
      → s.serving ≡ xs ++ ((t, a) ∷ ys)
      → w.protocol ≡ p.protocol
      → w.id ≡ pos t
      → worker_round p.junk p.mem a w world ≡ returned w' world'
      → Step p s (record s { idle = t ∷ s.idle; serving = xs ++ ys; finished = a ∷ s.finished })

pub data Reach (p : Setup) (s : System) : System → Type 0 where
  here : Reach p s s
  next : {t u : System} → Reach p s t → Step p t u → Reach p s u
