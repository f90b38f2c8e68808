-- ===== src/Queue.antt =====
-- Class Queue of Pixie-XC/Queue.h and Queue.cpp: the descriptors that the listener hands to the
-- workers, behind a mutex and a condition variable. The code between lock and unlock, or between lock
-- and pthread_cond_wait, runs with the mutex held, so it is one step.
pub mod Threads
use pixiecpp.Base.{ℕ, Option, none, some, List, [], ◌∷◌, ◌++◌, ◌==◌, if◌then◌else◌, ℤ, length}

-- `waiting` are the threads asleep in pthread_cond_wait, and `woken` those that the condition variable
-- has let go and that have to take the mutex before they test again.
pub record Queue : Type 0 where
  pub q : List ℤ
  pub waiting : List ℕ
  pub woken : List ℕ

-- Queue::Queue
abbrev pub new_queue : Queue
new_queue = record { q = []; waiting = []; woken = [] }

-- pthread_cond_broadcast
abbrev pub broadcast : Queue → Queue
broadcast s = record s { waiting = []; woken = s.woken ++ s.waiting }

-- Queue::add
unfoldable pub add : ℤ → Queue → Queue
add a s = let s' = record s { q = s.q ++ (a ∷ []) } in if length s'.q == 1 then broadcast s' else s'

-- The test of the loop of Queue::remove in thread `t`, and what follows it up to the wait or the
-- return: `q[0]` and `pop_front`.
take_front : List ℤ → ℕ → Queue → Option ℤ × Queue
take_front [] t s = (none, record s { waiting = s.waiting ++ (t ∷ []) })
take_front (r ∷ rest) t s = (some r, record s { q = rest })

unfoldable pub remove : ℕ → Queue → Option ℤ × Queue
unfolding take_front
remove t s = take_front s.q t s
