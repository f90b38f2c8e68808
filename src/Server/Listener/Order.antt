-- ===== src/Server/Listener/Order.antt =====
-- What the listener hands to the workers.
use pixiecpp.Base.{
  ℕ, zero, suc, ◌<◌, ◌≡◌, refl, ◌∙◌, ap, true, false, List, [], ◌∷◌, ◌++◌, append_assoc, append-nil,
  arith, ℤ, is_pos, All, length,
}
use pixiecpp.Os.{Reply, Call, returned, ask, report, sys_accept}
use pixiecpp.Blk.Socket.Read.{world}
use pixiecpp.Queue
use pixiecpp.Queue.{Queue}
use pixiecpp.Queue.Threads.{add-q}
use pixiecpp.Server.Listener.{accept_loop}

abbrev pub IsAccepted : Reply → Type 0
IsAccepted r = is_pos r.value ≡ true

abbrev pub accepted : List Reply → List ℤ
accepted [] = []
accepted (r ∷ rs) = r.value ∷ accepted rs

-- With more fuel than there are arrivals, the loop of Listener::main hands every descriptor above 0
-- that accept returns to the queue, in the order of their arrival, until a call returns another
-- value; then it ends, and the replies behind that call are left.
pub accept_loop-accepted :
    (fuel : ℕ) (socket : ℤ) (q : Queue) (arrivals : List Reply) (failing : Reply) (rs : List Reply)
    (log : List Call)
    → length arrivals < fuel
    → All IsAccepted arrivals
    → is_pos failing.value ≡ false
    → (q' : Queue) × (log' : List Call) × (accept_loop fuel socket q
          (world (arrivals ++ failing ∷ rs) log)
        ≡ returned q' (world rs log'))
      × (q'.q ≡ q.q ++ accepted arrivals)
unfolding accept_loop ask
accept_loop-accepted zero socket q arrivals failing rs log lt all fails = absurd (omega arith)
accept_loop-accepted (suc fuel) socket q [] failing rs log lt all fails = (
  q,
  ((log ++ (sys_accept socket ∷ []))
        ++ (report "Listener thread :: accept failed terminating" ∷ []))
      ++ (report "Listener Thread Terminated abnromally with runtime_error" ∷ []),
  rw fails refl,
  rw (append-nil q.q) refl,
)
accept_loop-accepted (suc fuel) socket q (r ∷ arrivals) failing rs log lt (one, all) fails =
    let (q', log', e, order) =
      accept_loop-accepted fuel socket (Queue.add r.value q) arrivals failing rs
        (log ++ (sys_accept socket ∷ [])) (omega arith) all fails in
    (
      q',
      log',
      rw one e,
      order
          ∙ (ap (λ l. l ++ accepted arrivals) (add-q r.value q)
              ∙ append_assoc q.q (r.value ∷ []) (accepted arrivals)),
    )
