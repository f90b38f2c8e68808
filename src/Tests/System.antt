-- ===== src/Tests/System.antt =====
-- The server's threads together at concrete inputs.
use pixiecpp.Base.{count, ℕ, ◌+◌, ◌<◌, ◌≡◌, ◌⊎◌, refl, [], ◌∷◌, arith, ◌==◌, ℤ, pos, eq_ℤ}
use pixiecpp.Blk.Handler.{Protocol}
use pixiecpp.Queue
use pixiecpp.Server.System.{Setup, System, Step, Reach, boot, takes}
use pixiecpp.Server.System.Invariant.{workers_where, taken_where, Reach-accounts}
use pixiecpp.Server.System.Dispatch.{Runs, idle_dispatcher, view, Reach-Dispatches}
use pixiecpp.Server.System.Effort.{spent_in, brought_in}
use pixiecpp.Server.System.Schedule.{GoesOn, AtRest, Reach-finishes}

abbrev setup : Setup
setup = record {
  junk = record {
    socket = pos 77;
    message_socket = pos 78;
    destination_port = pos 0;
    message_length = pos 0;
    parser_length = pos 9;
  };
  mem = record { a2b = []; b2a = []; errorno = 0 };
  protocol = Protocol.blk_proxy;
}

-- Of two workers, the first waits; a connection arrives, and the first worker wakes and serves it.
abbrev one_waits : System
one_waits = takes (record (boot 2) { idle = 1 ∷ [] }) 0 Queue.new_queue

abbrev arrived : System
arrived = record one_waits {
  traced = record one_waits.traced {
    queue = Queue.add (pos 7) one_waits.traced.queue;
    added = pos 7 ∷ [];
  };
}

abbrev in_service : System
in_service = takes arrived 0 (record arrived.traced.queue { woken = [] })

in_service-Reach : Reach setup (boot 2) in_service
unfolding Queue.add Queue.remove
in_service-Reach =
    Reach.next
      (Reach.next (Reach.next Reach.here (Step.enters 0 (1 ∷ []) [] refl))
        (Step.accepts (pos 7) refl))
      (Step.resumes 0 [] [] refl)

in_service_lem : (in_service.serving ≡ (0, pos 7) ∷ []) × (in_service.idle ≡ 1 ∷ [])
unfolding Queue.add Queue.remove
in_service_lem = (refl, refl)

Reach-accounts_example :
    ((t : ℕ) → t < 2 → workers_where (λ x. x == t) in_service ≡ 1)
    × ((a : ℤ)
        → count (eq_ℤ a) in_service.traced.queue.q + taken_where (eq_ℤ a) in_service
          ≡ count (eq_ℤ a) in_service.traced.added)
Reach-accounts_example = Reach-accounts setup 2 in_service in_service-Reach

Reach-finishes_example :
    ((spent_in in_service-Reach < 2 + brought_in in_service-Reach) × GoesOn setup in_service)
    ⊎ ((spent_in in_service-Reach ≡ 2 + brought_in in_service-Reach) × AtRest 2 in_service)
Reach-finishes_example = Reach-finishes setup 2 in_service (omega arith) in_service-Reach

Reach-Dispatches_example : Runs 2 idle_dispatcher (view in_service)
Reach-Dispatches_example = Reach-Dispatches setup 2 in_service-Reach
