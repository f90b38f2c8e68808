-- ===== src/Programs.antt =====
-- The programs: Pixie-XC/main.cpp and mitm/blk_mitm_main.cpp, which run a server, and blk_client/main.cpp,
-- which sends it requests; and the classes Exception of Pixie-XC/Exception.cpp and WorkerLoop of
-- WorkerLoop.cpp. The calls that configure the logger and those that read the clock are left out.
pub mod Requests
pub mod Visits
use pixiecpp.Base.{
  ℕ, zero, suc, ◌==◌, not, false, Bool, List, [], ◌∷◌, if◌then◌else◌, ℤ, pos, eq_ℤ, Bytes, codes,
}
use pixiecpp.Os.{
  M, Outcome, returned, blocked, threw, aborted, exited, pure, ◌>>=◌, ◌>>◌, ask, note, unless,
  report, sys_sleep, pthread_create, pthread_join,
}
use pixiecpp.Blk.Message.{BlkMessage, new_message}
use pixiecpp.Blk.Client
use pixiecpp.Blk.Client.{BlkClient, Junk, new_client, execute_request}
use pixiecpp.Blk.Handler.{Protocol, loopback, blk_proxy}
use pixiecpp.Server.Start.{listen, new_server}

pub record Exception : Type 0 where
  pub message : Bytes

-- The two constructors.
abbrev pub default_exception : Exception
default_exception = record { message = codes "this is default" }

abbrev pub new_exception : Bytes → Exception
new_exception msg = record { message = msg }

-- Exception::what, which does not look at the message
abbrev pub what : Exception → Bytes
what e = codes "So this is an xception"

-- `try … catch (Exception e) … catch (...)` of the mains
caught : Outcome (Unit {0}) → Outcome (Unit {0})
caught (threw w) = note (report "Abnornal Termination") w
caught (returned _ w) = returned tt w
caught (blocked w) = blocked w
caught (aborted w) = aborted w
caught (exited c w) = exited c w

-- The main of a server: 20 workers behind port 8001. What it returns is the 0 of main.
serve : Protocol → ℤ → M ℤ
unfolding caught
serve protocol junk =
    (λ w. caught ((listen (new_server junk protocol 20) (pos 8001) >>= λ _. pure tt) w))
    >> pure (pos 0)

-- main of Pixie-XC/main.cpp
unfoldable pub loopback_main : ℤ → M ℤ
unfolding serve
loopback_main junk = serve loopback junk

-- main of mitm/blk_mitm_main.cpp
unfoldable pub mitm_main : ℤ → M ℤ
unfolding serve
mitm_main junk = serve blk_proxy junk

-- NBR_THREADS and NBR_REQUESTS_PER_THREAD of blk_client/main.cpp
abbrev pub nbr_threads : ℕ
nbr_threads = 100

abbrev pub nbr_requests_per_thread : ℕ
nbr_requests_per_thread = 100

-- `msg` and `client` of a round of `worker`
abbrev pub client_message : BlkMessage
client_message = new_message (pos 8001) (codes "NORMAL") (codes "00119922883377446655")

abbrev pub request_client : Junk → BlkClient
request_client junk = new_client junk (codes "localhost") (codes "a_url") (pos 8001) client_message

-- The rounds of `worker` with `left` of them to go. A `break` leaves the connection as it is.
unfoldable pub request_loop : ℕ → Junk → M (Unit {0})
request_loop zero junk = pure tt
request_loop (suc left) junk = do
  let rest = request_loop left junk
  c ← Client.connect (request_client junk)
  if not c.good
      then note (report "Connect for worker Failed")
      else (execute_request junk c.client c.status >>= λ e.
          if not e.good
          then note (report "executeRequest for worker Failed")
          else (Client.close e.client >> rest))

-- worker of blk_client/main.cpp
unfoldable pub client_worker : Junk → M (Unit {0})
client_worker junk = request_loop nbr_requests_per_thread junk

-- The loops of its main: a thread that cannot be created, or joined, is reported and passed over.
unfoldable pub each_thread : ℕ → M Bool → M (Unit {0})
each_thread zero call = pure tt
each_thread (suc left) call = do
  good ← call
  unless good (note (report "UNHANDLED ERROR"))
  each_thread left call

unfoldable pub client_main : M ℤ
unfolding each_thread
client_main = do
  each_thread nbr_threads (ask pthread_create >>= λ r. pure (eq_ℤ r.value (pos 0)))
  each_thread nbr_threads (ask pthread_join >>= λ r. pure (eq_ℤ r.value (pos 0)))
  pure (pos 0)

-- Class WorkerLoop.
pub record WorkerLoop : Type 0 where
  pub active : Bool
  pub active_socket : ℤ
  pub id : ℤ

-- WorkerLoop::WorkerLoop
abbrev pub new_worker_loop : ℤ → WorkerLoop
new_worker_loop id = record { active = false; active_socket = pos 0; id = id }

-- WorkerLoop::main from `count` on, over the descriptors that the queue hands out to this thread; it
-- waits for more where they end before the third.
unfoldable pub worker_loop_from : ℕ → List ℤ → WorkerLoop → M WorkerLoop
worker_loop_from count [] l = λ w. blocked w
worker_loop_from count (s ∷ ss) l =
    let taken = record l { active = false; active_socket = s } in
    let rest = worker_loop_from (suc count) ss taken in
    note (sys_sleep 20) >> (if suc count == 3 then pure taken else rest)

unfoldable pub worker_loop_main : List ℤ → WorkerLoop → M WorkerLoop
worker_loop_main ss l = worker_loop_from 0 ss l
