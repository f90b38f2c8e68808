-- ===== src/Tests/Server.antt =====
-- The clock and a worker at concrete inputs.
use pixiecpp.Base.{
  ◌⊎◌, inl, true, codes, false, ℤ, List, ℕ, ◌+◌, ◌-◌, ◌*◌, ◌<◌, ◌≡◌, refl, [], ◌∷◌, arith, pos,
  negsuc,
}
use pixiecpp.Os.{Reply, World, threw, ask, Call, returned, exited, pthread_create}
use pixiecpp.Statistics.{
  TimeVal, ElapsedTime, Statistics, start_clock, stop_clock, microseconds, stop_clock-start_clock,
}
use pixiecpp.Sockets.Data.{socket_read_data}
use pixiecpp.Blk.Client.{Junk}
use pixiecpp.Blk.Handler.{blk_proxy, new_handler}
use pixiecpp.Blk.Handler.Proxy.{TunnelMemory, handle_blk_normal}
use pixiecpp.Blk.Socket.{read_message, read_loop, read_round}
use pixiecpp.Blk.Socket.Read.{world, after_failure}
use pixiecpp.Queue.{Queue, new_queue}
use pixiecpp.Server.Start.{
  Server, new_server, listen, start_workers, start_thread, Started, OneFails, listen-cases,
}
use pixiecpp.Server.Listener.{accept_loop}
use pixiecpp.Server.Listener.Order.{accept_loop-accepted}
use pixiecpp.Server.Worker.Reset.{first_parser, worker_main-reset}
use pixiecpp.Blk.Parser.{BlkParser, append}
use pixiecpp.Blk.Socket.Reassembly.{pieces, reads}
use pixiecpp.Server.Worker.{
  Worker, new_worker, handle, worker_round, worker_main, Serves, worker_main-Serves,
}

abbrev t0 : TimeVal
t0 = record { tv_sec = 10; tv_usec = 999900 }

abbrev t1 : TimeVal
t1 = record { tv_sec = 11; tv_usec = 100 }

abbrev clock : ElapsedTime
clock = record {
  start_time = t0;
  absolute_start_time = 0;
  stop_time = t0;
  absolute_stop_time = 0;
  elapsed_time = pos 0;
}

abbrev statistics : Statistics
statistics = record {
  message_count = pos 0;
  character_count = pos 0;
  current_clock = clock;
  times = [];
}

-- 0.2 milliseconds are recorded as one.
stop_clock-start_clock_example :
    (ms : ℕ) × ((stop_clock t1 (start_clock t0 statistics)).times ≡ pos ms ∷ [])
    × (ms * 1000 < microseconds t1 - microseconds t0 + 1000)
    × (microseconds t1 - microseconds t0 < ms * 1000 + 1000)
stop_clock-start_clock_example =
    stop_clock-start_clock t0 t1 statistics (omega arith) (omega arith) (omega arith)

abbrev junk : Junk
junk = record {
  socket = pos 77;
  message_socket = pos 78;
  destination_port = pos 0;
  message_length = pos 0;
  parser_length = pos 9;
}

abbrev memory : TunnelMemory
memory = record { a2b = []; b2a = []; errorno = 0 }

abbrev failing : Reply
failing = record { value = negsuc 0; errno = 54; bytes = []; read_set = []; write_set = [] }

abbrev worker : Worker
worker = new_worker blk_proxy (pos 0)

abbrev reset : World
reset = world (failing ∷ []) []

-- The client resets the connection before its first message.
reset_lem :
    handle junk memory (record { protocol = blk_proxy; socket_fd = pos 5; id = pos 0 }) reset
    ≡ threw (after_failure (pos 5) [] [])
unfolding handle handle_blk_normal read_message socket_read_data ask new_handler read_loop
    read_round
reset_lem = refl

worker_main-Serves_example :
    worker_main junk memory (pos 5 ∷ []) worker reset
    ≡ returned
        (record worker { active = false; active_socket = pos 5 })
        (after_failure (pos 5) [] [])
worker_main-Serves_example =
    worker_main-Serves junk memory (pos 5 ∷ []) worker reset (after_failure (pos 5) [] [])
      (Serves.thrown reset_lem Serves.none_left)

-- Three bytes of the first line arrive before the connection of socket 5 fails; socket 6 is next.
abbrev half_line : BlkParser
half_line = (append (first_parser junk) (codes "STA")).1

worker_main-reset_example :
    (worker_round junk memory (pos 5) worker (world (pieces (codes "STA" ∷ []) (failing ∷ [])) [])
      ≡ returned
          (record worker { active = true; active_socket = pos 5 })
          (after_failure (pos 5) [] (reads 1 (pos 5))))
    × (worker_main junk memory
          (pos 5 ∷ pos 6 ∷ [])
          worker
          (world (pieces (codes "STA" ∷ []) (failing ∷ [])) [])
        ≡ worker_main junk memory
            (pos 6 ∷ [])
            (record worker { active = false; active_socket = pos 5 })
            (after_failure (pos 5) [] (reads 1 (pos 5))))
unfolding append
worker_main-reset_example =
    worker_main-reset junk memory (codes "STA" ∷ []) half_line failing 0 [] [] refl (omega arith)
      refl worker (pos 5) (pos 6 ∷ []) (inl refl)

abbrev server : Server
server = new_server (pos 0) blk_proxy 2

abbrev created_with : ℤ → Reply
created_with v = record failing { value = v; errno = 0 }

-- Of two workers, the thread of the second is not created (EAGAIN of Darwin is 35).
listen-cases_example :
    let o = listen server (pos 8001) (
      world
        (created_with (pos 0)
          ∷ created_with (pos 0)
          ∷ created_with (pos 35)
          ∷ created_with (pos 0)
          ∷ [])
        []) in
    Started server
      (pos 8001)
      (created_with (pos 0) ∷ created_with (pos 35) ∷ [])
      []
      o
      (pthread_create ∷ [])
    ⊎ OneFails
        (created_with (pos 0) ∷ created_with (pos 35) ∷ [])
        (created_with (pos 0) ∷ [])
        o
        (pthread_create ∷ [])
listen-cases_example =
    listen-cases server (pos 8001) (created_with (pos 0)) (created_with (pos 0))
      (created_with (pos 0) ∷ created_with (pos 35) ∷ []) [] [] refl

-- The process ends after three calls of pthread_create.
listen_exits :
    listen server
      (pos 8001)
      (world (created_with (pos 0) ∷ created_with (pos 0) ∷ created_with (pos 35) ∷ []) [])
    ≡ exited 255 (world [] (pthread_create ∷ pthread_create ∷ pthread_create ∷ []))
unfolding listen start_workers start_thread ask
listen_exits = refl

abbrev accepting : ℤ → Reply
accepting v = record failing { value = v }

accept_loop-accepted_example :
    (q' : Queue) × (log' : List Call) × (accept_loop 3
        (pos 4)
        new_queue
        (world (accepting (pos 6) ∷ accepting (pos 7) ∷ failing ∷ []) [])
      ≡ returned q' (world [] log'))
    × (q'.q ≡ pos 6 ∷ pos 7 ∷ [])
accept_loop-accepted_example =
    accept_loop-accepted 3 (pos 4) new_queue (accepting (pos 6) ∷ accepting (pos 7) ∷ []) failing []
      [] (omega arith) (refl, (refl, tt)) refl
