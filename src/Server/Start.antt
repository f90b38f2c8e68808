-- ===== src/Server/Start.antt =====
-- Class Server of Pixie-XC/Server.h and Server.cpp, Thread::start of Thread.cpp, and the class Monitor of
-- Monitor.h and Monitor.cpp.
use pixiecpp.Base.{
  All, length, Bool-cases, inl, inr, ◌⊎◌, ap, sym, true, false, ℕ, zero, suc, ◌+◌, ◌≡◌, refl, ◌∙◌,
  Bool, List, [], ◌∷◌, ◌++◌, append_assoc, append-nil, if◌then◌else◌, ℤ, pos, eq_ℤ,
}
use pixiecpp.Os.{
  Reply, Call, M, Outcome, returned, exited, pure, ◌>>=◌, ◌>>◌, ask, note, exit, pthread_create,
  pthread_join,
}
use pixiecpp.Blk.Handler.{Protocol}
use pixiecpp.Blk.Socket.Read.{world}
use pixiecpp.Server.Worker.{Worker, new_worker}

pub record Server : Type 0 where
  pub port : ℤ
  pub nbr_workers : ℕ
  pub protocol : Protocol

-- Server::Server; `junk` is what the memory of `port` holds.
abbrev pub new_server : ℤ → Protocol → ℕ → Server
new_server junk protocol nbr_workers = record {
  port = junk;
  nbr_workers = nbr_workers;
  protocol = protocol;
}

-- Thread::start
unfoldable pub start_thread : M Bool
start_thread = ask pthread_create >>= λ r. pure (eq_ℤ r.value (pos 0))

-- The loop that starts the workers, with `left` of them to go; `exit(-1)` gives the status 255.
unfoldable pub start_workers : ℕ → ℕ → Protocol → List Worker → M (List Worker)
unfolding start_thread
start_workers zero i protocol worker_v = pure worker_v
start_workers (suc left) i protocol worker_v = do
  rc ← start_thread
  if rc
      then start_workers left (i + 1) protocol (worker_v ++ (new_worker protocol (pos i) ∷ []))
      else exit 255

-- Server::listen up to the end of the listener, which it waits for. The threads themselves are
-- Server.Listener and Server.Worker.
unfoldable pub listen : Server → ℤ → M (Server × List Worker)
unfolding start_thread start_workers
listen server port = do
  _ ← start_thread
  worker_v ← start_workers server.nbr_workers 0 server.protocol []
  _ ← start_thread
  note pthread_join
  pure (record server { port = port }, worker_v)

-- Monitor::scanWorkerTable over the workers from index `i` on: what it prints, an index and a
-- descriptor for each active worker. The number in its last line is the length.
unfoldable pub scan_worker_table : ℕ → List Worker → List (ℕ × ℤ)
scan_worker_table i [] = []
scan_worker_table i (w ∷ ws) =
    let rest = scan_worker_table (i + 1) ws in
    if w.active then (i, w.active_socket) ∷ rest else rest

-- The workers with the numbers from `i` on.
abbrev pub numbered : ℕ → ℕ → Protocol → List Worker
numbered zero i protocol = []
numbered (suc n) i protocol = new_worker protocol (pos i) ∷ numbered n (i + 1) protocol

-- A log with `n` thread creations after `log`.
abbrev pub created : ℕ → List Call → List Call
created zero log = log
created (suc n) log = created n (log ++ (pthread_create ∷ []))

-- pthread_create returns 0.
abbrev pub IsStarted : Reply → Type 0
IsStarted r = eq_ℤ r.value (pos 0) ≡ true

-- The threads of all workers are created.
abbrev pub AllStart :
    List Reply → List Reply → Outcome (List Worker) → List Worker → List Call → Type 0
AllStart workers rs o started log =
    All IsStarted workers × (o ≡ returned started (world rs (created (length workers) log)))

-- The threads of some workers are created, and that of the next is not: the process ends.
pub record OneFails {ℓ} {A : Type ℓ} (workers rs : List Reply) (o : Outcome A) (log : List Call)
    : Type ℓ where
  pub before : List Reply
  pub failing : Reply
  pub after : List Reply
  pub in_order : workers ≡ before ++ (failing ∷ after)
  pub all_start : All IsStarted before
  pub fails : eq_ℤ failing.value (pos 0) ≡ false
  pub exits : o ≡ exited 255 (world (after ++ rs) (created (suc (length before)) log))

start_workers-cases :
    (workers : List Reply) (i : ℕ) (protocol : Protocol) (ws : List Worker) (rs : List Reply)
    (log : List Call)
    → let o = start_workers (length workers) i protocol ws (world (workers ++ rs) log) in
      AllStart workers rs o (ws ++ numbered (length workers) i protocol) log
      ⊎ OneFails workers rs o log
unfolding start_workers start_thread ask
start_workers-cases [] i protocol ws rs log = inl (tt, rw (append-nil ws) refl)
start_workers-cases (r ∷ workers) i protocol ws rs log =
    let w = new_worker protocol (pos i) in
    elim (Bool-cases (eq_ℤ r.value (pos 0))) [
      | inl good ↦
          elim (start_workers-cases workers (i + 1) protocol (ws ++ (w ∷ [])) rs
            (log ++ (pthread_create ∷ []))) [
              | inl (all, e) ↦ inl (
                (good, all),
                rw good (
                    e
                    ∙ rw (append_assoc ws (w ∷ []) (numbered (length workers) (i + 1) protocol))
                        refl),
              )
              | inr f ↦ inr (record {
                before = r ∷ f.before;
                failing = f.failing;
                after = f.after;
                in_order = ap (λ l. r ∷ l) f.in_order;
                all_start = (good, f.all_start);
                fails = f.fails;
                exits = rw good f.exits;
              })
            ]
      | inr bad ↦ inr (record {
        before = [];
        failing = r;
        after = workers;
        in_order = refl;
        all_start = tt;
        fails = bad;
        exits = rw bad refl;
      })
    ]

-- What Server::listen does when the first thread, the listener's, has been tried: `workers` are the
-- replies for the threads of the workers.
abbrev pub Started :
    Server → ℤ → List Reply → List Reply → Outcome (Server × List Worker) → List Call → Type 0
Started server port workers rs o log =
    All IsStarted workers
    × (o
        ≡ returned (record server { port = port }, numbered server.nbr_workers 0 server.protocol)
            (world rs
              (created server.nbr_workers log ++ (pthread_create ∷ []) ++ (pthread_join ∷ []))))

-- Whatever pthread_create answers: where the thread of each worker is created, Server::listen starts
-- the listener, one worker for each number below `nbr_workers`, in order and with the server's
-- protocol, and the monitor, and then waits for the listener, also where the thread of the listener
-- or of the monitor was not created; else, at the first worker whose thread cannot be created, it ends
-- the process with the status of `exit(-1)`, whatever workers are running, and starts no further
-- thread.
pub listen-cases :
    (server : Server) (port : ℤ) (listener monitor : Reply) (workers rs : List Reply)
    (log : List Call)
    → length workers ≡ server.nbr_workers
    → let o = listen server port (world (listener ∷ workers ++ (monitor ∷ rs)) log) in
      Started server port workers rs o (log ++ (pthread_create ∷ []))
      ⊎ OneFails workers (monitor ∷ rs) o (log ++ (pthread_create ∷ []))
unfolding listen start_thread ask
listen-cases server port listener monitor workers rs log n =
    elim (start_workers-cases workers 0 server.protocol [] (monitor ∷ rs)
      (log ++ (pthread_create ∷ []))) [
        | inl (all, e) ↦
            let log' = created (length workers) (log ++ (pthread_create ∷ [])) in
            inl (
              all,
              rw (sym n)
                  (rw e (rw (append_assoc log' (pthread_create ∷ []) (pthread_join ∷ [])) refl)),
            )
        | inr f ↦ inr (record {
          before = f.before;
          failing = f.failing;
          after = f.after;
          in_order = f.in_order;
          all_start = f.all_start;
          fails = f.fails;
          exits = rw (sym n) (rw f.exits refl);
        })
      ]
