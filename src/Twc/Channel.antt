-- ===== src/Twc/Channel.antt =====
-- two_way_channel_t and the functions twc_* of external_src/twc.h and twc.c, and the class
-- RawTwoWayChannel of Pixie-XC/Channel.cpp that runs one.
pub mod Fuel
pub mod Moves
pub mod Relay
pub mod Start
pub mod Asserts
use pixiecpp.Base.{
  ℕ, zero, suc, ◌&&◌, Option, none, some, [], ◌==◌, if◌then◌else◌, ℤ, negsuc, eq_ℤ, is_pos, is_neg,
  ltb_ℤ, Bytes, length,
}
use pixiecpp.Os.{Reply, M, pure, ◌>>=◌, ◌>>◌, ask, blocked, sys_select, eintr}
use pixiecpp.Sockets.Data.{socket_close}
use pixiecpp.Sockets.Flags.{socket_set_blocking, socket_set_non_blocking}
use pixiecpp.Twc.Machine.{
  StateMachine, FdSet, sm_init, sm_clean, sm_execute, sm_ok, sm_ioerr, sm_to,
}

pub record TwoWayChannel : Type 0 where
  pub fd_a : ℤ
  pub sm_a2b : StateMachine
  pub fd_b : ℤ
  pub sm_b2a : StateMachine
  pub errorno : ℕ

-- twc_init. `errorno` keeps what the memory holds; `memory` is what malloc returns.
unfoldable pub twc_init : ℤ → ℤ → ℕ → Bytes → Bytes → ℕ → TwoWayChannel
unfolding sm_init
twc_init fd_a fd_b buffer_size memory_a memory_b junk = record {
  fd_a = fd_a;
  sm_a2b = sm_init fd_a fd_b buffer_size memory_a;
  fd_b = fd_b;
  sm_b2a = sm_init fd_b fd_a buffer_size memory_b;
  errorno = junk;
}

-- twc_clean
unfoldable pub twc_clean : TwoWayChannel → M TwoWayChannel
unfolding sm_clean
twc_clean twc = do
  a2b ← sm_clean twc.sm_a2b
  b2a ← sm_clean twc.sm_b2a
  pure (record twc { sm_a2b = a2b; sm_b2a = b2a })

-- The variables of twc_run.
pub record Running : Type 0 where
  pub twc : TwoWayChannel
  pub read_fds : FdSet
  pub write_fds : FdSet
  pub status_a2b : ℤ
  pub status_b2a : ℤ

-- the pair of calls of sm_execute
unfoldable pub execute_both : Running → M Running
execute_both s = do
  a ← sm_execute s.twc.sm_a2b s.read_fds s.write_fds s.status_a2b
  b ← sm_execute s.twc.sm_b2a a.read_fds a.write_fds s.status_b2a
  pure (record {
    twc = record s.twc { sm_a2b = a.machine; sm_b2a = b.machine };
    read_fds = b.read_fds;
    write_fds = b.write_fds;
    status_a2b = a.status;
    status_b2a = b.status;
  })

-- `-1`, `> 0` and the rest
pub data Selected : Type 0 where
  io_error ready timed_out : Selected

abbrev pub selected : ℤ → Selected
selected retval =
    if eq_ℤ retval (negsuc 0) then io_error else if is_pos retval then ready else timed_out

abbrev pub max_fd : TwoWayChannel → ℤ
max_fd twc = if ltb_ℤ twc.fd_b twc.fd_a then twc.fd_a else twc.fd_b

-- Where the statuses stop the loop, and the status that twc_run reports then.
abbrev pub exit_status : Running → Option ℤ
exit_status s =
    if eq_ℤ s.status_a2b sm_ok
    then if eq_ℤ s.status_b2a sm_ok then none else some s.status_b2a
    else some s.status_a2b

-- A round of the loop ends twc_run with a status, or goes on.
pub data Round : Type 0 where
  finished : ℤ → TwoWayChannel → Round
  going_on : Running → Round

abbrev pub after_execute : Running → Round
after_execute s = elim (exit_status s) [ none ↦ going_on s | some status ↦ finished status s.twc ]

pub after_select : Running → Reply → Selected → M Round
after_select s r io_error = pure (finished sm_ioerr (record s.twc { errorno = r.errno }))
after_select s r ready =
    execute_both (record s { read_fds = r.read_set; write_fds = r.write_set }) >>= λ s'.
    pure (after_execute s')
after_select s r timed_out = pure (finished sm_to s.twc)

-- One call of select and what follows: an interrupted call is made again with the same sets.
unfoldable pub twc_round : Running → M Round
unfolding after_select
twc_round s = do
  r ← ask (sys_select (max_fd s.twc) s.read_fds s.write_fds)
  if is_neg r.value && r.errno == eintr
      then pure (going_on s)
      else after_select s r (selected r.value)

-- The loop; every round makes a system call, so one round more than there are replies is enough.
unfoldable pub twc_loop : ℕ → Running → M (ℤ × TwoWayChannel)
twc_loop zero s = λ w. blocked w
twc_loop (suc fuel) s = do
  r ← twc_round s
  elim r [ finished status twc ↦ pure (status, twc) | going_on s' ↦ twc_loop fuel s' ]

-- twc_run. The first pair of calls finds no descriptor set, and only asks for what is wanted.
unfoldable pub twc_run : TwoWayChannel → M (ℤ × TwoWayChannel)
twc_run twc = do
  s ←
      execute_both (record {
        twc = twc;
        read_fds = [];
        write_fds = [];
        status_a2b = sm_ok;
        status_b2a = sm_ok;
      })
  λ w. twc_loop (suc (length w.script)) s w

-- RawTwoWayChannel::start
unfoldable pub start : ℤ → ℤ → Bytes → Bytes → ℕ → M (Unit {0})
start client server memory_a memory_b junk = do
  _ ← socket_set_non_blocking server
  _ ← socket_set_non_blocking client
  (status, twc) ← twc_run (twc_init client server 10000 memory_a memory_b junk)
  _ ← twc_clean twc
  _ ← socket_set_blocking server
  _ ← socket_set_blocking client
  socket_close client
  socket_close server
