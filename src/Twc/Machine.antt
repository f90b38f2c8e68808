-- ===== src/Twc/Machine.antt =====
-- state_machine_t and the functions sm_* of external_src/twc.h and twc.c: one direction of a channel.
pub mod Progress
pub mod Step
pub mod Replies
pub mod Both
pub mod Moves
use pixiecpp.Base.{
  ℕ, Bool, true, false, not, ◌&&◌, Option, none, some, List, [], ◌∷◌, if◌then◌else◌, ℤ, pos, negsuc,
  eq_ℤ, is_pos, to_ℕ, Bytes, take,
}
use pixiecpp.Os.{Reply, M, pure, ◌>>=◌, ask, assert_failed, sys_read, sys_write}
use pixiecpp.Twc.Cbuffer.{
  Cbuffer, cb_init, cb_clean, cb_read_available, cb_write_available, cb_advance_read_ptr,
  cb_advance_write, store_at, bytes_at,
}

abbrev pub sm_ok : ℤ
sm_ok = pos 0

-- -4001
abbrev pub sm_eof : ℤ
sm_eof = negsuc 4000

-- -4002
abbrev pub sm_ioerr : ℤ
sm_ioerr = negsuc 4001

-- -4003
abbrev pub sm_to : ℤ
sm_to = negsuc 4002

-- An fd_set lists its descriptors.
abbrev pub FdSet : Type 0
FdSet = List ℤ

abbrev pub fd_isset : ℤ → FdSet → Bool
fd_isset fd [] = false
fd_isset fd (x ∷ xs) = if eq_ℤ x fd then true else fd_isset fd xs

abbrev pub fd_set : ℤ → FdSet → FdSet
fd_set fd s = fd ∷ s

abbrev pub fd_clr : ℤ → FdSet → FdSet
fd_clr fd [] = []
fd_clr fd (x ∷ xs) = if eq_ℤ x fd then fd_clr fd xs else x ∷ fd_clr fd xs

pub record StateMachine : Type 0 where
  pub read_fd : ℤ
  pub write_fd : ℤ
  pub read_suspended : Bool
  pub cbuffer : Cbuffer

-- sm_init
unfoldable pub sm_init : ℤ → ℤ → ℕ → Bytes → StateMachine
unfolding cb_init
sm_init read_fd write_fd buffer_size memory = record {
  read_fd = read_fd;
  write_fd = write_fd;
  read_suspended = false;
  cbuffer = cb_init buffer_size memory;
}

abbrev pub or_abort {ℓ} : {A : Type ℓ} → Option A → M A
or_abort none = assert_failed
or_abort (some a) = pure a

-- sm_clean
unfoldable pub sm_clean : StateMachine → M StateMachine
unfolding cb_clean
sm_clean sm = do cb ← or_abort (cb_clean sm.cbuffer); pure (record sm { cbuffer = cb })

-- after `write` has returned `n`
write_outcome : StateMachine → ℤ → M (StateMachine × ℤ)
write_outcome sm n =
    if is_pos n
    then (or_abort (cb_advance_write sm.cbuffer (to_ℕ n)) >>= λ cb.
        pure (record sm { cbuffer = cb }, sm_ok))
    else pure (sm, sm_ioerr)

-- the first part of sm_execute
unfoldable pub sm_write : StateMachine → FdSet → ℤ → M (StateMachine × ℤ)
unfolding write_outcome
sm_write sm write_fds status =
    let w_avail = cb_write_available sm.cbuffer in
    if fd_isset sm.write_fd write_fds && is_pos w_avail
    then (ask
          (sys_write sm.write_fd (bytes_at sm.cbuffer.write_ptr (to_ℕ w_avail) sm.cbuffer.buffer))
        >>= λ r. write_outcome sm r.value)
    else pure (sm, status)

-- after `read` has returned: the bytes stand in the buffer before the pointer is advanced
read_outcome : StateMachine → Reply → M (StateMachine × ℤ)
read_outcome sm r =
    let cb = sm.cbuffer in
    let filled = record cb {
      buffer = store_at cb.read_ptr (take (to_ℕ r.value) r.bytes) cb.buffer;
    } in
    if eq_ℤ r.value (pos 0)
    then pure (sm, sm_eof)
    else if is_pos r.value
    then (or_abort (cb_advance_read_ptr filled (to_ℕ r.value)) >>= λ cb'.
        pure (record sm { cbuffer = cb' }, sm_ok))
    else pure (sm, sm_ioerr)

-- the second part
unfoldable pub sm_read : StateMachine → FdSet → ℤ → M (StateMachine × ℤ)
unfolding read_outcome
sm_read sm read_fds status =
    let r_avail = cb_read_available sm.cbuffer in
    if (fd_isset sm.read_fd read_fds && not sm.read_suspended) && is_pos r_avail
    then (ask (sys_read sm.read_fd (to_ℕ r_avail)) >>= read_outcome sm)
    else pure (sm, status)

-- What sm_execute leaves behind.
pub record Executed : Type 0 where
  pub machine : StateMachine
  pub read_fds : FdSet
  pub write_fds : FdSet
  pub status : ℤ

-- the last part, which asks select for what the machine can do next
unfoldable pub sm_request : StateMachine → FdSet → FdSet → ℤ → Executed
sm_request sm read_fds write_fds status =
    let can_write = is_pos (cb_write_available sm.cbuffer) in
    let can_read = is_pos (cb_read_available sm.cbuffer) in
    if eq_ℤ status (pos 0)
    then record {
      machine = record sm { read_suspended = not can_read };
      read_fds = if can_read then fd_set sm.read_fd read_fds else fd_clr sm.read_fd read_fds;
      write_fds = if can_write then fd_set sm.write_fd write_fds else write_fds;
      status = sm_ok;
    }
    else record { machine = sm; read_fds = read_fds; write_fds = write_fds; status = status }

-- sm_execute
unfoldable pub sm_execute : StateMachine → FdSet → FdSet → ℤ → M Executed
unfolding sm_write sm_read sm_request
sm_execute sm read_fds write_fds status = do
  (written, status') ← sm_write sm write_fds status
  (filled, status'') ← sm_read written read_fds status'
  pure (sm_request filled read_fds write_fds status'')
