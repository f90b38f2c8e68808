-- ===== src/Twc/Machine/Progress.antt =====
-- sm_execute never leaves more replies than there were.
use pixiecpp.Base.{◌&&◌, not, Option, none, some, arith, ℤ, pos, eq_ℤ, is_pos, to_ℕ, take}
use pixiecpp.Os.{World, Reply, ask}
use pixiecpp.Os.Progress.{Keeps, Keeps-bind, Keeps-if, Uses-Keeps, ask-Uses}
use pixiecpp.Twc.Cbuffer.{
  Cbuffer, cb_read_available, cb_write_available, cb_advance_write, cb_advance_read_ptr, store_at,
}
use pixiecpp.Twc.Machine.{StateMachine, FdSet, fd_isset, sm_write, sm_read, sm_execute, or_abort}

or_abort-Keeps {ℓ} : {A : Type ℓ} (o : Option A) (w : World) → Keeps w (or_abort o w)
or_abort-Keeps none w = tt
or_abort-Keeps (some a) w = omega arith

sm_write-Keeps :
    (sm : StateMachine) (fds : FdSet) (status : ℤ) (w : World) → Keeps w (sm_write sm fds status w)
unfolding sm_write
sm_write-Keeps sm fds status w =
    Keeps-if (fd_isset sm.write_fd fds && is_pos (cb_write_available sm.cbuffer)) _ _ w
      (Keeps-bind w (ask _ w) _ (Uses-Keeps w _ (ask-Uses _ w)) (λ r w'.
        Keeps-if (is_pos r.value) _ _ w'
          (Keeps-bind w' (or_abort _ w') _
            (or_abort-Keeps (cb_advance_write sm.cbuffer (to_ℕ r.value)) w')
            (λ cb w''. omega arith))
          (omega arith)))
      (omega arith)

abbrev advance : Cbuffer → Reply → Option Cbuffer
advance cb r =
    cb_advance_read_ptr
      (record cb { buffer = store_at cb.read_ptr (take (to_ℕ r.value) r.bytes) cb.buffer })
      (to_ℕ r.value)

sm_read-Keeps :
    (sm : StateMachine) (fds : FdSet) (status : ℤ) (w : World) → Keeps w (sm_read sm fds status w)
unfolding sm_read
sm_read-Keeps sm fds status w =
    Keeps-if
      ((fd_isset sm.read_fd fds && not sm.read_suspended) && is_pos (cb_read_available sm.cbuffer))
      _ _ w
      (Keeps-bind w (ask _ w) _ (Uses-Keeps w _ (ask-Uses _ w)) (λ r w'.
        Keeps-if (eq_ℤ r.value (pos 0)) _ _ w' (omega arith) (
          Keeps-if (is_pos r.value) _ _ w'
            (Keeps-bind w' (or_abort _ w') _ (or_abort-Keeps (advance sm.cbuffer r) w')
              (λ cb w''. omega arith))
            (omega arith))))
      (omega arith)

pub sm_execute-Keeps :
    (sm : StateMachine) (read_fds write_fds : FdSet) (status : ℤ) (w : World)
    → Keeps w (sm_execute sm read_fds write_fds status w)
unfolding sm_execute
sm_execute-Keeps sm read_fds write_fds status w =
    Keeps-bind w _ _ (sm_write-Keeps sm write_fds status w)
      (λ a w'. Keeps-bind w' _ _ (sm_read-Keeps a.0 read_fds a.1 w') (λ b w''. omega arith))
