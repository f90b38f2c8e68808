-- ===== src/Twc/Machine/Moves/Execute.antt =====
-- sm_execute moves bytes from the machine's one descriptor to the other.
use pixiecpp.Base.{
  refl, sym, Bool, true, false, not, ◌&&◌, List, [], ◌++◌, append-nil, arith, if◌then◌else◌, ℤ, pos,
  eq_ℤ, is_pos, to_ℕ,
}
use pixiecpp.Os.{World, ask}
use pixiecpp.Os.Exchange.{Exchange, Makes, Makes-bind, Makes-if, ask-Makes, Leads-refl}
use pixiecpp.Twc.Cbuffer.{cb_read_available, cb_write_available, cb_advance_write}
use pixiecpp.Twc.Cbuffer.Pending.{pending, drain}
use pixiecpp.Twc.Machine.{
  StateMachine, FdSet, Executed, fd_isset, sm_write, sm_read, sm_request, sm_execute, or_abort,
}
use pixiecpp.Twc.Machine.Moves.{Moves, IsOwn, Moves-idle, Moves-trans, IsOwn-nil, IsOwn-append}
use pixiecpp.Twc.Machine.Moves.Calls.{
  or_abort-Makes, zero-not_pos, written-IsOwn, read_from-IsOwn, not_written, not_read, was_written,
  was_read, pointer_advanced,
}

abbrev MovesOwn : StateMachine → StateMachine → List Exchange → Type 0
MovesOwn sm sm' t = Moves sm t sm' × IsOwn sm t

pub sm_write-Makes :
    (sm : StateMachine) (fds : FdSet) (status : ℤ) (w : World)
    → Makes w (λ p t. MovesOwn sm p.0 t) (sm_write sm fds status w)
unfolding sm_write drain
sm_write-Makes sm fds status w =
    Makes-if (fd_isset sm.write_fd fds && is_pos (cb_write_available sm.cbuffer)) _ _ w _
      (λ _. Makes-bind w (ask _ w) _ _ _ (ask-Makes _ w) (λ r w' t made.
        Makes-if (is_pos r.value) _ _ w' _
          (λ _.
            Makes-bind w' (or_abort _ w') _ _ _
              (or_abort-Makes (cb_advance_write sm.cbuffer (to_ℕ r.value)) w')
              (λ cb w'' t' (none_made, e). (
                [],
                Leads-refl w'',
                rw (made, none_made) (was_written sm r cb e, written-IsOwn sm r),
              )))
          (λ h. ([], Leads-refl w', rw made (not_written sm r h, written-IsOwn sm r)))))
      (λ _. ([], Leads-refl w, (Moves-idle sm [] refl refl, IsOwn-nil sm)))

pub sm_read-Makes :
    (sm : StateMachine) (fds : FdSet) (status : ℤ) (w : World)
    → Makes w (λ p t. MovesOwn sm p.0 t) (sm_read sm fds status w)
unfolding sm_read
sm_read-Makes sm fds status w =
    Makes-if
      ((fd_isset sm.read_fd fds && not sm.read_suspended) && is_pos (cb_read_available sm.cbuffer))
      _ _ w _
      (λ _. Makes-bind w (ask _ w) _ _ _ (ask-Makes _ w) (λ r w' t made.
        Makes-if (eq_ℤ r.value (pos 0)) _ _ w' _
          (λ h. (
            [],
            Leads-refl w',
            rw made (not_read sm r (zero-not_pos r.value h), read_from-IsOwn sm r),
          ))
          (λ _.
            Makes-if (is_pos r.value) _ _ w' _
              (λ _.
                Makes-bind w' (or_abort _ w') _ _ _ (or_abort-Makes (pointer_advanced sm r) w')
                  (λ cb w'' t' (none_made, e). (
                    [],
                    Leads-refl w'',
                    rw (made, none_made) (was_read sm r cb e, read_from-IsOwn sm r),
                  )))
              (λ h. ([], Leads-refl w', rw made (not_read sm r h, read_from-IsOwn sm r))))))
      (λ _. ([], Leads-refl w, (Moves-idle sm [] refl refl, IsOwn-nil sm)))

suspends : (sm : StateMachine) (b : Bool) → Moves sm [] (record sm { read_suspended = b })
suspends sm b = record {
  same_read = refl;
  same_write = refl;
  same_malloced = refl;
  relays = λ fits. record {
    linear = fits.linear;
    advanced = omega arith;
    same_size = refl;
    in_order = sym (append-nil (pending sm.cbuffer));
  };
}

Moves-if :
    (sm : StateMachine) (b : Bool) (x y : Executed)
    → Moves sm [] x.machine
    → Moves sm [] y.machine
    → Moves sm [] (if b then x else y).machine
Moves-if sm true x y hx hy = hx
Moves-if sm false x y hx hy = hy

-- sm_request changes no descriptor and no buffer.
requested :
    (sm : StateMachine) (read_fds write_fds : FdSet) (status : ℤ)
    → Moves sm [] (sm_request sm read_fds write_fds status).machine
unfolding sm_request
requested sm read_fds write_fds status =
    Moves-if sm (eq_ℤ status (pos 0)) _ _ (suspends sm _) (Moves-idle sm [] refl refl)

pub sm_execute-Makes :
    (sm : StateMachine) (read_fds write_fds : FdSet) (status : ℤ) (w : World)
    → Makes w (λ e t. MovesOwn sm e.machine t) (sm_execute sm read_fds write_fds status w)
unfolding sm_execute
sm_execute-Makes sm read_fds write_fds status w =
    Makes-bind w _ _ _ _ (sm_write-Makes sm write_fds status w) (λ a w' t (m, own).
      Makes-bind w' _ _ _ _ (sm_read-Makes a.0 read_fds a.1 w') (λ b w'' t' (m', own').
        let all = requested b.0 read_fds write_fds b.1 in
        (
          [],
          Leads-refl w'',
          (
            Moves-trans sm a.0 _ t (t' ++ []) m (Moves-trans a.0 b.0 _ t' [] m' all),
            IsOwn-append sm a.0 t (t' ++ []) m.same_read m.same_write own
                (IsOwn-append a.0 b.0 t' [] m'.same_read m'.same_write own' (IsOwn-nil b.0)),
          ),
        )))
