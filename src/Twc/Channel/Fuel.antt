-- ===== src/Twc/Channel/Fuel.antt =====
-- The fuel of twc_run is enough.
use pixiecpp.Base.{ℕ, zero, suc, ◌<◌, ◌≡◌, refl, ◌&&◌, arith, ◌==◌, ℤ, is_neg, length}
use pixiecpp.Os.{World, M, Reply, ask, pure, sys_select, eintr}
use pixiecpp.Os.Progress.{Keeps, Uses, Keeps-bind, Uses-bind, Keeps-if, ask-Uses, bind-agree}
use pixiecpp.Twc.Machine.Progress.{sm_execute-Keeps}
use pixiecpp.Twc.Channel.{
  Running, Round, finished, going_on, Selected, io_error, ready, timed_out, selected, execute_both,
  after_select, twc_round, twc_loop, TwoWayChannel, max_fd,
}

execute_both-Keeps : (s : Running) (w : World) → Keeps w (execute_both s w)
unfolding execute_both
execute_both-Keeps s w =
    Keeps-bind w _ _ (sm_execute-Keeps s.twc.sm_a2b s.read_fds s.write_fds s.status_a2b w) (λ a w'.
      Keeps-bind w' _ _ (sm_execute-Keeps s.twc.sm_b2a a.read_fds a.write_fds s.status_b2a w')
        (λ b w''. omega arith))

after_select-Keeps :
    (s : Running) (r : Reply) (x : Selected) (w : World) → Keeps w (after_select s r x w)
unfolding after_select
after_select-Keeps s r io_error w = omega arith
after_select-Keeps s r ready w =
    Keeps-bind w _ _
      (execute_both-Keeps (record s { read_fds = r.read_set; write_fds = r.write_set }) w)
      (λ s' w'. omega arith)
after_select-Keeps s r timed_out w = omega arith

-- A round uses the reply of its select.
twc_round-Uses : (s : Running) (w : World) → Uses w (twc_round s w)
unfolding twc_round
twc_round-Uses s w =
    Uses-bind w (ask (sys_select (max_fd s.twc) s.read_fds s.write_fds) w) _ (ask-Uses _ w) (λ r w'.
      Keeps-if (is_neg r.value && r.errno == eintr) _ _ w' (omega arith)
        (after_select-Keeps s r (selected r.value) w'))

after_round :
    (k l : Running → M (ℤ × TwoWayChannel)) (r : Round) (w : World)
    → ((s : Running) → k s w ≡ l s w)
    → (elim r as (λ _. M (ℤ × TwoWayChannel)) [
      | finished status twc ↦ pure (status, twc)
      | going_on s ↦ k s
    ])
        w
      ≡ (elim r as (λ _. M (ℤ × TwoWayChannel)) [
        | finished status twc ↦ pure (status, twc)
        | going_on s ↦ l s
      ])
          w
after_round k l (finished status twc) w same = refl
after_round k l (going_on s) w same = same s

-- Any two amounts of fuel that exceed the number of replies give the same run of the loop of
-- twc_run: it stops for want of replies and never for want of fuel.
pub twc_loop-agree :
    (f g : ℕ) (s : Running) (w : World)
    → length w.script < f
    → length w.script < g
    → twc_loop f s w ≡ twc_loop g s w
unfolding twc_loop
twc_loop-agree zero g s w hf hg = absurd (omega arith)
twc_loop-agree (suc f) zero s w hf hg = absurd (omega arith)
twc_loop-agree (suc f) (suc g) s w hf hg =
    bind-agree w (twc_round s w) _ _ (twc_round-Uses s w) (λ r w' less.
      after_round (twc_loop f) (twc_loop g) r w'
        (λ s'. twc_loop-agree f g s' w' (omega arith) (omega arith)))
