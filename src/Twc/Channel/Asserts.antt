-- ===== src/Twc/Channel/Asserts.antt =====
-- The assertions of the buffers under twc_run: when none of them fails.
use pixiecpp.Base.{
  ℕ, zero, suc, ◌+◌, ◌<◌, ◌≡◌, refl, sym, subst, ◌&&◌, List, ◌++◌, ◌==◌, ℤ, is_neg, length,
}
use pixiecpp.Os.{World, Reply, M, aborted, pure, ask, sys_select, eintr}
use pixiecpp.Os.Exchange.{
  Exchange, exchanged, received, IsHonest, IsBounded, ask-Makes, Leads-exchanged,
}
use pixiecpp.Os.Aborts.{Aborts, Aborts-bind, Aborts-if, Aborts-map, ask-Aborts}
use pixiecpp.Twc.Machine.Moves.{Moves-idle}
use pixiecpp.Twc.Machine.Moves.Execute.{sm_execute-Makes}
use pixiecpp.Twc.Machine.Moves.Asserts.{Permits, Permits-after, sm_execute-Aborts}
use pixiecpp.Twc.Channel.{
  TwoWayChannel, Running, Round, finished, going_on, Selected, io_error, ready, timed_out, selected,
  execute_both, after_select, twc_round, twc_loop, twc_run, max_fd,
}
use pixiecpp.Twc.Channel.Moves.{
  AreApart, AreApart-after, BothMove, BothMove-idle, execute_both-Makes, twc_of, twc_round-Makes,
}
use pixiecpp.Twc.Channel.Relay.{IsWired, IsWired-AreApart}

record BothPermit (twc : TwoWayChannel) (t : List Exchange) : Type 0 where
  a2b : Permits twc.sm_a2b t
  b2a : Permits twc.sm_b2a t

BothPermit-after :
    (twc twc' : TwoWayChannel) (t t' : List Exchange)
    → BothMove twc t twc'
    → BothPermit twc (t ++ t')
    → BothPermit twc' t'
BothPermit-after twc twc' t t' m p = record {
  a2b = Permits-after twc.sm_a2b twc'.sm_a2b t t' m.a2b p.a2b;
  b2a = Permits-after twc.sm_b2a twc'.sm_b2a t t' m.b2a p.b2a;
}

execute_both-Aborts :
    (s : Running) (w : World)
    → AreApart s.twc
    → Aborts w (λ t. ¬ BothPermit s.twc t) (execute_both s w)
unfolding execute_both
execute_both-Aborts s w apart =
    Aborts-bind w _ _ _ _ (sm_execute-Makes s.twc.sm_a2b s.read_fds s.write_fds s.status_a2b w)
      (Aborts-map w _ _ _ (λ t fails p. fails p.a2b)
        (sm_execute-Aborts s.twc.sm_a2b s.read_fds s.write_fds s.status_a2b w))
      (λ a w' t (m, own).
        Aborts-bind w' _ _ _ _
          (sm_execute-Makes s.twc.sm_b2a a.read_fds a.write_fds s.status_b2a w')
          (Aborts-map w' _ _ _
            (λ t' fails p. fails (
              Permits-after s.twc.sm_b2a s.twc.sm_b2a t t'
                (Moves-idle s.twc.sm_b2a t (own.reads s.twc.sm_b2a.read_fd apart.reads)
                  (own.writes s.twc.sm_b2a.write_fd apart.writes))
                p.b2a))
            (sm_execute-Aborts s.twc.sm_b2a a.read_fds a.write_fds s.status_b2a w'))
          (λ b w'' t' _. tt))

after_select-Aborts :
    (s : Running) (r : Reply) (x : Selected) (w : World)
    → AreApart s.twc
    → Aborts w (λ t. ¬ BothPermit s.twc t) (after_select s r x w)
unfolding after_select
after_select-Aborts s r io_error w apart = tt
after_select-Aborts s r ready w apart =
    let s' = record s { read_fds = r.read_set; write_fds = r.write_set } in
    Aborts-bind w _ _ _ _ (execute_both-Makes s' w apart) (execute_both-Aborts s' w apart)
      (λ s'' w' t m. tt)
after_select-Aborts s r timed_out w apart = tt

twc_round-Aborts :
    (s : Running) (w : World)
    → AreApart s.twc
    → Aborts w (λ t. ¬ BothPermit s.twc t) (twc_round s w)
unfolding twc_round
twc_round-Aborts s w apart =
    Aborts-bind w (ask (sys_select (max_fd s.twc) s.read_fds s.write_fds) w) _ _ _ (ask-Makes _ w)
      (ask-Aborts _ w _)
      (λ r w' t made.
        Aborts-if (is_neg r.value && r.errno == eintr) _ _ w' _ (λ _. tt)
          (λ _.
            Aborts-map w' (after_select s r (selected r.value) w') _ _
              (λ t' fails p. fails (
                BothPermit-after s.twc s.twc t t'
                  (rw made (BothMove-idle s.twc _ (λ fd. refl) (λ fd. refl))) p))
              (after_select-Aborts s r (selected r.value) w' apart)))

after_round-Aborts :
    (fuel : ℕ) (twc : TwoWayChannel) (r : Round) (w : World) (t : List Exchange)
    → BothMove twc t (twc_of r)
    → ((s : Running)
        → twc_of r ≡ s.twc
        → Aborts w (λ t'. ¬ BothPermit s.twc t') (twc_loop fuel s w))
    → Aborts w
        (λ t'. ¬ BothPermit twc (t ++ t'))
        ((elim r as (λ _. M (ℤ × TwoWayChannel)) [
          | finished status twc' ↦ pure (status, twc')
          | going_on s ↦ twc_loop fuel s
        ])
          w)
after_round-Aborts fuel twc (finished status twc') w t m later = tt
after_round-Aborts fuel twc (going_on s) w t m later =
    Aborts-map w (twc_loop fuel s w) _ _ (λ t' fails p. fails (BothPermit-after twc s.twc t t' m p))
      (later s refl)

twc_loop-Aborts :
    (fuel : ℕ) (s : Running) (w : World)
    → AreApart s.twc
    → Aborts w (λ t. ¬ BothPermit s.twc t) (twc_loop fuel s w)
unfolding twc_loop
twc_loop-Aborts zero s w apart = tt
twc_loop-Aborts (suc fuel) s w apart =
    Aborts-bind w (twc_round s w) _ _ _ (twc_round-Makes s w apart) (twc_round-Aborts s w apart)
      (λ r w' t m. after_round-Aborts fuel s.twc r w' t m (λ s' e.
        twc_loop-Aborts fuel s' w' (subst AreApart e (AreApart-after s.twc (twc_of r) t m apart))))

twc_run-Aborts :
    (twc : TwoWayChannel) (w : World)
    → AreApart twc
    → Aborts w (λ t. ¬ BothPermit twc t) (twc_run twc w)
unfolding twc_run
twc_run-Aborts twc w apart =
    Aborts-bind w _ _ _ _ (execute_both-Makes _ w apart) (execute_both-Aborts _ w apart)
      (λ s w' t m.
        Aborts-map w' (twc_loop (suc (length w'.script)) s w') _ _
          (λ t' fails p. fails (BothPermit-after twc s.twc t t' m p))
          (twc_loop-Aborts (suc (length w'.script)) s w' (AreApart-after twc s.twc t m apart)))

-- For a channel of two different sockets, two machines wired to them and two buffers whose pointers
-- have not gone round, and for any replies of the system: as long as a read stores as many bytes as
-- it returns, a write takes no more than it is given, and what each side receives falls short of
-- sending its buffer's read pointer round, no assertion of the buffers fails in twc_run, however
-- its calls succeed, fail or are interrupted.
pub twc_run-ne_aborted :
    (twc : TwoWayChannel) (w w' : World)
    → IsWired twc
    → IsHonest (exchanged w w')
    → IsBounded (exchanged w w')
    → suc (twc.sm_a2b.cbuffer.read_ptr + length (received twc.fd_a (exchanged w w')))
      < twc.sm_a2b.cbuffer.buffer_size
    → suc (twc.sm_b2a.cbuffer.read_ptr + length (received twc.fd_b (exchanged w w')))
      < twc.sm_b2a.cbuffer.buffer_size
    → ¬ (twc_run twc w ≡ aborted w')
twc_run-ne_aborted twc w w' i honest bounded short_a short_b failed =
    let (t, l, fails) =
      subst (Aborts w (λ t. ¬ BothPermit twc t)) failed
        (twc_run-Aborts twc w (IsWired-AreApart twc i)) in
    let same = Leads-exchanged w w' t l in
    subst (λ t. ¬ BothPermit twc t) (sym same) fails
      (record {
        a2b = record {
          fits = record { linear = i.a2b_linear; honest = honest; short = rw i.a2b_reads short_a };
          bounded = bounded;
        };
        b2a = record {
          fits = record { linear = i.b2a_linear; honest = honest; short = rw i.b2a_reads short_b };
          bounded = bounded;
        };
      })
