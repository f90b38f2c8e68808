-- ===== src/Twc/Channel/Moves.antt =====
-- twc_run of external_src/twc.c moves bytes through its two machines, and through nothing else.
use pixiecpp.Base.{
  ℕ, zero, suc, ◌≡◌, refl, ap, subst, ◌∙◌, false, ◌&&◌, Option, some, none, List, [], ◌++◌,
  append-nil, ◌==◌, ℤ, eq_ℤ, is_neg, length,
}
use pixiecpp.Os.{World, Reply, M, ask, pure, sys_select, eintr}
use pixiecpp.Os.Exchange.{
  Exchange, received, sent, Makes, Makes-bind, Makes-if, Makes-map, ask-Makes, Leads-refl,
}
use pixiecpp.Twc.Machine.Moves.{Moves, Moves-idle, Moves-trans}
use pixiecpp.Twc.Machine.Moves.Execute.{sm_execute-Makes}
use pixiecpp.Twc.Channel.{
  TwoWayChannel, Running, Round, finished, going_on, Selected, io_error, ready, timed_out, selected,
  execute_both, exit_status, after_execute, after_select, twc_round, twc_loop, twc_run, max_fd,
}

-- The machines read from different descriptors, and write to different ones.
pub record AreApart (twc : TwoWayChannel) : Type 0 where
  pub reads : eq_ℤ twc.sm_a2b.read_fd twc.sm_b2a.read_fd ≡ false
  pub reads' : eq_ℤ twc.sm_b2a.read_fd twc.sm_a2b.read_fd ≡ false
  pub writes : eq_ℤ twc.sm_a2b.write_fd twc.sm_b2a.write_fd ≡ false
  pub writes' : eq_ℤ twc.sm_b2a.write_fd twc.sm_a2b.write_fd ≡ false

pub record BothMove (twc : TwoWayChannel) (t : List Exchange) (twc' : TwoWayChannel) : Type 0 where
  pub a2b : Moves twc.sm_a2b t twc'.sm_a2b
  pub b2a : Moves twc.sm_b2a t twc'.sm_b2a

pub BothMove-idle :
    (twc : TwoWayChannel) (t : List Exchange)
    → ((fd : ℤ) → received fd t ≡ [])
    → ((fd : ℤ) → sent fd t ≡ [])
    → BothMove twc t twc
BothMove-idle twc t r s = record {
  a2b = Moves-idle twc.sm_a2b t (r twc.sm_a2b.read_fd) (s twc.sm_a2b.write_fd);
  b2a = Moves-idle twc.sm_b2a t (r twc.sm_b2a.read_fd) (s twc.sm_b2a.write_fd);
}

BothMove-trans :
    (twc twc' twc'' : TwoWayChannel) (t t' : List Exchange)
    → BothMove twc t twc'
    → BothMove twc' t' twc''
    → BothMove twc (t ++ t') twc''
BothMove-trans twc twc' twc'' t t' a b = record {
  a2b = Moves-trans twc.sm_a2b twc'.sm_a2b twc''.sm_a2b t t' a.a2b b.a2b;
  b2a = Moves-trans twc.sm_b2a twc'.sm_b2a twc''.sm_b2a t t' a.b2a b.b2a;
}

pub AreApart-after :
    (twc twc' : TwoWayChannel) (t : List Exchange)
    → BothMove twc t twc'
    → AreApart twc
    → AreApart twc'
AreApart-after twc twc' t m a =
    let read_a = m.a2b.same_read in
    let read_b = m.b2a.same_read in
    let write_a = m.a2b.same_write in
    let write_b = m.b2a.same_write in
    record {
      reads = rw (read_a, read_b) a.reads;
      reads' = rw (read_a, read_b) a.reads';
      writes = rw (write_a, write_b) a.writes;
      writes' = rw (write_a, write_b) a.writes';
    }

pub execute_both-Makes :
    (s : Running) (w : World)
    → AreApart s.twc
    → Makes w (λ s' t. BothMove s.twc t s'.twc) (execute_both s w)
unfolding execute_both
execute_both-Makes s w apart =
    Makes-bind w _ _ _ _ (sm_execute-Makes s.twc.sm_a2b s.read_fds s.write_fds s.status_a2b w)
      (λ a w' t (m, own).
        Makes-bind w' _ _ _ _ (sm_execute-Makes s.twc.sm_b2a a.read_fds a.write_fds s.status_b2a w')
          (λ b w'' t' (m', own'). (
            [],
            Leads-refl w'',
            rw (append-nil t') (record {
              a2b = Moves-trans s.twc.sm_a2b a.machine a.machine t t' m (
                  Moves-idle a.machine t'
                    (ap (λ fd. received fd t') m.same_read
                      ∙ own'.reads s.twc.sm_a2b.read_fd apart.reads')
                    (ap (λ fd. sent fd t') m.same_write
                      ∙ own'.writes s.twc.sm_a2b.write_fd apart.writes'));
              b2a =
                  Moves-trans s.twc.sm_b2a s.twc.sm_b2a b.machine t t'
                    (Moves-idle s.twc.sm_b2a t (own.reads s.twc.sm_b2a.read_fd apart.reads)
                      (own.writes s.twc.sm_b2a.write_fd apart.writes))
                    m';
            }),
          )))

abbrev pub twc_of : Round → TwoWayChannel
twc_of (finished status twc) = twc
twc_of (going_on s) = s.twc

after_execute-twc : (s : Running) → twc_of (after_execute s) ≡ s.twc
after_execute-twc s = by_status (exit_status s)
  where
    by_status :
        (o : Option ℤ)
        → twc_of (elim o [ none ↦ going_on s | some status ↦ finished status s.twc ]) ≡ s.twc
    by_status none = refl
    by_status (some status) = refl

after_select-Makes :
    (s : Running) (r : Reply) (x : Selected) (w : World)
    → AreApart s.twc
    → Makes w (λ o t. BothMove s.twc t (twc_of o)) (after_select s r x w)
unfolding after_select
after_select-Makes s r io_error w apart = (
  [],
  Leads-refl w,
  record { a2b = Moves-idle s.twc.sm_a2b [] refl refl; b2a = Moves-idle s.twc.sm_b2a [] refl refl },
)
after_select-Makes s r ready w apart =
    Makes-bind w _ _ _ _
      (execute_both-Makes (record s { read_fds = r.read_set; write_fds = r.write_set }) w apart)
      (λ s' w' t m. ([], Leads-refl w', rw (append-nil t, after_execute-twc s') m))
after_select-Makes s r timed_out w apart =
    ([], Leads-refl w, BothMove-idle s.twc [] (λ fd. refl) (λ fd. refl))

pub twc_round-Makes :
    (s : Running) (w : World)
    → AreApart s.twc
    → Makes w (λ o t. BothMove s.twc t (twc_of o)) (twc_round s w)
unfolding twc_round
twc_round-Makes s w apart =
    Makes-bind w (ask (sys_select (max_fd s.twc) s.read_fds s.write_fds) w) _ _ _ (ask-Makes _ w)
      (λ r w' t made.
        Makes-if (is_neg r.value && r.errno == eintr) _ _ w' _
          (λ _. ([], Leads-refl w', rw made (BothMove-idle s.twc _ (λ fd. refl) (λ fd. refl))))
          (λ _.
            Makes-map w' (after_select s r (selected r.value) w') _ _
              (λ o t' m.
                BothMove-trans s.twc s.twc (twc_of o) t t'
                  (rw made (BothMove-idle s.twc _ (λ fd. refl) (λ fd. refl))) m)
              (after_select-Makes s r (selected r.value) w' apart)))

after_round-Makes :
    (fuel : ℕ) (twc : TwoWayChannel) (r : Round) (w : World) (t : List Exchange)
    → BothMove twc t (twc_of r)
    → ((s : Running)
        → twc_of r ≡ s.twc
        → Makes w (λ x t'. BothMove s.twc t' x.1) (twc_loop fuel s w))
    → Makes w
        (λ x t'. BothMove twc (t ++ t') x.1)
        ((elim r as (λ _. M (ℤ × TwoWayChannel)) [
          | finished status twc' ↦ pure (status, twc')
          | going_on s ↦ twc_loop fuel s
        ])
          w)
after_round-Makes fuel twc (finished status twc') w t m later =
    ([], Leads-refl w, rw (append-nil t) m)
after_round-Makes fuel twc (going_on s) w t m later =
    Makes-map w (twc_loop fuel s w) _ _ (λ x t' m'. BothMove-trans twc s.twc x.1 t t' m m')
      (later s refl)

twc_loop-Makes :
    (fuel : ℕ) (s : Running) (w : World)
    → AreApart s.twc
    → Makes w (λ r t. BothMove s.twc t r.1) (twc_loop fuel s w)
unfolding twc_loop
twc_loop-Makes zero s w apart = tt
twc_loop-Makes (suc fuel) s w apart =
    Makes-bind w (twc_round s w) _ _ _ (twc_round-Makes s w apart) (λ r w' t m.
      after_round-Makes fuel s.twc r w' t m (λ s' e.
        twc_loop-Makes fuel s' w' (subst AreApart e (AreApart-after s.twc (twc_of r) t m apart))))

pub twc_run-Makes :
    (twc : TwoWayChannel) (w : World)
    → AreApart twc
    → Makes w (λ r t. BothMove twc t r.1) (twc_run twc w)
unfolding twc_run
twc_run-Makes twc w apart = Makes-bind w _ _ _ _ (execute_both-Makes _ w apart) (λ s w' t m.
    Makes-map w' (twc_loop (suc (length w'.script)) s w') _ _
      (λ x t' m'. BothMove-trans twc s.twc x.1 t t' m m')
      (twc_loop-Makes (suc (length w'.script)) s w' (AreApart-after twc s.twc t m apart)))
