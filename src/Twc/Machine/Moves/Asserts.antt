-- ===== src/Twc/Machine/Moves/Asserts.antt =====
-- The assertions of the buffer under sm_execute: when none of them fails.
use pixiecpp.Base.{
  lengths, ◌-◌, ◌≤◌, ◌≡◌, refl, ap, ◌∙◌, not, ◌&&◌, Option, none, some, List, [], ◌++◌, append-nil,
  arith, ℤ, pos, eq_ℤ, is_pos, to_ℕ, take, length,
}
use pixiecpp.Os.{World, Reply, ask}
use pixiecpp.Os.Exchange.{Exchange, received, IsBounded, IsBounded-append, Leads-refl, ask-Makes}
use pixiecpp.Os.Aborts.{Aborts, Aborts-bind, Aborts-if, Aborts-map, ask-Aborts}
use pixiecpp.Twc.Cbuffer.{
  Cbuffer, cb_read_available, cb_write_available, cb_advance_write, cb_advance_read_ptr, bytes_at,
}
use pixiecpp.Twc.Cbuffer.Pending.{fill, drain, fill_lem, drain_lem, length-pending}
use pixiecpp.Twc.Machine.{StateMachine, FdSet, fd_isset, sm_write, sm_read, sm_execute, or_abort}
use pixiecpp.Twc.Machine.Moves.{Moves, Fits, Fits-before, Fits-after}
use pixiecpp.Twc.Machine.Moves.Calls.{
  written, read_from, filled_buffer, pointer_advanced, available, eq_ℤ_refl, or_abort-Makes,
}
use pixiecpp.Twc.Machine.Moves.Execute.{sm_write-Makes, sm_read-Makes}

-- Exchanges that a machine can take.
pub record Permits (sm : StateMachine) (t : List Exchange) : Type 0 where
  pub fits : Fits sm t
  pub bounded : IsBounded t

pub Permits-before :
    (sm : StateMachine) (t t' : List Exchange) → Permits sm (t ++ t') → Permits sm t
Permits-before sm t t' p =
    let (bounded, _) = IsBounded-append t t' p.bounded in
    record { fits = Fits-before sm t t' p.fits; bounded = bounded }

pub Permits-after :
    (sm sm' : StateMachine) (t t' : List Exchange)
    → Moves sm t sm'
    → Permits sm (t ++ t')
    → Permits sm' t'
Permits-after sm sm' t t' m p =
    let (_, bounded) = IsBounded-append t t' p.bounded in
    record { fits = Fits-after sm sm' t t' m p.fits; bounded = bounded }

or_abort-Aborts :
    (o : Option Cbuffer) (w : World) → Aborts w (λ t. (t ≡ []) × (o ≡ none)) (or_abort o w)
or_abort-Aborts none w = ([], Leads-refl w, (refl, refl))
or_abort-Aborts (some cb) w = tt

none-some : {A : Type 0} (a : A) (o : Option A) → o ≡ none → ¬ (o ≡ some a)
none-some a o e e' = cc

written-Permits :
    (sm : StateMachine) (r : Reply)
    → Permits sm (written sm r)
    → ¬ (drain sm.cbuffer (to_ℕ r.value) ≡ none)
written-Permits sm r p e =
    let l = p.fits.linear in
    let few : to_ℕ r.value ≤ sm.cbuffer.read_ptr - sm.cbuffer.write_ptr = omega (
      arith,
      p.bounded.0,
      ap (λ k. length (bytes_at sm.cbuffer.write_ptr k sm.cbuffer.buffer)) (available sm.cbuffer l)
          ∙ length-pending sm.cbuffer l,
    ) in
    let (cb, e', _, _, _, _) = drain_lem sm.cbuffer (to_ℕ r.value) l few in
    none-some cb (drain sm.cbuffer (to_ℕ r.value)) e e'

read_from-Permits :
    (sm : StateMachine) (r : Reply) → Permits sm (read_from sm r) → ¬ (pointer_advanced sm r ≡ none)
unfolding fill
read_from-Permits sm r p e =
    let n = to_ℕ r.value in
    let bs = take n r.bytes in
    let whole : length bs ≡ n = grind (lengths, p.fits.honest.0) in
    let all : received sm.read_fd (read_from sm r) ≡ bs =
      rw (eq_ℤ_refl sm.read_fd) (append-nil bs) in
    let (cb, e', _, _, _, _) =
      fill_lem sm.cbuffer bs p.fits.linear (omega (arith, p.fits.short, ap length all)) in
    none-some cb (fill sm.cbuffer bs)
      (ap (λ k. cb_advance_read_ptr (filled_buffer sm r) k) whole ∙ e) e'

sm_write-Aborts :
    (sm : StateMachine) (fds : FdSet) (status : ℤ) (w : World)
    → Aborts w (λ t. ¬ Permits sm t) (sm_write sm fds status w)
unfolding sm_write drain
sm_write-Aborts sm fds status w =
    Aborts-if (fd_isset sm.write_fd fds && is_pos (cb_write_available sm.cbuffer)) _ _ w _
      (λ _. Aborts-bind w (ask _ w) _ _ _ (ask-Makes _ w) (ask-Aborts _ w _) (λ r w' t made.
        Aborts-if (is_pos r.value) _ _ w' _
          (λ _.
            Aborts-bind w' (or_abort (cb_advance_write sm.cbuffer (to_ℕ r.value)) w') _ _ _
              (or_abort-Makes (cb_advance_write sm.cbuffer (to_ℕ r.value)) w')
              (Aborts-map w' (or_abort (cb_advance_write sm.cbuffer (to_ℕ r.value)) w') _ _
                (λ t' (none_made, e). rw (made, none_made) (λ p. written-Permits sm r p e))
                (or_abort-Aborts (cb_advance_write sm.cbuffer (to_ℕ r.value)) w'))
              (λ cb w'' t' _. tt))
          (λ h. tt)))
      (λ _. tt)

sm_read-Aborts :
    (sm : StateMachine) (fds : FdSet) (status : ℤ) (w : World)
    → Aborts w (λ t. ¬ Permits sm t) (sm_read sm fds status w)
unfolding sm_read
sm_read-Aborts sm fds status w =
    Aborts-if
      ((fd_isset sm.read_fd fds && not sm.read_suspended) && is_pos (cb_read_available sm.cbuffer))
      _ _ w _
      (λ _. Aborts-bind w (ask _ w) _ _ _ (ask-Makes _ w) (ask-Aborts _ w _) (λ r w' t made.
        Aborts-if (eq_ℤ r.value (pos 0)) _ _ w' _ (λ _. tt)
          (λ _.
            Aborts-if (is_pos r.value) _ _ w' _
              (λ _.
                Aborts-bind w' (or_abort (pointer_advanced sm r) w') _ _ _
                  (or_abort-Makes (pointer_advanced sm r) w')
                  (Aborts-map w' (or_abort (pointer_advanced sm r) w') _ _
                    (λ t' (none_made, e). rw (made, none_made) (λ p. read_from-Permits sm r p e))
                    (or_abort-Aborts (pointer_advanced sm r) w'))
                  (λ cb w'' t' _. tt))
              (λ _. tt))))
      (λ _. tt)

pub sm_execute-Aborts :
    (sm : StateMachine) (read_fds write_fds : FdSet) (status : ℤ) (w : World)
    → Aborts w (λ t. ¬ Permits sm t) (sm_execute sm read_fds write_fds status w)
unfolding sm_execute
sm_execute-Aborts sm read_fds write_fds status w =
    Aborts-bind w _ _ _ _ (sm_write-Makes sm write_fds status w)
      (sm_write-Aborts sm write_fds status w)
      (λ a w' t (m, own).
        Aborts-bind w' _ _ _ _ (sm_read-Makes a.0 read_fds a.1 w')
          (Aborts-map w' (sm_read a.0 read_fds a.1 w') _ _
            (λ t' fails p. fails (Permits-after sm a.0 t t' m p))
            (sm_read-Aborts a.0 read_fds a.1 w'))
          (λ b w'' t' _. tt))
