-- ===== src/Twc/Machine/Moves/Calls.antt =====
-- The read and the write of sm_execute: which bytes each moves.
use pixiecpp.Base.{
  lengths, ℕ, ◌+◌, ◌-◌, ◌≤◌, ◌≡◌, refl, sym, ap, subst, ◌∙◌, true, false, Option, none, some, List,
  [], ◌∷◌, ◌++◌, append-nil, arith, ℤ, pos, eq_ℤ, is_pos, to_ℕ, take, length, take-append-drop,
}
use pixiecpp.Os.{World, Reply, sys_read, sys_write}
use pixiecpp.Os.Exchange.{Exchange, received, sent, Makes, Leads-refl}
use pixiecpp.Twc.Cbuffer.{
  Cbuffer, cb_read_available, cb_write_available, cb_advance_write, cb_advance_read_ptr, store_at,
  bytes_at,
}
use pixiecpp.Twc.Cbuffer.Pending.{pending, IsLinear, fill, drain, fill_lem, drain_lem}
use pixiecpp.Twc.Machine.{StateMachine, or_abort}
use pixiecpp.Twc.Machine.Moves.{Moves, IsOwn, Moves-idle}

pub or_abort-Makes :
    (o : Option Cbuffer) (w : World) → Makes w (λ cb t. (t ≡ []) × (o ≡ some cb)) (or_abort o w)
or_abort-Makes none w = tt
or_abort-Makes (some cb) w = ([], Leads-refl w, (refl, refl))

pub eq_ℤ_refl : (a : ℤ) → eq_ℤ a a ≡ true
eq_ℤ_refl a = ground arith

pub to_ℕ-none : (v : ℤ) → is_pos v ≡ false → to_ℕ v ≡ 0
to_ℕ-none v h = ground arith

pub zero-not_pos : (v : ℤ) → eq_ℤ v (pos 0) ≡ true → is_pos v ≡ false
zero-not_pos v h = ground arith

some-injective : {A : Type 0} (d a b : A) (o : Option A) → o ≡ some a → o ≡ some b → a ≡ b
some-injective d a b o e e' = ap (λ o'. elim o' [ none ↦ d | some x ↦ x ]) (sym e ∙ e')

-- A write that does not fail its assertion took no more than was pending.
drain-at_most :
    (cb cb' : Cbuffer) (n : ℕ)
    → IsLinear cb
    → drain cb n ≡ some cb'
    → n ≤ cb.read_ptr - cb.write_ptr
unfolding drain cb_advance_write
drain-at_most cb cb' n l e = let o = l.ordered in ground arith

pub available :
    (cb : Cbuffer) → IsLinear cb → to_ℕ (cb_write_available cb) ≡ cb.read_ptr - cb.write_ptr
available cb l = let o = l.ordered in ground arith

malloced-drain :
    (cb cb' : Cbuffer) (n : ℕ) → drain cb n ≡ some cb' → cb'.was_malloced ≡ cb.was_malloced
unfolding drain cb_advance_write
malloced-drain cb cb' n e = ground arith

malloced-cb_advance_read_ptr :
    (cb cb' : Cbuffer) (n : ℕ)
    → cb_advance_read_ptr cb n ≡ some cb'
    → cb'.was_malloced ≡ cb.was_malloced
unfolding cb_advance_read_ptr
malloced-cb_advance_read_ptr cb cb' n e = ground arith

module _ (sm : StateMachine) (r : Reply) where
  abbrev pub written : List Exchange
  written =
      (
        sys_write sm.write_fd (
            bytes_at sm.cbuffer.write_ptr (to_ℕ (cb_write_available sm.cbuffer)) sm.cbuffer.buffer),
        r,
      )
      ∷ []

  abbrev pub read_from : List Exchange
  read_from = (sys_read sm.read_fd (to_ℕ (cb_read_available sm.cbuffer)), r) ∷ []

  pub written-IsOwn : IsOwn sm written
  written-IsOwn = record { reads = λ fd h. refl; writes = λ fd h. rw h refl }

  pub read_from-IsOwn : IsOwn sm read_from
  read_from-IsOwn = record { reads = λ fd h. rw h refl; writes = λ fd h. refl }

  pub not_written : is_pos r.value ≡ false → Moves sm written sm
  not_written h = Moves-idle sm written refl (rw (eq_ℤ_refl sm.write_fd, to_ℕ-none r.value h) refl)

  pub not_read : is_pos r.value ≡ false → Moves sm read_from sm
  not_read h = Moves-idle sm read_from (rw (eq_ℤ_refl sm.read_fd, to_ℕ-none r.value h) refl) refl

  pub was_written :
      (cb : Cbuffer)
      → drain sm.cbuffer (to_ℕ r.value) ≡ some cb
      → Moves sm written (record sm { cbuffer = cb })
  was_written cb e = record {
    same_read = refl;
    same_write = refl;
    same_malloced = malloced-drain sm.cbuffer cb (to_ℕ r.value) e;
    relays = λ fits.
        let n = to_ℕ r.value in
        let (cb', e', l', queue, pointer, size) =
          drain_lem sm.cbuffer n fits.linear (drain-at_most sm.cbuffer cb n fits.linear e) in
        let same : cb' ≡ cb = some-injective cb cb' cb (drain sm.cbuffer n) e' e in
        let old = pending sm.cbuffer in
        let all : sent sm.write_fd written ≡ take n old =
          rw (eq_ℤ_refl sm.write_fd, available sm.cbuffer fits.linear) (append-nil (take n old)) in
        record {
          linear = subst IsLinear same l';
          advanced = sym (ap (λ c. c.read_ptr) same) ∙ (pointer ∙ omega arith);
          same_size = sym (ap (λ c. c.buffer_size) same) ∙ size;
          in_order =
              ap (λ l. l ++ pending cb) all
              ∙ (ap (λ c. take n old ++ pending c) (sym same)
                  ∙ (ap (λ l. take n old ++ l) queue
                      ∙ (take-append-drop n old ∙ sym (append-nil old))));
        };
  }

  abbrev pub filled_buffer : Cbuffer
  filled_buffer = record sm.cbuffer {
    buffer = store_at sm.cbuffer.read_ptr (take (to_ℕ r.value) r.bytes) sm.cbuffer.buffer;
  }

  abbrev pub pointer_advanced : Option Cbuffer
  pointer_advanced = cb_advance_read_ptr filled_buffer (to_ℕ r.value)

  pub was_read :
      (cb : Cbuffer) → pointer_advanced ≡ some cb → Moves sm read_from (record sm { cbuffer = cb })
  unfolding fill
  was_read cb e = record {
    same_read = refl;
    same_write = refl;
    same_malloced = malloced-cb_advance_read_ptr filled_buffer cb (to_ℕ r.value) e;
    relays = λ fits.
        let n = to_ℕ r.value in
        let bs = take n r.bytes in
        let whole : length bs ≡ n = grind (lengths, fits.honest.0) in
        let all : received sm.read_fd read_from ≡ bs = rw (eq_ℤ_refl sm.read_fd) (append-nil bs) in
        let (cb', e', l', queue, pointer, size) =
          fill_lem sm.cbuffer bs fits.linear (omega (arith, fits.short, ap length all)) in
        let same : cb' ≡ cb = some-injective cb cb' cb (fill sm.cbuffer bs) e' (
          ap
            (λ k.
              cb_advance_read_ptr
                (record sm.cbuffer { buffer = store_at sm.cbuffer.read_ptr bs sm.cbuffer.buffer })
                k)
            whole
          ∙ e) in
        record {
          linear = subst IsLinear same l';
          advanced =
              sym (ap (λ c. c.read_ptr) same)
              ∙ (pointer ∙ ap (λ l. sm.cbuffer.read_ptr + length l) (sym all));
          same_size = sym (ap (λ c. c.buffer_size) same) ∙ size;
          in_order = ap pending (sym same) ∙ (queue ∙ ap (λ l. pending sm.cbuffer ++ l) (sym all));
        };
  }
