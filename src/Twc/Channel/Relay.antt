-- ===== src/Twc/Channel/Relay.antt =====
-- What a run of external_src/twc.c leaves on the two descriptors and in the two buffers.
use pixiecpp.Base.{suc, ◌+◌, ◌<◌, ◌≡◌, sym, subst, false, List, ◌++◌, arith, ℤ, eq_ℤ, length}
use pixiecpp.Os.{World, returned}
use pixiecpp.Os.Exchange.{Exchange, exchanged, received, sent, IsHonest, Makes, Leads-exchanged}
use pixiecpp.Twc.Cbuffer.Pending.{pending, IsLinear}
use pixiecpp.Twc.Machine.{StateMachine}
use pixiecpp.Twc.Machine.Moves.{Moves}
use pixiecpp.Twc.Channel.{TwoWayChannel, twc_run}
use pixiecpp.Twc.Channel.Moves.{AreApart, BothMove, twc_run-Makes}

-- The two machines join the two sockets of the channel, which differ, and their buffers' pointers
-- have not gone round.
pub record IsWired (twc : TwoWayChannel) : Type 0 where
  pub differ : eq_ℤ twc.fd_a twc.fd_b ≡ false
  pub a2b_reads : twc.sm_a2b.read_fd ≡ twc.fd_a
  pub a2b_writes : twc.sm_a2b.write_fd ≡ twc.fd_b
  pub b2a_reads : twc.sm_b2a.read_fd ≡ twc.fd_b
  pub b2a_writes : twc.sm_b2a.write_fd ≡ twc.fd_a
  pub a2b_linear : IsLinear twc.sm_a2b.cbuffer
  pub b2a_linear : IsLinear twc.sm_b2a.cbuffer

eq_ℤ_comm : (a b : ℤ) → eq_ℤ a b ≡ false → eq_ℤ b a ≡ false
eq_ℤ_comm a b h = ground arith

pub IsWired-AreApart : (twc : TwoWayChannel) → IsWired twc → AreApart twc
IsWired-AreApart twc i = record {
  reads = rw (i.a2b_reads, i.b2a_reads) i.differ;
  reads' = rw (i.a2b_reads, i.b2a_reads) (eq_ℤ_comm twc.fd_a twc.fd_b i.differ);
  writes = rw (i.a2b_writes, i.b2a_writes) (eq_ℤ_comm twc.fd_a twc.fd_b i.differ);
  writes' = rw (i.a2b_writes, i.b2a_writes) i.differ;
}

-- The machine that reads from `from` and writes to `to`, over the exchanges of a run: what `to`
-- has taken, then what is pending, is what was pending, then what `from` has delivered.
abbrev pub Conserves : ℤ → ℤ → StateMachine → List Exchange → StateMachine → Type 0
Conserves from to sm t sm' =
    sent to t ++ pending sm'.cbuffer ≡ pending sm.cbuffer ++ received from t

Moves-Conserves :
    (from to : ℤ) (sm : StateMachine) (t : List Exchange) (sm' : StateMachine)
    → sm.read_fd ≡ from
    → sm.write_fd ≡ to
    → Moves sm t sm'
    → IsLinear sm.cbuffer
    → IsHonest t
    → suc (sm.cbuffer.read_ptr + length (received from t)) < sm.cbuffer.buffer_size
    → Conserves from to sm t sm'
Moves-Conserves from to sm t sm' er ew m l h short =
    let relayed = m.relays (record { linear = l; honest = h; short = rw er short }) in
    rw⁻¹ (er, ew) relayed.in_order

-- For a channel of two different sockets, two machines wired to them and two buffers whose pointers
-- have not gone round, for any replies of the system and any run of twc_run that returns, with any
-- status: where each read stores as many bytes as it returns, and what each side receives falls
-- short of sending its buffer's read pointer round, the bytes that socket B has taken, then those
-- left in the buffer, are those that were in the buffer, then those that socket A has delivered, in
-- order; and the same holds from B to A.
pub twc_run-Conserves :
    (twc : TwoWayChannel) (w w' : World) (status : ℤ) (twc' : TwoWayChannel)
    → IsWired twc
    → twc_run twc w ≡ returned (status, twc') w'
    → IsHonest (exchanged w w')
    → suc (twc.sm_a2b.cbuffer.read_ptr + length (received twc.fd_a (exchanged w w')))
      < twc.sm_a2b.cbuffer.buffer_size
    → suc (twc.sm_b2a.cbuffer.read_ptr + length (received twc.fd_b (exchanged w w')))
      < twc.sm_b2a.cbuffer.buffer_size
    → Conserves twc.fd_a twc.fd_b twc.sm_a2b (exchanged w w') twc'.sm_a2b
      × Conserves twc.fd_b twc.fd_a twc.sm_b2a (exchanged w w') twc'.sm_b2a
twc_run-Conserves twc w w' status twc' i ran honest short_a short_b =
    let (t, l, m) =
      subst (Makes w (λ r t. BothMove twc t r.1)) ran
        (twc_run-Makes twc w (IsWired-AreApart twc i)) in
    let both = subst (λ t. BothMove twc t twc') (sym (Leads-exchanged w w' t l)) m in
    (
      Moves-Conserves twc.fd_a twc.fd_b twc.sm_a2b (exchanged w w') twc'.sm_a2b i.a2b_reads
          i.a2b_writes both.a2b i.a2b_linear honest short_a,
      Moves-Conserves twc.fd_b twc.fd_a twc.sm_b2a (exchanged w w') twc'.sm_b2a i.b2a_reads
          i.b2a_writes both.b2a i.b2a_linear honest short_b,
    )
