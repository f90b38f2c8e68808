-- ===== src/Twc/Machine/Moves.antt =====
-- sm_execute in any state and with any replies: which bytes go through the machine.
pub mod Calls
pub mod Execute
pub mod Asserts
use pixiecpp.Base.{
  suc, ◌+◌, ◌<◌, ◌≡◌, refl, sym, ap, ap₂, ◌∙◌, false, List, [], ◌++◌, append_assoc, append-nil,
  arith, ℤ, eq_ℤ, Bytes, length, length-append,
}
use pixiecpp.Os.Exchange.{
  Exchange, received, sent, IsHonest, received-append, sent-append, IsHonest-append,
}
use pixiecpp.Twc.Cbuffer.Pending.{pending, IsLinear}
use pixiecpp.Twc.Machine.{StateMachine}

-- The exchanges fit the machine's buffer: its pointers have not gone round, and what is read does
-- not send them round.
pub record Fits (sm : StateMachine) (t : List Exchange) : Type 0 where
  pub linear : IsLinear sm.cbuffer
  pub honest : IsHonest t
  pub short : suc (sm.cbuffer.read_ptr + length (received sm.read_fd t)) < sm.cbuffer.buffer_size

-- The bytes sent, then those still pending, are the bytes that were pending, then those received.
pub record Relayed (sm : StateMachine) (t : List Exchange) (sm' : StateMachine) : Type 0 where
  pub linear : IsLinear sm'.cbuffer
  pub advanced : sm'.cbuffer.read_ptr ≡ sm.cbuffer.read_ptr + length (received sm.read_fd t)
  pub same_size : sm'.cbuffer.buffer_size ≡ sm.cbuffer.buffer_size
  pub in_order :
      sent sm.write_fd t ++ pending sm'.cbuffer ≡ pending sm.cbuffer ++ received sm.read_fd t

pub record Moves (sm : StateMachine) (t : List Exchange) (sm' : StateMachine) : Type 0 where
  pub same_read : sm'.read_fd ≡ sm.read_fd
  pub same_write : sm'.write_fd ≡ sm.write_fd
  pub same_malloced : sm'.cbuffer.was_malloced ≡ sm.cbuffer.was_malloced
  pub relays : Fits sm t → Relayed sm t sm'

-- The exchanges read from no descriptor but the machine's, and write to no other.
pub record IsOwn (sm : StateMachine) (t : List Exchange) : Type 0 where
  pub reads : (fd : ℤ) → eq_ℤ sm.read_fd fd ≡ false → received fd t ≡ []
  pub writes : (fd : ℤ) → eq_ℤ sm.write_fd fd ≡ false → sent fd t ≡ []

pub Moves-idle :
    (sm : StateMachine) (t : List Exchange)
    → received sm.read_fd t ≡ []
    → sent sm.write_fd t ≡ []
    → Moves sm t sm
Moves-idle sm t r s = record {
  same_read = refl;
  same_write = refl;
  same_malloced = refl;
  relays = λ fits. record {
    linear = fits.linear;
    advanced = rw r (omega arith);
    same_size = refl;
    in_order = rw (r, s) (sym (append-nil (pending sm.cbuffer)));
  };
}

length-received :
    (fd : ℤ) (t t' : List Exchange)
    → length (received fd (t ++ t')) ≡ length (received fd t) + length (received fd t')
length-received fd t t' =
    ap length (received-append fd t t') ∙ length-append (received fd t) (received fd t')

pub Fits-before : (sm : StateMachine) (t t' : List Exchange) → Fits sm (t ++ t') → Fits sm t
Fits-before sm t t' fits =
    let (honest, _) = IsHonest-append t t' fits.honest in
    record {
      linear = fits.linear;
      honest = honest;
      short = omega (arith, fits.short, length-received sm.read_fd t t');
    }

pub Fits-after :
    (sm sm' : StateMachine) (t t' : List Exchange)
    → Moves sm t sm'
    → Fits sm (t ++ t')
    → Fits sm' t'
Fits-after sm sm' t t' m fits =
    let (_, honest) = IsHonest-append t t' fits.honest in
    let first = m.relays (Fits-before sm t t' fits) in
    let same : length (received sm'.read_fd t') ≡ length (received sm.read_fd t') =
      ap (λ fd. length (received fd t')) m.same_read in
    record {
      linear = first.linear;
      honest = honest;
      short = omega (
        arith,
        fits.short,
        length-received sm.read_fd t t',
        same,
        first.advanced,
        first.same_size,
      );
    }

-- Two stretches of a queue: what goes out and in, one after the other.
in_turn :
    (out out' queue queue' queue'' new new' : Bytes)
    → out ++ queue' ≡ queue ++ new
    → out' ++ queue'' ≡ queue' ++ new'
    → (out ++ out') ++ queue'' ≡ queue ++ (new ++ new')
in_turn out out' queue queue' queue'' new new' e e' =
    append_assoc out out' queue''
    ∙ (ap (λ l. out ++ l) e'
        ∙ (sym (append_assoc out queue' new')
            ∙ (ap (λ l. l ++ new') e ∙ append_assoc queue new new')))

pub Moves-trans :
    (sm sm' sm'' : StateMachine) (t t' : List Exchange)
    → Moves sm t sm'
    → Moves sm' t' sm''
    → Moves sm (t ++ t') sm''
Moves-trans sm sm' sm'' t t' a b = record {
  same_read = b.same_read ∙ a.same_read;
  same_write = b.same_write ∙ a.same_write;
  same_malloced = b.same_malloced ∙ a.same_malloced;
  relays = λ fits.
      let first = a.relays (Fits-before sm t t' fits) in
      let second = b.relays (Fits-after sm sm' t t' a fits) in
      let order : sent sm.write_fd t' ++ pending sm''.cbuffer
          ≡ pending sm'.cbuffer ++ received sm.read_fd t' =
        rw⁻¹ (a.same_read, a.same_write) second.in_order in
      let same : length (received sm'.read_fd t') ≡ length (received sm.read_fd t') =
        ap (λ fd. length (received fd t')) a.same_read in
      record {
        linear = second.linear;
        advanced =
            omega (arith, second.advanced, first.advanced, length-received sm.read_fd t t', same);
        same_size = second.same_size ∙ first.same_size;
        in_order =
            rw (sent-append sm.write_fd t t', received-append sm.read_fd t t')
              (in_turn (sent sm.write_fd t) (sent sm.write_fd t') (pending sm.cbuffer)
                (pending sm'.cbuffer) (pending sm''.cbuffer) (received sm.read_fd t)
                (received sm.read_fd t') first.in_order order);
      };
}

pub IsOwn-nil : (sm : StateMachine) → IsOwn sm []
IsOwn-nil sm = record { reads = λ fd h. refl; writes = λ fd h. refl }

pub IsOwn-append :
    (sm sm' : StateMachine) (t t' : List Exchange)
    → sm'.read_fd ≡ sm.read_fd
    → sm'.write_fd ≡ sm.write_fd
    → IsOwn sm t
    → IsOwn sm' t'
    → IsOwn sm (t ++ t')
IsOwn-append sm sm' t t' e e' a b = record {
  reads = λ fd h.
      received-append fd t t'
      ∙ ap₂ (λ l k. l ++ k) (a.reads fd h) (b.reads fd (ap (λ k. eq_ℤ k fd) e ∙ h));
  writes = λ fd h.
      sent-append fd t t'
      ∙ ap₂ (λ l k. l ++ k) (a.writes fd h) (b.writes fd (ap (λ k. eq_ℤ k fd) e' ∙ h));
}
