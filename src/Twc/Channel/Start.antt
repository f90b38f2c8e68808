-- ===== src/Twc/Channel/Start.antt =====
-- RawTwoWayChannel::start of Pixie-XC/Channel.cpp around a run of the channel.
use pixiecpp.Base.{
  ℕ, suc, ◌<◌, ◌≡◌, refl, subst, false, List, [], ◌∷◌, ◌++◌, arith, ℤ, pos, eq_ℤ, is_neg, Bytes,
  length,
}
use pixiecpp.Os.{Reply, Call, World, returned, ask, sys_getfl, sys_setfl, sys_close}
use pixiecpp.Os.Exchange.{exchanged, received, sent, IsHonest, Makes}
use pixiecpp.Blk.Socket.Read.{world}
use pixiecpp.Sockets.Flags.{
  to_u32, add_non_blocking, clear_non_blocking, socket_set_blocking, socket_set_non_blocking,
}
use pixiecpp.Twc.Cbuffer.{cb_init, cb_clean}
use pixiecpp.Twc.Cbuffer.Pending.{pending}
use pixiecpp.Twc.Machine.{sm_init, sm_clean}
use pixiecpp.Twc.Channel.{TwoWayChannel, twc_init, twc_run, twc_clean, start}
use pixiecpp.Twc.Channel.Moves.{BothMove, twc_run-Makes}
use pixiecpp.Twc.Channel.Relay.{IsWired, IsWired-AreApart, twc_run-Conserves}

-- The replies of reading and setting the flags of both sockets.
pub record Flags : Type 0 where
  pub get_server : Reply
  pub set_server : Reply
  pub get_client : Reply
  pub set_client : Reply
  pub server_flags : ℕ
  pub client_flags : ℕ

pub record AreSet (f : Flags) : Type 0 where
  pub server_got : f.get_server.value ≡ pos f.server_flags
  pub server_set : is_neg f.set_server.value ≡ false
  pub client_got : f.get_client.value ≡ pos f.client_flags
  pub client_set : is_neg f.set_client.value ≡ false

abbrev pub flag_replies : Flags → List Reply → List Reply
flag_replies f rs = f.get_server ∷ f.set_server ∷ f.get_client ∷ f.set_client ∷ rs

-- The calls, with the new flags of both.
abbrev pub flag_calls : (ℕ → ℕ) → ℤ → ℤ → Flags → List Call → List Call
flag_calls change client server f log =
    (((log ++ (sys_getfl server ∷ []))
        ++ (sys_setfl server (change (to_u32 (pos f.server_flags))) ∷ []))
      ++ (sys_getfl client ∷ []))
    ++ (sys_setfl client (change (to_u32 (pos f.client_flags))) ∷ [])

set_non_blocking :
    (socket : ℤ) (n : ℕ) (get set : Reply) (rs : List Reply) (log : List Call)
    → get.value ≡ pos n
    → is_neg set.value ≡ false
    → socket_set_non_blocking socket (world (get ∷ set ∷ rs) log)
      ≡ returned socket (
          world rs (
            (log ++ (sys_getfl socket ∷ []))
            ++ (sys_setfl socket (add_non_blocking (to_u32 (pos n))) ∷ [])))
unfolding socket_set_non_blocking ask
set_non_blocking socket n get set rs log g s = rw (g, s) refl

set_blocking :
    (socket : ℤ) (n : ℕ) (get set : Reply) (rs : List Reply) (log : List Call)
    → get.value ≡ pos n
    → is_neg set.value ≡ false
    → socket_set_blocking socket (world (get ∷ set ∷ rs) log)
      ≡ returned socket (
          world rs (
            (log ++ (sys_getfl socket ∷ []))
            ++ (sys_setfl socket (clear_non_blocking (to_u32 (pos n))) ∷ [])))
unfolding socket_set_blocking ask
set_blocking socket n get set rs log g s = rw (g, s) refl

twc_clean-returned :
    (twc : TwoWayChannel) (w : World)
    → twc.sm_a2b.cbuffer.was_malloced ≡ false
    → twc.sm_b2a.cbuffer.was_malloced ≡ false
    → (twc' : TwoWayChannel) × (twc_clean twc w ≡ returned twc' w)
unfolding twc_clean sm_clean cb_clean
twc_clean-returned twc w a b = (
  record twc {
    sm_a2b = record twc.sm_a2b {
      cbuffer = record twc.sm_a2b.cbuffer { buffer = []; buffer_size = 0 };
    };
    sm_b2a = record twc.sm_b2a {
      cbuffer = record twc.sm_b2a.cbuffer { buffer = []; buffer_size = 0 };
    };
  },
  rw (a, b) refl,
)

-- The socket of the client and that of the server, with the buffers' memory.
pub record Ends : Type 0 where
  pub client : ℤ
  pub server : ℤ
  pub memory_a : Bytes
  pub memory_b : Bytes
  pub junk : ℕ

abbrev pub channel : Ends → TwoWayChannel
channel e = twc_init e.client e.server 10000 e.memory_a e.memory_b e.junk

pub record AreUsable (e : Ends) : Type 0 where
  pub differ : eq_ℤ e.client e.server ≡ false
  pub whole_a : length e.memory_a ≡ 10000
  pub whole_b : length e.memory_b ≡ 10000

channel-IsWired : (e : Ends) → AreUsable e → IsWired (channel e)
unfolding twc_init sm_init cb_init
channel-IsWired e u = record {
  differ = u.differ;
  a2b_reads = refl;
  a2b_writes = refl;
  b2a_reads = refl;
  b2a_writes = refl;
  a2b_linear = record { ordered = omega arith; inside = omega arith; whole = u.whole_a };
  b2a_linear = record { ordered = omega arith; inside = omega arith; whole = u.whole_b };
}

channel-malloced :
    (e : Ends) (w w' : World) (status : ℤ) (twc : TwoWayChannel)
    → AreUsable e
    → twc_run (channel e) w ≡ returned (status, twc) w'
    → (twc.sm_a2b.cbuffer.was_malloced ≡ false) × (twc.sm_b2a.cbuffer.was_malloced ≡ false)
unfolding twc_init sm_init cb_init
channel-malloced e w w' status twc u ran =
    let (t, l, m) =
      subst (Makes w (λ r t. BothMove (channel e) t r.1)) ran
        (twc_run-Makes (channel e) w (IsWired-AreApart (channel e) (channel-IsWired e u))) in
    (m.a2b.same_malloced, m.b2a.same_malloced)

module _ (e : Ends) (before after : Flags) (rs rs' : List Reply) (log log' : List Call) where
  -- The worlds in which the channel starts and ends to run.
  abbrev pub begun : World
  begun = world rs (flag_calls add_non_blocking e.client e.server before log)

  abbrev pub run_over : World
  run_over = world (flag_replies after rs') log'

  abbrev pub closed : World
  closed = world rs' (
      (flag_calls clear_non_blocking e.client e.server after log' ++ (sys_close e.client ∷ []))
      ++ (sys_close e.server ∷ []))

  -- A start whose calls on the flags succeed and whose run of the channel returns.
  pub start-closed :
      (status : ℤ) (twc : TwoWayChannel)
      → AreUsable e
      → AreSet before
      → AreSet after
      → twc_run (channel e) begun ≡ returned (status, twc) run_over
      → start e.client e.server e.memory_a e.memory_b e.junk (world (flag_replies before rs) log)
        ≡ returned tt closed
  unfolding start
  start-closed status twc u b a ran =
      let (no_a, no_b) = channel-malloced e begun run_over status twc u ran in
      let (twc', cleaned) = twc_clean-returned twc run_over no_a no_b in
      rw
        (
          set_non_blocking e.server before.server_flags before.get_server before.set_server
              (before.get_client ∷ before.set_client ∷ rs) log b.server_got b.server_set,
          set_non_blocking e.client before.client_flags before.get_client before.set_client rs _
              b.client_got b.client_set,
          ran,
          cleaned,
        )
        (rw
          (
            set_blocking e.server after.server_flags after.get_server after.set_server
                (after.get_client ∷ after.set_client ∷ rs') log' a.server_got a.server_set,
            set_blocking e.client after.client_flags after.get_client after.set_client rs' _
                a.client_got a.client_set,
          )
          refl)

  pub start-Conserves :
      (status : ℤ) (twc : TwoWayChannel)
      → AreUsable e
      → twc_run (channel e) begun ≡ returned (status, twc) run_over
      → IsHonest (exchanged begun run_over)
      → suc (length (received e.client (exchanged begun run_over))) < 10000
      → suc (length (received e.server (exchanged begun run_over))) < 10000
      → (sent e.server (exchanged begun run_over) ++ pending twc.sm_a2b.cbuffer
          ≡ received e.client (exchanged begun run_over))
        × (sent e.client (exchanged begun run_over) ++ pending twc.sm_b2a.cbuffer
            ≡ received e.server (exchanged begun run_over))
  unfolding twc_init sm_init cb_init
  start-Conserves status twc u ran honest short_a short_b =
      twc_run-Conserves (channel e) begun run_over status twc (channel-IsWired e u) ran honest
        (omega (arith, short_a)) (omega (arith, short_b))
