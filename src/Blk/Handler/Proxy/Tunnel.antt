-- ===== src/Blk/Handler/Proxy/Tunnel.antt =====
-- HandlerBlk::tunnelBlkProxy: a request for a tunnel, and what goes through the tunnel.
use pixiecpp.Base.{
  ℕ, suc, ◌<◌, ◌≡◌, refl, ◌∙◌, false, List, [], ◌∷◌, ◌++◌, ◌==◌, ℤ, pos, codes, length,
}
use pixiecpp.Os.{Reply, Call, World, returned, exited, report, ask}
use pixiecpp.Os.Exchange.{Exchange, exchanged, received, sent, IsHonest}
use pixiecpp.Sockets.Connect.{socket_connect_host_port}
use pixiecpp.Blk.Socket.Read.{world}
use pixiecpp.Blk.Socket.Write.{write_message-sent}
use pixiecpp.Blk.Client.{Junk}
use pixiecpp.Blk.Handler.{HandlerBlk}
use pixiecpp.Blk.Handler.Proxy.{TunnelMemory, tunnel_blk_proxy, handle_blk_normal}
use pixiecpp.Blk.Handler.Proxy.Relay.{connecting, socket_connect_host_port-IsConnected}
use pixiecpp.Blk.Handler.Proxy.Refused.{Refusal, IsRefused}
use pixiecpp.Twc.Cbuffer.Pending.{pending}
use pixiecpp.Twc.Channel.{TwoWayChannel, twc_run}
use pixiecpp.Twc.Channel.Start.{
  AreUsable, Flags, AreSet, channel, flag_replies, begun, run_over, closed, start-closed,
  start-Conserves,
}
use pixiecpp.Blk.Handler.Proxy.Opening.{
  Request, IsRequest, request_replies, after_request, ok_message, Opening, IsOpened,
  opening_replies, after_opening, ends, ok_message-some, handle_blk_normal-tunnel,
}

-- The whole tunnel: the request, the opening, the flags, the run of the channel and its end.
pub record Tunnel : Type 0 where
  pub request : Request
  pub opening : Opening
  pub before : Flags
  pub after : Flags
  pub rs : List Reply
  pub rs' : List Reply
  pub log' : List Call

abbrev pub tunnel_replies : Tunnel → List Reply
tunnel_replies u =
    request_replies u.request (opening_replies u.opening (flag_replies u.before u.rs))

module _ (mem : TunnelMemory) (h : HandlerBlk) (u : Tunnel) (log : List Call) where
  abbrev opened_log : List Call
  opened_log =
      after_opening h.socket_fd u.request.message.destination_port u.opening
        (after_request h.socket_fd u.request log)

  -- The worlds in which the channel of the tunnel starts and ends to run, and that of the end.
  abbrev pub run_from : World
  run_from = begun (ends mem h u.opening) u.before u.after u.rs u.rs' opened_log u.log'

  abbrev pub run_to : World
  run_to = run_over (ends mem h u.opening) u.before u.after u.rs u.rs' opened_log u.log'

  abbrev pub both_closed : World
  both_closed = closed (ends mem h u.opening) u.before u.after u.rs u.rs' opened_log u.log'

  -- The calls of that run, with their replies.
  abbrev pub through : List Exchange
  through = exchanged run_from run_to

pub record IsTunnel (mem : TunnelMemory) (h : HandlerBlk) (u : Tunnel) : Type 0 where
  pub requested : IsRequest u.request
  pub opened : IsOpened u.opening
  pub usable : AreUsable (ends mem h u.opening)
  pub flags_before : AreSet u.before
  pub flags_after : AreSet u.after

-- A client asks for a tunnel, the server accepts the connection, the answer OK TO TUNNEL is written
-- whole, the calls on the flags succeed, and the run of the channel returns, with any status, each
-- of its reads storing as many bytes as it returns and either side delivering fewer than 9,999
-- bytes. Then HandlerBlk::handleBlkNormal returns with both sockets made blocking again and closed,
-- the client's first; and the bytes that the server has taken, then those left in the buffer, are
-- the bytes that the client delivered, in order, and the same from the server to the client: what a
-- side gets is a prefix of what the other sent.
pub handle_blk_normal-relays :
    (junk : Junk) (mem : TunnelMemory) (h : HandlerBlk) (u : Tunnel) (log : List Call) (status : ℤ)
    (twc : TwoWayChannel)
    → IsTunnel mem h u
    → twc_run (channel (ends mem h u.opening)) (run_from mem h u log)
      ≡ returned (status, twc) (run_to mem h u log)
    → IsHonest (through mem h u log)
    → suc (length (received h.socket_fd (through mem h u log))) < 10000
    → suc (length (received (pos u.opening.server_fd) (through mem h u log))) < 10000
    → (handle_blk_normal junk mem h (world (tunnel_replies u) log)
        ≡ returned tt (both_closed mem h u log))
      × (sent (pos u.opening.server_fd) (through mem h u log) ++ pending twc.sm_a2b.cbuffer
          ≡ received h.socket_fd (through mem h u log))
      × (sent h.socket_fd (through mem h u log) ++ pending twc.sm_b2a.cbuffer
          ≡ received (pos u.opening.server_fd) (through mem h u log))
unfolding tunnel_blk_proxy
handle_blk_normal-relays junk mem h u log status twc i ran honest short_a short_b =
    let o = u.opening in
    let e = ends mem h o in
    let log1 = after_request h.socket_fd u.request log in
    let port = u.request.message.destination_port in
    let rs1 = flag_replies u.before u.rs in
    let (a2b, b2a) =
      start-Conserves e u.before u.after u.rs u.rs' (opened_log mem h u log) u.log' status twc
        i.usable ran honest short_a short_b in
    (
      handle_blk_normal-tunnel junk mem h u.request i.requested (opening_replies o rs1) log
          ∙ rw
              (
                socket_connect_host_port-IsConnected (codes "localhost") port o.host_reply
                    o.socket_reply o.connect_reply o.server_fd (o.told ∷ rs1) log1
                    i.opened.connects,
                write_message-sent h.socket_fd ok_message (pos 0) o.told rs1
                    (connecting (codes "localhost") port o.server_fd log1) i.opened.all_told
                    ok_message-some,
              )
              (start-closed e u.before u.after u.rs u.rs' (opened_log mem h u log) u.log' status twc
                i.usable i.flags_before i.flags_after ran),
      a2b,
      b2a,
    )

-- A client asks for a tunnel and the server refuses the connection, with an `errno` other than 0:
-- handleBlkNormal ends the whole process with the status 1, without an answer to the client and
-- without closing either descriptor.
pub handle_blk_normal-exits :
    (junk : Junk) (mem : TunnelMemory) (h : HandlerBlk) (x : Request) (e : ℕ) (q : Refusal)
    (rs : List Reply) (log : List Call)
    → IsRequest x
    → (e == 0) ≡ false
    → IsRefused e q
    → handle_blk_normal junk mem h
        (world (request_replies x (q.host_reply ∷ q.socket_reply ∷ q.connect_reply ∷ rs)) log)
      ≡ exited 1 (
          world rs (
            (connecting
                (codes "localhost")
                x.message.destination_port
                q.fd
                (after_request h.socket_fd x log)
              ++ (report "Connection refused." ∷ []))
            ++ (report "connect upstream failed upSock" ∷ [])))
unfolding tunnel_blk_proxy socket_connect_host_port ask
handle_blk_normal-exits junk mem h x e q rs log i ne r =
    handle_blk_normal-tunnel junk mem h x i (q.host_reply ∷ q.socket_reply ∷ q.connect_reply ∷ rs)
      log
    ∙ rw (r.host_known, r.opened, r.refused, r.errno, ne) refl
