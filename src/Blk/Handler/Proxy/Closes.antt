-- ===== src/Blk/Handler/Proxy/Closes.antt =====
-- Which descriptors a conversation through HandlerBlk::handleBlkNormal closes.
use pixiecpp.Base.{
  counts, ℕ, zero, suc, ◌+◌, ◌≡◌, refl, Bool, true, false, List, [], ◌∷◌, ◌++◌, arith, ℤ, eq_ℤ, pos,
  Bytes, All, codes, bit, count, length,
}
use pixiecpp.Os.{
  World, Reply, Call, returned, sys_close, sys_connect, sys_write, sys_gethostbyname, sys_socket,
  sys_setsockopt,
}
use pixiecpp.Sockets.Connect.{to_u16}
use pixiecpp.Blk.Message.{is_tunnel_request}
use pixiecpp.Blk.Socket.Read.{world}
use pixiecpp.Blk.Socket.Reassembly.{reads}
use pixiecpp.Blk.Socket.Write.{wire, written}
use pixiecpp.Blk.Client.{Junk}
use pixiecpp.Blk.Handler.{HandlerBlk}
use pixiecpp.Blk.Handler.Proxy.{TunnelMemory, handle_blk_normal}
use pixiecpp.Blk.Handler.Proxy.Relay.{Exchange, IsExchanged, connecting, exchanged, outgoing}
use pixiecpp.Blk.Handler.Proxy.Conversation.{served, proxied, handle_blk_normal-proxied}

abbrev pub is_close : ℤ → Call → Bool
is_close fd (sys_close f) = eq_ℤ f fd
is_close fd _ = false

abbrev pub is_connect : ℤ → Call → Bool
is_connect fd (sys_connect f port) = eq_ℤ f fd
is_connect fd _ = false

abbrev pub closes : ℤ → List Call → ℕ
closes fd log = count (is_close fd) log

abbrev pub connects : ℤ → List Call → ℕ
connects fd log = count (is_connect fd) log

module _ (fd : ℤ) where
  -- The closes and the connects of a log, less those of another, for the descriptor.
  abbrev Adds : ℕ → ℕ → List Call → List Call → Type 0
  Adds closed connected log log' =
      (closes fd log' ≡ closes fd log + closed) × (connects fd log' ≡ connects fd log + connected)

  one :
      (c : Call) (log : List Call)
      → Adds (bit (is_close fd c)) (bit (is_connect fd c)) log (log ++ (c ∷ []))
  one c log = (grind counts, grind counts)

  connecting-Adds :
      (host : Bytes) (port : ℤ) (f : ℕ) (log : List Call)
      → Adds 0 (bit (eq_ℤ (pos f) fd)) log (connecting host port f log)
  connecting-Adds host port f log =
      let l1 = log ++ (sys_gethostbyname host ∷ []) in
      let l2 = l1 ++ (sys_socket ∷ []) in
      let l3 = l2 ++ (sys_setsockopt (pos f) "SO_NOSIGPIPE" ∷ []) in
      let (a, a') = one (sys_gethostbyname host) log in
      let (b, b') = one sys_socket l1 in
      let (c, c') = one (sys_setsockopt (pos f) "SO_NOSIGPIPE") l2 in
      let (d, d') = one (sys_connect (pos f) (pos (to_u16 port))) l3 in
      (omega (arith, a, b, c, d), omega (arith, a', b', c', d'))

  reads-none :
      (n : ℕ) (socket : ℤ) → (closes fd (reads n socket) ≡ 0) × (connects fd (reads n socket) ≡ 0)
  reads-none zero socket = (refl, refl)
  reads-none (suc n) socket = let (a, b) = reads-none n socket in (omega arith, omega arith)

  reads-Adds : (n : ℕ) (socket : ℤ) (log : List Call) → Adds 0 0 log (log ++ reads n socket)
  reads-Adds n socket log = let (a, b) = reads-none n socket in (grind counts, grind counts)

  exchanged-Adds :
      (client port : ℤ) (x : Exchange) (log : List Call)
      → Adds
          (bit (eq_ℤ (pos x.server_fd) fd))
          (bit (eq_ℤ (pos x.server_fd) fd))
          log
          (exchanged client port x log)
  exchanged-Adds client port x log =
      let server = pos x.server_fd in
      let l1 = connecting (codes "localhost") port x.server_fd log in
      let l2 = written server (outgoing x) l1 in
      let l3 = l2 ++ reads (suc (length x.first_pieces)) server in
      let l4 = written client x.response l3 in
      let (a, a') = connecting-Adds (codes "localhost") port x.server_fd log in
      let (b, b') = one (sys_write server (wire (outgoing x))) l1 in
      let (c, c') = reads-Adds (suc (length x.first_pieces)) server l2 in
      let (d, d') = one (sys_write client (wire x.response)) l3 in
      let (e, e') = one (sys_close server) l4 in
      (omega (arith, a, b, c, d, e), omega (arith, a', b', c', d', e'))

  proxied-Adds :
      (client port : ℤ) (xs : List Exchange) (log : List Call)
      → closes fd (proxied client port xs log) + connects fd log
        ≡ closes fd log + connects fd (proxied client port xs log) + bit (eq_ℤ client fd)
  proxied-Adds client port [] log =
      let (a, a') = reads-Adds 1 client log in
      let (b, b') = one (sys_close client) (log ++ reads 1 client) in omega (arith, a, a', b, b')
  proxied-Adds client port (x ∷ xs) log =
      let l1 = log ++ reads (suc (length x.request_pieces)) client in
      let (a, a') = reads-Adds (suc (length x.request_pieces)) client log in
      let (b, b') = exchanged-Adds client port x l1 in
      omega (arith, a, a', b, b', proxied-Adds client port xs (exchanged client port x l1))

-- A conversation as in handle_blk_normal-proxied, of any number of requests: when
-- HandlerBlk::handleBlkNormal returns, every descriptor has been closed exactly as often as it was
-- connected to a server, and the client's once more. So no connection to a server is left open, none
-- is closed twice, and the client's socket is closed exactly once.
pub handle_blk_normal-closes :
    (junk : Junk) (mem : TunnelMemory) (h : HandlerBlk) (x : Exchange) (xs : List Exchange)
    (at_end : Reply) (rs : List Reply)
    → h.pipelining_supported ≡ true
    → is_tunnel_request x.request ≡ false
    → at_end.value ≡ pos 0
    → IsExchanged x
    → All IsExchanged xs
    → (w : World) × (handle_blk_normal junk mem h (world (served (x ∷ xs) at_end rs) [])
        ≡ returned tt w)
      × ((fd : ℤ) → closes fd w.log ≡ connects fd w.log + bit (eq_ℤ h.socket_fd fd))
handle_blk_normal-closes junk mem h x xs at_end rs p no_tunnel eof i is = (
  world rs (proxied h.socket_fd x.request.destination_port (x ∷ xs) []),
  handle_blk_normal-proxied junk mem h x xs at_end rs [] p no_tunnel eof i is,
  λ fd. omega (arith, proxied-Adds fd h.socket_fd x.request.destination_port (x ∷ xs) []),
)
