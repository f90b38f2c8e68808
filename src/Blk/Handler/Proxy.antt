-- ===== src/Blk/Handler/Proxy.antt =====
-- The proxy entries of HandlerBlk: Pixie-XC/Protocols/BLK/HandlerBlk.cpp.
pub mod Relay
pub mod Refused
pub mod Conversation
pub mod Opening
pub mod Tunnel
pub mod Cut
pub mod Closes
pub mod Forwards
use pixiecpp.Base.{
  ℕ, zero, suc, ◌&&◌, ◌||◌, Option, none, some, if◌then◌else◌, ℤ, pos, eq_ℤ, Bytes, codes, length,
}
use pixiecpp.ErrorCodes.{
  socket_status_good, blk_read_status_ok, blk_read_status_eof, blk_read_status_parse_error,
  blk_read_status_ioerror, blk_write_status_ok,
}
use pixiecpp.Os.{M, pure, ◌>>=◌, ◌>>◌, note, when, blocked, exit, report}
use pixiecpp.Sockets.Connect.{Connected, socket_connect_host_port}
use pixiecpp.Twc.Channel.{start}
use pixiecpp.Blk.Message.{BlkMessage, empty_message, new_message, is_tunnel_request}
use pixiecpp.Blk.Socket
use pixiecpp.Blk.Socket.{ReadResult, read_message, write_message}
use pixiecpp.Blk.Client
use pixiecpp.Blk.Client.{BlkClient, Junk, ClientResult, new_client, execute_request}
use pixiecpp.Blk.Handler.{HandlerBlk, blk_proxy_rules, connect_with_retries}

-- What malloc returns for the two buffers of a tunnel, and for its `errorno`.
pub record TunnelMemory : Type 0 where
  pub a2b : Bytes
  pub b2a : Bytes
  pub errorno : ℕ

-- HandlerBlk::tunnelBlkProxy, after the connect: `exit(1)` ends the whole process.
open_tunnel : TunnelMemory → HandlerBlk → Connected → M (Unit {0})
open_tunnel mem h c =
    if eq_ℤ c.status socket_status_good
    then (write_message h.socket_fd (new_message (pos 8001) (codes "TUNNEL") (codes "OK TO TUNNEL"))
          c.status
        >>= λ written.
            if eq_ℤ written.1 blk_write_status_ok
            then start h.socket_fd c.sock mem.a2b mem.b2a mem.errorno
            else note (report "write OK message failed upSock"))
    else (note (report "connect upstream failed upSock") >> exit 1)

unfoldable pub tunnel_blk_proxy : TunnelMemory → HandlerBlk → BlkMessage → M (Unit {0})
unfolding open_tunnel
tunnel_blk_proxy mem h msg = do
  c ← socket_connect_host_port (codes "localhost") msg.destination_port
  open_tunnel mem h c

-- HandlerBlk::normalBlkProxy, one round of its loop: the request, if a connection was made.
forward : Junk → HandlerBlk → BlkMessage → ClientResult → M (BlkClient × ℤ)
forward junk h msg r =
    let request = blk_proxy_rules msg r.client.request_message in
    if r.good
    then (execute_request junk (record r.client { request_message = request }) r.status >>= λ e.
        if e.good
        then (write_message h.message_socket e.client.response_message e.status >>= λ written.
            pure (e.client, written.1))
        else pure (e.client, e.status))
    else pure (r.client, r.status)

-- The next message on the client's socket, or `none` where the loop breaks.
pub next_request : Junk → HandlerBlk → BlkMessage → M (Option BlkMessage)
next_request junk h msg = do
  r ← read_message junk.parser_length h.message_socket msg
  if (r.got && eq_ℤ r.status blk_read_status_ok) && h.pipelining_supported
      then pure (some r.msg)
      else (Socket.close h.message_socket >> pure none)

unfoldable pub proxy_round : Junk → HandlerBlk → ℤ → BlkMessage → M (Option BlkMessage)
unfolding forward next_request
proxy_round junk h port msg = do
  r ← connect_with_retries (new_client junk (codes "localhost") (codes "dont care") port msg)
  (client, status) ← forward junk h msg r
  Client.close client
  if eq_ℤ status (pos 0)
      then next_request junk h msg
      else (Socket.close h.message_socket >> pure none)

-- The loop. Every round makes a system call, so one round more than there are replies is enough.
unfoldable pub proxy_loop : ℕ → Junk → HandlerBlk → ℤ → BlkMessage → M (Unit {0})
proxy_loop zero junk h port msg = λ w. blocked w
proxy_loop (suc fuel) junk h port msg = do
  next ← proxy_round junk h port msg
  elim next [ none ↦ pure tt | some msg' ↦ proxy_loop fuel junk h port msg' ]

-- The port is that of the first message, in every round.
unfoldable pub normal_blk_proxy : Junk → HandlerBlk → BlkMessage → M (Unit {0})
normal_blk_proxy junk h msg w = proxy_loop (suc (length w.script)) junk h msg.destination_port msg w

-- HandlerBlk::handleBlkNormal
answer : Junk → TunnelMemory → HandlerBlk → ReadResult → M (Unit {0})
answer junk mem h r =
    if r.got && eq_ℤ r.status blk_read_status_ok
    then (if is_tunnel_request r.msg
        then tunnel_blk_proxy mem h r.msg
        else normal_blk_proxy junk h r.msg)
    else when
        (eq_ℤ r.status blk_read_status_eof
          || (eq_ℤ r.status blk_read_status_parse_error || eq_ℤ r.status blk_read_status_ioerror))
        (Socket.close h.socket_fd)

unfoldable pub handle_blk_normal : Junk → TunnelMemory → HandlerBlk → M (Unit {0})
unfolding answer
handle_blk_normal junk mem h = do
  r ←
      read_message junk.parser_length h.socket_fd
        (empty_message junk.destination_port junk.message_length)
  answer junk mem (record h { message_socket = h.socket_fd }) r
