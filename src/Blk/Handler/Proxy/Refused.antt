-- ===== src/Blk/Handler/Proxy/Refused.antt =====
-- A request for a server that refuses every connection.
use pixiecpp.Base.{
  ℕ, ◌≡◌, refl, false, none, List, [], ◌∷◌, ◌++◌, ◌==◌, ℤ, pos, negsuc, eq_ℤ, All, codes, length,
}
use pixiecpp.Os.{Reply, Call, returned, ask, report, sys_write, sys_sleep, sys_close}
use pixiecpp.Sockets.Connect.{socket_connect_host_port}
use pixiecpp.Blk.Message.{BlkMessage}
use pixiecpp.Blk.Socket.Read.{world}
use pixiecpp.Blk.Client
use pixiecpp.Blk.Client.{BlkClient, Junk, connect_failed, new_client, connect}
use pixiecpp.Blk.Handler.{HandlerBlk, retry_connect, connect_with_retries}
use pixiecpp.Blk.Handler.Proxy.{proxy_round}
use pixiecpp.Blk.Handler.Proxy.Relay.{connecting}

-- The replies of one connect that fails with `errno = e`, on the new descriptor `fd`.
pub record Refusal : Type 0 where
  pub host_reply : Reply
  pub socket_reply : Reply
  pub connect_reply : Reply
  pub fd : ℕ
  pub how : ℕ

pub record IsRefused (e : ℕ) (q : Refusal) : Type 0 where
  pub host_known : eq_ℤ q.host_reply.value (pos 0) ≡ false
  pub opened : q.socket_reply.value ≡ pos q.fd
  pub refused : q.connect_reply.value ≡ negsuc q.how
  pub errno : q.connect_reply.errno ≡ e

abbrev pub refusals : List Refusal → List Reply → List Reply
refusals [] rs = rs
refusals (q ∷ qs) rs = q.host_reply ∷ q.socket_reply ∷ q.connect_reply ∷ refusals qs rs

-- One attempt of a BlkClient: nothing closes the descriptor.
abbrev pub attempt : BlkClient → Refusal → List Call → List Call
attempt client q log =
    (connecting client.host client.port q.fd log ++ (report "Connection refused." ∷ []))
    ++ (sys_write (pos 1) (connect_failed client.port client.message_socket) ∷ [])

abbrev pub pause : List Call → List Call
pause log = (log ++ (report "Client Failed to connect with server" ∷ [])) ++ (sys_sleep 2 ∷ [])

-- The attempts, with a pause between each two.
abbrev pub attempts : BlkClient → Refusal → List Refusal → List Call → List Call
attempts client q [] log = attempt client q log
attempts client q (q' ∷ qs) log = attempts client q' qs (pause (attempt client q log))

connect-refused :
    (client : BlkClient) (e : ℕ) (q : Refusal) (rs : List Reply) (log : List Call)
    → (e == 0) ≡ false
    → IsRefused e q
    → connect client (world (q.host_reply ∷ q.socket_reply ∷ q.connect_reply ∷ rs) log)
      ≡ returned
          (record { good = false; client = client; status = pos e })
          (world rs (attempt client q log))
unfolding connect socket_connect_host_port ask
connect-refused client e q rs log ne i = rw (i.host_known, i.opened, i.refused, i.errno, ne) refl

retry_connect-refused :
    (client : BlkClient) (e : ℕ) (q : Refusal) (qs : List Refusal) (rs : List Reply)
    (log : List Call)
    → (e == 0) ≡ false
    → IsRefused e q
    → All (IsRefused e) qs
    → retry_connect (length qs) client (world (refusals (q ∷ qs) rs) log)
      ≡ returned
          (record { good = false; client = client; status = pos e })
          (world rs (attempts client q qs log))
unfolding retry_connect
retry_connect-refused client e q [] rs log ne i is = connect-refused client e q rs log ne i
retry_connect-refused client e q (q' ∷ qs) rs log ne i (i', is) =
    rw (connect-refused client e q (refusals (q' ∷ qs) rs) log ne i)
      (retry_connect-refused client e q' qs rs (pause (attempt client q log)) ne i' is)

-- A server whose host is known and which refuses every connection, with an `errno` other than 0: a
-- round of the proxy makes exactly four attempts with three pauses of two seconds between them,
-- prints a line after each, leaves the four descriptors open, sends the client nothing, closes whatever descriptor the unset
-- field of the BlkClient holds, then the client's socket, and ends the conversation.
pub proxy_round-refused :
    (junk : Junk) (h : HandlerBlk) (port : ℤ) (msg : BlkMessage) (e : ℕ) (q1 q2 q3 q4 : Refusal)
    (rs : List Reply) (log : List Call)
    → (e == 0) ≡ false
    → All (IsRefused e) (q1 ∷ q2 ∷ q3 ∷ q4 ∷ [])
    → proxy_round junk h port msg (world (refusals (q1 ∷ q2 ∷ q3 ∷ q4 ∷ []) rs) log)
      ≡ returned none (
          world rs (
            (attempts
                (new_client junk (codes "localhost") (codes "dont care") port msg)
                q1
                (q2 ∷ q3 ∷ q4 ∷ [])
                log
              ++ (sys_close junk.socket ∷ []))
            ++ (sys_close h.message_socket ∷ [])))
unfolding proxy_round connect_with_retries new_client Client.close
proxy_round-refused junk h port msg e q1 q2 q3 q4 rs log ne (i1, is) =
    let client = new_client junk (codes "localhost") (codes "dont care") port msg in
    rw (retry_connect-refused client e q1 (q2 ∷ q3 ∷ q4 ∷ []) rs log ne i1 is, ne) refl
