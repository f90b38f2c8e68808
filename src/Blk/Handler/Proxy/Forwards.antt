-- ===== src/Blk/Handler/Proxy/Forwards.antt =====
-- What HandlerBlk::normalBlkProxy passes on, for every script of replies.
use pixiecpp.Base.{
  ℕ, zero, suc, Bool-cases, true, false, ◌&&◌, ◌≡◌, ◌⊎◌, inl, inr, refl, ap, Option, none, some, ℤ,
  pos, eq_ℤ, arith, Bytes, length, codes,
}
use pixiecpp.ErrorCodes.{blk_read_status_ok}
use pixiecpp.Os.{
  World, M, Outcome, returned, blocked, threw, aborted, exited, bind, pure, sys_sleep,
}
use pixiecpp.Os.Calls.{
  Only, Only-bind, Only-then, Only-pure, Only-note, Only-blocked, Only-if, Only-when, Ends,
  Ends-later,
}
use pixiecpp.Sockets.Data.Writes.{Writes}
use pixiecpp.Blk.Message.{BlkMessage, is_tunnel_request, empty_message}
use pixiecpp.Blk.Parser.Keeps.{IsParsed}
use pixiecpp.Blk.Socket
use pixiecpp.Blk.Socket.{ReadResult}
use pixiecpp.Blk.Socket.Read.{Received, Refused}
use pixiecpp.Blk.Socket.Write.{handed_over}
use pixiecpp.Blk.Socket.Calls.{read_message-Only, write_message-Only}
use pixiecpp.Blk.Client
use pixiecpp.Blk.Client.{BlkClient, Junk, ClientResult, connect_failed, new_client}
use pixiecpp.Blk.Client.Calls.{connect-Only, execute_request-Only}
use pixiecpp.Blk.Handler.{
  HandlerBlk, blk_proxy_rules, connect_with_retries, retry_connect, max_retries,
}
use pixiecpp.Blk.Handler.Proxy.{
  forward, next_request, proxy_round, proxy_loop, normal_blk_proxy, TunnelMemory, answer,
  handle_blk_normal,
}

-- The bytes are what writeMessage hands over of a message that has what the parser asks of one, as it is
-- and to the client, or rewritten by blk_proxy_rules; or the line that connect prints when it fails.
abbrev pub Forwards : ℤ → ℤ → Bytes → Type 0
Forwards client fd bs =
    ((m : BlkMessage) × IsParsed m
      × (((fd ≡ client) × (bs ≡ handed_over m)) ⊎ (bs ≡ handed_over (blk_proxy_rules m m))))
    ⊎ ((fd ≡ pos 1) × ((port : ℤ) × (sock : ℤ) × (bs ≡ connect_failed port sock)))

abbrev IfParsed : Option BlkMessage → Type 0
IfParsed none = Unit {0}
IfParsed (some m) = IsParsed m

module _ {W : ℤ → Bytes → Type 0}
    (prints : (port sock : ℤ) → W (pos 1) (connect_failed port sock)) where
  retry_connect-Only :
      (left : ℕ) (client : BlkClient) (m : BlkMessage)
      → client.request_message ≡ m
      → Only (Writes W) (λ r. r.client.request_message ≡ m) (retry_connect left client)
  unfolding retry_connect
  retry_connect-Only zero client m e = connect-Only prints client m e
  retry_connect-Only (suc left) client m e = Only-bind (connect-Only prints client m e) (λ r e'.
      Only-if r.good (λ _. Only-pure e')
        (λ _.
          Only-then (Only-then (Only-note _ tt tt) (Only-note (sys_sleep 2) tt tt))
            (retry_connect-Only left r.client m e')))

module _ (junk : Junk) (h : HandlerBlk) where
  abbrev Proxied : {A : Type 0} → (A → Type 0) → M A → Type 0
  Proxied P m = Only (Writes (Forwards h.message_socket)) P m

  -- The request that is forwarded is the one that was received, rewritten.
  forward-Only :
      (msg : BlkMessage) (r : ClientResult)
      → IsParsed msg
      → r.client.request_message ≡ msg
      → Proxied (λ _. Unit {0}) (forward junk h msg r)
  unfolding forward
  forward-Only msg r parsed same =
      let rewritten = blk_proxy_rules msg r.client.request_message in
      Only-if r.good
        (λ _.
          Only-bind
            (execute_request-Only junk (record r.client { request_message = rewritten }) r.status
              (inl (msg, parsed, inr (ap (λ k. handed_over (blk_proxy_rules msg k)) same))))
            (λ e response.
              Only-if e.good
                (λ good.
                  Only-bind
                    (write_message-Only h.message_socket e.client.response_message e.status
                      (inl (e.client.response_message, response good, inl (refl, refl))))
                    (λ _ _. Only-pure tt))
                (λ _. Only-pure tt)))
        (λ _. Only-pure tt)

  received : (r : ReadResult) → Received r ⊎ Refused r → r.got ≡ true → IsParsed r.msg
  received r (inl (_, _, parsed)) got = parsed
  received r (inr (none_got, _)) got = absurd (ground (arith, got, none_got))

  next_request-Only : (msg : BlkMessage) → Proxied IfParsed (next_request junk h msg)
  unfolding next_request
  next_request-Only msg =
      Only-bind (read_message-Only h.message_socket junk.parser_length msg) (λ r ends.
        Only-if ((r.got && eq_ℤ r.status blk_read_status_ok) && h.pipelining_supported)
          (λ more. Only-pure (received r ends (ground (arith, more))))
          (λ _. Only-then (Only-note _ tt tt) (Only-pure tt)))

  proxy_round-Only :
      (port : ℤ) (msg : BlkMessage) → IsParsed msg → Proxied IfParsed (proxy_round junk h port msg)
  unfolding proxy_round connect_with_retries new_client Client.close
  proxy_round-Only port msg parsed =
      Only-bind
        (retry_connect-Only (λ port sock. inr (refl, (port, sock, refl))) max_retries
          (new_client junk (codes "localhost") (codes "dont care") port msg) msg refl)
        (λ r same. Only-bind (forward-Only msg r parsed same) (λ f _.
          Only-then (Only-note _ tt tt) (
            Only-if (eq_ℤ f.1 (pos 0)) (λ _. next_request-Only msg)
              (λ _. Only-then (Only-note _ tt tt) (Only-pure tt)))))

  proxy_loop-Only :
      (fuel : ℕ) (port : ℤ) (msg : BlkMessage)
      → IsParsed msg
      → Proxied (λ _. Unit {0}) (proxy_loop fuel junk h port msg)
  unfolding proxy_loop
  proxy_loop-Only zero port msg parsed = Only-blocked
  proxy_loop-Only (suc fuel) port msg parsed = Only-bind (proxy_round-Only port msg parsed) (λ next.
      elim next
        as (λ next.
          IfParsed next
          → Proxied {A = Unit {0}} (λ _. Unit {0})
              (elim next [ none ↦ pure tt | some msg' ↦ proxy_loop fuel junk h port msg' ])) [
                | none ↦ λ _. Only-pure tt
                | some msg' ↦ λ parsed'. proxy_loop-Only fuel port msg' parsed'
              ])

  -- The message that normalBlkProxy starts with is one that the parser has completed.
  normal_blk_proxy-Only :
      (msg : BlkMessage) → IsParsed msg → Proxied (λ _. Unit {0}) (normal_blk_proxy junk h msg)
  unfolding normal_blk_proxy
  normal_blk_proxy-Only msg parsed = record {
    from = λ w. (proxy_loop-Only (suc (length w.script)) msg.destination_port msg parsed).from w;
  }

  answer-Only :
      (mem : TunnelMemory) (r : ReadResult)
      → Received r ⊎ Refused r
      → is_tunnel_request r.msg ≡ false
      → Proxied (λ _. Unit {0}) (answer junk mem h r)
  unfolding answer
  answer-Only mem r ends no_tunnel =
      Only-if (r.got && eq_ℤ r.status blk_read_status_ok)
        (λ good.
          Only-if (is_tunnel_request r.msg) (λ tunnel. absurd (ground (arith, tunnel, no_tunnel)))
            (λ _. normal_blk_proxy-Only r.msg (received r ends (ground (arith, good)))))
        (λ _. Only-when _ (Only-note _ tt tt) tt)

-- The first message that HandlerBlk::handleBlkNormal reads asks for a tunnel.
abbrev pub AsksForTunnel : Junk → HandlerBlk → World → Type 0
AsksForTunnel junk h w =
    (r : ReadResult) × (w' : World) × (Socket.read_message junk.parser_length h.socket_fd
        (empty_message junk.destination_port junk.message_length) w
      ≡ returned r w')
    × (is_tunnel_request r.msg ≡ true)

module _ (junk : Junk) (mem : TunnelMemory) (h : HandlerBlk) where
  abbrev first : M ReadResult
  first =
      Socket.read_message junk.parser_length h.socket_fd
        (empty_message junk.destination_port junk.message_length)

  abbrev GoesOn : World → Outcome ReadResult → Type 0
  GoesOn w o =
      AsksForTunnel junk h w
      ⊎ Ends (Writes (Forwards h.socket_fd)) (λ _. Unit {0}) w
          (bind o (answer junk mem (record h { message_socket = h.socket_fd })))

  after_first :
      (w : World) (o : Outcome ReadResult)
      → first w ≡ o
      → Ends (Writes (Forwards h.socket_fd)) (λ r. Received r ⊎ Refused r) w o
      → GoesOn w o
  after_first w (returned r w') e ends = elim (Bool-cases (is_tunnel_request r.msg)) [
    | inl tunnel ↦ inl (r, w', e, tunnel)
    | inr no_tunnel ↦ inr (
        Ends-later (Writes (Forwards h.socket_fd)) _ w w' _ ends.0 (
          (answer-Only junk (record h { message_socket = h.socket_fd }) mem r ends.1 no_tunnel).from
            w'))
  ]
  after_first w (blocked w') e ends = inr ends
  after_first w (threw w') e ends = inr ends
  after_first w (aborted w') e ends = inr ends
  after_first w (exited c w') e ends = inr ends

  -- Whatever the client, the server and the system do, and however the run ends: unless the first
  -- message asks for a tunnel, every write of HandlerBlk::handleBlkNormal is either the line that
  -- BlkClient::connect prints to descriptor 1 when it fails, or what writeMessage hands over of a
  -- message that has what the parser asks of one: START, a port that fits an `int`, one of the two
  -- verbs, and a body of the announced length. writeMessage hands over the text up to its first zero
  -- byte, and of that no more than its length converted to an `int` says. Only the client's socket
  -- gets such a message as it is; any other write is of one that blk_proxy_rules has rewritten.
  pub handle_blk_normal-Forwards :
      (w : World)
      → AsksForTunnel junk h w
        ⊎ Ends (Writes (Forwards h.socket_fd)) (λ _. Unit {0}) w (handle_blk_normal junk mem h w)
  unfolding handle_blk_normal
  handle_blk_normal-Forwards w = after_first w (first w) refl (
      (read_message-Only h.socket_fd junk.parser_length
          (empty_message junk.destination_port junk.message_length)).from
        w)
