-- ===== src/Blk/Client/Calls.antt =====
-- BlkClient: what connect and executeRequest write, for every script of replies.
use pixiecpp.Base.{not, ◌&&◌, true, ◌≡◌, ◌⊎◌, inl, inr, ℤ, pos, eq_ℤ, arith, Bytes}
use pixiecpp.ErrorCodes.{socket_status_good, blk_write_status_ok}
use pixiecpp.Os.Calls.{Only, Only-bind, Only-then, Only-pure, Only-note, Only-if}
use pixiecpp.Sockets.Data.Writes.{Writes}
use pixiecpp.Sockets.Connect.{Connected}
use pixiecpp.Sockets.Connect.Calls.{socket_connect_host_port-Only}
use pixiecpp.Blk.Message.{BlkMessage}
use pixiecpp.Blk.Parser.Keeps.{IsParsed}
use pixiecpp.Blk.Socket.{ReadResult}
use pixiecpp.Blk.Socket.Read.{Received, Refused}
use pixiecpp.Blk.Socket.Write.{handed_over}
use pixiecpp.Blk.Socket.Calls.{read_message-Only, write_message-Only}
use pixiecpp.Blk.Client.{
  BlkClient, Junk, ClientResult, connect_failed, connect, connected, execute_request, read_response,
}

-- A response, if there is one, is a message that the parser has completed.
abbrev pub Responds : ClientResult → Type 0
Responds e = e.good ≡ true → IsParsed e.client.response_message

responds : (r : ReadResult) → Received r ⊎ Refused r → eq_ℤ r.status (pos 0) ≡ true → IsParsed r.msg
responds r (inl (_, _, parsed)) e = parsed
responds r (inr (_, inl eof)) e = absurd (ground (arith, e, eof))
responds r (inr (_, inr bad)) e = absurd (ground (arith, e, bad))

-- The lines that connect prints satisfy `W`.
module _ {W : ℤ → Bytes → Type 0}
    (prints : (port sock : ℤ) → W (pos 1) (connect_failed port sock)) where
  connected-Only :
      (client : BlkClient) (c : Connected) (m : BlkMessage)
      → client.request_message ≡ m
      → Only (Writes W) (λ r. r.client.request_message ≡ m) (connected client c)
  unfolding connected
  connected-Only client c m e =
      Only-if (not (eq_ℤ c.sock (pos 0)) && eq_ℤ c.status socket_status_good) (λ _. Only-pure e)
        (λ _. Only-then (Only-note _ (prints client.port client.message_socket) tt) (Only-pure e))

  -- The request stays as it is.
  pub connect-Only :
      (client : BlkClient) (m : BlkMessage)
      → client.request_message ≡ m
      → Only (Writes W) (λ r. r.client.request_message ≡ m) (connect client)
  unfolding connect
  connect-Only client m e =
      Only-bind (socket_connect_host_port-Only client.host client.port)
        (λ c _. connected-Only client c m e)

module _ {W : ℤ → Bytes → Type 0} where
  read_response-Only :
      (junk : Junk) (client : BlkClient) (status : ℤ)
      → Only (Writes W) Responds (read_response junk client status)
  unfolding read_response
  read_response-Only junk client status =
      Only-if (eq_ℤ status blk_write_status_ok)
        (λ _.
          Only-bind
            (read_message-Only client.message_socket junk.parser_length client.response_message)
            (λ r ends. Only-pure (responds r ends)))
        (λ e. Only-pure (λ e'. absurd (ground (arith, e, e'))))

  pub execute_request-Only :
      (junk : Junk) (client : BlkClient) (status : ℤ)
      → W client.message_socket (handed_over client.request_message)
      → Only (Writes W) Responds (execute_request junk client status)
  unfolding execute_request
  execute_request-Only junk client status h =
      Only-bind (write_message-Only client.message_socket client.request_message status h)
        (λ r _. read_response-Only junk client r.1)
