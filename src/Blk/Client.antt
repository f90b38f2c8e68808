-- ===== src/Blk/Client.antt =====
-- Class BlkClient of Pixie-XC/Protocols/BLK/BlkClient.hpp and BlkClient.cpp: one request to a server.
pub mod Calls
use pixiecpp.Base.{Bool, not, ◌&&◌, if◌then◌else◌, ℤ, pos, eq_ℤ, ◌++◌, Bytes, codes}
use pixiecpp.Decimal.{to_string}
use pixiecpp.ErrorCodes.{socket_status_good, blk_write_status_ok}
use pixiecpp.Os.{M, pure, ◌>>=◌, ◌>>◌, note, sys_write}
use pixiecpp.Sockets.Data.{socket_close}
use pixiecpp.Sockets.Connect.{Connected, socket_connect_host_port}
use pixiecpp.Blk.Message.{BlkMessage, empty_message}
use pixiecpp.Blk.Socket.{read_message, write_message}

-- `message_socket` is the descriptor in the client's BlkSocket.
pub record BlkClient : Type 0 where
  pub host : Bytes
  pub url : Bytes
  pub port : ℤ
  pub socket : ℤ
  pub request_message : BlkMessage
  pub response_message : BlkMessage
  pub message_socket : ℤ

-- What the memory of a new object holds where no constructor writes.
pub record Junk : Type 0 where
  pub socket : ℤ
  pub message_socket : ℤ
  pub destination_port : ℤ
  pub message_length : ℤ
  pub parser_length : ℤ

-- BlkClient::BlkClient(std::string, std::string, int, BlkMessage&)
unfoldable pub new_client : Junk → Bytes → Bytes → ℤ → BlkMessage → BlkClient
new_client junk host url port request = record {
  host = host;
  url = url;
  port = port;
  socket = junk.socket;
  request_message = request;
  response_message = empty_message junk.destination_port junk.message_length;
  message_socket = junk.message_socket;
}

-- What connect and executeRequest hand back: their value, the object, and `status`.
pub record ClientResult : Type 0 where
  pub good : Bool
  pub client : BlkClient
  pub status : ℤ

-- The line that connect prints when it fails.
abbrev pub connect_failed : ℤ → ℤ → Bytes
connect_failed port sock =
    codes "BlkClient::execute connect FAILED port: "
    ++ (to_string port ++ (codes " sock : " ++ (to_string sock ++ codes " \n")))

-- BlkClient::connect
connected : BlkClient → Connected → M ClientResult
connected client c =
    let ok = not (eq_ℤ c.sock (pos 0)) && eq_ℤ c.status socket_status_good in
    if ok
    then pure (record {
      good = eq_ℤ c.status (pos 0);
      client = record client { socket = c.sock; message_socket = c.sock };
      status = c.status;
    })
    else (note (sys_write (pos 1) (connect_failed client.port client.message_socket))
        >> pure (record { good = eq_ℤ c.status (pos 0); client = client; status = c.status }))

unfoldable pub connect : BlkClient → M ClientResult
unfolding connected
connect client = do c ← socket_connect_host_port client.host client.port; connected client c

-- BlkClient::executeRequest
read_response : Junk → BlkClient → ℤ → M ClientResult
read_response junk client status =
    if eq_ℤ status blk_write_status_ok
    then (read_message junk.parser_length client.message_socket client.response_message >>= λ r.
        pure (record {
          good = eq_ℤ r.status (pos 0);
          client = record client { response_message = r.msg };
          status = r.status;
        }))
    else pure (record { good = eq_ℤ status (pos 0); client = client; status = status })

unfoldable pub execute_request : Junk → BlkClient → ℤ → M ClientResult
unfolding read_response
execute_request junk client status = do
  (_, status') ← write_message client.message_socket client.request_message status
  read_response junk client status'

-- BlkClient::close
unfoldable pub close : BlkClient → M (Unit {0})
close client = socket_close client.socket
