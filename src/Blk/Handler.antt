-- ===== src/Blk/Handler.antt =====
-- Class HandlerBlk of Pixie-XC/Protocols/BLK/HandlerBlk.hpp and HandlerBlk.cpp, and the class Handler
-- of Pixie-XC/Handler.cpp that chooses one of its two entries.
pub mod Proxy
pub mod Loopback
use pixiecpp.Base.{ℕ, zero, suc, Bool, true, ◌++◌, if◌then◌else◌, ℤ, to_int, codes, length}
use pixiecpp.Os.{M, pure, ◌>>=◌, ◌>>◌, note, sys_sleep, report}
use pixiecpp.Blk.Message.{BlkMessage}
use pixiecpp.Blk.Client.{BlkClient, Junk, ClientResult, connect}

-- enum Protocol
pub data Protocol : Type 0 where
  loopback blk_proxy http_proxy : Protocol

-- `message_socket` is the descriptor in the handler's BlkSocket.
pub record HandlerBlk : Type 0 where
  pub protocol : Protocol
  pub pipelining_supported : Bool
  pub socket_fd : ℤ
  pub id : ℤ
  pub message_socket : ℤ

-- HandlerBlk::HandlerBlk
unfoldable pub new_handler : Junk → Protocol → ℤ → ℤ → HandlerBlk
new_handler junk protocol socket_handle id = record {
  protocol = protocol;
  pipelining_supported = true;
  socket_fd = socket_handle;
  id = id;
  message_socket = junk.message_socket;
}

-- blk_proxy_rules: the fields of `out_msg` that it does not name stay as they are.
unfoldable pub blk_proxy_rules : BlkMessage → BlkMessage → BlkMessage
blk_proxy_rules in_msg out_msg =
    let new_body = codes "MITM 8002 : " ++ in_msg.body in
    record out_msg {
      first_line = in_msg.first_line;
      body = new_body;
      message_length = to_int (length new_body);
    }

-- The loop `while ((is_connected = client.connect(status)) == false && retry_count++ < 3)`, at three
-- retries less `left`.
pub retry_connect : ℕ → BlkClient → M ClientResult
retry_connect zero client = connect client
retry_connect (suc left) client = do
  r ← connect client
  let again = note (report "Client Failed to connect with server") >> note (sys_sleep 2)
  if r.good then pure r else (again >> retry_connect left r.client)

abbrev pub max_retries : ℕ
max_retries = 3

unfoldable pub connect_with_retries : BlkClient → M ClientResult
unfolding retry_connect
connect_with_retries client = retry_connect max_retries client
