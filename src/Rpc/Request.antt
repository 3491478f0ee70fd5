-- ===== src/Rpc/Request.antt =====
-- rpc/rpc_client.cc: what a call sends.
use file_server.Prelude.{ℕ, ◌^◌, ◌<◌, ◌≡◌, refl, some, [], length, arith}
use file_server.Prelude.Text.{Bytes}
use file_server.Json.{JsonLib, utf8}
use file_server.Protocol.Header.{MessageHeader, empty_header}
use file_server.Protocol.Message.{Message, IsSendable, sealed, size32}
use file_server.Protocol.Decoder.{Decoder, wait_header}
use file_server.Rpc.Server.{RpcTask}
use file_server.Rpc.Client.{RpcClient}

abbrev pub between_messages : MessageHeader → Decoder
between_messages h = record { state = wait_header; buffer = []; current_header = h }

-- The message that `SetJson` and the binary part make of a header.
abbrev pub message_of : MessageHeader → Bytes → Bytes → Message
message_of h body binary = record {
  header = record h { body_length = size32 body };
  json_body = body;
  binary_data = binary;
}

abbrev pub plain_header : ℕ → ℕ → MessageHeader
plain_header kind id = record empty_header { msg_type = kind; request_id = id }

pub message_of-IsSendable :
    (kind id : ℕ) (body binary : Bytes)
    → kind < 2 ^ 32
    → id < 2 ^ 32
    → length body < 2 ^ 32
    → length binary < 2 ^ 32
    → IsSendable (message_of (plain_header kind id) body binary)
message_of-IsSendable kind id body binary k i b d = record {
  magic_right = refl;
  header_fits = record {
    magic_fits = omega arith;
    version_fits = omega arith;
    msg_type_fits = k;
    body_length_fits = omega arith;
    data_length_fits = omega arith;
    request_id_fits = i;
    checksum_fits = omega arith;
  };
  body_fits = b;
  data_fits = d;
}

module _ (lib : JsonLib) where
  open lib use {Json}

  -- A call: its promise, the method, the arguments, and the object and the body that are sent.
  pub record Request : Type 0 where
    pub promise : ℕ
    pub method : Bytes
    pub args : Json
    pub binary : Bytes
    pub sent : Json
    pub body : Bytes

  -- The arguments are an object, or null, that can be written, and the sizes are below 4 GiB.
  pub record IsCallable (c : Request) : Type 0 where
    pub named : lib.assign (utf8 "method") (lib.text c.method) c.args ≡ some c.sent
    pub written : lib.dump c.sent ≡ some c.body
    pub body_fits : length c.body < 2 ^ 32
    pub binary_fits : length c.binary < 2 ^ 32

  abbrev pub request_message : Request → RpcClient lib → Message
  request_message c client = message_of (plain_header 1 client.next_id) c.body c.binary

  -- The task that the server makes of the call.
  abbrev pub request_task : Request → RpcClient lib → ℕ → RpcTask
  request_task c client conn = record {
    conn = conn;
    method = c.method;
    request = sealed (request_message c client);
  }
