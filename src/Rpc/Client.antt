-- ===== src/Rpc/Client.antt =====
-- rpc/rpc_client.cc: calls and their answers. A call has a promise, which is a number, its address.
use mathlib.Core.Option
use file_server.Prelude.{ℕ, ◌+◌, ◌%◌, ◌^◌, Bool, Option, none, some, List, [], ◌∷◌}
use file_server.Prelude.Int.{negsuc}
use file_server.Prelude.Text.{Bytes}
use file_server.Prelude.Dict.{Dict, lookup, insert, remove}
use file_server.Prelude.Action.{Action, lift, call, ◌>>=◌}
use file_server.Json.{JsonLib, utf8}
use file_server.Protocol.Header.{empty_header, type_code, request}
use file_server.Protocol.Message.{Message, empty_message, encode}
use file_server.Protocol.Body.{get_json, set_json}
use file_server.Protocol.Decoder.{Decoder, Parsed, feed}

module _ (lib : JsonLib) where
  open lib use {Json}

  -- `pending_`, `next_id_`, `decoder_`, and the values of the promises that are set.
  pub record RpcClient : Type 0 where
    pub connected : Bool
    pub decoder : Decoder
    pub pending : Dict ℕ
    pub next_id : ℕ
    pub results : Dict Json

  -- `OnConnection`, and `Disconnect` for `false`.
  unfoldable pub on_connection : Bool → RpcClient → RpcClient
  on_connection connected client = record client { connected = connected }

  -- `NextId`: the counter is a `uint32_t`.
  unfoldable pub next_id : RpcClient → ℕ × RpcClient
  next_id client = (client.next_id, record client { next_id = (client.next_id + 1) % 2 ^ 32 })

  -- `SetPending`
  unfoldable pub set_pending : ℕ → ℕ → RpcClient → RpcClient
  set_pending id promise client = record client { pending = insert id promise client.pending }

  -- `ResolvePending`
  unfoldable pub resolve_pending : ℕ → Json → RpcClient → RpcClient
  resolve_pending id result client = elim (lookup id client.pending) [
    | none ↦ client
    | some promise ↦ record client {
      results = insert promise result client.results;
      pending = remove id client.pending;
    }
  ]

  unfoldable pub resolve_all : List Message → RpcClient → RpcClient
  resolve_all [] client = client
  resolve_all (msg ∷ msgs) client =
      resolve_all msgs (resolve_pending msg.header.request_id (get_json lib msg) client)

  unfoldable pub on_responses : Option Parsed → RpcClient → RpcClient
  unfolding resolve_all
  on_responses none client = client
  on_responses (some (msgs, decoder)) client =
      resolve_all msgs (record client { decoder = decoder })

  -- `OnMessage`
  unfoldable pub on_message : Bytes → RpcClient → RpcClient
  unfolding on_responses
  on_message raw client = on_responses (feed client.decoder raw) client

  abbrev request_with : ℕ → Message
  request_with id = record empty_message {
    header = record empty_header { msg_type = type_code request; request_id = id };
  }

  abbrev with_binary : Bytes → Message → Message
  with_binary binary msg = record msg { binary_data = binary }

  -- The message of a call; `none` is the exception of `args` that are no object, or of `dump`.
  unfoldable pub call_message : ℕ → Bytes → Json → Bytes → Option Message
  call_message id method args binary = elim (lib.assign (utf8 "method") (lib.text method) args) [
    | none ↦ none
    | some j ↦ Option.map (with_binary binary) (set_json lib j (request_with id))
  ]

  -- `Call` up to the wait: the request's id and its bytes, where the client is connected.
  unfoldable pub start_call : ℕ → Bytes → Json → Bytes → Action RpcClient (ℕ × Bytes)
  unfolding next_id set_pending
  start_call promise method args binary = do
    id ← call next_id
    msg ← lift (call_message id method args binary)
    (λ client. (some (id, encode msg), set_pending id promise client))

  unfoldable pub failure : ℕ → Bytes → Json
  failure n msg =
      lib.object ((utf8 "code", lib.number (negsuc n)) ∷ (utf8 "msg", lib.text msg) ∷ [])

  -- `Call` of a client that is not connected.
  unfoldable pub not_connected : Json
  unfolding failure
  not_connected = failure 0 (utf8 "未连接")

  -- `Call` behind the wait: the value of the promise, or the answer to a time-out.
  unfoldable pub end_call : ℕ → ℕ → RpcClient → Json × RpcClient
  unfolding failure
  end_call promise id client = elim (lookup promise client.results) [
    | none ↦ (failure 2 (utf8 "RPC超时"), record client { pending = remove id client.pending })
    | some result ↦ (result, client)
  ]
