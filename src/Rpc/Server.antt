-- ===== src/Rpc/Server.antt =====
-- rpc/rpc_server.cc: from the bytes of the connections to the tasks of the workers, and what a worker
-- does. A connection is a number, the pointer.
use mathlib.Core.Option
use file_server.Prelude.{ℕ, Bool, true, false, Option, none, some, List, [], ◌∷◌, ◌++◌}
use file_server.Prelude.Int.{ℤ, negsuc}
use file_server.Prelude.Text.{Bytes}
use file_server.Prelude.Dict.{Dict, lookup, insert, remove}
use file_server.Prelude.Action.{Action}
use file_server.Json.{JsonLib, utf8, entry, value_text}
use file_server.Protocol.Header.{empty_header, type_code, response}
use file_server.Protocol.Message.{Message, empty_message, encode}
use file_server.Protocol.Body.{get_json, set_json}
use file_server.Protocol.Decoder.{Decoder, Parsed, init, feed}
use file_server.ThreadPool.{Pool, submit}

-- What the lambda that is submitted has captured.
pub record RpcTask : Type 0 where
  pub conn : ℕ
  pub method : Bytes
  pub request : Message

-- `decoders_` and `worker_pool_`
pub record RpcServer : Type 0 where
  pub decoders : Dict Decoder
  pub worker_pool : Pool RpcTask

-- `OnConnection`
unfoldable pub on_connection : ℕ → Bool → RpcServer → RpcServer
on_connection conn true server = record server { decoders = insert conn init server.decoders }
on_connection conn false server = record server { decoders = remove conn server.decoders }

module _ (lib : JsonLib) where
  open lib use {Json}

  -- The loop over the messages; `false` is an exception, of `value` or of a stopped pool.
  unfoldable pub submit_requests : ℕ → List Message → Pool RpcTask → Bool × Pool RpcTask
  submit_requests conn [] pool = (true, pool)
  submit_requests conn (msg ∷ msgs) pool =
      elim (value_text lib (utf8 "method") [] (get_json lib msg)) [
        | none ↦ (false, pool)
        | some method ↦
            elim (submit (record { conn = conn; method = method; request = msg }) pool) [
              | none ↦ (false, pool)
              | some pool' ↦ submit_requests conn msgs pool'
            ]
      ]

  -- `Feed` always returns: `none` never occurs.
  unfoldable pub on_requests : ℕ → Option Parsed → RpcServer → Bool × RpcServer
  unfolding submit_requests
  on_requests conn none server = (true, server)
  on_requests conn (some (msgs, decoder)) server =
      let (ok, pool) = submit_requests conn msgs server.worker_pool in
      (ok, record { decoders = insert conn decoder server.decoders; worker_pool = pool })

  -- `OnMessage`; the bytes of a connection without a decoder stay in its buffer.
  unfoldable pub on_message : ℕ → Bytes → RpcServer → Bool × RpcServer
  unfolding on_requests
  on_message conn raw server = elim (lookup conn server.decoders) [
    | none ↦ (true, server)
    | some decoder ↦ on_requests conn (feed decoder raw) server
  ]

  -- `methods_` and `binary_methods_`, by their names. The methods work on the state of the service.
  pub record Methods (S : Type 0) : Type 0 where
    pub methods : List (Bytes × (Json → Action S Json))
    pub binary_methods : List (Bytes × (Json → Bytes → Action S Json))

  abbrev error_result : ℤ → Bytes → Json
  error_result code msg =
      lib.object ((utf8 "code", lib.number code) ∷ (utf8 "msg", lib.text msg) ∷ [])

  unfoldable pub response_of : Message → Json → Option Message
  response_of request result = set_json lib result (record empty_message {
    header = record empty_header {
      msg_type = type_code response;
      request_id = request.header.request_id;
    };
  })

  module _ {S : Type 0} where
    -- `catch`, with the text of the exception.
    unfoldable pub caught : Bytes → Option Json × S → Json × S
    caught what (none, s) = (error_result (negsuc 0) what, s)
    caught what (some result, s) = (result, s)

    unfoldable pub call_method :
        Bytes → Bytes → Option (Json → Action S Json) → Message → S → Json × S
    unfolding caught
    call_method what method none request s = (error_result (negsuc 1) (utf8 "未知方法: " ++ method), s)
    call_method what method (some run) request s =
        caught (utf8 "RPC异常: " ++ what) (run (get_json lib request) s)

    -- The result of a task. `what` is the text of the exception, if the method throws one.
    unfoldable pub dispatch : Bytes → Methods S → RpcTask → S → Json × S
    unfolding caught call_method
    dispatch what table task s = elim (entry task.method table.binary_methods) [
      | none ↦ call_method what task.method (entry task.method table.methods) task.request s
      | some run ↦ caught what (run (get_json lib task.request) task.request.binary_data s)
    ]

    -- The task of a worker: the bytes for the connection, which are sent if it is still open; `none` is
    -- the exception of `dump`, which ends in the task's future.
    unfoldable pub perform : Bytes → Methods S → RpcTask → Action S Bytes
    unfolding dispatch response_of
    perform what table task s =
        let (result, s') = dispatch what table task s in
        (Option.map encode (response_of task.request result), s')
