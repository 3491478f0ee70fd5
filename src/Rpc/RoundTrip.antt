-- ===== src/Rpc/RoundTrip.antt =====
-- rpc/: a call from the client to a method and back.
use mathlib.Core.Option
use file_server.Prelude.{
  ℕ, ◌+◌, ◌%◌, ◌^◌, ◌<◌, ◌≡◌, refl, ap, ◌∙◌, true, some, [], ◌∷◌, ◌++◌, length, if◌then◌else◌,
  if-true, ◌==◌, arith, ==_refl,
}
use file_server.Prelude.Text.{Bytes, same_text_refl}
use file_server.Prelude.Dict.{lookup, insert, remove, lookup-insert}
use file_server.Json.{JsonLib, JsonLaws, utf8, value_text, value}
use file_server.Protocol.Header.{MessageHeader}
use file_server.Protocol.Message.{Message, IsSendable, encode, sealed, sealed_header, length_header}
use file_server.Protocol.Body.{get_json, set_json, json_of-dump}
use file_server.Protocol.Decoder.{feed}
use file_server.Protocol.Decoder.Recovery.{feed_whole, after_message}
use file_server.ThreadPool.{submit_running}
use file_server.Rpc.Server
use file_server.Rpc.Server.{RpcTask, RpcServer, Methods, dispatch, perform, response_of}
use file_server.Rpc.Client
use file_server.Rpc.Client.{RpcClient, call_message, start_call, end_call, resolve_pending}
use file_server.Rpc.Request.{
  Request, IsCallable, between_messages, message_of, plain_header, message_of-IsSendable,
  request_message, request_task,
}

module _ (lib : JsonLib) (laws : JsonLaws lib) where
  open lib use {Json}

  module _ (c : Request lib) (v : IsCallable lib c) (client : RpcClient lib) where
    abbrev message : Message
    message = request_message lib c client

    abbrev calling : RpcClient lib
    calling = record client {
      next_id = (client.next_id + 1) % 2 ^ 32;
      pending = insert client.next_id c.promise client.pending;
    }

    call_message_lem : call_message lib client.next_id c.method c.args c.binary ≡ some message
    unfolding call_message set_json
    call_message_lem = rw (v.named, call_message) (rw (v.written, set_json) refl)

    start_call_lem :
        start_call lib c.promise c.method c.args c.binary client
        ≡ (some (client.next_id, encode message), calling)
    unfolding start_call Client.next_id Client.set_pending
    start_call_lem = rw call_message_lem refl

    -- The object that was sent is what the method gets, and names the method.
    get_json-message : get_json lib (sealed message) ≡ c.sent
    unfolding get_json
    get_json-message = json_of-dump lib laws c.sent c.body v.written

    method_named : value_text lib (utf8 "method") [] (get_json lib (sealed message)) ≡ some c.method
    unfolding value
    method_named = rw get_json-message (
        rw (laws.assign_object (utf8 "method") (lib.text c.method) c.args c.sent v.named) (
          rw
            (laws.assign_member (utf8 "method") (utf8 "method") (lib.text c.method) c.args c.sent
              v.named)
            (rw (same_text_refl (utf8 "method")) (laws.text_law c.method))))

    module _ (id_fits : client.next_id < 2 ^ 32) where
      message-IsSendable : IsSendable message
      message-IsSendable =
          message_of-IsSendable 1 client.next_id c.body c.binary (omega arith) id_fits v.body_fits
            v.binary_fits

      abbrev task_at : ℕ → RpcTask
      task_at conn = request_task lib c client conn

      module _ (conn : ℕ) (server : RpcServer) where
        abbrev accepted : RpcServer
        accepted = record {
          decoders = insert conn (after_message message message-IsSendable) server.decoders;
          worker_pool = record server.worker_pool {
            tasks = server.worker_pool.tasks ++ task_at conn ∷ [];
            submitted = server.worker_pool.submitted ++ task_at conn ∷ [];
          };
        }

        -- The server makes the call's task of the bytes.
        accepted_lem :
            (h : MessageHeader)
            → lookup conn server.decoders ≡ some (between_messages h)
            → server.worker_pool.running ≡ true
            → Server.on_message lib conn (encode message) server ≡ (true, accepted)
        unfolding Server.on_message Server.on_requests Server.submit_requests
        accepted_lem h has on =
            rw (has, Server.on_message)
              (rw (feed_whole message message-IsSendable h, Server.on_requests)
                (rw (method_named, Server.submit_requests)
                  (rw (submit_running (task_at conn) server.worker_pool on, Server.submit_requests)
                    refl)))

      -- A result that the server can write, as the response to the call.
      module _ (result : Json) (text : Bytes) (writes : lib.dump result ≡ some text)
          (text_fits : length text < 2 ^ 32) where
        abbrev answer : Message
        answer = message_of (plain_header 2 client.next_id) text []

        answer-IsSendable : IsSendable answer
        answer-IsSendable =
            message_of-IsSendable 2 client.next_id text [] (omega arith) id_fits text_fits
              (omega arith)

        response_of_lem : response_of lib (sealed message) result ≡ some answer
        unfolding response_of set_json sealed_header length_header
        response_of_lem = rw (writes, set_json) refl

        abbrev resolved : RpcClient lib
        resolved = record calling {
          decoder = after_message answer answer-IsSendable;
          results = insert c.promise result client.results;
          pending = remove client.next_id (insert client.next_id c.promise client.pending);
        }

        pending_found : lookup client.next_id calling.pending ≡ some c.promise
        pending_found =
            lookup-insert client.next_id client.next_id c.promise client.pending
            ∙ if-true (lookup client.next_id client.pending) (==_refl client.next_id)

        get_json-answer : get_json lib (sealed answer) ≡ result
        unfolding get_json
        get_json-answer = json_of-dump lib laws result text writes

        -- The bytes of the response resolve the promise of the call.
        resolved_lem :
            (h : MessageHeader)
            → client.decoder ≡ between_messages h
            → Client.on_message lib (encode answer) calling ≡ resolved
        unfolding Client.on_message Client.on_responses Client.resolve_all resolve_pending
            sealed_header length_header
        resolved_lem h at_start =
            ap (λ r. Client.on_responses lib r calling)
              (ap (λ d. feed d (encode answer)) at_start ∙ feed_whole answer answer-IsSendable h)
            ∙ rw (pending_found, resolve_pending) (rw get_json-answer refl)

        results_lem :
            (q : ℕ)
            → lookup q resolved.results
              ≡ (if q == c.promise then some result else lookup q client.results)
        results_lem q = lookup-insert c.promise q result client.results

        end_call_lem : (end_call lib c.promise client.next_id resolved).0 ≡ result
        unfolding end_call
        end_call_lem =
            rw
              (
                results_lem c.promise
                    ∙ if-true (lookup c.promise client.results) (==_refl c.promise),
                end_call,
              )
              refl

  -- A client is connected and has sent whole messages only, and so has the server to it. A call that
  -- can be sent is sent under the next id. Its bytes make one task of the server, with the method,
  -- the object of the arguments and the binary part of the call; whatever other calls are pending,
  -- the bytes that a worker sends for the task end this call with the result of the method, and
  -- leave the results of other promises. The result can be written, in less than 4 GiB; the JSON
  -- library keeps `JsonLaws`.
  pub rpc_round_trip :
      {S : Type 0} (c : Request lib) (client : RpcClient lib) (server : RpcServer) (conn : ℕ)
      (h h' : MessageHeader) (what : Bytes) (table : Methods lib S) (s : S) (text : Bytes) (q : ℕ)
      → IsCallable lib c
      → client.next_id < 2 ^ 32
      → client.decoder ≡ between_messages h
      → lookup conn server.decoders ≡ some (between_messages h')
      → server.worker_pool.running ≡ true
      → lib.dump (dispatch lib what table (request_task lib c client conn) s).0 ≡ some text
      → length text < 2 ^ 32
      → let task = request_task lib c client conn in
        let (result, s') = dispatch lib what table task s in
        let (started, calling) = start_call lib c.promise c.method c.args c.binary client in
        (get_json lib task.request ≡ c.sent)
        × (task.request.binary_data ≡ c.binary)
        × (wire : Bytes) × (started ≡ some (client.next_id, wire))
        × ((Server.on_message lib conn wire server).0 ≡ true)
        × ((Server.on_message lib conn wire server).1.worker_pool.submitted
            ≡ server.worker_pool.submitted ++ task ∷ [])
        × (reply : Bytes) × (perform lib what table task s ≡ (some reply, s'))
        × ((end_call lib c.promise client.next_id (Client.on_message lib reply calling)).0 ≡ result)
        × (lookup q (Client.on_message lib reply calling).results
            ≡ (if q == c.promise then some result else lookup q client.results))
  unfolding perform
  rpc_round_trip c client server conn h h' what table s text q v id_fits at_start has on writes
        fits =
      let (result, s') = dispatch lib what table (request_task lib c client conn) s in
      let started = start_call_lem c v client in
      let taken = accepted_lem c v client id_fits conn server h' has on in
      let reply = answer c v client id_fits result text writes fits in
      let ends =
        ap (λ p. Client.on_message lib (encode reply) p.1) started
        ∙ resolved_lem c v client id_fits result text writes fits h at_start in
      (
        get_json-message c v client,
        refl,
        encode (request_message lib c client),
        ap (λ p. p.0) started,
        ap (λ p. p.0) taken,
        ap (λ p. p.1.worker_pool.submitted) taken,
        encode reply,
        ap (λ r. (Option.map encode r, s'))
            (response_of_lem c v client id_fits result text writes fits),
        ap (λ k. (end_call lib c.promise client.next_id k).0) ends
            ∙ end_call_lem c v client id_fits result text writes fits,
        ap (λ k. lookup q k.results) ends
            ∙ results_lem c v client id_fits result text writes fits q,
      )
