-- ===== src/Client/Requests.antt =====
-- client/file_client.cc: the pending requests, and how the client reads an answer. A request has a
-- promise, which is a number, its address.
use mathlib.Core.Option
use file_server.Prelude.{
  ℕ, ◌+◌, ◌%◌, ◌^◌, ◌<◌, ◌≡◌, refl, ap, ◌∙◌, inl, inr, Bool, true, false, Option, none, some, List,
  [], ◌∷◌, if◌then◌else◌, Bool-cases,
}
use file_server.Prelude.Int.{ℤ, pos_part, neg_part, negsuc}
use file_server.Prelude.Text.{Bytes, same_text}
use file_server.Prelude.Dict.{Dict, lookup, insert, remove}
use file_server.Prelude.Action.{Action, lift, call, ◌>>=◌}
use file_server.Json.{JsonLib, JsonLaws, utf8, entry, value, value_int, value_text}
use file_server.Protocol.Header.{empty_header, type_code, request}
use file_server.Protocol.Message.{Message, empty_message, encode, size32}
use file_server.Protocol.Body.{get_json, set_json, json_of-dump}
use file_server.Protocol.Decoder.{Decoder, Parsed, feed}
use file_server.Gateway.Router.{reply_header}
use file_server.Gateway.Server.{make_response, data_entry, with_binary}
use file_server.Client.{ClientResponse}

module _ (lib : JsonLib) where
  open lib use {Json}

  -- What `OnMessage` reads from the JSON of a message; `none` is an exception.
  unfoldable pub read_json : Json → Bytes → Option (ClientResponse lib)
  read_json j binary = elim (value_int lib (utf8 "code") (negsuc 0) j) [
    | none ↦ none
    | some code ↦ elim (value_text lib (utf8 "msg") [] j) [
      | none ↦ none
      | some msg ↦
          Option.map (λ body. record { code = code; msg = msg; body = body; binary_data = binary })
            (value lib some (utf8 "data") (lib.object []) j)
    ]
  ]

  unfoldable pub response_from : Message → Option (ClientResponse lib)
  unfolding read_json
  response_from m = read_json (get_json lib m) m.binary_data

  -- `pending_requests_`, `next_request_id_`, `decoder_`, and the values of the promises that are set.
  pub record FileClient : Type 0 where
    pub connected : Bool
    pub decoder : Decoder
    pub pending_requests : Dict ℕ
    pub next_request_id : ℕ
    pub responses : Dict (ClientResponse lib)

  -- `OnConnection`, and `Disconnect` for `false`: the decoder is not reset.
  unfoldable pub connection_changed : Bool → FileClient → FileClient
  connection_changed connected client = record client { connected = connected }

  -- `ResolvePending`
  unfoldable pub resolve_request : ℕ → ClientResponse lib → FileClient → FileClient
  resolve_request id resp client = elim (lookup id client.pending_requests) [
    | none ↦ client
    | some promise ↦ record client {
      responses = insert promise resp client.responses;
      pending_requests = remove id client.pending_requests;
    }
  ]

  -- The loop of `OnMessage`; `false` is an exception.
  unfoldable pub read_all : List Message → FileClient → Bool × FileClient
  unfolding response_from resolve_request
  read_all [] client = (true, client)
  read_all (m ∷ ms) client = elim (response_from m) [
    | none ↦ (false, client)
    | some resp ↦ read_all ms (resolve_request m.header.request_id resp client)
  ]

  unfoldable pub read_parsed : Option Parsed → FileClient → Bool × FileClient
  unfolding read_all
  read_parsed none client = (true, client)
  read_parsed (some (ms, decoder)) client = read_all ms (record client { decoder = decoder })

  -- `OnMessage`
  unfoldable pub receive : Bytes → FileClient → Bool × FileClient
  unfolding read_parsed
  receive raw client = read_parsed (feed client.decoder raw) client

  unfoldable pub message_for : ℕ → Json → Bytes → Option Message
  message_for id j binary =
      Option.map {A = Message}
        (λ m. record m {
          binary_data = binary;
          header = record m.header { data_length = size32 binary };
        })
        (set_json lib j (record empty_message {
          header = record empty_header { msg_type = type_code request; request_id = id };
        }))

  unfoldable pub take_id : FileClient → ℕ × FileClient
  take_id client = (
    client.next_request_id,
    record client { next_request_id = (client.next_request_id + 1) % 2 ^ 32 },
  )

  -- `SendRequestWithBinary` up to the wait, where the client is connected.
  unfoldable pub start_request : ℕ → Json → Bytes → Action FileClient (ℕ × Bytes)
  unfolding take_id message_for
  start_request promise j binary = do
    id ← call take_id
    m ← lift (message_for id j binary)
    (λ client. (
      some (id, encode m),
      record client { pending_requests = insert id promise client.pending_requests },
    ))

  -- The rest: the answer of the promise, or that of a time-out.
  unfoldable pub end_request : ℕ → ℕ → FileClient → ClientResponse lib × FileClient
  end_request promise id client = elim (lookup promise client.responses) [
    | none ↦ (
      record { code = negsuc 1; msg = utf8 "请求超时"; body = lib.null; binary_data = [] },
      record client { pending_requests = remove id client.pending_requests },
    )
    | some resp ↦ (resp, client)
  ]

  -- The JSON of `MakeResponse`.
  abbrev pub answer_json : ℤ → Bytes → Json → Json
  answer_json code msg data' =
      lib.object
        ((utf8 "code", lib.number code) ∷ (utf8 "msg", lib.text msg) ∷ data_entry lib data')

module _ (lib : JsonLib) (laws : JsonLaws lib) (code : ℤ) (msg : Bytes) (data' : lib.Json) where
  open lib use {Json}

  code_read :
      pos_part code < 2 ^ 31
      → neg_part code < 2 ^ 31
      → value_int lib (utf8 "code") (negsuc 0) (answer_json lib code msg data') ≡ some code
  unfolding value utf8 entry same_text
  code_read high low = rw laws.object_law (rw laws.member_law (laws.int_law code high low))

  msg_read : value_text lib (utf8 "msg") [] (answer_json lib code msg data') ≡ some msg
  unfolding value utf8 entry same_text
  msg_read = rw laws.object_law (rw laws.member_law (laws.text_law msg))

  data_read :
      value lib some (utf8 "data") (lib.object []) (answer_json lib code msg data')
      ≡ some (if lib.is_empty data' then lib.object [] else data')
  unfolding value utf8 entry same_text
  data_read = elim (Bool-cases (lib.is_empty data')) [
    | inl e ↦ rw laws.object_law (rw laws.member_law (rw e refl))
    | inr e ↦ rw laws.object_law (rw laws.member_law (rw e refl))
  ]

  read_answer :
      (binary : Bytes)
      → pos_part code < 2 ^ 31
      → neg_part code < 2 ^ 31
      → read_json lib (answer_json lib code msg data') binary
        ≡ some (record {
          code = code;
          msg = msg;
          body = if lib.is_empty data' then lib.object [] else data';
          binary_data = binary;
        })
  unfolding read_json
  read_answer binary high low =
      rw (code_read high low, read_json) (rw (msg_read, read_json) (rw (data_read, read_json) refl))

  -- The client reads the answer that `MakeResponse` of a server makes as it was meant: under the id of
  -- the request, with the code, the text, the data and the binary part, where data that is empty is
  -- read as an empty object. The code is an `int`, the answer can be written, and the JSON library
  -- keeps `JsonLaws`.
  pub response_from-make_response :
      (req : Message) (binary body : Bytes)
      → pos_part code < 2 ^ 31
      → neg_part code < 2 ^ 31
      → lib.dump (answer_json lib code msg data') ≡ some body
      → (m : Message) × (make_response lib req code msg data' binary ≡ some m)
        × (m.header.request_id ≡ req.header.request_id)
        × (response_from lib m
            ≡ some (record {
              code = code;
              msg = msg;
              body = if lib.is_empty data' then lib.object [] else data';
              binary_data = binary;
            }))
  unfolding make_response set_json response_from get_json
  response_from-make_response req binary body high low writes = (
    with_binary lib binary (record empty_message {
      json_body = body;
      header = record (reply_header req) { body_length = size32 body };
    }),
    rw (writes, set_json) refl,
    refl,
    ap (λ j. read_json lib j binary)
          (json_of-dump lib laws (answer_json lib code msg data') body writes)
        ∙ read_answer binary high low,
  )
