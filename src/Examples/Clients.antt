-- ===== src/Examples/Clients.antt =====
-- Runs of client/file_client.cc against servers of a few lines.
use file_server.Prelude.{ℕ, ◌≡◌, refl, some, [], ◌∷◌, if◌then◌else◌, arith}
use file_server.Prelude.Int.{pos, negsuc}
use file_server.Prelude.Text.{Bytes}
use file_server.Json.{utf8}
use file_server.Client.{ClientResponse, Sender, unfinished, download_loop}
use file_server.Client.Transfers.{Silent, download_loop-Silent}
use file_server.Client.Requests.{answer_json, response_from, response_from-make_response}
use file_server.Gateway.Server.{make_response}
use file_server.Protocol.Header.{empty_header}
use file_server.Protocol.Message.{Message, empty_message}
use file_server.Examples.FlatJson.{
  flat_json, flat_json-JsonLaws, no_more, object_of, flat, write, words, value_word, join,
}

abbrev accepted : Bytes → ClientResponse flat_json
unfolding flat_json
accepted bytes = record { code = pos 0; msg = []; body = no_more; binary_data = bytes }

abbrev silent : Sender flat_json ℕ
silent request binary s = (some (accepted []), s)

silent-Silent : Silent flat_json silent [] (pos 5)
unfolding accepted
silent-Silent s offset size = (accepted [], s, refl, refl, refl)

download_loop-Silent_example :
    (s' : ℕ) × (download_loop flat_json silent 1000 [] (pos 5) (pos 3) (pos 0) [] 0
      ≡ (some (unfinished, []), s'))
download_loop-Silent_example =
    download_loop-Silent flat_json silent [] (pos 5) 1000 (pos 3) (pos 0) [] 0 silent-Silent refl

-- The answer of a server to the request 9, without data.
abbrev request_9 : Message
request_9 = record empty_message { header = record empty_header { request_id = 9 } }

abbrev nothing : flat_json.Json
unfolding flat_json
nothing = no_more

abbrev refused_body : Bytes
unfolding flat write words value_word join utf8
refused_body = 1 ∷ flat (utf8 "code" ∷ (2 ∷ 0 ∷ []) ∷ utf8 "msg" ∷ (0 ∷ utf8 "no") ∷ [])

refused_written :
    flat_json.dump (answer_json flat_json (negsuc 0) (utf8 "no") nothing) ≡ some refused_body
unfolding flat_json write words value_word join flat object_of utf8 nothing refused_body
refused_written = refl

response_from-make_response_example :
    (m : Message) × (make_response flat_json request_9 (negsuc 0) (utf8 "no") nothing (7 ∷ [])
      ≡ some m)
    × (m.header.request_id ≡ 9)
    × (response_from flat_json m
        ≡ some (record {
          code = negsuc 0;
          msg = utf8 "no";
          body = if flat_json.is_empty nothing then flat_json.object [] else nothing;
          binary_data = 7 ∷ [];
        }))
response_from-make_response_example =
    response_from-make_response flat_json flat_json-JsonLaws (negsuc 0) (utf8 "no") nothing
      request_9 (7 ∷ []) refused_body (omega arith) (omega arith) refused_written
