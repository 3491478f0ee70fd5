-- ===== src/Examples/Remotes.antt =====
-- Runs of gateway/bin/gateway_main.cc against services that answer.
use file_server.Prelude.{ℕ, ◌+◌, ◌≡◌, refl, Option, none, some, [], ◌∷◌}
use file_server.Prelude.Int.{pos}
use file_server.Prelude.Text.{Bytes}
use file_server.Json.{utf8}
use file_server.Protocol.Message.{Message, empty_message}
use file_server.Protocol.Body.{get_json}
use file_server.Database.Tables.{User}
use file_server.Database.Reliable.{reliable}
use file_server.Services.UserService.{verify_token}
use file_server.Services.Methods.{user_methods}
use file_server.Rpc.Server.{dispatch}
use file_server.Gateway.Process.{
  Remote, Service, user_service, file_service, storage_service, Chunk, prepare_chunk, remote_user,
}
use file_server.Gateway.Process.Upload.{AfterPrepare, prepare_chunk_lem}
use file_server.Gateway.Process.Tokens.{remote_user-verify_token}
use file_server.Examples.FlatJson.{
  flat_json, flat_json-JsonLaws, Tree, object_of, word, num, no_more, member_of, write, read, words,
  pairs, cut, flat,
}

abbrev reply_of : Service → Tree
unfolding utf8
reply_of user_service = no_more
reply_of file_service = member_of (utf8 "code") (num (pos 0)) (
    member_of (utf8 "upload_size") (num (pos 4))
      (member_of (utf8 "filepath") (word (utf8 "1/a")) no_more))
reply_of storage_service =
    member_of (utf8 "code") (num (pos 0)) (member_of (utf8 "written") (num (pos 2)) no_more)

-- The services answer, and count the calls.
abbrev counting : Remote flat_json ℕ
unfolding flat_json
counting service method args binary n = (some (reply_of service), n + 1)

abbrev two_bytes : Chunk flat_json
unfolding flat_json
two_bytes = record {
  request = record empty_message { binary_data = 1 ∷ 2 ∷ [] };
  uid = pos 1;
  file_id = num (pos 5);
  offset = pos 4;
}

prepare_chunk_lem_example :
    AfterPrepare flat_json two_bytes counting 0 (prepare_chunk flat_json counting two_bytes 0)
prepare_chunk_lem_example = prepare_chunk_lem flat_json two_bytes counting 0

abbrev alice : User
alice = record {
  id = pos 1;
  username = utf8 "a";
  password = utf8 "pw";
  token = utf8 "t1";
  create_time = [];
}

abbrev db : reliable.Db
unfolding reliable
db = record { users = alice ∷ []; files = [] }

abbrev verify_tree : Tree
verify_tree =
    member_of (utf8 "method") (word (utf8 "VerifyToken"))
      (member_of (utf8 "token") (word (utf8 "t1")) no_more)

abbrev verify_sent : flat_json.Json
unfolding flat_json
verify_sent = verify_tree

abbrev bytes : Option Bytes → Bytes
bytes none = []
bytes (some b) = b

abbrev verify_request : Message
unfolding write
verify_request = record empty_message { json_body = bytes (write verify_tree) }

-- The user service answers every call with what it dispatches for this request.
abbrev user_server : Remote flat_json ℕ
user_server service method args binary n = (
  some
      (dispatch flat_json [] (user_methods flat_json reliable [])
        (record { conn = 5; method = utf8 "VerifyToken"; request = verify_request }) db).0,
  n + 1,
)

verify_named :
    flat_json.assign
      (utf8 "method")
      (flat_json.text (utf8 "VerifyToken"))
      (flat_json.object ((utf8 "token", flat_json.text (utf8 "t1")) ∷ []))
    ≡ some verify_sent
unfolding flat_json verify_sent object_of
verify_named = refl

verify_read : get_json flat_json verify_request ≡ verify_sent
unfolding flat_json get_json verify_sent verify_request write read words pairs cut flat utf8
verify_read = refl

remote_user-verify_token_example :
    (remote_user flat_json user_server (utf8 "t1") 0).0
    ≡ some (verify_token reliable (utf8 "t1") db).0
remote_user-verify_token_example =
    remote_user-verify_token flat_json flat_json-JsonLaws reliable user_server 0 (utf8 "t1")
      verify_sent [] [] 5 verify_request db verify_named verify_read refl
