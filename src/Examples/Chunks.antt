-- ===== src/Examples/Chunks.antt =====
-- A run of WriteChunk of services/storage_service_server.cc.
use file_server.Prelude.{[], ◌∷◌}
use file_server.Prelude.Int.{pos}
use file_server.Json.{utf8}
use file_server.Database.Tables.{Bytes}
use file_server.Services.ChunkRpc.{ChunkArgs}
use file_server.Examples.FlatJson.{flat_json, Tree, num, word, no_more, member_of}

abbrev filepath : Bytes
filepath = b'1' ∷ b'/' ∷ b'a' ∷ []

abbrev six_bytes : Bytes
six_bytes = 1 ∷ 2 ∷ 3 ∷ 4 ∷ 5 ∷ 6 ∷ []

abbrev request : Tree
unfolding utf8
request = member_of (utf8 "file_id") (num (pos 5)) (
    member_of (utf8 "user_id") (num (pos 1)) (
      member_of (utf8 "offset") (num (pos 4)) (
        member_of (utf8 "size") (num (pos 6))
          (member_of (utf8 "filepath") (word filepath) no_more))))

abbrev json : flat_json.Json
unfolding flat_json
json = request

abbrev args : ChunkArgs
args = record { file_id = pos 5; user_id = pos 1; offset = pos 4; size = pos 6 }

abbrev answer : flat_json.Json
unfolding flat_json utf8
answer = member_of (utf8 "code") (num (pos 0)) (member_of (utf8 "written") (num (pos 6)) no_more)
