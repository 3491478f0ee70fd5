-- ===== src/Examples/Uploads.antt =====
-- A run of UploadFile of client/file_client.cc with a server that refuses what the program's refuse: pieces
-- of no bytes, behind a gap, past the end of the file, or after it was finalised.
use file_server.Prelude.{
  ℕ, Bool, ◌≤◌, ◌<◌, ◌+◌, ◌&&◌, ◌==◌, ltb, leb, ◌≡◌, refl, ap, sym, ◌∙◌, true, false, Option, some,
  [], ◌++◌, take, drop, arith, length, length-take, length-drop, if◌then◌else◌, if-true, take-add,
}
use file_server.Prelude.Int.{pos}
use file_server.Prelude.Text.{Bytes, same_text}
use file_server.Json.{utf8, value, value_int64, at, at_int64}
use file_server.Client.{
  ClientResponse, ok, Sender, data_request, send_with_file, send_upload_start, upload_file,
}
use file_server.Client.Transfers.{Appends}
use file_server.Client.Local.Complete.{Finishes, upload_file_lem}
use file_server.Examples.Console.{three_bytes, stored, refusal, number_at, is_command}
use file_server.Examples.FlatJson.{flat_json, find, object_of}

-- What has come, and whether the file was finalised.
abbrev State : Type 0
State = Bytes × Bool

abbrev fits : ℕ → Bytes → Bytes → Bool
fits offset piece bytes =
    offset == length bytes && (ltb 0 (length piece) && leb (length bytes + length piece) 3)

abbrev take_piece : ℕ → Bytes → State → Option (ClientResponse flat_json) × State
take_piece offset piece (bytes, true) = (some refusal, (bytes, true))
take_piece offset piece (bytes, false) =
    if fits offset piece bytes
    then (some stored, (bytes ++ piece, false))
    else (some refusal, (bytes, false))

abbrev finalise : State → Option (ClientResponse flat_json) × State
finalise (bytes, finished) =
    if length bytes == 3 then (some stored, (bytes, true)) else (some refusal, (bytes, finished))

abbrev strict : Sender flat_json State
unfolding flat_json
strict request binary s =
    if is_command (utf8 "upload_data") request
    then take_piece (number_at (utf8 "offset") request) binary s
    else if is_command (utf8 "upload_finalize") request
    then finalise s
    else (some stored, s)

abbrev Uploading : Bytes → State → Type 0
Uploading bytes s = s ≡ (bytes, false)

abbrev Kept : Bytes → State → Type 0
Kept bytes s = s ≡ (bytes, true)

take_piece_lem :
    (k n : ℕ)
    → 0 < n
    → k + n ≤ 3
    → take_piece k (take n (drop k three_bytes)) (take k three_bytes, false)
      ≡ (some stored, (take (k + n) three_bytes, false))
take_piece_lem k n some_byte inside =
    let piece = take n (drop k three_bytes) in
    let size : length piece ≡ n =
      omega (arith, length-take n (drop k three_bytes), length-drop k three_bytes) in
    let before : length (take k three_bytes) ≡ k = omega (arith, length-take k three_bytes) in
    let fit : fits k piece (take k three_bytes) ≡ true = ground (arith, size, before) in
    if-true (some refusal, (take k three_bytes, false)) fit
    ∙ ap (λ b. (some stored, (b, false))) (sym (take-add k n three_bytes))

strict-Appends : Appends flat_json strict Uploading [] (pos 5) three_bytes
unfolding strict flat_json data_request find object_of utf8 same_text stored
strict-Appends s k n has some_byte inside = (
  stored,
  (take (k + n) three_bytes, false),
  ap (take_piece k (take n (drop k three_bytes))) has ∙ take_piece_lem k n some_byte inside,
  refl,
  refl,
)

strict-Finishes : Finishes flat_json strict [] (pos 5) three_bytes Uploading Kept
unfolding strict stored flat_json send_with_file find object_of same_text utf8
strict-Finishes t has = (stored, (three_bytes, true), _, ap finalise has, refl, refl, refl)

abbrev nothing : State
nothing = ([], false)

upload_starts :
    send_upload_start flat_json strict [] (utf8 "a") (pos 3) [] nothing ≡ (some stored, nothing)
unfolding send_upload_start strict stored flat_json find object_of same_text utf8
upload_starts = refl

stored_code : stored.code ≡ pos 0
unfolding stored
stored_code = refl

stored_file_id : at_int64 flat_json (utf8 "file_id") stored.body ≡ some (pos 5)
unfolding stored at flat_json find same_text utf8
stored_file_id = refl

stored_offset : value_int64 flat_json (utf8 "offset") (pos 0) stored.body ≡ some (pos 0)
unfolding stored value flat_json find same_text utf8
stored_offset = refl

upload_file_lem_example :
    (resp : ClientResponse flat_json) × (s' : State) × (upload_file flat_json strict []
        (utf8 "a")
        []
        three_bytes
        nothing
      ≡ (some resp, s'))
    × (ok flat_json resp ≡ true)
    × Kept three_bytes s'
upload_file_lem_example =
    upload_file_lem flat_json strict [] (pos 5) three_bytes Uploading Kept (utf8 "a") [] 0 stored
      nothing nothing upload_starts stored_code stored_file_id stored_offset (omega arith) refl
      strict-Appends strict-Finishes
