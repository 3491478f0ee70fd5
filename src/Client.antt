-- ===== src/Client.antt =====
-- client/file_client.cc: the requests of the client, and the loops of an upload and a download. `send`
-- is SendRequestWithBinary, in a state of everything that the client talks to; `none` is an exception.
pub mod Transfers
pub mod Requests
pub mod Local
use file_server.Prelude.{
  ℕ, zero, suc, Bool, true, false, not, Option, none, some, List, [], ◌∷◌, ◌++◌, length, take, drop,
  replicate, min, if◌then◌else◌,
}
use file_server.Prelude.Int.{ℤ, pos, negsuc, pos_part, ◌+ℤ◌, ◌-ℤ◌, eq_ℤ, ltb_ℤ, leb_ℤ}
use file_server.Prelude.Text.{Bytes}
use file_server.Prelude.Action.{Action, lift, ◌>>=◌}
use file_server.Json.{JsonLib, utf8, at_int64, value_int64}

abbrev pub chunk_limit : ℕ
chunk_limit = 4194304

-- The size of the next piece.
abbrev pub piece_size : ℤ → ℤ → ℕ
piece_size filesize offset = min chunk_limit (pos_part (filesize -ℤ offset))

module _ (lib : JsonLib) where
  open lib use {Json, object, text, number}

  pub record ClientResponse : Type 0 where
    pub code : ℤ
    pub msg : Bytes
    pub body : Json
    pub binary_data : Bytes

  -- `ok()`
  abbrev pub ok : ClientResponse → Bool
  ok resp = eq_ℤ resp.code (pos 0)

  abbrev pub Sender : Type 0 → Type 0
  Sender S = Json → Bytes → Action S ClientResponse

  abbrev command : Bytes → Bytes × Json
  command name = (utf8 "cmd", text name)

  abbrev token_entry : Bytes → Bytes × Json
  token_entry token = (utf8 "token", text token)

  abbrev id_entry : ℤ → Bytes × Json
  id_entry file_id = (utf8 "file_id", number file_id)

  unfoldable pub credentials : Bytes → Bytes → Bytes → Json
  credentials cmd user pass =
      object (command cmd ∷ (utf8 "username", text user) ∷ (utf8 "password", text pass) ∷ [])

  -- The request of `UploadData`.
  unfoldable pub data_request : Bytes → ℤ → ℤ → Bytes → Json
  data_request token file_id offset chunk = object (
      command (utf8 "upload_data")
      ∷ token_entry token
      ∷ id_entry file_id
      ∷ (utf8 "offset", number offset)
      ∷ (utf8 "size", number (pos (length chunk)))
      ∷ [])

  -- A request of `DownloadFile` for a piece.
  unfoldable pub chunk_request : Bytes → ℤ → ℤ → ℕ → Json
  chunk_request token file_id offset size = object (
      command (utf8 "download_chunk")
      ∷ token_entry token
      ∷ id_entry file_id
      ∷ (utf8 "offset", number offset)
      ∷ (utf8 "size", number (pos size))
      ∷ [])

  -- How a transfer ends: not within the rounds, by an answer that is not ok, or with all pieces.
  pub data Ending : Type 0 where
    unfinished finished : Ending
    stopped : ClientResponse → Ending

  module _ {S : Type 0} (send : Sender S) where
    -- `Register`
    unfoldable pub send_register : Bytes → Bytes → Action S ClientResponse
    send_register user pass = send (credentials (utf8 "register") user pass) []

    -- The new `token_`: it changes where a login is ok and its answer has a token.
    unfoldable pub new_token : Bytes → ClientResponse → Option Bytes
    new_token token resp =
        if ok resp
        then (elim (lib.member (utf8 "token") resp.body) [
          | none ↦ some token
          | some t ↦ lib.get_text t
        ])
        else some token

    -- `Login`, with the token that the client has before and after it.
    unfoldable pub send_login : Bytes → Bytes → Bytes → Action S (ClientResponse × Bytes)
    unfolding new_token
    send_login user pass token = do
      resp ← send (credentials (utf8 "login") user pass) []
      token' ← lift (new_token token resp)
      lift (some (resp, token'))

    -- `UploadStart`
    unfoldable pub send_upload_start : Bytes → Bytes → ℤ → Bytes → Action S ClientResponse
    send_upload_start token filename filesize md5 =
        send
          (object (
            command (utf8 "upload_start")
            ∷ token_entry token
            ∷ (utf8 "filename", text filename)
            ∷ (utf8 "filesize", number filesize)
            ∷ (utf8 "md5", text md5)
            ∷ []))
          []

    -- `UploadData`
    unfoldable pub send_upload_data : Bytes → ℤ → ℤ → Bytes → Action S ClientResponse
    send_upload_data token file_id offset chunk =
        send (data_request token file_id offset chunk) chunk

    -- `UploadFinalize`, `DeleteFile` and the first request of `DownloadFile`
    unfoldable pub send_with_file : Bytes → Bytes → ℤ → Action S ClientResponse
    send_with_file cmd token file_id =
        send (object (command cmd ∷ token_entry token ∷ id_entry file_id ∷ [])) []

    -- `ListFiles`
    unfoldable pub send_list : Bytes → Action S ClientResponse
    send_list token = send (object (command (utf8 "list") ∷ token_entry token ∷ [])) []

    -- What `read` leaves in the buffer: after a seek to a negative offset it reads nothing.
    abbrev pub piece : Bool → Bytes → ℤ → ℕ → Bytes
    piece readable file offset size =
        if readable then take size (drop (pos_part offset) file) else replicate size 0

    unfoldable pub after_piece :
        (ℤ → Action S Ending) → ℤ → ℕ → Option ClientResponse → Action S Ending
    after_piece go offset size none s = (none, s)
    after_piece go offset size (some resp) s =
        if ok resp then go (offset +ℤ pos size) s else (some (stopped resp), s)

    unfoldable pub upload_round :
        (ℤ → Action S Ending) → Bytes → ℤ → Bool → Bytes → ℤ → Action S Ending
    unfolding after_piece send_upload_data
    upload_round go token file_id readable file offset s =
        let size = piece_size (pos (length file)) offset in
        let (resp, s') =
          send_upload_data token file_id offset (piece readable file offset size) s in
        after_piece go offset size resp s'

    -- The loop of `UploadFile` over a file that stays as it is, on a number of rounds.
    unfoldable pub upload_loop : ℕ → Bytes → ℤ → Bool → Bytes → ℤ → Action S Ending
    unfolding upload_round
    upload_loop zero token file_id readable file offset s = (some unfinished, s)
    upload_loop (suc rounds) token file_id readable file offset s =
        if ltb_ℤ offset (pos (length file))
        then upload_round (upload_loop rounds token file_id readable file) token file_id readable
            file offset s
        else (some finished, s)

    unfoldable pub after_chunk :
        (ℤ → Bytes → Action S (Ending × Bytes))
        → ℤ
        → Bytes
        → Option ClientResponse
        → Action S (Ending × Bytes)
    after_chunk go offset saved none s = (none, s)
    after_chunk go offset saved (some resp) s =
        if ok resp
        then go (offset +ℤ pos (length resp.binary_data)) (saved ++ resp.binary_data) s
        else (some (stopped resp, saved), s)

    -- The loop of `DownloadFile`, with the bytes that the local file has got.
    unfoldable pub download_loop : ℕ → Bytes → ℤ → ℤ → ℤ → Bytes → Action S (Ending × Bytes)
    unfolding after_chunk
    download_loop zero token file_id filesize offset saved s = (some (unfinished, saved), s)
    download_loop (suc rounds) token file_id filesize offset saved s =
        if ltb_ℤ offset filesize
        then (let (resp, s') =
              send (chunk_request token file_id offset (piece_size filesize offset)) [] s in
            after_chunk (download_loop rounds token file_id filesize) offset saved resp s')
        else (some (finished, saved), s)

    -- The end of `UploadFile`: the answer to the finalisation has the file's id, if it is ok.
    unfoldable pub finalized : ℤ → ClientResponse → Option ClientResponse
    finalized file_id resp =
        if ok resp
        then (elim (lib.assign (utf8 "file_id") (number file_id) resp.body) [
          | none ↦ none
          | some body ↦ some (record resp { body = body })
        ])
        else some resp

    -- `unfinished` does not occur with the rounds that `upload_file` gives.
    unfoldable pub after_upload : Bytes → ℤ → Ending → Action S ClientResponse
    unfolding finalized
    after_upload token file_id (stopped resp) s = (some resp, s)
    after_upload token file_id unfinished s = (none, s)
    after_upload token file_id finished s =
        (send_with_file (utf8 "upload_finalize") token file_id >>= λ resp.
        lift (finalized file_id resp))
          s

    -- The parts of `UploadFile` behind the answers to the start, and behind the reading of it.
    unfoldable pub upload_from : Bytes → Bytes → ℤ → ℤ → Action S ClientResponse
    unfolding after_upload
    upload_from token file file_id offset = do
      ending ←
          upload_loop (suc (pos_part (pos (length file) -ℤ offset))) token file_id
            (leb_ℤ (pos 0) offset) file offset
      after_upload token file_id ending

    unfoldable pub upload_at : Bytes → Bytes → ClientResponse → ℤ → Action S ClientResponse
    unfolding upload_from
    upload_at token file start file_id = do
      offset ← lift (value_int64 lib (utf8 "offset") (pos 0) start.body)
      upload_from token file file_id offset

    unfoldable pub upload_started : Bytes → Bytes → ClientResponse → Action S ClientResponse
    unfolding upload_at
    upload_started token file start = if not (ok start) then lift (some start) else (do
      file_id ← lift (at_int64 lib (utf8 "file_id") start.body)
      upload_at token file start file_id)

    -- `UploadFile` for a local file that could be opened, with its name and its checksum.
    unfoldable pub upload_file : Bytes → Bytes → Bytes → Bytes → Action S ClientResponse
    unfolding upload_started
    upload_file token filename md5 file = do
      start ← send_upload_start token filename (pos (length file)) md5
      upload_started token file start
