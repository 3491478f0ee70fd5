-- ===== src/Gateway/Process.antt =====
-- gateway/bin/gateway_main.cc: the handlers of the gateway's own process, which calls the services.
-- `remote` is CallRpc: the answer of a service to a method, its arguments and a binary part, in a state
-- of all the services; `none` is an exception.
pub mod Answers
pub mod Upload
pub mod Tokens
use mathlib.Core.Option
use file_server.Prelude.{
  ℕ, Bool, true, false, not, ◌&&◌, ◌||◌, Option, none, some, List, [], ◌∷◌, length, if◌then◌else◌,
}
use file_server.Prelude.Int.{ℤ, pos, negsuc, ◌+ℤ◌, eq_ℤ, leb_ℤ}
use file_server.Prelude.Text.{Bytes}
use file_server.Prelude.Action.{Action, lift, ◌>>=◌}
use file_server.Json.{JsonLib, utf8, value_text, value_int64, value_int, index}
use file_server.Protocol.Message.{Message}
use file_server.Protocol.Body.{get_json}
use file_server.Services.UserService.{is_empty}
use file_server.Gateway.Router.{Handler, Router, register}
use file_server.Gateway.Server.{make_response}

-- The services, by the names that CallRpc gets.
pub data Service : Type 0 where
  user_service file_service storage_service : Service

module _ (lib : JsonLib) where
  open lib use {Json, object, text, number}

  abbrev pub Remote : Type 0 → Type 0
  Remote S = Service → Bytes → Json → Bytes → Action S Json

  -- `MakeResponse` without data: its default is null.
  abbrev pub reply_plain : Message → ℤ → Bytes → Option Message
  reply_plain req code msg = make_response lib req code msg lib.null []

  -- A message made of a code and a text that may have to be read from a result.
  unfoldable pub respond_with : Message → Option ℤ → Option Bytes → Json → Option Message
  respond_with req none msg data' = none
  respond_with req (some code) none data' = none
  respond_with req (some code) (some msg) data' = make_response lib req code msg data' []

  -- `MakeResponse(req, r.value("code", -1), r.value("msg", ""), r)`
  unfoldable pub pass_on : Message → Json → Option Message
  unfolding respond_with
  pass_on req r =
      respond_with req (value_int lib (utf8 "code") (negsuc 0) r) (value_text lib (utf8 "msg") [] r)
        r

  -- What the handler of `upload_data` has read from a request.
  pub record Chunk : Type 0 where
    pub request : Message
    pub uid : ℤ
    pub file_id : Json
    pub offset : ℤ

  abbrev pub chunk_size : Chunk → ℤ
  chunk_size c = pos (length c.request.binary_data)

  -- `args`
  abbrev pub chunk_args : Chunk → Json
  chunk_args c = object (
      (utf8 "file_id", c.file_id)
      ∷ (utf8 "user_id", number c.uid)
      ∷ (utf8 "offset", number c.offset)
      ∷ (utf8 "size", number (chunk_size c))
      ∷ [])

  abbrev pub write_args : Chunk → Json → Json
  write_args c filepath = object (
      (utf8 "filepath", filepath)
      ∷ (utf8 "user_id", number c.uid)
      ∷ (utf8 "offset", number c.offset)
      ∷ (utf8 "size", number (chunk_size c))
      ∷ [])

  abbrev pub code_of : Json → Option ℤ
  code_of = value_int lib (utf8 "code") (negsuc 0)

  -- The answer of success, with the progress of a result.
  abbrev pub chunk_done : Chunk → Json → Option Message
  chunk_done c progress =
      make_response lib c.request (pos 0) (utf8 "ok")
        (object ((utf8 "written", number (chunk_size c)) ∷ (utf8 "upload_size", progress) ∷ [])) []

  -- The answer of a failure: a code, and the text of a result or another.
  unfoldable pub chunk_failed : Chunk → ℤ → Bytes → Json → Option Message
  chunk_failed c code otherwise r = elim (value_text lib (utf8 "msg") otherwise r) [
    | none ↦ none
    | some msg ↦ reply_plain c.request code msg
  ]

  -- The answer of success with the progress of a result; a result without one throws.
  unfoldable pub done_with : Chunk → Json → Option Message
  done_with c r = elim (lib.member (utf8 "upload_size") r) [
    | none ↦ none
    | some progress ↦ chunk_done c progress
  ]

  unfoldable pub confirm_code : Chunk → Option ℤ → Json → Option Message
  unfolding done_with chunk_failed
  confirm_code c none r = none
  confirm_code c (some code) r =
      if eq_ℤ code (pos 0) then done_with c r else chunk_failed c code (utf8 "进度确认失败") r

  unfoldable pub confirm_answer : Chunk → Option Json → Option Message
  unfolding confirm_code
  confirm_answer c none = none
  confirm_answer c (some r) = confirm_code c (code_of r) r

  -- Whether the storage service has written the whole chunk; `written` is read only where the code
  -- is 0.
  unfoldable pub whole : Chunk → Json → Option Bool
  whole c r = elim (code_of r) [
    | none ↦ none
    | some code ↦
        if eq_ℤ code (pos 0)
        then Option.map (λ written. eq_ℤ written (chunk_size c))
            (value_int64 lib (utf8 "written") (negsuc 0) r)
        else some false
  ]

  module _ {S : Type 0} (remote : Remote S) where
    -- `VerifyToken`
    unfoldable pub remote_user : Bytes → Action S ℤ
    remote_user token = if is_empty token then lift (some (negsuc 0)) else (do
      r ← remote user_service (utf8 "VerifyToken") (object ((utf8 "token", text token) ∷ [])) []
      lift (value_int64 lib (utf8 "user_id") (pos 0) r))

    unfoldable pub with_remote_user : (ℤ → Action S Message) → Handler S
    unfolding remote_user
    with_remote_user rest req = do
      token ← lift (value_text lib (utf8 "token") [] (get_json lib req))
      uid ← remote_user token
      (if leb_ℤ uid (pos 0) then lift (reply_plain req (negsuc 0) (utf8 "认证失败")) else rest uid)

    -- `register` and `login`
    unfoldable pub account : Bytes → Handler S
    unfolding pass_on
    account method req = do
      r ← remote user_service method (get_json lib req) []
      lift (pass_on req r)

    unfoldable pub start_upload : Handler S
    unfolding pass_on
    start_upload req =
        with_remote_user
          (λ uid. do
            let j = get_json lib req
            r ←
                remote file_service (utf8 "UploadStart")
                  (object (
                    (utf8 "user_id", number uid)
                    ∷ (utf8 "filename", index lib (utf8 "filename") j)
                    ∷ (utf8 "filesize", index lib (utf8 "filesize") j)
                    ∷ (utf8 "md5", index lib (utf8 "md5") j)
                    ∷ []))
                  []
            lift (pass_on req r))
          req

    -- A file's id and the user, for `UploadFinalize` and `Delete`.
    unfoldable pub by_id : Bytes → Handler S
    unfolding pass_on
    by_id method req =
        with_remote_user
          (λ uid. do
            r ←
                remote file_service method
                  (object (
                    (utf8 "file_id", index lib (utf8 "file_id") (get_json lib req))
                    ∷ (utf8 "user_id", number uid)
                    ∷ []))
                  []
            lift (pass_on req r))
          req

    unfoldable pub download : Handler S
    unfolding pass_on
    download req =
        with_remote_user
          (λ uid. do
            r ←
                remote file_service (utf8 "GetFileInfo")
                  (object ((utf8 "file_id", index lib (utf8 "file_id") (get_json lib req)) ∷ [])) []
            lift (pass_on req r))
          req

    unfoldable pub download_piece : Handler S
    download_piece req =
        with_remote_user
          (λ uid. do
            let j = get_json lib req
            filepath ← lift (value_text lib (utf8 "filepath") [] j)
            r ←
                remote storage_service (utf8 "ReadChunk")
                  (object (
                    (utf8 "filepath", text filepath)
                    ∷ (utf8 "offset", index lib (utf8 "offset") j)
                    ∷ (utf8 "size", index lib (utf8 "size") j)
                    ∷ []))
                  []
            binary ← lift (value_text lib (utf8 "data") [] r)
            lift (make_response lib req (pos 0) (utf8 "ok") r binary))
          req

    unfoldable pub list_files : Handler S
    list_files req =
        with_remote_user
          (λ uid. do
            r ←
                remote file_service (utf8 "QueryFiles") (object ((utf8 "user_id", number uid) ∷ []))
                  []
            lift (make_response lib req (pos 0) (utf8 "ok") r []))
          req

    -- The last call of `upload_data`.
    unfoldable pub confirm_chunk : Chunk → Action S Message
    unfolding confirm_answer
    confirm_chunk c s =
        let (r, s') = remote file_service (utf8 "ConfirmUploadChunk") (chunk_args c) [] s in
        (confirm_answer c r, s')

    unfoldable pub after_write : Chunk → Option Bool → Json → Action S Message
    unfolding chunk_failed confirm_chunk
    after_write c none r s = (none, s)
    after_write c (some false) r s = (chunk_failed c (negsuc 0) (utf8 "存储写入失败") r, s)
    after_write c (some true) r s = confirm_chunk c s

    unfoldable pub written_chunk : Chunk → Option Json → Action S Message
    unfolding whole after_write
    written_chunk c none s = (none, s)
    written_chunk c (some r) s = after_write c (whole c r) r s

    unfoldable pub send_chunk : Chunk → Option Json → Action S Message
    unfolding written_chunk
    send_chunk c none s = (none, s)
    send_chunk c (some filepath) s =
        let (r, s') =
          remote storage_service (utf8 "WriteChunk") (write_args c filepath) c.request.binary_data
            s in
        written_chunk c r s'

    -- A chunk that the progress covers is not written again.
    unfoldable pub write_or_skip : Chunk → Option ℤ → Json → Action S Message
    unfolding send_chunk done_with
    write_or_skip c none r s = (none, s)
    write_or_skip c (some progress) r s =
        if leb_ℤ (c.offset +ℤ chunk_size c) progress
        then (done_with c r, s)
        else send_chunk c (lib.member (utf8 "filepath") r) s

    unfoldable pub prepared_code : Chunk → Option ℤ → Json → Action S Message
    unfolding write_or_skip chunk_failed
    prepared_code c none r s = (none, s)
    prepared_code c (some code) r s =
        if eq_ℤ code (pos 0)
        then write_or_skip c (value_int64 lib (utf8 "upload_size") (pos 0) r) r s
        else (chunk_failed c code (utf8 "上传校验失败") r, s)

    unfoldable pub prepared_chunk : Chunk → Option Json → Action S Message
    unfolding prepared_code
    prepared_chunk c none s = (none, s)
    prepared_chunk c (some r) s = prepared_code c (code_of r) r s

    -- `upload_data` for a user and the file and offset that the request names.
    unfoldable pub prepare_chunk : Chunk → Action S Message
    unfolding prepared_chunk
    prepare_chunk c s =
        let (r, s') = remote file_service (utf8 "PrepareUploadChunk") (chunk_args c) [] s in
        prepared_chunk c r s'

    unfoldable pub upload_chunk : Handler S
    upload_chunk req =
        with_remote_user
          (λ uid. do
            offset ← lift (value_int64 lib (utf8 "offset") (pos 0) (get_json lib req))
            file_id ← lift (lib.member (utf8 "file_id") (get_json lib req))
            prepare_chunk (record { request = req; uid = uid; file_id = file_id; offset = offset }))
          req

    -- The registrations of `main`, the last one outermost.
    unfoldable pub gateway_router : Router S
    gateway_router = register (utf8 "delete") (by_id (utf8 "Delete")) (
        register (utf8 "list") list_files (
          register (utf8 "download_chunk") download_piece (
            register (utf8 "download") download (
              register (utf8 "upload_finalize") (by_id (utf8 "UploadFinalize")) (
                register (utf8 "upload_data") upload_chunk (
                  register (utf8 "upload_start") start_upload (
                    register (utf8 "login") (account (utf8 "Login"))
                      (register (utf8 "register") (account (utf8 "Register")) []))))))))
