-- ===== src/Services/Methods.antt =====
-- services/user_service_server.cc, services/file_service_server.cc and
-- services/storage_service_server.cc: the methods that turn JSON into calls of the services and back.
-- The handlers of uploads in chunks are in Services/ChunkRpc.
use mathlib.Core.Option
use file_server.Prelude.{Bool, true, false, Option, none, some, [], ◌∷◌, length, map, if◌then◌else◌}
use file_server.Prelude.Int.{ℤ, pos, negsuc, leb_ℤ}
use file_server.Prelude.Text.{Bytes}
use file_server.Prelude.Action.{Action, lift, call, ◌>>=◌}
use file_server.Json.{JsonLib, utf8, value, value_text, value_int64, at_int64, at_text}
use file_server.Database.{Mysql}
use file_server.Database.Tables.{FileInfo}
use file_server.Storage.{Os, Disk, read_chunk, delete_file, get_file_size}
use file_server.Services.Filename.{Tm}
use file_server.Services.UserService.{register, login, verify_token, is_empty}
use file_server.Services.FileService.{
  Server, UploadStartResult, upload_start, get_file_info, query_files, delete,
}
use file_server.Rpc.Server.{Methods}

module _ (lib : JsonLib) where
  open lib use {Json, object, text, number}

  abbrev code_entry : Bool → Bytes × Json
  code_entry ok = (utf8 "code", number (if ok then pos 0 else negsuc 0))

  abbrev code_only : Bool → Json
  code_only ok = object (code_entry ok ∷ [])

  -- `Register` and `Login`: the token, or a text.
  unfoldable pub token_result : Bytes → Bytes → Json
  token_result complaint token =
      if is_empty token
      then object (code_entry false ∷ (utf8 "msg", text complaint) ∷ [])
      else object (code_entry true ∷ (utf8 "token", text token) ∷ [])

  unfoldable pub verify_result : ℤ → Json
  verify_result uid = object (
      (utf8 "code", number (if leb_ℤ uid (pos 0) then negsuc 0 else pos 0))
      ∷ (utf8 "user_id", number uid)
      ∷ [])

  module _ (mysql : Mysql) where
    open mysql use {Db}

    unfoldable pub register_method : Bytes → Json → Action Db Json
    unfolding token_result
    register_method new_token args = do
      username ← lift (value_text lib (utf8 "username") [] args)
      password ← lift (value_text lib (utf8 "password") [] args)
      token ← call (register mysql new_token username password)
      lift (some (token_result (utf8 "注册失败") token))

    unfoldable pub login_method : Bytes → Json → Action Db Json
    unfolding token_result
    login_method new_token args = do
      username ← lift (value_text lib (utf8 "username") [] args)
      password ← lift (value_text lib (utf8 "password") [] args)
      token ← call (login mysql new_token username password)
      lift (some (token_result (utf8 "登录失败") token))

    unfoldable pub verify_token_method : Json → Action Db Json
    unfolding verify_result
    verify_token_method args = do
      token ← lift (value_text lib (utf8 "token") [] args)
      uid ← call (verify_token mysql token)
      lift (some (verify_result uid))

    -- The methods of the user service; `GenerateToken` answers with `new_token`.
    unfoldable pub user_methods : Bytes → Methods lib Db
    user_methods new_token = record {
      methods =
          (utf8 "Register", register_method new_token)
          ∷ (utf8 "Login", login_method new_token)
          ∷ (utf8 "VerifyToken", verify_token_method)
          ∷ [];
      binary_methods = [];
    }

    unfoldable pub start_result : UploadStartResult → Json
    start_result result = object (
        (utf8 "code", number (if leb_ℤ result.file_id (pos 0) then negsuc 0 else pos 0))
        ∷ (utf8 "file_id", number result.file_id)
        ∷ (utf8 "offset", number result.offset)
        ∷ (utf8 "is_resume", lib.boolean result.is_resume)
        ∷ [])

    unfoldable pub info_result : Option FileInfo → Json
    info_result none = object (code_entry false ∷ (utf8 "msg", text (utf8 "文件不存在")) ∷ [])
    info_result (some info) = object (
        code_entry true
        ∷ (utf8 "filesize", number info.filesize)
        ∷ (utf8 "filename", text info.filename)
        ∷ (utf8 "md5", text info.md5)
        ∷ (utf8 "status", number info.status)
        ∷ [])

    unfoldable pub file_entry : FileInfo → Json
    file_entry f = object (
        (utf8 "id", number f.id)
        ∷ (utf8 "filename", text f.filename)
        ∷ (utf8 "filesize", number f.filesize)
        ∷ (utf8 "status", number f.status)
        ∷ [])

    -- A key that is not there throws here; in the source `args[key]` is undefined then.
    module _ (os : Os) (base : Bytes) where
      unfoldable pub upload_start_method : Tm → Json → Action (Server Db) Json
      unfolding start_result
      upload_start_method now args = do
        user_id ← lift (value_int64 lib (utf8 "user_id") (pos 0) args)
        filename ← lift (value_text lib (utf8 "filename") [] args)
        filesize ← lift (value_int64 lib (utf8 "filesize") (pos 0) args)
        md5 ← lift (value_text lib (utf8 "md5") [] args)
        result ← call (upload_start mysql os base now user_id filename filesize md5)
        lift (some (start_result result))

      unfoldable pub get_file_info_method : Json → Action (Server Db) Json
      unfolding info_result
      get_file_info_method args = do
        file_id ← lift (at_int64 lib (utf8 "file_id") args)
        info ← call (get_file_info mysql os base file_id)
        lift (some (info_result info))

      unfoldable pub query_files_method : Json → Action (Server Db) Json
      unfolding file_entry
      query_files_method args = do
        user_id ← lift (at_int64 lib (utf8 "user_id") args)
        files ← call (query_files mysql os base user_id)
        lift (
            some (object (code_entry true ∷ (utf8 "files", lib.array (map file_entry files)) ∷ [])))

      unfoldable pub delete_method : Json → Action (Server Db) Json
      delete_method args = do
        file_id ← lift (at_int64 lib (utf8 "file_id") args)
        user_id ← lift (at_int64 lib (utf8 "user_id") args)
        ok ← call (delete mysql os base file_id user_id)
        lift (some (code_only ok))

  module _ (os : Os) (base : Bytes) where
    unfoldable pub get_file_size_method : Json → Action Disk Json
    get_file_size_method args = do
      filepath ← lift (at_text lib (utf8 "filepath") args)
      (λ disk.
          let size = get_file_size os base filepath disk in
          (some (object (code_entry (leb_ℤ (pos 0) size) ∷ (utf8 "size", number size) ∷ [])), disk))

    unfoldable pub read_chunk_method : Json → Action Disk Json
    read_chunk_method args = do
      filepath ← lift (at_text lib (utf8 "filepath") args)
      offset ← lift (at_int64 lib (utf8 "offset") args)
      size ← lift (value lib lib.get_size (utf8 "size") 0 args)
      (λ disk. (
        Option.map
            (λ chunk. object (
              code_entry true
              ∷ (utf8 "data", text chunk)
              ∷ (utf8 "size", number (pos (length chunk)))
              ∷ []))
            (read_chunk os base filepath offset size disk),
        disk,
      ))

    unfoldable pub delete_file_method : Json → Action Disk Json
    delete_file_method args = do
      filepath ← lift (at_text lib (utf8 "filepath") args)
      ok ← call (delete_file os base filepath)
      lift (some (code_only ok))
