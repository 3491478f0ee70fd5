-- ===== src/Services/ChunkMethods.antt =====
-- services/file_service_server.cc and services/storage_service_server.cc: the handlers of uploads in
-- chunks from JSON to JSON, and the tables of the methods of both processes.
pub mod Typed
pub mod Writing
use file_server.Prelude.{
  Bool, true, false, Option, none, some, [], ◌∷◌, ◌||◌, ◌==◌, if◌then◌else◌, length,
}
use file_server.Prelude.Int.{ℤ, pos, negsuc, eq_ℤ, leb_ℤ, ltb_ℤ}
use file_server.Prelude.Text.{Bytes}
use file_server.Prelude.Action.{Action, lift, call, ◌>>=◌}
use file_server.Json.{JsonLib, utf8, value_int64, value_int, at_int64, at_text}
use file_server.Database.{Mysql}
use file_server.Database.Tables.{FileInfo, completed}
use file_server.Database.FileDao
use file_server.Storage.{Os, Disk, create_user_dir, write_chunk}
use file_server.Services.Filename.{Tm}
use file_server.Services.FileService.{Server}
use file_server.Services.ChunkRpc.{ChunkArgs, fitting, finishable, request_valid}
use file_server.Services.Methods.{
  upload_start_method, get_file_info_method, query_files_method, delete_method,
  get_file_size_method, read_chunk_method, delete_file_method,
}
use file_server.Rpc.Server.{Methods}

module _ (lib : JsonLib) where
  open lib use {Json, object, text, number}

  abbrev pub complaint_result : Bytes → Json
  complaint_result msg = object ((utf8 "code", number (negsuc 0)) ∷ (utf8 "msg", text msg) ∷ [])

  abbrev pub progress_result : ℤ → Json
  progress_result size =
      object ((utf8 "code", number (pos 0)) ∷ (utf8 "upload_size", number size) ∷ [])

  abbrev pub prepared_result : Bytes → ℤ → Json
  prepared_result filepath size = object (
      (utf8 "code", number (pos 0))
      ∷ (utf8 "filepath", text filepath)
      ∷ (utf8 "upload_size", number size)
      ∷ [])

  -- The user is read only where there is a row.
  unfoldable pub checked_row : Json → ℤ → ℤ → ℤ → Option FileInfo → Option (Option FileInfo)
  checked_row args file_id offset size none = some none
  checked_row args file_id offset size (some info) = elim (at_int64 lib (utf8 "user_id") args) [
    | none ↦ none
    | some user_id ↦ some (
        fitting (record { file_id = file_id; user_id = user_id; offset = offset; size = size })
          (some info))
  ]

  unfoldable pub prepare_answer : Option FileInfo → Json
  prepare_answer none = complaint_result (utf8 "文件、权限或上传偏移无效")
  prepare_answer (some info) = prepared_result info.filepath info.upload_size

  unfoldable pub found_answer : Option FileInfo → Json
  found_answer none = complaint_result (utf8 "上传进度查询失败")
  found_answer (some info) = progress_result info.upload_size

  -- What the call of `GetFileSize` at the storage service tells; `none` is no connection.
  unfoldable pub size_matches : Option Json → ℤ → Option Bool
  size_matches none filesize = some false
  size_matches (some stat) filesize = elim (value_int lib (utf8 "code") (negsuc 0) stat) [
    | none ↦ none
    | some code ↦
        if eq_ℤ code (pos 0)
        then (elim (value_int64 lib (utf8 "size") (negsuc 0) stat) [
          | none ↦ none
          | some size ↦ some (eq_ℤ size filesize)
        ])
        else some false
  ]

  abbrev finish_result : Bool → Json
  finish_result ok = object ((utf8 "code", number (if ok then pos 0 else negsuc 0)) ∷ [])

  module _ (mysql : Mysql) where
    open mysql use {Db}

    -- `validate_chunk`
    unfoldable pub validate_row : Json → Action Db (Option FileInfo)
    unfolding checked_row
    validate_row args = do
      file_id ← lift (at_int64 lib (utf8 "file_id") args)
      info ← call (FileDao.find_by_id mysql file_id)
      offset ← lift (at_int64 lib (utf8 "offset") args)
      size ← lift (at_int64 lib (utf8 "size") args)
      lift (checked_row args file_id offset size info)

    unfoldable pub prepare_method : Json → Action Db Json
    unfolding validate_row prepare_answer
    prepare_method args = do info ← validate_row args; lift (some (prepare_answer info))

    -- The second part of the condition of `ConfirmUploadChunk`.
    unfoldable pub confirm_row : Json → Option FileInfo → Action Db Bool
    confirm_row args none = lift (some false)
    confirm_row args (some info) = do
      file_id ← lift (at_int64 lib (utf8 "file_id") args)
      user_id ← lift (at_int64 lib (utf8 "user_id") args)
      offset ← lift (at_int64 lib (utf8 "offset") args)
      size ← lift (at_int64 lib (utf8 "size") args)
      call (FileDao.confirm_upload_chunk mysql file_id user_id offset size)

    unfoldable pub confirmed_answer : Json → Bool → Action Db Json
    unfolding found_answer
    confirmed_answer args false = lift (some (complaint_result (utf8 "上传进度更新失败")))
    confirmed_answer args true = do
      file_id ← lift (at_int64 lib (utf8 "file_id") args)
      found ← call (FileDao.find_by_id mysql file_id)
      lift (some (found_answer found))

    unfoldable pub confirm_method : Json → Action Db Json
    unfolding validate_row confirm_row confirmed_answer
    confirm_method args = do
      info ← validate_row args
      confirmed ← confirm_row args info
      confirmed_answer args confirmed

    -- The rest of `UploadFinalize` for a row and the user. `ask` is the call of the storage service.
    unfoldable pub finish_row : (Bytes → Option Json) → FileInfo → ℤ → Action Db Json
    unfolding size_matches
    finish_row ask info user_id =
        if finishable user_id info
        then (do
          matches ← lift (size_matches (ask info.filepath) info.filesize)
          ok ←
              (if matches
                then call (FileDao.update_status mysql info.id completed)
                else lift (some false))
          lift (some (finish_result ok)))
        else lift (some (finish_result false))

    unfoldable pub finish_found : (Bytes → Option Json) → Json → Option FileInfo → Action Db Json
    unfolding finish_row
    finish_found ask args none = lift (some (finish_result false))
    finish_found ask args (some info) = do
      user_id ← lift (at_int64 lib (utf8 "user_id") args)
      finish_row ask info user_id

    unfoldable pub finalize_method : (Bytes → Option Json) → Json → Action Db Json
    unfolding finish_found
    finalize_method ask args = do
      file_id ← lift (at_int64 lib (utf8 "file_id") args)
      info ← call (FileDao.find_by_id mysql file_id)
      finish_found ask args info

    module _ (os : Os) (base : Bytes) where
      -- A method that needs only the database.
      unfoldable pub in_database : Action Db Json → Action (Server Db) Json
      in_database m s = let (r, db') = m s.db in (r, record s { db = db' })

      -- The methods of the file service.
      unfoldable pub file_methods : (Bytes → Option Json) → Tm → Methods lib (Server Db)
      unfolding in_database
      file_methods ask now = record {
        methods =
            (utf8 "UploadStart", upload_start_method lib mysql os base now)
            ∷ (utf8 "PrepareUploadChunk", λ args. in_database (prepare_method args))
            ∷ (utf8 "ConfirmUploadChunk", λ args. in_database (confirm_method args))
            ∷ (utf8 "UploadFinalize", λ args. in_database (finalize_method ask args))
            ∷ (utf8 "GetFileInfo", get_file_info_method lib mysql os base)
            ∷ (utf8 "QueryFiles", query_files_method lib mysql os base)
            ∷ (utf8 "Delete", delete_method lib mysql os base)
            ∷ [];
        binary_methods = [];
      }

  module _ (os : Os) (base : Bytes) where
    unfoldable pub written_answer : Bytes → ℤ → Json
    written_answer data' written = object (
        (utf8 "code", number (if eq_ℤ written (pos (length data')) then pos 0 else negsuc 0))
        ∷ (utf8 "written", number written)
        ∷ [])

    abbrev invalid_write : Json
    invalid_write = complaint_result (utf8 "无效的存储写入请求")

    -- `WriteChunk` behind the test of the directory.
    unfoldable pub write_in : Bytes → Bytes → ℤ → Bool × Disk → Option Json × Disk
    unfolding written_answer
    write_in filepath data' offset (false, disk) = (some invalid_write, disk)
    write_in filepath data' offset (true, disk) =
        let (written, disk') = write_chunk os base filepath data' offset disk in
        (some (written_answer data' written), disk')

    unfoldable pub write_sized : ℤ → ℤ → Bytes → Bytes → ℤ → Action Disk Json
    unfolding write_in
    write_sized user_id offset filepath data' size disk =
        if request_valid user_id offset size filepath data'
        then write_in filepath data' offset (create_user_dir os base user_id disk)
        else (some invalid_write, disk)

    -- The size is read only where the tests before it let the request pass.
    unfoldable pub write_checked : Json → ℤ → ℤ → Bytes → Bytes → Action Disk Json
    unfolding write_sized
    write_checked args user_id offset filepath data' =
        if leb_ℤ user_id (pos 0) || (ltb_ℤ offset (pos 0) || length data' == 0)
        then lift (some invalid_write)
        else (do
          size ← lift (at_int64 lib (utf8 "size") args)
          write_sized user_id offset filepath data' size)

    unfoldable pub write_method : Json → Bytes → Action Disk Json
    unfolding write_checked
    write_method args data' = do
      filepath ← lift (at_text lib (utf8 "filepath") args)
      user_id ← lift (at_int64 lib (utf8 "user_id") args)
      offset ← lift (at_int64 lib (utf8 "offset") args)
      write_checked args user_id offset filepath data'

    -- The methods of the storage service.
    unfoldable pub storage_methods : Methods lib Disk
    storage_methods = record {
      methods =
          (utf8 "GetFileSize", get_file_size_method lib os base)
          ∷ (utf8 "ReadChunk", read_chunk_method lib os base)
          ∷ (utf8 "DeleteFile", delete_file_method lib os base)
          ∷ [];
      binary_methods = (utf8 "WriteChunk", write_method) ∷ [];
    }
