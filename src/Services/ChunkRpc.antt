-- ===== src/Services/ChunkRpc.antt =====
-- services/file_service_server.cc and services/storage_service_server.cc: the handlers of an upload in
-- chunks. The arguments are what the handlers read from the JSON object of a call.
pub mod Progress
pub mod Storing
use file_server.Prelude.{
  ℕ, suc, Bool, true, false, not, ◌&&◌, ◌||◌, ◌==◌, Option, none, some, List, [], ◌∷◌, ◌++◌, length,
  take, if◌then◌else◌,
}
use file_server.Prelude.Int.{ℤ, pos, negsuc, ◌+ℤ◌, ◌-ℤ◌, eq_ℤ, leb_ℤ, ltb_ℤ}
use file_server.Prelude.Text.{same_text}
use file_server.Prelude.Decimal.{to_string}
use file_server.Database.{Mysql}
use file_server.Database.Tables.{FileInfo, is_uploading, completed}
use file_server.Database.FileDao
use file_server.Storage.{Bytes, Disk, Os, create_user_dir, write_chunk, get_file_size}

pub record ChunkArgs : Type 0 where
  pub file_id : ℤ
  pub user_id : ℤ
  pub offset : ℤ
  pub size : ℤ

-- The condition of `validate_chunk` on the row, turned round.
unfoldable pub chunk_fits : ChunkArgs → FileInfo → Bool
chunk_fits args info = not (
    not (eq_ℤ info.user_id args.user_id)
    || (not (is_uploading info)
        || (ltb_ℤ args.offset (pos 0)
            || (leb_ℤ args.size (pos 0)
                || (ltb_ℤ info.filesize args.offset
                    || (ltb_ℤ (info.filesize -ℤ args.offset) args.size
                        || (ltb_ℤ info.upload_size args.offset
                            || ltb_ℤ args.offset info.upload_size
                              && ltb_ℤ info.upload_size (args.offset +ℤ args.size))))))))

unfoldable pub only_if : Bool → FileInfo → Option FileInfo
only_if true info = some info
only_if false info = none

unfoldable pub fitting : ChunkArgs → Option FileInfo → Option FileInfo
unfolding only_if chunk_fits
fitting args none = none
fitting args (some info) = only_if (chunk_fits args info) info

module _ (mysql : Mysql) where
  open mysql use {Db}

  -- `validate_chunk`
  unfoldable pub validate_chunk : ChunkArgs → Db → Option FileInfo × Db
  unfolding fitting
  validate_chunk args db =
      let (info, db') = FileDao.find_by_id mysql args.file_id db in (fitting args info, db')

  -- `PrepareUploadChunk`: the path and the progress, or `none` for code -1.
  unfoldable pub prepare_upload_chunk : ChunkArgs → Db → Option (Bytes × ℤ) × Db
  unfolding validate_chunk
  prepare_upload_chunk args db =
      let (info, db') = validate_chunk args db in
      (elim info [ none ↦ none | some f ↦ some (f.filepath, f.upload_size) ], db')

  -- The progress that the row has after a confirmation.
  unfoldable pub confirmed_size : ChunkArgs → Bool × Db → Option ℤ × Db
  confirmed_size args (false, db) = (none, db)
  confirmed_size args (true, db) =
      let (info, db') = FileDao.find_by_id mysql args.file_id db in
      (elim info [ none ↦ none | some f ↦ some f.upload_size ], db')

  unfoldable pub confirm_of : ChunkArgs → Option FileInfo → Db → Option ℤ × Db
  unfolding confirmed_size
  confirm_of args none db = (none, db)
  confirm_of args (some info) db =
      confirmed_size args
        (FileDao.confirm_upload_chunk mysql args.file_id args.user_id args.offset args.size db)

  -- `ConfirmUploadChunk`: the progress, or `none` for code -1.
  unfoldable pub confirm_upload_chunk : ChunkArgs → Db → Option ℤ × Db
  unfolding confirm_of validate_chunk
  confirm_upload_chunk args db =
      let (info, db') = validate_chunk args db in confirm_of args info db'

-- `filepath.compare(0, length, prefix) == 0`
abbrev pub starts_with : Bytes → Bytes → Bool
starts_with prefix filepath = same_text prefix (take (length prefix) filepath)

-- `find("..") != npos` and `find('\\') != npos`
unfoldable pub has_dots : Bytes → Bool
has_dots [] = false
has_dots (b ∷ []) = false
has_dots (b ∷ c ∷ bs) = (b == b'.' && c == b'.') || has_dots (c ∷ bs)

unfoldable pub has_backslash : Bytes → Bool
has_backslash [] = false
has_backslash (b ∷ bs) = b == 92 || has_backslash bs

-- The condition of `WriteChunk` of the storage service up to the directory, turned round.
unfoldable pub request_valid : ℤ → ℤ → ℤ → Bytes → Bytes → Bool
unfolding has_dots has_backslash
request_valid user_id offset size filepath data' = not (
    leb_ℤ user_id (pos 0)
    || (ltb_ℤ offset (pos 0)
        || (length data' == 0
            || (not (eq_ℤ size (pos (length data')))
                || (not (starts_with (to_string user_id ++ b'/' ∷ []) filepath)
                    || (has_dots filepath || has_backslash filepath))))))

module _ (os : Os) (base : Bytes) where
  -- `GetFileSize` of the storage service: `none` is code -1.
  unfoldable pub stat_file : Bytes → Disk → Option ℤ
  stat_file filepath disk =
      let size = get_file_size os base filepath disk in
      if leb_ℤ (pos 0) size then some size else none

  unfoldable pub store_in : Bytes → Bytes → ℤ → Bool × Disk → Option ℤ × Disk
  store_in filepath data' offset (false, disk) = (none, disk)
  store_in filepath data' offset (true, disk) =
      let (written, disk') = write_chunk os base filepath data' offset disk in
      (if eq_ℤ written (pos (length data')) then some written else none, disk')

  -- `WriteChunk` of the storage service: the bytes written, or `none` for code -1.
  unfoldable pub store_chunk : ℤ → ℤ → ℤ → Bytes → Bytes → Disk → Option ℤ × Disk
  unfolding request_valid store_in
  store_chunk user_id offset size filepath data' disk =
      if request_valid user_id offset size filepath data'
      then store_in filepath data' offset (create_user_dir os base user_id disk)
      else (none, disk)

-- The condition of `UploadFinalize` on the row, turned round.
unfoldable pub finishable : ℤ → FileInfo → Bool
finishable user_id info = not (
    not (eq_ℤ info.user_id user_id)
    || (not (is_uploading info) || not (eq_ℤ info.upload_size info.filesize)))

unfoldable pub reports : Option ℤ → ℤ → Bool
reports none filesize = false
reports (some size) filesize = eq_ℤ size filesize

module _ (mysql : Mysql) where
  open mysql use {Db}

  -- `UploadFinalize` of the file service. `ask` is the call of `GetFileSize` over the network: `none`
  -- for no connection and for code -1.
  unfoldable pub finalize_of : (Bytes → Option ℤ) → ℤ → Option FileInfo → Db → Bool × Db
  unfolding finishable reports
  finalize_of ask user_id none db = (false, db)
  finalize_of ask user_id (some info) db =
      if finishable user_id info && reports (ask info.filepath) info.filesize
      then FileDao.update_status mysql info.id completed db
      else (false, db)

  unfoldable pub finalize : (Bytes → Option ℤ) → ℤ → ℤ → Db → Bool × Db
  unfolding finalize_of
  finalize ask file_id user_id db =
      let (info, db') = FileDao.find_by_id mysql file_id db in finalize_of ask user_id info db'
