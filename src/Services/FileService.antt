-- ===== src/Services/FileService.antt =====
-- services/file_service.cc: uploads that can be resumed, downloads, and deletion. The service has
-- the table of files through its data access object, and the disk.
pub mod Ownership
pub mod Uploads
pub mod Start
pub mod Finalize
use file_server.Prelude.{
  ℕ, suc, Bool, true, false, not, ◌&&◌, ◌||◌, Option, none, some, List, [], ◌∷◌, if◌then◌else◌,
}
use file_server.Prelude.Int.{ℤ, pos, negsuc, ◌+ℤ◌, eq_ℤ, leb_ℤ, ltb_ℤ, max_ℤ}
use file_server.Database.{Mysql}
use file_server.Database.Tables.{Bytes, FileInfo, is_uploading, is_deleted, uploading, completed}
use file_server.Database.FileDao
use file_server.Storage.{
  Disk, Os, write_chunk, read_chunk, get_file_size, delete_file, create_user_dir,
}
use file_server.Services.Filename.{Tm, sanitize_filename, generate_filepath}

pub record UploadStartResult : Type 0 where
  pub file_id : ℤ
  pub offset : ℤ
  pub is_resume : Bool

abbrev pub is_empty : Bytes → Bool
is_empty [] = true
is_empty (b ∷ bs) = false

abbrev pub start_failed : ℤ → UploadStartResult
start_failed code = record { file_id = code; offset = pos 0; is_resume = false }

-- What the service works on. `Db` is that of the database's interface.
pub record Server (Db : Type 0) : Type 0 where
  pub db : Db
  pub disk : Disk

-- `!info || info->user_id != user_id`, turned round.
abbrev pub owned_by : ℤ → FileInfo → Bool
owned_by user_id info = eq_ℤ info.user_id user_id

-- The record that `UploadStart` inserts; the other fields have their defaults.
unfoldable pub new_upload : ℤ → Bytes → Bytes → ℤ → Bytes → FileInfo
new_upload user_id filename filepath filesize md5 = record {
  id = pos 0;
  user_id = user_id;
  filename = filename;
  filepath = filepath;
  filesize = filesize;
  upload_size = pos 0;
  md5 = md5;
  status = uploading;
  create_time = [];
}

-- `file_id <= 0`
unfoldable pub insert_answer : ℤ → UploadStartResult
insert_answer id =
    if leb_ℤ id (pos 0)
    then start_failed (negsuc 1)
    else record { file_id = id; offset = pos 0; is_resume = false }

module _ (mysql : Mysql) (os : Os) (base : Bytes) where
  open mysql use {Db}

  -- What `UploadStart` does with the answer to its search; `CreateUserDir` is not checked.
  unfoldable pub start_after_search :
      Tm → ℤ → Bytes → ℤ → Bytes → Option FileInfo → Server Db → UploadStartResult × Server Db
  unfolding new_upload insert_answer
  start_after_search now user_id name filesize md5 (some existing) s =
      (record { file_id = existing.id; offset = existing.upload_size; is_resume = true }, s)
  start_after_search now user_id name filesize md5 none s =
      let (made, disk') = create_user_dir os base user_id s.disk in
      let file = new_upload user_id name (generate_filepath now user_id name) filesize md5 in
      let (id, db') = FileDao.insert mysql file s.db in
      (insert_answer id, record { db = db'; disk = disk' })

  -- `UploadStart` at a time.
  unfoldable pub upload_start :
      Tm → ℤ → Bytes → ℤ → Bytes → Server Db → UploadStartResult × Server Db
  unfolding start_after_search
  upload_start now user_id filename filesize md5 s =
      if is_empty filename || leb_ℤ filesize (pos 0)
      then (start_failed (negsuc 0), s)
      else (let name = sanitize_filename filename in
          let (existing, db') =
            FileDao.find_incomplete_by_key mysql user_id name filesize md5 s.db in
          start_after_search now user_id name filesize md5 existing (record s { db = db' }))

  -- Behind the write: the progress is recorded, whatever becomes of the statement.
  unfoldable pub record_progress : ℤ → FileInfo → ℤ → ℤ → Server Db → ℤ × Server Db
  record_progress file_id info offset written s =
      if ltb_ℤ written (pos 0)
      then (negsuc 0, s)
      else (let (recorded, db') =
            FileDao.update_upload_size mysql file_id (max_ℤ info.upload_size (offset +ℤ written))
              s.db in
          (written, record s { db = db' }))

  unfoldable pub upload_data_of : ℤ → ℤ → Bytes → ℤ → Option FileInfo → Server Db → ℤ × Server Db
  unfolding record_progress
  upload_data_of file_id user_id bytes offset none s = (negsuc 0, s)
  upload_data_of file_id user_id bytes offset (some info) s =
      if not (owned_by user_id info)
      then (negsuc 0, s)
      else if not (is_uploading info)
      then (negsuc 0, s)
      else (let (written, disk') = write_chunk os base info.filepath bytes offset s.disk in
          record_progress file_id info offset written (record s { disk = disk' }))

  -- `UploadData`
  unfoldable pub upload_data : ℤ → ℤ → Bytes → ℤ → Server Db → ℤ × Server Db
  unfolding upload_data_of
  upload_data file_id user_id bytes offset s =
      let (info, db') = FileDao.find_by_id mysql file_id s.db in
      upload_data_of file_id user_id bytes offset info (record s { db = db' })

  unfoldable pub upload_finalize_of : ℤ → ℤ → Option FileInfo → Server Db → Bool × Server Db
  upload_finalize_of file_id user_id none s = (false, s)
  upload_finalize_of file_id user_id (some info) s =
      if not (owned_by user_id info)
      then (false, s)
      else if ltb_ℤ (get_file_size os base info.filepath s.disk) info.filesize
      then (false, s)
      else (let (marked, db₁) = FileDao.update_status mysql file_id completed s.db in
          let (sized, db₂) = FileDao.update_upload_size mysql file_id info.filesize db₁ in
          (true, record s { db = db₂ }))

  -- `UploadFinalize`
  unfoldable pub upload_finalize : ℤ → ℤ → Server Db → Bool × Server Db
  unfolding upload_finalize_of
  upload_finalize file_id user_id s =
      let (info, db') = FileDao.find_by_id mysql file_id s.db in
      upload_finalize_of file_id user_id info (record s { db = db' })

  unfoldable pub download_chunk_of : ℤ → ℤ → ℕ → Option FileInfo → Server Db → Option Bytes
  download_chunk_of user_id offset size none s = some []
  download_chunk_of user_id offset size (some info) s =
      if not (owned_by user_id info) || is_deleted info
      then some []
      else read_chunk os base info.filepath offset size s.disk

  -- `DownloadChunk`; `none` is the exception of `ReadChunk`.
  unfoldable pub download_chunk : ℤ → ℤ → ℤ → ℕ → Server Db → Option Bytes × Server Db
  unfolding download_chunk_of
  download_chunk file_id user_id offset size s =
      let (info, db') = FileDao.find_by_id mysql file_id s.db in
      (download_chunk_of user_id offset size info s, record s { db = db' })

  -- `QueryFiles` and `GetFileInfo`
  unfoldable pub query_files : ℤ → Server Db → List FileInfo × Server Db
  query_files user_id s =
      let (files, db') = FileDao.find_by_user_id mysql user_id s.db in
      (files, record s { db = db' })

  unfoldable pub get_file_info : ℤ → Server Db → Option FileInfo × Server Db
  get_file_info file_id s =
      let (info, db') = FileDao.find_by_id mysql file_id s.db in (info, record s { db = db' })

  unfoldable pub delete_of : ℤ → ℤ → Option FileInfo → Server Db → Bool × Server Db
  delete_of file_id user_id none s = (false, s)
  delete_of file_id user_id (some info) s =
      if not (owned_by user_id info)
      then (false, s)
      else (let (marked, db') = FileDao.soft_delete mysql file_id s.db in
          let (removed, disk') = delete_file os base info.filepath s.disk in
          (true, record { db = db'; disk = disk' }))

  -- `Delete`: the results of the two steps are not checked.
  unfoldable pub delete : ℤ → ℤ → Server Db → Bool × Server Db
  unfolding delete_of
  delete file_id user_id s =
      let (info, db') = FileDao.find_by_id mysql file_id s.db in
      delete_of file_id user_id info (record s { db = db' })
