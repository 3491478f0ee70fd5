-- ===== src/Services/FileService/Start.antt =====
-- services/file_service.cc: how an upload starts, or is taken up again.
use file_server.Prelude.{◌≡◌, ◌⊎◌, true, false, []}
use file_server.Prelude.Int.{ℤ, pos, negsuc, leb_ℤ}
use file_server.Database.{Mysql, Stage, failed}
use file_server.Database.Tables.{Bytes, FileInfo, FileQuery, file_matches, incomplete}
use file_server.Database.FileDao
use file_server.Database.Laws.{Among, Inserted, NoFile}
use file_server.Storage.{Os, create_user_dir}
use file_server.Services.Filename.{Tm, sanitize_filename, generate_filepath}
use file_server.Services.FileService.{Server, UploadStartResult, start_failed, is_empty, new_upload}

module _ (mysql : Mysql) (os : Os) (base : Bytes) where
  open mysql use {Db, rows}

  module _ (now : Tm) (user_id : ℤ) (filename : Bytes) (filesize : ℤ) (md5 : Bytes) where
    -- The search for an upload of the same user, name, size and checksum that is not complete.
    abbrev same_upload : FileQuery
    same_upload = incomplete user_id (sanitize_filename filename) filesize md5

    -- The row of a new upload, at no progress, with a path made of the cleaned name.
    abbrev new_row : FileInfo
    new_row =
        let name = sanitize_filename filename in
        new_upload user_id name (generate_filepath now user_id name) filesize md5

    -- The state in which a new row is inserted: that which the search left.
    abbrev searched : Server Db → Db
    searched s =
        (FileDao.find_incomplete_by_key mysql user_id (sanitize_filename filename) filesize md5
          s.db).1

    -- The name is empty or there is no byte to come: nothing happens.
    abbrev pub Invalid : UploadStartResult → Server Db → Server Db → Type 0
    Invalid r s s' =
        ((filename ≡ []) ⊎ (leb_ℤ filesize (pos 0) ≡ true))
        × (r ≡ start_failed (negsuc 0))
        × (s' ≡ s)

    -- The arguments are valid.
    abbrev pub Valid : Type 0
    Valid = (is_empty filename ≡ false) × (leb_ℤ filesize (pos 0) ≡ false)

    -- An upload of the same file of the same user that is not complete goes on from its progress.
    abbrev pub Resumed : UploadStartResult → Server Db → Server Db → Type 0
    Resumed r s s' =
        (existing : FileInfo) × Among
          (file_matches mysql.collates
            (incomplete user_id (sanitize_filename filename) filesize md5))
          existing (rows s.db).files
        × (r ≡ record { file_id = existing.id; offset = existing.upload_size; is_resume = true })
        × (rows s'.db ≡ rows s.db)
        × (s'.disk ≡ s.disk)

    -- The server refuses the new row.
    abbrev pub NotInserted : UploadStartResult → Server Db → Server Db → Type 0
    NotInserted r s s' =
        let name = sanitize_filename filename in
        let file = new_upload user_id name (generate_filepath now user_id name) filesize md5 in
        let (found, db₀) = FileDao.find_incomplete_by_key mysql user_id name filesize md5 s.db in
        ((stage : Stage) × ((mysql.insert_file file db₀).0 ≡ failed stage))
        × (r ≡ start_failed (negsuc 1))
        × (rows s'.db ≡ rows s.db)

    -- A new row, at no progress, with an id above all others and a path made of the cleaned name.
    abbrev pub Started : UploadStartResult → Server Db → Server Db → Type 0
    Started r s s' =
        let name = sanitize_filename filename in
        (r ≡ record { file_id = r.file_id; offset = pos 0; is_resume = false })
        × Inserted (new_upload user_id name (generate_filepath now user_id name) filesize md5)
            r.file_id (rows s.db) (rows s'.db)

    -- The directory of the user is made, whatever becomes of the row.
    abbrev pub Fresh : UploadStartResult → Server Db → Server Db → Type 0
    Fresh r s s' =
        NoFile mysql (incomplete user_id (sanitize_filename filename) filesize md5) s.db
        × (s'.disk ≡ (create_user_dir os base user_id s.disk).1)
        × (NotInserted r s s' ⊎ Started r s s')

    Outcome : Server Db → UploadStartResult × Server Db → Type 0
    Outcome s (r, s') = Invalid r s s' ⊎ (Valid × (Resumed r s s' ⊎ Fresh r s s'))
