-- ===== src/Examples/Files.antt =====
-- Runs of the uploads of services/file_service.cc and services/file_service_server.cc.
use file_server.Prelude.{ℕ, ◌≡◌, ◌⊎◌, refl, true, false, Option, some, [], ◌∷◌, All, length, arith}
use file_server.Prelude.Int.{ℤ, pos, negsuc, eq_ℤ, ◌+ℤ◌}
use file_server.Database.Tables.{
  Bytes, FileInfo, Rows, uploading, is_uploading, keep, file_answer, file_matches, update_matches,
  affected_rows, changes,
}
use file_server.Database.Reliable.{reliable, reliable-MysqlLaws}
use file_server.Database.Laws.{Among}
use file_server.Database.FileDao
use file_server.Database.Confirm.{Bounded}
use file_server.Services.Filename.{Tm}
use file_server.Services.FileService.{Server, upload_data, upload_finalize, download_chunk, delete}
use file_server.Services.FileService.Ownership.{NotOwned, Same, foreign_refused}
use file_server.Services.FileService.Uploads.{Uploaded, NotUploaded, upload_data_lem}
use file_server.Services.FileService.Finalize.{Finalized, NotFinal, upload_finalize_lem}
use file_server.Services.ChunkRpc.{
  ChunkArgs, confirm_upload_chunk, finalize, finalize_of, finishable, reports,
}
use file_server.Services.ChunkRpc.Progress.{confirm_rpc-Bounded}
use file_server.Examples.Disks.{open_os, root, no_files}

-- The file 5 of the user 1, 10 bytes long, of which 4 have come; the file 6 has come in whole.
abbrev half : FileInfo
half = record {
  id = pos 5;
  user_id = pos 1;
  filename = b'a' ∷ [];
  filepath = b'1' ∷ b'/' ∷ b'a' ∷ [];
  filesize = pos 10;
  upload_size = pos 4;
  md5 = [];
  status = uploading;
  create_time = [];
}

abbrev whole : FileInfo
whole = record half { id = pos 6; upload_size = pos 10 }

abbrev one_byte : Bytes
one_byte = 9 ∷ []

abbrev rows : Rows
rows = record { users = []; files = whole ∷ half ∷ [] }

abbrev db : reliable.Db
unfolding reliable
db = rows

abbrev server : Server reliable.Db
server = record { db = db; disk = no_files }

others : NotOwned (pos 5) (pos 2) (reliable.rows server.db)
unfolding reliable
others = (refl, (refl, tt))

foreign_refused_example :
    let s₁ = upload_data reliable open_os root (pos 5) (pos 2) (9 ∷ []) (pos 4) server in
    let s₂ = upload_finalize reliable open_os root (pos 5) (pos 2) server in
    let s₃ = download_chunk reliable open_os root (pos 5) (pos 2) (pos 4) 8 server in
    let s₄ = delete reliable open_os root (pos 5) (pos 2) server in
    ((s₁.0 ≡ negsuc 0) × Same reliable open_os root (pos 5) (pos 2) server s₁.1)
    × ((s₂.0 ≡ false) × Same reliable open_os root (pos 5) (pos 2) server s₂.1)
    × ((s₃.0 ≡ some []) × Same reliable open_os root (pos 5) (pos 2) server s₃.1)
    × ((s₄.0 ≡ false) × Same reliable open_os root (pos 5) (pos 2) server s₄.1)
foreign_refused_example =
    foreign_refused reliable open_os root (pos 5) (pos 2) reliable-MysqlLaws (9 ∷ []) (pos 4) 8
      server others

upload_data_lem_example :
    let r = upload_data reliable open_os root (pos 5) (pos 1) (9 ∷ []) (pos 4) server in
    ((r.0 ≡ negsuc 0)
      × (reliable.rows r.1.db ≡ reliable.rows server.db)
      × NotUploaded reliable open_os root (pos 5) (pos 1) (9 ∷ []) (pos 4) server r.1)
    ⊎ ((info : FileInfo) × Among (λ f. eq_ℤ f.id (pos 5)) info (reliable.rows server.db).files
        × (info.user_id ≡ pos 1)
        × (is_uploading info ≡ true)
        × (k : ℕ) × (pos 4 ≡ pos k)
        × (r.0 ≡ pos (length one_byte))
        × Uploaded reliable open_os root (pos 5) (pos 1) (9 ∷ []) k info server r.1)
upload_data_lem_example =
    upload_data_lem reliable open_os root (pos 5) (pos 1) reliable-MysqlLaws (9 ∷ []) (pos 4) server

upload_finalize_lem_example :
    let r = upload_finalize reliable open_os root (pos 6) (pos 1) server in
    (r.1.disk ≡ server.disk)
    × (((r.0 ≡ false)
          × (reliable.rows r.1.db ≡ reliable.rows server.db)
          × NotFinal reliable open_os root (pos 6) (pos 1) server)
        ⊎ ((info : FileInfo) × Among (λ f. eq_ℤ f.id (pos 6)) info (reliable.rows server.db).files
            × (info.user_id ≡ pos 1)
            × (r.0 ≡ true)
            × Finalized reliable open_os root (pos 6) (pos 1) info server r.1))
upload_finalize_lem_example =
    upload_finalize_lem reliable open_os root (pos 6) (pos 1) reliable-MysqlLaws server

abbrev noon : Tm
noon = record { tm_year = 125; tm_mon = 0; tm_mday = 2; tm_hour = 12; tm_min = 0; tm_sec = 0 }

abbrev next_chunk : ChunkArgs
next_chunk = record { file_id = pos 5; user_id = pos 1; offset = pos 4; size = pos 6 }

rows-Bounded : All Bounded (reliable.rows db).files
unfolding reliable
rows-Bounded = ((omega arith, omega arith), ((omega arith, omega arith), tt))

confirm_rpc-Bounded_example :
    All Bounded (reliable.rows (confirm_upload_chunk reliable next_chunk db).1).files
confirm_rpc-Bounded_example =
    confirm_rpc-Bounded reliable reliable-MysqlLaws next_chunk db rows-Bounded

confirmed : (FileDao.confirm_upload_chunk reliable (pos 5) (pos 1) (pos 4) (pos 6) db).0 ≡ true
unfolding reliable FileDao.confirm_upload_chunk FileDao.confirm_result affected_rows update_matches
    changes ◌+ℤ◌
confirmed = refl

-- The storage service says that every file has 10 bytes.
abbrev says_ten : Bytes → Option ℤ
says_ten path = some (pos 10)

finalized : (finalize reliable says_ten (pos 6) (pos 1) db).0 ≡ true
unfolding reliable finalize finalize_of finishable reports FileDao.find_by_id FileDao.update_status
    file_answer file_matches keep
finalized = refl
