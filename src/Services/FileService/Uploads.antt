-- ===== src/Services/FileService/Uploads.antt =====
-- services/file_service.cc: what an upload does to the rows and the disk, on every branch.
use file_server.Prelude.{
  ◌≡◌, refl, ap, ap₂, sym, subst, ◌⊎◌, inl, inr, ℕ, true, false, Option, none, some, arith, length,
  Bool-cases,
}
use file_server.Prelude.Int.{ℤ, pos, negsuc, eq_ℤ, eq_ℤ_iff, ◌+ℤ◌, max_ℤ}
use file_server.Database.{Mysql, MysqlLaws}
use file_server.Database.Tables.{Bytes, FileInfo, by_file_id, is_uploading, set_upload_size}
use file_server.Database.FileDao
use file_server.Database.Laws.{
  found_Among, Among, NoFile, Attempted, find_by_id_lem, find_by_id-none,
  update_upload_size-Attempted,
}
use file_server.Storage.{Os, Disk, get_absolute_path, write_at, write_chunk}
use file_server.Storage.Chunks.{content, write_chunk_ok}
use file_server.Services.FileService.{
  Server, owned_by, record_progress, upload_data, upload_data_of,
}

module _ (mysql : Mysql) (os : Os) (base : Bytes) (file_id user_id : ℤ) where
  open mysql use {Db, rows}

  -- The chunk is on the disk. The progress is set in the state that the search left.
  abbrev pub Uploaded : Bytes → ℕ → FileInfo → Server Db → Server Db → Type 0
  Uploaded bytes k info s s' =
      let path = get_absolute_path base info.filepath in
      let db₀ = (FileDao.find_by_id mysql file_id s.db).1 in
      (s'.disk.files path ≡ some (write_at (content (s.disk.files path)) k bytes))
      × (rows db₀ ≡ rows s.db)
      × Attempted mysql
          (set_upload_size (max_ℤ info.upload_size (pos k +ℤ pos (length bytes))) file_id) db₀
          (rows s'.db)

  -- The write fails, on a file of the user that is being uploaded; what it leaves is on the disk.
  abbrev pub WriteFails : Bytes → ℤ → FileInfo → Server Db → Server Db → Type 0
  WriteFails bytes offset info s s' =
      (info.user_id ≡ user_id)
      × (is_uploading info ≡ true)
      × (m : ℕ) × (write_chunk os base info.filepath bytes offset s.disk ≡ (negsuc m, s'.disk))

  -- The row is another user's, or not of an upload.
  abbrev pub Closed : FileInfo → Type 0
  Closed info = (eq_ℤ info.user_id user_id ≡ false) ⊎ (is_uploading info ≡ false)

  -- Why a chunk is refused.
  abbrev pub NotUploaded : Bytes → ℤ → Server Db → Server Db → Type 0
  NotUploaded bytes offset s s' =
      ((s'.disk ≡ s.disk) × NoFile mysql (by_file_id file_id) s.db)
      ⊎ ((info : FileInfo) × Among (λ f. eq_ℤ f.id file_id) info (rows s.db).files
          × (((s'.disk ≡ s.disk) × Closed info) ⊎ WriteFails bytes offset info s s'))

  -- The same by what the search found.
  Refused : Bytes → ℤ → Option FileInfo → ℤ → Server Db → Server Db → Type 0
  Refused bytes offset found n s s' =
      (n ≡ negsuc 0)
      × (rows s'.db ≡ rows s.db)
      × (((s'.disk ≡ s.disk) × (found ≡ none))
          ⊎ ((info : FileInfo) × (found ≡ some info)
              × (((s'.disk ≡ s.disk) × Closed info) ⊎ WriteFails bytes offset info s s')))

  Done : Bytes → ℤ → ℤ → FileInfo → Server Db → Server Db → Type 0
  Done bytes offset n info s s' =
      (k : ℕ) × (offset ≡ pos k) × (n ≡ pos (length bytes)) × Uploaded bytes k info s s'

  Outcome : Bytes → ℤ → Option FileInfo → Server Db → ℤ × Server Db → Type 0
  Outcome bytes offset found s (n, s') =
      Refused bytes offset found n s s'
      ⊎ ((info : FileInfo) × (found ≡ some info)
          × (info.user_id ≡ user_id)
          × (is_uploading info ≡ true)
          × Done bytes offset n info s s')

  record_progress-neg :
      (info : FileInfo) (offset : ℤ) (m : ℕ) (s : Server Db)
      → record_progress mysql os base file_id info offset (negsuc m) s ≡ (negsuc 0, s)
  unfolding record_progress
  record_progress-neg info offset m s = ground arith

  record_progress-pos :
      (info : FileInfo) (offset : ℤ) (n : ℕ) (s : Server Db)
      → record_progress mysql os base file_id info offset (pos n) s ≡ (
        pos n,
        record s {
          db =
              (FileDao.update_upload_size mysql file_id
                (max_ℤ info.upload_size (offset +ℤ pos n))
                s.db).1;
        },
      )
  unfolding record_progress
  record_progress-pos info offset n s = ground arith

  upload_data_of-Closed :
      (bytes : Bytes) (offset : ℤ) (info : FileInfo) (s : Server Db)
      → Closed info
      → upload_data_of mysql os base file_id user_id bytes offset (some info) s ≡ (negsuc 0, s)
  unfolding upload_data_of
  upload_data_of-Closed bytes offset info s (inl foreign) = ground arith
  upload_data_of-Closed bytes offset info s (inr closed) = ground arith

  upload_data_of-open :
      (bytes : Bytes) (offset : ℤ) (info : FileInfo) (s : Server Db)
      → owned_by user_id info ≡ true
      → is_uploading info ≡ true
      → let (w, disk') = write_chunk os base info.filepath bytes offset s.disk in
        upload_data_of mysql os base file_id user_id bytes offset (some info) s
        ≡ record_progress mysql os base file_id info offset w (record s { disk = disk' })
  unfolding upload_data_of
  upload_data_of-open bytes offset info s own open_file = ground arith

  module _ (laws : MysqlLaws mysql) (bytes : Bytes) (offset : ℤ) (s : Server Db)
      (same : rows (FileDao.find_by_id mysql file_id s.db).1 ≡ rows s.db) where
    abbrev searched : Server Db
    searched = record s { db = (FileDao.find_by_id mysql file_id s.db).1 }

    written_lem :
        (info : FileInfo) (w : ℤ) (disk' : Disk)
        → write_chunk os base info.filepath bytes offset s.disk ≡ (w, disk')
        → info.user_id ≡ user_id
        → is_uploading info ≡ true
        → Outcome bytes offset
            (some info)
            s
            (record_progress mysql os base file_id info offset w (record searched { disk = disk' }))
    unfolding Outcome Refused Done
    written_lem info (negsuc m) disk' e owner open_file =
        subst (Outcome bytes offset (some info) s)
          (sym (record_progress-neg info offset m (record searched { disk = disk' })))
          (inl (refl, same, inr (info, refl, inr (owner, open_file, m, e))))
    written_lem info (pos n) disk' e owner open_file =
        let (k, at_k, all, file, others) =
          write_chunk_ok os base info.filepath bytes offset s.disk n disk' e in
        let size = max_ℤ info.upload_size (offset +ℤ pos n) in
        let there : size ≡ max_ℤ info.upload_size (pos k +ℤ pos (length bytes)) =
          ap₂ (λ o m. max_ℤ info.upload_size (o +ℤ pos m)) at_k all in
        subst (Outcome bytes offset (some info) s)
          (sym (record_progress-pos info offset n (record searched { disk = disk' })))
          (inr (
            info,
            refl,
            owner,
            open_file,
            (
              k,
              at_k,
              ap pos all,
              (
                file,
                same,
                subst
                    (λ z.
                      Attempted mysql (set_upload_size z file_id) searched.db
                        (rows (FileDao.update_upload_size mysql file_id size searched.db).1))
                    there (update_upload_size-Attempted mysql laws file_id size searched.db),
              ),
            ),
          ))

    upload_data_of_lem :
        (found : Option FileInfo)
        → Outcome bytes offset found s
            (upload_data_of mysql os base file_id user_id bytes offset found searched)
    unfolding Outcome Refused
    upload_data_of_lem none = unfold upload_data_of in inl (refl, same, inl (refl, refl))
    upload_data_of_lem (some info) =
        let refused : Closed info
            → Outcome bytes offset (some info) s
                (upload_data_of mysql os base file_id user_id bytes offset (some info) searched) =
          λ why.
            subst (Outcome bytes offset (some info) s)
              (sym (upload_data_of-Closed bytes offset info searched why))
              (inl (refl, same, inr (info, refl, inl (refl, why)))) in
        elim (Bool-cases (owned_by user_id info)) [
          | inr foreign ↦ refused (inl foreign)
          | inl own ↦ elim (Bool-cases (is_uploading info)) [
            | inr closed ↦ refused (inr closed)
            | inl open_file ↦
                subst (Outcome bytes offset (some info) s)
                  (sym (upload_data_of-open bytes offset info searched own open_file))
                  (written_lem info _ _ refl ((eq_ℤ_iff info.user_id user_id).0 own) open_file)
          ]
        ]

  -- `UploadData` answers -1 and changes no row only where the search for the row fails or there is none,
  -- the row is another user's or not of an upload, and then the disk stays as it is, or where the write
  -- fails. Otherwise the file is the user's and is being uploaded, the answer is the size of the chunk, the
  -- chunk is on the disk at its offset over what the file held, and the progress of the file is set to
  -- the end of the chunk where that is further than before, unless the server refuses the statement. The
  -- database keeps `MysqlLaws`.
  pub upload_data_lem :
      (laws : MysqlLaws mysql) (bytes : Bytes) (offset : ℤ) (s : Server Db)
      → let (n, s') = upload_data mysql os base file_id user_id bytes offset s in
        ((n ≡ negsuc 0) × (rows s'.db ≡ rows s.db) × NotUploaded bytes offset s s')
        ⊎ ((info : FileInfo) × Among (λ f. eq_ℤ f.id file_id) info (rows s.db).files
            × (info.user_id ≡ user_id)
            × (is_uploading info ≡ true)
            × (k : ℕ) × (offset ≡ pos k)
            × (n ≡ pos (length bytes))
            × Uploaded bytes k info s s')
  unfolding upload_data Refused Done Outcome
  upload_data_lem laws bytes offset s =
      let (same, found) = find_by_id_lem mysql laws file_id s.db in
      elim (upload_data_of_lem laws bytes offset s same (FileDao.find_by_id mysql file_id s.db).0) [
        | inl (n, kept, inl (disk, nothing)) ↦
            inl (n, kept, inl (disk, find_by_id-none mysql laws file_id s.db nothing))
        | inl (n, kept, inr (info, is_info, why)) ↦
            inl (n, kept, inr (info, found_Among info is_info found, why))
        | inr (info, is_info, owner, status, (k, at_k, all, effect)) ↦
            inr (info, found_Among info is_info found, owner, status, k, at_k, all, effect)
      ]
