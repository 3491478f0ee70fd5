-- ===== src/Services/FileService/Finalize.antt =====
-- services/file_service.cc: what the end of an upload checks and records.
use file_server.Prelude.{
  ◌≡◌, refl, sym, subst, ◌⊎◌, inl, inr, Bool, true, false, Option, none, some, arith, Bool-cases,
}
use file_server.Prelude.Int.{ℤ, eq_ℤ, eq_ℤ_iff, ltb_ℤ}
use file_server.Database.{Mysql, MysqlLaws}
use file_server.Database.Tables.{
  Bytes, FileInfo, by_file_id, set_upload_size, set_status, completed,
}
use file_server.Database.FileDao
use file_server.Database.Laws.{
  found_Among, Among, NoFile, Attempted, find_by_id_lem, find_by_id-none,
  update_upload_size-Attempted, update_status-Attempted,
}
use file_server.Storage.{Os, get_file_size}
use file_server.Services.FileService.{Server, owned_by, upload_finalize, upload_finalize_of}

module _ (mysql : Mysql) (os : Os) (base : Bytes) (file_id user_id : ℤ) where
  open mysql use {Db, rows}

  -- Too few bytes of the file are on the disk.
  abbrev pub IsShort : FileInfo → Server Db → Type 0
  IsShort info s = ltb_ℤ (get_file_size os base info.filepath s.disk) info.filesize ≡ true

  -- The row is another user's, or too few bytes of the file are on the disk.
  abbrev Unfit : FileInfo → Server Db → Type 0
  Unfit info s = (eq_ℤ info.user_id user_id ≡ false) ⊎ IsShort info s

  -- Why an upload cannot end.
  abbrev pub NotFinal : Server Db → Type 0
  NotFinal s =
      NoFile mysql (by_file_id file_id) s.db
      ⊎ ((info : FileInfo) × Among (λ f. eq_ℤ f.id file_id) info (rows s.db).files
          × ((eq_ℤ info.user_id user_id ≡ false) ⊎ IsShort info s))

  -- The disk holds as many bytes of the file as it should have. The status is set in the state that the
  -- search left, and the size in the state behind that.
  abbrev pub Finalized : FileInfo → Server Db → Server Db → Type 0
  Finalized info s s' =
      let db₀ = (FileDao.find_by_id mysql file_id s.db).1 in
      let db₁ = (FileDao.update_status mysql file_id completed db₀).1 in
      (ltb_ℤ (get_file_size os base info.filepath s.disk) info.filesize ≡ false)
      × (rows db₀ ≡ rows s.db)
      × Attempted mysql (set_status completed file_id) db₀ (rows db₁)
      × Attempted mysql (set_upload_size info.filesize file_id) db₁ (rows s'.db)

  module _ (laws : MysqlLaws mysql) where
    upload_finalize_of-full :
        (info : FileInfo) (s : Server Db)
        → owned_by user_id info ≡ true
        → ltb_ℤ (get_file_size os base info.filepath s.disk) info.filesize ≡ false
        → let db₁ = (FileDao.update_status mysql file_id completed s.db).1 in
          upload_finalize_of mysql os base file_id user_id (some info) s
          ≡ (true, record s { db = (FileDao.update_upload_size mysql file_id info.filesize db₁).1 })
    unfolding upload_finalize_of
    upload_finalize_of-full info s own full = ground arith

    upload_finalize_of-Unfit :
        (info : FileInfo) (s : Server Db)
        → Unfit info s
        → upload_finalize_of mysql os base file_id user_id (some info) s ≡ (false, s)
    unfolding upload_finalize_of
    upload_finalize_of-Unfit info s (inl foreign) = ground arith
    upload_finalize_of-Unfit info s (inr short) = ground arith

    -- The search leaves a state of the database, in which the rest goes on.
    Ended : Option FileInfo → Server Db → Bool × Server Db → Type 0
    Ended found s (ok, s') =
        (s'.disk ≡ s.disk)
        × (((ok ≡ false)
              × (rows s'.db ≡ rows s.db)
              × ((found ≡ none) ⊎ ((info : FileInfo) × (found ≡ some info) × Unfit info s)))
            ⊎ ((info : FileInfo) × (found ≡ some info)
                × (info.user_id ≡ user_id)
                × (ok ≡ true)
                × Finalized info s s'))

    upload_finalize_of_lem :
        (found : Option FileInfo) (s : Server Db)
        → let db₀ = (FileDao.find_by_id mysql file_id s.db).1 in
          rows db₀ ≡ rows s.db
          → Ended found s
              (upload_finalize_of mysql os base file_id user_id found (record s { db = db₀ }))
    unfolding Ended
    upload_finalize_of_lem none s same =
        unfold upload_finalize_of in (refl, inl (refl, same, inl refl))
    upload_finalize_of_lem (some info) s same =
        let s₀ : Server Db = record s { db = (FileDao.find_by_id mysql file_id s.db).1 } in
        let refused : Unfit info s
            → Ended (some info) s
                (upload_finalize_of mysql os base file_id user_id (some info) s₀) =
          λ why.
            subst (Ended (some info) s) (sym (upload_finalize_of-Unfit info s₀ why))
              (refl, inl (refl, same, inr (info, refl, why))) in
        elim (Bool-cases (owned_by user_id info)) [
          | inr foreign ↦ refused (inl foreign)
          | inl own ↦
              elim (Bool-cases (ltb_ℤ (get_file_size os base info.filepath s.disk) info.filesize)) [
                | inl short ↦ refused (inr short)
                | inr full ↦
                    let db₁ = (FileDao.update_status mysql file_id completed s₀.db).1 in
                    subst (Ended (some info) s) (sym (upload_finalize_of-full info s₀ own full)) (
                      refl,
                      inr (
                        info,
                        refl,
                        (eq_ℤ_iff info.user_id user_id).0 own,
                        refl,
                        (
                          full,
                          same,
                          update_status-Attempted mysql laws file_id completed s₀.db,
                          update_upload_size-Attempted mysql laws file_id info.filesize db₁,
                        ),
                      ),
                    )
              ]
        ]

    -- `UploadFinalize` leaves the disk as it is. It answers false and changes no row only where the
    -- search for the row fails or there is none, the row is another user's, or its path on the disk has
    -- less than the announced size. Otherwise it answers true: the file is marked as completed, and then
    -- its progress is set to its size, each one where the server does not refuse the statement. The
    -- database keeps `MysqlLaws`.
    pub upload_finalize_lem :
        (s : Server Db)
        → let (ok, s') = upload_finalize mysql os base file_id user_id s in
          (s'.disk ≡ s.disk)
          × (((ok ≡ false) × (rows s'.db ≡ rows s.db) × NotFinal s)
              ⊎ ((info : FileInfo) × Among (λ f. eq_ℤ f.id file_id) info (rows s.db).files
                  × (info.user_id ≡ user_id)
                  × (ok ≡ true)
                  × Finalized info s s'))
    unfolding upload_finalize Ended
    upload_finalize_lem s =
        let (same, found) = find_by_id_lem mysql laws file_id s.db in
        let (disk, outcome) =
          upload_finalize_of_lem (FileDao.find_by_id mysql file_id s.db).0 s same in
        (
          disk,
          elim outcome [
            | inl (ok, kept, inl nothing) ↦
                inl (ok, kept, inl (find_by_id-none mysql laws file_id s.db nothing))
            | inl (ok, kept, inr (info, is_info, why)) ↦
                inl (ok, kept, inr (info, found_Among info is_info found, why))
            | inr (info, is_info, owner, ok, effect) ↦
                inr (info, found_Among info is_info found, owner, ok, effect)
          ],
        )
