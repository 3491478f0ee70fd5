-- ===== src/Services/FileService/Ownership.antt =====
-- services/file_service.cc: what a user can do with the file of another.
use file_server.Prelude.{
  ◌≡◌, refl, ap, sym, subst, ◌∙◌, inl, inr, ℕ, false, ◌&&◌, Option, none, some, [], All, arith,
}
use file_server.Prelude.Int.{ℤ, negsuc, eq_ℤ}
use file_server.Database.{Mysql, MysqlLaws}
use file_server.Database.Tables.{Bytes, FileInfo, Rows}
use file_server.Database.FileDao
use file_server.Database.Laws.{Among-test, Among-All, find_by_id_lem}
use file_server.Storage.{Os}
use file_server.Services.FileService.{
  Server, owned_by, upload_data, upload_data_of, upload_finalize, upload_finalize_of,
  download_chunk, download_chunk_of, delete, delete_of,
}

-- No row has the id and the owner at once.
abbrev pub NotOwned : ℤ → ℤ → Rows → Type 0
NotOwned file_id user_id rows =
    All (λ f. (eq_ℤ f.id file_id && eq_ℤ f.user_id user_id) ≡ false) rows.files

-- What the search for the row answers then.
abbrev Refusable : ℤ → Option FileInfo → Type 0
Refusable user_id none = Unit {0}
Refusable user_id (some info) = owned_by user_id info ≡ false

module _ (mysql : Mysql) (os : Os) (base : Bytes) (file_id user_id : ℤ) where
  open mysql use {Db, rows}

  upload_data_of_refused :
      (bytes : Bytes) (offset : ℤ) (info : Option FileInfo) (s : Server Db)
      → Refusable user_id info
      → upload_data_of mysql os base file_id user_id bytes offset info s ≡ (negsuc 0, s)
  unfolding upload_data_of
  upload_data_of_refused bytes offset none s h = refl
  upload_data_of_refused bytes offset (some info) s h = ground arith

  upload_finalize_of_refused :
      (info : Option FileInfo) (s : Server Db)
      → Refusable user_id info
      → upload_finalize_of mysql os base file_id user_id info s ≡ (false, s)
  unfolding upload_finalize_of
  upload_finalize_of_refused none s h = refl
  upload_finalize_of_refused (some info) s h = ground arith

  download_chunk_of_refused :
      (offset : ℤ) (size : ℕ) (info : Option FileInfo) (s : Server Db)
      → Refusable user_id info
      → download_chunk_of mysql os base user_id offset size info s ≡ some []
  unfolding download_chunk_of
  download_chunk_of_refused offset size none s h = refl
  download_chunk_of_refused offset size (some info) s h = ground arith

  delete_of_refused :
      (info : Option FileInfo) (s : Server Db)
      → Refusable user_id info
      → delete_of mysql os base file_id user_id info s ≡ (false, s)
  unfolding delete_of
  delete_of_refused none s h = refl
  delete_of_refused (some info) s h = ground arith

  -- The rows and the disk stay as they are.
  abbrev pub Same : Server Db → Server Db → Type 0
  Same s s' = (rows s'.db ≡ rows s.db) × (s'.disk ≡ s.disk)

  Same-answer :
      {A : Type 0} {a : A} (r : A × Server Db) (s s₁ : Server Db)
      → Same s s₁
      → r ≡ (a, s₁)
      → (r.0 ≡ a) × Same s r.1
  Same-answer r s s₁ (db, disk) e =
      (ap (λ p. p.0) e, (ap (λ p. rows p.1.db) e ∙ db, ap (λ p. p.1.disk) e ∙ disk))

  module _ (laws : MysqlLaws mysql) where
    find-Refusable :
        (db : Db)
        → NotOwned file_id user_id (rows db)
        → Refusable user_id (FileDao.find_by_id mysql file_id db).0
    find-Refusable db others = elim (find_by_id_lem mysql laws file_id db).1 [
      | inl none_found ↦ subst (Refusable user_id) (sym none_found) tt
      | inr (info, found, among) ↦
          let test = Among-test among in
          let other = Among-All _ among others in
          subst (Refusable user_id) (sym found) (ground arith)
    ]

    -- An upload of data, the end of an upload and a deletion answer with their error, and a
    -- download with no bytes, for a file that does not exist or that another user owns; no row and
    -- no byte of the disk changes, whether the database answers or not. The database keeps
    -- `MysqlLaws`.
    pub foreign_refused :
        (bytes : Bytes) (offset : ℤ) (size : ℕ) (s : Server Db)
        → NotOwned file_id user_id (rows s.db)
        → let (written, s₁) = upload_data mysql os base file_id user_id bytes offset s in
          let (finished, s₂) = upload_finalize mysql os base file_id user_id s in
          let (chunk, s₃) = download_chunk mysql os base file_id user_id offset size s in
          let (gone, s₄) = delete mysql os base file_id user_id s in
          ((written ≡ negsuc 0) × Same s s₁)
          × ((finished ≡ false) × Same s s₂)
          × ((chunk ≡ some []) × Same s s₃)
          × ((gone ≡ false) × Same s s₄)
    unfolding upload_data upload_finalize download_chunk delete
    foreign_refused bytes offset size s others =
        let same : Same s (record s { db = (FileDao.find_by_id mysql file_id s.db).1 }) =
          ((find_by_id_lem mysql laws file_id s.db).0, refl) in
        let h = find-Refusable s.db others in
        (
          Same-answer _ s _ same (upload_data_of_refused bytes offset _ _ h),
          Same-answer _ s _ same (upload_finalize_of_refused _ _ h),
          (download_chunk_of_refused offset size _ s h, same),
          Same-answer _ s _ same (delete_of_refused _ _ h),
        )
