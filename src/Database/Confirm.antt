-- ===== src/Database/Confirm.antt =====
-- database/file_dao.cc, `ConfirmUploadChunk`: the progress of an upload grows by whole chunks, from the
-- front, and never passes the size of the file.
use file_server.Prelude.{
  ◌≡◌, refl, ap, sym, subst, ◌∙◌, ◌⊎◌, inl, inr, ℕ, suc, ◌==◌, ==_iff, Bool, true, false, ◌&&◌,
  Option, none, some, List, [], ◌∷◌, All, arith, Bool-cases, if◌then◌else◌,
}
use file_server.Prelude.Int.{ℤ, pos, eq_ℤ, leb_ℤ, ◌≤ℤ◌, ◌+ℤ◌}
use file_server.Database.{Mysql, MysqlLaws, Result, done, failed}
use file_server.Database.Tables.{
  FileInfo, confirm_prefix, is_uploading, update_rows, update_row, update_matches, affected_rows,
}
use file_server.Database.FileDao
use file_server.Database.Laws.{Among, here, there, Among-test, find_by_id_lem}

-- The progress is inside the file.
abbrev pub Bounded : FileInfo → Type 0
Bounded f = (pos 0 ≤ℤ f.upload_size) × (f.upload_size ≤ℤ f.filesize)

-- The user's upload of that id has come as far as `end`.
abbrev pub covers : ℤ → ℤ → ℤ → FileInfo → Bool
covers end id user_id f =
    eq_ℤ f.id id && (eq_ℤ f.user_id user_id && (is_uploading f && leb_ℤ end f.upload_size))

Among-also :
    {A : Type 0} {p : A → Bool} (q : A → Bool) {x : A} {xs : List A}
    → Among p x xs
    → q x ≡ true
    → Among q x xs
Among-also q (here h) e = here e
Among-also q (there a) e = there (Among-also q a e)

module _ (end id user_id offset : ℤ) where
  abbrev updated : FileInfo → FileInfo
  updated f =
      if update_matches (confirm_prefix end id user_id offset) f
      then update_row (confirm_prefix end id user_id offset) f
      else f

  updated-covers :
      (f : FileInfo)
      → update_matches (confirm_prefix end id user_id offset) f ≡ true
      → covers end id user_id (updated f) ≡ true
  unfolding update_matches update_row
  updated-covers f h = ground arith

  updated-Bounded : (f : FileInfo) → pos 0 ≤ℤ end → Bounded f → Bounded (updated f)
  unfolding update_matches update_row
  updated-Bounded f h (low, high) = ground arith

  affected_covers :
      (fs : List FileInfo) (n : ℕ)
      → affected_rows (confirm_prefix end id user_id offset) fs ≡ suc n
      → (f : FileInfo) × Among
          (covers end id user_id)
          f
          (update_rows (confirm_prefix end id user_id offset) fs)
  unfolding affected_rows update_rows
  affected_covers [] n e = absurd (ground arith)
  affected_covers (f ∷ fs) n e =
      elim (Bool-cases (update_matches (confirm_prefix end id user_id offset) f)) [
        | inl matches ↦ (_, here (updated-covers f matches))
        | inr other ↦ let (g, among) = affected_covers fs n (ground (arith, e)) in (g, there among)
      ]

  update_rows-Bounded :
      (fs : List FileInfo)
      → pos 0 ≤ℤ end
      → All Bounded fs
      → All Bounded (update_rows (confirm_prefix end id user_id offset) fs)
  unfolding update_rows
  update_rows-Bounded [] h all = tt
  update_rows-Bounded (f ∷ fs) h (bounded, all) =
      (updated-Bounded f h bounded, update_rows-Bounded fs h all)

module _ (mysql : Mysql) (laws : MysqlLaws mysql) (id user_id offset size : ℤ) where
  open mysql use {Db, rows}

  abbrev Covered : Db → Type 0
  Covered db = (f : FileInfo) × Among (covers (offset +ℤ size) id user_id) f (rows db).files

  confirmed_before_lem :
      (found : Option FileInfo) (db : Db)
      → FileDao.confirmed_before user_id (offset +ℤ size) found ≡ true
      → (found ≡ none)
        ⊎ ((f : FileInfo) × (found ≡ some f) × Among (λ g. eq_ℤ g.id id) f (rows db).files)
      → Covered db
  confirmed_before_lem none db e found = absurd (cc)
  confirmed_before_lem (some f) db e (inl nothing) = absurd (cc)
  confirmed_before_lem (some f) db e (inr (g, is_g, among)) =
      let same : f ≡ g = cc in
      let by_id = Among-test among in
      let test : FileDao.confirmed_before user_id (offset +ℤ size) (some g) ≡ true =
        subst (λ h. FileDao.confirmed_before user_id (offset +ℤ size) (some h) ≡ true) same e in
      (g, Among-also (covers (offset +ℤ size) id user_id) among (ground arith))

  -- Behind an update that changed some other number of rows.
  abbrev again : Db → Bool × Db
  again db =
      let (found, db') = FileDao.find_by_id mysql id db in
      (FileDao.confirmed_before user_id (offset +ℤ size) found, db')

  again_lem : (db : Db) → (again db).0 ≡ true → Covered (again db).1
  again_lem db e =
      let (same, found) = find_by_id_lem mysql laws id db in
      let (f, among) = confirmed_before_lem _ db e found in
      (f, subst (λ r. Among (covers (offset +ℤ size) id user_id) f r.files) (sym same) among)

  confirm_result-one :
      (db : Db) → FileDao.confirm_result mysql id user_id (offset +ℤ size) (done 1) db ≡ (true, db)
  unfolding FileDao.confirm_result
  confirm_result-one db = ground arith

  confirm_result-other :
      (n : ℕ) (db : Db)
      → (n == 1) ≡ false
      → FileDao.confirm_result mysql id user_id (offset +ℤ size) (done n) db ≡ again db
  unfolding FileDao.confirm_result
  confirm_result-other n db h = ground arith

  abbrev Sound : Bool × Db → Type 0
  Sound (ok, db) = ok ≡ true → Covered db

  confirm_result-Sound :
      (n : ℕ) (db : Db)
      → (n ≡ 1 → Covered db)
      → Sound (FileDao.confirm_result mysql id user_id (offset +ℤ size) (done n) db)
  confirm_result-Sound n db h = elim (Bool-cases (n == 1)) [
    | inl one ↦
        let is_one = (==_iff n 1).0 one in
        subst (λ m. Sound (FileDao.confirm_result mysql id user_id (offset +ℤ size) (done m) db))
          (sym is_one) (subst Sound (sym (confirm_result-one db)) (λ _. h is_one))
    | inr other ↦ subst Sound (sym (confirm_result-other n db other)) (again_lem db)
  ]

  confirm_upload_chunk-Sound :
      (db : Db) → Sound (FileDao.confirm_upload_chunk mysql id user_id offset size db)
  unfolding FileDao.confirm_upload_chunk
  confirm_upload_chunk-Sound db =
      let end = offset +ℤ size in
      let db' = (mysql.update_files (confirm_prefix end id user_id offset) db).1 in
      elim (laws.update_files_law (confirm_prefix end id user_id offset) db) [
        | inl (stage, fails, same) ↦
            subst (λ r. Sound (FileDao.confirm_result mysql id user_id end r db')) (sym fails)
              (λ e. absurd (cc))
        | inr (counted, made) ↦
            subst (λ r. Sound (FileDao.confirm_result mysql id user_id end r db')) (sym counted)
              (confirm_result-Sound _ db' (λ one.
                let (f, among) = affected_covers end id user_id offset (rows db).files 0 one in
                (f, subst (λ r. Among (covers end id user_id) f r.files) (sym made) among)))
      ]

  -- Where `ConfirmUploadChunk` answers true, a row of that id is an upload of that user whose
  -- progress is at least the end of the chunk. The database keeps `MysqlLaws`.
  pub confirm_upload_chunk-true :
      (db : Db)
      → (FileDao.confirm_upload_chunk mysql id user_id offset size db).0 ≡ true
      → (f : FileInfo) × Among
          (covers (offset +ℤ size) id user_id)
          f
          (rows (FileDao.confirm_upload_chunk mysql id user_id offset size db).1).files
  confirm_upload_chunk-true db e = confirm_upload_chunk-Sound db e

  confirm_result_rows :
      (r : Result ℕ) (db : Db)
      → rows (FileDao.confirm_result mysql id user_id (offset +ℤ size) r db).1 ≡ rows db
  unfolding FileDao.confirm_result
  confirm_result_rows (failed stage) db = refl
  confirm_result_rows (done n) db = elim (Bool-cases (n == 1)) [
    | inl one ↦ ground arith
    | inr other ↦
        ap (λ r. rows r.1) (confirm_result-other n db other) ∙ (find_by_id_lem mysql laws id db).0
  ]

  -- Whatever a confirmation does, the progress of every file stays between 0 and its size.
  pub confirm_upload_chunk-Bounded :
      (db : Db)
      → pos 0 ≤ℤ offset +ℤ size
      → All Bounded (rows db).files
      → All Bounded (rows (FileDao.confirm_upload_chunk mysql id user_id offset size db).1).files
  unfolding FileDao.confirm_upload_chunk
  confirm_upload_chunk-Bounded db h all =
      let end = offset +ℤ size in
      let update = confirm_prefix end id user_id offset in
      subst (λ r. All Bounded r.files)
        (sym
          (confirm_result_rows (mysql.update_files update db).0 (mysql.update_files update db).1))
        (elim (laws.update_files_law update db) [
          | inl (stage, fails, same) ↦ subst (λ r. All Bounded r.files) (sym same) all
          | inr (counted, made) ↦
              subst (λ r. All Bounded r.files) (sym made)
                (update_rows-Bounded end id user_id offset (rows db).files h all)
        ])
