-- ===== src/Database/FileDao.antt =====
-- database/file_dao.cc: the operations on the table `file_info`.
use file_server.Prelude.{
  ℕ, ◌==◌, Bool, true, false, ◌&&◌, Option, none, some, List, [], ◌∷◌, if◌then◌else◌,
}
use file_server.Prelude.Int.{ℤ, negsuc, ◌+ℤ◌, eq_ℤ, leb_ℤ}
use file_server.Database.{Mysql, Result, done, failed}
use file_server.Database.Tables.{
  Bytes, FileInfo, by_file_id, by_owner, incomplete, set_upload_size, set_status, confirm_prefix,
  is_uploading, deleted,
}

-- The first row of a result, where one is fetched.
abbrev pub first_row {ℓ} : {A : Type ℓ} → Result (List A) → Option A
first_row (done []) = none
first_row (done (x ∷ xs)) = some x
first_row (failed stage) = none

abbrev pub all_rows {ℓ} : {A : Type ℓ} → Result (List A) → List A
all_rows (done xs) = xs
all_rows (failed stage) = []

abbrev pub succeeded {ℓ} : {A : Type ℓ} → Result A → Bool
succeeded (done a) = true
succeeded (failed stage) = false

-- `Insert`
abbrev pub inserted_id : Result ℤ → ℤ
inserted_id (done id) = id
inserted_id (failed stage) = negsuc 0

-- The row that shows that the range was confirmed before.
abbrev pub confirmed_before : ℤ → ℤ → Option FileInfo → Bool
confirmed_before user_id end none = false
confirmed_before user_id end (some info) =
    eq_ℤ info.user_id user_id && (is_uploading info && leb_ℤ end info.upload_size)

module _ (mysql : Mysql) where
  open mysql use {Db}

  unfoldable pub insert : FileInfo → Db → ℤ × Db
  insert file db = let (r, db') = mysql.insert_file file db in (inserted_id r, db')

  -- `FindById`: the failures are not checked one by one, but none lets a row be fetched.
  unfoldable pub find_by_id : ℤ → Db → Option FileInfo × Db
  find_by_id id db = let (r, db') = mysql.select_files (by_file_id id) db in (first_row r, db')

  -- `FindByUserId`
  unfoldable pub find_by_user_id : ℤ → Db → List FileInfo × Db
  find_by_user_id user_id db =
      let (r, db') = mysql.select_files (by_owner user_id) db in (all_rows r, db')

  -- `UpdateUploadSize`
  unfoldable pub update_upload_size : ℤ → ℤ → Db → Bool × Db
  update_upload_size id size db =
      let (r, db') = mysql.update_files (set_upload_size size id) db in (succeeded r, db')

  -- `UpdateStatus`
  unfoldable pub update_status : ℤ → ℤ → Db → Bool × Db
  update_status id status db =
      let (r, db') = mysql.update_files (set_status status id) db in (succeeded r, db')

  -- `SoftDelete`
  unfoldable pub soft_delete : ℤ → Db → Bool × Db
  unfolding update_status
  soft_delete id db = update_status id deleted db

  -- `FindIncompleteByKey`
  unfoldable pub find_incomplete_by_key : ℤ → Bytes → ℤ → Bytes → Db → Option FileInfo × Db
  find_incomplete_by_key user_id filename filesize md5 db =
      let (r, db') = mysql.select_files (incomplete user_id filename filesize md5) db in
      (first_row r, db')

  -- The part of `ConfirmUploadChunk` behind the update.
  unfoldable pub confirm_result : ℤ → ℤ → ℤ → Result ℕ → Db → Bool × Db
  unfolding find_by_id
  confirm_result id user_id end (failed stage) db = (false, db)
  confirm_result id user_id end (done changed) db =
      if changed == 1
      then (true, db)
      else (let (info, db') = find_by_id id db in (confirmed_before user_id end info, db'))

  -- `ConfirmUploadChunk`
  unfoldable pub confirm_upload_chunk : ℤ → ℤ → ℤ → ℤ → Db → Bool × Db
  unfolding confirm_result
  confirm_upload_chunk id user_id offset size db =
      let end = offset +ℤ size in
      let (r, db') = mysql.update_files (confirm_prefix end id user_id offset) db in
      confirm_result id user_id end r db'
