-- ===== src/Database/Tables.antt =====
-- The rows of the two tables, and what the SQL statements of the program select and change.
use file_server.Prelude.{ℕ, ◌+◌, Bool, not, ◌&&◌, List, [], ◌∷◌, map, take, if◌then◌else◌}
use file_server.Prelude.Int.{ℤ, pos, eq_ℤ, leb_ℤ}

abbrev pub Bytes : Type 0
Bytes = List ℕ

-- database/user.h
pub record User : Type 0 where
  pub id : ℤ
  pub username : Bytes
  pub password : Bytes
  pub token : Bytes
  pub create_time : Bytes

-- database/file_info.h
pub record FileInfo : Type 0 where
  pub id : ℤ
  pub user_id : ℤ
  pub filename : Bytes
  pub filepath : Bytes
  pub filesize : ℤ
  pub upload_size : ℤ
  pub md5 : Bytes
  pub status : ℤ
  pub create_time : Bytes

-- The values of the column `status`.
abbrev pub uploading : ℤ
uploading = pos 0

abbrev pub completed : ℤ
completed = pos 1

abbrev pub deleted : ℤ
deleted = pos 2

abbrev pub is_uploading : FileInfo → Bool
is_uploading f = eq_ℤ f.status uploading

abbrev pub is_completed : FileInfo → Bool
is_completed f = eq_ℤ f.status completed

abbrev pub is_deleted : FileInfo → Bool
is_deleted f = eq_ℤ f.status deleted

-- The rows, the highest id first.
pub record Rows : Type 0 where
  pub users : List User
  pub files : List FileInfo

-- `WHERE username = ?`, `WHERE id = ?`, `WHERE token = ? AND token != ''`
pub data UserQuery : Type 0 where
  by_username : Bytes → UserQuery
  by_user_id : ℤ → UserQuery
  by_token : Bytes → UserQuery

-- `WHERE id = ?`, `WHERE user_id = ? AND status != 2 ORDER BY id DESC`, and
-- `WHERE user_id = ? AND filename = ? AND filesize = ? AND md5 = ? AND status = 0 ORDER BY id DESC LIMIT 1`
pub data FileQuery : Type 0 where
  by_file_id : ℤ → FileQuery
  by_owner : ℤ → FileQuery
  incomplete : ℤ → Bytes → ℤ → Bytes → FileQuery

-- `SET upload_size = ? WHERE id = ?`, `SET status = ? WHERE id = ?`, and `SET upload_size = end WHERE
-- id = ? AND user_id = ? AND status = 0 AND upload_size = offset AND filesize >= end`
pub data FileUpdate : Type 0 where
  set_upload_size : ℤ → ℤ → FileUpdate
  set_status : ℤ → ℤ → FileUpdate
  confirm_prefix : ℤ → ℤ → ℤ → ℤ → FileUpdate

unfoldable pub keep {ℓ} : {A : Type ℓ} → (A → Bool) → List A → List A
keep p [] = []
keep p (x ∷ xs) = let rest = keep p xs in if p x then x ∷ rest else rest

module _ (collates : Bytes → Bytes → Bool) where
  unfoldable pub user_matches : UserQuery → User → Bool
  user_matches (by_username name) u = collates u.username name
  user_matches (by_user_id id) u = eq_ℤ u.id id
  user_matches (by_token token) u = collates u.token token && not (collates u.token [])

  unfoldable pub file_matches : FileQuery → FileInfo → Bool
  file_matches (by_file_id id) f = eq_ℤ f.id id
  file_matches (by_owner user_id) f = eq_ℤ f.user_id user_id && not (is_deleted f)
  file_matches (incomplete user_id filename filesize md5) f =
      eq_ℤ f.user_id user_id
      && (collates f.filename filename
          && (eq_ℤ f.filesize filesize && (collates f.md5 md5 && is_uploading f)))

  unfoldable pub user_answer : UserQuery → List User → List User
  unfolding user_matches keep
  user_answer q rows = keep (user_matches q) rows

  unfoldable pub file_answer : FileQuery → List FileInfo → List FileInfo
  unfolding file_matches keep
  file_answer (by_file_id id) rows = keep (file_matches (by_file_id id)) rows
  file_answer (by_owner user_id) rows = keep (file_matches (by_owner user_id)) rows
  file_answer (incomplete user_id filename filesize md5) rows =
      take 1 (keep (file_matches (incomplete user_id filename filesize md5)) rows)

-- The `WHERE` of an update, and its `SET` on one row.
unfoldable pub update_matches : FileUpdate → FileInfo → Bool
update_matches (set_upload_size size id) f = eq_ℤ f.id id
update_matches (set_status status id) f = eq_ℤ f.id id
update_matches (confirm_prefix end id user_id offset) f =
    eq_ℤ f.id id
    && (eq_ℤ f.user_id user_id
        && (is_uploading f && (eq_ℤ f.upload_size offset && leb_ℤ end f.filesize)))

unfoldable pub update_row : FileUpdate → FileInfo → FileInfo
update_row (set_upload_size size id) f = record f { upload_size = size }
update_row (set_status status id) f = record f { status = status }
update_row (confirm_prefix end id user_id offset) f = record f { upload_size = end }

unfoldable pub update_rows : FileUpdate → List FileInfo → List FileInfo
unfolding update_matches update_row
update_rows u = map (λ f. if update_matches u f then update_row u f else f)

-- `mysql_stmt_affected_rows` counts the rows that get another value.
unfoldable pub changes : FileUpdate → FileInfo → Bool
changes (set_upload_size size id) f = not (eq_ℤ f.upload_size size)
changes (set_status status id) f = not (eq_ℤ f.status status)
changes (confirm_prefix end id user_id offset) f = not (eq_ℤ f.upload_size end)

unfoldable pub affected_rows : FileUpdate → List FileInfo → ℕ
unfolding update_matches changes
affected_rows u [] = 0
affected_rows u (f ∷ fs) =
    if update_matches u f && changes u f then affected_rows u fs + 1 else affected_rows u fs

unfoldable pub set_token : ℤ → Bytes → List User → List User
set_token id token = map (λ u. if eq_ℤ u.id id then record u { token = token } else u)

-- The rows that the two inserts make: `NOW()` and the defaults of the schema give the time.
unfoldable pub new_file : FileInfo → ℤ → Bytes → FileInfo
new_file f id time = record f {
  id = id;
  upload_size = pos 0;
  status = uploading;
  create_time = time;
}

unfoldable pub new_user : User → ℤ → Bytes → User
new_user u id time = record u { id = id; create_time = time }
