-- ===== src/Database/UserDao.antt =====
-- database/user_dao.cc: the operations on the table `user`.
use mathlib.Core.Option
use file_server.Prelude.{Bool, Option, [], ◌∷◌, ◌==◌, if◌then◌else◌}
use file_server.Prelude.Int.{ℤ, negsuc}
use file_server.Database.{Mysql, Result, done, failed, duplicate}
use file_server.Database.Tables.{Bytes, User, by_username, by_user_id, by_token}
use file_server.Database.FileDao.{first_row, succeeded}

-- The id, -2 for a duplicate username, and -1 for any other failure.
abbrev pub insert_result : Result ℤ → ℤ
insert_result (done id) = id
insert_result (failed duplicate) = negsuc 1
insert_result (failed stage) = negsuc 0

-- `user->password = pass_buf`: a text is copied from a buffer of characters, up to its first zero.
unfoldable pub c_text : Bytes → Bytes
c_text [] = []
c_text (b ∷ bs) = let rest = c_text bs in if b == 0 then [] else b ∷ rest

-- The user that is made of a row.
abbrev pub fetched : User → User
fetched u = record u {
  username = c_text u.username;
  password = c_text u.password;
  token = c_text u.token;
  create_time = c_text u.create_time;
}

module _ (mysql : Mysql) where
  open mysql use {Db}

  -- `Insert`
  unfoldable pub insert : User → Db → ℤ × Db
  insert user db = let (r, db') = mysql.insert_user user db in (insert_result r, db')

  -- `FindByUsername`
  unfoldable pub find_by_username : Bytes → Db → Option User × Db
  find_by_username username db =
      let (r, db') = mysql.select_users (by_username username) db in
      (Option.map fetched (first_row r), db')

  -- `FindById`
  unfoldable pub find_by_id : ℤ → Db → Option User × Db
  find_by_id id db =
      let (r, db') = mysql.select_users (by_user_id id) db in
      (Option.map fetched (first_row r), db')

  -- `UpdateToken`
  unfoldable pub update_token : ℤ → Bytes → Db → Bool × Db
  update_token id token db = let (r, db') = mysql.update_token id token db in (succeeded r, db')

  -- `FindByToken`
  unfoldable pub find_by_token : Bytes → Db → Option User × Db
  find_by_token token db =
      let (r, db') = mysql.select_users (by_token token) db in
      (Option.map fetched (first_row r), db')
