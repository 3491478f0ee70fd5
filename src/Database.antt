-- ===== src/Database.antt =====
-- database/user.h, database/file_info.h and the SQL statements of the data access objects. The MySQL
-- client library and its server are an interface: what they hold, and how a statement ends.
pub mod Pool
pub mod Tables
pub mod Reliable
pub mod FileDao
pub mod UserDao
pub mod Laws
pub mod Confirm
use file_server.Prelude.{ℕ, suc, ◌≡◌, ◌⊎◌, Bool, true, List, [], ◌∷◌, All}
use file_server.Prelude.Int.{ℤ, pos, ◌<ℤ◌}
use Tables.{
  Bytes, User, FileInfo, Rows, UserQuery, by_username, FileQuery, FileUpdate, user_answer,
  file_answer, update_rows, affected_rows, set_token, new_file, new_user,
}

-- Where a chain of calls of the client library stops: no connection from the pool, no statement
-- handle, a refused `prepare`, `bind` or `execute`, or an `execute` with a duplicate key.
pub data Stage : Type 0 where
  connection statement prepare bind execute duplicate : Stage

pub data Result {ℓ} (A : Type ℓ) : Type ℓ where
  done : A → Result A
  failed : Stage → Result A

-- One function for each shape of statement: from the connection on to the last call that is checked.
pub record Mysql : Type 1 where
  pub Db : Type 0
  pub rows : Db → Rows
  -- Whether two texts are equal under the collation of the columns.
  pub collates : Bytes → Bytes → Bool
  pub select_users : UserQuery → Db → Result (List User) × Db
  pub select_files : FileQuery → Db → Result (List FileInfo) × Db
  pub insert_user : User → Db → Result ℤ × Db
  pub insert_file : FileInfo → Db → Result ℤ × Db
  pub update_token : ℤ → Bytes → Db → Result ℕ × Db
  pub update_files : FileUpdate → Db → Result ℕ × Db

-- What the server documents: a statement fails and changes nothing, or does what its SQL says. A new
-- row has an id above the others, and no user gets a name that collates with another's.
pub record MysqlLaws (mysql : Mysql) : Type 0 where
  pub collates_refl : (text : Bytes) → mysql.collates text text ≡ true
  pub select_users_law :
      (q : UserQuery) (db : mysql.Db)
      → let (r, db') = mysql.select_users q db in
        (mysql.rows db' ≡ mysql.rows db)
        × (((stage : Stage) × (r ≡ failed stage))
            ⊎ (r ≡ done (user_answer mysql.collates q (mysql.rows db).users)))
  pub select_files_law :
      (q : FileQuery) (db : mysql.Db)
      → let (r, db') = mysql.select_files q db in
        (mysql.rows db' ≡ mysql.rows db)
        × (((stage : Stage) × (r ≡ failed stage))
            ⊎ (r ≡ done (file_answer mysql.collates q (mysql.rows db).files)))
  pub insert_file_law :
      (f : FileInfo) (db : mysql.Db)
      → let (r, db') = mysql.insert_file f db in
        ((stage : Stage) × (r ≡ failed stage) × (mysql.rows db' ≡ mysql.rows db))
        ⊎ ((id : ℕ) × (time : Bytes) × (r ≡ done (pos (suc id)))
            × All (λ g. g.id <ℤ pos (suc id)) (mysql.rows db).files
            × (mysql.rows db' ≡ record (mysql.rows db) {
              files = new_file f (pos (suc id)) time ∷ (mysql.rows db).files;
            }))
  pub insert_user_law :
      (u : User) (db : mysql.Db)
      → let (r, db') = mysql.insert_user u db in
        ((stage : Stage) × (r ≡ failed stage) × (mysql.rows db' ≡ mysql.rows db))
        ⊎ ((id : ℕ) × (time : Bytes) × (r ≡ done (pos (suc id)))
            × All (λ v. v.id <ℤ pos (suc id)) (mysql.rows db).users
            × (user_answer mysql.collates (by_username u.username) (mysql.rows db).users ≡ [])
            × (mysql.rows db' ≡ record (mysql.rows db) {
              users = new_user u (pos (suc id)) time ∷ (mysql.rows db).users;
            }))
  pub update_token_law :
      (id : ℤ) (token : Bytes) (db : mysql.Db)
      → let (r, db') = mysql.update_token id token db in
        ((stage : Stage) × (r ≡ failed stage) × (mysql.rows db' ≡ mysql.rows db))
        ⊎ ((n : ℕ) × (r ≡ done n)
            × (mysql.rows db'
                ≡ record (mysql.rows db) { users = set_token id token (mysql.rows db).users }))
  pub update_files_law :
      (u : FileUpdate) (db : mysql.Db)
      → let (r, db') = mysql.update_files u db in
        ((stage : Stage) × (r ≡ failed stage) × (mysql.rows db' ≡ mysql.rows db))
        ⊎ ((r ≡ done (affected_rows u (mysql.rows db).files))
            × (mysql.rows db'
                ≡ record (mysql.rows db) { files = update_rows u (mysql.rows db).files }))
