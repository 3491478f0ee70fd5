-- ===== src/Database/Reliable.antt =====
-- A database in memory that never fails: the assumptions on the server can be met.
use file_server.Prelude.{ℕ, suc, ◌≤◌, max, ◌≡◌, refl, ◌⊎◌, inl, inr, List, [], ◌∷◌, All, arith}
use file_server.Prelude.Int.{ℤ, pos, ◌<ℤ◌, pos_part}
use file_server.Prelude.Text.{same_text, same_text_refl}
use file_server.Database.{Mysql, MysqlLaws, Result, done, failed, Stage, duplicate}
use file_server.Database.Tables.{
  Bytes, User, FileInfo, Rows, by_username, user_answer, file_answer, update_rows, affected_rows,
  set_token, new_file, new_user,
}

max_file_id : List FileInfo → ℕ
max_file_id [] = 0
max_file_id (f ∷ fs) = max (pos_part f.id) (max_file_id fs)

max_user_id : List User → ℕ
max_user_id [] = 0
max_user_id (u ∷ us) = max (pos_part u.id) (max_user_id us)

below_file_ids :
    (fs : List FileInfo) (n : ℕ) → max_file_id fs ≤ n → All (λ f. f.id <ℤ pos (suc n)) fs
unfolding max_file_id
below_file_ids [] n h = tt
below_file_ids (f ∷ fs) n h = (omega arith, below_file_ids fs n (omega arith))

below_user_ids : (us : List User) (n : ℕ) → max_user_id us ≤ n → All (λ u. u.id <ℤ pos (suc n)) us
unfolding max_user_id
below_user_ids [] n h = tt
below_user_ids (u ∷ us) n h = (omega arith, below_user_ids us n (omega arith))

insert_unique : User → List User → Rows → Result ℤ × Rows
insert_unique u [] rows =
    let id = pos (suc (max_user_id rows.users)) in
    (done id, record rows { users = new_user u id [] ∷ rows.users })
insert_unique u (v ∷ vs) rows = (failed duplicate, rows)

unfoldable pub reliable : Mysql
unfolding insert_unique max_file_id max_user_id user_answer file_answer update_rows affected_rows
    set_token new_file new_user
reliable = record {
  Db = Rows;
  rows = λ db. db;
  collates = same_text;
  select_users = λ q db. (done (user_answer same_text q db.users), db);
  select_files = λ q db. (done (file_answer same_text q db.files), db);
  insert_user =
      λ u db. insert_unique u (user_answer same_text (by_username u.username) db.users) db;
  insert_file = λ f db.
      let id = pos (suc (max_file_id db.files)) in
      (done id, record db { files = new_file f id [] ∷ db.files });
  update_token = λ id token db. (done 1, record db { users = set_token id token db.users });
  update_files =
      λ u db. (done (affected_rows u db.files), record db { files = update_rows u db.files });
}

insert_unique_law :
    (u : User) (rows : Rows) (taken : List User)
    → user_answer same_text (by_username u.username) rows.users ≡ taken
    → let (r, rows') = insert_unique u taken rows in
      ((stage : Stage) × (r ≡ failed stage) × (rows' ≡ rows))
      ⊎ ((id : ℕ) × (time : Bytes) × (r ≡ done (pos (suc id)))
          × All (λ v. v.id <ℤ pos (suc id)) rows.users
          × (user_answer same_text (by_username u.username) rows.users ≡ [])
          × (rows' ≡ record rows { users = new_user u (pos (suc id)) time ∷ rows.users }))
unfolding insert_unique
insert_unique_law u rows [] e =
    inr (max_user_id rows.users, [], refl, below_user_ids rows.users _ (omega arith), e, refl)
insert_unique_law u rows (v ∷ vs) e = inl (duplicate, refl, refl)

pub reliable-MysqlLaws : MysqlLaws reliable
unfolding reliable
reliable-MysqlLaws = record {
  collates_refl = same_text_refl;
  select_users_law = λ q db. (refl, inr refl);
  select_files_law = λ q db. (refl, inr refl);
  insert_file_law =
      λ f db. inr (max_file_id db.files, [], refl, below_file_ids db.files _ (omega arith), refl);
  insert_user_law = λ u db. insert_unique_law u db _ refl;
  update_token_law = λ id token db. inr (1, refl, refl);
  update_files_law = λ u db. inr (refl, refl);
}
