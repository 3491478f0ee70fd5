-- ===== src/Services/UserService/Register.antt =====
-- services/user_service.cc: what a registration adds.
use file_server.Prelude.{
  ◌≡◌, refl, ap, sym, subst, ◌∙◌, ◌⊎◌, inl, inr, ℕ, suc, ◌<◌, ◌≤◌, length, ltb, ltb→lt, true, false,
  Option, none, some, [], ◌∷◌, All, arith, Bool-cases, if◌then◌else◌,
}
use file_server.Prelude.Int.{ℤ, pos, leb_ℤ, ◌<ℤ◌}
use file_server.Database.{
  Mysql, MysqlLaws, Stage, Result, failed, connection, statement, prepare, bind, execute, duplicate,
}
use file_server.Database.Tables.{
  Bytes, User, Rows, by_username, user_answer, user_matches, new_user,
}
use file_server.Database.UserDao
use file_server.Services.UserService.Login.{Found, find_by_username_lem}
use file_server.Database.Laws.{Among}
use file_server.Database.UserDao.{insert_result}
use file_server.Services.UserService.{credentials_valid, registration, register, register_of}

-- The bounds on a name and a password.
abbrev pub Fit : Bytes → Bytes → Type 0
Fit username password =
    (1 ≤ length username) × (length username ≤ 64) × (1 ≤ length password) × (length password ≤ 128)

abbrev pub Unfit : Bytes → Bytes → Type 0
Unfit username password =
    (username ≡ []) ⊎ (password ≡ []) ⊎ (64 < length username) ⊎ (128 < length password)

credentials_valid-true :
    (username password : Bytes) → credentials_valid username password ≡ true → Fit username password
unfolding credentials_valid
credentials_valid-true [] password h = absurd (cc)
credentials_valid-true (b ∷ bs) [] h = absurd (cc)
credentials_valid-true (b ∷ bs) (c ∷ cs) h = ground arith

credentials_valid-false :
    (username password : Bytes)
    → credentials_valid username password ≡ false
    → Unfit username password
unfolding credentials_valid
credentials_valid-false [] password h = inl refl
credentials_valid-false (b ∷ bs) [] h = inr (inl refl)
credentials_valid-false (b ∷ bs) (c ∷ cs) h = elim (Bool-cases (ltb 64 (length (b ∷ bs)))) [
  | inl long ↦ inr (inr (inl (ltb→lt 64 (length (b ∷ bs)) long)))
  | inr short ↦ inr (inr (inr (ground arith)))
]

module _ (mysql : Mysql) (laws : MysqlLaws mysql) where
  open mysql use {Db, rows}

  -- The row of the new user, whose name collates with no other.
  abbrev pub Registered : Bytes → Bytes → Bytes → Rows → Bytes → Rows → Type 0
  Registered token username password before answer after =
      (answer ≡ token)
      × (user_answer mysql.collates (by_username username) before.users ≡ [])
      × (id : ℕ) × (time : Bytes) × All (λ v. v.id <ℤ pos (suc id)) before.users
      × (after ≡ record before {
        users = new_user (registration username password token) (pos (suc id)) time ∷ before.users;
      })

  -- Why nobody is registered.
  abbrev pub NotRegistered : Bytes → Bytes → Bytes → Db → Type 0
  NotRegistered token username password db =
      Unfit username password
      ⊎ ((u : User) × Among (user_matches mysql.collates (by_username username)) u (rows db).users)
      ⊎ ((stage : Stage) × ((mysql.insert_user (registration username password token)
              (UserDao.find_by_username mysql username db).1).0
            ≡ failed stage))

  RegisterOutcome : Bytes → Bytes → Bytes → Db → Bytes × Db → Type 0
  RegisterOutcome token username password db (answer, db') =
      ((answer ≡ []) × (rows db' ≡ rows db) × NotRegistered token username password db)
      ⊎ Registered token username password (rows db) answer (rows db')

  answer_of : Bytes → Result ℤ → Bytes
  answer_of token r = if leb_ℤ (insert_result r) (pos 0) then [] else token

  answer_of-failed : (token : Bytes) (stage : Stage) → answer_of token (failed stage) ≡ []
  unfolding answer_of
  answer_of-failed token connection = refl
  answer_of-failed token statement = refl
  answer_of-failed token prepare = refl
  answer_of-failed token bind = refl
  answer_of-failed token execute = refl
  answer_of-failed token duplicate = refl

  insert_lem :
      (token username password : Bytes) (db : Db)
      → let db₀ = (UserDao.find_by_username mysql username db).1 in
        rows db₀ ≡ rows db
        → RegisterOutcome token username password db
            (register_of mysql token username password none db₀)
  unfolding register_of UserDao.insert RegisterOutcome answer_of
  insert_lem token username password db same =
      let db₀ = (UserDao.find_by_username mysql username db).1 in
      elim (laws.insert_user_law (registration username password token) db₀) [
        | inl (stage, fails, kept) ↦ inl (
          ap (answer_of token) fails ∙ answer_of-failed token stage,
          kept ∙ same,
          inr (inr (stage, fails)),
        )
        | inr (id, time, ok, above, free, made) ↦ inr (
            subst
              (λ r.
                Registered token username password r
                  (register_of mysql token username password none db₀).0
                  (rows (register_of mysql token username password none db₀).1))
              same (ap (answer_of token) ok ∙ ground arith, free, id, time, above, made))
      ]

  register_of_lem :
      (token username password : Bytes) (found : Option User) (db : Db)
      → Found mysql laws
          (by_username username)
          db
          found
          (UserDao.find_by_username mysql username db).1
      → RegisterOutcome token username password db (
          register_of mysql token username password found
            (UserDao.find_by_username mysql username db).1)
  unfolding RegisterOutcome
  register_of_lem token username password none db (same, found) =
      insert_lem token username password db same
  register_of_lem token username password (some v) db (same, inl (nothing, missing)) = absurd (cc)
  register_of_lem token username password (some v) db (same, inr (u, is_u, among)) =
      unfold register_of in inl (refl, same, inr (inl (u, among)))

  register-invalid :
      (token username password : Bytes) (db : Db)
      → credentials_valid username password ≡ false
      → register mysql token username password db ≡ ([], db)
  unfolding register
  register-invalid token username password db h = ground arith

  register-valid :
      (token username password : Bytes) (db : Db)
      → credentials_valid username password ≡ true
      → let (found, db') = UserDao.find_by_username mysql username db in
        register mysql token username password db
        ≡ register_of mysql token username password found db'
  unfolding register
  register-valid token username password db h = ground arith

  -- `Register` answers with nothing and changes no row only where the name or the password is empty, or
  -- longer than 64 and 128 bytes, a user has a name that collates with the given one, or the server
  -- refuses the new row. Otherwise the name has 1 to 64 bytes and the password 1 to 128, no user has a
  -- name that collates with the given one, and the answer is the token of the one row that is added, with
  -- the given name and password and an id above all others. The database keeps `MysqlLaws`.
  pub register_lem :
      (token username password : Bytes) (db : Db)
      → let (answer, db') = register mysql token username password db in
        ((answer ≡ []) × (rows db' ≡ rows db) × NotRegistered token username password db)
        ⊎ (Fit username password × Registered token username password (rows db) answer (rows db'))
  unfolding RegisterOutcome
  register_lem token username password db =
      elim (Bool-cases (credentials_valid username password)) [
        | inr bad ↦
            let same = register-invalid token username password db bad in
            inl (
              ap (λ r. r.0) same,
              ap (λ r. rows r.1) same,
              inl (credentials_valid-false username password bad),
            )
        | inl valid ↦
            let outcome : RegisterOutcome token username password db
                (register mysql token username password db) =
              subst (RegisterOutcome token username password db)
                (sym (register-valid token username password db valid))
                (register_of_lem token username password _ db
                  (find_by_username_lem mysql laws username db)) in
            elim outcome [
              | inl refused ↦ inl refused
              | inr registered ↦ inr (credentials_valid-true username password valid, registered)
            ]
      ]
