-- ===== src/Services/UserService/Login.antt =====
-- services/user_service.cc: who gets a token, and whom a token stands for.
use mathlib.Core.Option
use file_server.Prelude.{
  ◌≡◌, ◌≢◌, refl, ap, sym, subst, ◌∙◌, ◌⊎◌, inl, inr, true, false, ◌&&◌, Option, none, some, List,
  [], ◌∷◌, All, arith, Bool-cases, if◌then◌else◌,
}
use file_server.Prelude.Int.{ℤ, negsuc, eq_ℤ}
use file_server.Prelude.Text.{same_text, same_text_eq, same_text_refl}
use file_server.Database.{Mysql, MysqlLaws, Stage, failed}
use file_server.Database.Tables.{
  Bytes, User, UserQuery, Rows, by_username, by_token, user_matches, user_answer, set_token,
}
use file_server.Database.FileDao.{first_row, succeeded}
use file_server.Database.UserDao
use file_server.Database.UserDao.{insert_result, c_text, fetched}
use file_server.Database.Laws.{Among, Among-All, Among-test, first_row-keep, Nothing-answer}
use file_server.Services.UserService.{is_empty, login, login_of, verify_token}

differs : (a b : Bytes) → same_text a b ≡ false → a ≢ b
differs a b h e = absurd (cc (h, ap (same_text a) e, same_text_refl a))

-- The search fails, or no user matches.
abbrev pub NoUser : (mysql : Mysql) → UserQuery → mysql.Db → Type 0
NoUser mysql q db =
    ((stage : Stage) × ((mysql.select_users q db).0 ≡ failed stage))
    ⊎ (user_answer mysql.collates q (mysql.rows db).users ≡ [])

-- Why a login fails: there is no user, the password is another, or the server refuses the token.
abbrev pub NotLoggedIn : (mysql : Mysql) → Bytes → Bytes → Bytes → mysql.Db → Type 0
NotLoggedIn mysql token username password db =
    NoUser mysql (by_username username) db
    ⊎ ((u : User) × Among (user_matches mysql.collates (by_username username)) u
          (mysql.rows db).users
        × ((c_text u.password ≢ password)
            ⊎ ((stage : Stage) × ((mysql.update_token u.id token
                    (UserDao.find_by_username mysql username db).1).0
                  ≡ failed stage))))

module _ (mysql : Mysql) (laws : MysqlLaws mysql) where
  open mysql use {Db, rows}

  abbrev pub Found : UserQuery → Db → Option User → Db → Type 0
  Found q db found db' =
      (rows db' ≡ rows db)
      × (((found ≡ none) × NoUser mysql q db)
          ⊎ ((u : User) × (found ≡ some (fetched u))
              × Among (user_matches mysql.collates q) u (rows db).users))

  select_lem :
      (q : UserQuery) (db : Db)
      → Found q db
          (Option.map fetched (first_row (mysql.select_users q db).0))
          (mysql.select_users q db).1
  select_lem q db =
      let law = laws.select_users_law q db in
      (
        law.0,
        elim (first_row-keep (user_matches mysql.collates q) (rows db).users
            (mysql.select_users q db).0 (unfold user_answer in law.1)) [
              | inl nothing ↦
                  inl (ap (Option.map fetched) nothing, Nothing-answer _ _ nothing law.1)
              | inr (u, is_u, among) ↦ inr (u, ap (Option.map fetched) is_u, among)
            ],
      )

  pub find_by_username_lem :
      (username : Bytes) (db : Db)
      → let (found, db') = UserDao.find_by_username mysql username db in
        Found (by_username username) db found db'
  unfolding UserDao.find_by_username
  find_by_username_lem username db = select_lem (by_username username) db

  find_by_token_lem :
      (token : Bytes) (db : Db)
      → let (found, db') = UserDao.find_by_token mysql token db in
        Found (by_token token) db found db'
  unfolding UserDao.find_by_token
  find_by_token_lem token db = select_lem (by_token token) db

  -- The token is the answer and the column of the row that was found. Its password, up to a first zero
  -- byte, is the given one.
  abbrev pub LoggedIn : Bytes → Bytes → Bytes → Rows → Bytes → Rows → Type 0
  LoggedIn token username password before answer after =
      (u : User) × Among (user_matches mysql.collates (by_username username)) u before.users
      × (c_text u.password ≡ password)
      × (answer ≡ token)
      × (after ≡ record before { users = set_token u.id token before.users })

  LoginOutcome : Bytes → Bytes → Bytes → Db → Bytes × Db → Type 0
  LoginOutcome token username password db (answer, db') =
      ((answer ≡ []) × (rows db' ≡ rows db) × NotLoggedIn mysql token username password db)
      ⊎ LoggedIn token username password (rows db) answer (rows db')

  update_token_lem :
      (id : ℤ) (token : Bytes) (db : Db)
      → let (ok, db') = UserDao.update_token mysql id token db in
        ((ok ≡ false)
          × (rows db' ≡ rows db)
          × (stage : Stage) × ((mysql.update_token id token db).0 ≡ failed stage))
        ⊎ ((ok ≡ true)
            × (rows db' ≡ record (rows db) { users = set_token id token (rows db).users }))
  unfolding UserDao.update_token
  update_token_lem id token db = elim (laws.update_token_law id token db) [
    | inl (stage, fails, same) ↦ inl (ap succeeded fails, same, stage, fails)
    | inr (n, ok, made) ↦ inr (ap succeeded ok, made)
  ]

  login_of-same :
      (token password : Bytes) (u : User) (db : Db)
      → same_text u.password password ≡ true
      → let (updated, db') = UserDao.update_token mysql u.id token db in
        login_of mysql token password (some u) db ≡ (if updated then token else [], db')
  unfolding login_of
  login_of-same token password u db h = ground arith

  login_of-other :
      (token password : Bytes) (u : User) (db : Db)
      → same_text u.password password ≡ false
      → login_of mysql token password (some u) db ≡ ([], db)
  unfolding login_of
  login_of-other token password u db h = ground arith

  login_of-none :
      (token password : Bytes) (db : Db) → login_of mysql token password none db ≡ ([], db)
  unfolding login_of
  login_of-none token password db = refl

  login_of_lem :
      (token username password : Bytes) (found : Option User) (db : Db)
      → let db₀ = (UserDao.find_by_username mysql username db).1 in
        rows db₀ ≡ rows db
        → ((found ≡ none) × NoUser mysql (by_username username) db)
          ⊎ ((u : User) × (found ≡ some (fetched u))
              × Among (user_matches mysql.collates (by_username username)) u (rows db).users)
        → LoginOutcome token username password db (login_of mysql token password found db₀)
  unfolding LoginOutcome
  login_of_lem token username password found db same (inl (nothing, missing)) =
      let db₀ = (UserDao.find_by_username mysql username db).1 in
      subst (LoginOutcome token username password db)
        (sym (
          ap (λ f. login_of mysql token password f db₀) nothing ∙ login_of-none token password db₀))
        (inl (refl, same, inl missing))
  login_of_lem token username password found db same (inr (u, is_u, among)) =
      let db₀ = (UserDao.find_by_username mysql username db).1 in
      subst (λ f. LoginOutcome token username password db (login_of mysql token password f db₀))
        (sym is_u)
        (elim (Bool-cases (same_text (c_text u.password) password)) [
          | inr other ↦
              subst (LoginOutcome token username password db)
                (sym (login_of-other token password (fetched u) db₀ other))
                (inl (refl, same, inr (u, among, inl (differs (c_text u.password) password other))))
          | inl right ↦
              subst (LoginOutcome token username password db)
                (sym (login_of-same token password (fetched u) db₀ right))
                (elim (update_token_lem u.id token db₀) [
                  | inl (fails, kept, stage, refused) ↦ inl (
                    ap (λ b. if b then token else []) fails,
                    kept ∙ same,
                    inr (u, among, inr (stage, refused)),
                  )
                  | inr (ok, made) ↦ inr (
                    u,
                    among,
                    same_text_eq (c_text u.password) password right,
                    ap (λ b. if b then token else []) ok,
                    subst
                        (λ r.
                          rows (UserDao.update_token mysql u.id token db₀).1
                          ≡ record r { users = set_token u.id token r.users })
                        same made,
                  )
                ])
        ])

  -- `Login` answers with nothing and changes no row only where the search for the user fails or there is
  -- none of that name, the stored password of the user that was found, up to its first zero byte, is not
  -- the given one, or the server refuses the new token. Otherwise this stored password is exactly the
  -- given one, and the answer is the new token, and the token of that user's row. The database keeps
  -- `MysqlLaws`.
  pub login_lem :
      (token username password : Bytes) (db : Db)
      → let (answer, db') = login mysql token username password db in
        ((answer ≡ []) × (rows db' ≡ rows db) × NotLoggedIn mysql token username password db)
        ⊎ LoggedIn token username password (rows db) answer (rows db')
  unfolding login LoginOutcome
  login_lem token username password db =
      let (same, found) = find_by_username_lem username db in
      login_of_lem token username password _ db same found

  -- `VerifyToken` changes no row and answers -1, or the id of a user whose stored token collates
  -- with the given one and not with the empty text; the given one is not empty then. The database
  -- keeps `MysqlLaws`.
  pub verify_token_lem :
      (token : Bytes) (db : Db)
      → let (id, db') = verify_token mysql token db in
        (rows db' ≡ rows db)
        × ((id ≡ negsuc 0)
            ⊎ ((u : User) × Among (user_matches mysql.collates (by_token token)) u (rows db).users
                × (is_empty token ≡ false)
                × (id ≡ u.id)))
  unfolding verify_token
  verify_token_lem [] db = (refl, inl refl)
  verify_token_lem (b ∷ bs) db =
      let (same, found) = find_by_token_lem (b ∷ bs) db in
      (
        same,
        elim found [
          | inl (nothing, missing) ↦
              inl (ap (λ f. elim f [ none ↦ negsuc 0 | some u ↦ u.id ]) nothing)
          | inr (u, is_u, among) ↦
              inr (u, among, refl, ap (λ f. elim f [ none ↦ negsuc 0 | some v ↦ v.id ]) is_u)
        ],
      )

  abbrev Replaced : Bytes → ℤ → User → Type 0
  Replaced old id v = (eq_ℤ v.id id && user_matches mysql.collates (by_token old) v) ≡ false

  abbrev with_token : ℤ → Bytes → User → User
  with_token id token u = if eq_ℤ u.id id then record u { token = token } else u

  with_token-Replaced :
      (old token : Bytes) (id : ℤ) (u : User)
      → mysql.collates token old ≡ false
      → Replaced old id (with_token id token u)
  unfolding user_matches
  with_token-Replaced old token id u other = ground arith

  set_token-Replaced :
      (old token : Bytes) (id : ℤ) (us : List User)
      → mysql.collates token old ≡ false
      → All (Replaced old id) (set_token id token us)
  unfolding set_token
  set_token-Replaced old token id [] other = tt
  set_token-Replaced old token id (u ∷ us) other =
      (with_token-Replaced old token id u other, set_token-Replaced old token id us other)

  -- After a login that succeeded, a token that does not collate with the new one does not stand
  -- for that user: `VerifyToken` on the rows that the login left answers -1 for it, or another
  -- user's id. The database keeps `MysqlLaws`.
  pub login_replaces :
      (token username password old : Bytes) (db later : Db)
      → mysql.collates token old ≡ false
      → (login mysql token username password db).0 ≢ []
      → rows later ≡ rows (login mysql token username password db).1
      → (u : User) × Among (user_matches mysql.collates (by_username username)) u (rows db).users
        × (((verify_token mysql old later).0 ≡ negsuc 0)
            ⊎ (eq_ℤ (verify_token mysql old later).0 u.id ≡ false))
  login_replaces token username password old db later other succeeds same =
      elim (login_lem token username password db) [
        | inl (fails, kept, why) ↦ absurd (succeeds fails)
        | inr (u, among, right, is_token, made) ↦ (
          u,
          among,
          elim (verify_token_lem old later).1 [
            | inl refused ↦ inl refused
            | inr (v, found, nonempty, is_v) ↦
                let replaced : Replaced old u.id v = Among-All (Replaced old u.id) found (
                  subst (λ r. All (Replaced old u.id) r.users) (sym (same ∙ made))
                    (set_token-Replaced old token u.id (rows db).users other)) in
                let test = Among-test found in inr (ap (λ id. eq_ℤ id u.id) is_v ∙ ground arith)
          ],
        )
      ]
