-- ===== src/Services/UserService.antt =====
-- services/user_service.cc: registration, login and the check of a token. The token is the `token`
-- column of the user's row; a new login replaces it.
pub mod Login
pub mod Register
use file_server.Prelude.{
  ℕ, zero, suc, ◌+◌, ◌-◌, ◌/◌, ◌%◌, Bool, true, false, not, ◌||◌, Option, none, some, List, [], ◌∷◌,
  ◌++◌, length, ltb, if◌then◌else◌,
}
use file_server.Prelude.Int.{ℤ, pos, negsuc, leb_ℤ}
use file_server.Prelude.Text.{same_text}
use file_server.Database.{Mysql}
use file_server.Database.Tables.{Bytes, User}
use file_server.Database.UserDao

abbrev hex_digit : ℕ → ℕ
hex_digit d = if ltb d 10 then b'0' + d else b'a' + (d - 10)

-- The lowest digits of a number in base 16. `setw(16)` and `setfill('0')` print a 64-bit number with
-- exactly 16.
unfoldable pub hex_digits : ℕ → ℕ → Bytes
hex_digits zero n = []
hex_digits (suc width) n = hex_digits width (n / 16) ++ hex_digit (n % 16) ∷ []

-- `GenerateToken`, from the time in milliseconds and a random number, both of 64 bits.
unfoldable pub generate_token : ℕ → ℕ → Bytes
unfolding hex_digits
generate_token ms random = hex_digits 16 ms ++ hex_digits 16 random

abbrev pub is_empty : Bytes → Bool
is_empty [] = true
is_empty (b ∷ bs) = false

-- The checks of the arguments, turned round.
unfoldable pub credentials_valid : Bytes → Bytes → Bool
credentials_valid username password = not (
    is_empty username
    || (is_empty password || (ltb 64 (length username) || ltb 128 (length password))))

unfoldable pub registration : Bytes → Bytes → Bytes → User
registration username password token = record {
  id = pos 0;
  username = username;
  password = password;
  token = token;
  create_time = [];
}

module _ (mysql : Mysql) where
  open mysql use {Db}

  unfoldable pub register_of : Bytes → Bytes → Bytes → Option User → Db → Bytes × Db
  unfolding registration
  register_of token username password (some existing) db = ([], db)
  register_of token username password none db =
      let (id, db') = UserDao.insert mysql (registration username password token) db in
      (if leb_ℤ id (pos 0) then [] else token, db')

  -- `Register`: the new token, or an empty answer.
  unfoldable pub register : Bytes → Bytes → Bytes → Db → Bytes × Db
  unfolding register_of credentials_valid
  register token username password db =
      if credentials_valid username password
      then (let (existing, db') = UserDao.find_by_username mysql username db in
          register_of token username password existing db')
      else ([], db)

  unfoldable pub login_of : Bytes → Bytes → Option User → Db → Bytes × Db
  login_of token password none db = ([], db)
  login_of token password (some user) db =
      if same_text user.password password
      then (let (updated, db') = UserDao.update_token mysql user.id token db in
          (if updated then token else [], db'))
      else ([], db)

  -- `Login`
  unfoldable pub login : Bytes → Bytes → Bytes → Db → Bytes × Db
  unfolding login_of
  login token username password db =
      let (user, db') = UserDao.find_by_username mysql username db in
      login_of token password user db'

  -- `VerifyToken`: the user's id, or -1.
  unfoldable pub verify_token : Bytes → Db → ℤ × Db
  verify_token token db =
      if is_empty token
      then (negsuc 0, db)
      else (let (user, db') = UserDao.find_by_token mysql token db in
          (elim user [ none ↦ negsuc 0 | some u ↦ u.id ], db'))

  -- `GetUserById` and `GetUserByUsername`
  unfoldable pub get_user_by_id : ℤ → Db → Option User × Db
  get_user_by_id id db = UserDao.find_by_id mysql id db

  unfoldable pub get_user_by_username : Bytes → Db → Option User × Db
  get_user_by_username username db = UserDao.find_by_username mysql username db
