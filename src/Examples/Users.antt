-- ===== src/Examples/Users.antt =====
-- Runs of the accounts of services/user_service.cc.
use file_server.Prelude.{◌≡◌, ◌⊎◌, [], ◌∷◌}
use file_server.Prelude.Int.{pos}
use file_server.Database.Tables.{Bytes, User, Rows}
use file_server.Database.Reliable.{reliable, reliable-MysqlLaws}
use file_server.Services.UserService.{register, login}
use file_server.Services.UserService.Login.{LoggedIn, NotLoggedIn, login_lem}
use file_server.Services.UserService.Register.{Registered, NotRegistered, Fit, register_lem}

abbrev alice : User
alice = record {
  id = pos 1;
  username = b'a' ∷ [];
  password = b'p' ∷ b'w' ∷ [];
  token = b't' ∷ b'1' ∷ [];
  create_time = [];
}

abbrev rows : Rows
rows = record { users = alice ∷ []; files = [] }

abbrev db : reliable.Db
unfolding reliable
db = rows

abbrev new_token : Bytes
new_token = b't' ∷ b'2' ∷ []

login_lem_example :
    let r = login reliable new_token alice.username alice.password db in
    ((r.0 ≡ [])
      × (reliable.rows r.1 ≡ reliable.rows db)
      × NotLoggedIn reliable new_token alice.username alice.password db)
    ⊎ LoggedIn reliable reliable-MysqlLaws new_token alice.username alice.password
        (reliable.rows db)
        r.0
        (reliable.rows r.1)
login_lem_example = login_lem reliable reliable-MysqlLaws new_token alice.username alice.password db

register_lem_example :
    let r = register reliable new_token (b'b' ∷ []) alice.password db in
    ((r.0 ≡ [])
      × (reliable.rows r.1 ≡ reliable.rows db)
      × NotRegistered reliable reliable-MysqlLaws new_token (b'b' ∷ []) alice.password db)
    ⊎ (Fit (b'b' ∷ []) alice.password
        × Registered reliable reliable-MysqlLaws new_token
            (b'b' ∷ [])
            alice.password
            (reliable.rows db)
            r.0
            (reliable.rows r.1))
register_lem_example =
    register_lem reliable reliable-MysqlLaws new_token (b'b' ∷ []) alice.password db
