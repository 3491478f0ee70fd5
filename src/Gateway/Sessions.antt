-- ===== src/Gateway/Sessions.antt =====
-- gateway/network/session.h and tcp_connection_manager.cc: the sessions of the open connections. A
-- connection is a number, the pointer.
pub mod Lookup
use file_server.Prelude.{
  ℕ, ◌+◌, ◌%◌, ◌^◌, ◌==◌, Bool, true, false, Option, none, some, List, [], ◌∷◌, length,
  if◌then◌else◌,
}

-- The id and the connection of a session; its address and its times are not used by the manager.
pub record Session : Type 0 where
  pub id : ℕ
  pub conn : ℕ

-- `sessions_`, a hash table whose order is not modelled: the order of the list means nothing. `next_id_`
-- is 64 bits wide.
pub record Manager : Type 0 where
  pub sessions : List Session
  pub next_id : ℕ

abbrev pub new_manager : Manager
new_manager = record { sessions = []; next_id = 1 }

-- `sessions_.find(id)`
unfoldable pub find : ℕ → List Session → Option Session
find id [] = none
find id (s ∷ ss) = let rest = find id ss in if s.id == id then some s else rest

-- `sessions_.erase(it)` of the session with that id, if there is one.
unfoldable pub erase : ℕ → List Session → List Session
erase id [] = []
erase id (s ∷ ss) = let rest = erase id ss in if s.id == id then ss else s ∷ rest

-- `AddSession`: an entry with the same id is replaced.
unfoldable pub add_session : ℕ → Manager → Session × Manager
unfolding erase
add_session conn m =
    let session : Session = record { id = m.next_id; conn = conn } in
    (
      session,
      record {
        sessions = session ∷ erase m.next_id m.sessions;
        next_id = (m.next_id + 1) % 2 ^ 64;
      },
    )

-- `RemoveSession(session_id)`
unfoldable pub remove_session : ℕ → Manager → Manager
unfolding erase
remove_session id m = record m { sessions = erase id m.sessions }

-- The loop of `RemoveSession(conn)`. `alive` tells which weak pointers still lead to a connection; the
-- argument is one.
unfoldable pub erase_conn : (ℕ → Bool) → ℕ → List Session → List Session
erase_conn alive conn [] = []
erase_conn alive conn (s ∷ ss) =
    let rest = erase_conn alive conn ss in
    if (if alive s.conn then s.conn == conn else false) then ss else s ∷ rest

unfoldable pub remove_connection : (ℕ → Bool) → ℕ → Manager → Manager
unfolding erase_conn
remove_connection alive conn m = record m { sessions = erase_conn alive conn m.sessions }

-- `GetSession`
unfoldable pub get_session : ℕ → Manager → Option Session
unfolding find
get_session id m = find id m.sessions

-- `GetAllSessions`, in whatever order, and `ConnectionCount`
unfoldable pub get_all_sessions : Manager → List Session
get_all_sessions m = m.sessions

unfoldable pub connection_count : Manager → ℕ
connection_count m = length m.sessions
