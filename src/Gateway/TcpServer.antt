-- ===== src/Gateway/TcpServer.antt =====
-- gateway/network/tcp_server_wrapper.cc: the callbacks of the network library. The user's callbacks work
-- on a state of their own; a connection is a number, the pointer.
pub mod Tracking
use file_server.Prelude.{ℕ, Bool, true, false, Option, none, some, List, [], ◌∷◌, if◌then◌else◌}
use file_server.Prelude.Text.{Bytes}
use file_server.Gateway.Sessions.{Manager, new_manager, add_session, remove_connection}

abbrev pub MessageCallback : Type 0 → Type 0
MessageCallback W = ℕ → Bytes → W → W

-- It can ask the connection whether it is up.
abbrev pub ConnectionCallback : Type 0 → Type 0
ConnectionCallback W = ℕ → Bool → W → W

-- `started_`, `conn_mgr_`, `user_message_cb_` and `user_conn_cb_`
pub record TcpServer (W : Type 0) : Type 0 where
  pub started : Bool
  pub manager : Manager
  pub user_message_cb : Option (MessageCallback W)
  pub user_conn_cb : Option (ConnectionCallback W)

module _ {W : Type 0} where
  -- The constructor.
  abbrev pub new_server : TcpServer W
  new_server = record {
    started = false;
    manager = new_manager;
    user_message_cb = none;
    user_conn_cb = none;
  }

  -- `Start`: whether the network library's server is started, too.
  unfoldable pub start : TcpServer W → Bool × TcpServer W
  start server =
      if server.started then (false, server) else (true, record server { started = true })

  -- `Stop`, and the destructor
  unfoldable pub stop : TcpServer W → TcpServer W
  stop server = if server.started then record server { started = false } else server

  unfoldable pub set_message_callback : MessageCallback W → TcpServer W → TcpServer W
  set_message_callback cb server = record server { user_message_cb = some cb }

  unfoldable pub set_connection_callback : ConnectionCallback W → TcpServer W → TcpServer W
  set_connection_callback cb server = record server { user_conn_cb = some cb }

  unfoldable pub call_user : Option (ConnectionCallback W) → ℕ → Bool → W → W
  call_user none conn up w = w
  call_user (some cb) conn up w = cb conn up w

  -- `OnConnection`; `alive` tells which weak pointers still lead to a connection.
  unfoldable pub on_connection : (ℕ → Bool) → ℕ → Bool → TcpServer W → W → TcpServer W × W
  unfolding call_user
  on_connection alive conn true server w = (
    record server { manager = (add_session conn server.manager).1 },
    call_user server.user_conn_cb conn true w,
  )
  on_connection alive conn false server w = (
    record server { manager = remove_connection alive conn server.manager },
    call_user server.user_conn_cb conn false w,
  )

  -- `OnMessage`: the bytes that are sent back, and the callback's state. Without a callback the bytes go
  -- back as they are.
  unfoldable pub on_message : ℕ → Bytes → TcpServer W → W → Bytes × W
  on_message conn raw server w = elim server.user_message_cb [
    | none ↦ (raw, w)
    | some cb ↦ ([], cb conn raw w)
  ]
