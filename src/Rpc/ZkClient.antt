-- ===== src/Rpc/ZkClient.antt =====
-- rpc/zk_client.cc: registering and finding services in ZooKeeper. Its C library is an interface: what
-- its calls answer, and the state of its servers.
pub mod Paths
pub mod Waiting
pub mod Addresses
use mathlib.Core.Option
use file_server.Prelude.{
  ℕ, zero, suc, ◌+◌, ltb, ◌==◌, ◌≡◌, Bool, true, false, not, ◌&&◌, ◌||◌, Option, none, some, List,
  [], ◌∷◌, ◌++◌, length, take, drop, if◌then◌else◌, min,
}
use file_server.Prelude.Int.{ℤ, pos, ltb_ℤ}
use file_server.Prelude.Text.{Bytes, same_text}
use file_server.Prelude.Decimal.{to_string}
use file_server.Json.{utf8}

-- `ZOK`, `ZNODEEXISTS` and the other codes.
pub data ZkCode : Type 0 where
  zok node_exists other_code : ZkCode

-- The states that a watcher is told.
pub data ZkState : Type 0 where
  connected_state expired_session_state other_state : ZkState

pub record ZkLib : Type 1 where
  pub Nodes : Type 0
  -- `zoo_create` of a path with a value or none; the flag stands for `ZOO_EPHEMERAL | ZOO_SEQUENCE`. It
  -- answers a code, and the path of the node that it made.
  pub create : Bytes → Option Bytes → Bool → Nodes → ZkCode × Bytes × Nodes
  -- `zoo_get_children` and `zoo_get`; `none` is a code other than `ZOK`, and a node may have no value.
  pub get_children : Bytes → Nodes → Option (List Bytes)
  pub get : Bytes → Nodes → Option (Option Bytes)

-- `path + "/" + child`
abbrev pub child_path : Bytes → Bytes → Bytes
child_path path child = path ++ b'/' ∷ child

-- What the library documents of a sequential node: it is a child of the path, beside the children that
-- there were, and has the value.
pub record ZkLaws (zk : ZkLib) : Type 0 where
  pub sequential_law :
      (path value created : Bytes) (s s' : zk.Nodes)
      → zk.create (path ++ utf8 "/node_") (some value) true s ≡ (zok, created, s')
      → (child : Bytes) × (before : List Bytes) × (after : List Bytes) × (created
          ≡ child_path path child)
        × (zk.get_children path s ≡ some (before ++ after))
        × (zk.get_children path s' ≡ some (before ++ child ∷ after))
        × (zk.get created s' ≡ some (some value))

-- `handle_` is not null, and `connected_`.
pub record ZkClient : Type 0 where
  pub handle : Bool
  pub connected : Bool

abbrev pub new_client : ZkClient
new_client = record { handle = false; connected = false }

-- `WatcherCallback`
unfoldable pub watcher_callback : ZkState → ZkClient → ZkClient
watcher_callback connected_state client = record client { connected = true }
watcher_callback expired_session_state client = record client { connected = false }
watcher_callback other_state client = client

unfoldable pub notify : List ZkState → ZkClient → ZkClient
unfolding watcher_callback
notify [] client = client
notify (state ∷ states) client = notify states (watcher_callback state client)

-- The loop of `Connect`, with the milliseconds waited so far, on a number of rounds; `none` where they
-- are not enough. `told` are the states that the watcher is told in the sleep that starts at a time.
unfoldable pub wait_connected : ℕ → ℤ → (ℕ → List ZkState) → ℕ → ZkClient → Option (ℕ × ZkClient)
unfolding notify
wait_connected zero timeout told waited client = none
wait_connected (suc rounds) timeout told waited client =
    let rest = wait_connected rounds timeout told (waited + 100) (notify (told waited) client) in
    if not client.connected && ltb_ℤ (pos waited) timeout then rest else some (waited, client)

-- `Connect`, with the time that it waited and whether `zookeeper_init` made a handle.
unfoldable pub connect : Bool → ℕ → ℤ → (ℕ → List ZkState) → ZkClient → Option (Bool × ℕ × ZkClient)
unfolding wait_connected
connect false rounds timeout told client = some (false, 0, record client { handle = false })
connect true rounds timeout told client =
    Option.map (λ (r : ℕ × ZkClient). (r.1.connected, r.0, r.1))
      (wait_connected rounds timeout told 0 (record client { handle = true }))

-- `find('/')` from the start of a text; its length where there is none.
unfoldable pub first_slash : Bytes → ℕ
first_slash [] = 0
first_slash (c ∷ cs) = let rest = first_slash cs in if c == b'/' then 0 else suc rest

-- `next`: the next separator from a position inside the path, or its end.
abbrev pub next_slash : Bytes → ℕ → ℕ
next_slash path from = from + first_slash (drop from path)

module _ (zk : ZkLib) where
  open zk use {Nodes}

  -- A failure is only logged.
  unfoldable pub ensure_node : Bytes → Nodes → Nodes
  ensure_node sub s = if ltb 1 (length sub) then (zk.create sub none false s).2 else s

  -- The loop of `EnsurePath`.
  unfoldable pub ensure_loop : ℕ → Bytes → ℕ → Nodes → Nodes
  unfolding ensure_node first_slash
  ensure_loop zero path from s = s
  ensure_loop (suc rounds) path from s =
      let rest =
        ensure_loop rounds path (suc (next_slash path from))
          (ensure_node (take (next_slash path from) path) s) in
      if ltb from (length path) then rest else s

  -- `EnsurePath`: every round goes on by at least one byte.
  unfoldable pub ensure_path : Bytes → Nodes → Nodes
  unfolding ensure_loop
  ensure_path path s =
      if length path == 0 || same_text path (utf8 "/")
      then s
      else ensure_loop (length path) path 1 s

  -- The path of the created node in a buffer of 512 bytes; empty for a failure.
  unfoldable pub created_path : ZkCode × Bytes × Nodes → Bytes × Nodes
  created_path (zok, created, s) = (take 511 created, s)
  created_path (node_exists, created, s) = ([], s)
  created_path (other_code, created, s) = ([], s)

  -- `Register(path, addr)`
  unfoldable pub register : Bytes → Bytes → ZkClient → Nodes → Bytes × Nodes
  unfolding ensure_path created_path
  register path addr client s =
      if not client.connected || not client.handle
      then ([], s)
      else created_path (zk.create (path ++ utf8 "/node_") (some addr) true (ensure_path path s))

  -- `Register(path, ip, port)`
  unfoldable pub register_at : Bytes → Bytes → ℤ → ZkClient → Nodes → Bytes × Nodes
  unfolding register
  register_at path ip port = register path (ip ++ b':' ∷ to_string port)

  -- One round of the loop of `Discover`: a value in a buffer of 256 bytes, if there is one.
  unfoldable pub with_address : Option (Option Bytes) → List Bytes → List Bytes
  with_address none found = found
  with_address (some none) found = found
  with_address (some (some value)) found =
      if ltb 0 (min 256 (length value)) then take 256 value ∷ found else found

  unfoldable pub addresses : Bytes → List Bytes → Nodes → List Bytes
  unfolding with_address
  addresses path [] s = []
  addresses path (child ∷ children) s =
      with_address (zk.get (child_path path child) s) (addresses path children s)

  unfoldable pub addresses_of : Bytes → Option (List Bytes) → Nodes → List Bytes
  unfolding addresses
  addresses_of path none s = []
  addresses_of path (some children) s = addresses path children s

  -- `Discover`
  unfoldable pub discover : Bytes → ZkClient → Nodes → List Bytes
  unfolding addresses_of
  discover path client s =
      if not client.connected || not client.handle
      then []
      else addresses_of path (zk.get_children path s) s
