-- ===== src/Gateway/Discovery.antt =====
-- gateway/bin/gateway_main.cc: the choice of a service's address, and CallRpc, from a connection to the
-- answer.
pub mod Found
use file_server.Prelude.{
  ℕ, suc, ◌==◌, Bool, true, false, Option, none, some, List, [], ◌∷◌, ◌++◌, if◌then◌else◌,
}
use file_server.Prelude.Int.{ℤ, pos, negsuc}
use file_server.Prelude.Text.{Bytes}
use file_server.Prelude.Decimal.{stoi}
use file_server.Prelude.Action.{Action}
use file_server.Json.{JsonLib, utf8}
use file_server.Network.{Network, connect}
use file_server.Protocol.Decoder.{init}
use file_server.Rpc.ZkClient.{ZkLib, ZkClient, discover}
use file_server.Rpc.Client
use file_server.Rpc.Client.{RpcClient, start_call, end_call, not_connected}
use file_server.Gateway.Process.{Service, user_service, file_service, storage_service}

abbrev pub service_path : Service → Bytes
service_path user_service = utf8 "/FileServer/UserService"
service_path file_service = utf8 "/FileServer/FileService"
service_path storage_service = utf8 "/FileServer/StorageService"

abbrev fallback : Service → Bytes
fallback user_service = utf8 "127.0.0.1:9001"
fallback file_service = utf8 "127.0.0.1:9002"
fallback storage_service = utf8 "127.0.0.1:9003"

abbrev service_name : Service → Bytes
service_name user_service = utf8 "UserService"
service_name file_service = utf8 "FileService"
service_name storage_service = utf8 "StorageService"

unfoldable pub first_or : Bytes → List Bytes → Bytes
first_or otherwise [] = otherwise
first_or otherwise (node ∷ nodes) = node

-- `GetUserService`, `GetFileService` and `GetStorageService`
unfoldable pub get_service : (zk : ZkLib) → Service → ZkClient → zk.Nodes → Bytes
unfolding first_or
get_service zk service client s =
    first_or (fallback service) (discover zk (service_path service) client s)

-- A text cut at its first colon, if there is one.
unfoldable pub cut_colon : Bytes → Option (Bytes × Bytes)
cut_colon [] = none
cut_colon (c ∷ cs) =
    if c == b':'
    then some ([], cs)
    else (elim (cut_colon cs) [ none ↦ none | some (host, port) ↦ some (c ∷ host, port) ])

unfoldable pub with_port : Bytes → Option ℤ → Option (Bytes × ℤ)
with_port host none = none
with_port host (some port) = some (host, port)

unfoldable pub endpoint : Bytes → Option (Bytes × Bytes) → Option (Bytes × ℤ)
unfolding with_port
endpoint addr none = some (addr, pos 9001)
endpoint addr (some (host, port)) = with_port host (stoi port)

-- `ParseAddr`; `none` is the exception of `std::stoi`.
unfoldable pub parse_addr : Bytes → Option (Bytes × ℤ)
unfolding cut_colon endpoint
parse_addr addr = endpoint addr (cut_colon addr)

module _ (lib : JsonLib) {S : Type 0} (net : Network S) where
  open lib use {Json}

  -- An `RpcClient` that has just connected.
  abbrev pub fresh_client : RpcClient lib
  fresh_client = record {
    connected = true;
    decoder = init;
    pending = [];
    next_id = 1;
    results = [];
  }

  unfoldable pub deliver : List Bytes → RpcClient lib → RpcClient lib
  deliver [] client = client
  deliver (raw ∷ raws) client = deliver raws (Client.on_message lib raw client)

  unfoldable pub after_send : Option (ℕ × Bytes) × RpcClient lib → Action S Json
  unfolding deliver
  after_send (none, client) s = (none, s)
  after_send (some (id, wire), client) s =
      let (raws, s') = net.exchange wire s in (some (end_call lib 0 id (deliver raws client)).0, s')

  -- `Call` of the new client, whose promise is 0.
  unfoldable pub call_once : Bytes → Json → Bytes → Action S Json
  unfolding after_send
  call_once method args binary s =
      if net.connected s
      then after_send (start_call lib 0 method args binary fresh_client) s
      else (some (not_connected lib), s)

  unfoldable pub disconnect : Option Json × S → Option Json × S
  disconnect (result, s) = (result, net.release s)

  unfoldable pub no_connection : Service → Bytes → Json
  no_connection service addr = lib.object (
      (utf8 "code", lib.number (negsuc 0))
      ∷ (utf8 "msg", lib.text (utf8 "无法连接 " ++ (service_name service ++ (utf8 " at " ++ addr))))
      ∷ [])

  -- The part behind ParseAddr. The destructor disconnects a client whose call threw.
  unfoldable pub call_at :
      Service → Bytes → Bytes → Json → Bytes → Option (Bytes × ℤ) → Action S Json
  unfolding call_once disconnect no_connection
  call_at service addr method args binary none s = (none, s)
  call_at service addr method args binary (some (host, port)) s =
      let (up, s') = connect net host port s in
      if up
      then disconnect (call_once method args binary s')
      else (some (no_connection service addr), net.release s')

  -- `CallRpc`, with what ZooKeeper holds at the time.
  unfoldable pub call_rpc :
      (zk : ZkLib) → ZkClient → zk.Nodes → Service → Bytes → Json → Bytes → Action S Json
  unfolding call_at
  call_rpc zk client z service method args binary =
      let addr = get_service zk service client z in
      call_at service addr method args binary (parse_addr addr)
