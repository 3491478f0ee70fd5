-- ===== src/Examples/Calls.antt =====
-- Runs of rpc/ and of gateway/bin/server_main.cc.
use file_server.Prelude.{
  ℕ, suc, ◌+◌, ◌^◌, ◌<◌, false, ◌⊎◌, length, ◌≡◌, refl, true, Option, none, some, [], ◌∷◌, ◌++◌,
  ◌==◌, if◌then◌else◌, arith,
}
use file_server.Prelude.Text.{Bytes, same_text}
use file_server.Prelude.Int.{pos, negsuc, leb_ℤ}
use file_server.Prelude.Dict.{lookup}
use file_server.Json.{utf8, entry, value}
use file_server.Protocol.Header.{empty_header}
use file_server.Protocol.Message.{Message, empty_message, encode}
use file_server.Protocol.Body.{get_json, get_cmd, set_json}
use file_server.Protocol.Decoder.{init}
use file_server.Database.Tables.{user_answer, keep}
use file_server.Database.Reliable.{reliable, reliable-MysqlLaws}
use file_server.Database.UserDao.{find_by_token}
use file_server.Services.Filename.{Tm}
use file_server.Services.UserService.{verify_token}
use file_server.Services.FileService.{Server}
use file_server.Gateway.Router.{handler_of, route, unknown_command}
use file_server.Gateway.Server.{get_token, respond, server_router}
use file_server.Gateway.Server.Refusal.{server_refuses}
use file_server.Examples.Disks.{open_os, root, no_files}
use file_server.Rpc.Server
use file_server.Rpc.Server.{RpcTask, RpcServer, Methods, dispatch, perform}
use file_server.Rpc.Client
use file_server.Rpc.ZkClient.{ZkLib, other_code, new_client, discover}
use file_server.Network.{Network, connect}
use file_server.Prelude.Decimal.{stoi}
use file_server.Gateway.Process.{user_service}
use file_server.Gateway.Discovery.{get_service, cut_colon, parse_addr, call_rpc}
use file_server.Gateway.Discovery.Found.{first_promise, call_rpc-dispatch}
use file_server.Rpc.Client.{RpcClient, start_call, end_call}
use file_server.Rpc.Request.{Request, IsCallable, request_message, request_task}
use file_server.Rpc.RoundTrip.{rpc_round_trip}
use file_server.Examples.FlatJson.{
  flat_json, flat_json-JsonLaws, Tree, word, no_more, member_of, write, read, words, pairs, cut,
  find, flat,
}

abbrev ping : Bytes
unfolding utf8
ping = utf8 "ping"

abbrev nothing : flat_json.Json
unfolding flat_json
nothing = no_more

abbrev named : flat_json.Json
unfolding flat_json utf8
named = member_of (utf8 "method") (word ping) no_more

abbrev bytes : Option Bytes → Bytes
bytes none = []
bytes (some b) = b

abbrev ping_call : Request flat_json
unfolding write
ping_call = record {
  promise = 3;
  method = ping;
  args = nothing;
  binary = 1 ∷ 2 ∷ [];
  sent = named;
  body = bytes (write (member_of (utf8 "method") (word ping) no_more));
}

ping_call-IsCallable : IsCallable flat_json ping_call
unfolding flat_json write named words flat utf8
ping_call-IsCallable = record {
  named = refl;
  written = refl;
  body_fits = omega arith;
  binary_fits = omega arith;
}

abbrev count_ping : flat_json.Json → ℕ → Option flat_json.Json × ℕ
unfolding flat_json
count_ping args n = (some (word (utf8 "pong")), n + 1)

abbrev table : Methods flat_json ℕ
table = record { methods = (ping, count_ping) ∷ []; binary_methods = [] }

abbrev client : RpcClient flat_json
client = record { connected = true; decoder = init; pending = []; next_id = 7; results = [] }

abbrev server : RpcServer
server = record {
  decoders = (5, init) ∷ [];
  worker_pool = record {
    tasks = [];
    running = true;
    idle = 1;
    busy = [];
    exited = 0;
    submitted = [];
    started = [];
    finished = [];
  };
}

pong_written :
    flat_json.dump (dispatch flat_json [] table (request_task flat_json ping_call client 5) 0).0
    ≡ some (0 ∷ utf8 "pong")
unfolding flat_json write dispatch entry same_text count_ping ping utf8
pong_written = refl

known : lookup 5 server.decoders ≡ some init
unfolding lookup
known = refl

pong_fits : length (0 ∷ utf8 "pong") < 2 ^ 32
unfolding utf8
pong_fits = omega arith

rpc_round_trip_example :
    let task = request_task flat_json ping_call client 5 in
    let (result, s') = dispatch flat_json [] table task 0 in
    let (started, calling) = start_call flat_json 3 ping nothing (1 ∷ 2 ∷ []) client in
    (get_json flat_json task.request ≡ ping_call.sent)
    × (task.request.binary_data ≡ 1 ∷ 2 ∷ [])
    × (wire : Bytes) × (started ≡ some (7, wire))
    × ((Server.on_message flat_json 5 wire server).0 ≡ true)
    × ((Server.on_message flat_json 5 wire server).1.worker_pool.submitted ≡ [] ++ task ∷ [])
    × (reply : Bytes) × (perform flat_json [] table task 0 ≡ (some reply, s'))
    × ((end_call flat_json 3 7 (Client.on_message flat_json reply calling)).0 ≡ result)
    × (lookup 4 (Client.on_message flat_json reply calling).results
        ≡ (if 4 == 3 then some result else lookup 4 []))
unfolding ping_call ping nothing lookup
rpc_round_trip_example =
    rpc_round_trip flat_json flat_json-JsonLaws ping_call client server 5 empty_header empty_header
      [] table 0 (0 ∷ utf8 "pong") 4 ping_call-IsCallable (omega arith) refl known refl pong_written
      pong_fits

-- No ZooKeeper: the gateway takes the fallback address.
abbrev no_zk : ZkLib
no_zk = record {
  Nodes = ℕ;
  create = λ path value sequential s. (other_code, [], s);
  get_children = λ path s. none;
  get = λ path s. none;
}

abbrev fresh : RpcClient flat_json
fresh = record { connected = true; decoder = init; pending = []; next_id = 1; results = [] }

abbrev ping_task : RpcTask
ping_task = request_task flat_json ping_call fresh 5

abbrev ping_wire : Bytes
ping_wire = encode (request_message flat_json ping_call fresh)

abbrev pong_reply : Bytes
pong_reply = bytes (perform flat_json [] table ping_task 0).0

-- The network of the one server, which answers the one call.
abbrev one_server : Network ℕ
one_server = record {
  start = λ host port s. s;
  sleep = suc;
  connected = λ s. true;
  exchange = λ wire s. (pong_reply ∷ [], s + 1);
  release = λ s. s;
}

ping_0-IsCallable : IsCallable flat_json (first_promise flat_json ping_call)
ping_0-IsCallable = record {
  named = ping_call-IsCallable.named;
  written = ping_call-IsCallable.written;
  body_fits = ping_call-IsCallable.body_fits;
  binary_fits = ping_call-IsCallable.binary_fits;
}

ping_sent :
    (start_call flat_json 0 ping_call.method ping_call.args ping_call.binary fresh).0
    ≡ some (1, ping_wire)
unfolding start_call Client.next_id Client.call_message set_json flat_json write words flat utf8
    ping_call nothing
ping_sent = refl

pong_sent : (perform flat_json [] table ping_task 0).0 ≡ some pong_reply
unfolding perform Server.response_of set_json dispatch flat_json write entry same_text count_ping
    ping utf8
pong_sent = refl

pong_alone : flat_json.dump (dispatch flat_json [] table ping_task 0).0 ≡ some (0 ∷ utf8 "pong")
unfolding flat_json write dispatch entry same_text count_ping ping utf8
pong_alone = refl

abbrev fallback_host : Bytes
unfolding utf8
fallback_host = utf8 "127.0.0.1"

fallback_read :
    parse_addr (get_service no_zk user_service new_client 0) ≡ some (fallback_host, pos 9001)
unfolding get_service discover parse_addr cut_colon stoi utf8
fallback_read = refl

first_try : connect one_server fallback_host (pos 9001) 0 ≡ (true, 0)
unfolding connect
first_try = refl

call_rpc-dispatch_example :
    ((Server.on_message flat_json 5 ping_wire server).1.worker_pool.submitted
      ≡ [] ++ ping_task ∷ [])
    × (call_rpc flat_json one_server no_zk new_client 0 user_service ping_call.method ping_call.args
          ping_call.binary 0
        ≡ (some (dispatch flat_json [] table ping_task 0).0, 1))
call_rpc-dispatch_example =
    call_rpc-dispatch flat_json flat_json-JsonLaws one_server no_zk new_client 0 user_service
      fallback_host ping_wire pong_reply (0 ∷ utf8 "pong") (pos 9001) ping_call 0 0 1 server 5
      empty_header [] table 0 ping_0-IsCallable fallback_read first_try known refl pong_sent
      pong_alone pong_fits ping_sent refl

-- A request for the list of files with a token that nobody has.
abbrev list_tree : Tree
unfolding utf8
list_tree =
    member_of (utf8 "cmd") (word (utf8 "list"))
      (member_of (utf8 "token") (word (utf8 "t9")) no_more)

abbrev list_request : Message
unfolding write
list_request = record empty_message { json_body = bytes (write list_tree) }

abbrev no_rows : Server reliable.Db
unfolding reliable
no_rows = record { db = record { users = []; files = [] }; disk = no_files }

abbrev noon : Tm
noon = record { tm_year = 125; tm_mon = 0; tm_mday = 2; tm_hour = 12; tm_min = 0; tm_sec = 0 }

list_needs :
    (same_text (get_cmd flat_json list_request) (utf8 "register") ≡ false)
    × (same_text (get_cmd flat_json list_request) (utf8 "login") ≡ false)
unfolding flat_json get_cmd read pairs cut find words flat write list_request list_tree same_text
    utf8
list_needs = (refl, refl)

list_token : get_token flat_json list_request ≡ some (utf8 "t9")
unfolding flat_json get_token get_json value read pairs cut find words flat write list_request
    list_tree same_text utf8
list_token = refl

list_invalid : leb_ℤ (verify_token reliable (utf8 "t9") no_rows.db).0 (pos 0) ≡ true
unfolding reliable verify_token find_by_token user_answer keep no_rows utf8
list_invalid = refl

server_refuses_example :
    let router = server_router flat_json reliable open_os root [] noon in
    let (r, s') = route flat_json router list_request no_rows in
    (reliable.rows s'.db ≡ reliable.rows no_rows.db)
    × (s'.disk ≡ no_rows.disk)
    × ((r ≡ respond flat_json list_request (negsuc 0) (utf8 "认证失败"))
        ⊎ ((handler_of (get_cmd flat_json list_request) router ≡ none)
            × (r ≡ unknown_command flat_json list_request)))
server_refuses_example =
    server_refuses flat_json reliable open_os root reliable-MysqlLaws [] noon list_request no_rows
      (utf8 "t9") list_needs list_token list_invalid
