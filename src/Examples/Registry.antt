-- ===== src/Examples/Registry.antt =====
-- Runs of rpc/zk_client.cc and of the calls of gateway/bin/gateway_main.cc, with a small ZooKeeper in
-- memory and a network of one server.
use file_server.Prelude.{
  ℕ, suc, ◌+◌, ◌-◌, ◌<◌, ◌≤◌, ◌≡◌, ◌≢◌, refl, sym, ap, ◌∙◌, Bool, true, false, Option, none, some,
  List, [], ◌∷◌, ◌++◌, length, take, replicate, ◌==◌, if◌then◌else◌, if-true, All, arith,
  length-append, take-length_append,
}
use file_server.Prelude.Int.{pos, pos_part}
use file_server.Prelude.Text.{Bytes, same_text, same_text_refl}
use file_server.Prelude.Decimal.{decimal, to_string}
use file_server.Json.{utf8}
use file_server.Rpc.ZkClient.{
  ZkLib, ZkLaws, ZkCode, zok, other_code, ZkState, connected_state, ZkClient, new_client,
  child_path, ensure_path, register_at,
}
use file_server.Rpc.ZkClient
use file_server.Rpc.ZkClient.Paths.{absolute, create_all, parents_from, ensure_path_lem}
use file_server.Rpc.ZkClient.Waiting.{connect_lem}
use file_server.Gateway.Process.{user_service}
use file_server.Gateway.Discovery.{service_path, get_service, parse_addr}
use file_server.Gateway.Discovery.Found.{parse_addr-get_service}

-- The children: the path above, the name, and the value.
abbrev Node : Type 0
Node = Bytes × Bytes × Bytes

children : Bytes → List Node → List Bytes
children path [] = []
children path ((dir, child, value) ∷ nodes) =
    let rest = children path nodes in if same_text dir path then child ∷ rest else rest

value_at : Bytes → List Node → Option (Option Bytes)
value_at path [] = none
value_at path ((dir, child, value) ∷ nodes) =
    let rest = value_at path nodes in
    if same_text (child_path dir child) path then some (some value) else rest

-- The path of which "/node_" is the end.
abbrev above : Bytes → Bytes
above path = take (length path - 6) path

abbrev new_child : List Node → Bytes
new_child nodes = replicate (suc (length nodes)) b'0'

add_node : Bytes → Option Bytes → Bool → List Node → ZkCode × Bytes × List Node
add_node path (some value) true nodes = (
  zok,
  child_path (above path) (utf8 "node_" ++ new_child nodes),
  (above path, utf8 "node_" ++ new_child nodes, value) ∷ nodes,
)
add_node path none true nodes = (other_code, [], nodes)
add_node path value false nodes = (zok, path, nodes)

abbrev small_zk : ZkLib
small_zk = record {
  Nodes = List Node;
  create = add_node;
  get_children = λ path nodes. some (children path nodes);
  get = value_at;
}

above_node : (path : Bytes) → above (path ++ utf8 "/node_") ≡ path
unfolding utf8
above_node path =
    ap (λ n. take n (path ++ utf8 "/node_")) (omega (arith, length-append path (utf8 "/node_")))
    ∙ take-length_append path (utf8 "/node_")

children_first :
    (path dir child value : Bytes) (nodes : List Node)
    → dir ≡ path
    → children path ((dir, child, value) ∷ nodes) ≡ child ∷ children path nodes
unfolding children
children_first path dir child value nodes e =
    if-true (children path nodes) (ap (λ d. same_text d path) e ∙ same_text_refl path)

value_first :
    (dir child value : Bytes) (nodes : List Node)
    → value_at (child_path dir child) ((dir, child, value) ∷ nodes) ≡ some (some value)
unfolding value_at
value_first dir child value nodes =
    if-true (value_at (child_path dir child) nodes) (same_text_refl (child_path dir child))

small_zk-ZkLaws : ZkLaws small_zk
unfolding add_node
small_zk-ZkLaws = record {
  sequential_law = λ path value created s s' e.
      let child = utf8 "node_" ++ new_child s in
      let same : ◌≡◌ {A = Bytes} (child_path (above (path ++ utf8 "/node_")) child) created =
        ap (λ r. r.1) e in
      let next : ◌≡◌ {A = List Node} ((above (path ++ utf8 "/node_"), child, value) ∷ s) s' =
        ap (λ r. r.2) e in
      (
        child,
        [],
        children path s,
        sym same ∙ ap (λ d. child_path d child) (above_node path),
        refl,
        ap (λ n. some (children path n)) (sym next)
            ∙ ap some (
                children_first path (above (path ++ utf8 "/node_")) child value s
                  (above_node path)),
        ap (λ q. value_at q s') (sym same)
            ∙ ap (value_at (child_path (above (path ++ utf8 "/node_")) child)) (sym next)
            ∙ value_first (above (path ++ utf8 "/node_")) child value s,
      );
}

-- A user service at 10.0.0.2:9001.
abbrev ip : Bytes
unfolding utf8
ip = utf8 "10.0.0.2"

abbrev up : ZkClient
up = record { handle = true; connected = true }

no_other :
    small_zk.get_children
      (service_path user_service)
      (ensure_path small_zk (service_path user_service) [])
    ≡ some []
unfolding ensure_path ZkClient.ensure_loop ZkClient.ensure_node ZkClient.first_slash add_node
    children utf8 same_text
no_other = refl

abbrev first_node : Bytes
unfolding utf8
first_node = utf8 "/FileServer/UserService/node_0"

registered : (register_at small_zk (service_path user_service) ip (pos 9001) up []).0 ≡ first_node
unfolding register_at ZkClient.register ZkClient.created_path ensure_path ZkClient.ensure_loop
    ZkClient.ensure_node ZkClient.first_slash add_node utf8 same_text to_string
registered = refl

registers : (register_at small_zk (service_path user_service) ip (pos 9001) up []).0 ≢ []
unfolding utf8
registers e = absurd (let h = registered in cc)

ip_fits : length (ip ++ b':' ∷ to_string (pos 9001)) ≤ 256
unfolding to_string decimal ip
ip_fits = omega arith

ip_plain : All (λ c. (c == b':') ≡ false) ip
unfolding ip
ip_plain = (refl, (refl, (refl, (refl, (refl, (refl, (refl, (refl, tt))))))))

parse_addr-get_service_example :
    parse_addr (
      get_service small_zk user_service up
        (register_at small_zk (service_path user_service) ip (pos 9001) up []).1)
    ≡ some (ip, pos 9001)
parse_addr-get_service_example =
    parse_addr-get_service small_zk small_zk-ZkLaws user_service ip (pos 9001) up up [] refl refl
      refl refl ip_plain (omega arith) (omega arith) ip_fits no_other registers

ensure_path_lem_example :
    ensure_path small_zk (absolute ((b'a' ∷ []) ∷ (b'b' ∷ []) ∷ [])) []
    ≡ create_all small_zk (parents_from [] ((b'a' ∷ []) ∷ (b'b' ∷ []) ∷ [])) []
ensure_path_lem_example =
    ensure_path_lem small_zk (b'a' ∷ []) ((b'b' ∷ []) ∷ []) []
      ((omega arith, (refl, tt)), ((omega arith, (refl, tt)), tt))

-- The watcher is told of the connection after 300 ms.
abbrev told : ℕ → List ZkState
told waited = if waited == 300 then connected_state ∷ [] else []

connect_lem_example :
    (answer : Bool) × (waited : ℕ) × (client' : ZkClient) × (ZkClient.connect true 101
        (pos 10000)
        told
        new_client
      ≡ some (answer, waited, client'))
    × (client'.handle ≡ true)
    × (◌≡◌ {A = Bool} true true → answer ≡ client'.connected)
    × (◌≡◌ {A = Bool} true false
        → (answer ≡ false) × (waited ≡ 0) × (client'.connected ≡ new_client.connected))
    × (waited < pos_part (pos 10000) + 100)
    × (◌≡◌ {A = Bool} true true → answer ≡ false → pos_part (pos 10000) ≤ waited)
connect_lem_example = connect_lem true 101 (pos 10000) told new_client (omega arith)
