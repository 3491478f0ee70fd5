-- ===== src/Gateway/Discovery/Found.antt =====
-- gateway/bin/gateway_main.cc: a registered service is found and called.
use file_server.Prelude.{
  ℕ, ◌^◌, ◌<◌, ◌≤◌, ◌≡◌, ◌≢◌, refl, sym, ap, ◌∙◌, true, false, Option, some, List, [], ◌∷◌, ◌++◌,
  length, All, ◌==◌, if-true, if◌then◌else◌, Bool, arith, append-eq-nil, length-append,
}
use file_server.Prelude.Int.{ℤ, pos_part, neg_part}
use file_server.Prelude.Text.{Bytes}
use file_server.Prelude.Decimal.{to_string, stoi-to_string}
use file_server.Prelude.Dict.{lookup}
use file_server.Json.{JsonLib, JsonLaws}
use file_server.Network.{Network, connect}
use file_server.Protocol.Header.{MessageHeader, empty_header}
use file_server.Rpc.ZkClient.{ZkLib, ZkLaws, ZkClient, ensure_path, register_at, addresses}
use file_server.Rpc.ZkClient.Addresses.{discover-register}
use file_server.Rpc.Server
use file_server.Rpc.Server.{RpcServer, Methods, dispatch, perform}
use file_server.Rpc.Client
use file_server.Rpc.Client.{RpcClient, start_call, end_call, not_connected}
use file_server.Rpc.Request.{Request, IsCallable, between_messages, request_task}
use file_server.Rpc.RoundTrip.{rpc_round_trip}
use file_server.Gateway.Process.{Service}
use file_server.Gateway.Discovery.{
  service_path, fallback, first_or, get_service, cut_colon, with_port, endpoint, parse_addr,
  fresh_client, deliver, after_send, call_once, disconnect, no_connection, call_at, call_rpc,
}

abbrev address : Bytes → ℤ → Bytes
address ip port = ip ++ b':' ∷ to_string port

cut_colon_lem :
    (ip rest : Bytes)
    → All (λ c. (c == b':') ≡ false) ip
    → cut_colon (ip ++ b':' ∷ rest) ≡ some (ip, rest)
unfolding cut_colon
cut_colon_lem [] rest all = refl
cut_colon_lem (c ∷ cs) rest all = ground (arith, cut_colon_lem cs rest all.1)

-- ParseAddr reads the host and the port back from the form in which a service registers them: the
-- host has no colon, and the port is an `int`.
pub parse_addr-address :
    (ip : Bytes) (port : ℤ)
    → All (λ c. (c == b':') ≡ false) ip
    → pos_part port < 2 ^ 31
    → neg_part port ≤ 2 ^ 31
    → parse_addr (ip ++ b':' ∷ to_string port) ≡ some (ip, port)
unfolding parse_addr endpoint with_port
parse_addr-address ip port all high low =
    ap (endpoint (address ip port)) (cut_colon_lem ip (to_string port) all)
    ∙ ap (with_port ip) (stoi-to_string port high low)

module _ (zk : ZkLib) (laws : ZkLaws zk) where
  open zk use {Nodes}

  first_found :
      (path addr otherwise : Bytes) (before rest : List Bytes) (s : Nodes)
      → before ≡ []
      → first_or otherwise (addresses zk path before s ++ (addr ∷ rest)) ≡ addr
  unfolding first_or addresses
  first_found path addr otherwise before rest s e =
      ap (λ b. first_or otherwise (addresses zk path b s ++ (addr ∷ rest))) e

  -- A service registers an ip without a colon and a port, an `int`, in at most 256 bytes, under the
  -- path of its kind, where there is no other. If the answer is not empty, a gateway that is connected
  -- calls this ip and this port then.
  pub parse_addr-get_service :
      (service : Service) (ip : Bytes) (port : ℤ) (server gateway : ZkClient) (s : Nodes)
      → server.connected ≡ true
      → server.handle ≡ true
      → gateway.connected ≡ true
      → gateway.handle ≡ true
      → All (λ c. (c == b':') ≡ false) ip
      → pos_part port < 2 ^ 31
      → neg_part port ≤ 2 ^ 31
      → length (ip ++ b':' ∷ to_string port) ≤ 256
      → zk.get_children (service_path service) (ensure_path zk (service_path service) s) ≡ some []
      → (register_at zk (service_path service) ip port server s).0 ≢ []
      → parse_addr (
          get_service zk service gateway (register_at zk (service_path service) ip port server s).1)
        ≡ some (ip, port)
  unfolding register_at get_service
  parse_addr-get_service service ip port server gateway s c h c' h' all high low fits alone made =
      let path = service_path service in
      let (before, after, old, found) =
        discover-register zk laws path (address ip port) server gateway s c h c' h'
          (omega (arith, length-append ip (b':' ∷ to_string port))) fits made in
      let none_else : before ++ after ≡ [] = cc in
      ap (λ nodes. parse_addr (first_or (fallback service) nodes)) found
      ∙ ap parse_addr (
          first_found path (address ip port) (fallback service) before _ _
            (append-eq-nil before after none_else))
      ∙ parse_addr-address ip port all high low

-- The call with the first promise of a new client.
abbrev pub first_promise : (lib : JsonLib) → Request lib → Request lib
first_promise lib c = record c { promise = 0 }

module _ (lib : JsonLib) (laws : JsonLaws lib) {S : Type 0} (net : Network S) where
  connected_after :
      (host : Bytes) (port : ℤ) (s s₁ : S)
      → connect net host port s ≡ (true, s₁)
      → net.connected s₁ ≡ true
  unfolding connect
  connected_after host port s s₁ up = ap net.connected (sym (ap (λ r. r.1) up)) ∙ ap (λ r. r.0) up

  module _ (service : Service) (addr host wire reply : Bytes) (port : ℤ) (c : Request lib)
      (s s₁ s₂ : S) where
    abbrev sent : Option (ℕ × Bytes) × RpcClient lib
    sent = start_call lib 0 c.method c.args c.binary (fresh_client lib net)

    call_at-answer :
        connect net host port s ≡ (true, s₁)
        → sent.0 ≡ some (1, wire)
        → net.exchange wire s₁ ≡ (reply ∷ [], s₂)
        → call_at lib net service addr c.method c.args c.binary (some (host, port)) s
          ≡ (some (end_call lib 0 1 (Client.on_message lib reply sent.1)).0, net.release s₂)
    unfolding call_at call_once after_send deliver disconnect
    call_at-answer up started back =
        ap
          (λ (r : Bool × S).
            if r.0
            then disconnect lib net (call_once lib net c.method c.args c.binary r.1)
            else (some (no_connection lib net service addr), net.release r.1))
          up
        ∙ ap (disconnect lib net)
            (if-true (some (not_connected lib), s₁) (connected_after host port s s₁ up))
        ∙ ap (λ r. disconnect lib net (after_send lib net (r, sent.1) s₁)) started
        ∙ ap
            (λ (r : List Bytes × S).
              (some (end_call lib 0 1 (deliver lib net r.0 sent.1)).0, net.release r.1))
            back

  -- CallRpc of a service at an address that ParseAddr can read: where the connection comes up, the
  -- bytes that are sent make one task of the server there, and if what a worker sends for the task is
  -- what comes back, then CallRpc answers the result of the method, and disconnects. The call can be
  -- sent, the server has read whole messages only from the connection and its pool runs, the result
  -- can be written in less than 4 GiB, and the JSON library keeps `JsonLaws`.
  pub call_rpc-dispatch :
      {W : Type 0} (zk : ZkLib) (gateway : ZkClient) (z : zk.Nodes) (service : Service)
      (host wire reply text : Bytes) (port : ℤ) (c : Request lib) (s s₁ s₂ : S) (server : RpcServer)
      (conn : ℕ) (h : MessageHeader) (what : Bytes) (table : Methods lib W) (w : W)
      → IsCallable lib (first_promise lib c)
      → parse_addr (get_service zk service gateway z) ≡ some (host, port)
      → connect net host port s ≡ (true, s₁)
      → lookup conn server.decoders ≡ some (between_messages h)
      → server.worker_pool.running ≡ true
      → (perform lib what table (request_task lib c (fresh_client lib net) conn) w).0 ≡ some reply
      → lib.dump (dispatch lib what table (request_task lib c (fresh_client lib net) conn) w).0
        ≡ some text
      → length text < 2 ^ 32
      → (start_call lib 0 c.method c.args c.binary (fresh_client lib net)).0 ≡ some (1, wire)
      → net.exchange wire s₁ ≡ (reply ∷ [], s₂)
      → ((Server.on_message lib conn wire server).1.worker_pool.submitted
          ≡ server.worker_pool.submitted ++ request_task lib c (fresh_client lib net) conn ∷ [])
        × (call_rpc lib net zk gateway z service c.method c.args c.binary s ≡ (
          some (dispatch lib what table (request_task lib c (fresh_client lib net) conn) w).0,
          net.release s₂,
        ))
  unfolding call_rpc
  call_rpc-dispatch zk gateway z service host wire reply text port c s s₁ s₂ server conn h what
        table w v parsed up known on replied writes fits sends back =
      let (read, binary, wire', started, taken, tasks, reply', performed, ended, rest) =
        rpc_round_trip lib laws (first_promise lib c) (fresh_client lib net) server conn
          empty_header h what table w text 0 v (omega arith) refl known on writes fits in
      let same_wire : wire' ≡ wire = cc in
      let both : some reply' ≡ some reply = sym (ap (λ p. p.0) performed) ∙ replied in
      let same_reply : reply' ≡ reply = cc in
      (
        ap (λ b. (Server.on_message lib conn b server).1.worker_pool.submitted) (sym same_wire)
            ∙ tasks,
        ap
              (λ a.
                call_at lib net service (get_service zk service gateway z) c.method c.args c.binary
                  a s)
              parsed
            ∙ call_at-answer service (get_service zk service gateway z) host wire reply port c s s₁
                s₂ up sends back
            ∙ ap
                (λ b. (
                  some
                      (end_call lib 0 1 (
                        Client.on_message lib b
                          (start_call lib 0 c.method c.args c.binary (fresh_client lib net)).1)).0,
                  net.release s₂,
                ))
                (sym same_reply)
            ∙ ap (λ a. (some a, net.release s₂)) ended,
      )
