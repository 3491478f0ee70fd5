-- ===== src/Gateway/Process/Tokens.antt =====
-- gateway/bin/gateway_main.cc and services/user_service_server.cc: the check of a token by a call of the
-- user service.
use file_server.Prelude.{ℕ, ◌≡◌, refl, ap, ◌∙◌, Option, none, some, [], ◌∷◌, ◌++◌}
use file_server.Prelude.Int.{ℤ, pos}
use file_server.Prelude.Text.{Bytes, same_text}
use file_server.Prelude.Action.{lift, >>=-some}
use file_server.Json.{JsonLib, JsonLaws, utf8, entry, value, value_text, value_int64}
use file_server.Protocol.Message.{Message}
use file_server.Protocol.Body.{get_json}
use file_server.Database.{Mysql}
use file_server.Services.UserService.{verify_token}
use file_server.Services.Methods.{user_methods, verify_token_method, verify_result}
use file_server.Rpc.Server.{RpcTask, dispatch, call_method, caught}
use file_server.Gateway.Process.{Remote, user_service, remote_user}

caught-some :
    (lib : JsonLib) (what : Bytes) {S : Type 0} {result : lib.Json} (r : Option lib.Json × S)
    → r.0 ≡ some result
    → (caught lib what r).0 ≡ result
unfolding caught
caught-some lib what {S} {result} (none, s) e = absurd (cc)
caught-some lib what {S} {result} (some j, s) e = ap (or_else result) e
  where
    or_else : lib.Json → Option lib.Json → lib.Json
    or_else k none = k
    or_else k (some j) = j

module _ (lib : JsonLib) (laws : JsonLaws lib) (mysql : Mysql) where
  open lib use {Json}
  open mysql use {Db}

  abbrev pub token_args : Bytes → Json
  token_args token = lib.object ((utf8 "token", lib.text token) ∷ [])

  user_id_read :
      (uid : ℤ) → value_int64 lib (utf8 "user_id") (pos 0) (verify_result lib uid) ≡ some uid
  unfolding value verify_result utf8 entry same_text
  user_id_read uid = rw laws.object_law (rw laws.member_law (laws.number_law uid))

  module _ (token : Bytes) (sent : Json)
      (named : lib.assign (utf8 "method") (lib.text (utf8 "VerifyToken")) (token_args token)
        ≡ some sent) where
    token_read : value_text lib (utf8 "token") [] sent ≡ some token
    unfolding value utf8 entry same_text
    token_read =
        rw
          (laws.assign_object (utf8 "method") (lib.text (utf8 "VerifyToken")) (token_args token)
            sent named)
          (rw
            (laws.assign_member (utf8 "method") (utf8 "token") (lib.text (utf8 "VerifyToken"))
              (token_args token) sent named)
            (rw laws.member_law (laws.text_law token)))

    method_result :
        (db : Db)
        → (verify_token_method lib mysql sent db).0
          ≡ some (verify_result lib (verify_token mysql token db).0)
    unfolding verify_token_method
    method_result db = rw token_read refl

    -- The task that a call of the method makes.
    abbrev verify_task : ℕ → Message → RpcTask
    verify_task conn request = record {
      conn = conn;
      method = utf8 "VerifyToken";
      request = request;
    }

    module _ (what new_token : Bytes) (conn : ℕ) (request : Message)
        (is_sent : get_json lib request ≡ sent) (db : Db) where
      caught_result :
          (dispatch lib what (user_methods lib mysql new_token) (verify_task conn request) db).0
          ≡ (caught lib
              (utf8 "RPC异常: " ++ what)
              (verify_token_method lib mysql (get_json lib request) db)).0
      unfolding dispatch call_method user_methods entry same_text utf8
      caught_result = refl

      dispatch_result :
          (dispatch lib what (user_methods lib mysql new_token) (verify_task conn request) db).0
          ≡ verify_result lib (verify_token mysql token db).0
      dispatch_result =
          caught_result
          ∙ caught-some lib (utf8 "RPC异常: " ++ what)
              (verify_token_method lib mysql (get_json lib request) db)
              (ap (λ j. (verify_token_method lib mysql j db).0) is_sent ∙ method_result db)

  -- The gateway's check of a token by a call answers the same user as the check in one process. The
  -- call of `VerifyToken`, where it is made, comes back with what the user service dispatches for
  -- the arguments with the method's name; an empty token is not sent. The JSON library keeps
  -- `JsonLaws`.
  pub remote_user-verify_token :
      {S : Type 0} (remote : Remote lib S) (s : S) (token : Bytes) (sent : Json)
      (what new_token : Bytes) (conn : ℕ) (request : Message) (db : Db)
      → lib.assign (utf8 "method") (lib.text (utf8 "VerifyToken")) (token_args token) ≡ some sent
      → get_json lib request ≡ sent
      → (remote user_service (utf8 "VerifyToken") (token_args token) [] s).0
        ≡ some
            (dispatch lib what
              (user_methods lib mysql new_token)
              (record { conn = conn; method = utf8 "VerifyToken"; request = request })
              db).0
      → (remote_user lib remote token s).0 ≡ some (verify_token mysql token db).0
  unfolding remote_user verify_token
  remote_user-verify_token remote s [] sent what new_token conn request db named is_sent back = refl
  remote_user-verify_token remote s (b ∷ bs) sent what new_token conn request db named is_sent
        back =
      let result = dispatch_result (b ∷ bs) sent named what new_token conn request is_sent db in
      ap (λ r. r.0)
        (>>=-some (remote user_service (utf8 "VerifyToken") (token_args (b ∷ bs)) [])
          (λ r. lift (value_int64 lib (utf8 "user_id") (pos 0) r)) s _ (back ∙ ap some result))
      ∙ user_id_read (verify_token mysql (b ∷ bs) db).0
