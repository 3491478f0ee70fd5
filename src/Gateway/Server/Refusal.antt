-- ===== src/Gateway/Server/Refusal.antt =====
-- gateway/bin/server_main.cc: what is done for a request without a valid token.
use file_server.Prelude.{◌≡◌, ◌⊎◌, refl, subst, sym, inl, inr, true, false, Option, none, some, []}
use file_server.Prelude.Int.{ℤ, pos, negsuc, leb_ℤ}
use file_server.Prelude.Text.{Bytes, same_text, same_text_refl, same_text_eq}
use file_server.Prelude.Action.{Action}
use file_server.Json.{JsonLib, utf8}
use file_server.Protocol.Message.{Message}
use file_server.Protocol.Body.{get_cmd}
use file_server.Database.{Mysql, MysqlLaws}
use file_server.Storage.{Os}
use file_server.Services.Filename.{Tm}
use file_server.Services.UserService.{verify_token}
use file_server.Services.UserService.Login.{verify_token_lem}
use file_server.Gateway.Router.{
  Handler, Router, Every, register-Every, handler_of, handler_of-Every, run_handler, route,
  unknown_command,
}
use file_server.Gateway.Server.{
  World, respond, get_token, with_user, upload_start_handler, upload_data_handler,
  upload_finalize_handler, download_handler, download_chunk_handler, list_handler, delete_handler,
  server_router,
}

module _ (lib : JsonLib) (mysql : Mysql) (os : Os) (base : Bytes) where
  open mysql use {rows}

  -- What a request gets whose token stands for no user.
  abbrev refuse :
      Bytes → Message → World lib mysql os base → Option Message × World lib mysql os base
  refuse token req s = (
    respond lib req (negsuc 0) (utf8 "认证失败"),
    record s { db = (verify_token mysql token s.db).1 },
  )

  abbrev Refuses : Handler (World lib mysql os base) → Type 0
  Refuses handler =
      (req : Message) (s : World lib mysql os base) (token : Bytes)
      → get_token lib req ≡ some token
      → leb_ℤ (verify_token mysql token s.db).0 (pos 0) ≡ true
      → handler req s ≡ refuse token req s

  with_user_refused :
      (rest : ℤ → Action (World lib mysql os base) Message) (req : Message)
      (s : World lib mysql os base) (token : Bytes)
      → get_token lib req ≡ some token
      → leb_ℤ (verify_token mysql token s.db).0 (pos 0) ≡ true
      → with_user lib mysql os base rest req s ≡ refuse token req s
  unfolding with_user
  with_user_refused rest req s token has invalid = rw has (rw invalid refl)

  -- The two commands that need no token.
  abbrev NeedsToken : Bytes → Type 0
  NeedsToken cmd =
      (same_text cmd (utf8 "register") ≡ false) × (same_text cmd (utf8 "login") ≡ false)

  abbrev Guarded : Bytes → Handler (World lib mysql os base) → Type 0
  Guarded name handler = NeedsToken name → Refuses handler

  server_router-Guarded :
      (new_token : Bytes) (now : Tm) → Every Guarded (server_router lib mysql os base new_token now)
  unfolding server_router upload_start_handler upload_data_handler upload_finalize_handler
      download_handler download_chunk_handler list_handler delete_handler
  server_router-Guarded new_token now =
      let add = register-Every Guarded in
      add (utf8 "delete") _ _ (λ _ req. with_user_refused _ req)
        (add (utf8 "list") _ _ (λ _ req. with_user_refused _ req)
          (add (utf8 "download_chunk") _ _ (λ _ req. with_user_refused _ req)
            (add (utf8 "download") _ _ (λ _ req. with_user_refused _ req)
              (add (utf8 "upload_finalize") _ _ (λ _ req. with_user_refused _ req)
                (add (utf8 "upload_data") _ _ (λ _ req. with_user_refused _ req)
                  (add (utf8 "upload_start") _ _ (λ _ req. with_user_refused _ req)
                    (add (utf8 "login") _ _ (λ h. absurd (cc (h.1, same_text_refl (utf8 "login"))))
                      (add (utf8 "register") _ []
                        (λ h. absurd (cc (h.0, same_text_refl (utf8 "register")))) tt))))))))

  module _ (laws : MysqlLaws mysql) (new_token : Bytes) (now : Tm) where
    abbrev router : Router (World lib mysql os base)
    router = server_router lib mysql os base new_token now

    abbrev Refused :
        Message → World lib mysql os base → Option Message × World lib mysql os base → Type 0
    Refused req s (r, s') =
        (rows s'.db ≡ rows s.db)
        × (s'.disk ≡ s.disk)
        × ((r ≡ respond lib req (negsuc 0) (utf8 "认证失败"))
            ⊎ ((handler_of (get_cmd lib req) router ≡ none) × (r ≡ unknown_command lib req)))

    run-Refused :
        (req : Message) (s : World lib mysql os base) (token : Bytes)
        → NeedsToken (get_cmd lib req)
        → get_token lib req ≡ some token
        → leb_ℤ (verify_token mysql token s.db).0 (pos 0) ≡ true
        → (found : Option (Handler (World lib mysql os base)))
        → handler_of (get_cmd lib req) router ≡ found
        → Refused req s (run_handler lib found req s)
    unfolding run_handler
    run-Refused req s token needs has invalid none e = (refl, refl, inr (e, refl))
    run-Refused req s token needs has invalid (some handler) e =
        let (name, same, guarded) =
          handler_of-Every Guarded (get_cmd lib req) router (server_router-Guarded new_token now)
            handler e in
        let needs_name = subst NeedsToken (same_text_eq (get_cmd lib req) name same) needs in
        subst (Refused req s) (sym (guarded needs_name req s token has invalid))
          ((verify_token_lem mysql laws token s.db).0, refl, inl refl)

    -- A request whose command is not `register` or `login` and whose token stands for no user
    -- changes no row and no byte of the disk. It is answered with code -1, and with code -3 where
    -- the command is unknown. The token can be read from the body, and the database keeps
    -- `MysqlLaws`.
    pub server_refuses :
        (req : Message) (s : World lib mysql os base) (token : Bytes)
        → NeedsToken (get_cmd lib req)
        → get_token lib req ≡ some token
        → leb_ℤ (verify_token mysql token s.db).0 (pos 0) ≡ true
        → let (r, s') = route lib router req s in
          (rows s'.db ≡ rows s.db)
          × (s'.disk ≡ s.disk)
          × ((r ≡ respond lib req (negsuc 0) (utf8 "认证失败"))
              ⊎ ((handler_of (get_cmd lib req) router ≡ none) × (r ≡ unknown_command lib req)))
    unfolding route
    server_refuses req s token needs has invalid =
        run-Refused req s token needs has invalid (handler_of (get_cmd lib req) router) refl
