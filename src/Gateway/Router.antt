-- ===== src/Gateway/Router.antt =====
-- gateway/handler/request_router.cc and request_router.h: the handlers by the command of the request.
use file_server.Prelude.{
  ◌≡◌, ap, subst, if-true, if-false, ◌∙◌, sym, true, Option, none, some, List, [], ◌∷◌, ◌++◌, All,
  if◌then◌else◌, inl, inr, Bool-cases,
}
use file_server.Prelude.Text.{Bytes, same_text}
use file_server.Prelude.Int.{negsuc}
use file_server.Prelude.Action.{Action}
use file_server.Json.{JsonLib, utf8}
use file_server.Protocol.Header.{MessageHeader, empty_header, type_code, response}
use file_server.Protocol.Message.{Message, empty_message}
use file_server.Protocol.Body.{set_json, get_cmd}

-- A handler works on a state, the services' one.
abbrev pub Handler : Type 0 → Type 0
Handler S = Message → Action S Message

-- `handlers_`
abbrev pub Router : Type 0 → Type 0
Router S = List (Bytes × Handler S)

abbrev pub reply_header : Message → MessageHeader
reply_header req = record empty_header {
  msg_type = type_code response;
  request_id = req.header.request_id;
}

module _ (lib : JsonLib) where
  -- The answer to a command without a handler.
  unfoldable pub unknown_command : Message → Option Message
  unknown_command request =
      set_json lib
        (lib.object (
          (utf8 "code", lib.number (negsuc 2))
          ∷ (utf8 "msg", lib.text (utf8 "未知命令: " ++ get_cmd lib request))
          ∷ []))
        (record empty_message { header = reply_header request })

module _ {S : Type 0} where
  unfoldable pub unregister : Bytes → Router S → Router S
  unregister cmd [] = []
  unregister cmd ((name, handler) ∷ rest) =
      let kept = unregister cmd rest in if same_text cmd name then kept else (name, handler) ∷ kept

  -- `Register`: an earlier handler of the command is replaced.
  unfoldable pub register : Bytes → Handler S → Router S → Router S
  unfolding unregister
  register cmd handler router = (cmd, handler) ∷ unregister cmd router

  unfoldable pub handler_of : Bytes → Router S → Option (Handler S)
  handler_of cmd [] = none
  handler_of cmd ((name, handler) ∷ rest) =
      let found = handler_of cmd rest in if same_text cmd name then some handler else found

  module _ (lib : JsonLib) where
    unfoldable pub run_handler : Option (Handler S) → Message → Action S Message
    unfolding unknown_command
    run_handler none request s = (unknown_command lib request, s)
    run_handler (some handler) request s = handler request s

    -- `Route`
    unfoldable pub route : Router S → Message → Action S Message
    unfolding run_handler
    route router request s = run_handler (handler_of (get_cmd lib request) router) request s

abbrev or_first : {A : Type 0} → A → Option A → A
or_first a none = a
or_first a (some b) = b

module _ {S : Type 0} (P : Bytes → Handler S → Type 0) where
  -- A property of all entries.
  abbrev pub Every : Router S → Type 0
  Every router = All (λ (name, handler). P name handler) router

  unregister-Every :
      (cmd : Bytes) (router : Router S) → Every router → Every (unregister cmd router)
  unfolding unregister
  unregister-Every cmd [] h = tt
  unregister-Every cmd ((name, handler) ∷ rest) (h, hs) = elim (Bool-cases (same_text cmd name)) [
    | inl e ↦ rw e (unregister-Every cmd rest hs)
    | inr e ↦ rw e (h, unregister-Every cmd rest hs)
  ]

  pub register-Every :
      (cmd : Bytes) (handler : Handler S) (router : Router S)
      → P cmd handler
      → Every router
      → Every (register cmd handler router)
  unfolding register
  register-Every cmd handler router h hs = (h, unregister-Every cmd router hs)

  -- The handler that is found has the property under its name.
  pub handler_of-Every :
      (cmd : Bytes) (router : Router S)
      → Every router
      → (handler : Handler S) → handler_of cmd router ≡ some handler
      → (name : Bytes) × (same_text cmd name ≡ true) × P name handler
  unfolding handler_of
  handler_of-Every cmd [] hs handler e = absurd (cc)
  handler_of-Every cmd ((name, h) ∷ rest) (p, hs) handler e =
      elim (Bool-cases (same_text cmd name)) [
        | inl same ↦
            let is_h : h ≡ handler =
              ap (or_first h) (sym (if-true (handler_of cmd rest) same) ∙ e) in
            (name, same, subst (P name) is_h p)
        | inr other ↦ handler_of-Every cmd rest hs handler (sym (if-false (some h) other) ∙ e)
      ]
