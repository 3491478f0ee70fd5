-- ===== src/Protocol/Body.antt =====
-- protocol/message.cc: the JSON body of a message.
use file_server.Prelude.{Option, none, some, [], ◌∷◌, ◌≡◌}
use file_server.Prelude.Text.{Bytes}
use file_server.Json.{JsonLib, JsonLaws, utf8}
use file_server.Protocol.Message.{Message, size32}

module _ (lib : JsonLib) where
  open lib use {Json}

  unfoldable pub json_of : Bytes → Json
  json_of [] = lib.object []
  json_of (b ∷ bs) = lib.parse (b ∷ bs)

  -- `GetJson`
  unfoldable pub get_json : Message → Json
  unfolding json_of
  get_json msg = json_of msg.json_body

  abbrev body_set : Message → Bytes → Message
  body_set msg body = record msg {
    json_body = body;
    header = record msg.header { body_length = size32 body };
  }

  -- `SetJson`; `none` is the exception of `dump`.
  unfoldable pub set_json : Json → Message → Option Message
  set_json j msg = elim (lib.dump j) [ none ↦ none | some body ↦ some (body_set msg body) ]

  abbrev or_empty : Option Bytes → Bytes
  or_empty none = []
  or_empty (some t) = t

  -- `GetCmd`: `is_string` holds just where `get<std::string>` does not throw.
  unfoldable pub get_cmd : Message → Bytes
  unfolding get_json
  get_cmd msg = elim (lib.member (utf8 "cmd") (get_json msg)) [
    | none ↦ []
    | some j ↦ or_empty (lib.get_text j)
  ]

  -- A body that was written is read as the value.
  pub json_of-dump :
      JsonLaws lib → (j : Json) (body : Bytes) → lib.dump j ≡ some body → json_of body ≡ j
  unfolding json_of
  json_of-dump laws j [] e = absurd (laws.dump_not_empty j e)
  json_of-dump laws j (b ∷ bs) e = laws.parse_dump j (b ∷ bs) e
