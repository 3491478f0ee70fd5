-- ===== src/Json.antt =====
-- The JSON library, nlohmann/json, that the messages' bodies are read and written with. It is an
-- interface: its values, and what the code calls.
use Prim.Native.Char.{code}
use Prim.Native.String.{String}
use file_server.Prelude.{
  ℕ, ◌+◌, ◌/◌, ◌%◌, ◌≡◌, ◌≢◌, ◌<◌, ◌^◌, Bool, true, Option, none, some, List, [], ◌∷◌, ◌++◌, ltb,
  if◌then◌else◌,
}
use file_server.Prelude.Int.{ℤ, pos_part, neg_part}
use file_server.Prelude.Text.{Bytes, same_text}

-- A code point in UTF-8, in which the sources are written.
unfoldable pub utf8_char : ℕ → Bytes
utf8_char c =
    if ltb c 0x80
    then c ∷ []
    else if ltb c 0x800
    then (0xC0 + c / 64) ∷ (0x80 + c % 64) ∷ []
    else if ltb c 0x10000
    then (0xE0 + c / 4096) ∷ (0x80 + c / 64 % 64) ∷ (0x80 + c % 64) ∷ []
    else (0xF0 + c / 262144) ∷ (0x80 + c / 4096 % 64) ∷ (0x80 + c / 64 % 64) ∷ (0x80 + c % 64) ∷ []

-- The bytes of a literal.
unfoldable pub utf8 : String → Bytes
unfolding utf8_char
utf8 String.[] = []
utf8 (String.◌∷◌ c s) = utf8_char (code c) ++ utf8 s

pub record JsonLib : Type 1 where
  -- The values; their numbers are finite.
  pub Json : Type 0
  -- `json::parse(text, nullptr, false)`: a text that is no JSON gives a value that is no object.
  pub parse : Bytes → Json
  -- `dump()`: `none` is the exception for a text that is not UTF-8.
  pub dump : Json → Option Bytes
  -- An object of distinct keys, an array, and the values of the C++ types.
  pub object : List (Bytes × Json) → Json
  pub array : List Json → Json
  pub text : Bytes → Json
  pub number : ℤ → Json
  pub boolean : Bool → Json
  pub null : Json
  -- `is_object()` and `empty()`; the member of an object, `none` where it has none or is no object.
  pub is_object : Json → Bool
  pub is_empty : Json → Bool
  pub member : Bytes → Json → Option Json
  -- `j[key] = value`; `none` is the exception for what is no object and not null.
  pub assign : Bytes → Json → Json → Option Json
  -- `get<std::string>()`, `get<int64_t>()`, `get<int>()`, `get<size_t>()`; `none` is the exception.
  pub get_text : Json → Option Bytes
  pub get_int64 : Json → Option ℤ
  pub get_int : Json → Option ℤ
  pub get_size : Json → Option ℕ

-- The value of a key in the list of an object.
unfoldable pub entry : {J : Type 0} → Bytes → List (Bytes × J) → Option J
entry key [] = none
entry key ((k, j) ∷ rest) = let found = entry key rest in if same_text key k then some j else found

-- What the library documents.
pub record JsonLaws (lib : JsonLib) : Type 0 where
  pub object_law : (es : List (Bytes × lib.Json)) → lib.is_object (lib.object es) ≡ true
  pub member_law :
      (key : Bytes) (es : List (Bytes × lib.Json)) → lib.member key (lib.object es) ≡ entry key es
  pub text_law : (t : Bytes) → lib.get_text (lib.text t) ≡ some t
  pub number_law : (n : ℤ) → lib.get_int64 (lib.number n) ≡ some n
  pub int_law :
      (n : ℤ) → pos_part n < 2 ^ 31 → neg_part n < 2 ^ 31 → lib.get_int (lib.number n) ≡ some n
  pub assign_object :
      (key : Bytes) (v j j' : lib.Json) → lib.assign key v j ≡ some j' → lib.is_object j' ≡ true
  pub assign_member :
      (key k : Bytes) (v j j' : lib.Json)
      → lib.assign key v j ≡ some j'
      → lib.member k j' ≡ (if same_text k key then some v else lib.member k j)
  -- A value that can be written is written to a text that is read back as the value.
  pub dump_not_empty : (j : lib.Json) → lib.dump j ≢ some []
  pub parse_dump : (j : lib.Json) (t : Bytes) → lib.dump j ≡ some t → lib.parse t ≡ j

module _ (lib : JsonLib) where
  open lib use {Json}

  -- `j.value(key, otherwise)` with a conversion; what is no object throws.
  unfoldable pub value : {A : Type 0} → (Json → Option A) → Bytes → A → Json → Option A
  value get key otherwise j =
      if lib.is_object j
      then (elim (lib.member key j) [ none ↦ some otherwise | some v ↦ get v ])
      else none

  -- `j.at(key)`, and `j[key]` where the value is converted: a key that is not there throws, since
  -- null converts to no text and no number.
  unfoldable pub at : {A : Type 0} → (Json → Option A) → Bytes → Json → Option A
  at get key j = elim (lib.member key j) [ none ↦ none | some v ↦ get v ]

  abbrev pub value_text : Bytes → Bytes → Json → Option Bytes
  value_text = value lib.get_text

  abbrev pub value_int64 : Bytes → ℤ → Json → Option ℤ
  value_int64 = value lib.get_int64

  abbrev pub at_int64 : Bytes → Json → Option ℤ
  at_int64 = at lib.get_int64

  abbrev pub at_text : Bytes → Json → Option Bytes
  at_text = at lib.get_text

  -- `j[key]` for its value alone: null where there is no such key.
  unfoldable pub index : Bytes → Json → Json
  index key j = elim (lib.member key j) [ none ↦ lib.null | some v ↦ v ]

  abbrev pub value_int : Bytes → ℤ → Json → Option ℤ
  value_int = value lib.get_int
