-- ===== src/Examples/FlatJson.antt =====
-- A small JSON library for the runs: it writes texts, and objects of texts.
use mathlib.Core.Option
use file_server.Prelude.{
  ℕ, zero, suc, ◌≡◌, ◌≢◌, refl, ap, ap₂, sym, ◌∙◌, Bool, true, false, Option, none, some, List, [],
  ◌∷◌, ◌++◌, map, if◌then◌else◌, inl, inr, Option-cases,
}
use file_server.Prelude.Int.{ℤ, pos, negsuc}
use file_server.Prelude.Text.{Bytes, same_text}
use file_server.Json.{JsonLib, JsonLaws, entry}

pub data Tree : Type 0 where
  word : Bytes → Tree
  num : ℤ → Tree
  truth : Bool → Tree
  broken : Tree
  no_more : Tree
  member_of : Bytes → Tree → Tree → Tree

unfoldable pub object_of : List (Bytes × Tree) → Tree
object_of [] = no_more
object_of ((k, t) ∷ rest) = member_of k t (object_of rest)

unfoldable pub find : Bytes → Tree → Option Tree
find key (member_of k t rest) =
    let found = find key rest in if same_text key k then some t else found
find key other = none

abbrev pub has_members : Tree → Bool
has_members no_more = true
has_members (member_of k t rest) = true
has_members other = false

-- Texts one behind another, each with a mark at its end, and back.
unfoldable pub flat : List Bytes → Bytes
flat [] = []
flat (t ∷ ts) = map suc t ++ zero ∷ flat ts

abbrev extend : ℕ → List Bytes → List Bytes
extend n [] = (n ∷ []) ∷ []
extend n (t ∷ ts) = (n ∷ t) ∷ ts

unfoldable pub cut : Bytes → List Bytes
cut [] = []
cut (zero ∷ r) = [] ∷ cut r
cut (suc n ∷ r) = extend n (cut r)

cut-mark : (t r : Bytes) → cut (map suc t ++ zero ∷ r) ≡ t ∷ cut r
unfolding cut
cut-mark [] r = refl
cut-mark (b ∷ t) r = ap (extend b) (cut-mark t r)

cut-flat : (ts : List Bytes) → cut (flat ts) ≡ ts
unfolding flat cut
cut-flat [] = refl
cut-flat (t ∷ ts) = cut-mark t (flat ts) ∙ ap (◌∷◌ t) (cut-flat ts)

-- A value with a mark of its kind, and back.
unfoldable pub value_word : Tree → Option Bytes
value_word (word t) = some (0 ∷ t)
value_word (num (pos n)) = some (1 ∷ n ∷ [])
value_word (num (negsuc n)) = some (2 ∷ n ∷ [])
value_word other = none

unfoldable pub value_of : Bytes → Tree
value_of [] = broken
value_of (zero ∷ t) = word t
value_of (suc zero ∷ []) = broken
value_of (suc zero ∷ n ∷ r) = num (pos n)
value_of (suc (suc m) ∷ []) = broken
value_of (suc (suc m) ∷ n ∷ r) = num (negsuc n)

abbrev or_nothing_word : Option Bytes → Bytes
or_nothing_word none = []
or_nothing_word (some w) = w

value_of-word : (v : Tree) (w : Bytes) → value_word v ≡ some w → value_of w ≡ v
unfolding value_word value_of
value_of-word (word t) w e = ap (λ o. value_of (or_nothing_word o)) (sym e)
value_of-word (num (pos n)) w e = ap (λ o. value_of (or_nothing_word o)) (sym e)
value_of-word (num (negsuc n)) w e = ap (λ o. value_of (or_nothing_word o)) (sym e)
value_of-word (truth b) w e = absurd (cc)
value_of-word broken w e = absurd (cc)
value_of-word no_more w e = absurd (cc)
value_of-word (member_of k t r) w e = absurd (cc)

unfoldable pub join : Bytes → Option Bytes → Option (List Bytes) → Option (List Bytes)
join k none rest = none
join k (some w) none = none
join k (some w) (some ts) = some (k ∷ w ∷ ts)

unfoldable pub words : Tree → Option (List Bytes)
unfolding value_word join
words no_more = some []
words (member_of k v rest) = join k (value_word v) (words rest)
words other = none

unfoldable pub pairs : List Bytes → Tree
unfolding value_of
pairs [] = no_more
pairs (k ∷ []) = no_more
pairs (k ∷ w ∷ rest) = member_of k (value_of w) (pairs rest)

abbrev or_nothing : Option (List Bytes) → List Bytes
or_nothing none = []
or_nothing (some ts) = ts

join-some :
    (k : Bytes) (v rest : Tree) (w : Option Bytes) (us : Option (List Bytes)) (ts : List Bytes)
    → value_word v ≡ w
    → ((us' : List Bytes) → us ≡ some us' → pairs us' ≡ rest)
    → join k w us ≡ some ts
    → pairs ts ≡ member_of k v rest
unfolding join pairs
join-some k v rest none us ts is_w read_rest e = absurd (cc)
join-some k v rest (some w) none ts is_w read_rest e = absurd (cc)
join-some k v rest (some w) (some us) ts is_w read_rest e =
    ap (λ o. pairs (or_nothing o)) (sym e)
    ∙ ap₂ (member_of k) (value_of-word v w is_w) (read_rest us refl)

pairs-words : (t : Tree) (ts : List Bytes) → words t ≡ some ts → pairs ts ≡ t
unfolding words pairs
pairs-words no_more ts e = ap (λ o. pairs (or_nothing o)) (sym e)
pairs-words (member_of k v rest) ts e =
    join-some k v rest (value_word v) (words rest) ts refl (pairs-words rest) e
pairs-words (word t) ts e = absurd (cc)
pairs-words (num n) ts e = absurd (cc)
pairs-words (truth b) ts e = absurd (cc)
pairs-words broken ts e = absurd (cc)

unfoldable pub write : Tree → Option Bytes
unfolding words flat
write (word t) = some (0 ∷ t)
write other = Option.map (λ ts. 1 ∷ flat ts) (words other)

unfoldable pub read : Bytes → Tree
unfolding pairs cut
read [] = broken
read (zero ∷ t) = word t
read (suc zero ∷ r) = pairs (cut r)
read (suc (suc n) ∷ r) = broken

abbrev set_member : Bytes → Tree → Tree → Option Tree
set_member k v t = if has_members t then some (member_of k v t) else none

abbrev text_of : Tree → Option Bytes
text_of (word t) = some t
text_of other = none

abbrev number_of : Tree → Option ℤ
number_of (num n) = some n
number_of other = none

unfoldable pub flat_json : JsonLib
flat_json = record {
  Json = Tree;
  parse = read;
  dump = write;
  object = object_of;
  array = λ ts. broken;
  text = word;
  number = num;
  boolean = truth;
  null = broken;
  is_object = has_members;
  is_empty = λ t. elim t [ no_more ↦ true | _ ↦ false ];
  member = find;
  assign = set_member;
  get_text = text_of;
  get_int64 = number_of;
  get_int = number_of;
  get_size = λ t. none;
}

object_of-has_members : (es : List (Bytes × Tree)) → has_members (object_of es) ≡ true
unfolding object_of
object_of-has_members [] = refl
object_of-has_members ((k, t) ∷ rest) = refl

find-object_of : (key : Bytes) (es : List (Bytes × Tree)) → find key (object_of es) ≡ entry key es
unfolding object_of find entry
find-object_of key [] = refl
find-object_of key ((k, t) ∷ rest) =
    ap (λ found. if same_text key k then some t else found) (find-object_of key rest)

abbrev tree_or : Tree → Option Tree → Tree
tree_or t none = t
tree_or t (some u) = u

set_member-inv : (k : Bytes) (v t u : Tree) → set_member k v t ≡ some u → u ≡ member_of k v t
set_member-inv k v no_more u e = ap (tree_or no_more) (sym e)
set_member-inv k v (member_of j w r) u e = ap (tree_or no_more) (sym e)
set_member-inv k v (word t) u e = absurd (cc)
set_member-inv k v (num n) u e = absurd (cc)
set_member-inv k v (truth b) u e = absurd (cc)
set_member-inv k v broken u e = absurd (cc)

find-set_member :
    (key k : Bytes) (v t u : Tree)
    → set_member key v t ≡ some u
    → find k u ≡ (if same_text k key then some v else find k t)
unfolding find
find-set_member key k v t u e = ap (find k) (set_member-inv key v t u e)

write-not_empty : (t : Tree) → write t ≢ some []
unfolding write
write-not_empty (word t) e = absurd (cc)
write-not_empty (num n) e = absurd (cc)
write-not_empty (truth b) e = absurd (cc)
write-not_empty broken e = absurd (cc)
write-not_empty no_more e = absurd (cc)
write-not_empty (member_of k t rest) e = elim (Option-cases (words (member_of k t rest))) [
  | inl f ↦ absurd (cc)
  | inr (ts, f) ↦ absurd (cc)
]

abbrev bytes_or_nothing : Option Bytes → Bytes
bytes_or_nothing none = []
bytes_or_nothing (some b) = b

read-written :
    (t : Tree) (ts : List Bytes) (b : Bytes)
    → words t ≡ some ts
    → Option.map (λ us. 1 ∷ flat us) (words t) ≡ some b
    → read b ≡ t
unfolding read
read-written t ts b f e =
    ap (λ o. read (bytes_or_nothing o)) (sym e ∙ ap (Option.map (λ us. 1 ∷ flat us)) f)
    ∙ ap pairs (cut-flat ts)
    ∙ pairs-words t ts f

read-write : (t : Tree) (b : Bytes) → write t ≡ some b → read b ≡ t
unfolding write read
read-write (word t) b e = ap (λ o. read (bytes_or_nothing o)) (sym e)
read-write (num n) b e = absurd (cc)
read-write (truth v) b e = absurd (cc)
read-write broken b e = absurd (cc)
read-write no_more b e = read-written no_more [] b refl e
read-write (member_of k t rest) b e = elim (Option-cases (words (member_of k t rest))) [
  | inl f ↦ absurd (cc)
  | inr (ts, f) ↦ read-written (member_of k t rest) ts b f e
]

set_member-is_object : (k : Bytes) (v t u : Tree) → set_member k v t ≡ some u → has_members u ≡ true
set_member-is_object k v t u e = ap has_members (set_member-inv k v t u e)

pub flat_json-JsonLaws : JsonLaws flat_json
unfolding flat_json
flat_json-JsonLaws = record {
  object_law = object_of-has_members;
  member_law = find-object_of;
  text_law = λ t. refl;
  number_law = λ n. refl;
  int_law = λ n high low. refl;
  assign_object = set_member-is_object;
  assign_member = find-set_member;
  dump_not_empty = write-not_empty;
  parse_dump = read-write;
}
