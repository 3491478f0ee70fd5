-- ===== src/Services/Filename/Safety.antt =====
-- services/file_service.cc: what `SanitizeFilename` lets through.
use file_server.Prelude.{
  ℕ, zero, suc, ◌+◌, ◌-◌, ◌≤◌, ◌<◌, ◌≡◌, ◌≢◌, ◌∙◌, ap, refl, Option, none, some, [], ◌∷◌, ◌++◌,
  length, take, drop, All, ltb, leb, if◌then◌else◌, arith, length-append, length-take, length-drop,
  All-append, Bool-cases, inl, inr, ltb→ge, ltb→lt, leb→le, min,
}
use file_server.Services.Filename.{
  Bytes, base_name, strip_dots, remove_dangerous, or_unnamed, last_dot, cut_at, cut_long,
  sanitize_filename, is_separator,
}

-- From 0x20 to 0x7F, and none of the characters that the code lists.
abbrev pub IsSafe : ℕ → Type 0
IsSafe c =
    (0x20 ≤ c)
    × (c < 0x80)
    × (c ≢ b'/')
    × (c ≢ 0x5C)
    × (c ≢ b':')
    × (c ≢ b'*')
    × (c ≢ b'?')
    × (c ≢ 0x22)
    × (c ≢ b'<')
    × (c ≢ b'>')
    × (c ≢ b'|')

remove_dangerous-IsSafe : (name : Bytes) → All IsSafe (remove_dangerous name)
unfolding remove_dangerous
remove_dangerous-IsSafe [] = tt
remove_dangerous-IsSafe (c ∷ cs) = ground (arith, remove_dangerous-IsSafe cs)

or_unnamed-IsSafe :
    (name : Bytes) → All IsSafe name → All IsSafe (or_unnamed name) × (1 ≤ length (or_unnamed name))
unfolding or_unnamed
or_unnamed-IsSafe [] h = (omega arith, omega arith)
or_unnamed-IsSafe (c ∷ cs) h = (h, omega arith)

All-take : (k : ℕ) (xs : Bytes) → All IsSafe xs → All IsSafe (take k xs)
All-take zero xs h = tt
All-take (suc k) [] h = tt
All-take (suc k) (x ∷ xs) h = (h.0, All-take k xs h.1)

All-drop : (k : ℕ) (xs : Bytes) → All IsSafe xs → All IsSafe (drop k xs)
All-drop zero xs h = h
All-drop (suc k) [] h = tt
All-drop (suc k) (x ∷ xs) h = All-drop k xs h.1

cut_at_lem :
    (dot : Option ℕ) (name : Bytes)
    → All IsSafe name
    → 200 < length name
    → All IsSafe (cut_at dot name)
      × (1 ≤ length (cut_at dot name))
      × (length (cut_at dot name) ≤ 200)
unfolding cut_at
cut_at_lem none name h l =
    (All-take 200 name h, omega (arith, length-take 200 name), omega (arith, length-take 200 name))
cut_at_lem (some dot) name h l = elim (Bool-cases (leb (length name - dot) 20)) [
  | inl short ↦ rw short (
    All-append IsSafe _ (drop dot name) (All-take (200 - (length name - dot)) name h)
        (All-drop dot name h),
    omega (arith, both, leb→le _ _ short),
    omega (arith, both, leb→le _ _ short),
  )
  | inr long ↦ rw long (
    All-take 200 name h,
    omega (arith, length-take 200 name),
    omega (arith, length-take 200 name),
  )
]
  where
    both :
        length (take (200 - (length name - dot)) name ++ drop dot name)
        ≡ min (200 - (length name - dot)) (length name) + (length name - dot)
    both = omega (
      arith,
      length-append (take (200 - (length name - dot)) name) (drop dot name),
      length-take (200 - (length name - dot)) name,
      length-drop dot name,
    )

cut_long_lem :
    (name : Bytes)
    → All IsSafe name × (1 ≤ length name)
    → All IsSafe (cut_long name) × (1 ≤ length (cut_long name)) × (length (cut_long name) ≤ 200)
unfolding cut_long
cut_long_lem name (h, some_byte) = elim (Bool-cases (ltb 200 (length name))) [
  | inl long ↦ rw long (cut_at_lem (last_dot name) name h (ltb→lt _ _ long))
  | inr short ↦ rw short (h, some_byte, ltb→ge _ _ short)
]

-- Whatever name a client sends, the name that is stored has 1 to 200 bytes, all from 0x20 to 0x7F, and
-- none is one of / \\ : * ? " < > |.
pub sanitize_filename-IsSafe :
    (filename : Bytes)
    → All IsSafe (sanitize_filename filename)
      × (1 ≤ length (sanitize_filename filename))
      × (length (sanitize_filename filename) ≤ 200)
unfolding sanitize_filename
sanitize_filename-IsSafe filename =
    cut_long_lem _
      (or_unnamed-IsSafe _ (remove_dangerous-IsSafe (strip_dots (base_name filename filename))))

abbrev pub NonAscii : Bytes → Type 0
NonAscii = All (λ c. 0x80 ≤ c)

base_name-NonAscii : (cs result : Bytes) → NonAscii cs → base_name cs result ≡ result
unfolding base_name
base_name-NonAscii [] result h = refl
base_name-NonAscii (c ∷ cs) result h =
    base_name-NonAscii cs (if is_separator c then cs else result) h.1 ∙ ground arith

strip_dots-NonAscii : (cs : Bytes) → NonAscii cs → strip_dots cs ≡ cs
unfolding strip_dots
strip_dots-NonAscii [] h = refl
strip_dots-NonAscii (a ∷ []) h = refl
strip_dots-NonAscii (a ∷ b ∷ bs) h = ground arith

remove_dangerous-NonAscii : (cs : Bytes) → NonAscii cs → remove_dangerous cs ≡ []
unfolding remove_dangerous
remove_dangerous-NonAscii [] h = refl
remove_dangerous-NonAscii (c ∷ cs) h = ground (arith, remove_dangerous-NonAscii cs h.1)

-- A name in bytes from 0x80 on, such as one in Chinese characters in UTF-8, is lost: every such name
-- becomes "unnamed".
pub sanitize_filename-NonAscii :
    (filename : Bytes)
    → NonAscii filename
    → sanitize_filename filename ≡ b'u' ∷ b'n' ∷ b'n' ∷ b'a' ∷ b'm' ∷ b'e' ∷ b'd' ∷ []
unfolding sanitize_filename
sanitize_filename-NonAscii filename h =
    ap (λ n. cut_long (or_unnamed (remove_dangerous n)))
      (ap strip_dots (base_name-NonAscii filename filename h) ∙ strip_dots-NonAscii filename h)
    ∙ ap (λ n. cut_long (or_unnamed n)) (remove_dangerous-NonAscii filename h)
