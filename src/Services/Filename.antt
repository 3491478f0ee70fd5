-- ===== src/Services/Filename.antt =====
-- Names and paths of uploaded files, from services/file_service.cc.
pub mod Safety
use file_server.Prelude.{
  ℕ, zero, suc, ◌+◌, ◌-◌, ◌≤◌, ◌<◌, ◌≡◌, ◌≢◌, ◌∙◌, ap, refl, Bool, not, ◌&&◌, ◌||◌, Option, none,
  some, List, [], ◌∷◌, ◌++◌, length, take, drop, replicate, All, ltb, leb, ◌==◌, if◌then◌else◌,
  arith, length-append, length-take, length-drop, All-append, Bool-cases, inl, inr, ltb→ge, ltb→lt,
  leb→le, min,
}
use file_server.Prelude.Int.{ℤ, pos}
use file_server.Prelude.Decimal.{decimal, to_string}

abbrev pub Bytes : Type 0
Bytes = List ℕ

abbrev is_separator : ℕ → Bool
is_separator c = c == b'/' || c == 0x5C

-- Step 1: what stands behind the last separator; `result` is what stands behind the last so far.
unfoldable pub base_name : Bytes → Bytes → Bytes
base_name [] result = result
base_name (c ∷ cs) result = base_name cs (if is_separator c then cs else result)

-- Step 2: a leading dot is erased while another character but a dot follows.
unfoldable pub strip_dots : Bytes → Bytes
strip_dots [] = []
strip_dots (a ∷ []) = a ∷ []
strip_dots (a ∷ b ∷ bs) =
    let rest = strip_dots (b ∷ bs) in if a == b'.' && not (b == b'.') then rest else a ∷ b ∷ bs

-- Step 3: `c < 0x20` for a signed `char`, which is negative for the bytes from 0x80 on, or one of the
-- listed characters.
unfoldable pub is_dangerous : ℕ → Bool
is_dangerous c =
    ltb c 0x20
    || leb 0x80 c
    || (c == b'/'
        || c == 0x5C
        || c == b':'
        || c == b'*'
        || c == b'?'
        || c == 0x22
        || c == b'<'
        || c == b'>'
        || c == b'|')

unfoldable pub remove_dangerous : Bytes → Bytes
unfolding is_dangerous
remove_dangerous [] = []
remove_dangerous (c ∷ cs) =
    let rest = remove_dangerous cs in if is_dangerous c then rest else c ∷ rest

-- Step 4
unfoldable pub or_unnamed : Bytes → Bytes
or_unnamed [] = b'u' ∷ b'n' ∷ b'n' ∷ b'a' ∷ b'm' ∷ b'e' ∷ b'd' ∷ []
or_unnamed (c ∷ cs) = c ∷ cs

-- `find_last_of('.')`
unfoldable pub last_dot : Bytes → Option ℕ
last_dot [] = none
last_dot (c ∷ cs) = elim (last_dot cs) [
  | some k ↦ some (suc k)
  | none ↦ if c == b'.' then some 0 else none
]

-- Step 5: a long name is cut, in front of a short extension.
unfoldable pub cut_at : Option ℕ → Bytes → Bytes
cut_at none name = take 200 name
cut_at (some dot) name =
    if leb (length name - dot) 20
    then take (200 - (length name - dot)) name ++ drop dot name
    else take 200 name

unfoldable pub cut_long : Bytes → Bytes
unfolding cut_at last_dot
cut_long name = if ltb 200 (length name) then cut_at (last_dot name) name else name

-- `SanitizeFilename`
unfoldable pub sanitize_filename : Bytes → Bytes
unfolding base_name strip_dots remove_dangerous or_unnamed cut_long
sanitize_filename filename =
    cut_long (or_unnamed (remove_dangerous (strip_dots (base_name filename filename))))

-- `std::tm`, with the month from 0 and the year from 1900.
pub record Tm : Type 0 where
  pub tm_year : ℕ
  pub tm_mon : ℕ
  pub tm_mday : ℕ
  pub tm_hour : ℕ
  pub tm_min : ℕ
  pub tm_sec : ℕ

-- `std::setw(width)` with the fill character 0.
unfoldable pub padded : ℕ → ℕ → Bytes
unfolding decimal
padded width n = let digits = decimal n in replicate (width - length digits) b'0' ++ digits

-- `GenerateFilepath` at a time.
unfoldable pub generate_filepath : Tm → ℤ → Bytes → Bytes
unfolding padded to_string
generate_filepath now user_id filename =
    to_string user_id
    ++ (b'/'
        ∷ (padded 4 (now.tm_year + 1900)
            ++ (padded 2 (now.tm_mon + 1)
                ++ (padded 2 now.tm_mday
                    ++ (b'_'
                        ∷ (padded 2 now.tm_hour
                            ++ (padded 2 now.tm_min
                                ++ (padded 2 now.tm_sec ++ (b'_' ∷ filename)))))))))

path_example :
    generate_filepath
      (record { tm_year = 125; tm_mon = 6; tm_mday = 9; tm_hour = 14; tm_min = 30; tm_sec = 25 })
      (pos 1)
      (b'a' ∷ [])
    ≡ b'1' ∷ b'/' ∷ b'2' ∷ b'0' ∷ b'2' ∷ b'5' ∷ b'0' ∷ b'7' ∷ b'0' ∷ b'9' ∷ b'_' ∷ b'1' ∷ b'4'
      ∷ b'3' ∷ b'0' ∷ b'2' ∷ b'5' ∷ b'_' ∷ b'a' ∷ []
unfolding generate_filepath
path_example = refl
