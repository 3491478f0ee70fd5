-- ===== src/Prelude/Decimal.antt =====
-- `std::to_string` of an integer, as bytes, and `std::stoi` and `std::stoll`, which read it back.
use file_server.Prelude.Tests.{ltb, leb, ◌==◌, if◌then◌else◌, Bool-cases, if-true}
use file_server.Prelude.Int.{ℤ, pos, negsuc, pos_part, neg_part}
use Prim.Native.Nat.{ℕ, zero, suc, ◌+◌, ◌-◌, ◌*◌, ◌/◌, ◌%◌, ◌^◌, ◌≤◌, ◌<◌}
use mathlib.Core.Bool.{Bool, true, false, ◌&&◌, ◌||◌}
use mathlib.Core.Logic.{inl, inr}
use mathlib.Core.Option.{Option, none, some}
use mathlib.Core.List.{List, [], ◌∷◌}
use mathlib.Core.Path.{◌≡◌, refl, sym, ap, ◌∙◌}
use native.Mathlib.Omega.{arith}

-- The digits of n before those of `rest`; n is less than the fuel, and falls.
digits_before : ℕ → ℕ → List ℕ → List ℕ
digits_before zero n rest = rest
digits_before (suc fuel) n rest =
    let more = digits_before fuel (n / 10) ((b'0' + n % 10) ∷ rest) in
    if n / 10 == 0 then (b'0' + n % 10) ∷ rest else more

unfoldable pub decimal : ℕ → List ℕ
unfolding digits_before
decimal n = digits_before (suc n) n []

unfoldable pub to_string : ℤ → List ℕ
unfolding decimal
to_string (pos n) = decimal n
to_string (negsuc n) = b'-' ∷ decimal (suc n)

abbrev is_space : ℕ → Bool
is_space c = c == 32 || leb 9 c && leb c 13

abbrev pub is_digit : ℕ → Bool
is_digit c = leb b'0' c && leb c b'9'

-- `isspace` in the C locale.
unfoldable pub skip_spaces : List ℕ → List ℕ
skip_spaces [] = []
skip_spaces (c ∷ cs) = let rest = skip_spaces cs in if is_space c then rest else c ∷ cs

-- The number that the digits at the start continue.
unfoldable pub read_digits : ℕ → List ℕ → ℕ
read_digits n [] = n
read_digits n (c ∷ cs) =
    let more = read_digits (10 * n + (c - b'0')) cs in if is_digit c then more else n

-- A sign and a magnitude, where a type with `limit` values below 0 has the integer.
abbrev in_range : ℕ → Bool → ℕ → Option ℤ
in_range limit false n = if ltb n limit then some (pos n) else none
in_range limit true zero = some (pos 0)
in_range limit true (suc n) = if ltb n limit then some (negsuc n) else none

-- `none` where there is no digit.
unfoldable pub read_magnitude : ℕ → Bool → List ℕ → Option ℤ
unfolding read_digits
read_magnitude limit negative [] = none
read_magnitude limit negative (c ∷ cs) =
    if is_digit c then in_range limit negative (read_digits 0 (c ∷ cs)) else none

unfoldable pub read_signed : ℕ → List ℕ → Option ℤ
unfolding read_magnitude
read_signed limit [] = none
read_signed limit (c ∷ cs) =
    if c == b'-'
    then read_magnitude limit true cs
    else if c == b'+'
    then read_magnitude limit false cs
    else read_magnitude limit false (c ∷ cs)

-- What follows the digits is left aside; `none` is an exception.
unfoldable pub stoi : List ℕ → Option ℤ
unfolding skip_spaces read_signed
stoi s = read_signed (2 ^ 31) (skip_spaces s)

unfoldable pub stoll : List ℕ → Option ℤ
unfolding skip_spaces read_signed
stoll s = read_signed (2 ^ 63) (skip_spaces s)

to_string_105 : to_string (pos 105) ≡ b'1' ∷ b'0' ∷ b'5' ∷ []
unfolding to_string
to_string_105 = refl

to_string_negative : to_string (negsuc 11) ≡ b'-' ∷ b'1' ∷ b'2' ∷ []
unfolding to_string
to_string_negative = refl

stoi_negative : stoi (32 ∷ b'-' ∷ b'1' ∷ b'2' ∷ b'x' ∷ []) ≡ some (negsuc 11)
unfolding stoi
stoi_negative = refl

stoi_word : stoi (b'x' ∷ b'1' ∷ []) ≡ none
unfolding stoi
stoi_word = refl

read_digits-digits_before :
    (fuel n : ℕ) (rest : List ℕ)
    → n < fuel
    → read_digits 0 (digits_before fuel n rest) ≡ read_digits n rest
unfolding digits_before read_digits
read_digits-digits_before zero n rest h = elim h [ ]
read_digits-digits_before (suc fuel) n rest h =
    ground (arith, read_digits-digits_before fuel (n / 10) ((b'0' + n % 10) ∷ rest))

-- A text that starts with a digit.
abbrev StartsWithDigit : List ℕ → Type 0
StartsWithDigit s = (c : ℕ) × (cs : List ℕ) × (s ≡ c ∷ cs) × (is_digit c ≡ true)

digits_before-StartsWithDigit :
    (fuel n : ℕ) (rest : List ℕ) → n < fuel → StartsWithDigit (digits_before fuel n rest)
unfolding digits_before
digits_before-StartsWithDigit zero n rest h = elim h [ ]
digits_before-StartsWithDigit (suc fuel) n rest h = elim (Bool-cases (n / 10 == 0)) [
  | inl last ↦ (b'0' + n % 10, rest, ground arith, ground arith)
  | inr more ↦
      let (c, cs, e, d) =
        digits_before-StartsWithDigit fuel (n / 10) ((b'0' + n % 10) ∷ rest) (ground arith) in
      (c, cs, ground arith, d)
]

read_magnitude-decimal :
    (limit n : ℕ) (negative : Bool)
    → read_magnitude limit negative (decimal n) ≡ in_range limit negative n
unfolding decimal read_magnitude
read_magnitude-decimal limit n negative =
    let (c, cs, e, d) = digits_before-StartsWithDigit (suc n) n [] (omega arith) in
    ap (read_magnitude limit negative) e
    ∙ if-true none d
    ∙ ap (in_range limit negative)
        (ap (read_digits 0) (sym e) ∙ read_digits-digits_before (suc n) n [] (omega arith))

read_signed-digit :
    (limit : ℕ) (s : List ℕ)
    → StartsWithDigit s
    → read_signed limit (skip_spaces s) ≡ read_magnitude limit false s
unfolding read_signed skip_spaces
read_signed-digit limit s (c, cs, e, d) = rw e (ground arith)

read_signed-to_string :
    (limit : ℕ) (z : ℤ)
    → pos_part z < limit
    → neg_part z ≤ limit
    → read_signed limit (skip_spaces (to_string z)) ≡ some z
unfolding to_string read_signed skip_spaces
read_signed-to_string limit (pos n) h h' =
    read_signed-digit limit (decimal n)
      (unfold decimal in digits_before-StartsWithDigit (suc n) n [] (omega arith))
    ∙ read_magnitude-decimal limit n false
    ∙ ground arith
read_signed-to_string limit (negsuc n) h h' =
    read_magnitude-decimal limit (suc n) true ∙ ground arith

-- An `int` is read back from its decimal form.
pub stoi-to_string :
    (z : ℤ) → pos_part z < 2 ^ 31 → neg_part z ≤ 2 ^ 31 → stoi (to_string z) ≡ some z
unfolding stoi
stoi-to_string z h h' = read_signed-to_string (2 ^ 31) z h h'

pub stoll-to_string :
    (z : ℤ) → pos_part z < 2 ^ 63 → neg_part z ≤ 2 ^ 63 → stoll (to_string z) ≡ some z
unfolding stoll
stoll-to_string z h h' = read_signed-to_string (2 ^ 63) z h h'
