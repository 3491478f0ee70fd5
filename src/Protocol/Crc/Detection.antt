-- ===== src/Protocol/Crc/Detection.antt =====
-- What the checksum detects, from the injectivity of one round of its loop.
use file_server.Prelude.Bits.{bit_xor_inj, bit_xor_comm, bit_xor-shift, bit_xor-zero}
use file_server.Prelude.{
  ℕ, zero, suc, ◌/◌, ◌%◌, ◌^◌, ◌<◌, ◌≡◌, ◌≢◌, refl, sym, ap, ap₂, ◌∙◌, Bool, true, false, not, ◌&&◌,
  ◌||◌, List, [], ◌∷◌, ◌++◌, length, get_or, bit_xor, ◌==◌, arith,
}
use file_server.Protocol.Crc.{
  crc32_table, crc_step, crc_loop, crc_loop-lt, crc_step-lt, crc32_table-Words, crc32,
}

contains : ℕ → List ℕ → Bool
contains a [] = false
contains a (x ∷ xs) = a == x || contains a xs

tops : List ℕ → List ℕ
tops [] = []
tops (x ∷ xs) = x / 16777216 ∷ tops xs

distinct : List ℕ → Bool
unfolding contains
distinct [] = true
distinct (x ∷ xs) = not (contains x xs) && distinct xs

-- The top bytes of the table's entries differ pairwise.
tops-distinct : (distinct (tops crc32_table) ≡ true) × (length (tops crc32_table) ≡ 256)
unfolding distinct tops crc32_table
tops-distinct = (refl, refl)

contains-get_or :
    (a : ℕ) (xs : List ℕ) (i : ℕ) → contains a xs ≡ false → i < length xs → get_or xs i 0 ≢ a
unfolding contains
contains-get_or a [] i h l = elim l [ ]
contains-get_or a (x ∷ xs) zero h l = ground arith
contains-get_or a (x ∷ xs) (suc i) h l = contains-get_or a xs i (ground arith) (omega arith)

distinct-get_or :
    (xs : List ℕ) (i j : ℕ)
    → distinct xs ≡ true
    → i < length xs
    → j < length xs
    → get_or xs i 0 ≡ get_or xs j 0
    → i ≡ j
unfolding distinct
distinct-get_or [] i j d p q e = elim p [ ]
distinct-get_or (x ∷ xs) zero zero d p q e = refl
distinct-get_or (x ∷ xs) zero (suc j) d p q e =
    absurd (contains-get_or x xs j (ground arith) (omega arith) (sym e))
distinct-get_or (x ∷ xs) (suc i) zero d p q e =
    absurd (contains-get_or x xs i (ground arith) (omega arith) e)
distinct-get_or (x ∷ xs) (suc i) (suc j) d p q e =
    ap suc (distinct-get_or xs i j (ground arith) (omega arith) (omega arith) e)

get_or-tops : (xs : List ℕ) (i : ℕ) → get_or (tops xs) i 0 ≡ get_or xs i 0 / 16777216
unfolding tops
get_or-tops [] i = omega arith
get_or-tops (x ∷ xs) zero = refl
get_or-tops (x ∷ xs) (suc i) = get_or-tops xs i

-- The top byte of a round's result is that of the table entry.
step_top : (entry rest : ℕ) → rest < 16777216 → bit_xor entry rest / 16777216 ≡ entry / 16777216
step_top entry rest h =
    bit_xor-shift 24 entry rest
    ∙ ap (bit_xor (entry / 16777216)) {x = rest / 16777216} {y = 0} (omega arith)
    ∙ bit_xor-zero (entry / 16777216)

abbrev index : ℕ → ℕ → ℕ
index crc b = bit_xor crc b % 256

-- Two rounds with one result read the same entry and shift in the same bits.
step_inversion :
    (c b c' b' : ℕ)
    → c < 2 ^ 32
    → c' < 2 ^ 32
    → crc_step crc32_table c b ≡ crc_step crc32_table c' b'
    → (index c b ≡ index c' b') × (c / 256 ≡ c' / 256)
unfolding crc_step
step_inversion c b c' b' h h' e = (same, bit_xor_inj entry (c / 256) (c' / 256) shifted)
  where
    entry : ℕ
    entry = get_or crc32_table (index c b) 0

    same : index c b ≡ index c' b'
    same =
        distinct-get_or (tops crc32_table) (index c b) (index c' b') tops-distinct.0
          (omega (arith, tops-distinct.1)) (omega (arith, tops-distinct.1))
          (get_or-tops crc32_table (index c b)
            ∙ sym (step_top entry (c / 256) (omega arith))
            ∙ ap (λ (t : ℕ). t / 16777216) e
            ∙ step_top (get_or crc32_table (index c' b') 0) (c' / 256) (omega arith)
            ∙ sym (get_or-tops crc32_table (index c' b')))

    shifted : bit_xor entry (c / 256) ≡ bit_xor entry (c' / 256)
    shifted = e ∙ ap (λ i. bit_xor (get_or crc32_table i 0) (c' / 256)) (sym same)

xor_of_parts :
    (c b c' b' : ℕ)
    → b / 256 ≡ b' / 256
    → (index c b ≡ index c' b') × (c / 256 ≡ c' / 256)
    → bit_xor c b ≡ bit_xor c' b'
xor_of_parts c b c' b' h (low, high) =
    let halves : bit_xor c b / 256 ≡ bit_xor c' b' / 256 =
      bit_xor-shift 8 c b ∙ ap₂ bit_xor high h ∙ sym (bit_xor-shift 8 c' b') in
    omega arith

-- A round is injective in the running value, and in the byte.
pub crc_step_inj :
    (c c' b : ℕ)
    → c < 2 ^ 32
    → c' < 2 ^ 32
    → crc_step crc32_table c b ≡ crc_step crc32_table c' b
    → c ≡ c'
crc_step_inj c c' b h h' e = bit_xor_inj b c c' (
    bit_xor_comm b c
    ∙ xor_of_parts c b c' b refl (step_inversion c b c' b h h' e)
    ∙ bit_xor_comm c' b)

pub crc_step_inj_byte :
    (c b b' : ℕ)
    → c < 2 ^ 32
    → b < 256
    → b' < 256
    → crc_step crc32_table c b ≡ crc_step crc32_table c b'
    → b ≡ b'
crc_step_inj_byte c b b' h p q e =
    bit_xor_inj c b b' (xor_of_parts c b c b' (omega arith) (step_inversion c b c b' h h e))

crc_loop_inj :
    (bs : List ℕ) (c c' : ℕ)
    → c < 2 ^ 32
    → c' < 2 ^ 32
    → crc_loop crc32_table c bs ≡ crc_loop crc32_table c' bs
    → c ≡ c'
unfolding crc_loop
crc_loop_inj [] c c' h h' e = e
crc_loop_inj (b ∷ bs) c c' h h' e = crc_step_inj c c' b h h' (
    crc_loop_inj bs _ _ (crc_step-lt crc32_table c b crc32_table-Words h)
      (crc_step-lt crc32_table c' b crc32_table-Words h') e)

crc_loop-append :
    (table : List ℕ) (c : ℕ) (xs ys : List ℕ)
    → crc_loop table c (xs ++ ys) ≡ crc_loop table (crc_loop table c xs) ys
unfolding crc_loop
crc_loop-append table c [] ys = refl
crc_loop-append table c (x ∷ xs) ys = crc_loop-append table (crc_step table c x) xs ys

-- Two strings that differ in exactly one place, in two bytes below 256, have different checksums.
pub crc32_detects :
    (before after : List ℕ) (a b : ℕ)
    → a < 256
    → b < 256
    → a ≢ b
    → crc32 (before ++ a ∷ after) ≢ crc32 (before ++ b ∷ after)
unfolding crc32
crc32_detects before after a b p q ne e = ne (
    crc_step_inj_byte start a b start-lt p q (
      crc_loop_inj after _ _ (crc_step-lt crc32_table start a crc32_table-Words start-lt)
        (crc_step-lt crc32_table start b crc32_table-Words start-lt) loops))
  where
    start : ℕ
    start = crc_loop crc32_table 0xFFFFFFFF before

    start-lt : start < 2 ^ 32
    start-lt = crc_loop-lt crc32_table 0xFFFFFFFF before crc32_table-Words (omega arith)

    plain :
        crc_loop crc32_table 0xFFFFFFFF (before ++ a ∷ after)
        ≡ crc_loop crc32_table 0xFFFFFFFF (before ++ b ∷ after)
    plain = bit_xor_inj 0xFFFFFFFF _ _ (bit_xor_comm 0xFFFFFFFF _ ∙ e ∙ bit_xor_comm _ 0xFFFFFFFF)

    loops :
        crc_loop crc32_table (crc_step crc32_table start a) after
        ≡ crc_loop crc32_table (crc_step crc32_table start b) after
    loops =
        sym (crc_loop-append crc32_table 0xFFFFFFFF before (a ∷ after))
        ∙ plain
        ∙ crc_loop-append crc32_table 0xFFFFFFFF before (b ∷ after)
