-- ===== src/Protocol/Crc.antt =====
-- The table-driven CRC-32 of protocol/encoder.cc.
pub mod Detection
use file_server.Prelude.Bits.{bit_xor-lt}
use file_server.Prelude.{
  ℕ, zero, suc, ◌+◌, ◌-◌, ◌/◌, ◌%◌, ◌^◌, ◌≤◌, ◌<◌, ◌≡◌, refl, List, [], ◌∷◌, ◌++◌, length, get_or,
  bit_xor, ◌==◌, if◌then◌else◌, arith, All, ap, ◌⊎◌, inl, inr, Bool-cases,
}

-- One round of the inner loop: `crc & 1` chooses.
crc_shift : ℕ → ℕ
crc_shift crc = if crc % 2 == 1 then bit_xor (crc / 2) 0xEDB88320 else crc / 2

-- `for (int j = 0; j < 8; ++j)`, on the rounds left.
shift_times : ℕ → ℕ → ℕ
unfolding crc_shift
shift_times zero crc = crc
shift_times (suc j) crc = shift_times j (crc_shift crc)

-- The entries of the table from `i` on, `n` of them.
table_from : ℕ → ℕ → List ℕ
unfolding shift_times
table_from zero i = []
table_from (suc n) i = shift_times 8 i ∷ table_from n (i + 1)

-- The table that `InitCRC32Table` leaves; the flag that it is filled is not modelled.
pub crc32_table : List ℕ
unfolding table_from
crc32_table = table_from 256 0

-- One round of the loop of `CRC32`.
pub crc_step : List ℕ → ℕ → ℕ → ℕ
crc_step table crc byte = bit_xor (get_or table (bit_xor crc byte % 256) 0) (crc / 256)

pub crc_loop : List ℕ → ℕ → List ℕ → ℕ
unfolding crc_step
crc_loop table crc [] = crc
crc_loop table crc (b ∷ bs) = crc_loop table (crc_step table crc b) bs

-- `CRC32(data, len)`
pub crc32 : List ℕ → ℕ
unfolding crc_loop crc32_table
crc32 bytes = bit_xor (crc_loop crc32_table 0xFFFFFFFF bytes) 0xFFFFFFFF

-- The check value of CRC-32: the sum of the nine digits.
crc32_check_value :
    crc32 (b'1' ∷ b'2' ∷ b'3' ∷ b'4' ∷ b'5' ∷ b'6' ∷ b'7' ∷ b'8' ∷ b'9' ∷ []) ≡ 0xCBF43926
unfolding crc32
crc32_check_value = refl

IsWord : ℕ → Type 0
IsWord x = x < 2 ^ 32

crc_shift-lt : (crc : ℕ) → crc < 2 ^ 32 → crc_shift crc < 2 ^ 32
unfolding crc_shift
crc_shift-lt crc h = ground (arith, bit_xor-lt 32 (crc / 2) 0xEDB88320)

shift_times-lt : (j crc : ℕ) → crc < 2 ^ 32 → shift_times j crc < 2 ^ 32
unfolding shift_times
shift_times-lt zero crc h = h
shift_times-lt (suc j) crc h = shift_times-lt j (crc_shift crc) (crc_shift-lt crc h)

abbrev pub Words : List ℕ → Type 0
Words = All (λ w. w < 2 ^ 32)

table_from-Words : (n i : ℕ) → i + n ≤ 256 → Words (table_from n i)
unfolding table_from
table_from-Words zero i h = tt
table_from-Words (suc n) i h =
    (shift_times-lt 8 i (omega arith), table_from-Words n (i + 1) (omega arith))

pub crc32_table-Words : Words crc32_table
unfolding crc32_table
crc32_table-Words = table_from-Words 256 0 (omega arith)

get_or-Words : (ws : List ℕ) (i : ℕ) → Words ws → get_or ws i 0 < 2 ^ 32
get_or-Words [] i h = omega arith
get_or-Words (w ∷ ws) zero h = h.0
get_or-Words (w ∷ ws) (suc i) h = get_or-Words ws i h.1

pub crc_step-lt :
    (table : List ℕ) (crc b : ℕ) → Words table → crc < 2 ^ 32 → crc_step table crc b < 2 ^ 32
unfolding crc_step
crc_step-lt table crc b t h =
    bit_xor-lt 32 _ (crc / 256) (get_or-Words table (bit_xor crc b % 256) t) (omega arith)

pub crc_loop-lt :
    (table : List ℕ) (crc : ℕ) (bs : List ℕ)
    → Words table
    → crc < 2 ^ 32
    → crc_loop table crc bs < 2 ^ 32
unfolding crc_loop
crc_loop-lt table crc [] t h = h
crc_loop-lt table crc (b ∷ bs) t h =
    crc_loop-lt table (crc_step table crc b) bs t (crc_step-lt table crc b t h)

-- The checksum fits a uint32_t.
pub crc32-lt : (bytes : List ℕ) → crc32 bytes < 2 ^ 32
unfolding crc32
crc32-lt bytes =
    bit_xor-lt 32 _ 0xFFFFFFFF
      (crc_loop-lt crc32_table 0xFFFFFFFF bytes crc32_table-Words (omega arith)) (omega arith)
