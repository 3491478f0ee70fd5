-- ===== src/Console/Display.antt =====
-- client/console_ui.cc: the texts of sizes and of the progress bar.
use native.Mathlib.Nat.{div-le_of_le-mul, le-div_iff_mul-le}
use file_server.Prelude.{
  ℕ, zero, suc, ◌+◌, ◌-◌, ◌*◌, ◌/◌, ◌%◌, ◌≤◌, ◌<◌, ltb, ◌==◌, ◌≡◌, refl, ap, ap₂, ◌∙◌, ◌↔◌, ◌&&◌,
  ◌||◌, [], ◌∷◌, ◌++◌, length, replicate, if◌then◌else◌, arith, if-true, if-false, lt→ltb, ge→ltb,
  sym, append_assoc,
}
use file_server.Prelude.Int.{ℤ, pos, negsuc}
use file_server.Prelude.Text.{Bytes}
use file_server.Prelude.Decimal.{decimal, to_string}
use file_server.Json.{utf8}

-- `std::setw(width)` in front of a text, with spaces.
unfoldable pub right_aligned : ℕ → Bytes → Bytes
right_aligned width t = replicate (width - length t) 32 ++ t

-- n / d to the nearest whole number; halfway between two, to the even one.
unfoldable pub nearest : ℕ → ℕ → ℕ
nearest n d =
    if ltb (2 * (n % d)) d || (2 * (n % d) == d && (n / d % 2 == 0)) then n / d else n / d + 1

-- The digits behind the point of a number of tenths or hundredths.
abbrev tenths : ℕ → Bytes
tenths n = decimal (n / 10) ++ (b'.' ∷ decimal (n % 10))

abbrev hundredths : ℕ → Bytes
hundredths n = decimal (n / 100) ++ (b'.' ∷ (decimal (n / 10 % 10) ++ decimal (n % 10)))

-- `FormatSize`. A `double` holds the quotients exactly below 2 ^ 53 bytes, and `std::fixed` rounds the
-- exact value.
unfoldable pub format_size : ℤ → Bytes
unfolding nearest
format_size (negsuc n) = to_string (negsuc n) ++ utf8 " B"
format_size (pos n) =
    if ltb n 1024
    then decimal n ++ utf8 " B"
    else if ltb n (1024 * 1024)
    then tenths (nearest (10 * n) 1024) ++ utf8 " KB"
    else if ltb n (1024 * 1024 * 1024)
    then hundredths (nearest (100 * n) (1024 * 1024)) ++ utf8 " MB"
    else hundredths (nearest (100 * n) (1024 * 1024 * 1024)) ++ utf8 " GB"

size_512k : format_size (pos 524288) ≡ utf8 "512.0 KB"
unfolding format_size decimal utf8
size_512k = refl

-- A size is shown with an error of at most half a unit of its last digit.
pub nearest_bounds :
    (n d : ℕ) → 0 < d → (2 * n ≤ 2 * (nearest n d * d) + d) × (2 * (nearest n d * d) ≤ 2 * n + d)
unfolding nearest
nearest_bounds n d some = grind arith

-- `pct` and `filled` of `ShowProgress`, for numbers that are not negative; the product fits in 64 bits
-- below 92 petabytes.
unfoldable pub percent : ℕ → ℕ → ℕ
percent done total = done * 100 / total

unfoldable pub filled_cells : ℕ → ℕ
filled_cells pct = 30 * pct / 100

-- The loop over the cells, from a cell on.
unfoldable pub cells : ℕ → ℕ → ℕ → Bytes
cells zero i filled = []
cells (suc left) i filled =
    (if ltb i filled then utf8 "█" else utf8 "░") ++ cells left (suc i) filled

-- `ShowProgress`
unfoldable pub progress_line : Bytes → ℕ → ℕ → Bytes
unfolding percent filled_cells cells format_size
progress_line label done total =
    if total == 0
    then []
    else utf8 "\r  "
      ++ (label
          ++ (utf8 ": ["
              ++ (cells 30 0 (filled_cells (percent done total))
                  ++ (utf8 "] "
                      ++ (right_aligned 3 (decimal (percent done total))
                          ++ (utf8 "%  ("
                              ++ (format_size (pos done)
                                  ++ (utf8 " / " ++ (format_size (pos total) ++ utf8 ")")))))))))

abbrev pub times : ℕ → Bytes → Bytes
times zero t = []
times (suc n) t = t ++ times n t

cells_empty : (left i filled : ℕ) → filled ≤ i → cells left i filled ≡ times left (utf8 "░")
unfolding cells
cells_empty zero i filled h = refl
cells_empty (suc left) i filled h =
    ap₂ ◌++◌ (if-false (utf8 "█") (ge→ltb i filled h))
      (cells_empty left (suc i) filled (omega arith))

cells_lem :
    (left i n : ℕ)
    → n ≤ left
    → cells left i (i + n) ≡ times n (utf8 "█") ++ times (left - n) (utf8 "░")
unfolding cells
cells_lem left i zero h =
    cells_empty left i (i + 0) (omega arith) ∙ ap (λ n. times n (utf8 "░")) (omega arith)
cells_lem zero i (suc n) h = absurd (omega arith)
cells_lem (suc left) i (suc n) h =
    ap₂ ◌++◌ (if-true (utf8 "░") (lt→ltb i (i + suc n) (omega arith)))
      (ap (cells left (suc i)) (omega arith) ∙ cells_lem left (suc i) n (omega arith))
    ∙ sym (append_assoc (utf8 "█") (times n (utf8 "█")) (times (left - n) (utf8 "░")))
    ∙ ap (λ m. times (suc n) (utf8 "█") ++ times m (utf8 "░")) (omega arith)

few : (done total : ℕ) → done ≤ total → percent done total ≤ 100
unfolding percent
few done total within = div-le_of_le-mul total (omega arith)

percent_at_least : (n done total : ℕ) → n ≤ percent done total → n ≤ done * 100 / total
unfolding percent
percent_at_least n done total h = h

at_least_percent : (n done total : ℕ) → n ≤ done * 100 / total → n ≤ percent done total
unfolding percent
at_least_percent n done total h = h

filled_few : (pct : ℕ) → pct ≤ 100 → filled_cells pct ≤ 30
unfolding filled_cells
filled_few pct h = omega arith

filled_low : (pct : ℕ) → 10 * filled_cells pct ≤ 3 * pct
unfolding filled_cells
filled_low pct = omega arith

filled_high : (pct : ℕ) → 3 * pct < 10 * filled_cells pct + 10
unfolding filled_cells
filled_high pct = omega arith

-- The progress of a transfer: at most 100 per cent, which are reached exactly at its end; and a bar of
-- 30 cells, of which those from the left are filled, 3 for each 10 per cent.
pub progress_bounds :
    (done total : ℕ)
    → 0 < total
    → done ≤ total
    → let pct = percent done total in
      let filled = filled_cells pct in
      (pct ≤ 100)
      × ((pct ≡ 100) ↔ (done ≡ total))
      × (filled ≤ 30)
      × (10 * filled ≤ 3 * pct)
      × (3 * pct < 10 * filled + 10)
      × (cells 30 0 filled ≡ times filled (utf8 "█") ++ times (30 - filled) (utf8 "░"))
progress_bounds done total some within = (
  few done total within,
  (λ e. at_end e, λ e. all e),
  filled_few (percent done total) (few done total within),
  filled_low (percent done total),
  filled_high (percent done total),
  ap (cells 30 0) (omega arith)
      ∙ cells_lem 30 0 (filled_cells (percent done total))
          (filled_few (percent done total) (few done total within)),
)
  where
    at_end : percent done total ≡ 100 → done ≡ total
    at_end e =
        let whole =
          (le-div_iff_mul-le {x = 100} {y = done * 100} some).0
            (percent_at_least 100 done total (omega (arith, e))) in
        omega (arith, whole)

    all : done ≡ total → percent done total ≡ 100
    all e = omega (
      arith,
      few done total within,
      at_least_percent 100 done total
          ((le-div_iff_mul-le {x = 100} {y = done * 100} some).1 (omega arith)),
    )
