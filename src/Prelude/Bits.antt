-- ===== src/Prelude/Bits.antt =====
-- Bounds and digit laws of `bit_xor`, which the tactics take for an unknown.
use Prim.Native.Nat.{
  ℕ, zero, suc, ◌+◌, ◌-◌, ◌*◌, ◌/◌, ◌%◌, ◌^◌, ◌≤◌, ◌<◌, bit_xor, bitwise, digits, differ,
  bit_xor-bitwise,
}
use mathlib.Core.Path.{◌≡◌, refl, ap, ◌∙◌}
use native.Mathlib.Nat.{le_refl, pow-suc, div-one, div-div-eq-div-mul}
use native.Mathlib.Omega.{arith}

-- `bit_xor` recurses on the halves of its arguments with a budget; budget to spare changes nothing.
module _ (last : ℕ → ℕ) (combine : ℕ → ℕ → ℕ) where
  abbrev run : ℕ → ℕ → ℕ → ℕ
  run budget = digits last combine budget

  run-one_more : (budget x y : ℕ) → x ≤ budget → run (suc budget) x y ≡ run budget x y
  run-one_more zero zero y enough = refl
  run-one_more zero (suc x) y enough = absurd (omega arith)
  run-one_more (suc budget) zero y enough = refl
  run-one_more (suc budget) (suc x) y enough =
      rw (run-one_more budget (suc x / 2) (y / 2) (omega arith))

  run-spare : (spare budget x y : ℕ) → x ≤ budget → run (budget + spare) x y ≡ run budget x y
  run-spare zero budget x y enough =
      ap (λ n. run n x y) {x = budget + zero} {y = budget} (omega arith)
  run-spare (suc spare) budget x y enough =
      ap (λ n. run n x y) {x = budget + suc spare} {y = suc (budget + spare)} (omega arith)
      ∙ run-one_more (budget + spare) x y (omega arith)
      ∙ run-spare spare budget x y enough

  lowest_digit :
      (x y : ℕ)
      → bitwise last combine (suc x) y
        ≡ bitwise last combine (suc x / 2) (y / 2) * 2 + combine (suc x % 2) (y % 2)
  lowest_digit x y =
      let half = suc x / 2 in
      let split : run x half (y / 2) ≡ run (half + (x - half)) half (y / 2) =
        ap (λ n. run n half (y / 2)) {x = x} {y = half + (x - half)} (omega arith) in
      ap (λ n. n * 2 + combine (suc x % 2) (y % 2))
        (split ∙ run-spare (x - half) half half (y / 2) (le_refl _))

zero-bit_xor : (b : ℕ) → bit_xor 0 b ≡ b
zero-bit_xor b = bit_xor-bitwise 0 b

zero-differ : (y : ℕ) → differ 0 y ≡ y
zero-differ y = refl

bit_xor_step : (a b : ℕ) → bit_xor a b ≡ bit_xor (a / 2) (b / 2) * 2 + differ (a % 2) (b % 2)
bit_xor_step zero b = omega (arith, zero-bit_xor b, zero-bit_xor (b / 2), zero-differ (b % 2))
bit_xor_step (suc a) b = simp bit_xor-bitwise (lowest_digit (λ b. b) differ a b)

-- Two binary digits differ in a digit, and one of them with the result gives the other.
differ_bit : (x y : ℕ) → x < 2 → y < 2 → differ x y < 2
differ_bit zero y p q = q
differ_bit (suc zero) zero p q = omega arith
differ_bit (suc zero) (suc zero) p q = omega arith
differ_bit (suc zero) (suc (suc y)) p q = absurd (omega arith)
differ_bit (suc (suc x)) y p q = absurd (omega arith)

differ_inj : (x y z : ℕ) → x < 2 → y < 2 → z < 2 → differ x y ≡ differ x z → y ≡ z
differ_inj zero y z p q r e = e
differ_inj (suc zero) zero zero p q r e = refl
differ_inj (suc zero) zero (suc zero) p q r e = absurd (omega arith)
differ_inj (suc zero) (suc zero) zero p q r e = absurd (omega arith)
differ_inj (suc zero) (suc zero) (suc zero) p q r e = refl
differ_inj (suc zero) (suc (suc y)) z p q r e = absurd (omega arith)
differ_inj (suc zero) y (suc (suc z)) p q r e = absurd (omega arith)
differ_inj (suc (suc x)) y z p q r e = absurd (omega arith)

bit_xor_low : (a b : ℕ) → differ (a % 2) (b % 2) < 2
bit_xor_low a b = differ_bit (a % 2) (b % 2) (omega arith) (omega arith)

pub bit_xor-half : (a b : ℕ) → bit_xor a b / 2 ≡ bit_xor (a / 2) (b / 2)
bit_xor-half a b = omega (arith, bit_xor_step a b, bit_xor_low a b)

bit_xor-parity : (a b : ℕ) → bit_xor a b % 2 ≡ differ (a % 2) (b % 2)
bit_xor-parity a b = omega (arith, bit_xor_step a b, bit_xor_low a b)

-- Numbers of at most k binary digits keep that bound.
pub bit_xor-lt : (k a b : ℕ) → a < 2 ^ k → b < 2 ^ k → bit_xor a b < 2 ^ k
bit_xor-lt zero zero zero p q = omega arith
bit_xor-lt zero zero (suc b) p q = absurd (omega arith)
bit_xor-lt zero (suc a) b p q = absurd (omega arith)
bit_xor-lt (suc k) a b p q = omega (
  arith,
  pow-suc 2 k,
  bit_xor_step a b,
  bit_xor_low a b,
  bit_xor-lt k (a / 2) (b / 2) (omega (arith, pow-suc 2 k)) (omega (arith, pow-suc 2 k)),
)

bit_xor_inj_fuel : (n a b c : ℕ) → a + b + c ≤ n → bit_xor a b ≡ bit_xor a c → b ≡ c
bit_xor_inj_fuel zero a b c h e = omega arith
bit_xor_inj_fuel (suc n) a b c h e = omega (
  arith,
  bit_xor_inj_fuel n (a / 2) (b / 2) (c / 2) (omega arith)
      (omega (arith, bit_xor-half a b, bit_xor-half a c, ap (λ (t : ℕ). t / 2) e)),
  differ_inj (a % 2) (b % 2) (c % 2) (omega arith) (omega arith) (omega arith)
      (omega (arith, bit_xor-parity a b, bit_xor-parity a c, ap (λ (t : ℕ). t % 2) e)),
)

pub bit_xor_inj : (a b c : ℕ) → bit_xor a b ≡ bit_xor a c → b ≡ c
bit_xor_inj a b c e = bit_xor_inj_fuel (a + b + c) a b c (le_refl _) e

differ_comm : (x y : ℕ) → differ x y ≡ differ y x
differ_comm zero zero = refl
differ_comm zero (suc y) = refl
differ_comm (suc x) zero = refl
differ_comm (suc x) (suc y) = differ_comm x y

bit_xor_comm_fuel : (n a b : ℕ) → a + b ≤ n → bit_xor a b ≡ bit_xor b a
bit_xor_comm_fuel zero zero zero h = refl
bit_xor_comm_fuel zero zero (suc b) h = absurd (omega arith)
bit_xor_comm_fuel zero (suc a) b h = absurd (omega arith)
bit_xor_comm_fuel (suc n) a b h = omega (
  arith,
  bit_xor_step a b,
  bit_xor_step b a,
  differ_comm (a % 2) (b % 2),
  bit_xor_comm_fuel n (a / 2) (b / 2) (omega arith),
)

pub bit_xor_comm : (a b : ℕ) → bit_xor a b ≡ bit_xor b a
bit_xor_comm a b = bit_xor_comm_fuel (a + b) a b (le_refl _)

pub bit_xor-zero : (a : ℕ) → bit_xor a 0 ≡ a
bit_xor-zero a = bit_xor_comm a 0 ∙ zero-bit_xor a

-- Shifting right goes through.
pub bit_xor-shift : (k a b : ℕ) → bit_xor a b / 2 ^ k ≡ bit_xor (a / 2 ^ k) (b / 2 ^ k)
bit_xor-shift zero a b = rw (div-one (bit_xor a b), div-one a, div-one b)
bit_xor-shift (suc k) a b =
    let halve : (x : ℕ) → x / 2 ^ suc k ≡ x / 2 / 2 ^ k = λ x.
      rw (div-div-eq-div-mul x 2 (2 ^ k)) (ap (λ (t : ℕ). x / t) (omega (arith, pow-suc 2 k))) in
    rw (halve (bit_xor a b), halve a, halve b, bit_xor-half a b) (bit_xor-shift k (a / 2) (b / 2))
