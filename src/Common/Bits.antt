-- ===== src/Common/Bits.antt =====
-- Exclusive or and or of binary numbers, from the definition of the native operations on digits.
use Prim.Native.Nat.{
  ℕ, zero, suc, ◌+◌, ◌*◌, ◌/◌, ◌%◌, ◌≤◌, ◌<◌, max, bit_xor, bit_or, digits, differ, bit_xor-bitwise,
  bit_or-bitwise,
}
use mathlib.Core.Path.{◌≡◌, refl, sym}
use native.Mathlib.Omega.{arith}

-- How many digits are asked for does not matter once the first number has no more of them.
digits_enough :
    (op : ℕ → ℕ → ℕ) (x y : ℕ) (asked more : ℕ)
    → x ≤ asked
    → x ≤ more
    → digits (λ rest. rest) op asked x y ≡ digits (λ rest. rest) op more x y
digits_enough op (suc x) y zero more le_asked le_more = absurd (omega arith)
digits_enough op (suc x) y (suc asked) zero le_asked le_more = absurd (omega arith)
digits_enough op (suc x) y (suc asked) (suc more) le_asked le_more =
    let halves = digits_enough op (suc x / 2) (y / 2) asked more (omega arith) (omega arith) in
    omega (arith, halves)
digits_enough op zero y zero zero le_asked le_more = refl
digits_enough op zero y zero (suc more) le_asked le_more = refl
digits_enough op zero y (suc asked) zero le_asked le_more = refl
digits_enough op zero y (suc asked) (suc more) le_asked le_more = refl

zero-bit_xor : (b : ℕ) → bit_xor 0 b ≡ b
zero-bit_xor b = bit_xor-bitwise 0 b

zero-bit_or : (b : ℕ) → bit_or 0 b ≡ b
zero-bit_or b = bit_or-bitwise 0 b

differ_zero : (b : ℕ) → differ 0 b ≡ b
differ_zero b = refl

-- The law for the lowest digit.
pub bit_xor_step : (a b : ℕ) → bit_xor a b ≡ bit_xor (a / 2) (b / 2) * 2 + differ (a % 2) (b % 2)
bit_xor_step zero b = omega (arith, zero-bit_xor b, zero-bit_xor (b / 2), differ_zero (b % 2))
bit_xor_step (suc a) b = omega (
  arith,
  bit_xor-bitwise (suc a) b,
  bit_xor-bitwise (suc a / 2) (b / 2),
  digits_enough differ (suc a / 2) (b / 2) a (suc a / 2) (omega arith) (omega arith),
)

pub bit_or_step : (a b : ℕ) → bit_or a b ≡ bit_or (a / 2) (b / 2) * 2 + max (a % 2) (b % 2)
bit_or_step zero b = omega (arith, zero-bit_or b, zero-bit_or (b / 2))
bit_or_step (suc a) b = omega (
  arith,
  bit_or-bitwise (suc a) b,
  bit_or-bitwise (suc a / 2) (b / 2),
  digits_enough max (suc a / 2) (b / 2) a (suc a / 2) (omega arith) (omega arith),
)

-- Two digits differ by 1 or not at all.
differ_digits :
    (x y : ℕ)
    → x < 2
    → y < 2
    → (differ x y < 2) × (differ (differ x y) y ≡ x) × (differ x y ≡ 0 → x ≡ y)
differ_digits zero zero p q = (omega arith, refl, λ e. refl)
differ_digits zero (suc zero) p q = (omega arith, refl, λ e. absurd (omega arith))
differ_digits (suc zero) zero p q = (omega arith, refl, λ e. absurd (omega arith))
differ_digits (suc zero) (suc zero) p q = (omega arith, refl, λ e. refl)
differ_digits zero (suc (suc y)) p q = absurd (omega arith)
differ_digits (suc zero) (suc (suc y)) p q = absurd (omega arith)
differ_digits (suc (suc x)) y p q = absurd (omega arith)

xor_halves :
    (a b : ℕ)
    → (bit_xor a b / 2 ≡ bit_xor (a / 2) (b / 2)) × (bit_xor a b % 2 ≡ differ (a % 2) (b % 2))
xor_halves a b =
    let small = (differ_digits (a % 2) (b % 2) (omega arith) (omega arith)).0 in
    (omega (arith, bit_xor_step a b), omega (arith, bit_xor_step a b))

xor_twice_fuel : (n a b : ℕ) → a + b ≤ n → bit_xor (bit_xor a b) b ≡ a
xor_twice_fuel zero a b h =
    let a0 : a ≡ 0 = omega arith in
    let b0 : b ≡ 0 = omega arith in rw (a0, b0, zero-bit_xor 0) (zero-bit_xor 0)
xor_twice_fuel (suc n) a b h =
    let halves = xor_halves a b in
    let low = (differ_digits (a % 2) (b % 2) (omega arith) (omega arith)).1 in
    let high = xor_twice_fuel n (a / 2) (b / 2) (omega arith) in
    let step = rw (halves.0, halves.1, high, low) at (bit_xor_step (bit_xor a b) b) in
    omega (arith, step)

-- Exclusive or with the same number twice changes nothing.
pub xor_twice : (a b : ℕ) → bit_xor (bit_xor a b) b ≡ a
xor_twice a b = xor_twice_fuel (a + b) a b (omega arith)

-- It is 0 only for equal numbers.
pub xor_zero : (a b : ℕ) → bit_xor a b ≡ 0 → a ≡ b
xor_zero a b e = rw (e, zero-bit_xor b) at (sym (xor_twice a b))

pub xor_self : (a : ℕ) → bit_xor a a ≡ 0
xor_self a = rw (zero-bit_xor a) at (xor_twice 0 a)

or_zero_fuel : (n a b : ℕ) → a + b ≤ n → bit_or a b ≡ 0 → a + b ≡ 0
or_zero_fuel zero a b h e = omega arith
or_zero_fuel (suc n) a b h e = omega (
  arith,
  bit_or_step a b,
  or_zero_fuel n (a / 2) (b / 2) (omega arith) (omega (arith, bit_or_step a b)),
)

-- An or is 0 only of two zeros.
pub or_zero : (a b : ℕ) → bit_or a b ≡ 0 → (a ≡ 0) × (b ≡ 0)
or_zero a b e = let both = or_zero_fuel (a + b) a b (omega arith) e in (omega arith, omega arith)

pub bit_or-zero : bit_or 0 0 ≡ 0
bit_or-zero = zero-bit_or 0
