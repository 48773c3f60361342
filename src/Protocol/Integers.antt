-- ===== src/Protocol/Integers.antt =====
-- Python's `int.to_bytes` and `int.from_bytes`, little-endian, as protocol.py uses them.
use bthome_writable.Common.{
  ℕ, zero, suc, ◌+◌, ◌-◌, ◌*◌, ◌/◌, ◌%◌, ◌^◌, ◌≤◌, ◌<◌, ◌≡◌, ◌⊎◌, refl, ap, Bool, true, false, [],
  ◌∷◌, if◌then◌else◌, ltb, leb, length, inl, inr, Bool-cases, ltb→lt, ltb_false→le, le→leb, All,
  Result, ok, err, overflow_error, arith,
}
use bthome_writable.Common.Int.{ℤ, pos, negsuc}
use bthome_writable.Protocol.Walk.{Bytes, IsByte}
use native.Mathlib.Nat.{pow-suc}

-- The lowest `count` bytes of a number, lowest first.
unfoldable pub to_le : ℕ → ℕ → Bytes
to_le zero n = []
to_le (suc count) n = (n % 256) ∷ to_le count (n / 256)

pub from_le : Bytes → ℕ
from_le [] = 0
from_le (b ∷ bs) = b + 256 * from_le bs

-- `n.to_bytes(count, "little", signed=signed)`
unfoldable pub to_bytes : ℤ → ℕ → Bool → Result Bytes
to_bytes (pos n) count true =
    if ltb (2 * n) (256 ^ count) then ok (to_le count n) else err overflow_error
to_bytes (negsuc n) count true =
    if leb (2 * (n + 1)) (256 ^ count)
    then ok (to_le count (256 ^ count - (n + 1)))
    else err overflow_error
to_bytes (pos n) count false =
    if ltb n (256 ^ count) then ok (to_le count n) else err overflow_error
to_bytes (negsuc n) count false = err overflow_error

-- `int.from_bytes(value, "little", signed=signed)`
pub from_bytes : Bytes → Bool → ℤ
from_bytes value true =
    let n = from_le value in
    let modulus = 256 ^ length value in
    if ltb (2 * n) modulus then pos n else negsuc (modulus - n - 1)
from_bytes value false = pos (from_le value)

pub length-to_le : (count n : ℕ) → length (to_le count n) ≡ count
unfolding to_le
length-to_le zero n = refl
length-to_le (suc count) n = ap suc (length-to_le count (n / 256))

pub to_le-IsByte : (count n : ℕ) → All IsByte (to_le count n)
unfolding to_le
to_le-IsByte zero n = tt
to_le-IsByte (suc count) n = (omega arith, to_le-IsByte count (n / 256))

pub from_le-to_le : (count n : ℕ) → n < 256 ^ count → from_le (to_le count n) ≡ n
unfolding to_le from_le
from_le-to_le zero n h = omega arith
from_le-to_le (suc count) n h =
    omega (arith, from_le-to_le count (n / 256) (omega (arith, pow-suc 256 count)))

pub from_le-lt : (v : Bytes) → All IsByte v → from_le v < 256 ^ length v
unfolding from_le
from_le-lt [] h = omega arith
from_le-lt (b ∷ v) h = omega (arith, pow-suc 256 (length v), from_le-lt v h.1)

pub to_le-from_le : (v : Bytes) → All IsByte v → to_le (length v) (from_le v) ≡ v
unfolding to_le from_le
to_le-from_le [] h = refl
to_le-from_le (b ∷ v) h =
    let low : (b + 256 * from_le v) % 256 ≡ b = omega arith in
    let high : (b + 256 * from_le v) / 256 ≡ from_le v = omega arith in
    rw (low, high) (ap (λ t. b ∷ t) (to_le-from_le v h.1))

-- The values that `count` bytes can carry.
abbrev pub Fits : ℤ → ℕ → Bool → Type 0
Fits (pos n) count true = 2 * n < 256 ^ count
Fits (negsuc n) count true = 2 * (n + 1) ≤ 256 ^ count
Fits (pos n) count false = n < 256 ^ count
Fits (negsuc n) count false = ⊥

pub Fits-cases : (z : ℤ) (count : ℕ) (signed : Bool) → Fits z count signed ⊎ (¬ Fits z count signed)
Fits-cases (pos n) count true = ground arith
Fits-cases (negsuc n) count true = ground arith
Fits-cases (pos n) count false = ground arith
Fits-cases (negsuc n) count false = inr (λ h. h)

abbrev pub Carries : ℤ → ℕ → Bool → Result Bytes → Type 0
Carries z count signed r =
    (v : Bytes) × (r ≡ ok v) × (length v ≡ count) × All IsByte v × (from_bytes v signed ≡ z)

pub to_bytes-Fits :
    (z : ℤ) (count : ℕ) (signed : Bool)
    → Fits z count signed
    → Carries z count signed (to_bytes z count signed)
unfolding to_bytes from_bytes
to_bytes-Fits (pos n) count true h = (
  to_le count n,
  ground arith,
  length-to_le count n,
  to_le-IsByte count n,
  ground (arith, length-to_le count n, from_le-to_le count n),
)
to_bytes-Fits (negsuc n) count true h =
    let m : ℕ = 256 ^ count - (n + 1) in
    (
      to_le count m,
      ground arith,
      length-to_le count m,
      to_le-IsByte count m,
      ground (arith, length-to_le count m, from_le-to_le count m),
    )
to_bytes-Fits (pos n) count false h = (
  to_le count n,
  ground arith,
  length-to_le count n,
  to_le-IsByte count n,
  ground (arith, from_le-to_le count n),
)
to_bytes-Fits (negsuc n) count false h = absurd h

pub to_bytes-overflow :
    (z : ℤ) (count : ℕ) (signed : Bool)
    → ¬ Fits z count signed
    → to_bytes z count signed ≡ err overflow_error
unfolding to_bytes
to_bytes-overflow (pos n) count true h = ground arith
to_bytes-overflow (negsuc n) count true h = ground arith
to_bytes-overflow (pos n) count false h = ground arith
to_bytes-overflow (negsuc n) count false h = refl

pub from_bytes-Fits :
    (v : Bytes) (signed : Bool) → All IsByte v → Fits (from_bytes v signed) (length v) signed
unfolding from_bytes
from_bytes-Fits v true h = elim (Bool-cases (ltb (2 * from_le v) (256 ^ length v))) [
  | inl low ↦ rw low (ltb→lt _ _ low)
  | inr high ↦ rw high (omega (arith, from_le-lt v h, ltb_false→le _ _ high))
]
from_bytes-Fits v false h = from_le-lt v h

pub to_bytes-from_bytes :
    (v : Bytes) (signed : Bool)
    → All IsByte v
    → to_bytes (from_bytes v signed) (length v) signed ≡ ok v
unfolding to_bytes from_bytes
to_bytes-from_bytes v true h = elim (Bool-cases (ltb (2 * from_le v) (256 ^ length v))) [
  | inl low ↦ rw (low, to_bytes, low) (ap ok (to_le-from_le v h))
  | inr high ↦
      let n : ℕ = from_le v in
      let m : ℕ = 256 ^ length v in
      let below : n < m = from_le-lt v h in
      let fits : leb (2 * (m - n - 1 + 1)) m ≡ true =
        le→leb _ _ (omega (arith, ltb_false→le _ _ high)) in
      let back : m - (m - n - 1 + 1) ≡ n = omega arith in
      rw (high, to_bytes, fits, back) (ap ok (to_le-from_le v h))
]
to_bytes-from_bytes v false h = ground (arith, from_le-lt v h, to_le-from_le v h)

pub to_bytes_unsigned :
    (n count : ℕ) (v : Bytes)
    → to_bytes (pos n) count false ≡ ok v
    → (n < 256 ^ count) × (v ≡ to_le count n)
unfolding to_bytes
to_bytes_unsigned n count v e = elim (Bool-cases (ltb n (256 ^ count))) [
  | inr wide ↦ absurd (ground arith)
  | inl fits ↦ (ltb→lt _ _ fits, ground arith)
]
