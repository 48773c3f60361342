-- ===== src/Coordinator/Reading/Values.antt =====
-- The values that the coordinator of custom_components/bthome_writable/coordinator.py keeps, after one
-- of them was stored.
use bthome_writable.Common.{
  ℕ, ◌≡◌, refl, ap, inl, inr, true, false, Option, none, some, List, [], ◌∷◌, ◌==◌, Bool-cases,
  eq→==, arith,
}
use bthome_writable.Protocol.Walk.{Bytes}
use bthome_writable.Protocol.Sealing.Open.{bytes_eq→eq}
use bthome_writable.Coordinator.{lookup, put_value}
use bthome_writable.Coordinator.Reading.{is_value, store}

lookup-put_value :
    (n : ℕ) (value : Bytes) (values : List (ℕ × Bytes))
    → lookup n (put_value n value values) ≡ some value
unfolding put_value
lookup-put_value n value [] = let same : (n == n) ≡ true = eq→== n n refl in rw same
lookup-put_value n value ((m, old) ∷ values) = elim (Bool-cases (m == n)) [
  | inl same ↦ let self : (n == n) ≡ true = eq→== n n refl in rw (same, self)
  | inr other ↦ rw other (rw other (lookup-put_value n value values))
]

lookup-put_value_other :
    (n m : ℕ) (value : Bytes) (values : List (ℕ × Bytes))
    → (m == n) ≡ false
    → lookup n (put_value m value values) ≡ lookup n values
unfolding put_value
lookup-put_value_other n m value [] h = rw h
lookup-put_value_other n m value ((k, old) ∷ values) h = elim (Bool-cases (k == m)) [
  | inl same ↦ let other : (k == n) ≡ false = ground arith in rw (same, h, other)
  | inr differs ↦ rw differs (rw (lookup-put_value_other n m value values h))
]

is_value-eq :
    (known : Option Bytes) (value : Bytes) → is_value known value ≡ true → known ≡ some value
unfolding is_value
is_value-eq none value e = absurd (grind arith)
is_value-eq (some known) value e = ap some (bytes_eq→eq known value e)

pub lookup-store :
    (n : ℕ) (value : Bytes) (values : List (ℕ × Bytes))
    → lookup n (store n value values) ≡ some value
unfolding store
lookup-store n value values = elim (Bool-cases (is_value (lookup n values) value)) [
  | inl known ↦ rw known (is_value-eq (lookup n values) value known)
  | inr new ↦ rw new (lookup-put_value n value values)
]

pub lookup-store_other :
    (n m : ℕ) (value : Bytes) (values : List (ℕ × Bytes))
    → (m == n) ≡ false
    → lookup n (store m value values) ≡ lookup n values
unfolding store
lookup-store_other n m value values h = elim (Bool-cases (is_value (lookup m values) value)) [
  | inl known ↦ rw known
  | inr new ↦ rw new (lookup-put_value_other n m value values h)
]
