-- ===== src/Common/Results.antt =====
-- Calls that may raise. `Error` lists the exceptions that the modelled code raises or meets; the
-- messages, which only the log and the user read, are left out.
use Prim.Native.Nat.{ℕ}
use mathlib.Core.Path.{◌≡◌, refl}
use mathlib.Core.Logic.{◌⊎◌, inl, inr}
use mathlib.Core.Bool.{Bool, true, false}
use mathlib.Core.Option.{Option, none, some}
use mathlib.Core.List.{List}
use native.Mathlib.Omega.{arith}
use bthome_writable.Common.Lists.{get_elem?}

-- `protocol_error`, `stale_entry`: the two of protocol.py. `index_error`, `overflow_error`,
-- `value_error`, `assertion_error`: Python's own. `write_failed`, `stale_table`: the two of coordinator.py.
-- `gatt_error`: whatever the Bluetooth stack raises. `os_error`, `file_exists`: what the file system
-- raises; `key_error`: a key that a dict does not have. `out_of_fuel` is no Python exception.
pub data Error : Type 0 where
  protocol_error stale_entry : Error
  index_error overflow_error value_error assertion_error : Error
  write_failed stale_table gatt_error out_of_fuel : Error
  os_error file_exists key_error : Error

pub data Result {ℓ} (A : Type ℓ) : Type ℓ where
  ok : A → Result A
  err : Error → Result A

infixl 5 ◌>>=◌ ◌>>◌
-- What follows a call that may raise.
abbrev pub ◌>>=◌ {ℓ κ} : {B : Type κ} {A : Type ℓ} → Result A → (A → Result B) → Result B
called >>= rest = elim called [ err raised ↦ err raised | ok value ↦ rest value ]

abbrev pub ◌>>◌ {ℓ} : {A : Type ℓ} → Result (Unit {0}) → Result A → Result A
called >> rest = called >>= (λ done. rest)

-- `if not test: raise e`
abbrev pub require : Bool → Error → Result (Unit {0})
require test raised = elim test [ false ↦ err raised | true ↦ ok tt ]

abbrev pub or_raise {ℓ} : {A : Type ℓ} → Option A → Error → Result A
or_raise none e = err e
or_raise (some a) e = ok a

-- `xs[i]`
abbrev pub index {ℓ} : {A : Type ℓ} → List A → ℕ → Result A
index xs i = or_raise (get_elem? xs i) index_error

pub Result-cases {ℓ} :
    {A : Type ℓ} (r : Result A) → ((a : A) × (r ≡ ok a)) ⊎ ((e : Error) × (r ≡ err e))
Result-cases (ok a) = inl (a, refl)
Result-cases (err e) = inr (e, refl)

-- A chain that ends well went well at its first call.
pub bind_ok {ℓ κ} :
    {A : Type ℓ} {B : Type κ} (called : Result A) (rest : A → Result B) {b : B}
    → (called >>= rest) ≡ ok b
    → (a : A) × (called ≡ ok a) × (rest a ≡ ok b)
bind_ok (ok a) rest e = (a, refl, e)
bind_ok (err raised) rest e = absurd (ground arith)

-- So did a requirement.
pub require_ok :
    (test : Bool) (raised : Error) {done : Unit} → require test raised ≡ ok done → test ≡ true
require_ok true raised e = refl
require_ok false raised e = absurd (ground arith)

-- Two results of one call are one.
pub ok_same {ℓ} : {A : Type ℓ} {r : Result A} {a b : A} → r ≡ ok a → r ≡ ok b → a ≡ b
ok_same p q = ground arith

-- A chain that ends well met its requirement.
pub required_ok {ℓ} :
    {A : Type ℓ} (test : Bool) (raised : Error) (rest : Result A) {b : A}
    → (require test raised >> rest) ≡ ok b
    → (test ≡ true) × (rest ≡ ok b)
required_ok true raised rest e = (refl, e)
required_ok false raised rest e = absurd (ground arith)
