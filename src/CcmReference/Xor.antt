-- ===== src/CcmReference/Xor.antt =====
-- `_xor` and the comparison of `decrypt`.
use Prim.Native.Nat.{bit_xor, bit_or}
use bthome_writable.Common.{ℕ, ◌≡◌, ◌↔◌, refl, subst, [], ◌∷◌, length, ok, bind_ok, ok_same, arith}
use bthome_writable.Common.Bits.{xor_twice, xor_zero, xor_self, or_zero, bit_or-zero}
use bthome_writable.Protocol.Walk.{Bytes}
use bthome_writable.CcmReference.{xor, difference}

-- Strings of one length have an exclusive or.
pub xor-total : (a b : Bytes) → length a ≡ length b → (c : Bytes) × (xor a b ≡ ok c)
unfolding xor
xor-total [] [] h = ([], refl)
xor-total [] (b ∷ bs) h = absurd (omega arith)
xor-total (a ∷ as') [] h = absurd (omega arith)
xor-total (a ∷ as') (b ∷ bs) h =
    let below = xor-total as' bs (omega arith) in (bit_xor a b ∷ below.0, rw below.1)

pub length-xor :
    (a b : Bytes) {c : Bytes} → xor a b ≡ ok c → (length c ≡ length a) × (length c ≡ length b)
unfolding xor
length-xor [] [] e = ground arith
length-xor [] (b ∷ bs) e = absurd (ground arith)
length-xor (a ∷ as') [] e = absurd (ground arith)
length-xor (a ∷ as') (b ∷ bs) e =
    let parts = bind_ok (xor as' bs) _ e in let below = length-xor as' bs parts.1 in ground arith

-- The exclusive or with the same string takes it back.
pub xor-back : (a b : Bytes) {c : Bytes} → xor a b ≡ ok c → xor c b ≡ ok a
unfolding xor
xor-back [] [] e = subst (λ c. xor c [] ≡ ok []) (ok_same refl e) refl
xor-back [] (b ∷ bs) e = absurd (ground arith)
xor-back (a ∷ as') [] e = absurd (ground arith)
xor-back (a ∷ as') (b ∷ bs) e =
    let parts = bind_ok (xor as' bs) _ e in
    subst (λ c. xor c (b ∷ bs) ≡ ok (a ∷ as')) (ok_same refl parts.2)
      (rw (xor-back as' bs parts.1, xor_twice a b))

-- Two strings of one length differ nowhere just if they are equal.
pub difference_iff :
    (seen : ℕ) (a b : Bytes)
    → length a ≡ length b
    → (difference seen a b ≡ 0) ↔ ((seen ≡ 0) × (a ≡ b))
unfolding difference
difference_iff seen [] [] h = (λ e. (e, refl), λ e. e.0)
difference_iff seen [] (b ∷ bs) h = absurd (omega arith)
difference_iff seen (a ∷ as') [] h = absurd (omega arith)
difference_iff seen (a ∷ as') (b ∷ bs) h =
    let rest = difference_iff (bit_or seen (bit_xor a b)) as' bs (omega arith) in
    (
      λ e.
          let same = rest.0 e in
          let zeros = or_zero seen (bit_xor a b) same.0 in
          (zeros.0, cc (xor_zero a b zeros.1, same.1)),
      λ e.
          let heads : a ≡ b = ground (arith, e.1) in
          let tails : as' ≡ bs = ground (arith, e.1) in
          rest.1 (rw (e.0, heads, xor_self b) bit_or-zero, tails),
    )
