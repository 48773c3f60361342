-- ===== src/Protocol/Kinds/Scaled.antt =====
-- `encode_scaled` and `decode_scaled` of protocol.py invert each other.
use bthome_writable.Common.{
  ◌≡◌, refl, ap, ◌⊎◌, inl, inr, Result, ok, err, ◌>>=◌, overflow_error, length, All,
}
use bthome_writable.Common.Int.{ℤ}
use bthome_writable.Protocol.Walk.{Bytes, IsByte}
use bthome_writable.Protocol.Integers.{
  Fits, Fits-cases, from_bytes-Fits, from_bytes, to_bytes-Fits, to_bytes-overflow,
  to_bytes-from_bytes, to_bytes,
}
use bthome_writable.Protocol.Kinds.{Floats, ObjectKind, encode_scaled, decode_scaled}

module _ (fl : Floats) (k : ObjectKind fl) where
  -- What `encode_scaled` does with a value whose integer is this one and fits the width.
  abbrev pub Encoded : ℤ → Result Bytes → Type 0
  Encoded z r =
      (v : Bytes) × (r ≡ ok v)
      × (length v ≡ k.length)
      × All IsByte v
      × (decode_scaled fl v k ≡ fl.mul (fl.of_int z) k.factor)

  -- What rounding the scaled value comes to, and `encode_scaled` with it.
  abbrev pub Scales : Result ℤ → Result Bytes → Type 0
  Scales (err x) r = r ≡ err x
  Scales (ok z) r =
      (Fits z k.length k.signed × Encoded z r)
      ⊎ (¬ Fits z k.length k.signed × (r ≡ err overflow_error))

  carried : (rounded : Result ℤ) → Scales rounded (rounded >>= (λ z. to_bytes z k.length k.signed))
  unfolding decode_scaled
  carried (err x) = refl
  carried (ok z) = elim (Fits-cases z k.length k.signed) [
    | inl h ↦
        let (v, e, width, bytes, back) = to_bytes-Fits z k.length k.signed h in
        inl (h, (v, e, width, bytes, ap (λ y. fl.mul (fl.of_int y) k.factor) back))
    | inr h ↦ inr (h, to_bytes-overflow z k.length k.signed h)
  ]

  -- A value whose quotient by the factor rounds to an integer that fits the object's width is encoded
  -- in exactly that many bytes, and decoded to the integer times the factor; where the integer does
  -- not fit, `OverflowError` is raised. Where rounding raises, as it does for a number that is none,
  -- its error is raised.
  pub decode_scaled-encode_scaled :
      (value : fl.Float) → Scales (fl.round (fl.div value k.factor)) (encode_scaled fl value k)
  unfolding encode_scaled
  decode_scaled-encode_scaled value = carried (fl.round (fl.div value k.factor))

  -- Scaling an integer that fits the width by the factor, and back, rounds to the same integer.
  abbrev pub ScalesExactly : Type 0
  ScalesExactly =
      (z : ℤ)
      → Fits z k.length k.signed
      → fl.round (fl.div (fl.mul (fl.of_int z) k.factor) k.factor) ≡ ok z

  -- Bytes of the object's width, decoded to a number and encoded again, are the same bytes, where
  -- the integers of that width survive the scaling.
  pub encode_scaled-decode_scaled :
      (v : Bytes)
      → ScalesExactly
      → length v ≡ k.length
      → All IsByte v
      → encode_scaled fl (decode_scaled fl v k) k ≡ ok v
  unfolding encode_scaled decode_scaled
  encode_scaled-decode_scaled v exact width bytes =
      let fits : Fits (from_bytes v k.signed) k.length k.signed =
        rw width at (from_bytes-Fits v k.signed bytes) in
      rw (exact (from_bytes v k.signed) fits, ← width) (to_bytes-from_bytes v k.signed bytes)
