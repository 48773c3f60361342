-- ===== src/Protocol/Declaration/Objects.antt =====
-- `decode_object` of protocol.py undoes `encode_object` and refuses everything else.
use bthome_writable.Common.{
  ℕ, ◌+◌, ◌≡◌, ◌≢◌, refl, subst, ◌⊎◌, inl, inr, some, String, [], ◌∷◌, append-nil, length, take,
  take-length, Result, ok, err, protocol_error, stale_entry, Bool-cases, Option-cases, ◌==◌, ==→eq,
  arith,
}
use bthome_writable.Protocol.Walk.{Bytes, Table, length_prefixed, command_format}
use bthome_writable.Protocol.Walk.Framing.{
  IsValueOf, HasShape, size_of, size_of-cases, size_of_complete, size_of_sound, value_length-append,
}
use bthome_writable.Protocol.Declaration.{WritableEntry, encode_object, decode_object}

take_all : (size : ℕ) (v : Bytes) → size ≡ length v → take size v ≡ v
take_all size v h = rw h (take-length v)

module _ (table : Table) (e : WritableEntry) where
  -- The value is one that the entry's object can have.
  abbrev pub CanHold : Bytes → Type 0
  CanHold v = (format : String × ℕ) × (table e.object_id ≡ some format) × IsValueOf format v

  -- The outcomes of `decode_object`.
  abbrev pub Decoded : Bytes → Result Bytes → Type 0
  Decoded payload r =
      ((v : Bytes) × (payload ≡ encode_object e v) × CanHold v × (r ≡ ok v))
      ⊎ ((b : ℕ) × (rest : Bytes) × (payload ≡ b ∷ rest)
          × (b ≢ e.object_id)
          × (r ≡ err stale_entry))
      ⊎ ((v : Bytes) × (payload ≡ encode_object e v) × ¬ CanHold v × (r ≡ err protocol_error))
      ⊎ ((payload ≡ []) × (r ≡ err protocol_error))

  CanHold-size :
      (v : Bytes) (f : String) (fixed : ℕ)
      → table e.object_id ≡ some (f, fixed)
      → CanHold v
      → size_of (length_prefixed f) (command_format f) fixed v ≡ ok (length v)
  CanHold-size v f fixed known (format, known', h) =
      let same : format ≡ (f, fixed) = ground (arith, known, known') in
      let sized =
        rw append-nil at
          (size_of_complete (length_prefixed format.0) (command_format format.0) format.1 v [] h) in
      subst
        (λ (g : String × ℕ).
          size_of (length_prefixed g.0) (command_format g.0) g.1 v ≡ ok (length v))
        same sized

  -- What follows an id that is the entry's own.
  decode_value :
      (v : Bytes)
      → (CanHold v × (decode_object table e (e.object_id ∷ v) ≡ ok v))
        ⊎ (¬ CanHold v × (decode_object table e (e.object_id ∷ v) ≡ err protocol_error))
  unfolding decode_object
  decode_value v = elim (Option-cases (table e.object_id)) [
    | inl unknown ↦ inr (λ c. absurd (ground (arith, c.1)), ground arith)
    | inr ((f, fixed), known) ↦
        elim (size_of-cases (length_prefixed f) (command_format f) fixed v) [
          | inr bad ↦ inr (
            λ c. absurd (ground (arith, CanHold-size v f fixed known c)),
            ground (arith, value_length-append [] e.object_id v f fixed),
          )
          | inl (size, s) ↦ elim (Bool-cases (length (e.object_id ∷ v) == 1 + size)) [
            | inl fits ↦ inl (
              (
                (f, fixed),
                known,
                subst (λ (w : Bytes). HasShape (length_prefixed f) (command_format f) fixed w)
                    (take_all size v (ground arith))
                    (size_of_sound (length_prefixed f) (command_format f) fixed v size s
                      (ground arith)),
              ),
              ground (arith, value_length-append [] e.object_id v f fixed),
            )
            | inr other ↦ inr (
              λ c. absurd (ground (arith, CanHold-size v f fixed known c)),
              ground (arith, value_length-append [] e.object_id v f fixed),
            )
          ]
        ]
  ]

  -- `decode_object` returns the value of a payload that encodes one that the entry's object can
  -- hold; raises `StaleEntry` exactly where the payload begins with another object's id; and raises
  -- `ProtocolError` on an empty payload and on an ill-framed value.
  pub decode_object-encode_object :
      (payload : Bytes) → Decoded payload (decode_object table e payload)
  decode_object-encode_object [] = inr (inr (inr (refl, unfold decode_object in refl)))
  decode_object-encode_object (b ∷ v) = elim (Bool-cases (b == e.object_id)) [
    | inr other ↦ inr (inl (b, v, refl, ground arith, unfold decode_object in ground arith))
    | inl own ↦ rw (==→eq _ _ own) (elim (decode_value v) [
      | inl (held, r) ↦ inl (v, unfold encode_object in refl, held, r)
      | inr (ill, r) ↦ inr (inr (inl (v, unfold encode_object in refl, ill, r)))
    ])
  ]
