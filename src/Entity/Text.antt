-- ===== src/Entity/Text.antt =====
-- A text that is set and shown: `async_set_value` and `native_value` of
-- custom_components/bthome_writable/text.py, on the encoded text.
use bthome_writable.Common.{
  ℕ, ◌≤◌, ◌<◌, ◌≡◌, refl, ◌⊎◌, inl, inr, some, ◌∷◌, Bool-cases, ltb, length, ok, err, value_error,
  ltb→lt, ltb_false→le, arith,
}
use bthome_writable.Protocol.Walk.{Bytes, length_prefixed, command_format}
use bthome_writable.Protocol.Walk.Framing.{IsValueOf}
use bthome_writable.Entity.{native_value, set_value, max_length}

-- A text of at most 255 bytes is applied as a well-framed BTHome string whose length byte fits, and
-- shown again as the same bytes; a longer one is refused with `ValueError`.
native_value-set_value :
    (body : Bytes) (fixed : ℕ)
    → ((length body ≤ max_length)
        × ((value : Bytes) × (set_value body ≡ ok value)
            × IsValueOf ("string", fixed) value
            × (native_value (some value) ≡ some body)))
      ⊎ ((max_length < length body) × (set_value body ≡ err value_error))
unfolding set_value native_value length_prefixed command_format
native_value-set_value body fixed = elim (Bool-cases (ltb max_length (length body))) [
  | inl long ↦ inr (ltb→lt _ _ long, rw long)
  | inr fits ↦ inl (ltb_false→le _ _ fits, (length body ∷ body, rw fits, refl, ground arith))
]
