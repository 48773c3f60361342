-- ===== src/Protocol/Sealing/Nonce.antt =====
-- Nonces of protocol.py differ wherever the device, the device-information byte or the counter does.
-- The byte of an advertisement is the one that it was sent with.
use bthome_writable.Common.{
  ℕ, ◌^◌, ◌<◌, ◌≡◌, sym, ap, ◌∙◌, inl, inr, false, List, ◌∷◌, ◌++◌, length, take, drop, ok, ltb,
  Bool-cases, Result-cases, take-append, drop-append, take-append_eq, drop-append_eq, arith,
}
use bthome_writable.Common.Int.{pos}
use bthome_writable.Protocol.Walk.{Bytes}
use bthome_writable.Protocol.Integers.{to_bytes, to_bytes_unsigned, to_le, from_le, from_le-to_le}
use bthome_writable.Protocol.Text.{Text, mac_bytes}
use bthome_writable.Protocol.Sealing.{nonce, counter_length}

append_injective {ℓ} :
    {A : Type ℓ} (xs ys xs' ys' : List A)
    → length xs ≡ length xs'
    → xs ++ ys ≡ xs' ++ ys'
    → (xs ≡ xs') × (ys ≡ ys')
append_injective xs ys xs' ys' h e = (
  sym (take-append xs ys) ∙ ap (take (length xs)) e ∙ take-append_eq (length xs) xs' ys' h,
  sym (drop-append xs ys) ∙ ap (drop (length xs)) e ∙ drop-append_eq (length xs) xs' ys' h,
)

-- The parts of a nonce that was made.
nonce_parts :
    (address : Text) (device_info counter : ℕ) (mac n : Bytes)
    → mac_bytes address ≡ ok mac
    → nonce address device_info counter ≡ ok n
    → (counter < 256 ^ 4) × (n ≡ mac ++ (0xD2 ∷ 0xFC ∷ device_info ∷ to_le 4 counter))
unfolding nonce
nonce_parts address device_info counter mac n m e =
    elim (Result-cases (to_bytes (pos counter) counter_length false)) [
      | inr (bad, c) ↦ elim (Bool-cases (ltb device_info 256)) [
        | inl d ↦ absurd (ground arith)
        | inr d ↦ absurd (ground arith)
      ]
      | inl (count, c) ↦ elim (Bool-cases (ltb device_info 256)) [
        | inl d ↦ let (fits, same) = to_bytes_unsigned counter 4 count c in (fits, ground arith)
        | inr d ↦ absurd (ground arith)
      ]
    ]

-- Two equal nonces, over addresses of the same width, come from the same address bytes, the same
-- device-information byte and the same counter.
pub nonce_injective :
    (address address' : Text) (device_info device_info' counter counter' : ℕ) (mac mac' n : Bytes)
    → mac_bytes address ≡ ok mac
    → mac_bytes address' ≡ ok mac'
    → length mac ≡ length mac'
    → nonce address device_info counter ≡ ok n
    → nonce address' device_info' counter' ≡ ok n
    → (mac ≡ mac') × (device_info ≡ device_info') × (counter ≡ counter')
nonce_injective address address' d d' c c' mac mac' n m m' width e e' =
    let (fits, parts) = nonce_parts address d c mac n m e in
    let (fits', parts') = nonce_parts address' d' c' mac' n m' e' in
    let (same, rest) =
      append_injective mac (0xD2 ∷ 0xFC ∷ d ∷ to_le 4 c) mac' (0xD2 ∷ 0xFC ∷ d' ∷ to_le 4 c') width
        (sym parts ∙ parts') in
    let counts : to_le 4 c ≡ to_le 4 c' = cc rest in
    (same, cc rest, sym (from_le-to_le 4 c fits) ∙ ap from_le counts ∙ from_le-to_le 4 c' fits')
