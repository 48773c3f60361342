-- ===== src/TestVectors/Returned.antt =====
-- The calls of tools/gen_test_vectors.py return where `AESCCM` is the reference: `seal`, `payload_of`
-- and `vector` by the address of the document, and the list of such calls.
pub mod Calls
use Prim.Native.Nat.{bit_xor}
use bthome_writable.Common.{
  ℕ, ◌-◌, ◌<◌, ◌≡◌, refl, sym, subst, ◌∙◌, true, false, Option, some, none, [], ◌∷◌, ◌++◌, List,
  Result, ok, index, length, drop, ltb, ◌>>=◌, String, length-append, take-append_eq,
  drop-append_eq, All, All-append, arith,
}
use bthome_writable.Common.Int.{pos}
use bthome_writable.Protocol.Walk.{Bytes}
use bthome_writable.Protocol.Text.{from_hex, remove, hex_digit, is_space}
use bthome_writable.Protocol.Integers.{to_bytes-Fits}
use bthome_writable.Protocol.Sealing.Open.{bytes_eq_self}
use bthome_writable.CcmReference.Stream.{IsKey}
use bthome_writable.CcmReference.Inverse.{encrypt-total}
use bthome_writable.CcmReference.Refines.{reference_ccm}
use bthome_writable.TestVectors.{
  Direction, advertising, write, read, device_info_of, Options, Vector, mac, mac_bytes, nonce,
  bindkey, wrong_bindkey, vector, seal, payload_of, sealed_payload, advertising_payload,
  device_info_advertising, device_info_write, device_info_read,
}
use bthome_writable.TestVectors.Build.{
  collect, adv_single_light, write_light_off, read_target_20, advertising_vectors, write_vectors,
  read_vectors, replayed_advertisement, replayed_write, replayed_read, counter_vectors,
  replayed_vectors, broken_vectors, wrong_key, tampered_ciphertext, build_calls, build_vectors,
}

abbrev pub Returns {ℓ} : {A : Type ℓ} → Result A → Type ℓ
Returns r = (a : _) × (r ≡ ok a)

pub bind-Returns {ℓ κ} :
    {A : Type ℓ} {B : Type κ} (called : Result A) (rest : A → Result B) (a : A)
    → called ≡ ok a
    → Returns (rest a)
    → Returns (called >>= rest)
bind-Returns called rest a e (b, f) = (b, rw e f)

natural : Bytes
natural = 0xA4 ∷ 0xC1 ∷ 0x38 ∷ 0x8E ∷ 0x1F ∷ 0x2B ∷ []

mac-natural : mac_bytes mac ≡ ok natural
unfolding mac_bytes from_hex remove hex_digit is_space natural
mac-natural = refl

nonce-total :
    (device_info counter : ℕ)
    → device_info < 256
    → counter < 4294967296
    → (n : Bytes) × (nonce mac device_info counter ≡ ok n) × (length n ≡ 13)
unfolding nonce natural
nonce-total device_info counter d h =
    let count = to_bytes-Fits (pos counter) 4 false (omega arith) in
    let small : ltb device_info 256 ≡ true = ground arith in
    (
      natural ++ (0xD2 ∷ 0xFC ∷ device_info ∷ count.0),
      rw (mac-natural, small, count.1),
      omega (arith, length-append natural (0xD2 ∷ 0xFC ∷ device_info ∷ count.0), count.2),
    )

module _ (aes : Bytes → Bytes → Result Bytes) where
  pub seal-total :
      (key : Bytes) (device_info counter : ℕ) (plaintext : Bytes)
      → IsKey aes key
      → device_info < 256
      → counter < 4294967296
      → length plaintext < 65536
      → (sealed : Bytes × Bytes × Bytes) × (seal
            (reference_ccm aes)
            aes
            key
            mac
            device_info
            counter
            plaintext
          ≡ ok sealed)
        × (length sealed.1 ≡ length plaintext)
  unfolding seal
  seal-total key device_info counter plaintext takes d c p =
      let n = nonce-total device_info counter d c in
      let made = encrypt-total aes key n.0 n.2 takes plaintext p in
      let body = made.0.0 in
      let tag = made.0.1 in
      let cut : length (body ++ tag) - 4 ≡ length body =
        omega (arith, length-append body tag, made.3) in
      let front = take-append_eq _ body tag cut in
      let back = drop-append_eq _ body tag cut in
      (
        (n.0, body, tag),
        rw (n.1, made.1, front, back, bytes_eq_self body, bytes_eq_self tag),
        made.2,
      )

  pub payload_of-total :
      (override : Option Bytes) (direction : Direction) (ciphertext mic : Bytes) (counter : ℕ)
      → counter < 4294967296
      → Returns (payload_of override direction ciphertext counter mic)
  unfolding payload_of sealed_payload advertising_payload
  payload_of-total (some override) direction ciphertext mic counter h = (override, refl)
  payload_of-total none advertising ciphertext mic counter h =
      let count = to_bytes-Fits (pos counter) 4 false (omega arith) in
      (device_info_advertising ∷ ciphertext ++ (count.0 ++ mic), rw count.1)
  payload_of-total none write ciphertext mic counter h =
      let count = to_bytes-Fits (pos counter) 4 false (omega arith) in
      (ciphertext ++ (count.0 ++ mic), rw count.1)
  payload_of-total none read ciphertext mic counter h =
      let count = to_bytes-Fits (pos counter) 4 false (omega arith) in
      (ciphertext ++ (count.0 ++ mic), rw count.1)

  device_info_of-byte : (direction : Direction) → device_info_of direction < 256
  device_info_of-byte advertising = omega arith
  device_info_of-byte write = omega arith
  device_info_of-byte read = omega arith

  pub own :
      (name description : String) (direction : Direction) (counter : ℕ) (plaintext : Bytes)
      (o : Options)
      → o.address ≡ mac
      → IsKey aes o.key
      → counter < 4294967296
      → length plaintext < 65536
      → Returns (vector (reference_ccm aes) aes name description direction counter plaintext o)
  unfolding vector
  own name description direction counter plaintext o home takes c p =
      let a =
        seal-total o.key (device_info_of direction) counter plaintext takes
          (device_info_of-byte direction) c p in
      let b = payload_of-total o.payload_override direction a.0.1 a.0.2 counter c in
      let sealed =
        subst
          (λ h.
            seal (reference_ccm aes) aes o.key h (device_info_of direction) counter plaintext
            ≡ ok a.0)
          (sym home) a.1 in
      bind-Returns _ _ a.0 sealed (bind-Returns _ _ b.0 b.1 (_, refl))

  pub collect-Returns :
      (rs : List (Result Vector))
      → All Returns rs
      → (vs : List Vector) × (collect rs ≡ ok vs) × (length vs ≡ length rs)
  unfolding collect
  collect-Returns [] h = ([], refl, refl)
  collect-Returns (r ∷ rs) h =
      let below = collect-Returns rs h.1 in
      (h.0.0 ∷ below.0, rw (h.0.1, below.1), omega (arith, below.2))
