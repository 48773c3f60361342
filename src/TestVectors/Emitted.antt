-- ===== src/TestVectors/Emitted.antt =====
-- Every vector that `build_vectors` emits is fair.
use Prim.Native.Nat.{bit_xor}
use bthome_writable.Common.{
  ℕ, ◌<◌, ◌≡◌, refl, false, ◌&&◌, none, ◌∷◌, List, Result, ok, index, drop, length, bind_ok, String,
  All, All-append, arith,
}
use bthome_writable.Protocol.Walk.{Bytes}
use bthome_writable.Protocol.Text as PT
use bthome_writable.Protocol.Text.{from_hex, remove, hex_digit, is_space}
use bthome_writable.Protocol.Sealing.{Ccm, IsCcm}
use bthome_writable.TestVectors.{
  Direction, Options, Vector, mac, mac_bytes, bindkey, accepts, vector, seal, sealed_payload,
  advertising_payload, device_info_advertising, device_info_write, device_info_read,
}
use bthome_writable.TestVectors.Sealed.{Reads}
use bthome_writable.TestVectors.Build.{adv_single_light, write_light_off, read_target_20}
use bthome_writable.TestVectors.Build.{
  advertising_vectors, write_vectors, read_vectors, replayed_advertisement, replayed_write,
  replayed_read, counter_vectors, replayed_vectors, broken_vectors, wrong_key, tampered_ciphertext,
  build_calls, build_vectors,
}
use bthome_writable.TestVectors.Verified.{above, IsFair, vector-IsFair, collect-IsFair}

mac-Reads : Reads mac
unfolding mac_bytes PT.mac_bytes remove
mac-Reads = refl

module _ (ccm : Ccm) (laws : IsCcm ccm) (aes : Bytes → Bytes → Result Bytes) where
  abbrev Yields : Result Vector → Type 0
  Yields r = (v : Vector) → r ≡ ok v → IsFair ccm v

  -- A vector whose bytes are those that were sealed.
  kept :
      (name description : String) (direction : Direction) (counter : ℕ) (plaintext : Bytes)
      (o : Options)
      → o.payload_override ≡ none
      → o.verify_key ≡ none
      → o.address ≡ mac
      → 0 < length plaintext
      → accepts o.expect ≡ o.mic_valid && above o.last_accepted_counter counter
      → Yields (vector ccm aes name description direction counter plaintext o)
  kept name description direction counter plaintext o whole own home filled policy =
      vector-IsFair ccm laws aes name description direction counter plaintext o
        (λ valid. (whole, own, rw home mac-Reads)) filled policy

  -- A vector that is altered, and says so.
  altered :
      (name description : String) (direction : Direction) (counter : ℕ) (plaintext : Bytes)
      (o : Options)
      → o.mic_valid ≡ false
      → 0 < length plaintext
      → accepts o.expect ≡ false
      → Yields (vector ccm aes name description direction counter plaintext o)
  altered name description direction counter plaintext o broken filled policy =
      vector-IsFair ccm laws aes name description direction counter plaintext o
        (λ valid. absurd (ground arith)) filled (rw broken policy)

  advertising_vectors-IsFair : All Yields (advertising_vectors ccm aes)
  unfolding advertising_vectors
  advertising_vectors-IsFair = (
    kept _ _ _ _ _ _ refl refl refl (omega arith) refl,
    (
      kept _ _ _ _ _ _ refl refl refl (omega arith) refl,
      (
        kept _ _ _ _ _ _ refl refl refl (omega arith) refl,
        (
          kept _ _ _ _ _ _ refl refl refl (omega arith) refl,
          (kept _ _ _ _ _ _ refl refl refl (omega arith) refl, tt),
        ),
      ),
    ),
  )

  write_vectors-IsFair : All Yields (write_vectors ccm aes)
  unfolding write_vectors
  write_vectors-IsFair = (
    kept _ _ _ _ _ _ refl refl refl (omega arith) refl,
    (
      kept _ _ _ _ _ _ refl refl refl (omega arith) refl,
      (
        kept _ _ _ _ _ _ refl refl refl (omega arith) refl,
        (
          kept _ _ _ _ _ _ refl refl refl (omega arith) refl,
          (
            kept _ _ _ _ _ _ refl refl refl (omega arith) refl,
            (
              kept _ _ _ _ _ _ refl refl refl (omega arith) refl,
              (
                kept _ _ _ _ _ _ refl refl refl (omega arith) refl,
                (kept _ _ _ _ _ _ refl refl refl (omega arith) refl, tt),
              ),
            ),
          ),
        ),
      ),
    ),
  )

  read_vectors-IsFair : All Yields (read_vectors ccm aes)
  unfolding read_vectors
  read_vectors-IsFair = (
    kept _ _ _ _ _ _ refl refl refl (omega arith) refl,
    (kept _ _ _ _ _ _ refl refl refl (omega arith) refl, tt),
  )

  counter_vectors-IsFair : All Yields (counter_vectors ccm aes)
  unfolding counter_vectors
  counter_vectors-IsFair = (
    kept _ _ _ _ _ _ refl refl refl (omega arith) refl,
    (kept _ _ _ _ _ _ refl refl refl (omega arith) refl, tt),
  )

  replayed_advertisement-IsFair : Yields (replayed_advertisement ccm aes)
  unfolding replayed_advertisement
  replayed_advertisement-IsFair v e =
      let a = bind_ok (seal ccm aes bindkey mac device_info_advertising 1 adv_single_light) _ e in
      let b = bind_ok (sealed_payload a.0.1 1 a.0.2) _ a.2 in
      altered _ _ _ _ _ _ refl (omega arith) refl v b.2

  replayed_write-IsFair : Yields (replayed_write ccm aes)
  unfolding replayed_write
  replayed_write-IsFair v e =
      let a = bind_ok (seal ccm aes bindkey mac device_info_write 1 write_light_off) _ e in
      let b = bind_ok (advertising_payload device_info_advertising a.0.1 1 a.0.2) _ a.2 in
      altered _ _ _ _ _ _ refl (omega arith) refl v b.2

  replayed_read-IsFair : Yields (replayed_read ccm aes)
  unfolding replayed_read
  replayed_read-IsFair v e =
      let a = bind_ok (seal ccm aes bindkey mac device_info_read 3 read_target_20) _ e in
      let b = bind_ok (sealed_payload a.0.1 3 a.0.2) _ a.2 in
      altered _ _ _ _ _ _ refl (omega arith) refl v b.2

  tampered_ciphertext-IsFair : Yields (tampered_ciphertext ccm aes)
  unfolding tampered_ciphertext
  tampered_ciphertext-IsFair v e =
      let a = bind_ok (seal ccm aes bindkey mac device_info_write 6 write_light_off) _ e in
      let f = bind_ok (index a.0.1 0) _ a.2 in
      let b = bind_ok (sealed_payload (bit_xor f.0 1 ∷ drop 1 a.0.1) 6 a.0.2) _ f.2 in
      altered _ _ _ _ _ _ refl (omega arith) refl v b.2

  wrong_key-IsFair : Yields (wrong_key ccm aes)
  unfolding wrong_key
  wrong_key-IsFair = altered _ _ _ _ _ _ refl (omega arith) refl

  replayed_vectors-IsFair : All Yields (replayed_vectors ccm aes)
  unfolding replayed_vectors
  replayed_vectors-IsFair =
      (replayed_advertisement-IsFair, (replayed_write-IsFair, (replayed_read-IsFair, tt)))

  broken_vectors-IsFair : All Yields (broken_vectors ccm aes)
  unfolding broken_vectors
  broken_vectors-IsFair = (wrong_key-IsFair, (tampered_ciphertext-IsFair, tt))

  -- With an AES-CCM that keeps its promises, every vector that `build_vectors` emits tells the truth:
  -- where it says that its MIC verifies, its payload opens under its key, address and direction to
  -- the plaintext that it names, an advertisement and a read by the receiver's own functions and a
  -- write by the same opening under the write direction; and it is to be accepted just when it says
  -- that its MIC verifies and its counter is above the last one accepted, if one is given.
  pub build_vectors-IsFair :
      (vectors : List Vector) → build_vectors ccm aes ≡ ok vectors → All (IsFair ccm) vectors
  unfolding build_vectors build_calls
  build_vectors-IsFair vectors e =
      let policies =
        All-append Yields (counter_vectors ccm aes) (broken_vectors ccm aes) counter_vectors-IsFair
          broken_vectors-IsFair in
      let negative =
        All-append Yields (replayed_vectors ccm aes) _ replayed_vectors-IsFair policies in
      let reads = All-append Yields (read_vectors ccm aes) _ read_vectors-IsFair negative in
      let writes = All-append Yields (write_vectors ccm aes) _ write_vectors-IsFair reads in
      collect-IsFair ccm laws aes _
        (All-append Yields (advertising_vectors ccm aes) _ advertising_vectors-IsFair writes) e
