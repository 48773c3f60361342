-- ===== src/CcmReference/Refines.antt =====
-- The reference as an implementation of what protocol.py takes from the package cryptography.
use bthome_writable.Common.{
  ◌+◌, ◌-◌, ◌≡◌, refl, subst, some, ◌++◌, length, take, drop, Result, ok, ◌>>=◌, length-append,
  take-append_eq, drop-append_eq, bind_ok, ok_same, arith,
}
use bthome_writable.Protocol.Walk.{Bytes}
use bthome_writable.Protocol.Sealing.{Ccm, IsCcm, mic_length}
use bthome_writable.CcmReference.{encrypt, decrypt}
use bthome_writable.CcmReference.Xor.{length-xor}
use bthome_writable.CcmReference.Stream.{IsBlockCipher}
use bthome_writable.CcmReference.Inverse.{encrypt-Encrypted, encrypt-tag, decrypt_iff}

-- The tag behind the ciphertext, as `AESCCM` gives and takes them.
abbrev pub reference_ccm : (Bytes → Bytes → Result Bytes) → Ccm
reference_ccm aes = record {
  encrypt = λ key nonce plaintext.
      encrypt aes key nonce plaintext >>= (λ sealed. ok (sealed.0 ++ sealed.1));
  decrypt = λ key nonce sealed.
      decrypt aes key nonce (take (length sealed - mic_length) sealed)
        (drop (length sealed - mic_length) sealed);
}

module _ (aes : Bytes → Bytes → Result Bytes) (block : IsBlockCipher aes) where
  Undone : Bytes → Bytes → Bytes → Bytes → Type 0
  Undone key nonce plaintext sealed =
      ((reference_ccm aes).decrypt key nonce sealed ≡ ok (some plaintext))
      × (length sealed ≡ length plaintext + mic_length)

  reference-Undone :
      (key nonce plaintext sealed : Bytes)
      → (reference_ccm aes).encrypt key nonce plaintext ≡ ok sealed
      → Undone key nonce plaintext sealed
  unfolding Undone
  reference-Undone key nonce plaintext sealed e =
      let (made, run, joined) = bind_ok (encrypt aes key nonce plaintext) _ e in
      let how = encrypt-Encrypted aes key nonce plaintext run in
      let tag = encrypt-tag aes key nonce block plaintext how in
      let body = (length-xor plaintext how.stream how.mixed).0 in
      let width = length-append made.0 made.1 in
      let cut : length (made.0 ++ made.1) - 4 ≡ length made.0 = omega arith in
      subst (Undone key nonce plaintext) (ok_same refl joined) (
        rw (take-append_eq _ made.0 made.1 cut, drop-append_eq _ made.0 made.1 cut)
            ((decrypt_iff aes key nonce block plaintext made.0 made.1).1 run),
        omega arith,
      )

  -- With a block cipher whose answers are whole blocks, the reference implements the AES-CCM that
  -- protocol.py relies on: what it encrypted it decrypts under the same key and nonce, and it adds a
  -- tag of four bytes.
  pub reference-IsCcm : IsCcm (reference_ccm aes)
  unfolding Undone
  reference-IsCcm = record {
    decrypts = λ key n plain sealed e. (reference-Undone key n plain sealed e).0;
    tag_added = λ key n plain sealed e. (reference-Undone key n plain sealed e).1;
  }
