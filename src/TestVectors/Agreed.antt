-- ===== src/TestVectors/Agreed.antt =====
-- When `seal` of tools/gen_test_vectors.py returns: the library and the reference have agreed.
use bthome_writable.Common.{
  ℕ, ◌-◌, ◌≡◌, refl, sym, ap, ◌∙◌, ◌↔◌, true, ◌&&◌, take, drop, length, Result, ok, assertion_error,
  bind_ok, required_ok, ok_same, arith,
}
use bthome_writable.Protocol.Walk.{Bytes}
use bthome_writable.Protocol.Text.{Text}
use bthome_writable.Protocol.Sealing.{Ccm, bytes_eq}
use bthome_writable.Protocol.Sealing.Open.{bytes_eq_self, bytes_eq→eq}
use bthome_writable.CcmReference.{encrypt}
use bthome_writable.TestVectors.{nonce, mic_length, seal}

module _ (ccm : Ccm) (aes : Bytes → Bytes → Result Bytes) (key : Bytes) (address : Text)
    (device_info counter : ℕ) (plaintext : Bytes) where
  -- The nonce, and the two parts of what the library seals, which are what the reference seals to.
  abbrev pub IsAgreed : Bytes → Bytes → Bytes → Type 0
  IsAgreed n ciphertext tag =
      (nonce address device_info counter ≡ ok n)
      × (encrypt aes key n plaintext ≡ ok (ciphertext, tag))
      × ((sealed : Bytes) × (ccm.encrypt key n plaintext ≡ ok sealed)
          × (take (length sealed - mic_length) sealed ≡ ciphertext)
          × (drop (length sealed - mic_length) sealed ≡ tag))

  both_eq : (a b c d : Bytes) → (bytes_eq a b && bytes_eq c d) ≡ true → (a ≡ b) × (c ≡ d)
  both_eq a b c d h = (bytes_eq→eq a b (ground arith), bytes_eq→eq c d (ground arith))

  agreed :
      (n ciphertext tag : Bytes)
      → seal ccm aes key address device_info counter plaintext ≡ ok (n, ciphertext, tag)
      → IsAgreed n ciphertext tag
  unfolding seal
  agreed n ciphertext tag e =
      let a = bind_ok (nonce address device_info counter) _ e in
      let b = bind_ok (ccm.encrypt key a.0 plaintext) _ a.2 in
      let c = bind_ok (encrypt aes key a.0 plaintext) _ b.2 in
      let d = required_ok _ assertion_error _ c.2 in
      let front = take (length b.0 - mic_length) b.0 in
      let back = drop (length b.0 - mic_length) b.0 in
      let equal = both_eq c.0.0 front c.0.1 back d.0 in
      let whole : ok (a.0, front, back) ≡ ok (n, ciphertext, tag) = d.1 in
      let parts = ok_same refl whole in
      let own = ap (λ p. p.0) parts in
      let cut = ap (λ p. p.1) parts in
      let mic = ap (λ p. p.2) parts in
      (
        a.1 ∙ ap ok own,
        ap (λ m. encrypt aes key m plaintext) (sym own)
            ∙ (c.1 ∙ ap ok (λ i. ((equal.0 ∙ cut) i, (equal.1 ∙ mic) i))),
        (b.0, ap (λ m. ccm.encrypt key m plaintext) (sym own) ∙ b.1, cut, mic),
      )

  returns :
      (n ciphertext tag : Bytes)
      → IsAgreed n ciphertext tag
      → seal ccm aes key address device_info counter plaintext ≡ ok (n, ciphertext, tag)
  unfolding seal
  returns n ciphertext tag (own, reference, (sealed, made, cut, mic)) =
      rw (own, made, reference, cut, mic, bytes_eq_self ciphertext, bytes_eq_self tag)

  -- `seal` returns a nonce, a ciphertext and a tag exactly if that is the nonce, and the library and
  -- the reference both seal the plaintext under it to that ciphertext and that tag: the library's
  -- answer is cut four bytes before its end. Where the two differ it does not return.
  pub seal_iff :
      (n ciphertext tag : Bytes)
      → (seal ccm aes key address device_info counter plaintext ≡ ok (n, ciphertext, tag))
        ↔ IsAgreed n ciphertext tag
  seal_iff n ciphertext tag = (agreed n ciphertext tag, returns n ciphertext tag)
