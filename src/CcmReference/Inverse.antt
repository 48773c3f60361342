-- ===== src/CcmReference/Inverse.antt =====
-- `decrypt` accepts just what `encrypt` makes, and both end with a result.

use bthome_writable.Common.{
  ◌<◌, ◌≡◌, ◌↔◌, refl, ap, ◌∙◌, subst, true, not, ◌||◌, Option, none, some, length, take, ◌==◌,
  if◌then◌else◌, Result, ok, value_error, require, length-take, bind_ok, require_ok, ok_same, eq→==,
  arith,
}
use bthome_writable.Protocol.Walk.{Bytes}
use bthome_writable.CcmReference.{
  nonce_length, tag_length, xor, difference, counter_block, cbc_mac, ctr_keystream, encrypt,
  decrypt,
}
use bthome_writable.CcmReference.Xor.{xor-total, length-xor, xor-back, difference_iff}
use bthome_writable.CcmReference.Stream.{
  IsBlockCipher, IsKey, counter_block-total, length-ctr_keystream, ctr_keystream-total,
  cbc_mac-total,
}

-- What an encryption that succeeded did.
pub record Encrypted (aes : Bytes → Bytes → Result Bytes) (key nonce plaintext : Bytes)
    (sealed : Bytes × Bytes) : Type 0 where
  pub nonce_fits : (length nonce == nonce_length) ≡ true
  pub stream : Bytes
  pub streamed : ctr_keystream aes key nonce (length plaintext) ≡ ok stream
  pub mixed : xor plaintext stream ≡ ok sealed.0
  pub first : Bytes
  pub s0 : Bytes
  pub first_encrypted : aes key first ≡ ok s0
  pub tag : Bytes
  pub masked : xor tag (take tag_length s0) ≡ ok sealed.1

module _ (aes : Bytes → Bytes → Result Bytes) (key nonce : Bytes) where
  pub encrypt-Encrypted :
      (plaintext : Bytes) {sealed : Bytes × Bytes}
      → encrypt aes key nonce plaintext ≡ ok sealed
      → Encrypted aes key nonce plaintext sealed
  unfolding encrypt
  encrypt-Encrypted plaintext e =
      let a = bind_ok (require (length nonce == nonce_length) value_error) _ e in
      let b = bind_ok (cbc_mac aes key nonce plaintext) _ a.2 in
      let c = bind_ok (counter_block nonce 0) _ b.2 in
      let d = bind_ok (aes key c.0) _ c.2 in
      let f = bind_ok (xor b.0 (take tag_length d.0)) _ d.2 in
      let g = bind_ok (ctr_keystream aes key nonce (length plaintext)) _ f.2 in
      let h = bind_ok (xor plaintext g.0) _ g.2 in
      subst (Encrypted aes key nonce plaintext) (ok_same refl h.2) (record {
        nonce_fits = require_ok _ _ a.1;
        stream = g.0;
        streamed = g.1;
        mixed = h.1;
        first = c.0;
        s0 = d.0;
        first_encrypted = d.1;
        tag = b.0;
        masked = f.1;
      })

  -- The length of the tag.
  pub encrypt-tag :
      IsBlockCipher aes
      → (plaintext : Bytes) {sealed : Bytes × Bytes} → Encrypted aes key nonce plaintext sealed
      → length sealed.1 ≡ tag_length
  encrypt-tag block plaintext e =
      let whole = block key e.first e.s0 e.first_encrypted in
      let cut = (length-xor e.tag (take tag_length e.s0) e.masked).1 in
      omega (arith, whole, cut, length-take 4 e.s0)

  -- The answer of `decrypt`, and the bytes it gives when the tags are the same.
  verdict : Bytes → Bytes → Bytes → Result (Option Bytes)
  verdict expected mic plaintext =
      if not (difference 0 expected mic == 0) || not (length mic == tag_length)
      then ok none
      else ok (some plaintext)

  verdict-some :
      (expected mic plaintext p : Bytes)
      → length expected ≡ tag_length
      → verdict expected mic plaintext ≡ ok (some p)
      → (plaintext ≡ p) × (expected ≡ mic)
  unfolding verdict
  verdict-some expected mic plaintext p n e =
      let same : difference 0 expected mic ≡ 0 = ground arith in
      let size : length mic ≡ 4 = ground arith in
      (ground arith, ((difference_iff 0 expected mic (omega arith)).0 same).1)

  verdict-same :
      (mic plaintext : Bytes)
      → length mic ≡ tag_length
      → verdict mic mic plaintext ≡ ok (some plaintext)
  unfolding verdict
  verdict-same mic plaintext n =
      let same = (difference_iff 0 mic mic refl).1 (refl, refl) in ground arith

  decrypt-encrypt :
      IsBlockCipher aes
      → (plaintext ciphertext mic : Bytes) → encrypt aes key nonce plaintext ≡ ok (ciphertext, mic)
      → decrypt aes key nonce ciphertext mic ≡ ok (some plaintext)
  unfolding decrypt verdict difference
  decrypt-encrypt block plaintext ciphertext mic e =
      let made = encrypt-Encrypted plaintext e in
      let size = length-xor plaintext made.stream made.mixed in
      let back = xor-back plaintext made.stream made.mixed in
      let streamed : ctr_keystream aes key nonce (length ciphertext) ≡ ok made.stream =
        rw size.0 made.streamed in
      rw (made.nonce_fits, streamed, back, e)
        (verdict-same mic plaintext (encrypt-tag block plaintext made))

  encrypt-decrypt :
      IsBlockCipher aes
      → (plaintext ciphertext mic : Bytes)
      → decrypt aes key nonce ciphertext mic ≡ ok (some plaintext)
      → encrypt aes key nonce plaintext ≡ ok (ciphertext, mic)
  unfolding decrypt verdict difference
  encrypt-decrypt block plaintext ciphertext mic e =
      let a = bind_ok (require (length nonce == nonce_length) value_error) _ e in
      let b = bind_ok (ctr_keystream aes key nonce (length ciphertext)) _ a.2 in
      let c = bind_ok (xor ciphertext b.0) _ b.2 in
      let d = bind_ok (encrypt aes key nonce c.0) _ c.2 in
      let made = encrypt-Encrypted c.0 d.1 in
      let same = verdict-some d.0.1 mic c.0 plaintext (encrypt-tag block c.0 made) d.2 in
      let size = (length-xor ciphertext b.0 c.1).0 in
      let stream : b.0 ≡ made.stream = ok_same b.1 (rw size at made.streamed) in
      let body : ciphertext ≡ d.0.0 =
        ok_same (xor-back ciphertext b.0 c.1) (rw stream made.mixed) in
      subst (λ p. encrypt aes key nonce p ≡ ok (ciphertext, mic)) same.0
        (d.1 ∙ ap ok (cc (same.1, body)))

  -- With a block cipher whose answers are whole blocks, `decrypt` gives a plaintext for a ciphertext
  -- and a tag just when `encrypt` makes them from that plaintext, under the same key and nonce.
  pub decrypt_iff :
      IsBlockCipher aes
      → (plaintext ciphertext mic : Bytes)
      → (decrypt aes key nonce ciphertext mic ≡ ok (some plaintext))
        ↔ (encrypt aes key nonce plaintext ≡ ok (ciphertext, mic))
  decrypt_iff block plaintext ciphertext mic = (
    encrypt-decrypt block plaintext ciphertext mic,
    decrypt-encrypt block plaintext ciphertext mic,
  )

  -- With a key that the block cipher takes and a nonce of 13 bytes, `encrypt` gives a ciphertext and
  -- a tag for every plaintext below 65,536 bytes: its two loops end within their fuel, no counter
  -- overflows its two bytes and no strict `zip` raises. The ciphertext is as long as the plaintext
  -- and the tag has 4 bytes.
  pub encrypt-total :
      length nonce ≡ nonce_length
      → IsKey aes key
      → (plaintext : Bytes) → length plaintext < 65536
      → (sealed : Bytes × Bytes) × (encrypt aes key nonce plaintext ≡ ok sealed)
        × (length sealed.0 ≡ length plaintext)
        × (length sealed.1 ≡ tag_length)
  unfolding encrypt
  encrypt-total n takes plaintext h =
      let fits = eq→== _ _ n in
      let tag = cbc_mac-total aes key nonce n takes plaintext h in
      let first = counter_block-total nonce 0 n (omega arith) in
      let s0 = takes first.0 first.2 in
      let start = length-take 4 s0.0 in
      let mic = xor-total tag.0 (take 4 s0.0) (omega (arith, tag.2, s0.2)) in
      let stream = ctr_keystream-total aes key nonce n takes (length plaintext) h in
      let long = length-ctr_keystream aes key nonce (length plaintext) stream.1 in
      let body = xor-total plaintext stream.0 (omega arith) in
      (
        (body.0, mic.0),
        rw (fits, tag.1, first.1, s0.1, mic.1, stream.1, body.1),
        (length-xor plaintext stream.0 body.1).0,
        omega (arith, (length-xor tag.0 (take 4 s0.0) mic.1).0, tag.2),
      )
