-- ===== src/TestVectors/Sealed.antt =====
-- What `seal` and the framing of a vector make is what protocol.py seals.
use bthome_writable.Common.{
  ℕ, ◌≡◌, refl, sym, subst, Result, ok, assertion_error, bind_ok, required_ok, ok_same,
}
use bthome_writable.Protocol.Walk.{Bytes}
use bthome_writable.Protocol.Text.{Text}
use bthome_writable.Protocol.Text as PT
use bthome_writable.Protocol.Sealing as PS
use bthome_writable.Protocol.Sealing.{Ccm, bytes_eq}
use bthome_writable.CcmReference.{encrypt}
use bthome_writable.TestVectors.{mac_bytes, nonce, sealed_payload, seal}

-- An address that both read alike, as any without a dash.
abbrev pub Reads : Text → Type 0
Reads address = PT.mac_bytes address ≡ mac_bytes address

nonce-nonce :
    (address : Text) (device_info counter : ℕ) {n : Bytes}
    → Reads address
    → nonce address device_info counter ≡ ok n
    → PS.nonce address device_info counter ≡ ok n
unfolding nonce PS.nonce
nonce-nonce address device_info counter reads e = rw reads e

module _ (ccm : Ccm) (aes : Bytes → Bytes → Result Bytes) where
  -- The bytes that `seal` and `sealed_payload` make of a plaintext are those that protocol.py seals
  -- it to, under the same key, direction and counter, for an address that both read alike.
  pub seal-seal :
      (key : Bytes) (address : Text) (device_info counter : ℕ) (plaintext payload : Bytes)
      {sealed : Bytes × Bytes × Bytes}
      → Reads address
      → seal ccm aes key address device_info counter plaintext ≡ ok sealed
      → sealed_payload sealed.1 counter sealed.2 ≡ ok payload
      → PS.seal ccm plaintext key address device_info counter ≡ ok payload
  unfolding seal PS.seal sealed_payload
  seal-seal key address device_info counter plaintext payload reads e framed =
      let a = bind_ok (nonce address device_info counter) _ e in
      let b = bind_ok (ccm.encrypt key a.0 plaintext) _ a.2 in
      let c = bind_ok (encrypt aes key a.0 plaintext) _ b.2 in
      let same = ok_same refl (required_ok _ assertion_error _ c.2).1 in
      rw (nonce-nonce address device_info counter reads a.1, b.1)
        (subst (λ s. sealed_payload s.1 counter s.2 ≡ ok payload) (sym same) framed)
