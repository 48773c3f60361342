-- ===== src/TestVectors/Opened.antt =====
-- A vector that is not altered opens, for the verifier, to the plaintext that it names.
use bthome_writable.Common.{
  ℕ, ◌<◌, ◌≡◌, refl, subst, inl, false, Option, none, some, [], ◌++◌, length, Result, ok, bind_ok,
  ok_same,
}
use bthome_writable.Common.Int.{pos}
use bthome_writable.Protocol.Walk.{Bytes}
use bthome_writable.Protocol.Integers.{to_bytes}
use bthome_writable.Protocol.Text.{Text}
use bthome_writable.Protocol.Sealing.{Ccm, IsCcm, open_sealed, open_read, decrypt_advertising}
use bthome_writable.Protocol.Sealing.Open.{open_sealed-seal, open_read-seal}
use bthome_writable.Protocol.Sealing.Header.{decrypt_advertising-seal}
use bthome_writable.TestVectors.{
  Direction, advertising, write, read, device_info_of, device_info_advertising, device_info_write,
  device_info_read, Vector, payload_of, advertising_payload, sealed_payload, seal,
}
use bthome_writable.TestVectors.Sealed.{Reads, seal-seal}

module _ (ccm : Ccm) where
  -- How a payload is opened: an advertisement and a read by the receiver, a write by the device.
  abbrev pub opens_as : Direction → Bytes → Bytes → Text → Result (Option Bytes)
  opens_as advertising payload key address = decrypt_advertising ccm payload key address
  opens_as write payload key address = open_sealed ccm payload key address device_info_write
  opens_as read payload key address = open_read ccm payload key address

  abbrev pub Opens : Vector → Type 0
  Opens v = opens_as v.direction v.payload v.bindkey v.address ≡ ok v.plaintext

  module _ (laws : IsCcm ccm) (aes : Bytes → Bytes → Result Bytes) (key : Bytes) (address : Text)
      (counter : ℕ) (plaintext : Bytes) (sealed : Bytes × Bytes × Bytes) (reads : Reads address)
      (filled : 0 < length plaintext) where
    pub framed :
        (direction : Direction) (payload : Bytes)
        → seal ccm aes key address (device_info_of direction) counter plaintext ≡ ok sealed
        → payload_of none direction sealed.1 counter sealed.2 ≡ ok payload
        → opens_as direction payload key address ≡ ok (some plaintext)
    unfolding payload_of sealed_payload advertising_payload
    framed advertising payload e p =
        let count = bind_ok (to_bytes (pos counter) 4 false) _ p in
        let body : Bytes = sealed.1 ++ (count.0 ++ sealed.2) in
        let made : sealed_payload sealed.1 counter sealed.2 ≡ ok body = rw count.1 in
        let same =
          seal-seal ccm aes key address device_info_advertising counter plaintext body reads e
            made in
        let opened =
          decrypt_advertising-seal ccm laws device_info_advertising [] plaintext key body address
            address counter refl (inl (refl, refl, refl)) filled same in
        subst (λ p. decrypt_advertising ccm p key address ≡ ok (some plaintext))
          (ok_same refl count.2) opened.0
    framed write payload e p =
        let same =
          seal-seal ccm aes key address device_info_write counter plaintext payload reads e p in
        (open_sealed-seal ccm plaintext key address device_info_write counter payload laws filled
          same).0
    framed read payload e p =
        let same =
          seal-seal ccm aes key address device_info_read counter plaintext payload reads e p in
        (open_read-seal ccm laws plaintext key address counter payload filled same).0
