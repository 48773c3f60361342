-- ===== src/Protocol/Sealing.antt =====
-- Encryption (§5): `nonce` to `open_counter_report` of
-- custom_components/bthome_writable/protocol.py. AES-CCM, of the package cryptography, is a
-- parameter.
pub mod Open
pub mod Nonce
pub mod Header
pub mod Examples
use bthome_writable.Common.{
  ℕ, ◌+◌, ◌-◌, ◌≡◌, Bool, true, false, not, ◌&&◌, ◌||◌, Option, none, some, List, [], ◌∷◌, ◌++◌,
  reverse, bit_and, if◌then◌else◌, ltb, leb, ◌==◌, length, take, drop, slice, Result, ok, err,
  protocol_error, index_error, value_error, index, require, ◌>>=◌, ◌>>◌,
}
use bthome_writable.Common.Int.{pos}
use bthome_writable.Protocol.Const.{
  device_info_encrypted, device_info_mac_included, device_info_trigger_based,
  device_info_byte_write, device_info_byte_read,
}
use bthome_writable.Protocol.Walk.{Bytes}
use bthome_writable.Protocol.Integers.{to_bytes, from_le}
use bthome_writable.Protocol.Text.{Text, mac_bytes, join_bytes}

abbrev pub mic_length : ℕ
mic_length = 4

abbrev pub counter_length : ℕ
counter_length = 4

abbrev pub seal_overhead : ℕ
seal_overhead = 8

-- `AESCCM(key, tag_length=4)`: `encrypt` appends the tag, `decrypt` answers `none` for `InvalidTag`.
-- Both take the key, the nonce and the bytes, and raise on a key or a nonce of the wrong length.
pub record Ccm : Type 0 where
  pub encrypt : Bytes → Bytes → Bytes → Result Bytes
  pub decrypt : Bytes → Bytes → Bytes → Result (Option Bytes)

-- What AES-CCM promises: what was encrypted decrypts under the same key and nonce, and the tag adds
-- its four bytes.
pub record IsCcm (c : Ccm) : Type 0 where
  pub decrypts :
      (key n plain sealed : Bytes)
      → c.encrypt key n plain ≡ ok sealed
      → c.decrypt key n sealed ≡ ok (some plain)
  pub tag_added :
      (key n plain sealed : Bytes)
      → c.encrypt key n plain ≡ ok sealed
      → length sealed ≡ length plain + mic_length

unfoldable pub nonce : Text → ℕ → ℕ → Result Bytes
nonce address device_info counter = do
  mac ← mac_bytes address
  require (ltb device_info 256) value_error
  count ← to_bytes (pos counter) counter_length false
  ok (mac ++ (0xD2 ∷ 0xFC ∷ device_info ∷ count))

-- One flag of the device-information byte, the first of the payload.
unfoldable pub flag : ℕ → Bytes → Bool
flag mask [] = false
flag mask (b ∷ rest) = not (bit_and b mask == 0)

unfoldable pub is_encrypted : Bytes → Bool
unfolding flag
is_encrypted = flag device_info_encrypted

pub mac_included : Bytes → Bool
unfolding flag
mac_included = flag device_info_mac_included

pub trigger_based : Bytes → Bool
unfolding flag
trigger_based = flag device_info_trigger_based

pub objects_at : Bytes → ℕ
objects_at payload = if mac_included payload then 7 else 1

pub nonce_address : Bytes → Text → Text
nonce_address payload address =
    if not (mac_included payload) || ltb (length payload) 7
    then address
    else join_bytes (reverse (slice payload 1 7))

-- The ciphertext, the counter and the tag.
pub split_sealed : Bytes → Result (Bytes × ℕ × Bytes)
split_sealed payload =
    if leb (length payload) seal_overhead
    then err protocol_error
    else let size = length payload in
      ok (
        take (size - seal_overhead) payload,
        from_le (slice payload (size - seal_overhead) (size - mic_length)),
        drop (size - mic_length) payload,
      )

pub advertising_counter : Bytes → Option ℕ
advertising_counter payload =
    if not (is_encrypted payload)
    then none
    else elim (split_sealed (drop (objects_at payload) payload)) [
      | err e ↦ none
      | ok (ciphertext, counter, mic) ↦ some counter
    ]

-- Equality of two byte strings.
unfoldable pub bytes_eq : Bytes → Bytes → Bool
bytes_eq [] [] = true
bytes_eq [] (b ∷ bs) = false
bytes_eq (a ∷ as') [] = false
bytes_eq (a ∷ as') (b ∷ bs) = a == b && bytes_eq as' bs

-- The answer in an opened report, if it is to this challenge.
pub answer_to : Bytes → Option Bytes → Option ℕ
answer_to challenge none = none
answer_to challenge (some plaintext) =
    if not (length plaintext == length challenge + counter_length)
    then none
    else if not (bytes_eq (take (length challenge) plaintext) challenge)
    then none
    else some (from_le (drop (length challenge) plaintext))

module _ (ccm : Ccm) where
  unfoldable pub open_sealed : Bytes → Bytes → Text → ℕ → Result (Option Bytes)
  open_sealed payload bindkey address device_info = elim (split_sealed payload) [
    | err e ↦ ok none
    | ok (ciphertext, counter, mic) ↦ do
      n ← nonce address device_info counter
      ccm.decrypt bindkey n (ciphertext ++ mic)
  ]

  pub decrypt_advertising : Bytes → Bytes → Text → Result (Option Bytes)
  decrypt_advertising payload bindkey address = do
    require (is_encrypted payload) protocol_error
    device_info ← index payload 0
    open_sealed (drop (objects_at payload) payload) bindkey (nonce_address payload address)
        device_info

  unfoldable pub seal : Bytes → Bytes → Text → ℕ → ℕ → Result Bytes
  seal plaintext bindkey address device_info counter = do
    n ← nonce address device_info counter
    sealed ← ccm.encrypt bindkey n plaintext
    let body = take (length sealed - mic_length) sealed
    let mic = drop (length sealed - mic_length) sealed
    count ← to_bytes (pos counter) counter_length false
    ok (body ++ (count ++ mic))

  pub seal_write : Bytes → Bytes → Text → ℕ → Result Bytes
  seal_write plaintext bindkey address counter =
      seal plaintext bindkey address device_info_byte_write counter

  pub open_read : Bytes → Bytes → Text → Result (Option Bytes)
  open_read payload bindkey address = open_sealed payload bindkey address device_info_byte_read

  pub open_counter_report : Bytes → Bytes → Text → Bytes → Result (Option ℕ)
  open_counter_report payload bindkey address challenge = do
    plaintext ← open_read payload bindkey address
    ok (answer_to challenge plaintext)
