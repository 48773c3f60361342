-- ===== src/TestVectors.antt =====
-- The test vectors of tools/gen_test_vectors.py: `seal`, which checks the library's AES-CCM against
-- the reference, and `vector`, which frames what it made. `AESCCM` and the encryption of one block
-- are parameters; a hexadecimal string is the bytes that it writes.
pub mod Build
pub mod Sealed
pub mod Agreed
pub mod Opened
pub mod Verified
pub mod Emitted
pub mod Returned
pub mod Examples
use Prim.Native.Nat.{bit_xor}
use bthome_writable.Common.{
  ℕ, ◌+◌, ◌-◌, ◌≡◌, Bool, true, false, not, ◌&&◌, ◌||◌, Option, none, some, List, [], ◌∷◌, ◌++◌,
  if◌then◌else◌, ltb, ◌==◌, length, take, drop, Result, ok, err, value_error, assertion_error,
  require, ◌>>=◌, ◌>>◌, String,
}
use bthome_writable.Common.Int.{pos}
use bthome_writable.Protocol.Walk.{Bytes}
use bthome_writable.Protocol.Integers.{to_bytes}
use bthome_writable.Protocol.Text.{Text, from_hex, remove}
use bthome_writable.Protocol.Sealing.{Ccm, bytes_eq}
use bthome_writable.CcmReference.{encrypt}

abbrev pub uuid16 : Bytes
uuid16 = 0xD2 ∷ 0xFC ∷ []

abbrev pub device_info_advertising : ℕ
device_info_advertising = 0x41

abbrev pub device_info_write : ℕ
device_info_write = 0xFF

abbrev pub device_info_read : ℕ
device_info_read = 0xFE

abbrev pub mic_length : ℕ
mic_length = 4

-- The keys of `DEVICE_INFO`.
pub data Direction : Type 0 where
  advertising write read : Direction

abbrev pub device_info_of : Direction → ℕ
device_info_of advertising = device_info_advertising
device_info_of write = device_info_write
device_info_of read = device_info_read

abbrev pub bindkey : Bytes
bindkey =
    0x23 ∷ 0x1D ∷ 0x39 ∷ 0xC1 ∷ 0xD7 ∷ 0xCC ∷ 0x1A ∷ 0xB1 ∷ 0xAE ∷ 0xE2 ∷ 0x24 ∷ 0xCD ∷ 0x09 ∷ 0x6D
    ∷ 0xB9 ∷ 0x32 ∷ []

abbrev pub wrong_bindkey : Bytes
wrong_bindkey =
    0x00 ∷ 0x11 ∷ 0x22 ∷ 0x33 ∷ 0x44 ∷ 0x55 ∷ 0x66 ∷ 0x77 ∷ 0x88 ∷ 0x99 ∷ 0xAA ∷ 0xBB ∷ 0xCC ∷ 0xDD
    ∷ 0xEE ∷ 0xFF ∷ []

abbrev pub mac : Text
mac =
    b'A' ∷ b'4' ∷ b':' ∷ b'C' ∷ b'1' ∷ b':' ∷ b'3' ∷ b'8' ∷ b':' ∷ b'8' ∷ b'E' ∷ b':' ∷ b'1' ∷ b'F'
    ∷ b':' ∷ b'2' ∷ b'B' ∷ []

abbrev pub uint32_max : ℕ
uint32_max = 0xFFFFFFFF

unfoldable pub mac_bytes : Text → Result Bytes
mac_bytes address = from_hex (remove b':' address)

unfoldable pub nonce : Text → ℕ → ℕ → Result Bytes
nonce address device_info counter = do
  natural ← mac_bytes address
  require (ltb device_info 256) value_error
  count ← to_bytes (pos counter) 4 false
  ok (natural ++ (uuid16 ++ (device_info ∷ count)))

unfoldable pub advertising_payload : ℕ → Bytes → ℕ → Bytes → Result Bytes
advertising_payload device_info ciphertext counter mic = do
  require (ltb device_info 256) value_error
  count ← to_bytes (pos counter) 4 false
  ok (device_info ∷ ciphertext ++ (count ++ mic))

unfoldable pub sealed_payload : Bytes → ℕ → Bytes → Result Bytes
sealed_payload ciphertext counter mic = do
  count ← to_bytes (pos counter) 4 false
  ok (ciphertext ++ (count ++ mic))

pub data Expect : Type 0 where
  accept reject : Expect

abbrev pub accepts : Expect → Bool
accepts accept = true
accepts reject = false

-- The keyword arguments of `vector`.
pub record Options : Type 0 where
  pub key : Bytes
  pub address : Text
  pub expect : Expect
  pub reject_reason : Option String
  pub mic_valid : Bool
  pub last_accepted_counter : Option ℕ
  pub payload_override : Option Bytes
  pub verify_key : Option Bytes

abbrev pub defaults : Options
defaults = record {
  key = bindkey;
  address = mac;
  expect = accept;
  reject_reason = none;
  mic_valid = true;
  last_accepted_counter = none;
  payload_override = none;
  verify_key = none;
}

-- One entry of the document.
pub record Vector : Type 0 where
  pub name : String
  pub description : String
  pub direction : Direction
  pub expect : Expect
  pub bindkey : Bytes
  pub address : Text
  pub device_info_byte : ℕ
  pub counter : ℕ
  pub nonce : Bytes
  pub payload : Bytes
  pub mic_valid : Bool
  pub plaintext : Option Bytes
  pub ciphertext : Option Bytes
  pub mic : Option Bytes
  pub reject_reason : Option String
  pub last_accepted_counter : Option ℕ

-- `verify_key or key`
abbrev pub key_or : Option Bytes → Bytes → Bytes
key_or none key = key
key_or (some []) key = key
key_or (some (b ∷ bs)) key = b ∷ bs

abbrev pub only_if : Bool → Bytes → Option Bytes
only_if shown bytes = if shown then some bytes else none

-- The bytes on the wire: the override, or the framing of the direction.
unfoldable pub payload_of : Option Bytes → Direction → Bytes → ℕ → Bytes → Result Bytes
payload_of (some override) direction ciphertext counter mic = ok override
payload_of none advertising ciphertext counter mic =
    advertising_payload device_info_advertising ciphertext counter mic
payload_of none write ciphertext counter mic = sealed_payload ciphertext counter mic
payload_of none read ciphertext counter mic = sealed_payload ciphertext counter mic

module _ (ccm : Ccm) (aes : Bytes → Bytes → Result Bytes) where
  -- The nonce, the ciphertext and the tag.
  unfoldable pub seal : Bytes → Text → ℕ → ℕ → Bytes → Result (Bytes × Bytes × Bytes)
  seal key address device_info counter plaintext = do
    n ← nonce address device_info counter
    sealed ← ccm.encrypt key n plaintext
    let ciphertext = take (length sealed - mic_length) sealed
    let tag = drop (length sealed - mic_length) sealed
    reference ← encrypt aes key n plaintext
    require (bytes_eq reference.0 ciphertext && bytes_eq reference.1 tag) assertion_error
    ok (n, ciphertext, tag)

  unfoldable pub vector : String → String → Direction → ℕ → Bytes → Options → Result Vector
  vector name description direction counter plaintext options = do
    sealed ← seal options.key options.address (device_info_of direction) counter plaintext
    payload ← payload_of options.payload_override direction sealed.1 counter sealed.2
    let shown = accepts options.expect || options.mic_valid
    ok (record {
      name = name;
      description = description;
      direction = direction;
      expect = options.expect;
      bindkey = key_or options.verify_key options.key;
      address = options.address;
      device_info_byte = device_info_of direction;
      counter = counter;
      nonce = sealed.0;
      payload = payload;
      mic_valid = options.mic_valid;
      plaintext = only_if shown plaintext;
      ciphertext = only_if shown sealed.1;
      mic = only_if shown sealed.2;
      reject_reason = options.reject_reason;
      last_accepted_counter = options.last_accepted_counter;
    })
