-- ===== src/CcmReference.antt =====
-- The AES-CCM of tools/ccm_reference.py, assembled from one call that encrypts a single block.
-- That call, of the package cryptography, is a parameter.
pub mod Xor
pub mod Stream
pub mod Inverse
pub mod Refines
pub mod Examples
use Prim.Native.Nat.{bit_xor, bit_or}
use bthome_writable.Common.{
  ℕ, zero, suc, ◌+◌, ◌-◌, ◌*◌, ◌/◌, ◌%◌, ◌≡◌, Bool, true, false, not, ◌||◌, Option, none, some,
  List, [], ◌∷◌, ◌++◌, reverse, if◌then◌else◌, ltb, ◌==◌, length, take, slice, Result, ok, err,
  value_error, out_of_fuel, require, ◌>>=◌, ◌>>◌,
}
use bthome_writable.Common.Int.{pos}
use bthome_writable.Protocol.Walk.{Bytes}
use bthome_writable.Protocol.Integers.{to_bytes}

abbrev pub nonce_length : ℕ
nonce_length = 13

abbrev pub tag_length : ℕ
tag_length = 4

abbrev pub length_field : ℕ
length_field = 15 - nonce_length

abbrev pub block_length : ℕ
block_length = 16

-- `zip(a, b, strict=True)` raises where the lengths differ.
unfoldable pub xor : Bytes → Bytes → Result Bytes
xor [] [] = ok []
xor [] (b ∷ bs) = err value_error
xor (a ∷ as') [] = err value_error
xor (a ∷ as') (b ∷ bs) = do rest ← xor as' bs; ok (bit_xor a b ∷ rest)

-- `bytes(count)`
pub zeros : ℕ → Bytes
zeros zero = []
zeros (suc count) = 0 ∷ zeros count

unfoldable pub pad : Bytes → Bytes
pad data' =
    let remainder = length data' % block_length in
    if remainder == 0 then data' else data' ++ zeros (block_length - remainder)

-- `n.to_bytes(count, "big")`
unfoldable pub to_big : ℕ → ℕ → Result Bytes
to_big n count = do digits ← to_bytes (pos n) count false; ok (reverse digits)

unfoldable pub counter_block : Bytes → ℕ → Result Bytes
counter_block nonce index = do i ← to_big index length_field; ok (((length_field - 1) ∷ nonce) ++ i)

-- The bits in which two strings differ, as far as both go.
unfoldable pub difference : ℕ → Bytes → Bytes → ℕ
difference seen [] bs = seen
difference seen (a ∷ as') [] = seen
difference seen (a ∷ as') (b ∷ bs) = difference (bit_or seen (bit_xor a b)) as' bs

-- The parameter: the encryption of one block under a key.
module _ (aes : Bytes → Bytes → Result Bytes) where
  -- The blocks of `data'` from `offset` on, `count` of them.
  unfoldable pub mac_blocks : Bytes → Bytes → ℕ → ℕ → Bytes → Result Bytes
  mac_blocks key data' zero offset state = ok state
  mac_blocks key data' (suc count) offset state = do
    block ← xor state (slice data' offset (offset + block_length))
    next ← aes key block
    mac_blocks key data' count (offset + block_length) next

  unfoldable pub cbc_mac : Bytes → Bytes → Bytes → Result Bytes
  cbc_mac key nonce message = do
    size ← to_big (length message) length_field
    let flags = 8 * ((tag_length - 2) / 2) + (length_field - 1)
    let data' = ((flags ∷ nonce) ++ size) ++ pad message
    let count = (length data' + (block_length - 1)) / block_length
    state ← mac_blocks key data' count 0 (zeros block_length)
    ok (take tag_length state)

  unfoldable pub stream_from : Bytes → Bytes → ℕ → ℕ → Bytes → ℕ → Result Bytes
  stream_from key nonce size zero stream index = err out_of_fuel
  stream_from key nonce size (suc fuel) stream index = elim (ltb (length stream) size) [
    | false ↦ ok stream
    | true ↦ do
      block ← counter_block nonce index
      more ← aes key block
      stream_from key nonce size fuel (stream ++ more) (index + 1)
  ]

  unfoldable pub ctr_keystream : Bytes → Bytes → ℕ → Result Bytes
  ctr_keystream key nonce size = do
    stream ← stream_from key nonce size (size + 1) [] 1
    ok (take size stream)

  unfoldable pub encrypt : Bytes → Bytes → Bytes → Result (Bytes × Bytes)
  encrypt key nonce plaintext = do
    require (length nonce == nonce_length) value_error
    tag ← cbc_mac key nonce plaintext
    first ← counter_block nonce 0
    s0 ← aes key first
    mic ← xor tag (take tag_length s0)
    stream ← ctr_keystream key nonce (length plaintext)
    ciphertext ← xor plaintext stream
    ok (ciphertext, mic)

  unfoldable pub decrypt : Bytes → Bytes → Bytes → Bytes → Result (Option Bytes)
  decrypt key nonce ciphertext mic = do
    require (length nonce == nonce_length) value_error
    stream ← ctr_keystream key nonce (length ciphertext)
    plaintext ← xor ciphertext stream
    sealed ← encrypt key nonce plaintext
    if not (difference 0 sealed.1 mic == 0) || not (length mic == tag_length)
        then ok none
        else ok (some plaintext)
