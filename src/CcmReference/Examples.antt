-- ===== src/CcmReference/Examples.antt =====
-- The reference over a toy cipher that leaves a block as it is, and over the empty key.
use bthome_writable.Common.{
  ◌≡◌, refl, some, [], ◌∷◌, if◌then◌else◌, length, ◌==◌, Result, ok, err, value_error, arith,
}
use bthome_writable.Protocol.Walk.{Bytes}
use bthome_writable.Protocol.Integers.{to_bytes, to_le}
use bthome_writable.Protocol.Sealing.{IsCcm}
use bthome_writable.CcmReference.{
  encrypt, decrypt, xor, zeros, pad, to_big, counter_block, cbc_mac, mac_blocks, ctr_keystream,
  stream_from,
}
use bthome_writable.CcmReference.Stream.{IsBlockCipher, IsKey}
use bthome_writable.CcmReference.Inverse.{decrypt_iff, encrypt-total}
use bthome_writable.CcmReference.Refines.{reference_ccm, reference-IsCcm}

abbrev pub same_block : Bytes → Bytes → Result Bytes
same_block key block = if length block == 16 then ok block else err value_error

pub same_block-IsBlockCipher : IsBlockCipher same_block
same_block-IsBlockCipher key block out e = ground arith

pub same_block-IsKey : (key : Bytes) → IsKey same_block key
same_block-IsKey key block n = (block, ground arith, n)

abbrev some_nonce : Bytes
some_nonce = 1 ∷ 2 ∷ 3 ∷ 4 ∷ 5 ∷ 6 ∷ 7 ∷ 8 ∷ 9 ∷ 10 ∷ 11 ∷ 12 ∷ 13 ∷ []

abbrev message : Bytes
message = 0x1E ∷ 0x00 ∷ []

abbrev sealed_message : Bytes × Bytes
sealed_message = (31 ∷ 1 ∷ [], 22 ∷ 0 ∷ 0 ∷ 0 ∷ [])

encrypt-message : encrypt same_block [] some_nonce message ≡ ok sealed_message
unfolding encrypt cbc_mac mac_blocks ctr_keystream stream_from xor zeros pad to_big counter_block
    to_bytes to_le
encrypt-message = refl

decrypt_iff_example :
    decrypt same_block [] some_nonce (31 ∷ 1 ∷ []) (22 ∷ 0 ∷ 0 ∷ 0 ∷ []) ≡ ok (some message)
decrypt_iff_example =
    (decrypt_iff same_block [] some_nonce same_block-IsBlockCipher message (31 ∷ 1 ∷ [])
        (22 ∷ 0 ∷ 0 ∷ 0 ∷ [])).1
      encrypt-message

encrypt-total_example :
    (sealed : Bytes × Bytes) × (encrypt same_block [] some_nonce message ≡ ok sealed)
    × (length sealed.0 ≡ 2)
    × (length sealed.1 ≡ 4)
encrypt-total_example =
    encrypt-total same_block [] some_nonce refl (same_block-IsKey []) message (omega arith)

reference-IsCcm_example : IsCcm (reference_ccm same_block)
reference-IsCcm_example = reference-IsCcm same_block same_block-IsBlockCipher
