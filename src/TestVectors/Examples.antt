-- ===== src/TestVectors/Examples.antt =====
-- The vectors over the reference and the toy cipher that leaves a block as it is.
use bthome_writable.Common.{◌≡◌, ◌↔◌, List, [], ◌∷◌, ok, length, All}
use bthome_writable.CcmReference.Examples.{same_block, same_block-IsBlockCipher, same_block-IsKey}
use bthome_writable.CcmReference.Refines.{reference_ccm, reference-IsCcm}
use bthome_writable.TestVectors.{Vector, mac, seal, bindkey, wrong_bindkey}
use bthome_writable.TestVectors.Agreed.{IsAgreed, seal_iff}
use bthome_writable.Common.{Result}
use bthome_writable.Protocol.Walk.{Bytes}
use bthome_writable.TestVectors.Build.{build_vectors}
use bthome_writable.TestVectors.Verified.{IsFair}
use bthome_writable.TestVectors.Emitted.{build_vectors-IsFair}
use bthome_writable.TestVectors.Returned.Calls.{build_vectors-total}

vectors_made :
    (vectors : List Vector) × (build_vectors (reference_ccm same_block) same_block ≡ ok vectors)
    × (length vectors ≡ 22)
vectors_made =
    build_vectors-total same_block (same_block-IsKey bindkey) (same_block-IsKey wrong_bindkey)

build_vectors-IsFair_example : All (IsFair (reference_ccm same_block)) vectors_made.0
build_vectors-IsFair_example =
    build_vectors-IsFair (reference_ccm same_block)
      (reference-IsCcm same_block same_block-IsBlockCipher) same_block vectors_made.0 vectors_made.1

-- The nonce of the first advertisement of one byte, and what the toy cipher seals it to.
abbrev first_nonce : Bytes
first_nonce =
    0xA4 ∷ 0xC1 ∷ 0x38 ∷ 0x8E ∷ 0x1F ∷ 0x2B ∷ 0xD2 ∷ 0xFC ∷ 0x41 ∷ 0x01 ∷ 0x00 ∷ 0x00 ∷ 0x00 ∷ []

abbrev sealed_once : Result (Bytes × Bytes × Bytes)
sealed_once = seal (reference_ccm same_block) same_block bindkey mac 0x41 1 (1 ∷ [])

seal_iff_example :
    (sealed_once ≡ ok (first_nonce, 0 ∷ [], 9 ∷ 0 ∷ 0 ∷ 0 ∷ []))
    ↔ IsAgreed
        (reference_ccm same_block)
        same_block
        bindkey
        mac
        0x41
        1
        (1 ∷ [])
        first_nonce
        (0 ∷ [])
        (9 ∷ 0 ∷ 0 ∷ 0 ∷ [])
seal_iff_example =
    seal_iff (reference_ccm same_block) same_block bindkey mac 0x41 1 (1 ∷ []) first_nonce (0 ∷ [])
      (9 ∷ 0 ∷ 0 ∷ 0 ∷ [])
