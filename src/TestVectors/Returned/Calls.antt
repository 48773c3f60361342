-- ===== src/TestVectors/Returned/Calls.antt =====
-- `build_vectors` of tools/gen_test_vectors.py returns: where `AESCCM` is the reference, no call of it
-- raises.
use Prim.Native.Nat.{bit_xor}
use bthome_writable.Common.{
  ◌<◌, ◌≡◌, refl, ◌∙◌, none, [], ◌∷◌, List, Result, ok, index, length, drop, All, All-append, arith,
}
use bthome_writable.Protocol.Walk.{Bytes}
use bthome_writable.CcmReference.Stream.{IsKey}
use bthome_writable.CcmReference.Refines.{reference_ccm}
use bthome_writable.TestVectors.{
  advertising, write, Vector, bindkey, wrong_bindkey, payload_of, device_info_advertising,
  device_info_write, device_info_read,
}
use bthome_writable.TestVectors.Build.{
  adv_single_light, write_light_off, read_target_20, advertising_vectors, write_vectors,
  read_vectors, replayed_advertisement, replayed_write, replayed_read, counter_vectors,
  replayed_vectors, broken_vectors, wrong_key, tampered_ciphertext, build_calls, build_vectors,
}
use bthome_writable.TestVectors.Returned.{
  Returns, bind-Returns, seal-total, payload_of-total, own, collect-Returns,
}

module _ (aes : Bytes → Bytes → Result Bytes) (takes : IsKey aes bindkey) where
  advertising_vectors-Returns : All Returns (advertising_vectors (reference_ccm aes) aes)
  unfolding advertising_vectors
  advertising_vectors-Returns = (
    own aes _ _ _ _ _ _ refl takes (omega arith) (omega arith),
    (
      own aes _ _ _ _ _ _ refl takes (omega arith) (omega arith),
      (
        own aes _ _ _ _ _ _ refl takes (omega arith) (omega arith),
        (
          own aes _ _ _ _ _ _ refl takes (omega arith) (omega arith),
          (own aes _ _ _ _ _ _ refl takes (omega arith) (omega arith), tt),
        ),
      ),
    ),
  )

  write_vectors-Returns : All Returns (write_vectors (reference_ccm aes) aes)
  unfolding write_vectors
  write_vectors-Returns = (
    own aes _ _ _ _ _ _ refl takes (omega arith) (omega arith),
    (
      own aes _ _ _ _ _ _ refl takes (omega arith) (omega arith),
      (
        own aes _ _ _ _ _ _ refl takes (omega arith) (omega arith),
        (
          own aes _ _ _ _ _ _ refl takes (omega arith) (omega arith),
          (
            own aes _ _ _ _ _ _ refl takes (omega arith) (omega arith),
            (
              own aes _ _ _ _ _ _ refl takes (omega arith) (omega arith),
              (
                own aes _ _ _ _ _ _ refl takes (omega arith) (omega arith),
                (own aes _ _ _ _ _ _ refl takes (omega arith) (omega arith), tt),
              ),
            ),
          ),
        ),
      ),
    ),
  )

  read_vectors-Returns : All Returns (read_vectors (reference_ccm aes) aes)
  unfolding read_vectors
  read_vectors-Returns = (
    own aes _ _ _ _ _ _ refl takes (omega arith) (omega arith),
    (own aes _ _ _ _ _ _ refl takes (omega arith) (omega arith), tt),
  )

  counter_vectors-Returns : All Returns (counter_vectors (reference_ccm aes) aes)
  unfolding counter_vectors
  counter_vectors-Returns = (
    own aes _ _ _ _ _ _ refl takes (omega arith) (omega arith),
    (own aes _ _ _ _ _ _ refl takes (omega arith) (omega arith), tt),
  )

  replayed_advertisement-Returns : Returns (replayed_advertisement (reference_ccm aes) aes)
  unfolding replayed_advertisement payload_of
  replayed_advertisement-Returns =
      let a =
        seal-total aes bindkey device_info_advertising 1 adv_single_light takes (omega arith)
          (omega arith) (omega arith) in
      let b = payload_of-total aes none write a.0.1 a.0.2 1 (omega arith) in
      bind-Returns _ _ a.0 a.1
        (bind-Returns _ _ b.0 b.1 (own aes _ _ _ _ _ _ refl takes (omega arith) (omega arith)))

  replayed_write-Returns : Returns (replayed_write (reference_ccm aes) aes)
  unfolding replayed_write payload_of
  replayed_write-Returns =
      let a =
        seal-total aes bindkey device_info_write 1 write_light_off takes (omega arith) (omega arith)
          (omega arith) in
      let b = payload_of-total aes none advertising a.0.1 a.0.2 1 (omega arith) in
      bind-Returns _ _ a.0 a.1
        (bind-Returns _ _ b.0 b.1 (own aes _ _ _ _ _ _ refl takes (omega arith) (omega arith)))

  replayed_read-Returns : Returns (replayed_read (reference_ccm aes) aes)
  unfolding replayed_read payload_of
  replayed_read-Returns =
      let a =
        seal-total aes bindkey device_info_read 3 read_target_20 takes (omega arith) (omega arith)
          (omega arith) in
      let b = payload_of-total aes none write a.0.1 a.0.2 3 (omega arith) in
      bind-Returns _ _ a.0 a.1
        (bind-Returns _ _ b.0 b.1 (own aes _ _ _ _ _ _ refl takes (omega arith) (omega arith)))

  first_byte : (bytes : Bytes) → 0 < length bytes → Returns (index bytes 0)
  first_byte [] h = absurd (omega arith)
  first_byte (b ∷ bytes) h = (b, refl)

  tampered_ciphertext-Returns : Returns (tampered_ciphertext (reference_ccm aes) aes)
  unfolding tampered_ciphertext payload_of
  tampered_ciphertext-Returns =
      let a =
        seal-total aes bindkey device_info_write 6 write_light_off takes (omega arith) (omega arith)
          (omega arith) in
      let f = first_byte a.0.1 (omega (arith, a.2)) in
      let b =
        payload_of-total aes none write (bit_xor f.0 1 ∷ drop 1 a.0.1) a.0.2 6 (omega arith) in
      bind-Returns _ _ a.0 a.1 (
        bind-Returns _ _ f.0 f.1
          (bind-Returns _ _ b.0 b.1 (own aes _ _ _ _ _ _ refl takes (omega arith) (omega arith))))

  counted : length (build_calls (reference_ccm aes) aes) ≡ 22
  unfolding build_calls replayed_vectors broken_vectors advertising_vectors write_vectors
      read_vectors counter_vectors
  counted = refl

  replayed_vectors-Returns : All Returns (replayed_vectors (reference_ccm aes) aes)
  unfolding replayed_vectors
  replayed_vectors-Returns =
      (replayed_advertisement-Returns, (replayed_write-Returns, (replayed_read-Returns, tt)))

  broken_vectors-Returns :
      IsKey aes wrong_bindkey → All Returns (broken_vectors (reference_ccm aes) aes)
  unfolding broken_vectors wrong_key
  broken_vectors-Returns wrong = (
    own aes _ _ _ _ _ _ refl wrong (omega arith) (omega arith),
    (tampered_ciphertext-Returns, tt),
  )

  calls-Returns : IsKey aes wrong_bindkey → All Returns (build_calls (reference_ccm aes) aes)
  unfolding build_calls
  calls-Returns wrong =
      let ccm = reference_ccm aes in
      let broken = broken_vectors-Returns wrong in
      let policies =
        All-append Returns (counter_vectors ccm aes) _ counter_vectors-Returns broken in
      let negative =
        All-append Returns (replayed_vectors ccm aes) _ replayed_vectors-Returns policies in
      let reads = All-append Returns (read_vectors ccm aes) _ read_vectors-Returns negative in
      let writes = All-append Returns (write_vectors ccm aes) _ write_vectors-Returns reads in
      All-append Returns (advertising_vectors ccm aes) _ advertising_vectors-Returns writes

  -- Where `AESCCM` is the reference and the block cipher takes both keys of the vectors,
  -- `build_vectors` returns its 22 vectors: no call raises.
  pub build_vectors-total :
      IsKey aes wrong_bindkey
      → (vectors : List Vector) × (build_vectors (reference_ccm aes) aes ≡ ok vectors)
        × (length vectors ≡ 22)
  unfolding build_vectors
  build_vectors-total wrong =
      let all = collect-Returns aes _ (calls-Returns wrong) in (all.0, all.1, all.2 ∙ counted)
