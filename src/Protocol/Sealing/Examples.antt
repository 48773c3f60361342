-- ===== src/Protocol/Sealing/Examples.antt =====
-- Sealing with a cipher that changes nothing and a tag of four zeros.
use bthome_writable.Common.{
  ℕ, ◌+◌, ◌-◌, ◌≡◌, ◌≢◌, refl, ap, subst, ◌⊎◌, inl, true, false, none, some, [], ◌∷◌, ◌++◌, length,
  take, drop, ltb, Result, ok, err, length-append, take-append_eq, arith,
}
use bthome_writable.Protocol.Const.{device_info_byte_read}
use bthome_writable.Protocol.Walk.{Bytes}
use bthome_writable.Protocol.Text.{Text, mac_bytes, join_bytes}
use bthome_writable.Protocol.Text.Hex.{mac_bytes-join_bytes}
use bthome_writable.Common.Int.{pos}
use bthome_writable.Protocol.Integers.{to_bytes, to_le}
use bthome_writable.Protocol.Sealing.{
  Ccm, IsCcm, nonce, seal, open_read, open_counter_report, decrypt_advertising, advertising_counter,
}
use bthome_writable.Protocol.Sealing.Open.{open_read-seal, open_counter_report-seal}
use bthome_writable.Protocol.Sealing.Nonce.{nonce_injective}
use bthome_writable.Protocol.Sealing.Header.{decrypt_advertising-seal}

abbrev four_zeros : Bytes
four_zeros = 0 ∷ 0 ∷ 0 ∷ 0 ∷ []

abbrev pub plain_ccm : Ccm
plain_ccm = record {
  encrypt = λ key n plain. ok (plain ++ (0 ∷ 0 ∷ 0 ∷ 0 ∷ []));
  decrypt = λ key n sealed. ok (some (take (length sealed - 4) sealed));
}

result_or : Bytes → Result Bytes → Bytes
result_or d (ok v) = v
result_or d (err e) = d

pub plain_ccm-IsCcm : IsCcm plain_ccm
unfolding result_or
plain_ccm-IsCcm = record {
  decrypts = λ key n plain sealed e.
      let tag : Bytes = 0 ∷ 0 ∷ 0 ∷ 0 ∷ [] in
      subst (λ s. ok (some (take (length s - 4) s)) ≡ ok (some plain)) (ap (result_or []) e)
        (ap (λ v. ok (some v))
          (take-append_eq (length (plain ++ tag) - 4) plain tag
            (omega (arith, length-append plain tag))));
  tag_added = λ key n plain sealed e.
      subst (λ s. length s ≡ length plain + 4) (ap (result_or []) e)
        (omega (arith, length-append plain (0 ∷ 0 ∷ 0 ∷ 0 ∷ [])));
}

-- The address aa:bb:cc:dd:ee:01.
abbrev pub home : Text
home = join_bytes (0xAA ∷ 0xBB ∷ 0xCC ∷ 0xDD ∷ 0xEE ∷ 0x01 ∷ [])

abbrev one_object : Bytes
one_object = 0x53 ∷ 1 ∷ 0x68 ∷ []

-- The object, the counter 258 and the tag.
abbrev sealed_object : Bytes
sealed_object = 0x53 ∷ 1 ∷ 0x68 ∷ 2 ∷ 1 ∷ 0 ∷ 0 ∷ 0 ∷ 0 ∷ 0 ∷ 0 ∷ []

home-mac_bytes : mac_bytes home ≡ ok (0xAA ∷ 0xBB ∷ 0xCC ∷ 0xDD ∷ 0xEE ∷ 0x01 ∷ [])
home-mac_bytes =
    mac_bytes-join_bytes (0xAA ∷ 0xBB ∷ 0xCC ∷ 0xDD ∷ 0xEE ∷ 0x01 ∷ [])
      (omega arith, (omega arith, (omega arith, (omega arith, (omega arith, (omega arith, tt))))))

home-nonce :
    (info counter : ℕ) (count : Bytes)
    → ltb info 256 ≡ true
    → to_bytes (pos counter) 4 false ≡ ok count
    → nonce home info counter
      ≡ ok (0xAA ∷ 0xBB ∷ 0xCC ∷ 0xDD ∷ 0xEE ∷ 0x01 ∷ 0xD2 ∷ 0xFC ∷ info ∷ count)
unfolding nonce
home-nonce info counter count h e = rw (home-mac_bytes, h, e)

home-seal :
    (info counter : ℕ) (plain count : Bytes)
    → ltb info 256 ≡ true
    → to_bytes (pos counter) 4 false ≡ ok count
    → seal plain_ccm plain [] home info counter
      ≡ ok (
          take (length (plain ++ four_zeros) - 4) (plain ++ four_zeros)
          ++ (count ++ drop (length (plain ++ four_zeros) - 4) (plain ++ four_zeros)))
unfolding seal
home-seal info counter plain count h e = rw (home-nonce info counter count h e, e)

sealed_object-seal : seal plain_ccm one_object [] home device_info_byte_read 258 ≡ ok sealed_object
unfolding to_bytes to_le
sealed_object-seal = home-seal device_info_byte_read 258 one_object (2 ∷ 1 ∷ 0 ∷ 0 ∷ []) refl refl

open_read-seal_example :
    (open_read plain_ccm sealed_object [] home ≡ ok (some one_object))
    × (length sealed_object ≡ length one_object + 8)
open_read-seal_example =
    open_read-seal plain_ccm plain_ccm-IsCcm one_object [] home 258 sealed_object (omega arith)
      sealed_object-seal

-- The challenge 9 and the counter 5, under the counter 258.
abbrev sealed_report : Bytes
sealed_report = 9 ∷ 5 ∷ 0 ∷ 0 ∷ 0 ∷ 2 ∷ 1 ∷ 0 ∷ 0 ∷ 0 ∷ 0 ∷ 0 ∷ 0 ∷ []

sealed_report-seal :
    seal plain_ccm ((9 ∷ []) ++ to_le 4 5) [] home device_info_byte_read 258 ≡ ok sealed_report
unfolding to_bytes to_le
sealed_report-seal =
    home-seal device_info_byte_read 258 (9 ∷ 5 ∷ 0 ∷ 0 ∷ 0 ∷ []) (2 ∷ 1 ∷ 0 ∷ 0 ∷ []) refl refl

abbrev asked : Bytes
asked = 8 ∷ []

abbrev challenge : Bytes
challenge = 9 ∷ []

open_counter_report-seal_example :
    ((asked ≡ challenge)
      × (open_counter_report plain_ccm sealed_report [] home asked ≡ ok (some 5)))
    ⊎ ((asked ≢ challenge) × (open_counter_report plain_ccm sealed_report [] home asked ≡ ok none))
open_counter_report-seal_example =
    open_counter_report-seal plain_ccm plain_ccm-IsCcm challenge asked [] home 258 5 sealed_report
      (omega arith) refl sealed_report-seal

abbrev home_mac : Bytes
home_mac = 0xAA ∷ 0xBB ∷ 0xCC ∷ 0xDD ∷ 0xEE ∷ 0x01 ∷ []

abbrev counter : ℕ
counter = 258

nonce_injective_example :
    (home_mac ≡ home_mac) × (device_info_byte_read ≡ device_info_byte_read) × (counter ≡ counter)
unfolding to_bytes to_le
nonce_injective_example =
    nonce_injective home home device_info_byte_read device_info_byte_read counter counter home_mac
      home_mac (0xAA ∷ 0xBB ∷ 0xCC ∷ 0xDD ∷ 0xEE ∷ 0x01 ∷ 0xD2 ∷ 0xFC ∷ 0xFE ∷ 2 ∷ 1 ∷ 0 ∷ 0 ∷ [])
      home-mac_bytes home-mac_bytes refl (home-nonce 0xFE 258 (2 ∷ 1 ∷ 0 ∷ 0 ∷ []) refl refl)
      (home-nonce 0xFE 258 (2 ∷ 1 ∷ 0 ∷ 0 ∷ []) refl refl)

decrypt_advertising-seal_example :
    (decrypt_advertising plain_ccm (0x41 ∷ sealed_object) [] home ≡ ok (some one_object))
    × (advertising_counter (0x41 ∷ sealed_object) ≡ some 258)
unfolding to_bytes to_le
decrypt_advertising-seal_example =
    decrypt_advertising-seal plain_ccm plain_ccm-IsCcm 0x41 [] one_object [] sealed_object home home
      258 refl (inl (refl, refl, refl)) (omega arith)
      (home-seal 0x41 258 one_object (2 ∷ 1 ∷ 0 ∷ 0 ∷ []) refl refl)
