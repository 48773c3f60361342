-- ===== src/TestVectors/Build.antt =====
-- `build_vectors` of tools/gen_test_vectors.py: the positive vectors of each direction, the replays
-- in another direction, the counters that are refused, and the wrong key and the flipped bit.
use Prim.Native.Nat.{bit_xor}
use bthome_writable.Common.{false, some, List, [], ◌∷◌, ◌++◌, drop, Result, ok, index, ◌>>=◌}
use bthome_writable.Protocol.Walk.{Bytes}
use bthome_writable.Protocol.Sealing.{Ccm}
use bthome_writable.TestVectors.{
  Vector, advertising, write, read, reject, defaults, uint32_max, bindkey, wrong_bindkey, mac,
  device_info_advertising, device_info_write, device_info_read, advertising_payload, sealed_payload,
  seal, vector,
}

abbrev pub adv_single_light : Bytes
adv_single_light = 0x00 ∷ 0x09 ∷ 0x01 ∷ 0x61 ∷ 0xFF ∷ 0x01 ∷ 0x1E ∷ []

abbrev pub adv_multi : Bytes
adv_multi = 0x00 ∷ 0x0A ∷ 0x01 ∷ 0x61 ∷ 0xFF ∷ 0x03 ∷ 0x1E ∷ 0x1E ∷ 0x53 ∷ []

abbrev pub adv_thermostat : Bytes
adv_thermostat = 0x00 ∷ 0x09 ∷ 0x02 ∷ 0xC4 ∷ 0x09 ∷ 0x65 ∷ 0x03 ∷ 0xFF ∷ 0x02 ∷ 0x10 ∷ 0x57 ∷ []

abbrev pub write_light_off : Bytes
write_light_off = 0x1E ∷ 0x00 ∷ []

abbrev pub write_text_hello : Bytes
write_text_hello = 0x53 ∷ 0x05 ∷ 0x48 ∷ 0x65 ∷ 0x6C ∷ 0x6C ∷ 0x6F ∷ []

abbrev pub write_target_22 : Bytes
write_target_22 = 0x57 ∷ 0x16 ∷ []

abbrev pub write_button_press : Bytes
write_button_press = 0x3A ∷ 0x01 ∷ []

abbrev pub write_long_text : Bytes
write_long_text =
    0x53 ∷ 0x1C ∷ 0x74 ∷ 0x68 ∷ 0x65 ∷ 0x20 ∷ 0x71 ∷ 0x75 ∷ 0x69 ∷ 0x63 ∷ 0x6B ∷ 0x20 ∷ 0x62 ∷ 0x72
    ∷ 0x6F ∷ 0x77 ∷ 0x6E ∷ 0x20 ∷ 0x66 ∷ 0x6F ∷ 0x78 ∷ 0x20 ∷ 0x6A ∷ 0x75 ∷ 0x6D ∷ 0x70 ∷ 0x73
    ∷ 0x20 ∷ 0x6F ∷ 0x76 ∷ []

abbrev pub read_target_20 : Bytes
read_target_20 = 0x57 ∷ 0x14 ∷ []

abbrev pub read_power_on : Bytes
read_power_on = 0x10 ∷ 0x01 ∷ []

-- The results of calls made one after another.
unfoldable pub collect {ℓ} : {A : Type ℓ} → List (Result A) → Result (List A)
collect [] = ok []
collect (r ∷ results) = do a ← r; rest ← collect results; ok (a ∷ rest)

module _ (ccm : Ccm) (aes : Bytes → Bytes → Result Bytes) where
  unfoldable pub advertising_vectors : List (Result Vector)
  advertising_vectors =
      vector ccm aes "adv-single-light"
        "PROTOCOL.md §8.1 encrypted: battery and a declaration listing one light." advertising 1
        adv_single_light defaults
      ∷ vector ccm aes "adv-multi-instance"
          "PROTOCOL.md §8.3 encrypted: two light entries and a text entry." advertising 2 adv_multi
          defaults
      ∷ vector ccm aes "adv-thermostat"
          "PROTOCOL.md §8.2 encrypted: measured temperature, settings revision, writable power and target temperature."
          advertising 3 adv_thermostat defaults
      ∷ vector ccm aes "adv-counter-zero" "Edge: the lowest counter value a device can advertise."
          advertising 0 adv_single_light defaults
      ∷ vector ccm aes "adv-counter-max"
          "Edge: the highest u32 counter, immediately before wraparound." advertising uint32_max
          adv_single_light defaults
      ∷ []

  unfoldable pub write_vectors : List (Result Vector)
  write_vectors =
      vector ccm aes "write-light-off"
        "PROTOCOL.md §8.3: switch a light off, one object to its characteristic." write 1
        write_light_off defaults
      ∷ vector ccm aes "write-text" "PROTOCOL.md §8.3: a text write keeps BTHome's length byte."
          write 2 write_text_hello defaults
      ∷ vector ccm aes "write-target-temperature"
          "PROTOCOL.md §8.2: target 22 °C written as a 0x57 temperature." write 3 write_target_22
          defaults
      ∷ vector ccm aes "write-button-press"
          "PROTOCOL.md §8.4: an event write, the momentary action." write 4 write_button_press
          defaults
      ∷ vector ccm aes "write-long-text"
          "A 30-byte write: exceeds the 20-byte default-MTU budget of §4.4." write 5 write_long_text
          defaults
      ∷ vector ccm aes "write-counter-zero"
          "Edge: counter 0, which a freshly provisioned receiver may send." write 0 write_light_off
          defaults
      ∷ vector ccm aes "write-counter-max" "Edge: the highest u32 counter." write uint32_max
          write_light_off defaults
      ∷ vector ccm aes "write-forward-jump"
          "§5.3: a large forward jump MUST be accepted (receiver reinstall)." write 100000
          write_light_off (record defaults { last_accepted_counter = some 7 })
      ∷ []

  unfoldable pub read_vectors : List (Result Vector)
  read_vectors =
      vector ccm aes "read-target-temperature"
        "PROTOCOL.md §8.2: the knob moved the target to 20 °C; the receiver reads it after the settings revision changed."
        read 3 read_target_20 defaults
      ∷ vector ccm aes "read-power" "PROTOCOL.md §8.2: reading the power entry, heating on." read 4
          read_power_on defaults
      ∷ []

  -- A vector whose bytes come from elsewhere.
  unfoldable pub replayed_advertisement : Result Vector
  replayed_advertisement = do
    sealed ← seal ccm aes bindkey mac device_info_advertising 1 adv_single_light
    replayed ← sealed_payload sealed.1 1 sealed.2
    vector ccm aes "replay-advertisement-as-write"
        "§5.1: an encrypted advertisement replayed as a write. The nonce's device-info byte differs (0x41 vs 0xFF), so the MIC cannot verify."
        write 1 adv_single_light
        (record defaults {
          expect = reject;
          reject_reason = some "mic_mismatch_cross_direction";
          mic_valid = false;
          payload_override = some replayed;
        })

  unfoldable pub replayed_write : Result Vector
  replayed_write = do
    sealed ← seal ccm aes bindkey mac device_info_write 1 write_light_off
    replayed ← advertising_payload device_info_advertising sealed.1 1 sealed.2
    vector ccm aes "replay-write-as-advertisement"
        "§5.1, the other direction: a captured write replayed as an advertisement also fails, for the same reason."
        advertising 1 write_light_off
        (record defaults {
          expect = reject;
          reject_reason = some "mic_mismatch_cross_direction";
          mic_valid = false;
          payload_override = some replayed;
        })

  unfoldable pub replayed_read : Result Vector
  replayed_read = do
    sealed ← seal ccm aes bindkey mac device_info_read 3 read_target_20
    replayed ← sealed_payload sealed.1 3 sealed.2
    vector ccm aes "replay-read-as-write"
        "§5.1: a sealed read replayed as a write. Same layout as a write, different direction byte in the nonce, so the MIC cannot verify."
        write 3 read_target_20
        (record defaults {
          expect = reject;
          reject_reason = some "mic_mismatch_cross_direction";
          mic_valid = false;
          payload_override = some replayed;
        })

  unfoldable pub counter_vectors : List (Result Vector)
  counter_vectors =
      vector ccm aes "write-counter-replayed-equal"
        "§5.3: a byte-perfect replay of an accepted write. The MIC verifies; the device MUST still reject it, because counter <= last accepted."
        write 42 write_light_off
        (record defaults {
          expect = reject;
          reject_reason = some "counter_not_increasing";
          last_accepted_counter = some 42;
        })
      ∷ vector ccm aes "write-counter-below-last"
          "§5.3: an older write replayed. MIC valid, counter below the last accepted — reject."
          write 41 write_light_off
          (record defaults {
            expect = reject;
            reject_reason = some "counter_not_increasing";
            last_accepted_counter = some 42;
          })
      ∷ []

  unfoldable pub wrong_key : Result Vector
  wrong_key =
      vector ccm aes "write-wrong-bindkey"
        "A write sealed with a different bindkey than the device holds." write 5 write_light_off
        (record defaults {
          key = wrong_bindkey;
          verify_key = some bindkey;
          expect = reject;
          reject_reason = some "mic_mismatch_wrong_key";
          mic_valid = false;
        })

  unfoldable pub tampered_ciphertext : Result Vector
  tampered_ciphertext = do
    sealed ← seal ccm aes bindkey mac device_info_write 6 write_light_off
    first ← index sealed.1 0
    replayed ← sealed_payload (bit_xor first 1 ∷ drop 1 sealed.1) 6 sealed.2
    vector ccm aes "write-tampered-ciphertext"
        "One bit flipped in the ciphertext: the MIC must catch it." write 6 write_light_off
        (record defaults {
          expect = reject;
          reject_reason = some "mic_mismatch_tampered";
          mic_valid = false;
          payload_override = some replayed;
        })

  unfoldable pub replayed_vectors : List (Result Vector)
  replayed_vectors = replayed_advertisement ∷ replayed_write ∷ replayed_read ∷ []

  unfoldable pub broken_vectors : List (Result Vector)
  broken_vectors = wrong_key ∷ tampered_ciphertext ∷ []

  -- The calls of `vector`, in the order in which they are made.
  unfoldable pub build_calls : List (Result Vector)
  build_calls =
      advertising_vectors
      ++ (write_vectors
          ++ (read_vectors ++ (replayed_vectors ++ (counter_vectors ++ broken_vectors))))

  unfoldable pub build_vectors : Result (List Vector)
  build_vectors = collect build_calls
