-- ===== src/Protocol/Sealing/Open.antt =====
-- What protocol.py seals it opens, and a counter report answers only its own challenge.
use bthome_writable.Common.{
  ℕ, ◌^◌, leb, if◌then◌else◌, ◌+◌, ◌-◌, ◌<◌, ◌≡◌, ◌≢◌, refl, sym, ap, ◌⊎◌, inl, inr, true, false,
  none, some, [], ◌∷◌, ◌++◌, length, take, drop, ok, length-append, length-take, length-drop,
  take-append-drop, take-append, drop-append, drop-append_more, take-append_eq, drop-append_eq,
  Result-cases, Bool-cases, arith,
}
use bthome_writable.Common.Int.{pos}
use bthome_writable.Protocol.Const.{device_info_byte_read}
use bthome_writable.Protocol.Walk.{Bytes}
use bthome_writable.Protocol.Integers.{
  to_bytes, from_le, to_le, to_bytes_unsigned, from_le-to_le, length-to_le,
}
use bthome_writable.Protocol.Text.{Text}
use bthome_writable.Protocol.Sealing.{
  Ccm, IsCcm, counter_length, mic_length, seal_overhead, nonce, split_sealed, seal, open_sealed,
  open_read, bytes_eq, answer_to, open_counter_report,
}

-- The framing `ciphertext || counter || mic` is taken apart where it was put together.
split_sealed-append :
    (body count mic : Bytes)
    → 0 < length body
    → length count ≡ counter_length
    → length mic ≡ mic_length
    → split_sealed (body ++ (count ++ mic)) ≡ ok (body, from_le count, mic)
unfolding split_sealed
split_sealed-append body count mic h c m =
    let whole : Bytes = body ++ (count ++ mic) in
    let size : length whole ≡ length body + 8 =
      omega (arith, length-append body (count ++ mic), length-append count mic) in
    let body_end : length whole - 8 ≡ length body = omega arith in
    let mic_start : length whole - 4 ≡ length body + 4 = omega arith in
    let width : length whole - 4 - (length whole - 8) ≡ 4 = omega arith in
    let long : leb (length whole) 8 ≡ false = ground (arith, size) in
    rw (long, width, body_end, mic_start)
      (rw (
        take-append body (count ++ mic),
        drop-append body (count ++ mic),
        drop-append_more body (count ++ mic) 4,
        take-append_eq 4 count mic (sym c),
        drop-append_eq 4 count mic (sym c),
      ))

-- What a successful `seal` did.
record Sealed (ccm : Ccm) (plaintext bindkey : Bytes) (address : Text) (device_info counter : ℕ)
    (sealed : Bytes) : Type 0 where
  n : Bytes
  boxed : Bytes
  count : Bytes
  nonce_made : nonce address device_info counter ≡ ok n
  encrypted : ccm.encrypt bindkey n plaintext ≡ ok boxed
  counted : to_bytes (pos counter) counter_length false ≡ ok count
  framed :
      sealed
      ≡ take (length boxed - mic_length) boxed ++ (count ++ drop (length boxed - mic_length) boxed)

module _ (ccm : Ccm) (plaintext bindkey : Bytes) (address : Text) (device_info counter : ℕ)
    (sealed : Bytes) where
  seal-Sealed :
      seal ccm plaintext bindkey address device_info counter ≡ ok sealed
      → Sealed ccm plaintext bindkey address device_info counter sealed
  unfolding seal
  seal-Sealed e = elim (Result-cases (nonce address device_info counter)) [
    | inr (bad, x) ↦ absurd (ground arith)
    | inl (n, x) ↦ elim (Result-cases (ccm.encrypt bindkey n plaintext)) [
      | inr (bad, y) ↦ absurd (ground arith)
      | inl (boxed, y) ↦ elim (Result-cases (to_bytes (pos counter) counter_length false)) [
        | inr (bad, z) ↦ absurd (ground arith)
        | inl (count, z) ↦ record {
          n = n;
          boxed = boxed;
          count = count;
          nonce_made = x;
          encrypted = y;
          counted = z;
          framed = ground arith;
        }
      ]
    ]
  ]

  -- The counter of a seal that succeeded fits four bytes, and is read back from them.
  counted-from_le :
      (count : Bytes)
      → to_bytes (pos counter) counter_length false ≡ ok count
      → (length count ≡ 4) × (from_le count ≡ counter)
  counted-from_le count e =
      let (fits, same) = to_bytes_unsigned counter 4 count e in
      rw same (length-to_le 4 counter, from_le-to_le 4 counter fits)

  -- How `split_sealed` takes apart what `seal` put together.
  Apart : Bytes → Type 0
  Apart n =
      (body : Bytes) × (mic : Bytes) × (split_sealed sealed ≡ ok (body, counter, mic))
      × (nonce address device_info counter ≡ ok n)
      × (ccm.encrypt bindkey n plaintext ≡ ok (body ++ mic))
      × (length sealed ≡ length plaintext + 8)

  seal-Apart :
      IsCcm ccm
      → 0 < length plaintext
      → seal ccm plaintext bindkey address device_info counter ≡ ok sealed
      → (n : Bytes) × Apart n
  unfolding Apart
  seal-Apart laws h e =
      let s = seal-Sealed e in
      let boxed = s.boxed in
      let width = laws.tag_added bindkey s.n plaintext boxed s.encrypted in
      let cut = length boxed - mic_length in
      let body : Bytes = take cut boxed in
      let mic : Bytes = drop cut boxed in
      let body_width : length body ≡ length plaintext = omega (arith, length-take cut boxed) in
      let mic_width : length mic ≡ 4 = omega (arith, length-drop cut boxed) in
      let (count_width, count_value) = counted-from_le s.count s.counted in
      let apart = split_sealed-append body s.count mic (omega arith) count_width mic_width in
      (
        s.n,
        (
          body,
          mic,
          rw (s.framed, apart, count_value),
          s.nonce_made,
          rw (take-append-drop cut boxed) s.encrypted,
          omega (
            arith,
            ap length s.framed,
            length-append body (s.count ++ mic),
            length-append s.count mic,
          ),
        ),
      )

  pub split_sealed-seal :
      IsCcm ccm
      → 0 < length plaintext
      → seal ccm plaintext bindkey address device_info counter ≡ ok sealed
      → (body : Bytes) × (mic : Bytes) × (split_sealed sealed ≡ ok (body, counter, mic))
  unfolding Apart
  split_sealed-seal laws h e =
      let (n, (body, mic, apart, _, _, _)) = seal-Apart laws h e in (body, mic, apart)

  pub open_sealed-seal :
      IsCcm ccm
      → 0 < length plaintext
      → seal ccm plaintext bindkey address device_info counter ≡ ok sealed
      → (open_sealed ccm sealed bindkey address device_info ≡ ok (some plaintext))
        × (length sealed ≡ length plaintext + 8)
  unfolding open_sealed Apart
  open_sealed-seal laws h e =
      let (n, (body, mic, apart, made, boxed, width)) = seal-Apart laws h e in
      (rw (apart, open_sealed, made) (laws.decrypts bindkey n plaintext (body ++ mic) boxed), width)

module _ (ccm : Ccm) (laws : IsCcm ccm) where
  -- What a device seals under the read direction, a counter below 2 ^ 32 and a nonempty plaintext,
  -- `open_read` opens to that plaintext, and sealing adds eight bytes.
  pub open_read-seal :
      (plaintext bindkey : Bytes) (address : Text) (counter : ℕ) (sealed : Bytes)
      → 0 < length plaintext
      → seal ccm plaintext bindkey address device_info_byte_read counter ≡ ok sealed
      → (open_read ccm sealed bindkey address ≡ ok (some plaintext))
        × (length sealed ≡ length plaintext + seal_overhead)
  unfolding open_read
  open_read-seal plaintext bindkey address counter sealed h e =
      open_sealed-seal ccm plaintext bindkey address device_info_byte_read counter sealed laws h e

pub bytes_eq_self : (v : Bytes) → bytes_eq v v ≡ true
unfolding bytes_eq
bytes_eq_self [] = refl
bytes_eq_self (b ∷ v) = ground (arith, bytes_eq_self v)

pub bytes_eq→eq : (v w : Bytes) → bytes_eq v w ≡ true → v ≡ w
unfolding bytes_eq
bytes_eq→eq [] [] h = refl
bytes_eq→eq [] (c ∷ w) h = cc
bytes_eq→eq (b ∷ v) [] h = cc
bytes_eq→eq (b ∷ v) (c ∷ w) h = ground (arith, bytes_eq→eq v w)

-- The report `challenge || counter` answers its own challenge, and no other of the same length.
answer_to-report :
    (challenge asked : Bytes) (counter : ℕ)
    → counter < 2 ^ 32
    → length asked ≡ length challenge
    → answer_to asked (some (challenge ++ to_le 4 counter))
      ≡ (if bytes_eq challenge asked then some counter else none)
unfolding answer_to
answer_to-report challenge asked counter h same =
    let count = to_le 4 counter in
    rw
      (
        same,
        take-append challenge count,
        drop-append challenge count,
        from_le-to_le 4 counter (omega arith),
      )
      (ground (arith, length-append challenge count, length-to_le 4 counter))

module _ (ccm : Ccm) (laws : IsCcm ccm) where
  -- A report that a device seals over a challenge and its counter is accepted for that challenge,
  -- with that counter; for any other challenge of the same length it is refused, so a captured
  -- report does not answer a fresh challenge.
  pub open_counter_report-seal :
      (challenge asked bindkey : Bytes) (address : Text) (counter device_counter : ℕ)
      (sealed : Bytes)
      → device_counter < 2 ^ 32
      → length asked ≡ length challenge
      → seal ccm (challenge ++ to_le 4 device_counter) bindkey address device_info_byte_read counter
        ≡ ok sealed
      → ((asked ≡ challenge)
          × (open_counter_report ccm sealed bindkey address asked ≡ ok (some device_counter)))
        ⊎ ((asked ≢ challenge) × (open_counter_report ccm sealed bindkey address asked ≡ ok none))
  unfolding open_counter_report
  open_counter_report-seal challenge asked bindkey address counter device_counter sealed h same e =
      let count = to_le 4 device_counter in
      let (opened, _) =
        open_read-seal ccm laws (challenge ++ count) bindkey address counter sealed
          (omega (arith, length-append challenge count, length-to_le 4 device_counter)) e in
      let answer = answer_to-report challenge asked device_counter h same in
      elim (Bool-cases (bytes_eq challenge asked)) [
        | inl own ↦ inl (sym (bytes_eq→eq challenge asked own), rw (opened, answer, own))
        | inr other ↦
            inr
              (λ p. absurd (ground (arith, p, bytes_eq_self challenge)), rw (opened, answer, other))
      ]
