-- ===== src/CcmReference/Stream.antt =====
-- `_counter_block`, `_ctr_keystream` and `_cbc_mac`: lengths, and that they end.
use bthome_writable.Common.{
  ℕ, zero, suc, ◌+◌, ◌-◌, ◌*◌, ◌/◌, ◌%◌, ◌^◌, ◌≤◌, ◌<◌, ◌≡◌, refl, ap, subst, ◌∙◌, inl, inr, true,
  false, [], ◌∷◌, ◌++◌, reverse, ltb, ◌==◌, length, take, drop, slice, Result, ok, length-append,
  length-take, length-drop, length-reverse, Bool-cases, ltb→lt, ltb_false→le, bind_ok, ok_same,
  ==→eq, if_cases, arith,
}
use bthome_writable.Common.Int.{pos}
use bthome_writable.Protocol.Walk.{Bytes}
use bthome_writable.Protocol.Integers.{to_bytes-Fits}
use bthome_writable.CcmReference.{
  nonce_length, block_length, tag_length, length_field, zeros, pad, to_big, counter_block,
  mac_blocks, cbc_mac, stream_from, ctr_keystream,
}
use bthome_writable.CcmReference.Xor.{xor-total, length-xor}

-- What a block cipher promises: whatever the key, an answer is a whole block.
abbrev pub IsBlockCipher : (Bytes → Bytes → Result Bytes) → Type 0
IsBlockCipher aes = (key block out : Bytes) → aes key block ≡ ok out → length out ≡ block_length

-- A key it takes: every whole block is answered with one.
abbrev pub IsKey : (Bytes → Bytes → Result Bytes) → Bytes → Type 0
IsKey aes key =
    (block : Bytes)
    → length block ≡ block_length
    → (out : Bytes) × (aes key block ≡ ok out) × (length out ≡ block_length)

pub to_big-total :
    (n count : ℕ) → n < 256 ^ count → (v : Bytes) × (to_big n count ≡ ok v) × (length v ≡ count)
unfolding to_big
to_big-total n count h =
    let digits = to_bytes-Fits (pos n) count false h in
    (reverse digits.0, rw digits.1, omega (arith, digits.2, length-reverse digits.0))

pub counter_block-total :
    (nonce : Bytes) (index : ℕ)
    → length nonce ≡ nonce_length
    → index < 65536
    → (v : Bytes) × (counter_block nonce index ≡ ok v) × (length v ≡ block_length)
unfolding counter_block
counter_block-total nonce index n h =
    let i = to_big-total index length_field (omega arith) in
    ((1 ∷ nonce) ++ i.0, rw i.1, omega (arith, length-append (1 ∷ nonce) i.0, i.2))

module _ (aes : Bytes → Bytes → Result Bytes) where
  stream_from-length :
      (key nonce : Bytes) (size fuel : ℕ) (stream : Bytes) (index : ℕ) {whole : Bytes}
      → stream_from aes key nonce size fuel stream index ≡ ok whole
      → size ≤ length whole
  unfolding stream_from
  stream_from-length key nonce size zero stream index e = absurd (ground arith)
  stream_from-length key nonce size (suc fuel) stream index e =
      elim (Bool-cases (ltb (length stream) size)) [
        | inr long ↦
            let whole = ok_same refl (rw (long, stream_from) at e) in
            subst (λ w. size ≤ length w) whole (ltb_false→le _ _ long)
        | inl short ↦
            let first = bind_ok (counter_block nonce index) _ (rw (short, stream_from) at e) in
            let second = bind_ok (aes key first.0) _ first.2 in
            stream_from-length key nonce size fuel (stream ++ second.0) (index + 1) second.2
      ]

  stream_from-step :
      (key nonce : Bytes) (size fuel : ℕ) (stream : Bytes) (index : ℕ) {block more : Bytes}
      → ltb (length stream) size ≡ true
      → counter_block nonce index ≡ ok block
      → aes key block ≡ ok more
      → stream_from aes key nonce size (suc fuel) stream index
        ≡ stream_from aes key nonce size fuel (stream ++ more) (index + 1)
  unfolding stream_from
  stream_from-step key nonce size fuel stream index short b m = ground arith

  -- The keystream is as long as asked for.
  pub length-ctr_keystream :
      (key nonce : Bytes) (size : ℕ) {stream : Bytes}
      → ctr_keystream aes key nonce size ≡ ok stream
      → length stream ≡ size
  unfolding ctr_keystream
  length-ctr_keystream key nonce size e =
      let parts = bind_ok (stream_from aes key nonce size (size + 1) [] 1) _ e in
      let long = stream_from-length key nonce size (size + 1) [] 1 parts.1 in
      subst (λ s. length s ≡ size) (ok_same refl parts.2) (omega (arith, length-take size parts.0))

  module _ (key nonce : Bytes) (n : length nonce ≡ nonce_length) (takes : IsKey aes key) where
    stream_from-total :
        (size fuel : ℕ) (stream : Bytes) (index : ℕ)
        → size < 65536
        → size < fuel + length stream
        → 0 < fuel
        → 16 * index ≡ length stream + 16
        → (whole : Bytes) × (stream_from aes key nonce size fuel stream index ≡ ok whole)
    unfolding stream_from
    stream_from-total size zero stream index s f p i = absurd (omega arith)
    stream_from-total size (suc fuel) stream index s f p i =
        elim (Bool-cases (ltb (length stream) size)) [
          | inr long ↦ (stream, rw (long, stream_from))
          | inl short ↦
              let less = ltb→lt _ _ short in
              let block = counter_block-total nonce index n (omega arith) in
              let more = takes block.0 block.2 in
              let longer = length-append stream more.0 in
              let rest =
                stream_from-total size fuel (stream ++ more.0) (index + 1) s
                  (omega (arith, longer, more.2)) (omega arith) (omega (arith, longer, more.2)) in
              (
                rest.0,
                stream_from-step key nonce size fuel stream index short block.1 more.1 ∙ rest.1,
              )
        ]

    -- The loop of the keystream ends, and its counter stays within two bytes.
    pub ctr_keystream-total :
        (size : ℕ) → size < 65536 → (s : Bytes) × (ctr_keystream aes key nonce size ≡ ok s)
    unfolding ctr_keystream
    ctr_keystream-total size h =
        let whole =
          stream_from-total size (size + 1) [] 1 h (omega arith) (omega arith) (omega arith) in
        (take size whole.0, rw whole.1)

    mac_blocks-total :
        (data' : Bytes) (count offset : ℕ) (state : Bytes)
        → length state ≡ block_length
        → offset + 16 * count ≤ length data'
        → (end : Bytes) × (mac_blocks aes key data' count offset state ≡ ok end)
          × (length end ≡ block_length)
    unfolding mac_blocks
    mac_blocks-total data' zero offset state s h = (state, refl, s)
    mac_blocks-total data' (suc count) offset state s h =
        let block = slice data' offset (offset + block_length) in
        let width : offset + 16 - offset ≡ 16 = omega arith in
        let size : length block ≡ 16 =
          rw width (omega (arith, length-take 16 (drop offset data'), length-drop offset data')) in
        let mixed = xor-total state block (omega arith) in
        let next = takes mixed.0 (omega (arith, length-xor state block mixed.1)) in
        let rest = mac_blocks-total data' count (offset + 16) next.0 next.2 (omega arith) in
        (rest.0, rw (mixed.1, next.1, rest.1), rest.2)

    length-zeros : (count : ℕ) → length (zeros count) ≡ count
    unfolding zeros
    length-zeros zero = refl
    length-zeros (suc count) = ap suc (length-zeros count)

    pad-whole : (message : Bytes) → length (pad message) % 16 ≡ 0
    unfolding pad
    pad-whole message =
        let rest = length message % 16 in
        if_cases (λ p. length p % 16 ≡ 0) (rest == 0) message (message ++ zeros (16 - rest))
          (λ e. ==→eq _ _ e)
          (λ e. omega (arith, length-append message (zeros (16 - rest)), length-zeros (16 - rest)))

    -- So does the loop over the blocks of the message.
    pub cbc_mac-total :
        (message : Bytes)
        → length message < 65536
        → (tag : Bytes) × (cbc_mac aes key nonce message ≡ ok tag) × (length tag ≡ tag_length)
    unfolding cbc_mac
    cbc_mac-total message h =
        let size = to_big-total (length message) 2 (omega arith) in
        let padded = pad message in
        let header = length-append (9 ∷ nonce) size.0 in
        let whole = length-append ((9 ∷ nonce) ++ size.0) padded in
        let even = pad-whole message in
        let data' : Bytes = ((9 ∷ nonce) ++ size.0) ++ padded in
        let end =
          mac_blocks-total data' ((length data' + 15) / 16) 0 (zeros 16) (length-zeros 16)
            (omega (arith, header, whole, even, size.2)) in
        (take 4 end.0, rw (size.1, end.1), omega (arith, length-take 4 end.0, end.2))
