-- ===== src/Protocol/Sealing/Header.antt =====
-- The header of an encrypted advertisement, and the address that its nonce is built from
-- (`objects_at`, `nonce_address`, `decrypt_advertising` of protocol.py).
use bthome_writable.Common.{
  ℕ, ◌<◌, ◌≡◌, ap, ◌∙◌, ◌⊎◌, inl, inr, true, false, ◌==◌, some, bit_and, [], ◌∷◌, ◌++◌, reverse,
  length, drop, ok, take-append_eq, drop-append_eq, length-append, length-reverse, arith,
}
use bthome_writable.Protocol.Const.{device_info_encrypted, device_info_mac_included}
use bthome_writable.Protocol.Walk.{Bytes}
use bthome_writable.Protocol.Text.{Text, join_bytes}
use bthome_writable.Protocol.Sealing.{
  Ccm, IsCcm, is_encrypted, mac_included, objects_at, nonce_address, seal, decrypt_advertising,
  advertising_counter,
}
use bthome_writable.Protocol.Sealing.Open.{open_sealed-seal, split_sealed-seal}
use mathlib.Core.List.{reverse-reverse}

-- How a device of the given address heads what it sealed: with its own address, least significant
-- byte first, where the flag says so, and with nothing otherwise. `sealer` is the address that the
-- device's nonce is built from.
abbrev pub Heads : ℕ → Bytes → Text → Text → Type 0
Heads info field address sealer =
    (((bit_and info device_info_mac_included == 0) ≡ true) × (field ≡ []) × (sealer ≡ address))
    ⊎ (((bit_and info device_info_mac_included == 0) ≡ false)
        × ((mac : Bytes) × (length mac ≡ 6) × (field ≡ reverse mac) × (sealer ≡ join_bytes mac)))

header_lem :
    (info : ℕ) (field rest : Bytes) (address sealer : Text)
    → Heads info field address sealer
    → (drop (objects_at (info ∷ field ++ rest)) (info ∷ field ++ rest) ≡ rest)
      × (nonce_address (info ∷ field ++ rest) address ≡ sealer)
unfolding objects_at nonce_address mac_included
header_lem info field rest address sealer (inl (clear, f, s)) = rw (f, s) (ground arith)
header_lem info field rest address sealer (inr (set, (mac, six, f, s))) =
    let width : 6 ≡ length field = omega (arith, ap length f, length-reverse mac) in
    let mirrored : reverse field ≡ mac = ap reverse f ∙ reverse-reverse mac in
    ground (
      arith,
      take-append_eq 6 field rest width,
      drop-append_eq 6 field rest width,
      length-append field rest,
      ap join_bytes mirrored,
    )

module _ (ccm : Ccm) (laws : IsCcm ccm) where
  -- An advertisement that a device seals under the device-information byte it transmits, with the
  -- encrypted flag set, is opened to the objects it sealed, and its counter is read without the
  -- key: with no address in the header, and with the device's own six bytes there, least
  -- significant first, whatever address it advertises under.
  pub decrypt_advertising-seal :
      (info : ℕ) (field objects bindkey sealed : Bytes) (address sealer : Text) (counter : ℕ)
      → (bit_and info device_info_encrypted == 0) ≡ false
      → Heads info field address sealer
      → 0 < length objects
      → seal ccm objects bindkey sealer info counter ≡ ok sealed
      → (decrypt_advertising ccm (info ∷ field ++ sealed) bindkey address ≡ ok (some objects))
        × (advertising_counter (info ∷ field ++ sealed) ≡ some counter)
  unfolding decrypt_advertising advertising_counter is_encrypted
  decrypt_advertising-seal info field objects bindkey sealed address sealer counter set heads h e =
      let (start, named) = header_lem info field sealed address sealer heads in
      let (opened, _) = open_sealed-seal ccm objects bindkey sealer info counter sealed laws h e in
      let apart = split_sealed-seal ccm objects bindkey sealer info counter sealed laws h e in
      (ground (arith, start, named, opened), ground (arith, start, apart))
