-- ===== src/ConfigFlow/Opening.antt =====
-- What `declaration_from` of custom_components/bthome_writable/config_flow.py read when it found a
-- declaration.
use bthome_writable.Common.{
  ◌≡◌, refl, ◌⊎◌, inl, inr, true, false, Option, none, some, drop, Result, ok, err, Bool-cases,
  ◌>>=◌, arith,
}
use bthome_writable.Protocol.Walk.{Bytes, Table}
use bthome_writable.Protocol.Declaration.{Declaration, parse_declaration}
use bthome_writable.Protocol.Sealing.{Ccm, is_encrypted, objects_at, decrypt_advertising}
use bthome_writable.ConfigFlow.{
  Discovery, service_data, needs_bindkey, tolerant, parse_opened, declaration_in, declaration_from,
}

pub one_discovery : {a b : Discovery} → some a ≡ some b → a ≡ b
one_discovery e = ground arith

module _ (ccm : Ccm) (table : Table) where
  -- The advertisement is sealed, opens under the key, and declares this.
  abbrev pub Opens : Discovery → Bytes → Declaration → Type 0
  Opens d key declaration =
      (payload : Bytes) × (objects : Bytes) × (service_data d ≡ some payload)
      × (is_encrypted payload ≡ true)
      × (decrypt_advertising ccm payload key d.address ≡ ok (some objects))
      × (parse_declaration table objects ≡ ok (some declaration))

  -- The advertisement is not sealed, and declares this.
  abbrev pub InClear : Discovery → Declaration → Type 0
  InClear d declaration =
      (payload : Bytes) × (service_data d ≡ some payload)
      × (is_encrypted payload ≡ false)
      × (parse_declaration table (drop (objects_at payload) payload) ≡ ok (some declaration))

  abbrev pub Reads : Discovery → Option Bytes → Declaration → Type 0
  Reads d none declaration = InClear d declaration
  Reads d (some key) declaration = Opens d key declaration

  tolerant-ok :
      (r : Result (Option Declaration)) (declaration : Declaration)
      → tolerant r ≡ ok (some declaration)
      → r ≡ ok (some declaration)
  tolerant-ok (ok o) declaration e = e
  tolerant-ok (err x) declaration e = ground arith

  parsed :
      (r : Result (Option Bytes)) (declaration : Declaration)
      → (r >>= parse_opened ccm table) ≡ ok (some declaration)
      → (objects : Bytes) × (r ≡ ok (some objects))
        × (parse_declaration table objects ≡ ok (some declaration))
  parsed (err x) declaration e = absurd (ground arith)
  parsed (ok none) declaration e = absurd (ground arith)
  parsed (ok (some objects)) declaration e = (objects, refl, tolerant-ok _ declaration e)

  keyed_payload :
      (d : Discovery) (key : Bytes) (declaration : Declaration) (o : Option Bytes)
      → service_data d ≡ o
      → declaration_in ccm table o (some key) d.address ≡ ok (some declaration)
      → Opens d key declaration ⊎ InClear d declaration
  unfolding declaration_in
  keyed_payload d key declaration none is f = absurd (ground arith)
  keyed_payload d key declaration (some payload) is f = elim (Bool-cases (is_encrypted payload)) [
    | inl seals ↦
        let (objects, opens, parses) =
          parsed (decrypt_advertising ccm payload key d.address) declaration
            (rw (seals, declaration_in) at f) in
        inl (payload, objects, is, seals, opens, parses)
    | inr clear ↦
        inr (payload, is, clear, tolerant-ok _ declaration (rw (clear, declaration_in) at f))
  ]

  clear_payload :
      (d : Discovery) (declaration : Declaration) (o : Option Bytes)
      → service_data d ≡ o
      → declaration_in ccm table o none d.address ≡ ok (some declaration)
      → InClear d declaration
  unfolding declaration_in
  clear_payload d declaration none is f = absurd (ground arith)
  clear_payload d declaration (some payload) is f = elim (Bool-cases (is_encrypted payload)) [
    | inl seals ↦ absurd (ground (arith, rw (seals, declaration_in) at f))
    | inr clear ↦ (payload, is, clear, tolerant-ok _ declaration (rw (clear, declaration_in) at f))
  ]

  -- With a key: the advertisement opened, or was not sealed.
  pub keyed-cases :
      (d : Discovery) (key : Bytes) (declaration : Declaration)
      → declaration_from ccm table d (some key) ≡ ok (some declaration)
      → Opens d key declaration ⊎ InClear d declaration
  unfolding declaration_from
  keyed-cases d key declaration e = keyed_payload d key declaration (service_data d) refl e

  pub clear-InClear :
      (d : Discovery) (declaration : Declaration)
      → declaration_from ccm table d none ≡ ok (some declaration)
      → InClear d declaration
  unfolding declaration_from
  clear-InClear d declaration e = clear_payload d declaration (service_data d) refl e

  InClear-needs :
      (d : Discovery) (declaration : Declaration) → InClear d declaration → needs_bindkey d ≡ false
  unfolding needs_bindkey
  InClear-needs d declaration (payload, is, clear, parses) = rw (is, needs_bindkey) clear

  -- A sealed one opened.
  pub sealed-Opens :
      (d : Discovery) (key : Bytes) (declaration : Declaration)
      → needs_bindkey d ≡ true
      → declaration_from ccm table d (some key) ≡ ok (some declaration)
      → Opens d key declaration
  sealed-Opens d key declaration seals e = elim (keyed-cases d key declaration e) [
    | inl opens ↦ opens
    | inr clear ↦ let open' = InClear-needs d declaration clear in absurd (ground arith)
  ]
