-- ===== src/Coordinator/Reading/Served.antt =====
-- What a characteristic serves for an entry, and what `_read_entries` of
-- custom_components/bthome_writable/coordinator.py makes of it.
use bthome_writable.Common.{
  ◌≡◌, refl, subst, ◌⊎◌, inl, inr, true, false, Option, none, some, Bool-cases, Option-cases,
  Result, ok, err, Error, ==→eq, ok_same, arith, ℕ,
}
use bthome_writable.Protocol.Walk.{Bytes, Table}
use bthome_writable.Protocol.Text.{Text}
use bthome_writable.Protocol.Declaration.{WritableEntry, decode_object}
use bthome_writable.Protocol.Sealing.{Ccm, open_read}
use bthome_writable.Coordinator.Reading.{
  Client, Characteristic, usable, authentic, opened_entry, decode_read, open_value, skips,
  EntryRead, EntryRead.passed, EntryRead.unusable, EntryRead.reads, read_entry,
}

-- The entry is the one to skip.
abbrev pub IsSkipped : Option ℕ → WritableEntry → Type 0
IsSkipped none e = ⊥
IsSkipped (some number) e = e.entry ≡ number

usable-ok : (r : Result Bytes) (value : Bytes) → usable r ≡ ok (some value) → r ≡ ok value
usable-ok (ok v) value h = ground arith
usable-ok (err x) value h = ground arith

authentic-ok :
    (r : Result (Option Bytes)) (plaintext : Bytes)
    → authentic r ≡ ok (some plaintext)
    → r ≡ ok (some plaintext)
authentic-ok (ok v) plaintext h = h
authentic-ok (err x) plaintext h = ground arith

module _ (ccm : Ccm) (table : Table) where
  -- What the device serves for an entry is this value: an object of the entry's own type, in clear
  -- where there is no key, and sealed under the key where there is one.
  abbrev pub Serves : Option Bytes → Text → WritableEntry → Bytes → Bytes → Type 0
  Serves none address e raw value = decode_object table e raw ≡ ok value
  Serves (some key) address e raw value =
      (plaintext : Bytes) × (open_read ccm raw key address ≡ ok (some plaintext))
      × (decode_object table e plaintext ≡ ok value)

  open_value-Serves :
      (key : Option Bytes) (address : Text) (e : WritableEntry) (raw value : Bytes)
      → open_value ccm table key address e raw ≡ ok (some value)
      → Serves key address e raw value
  unfolding open_value decode_read
  open_value-Serves none address e raw value h = usable-ok _ value h
  open_value-Serves (some key) address e raw value h =
      opened (authentic (open_read ccm raw key address)) refl h
    where
      opened :
          (r : Result (Option Bytes))
          → authentic (open_read ccm raw key address) ≡ r
          → (elim r [
            | err raised ↦ err raised
            | ok none ↦ ok none
            | ok (some plaintext) ↦ usable (decode_object table e plaintext)
          ])
            ≡ ok (some value)
          → (plaintext : Bytes) × (open_read ccm raw key address ≡ ok (some plaintext))
            × (decode_object table e plaintext ≡ ok value)
      opened (err x) is k = absurd (ground arith)
      opened (ok none) is k = absurd (ground arith)
      opened (ok (some plaintext)) is k =
          (plaintext, authentic-ok _ plaintext is, usable-ok _ value k)

module _ (ccm : Ccm) (table : Table) (client : Client) (skip : Option ℕ) where
  -- The entry was to be skipped, or is write-only.
  abbrev pub IsPassed : WritableEntry → Type 0
  IsPassed e =
      IsSkipped skip e
      ⊎ ((ch : Characteristic) × (client e.entry ≡ some ch) × (ch.readable ≡ false))

  -- Its characteristic is there and serves the value.
  abbrev pub IsServed : Option Bytes → Text → WritableEntry → Bytes → Type 0
  IsServed key address e value =
      (ch : Characteristic) × (raw : Bytes) × (client e.entry ≡ some ch)
      × (ch.readable ≡ true)
      × (ch.content ≡ some raw)
      × Serves ccm table key address e raw value

  abbrev pub Came : Option Bytes → Text → WritableEntry → EntryRead → Type 0
  Came key address e passed = IsPassed e
  Came key address e unusable = Unit
  Came key address e (reads value) = IsServed key address e value

  skips-IsSkipped : (s : Option ℕ) (e : WritableEntry) → skips ccm table s e ≡ true → IsSkipped s e
  unfolding skips
  skips-IsSkipped none e h = absurd (ground arith)
  skips-IsSkipped (some n) e h = ==→eq _ _ h

  opened-Came :
      (key : Option Bytes) (address : Text) (e : WritableEntry) (raw : Bytes)
      (r : Result (Option Bytes)) (ch : Characteristic)
      → open_value ccm table key address e raw ≡ r
      → client e.entry ≡ some ch
      → ch.readable ≡ true
      → ch.content ≡ some raw
      → (o : EntryRead) → opened_entry r ≡ ok o
      → Came key address e o
  opened-Came key address e raw (err x) ch is there readable served o h = absurd (never x h)
    where
      never : (x : Error) → opened_entry (err x) ≡ ok o → ⊥
      never x h = ground arith
  opened-Came key address e raw (ok none) ch is there readable served o h =
      subst (Came key address e) (ok_same refl h) tt
  opened-Came key address e raw (ok (some value)) ch is there readable served o h =
      subst (Came key address e) (ok_same refl h)
        (ch, raw, there, readable, served, open_value-Serves ccm table key address e raw value is)

  pub read_entry-Came :
      (key : Option Bytes) (address : Text) (e : WritableEntry) (o : EntryRead)
      → read_entry ccm table key address client skip e ≡ ok o
      → Came key address e o
  unfolding read_entry
  read_entry-Came key address e o h = elim (Bool-cases (skips ccm table skip e)) [
    | inl skipped ↦
        subst (Came key address e) (ok_same refl (rw (skipped, read_entry) at h))
          (inl (skips-IsSkipped skip e skipped))
    | inr asked ↦ elim (Option-cases (client e.entry)) [
      | inl missing ↦ absurd (ground (arith, rw (asked, missing, read_entry) at h))
      | inr (ch, there) ↦ elim (Bool-cases ch.readable) [
        | inr write_only ↦
            subst (Came key address e)
              (ok_same refl (rw (asked, there, write_only, read_entry) at h))
              (inr (ch, there, write_only))
        | inl readable ↦ elim (Option-cases ch.content) [
          | inl lost ↦ absurd (ground (arith, rw (asked, there, readable, lost, read_entry) at h))
          | inr (raw, served) ↦
              opened-Came key address e raw _ ch refl there readable served o
                (rw (asked, there, readable, served, read_entry) at h)
        ]
      ]
    ]
  ]
