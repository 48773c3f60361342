-- ===== src/Coordinator/Reading/Complete.antt =====
-- A revision counts as read only when every entry was read: `_read_entries` and `_read_due_here` of
-- custom_components/bthome_writable/coordinator.py.
use bthome_writable.Common.{
  ℕ, ◌<◌, ◌≡◌, refl, sym, ap, ◌∙◌, subst, ◌⊎◌, inl, inr, Bool, true, false, not, ◌||◌, Option, some,
  List, [], ◌∷◌, All, ◌==◌, Bool-cases, Option-cases, Result-cases, Result, ok, err, Error, arith,
}
use bthome_writable.Protocol.Walk.{Bytes, Table}
use bthome_writable.Protocol.Declaration.{WritableEntry}
use bthome_writable.Protocol.Sealing.{Ccm}
use bthome_writable.Coordinator.{Coordinator, KeepsValues, lookup}
use bthome_writable.Coordinator.Reading.Served.{IsPassed, IsServed, read_entry-Came}
use bthome_writable.Coordinator.Reading.{
  Client, Characteristic, skips, elapse, EntryRead.passed, EntryRead.unusable, EntryRead.reads,
  is_value, store, is_stale_table, raises, read_entry, read_each, read_entries,
}
use bthome_writable.Coordinator.Reading.Values.{lookup-store, lookup-store_other}

-- The entries' numbers go up.
abbrev pub Ascending : List WritableEntry → Type 0
Ascending [] = Unit {0}
Ascending (e ∷ es) = All (λ later. e.entry < later.entry) es × Ascending es

raises-values :
    (ccm : Ccm) (table : Table) (x : Error) (c : Coordinator)
    → (raises ccm table x c).values ≡ c.values
unfolding raises
raises-values ccm table x c = elim (Bool-cases (is_stale_table ccm table x)) [
  | inl stale ↦ rw stale
  | inr other ↦ rw other
]

true≢false : true ≡ false → ⊥
true≢false e = grind arith

succeeds : Result Bool → Bool
succeeds (ok done) = done
succeeds (err x) = false

ok_false : ok false ≡ ok true → ⊥
unfolding succeeds
ok_false e = true≢false (sym (ap succeeds e))

err≢ok : {x : Error} → err x ≡ ok true → ⊥
unfolding succeeds
err≢ok {x} e = true≢false (sym (ap succeeds e))

pub record Stays (c c' : Coordinator) : Type 0 where
  pub same_key : c'.bindkey ≡ c.bindkey
  pub same_address : c'.address ≡ c.address
  pub same_values : c'.values ≡ c.values
  pub same_read : c'.revision_read ≡ c.revision_read

same : (c : Coordinator) → Stays c c
same c = record { same_key = refl; same_address = refl; same_values = refl; same_read = refl }

module _ (ccm : Ccm) (table : Table) (client : Client) (skip : Option ℕ)
    (calm : (n : ℕ) (ch : Characteristic) → client n ≡ some ch → KeepsValues ch.meanwhile) where
  -- The entry was passed over, or the value that it serves stands among the values.
  abbrev pub IsRead : Coordinator → Coordinator → WritableEntry → Type 0
  IsRead before c e =
      IsPassed ccm table client skip e
      ⊎ ((value : Bytes) × IsServed ccm table client skip before.bindkey before.address e value
          × (lookup e.entry c.values ≡ some value))

  pub elapse-Stays :
      (e : WritableEntry) (c : Coordinator) → Stays c (elapse ccm table client skip e c)
  unfolding elapse
  elapse-Stays e c = elim (Bool-cases (skips ccm table skip e)) [
    | inl skipped ↦ rw (skipped, elapse) (same c)
    | inr asked ↦ elim (Option-cases (client e.entry)) [
      | inl missing ↦ rw (asked, missing, elapse) (same c)
      | inr (ch, there) ↦ elim (Bool-cases ch.readable) [
        | inr write_only ↦ rw (asked, there, write_only, elapse) (same c)
        | inl readable ↦
            let k = calm e.entry ch there in
            rw (asked, there, readable, elapse)
              (record {
                same_key = k.keeps.same_key c;
                same_address = k.keeps.same_address c;
                same_values = k.same_values c;
                same_read = k.same_read c;
              })
      ]
    ]
  ]

  -- What an entry leaves to the rest of the loop.
  kept :
      (n : ℕ) (es : List WritableEntry) (failed changed : Bool) (c : Coordinator)
      → All (λ e. n < e.entry) es
      → lookup n (read_each ccm table client skip es failed changed c).0.values ≡ lookup n c.values
  unfolding read_each
  kept n [] failed changed c a = refl
  kept n (e ∷ es) failed changed c a =
      let c' = elapse ccm table client skip e c in
      let stays = ap (lookup n) (elapse-Stays e c).same_values in
      elim (Result-cases (read_entry ccm table c'.bindkey c'.address client skip e)) [
        | inl (passed, is) ↦ rw (is, read_each) (kept n es failed changed c' a.1 ∙ stays)
        | inl (unusable, is) ↦ rw (is, read_each) (kept n es true changed c' a.1 ∙ stays)
        | inl (reads value, is) ↦
            let other : (e.entry == n) ≡ false = ground (arith, a.0) in
            rw (is, read_each)
              (kept n es failed _ (record c' { values = store e.entry value c'.values }) a.1
                ∙ (lookup-store_other n e.entry value c'.values other ∙ stays))
        | inr (x, is) ↦ rw (is, read_each) (ap (lookup n) (raises-values ccm table x c') ∙ stays)
      ]

  -- What is read of a later state is read of this one.
  earlier :
      (c c' end : Coordinator)
      → c'.bindkey ≡ c.bindkey
      → c'.address ≡ c.address
      → (es : List WritableEntry) → All (IsRead c' end) es
      → All (IsRead c end) es
  earlier c c' end key address es a =
      subst
        (λ k.
          All
            (λ e.
              IsPassed ccm table client skip e
              ⊎ ((value : Bytes) × IsServed ccm table client skip k c.address e value
                  × (lookup e.entry end.values ≡ some value)))
            es)
        key
        (subst
          (λ m.
            All
              (λ e.
                IsPassed ccm table client skip e
                ⊎ ((value : Bytes) × IsServed ccm table client skip c'.bindkey m e value
                    × (lookup e.entry end.values ≡ some value)))
              es)
          address a)

  -- A loop that ends well has met nothing unusable and has read every entry.
  read_each-IsRead :
      (es : List WritableEntry) (failed changed : Bool) (c : Coordinator)
      → Ascending es
      → (read_each ccm table client skip es failed changed c).2 ≡ ok true
      → (failed ≡ false) × All (IsRead c (read_each ccm table client skip es failed changed c).0) es
  unfolding read_each
  read_each-IsRead [] true changed c a h = absurd (ok_false (unfold read_each in h))
  read_each-IsRead [] false changed c a h = (refl, tt)
  read_each-IsRead (e ∷ es) failed changed c a h =
      let c' = elapse ccm table client skip e c in
      let stays = elapse-Stays e c in
      let back = earlier c c' in
      elim (Result-cases (read_entry ccm table c'.bindkey c'.address client skip e)) [
        | inl (passed, is) ↦
            let step : read_each ccm table client skip (e ∷ es) failed changed c
                ≡ read_each ccm table client skip es failed changed c' =
              rw (is, read_each) in
            let (clean, rest) =
              read_each-IsRead es failed changed c' a.1 (sym (ap (λ r. r.2) step) ∙ h) in
            let came = read_entry-Came ccm table client skip _ _ e passed is in
            (
              clean,
              subst (λ r. All (IsRead c r.0) (e ∷ es)) (sym step)
                  (back (read_each ccm table client skip es failed changed c').0 stays.same_key
                    stays.same_address (e ∷ es) (inl came, rest)),
            )
        | inl (unusable, is) ↦
            let step : read_each ccm table client skip (e ∷ es) failed changed c
                ≡ read_each ccm table client skip es true changed c' =
              rw (is, read_each) in
            let (clean, rest) =
              read_each-IsRead es true changed c' a.1 (sym (ap (λ r. r.2) step) ∙ h) in
            absurd (true≢false clean)
        | inl (reads value, is) ↦
            let next : Coordinator = record c' { values = store e.entry value c'.values } in
            let known = changed || not (is_value (lookup e.entry c'.values) value) in
            let step : read_each ccm table client skip (e ∷ es) failed changed c
                ≡ read_each ccm table client skip es failed known next =
              rw (is, read_each) in
            let (clean, rest) =
              read_each-IsRead es failed known next a.1 (sym (ap (λ r. r.2) step) ∙ h) in
            let came = read_entry-Came ccm table client skip _ _ e (reads value) is in
            let stored =
              kept e.entry es failed known next a.0 ∙ lookup-store e.entry value c'.values in
            (
              clean,
              subst (λ r. All (IsRead c r.0) (e ∷ es)) (sym step)
                  (back (read_each ccm table client skip es failed known next).0 stays.same_key
                    stays.same_address (e ∷ es) (inr (value, came, stored), rest)),
            )
        | inr (x, is) ↦ absurd (err≢ok (rw (is, read_each) at h))
      ]

  -- A read of the entries that ends well leaves every entry, in ascending order, either passed over,
  -- because it was to be skipped or its characteristic is there and write-only, or with the value
  -- that its characteristic served: an object of its own type, in clear without a key and sealed
  -- under the key with one. What happens while the reads are awaited leaves the key and the values.
  pub read_entries-IsRead :
      (es : List WritableEntry) (c : Coordinator)
      → Ascending es
      → (read_entries ccm table client skip es c).1 ≡ ok true
      → All (IsRead c (read_entries ccm table client skip es c).0) es
  unfolding read_entries
  read_entries-IsRead es c a h =
      let reading = read_each ccm table client skip es false false c in
      let (clean, all) = read_each-IsRead es false false c a h in
      elim (Bool-cases reading.1) [
        | inl changed ↦ rw (changed, read_entries) all
        | inr same ↦ rw (same, read_entries) all
      ]
