-- ===== src/Coordinator/Reading/Calls.antt =====
-- What the read side calls: nothing but the dropped table and the listeners.
use bthome_writable.Common.{
  ℕ, ◌≡◌, sym, subst, ◌++◌, Option-cases, Bool, true, false, Option, none, some, List, [], ◌∷◌, All,
  Bool-cases, inl, inr, Result-cases, Error,
}
use bthome_writable.Protocol.Walk.{Table}
use bthome_writable.Protocol.Declaration.{WritableEntry, Declaration}
use bthome_writable.Protocol.Sealing.{Ccm}
use bthome_writable.Coordinator.{Call, Call.drops_table, Call.notifies, IsQuiet, Keeps, Coordinator}
use bthome_writable.Coordinator.Reading.{
  Client, Characteristic, skips, elapse, EntryRead.passed, EntryRead.unusable, EntryRead.reads,
  store, is_stale_table, raises, read_entry, read_each, read_entries, record_read, read_due_of,
  read_due_here,
}

module _ (P : Call → Type 0) (silent : (x : Call) → IsQuiet x → P x) where
  quiet-All : (more calls : List Call) → All IsQuiet more → All P calls → All P (more ++ calls)
  quiet-All [] calls q a = a
  quiet-All (x ∷ more) calls q a = (silent x q.0, quiet-All more calls q.1 a)

  -- What happens meanwhile writes nothing.
  pub meanwhile-All :
      (meanwhile : Coordinator → Coordinator) (c : Coordinator)
      → Keeps meanwhile
      → All P c.calls
      → All P (meanwhile c).calls
  meanwhile-All meanwhile c k a =
      let q = k.quiet c in subst (All P) (sym q.1) (quiet-All q.0 c.calls q.2 a)

module _ (ccm : Ccm) (table : Table) (P : Call → Type 0) (silent : (x : Call) → IsQuiet x → P x)
    (client : Client) (skip : Option ℕ)
    (calm : (n : ℕ) (ch : Characteristic) → client n ≡ some ch → Keeps ch.meanwhile) where
  elapse-All :
      (e : WritableEntry) (c : Coordinator)
      → All P c.calls
      → All P (elapse ccm table client skip e c).calls
  unfolding elapse
  elapse-All e c a = elim (Bool-cases (skips ccm table skip e)) [
    | inl skipped ↦ rw (skipped, elapse) a
    | inr asked ↦ elim (Option-cases (client e.entry)) [
      | inl missing ↦ rw (asked, missing, elapse) a
      | inr (ch, there) ↦ elim (Bool-cases ch.readable) [
        | inr write_only ↦ rw (asked, there, write_only, elapse) a
        | inl readable ↦
            rw (asked, there, readable, elapse)
              (meanwhile-All P silent ch.meanwhile c (calm e.entry ch there) a)
      ]
    ]
  ]

  raises-All : (x : Error) (c : Coordinator) → All P c.calls → All P (raises ccm table x c).calls
  unfolding raises
  raises-All x c a = elim (Bool-cases (is_stale_table ccm table x)) [
    | inl stale ↦ rw (stale, raises) (silent drops_table tt, a)
    | inr other ↦ rw (other, raises) a
  ]

  read_each-All :
      (es : List WritableEntry) (failed changed : Bool) (c : Coordinator)
      → All P c.calls
      → All P (read_each ccm table client skip es failed changed c).0.calls
  unfolding read_each
  read_each-All [] failed changed c a = a
  read_each-All (e ∷ es) failed changed c a =
      let c' = elapse ccm table client skip e c in
      let b = elapse-All e c a in
      elim (Result-cases (read_entry ccm table c'.bindkey c'.address client skip e)) [
        | inl (passed, is) ↦ rw (is, read_each) (read_each-All es failed changed c' b)
        | inl (unusable, is) ↦ rw (is, read_each) (read_each-All es true changed c' b)
        | inl (reads value, is) ↦
            rw (is, read_each)
              (read_each-All es failed _ (record c' { values = store e.entry value c'.values }) b)
        | inr (x, is) ↦ rw (is, read_each) (raises-All x c' b)
      ]

  read_entries-All :
      (es : List WritableEntry) (c : Coordinator)
      → All P c.calls
      → All P (read_entries ccm table client skip es c).0.calls
  unfolding read_entries
  read_entries-All es c a =
      let all = read_each-All es false false c a in
      elim (Bool-cases (read_each ccm table client skip es false false c).1) [
        | inl changed ↦ rw (changed, read_entries) (silent notifies tt, all)
        | inr quiet ↦ rw (quiet, read_entries) all
      ]

  module _ (offered_entries : Declaration → List WritableEntry) where
    read_due_of-All :
        (now : ℕ) (d : Option Declaration) (c : Coordinator)
        → All P c.calls
        → All P (read_due_of ccm table offered_entries now client skip d c).calls
    unfolding read_due_of record_read
    read_due_of-All now none c a = a
    read_due_of-All now (some d) c a =
        let began : Coordinator = record c { reading = true; read_connected = true } in
        let all = read_entries-All (offered_entries d) began a in
        elim (Result-cases (read_entries ccm table client skip (offered_entries d) began).1) [
          | inl (true, is) ↦ rw (is, record_read) all
          | inl (false, is) ↦ rw (is, record_read) all
          | inr (x, is) ↦ rw (is, record_read) all
        ]

    pub read_due_here-All :
        (now : ℕ) (c : Coordinator)
        → All P c.calls
        → All P (read_due_here ccm table offered_entries now client skip c).calls
    unfolding read_due_here
    read_due_here-All now c a = read_due_of-All now c.declaration c a
