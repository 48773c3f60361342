-- ===== src/Coordinator/Reading/Due.antt =====
-- The read that a command carries: `_read_due_here` of
-- custom_components/bthome_writable/coordinator.py.
use bthome_writable.Common.{
  ℕ, ◌≡◌, refl, sym, subst, ◌∙◌, ◌⊎◌, inl, inr, Bool, true, false, Option, some, List, [], ◌∷◌, All,
  Bool-cases, Result-cases, Error,
}
use bthome_writable.Protocol.Walk.{Table}
use bthome_writable.Protocol.Declaration.{WritableEntry, Declaration}
use bthome_writable.Protocol.Sealing.{Ccm}
use bthome_writable.Coordinator.{Coordinator, KeepsValues}
use bthome_writable.Coordinator.Reading.{
  Client, Characteristic, elapse, EntryRead.passed, EntryRead.unusable, EntryRead.reads, store,
  is_stale_table, raises, read_entry, read_each, read_entries, record_read, read_due_of,
  read_due_here,
}
use bthome_writable.Coordinator.Reading.Complete.{
  Ascending, elapse-Stays, IsRead, read_entries-IsRead,
}

module _ (ccm : Ccm) (table : Table) (client : Client) (skip : Option ℕ)
    (calm : (n : ℕ) (ch : Characteristic) → client n ≡ some ch → KeepsValues ch.meanwhile) where
  raises-revision_read :
      (x : Error) (c : Coordinator) → (raises ccm table x c).revision_read ≡ c.revision_read
  unfolding raises
  raises-revision_read x c = elim (Bool-cases (is_stale_table ccm table x)) [
    | inl stale ↦ rw stale
    | inr other ↦ rw other
  ]

  read_each-revision_read :
      (es : List WritableEntry) (failed changed : Bool) (c : Coordinator)
      → (read_each ccm table client skip es failed changed c).0.revision_read ≡ c.revision_read
  unfolding read_each
  read_each-revision_read [] failed changed c = refl
  read_each-revision_read (e ∷ es) failed changed c =
      let c' = elapse ccm table client skip e c in
      let stays = (elapse-Stays ccm table client skip calm e c).same_read in
      elim (Result-cases (read_entry ccm table c'.bindkey c'.address client skip e)) [
        | inl (passed, is) ↦
            rw (is, read_each) (read_each-revision_read es failed changed c' ∙ stays)
        | inl (unusable, is) ↦
            rw (is, read_each) (read_each-revision_read es true changed c' ∙ stays)
        | inl (reads value, is) ↦
            rw (is, read_each)
              (read_each-revision_read es failed _
                  (record c' { values = store e.entry value c'.values })
                ∙ stays)
        | inr (x, is) ↦ rw (is, read_each) (raises-revision_read x c' ∙ stays)
      ]

  read_entries-revision_read :
      (es : List WritableEntry) (c : Coordinator)
      → (read_entries ccm table client skip es c).0.revision_read ≡ c.revision_read
  unfolding read_entries
  read_entries-revision_read es c =
      let same = read_each-revision_read es false false c in
      elim (Bool-cases (read_each ccm table client skip es false false c).1) [
        | inl changed ↦ rw (changed, read_entries) same
        | inr quiet ↦ rw (quiet, read_entries) same
      ]

  -- The revision counts as read and every entry was read, or the failure is noted.
  abbrev pub Sound : ℕ → List WritableEntry → Coordinator → Coordinator → Type 0
  Sound now es c c' =
      ((c'.revision_read ≡ c.revision_advertised) × All (IsRead ccm table client skip calm c c') es)
      ⊎ ((c'.revision_read ≡ c.revision_read) × (c'.read_failed_at ≡ some now))

  module _ (offered_entries : Declaration → List WritableEntry) where
    read_due_of-Sound :
        (now : ℕ) (c : Coordinator) (d : Declaration)
        → Ascending (offered_entries d)
        → Sound now
            (offered_entries d)
            c
            (read_due_of ccm table offered_entries now client skip (some d) c)
    unfolding read_due_of record_read
    read_due_of-Sound now c d a =
        let began : Coordinator = record c { reading = true; read_connected = true } in
        let es = offered_entries d in
        let result = (read_entries ccm table client skip es began).1 in
        let same = read_entries-revision_read es began in
        elim (Result-cases result) [
          | inl (true, done) ↦
              rw (done, record_read)
                (inl (refl, read_entries-IsRead ccm table client skip calm es began a done))
          | inl (false, done) ↦ rw (done, record_read) (inr (same, refl))
          | inr (x, failed) ↦ rw (failed, record_read) (inr (same, refl))
        ]

    -- When a read is carried by a command's connection, the revision that was advertised when it began
    -- counts as read only if every entry offered, in ascending order, was read or passed over: each
    -- shows the value that its characteristic served, or was the one to skip, or is write-only. Else
    -- the revision read stays and the failure is noted. What happens while the reads are awaited
    -- leaves the key and the values; the revision advertised may move meanwhile.
    pub read_due_here-Sound :
        (now : ℕ) (c : Coordinator) (d : Declaration)
        → c.declaration ≡ some d
        → Ascending (offered_entries d)
        → Sound now
            (offered_entries d)
            c
            (read_due_here ccm table offered_entries now client skip c)
    unfolding read_due_here
    read_due_here-Sound now c d declared a =
        subst
          (λ o.
            Sound now (offered_entries d) c
              (read_due_of ccm table offered_entries now client skip o c))
          (sym declared) (read_due_of-Sound now c d a)
