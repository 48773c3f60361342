-- ===== src/Coordinator/Writing/Stages.antt =====
-- What may be written, and the parts of `_write_now` of
-- custom_components/bthome_writable/coordinator.py that write nothing.
use bthome_writable.Common.{
  ℕ, ◌<◌, ◌≡◌, refl, ◌⊎◌, inl, inr, Bool, true, false, Option, none, some, List, ◌∷◌, All,
  Bool-cases, Result-cases, if◌then◌else◌, ok, arith,
}
use bthome_writable.Protocol.Walk.{Bytes, Table}
use bthome_writable.Protocol.Declaration.{WritableEntry, Declaration, encode_object}
use bthome_writable.Protocol.Sealing.{Ccm, seal_write}
use bthome_writable.Coordinator.{
  Call, Call.writes_entry, Call.drops_table, Call.acknowledges, Call.saves_counter,
  Call.saves_declaration, Call.saves_sleepy_device, Call.asks_reauthentication, Call.starts_read,
  Call.clears_service_cache, Call.notifies, Call.holds_off, Call.fires_write, IsQuiet, Keeps,
  Coordinator, call, is_some, is_true, is_false, entry,
}
use bthome_writable.Coordinator.Counters.{adopt_counter}
use bthome_writable.Coordinator.Counters.Moves.{Onward, adopt_counter-Onward}
use bthome_writable.Coordinator.Reading.{Client, Characteristic, Attempt.connects, read_is_due}
use bthome_writable.Coordinator.Reading.Calls.{read_due_here-All}
use bthome_writable.Coordinator.Writing.{
  Report, Report.raises, Report.not_in_table, Report.report, Command, settle_written_value,
  unchanged_fails, ask_for_the_counter_here, conclude, missed,
}

module _ (ccm : Ccm) where
  -- What may be written to the entry: in clear to a device that has no key here and does not
  -- advertise encrypted, or sealed under the key and a counter above all so far.
  abbrev pub Allowed : Coordinator → Command → WritableEntry → Bytes → Type 0
  Allowed c w e payload =
      ((c.bindkey ≡ none)
        × (is_true c.advertises_encrypted ≡ false)
        × (payload ≡ encode_object e w.value))
      ⊎ ((key : Bytes) × (counter : ℕ) × (c.bindkey ≡ some key)
          × (is_false c.advertises_encrypted ≡ false)
          × (c.counter < counter)
          × (seal_write ccm (encode_object e w.value) key c.address counter ≡ ok payload))

  -- A write goes to the characteristic that the connection has for the entry declared under the
  -- command's number.
  abbrev pub Proper : Coordinator → Command → Call → Type 0
  Proper c w (writes_entry number payload) =
      (e : WritableEntry) × (client : Client) × (ch : Characteristic) × (entry c w.number ≡ some e)
      × (w.connection ≡ connects client)
      × (client e.entry ≡ some ch)
      × (number ≡ ch.number)
      × Allowed c w e payload
  Proper c w _ = Unit {0}

  pub quiet-Proper : (c : Coordinator) (w : Command) (x : Call) → IsQuiet x → Proper c w x
  quiet-Proper c w (writes_entry number payload) q = absurd q
  quiet-Proper c w (saves_counter n) q = tt
  quiet-Proper c w (saves_declaration d) q = tt
  quiet-Proper c w (saves_sleepy_device b) q = tt
  quiet-Proper c w asks_reauthentication q = tt
  quiet-Proper c w starts_read q = tt
  quiet-Proper c w clears_service_cache q = tt
  quiet-Proper c w drops_table q = tt
  quiet-Proper c w notifies q = tt
  quiet-Proper c w holds_off q = tt
  quiet-Proper c w acknowledges q = tt
  quiet-Proper c w fires_write q = tt

  module _ (table : Table) (offered_entries : Declaration → List WritableEntry) (b c : Coordinator)
      (w : Command) where
    missed-Onward :
        (dropped : Bool)
        → All (Proper b w) c.calls
        → Onward (Proper b w) c (missed dropped (call drops_table c))
    unfolding missed
    missed-Onward false a = record {
      up = omega arith;
      same_key = refl;
      same_address = refl;
      proper = (tt, a);
    }
    missed-Onward true a = record {
      up = omega arith;
      same_key = refl;
      same_address = refl;
      proper = (tt, a);
    }

    pub ask-Onward :
        (reported : Report) (key : Option Bytes)
        → All (Proper b w) c.calls
        → Onward
            (Proper b w)
            c
            (ask_for_the_counter_here ccm table offered_entries w.challenge reported key c).0
    unfolding ask_for_the_counter_here
    ask-Onward raises key a = record {
      up = omega arith;
      same_key = refl;
      same_address = refl;
      proper = a;
    }
    ask-Onward not_in_table key a = missed-Onward c.counter_table_dropped a
    ask-Onward (report sealed) none a = record {
      up = omega arith;
      same_key = refl;
      same_address = refl;
      proper = a;
    }
    ask-Onward (report sealed) (some key) a =
        let c' : Coordinator = record c {
          counter_table_dropped = false;
          offers_counter_report = some true;
        } in
        let o = adopt_counter-Onward (Proper b w) (λ n. tt) ccm sealed w.challenge key c' a in
        elim (Result-cases (adopt_counter ccm sealed w.challenge key c').1) [
          | inl (adopted, is) ↦
              rw (is, ask_for_the_counter_here)
                (record {
                  up = o.up;
                  same_key = o.same_key;
                  same_address = o.same_address;
                  proper = o.proper;
                })
          | inr (x, is) ↦
              rw (is, ask_for_the_counter_here)
                (record {
                  up = o.up;
                  same_key = o.same_key;
                  same_address = o.same_address;
                  proper = o.proper;
                })
        ]

    settle-All :
        (number : ℕ) (value : Bytes) (reported previous : Option Bytes) (coalesce : Bool)
        (c' : Coordinator)
        → All (Proper b w) c'.calls
        → All (Proper b w) (settle_written_value number value reported previous coalesce c').0.calls
    unfolding settle_written_value
    settle-All number value reported previous false c' a = a
    settle-All number value reported previous true c' a =
        elim (Bool-cases (unchanged_fails value reported previous)) [
          | inl fails ↦ rw (fails, settle_written_value) a
          | inr keeps ↦ rw (keeps, settle_written_value) a
        ]

    pub conclude-All :
        (later : Client) (reported previous : Option Bytes) (c' : Coordinator)
        → ((n : ℕ) (ch : Characteristic) → later n ≡ some ch → Keeps ch.meanwhile)
        → All (Proper b w) c'.calls
        → All (Proper b w) (conclude ccm table offered_entries w later reported previous c').0.calls
    unfolding conclude
    conclude-All later reported previous c' calm a =
        let settled = settle_written_value w.number w.value reported previous w.coalesce c' in
        let s = settle-All w.number w.value reported previous w.coalesce c' a in
        let told : Coordinator = record (settled.0) { calls = acknowledges ∷ settled.0.calls } in
        let skip = if is_some reported then some w.number else none in
        elim (Result-cases settled.1) [
          | inr (x, is) ↦ rw (is, conclude) s
          | inl (done, is) ↦ elim (Bool-cases (read_is_due ccm table told)) [
            | inr idle ↦ rw (is, idle, conclude) (tt, (tt, s))
            | inl due ↦
                rw (is, due, conclude)
                  (
                    tt,
                    read_due_here-All ccm table (Proper b w) (quiet-Proper b w) later skip calm
                        offered_entries w.now told (tt, s),
                  )
          ]
        ]
