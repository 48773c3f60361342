-- ===== src/Coordinator/Writing.antt =====
-- The write side: `_write_now`, `_ask_for_the_counter_here`, `_write_characteristic`, `_read_back`
-- and `_settle_written_value` of custom_components/bthome_writable/coordinator.py, with the flags of
-- const.py as they stand. What the host and the device do is a parameter, and so is what else happens
-- to the coordinator while a call of theirs is awaited. `_check_mtu` only logs.
pub mod Stages
pub mod Sealed
pub mod Examples
use bthome_writable.Common.{
  ℕ, ◌+◌, Bool, true, false, not, ◌&&◌, Option, none, some, List, [], ◌∷◌, if◌then◌else◌, ltb, ◌==◌,
  Result, ok, err, Error, stale_entry, write_failed, gatt_error, assertion_error,
}
use bthome_writable.Protocol.Const.{
  allow_plaintext_downgrade, an_unchanged_entry_fails_the_write, fold_a_due_read_into_a_write,
  confirm_writes_by_reading_back,
}
use bthome_writable.Protocol.Walk.{Bytes, Table}
use bthome_writable.Protocol.Declaration.{WritableEntry, Declaration, encode_object}
use bthome_writable.Protocol.Sealing.{Ccm, seal_write, bytes_eq}
use bthome_writable.Coordinator.{
  Call.drops_table, Call.writes_entry, Call.holds_off, Call.acknowledges, Call.fires_write,
  Coordinator, call, is_some, is_true, is_false, lookup, put_value, entry,
}
use bthome_writable.Coordinator.Counters.{next_write_counter, adopt_counter}
use bthome_writable.Coordinator.Reading.{
  Attempt, Attempt.out_of_slots, Attempt.refused, Attempt.connects, Client, Characteristic,
  is_value, open_value, read_is_due, read_due_here,
}

-- What the question for the counter comes to: the exchange raises, the characteristic is not in the
-- table, or the sealed report.
pub data Report : Type 0 where
  raises not_in_table : Report
  report : Bytes → Report

-- One command and its circumstances. `later` is what the characteristics bring after the read back.
-- `crowded`: the other connections in use or waited for.
-- `accepted`: what the write with response comes to. `now`: when a carried read ends. `linking`,
-- `asking`, `writing`: what else happens while the link, the report and the response are awaited.
pub record Command : Type 0 where
  pub number : ℕ
  pub value : Bytes
  pub coalesce : Bool
  pub reachable : Bool
  pub connection : Attempt
  pub later : Client
  pub crowded : ℕ
  pub challenge : Bytes
  pub reported : Report
  pub accepted : Result (Unit {0})
  pub now : ℕ
  pub linking : Coordinator → Coordinator
  pub asking : Coordinator → Coordinator
  pub writing : Coordinator → Coordinator

-- The value to keep, of what the device reports and reported before.
pub kept_value : Bytes → Option Bytes → Option Bytes → Bytes
kept_value value none previous = value
kept_value value (some reported) previous =
    if not (bytes_eq reported value) && is_value previous reported then value else reported

-- Whether the command fails because the device still reports the value it had.
pub unchanged_fails : Bytes → Option Bytes → Option Bytes → Bool
unchanged_fails value none previous = false
unchanged_fails value (some reported) previous =
    an_unchanged_entry_fails_the_write
    && (not (bytes_eq reported value) && is_value previous reported)

pub settle_written_value :
    ℕ → Bytes → Option Bytes → Option Bytes → Bool → Coordinator → Coordinator × Result (Unit {0})
settle_written_value number value reported previous false c = (c, ok tt)
settle_written_value number value reported previous true c =
    if unchanged_fails value reported previous then (c, err write_failed) else (
      record c { values = put_value number (kept_value value reported previous) c.values },
      ok tt,
    )

-- The characteristic was not in the table: the first miss, and a later one.
pub missed : Bool → Coordinator → Coordinator
missed false c = record c { counter_table_dropped = true }
missed true c = record c { offers_counter_report = some false; resync_counter = false }

module _ (ccm : Ccm) (table : Table) (offered_entries : Declaration → List WritableEntry) where
  pub ask_for_the_counter_here :
      Bytes → Report → Option Bytes → Coordinator → Coordinator × Result (Unit {0})
  ask_for_the_counter_here challenge raises bindkey c = (c, ok tt)
  ask_for_the_counter_here challenge not_in_table bindkey c =
      (missed c.counter_table_dropped (call drops_table c), ok tt)
  ask_for_the_counter_here challenge (report sealed) none c = (
    record c { counter_table_dropped = false; offers_counter_report = some true },
    err assertion_error,
  )
  ask_for_the_counter_here challenge (report sealed) (some bindkey) c =
      let answered = record c {
        counter_table_dropped = false;
        offers_counter_report = some true;
      } in
      let (c', adopted) = adopt_counter ccm sealed challenge bindkey answered in
      elim adopted [
        | err x ↦ (c', err x)
        | ok counter ↦ (record c' { resync_counter = false }, ok tt)
      ]

  ask_if : Bool → Command → Coordinator → Coordinator × Result (Unit {0})
  ask_if true w c =
      let c' = w.asking c in ask_for_the_counter_here w.challenge w.reported c'.bindkey c'
  ask_if false w c = (c, ok tt)

  -- `payload` of `_write_now`.
  pub protect : Option Bytes → Bytes → Coordinator → Coordinator × Result Bytes
  protect none plain c = (c, ok plain)
  protect (some bindkey) plain c =
      let (c', counter) = next_write_counter c in
      (c', seal_write ccm plain bindkey c.address counter)

  is_stale_entry : Error → Bool
  is_stale_entry stale_entry = true
  is_stale_entry other = false

  -- `except StaleEntry` of `_read_back`.
  pub stale_fails : Error → Coordinator → Coordinator × Result (Option Bytes)
  unfolding is_stale_entry
  stale_fails x c = if is_stale_entry x then (call drops_table c, err write_failed) else (c, err x)

  -- The read of `_read_back`, once it was awaited.
  pub answered : WritableEntry → Option Bytes → Coordinator → Coordinator × Result (Option Bytes)
  answered e none c = (c, err gatt_error)
  answered e (some raw) c = elim (open_value ccm table c.bindkey c.address e raw) [
    | err x ↦ stale_fails x c
    | ok reported ↦ (c, ok reported)
  ]

  -- What the device reports for the entry, on the link of the write.
  pub read_back : WritableEntry → Client → Coordinator → Coordinator × Result (Option Bytes)
  read_back e client c =
      if not confirm_writes_by_reading_back then (c, ok none) else elim (client e.entry) [
        | none ↦ (c, ok none)
        | some characteristic ↦
            if not characteristic.readable
            then (c, ok none)
            else answered e characteristic.content (characteristic.meanwhile c)
      ]

  -- The rest of `_write_now` once the device has answered the read back.
  pub conclude :
      Command → Client → Option Bytes → Option Bytes → Coordinator → Coordinator × Result (Unit {0})
  conclude w later reported previous c =
      let (c', settled) = settle_written_value w.number w.value reported previous w.coalesce c in
      elim settled [
        | err x ↦ (c', err x)
        | ok done ↦
            let told = call acknowledges c' in
            let skip = if is_some reported then some w.number else none in
            let read = read_due_here ccm table offered_entries w.now later skip told in
            (
              call fires_write (
                  if fold_a_due_read_into_a_write && read_is_due ccm table told
                  then read
                  else told),
              ok tt,
            )
      ]

  -- `_write_characteristic` and what follows it.
  pub deliver :
      Command
      → WritableEntry
      → Option Bytes
      → Client
      → Client
      → Bytes
      → Coordinator
      → Coordinator × Result (Unit {0})
  deliver w e previous client later payload c = elim (client e.entry) [
    | none ↦ (call drops_table c, err write_failed)
    | some characteristic ↦
        let sent = w.writing (call (writes_entry characteristic.number payload) c) in
        elim w.accepted [
          | err x ↦ (sent, err x)
          | ok done ↦
              let (c', reported) = read_back e client sent in
              elim reported [ err x ↦ (c', err x) | ok value ↦ conclude w later value previous c' ]
        ]
  ]

  -- On the link, once the question for the counter has been asked.
  pub send_under :
      Command
      → WritableEntry
      → Option Bytes
      → Client
      → Client
      → Option Bytes
      → Coordinator
      → Coordinator × Result (Unit {0})
  send_under w e previous client later key c =
      let (c', sealed) = protect key (encode_object e w.value) c in
      elim sealed [
        | err x ↦ (c', err x)
        | ok payload ↦ deliver w e previous client later payload c'
      ]

  pub over_link : Command → WritableEntry → Attempt → Coordinator → Coordinator × Result (Unit {0})
  over_link w e out_of_slots c = (call holds_off (w.linking c), err write_failed)
  over_link w e refused c =
      (w.linking c, err (if ltb 0 w.crowded then write_failed else gatt_error))
  over_link w e (connects client) c =
      let ready = w.linking c in
      let (c', asked) = ask_if ready.resync_counter w ready in
      elim asked [
        | err x ↦ (c', err x)
        | ok done ↦ send_under w e (lookup w.number c.values) client w.later c'.bindkey c'
      ]

  pub write_entry : Command → Option WritableEntry → Coordinator → Coordinator × Result (Unit {0})
  write_entry w none c = (c, err write_failed)
  write_entry w (some e) c = over_link w e w.connection c

  pub write_now : Command → Coordinator → Coordinator × Result (Unit {0})
  write_now w c =
      if is_some c.bindkey && (is_false c.advertises_encrypted && not allow_plaintext_downgrade)
      then (c, err write_failed)
      else if not (is_some c.bindkey) && is_true c.advertises_encrypted
      then (c, err write_failed)
      else if not (is_some c.declaration)
      then (c, err write_failed)
      else if not w.reachable
      then (c, err write_failed)
      else write_entry w (entry c w.number) c
