-- ===== src/Coordinator/Reading.antt =====
-- The read side: `_open_read`, `_read_entries`, `_revision_is_read`, `_read_is_due`,
-- `_read_due_here`, `_read_pass`, `async_read_all` and `_read_loop` of
-- custom_components/bthome_writable/coordinator.py. A connection is a parameter: what it answers.
pub mod Served
pub mod Values
pub mod Complete
pub mod Due
pub mod Loop
pub mod Calls
pub mod Examples
use bthome_writable.Common.{
  ℕ, ◌≡◌, Bool, true, false, not, ◌&&◌, ◌||◌, Option, none, some, List, [], ◌∷◌, if◌then◌else◌,
  ◌==◌, Result, ok, err, Error, protocol_error, stale_entry, stale_table, gatt_error,
}
use bthome_writable.Common.Int.{ℤ}
use bthome_writable.Protocol.Walk.{Bytes, Table}
use bthome_writable.Protocol.Text.{Text}
use bthome_writable.Protocol.Declaration.{WritableEntry, Declaration, decode_object}
use bthome_writable.Protocol.Sealing.{Ccm, open_read, bytes_eq}
use bthome_writable.Coordinator.{
  Call.notifies, Call.drops_table, Call.holds_off, Coordinator, call, is_some, revision_eq, lookup,
  put_value,
}

-- A characteristic: its number, whether it can be read, what a read of it brings, none where it
-- raises, and what else happens to the coordinator while a read of it is awaited.
pub record Characteristic : Type 0 where
  pub number : ℕ
  pub meanwhile : Coordinator → Coordinator
  pub readable : Bool
  pub content : Option Bytes

-- `client.services.get_characteristic`, by the entry's number, which the UUID is made of.
abbrev pub Client : Type 0
Client = ℕ → Option Characteristic

-- What `_connect` comes to: no slot on any adapter, another refusal, or a link.
pub data Attempt : Type 0 where
  out_of_slots refused : Attempt
  connects : Client → Attempt

-- What one entry comes to: nothing to read, an answer that is of no use, or a value.
pub data EntryRead : Type 0 where
  passed unusable : EntryRead
  reads : Bytes → EntryRead

pub is_value : Option Bytes → Bytes → Bool
is_value none value = false
is_value (some known) value = bytes_eq known value

-- The values once this one is known for the entry.
pub store : ℕ → Bytes → List (ℕ × Bytes) → List (ℕ × Bytes)
store number value values =
    if is_value (lookup number values) value then values else put_value number value values

-- `except ProtocolError`, of `_open_read`.
abbrev pub usable : Result Bytes → Result (Option Bytes)
usable (ok value) = ok (some value)
usable (err protocol_error) = ok none
usable (err other) = err other

-- What the key makes of a read: its plaintext, if it authenticates.
abbrev pub authentic : Result (Option Bytes) → Result (Option Bytes)
authentic (err protocol_error) = ok none
authentic other = other

-- What the answer to a read comes to in the loop of `_read_entries`.
abbrev pub opened_entry : Result (Option Bytes) → Result EntryRead
opened_entry (err stale_entry) = err stale_table
opened_entry (err other) = err other
opened_entry (ok none) = ok unusable
opened_entry (ok (some value)) = ok (reads value)

module _ (ccm : Ccm) (table : Table) where
  -- The last part of `_open_read`, on the opened bytes.
  pub decode_read : WritableEntry → Bytes → Result (Option Bytes)
  decode_read e plaintext = usable (decode_object table e plaintext)

  -- `_open_read`
  pub open_value : Option Bytes → Text → WritableEntry → Bytes → Result (Option Bytes)
  open_value none address e raw = decode_read e raw
  open_value (some bindkey) address e raw = elim (authentic (open_read ccm raw bindkey address)) [
    | err raised ↦ err raised
    | ok none ↦ ok none
    | ok (some plaintext) ↦ decode_read e plaintext
  ]

  -- `number` is the entry to skip.
  skips : Option ℕ → WritableEntry → Bool
  skips none e = false
  skips (some number) e = e.entry == number

  -- The body of the loop of `_read_entries`, up to what it stores.
  pub read_entry : Option Bytes → Text → Client → Option ℕ → WritableEntry → Result EntryRead
  unfolding skips
  read_entry bindkey address client skip e =
      if skips skip e then ok passed else elim (client e.entry) [
        | none ↦ err stale_table
        | some characteristic ↦
            if not characteristic.readable then ok passed else elim characteristic.content [
              | none ↦ err gatt_error
              | some raw ↦ opened_entry (open_value bindkey address e raw)
            ]
      ]

  -- The state once the read of this entry was awaited, if there is one to await.
  pub elapse : Client → Option ℕ → WritableEntry → Coordinator → Coordinator
  unfolding skips
  elapse client skip e c = if skips skip e then c else elim (client e.entry) [
    | none ↦ c
    | some characteristic ↦ if characteristic.readable then characteristic.meanwhile c else c
  ]

  is_stale_table : Error → Bool
  is_stale_table stale_table = true
  is_stale_table other = false

  -- The cached table is dropped before `StaleTable` is raised.
  pub raises : Error → Coordinator → Coordinator
  unfolding is_stale_table
  raises e c = if is_stale_table e then call drops_table c else c

  -- The loop of `_read_entries`: the state, whether a value changed, and how it ended.
  pub read_each :
      Client
      → Option ℕ
      → List WritableEntry
      → Bool
      → Bool
      → Coordinator
      → Coordinator × Bool × Result Bool
  read_each client skip [] failed changed c = (c, changed, ok (not failed))
  read_each client skip (e ∷ es) failed changed c =
      let c' = elapse client skip e c in
      elim (read_entry c'.bindkey c'.address client skip e) [
        | err e ↦ (raises e c', changed, err e)
        | ok passed ↦ read_each client skip es failed changed c'
        | ok unusable ↦ read_each client skip es true changed c'
        | ok (reads value) ↦
            read_each client skip es failed
              (changed || not (is_value (lookup e.entry c'.values) value))
              (record c' { values = store e.entry value c'.values })
      ]

  pub read_entries :
      Client → Option ℕ → List WritableEntry → Coordinator → Coordinator × Result Bool
  read_entries client skip entries c =
      let (c', changed, result) = read_each client skip entries false false c in
      (if changed then call notifies c' else c', result)

  pub revision_is_read : Coordinator → Bool
  revision_is_read c =
      is_some c.revision_advertised && revision_eq c.revision_advertised c.revision_read

  pub read_is_due : Coordinator → Bool
  read_is_due c =
      if not (is_some c.declaration) || c.read_connected
      then false
      else if not (is_some c.revision_advertised)
      then false
      else not (revision_eq c.revision_advertised c.revision_read)

  -- What a read that succeeded or failed leaves: `target` is the revision advertised when it began.
  pub record_read : ℕ → Option ℤ → Result Bool → Coordinator → Coordinator
  record_read now target (ok true) c = record c { revision_read = target; read_failed_at = none }
  record_read now target (ok false) c = record c { read_failed_at = some now }
  record_read now target (err e) c = record c { read_failed_at = some now }

  module _ (offered_entries : Declaration → List WritableEntry) where
    -- `_read_due_here`, of the declaration there is.
    pub read_due_of : ℕ → Client → Option ℕ → Option Declaration → Coordinator → Coordinator
    read_due_of now client skip none c = c
    read_due_of now client skip (some d) c =
        let (c', result) =
          read_entries client skip (offered_entries d)
            (record c { reading = true; read_connected = true }) in
        record_read now c.revision_advertised result
          (record c' { read_connected = false; reading = c.reading })

    pub read_due_here : ℕ → Client → Option ℕ → Coordinator → Coordinator
    read_due_here now client skip c = read_due_of now client skip c.declaration c

    -- `_read_pass`, with what it connects to.
    pub read_pass : Attempt → Declaration → Coordinator → Coordinator × Result Bool
    read_pass connection d c = if revision_is_read c then (c, ok true) else elim connection [
      | out_of_slots ↦ (call holds_off c, err gatt_error)
      | refused ↦ (c, err gatt_error)
      | connects client ↦
          let (c', result) =
            read_entries client none (offered_entries d) (record c { read_connected = true }) in
          (record c' { read_connected = false }, result)
    ]

    -- `async_read_all`, with what each of the two attempts connects to. `reachable`: an adapter or a
    -- proxy hears the device.
    pub async_read_all : Bool → Attempt → Attempt → Coordinator → Coordinator × Result Bool
    async_read_all reachable first second c = elim c.declaration [
      | none ↦ (c, ok false)
      | some d ↦
          if revision_is_read c
          then (c, ok true)
          else if not reachable
          then (c, ok false)
          else let (c', result) = read_pass first d c in
            elim result [
              | ok done ↦ (c', ok done)
              | err stale_table ↦
                  let (c'', again) = read_pass second d c' in
                  elim again [
                    | ok done ↦ (c'', ok done)
                    | err stale_table ↦ (c'', ok false)
                    | err other ↦ (c'', err other)
                  ]
              | err other ↦ (c', err other)
            ]
    ]

    -- One turn of `_read_loop`. `meanwhile` and `since` are what else happens to the coordinator
    -- before and after the connection, such as advertisements.
    pub record Round : Type 0 where
      pub now : ℕ
      pub reachable : Bool
      pub first : Attempt
      pub second : Attempt
      pub meanwhile : Coordinator → Coordinator
      pub since : Coordinator → Coordinator

    is_done : Result Bool → Bool
    is_done (ok done) = done
    is_done (err e) = false

    -- The turns there are, and whether the loop has ended.
    pub read_loop : List Round → Coordinator → Coordinator × Bool
    unfolding is_done
    read_loop [] c = (c, false)
    read_loop (r ∷ rounds) c =
        let (read, result) = async_read_all r.reachable r.first r.second (r.meanwhile c) in
        let c' = record_read r.now c.revision_advertised result (r.since read) in
        let more = read_loop rounds c' in
        if not (is_done result) || revision_eq c'.revision_advertised c'.revision_read
        then (record c' { reading = false }, true)
        else more
