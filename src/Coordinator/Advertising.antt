-- ===== src/Coordinator/Advertising.antt =====
-- The advertising side: `async_handle_advertisement` and what it calls, of
-- custom_components/bthome_writable/coordinator.py. `last_service_info`, which only a flow of the
-- configuration reads, is left out.
pub mod Replay
pub mod Examples
use bthome_writable.Common.{
  ℕ, zero, suc, ◌+◌, ◌-◌, Bool, true, false, not, ◌&&◌, ◌||◌, Option, none, some, List, [], ◌∷◌,
  if◌then◌else◌, ltb, leb, ◌==◌, length, get_elem?, drop, Result, ok, err, protocol_error,
}
use bthome_writable.Common.Int.{ℤ, pos, negsuc}
use bthome_writable.Protocol.Const.{
  allow_counter_sync, authentication_failures_before_reauth, counter_restart_ceiling, read_retry,
}
use bthome_writable.Protocol.Walk.{Bytes, Table}
use bthome_writable.Protocol.Text.{Text}
use bthome_writable.Protocol.Declaration.{WritableEntry, Declaration, layout, parse_declaration}
use bthome_writable.Protocol.Sealing.{
  Ccm, is_encrypted, trigger_based, objects_at, advertising_counter, bytes_eq, decrypt_advertising,
}
use bthome_writable.Coordinator.{
  Call.saves_declaration, Call.saves_sleepy_device, Call.asks_reauthentication, Call.starts_read,
  Call.clears_service_cache, Call.notifies, Coordinator, call, is_some, is_true, is_false, int_eq,
  revision_eq,
}

pub notice_sleepy : Bool → Coordinator → Coordinator
notice_sleepy sleepy c =
    if (sleepy && c.sleepy_device) || (not sleepy && not c.sleepy_device)
    then c
    else call (saves_sleepy_device sleepy) (record c { sleepy_device = sleepy })

pub authentication_failed : Coordinator → Coordinator
authentication_failed c =
    let failures = c.authentication_failures + 1 in
    let c' = record c { bindkey_verified = some false; authentication_failures = failures } in
    if leb authentication_failures_before_reauth failures then call asks_reauthentication c' else c'

pub counter_increased : Bytes → Coordinator → Bool
counter_increased payload c = elim (advertising_counter payload) [
  | none ↦ true
  | some counter ↦
      not (is_true c.bindkey_verified)
      || (leb c.encryption_counter counter || ltb counter counter_restart_ceiling)
]

-- What a packet that opened leaves behind.
pub opened : Bytes → Coordinator → Coordinator
opened payload c =
    let c' = record c { bindkey_verified = some true; authentication_failures = 0 } in
    elim (advertising_counter payload) [
      | none ↦ c'
      | some counter ↦ record c' { encryption_counter = counter }
    ]

pub async_request_read : Coordinator → Coordinator
async_request_read c = if c.reading then c else call starts_read (record c { reading = true })

-- `READ_RETRY` has not passed since the last read that failed.
backing_off : ℕ → Option ℕ → Bool
backing_off now none = false
backing_off now (some at) = ltb (now - at) read_retry

-- Whether this revision, after the previous one, arms the counter question.
arms_counter_question : ℤ → Option ℤ → Coordinator → Bool
arms_counter_question revision none c = false
arms_counter_question revision (some previous) c =
    not (int_eq revision previous)
    && (allow_counter_sync && (is_some c.bindkey && not (is_false c.offers_counter_report)))

pub notice_revision : ℕ → Option ℤ → Coordinator → Coordinator
unfolding backing_off arms_counter_question
notice_revision now none c = c
notice_revision now (some revision) c =
    let armed = arms_counter_question revision c.revision_advertised c || c.resync_counter in
    let c' = record c { revision_advertised = some revision; resync_counter = armed } in
    if revision_eq (some revision) c.revision_read
    then c'
    else if backing_off now c.read_failed_at
    then c'
    else async_request_read c'

-- Whether the declaration is worth saving.
differs : Option Declaration → Declaration → Bool
differs none d = true
differs (some old) d =
    not (bytes_eq (layout old) (layout d))
    || not (revision_eq old.settings_revision d.settings_revision)

layout_changed : Option Declaration → Declaration → Bool
layout_changed none d = false
layout_changed (some old) d = not (bytes_eq (layout d) (layout old))

-- The last part of `async_handle_advertisement`: the packet carried this declaration.
pub adopt_declaration : ℕ → Declaration → Coordinator → Coordinator
unfolding differs layout_changed
adopt_declaration now d c =
    let changed = layout_changed c.declaration d in
    let cleared = if changed then call clears_service_cache (record c { values = [] }) else c in
    let replaced = record cleared { declaration = some d } in
    let saved = if differs c.declaration d then call (saves_declaration d) replaced else replaced in
    call notifies (notice_revision now d.settings_revision saved)

module _ (ccm : Ccm) where
  -- `_plaintext` of a sealed packet, with the key held.
  pub unseal : Option Bytes → Bytes → Coordinator → Coordinator × Result (Option Bytes)
  unseal none payload c = (authentication_failed c, ok none)
  unseal (some bindkey) payload c =
      if not (counter_increased payload c)
      then (c, ok none)
      else elim (decrypt_advertising ccm payload bindkey c.address) [
        | err e ↦ (c, err e)
        | ok none ↦ (authentication_failed c, ok none)
        | ok (some objects) ↦ (opened payload c, ok (some objects))
      ]

  pub plaintext : Bytes → Coordinator → Coordinator × Result (Option Bytes)
  plaintext payload c =
      let c' = record c { advertises_encrypted = some (is_encrypted payload) } in
      if not (is_encrypted payload)
      then (c', ok (some (drop (objects_at payload) payload)))
      else unseal c.bindkey payload c'

  module _ (table : Table) where
    -- What the object stream of a packet changes. A parse that fails for another reason than
    -- `ProtocolError` raises out of the handler.
    pub absorb : ℕ → Bytes → Coordinator → Coordinator × Result (Unit {0})
    absorb now objects c = elim (parse_declaration table objects) [
      | err protocol_error ↦ (c, ok tt)
      | err e ↦ (c, err e)
      | ok parsed ↦
          let c' = record c { available = true; advertisements = c.advertisements + 1 } in
          elim parsed [
            | none ↦ (call notifies c', ok tt)
            | some d ↦ (adopt_declaration now d c', ok tt)
          ]
    ]

    -- `service_info` is the BTHome service data, empty when there is none.
    pub async_handle_advertisement : ℕ → Bytes → Coordinator → Coordinator × Result (Unit {0})
    async_handle_advertisement now [] c = (c, ok tt)
    async_handle_advertisement now (b ∷ rest) c =
        let (c', objects) = plaintext (b ∷ rest) (notice_sleepy (trigger_based (b ∷ rest)) c) in
        elim objects [
          | err e ↦ (c', err e)
          | ok none ↦ (c', ok tt)
          | ok (some stream) ↦ absorb now stream c'
        ]
