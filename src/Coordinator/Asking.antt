-- ===== src/Coordinator/Asking.antt =====
-- The counter question over a connection of its own, and the housekeeping of a device:
-- `async_sync_write_counter`, `_counter_report`, `_connect`, `async_ask_the_counter_on_the_next_write`,
-- `async_clear_service_cache`, `async_set_unavailable` and `_check_mtu` of
-- custom_components/bthome_writable/coordinator.py. What the host and the device do is a parameter;
-- the right to connect is the gate of slots.py.
pub mod Learned
pub mod Examples
use bthome_writable.Common.{
  ℕ, ◌-◌, Bool, true, false, not, ◌||◌, ◌&&◌, Option, none, some, if◌then◌else◌, ltb, leb, Result,
  ok, err, Error, gatt_error, write_failed,
}
use bthome_writable.Protocol.Const.{default_mtu_payload, att_write_overhead, comfortable_mtu}
use bthome_writable.Protocol.Walk.{Bytes}
use bthome_writable.Protocol.Sealing.{Ccm}
use bthome_writable.Coordinator.{
  Call.drops_table, Call.holds_off, Call.notifies, Coordinator, call, is_some, is_false,
}
use bthome_writable.Coordinator.Counters.{adopt_counter}
use bthome_writable.Coordinator.Reading.{
  Attempt, Attempt.out_of_slots, Attempt.refused, Attempt.connects, Client,
}
use bthome_writable.Coordinator.Writing.{Report, raises, not_in_table, report}

-- One connection for the question: what else happens to the coordinator while it is awaited, how it
-- is made, and what the exchange on it comes to.
pub record Look : Type 0 where
  pub meanwhile : Coordinator → Coordinator
  pub connection : Attempt
  pub reported : Report

unfoldable pub async_ask_the_counter_on_the_next_write : Coordinator → Coordinator
async_ask_the_counter_on_the_next_write c =
    if not (is_some c.bindkey) || is_false c.offers_counter_report
    then c
    else record c { resync_counter = true }

-- `_connect`: the host is told when it has no slot left, and the error goes on.
unfoldable pub connect : Attempt → Coordinator → Coordinator × Result Client
connect out_of_slots c = (call holds_off c, err gatt_error)
connect refused c = (c, err gatt_error)
connect (connects client) c = (c, ok client)

unfoldable pub counter_report : Report → Coordinator → Coordinator × Result (Option Bytes)
counter_report raises c = (c, err gatt_error)
counter_report not_in_table c = (call drops_table c, ok none)
counter_report (report sealed) c = (c, ok (some sealed))

-- One turn of the loop over the attempts.
unfoldable pub look_at : Look → Coordinator → Coordinator × Result (Option Bytes)
look_at look c =
    let (c', connected) = connect look.connection (look.meanwhile c) in
    elim connected [ err e ↦ (c', err e) | ok client ↦ counter_report look.reported c' ]

module _ (ccm : Ccm) (challenge bindkey : Bytes) where
  unfoldable pub answered : Bytes → Coordinator → Coordinator × Result (Option ℕ)
  answered sealed c =
      adopt_counter ccm sealed challenge bindkey (record c { offers_counter_report = some true })

  -- What follows the second attempt, and the first.
  unfoldable pub after_second :
      Coordinator → Result (Option Bytes) → Coordinator × Result (Option ℕ)
  after_second c (err e) = (c, err e)
  after_second c (ok none) = (record c { offers_counter_report = some false }, ok none)
  after_second c (ok (some sealed)) = answered sealed c

  unfoldable pub after_first :
      Look → Coordinator → Result (Option Bytes) → Coordinator × Result (Option ℕ)
  after_first second c (err e) = (c, err e)
  after_first second c (ok none) = let (c', seen) = look_at second c in after_second c' seen
  after_first second c (ok (some sealed)) = answered sealed c

  unfoldable pub looks : Look → Look → Coordinator → Coordinator × Result (Option ℕ)
  looks first second c = let (c', seen) = look_at first c in after_first second c' seen

unfoldable pub sync_under :
    Ccm → Option Bytes → Bool → Bytes → Look → Look → Coordinator → Coordinator × Result (Option ℕ)
sync_under ccm none reachable challenge first second c = (c, ok none)
sync_under ccm (some bindkey) reachable challenge first second c =
    if not reachable then (c, ok none) else looks ccm challenge bindkey first second c

-- `reachable`: the stack knows the device. `challenge`: fresh random bytes.
unfoldable pub async_sync_write_counter :
    Ccm → Bool → Bytes → Look → Look → Coordinator → Coordinator × Result (Option ℕ)
async_sync_write_counter ccm reachable challenge first second c =
    sync_under ccm c.bindkey reachable challenge first second c

-- `cleared`: what `clear_cache` of the connection comes to.
unfoldable pub async_clear_service_cache :
    Bool → Attempt → Result (Unit {0}) → Coordinator → Coordinator × Result (Unit {0})
async_clear_service_cache reachable connection cleared c =
    if not reachable
    then (c, ok tt)
    else let (c', connected) = connect connection c in
      elim connected [ err e ↦ (c', err e) | ok client ↦ (call drops_table c', cleared) ]

unfoldable pub async_set_unavailable : Coordinator → Coordinator
async_set_unavailable c = call notifies (record c { available = false })

-- What `_check_mtu` puts in the log about a write.
pub data MtuNote : Type 0 where
  silent too_large may_not_fit : MtuNote

-- `mtu`: what the client reads once it has asked for it, if it can say.
unfoldable pub check_mtu : ℕ → Option ℕ → MtuNote
check_mtu size mtu = if leb size default_mtu_payload then silent else elim mtu [
  | none ↦ silent
  | some m ↦
      if ltb (m - att_write_overhead) size
      then too_large
      else if ltb m comfortable_mtu
      then may_not_fit
      else silent
]
