-- ===== src/ConfigFlow/Steps.antt =====
-- The steps of `BTHomeWritableConfigFlow`, and how Home Assistant goes from one to the next: it hands
-- what the user enters to the step whose form is shown. `claimed` is why Home Assistant itself ends
-- the flow once it has the device's unique id, if it does.
use bthome_writable.Common.{
  Bool, true, false, not, Option, none, some, String, List, [], ◌∷◌, if◌then◌else◌, Result, ok, err,
  assertion_error, key_error,
}
use bthome_writable.Protocol.Walk.{Bytes, Table}
use bthome_writable.Protocol.Text.{Text}
use bthome_writable.Protocol.Declaration.{WritableEntry, Declaration}
use bthome_writable.Protocol.Sealing.{Ccm, bytes_eq}
use bthome_writable.ConfigFlow.{
  Discovery, strip, without_separators, parse_bindkey, needs_bindkey, declaration_from,
}

pub record Flow : Type 0 where
  pub discovery : Option Discovery
  pub declaration : Option Declaration
  pub bindkey : Option Bytes
  pub candidates : List (Text × Discovery)

unfoldable pub init : Flow
init = record { discovery = none; declaration = none; bindkey = none; candidates = [] }

-- A form, with the error beside its field, or the end of the flow: an abort, a new entry with its
-- key, or an existing entry with its key changed.
pub data Answer : Type 0 where
  aborts : String → Answer
  asks_key asks_reconfigure : Option String → Answer
  asks_confirm asks_device : Answer
  creates updates : Option Bytes → Answer

abbrev pub is_empty {ℓ} : {A : Type ℓ} → List A → Bool
is_empty [] = true
is_empty (x ∷ xs) = false

-- The first discovery of an address.
unfoldable pub find_address : Text → List Discovery → Option Discovery
find_address address [] = none
find_address address (d ∷ air) =
    let rest = find_address address air in if bytes_eq d.address address then some d else rest

abbrev pub is_one_of : Text → List Text → Bool
is_one_of address [] = false
is_one_of address (a ∷ addresses) =
    let rest = is_one_of address addresses in if bytes_eq a address then true else rest

-- `self._candidates[address]`
pub candidate : Text → List (Text × Discovery) → Option Discovery
candidate address [] = none
candidate address ((a, d) ∷ candidates) =
    let rest = candidate address candidates in if bytes_eq a address then some d else rest

pub put_candidate : Discovery → List (Text × Discovery) → List (Text × Discovery)
put_candidate d [] = (d.address, d) ∷ []
put_candidate d ((a, old) ∷ candidates) =
    let rest = put_candidate d candidates in
    if bytes_eq a d.address then (a, d) ∷ candidates else (a, old) ∷ rest

unfoldable pub confirm_with :
    Option Discovery → Option Declaration → Bool → Flow → Flow × Result Answer
confirm_with none declaration confirmed flow = (flow, err assertion_error)
confirm_with (some d) none confirmed flow = (flow, err assertion_error)
confirm_with (some d) (some declaration) false flow = (flow, ok asks_confirm)
confirm_with (some d) (some declaration) true flow = (flow, ok (creates flow.bindkey))

unfoldable pub async_step_confirm : Bool → Flow → Flow × Result Answer
async_step_confirm confirmed flow = confirm_with flow.discovery flow.declaration confirmed flow

module _ (ccm : Ccm) (table : Table) (offered_entries : Declaration → List WritableEntry) where
  -- The key opened the device's advertisement.
  unfoldable pub proved : Bool → Bytes → Declaration → Flow → Flow × Result Answer
  proved reauth bindkey declaration flow =
      if is_empty (offered_entries declaration)
      then (flow, ok (aborts "nothing_writable"))
      else let flow' = record flow { bindkey = some bindkey; declaration = some declaration } in
        if reauth then (flow', ok (updates (some bindkey))) else async_step_confirm false flow'

  unfoldable pub check_key :
      Bool → Bytes → Result (Option Declaration) → Flow → Flow × Result Answer
  check_key reauth bindkey (err e) flow = (flow, err e)
  check_key reauth bindkey (ok none) flow = (flow, ok (asks_key (some "decryption_failed")))
  check_key reauth bindkey (ok (some declaration)) flow = proved reauth bindkey declaration flow

  unfoldable pub enter_key : Bool → Discovery → Option Bytes → Flow → Flow × Result Answer
  enter_key reauth discovery none flow = (flow, ok (asks_key (some "expected_32_characters")))
  enter_key reauth discovery (some bindkey) flow =
      check_key reauth bindkey (declaration_from ccm table discovery (some bindkey)) flow

  unfoldable pub key_step : Bool → Option Discovery → Option Text → Flow → Flow × Result Answer
  key_step reauth none user_input flow = (flow, err assertion_error)
  key_step reauth (some discovery) none flow = (flow, ok (asks_key none))
  key_step reauth (some discovery) (some text) flow =
      enter_key reauth discovery (parse_bindkey text) flow

  -- `reauth`: the flow was started to ask for the key again.
  unfoldable pub async_step_get_encryption_key : Bool → Option Text → Flow → Flow × Result Answer
  async_step_get_encryption_key reauth user_input flow =
      key_step reauth flow.discovery user_input flow

  -- A device that advertises in clear. The two steps abort differently where it has nothing to offer.
  unfoldable pub take_clear : String → Result (Option Declaration) → Flow → Flow × Result Answer
  take_clear reason (err e) flow = (flow, err e)
  take_clear reason (ok none) flow = (flow, ok (aborts "not_supported"))
  take_clear reason (ok (some declaration)) flow =
      if is_empty (offered_entries declaration)
      then (flow, ok (aborts reason))
      else async_step_confirm false (record flow { declaration = some declaration })

  -- What the two steps that find a device share.
  unfoldable pub take_device : String → Discovery → Flow → Flow × Result Answer
  take_device reason discovery flow =
      let flow' = record flow { discovery = some discovery } in
      if needs_bindkey discovery
      then async_step_get_encryption_key false none flow'
      else take_clear reason (declaration_from ccm table discovery none) flow'

  unfoldable pub async_step_bluetooth : Option String → Discovery → Flow → Flow × Result Answer
  async_step_bluetooth (some reason) discovery flow = (flow, ok (aborts reason))
  async_step_bluetooth none discovery flow = take_device "nothing_writable" discovery flow

  unfoldable pub reauth_with : Option Discovery → Flow → Flow × Result Answer
  reauth_with none flow = (flow, ok (aborts "not_on_the_air"))
  reauth_with (some discovery) flow =
      let flow' = record flow { discovery = some discovery } in
      if not (needs_bindkey discovery)
      then (flow', ok (aborts "reauth_successful"))
      else async_step_get_encryption_key true none flow'

  abbrev pub or_find : Option Discovery → Text → List Discovery → Option Discovery
  or_find none address air = find_address address air
  or_find (some discovery) address air = some discovery

  unfoldable pub async_step_reauth :
      Option Text → Option Discovery → List Discovery → Flow → Flow × Result Answer
  async_step_reauth none carried air flow = (flow, err assertion_error)
  async_step_reauth (some address) carried air flow =
      reauth_with (or_find carried address air) (record flow { discovery = none })

  -- An empty key, for a device that no longer seals; and a key that is to be proved.
  unfoldable pub change_key : Discovery → Option Bytes → Flow → Flow × Result Answer
  change_key discovery none flow = (flow, ok (asks_reconfigure (some "expected_32_characters")))
  change_key discovery (some bindkey) flow =
      elim (declaration_from ccm table discovery (some bindkey)) [
        | err e ↦ (flow, err e)
        | ok none ↦ (flow, ok (asks_reconfigure (some "decryption_failed")))
        | ok (some declaration) ↦ (flow, ok (updates (some bindkey)))
      ]

  unfoldable pub reconfigure_to : Discovery → Text → Flow → Flow × Result Answer
  reconfigure_to discovery [] flow =
      if needs_bindkey discovery
      then (flow, ok (asks_reconfigure (some "bindkey_required")))
      else (flow, ok (updates none))
  reconfigure_to discovery (c ∷ text) flow = change_key discovery (parse_bindkey (c ∷ text)) flow

  unfoldable pub reconfigure_with : Option Discovery → Option Text → Flow → Flow × Result Answer
  reconfigure_with none user_input flow = (flow, ok (aborts "not_on_the_air"))
  reconfigure_with (some discovery) none flow = (flow, ok (asks_reconfigure none))
  reconfigure_with (some discovery) (some text) flow =
      reconfigure_to discovery (without_separators (strip text)) flow

  unfoldable pub async_step_reconfigure :
      Option Text → List Discovery → Option Text → Flow → Flow × Result Answer
  async_step_reconfigure none air user_input flow = (flow, err assertion_error)
  async_step_reconfigure (some address) air user_input flow =
      reconfigure_with (find_address address air) user_input flow

  -- `async_step_user` with the device that was picked.
  unfoldable pub pick_device : Option String → Option Discovery → Flow → Flow × Result Answer
  pick_device (some reason) picked flow = (flow, ok (aborts reason))
  pick_device none none flow = (flow, err key_error)
  pick_device none (some discovery) flow = take_device "not_supported" discovery flow
