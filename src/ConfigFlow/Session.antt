-- ===== src/ConfigFlow/Session.antt =====
-- The list of `async_step_user`, and a whole flow: the step that starts it, and the user's answers,
-- each to the form that is shown.
use bthome_writable.Common.{
  ℕ, Bool, true, false, not, Option, none, some, String, List, [], ◌∷◌, if◌then◌else◌, Result, ok,
  err,
}
use bthome_writable.Protocol.Const.{default_max_connections}
use bthome_writable.Protocol.Walk.{Table}
use bthome_writable.Protocol.Text.{Text}
use bthome_writable.Protocol.Declaration.{WritableEntry, Declaration}
use bthome_writable.Protocol.Sealing.{Ccm}
use bthome_writable.ConfigFlow.{Discovery, needs_bindkey, declaration_from}
use bthome_writable.ConfigFlow.Steps.{
  Flow, init, Answer, aborts, asks_key, asks_reconfigure, asks_confirm, asks_device, creates,
  updates, is_empty, is_one_of, candidate, put_candidate, async_step_confirm,
  async_step_get_encryption_key, async_step_bluetooth, async_step_reauth, async_step_reconfigure,
  pick_device,
}

pub data Form : Type 0 where
  key_form confirm_form device_form reconfigure_form : Form

-- The form that an answer shows.
abbrev pub form_of : Answer → Option Form
form_of (aborts reason) = none
form_of (asks_key error) = some key_form
form_of (asks_reconfigure error) = some reconfigure_form
form_of asks_confirm = some confirm_form
form_of asks_device = some device_form
form_of (creates key) = none
form_of (updates key) = none

-- What the user enters, and what the stack knows by then.
pub record Input : Type 0 where
  pub text : Text
  pub chosen : Text
  pub claimed : Option String
  pub air : List Discovery

-- How a flow starts.
pub data Start : Type 0 where
  discovered : Option String → Discovery → Start
  by_user : List Text → List Discovery → Start
  asked_again : Option Discovery → List Discovery → Start
  reconfigures : List Discovery → Start

abbrev pub is_reauth : Start → Bool
is_reauth (discovered claimed d) = false
is_reauth (by_user configured air) = false
is_reauth (asked_again carried air) = true
is_reauth (reconfigures air) = false

module _ (ccm : Ccm) (table : Table) (offered_entries : Declaration → List WritableEntry) where
  abbrev pub offers : Result (Option Declaration) → Result Bool
  offers (err e) = err e
  offers (ok none) = ok false
  offers (ok (some declaration)) = ok (not (is_empty (offered_entries declaration)))

  -- Whether a device that is not configured goes on the list.
  abbrev pub listed : Discovery → Result Bool
  listed d = if needs_bindkey d then ok true else offers (declaration_from ccm table d none)

  unfoldable pub gather :
      List Text
      → List Discovery
      → List (Text × Discovery)
      → List (Text × Discovery) × Result (Unit {0})
  gather configured [] found = (found, ok tt)
  gather configured (d ∷ air) found =
      elim (if is_one_of d.address configured then ok false else listed d) [
        | err e ↦ (found, err e)
        | ok false ↦ gather configured air found
        | ok true ↦ gather configured air (put_candidate d found)
      ]

  abbrev pub show_list : Flow → Result (Unit {0}) → Flow × Result Answer
  show_list flow (err e) = (flow, err e)
  show_list flow (ok done) =
      (flow, ok (if is_empty flow.candidates then aborts "no_devices_found" else asks_device))

  -- `async_step_user` before anything is picked.
  unfoldable pub list_devices : List Text → List Discovery → Flow → Flow × Result Answer
  list_devices configured air flow =
      let (found, gathered) = gather configured air [] in
      show_list (record flow { candidates = found }) gathered

  -- `owner`: the unique id of the entry that a flow is about to change, if there is one.
  unfoldable pub begin : Option Text → Start → Flow × Result Answer
  begin owner (discovered claimed d) = async_step_bluetooth ccm table offered_entries claimed d init
  begin owner (by_user configured air) = list_devices configured air init
  begin owner (asked_again carried air) =
      async_step_reauth ccm table offered_entries owner carried air init
  begin owner (reconfigures air) =
      async_step_reconfigure ccm table offered_entries owner air none init

  unfoldable pub submit : Option Text → Bool → Form → Input → Flow → Flow × Result Answer
  submit owner reauth key_form i flow =
      async_step_get_encryption_key ccm table offered_entries reauth (some i.text) flow
  submit owner reauth confirm_form i flow = async_step_confirm true flow
  submit owner reauth device_form i flow =
      pick_device ccm table offered_entries i.claimed (candidate i.chosen flow.candidates) flow
  submit owner reauth reconfigure_form i flow =
      async_step_reconfigure ccm table offered_entries owner i.air (some i.text) flow

  abbrev pub shown : Result Answer → Option Form
  shown (err e) = none
  shown (ok answer) = form_of answer

  -- The flow goes on for as long as it shows a form and the user answers.
  unfoldable pub proceed :
      Option Text → Bool → List Input → Flow → Result Answer → Flow × Result Answer
  proceed owner reauth [] flow answer = (flow, answer)
  proceed owner reauth (i ∷ inputs) flow answer = elim (shown answer) [
    | none ↦ (flow, answer)
    | some form ↦
        let (flow', answer') = submit owner reauth form i flow in
        proceed owner reauth inputs flow' answer'
  ]

  unfoldable pub session : Option Text → Start → List Input → Flow × Result Answer
  session owner start inputs =
      let (flow, answer) = begin owner start in proceed owner (is_reauth start) inputs flow answer

-- The options flow: the cap that the user gave, or a form that shows the cap this device asks for and
-- the one in force.
pub data OptionsAnswer : Type 0 where
  stores : ℕ → OptionsAnswer
  shows_cap : ℕ → ℕ → OptionsAnswer

unfoldable pub async_step_init : Option ℕ → ℕ → Option ℕ → OptionsAnswer
async_step_init asked effective (some cap) = stores cap
async_step_init none effective none = shows_cap default_max_connections effective
async_step_init (some cap) effective none = shows_cap cap effective
