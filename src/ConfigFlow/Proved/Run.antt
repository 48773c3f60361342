-- ===== src/ConfigFlow/Proved/Run.antt =====
-- Whole flows, and the steps that change an entry or list the devices.
use bthome_writable.Common.{
  ◌≡◌, refl, ap, subst, Bool, true, Option, none, some, String, List, [], ◌∷◌, Result, ok, err, inl,
  inr, Bool-cases, Option-cases, if_cases, arith,
}
use bthome_writable.Protocol.Walk.{Bytes, Table}
use bthome_writable.Protocol.Text.{Text}
use bthome_writable.Protocol.Declaration.{WritableEntry, Declaration}
use bthome_writable.Protocol.Sealing.{Ccm, bytes_eq}
use bthome_writable.Protocol.Sealing.Open.{bytes_eq→eq}
use bthome_writable.ConfigFlow.{
  Discovery, strip, without_separators, parse_bindkey, needs_bindkey, declaration_from,
}
use bthome_writable.ConfigFlow.Steps.{
  Flow, init, Answer, aborts, asks_key, asks_reconfigure, asks_confirm, asks_device, creates,
  updates, is_empty, find_address, candidate, async_step_bluetooth, async_step_reauth, change_key,
  reconfigure_to, reconfigure_with, async_step_reconfigure, pick_device,
}
use bthome_writable.ConfigFlow.Session.{
  Form, key_form, confirm_form, device_form, reconfigure_form, form_of, Input, Start, discovered,
  by_user, asked_again, reconfigures, is_reauth, gather, show_list, list_devices, begin, submit,
  proceed, session,
}
use bthome_writable.ConfigFlow.Opening.{keyed-cases, one_discovery}
use bthome_writable.ConfigFlow.Proved.{
  IsSealing, Declares, Fits, IsOf, IsProved, confirm-IsProved, get_key-IsProved,
  take_device-IsProved, reauth-IsProved,
}

find_address-address :
    (address : Text) (air : List Discovery) {d : Discovery}
    → find_address address air ≡ some d
    → d.address ≡ address
unfolding find_address
find_address-address address [] e = absurd (ground arith)
find_address-address address (a ∷ air) e = elim (Bool-cases (bytes_eq a.address address)) [
  | inl own ↦
      subst (λ x. x.address ≡ address) (one_discovery (rw (own, find_address) at e))
        (bytes_eq→eq a.address address own)
  | inr other ↦ find_address-address address air (rw (other, find_address) at e)
]

module _ (ccm : Ccm) (table : Table) (offered_entries : Declaration → List WritableEntry)
    (owner : Option Text) where
  change_key-IsProved :
      (d : Discovery) (key : Option Bytes) (flow : Flow)
      → IsOf ccm table offered_entries owner d
      → IsProved ccm table offered_entries owner (change_key ccm table offered_entries d key flow)
  unfolding change_key
  change_key-IsProved d none flow own = tt
  change_key-IsProved d (some key) flow own = changed (declaration_from ccm table d (some key)) refl
    where
      changed :
          (r : Result (Option Declaration))
          → declaration_from ccm table d (some key) ≡ r
          → IsProved ccm table offered_entries owner (elim r [
            | err e ↦ (flow, err e)
            | ok none ↦ (flow, ok (asks_reconfigure (some "decryption_failed")))
            | ok (some declaration) ↦ (flow, ok (updates (some key)))
          ])
      changed (err e) is = tt
      changed (ok none) is = tt
      changed (ok (some declaration)) is =
          inr (d, declaration, own, keyed-cases ccm table d key declaration is)

  reconfigure_to-IsProved :
      (d : Discovery) (text : Text) (flow : Flow)
      → IsOf ccm table offered_entries owner d
      → IsProved ccm table offered_entries owner
          (reconfigure_to ccm table offered_entries d text flow)
  unfolding reconfigure_to
  reconfigure_to-IsProved d [] flow own =
      if_cases (IsProved ccm table offered_entries owner) (needs_bindkey d) _ _ (λ seals. tt)
        (λ clear. (d, own, clear))
  reconfigure_to-IsProved d (c ∷ text) flow own =
      change_key-IsProved d (parse_bindkey (c ∷ text)) flow own

  reconfigure_with-IsProved :
      (o : Option Discovery) (user_input : Option Text) (flow : Flow)
      → ((d : Discovery) → o ≡ some d → IsOf ccm table offered_entries owner d)
      → IsProved ccm table offered_entries owner
          (reconfigure_with ccm table offered_entries o user_input flow)
  unfolding reconfigure_with
  reconfigure_with-IsProved none user_input flow own = tt
  reconfigure_with-IsProved (some d) none flow own = tt
  reconfigure_with-IsProved (some d) (some text) flow own =
      reconfigure_to-IsProved d (without_separators (strip text)) flow (own d refl)

  reconfigure-IsProved :
      (unique_id : Option Text) (air : List Discovery) (user_input : Option Text) (flow : Flow)
      → owner ≡ unique_id
      → IsProved ccm table offered_entries owner
          (async_step_reconfigure ccm table offered_entries unique_id air user_input flow)
  unfolding async_step_reconfigure
  reconfigure-IsProved none air user_input flow is = tt
  reconfigure-IsProved (some address) air user_input flow is =
      reconfigure_with-IsProved (find_address address air) user_input flow
        (λ d found. (address, is, find_address-address address air found))

  pick-IsProved :
      (claimed : Option String) (picked : Option Discovery) (flow : Flow)
      → flow.bindkey ≡ none
      → IsProved ccm table offered_entries owner
          (pick_device ccm table offered_entries claimed picked flow)
  unfolding pick_device
  pick-IsProved (some reason) picked flow unset = tt
  pick-IsProved none none flow unset = tt
  pick-IsProved none (some d) flow unset =
      take_device-IsProved ccm table offered_entries owner "not_supported" d flow unset

  shows-IsProved :
      (flow : Flow) (r : Result (Unit {0}))
      → flow.bindkey ≡ none
      → IsProved ccm table offered_entries owner (show_list ccm table offered_entries flow r)
  shows-IsProved flow (err e) unset = tt
  shows-IsProved flow (ok done) unset =
      if_cases (Fits ccm table offered_entries owner flow) (is_empty flow.candidates) _ _
        (λ bare. tt) (λ some'. unset)

  begin-IsProved :
      (start : Start)
      → IsProved ccm table offered_entries owner (begin ccm table offered_entries owner start)
  unfolding begin async_step_bluetooth async_step_reauth list_devices init
  begin-IsProved (discovered (some reason) d) = tt
  begin-IsProved (discovered none d) =
      take_device-IsProved ccm table offered_entries owner "nothing_writable" d init refl
  begin-IsProved (by_user configured air) =
      shows-IsProved _ (gather ccm table offered_entries configured air []).1 refl
  begin-IsProved (asked_again carried air) = again owner
    where
      again :
          (unique_id : Option Text)
          → IsProved ccm table offered_entries owner
              (async_step_reauth ccm table offered_entries unique_id carried air init)
      again none = tt
      again (some address) = reauth-IsProved ccm table offered_entries owner _ _ refl
  begin-IsProved (reconfigures air) = reconfigure-IsProved owner air none init refl

  -- What the step behind a form relies on.
  abbrev Relies : Flow → Form → Type 0
  Relies flow key_form = (flow.bindkey ≡ none) × IsSealing ccm table offered_entries owner flow
  Relies flow confirm_form = Declares ccm table offered_entries owner flow
  Relies flow device_form = flow.bindkey ≡ none
  Relies flow reconfigure_form = Unit

  form_or : Form → Option Form → Form
  form_or f none = f
  form_or f (some g) = g

  Fits-Relies :
      (flow : Flow) (answer : Answer) (form : Form)
      → form_of answer ≡ some form
      → Fits ccm table offered_entries owner flow answer
      → Relies flow form
  unfolding form_or
  Fits-Relies flow (aborts reason) form is fits = absurd (ground arith)
  Fits-Relies flow (asks_key e) form is fits = subst (Relies flow) (ap (form_or form) is) fits
  Fits-Relies flow (asks_reconfigure e) form is fits = subst (Relies flow) (ap (form_or form) is) tt
  Fits-Relies flow asks_confirm form is fits = subst (Relies flow) (ap (form_or form) is) fits
  Fits-Relies flow asks_device form is fits = subst (Relies flow) (ap (form_or form) is) fits
  Fits-Relies flow (creates key) form is fits = absurd (ground arith)
  Fits-Relies flow (updates key) form is fits = absurd (ground arith)

  submit-IsProved :
      (reauth : Bool) (form : Form) (i : Input) (flow : Flow)
      → Relies flow form
      → IsProved ccm table offered_entries owner
          (submit ccm table offered_entries owner reauth form i flow)
  unfolding submit
  submit-IsProved reauth key_form i flow relies =
      get_key-IsProved ccm table offered_entries owner reauth (some i.text) flow relies.1 relies.0
  submit-IsProved reauth confirm_form i flow relies =
      confirm-IsProved ccm table offered_entries owner true flow relies
  submit-IsProved reauth device_form i flow relies =
      pick-IsProved i.claimed (candidate i.chosen flow.candidates) flow relies
  submit-IsProved reauth reconfigure_form i flow relies =
      reconfigure-IsProved owner i.air (some i.text) flow refl

  proceed-IsProved :
      (reauth : Bool) (inputs : List Input) (flow : Flow) (answer : Result Answer)
      → IsProved ccm table offered_entries owner (flow, answer)
      → IsProved ccm table offered_entries owner
          (proceed ccm table offered_entries owner reauth inputs flow answer)
  unfolding proceed
  proceed-IsProved reauth [] flow answer h = h
  proceed-IsProved reauth (i ∷ inputs) flow (err e) h = tt
  proceed-IsProved reauth (i ∷ inputs) flow (ok answer) h = elim (Option-cases (form_of answer)) [
    | inl over ↦ rw (over, proceed) h
    | inr (form, is) ↦
        let next = submit ccm table offered_entries owner reauth form i flow in
        rw (is, proceed)
          (proceed-IsProved reauth inputs next.0 next.1
            (submit-IsProved reauth form i flow (Fits-Relies flow answer form is h)))
  ]

  -- However a flow starts and whatever the user enters, form after form: where it creates an entry, the
  -- advertisement of the device it found declares an entry that can be offered, sealed and opened
  -- with the key that goes into the entry if there is one, and in clear if not. Where it changes the
  -- key of an entry, that holds of the device it found and the new key, or an advertisement from the
  -- entry's own address was sealed and opened under the new key to a declaration, or one from there
  -- carries a declaration in clear, which proves nothing of the new key. And it takes a key away only
  -- where an advertisement from the entry's own address is not sealed.
  pub session-IsProved :
      (start : Start) (inputs : List Input)
      → IsProved ccm table offered_entries owner
          (session ccm table offered_entries owner start inputs)
  unfolding session
  session-IsProved start inputs =
      let first = begin ccm table offered_entries owner start in
      proceed-IsProved (is_reauth start) inputs first.0 first.1 (begin-IsProved start)
