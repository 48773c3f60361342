-- ===== src/ConfigFlow/Proved.antt =====
-- No flow ends with an entry or a key that an advertisement has not borne out: what the answers
-- promise, and the steps that find a device and ask for its key.
pub mod Run
use bthome_writable.Common.{
  ℕ, ◌≡◌, refl, ◌⊎◌, sym, ap, ◌∙◌, subst, Bool, true, false, not, Option, none, some, String, List,
  [], ◌∷◌, if◌then◌else◌, Result, ok, err, Error, inl, inr, Bool-cases, Option-cases, if_cases,
  arith,
}
use bthome_writable.Protocol.Walk.{Bytes, Table}
use bthome_writable.Protocol.Text.{Text}
use bthome_writable.Protocol.Declaration.{WritableEntry, Declaration}
use bthome_writable.Protocol.Sealing.{Ccm}
use bthome_writable.ConfigFlow.{
  Discovery, strip, without_separators, parse_bindkey, needs_bindkey, declaration_from,
}
use bthome_writable.ConfigFlow.Steps.{
  Flow, init, Answer, aborts, asks_key, asks_reconfigure, asks_confirm, asks_device, creates,
  updates, is_empty, find_address, candidate, confirm_with, async_step_confirm, proved, check_key,
  enter_key, key_step, async_step_get_encryption_key, take_clear, take_device, async_step_bluetooth,
  reauth_with, async_step_reauth, or_find, change_key, reconfigure_to, reconfigure_with,
  async_step_reconfigure, pick_device,
}
use bthome_writable.ConfigFlow.Opening.{
  Opens, InClear, Reads, sealed-Opens, clear-InClear, one_discovery,
}
use bthome_writable.ConfigFlow.Session.{
  Form, key_form, confirm_form, device_form, reconfigure_form, form_of, Input, Start, discovered,
  by_user, asked_again, reconfigures, is_reauth, gather, show_list, list_devices, begin, submit,
  shown, proceed, session,
}

module _ (ccm : Ccm) (table : Table) (offered_entries : Declaration → List WritableEntry)
    (owner : Option Text) where
  -- The device found declares, under the flow's key, what the flow holds, and offers some of it.
  abbrev pub Declares : Flow → Type 0
  Declares flow =
      (d : Discovery) × (declaration : Declaration) × (flow.discovery ≡ some d)
      × (flow.declaration ≡ some declaration)
      × Reads ccm table d flow.bindkey declaration
      × (is_empty (offered_entries declaration) ≡ false)

  -- The device found advertises sealed.
  abbrev pub IsSealing : Flow → Type 0
  IsSealing flow = (d : Discovery) × (flow.discovery ≡ some d) × (needs_bindkey d ≡ true)

  -- A discovery of the entry's own device.
  abbrev pub IsOf : Discovery → Type 0
  IsOf d = (address : Text) × (owner ≡ some address) × (d.address ≡ address)

  -- What an answer promises of the flow that gives it.
  abbrev pub Fits : Flow → Answer → Type 0
  Fits flow (aborts reason) = Unit
  Fits flow (asks_key error) = (flow.bindkey ≡ none) × IsSealing flow
  Fits flow (asks_reconfigure error) = Unit
  Fits flow asks_confirm = Declares flow
  Fits flow asks_device = flow.bindkey ≡ none
  Fits flow (creates key) = (key ≡ flow.bindkey) × Declares flow
  Fits flow (updates none) = (d : Discovery) × IsOf d × (needs_bindkey d ≡ false)
  Fits flow (updates (some key)) =
      ((flow.bindkey ≡ some key) × Declares flow)
      ⊎ ((d : Discovery) × (declaration : Declaration) × IsOf d
          × (Opens ccm table d key declaration ⊎ InClear ccm table d declaration))

  abbrev pub IsProved : Flow × Result Answer → Type 0
  IsProved (flow, err e) = Unit
  IsProved (flow, ok answer) = Fits flow answer

  pub confirm_with-IsProved :
      (o : Option Discovery) (p : Option Declaration) (confirmed : Bool) (flow : Flow)
      → Declares flow
      → IsProved (confirm_with o p confirmed flow)
  unfolding confirm_with
  confirm_with-IsProved none p confirmed flow h = tt
  confirm_with-IsProved (some d) none confirmed flow h = tt
  confirm_with-IsProved (some d) (some declaration) false flow h = h
  confirm_with-IsProved (some d) (some declaration) true flow h = (refl, h)

  pub confirm-IsProved :
      (confirmed : Bool) (flow : Flow)
      → Declares flow
      → IsProved (async_step_confirm confirmed flow)
  unfolding async_step_confirm
  confirm-IsProved confirmed flow h =
      confirm_with-IsProved flow.discovery flow.declaration confirmed flow h

  pub proved-IsProved :
      (reauth : Bool) (key : Bytes) (declaration : Declaration) (d : Discovery) (flow : Flow)
      → flow.discovery ≡ some d
      → needs_bindkey d ≡ true
      → declaration_from ccm table d (some key) ≡ ok (some declaration)
      → IsProved (proved ccm table offered_entries reauth key declaration flow)
  unfolding proved
  proved-IsProved reauth key declaration d flow found seals opens =
      let flow' : Flow = record flow { bindkey = some key; declaration = some declaration } in
      if_cases IsProved (is_empty (offered_entries declaration)) _ _ (λ nothing. tt)
        (λ offers.
          let reads = sealed-Opens ccm table d key declaration seals opens in
          let declares : Declares flow' = (d, declaration, found, refl, reads, offers) in
          if_cases IsProved reauth _ _ (λ again. inl (refl, declares))
            (λ fresh. confirm-IsProved false flow' declares))

  pub check_key-IsProved :
      (reauth : Bool) (key : Bytes) (r : Result (Option Declaration)) (d : Discovery) (flow : Flow)
      → flow.discovery ≡ some d
      → needs_bindkey d ≡ true
      → flow.bindkey ≡ none
      → declaration_from ccm table d (some key) ≡ r
      → IsProved (check_key ccm table offered_entries reauth key r flow)
  unfolding check_key
  check_key-IsProved reauth key (err e) d flow found seals unset opens = tt
  check_key-IsProved reauth key (ok none) d flow found seals unset opens =
      (unset, (d, found, seals))
  check_key-IsProved reauth key (ok (some declaration)) d flow found seals unset opens =
      proved-IsProved reauth key declaration d flow found seals opens

  pub enter_key-IsProved :
      (reauth : Bool) (d : Discovery) (key : Option Bytes) (flow : Flow)
      → flow.discovery ≡ some d
      → needs_bindkey d ≡ true
      → flow.bindkey ≡ none
      → IsProved (enter_key ccm table offered_entries reauth d key flow)
  unfolding enter_key
  enter_key-IsProved reauth d none flow found seals unset = (unset, (d, found, seals))
  enter_key-IsProved reauth d (some key) flow found seals unset =
      check_key-IsProved reauth key _ d flow found seals unset refl

  pub key_step-IsProved :
      (reauth : Bool) (o : Option Discovery) (user_input : Option Text) (flow : Flow)
      → flow.discovery ≡ o
      → IsSealing flow
      → flow.bindkey ≡ none
      → IsProved (key_step ccm table offered_entries reauth o user_input flow)
  unfolding key_step
  key_step-IsProved reauth none user_input flow found seals unset = tt
  key_step-IsProved reauth (some d) none flow found seals unset = (unset, seals)
  key_step-IsProved reauth (some d) (some text) flow found (a, is, seals) unset =
      enter_key-IsProved reauth d (parse_bindkey text) flow found
        (subst (λ x. needs_bindkey x ≡ true) (one_discovery (sym is ∙ found)) seals) unset

  pub get_key-IsProved :
      (reauth : Bool) (user_input : Option Text) (flow : Flow)
      → IsSealing flow
      → flow.bindkey ≡ none
      → IsProved (async_step_get_encryption_key ccm table offered_entries reauth user_input flow)
  unfolding async_step_get_encryption_key
  get_key-IsProved reauth user_input flow seals unset =
      key_step-IsProved reauth flow.discovery user_input flow refl seals unset

  pub take_clear-IsProved :
      (reason : String) (r : Result (Option Declaration)) (d : Discovery) (flow : Flow)
      → flow.discovery ≡ some d
      → flow.bindkey ≡ none
      → declaration_from ccm table d none ≡ r
      → IsProved (take_clear ccm table offered_entries reason r flow)
  unfolding take_clear
  take_clear-IsProved reason (err e) d flow found unset opens = tt
  take_clear-IsProved reason (ok none) d flow found unset opens = tt
  take_clear-IsProved reason (ok (some declaration)) d flow found unset opens =
      if_cases IsProved (is_empty (offered_entries declaration)) _ _ (λ nothing. tt)
        (λ offers.
          confirm-IsProved false (record flow { declaration = some declaration })
            (
              d,
              declaration,
              found,
              refl,
              subst (λ k. Reads ccm table d k declaration) (sym unset)
                  (clear-InClear ccm table d declaration opens),
              offers,
            ))

  pub take_device-IsProved :
      (reason : String) (d : Discovery) (flow : Flow)
      → flow.bindkey ≡ none
      → IsProved (take_device ccm table offered_entries reason d flow)
  unfolding take_device
  take_device-IsProved reason d flow unset =
      let flow' : Flow = record flow { discovery = some d } in
      if_cases IsProved (needs_bindkey d) _ _
        (λ seals. get_key-IsProved false none flow' (d, refl, seals) unset)
        (λ clear. take_clear-IsProved reason _ d flow' refl unset refl)

  pub reauth-IsProved :
      (o : Option Discovery) (flow : Flow)
      → flow.bindkey ≡ none
      → IsProved (reauth_with ccm table offered_entries o flow)
  unfolding reauth_with
  reauth-IsProved none flow unset = tt
  reauth-IsProved (some d) flow unset =
      if_cases IsProved (not (needs_bindkey d)) _ _ (λ clear. tt)
        (λ seals.
          get_key-IsProved true none (record flow { discovery = some d }) (d, refl, ground arith)
            unset)
