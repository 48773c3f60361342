-- ===== src/Setup.antt =====
-- The setup and the removal of a device in custom_components/bthome_writable/__init__.py: what a
-- config entry's stored data and the stack's last advertisement make of a new coordinator, and the
-- host's cap as entries come, change and go.
use bthome_writable.Common.{
  ℕ, Bool, true, false, ◌&&◌, Option, none, some, String, [], ◌∷◌, if◌then◌else◌, Result, ok,
  assertion_error, or_raise, ◌>>=◌,
}
use bthome_writable.Protocol.Const.{allow_counter_sync, default_max_connections}
use bthome_writable.Protocol.Walk.{Bytes, Table}
use bthome_writable.Protocol.Text.{Text, from_hex}
use bthome_writable.Protocol.Sealing.{Ccm}
use bthome_writable.Protocol.Stored.{Json, restore}
use bthome_writable.Slots.Requests.{Host, register_request, withdraw_request}
use bthome_writable.Coordinator.{Coordinator, init, is_some}
use bthome_writable.Coordinator.Advertising.{async_handle_advertisement}
use bthome_writable.Coordinator.Asking.{async_ask_the_counter_on_the_next_write}
use bthome_writable.Coordinator.Counters.{starting_counter}

-- The config entry's data and options; a field that is missing is none.
pub record Stored : Type 0 where
  pub unique_id : Option Text
  pub bindkey : Option Text
  pub write_counter : Option ℕ
  pub declaration : Json
  pub sleepy_device : Option Bool
  pub max_connections : Option ℕ

abbrev pub or_default {ℓ} : {A : Type ℓ} → A → Option A → A
or_default d none = d
or_default d (some a) = a

-- `bytes.fromhex(stored) if stored else None`
abbrev pub stored_key : Option Text → Result (Option Bytes)
stored_key none = ok none
stored_key (some []) = ok none
stored_key (some (c ∷ text)) = from_hex (c ∷ text) >>= (λ key. ok (some key))

unfoldable pub build : ℕ → Stored → Text → Option Bytes → Coordinator
build wall stored address bindkey =
    init address bindkey (starting_counter wall (or_default 0 stored.write_counter))
      (restore stored.declaration) (or_default false stored.sleepy_device)

unfoldable pub arm : Coordinator → Coordinator
arm c =
    if allow_counter_sync && is_some c.bindkey then async_ask_the_counter_on_the_next_write c else c

module _ (ccm : Ccm) (table : Table) where
  -- The stack's last advertisement, if it has one.
  unfoldable pub seed : ℕ → Option Bytes → Coordinator → Coordinator × Result (Unit {0})
  seed now none c = (c, ok tt)
  seed now (some service_data) c = async_handle_advertisement ccm table now service_data c

  -- `async_setup_entry` up to the platforms. `wall`: the clock in seconds.
  unfoldable pub async_setup_entry :
      ℕ → ℕ → Stored → Option Bytes → Result (Coordinator × Result (Unit {0}))
  async_setup_entry wall now stored last = do
    address ← or_raise stored.unique_id assertion_error
    bindkey ← stored_key stored.bindkey
    ok (seed now last (arm (build wall stored address bindkey)))

-- `name`: the unique id as the host's requests name it.
unfoldable pub cap_may_have_moved : ℕ → Option String → Option ℕ → Host → Host
cap_may_have_moved now none asked h = h
cap_may_have_moved now (some name) asked h =
    register_request now name (or_default default_max_connections asked) h

-- `unloaded`: whether the platforms could be unloaded.
unfoldable pub async_unload_entry : ℕ → Bool → Option String → Host → Host
async_unload_entry now true (some name) h = withdraw_request now name h
async_unload_entry now true none h = h
async_unload_entry now false name h = h
