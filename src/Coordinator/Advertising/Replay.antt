-- ===== src/Coordinator/Advertising/Replay.antt =====
-- What a sealed advertisement may change: `async_handle_advertisement` and `_counter_increased` of
-- custom_components/bthome_writable/coordinator.py.
use bthome_writable.Common.{
  ℕ, ◌+◌, ◌≤◌, ◌<◌, ◌≡◌, refl, sym, subst, ◌⊎◌, inl, inr, Bool, true, false, not, ◌&&◌, ◌||◌,
  Option, none, some, List, [], ◌∷◌, Bool-cases, Option-cases, Result-cases, leb, leb→le, ltb,
  ltb→lt, Result, ok, err,
}
use bthome_writable.Protocol.Const.{counter_restart_ceiling, authentication_failures_before_reauth}
use bthome_writable.Protocol.Walk.{Bytes, Table}
use bthome_writable.Protocol.Sealing.{
  Ccm, is_encrypted, advertising_counter, decrypt_advertising, trigger_based,
}
use bthome_writable.Coordinator.{Call, Coordinator, is_true}
use bthome_writable.Coordinator.Advertising.{
  notice_sleepy, authentication_failed, counter_increased, unseal, plaintext,
  async_handle_advertisement,
}

-- What a packet that is not believed leaves as it was.
pub record Untouched (c c' : Coordinator) : Type 0 where
  pub same_declaration : c'.declaration ≡ c.declaration
  pub same_values : c'.values ≡ c.values
  pub same_revision : c'.revision_advertised ≡ c.revision_advertised
  pub same_available : c'.available ≡ c.available
  pub same_encryption_counter : c'.encryption_counter ≡ c.encryption_counter
  pub same_resync : c'.resync_counter ≡ c.resync_counter

all_same :
    (c : Coordinator) (sleepy : Bool) (failures : ℕ) (verified sealed : Option Bool)
    (calls : List Call)
    → Untouched c (record c {
      sleepy_device = sleepy;
      authentication_failures = failures;
      bindkey_verified = verified;
      advertises_encrypted = sealed;
      calls = calls;
    })
all_same c sleepy failures verified sealed calls = record {
  same_declaration = refl;
  same_values = refl;
  same_revision = refl;
  same_available = refl;
  same_encryption_counter = refl;
  same_resync = refl;
}

-- The replay check lets the counter pass.
abbrev pub Fresh : ℕ → Coordinator → Type 0
Fresh counter c =
    (is_true c.bindkey_verified ≡ false)
    ⊎ (c.encryption_counter ≤ counter)
    ⊎ (counter < counter_restart_ceiling)

-- The packet is sealed under the key held, and it is no replay.
pub record Believed (ccm : Ccm) (payload : Bytes) (c : Coordinator) : Type 0 where
  pub key : Bytes
  pub held : c.bindkey ≡ some key
  pub objects : Bytes
  pub decrypted : decrypt_advertising ccm payload key c.address ≡ ok (some objects)
  pub fresh :
      (advertising_counter payload ≡ none)
      ⊎ ((counter : ℕ) × (advertising_counter payload ≡ some counter) × Fresh counter c)

passes : (v a b : Bool) → not v || (a || b) ≡ true → (v ≡ false) ⊎ (a ≡ true) ⊎ (b ≡ true)
passes false a b h = inl refl
passes true true b h = inr (inl refl)
passes true false b h = inr (inr h)

counter_increased-Fresh :
    (payload : Bytes) (c : Coordinator)
    → counter_increased payload c ≡ true
    → (advertising_counter payload ≡ none)
      ⊎ ((counter : ℕ) × (advertising_counter payload ≡ some counter) × Fresh counter c)
unfolding counter_increased
counter_increased-Fresh payload c h = elim (Option-cases (advertising_counter payload)) [
  | inl e ↦ inl e
  | inr (counter, e) ↦
      let passed =
        passes (is_true c.bindkey_verified) (leb c.encryption_counter counter)
          (ltb counter counter_restart_ceiling) (rw (e, counter_increased) at h) in
      inr (
        counter,
        e,
        elim passed [
          | inl unverified ↦ inl unverified
          | inr (inl above) ↦ inr (inl (leb→le _ _ above))
          | inr (inr low) ↦ inr (inr (ltb→lt _ _ low))
        ],
      )
]

authentication_failed-Untouched :
    (c : Coordinator) (sealed : Option Bool)
    → Untouched c (authentication_failed (record c { advertises_encrypted = sealed }))
unfolding authentication_failed
authentication_failed-Untouched c sealed =
    elim (Bool-cases (leb authentication_failures_before_reauth (c.authentication_failures + 1))) [
      | inl often ↦ rw often (all_same c _ _ _ _ _)
      | inr once ↦ rw once (all_same c _ _ _ _ _)
    ]

module _ (ccm : Ccm) where
  -- What decrypting comes to.
  Verdict : Bytes → Coordinator → Coordinator × Result (Option Bytes) → Type 0
  Verdict payload c (c', ok (some objects)) = Believed ccm payload c
  Verdict payload c (c', ok none) = Untouched c c'
  Verdict payload c (c', err e) = Untouched c c'

  unseal-Verdict :
      (payload : Bytes) (c : Coordinator) (key : Option Bytes)
      → c.bindkey ≡ key
      → let c' = record c { advertises_encrypted = some true } in
        Verdict payload c (unseal ccm key payload c')
  unfolding unseal Verdict
  unseal-Verdict payload c none keyless = authentication_failed-Untouched c (some true)
  unseal-Verdict payload c (some key) held =
      let c' = record c { advertises_encrypted = some true } in
      elim (Bool-cases (counter_increased payload c')) [
        | inr replayed ↦ rw replayed (all_same c _ _ _ _ _)
        | inl passed ↦ elim (Result-cases (decrypt_advertising ccm payload key c.address)) [
          | inr (e, raised) ↦ rw (passed, raised) (all_same c _ _ _ _ _)
          | inl (none, refused) ↦
              rw (passed, refused) (authentication_failed-Untouched c (some true))
          | inl (some objects, decrypted) ↦
              rw (passed, decrypted)
                (record {
                  key = key;
                  held = held;
                  objects = objects;
                  decrypted = decrypted;
                  fresh = counter_increased-Fresh payload c' passed;
                })
        ]
      ]

  plaintext-Verdict :
      (payload : Bytes) (c : Coordinator)
      → is_encrypted payload ≡ true
      → Verdict payload c (plaintext ccm payload c)
  plaintext-Verdict payload c sealed =
      let e : plaintext ccm payload c
          ≡ unseal ccm c.bindkey payload (record c { advertises_encrypted = some true }) =
        unfold plaintext in rw sealed in
      subst (Verdict payload c) (sym e) (unseal-Verdict payload c c.bindkey refl)

  -- The packet is believed, or leaves what is known of the device as it was.
  abbrev pub Guarded : Bytes → Coordinator → Coordinator → Type 0
  Guarded payload c c' = Believed ccm payload c ⊎ Untouched c c'

  module _ (table : Table) where
    handle-Guarded :
        (now : ℕ) (b : ℕ) (rest : Bytes) (c : Coordinator)
        → is_encrypted (b ∷ rest) ≡ true
        → let c' = notice_sleepy (trigger_based (b ∷ rest)) c in
          Guarded (b ∷ rest) c' (async_handle_advertisement ccm table now (b ∷ rest) c).0
    unfolding async_handle_advertisement Verdict
    handle-Guarded now b rest c sealed =
        let c' = notice_sleepy (trigger_based (b ∷ rest)) c in
        let verdict = plaintext-Verdict (b ∷ rest) c' sealed in
        elim (Result-cases (plaintext ccm (b ∷ rest) c').1) [
          | inr (e, raised) ↦
              inr (rw (raised, async_handle_advertisement) (rw (raised, Verdict) at verdict))
          | inl (none, refused) ↦
              inr (rw (refused, async_handle_advertisement) (rw (refused, Verdict) at verdict))
          | inl (some objects, read) ↦ inl (rw (read, Verdict) at verdict)
        ]

    sleepy-Guarded :
        (payload : Bytes) (sleepy : Bool) (c c' : Coordinator)
        → Guarded payload (notice_sleepy sleepy c) c'
        → Guarded payload c c'
    unfolding notice_sleepy
    sleepy-Guarded payload sleepy c c' g =
        elim (Bool-cases ((sleepy && c.sleepy_device) || (not sleepy && not c.sleepy_device))) [
          | inl same ↦ rw (same, notice_sleepy) at g
          | inr other ↦ elim (rw (other, notice_sleepy) at g) [
            | inl believed ↦ inl (record {
              key = believed.key;
              held = believed.held;
              objects = believed.objects;
              decrypted = believed.decrypted;
              fresh = believed.fresh;
            })
            | inr same ↦ inr (record {
              same_declaration = same.same_declaration;
              same_values = same.same_values;
              same_revision = same.same_revision;
              same_available = same.same_available;
              same_encryption_counter = same.same_encryption_counter;
              same_resync = same.same_resync;
            })
          ]
        ]

    -- A sealed advertisement that is not opened by the key held, or that the replay check refuses,
    -- changes neither the declaration nor the values, the revision, the availability, the replay
    -- counter or the counter question.
    pub async_handle_advertisement-Guarded :
        (now : ℕ) (payload : Bytes) (c : Coordinator)
        → is_encrypted payload ≡ true
        → Guarded payload c (async_handle_advertisement ccm table now payload c).0
    async_handle_advertisement-Guarded now [] c sealed =
        inr (unfold async_handle_advertisement in all_same c _ _ _ _ _)
    async_handle_advertisement-Guarded now (b ∷ rest) c sealed =
        sleepy-Guarded (b ∷ rest) (trigger_based (b ∷ rest)) c _
          (handle-Guarded now b rest c sealed)
