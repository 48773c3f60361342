-- ===== src/Protocol/Declaration/Total.antt =====
-- Which exceptions `parse_declaration` of protocol.py can raise.
use bthome_writable.Common.{
  ℕ, zero, suc, ◌+◌, ◌≡◌, ◌≢◌, ◌⊎◌, inl, inr, true, Option, none, some, List, [], ◌∷◌, length,
  slice, All, ok, err, protocol_error, get_elem?, ltb, Bool-cases, ◌==◌, ==→eq, arith, refl, ap,
}
use bthome_writable.Common.Int.{ℤ, pos}
use bthome_writable.Protocol.Const.{settings_revision_object_id}
use bthome_writable.Protocol.Walk.{Bytes, Table}
use bthome_writable.Protocol.Walk.Framing.{IsFramed, IsValueOf-unsigned}
use bthome_writable.Protocol.Walk.Sound.{split_objects_sound, split_objects-total}
use bthome_writable.Protocol.Declaration.{
  Declaration, number_from, first_revision, parse_declaration, parse_at,
}

-- The object table of bthome-ble gives the settings revision one byte.
abbrev pub HasRevision : Table → Type 0
HasRevision table = table settings_revision_object_id ≡ some ("unsigned_integer", 1)

pub get_elem?-total {ℓ} :
    {A : Type ℓ} (xs : List A) (i : ℕ)
    → ltb i (length xs) ≡ true
    → (x : A) × (get_elem? xs i ≡ some x)
get_elem?-total [] i h = absurd (ground arith)
get_elem?-total (x ∷ xs) zero h = (x, refl)
get_elem?-total (x ∷ xs) (suc i) h = get_elem?-total xs i (ground arith)

module _ (table : Table) (one_byte : HasRevision table) where
  revision_value :
      (value : Bytes) → IsFramed table (settings_revision_object_id, value) → value ≢ []
  revision_value value framed e =
      let same : framed.format ≡ ("unsigned_integer", 1) = ground (arith, framed.known, one_byte) in
      absurd
        (omega (arith, IsValueOf-unsigned framed.format 1 value same framed.value, ap length e))

  first_revision-total :
      (objects : List (ℕ × Bytes))
      → All (IsFramed table) objects
      → (revision : Option ℤ) × (first_revision objects ≡ ok revision)
  unfolding first_revision
  first_revision-total [] framed = (none, refl)
  first_revision-total ((object_id, []) ∷ objects) framed =
      elim (Bool-cases (object_id == settings_revision_object_id)) [
        | inl e ↦ absurd (revision_value [] (rw (==→eq _ _ e) at (framed.0)) refl)
        | inr e ↦ rw e (first_revision-total objects framed.1)
      ]
  first_revision-total ((object_id, r ∷ more) ∷ objects) framed =
      elim (Bool-cases (object_id == settings_revision_object_id)) [
        | inl e ↦ (some (pos r), rw e)
        | inr e ↦ rw e (first_revision-total objects framed.1)
      ]

  parse_at-total :
      (payload : Bytes) (objects : List (ℕ × Bytes)) (stop : Option ℕ)
      → All (IsFramed table) objects
      → ((found : Option Declaration) × (parse_at table payload objects stop ≡ ok found))
        ⊎ (parse_at table payload objects stop ≡ err protocol_error)
  unfolding parse_at
  parse_at-total payload objects none framed = inl (none, refl)
  parse_at-total payload objects (some at) framed =
      elim (Bool-cases (ltb (at + 1) (length payload))) [
        | inr short ↦ inr (rw short)
        | inl room ↦
            let (count, c) = get_elem?-total payload (at + 1) room in
            let (revision, r) = first_revision-total objects framed in
            elim (Bool-cases (length (slice payload (at + 2) (at + 2 + count)) == count)) [
              | inr short ↦ inr (ground arith)
              | inl whole ↦ inl (
                some (record {
                  entries = number_from 1 (slice payload (at + 2) (at + 2 + count));
                  settings_revision = revision;
                }),
                ground arith,
              )
            ]
      ]

  -- Where the settings revision has one byte, `parse_declaration` ends on every payload, and it
  -- returns a declaration, returns that there is none, or raises `ProtocolError`, and nothing else.
  pub parse_declaration-total :
      (payload : Bytes)
      → ((found : Option Declaration) × (parse_declaration table payload ≡ ok found))
        ⊎ (parse_declaration table payload ≡ err protocol_error)
  unfolding parse_declaration
  parse_declaration-total [] = inl (none, refl)
  parse_declaration-total (b ∷ payload) = elim (split_objects-total table (b ∷ payload)) [
    | inr bad ↦ inr (rw bad)
    | inl ((objects, stop), walked) ↦
        let (rest, bytes, framed, s) =
          split_objects_sound table (b ∷ payload) objects stop walked in
        rw walked (parse_at-total (b ∷ payload) objects stop framed)
  ]
