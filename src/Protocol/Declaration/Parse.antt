-- ===== src/Protocol/Declaration/Parse.antt =====
-- `parse_declaration` of protocol.py reads exactly the declarations that the payload carries.
use bthome_writable.Common.{
  ℕ, ◌≡◌, refl, sym, ap, ◌∙◌, ◌≢◌, ◌⊎◌, ◌↔◌, inl, inr, Option, none, some, List, [], ◌∷◌, ◌++◌,
  ◌==◌, length, take, drop, All, Result, ok, err, protocol_error, ◌>>=◌, length-append,
  take-append_eq, take-append-drop, get_elem?-append, slice-append, require, ◌>>◌, Bool-cases,
  Result-cases, arith, ==→eq,
}
use bthome_writable.Common.Int.{ℤ, pos}
use bthome_writable.Protocol.Const.{declaration_object_id, settings_revision_object_id}
use bthome_writable.Protocol.Walk.{Bytes, Table, split_objects}
use bthome_writable.Protocol.Walk.Framing.{IsFramed, StopsAt, encode_objects}
use bthome_writable.Protocol.Walk.Sound.{
  split_objects-encode_objects, split_objects_sound, split_objects-total,
}
use bthome_writable.Protocol.Declaration.{
  Declaration, number_from, first_revision, parse_declaration, parse_at,
}

-- The revision is the first byte of the first settings-revision object, if there is one.
abbrev pub RevisionIs : List (ℕ × Bytes) → Option ℤ → Type 0
RevisionIs [] revision = revision ≡ none
RevisionIs ((object_id, value) ∷ objects) revision =
    ((object_id ≡ settings_revision_object_id)
      × ((r : ℕ) × (more : Bytes) × (value ≡ r ∷ more) × (revision ≡ some (pos r))))
    ⊎ ((object_id ≢ settings_revision_object_id) × RevisionIs objects revision)

module _ (table : Table) where
  -- Well-framed objects, then 0xFF, the count and that many ids; whatever follows is not read.
  pub record Declares (payload : Bytes) (d : Declaration) : Type 0 where
    pub objects : List (ℕ × Bytes)
    pub ids : List ℕ
    pub rest : Bytes
    pub bytes :
        payload ≡ encode_objects objects ++ (declaration_object_id ∷ length ids ∷ ids ++ rest)
    pub framed : All (IsFramed table) objects
    pub entries : d.entries ≡ number_from 1 ids
    pub revision : RevisionIs objects d.settings_revision

first_revision_complete :
    (objects : List (ℕ × Bytes)) (revision : Option ℤ)
    → RevisionIs objects revision
    → first_revision objects ≡ ok revision
unfolding first_revision
first_revision_complete [] revision h = ground arith
first_revision_complete ((object_id, value) ∷ objects) revision (inl (e, (r, more, v, h))) =
    ground arith
first_revision_complete ((object_id, value) ∷ objects) revision (inr (e, h)) =
    ground (arith, first_revision_complete objects revision h)

first_revision_sound :
    (objects : List (ℕ × Bytes)) (revision : Option ℤ)
    → first_revision objects ≡ ok revision
    → RevisionIs objects revision
unfolding first_revision
first_revision_sound [] revision h = ground arith
first_revision_sound ((object_id, []) ∷ objects) revision h =
    elim (Bool-cases (object_id == settings_revision_object_id)) [
      | inl e ↦ absurd (ground arith)
      | inr e ↦ inr (ground arith, first_revision_sound objects revision (ground arith))
    ]
first_revision_sound ((object_id, r ∷ more) ∷ objects) revision h =
    elim (Bool-cases (object_id == settings_revision_object_id)) [
      | inl e ↦ inl (ground arith, (r, more, refl, ground arith))
      | inr e ↦ inr (ground arith, first_revision_sound objects revision (ground arith))
    ]

module _ (table : Table) where
  parse_declaration-split :
      (payload : Bytes) (objects : List (ℕ × Bytes)) (stop : Option ℕ)
      → split_objects table payload ≡ ok (objects, stop)
      → payload ≢ []
      → parse_declaration table payload ≡ parse_at table payload objects stop
  unfolding parse_declaration
  parse_declaration-split [] objects stop e h = absurd (h refl)
  parse_declaration-split (b ∷ payload) objects stop e h = rw e

  -- What is read at the declaration, wherever that is.
  parse_after : ℕ → Bytes → List (ℕ × Bytes) → Result (Option Declaration)
  parse_after count rest objects = do
    require (length (take count rest) == count) protocol_error
    revision ← first_revision objects
    ok (some (record { entries = number_from 1 (take count rest); settings_revision = revision }))

  parse_at-parse_after :
      (front rest : Bytes) (x count : ℕ) (objects : List (ℕ × Bytes))
      → parse_at table (front ++ (x ∷ count ∷ rest)) objects (some (length front))
        ≡ parse_after count rest objects
  unfolding parse_at parse_after
  parse_at-parse_after front rest x count objects = ground (
    arith,
    length-append front (x ∷ count ∷ rest),
    get_elem?-append front (x ∷ count ∷ rest) 1,
    slice-append front (x ∷ count ∷ rest) 2 count,
  )

  parse_at_short :
      (front : Bytes) (x : ℕ) (objects : List (ℕ × Bytes))
      → parse_at table (front ++ (x ∷ [])) objects (some (length front)) ≡ err protocol_error
  unfolding parse_at
  parse_at_short front x objects = ground (arith, length-append front (x ∷ []))

  parse_declaration_complete :
      {payload : Bytes} {d : Declaration}
      → Declares table payload d
      → parse_declaration table payload ≡ ok (some d)
  unfolding parse_after
  parse_declaration_complete {payload} {d} s =
      let front : Bytes = encode_objects s.objects in
      let tail : Bytes = length s.ids ∷ s.ids ++ s.rest in
      let walked =
        split_objects-encode_objects table s.objects (declaration_object_id ∷ tail)
          (some (length front)) s.framed (inl (refl, refl)) in
      let cut = take-append_eq (length s.ids) s.ids s.rest refl in
      rw s.bytes (
        parse_declaration-split (front ++ (declaration_object_id ∷ tail)) s.objects
          (some (length front)) walked
          (λ e.
            absurd (omega (arith, ap length e, length-append front (declaration_object_id ∷ tail))))
        ∙ parse_at-parse_after front (s.ids ++ s.rest) declaration_object_id (length s.ids)
            s.objects
        ∙ rw cut (
            ground
              (arith, first_revision_complete s.objects d.settings_revision s.revision, s.entries)))

  parse_after_sound :
      (rest : Bytes) (count : ℕ) (objects : List (ℕ × Bytes)) (d : Declaration)
      → All (IsFramed table) objects
      → parse_after count rest objects ≡ ok (some d)
      → Declares table (encode_objects objects ++ (declaration_object_id ∷ count ∷ rest)) d
  unfolding parse_after
  parse_after_sound rest count objects d framed e =
      elim (Bool-cases (length (take count rest) == count)) [
        | inr short ↦ absurd (ground arith)
        | inl whole ↦ elim (Result-cases (first_revision objects)) [
          | inr (bad, r) ↦ absurd (ground arith)
          | inl (revision, r) ↦
              let width : length (take count rest) ≡ count = ==→eq _ _ whole in
              record {
                objects = objects;
                ids = take count rest;
                rest = drop count rest;
                bytes = rw (take-append-drop count rest, width);
                framed = framed;
                entries = ground arith;
                revision = first_revision_sound objects d.settings_revision (ground arith);
              }
        ]
      ]

  -- What the walk found, and what the parser makes of the bytes where it stopped.
  parse_stopped :
      (rest : Bytes) (objects : List (ℕ × Bytes)) (stop : Option ℕ) (d : Declaration)
      → All (IsFramed table) objects
      → StopsAt table (length (encode_objects objects)) stop rest
      → parse_at table (encode_objects objects ++ rest) objects stop ≡ ok (some d)
      → Declares table (encode_objects objects ++ rest) d
  parse_stopped [] objects stop d framed s e = absurd (unfold parse_at in ground arith)
  parse_stopped (x ∷ rest) objects stop d framed (inr (other, unknown, s)) e =
      absurd (unfold parse_at in ground arith)
  parse_stopped (x ∷ []) objects stop d framed (inl (x_eq, s)) e =
      absurd (ground (arith, parse_at_short (encode_objects objects) x objects))
  parse_stopped (x ∷ count ∷ rest) objects stop d framed (inl (x_eq, s)) e = rw x_eq (
      parse_after_sound rest count objects d framed
        (sym (parse_at-parse_after (encode_objects objects) rest x count objects) ∙ (rw s at e)))

  parse_declaration_sound :
      (payload : Bytes) (d : Declaration)
      → parse_declaration table payload ≡ ok (some d)
      → Declares table payload d
  parse_declaration_sound [] d e = unfold parse_declaration in cc
  parse_declaration_sound (b ∷ payload) d e = elim (split_objects-total table (b ∷ payload)) [
    | inr bad ↦ absurd (unfold parse_declaration in ground arith)
    | inl ((objects, stop), walked) ↦
        let (rest, bytes, framed, s) =
          split_objects_sound table (b ∷ payload) objects stop walked in
        let parsed =
          sym (parse_declaration-split (b ∷ payload) objects stop walked (λ h. cc)) ∙ e in
        rw bytes (parse_stopped rest objects stop d framed s (rw bytes at parsed))
  ]

  -- `parse_declaration` returns a declaration exactly when the payload carries it: well-framed
  -- objects, then 0xFF, a count and that many ids, numbered from 1 in the order they stand, and the
  -- first settings revision among the objects. What follows the ids does not matter, and a byte
  -- 0xFF inside a value is no declaration.
  pub parse_declaration_iff :
      (payload : Bytes) (d : Declaration)
      → (parse_declaration table payload ≡ ok (some d)) ↔ Declares table payload d
  parse_declaration_iff payload d = (parse_declaration_sound payload d, parse_declaration_complete)
