-- ===== src/Protocol/Walk/Rest.antt =====
-- The walk of protocol.py over the bytes that are left, with no offset into the payload.
use bthome_writable.Common.{
  ℕ, zero, suc, ◌+◌, ◌≤◌, ◌≡◌, ◌≢◌, ◌⊎◌, ap, ◌∙◌, inl, inr, true, false, Option, none, some, List,
  [], ◌∷◌, ◌++◌, append_assoc, if◌then◌else◌, ltb, ◌==◌, length, take, drop, Result, ok, err,
  protocol_error, out_of_fuel, ◌>>=◌, length-append, length-take, get_elem?-append,
  take-append-drop, Bool-cases, Option-cases, Result-cases, arith, slice, slice-append, String,
}
use bthome_writable.Protocol.Const.{declaration_object_id}
use bthome_writable.Protocol.Walk.{Bytes, Table, walk, length_prefixed, command_format}
use bthome_writable.Protocol.Walk.Framing.{size_of, size_of-cases, value_length-append}

module _ (table : Table) where
  unfoldable pub walk_rest : ℕ → Bytes → ℕ → List (ℕ × Bytes) → Result (List (ℕ × Bytes) × Option ℕ)
  walk_rest zero [] at objects = ok (objects, none)
  walk_rest zero (object_id ∷ rest) at objects = err out_of_fuel
  walk_rest (suc fuel) [] at objects = ok (objects, none)
  walk_rest (suc fuel) (object_id ∷ rest) at objects =
      if object_id == declaration_object_id then ok (objects, some at) else elim (table object_id) [
        | none ↦ ok (objects, none)
        | some (f, fixed) ↦ do
          size ← size_of (length_prefixed f) (command_format f) fixed rest
          elim (ltb (length rest) size) [
            | true ↦ err protocol_error
            | false ↦
                walk_rest fuel (drop size rest) (at + 1 + size)
                  (objects ++ ((object_id, take size rest) ∷ []))
          ]
      ]

slice_after :
    (front : Bytes) (object_id : ℕ) (rest : Bytes) (size : ℕ)
    → slice (front ++ (object_id ∷ rest)) (length front + 1) (length front + 1 + size)
      ≡ take size rest
slice_after front object_id rest size = slice-append front (object_id ∷ rest) 1 size

module _ (table : Table) where
  -- One round, where the id is known and the value fits.
  pub walk_rest_step :
      (fuel x : ℕ) (rest : Bytes) (at : ℕ) (objects : List (ℕ × Bytes)) (f : String)
      (fixed size : ℕ)
      → table x ≡ some (f, fixed)
      → x ≢ declaration_object_id
      → size_of (length_prefixed f) (command_format f) fixed rest ≡ ok size
      → size ≤ length rest
      → walk_rest table (suc fuel) (x ∷ rest) at objects
        ≡ walk_rest table fuel
            (drop size rest)
            (at + 1 + size)
            (objects ++ ((x, take size rest) ∷ []))
  unfolding walk_rest
  walk_rest_step fuel x rest at objects f fixed size known ordinary sized fits = ground arith

  -- What one round does.
  abbrev pub Round :
      ℕ → ℕ → Bytes → ℕ → List (ℕ × Bytes) → Result (List (ℕ × Bytes) × Option ℕ) → Type 0
  Round fuel x rest at objects r =
      ((x ≡ declaration_object_id) × (r ≡ ok (objects, some at)))
      ⊎ ((x ≢ declaration_object_id) × (table x ≡ none) × (r ≡ ok (objects, none)))
      ⊎ (r ≡ err protocol_error)
      ⊎ ((f : String) × (fixed : ℕ) × (size : ℕ) × (table x ≡ some (f, fixed))
          × (x ≢ declaration_object_id)
          × (size_of (length_prefixed f) (command_format f) fixed rest ≡ ok size)
          × (size ≤ length rest)
          × (r
              ≡ walk_rest table fuel (drop size rest) (at + 1 + size)
                  (objects ++ ((x, take size rest) ∷ []))))

  pub walk_rest-Round :
      (fuel x : ℕ) (rest : Bytes) (at : ℕ) (objects : List (ℕ × Bytes))
      → Round fuel x rest at objects (walk_rest table (suc fuel) (x ∷ rest) at objects)
  unfolding walk_rest
  walk_rest-Round fuel x rest at objects = elim (Bool-cases (x == declaration_object_id)) [
    | inl d ↦ inl (ground arith, rw d)
    | inr d ↦ elim (Option-cases (table x)) [
      | inl e ↦ inr (inl (ground arith, e, ground arith))
      | inr ((f, fixed), e) ↦
          elim (size_of-cases (length_prefixed f) (command_format f) fixed rest) [
            | inr bad ↦ inr (inr (inl (ground arith)))
            | inl (size, s) ↦ elim (Bool-cases (ltb (length rest) size)) [
              | inl over ↦ inr (inr (inl (ground arith)))
              | inr fits ↦
                  inr (inr (inr (f, fixed, size, e, ground arith, s, ground arith, ground arith)))
            ]
          ]
    ]
  ]

  -- Both walks go on at the next object, if they agree from there on.
  walk_next :
      (fuel : ℕ) (front : Bytes) (x : ℕ) (rest : Bytes) (size : ℕ) (objects : List (ℕ × Bytes))
      → ((front rest : Bytes) (objects : List (ℕ × Bytes))
          → walk table fuel (front ++ rest) (length front) objects
            ≡ walk_rest table fuel rest (length front) objects)
      → size ≤ length rest
      → walk table fuel (front ++ (x ∷ rest)) (length front + 1 + size) objects
        ≡ walk_rest table fuel (drop size rest) (length front + 1 + size) objects
  walk_next fuel front x rest size objects agree h =
      let front' : Bytes = front ++ (x ∷ take size rest) in
      let width : length front' ≡ length front + 1 + size =
        omega (arith, length-append front (x ∷ take size rest), length-take size rest) in
      let whole : front' ++ drop size rest ≡ front ++ (x ∷ rest) =
        append_assoc front (x ∷ take size rest) (drop size rest)
        ∙ ap (λ t. front ++ (x ∷ t)) (take-append-drop size rest) in
      rw (whole, width) at (agree front' (drop size rest) objects)

  pub walk-walk_rest :
      (fuel : ℕ) (front rest : Bytes) (objects : List (ℕ × Bytes))
      → walk table fuel (front ++ rest) (length front) objects
        ≡ walk_rest table fuel rest (length front) objects
  unfolding walk walk_rest
  walk-walk_rest zero front [] objects = ground (arith, length-append front [])
  walk-walk_rest zero front (x ∷ rest) objects = ground (arith, length-append front (x ∷ rest))
  walk-walk_rest (suc fuel) front [] objects = ground (arith, length-append front [])
  walk-walk_rest (suc fuel) front (x ∷ rest) objects = elim (Option-cases (table x)) [
    | inl e ↦ ground (arith, e, length-append front (x ∷ rest), get_elem?-append front (x ∷ rest) 0)
    | inr ((f, fixed), e) ↦
        elim (Result-cases (size_of (length_prefixed f) (command_format f) fixed rest)) [
          | inl (size, s) ↦ ground (
            arith,
            e,
            s,
            length-append front (x ∷ rest),
            get_elem?-append front (x ∷ rest) 0,
            value_length-append front x rest f fixed,
            slice_after front x rest size,
            walk_next fuel front x rest size (objects ++ ((x, take size rest) ∷ []))
                (walk-walk_rest fuel),
          )
          | inr (bad, s) ↦ ground (
            arith,
            e,
            s,
            length-append front (x ∷ rest),
            get_elem?-append front (x ∷ rest) 0,
            value_length-append front x rest f fixed,
          )
        ]
  ]
