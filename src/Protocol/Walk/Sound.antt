-- ===== src/Protocol/Walk/Sound.antt =====
-- `split_objects` of protocol.py against the framing of BTHome objects, both ways, and that it ends.
use bthome_writable.Common.{
  ℕ, zero, suc, ◌+◌, ◌≤◌, ◌≡◌, refl, sym, ap, subst, ◌∙◌, ◌⊎◌, inl, inr, Option, none, some, List,
  [], ◌∷◌, ◌++◌, append_assoc, append-nil, length, take, drop, All, ok, err, protocol_error,
  length-append, length-take, length-drop, drop-append_eq, take-append_eq, take-append-drop, arith,
}
use bthome_writable.Protocol.Walk.{Bytes, Table, split_objects, length_prefixed, command_format}
use bthome_writable.Protocol.Walk.Framing.{
  IsFramed, StopsAt, encode_objects, size_of_complete, size_of_sound,
}
use bthome_writable.Protocol.Walk.Rest.{walk_rest, walk_rest_step, walk-walk_rest, walk_rest-Round}

module _ (table : Table) where
  -- One object, well framed, is taken as it is.
  walk_rest-object :
      (fuel object_id : ℕ) (value rest : Bytes) (at : ℕ) (objects : List (ℕ × Bytes))
      → IsFramed table (object_id, value)
      → walk_rest table (suc fuel) (object_id ∷ value ++ rest) at objects
        ≡ walk_rest table fuel rest (at + 1 + length value) (objects ++ ((object_id, value) ∷ []))
  walk_rest-object fuel object_id value rest at objects framed =
      let (f, fixed) = framed.format in
      let size =
        size_of_complete (length_prefixed f) (command_format f) fixed value rest framed.value in
      walk_rest_step table fuel object_id (value ++ rest) at objects f fixed (length value)
        framed.known framed.ordinary size (omega (arith, length-append value rest))
      ∙ rw (
        take-append_eq (length value) value rest refl,
        drop-append_eq (length value) value rest refl,
      )

  walk_rest-stop :
      (fuel : ℕ) (rest : Bytes) (at : ℕ) (stop : Option ℕ) (objects : List (ℕ × Bytes))
      → length rest ≤ fuel
      → StopsAt table at stop rest
      → walk_rest table fuel rest at objects ≡ ok (objects, stop)
  unfolding walk_rest
  walk_rest-stop zero [] at stop objects h s = ground arith
  walk_rest-stop zero (x ∷ rest) at stop objects h s = absurd (omega arith)
  walk_rest-stop (suc fuel) [] at stop objects h s = ground arith
  walk_rest-stop (suc fuel) (x ∷ rest) at stop objects h s = ground arith

  walk_rest_complete :
      (objects seen : List (ℕ × Bytes)) (fuel : ℕ) (rest : Bytes) (at : ℕ) (stop : Option ℕ)
      → length (encode_objects objects ++ rest) ≤ fuel
      → All (IsFramed table) objects
      → StopsAt table (at + length (encode_objects objects)) stop rest
      → walk_rest table fuel (encode_objects objects ++ rest) at seen ≡ ok (seen ++ objects, stop)
  walk_rest_complete [] seen fuel rest at stop h framed s =
      let here : at + 0 ≡ at = omega arith in
      rw append-nil (walk_rest-stop fuel rest at stop seen h (rw here at s))
  walk_rest_complete ((object_id, value) ∷ objects) seen zero rest at stop h framed s =
      absurd (omega arith)
  walk_rest_complete ((object_id, value) ∷ objects) seen (suc fuel) rest at stop h framed s =
      let more = encode_objects objects in
      let split : (value ++ more) ++ rest ≡ value ++ (more ++ rest) =
        append_assoc value more rest in
      let here : at + length (encode_objects ((object_id, value) ∷ objects))
          ≡ at + 1 + length value + length more =
        omega (arith, length-append value more) in
      rw split (
        walk_rest-object fuel object_id value (more ++ rest) at seen framed.0
        ∙ walk_rest_complete objects (seen ++ ((object_id, value) ∷ [])) fuel rest
            (at + 1 + length value) stop
            (omega (arith, ap length split, length-append value (more ++ rest))) framed.1
            (rw here at s)
        ∙ ap (λ os. ok (os, stop)) (append_assoc seen ((object_id, value) ∷ []) objects))

  -- What the walk returned is what stood there.
  abbrev Walked : Bytes → ℕ → List (ℕ × Bytes) → List (ℕ × Bytes) → Option ℕ → Type 0
  Walked rest at seen objects stop =
      (more : List (ℕ × Bytes)) × (tail : Bytes) × (objects ≡ seen ++ more)
      × (rest ≡ encode_objects more ++ tail)
      × All (IsFramed table) more
      × StopsAt table (at + length (encode_objects more)) stop tail

  walk_rest_sound :
      (fuel : ℕ) (rest : Bytes) (at : ℕ) (seen objects : List (ℕ × Bytes)) (stop : Option ℕ)
      → walk_rest table fuel rest at seen ≡ ok (objects, stop)
      → Walked rest at seen objects stop
  walk_rest_sound zero [] at seen objects stop e = (
    [],
    [],
    unfold walk_rest in ground (arith, append-nil seen),
    refl,
    tt,
    unfold walk_rest in ground arith,
  )
  walk_rest_sound zero (x ∷ rest) at seen objects stop e = unfold walk_rest in cc
  walk_rest_sound (suc fuel) [] at seen objects stop e = (
    [],
    [],
    unfold walk_rest in ground (arith, append-nil seen),
    refl,
    tt,
    unfold walk_rest in ground arith,
  )
  walk_rest_sound (suc fuel) (x ∷ rest) at seen objects stop e =
      elim (walk_rest-Round table fuel x rest at seen) [
        | inl (d, r) ↦
            ([], x ∷ rest, ground (arith, append-nil seen), refl, tt, inl (d, ground arith))
        | inr (inl (d, u, r)) ↦
            ([], x ∷ rest, ground (arith, append-nil seen), refl, tt, inr (d, u, ground arith))
        | inr (inr (inl r)) ↦ cc
        | inr (inr (inr (f, fixed, size, known, ordinary, sized, fits, r))) ↦
            let (more, tail, all, bytes, framed, s) =
              walk_rest_sound fuel (drop size rest) (at + 1 + size)
                (seen ++ ((x, take size rest) ∷ [])) objects stop (sym r ∙ e) in
            let value : Bytes = take size rest in
            (
              (x, value) ∷ more,
              tail,
              all ∙ append_assoc seen ((x, value) ∷ []) more,
              ap (λ t. x ∷ t)
                  (sym (take-append-drop size rest)
                    ∙ ap (λ t. value ++ t) bytes
                    ∙ sym (append_assoc value (encode_objects more) tail)),
              (
                record {
                  format = (f, fixed);
                  known = known;
                  ordinary = ordinary;
                  value =
                      size_of_sound (length_prefixed f) (command_format f) fixed rest size sized
                        fits;
                },
                framed,
              ),
              subst (λ (n : ℕ). StopsAt table n stop tail)
                  (omega (arith, length-take size rest, length-append value (encode_objects more)))
                  s,
            )
      ]

  walk_rest-total :
      (fuel : ℕ) (rest : Bytes) (at : ℕ) (seen : List (ℕ × Bytes))
      → length rest ≤ fuel
      → ((found : List (ℕ × Bytes) × Option ℕ) × (walk_rest table fuel rest at seen ≡ ok found))
        ⊎ (walk_rest table fuel rest at seen ≡ err protocol_error)
  walk_rest-total zero [] at seen h = inl ((seen, none), unfold walk_rest in refl)
  walk_rest-total zero (x ∷ rest) at seen h = absurd (omega arith)
  walk_rest-total (suc fuel) [] at seen h = inl ((seen, none), unfold walk_rest in refl)
  walk_rest-total (suc fuel) (x ∷ rest) at seen h =
      elim (walk_rest-Round table fuel x rest at seen) [
        | inl (d, r) ↦ inl ((seen, some at), r)
        | inr (inl (d, u, r)) ↦ inl ((seen, none), r)
        | inr (inr (inl r)) ↦ inr r
        | inr (inr (inr (f, fixed, size, known, ordinary, sized, fits, r))) ↦ rw r (
            walk_rest-total fuel (drop size rest) (at + 1 + size)
              (seen ++ ((x, take size rest) ∷ [])) (omega (arith, length-drop size rest)))
      ]

  split_objects-walk_rest :
      (payload : Bytes)
      → split_objects table payload ≡ walk_rest table (length payload) payload 0 []
  unfolding split_objects
  split_objects-walk_rest payload = walk-walk_rest table (length payload) [] payload []

  -- Well-framed objects of known ids, put one after another, are split into the same objects, up to
  -- the declaration, an unknown id or the end; a declaration's place is where it stands.
  pub split_objects-encode_objects :
      (objects : List (ℕ × Bytes)) (rest : Bytes) (stop : Option ℕ)
      → All (IsFramed table) objects
      → StopsAt table (length (encode_objects objects)) stop rest
      → split_objects table (encode_objects objects ++ rest) ≡ ok (objects, stop)
  split_objects-encode_objects objects rest stop framed s =
      let whole = encode_objects objects ++ rest in
      let here : 0 + length (encode_objects objects) ≡ length (encode_objects objects) =
        omega arith in
      split_objects-walk_rest whole
      ∙ walk_rest_complete objects [] (length whole) rest 0 stop (omega arith) framed (rw here s)

  -- A payload that is split is its objects put one after another, each well framed and of a known
  -- id, and what follows them is the declaration, an unknown id or nothing.
  pub split_objects_sound :
      (payload : Bytes) (objects : List (ℕ × Bytes)) (stop : Option ℕ)
      → split_objects table payload ≡ ok (objects, stop)
      → (rest : Bytes) × (payload ≡ encode_objects objects ++ rest)
        × All (IsFramed table) objects
        × StopsAt table (length (encode_objects objects)) stop rest
  split_objects_sound payload objects stop e =
      let (more, tail, all, bytes, framed, s) =
        walk_rest_sound (length payload) payload 0 [] objects stop
          (sym (split_objects-walk_rest payload) ∙ e) in
      let here : 0 + length (encode_objects more) ≡ length (encode_objects more) = omega arith in
      rw all (tail, bytes, framed, rw here at s)

  -- Every payload is split or refused with `ProtocolError`: no index is out of range, and the fuel is
  -- enough.
  pub split_objects-total :
      (payload : Bytes)
      → ((found : List (ℕ × Bytes) × Option ℕ) × (split_objects table payload ≡ ok found))
        ⊎ (split_objects table payload ≡ err protocol_error)
  split_objects-total payload =
      rw (split_objects-walk_rest payload)
        (walk_rest-total (length payload) payload 0 [] (omega arith))
