-- ===== src/Identity/Settled.antt =====
-- An old identity is carried over to the one that the entity has now, and then stays.
use bthome_writable.Common.{
  ℕ, ◌≡◌, refl, sym, subst, Bool, false, none, some, List, [], ◌∷◌, ◌++◌, append_assoc, ok,
}
use bthome_writable.Protocol.Text.{Text}
use bthome_writable.Protocol.Declaration.{WritableEntry}
use bthome_writable.Identity.{
  decimal, hex_02, entity_unique_id, event_unique_id, after_prefix, attach, split, is_number,
  object_of, Domain, button, other_domain, new_id, free, move_to, migrate_parts, migrate,
}
use bthome_writable.Identity.Printed.{
  split-part, split-parts, after_prefix-append, decimal-IsPart, hex_02-IsPart, decimal-read,
  hex_02-read,
}

module _ (address : Text) (entries : List WritableEntry) where
  found :
      (text : Text) → after_prefix (address ++ (b'-' ∷ [])) (address ++ (b'-' ∷ text)) ≡ some text
  found text =
      subst (λ whole. after_prefix (address ++ (b'-' ∷ [])) whole ≡ some text)
        (append_assoc address (b'-' ∷ []) text) (after_prefix-append (address ++ (b'-' ∷ [])) text)

  not_a_number :
      (taken : Text → Bool) (domain : Domain) (parts : List Text)
      → migrate_parts address entries taken domain (attach b'e' parts) ≡ ok none
  unfolding migrate_parts is_number
  not_a_number taken domain [] = refl
  not_a_number taken domain (part ∷ parts) = refl

  -- An identity that begins with an `e` after the address stays.
  stays :
      (taken : Text → Bool) (domain : Domain) (rest : Text)
      → migrate address entries taken domain (address ++ (b'-' ∷ b'e' ∷ rest)) ≡ ok none
  unfolding migrate split
  stays taken domain rest = rw (found (b'e' ∷ rest)) (not_a_number taken domain (split rest))

  module _ (taken : Text → Bool) (number object_id : ℕ)
      (declared : object_of number entries ≡ some object_id) where
    moves :
        taken (entity_unique_id address number object_id) ≡ false
        → migrate address entries taken other_domain (address ++ (b'-' ∷ decimal number))
          ≡ ok (some (entity_unique_id address number object_id))
    unfolding migrate migrate_parts move_to new_id free
    moves unclaimed =
        let read = decimal-read number in
        rw
          (
            found (decimal number),
            split-part (decimal number) (decimal-IsPart number),
            read.0,
            read.1,
            declared,
            unclaimed,
          )
          refl

    button_moves :
        (code : ℕ)
        → taken (event_unique_id address number object_id code) ≡ false
        → migrate address entries taken button
            (address ++ (b'-' ∷ decimal number ++ (b'-' ∷ hex_02 code)))
          ≡ ok (some (event_unique_id address number object_id code))
    unfolding migrate migrate_parts move_to new_id free
    button_moves code unclaimed =
        let read = decimal-read number in
        let apart = split-parts (decimal number) (hex_02 code) (decimal-IsPart number) in
        let last = split-part (hex_02 code) (hex_02-IsPart code) in
        rw
          (
            found (decimal number ++ (b'-' ∷ hex_02 code)),
            apart,
            last,
            read.0,
            read.1,
            declared,
            hex_02-read code,
            unclaimed,
          )
          refl

    entity_stays :
        (later : Text → Bool) (domain : Domain)
        → migrate address entries later domain (entity_unique_id address number object_id) ≡ ok none
    unfolding entity_unique_id
    entity_stays later domain = stays later domain (decimal number ++ (b'-' ∷ hex_02 object_id))

    event_stays :
        (code : ℕ) (later : Text → Bool) (domain : Domain)
        → migrate address entries later domain (event_unique_id address number object_id code)
          ≡ ok none
    unfolding event_unique_id entity_unique_id
    event_stays code later domain =
        let value : Text = b'-' ∷ b'v' ∷ hex_02 code in
        let number' : Text = b'-' ∷ b'e' ∷ decimal number ++ (b'-' ∷ hex_02 object_id) in
        subst (λ id. migrate address entries later domain id ≡ ok none)
          (sym (append_assoc address number' value))
          (stays later domain ((decimal number ++ (b'-' ∷ hex_02 object_id)) ++ value))

    -- For an entry that the declaration has, and while no row answers to the new identities: the row
    -- `<address>-<entry>` of any domain but button takes the identity that the entity of the entry
    -- has now, and a button's row `<address>-<entry>-<code>` that of the event's value. No later run
    -- changes either of them again, whatever the domain and the other rows.
    pub migrate_settles :
        (code : ℕ) (later : Text → Bool) (domain : Domain)
        → taken (entity_unique_id address number object_id) ≡ false
        → taken (event_unique_id address number object_id code) ≡ false
        → (migrate address entries taken other_domain (address ++ (b'-' ∷ decimal number))
            ≡ ok (some (entity_unique_id address number object_id)))
          × (migrate address entries taken button
                (address ++ (b'-' ∷ decimal number ++ (b'-' ∷ hex_02 code)))
              ≡ ok (some (event_unique_id address number object_id code)))
          × (migrate address entries later domain (entity_unique_id address number object_id)
              ≡ ok none)
          × (migrate address entries later domain (event_unique_id address number object_id code)
              ≡ ok none)
    migrate_settles code later domain unclaimed unclaimed' = (
      moves unclaimed,
      button_moves code unclaimed',
      entity_stays later domain,
      event_stays code later domain,
    )
