-- ===== src/TestVectors/Verified.antt =====
-- What a vector says of itself: that its payload opens, and that it is to be accepted.
use bthome_writable.Common.{
  ℕ, ◌<◌, ◌≡◌, refl, sym, ap, ◌∙◌, subst, Bool, true, ◌&&◌, ◌||◌, Option, none, some, [], ◌∷◌, List,
  length, ltb, Result, ok, String, bind_ok, ok_same, All,
}
use bthome_writable.Protocol.Walk.{Bytes}
use bthome_writable.Protocol.Sealing.{Ccm, IsCcm}
use bthome_writable.TestVectors.{
  Direction, device_info_of, Options, Vector, Expect, accept, reject, accepts, key_or, only_if,
  payload_of, seal, vector,
}
use bthome_writable.TestVectors.Sealed.{Reads}
use bthome_writable.TestVectors.Opened.{Opens, framed, opens_as}
use bthome_writable.TestVectors.Build.{collect}

-- The counter is above the last one accepted, compared as numbers: PROTOCOL.md §5.3 compares within a
-- window modulo 2 ^ 32, which comes to the same for counters less than half of that apart.
abbrev pub above : Option ℕ → ℕ → Bool
above none counter = true
above (some last) counter = ltb last counter

-- A vector whose MIC is said to verify opens to its plaintext, and a vector is to be accepted just
-- when its MIC verifies and its counter is above the last one accepted.
abbrev pub IsFair : Ccm → Vector → Type 0
IsFair ccm v =
    (v.mic_valid ≡ true → Opens ccm v)
    × (accepts v.expect ≡ v.mic_valid && above v.last_accepted_counter v.counter)

-- Options under which the bytes of a vector are those that were sealed, if the MIC is said to verify.
abbrev pub IsIntact : Options → Type 0
IsIntact o =
    o.mic_valid ≡ true → (o.payload_override ≡ none) × (o.verify_key ≡ none) × Reads o.address

module _ (ccm : Ccm) (laws : IsCcm ccm) (aes : Bytes → Bytes → Result Bytes) where
  shown_lem :
      (e : Expect) (valid : Bool) (bytes : Bytes)
      → valid ≡ true
      → only_if (accepts e || valid) bytes ≡ some bytes
  shown_lem accept valid bytes h = refl
  shown_lem reject valid bytes h = rw h

  pub vector-IsFair :
      (name description : String) (direction : Direction) (counter : ℕ) (plaintext : Bytes)
      (o : Options)
      → IsIntact o
      → 0 < length plaintext
      → accepts o.expect ≡ o.mic_valid && above o.last_accepted_counter counter
      → (v : Vector) → vector ccm aes name description direction counter plaintext o ≡ ok v
      → IsFair ccm v
  unfolding vector
  vector-IsFair name description direction counter plaintext o intact filled policy v e =
      let a =
        bind_ok (seal ccm aes o.key o.address (device_info_of direction) counter plaintext) _ e in
      let b = bind_ok (payload_of o.payload_override direction a.0.1 counter a.0.2) _ a.2 in
      subst (IsFair ccm) (ok_same refl b.2) (
        λ valid.
            let (whole, own, reads) = intact valid in
            let payload = rw whole at b.1 in
            let opened =
              framed ccm laws aes o.key o.address counter plaintext a.0 reads filled direction b.0
                a.1 payload in
            let shown = sym (shown_lem o.expect o.mic_valid plaintext valid) in
            subst
              (λ w.
                opens_as ccm direction b.0 (key_or w o.key) o.address
                ≡ ok (only_if (accepts o.expect || o.mic_valid) plaintext))
              (sym own) (opened ∙ ap ok shown),
        policy,
      )

  abbrev pub Yields : Result Vector → Type 0
  Yields r = (v : Vector) → r ≡ ok v → IsFair ccm v

  pub collect-IsFair :
      (rs : List (Result Vector)) {vs : List Vector}
      → All Yields rs
      → collect rs ≡ ok vs
      → All (IsFair ccm) vs
  unfolding collect
  collect-IsFair [] h e = subst (All (IsFair ccm)) (ok_same refl e) tt
  collect-IsFair (r ∷ rs) h e =
      let a = bind_ok r _ e in
      let b = bind_ok (collect rs) _ a.2 in
      subst (All (IsFair ccm)) (ok_same refl b.2) (h.0 a.0 a.1, collect-IsFair rs h.1 b.1)
