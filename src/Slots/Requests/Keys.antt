-- ===== src/Slots/Requests/Keys.antt =====
-- The dictionary of requests of custom_components/bthome_writable/slots.py: what `_asked[address]` is
-- after it was set, or popped, for any address.
use bthome_writable.Common.{
  ℕ, ◌≡◌, refl, sym, ap, ◌∙◌, inl, inr, String, str_eq, Bool, true, false, Option, none, some, List,
  [], ◌∷◌, if◌then◌else◌, Bool-cases, subst, arith,
}
use text.Mathlib.TextEquality.{eq_iff}
use bthome_writable.Slots.System.{Member}
use bthome_writable.Slots.Requests.{put, pop, values}

abbrev pub find : String → List (String × ℕ) → Option ℕ
find a [] = none
find a ((j, v) ∷ asked) = let rest = find a asked in if str_eq j a then some v else rest

-- No key is there twice.
abbrev pub Distinct : List (String × ℕ) → Type 0
Distinct [] = Unit {0}
Distinct ((j, v) ∷ asked) = (find j asked ≡ none) × Distinct asked

clash : {b : Bool} → b ≡ true → b ≡ false → ⊥
clash p q = ground arith

itself : (a : String) → str_eq a a ≡ true
itself a = (eq_iff a a).1 refl

differs : (a b : String) → str_eq a b ≡ false → str_eq b a ≡ false
differs a b h = elim (Bool-cases (str_eq b a)) [
  | inl same ↦ absurd (clash ((eq_iff a b).1 (sym ((eq_iff b a).0 same))) h)
  | inr other ↦ other
]

-- Equal keys compare alike.
alike : (j k a : String) → str_eq j k ≡ true → str_eq j a ≡ str_eq k a
alike j k a h = ap (λ x. str_eq x a) ((eq_iff j k).0 h)

pub find-put :
    (a k : String) (v : ℕ) (m : List (String × ℕ))
    → find a (put k v m) ≡ (if str_eq k a then some v else find a m)
unfolding put
find-put a k v [] = refl
find-put a k v ((j, w) ∷ m) = elim (Bool-cases (str_eq j k)) [
  | inl same ↦ elim (Bool-cases (str_eq k a)) [
    | inl own ↦ rw (same, own) refl
    | inr other ↦
        let apart : str_eq j a ≡ false = alike j k a same ∙ other in rw (same, other, apart) refl
  ]
  | inr new ↦ elim (Bool-cases (str_eq j a)) [
    | inl here ↦
        let apart : str_eq k a ≡ false = differs a k (sym (alike j a k here) ∙ new) in
        rw (new, here, apart) refl
    | inr elsewhere ↦ rw (new, elsewhere) (find-put a k v m)
  ]
]

pub find-pop :
    (a k : String) (m : List (String × ℕ))
    → Distinct m
    → find a (pop k m).0 ≡ (if str_eq k a then none else find a m)
unfolding pop
find-pop a k [] d = elim (Bool-cases (str_eq k a)) [
  | inl own ↦ rw own refl
  | inr other ↦ rw other refl
]
find-pop a k ((j, w) ∷ m) d = elim (Bool-cases (str_eq j k)) [
  | inl same ↦ elim (Bool-cases (str_eq k a)) [
    | inl own ↦
        let here : j ≡ a = (eq_iff j k).0 same ∙ (eq_iff k a).0 own in
        rw (same, own) (subst (λ x. find x m ≡ none) here d.0)
    | inr other ↦
        let apart : str_eq j a ≡ false = alike j k a same ∙ other in rw (same, other, apart) refl
  ]
  | inr new ↦ elim (Bool-cases (str_eq j a)) [
    | inl here ↦
        let apart : str_eq k a ≡ false = differs a k (sym (alike j a k here) ∙ new) in
        rw (new, here, apart) refl
    | inr elsewhere ↦ rw (new, elsewhere) (find-pop a k m d.1)
  ]
]

pub pop-missing : (k : String) (m : List (String × ℕ)) → (pop k m).1 ≡ false → (pop k m).0 ≡ m
unfolding pop
pop-missing k [] h = refl
pop-missing k ((j, w) ∷ m) h = elim (Bool-cases (str_eq j k)) [
  | inl same ↦ absurd (ground (arith, rw same at h))
  | inr new ↦ rw new (ap (λ r. (j, w) ∷ r) (pop-missing k m (rw new at h)))
]

pub Distinct-put : (k : String) (v : ℕ) (m : List (String × ℕ)) → Distinct m → Distinct (put k v m)
unfolding put
Distinct-put k v [] d = (refl, tt)
Distinct-put k v ((j, w) ∷ m) d = elim (Bool-cases (str_eq j k)) [
  | inl same ↦ rw same (subst (λ x. find x m ≡ none) ((eq_iff j k).0 same) d.0, d.1)
  | inr new ↦
      let apart = differs j k new in
      rw new (find-put j k v m ∙ rw apart d.0, Distinct-put k v m d.1)
]

pub Distinct-pop : (k : String) (m : List (String × ℕ)) → Distinct m → Distinct (pop k m).0
unfolding pop
Distinct-pop k [] d = tt
Distinct-pop k ((j, w) ∷ m) d = elim (Bool-cases (str_eq j k)) [
  | inl same ↦ rw same d.1
  | inr new ↦
      let apart = differs j k new in
      rw new (find-pop j k m d.1 ∙ rw apart d.0, Distinct-pop k m d.1)
]

pub find-Member :
    (a : String) (v : ℕ) (m : List (String × ℕ)) → find a m ≡ some v → Member v (values m)
find-Member a v [] h = absurd (ground arith)
find-Member a v ((j, w) ∷ m) h = elim (Bool-cases (str_eq j a)) [
  | inl here ↦ inl (ground (arith, rw here at h))
  | inr elsewhere ↦ inr (find-Member a v m (rw elsewhere at h))
]

pub Member-find :
    (v : ℕ) (m : List (String × ℕ))
    → Distinct m
    → Member v (values m)
    → (a : String) × (find a m ≡ some v)
Member-find v [] d h = absurd h
Member-find v ((j, w) ∷ m) d (inl is) = let here = itself j in (j, rw here (ap some is))
Member-find v ((j, w) ∷ m) d (inr h) =
    let (a, is) = Member-find v m d.1 h in
    elim (Bool-cases (str_eq j a)) [
      | inl here ↦
          let twice : find a m ≡ none = subst (λ x. find x m ≡ none) ((eq_iff j a).0 here) d.0 in
          absurd (ground arith)
      | inr elsewhere ↦ (a, rw elsewhere is)
    ]

pub nothing_found : (a : String) (m : List (String × ℕ)) → values m ≡ [] → find a m ≡ none
nothing_found a [] e = refl
nothing_found a ((j, w) ∷ m) e = absurd (ground arith)
