-- ===== src/Slots/Requests.antt =====
-- The host's cap and who asked for it: `register_request`, `withdraw_request` and `reset` of
-- custom_components/bthome_writable/slots.py, over the one gate and the dictionary of requests.
pub mod Keys
pub mod Standing
use bthome_writable.Common.{
  ℕ, ◌≤◌, ◌≡◌, refl, sym, ◌∙◌, ◌⊎◌, inl, inr, String, str_eq, Bool, true, false, List, [], ◌∷◌, map,
  All, if◌then◌else◌, ◌==◌, max, min, Bool-cases, ==→eq, leb, leb→le, subst, arith,
}
use bthome_writable.Protocol.Const.{default_max_connections}
use bthome_writable.Slots.{Gate, init, resize}
use bthome_writable.Slots.Admission.{admit-Admits}
use bthome_writable.Slots.System.{Member}

pub record Host : Type 0 where
  pub gate : Gate
  pub asked : List (String × ℕ)

-- `_asked[address] = limit`
pub put : String → ℕ → List (String × ℕ) → List (String × ℕ)
put k v [] = (k, v) ∷ []
put k v ((j, w) ∷ asked) =
    let rest = put k v asked in if str_eq j k then (k, v) ∷ asked else (j, w) ∷ rest

-- `_asked.pop(address, None)`: the requests left, and whether there was one.
pub pop : String → List (String × ℕ) → List (String × ℕ) × Bool
pop k [] = ([], false)
pop k ((j, w) ∷ asked) =
    let rest = pop k asked in if str_eq j k then (asked, true) else ((j, w) ∷ rest.0, rest.1)

abbrev pub values : List (String × ℕ) → List ℕ
values = map (λ r. r.1)

-- `min(values, default=d)`
pub min_or : ℕ → List ℕ → ℕ
min_or d [] = d
min_or d (v ∷ []) = v
min_or d (v ∷ w ∷ vs) = min v (min_or d (w ∷ vs))

pub register_request : ℕ → String → ℕ → Host → Host
register_request now address limit h =
    let asked = put address (max 1 limit) h.asked in
    record {
      gate = resize now (min_or default_max_connections (values asked)) h.gate;
      asked = asked;
    }

pub withdraw_request : ℕ → String → Host → Host
withdraw_request now address h =
    let popped = pop address h.asked in
    if popped.1
    then record {
      gate = resize now (min_or default_max_connections (values popped.0)) h.gate;
      asked = popped.0;
    }
    else h

pub reset : Host → Host
reset h = record { gate = init default_max_connections; asked = [] }

pub data Request : Type 0 where
  registers : ℕ → String → ℕ → Request
  withdraws : ℕ → String → Request
  resets : Request

pub answer : Host → Request → Host
answer h (registers now address limit) = register_request now address limit h
answer h (withdraws now address) = withdraw_request now address h
answer h resets = reset h

pub answers : Host → List Request → Host
answers h [] = h
answers h (r ∷ rs) = answers (answer h r) rs

abbrev pub fresh : Host
fresh = record { gate = init default_max_connections; asked = [] }

-- The lowest of the values, or the default where there is none.
abbrev pub IsLowest : ℕ → List ℕ → Type 0
IsLowest limit vs =
    ((vs ≡ []) × (limit ≡ default_max_connections)) ⊎ (All (λ v. limit ≤ v) vs × Member limit vs)

resize-limit : (now limit : ℕ) (g : Gate) → (resize now limit g).limit ≡ max 1 limit
unfolding resize
resize-limit now limit g = elim (Bool-cases (max 1 limit == g.limit)) [
  | inl same ↦ rw same (sym (==→eq _ _ same))
  | inr other ↦ rw other (elim (admit-Admits now (record g { limit = max 1 limit })) [
    | inl (cooling, e) ↦ rw e refl
    | inr (warm, (front, s, drained)) ↦ s.same_limit
  ])
]

All-Member : (P : ℕ → Type 0) (m : ℕ) (vs : List ℕ) → All P vs → Member m vs → P m
All-Member P m [] a h = absurd h
All-Member P m (v ∷ vs) a (inl e) = subst P e a.0
All-Member P m (v ∷ vs) a (inr h) = All-Member P m vs a.1 h

All-le : (m n : ℕ) (vs : List ℕ) → m ≤ n → All (λ v. n ≤ v) vs → All (λ v. m ≤ v) vs
All-le m n [] h a = tt
All-le m n (v ∷ vs) h a = (omega arith, All-le m n vs h a.1)

-- The number is a lower bound of the list and in it.
abbrev IsLeast : ℕ → ℕ → List ℕ → ℕ → Type 0
IsLeast v w vs n = All (λ u. n ≤ u) (v ∷ w ∷ vs) × Member n (v ∷ w ∷ vs)

min_or-IsLowest :
    (d v : ℕ) (vs : List ℕ)
    → All (λ w. min_or d (v ∷ vs) ≤ w) (v ∷ vs) × Member (min_or d (v ∷ vs)) (v ∷ vs)
unfolding min_or
min_or-IsLowest d v [] = (omega arith, inl refl)
min_or-IsLowest d v (w ∷ vs) =
    let (least, among) = min_or-IsLowest d w vs in
    let m = min_or d (w ∷ vs) in
    elim (Bool-cases (leb v m)) [
      | inl low ↦
          let e : min v m ≡ v = omega (arith, leb→le _ _ low) in
          subst (IsLeast v w vs) (sym e)
            ((omega arith, All-le v m (w ∷ vs) (leb→le _ _ low) least), inl refl)
      | inr high ↦
          let above : m ≤ v = ground arith in
          let e : min v m ≡ m = omega arith in
          subst (IsLeast v w vs) (sym e) ((above, least), inr among)
    ]

-- Every request is at least one.
abbrev Positive : List (String × ℕ) → Type 0
Positive asked = All (λ v. 1 ≤ v) (values asked)

Positive-put :
    (k : String) (v : ℕ) (asked : List (String × ℕ))
    → 1 ≤ v
    → Positive asked
    → Positive (put k v asked)
unfolding put
Positive-put k v [] h a = (h, tt)
Positive-put k v ((j, w) ∷ asked) h a = elim (Bool-cases (str_eq j k)) [
  | inl same ↦ rw same (h, a.1)
  | inr other ↦ rw other (a.0, Positive-put k v asked h a.1)
]

Positive-pop : (k : String) (asked : List (String × ℕ)) → Positive asked → Positive (pop k asked).0
unfolding pop
Positive-pop k [] a = tt
Positive-pop k ((j, w) ∷ asked) a = elim (Bool-cases (str_eq j k)) [
  | inl same ↦ rw same a.1
  | inr other ↦ rw other (a.0, Positive-pop k asked a.1)
]

put-values :
    (k : String) (v : ℕ) (asked : List (String × ℕ))
    → ((w : ℕ) × (ws : List ℕ) × (values (put k v asked) ≡ w ∷ ws))
      × Member v (values (put k v asked))
unfolding put
put-values k v [] = ((v, [], refl), inl refl)
put-values k v ((j, w) ∷ asked) = elim (Bool-cases (str_eq j k)) [
  | inl same ↦ rw same ((v, values asked, refl), inl refl)
  | inr other ↦ rw other ((w, values (put k v asked), refl), inr (put-values k v asked).1)
]

-- The cap that a resize to the lowest of positive values sets is that lowest value.
resized-IsLowest :
    (now : ℕ) (g : Gate) (vs : List ℕ)
    → All (λ v. 1 ≤ v) vs
    → IsLowest (resize now (min_or default_max_connections vs) g).limit vs
resized-IsLowest now g [] a =
    inl
      (refl, resize-limit now (min_or default_max_connections []) g ∙ unfold min_or in omega arith)
resized-IsLowest now g (v ∷ vs) a =
    let m = min_or default_max_connections (v ∷ vs) in
    let (least, among) = min_or-IsLowest default_max_connections v vs in
    let positive : 1 ≤ m = All-Member (λ w. 1 ≤ w) m (v ∷ vs) a among in
    let same : (resize now m g).limit ≡ m = resize-limit now m g ∙ omega arith in
    subst (λ n. IsLowest n (v ∷ vs)) (sym same) (inr (least, among))

-- What holds of the host between requests.
record IsSettled (h : Host) : Type 0 where
  positive : Positive h.asked
  lowest : IsLowest h.gate.limit (values h.asked)

answer-IsSettled : (h : Host) (r : Request) → IsSettled h → IsSettled (answer h r)
unfolding answer register_request withdraw_request reset init
answer-IsSettled h (registers now address limit) s =
    let positive = Positive-put address (max 1 limit) h.asked (omega arith) s.positive in
    record {
      positive = positive;
      lowest = resized-IsLowest now h.gate (values (put address (max 1 limit) h.asked)) positive;
    }
answer-IsSettled h (withdraws now address) s = elim (Bool-cases (pop address h.asked).1) [
  | inl had ↦
      let positive = Positive-pop address h.asked s.positive in
      rw had (record {
        positive = positive;
        lowest = resized-IsLowest now h.gate (values (pop address h.asked).0) positive;
      })
  | inr unknown ↦ rw unknown s
]
answer-IsSettled h resets s = record { positive = tt; lowest = inl (refl, omega arith) }

answers-IsSettled : (h : Host) (rs : List Request) → IsSettled h → IsSettled (answers h rs)
unfolding answers
answers-IsSettled h [] s = s
answers-IsSettled h (r ∷ rs) s = answers-IsSettled (answer h r) rs (answer-IsSettled h r s)

-- The host's cap is the lowest value of its dictionary, and the default where that is empty.
pub answers-IsLowest :
    (rs : List Request) → IsLowest (answers fresh rs).gate.limit (values (answers fresh rs).asked)
answers-IsLowest rs =
    (answers-IsSettled fresh rs
      (record { positive = tt; lowest = unfold init in inl (refl, omega arith) })).lowest
