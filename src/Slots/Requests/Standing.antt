-- ===== src/Slots/Requests/Standing.antt =====
-- Which requests stand after a history of them, told without the dictionary of
-- custom_components/bthome_writable/slots.py, and that the dictionary holds those.
use bthome_writable.Common.{
  ℕ, ◌≤◌, ◌≡◌, refl, sym, ap, ◌∙◌, inl, inr, String, str_eq, Option, none, some, List, [], ◌∷◌, All,
  if◌then◌else◌, max, Bool-cases, arith,
}
use bthome_writable.Protocol.Const.{default_max_connections}
use bthome_writable.Slots.System.{Member}
use bthome_writable.Slots.Requests.{
  Host, Request, registers, withdraws, resets, pop, values, register_request, withdraw_request,
  reset, answer, answers, fresh, answers-IsLowest,
}
use bthome_writable.Slots.Requests.Keys.{
  find, Distinct, find-put, find-pop, pop-missing, Distinct-put, Distinct-pop, find-Member,
  Member-find, nothing_found,
}

-- What a request says of an entry's address: nothing, that it asks for no number any more, or that
-- it asks for this many.
pub data Word : Type 0 where
  silent withdrawn : Word
  wants : ℕ → Word

abbrev pub said : String → Request → Word
said a (registers now address limit) = if str_eq address a then wants (max 1 limit) else silent
said a (withdraws now address) = if str_eq address a then withdrawn else silent
said a resets = withdrawn

abbrev pub later_word : Word → Word → Word
later_word before silent = before
later_word before withdrawn = withdrawn
later_word before (wants n) = wants n

-- The last word on an address, of requests the oldest of which stands first.
abbrev pub last_word : String → List Request → Word
last_word a [] = silent
last_word a (r ∷ rs) = later_word (said a r) (last_word a rs)

abbrev pub over : Word → Option ℕ → Option ℕ
over silent known = known
over withdrawn known = none
over (wants n) known = some n

-- What an address asks for after all of them.
abbrev pub stands : String → List Request → Option ℕ
stands a rs = over (last_word a rs) none

-- The lowest of the numbers that stand, or the default where none stands.
pub data IsCap (rs : List Request) (limit : ℕ) : Type 0 where
  by_default :
      ((a : String) → stands a rs ≡ none) → limit ≡ default_max_connections → IsCap rs limit
  lowest :
      (a : String)
      → stands a rs ≡ some limit
      → ((b : String) (v : ℕ) → stands b rs ≡ some v → limit ≤ v)
      → IsCap rs limit

answer-find :
    (a : String) (h : Host) (r : Request)
    → Distinct h.asked
    → (find a (answer h r).asked ≡ over (said a r) (find a h.asked)) × Distinct (answer h r).asked
unfolding answer register_request withdraw_request reset
answer-find a h (registers now address limit) d = (
  find-put a address (max 1 limit) h.asked
      ∙ elim (Bool-cases (str_eq address a)) [ inl own ↦ rw own refl | inr other ↦ rw other refl ],
  Distinct-put address (max 1 limit) h.asked d,
)
answer-find a h (withdraws now address) d =
    let gone = find-pop a address h.asked d ∙ said_lem in
    elim (Bool-cases (pop address h.asked).1) [
      | inl had ↦ rw had (gone, Distinct-pop address h.asked d)
      | inr unknown ↦
          let same = pop-missing address h.asked unknown in
          rw unknown (ap (find a) (sym same) ∙ gone, d)
    ]
  where
    said_lem :
        (if str_eq address a then none else find a h.asked)
        ≡ over (if str_eq address a then withdrawn else silent) (find a h.asked)
    said_lem = elim (Bool-cases (str_eq address a)) [
      | inl own ↦ rw own refl
      | inr other ↦ rw other refl
    ]
answer-find a h resets d = (refl, tt)

over-later : (u w : Word) (known : Option ℕ) → over (later_word u w) known ≡ over w (over u known)
over-later u silent known = refl
over-later u withdrawn known = refl
over-later u (wants n) known = refl

answers-find :
    (a : String) (h : Host) (rs : List Request)
    → Distinct h.asked
    → (find a (answers h rs).asked ≡ over (last_word a rs) (find a h.asked))
      × Distinct (answers h rs).asked
unfolding answers
answers-find a h [] d = (refl, d)
answers-find a h (r ∷ rs) d =
    let (first, still) = answer-find a h r d in
    let (rest, end) = answers-find a (answer h r) rs still in
    (
      rest
          ∙ (ap (over (last_word a rs)) first
              ∙ sym (over-later (said a r) (last_word a rs) (find a h.asked))),
      end,
    )

All-Member : (n v : ℕ) (vs : List ℕ) → All (λ w. n ≤ w) vs → Member v vs → n ≤ v
All-Member n v [] a h = absurd h
All-Member n v (w ∷ vs) a (inl e) = omega (arith, a.0)
All-Member n v (w ∷ vs) a (inr h) = All-Member n v vs a.1 h

-- Whatever entries register, register again and withdraw, the host's cap is the lowest of the numbers
-- that stand, and the default where none stands. What stands for an address is told by the last of
-- the requests that names it, a registration being of at least one, and a reset names them all.
pub answers-IsCap : (rs : List Request) → IsCap rs (answers fresh rs).gate.limit
answers-IsCap rs =
    let m = (answers fresh rs).asked in
    let held = λ (a : String). (answers-find a fresh rs tt).0 in
    elim (answers-IsLowest rs) [
      | inl (bare, usual) ↦ by_default (λ a. sym (held a) ∙ nothing_found a m bare) usual
      | inr (least, among) ↦
          let (a, is) = Member-find _ m (answers-find "" fresh rs tt).1 among in
          lowest a (sym (held a) ∙ is)
            (λ b v stand. All-Member _ v (values m) least (find-Member b v m (held b ∙ stand)))
    ]
