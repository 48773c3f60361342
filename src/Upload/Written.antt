-- ===== src/Upload/Written.antt =====
-- What a conversation writes on the link of a board, and when.
use bthome_writable.Common.{
  ℕ, zero, suc, ◌≤◌, ◌<◌, ◌≡◌, refl, sym, ap, ◌∙◌, Bool, true, false, Option, some, none, List, [],
  ◌∷◌, ◌++◌, if◌then◌else◌, ◌==◌, take, drop, length, length-drop, take-append-drop, ok, arith,
}
use bthome_writable.Protocol.Walk.{Bytes}
use bthome_writable.Upload.{
  xon, xoff, ctrl_c, Event, heard, wrote, interrupts, SerialBoard, Turned, receive, receive_all,
  chunks,
}

-- The last signal among bytes: `some true` asks for more, `some false` to stop.
abbrev pub signal_of : ℕ → Option Bool
signal_of byte = if byte == xoff then some false else if byte == xon then some true else none

abbrev pub or_later : Option Bool → Option Bool → Option Bool
or_later earlier none = earlier
or_later earlier (some signal) = some signal

abbrev pub last_signal : Bytes → Option Bool
last_signal [] = none
last_signal (byte ∷ bytes) = or_later (signal_of byte) (last_signal bytes)

abbrev pub unless_told : Option Bool → Bool → Bool
unless_told none before = before
unless_told (some signal) before = signal

-- What the board last asked for.
abbrev pub asks_more : List Event → Bool
asks_more [] = true
asks_more (heard bytes ∷ log) = unless_told (last_signal bytes) (asks_more log)
asks_more (wrote bytes ∷ log) = asks_more log
asks_more (interrupts ∷ log) = asks_more log

-- What was written, the oldest first.
abbrev pub written : List Event → Bytes
written [] = []
written (heard bytes ∷ log) = written log
written (wrote bytes ∷ log) = written log ++ bytes
written (interrupts ∷ log) = written log ++ ctrl_c

-- Every piece is at most `chunk` bytes, and was written while the board asked for more.
abbrev pub Obeys : ℕ → List Event → Type 0
Obeys chunk [] = Unit
Obeys chunk (heard bytes ∷ log) = Obeys chunk log
Obeys chunk (wrote bytes ∷ log) = (length bytes ≤ chunk) × (asks_more log ≡ true) × Obeys chunk log
Obeys chunk (interrupts ∷ log) = Obeys chunk log

-- A board that knows what was asked.
pub record Kept (chunk : ℕ) (board : SerialBoard) : Type 0 where
  pub knows : board.flowing ≡ asks_more board.log
  pub obeys : Obeys chunk board.log

-- A conversation that is to write a payload writes a front of it, and all of it if it returns.
pub record Writes (chunk : ℕ) (payload : Bytes) (board : SerialBoard) (turned : Turned)
    : Type 0 where
  pub kept : Kept chunk turned.0
  pub front :
      (first last : Bytes) × (first ++ last ≡ payload)
      × (written turned.0.log ≡ written board.log ++ first)
  pub whole : turned.1 ≡ ok tt → written turned.0.log ≡ written board.log ++ payload

unless-or_later :
    (earlier later : Option Bool) (before : Bool)
    → unless_told (or_later earlier later) before ≡ unless_told later (unless_told earlier before)
unless-or_later earlier none before = refl
unless-or_later earlier (some signal) before = refl

receive-flowing :
    (byte : ℕ) (board : SerialBoard)
    → (receive byte board).flowing ≡ unless_told (signal_of byte) board.flowing
unfolding receive
receive-flowing byte board = ground arith

receive-log : (byte : ℕ) (board : SerialBoard) → (receive byte board).log ≡ board.log
unfolding receive
receive-log byte board = ground arith

pub receive_all-flowing :
    (bytes : Bytes) (board : SerialBoard)
    → (receive_all bytes board).flowing ≡ unless_told (last_signal bytes) board.flowing
unfolding receive_all
receive_all-flowing [] board = refl
receive_all-flowing (byte ∷ bytes) board =
    receive_all-flowing bytes (receive byte board)
    ∙ (ap (unless_told (last_signal bytes)) (receive-flowing byte board)
        ∙ sym (unless-or_later (signal_of byte) (last_signal bytes) board.flowing))

pub receive_all-log :
    (bytes : Bytes) (board : SerialBoard) → (receive_all bytes board).log ≡ board.log
unfolding receive_all
receive_all-log [] board = refl
receive_all-log (byte ∷ bytes) board =
    receive_all-log bytes (receive byte board) ∙ receive-log byte board

-- The pieces of a payload are the payload.
abbrev pub joined : List Bytes → Bytes
joined [] = []
joined (piece ∷ pieces) = piece ++ joined pieces

pub joined-chunks :
    (fuel chunk : ℕ) (rest : Bytes)
    → 0 < chunk
    → length rest ≤ fuel
    → joined (chunks fuel chunk rest) ≡ rest
unfolding chunks
joined-chunks zero chunk [] some' enough = refl
joined-chunks zero chunk (byte ∷ rest) some' enough = absurd (omega arith)
joined-chunks (suc fuel) chunk [] some' enough = refl
joined-chunks (suc fuel) chunk (byte ∷ rest) some' enough =
    let shorter =
      joined-chunks fuel chunk (drop chunk (byte ∷ rest)) some'
        (omega (arith, length-drop chunk (byte ∷ rest))) in
    ap (λ r. take chunk (byte ∷ rest) ++ r) shorter ∙ take-append-drop chunk (byte ∷ rest)
