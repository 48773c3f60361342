-- ===== src/Upload.antt =====
-- The board on its USB console, of tools/espruino_upload.py: the flow control of `SerialBoard` and the
-- conversation of `send_sketch` and `evaluate`. What was read from and written to the link so far is a
-- list, the newest first, and what the link does next is a function of it. Times are left out: a wait
-- or a listening takes a number of turns.
pub mod Written
pub mod Sent
pub mod Conversation
pub mod Returns
pub mod Examples
use bthome_writable.Common.{
  ℕ, zero, suc, Bool, true, false, not, List, [], ◌∷◌, ◌++◌, if◌then◌else◌, ◌==◌, take, drop,
  length, Result, ok, err, os_error,
}
use bthome_writable.Protocol.Walk.{Bytes}

abbrev pub xon : ℕ
xon = 0x11

abbrev pub xoff : ℕ
xoff = 0x13

abbrev pub ctrl_c : Bytes
ctrl_c = 3 ∷ []

pub data Event : Type 0 where
  heard wrote : Bytes → Event
  interrupts : Event

-- `serial.Serial`: what it reads next, and whether it takes a write.
pub record Link : Type 0 where
  pub read : List Event → Result Bytes
  pub takes : List Event → Result (Unit {0})

pub record SerialBoard : Type 0 where
  pub output : Bytes
  pub flowing : Bool
  pub log : List Event

-- `SerialBoard(port)`
abbrev pub opened : SerialBoard
opened = record { output = []; flowing = true; log = [] }

abbrev pub Turned : Type 0
Turned = SerialBoard × Result (Unit {0})

abbrev pub followed_by : Turned → (SerialBoard → Turned) → Turned
followed_by turned rest = elim turned.1 [
  | err raised ↦ (turned.0, err raised)
  | ok done ↦ rest turned.0
]

-- One byte of `_drain`, and of `Board._on_notify`.
unfoldable pub receive : ℕ → SerialBoard → SerialBoard
receive byte board =
    if byte == xoff
    then record board { flowing = false }
    else if byte == xon
    then record board { flowing = true }
    else record board { output = board.output ++ (byte ∷ []) }

unfoldable pub receive_all : Bytes → SerialBoard → SerialBoard
receive_all [] board = board
receive_all (byte ∷ bytes) board = receive_all bytes (receive byte board)

unfoldable pub take_in : Result Bytes → SerialBoard → Turned
take_in (err raised) board = (board, err raised)
take_in (ok bytes) board =
    (receive_all bytes (record board { log = heard bytes ∷ board.log }), ok tt)

abbrev pub put : Result (Unit {0}) → Event → SerialBoard → Turned
put (err raised) event board = (board, err raised)
put (ok done) event board = (record board { log = event ∷ board.log }, ok tt)

-- `payload[offset : offset + chunk] for offset in range(0, len(payload), chunk)`
unfoldable pub chunks : ℕ → ℕ → Bytes → List Bytes
chunks zero chunk rest = []
chunks (suc fuel) chunk [] = []
chunks (suc fuel) chunk (byte ∷ rest) =
    take chunk (byte ∷ rest) ∷ chunks fuel chunk (drop chunk (byte ∷ rest))

abbrev pub newline : Bytes
newline = 10 ∷ []

abbrev pub reset_line : Bytes
reset_line = b'r' ∷ b'e' ∷ b's' ∷ b'e' ∷ b't' ∷ b'(' ∷ b')' ∷ b';' ∷ 10 ∷ []

abbrev pub preamble : Bytes
preamble =
    b'c' ∷ b'l' ∷ b'e' ∷ b'a' ∷ b'r' ∷ b'I' ∷ b'n' ∷ b't' ∷ b'e' ∷ b'r' ∷ b'v' ∷ b'a' ∷ b'l' ∷ b'('
    ∷ b')' ∷ b';' ∷ b'c' ∷ b'l' ∷ b'e' ∷ b'a' ∷ b'r' ∷ b'W' ∷ b'a' ∷ b't' ∷ b'c' ∷ b'h' ∷ b'('
    ∷ b')' ∷ b';' ∷ 10 ∷ []

abbrev pub save_line : Bytes
save_line = b's' ∷ b'a' ∷ b'v' ∷ b'e' ∷ b'(' ∷ b')' ∷ b';' ∷ 10 ∷ []

-- `source.endswith("\n")`
unfoldable pub ends_line : Bytes → Bool
ends_line [] = false
ends_line (byte ∷ []) = byte == 10
ends_line (byte ∷ next ∷ rest) = ends_line (next ∷ rest)

-- `chunk` is 64. `patience`: the turns of 10 ms that do not bring `waited` past 30.
module _ (link : Link) (chunk patience : ℕ) where
  unfoldable pub drain : SerialBoard → Turned
  drain board = take_in (link.read board.log) board

  -- `while not self._flowing`
  unfoldable pub wait : ℕ → SerialBoard → Turned
  wait zero board =
      if board.flowing
      then (board, ok tt)
      else followed_by (drain board) (λ drained. (drained, err os_error))
  wait (suc left) board =
      if board.flowing then (board, ok tt) else followed_by (drain board) (wait left)

  unfoldable pub write : Bytes → SerialBoard → Turned
  write piece board = put (link.takes board.log) (wrote piece) board

  unfoldable pub send_pieces : List Bytes → SerialBoard → Turned
  send_pieces [] board = (board, ok tt)
  send_pieces (piece ∷ pieces) board = followed_by (wait patience board) (λ ready.
      followed_by (write piece ready) (λ written. followed_by (drain written) (send_pieces pieces)))

  unfoldable pub send : Bytes → SerialBoard → Turned
  send payload board = send_pieces (chunks (length payload) chunk payload) board

  unfoldable pub interrupt : SerialBoard → Turned
  interrupt board = followed_by (put (link.takes board.log) interrupts board) drain

  -- `turns`: how often the loop runs before the deadline.
  unfoldable pub listen : ℕ → SerialBoard → Turned
  listen zero board = (board, ok tt)
  listen (suc turns) board = followed_by (drain board) (listen turns)

  abbrev pub send_if : Bool → Bytes → SerialBoard → Turned
  send_if test payload board = if test then send payload board else (board, ok tt)

  abbrev pub restart : Bool → SerialBoard → Turned
  restart reset board =
      if reset then followed_by (send reset_line board) interrupt else (board, ok tt)

  unfoldable pub send_sketch : Bytes → Bool → Bool → ℕ → SerialBoard → Turned
  send_sketch source save reset turns board = followed_by (interrupt board) (λ b1.
      followed_by (restart reset b1) (λ b2.
        followed_by (send preamble (record b2 { output = [] })) (λ b3.
          followed_by (send source b3) (λ b4.
            followed_by (send_if (not (ends_line source)) newline b4) (λ b5.
              followed_by (send_if save save_line b5)
                (λ b6. followed_by (listen turns b6) drain))))))

  -- `evaluate` and `upload_serial` from the open link on; both close it, whatever was raised.
  abbrev pub start : SerialBoard → Turned
  start board = followed_by (drain board) (λ b. (record b { output = [] }, ok tt))

  unfoldable pub evaluate : Bytes → ℕ → SerialBoard → Turned
  evaluate statement turns board = followed_by (start board) (λ b1.
      followed_by (send (if ends_line statement then statement else statement ++ newline) b1)
        (λ b2. followed_by (listen turns b2) drain))

  unfoldable pub upload_serial : Bytes → Bool → Bool → ℕ → SerialBoard → Turned
  upload_serial source save reset turns board =
      followed_by (start board) (send_sketch source save reset turns)
