-- ===== src/Upload/Conversation.antt =====
-- What an upload, and a statement sent to a running board, write on the link.
use bthome_writable.Common.{
  ℕ, zero, suc, ◌≤◌, ◌<◌, refl, subst, Bool, true, false, not, List, [], ◌∷◌, ◌++◌, append-nil,
  if◌then◌else◌, drop, length, length-take, All, ok, arith,
}
use bthome_writable.Protocol.Walk.{Bytes}
use bthome_writable.Upload.{
  ctrl_c, Link, SerialBoard, opened, Turned, followed_by, chunks, newline, reset_line, preamble,
  save_line, ends_line, drain, send_pieces, send, listen, send_if, restart, send_sketch, start,
  evaluate, upload_serial,
}
use bthome_writable.Upload.Written.{Kept, Writes, joined-chunks}
use bthome_writable.Upload.Sent.{
  rests, followed_by-Writes, drain-Writes, interrupt-Writes, listen-Writes, send_pieces-Writes,
}

abbrev pub if_asked : Bool → Bytes → Bytes
if_asked test bytes = if test then bytes else []

-- A sketch on the wire.
abbrev pub script : Bytes → Bool → Bool → Bytes
script source save reset =
    ctrl_c
    ++ (if_asked reset (reset_line ++ ctrl_c)
        ++ (preamble
            ++ (source ++ (if_asked (not (ends_line source)) newline ++ if_asked save save_line))))

chunks-small :
    (fuel chunk : ℕ) (rest : Bytes) → All (λ piece. length piece ≤ chunk) (chunks fuel chunk rest)
unfolding chunks
chunks-small zero chunk rest = tt
chunks-small (suc fuel) chunk [] = tt
chunks-small (suc fuel) chunk (byte ∷ rest) = (
  omega (arith, length-take chunk (byte ∷ rest)),
  chunks-small fuel chunk (drop chunk (byte ∷ rest)),
)

module _ (link : Link) (chunk patience : ℕ) (some' : 0 < chunk) where
  send-Writes :
      (payload : Bytes) (board : SerialBoard)
      → Kept chunk board
      → Writes chunk payload board (send link chunk patience payload board)
  unfolding send
  send-Writes payload board kept =
      subst (λ p. Writes chunk p board (send_pieces link chunk patience pieces board))
        (joined-chunks (length payload) chunk payload some' (omega arith))
        (send_pieces-Writes chunk link patience pieces board
          (chunks-small (length payload) chunk payload) kept)
    where
      pieces : List Bytes
      pieces = chunks (length payload) chunk payload

  send_if-Writes :
      (test : Bool) (payload : Bytes) (board : SerialBoard)
      → Kept chunk board
      → Writes chunk (if_asked test payload) board (send_if link chunk patience test payload board)
  send_if-Writes false payload board kept = rests chunk board (ok tt) kept
  send_if-Writes true payload board kept = send-Writes payload board kept

  -- What the console said so far does not matter.
  cleared :
      (payload : Bytes) (board : SerialBoard) (turned : Turned)
      → Writes chunk payload (record board { output = [] }) turned
      → Writes chunk payload board turned
  cleared payload board turned w = record { kept = w.kept; front = w.front; whole = w.whole }

  cleared-Kept : (b : SerialBoard) → Kept chunk b → Kept chunk (record b { output = [] })
  cleared-Kept b k = record { knows = k.knows; obeys = k.obeys }

  restart-Writes :
      (reset : Bool) (board : SerialBoard)
      → Kept chunk board
      → Writes chunk
          (if_asked reset (reset_line ++ ctrl_c))
          board
          (restart link chunk patience reset board)
  restart-Writes false board kept = rests chunk board (ok tt) kept
  restart-Writes true board kept =
      followed_by-Writes chunk reset_line ctrl_c board _ _ (send-Writes reset_line board kept)
        (interrupt-Writes chunk link patience)

  start-Writes :
      (board : SerialBoard)
      → Kept chunk board
      → Writes chunk [] board (start link chunk patience board)
  start-Writes board kept =
      followed_by-Writes chunk [] [] board _ _ (drain-Writes chunk link patience board kept)
        (λ b k. cleared [] b _ (rests chunk _ (ok tt) (cleared-Kept b k)))

  -- The end of a conversation: the board is listened to and nothing is written.
  closing :
      (payload : Bytes) (turns : ℕ) (board : SerialBoard) (turned : Turned)
      → Writes chunk payload board turned
      → Writes chunk payload board (
          followed_by turned
            (λ b. followed_by (listen link chunk patience turns b) (drain link chunk patience)))
  closing payload turns board turned w =
      subst
        (λ p. Writes chunk p board (
          followed_by turned
            (λ b. followed_by (listen link chunk patience turns b) (drain link chunk patience))))
        (append-nil payload)
        (followed_by-Writes chunk payload [] board turned _ w (λ b k.
          followed_by-Writes chunk [] [] b _ _ (listen-Writes chunk link patience turns b k)
            (drain-Writes chunk link patience)))

  send_sketch-Writes :
      (source : Bytes) (save reset : Bool) (turns : ℕ) (board : SerialBoard)
      → Kept chunk board
      → Writes chunk
          (script source save reset)
          board
          (send_sketch link chunk patience source save reset turns board)
  unfolding send_sketch
  send_sketch-Writes source save reset turns board kept =
      followed_by-Writes chunk ctrl_c _ board _ _ (interrupt-Writes chunk link patience board kept)
        (λ b1 k1. followed_by-Writes chunk _ _ b1 _ _ (restart-Writes reset b1 k1) (λ b2 k2.
          followed_by-Writes chunk preamble _ b2 _ _
            (cleared preamble b2 _ (send-Writes preamble _ (cleared-Kept b2 k2)))
            (λ b3 k3. followed_by-Writes chunk source _ b3 _ _ (send-Writes source b3 k3) (λ b4 k4.
              followed_by-Writes chunk _ _ b4 _ _ (send_if-Writes _ newline b4 k4)
                (λ b5 k5. closing _ turns b5 _ (send_if-Writes save save_line b5 k5))))))

-- A board that was just opened.
opened-Kept : (chunk : ℕ) → Kept chunk opened
opened-Kept chunk = record { knows = refl; obeys = tt }

-- On every link, and whatever the board says, an upload writes the interrupt, the reset and a second
-- interrupt if asked for, the preamble, the sketch, a line's end if the sketch has none, and the
-- command to save if asked for, in this order and without a byte lost: all of it if it returns, and a
-- front of it if the link raises or the board does not ask for more in time. Each piece but an
-- interrupt has at most `chunk` bytes, `chunk` not being 0, and is written while the last signal that
-- was read, if any, asked for more.
pub upload_serial-Writes :
    (link : Link) (chunk patience : ℕ) (source : Bytes) (save reset : Bool) (turns : ℕ)
    → 0 < chunk
    → Writes chunk
        (script source save reset)
        opened
        (upload_serial link chunk patience source save reset turns opened)
unfolding upload_serial
upload_serial-Writes link chunk patience source save reset turns some' =
    followed_by-Writes chunk [] _ opened _ _
      (start-Writes link chunk patience some' opened (opened-Kept chunk))
      (send_sketch-Writes link chunk patience some' source save reset turns)

-- The same of a statement that a running board is sent.
evaluate-Writes :
    (link : Link) (chunk patience : ℕ) (statement : Bytes) (turns : ℕ)
    → 0 < chunk
    → Writes chunk
        (if ends_line statement then statement else statement ++ newline)
        opened
        (evaluate link chunk patience statement turns opened)
unfolding evaluate
evaluate-Writes link chunk patience statement turns some' =
    followed_by-Writes chunk [] _ opened _ _
      (start-Writes link chunk patience some' opened (opened-Kept chunk))
      (λ b k.
        closing link chunk patience some' _ turns b _ (send-Writes link chunk patience some' _ b k))
