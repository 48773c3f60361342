-- ===== src/Upload/Returns.antt =====
-- An upload returns where the link does not raise and the board asks for more again in time.
use bthome_writable.Common.{
  ℕ, zero, suc, ◌≡◌, ◌<◌, ◌⊎◌, inl, inr, refl, sym, ap, subst, ◌∙◌, Bool, true, false, not, List,
  [], ◌∷◌, Result, ok, err, length, if_cases, arith,
}
use bthome_writable.Protocol.Walk.{Bytes}
use bthome_writable.Upload.{
  Event, heard, wrote, interrupts, Link, SerialBoard, opened, Turned, followed_by, take_in, put,
  chunks, newline, reset_line, preamble, save_line, ends_line, drain, wait, write, send_pieces,
  send, interrupt, listen, send_if, restart, send_sketch, start, upload_serial,
}
use bthome_writable.Upload.Written.{
  asks_more, written, last_signal, unless_told, receive_all-flowing, receive_all-log,
}
use bthome_writable.Upload.Conversation.{script, upload_serial-Writes}

-- The board asks for more, or does so after at most this many further reads.
abbrev pub Relents : Link → ℕ → List Event → Type 0
Relents link zero log = asks_more log ≡ true
Relents link (suc left) log =
    (asks_more log ≡ true)
    ⊎ ((bytes : Bytes) × (link.read log ≡ ok bytes) × Relents link left (heard bytes ∷ log))

-- A link that reads and takes whatever is asked of it, and whose board may stop the sender at any
-- time, but not for more reads than this.
pub record IsWilling (link : Link) (patience : ℕ) : Type 0 where
  pub reads : (log : List Event) → (bytes : Bytes) × (link.read log ≡ ok bytes)
  pub takes : (log : List Event) → link.takes log ≡ ok tt
  pub relents : (log : List Event) → Relents link patience log

-- The flag is what the board last asked for.
abbrev Knows : SerialBoard → Type 0
Knows board = board.flowing ≡ asks_more board.log

-- A call that returned, with a board whose flag is right.
record Flows (turned : Turned) : Type 0 where
  returned : turned.1 ≡ ok tt
  asks : Knows turned.0

goes_on :
    (after : SerialBoard) (end : Result Unit) (rest : SerialBoard → Turned)
    → end ≡ ok tt
    → Flows (rest after)
    → Flows (followed_by (after, end) rest)
goes_on after (err x) rest returned next = absurd (ground arith)
goes_on after (ok done) rest returned next = next

followed_by-Flows :
    (turned : Turned) (rest : SerialBoard → Turned)
    → Flows turned
    → ((b : SerialBoard) → Knows b → Flows (rest b))
    → Flows (followed_by turned rest)
followed_by-Flows turned rest first next =
    goes_on turned.0 turned.1 rest first.returned (next turned.0 first.asks)

clash : {b : Bool} → b ≡ true → b ≡ false → ⊥
clash p q = ground arith

module _ (link : Link) (chunk patience : ℕ) (willing : IsWilling link patience) where
  drain-log :
      (bytes : Bytes) (board : SerialBoard)
      → link.read board.log ≡ ok bytes
      → (drain link chunk patience board).0.log ≡ heard bytes ∷ board.log
  unfolding drain take_in
  drain-log bytes board is =
      rw (is) (receive_all-log bytes (record board { log = heard bytes ∷ board.log }))

  drain-Flows : (board : SerialBoard) → Knows board → Flows (drain link chunk patience board)
  unfolding drain take_in
  drain-Flows board f =
      let (bytes, is) = willing.reads board.log in
      let before : SerialBoard = record board { log = heard bytes ∷ board.log } in
      rw (is) (record {
        returned = refl;
        asks =
            receive_all-flowing bytes before
            ∙ (ap (unless_told (last_signal bytes)) f
                ∙ ap asks_more (sym (receive_all-log bytes before)));
      })

  put-Flows :
      (taken : Result Unit) (event : Event) (board : SerialBoard)
      → taken ≡ ok tt
      → board.flowing ≡ asks_more (event ∷ board.log)
      → Flows (put taken event board)
  put-Flows (err x) event board t f = absurd (ground arith)
  put-Flows (ok done) event board t f = (record { returned = refl; asks = f })

  stopped :
      (board : SerialBoard) → Knows board → board.flowing ≡ false → asks_more board.log ≡ true → ⊥
  stopped board f stop more = clash (f ∙ more) stop

  wait-Flows :
      (left : ℕ) (board : SerialBoard)
      → Knows board
      → Relents link left board.log
      → Flows (wait link chunk patience left board)
  unfolding wait
  wait-Flows zero board f relents =
      if_cases {A = Turned} Flows board.flowing _ _ (λ g. record { returned = refl; asks = f })
        (λ g. absurd (stopped board f g relents))
  wait-Flows (suc left) board f (inl more) =
      if_cases {A = Turned} Flows board.flowing _ _ (λ g. record { returned = refl; asks = f })
        (λ g. absurd (stopped board f g more))
  wait-Flows (suc left) board f (inr (bytes, is, relents)) =
      let read = drain link chunk patience board in
      let went = drain-Flows board f in
      if_cases {A = Turned} Flows board.flowing _ _ (λ g. record { returned = refl; asks = f })
        (λ g. goes_on read.0 read.1 (wait link chunk patience left) went.returned (
          wait-Flows left read.0 went.asks
            (subst (Relents link left) (sym (drain-log bytes board is)) relents)))

  send_pieces-Flows :
      (pieces : List Bytes) (board : SerialBoard)
      → Knows board
      → Flows (send_pieces link chunk patience pieces board)
  unfolding send_pieces write
  send_pieces-Flows [] board f = (record { returned = refl; asks = f })
  send_pieces-Flows (piece ∷ pieces) board f =
      followed_by-Flows _ _ (wait-Flows patience board f (willing.relents board.log)) (λ b g.
        followed_by-Flows _ _ (put-Flows (link.takes b.log) (wrote piece) b (willing.takes b.log) g)
          (λ b2 g2. followed_by-Flows _ _ (drain-Flows b2 g2) (send_pieces-Flows pieces)))

  send-Flows :
      (payload : Bytes) (board : SerialBoard)
      → Knows board
      → Flows (send link chunk patience payload board)
  unfolding send
  send-Flows payload board f = send_pieces-Flows (chunks (length payload) chunk payload) board f

  send_if-Flows :
      (test : Bool) (payload : Bytes) (board : SerialBoard)
      → Knows board
      → Flows (send_if link chunk patience test payload board)
  send_if-Flows false payload board f = (record { returned = refl; asks = f })
  send_if-Flows true payload board f = send-Flows payload board f

  interrupt-Flows :
      (board : SerialBoard) → Knows board → Flows (interrupt link chunk patience board)
  unfolding interrupt
  interrupt-Flows board f =
      followed_by-Flows _ _
        (put-Flows (link.takes board.log) interrupts board (willing.takes board.log) f) drain-Flows

  restart-Flows :
      (reset : Bool) (board : SerialBoard)
      → Knows board
      → Flows (restart link chunk patience reset board)
  restart-Flows false board f = (record { returned = refl; asks = f })
  restart-Flows true board f = followed_by-Flows _ _ (send-Flows reset_line board f) interrupt-Flows

  listen-Flows :
      (turns : ℕ) (board : SerialBoard)
      → Knows board
      → Flows (listen link chunk patience turns board)
  unfolding listen
  listen-Flows zero board f = (record { returned = refl; asks = f })
  listen-Flows (suc turns) board f =
      followed_by-Flows _ _ (drain-Flows board f) (listen-Flows turns)

  start-Flows : (board : SerialBoard) → Knows board → Flows (start link chunk patience board)
  start-Flows board f =
      followed_by-Flows _ (λ b. (record b { output = [] }, ok tt)) (drain-Flows board f)
        (λ b g. record { returned = refl; asks = g })

  -- The end of `send_sketch`, from the last listening on, and from the end of the source on.
  abbrev heard_out : ℕ → SerialBoard → Turned
  heard_out turns board =
      followed_by (listen link chunk patience turns board) (drain link chunk patience)

  heard_out-Flows : (turns : ℕ) (board : SerialBoard) → Knows board → Flows (heard_out turns board)
  heard_out-Flows turns board f =
      followed_by-Flows _ (drain link chunk patience) (listen-Flows turns board f) drain-Flows

  abbrev saved : Bool → ℕ → SerialBoard → Turned
  saved save turns board =
      followed_by (send_if link chunk patience save save_line board) (heard_out turns)

  saved-Flows :
      (save : Bool) (turns : ℕ) (board : SerialBoard) → Knows board → Flows (saved save turns board)
  saved-Flows save turns board f =
      followed_by-Flows _ (heard_out turns) (send_if-Flows save save_line board f)
        (heard_out-Flows turns)

  abbrev sketched : Bytes → Bool → ℕ → SerialBoard → Turned
  sketched source save turns board = followed_by (send link chunk patience source board) (λ b.
      followed_by (send_if link chunk patience (not (ends_line source)) newline b)
        (saved save turns))

  sketched-Flows :
      (source : Bytes) (save : Bool) (turns : ℕ) (board : SerialBoard)
      → Knows board
      → Flows (sketched source save turns board)
  sketched-Flows source save turns board f =
      followed_by-Flows _
        (λ b.
          followed_by (send_if link chunk patience (not (ends_line source)) newline b)
            (saved save turns))
        (send-Flows source board f)
        (λ b g.
          followed_by-Flows _ (saved save turns)
            (send_if-Flows (not (ends_line source)) newline b g) (saved-Flows save turns))

  abbrev prepared : Bytes → Bool → ℕ → SerialBoard → Turned
  prepared source save turns board =
      followed_by (send link chunk patience preamble (record board { output = [] }))
        (sketched source save turns)

  prepared-Flows :
      (source : Bytes) (save : Bool) (turns : ℕ) (board : SerialBoard)
      → Knows board
      → Flows (prepared source save turns board)
  prepared-Flows source save turns board f =
      followed_by-Flows _ (sketched source save turns)
        (send-Flows preamble (record board { output = [] }) f) (sketched-Flows source save turns)

  send_sketch-Flows :
      (source : Bytes) (save reset : Bool) (turns : ℕ) (board : SerialBoard)
      → Knows board
      → Flows (send_sketch link chunk patience source save reset turns board)
  unfolding send_sketch
  send_sketch-Flows source save reset turns board f =
      followed_by-Flows _
        (λ b. followed_by (restart link chunk patience reset b) (prepared source save turns))
        (interrupt-Flows board f)
        (λ b g.
          followed_by-Flows _ (prepared source save turns) (restart-Flows reset b g)
            (prepared-Flows source save turns))

  upload_serial-Flows :
      (source : Bytes) (save reset : Bool) (turns : ℕ)
      → Flows (upload_serial link chunk patience source save reset turns opened)
  unfolding upload_serial
  upload_serial-Flows source save reset turns =
      followed_by-Flows _ (send_sketch link chunk patience source save reset turns)
        (start-Flows opened refl) (send_sketch-Flows source save reset turns)

-- Where the link reads and takes whatever is asked of it, and the board, however often it stops the
-- sender, asks for more again within the reads that a wait has, an upload returns and has written the
-- interrupt, the reset and a second interrupt if asked for, the preamble, the sketch, a line's end if
-- the sketch has none, and the command to save if asked for. `chunk` is not 0.
pub upload_serial-total :
    (link : Link) (chunk patience : ℕ) (source : Bytes) (save reset : Bool) (turns : ℕ)
    → IsWilling link patience
    → 0 < chunk
    → ((upload_serial link chunk patience source save reset turns opened).1 ≡ ok tt)
      × (written (upload_serial link chunk patience source save reset turns opened).0.log
          ≡ script source save reset)
upload_serial-total link chunk patience source save reset turns willing some' =
    let flows = upload_serial-Flows link chunk patience willing source save reset turns in
    let writes = upload_serial-Writes link chunk patience source save reset turns some' in
    (flows.returned, writes.whole flows.returned)
