-- ===== src/Upload/Sent.antt =====
-- The operations of a board, one after the other: what each of them writes.
use bthome_writable.Common.{
  ℕ, zero, suc, ◌≤◌, ◌≡◌, refl, sym, ap, ◌∙◌, subst, true, List, [], ◌∷◌, ◌++◌, append-nil,
  append_assoc, length, All, Result, ok, err, Error, os_error, if_cases, arith,
}
use bthome_writable.Protocol.Walk.{Bytes}
use bthome_writable.Upload.{
  ctrl_c, heard, wrote, interrupts, Link, SerialBoard, Turned, followed_by, receive_all, take_in,
  put, drain, wait, write, send_pieces, interrupt, listen,
}
use bthome_writable.Upload.Written.{
  asks_more, last_signal, unless_told, written, Obeys, Kept, Writes, receive_all-flowing,
  receive_all-log, joined,
}

-- A call that raises ends there, and one that returns goes on.
by_end :
    (P : Turned → Type 0) (after : SerialBoard) (end : Result Unit) (rest : SerialBoard → Turned)
    → ((x : Error) → P (after, err x))
    → P (rest after)
    → P (followed_by (after, end) rest)
by_end P after (err x) rest raised goes = raised x
by_end P after (ok done) rest raised goes = goes

abbrev Asks : Turned → Type 0
Asks turned = turned.1 ≡ ok tt → turned.0.flowing ≡ true

module _ (chunk : ℕ) where
  -- An operation that ends where it began.
  pub rests :
      (board : SerialBoard) (end : Result Unit)
      → Kept chunk board
      → Writes chunk [] board (board, end)
  rests board end kept = record {
    kept = kept;
    front = ([], [], refl, sym (append-nil (written board.log)));
    whole = λ e. sym (append-nil (written board.log));
  }

  followed :
      (p q : Bytes) (board after : SerialBoard) (end : Result Unit) (rest : SerialBoard → Turned)
      → Writes chunk p board (after, end)
      → (end ≡ ok tt → (b : SerialBoard) → Kept chunk b → b ≡ after → Writes chunk q b (rest b))
      → Writes chunk (p ++ q) board (followed_by (after, end) rest)
  followed p q board after (err raised) rest first next = record {
    kept = first.kept;
    front = (
      first.front.0,
      first.front.1 ++ q,
      sym (append_assoc first.front.0 first.front.1 q) ∙ ap (λ r. r ++ q) first.front.2,
      first.front.3,
    );
    whole = λ e. absurd (ground arith);
  }
  followed p q board after (ok done) rest first next =
      let then' = next refl after first.kept refl in
      let start = written board.log in
      record {
        kept = then'.kept;
        front = (
          p ++ then'.front.0,
          then'.front.1,
          append_assoc p then'.front.0 then'.front.1 ∙ ap (λ r. p ++ r) then'.front.2,
          then'.front.3
              ∙ (ap (λ r. r ++ then'.front.0) (first.whole refl)
                  ∙ append_assoc start p then'.front.0),
        );
        whole = λ e. then'.whole e ∙ (ap (λ r. r ++ q) (first.whole refl) ∙ append_assoc start p q);
      }

  -- What follows, whatever board it finds.
  pub followed_by-Writes :
      (p q : Bytes) (board : SerialBoard) (turned : Turned) (rest : SerialBoard → Turned)
      → Writes chunk p board turned
      → ((b : SerialBoard) → Kept chunk b → Writes chunk q b (rest b))
      → Writes chunk (p ++ q) board (followed_by turned rest)
  followed_by-Writes p q board turned rest first next =
      followed p q board turned.0 turned.1 rest first (λ e b kept same. next b kept)

  take_in-Writes :
      (read : Result Bytes) (board : SerialBoard)
      → Kept chunk board
      → Writes chunk [] board (take_in read board)
  unfolding take_in
  take_in-Writes (err raised) board kept = rests board (err raised) kept
  take_in-Writes (ok bytes) board kept =
      let before : SerialBoard = record board { log = heard bytes ∷ board.log } in
      let log = receive_all-log bytes before in
      let same : written (receive_all bytes before).log ≡ written board.log ++ [] =
        ap written log ∙ sym (append-nil (written board.log)) in
      record {
        kept = record {
          knows =
              receive_all-flowing bytes before
              ∙ (ap (unless_told (last_signal bytes)) kept.knows ∙ ap asks_more (sym log));
          obeys = subst (Obeys chunk) (sym log) kept.obeys;
        };
        front = ([], [], refl, same);
        whole = λ e. same;
      }

  module _ (link : Link) (patience : ℕ) where
    pub drain-Writes :
        (board : SerialBoard)
        → Kept chunk board
        → Writes chunk [] board (drain link chunk patience board)
    unfolding drain
    drain-Writes board kept = take_in-Writes (link.read board.log) board kept

    pub interrupt-Writes :
        (board : SerialBoard)
        → Kept chunk board
        → Writes chunk ctrl_c board (interrupt link chunk patience board)
    unfolding interrupt
    interrupt-Writes board kept =
        followed_by-Writes ctrl_c [] board _ _ (interrupted (link.takes board.log) board kept)
          drain-Writes
      where
        interrupted :
            (taken : Result Unit) (b : SerialBoard)
            → Kept chunk b
            → Writes chunk ctrl_c b (put taken interrupts b)
        interrupted (err raised) b k = record {
          kept = k;
          front = ([], ctrl_c, refl, sym (append-nil (written b.log)));
          whole = λ e. absurd (ground arith);
        }
        interrupted (ok done) b k = record {
          kept = record { knows = k.knows; obeys = k.obeys };
          front = (ctrl_c, [], refl, refl);
          whole = λ e. refl;
        }

    pub listen-Writes :
        (turns : ℕ) (board : SerialBoard)
        → Kept chunk board
        → Writes chunk [] board (listen link chunk patience turns board)
    unfolding listen
    listen-Writes zero board kept = rests board (ok tt) kept
    listen-Writes (suc turns) board kept =
        followed_by-Writes [] [] board _ _ (drain-Writes board kept) (listen-Writes turns)

    -- A wait that returns leaves a board that asks for more.
    wait-Asks : (left : ℕ) (board : SerialBoard) → Asks (wait link chunk patience left board)
    unfolding wait
    wait-Asks zero board =
        if_cases {A = Turned} Asks board.flowing _ _ (λ f e. f)
          (λ f.
            by_end Asks (drain link chunk patience board).0 (drain link chunk patience board).1
              (λ drained. (drained, err os_error)) (λ x e. absurd (ground arith))
              (λ e. absurd (ground arith)))
    wait-Asks (suc left) board =
        if_cases {A = Turned} Asks board.flowing _ _ (λ f e. f)
          (λ f.
            by_end Asks (drain link chunk patience board).0 (drain link chunk patience board).1
              (wait link chunk patience left) (λ x e. absurd (ground arith)) (wait-Asks left _))

    wait-Writes :
        (left : ℕ) (board : SerialBoard)
        → Kept chunk board
        → Writes chunk [] board (wait link chunk patience left board)
    unfolding wait
    wait-Writes zero board kept =
        if_cases {A = Turned} (Writes chunk [] board) board.flowing _ _
          (λ f. rests board (ok tt) kept)
          (λ f.
            followed_by-Writes [] [] board _ _ (drain-Writes board kept)
              (λ b k. rests b (err os_error) k))
    wait-Writes (suc left) board kept =
        if_cases {A = Turned} (Writes chunk [] board) board.flowing _ _
          (λ f. rests board (ok tt) kept)
          (λ f. followed_by-Writes [] [] board _ _ (drain-Writes board kept) (wait-Writes left))

    write-Writes :
        (piece : Bytes) (board : SerialBoard)
        → Kept chunk board
        → board.flowing ≡ true
        → length piece ≤ chunk
        → Writes chunk piece board (write link chunk patience piece board)
    unfolding write
    write-Writes piece board kept asks small = put-Writes (link.takes board.log)
      where
        put-Writes :
            (taken : Result Unit) → Writes chunk piece board (put taken (wrote piece) board)
        put-Writes (err raised) = record {
          kept = kept;
          front = ([], piece, refl, sym (append-nil (written board.log)));
          whole = λ e. absurd (ground arith);
        }
        put-Writes (ok done) = record {
          kept = record { knows = kept.knows; obeys = (small, sym kept.knows ∙ asks, kept.obeys) };
          front = (piece, [], append-nil piece, refl);
          whole = λ e. refl;
        }

    pub send_pieces-Writes :
        (pieces : List Bytes) (board : SerialBoard)
        → All (λ piece. length piece ≤ chunk) pieces
        → Kept chunk board
        → Writes chunk (joined pieces) board (send_pieces link chunk patience pieces board)
    unfolding send_pieces
    send_pieces-Writes [] board small kept = rests board (ok tt) kept
    send_pieces-Writes (piece ∷ pieces) board small kept =
        let waited = wait link chunk patience patience board in
        followed [] (piece ++ joined pieces) board waited.0 waited.1 _
          (wait-Writes patience board kept)
          (λ returned ready k same.
            followed_by-Writes piece (joined pieces) ready _ _
              (write-Writes piece ready k
                (ap (λ b. b.flowing) same ∙ wait-Asks patience board returned) small.0)
              (λ b k'.
                followed_by-Writes [] (joined pieces) b _ _ (drain-Writes b k')
                  (λ b' k2. send_pieces-Writes pieces b' small.1 k2)))
