-- ===== src/Upload/Examples.antt =====
-- The sketch `1` sent to a board that stops the sender after each piece, then asks for more.
use bthome_writable.Common.{◌≡◌, refl, inl, inr, true, List, [], ◌∷◌, ok, arith}
use bthome_writable.Protocol.Walk.{Bytes}
use bthome_writable.Upload.{
  xon, xoff, Event, heard, wrote, interrupts, Link, opened, upload_serial, receive, receive_all,
  take_in, chunks, drain, wait, write, send_pieces, send, interrupt, listen, send_sketch, ends_line,
}
use bthome_writable.Upload.Written.{Writes, written}
use bthome_writable.Upload.Conversation.{script, upload_serial-Writes}
use bthome_writable.Upload.Returns.{IsWilling, Relents, upload_serial-total}

abbrev answer : List Event → Bytes
answer (wrote bytes ∷ log) = xoff ∷ []
answer (heard bytes ∷ log) = xon ∷ []
answer log = b'>' ∷ []

abbrev stop_and_go : Link
stop_and_go = record { read = λ log. ok (answer log); takes = λ log. ok tt }

upload_serial-Writes_example :
    Writes 64
      (script (b'1' ∷ []) true true)
      opened
      (upload_serial stop_and_go 64 3000 (b'1' ∷ []) true true 2 opened)
upload_serial-Writes_example =
    upload_serial-Writes stop_and_go 64 3000 (b'1' ∷ []) true true 2 (omega arith)

-- It returns, though the board stops the sender, if a wait may take a turn.
with_stops : (upload_serial stop_and_go 64 1 (b'1' ∷ []) true true 2 opened).1 ≡ ok tt
unfolding upload_serial receive receive_all take_in chunks drain wait write send_pieces send
    interrupt listen send_sketch ends_line
with_stops = refl

-- The same board, which never stops the sender for more than one further read.
stop_and_go-IsWilling : IsWilling stop_and_go 3
stop_and_go-IsWilling = record {
  reads = λ log. (answer log, refl);
  takes = λ log. refl;
  relents = again;
}
  where
    again : (log : List Event) → Relents stop_and_go 3 log
    again [] = inl refl
    again (heard bytes ∷ log) = inr (xon ∷ [], refl, inl refl)
    again (wrote bytes ∷ log) = inr (xoff ∷ [], refl, inr (xon ∷ [], refl, inl refl))
    again (interrupts ∷ log) = inr (b'>' ∷ [], refl, inr (xon ∷ [], refl, inl refl))

upload_serial-total_example :
    ((upload_serial stop_and_go 64 3 (b'1' ∷ []) true true 2 opened).1 ≡ ok tt)
    × (written (upload_serial stop_and_go 64 3 (b'1' ∷ []) true true 2 opened).0.log
        ≡ script (b'1' ∷ []) true true)
upload_serial-total_example =
    upload_serial-total stop_and_go 64 3 (b'1' ∷ []) true true 2 stop_and_go-IsWilling (omega arith)
