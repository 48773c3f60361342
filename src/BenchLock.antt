-- ===== src/BenchLock.antt =====
-- The lock of tools/bench_lock.py: one file on a share, read and written by commands that run beside
-- each other. What a lock says of the host, the process and the time it was taken, which no command
-- reads back, is left out. Time is in seconds.
pub mod Races
pub mod Waiting
pub mod Examples
use bthome_writable.Common.{
  ℕ, zero, suc, ◌+◌, ◌*◌, ◌≡◌, Bool, true, false, not, ◌&&◌, Option, none, some, String, str_eq,
  if◌then◌else◌, ltb, leb, Result, ok, err, Error, os_error, file_exists, out_of_fuel,
}

-- `get` of the two keys that may be missing; `expires` is 0 where it is.
pub record Lock : Type 0 where
  pub holder : Option String
  pub note : Option String
  pub expires : ℕ

-- The file: not there, not JSON, or a lock.
pub data File : Type 0 where
  absent garbage : File
  locked : Lock → File

-- `up`: the directory that holds the file can be reached.
pub record Share : Type 0 where
  pub up : Bool
  pub file : File

abbrev pub unreadable : String
unreadable = "<unreadable lock file>"

unfoldable pub read_lock : ℕ → Share → Result (Option Lock)
read_lock now share = if not share.up then err os_error else elim share.file [
  | absent ↦ ok none
  | garbage ↦ ok (some (record { holder = some unreadable; note = none; expires = now + 60 }))
  | locked lock ↦ ok (some lock)
]

-- `remaining(lock) < 0`
abbrev pub has_expired : ℕ → Lock → Bool
has_expired now lock = ltb lock.expires now

-- `lock.get("holder") == holder`
abbrev pub is_held_by : Option String → String → Bool
is_held_by none holder = false
is_held_by (some other) holder = str_eq other holder

abbrev pub create_file : Lock → File → Share → Share × Result (Unit {0})
create_file lock absent share = (record share { file = locked lock }, ok tt)
create_file lock file share = (share, err file_exists)

unfoldable pub write_lock : String → String → ℕ → Bool → ℕ → Share → Share × Result (Unit {0})
write_lock holder note minutes steal now share =
    let lock : Lock = record {
      holder = some holder;
      note = some note;
      expires = now + minutes * 60;
    } in
    if not share.up
    then (share, err os_error)
    else if steal
    then (record share { file = locked lock }, ok tt)
    else create_file lock share.file share

-- `os.remove(path)`
unfoldable pub remove_lock : Share → Share × Result (Unit {0})
remove_lock share = if not share.up then (share, err os_error) else elim share.file [
  | absent ↦ (share, err os_error)
  | file ↦ (record share { file = absent }, ok tt)
]

-- What a command does once it has read the lock: create it, write over it, remove it, return with
-- an exit code, or sleep and look again.
pub data Action : Type 0 where
  creates overwrites : String → ℕ → Action
  removes : Action
  returns : ℕ → Action
  sleeps : Action

pub data Command : Type 0 where
  acquire : String → ℕ → ℕ → Command
  renew : String → ℕ → Command
  release : Bool → Command

-- `args.note or current.get("note", "")`
abbrev pub note_or : String → Option String → String
note_or note none = note
note_or note (some old) = if str_eq note "" then old else note

-- The body of `cmd_acquire`'s loop, of `cmd_renew` and of `cmd_release` between the read and what
-- they do with the file. An `acquire` has its note, its minutes and its deadline.
unfoldable pub decide : String → Command → ℕ → Option Lock → Action
decide holder (acquire note minutes deadline) now none = creates note minutes
decide holder (acquire note minutes deadline) now (some current) =
    if is_held_by current.holder holder
    then overwrites note minutes
    else if has_expired now current
    then overwrites note minutes
    else if leb deadline now
    then returns 1
    else sleeps
decide holder (renew note minutes) now none = returns 1
decide holder (renew note minutes) now (some current) =
    if not (is_held_by current.holder holder)
    then returns 1
    else overwrites (note_or note current.note) minutes
decide holder (release force) now none = returns 0
decide holder (release force) now (some current) =
    if not (is_held_by current.holder holder) && not force then returns 1 else removes

-- What comes of it: an exit code, another turn of the loop at once or after a sleep, or an
-- exception that reaches `main`.
pub data Outcome : Type 0 where
  exits : ℕ → Outcome
  again slept raised : Outcome

-- `except FileExistsError` of `cmd_acquire`.
abbrev pub caught : Error → Outcome
caught file_exists = again
caught other = raised

abbrev pub ends_with : (Error → Outcome) → Result (Unit {0}) → Outcome
ends_with on_error (ok done) = exits 0
ends_with on_error (err e) = on_error e

unfoldable pub perform : String → Action → ℕ → Share → Share × Outcome
perform holder (creates note minutes) now share =
    let (after, written) = write_lock holder note minutes false now share in
    (after, ends_with caught written)
perform holder (overwrites note minutes) now share =
    let (after, written) = write_lock holder note minutes true now share in
    (after, ends_with (λ e. raised) written)
perform holder removes now share =
    let (after, removed) = remove_lock share in (after, ends_with (λ e. raised) removed)
perform holder (returns code) now share = (share, exits code)
perform holder sleeps now share = (share, slept)

-- One turn of a command with nobody beside it.
unfoldable pub turn : String → Command → ℕ → Share → Share × Outcome
turn holder command now share = elim (read_lock now share) [
  | err e ↦ (share, raised)
  | ok current ↦ perform holder (decide holder command now current) now share
]

-- `main` over one command, which returns 2 for an OSError, with nobody beside it: the share it leaves and the exit code. `fuel` is
-- the turns that `acquire` may take.
unfoldable pub main : ℕ → String → Command → ℕ → ℕ → Share → Share × Result ℕ
main zero holder command poll now share = (share, err out_of_fuel)
main (suc fuel) holder command poll now share =
    let (after, outcome) = turn holder command now share in
    elim outcome [
      | exits code ↦ (after, ok code)
      | again ↦ main fuel holder command poll now after
      | slept ↦ main fuel holder command poll (now + poll) after
      | raised ↦ (after, ok 2)
    ]

-- The exit code of `cmd_status`.
unfoldable pub cmd_status : ℕ → Share → Result ℕ
cmd_status now share = elim (read_lock now share) [
  | err e ↦ ok 2
  | ok none ↦ ok 0
  | ok (some lock) ↦ ok (if has_expired now lock then 0 else 1)
]
