-- ===== src/DebugRing/Tests.antt =====
-- The flight recorder and its daemon at concrete logs.
use n_igpu_macos.Common.{
  ℕ, ◌-◌, ◌≡◌, ◌≢◌, refl, if◌then◌else◌, ◌==◌, List, [], ◌∷◌, inl, inr, none, some, true, length,
  get_or, min, arith,
}
use Prim.Native.String.{String}
use n_igpu_macos.DebugRing.{
  DebugRecord, DebugRing, Event, zero_event, zero_record, init, snapshot, read,
}
use n_igpu_macos.DebugRing.Format.{Arg, FormatArgs, record_format}
use n_igpu_macos.DebugRing.Format.Fields.{matched, told, record_format_tells}
use n_igpu_macos.DebugRing.Log.{entries, append_all, read_recent}
use n_igpu_macos.DebugRing.Interleave.{
  Recorder, Access, reserve, store, fresh_recorder, fetch_add, copy_record, access, run, reserved,
  IsUnlapped,
}
use n_igpu_macos.DebugRing.Interleave.Linear.{Awaits, appends_linearize}
use n_igpu_macos.DebugRing.Daemon.{
  draining, stopped, Daemon, started, end_round, poll, take_record, daemon_step,
}
use n_igpu_macos.DebugRing.Daemon.Track.{printed, following}
use n_igpu_macos.DebugRing.Daemon.Run.{Runs, begins, reserves, stores, steps, run_alone}
use n_igpu_macos.DebugRing.Daemon.Prints.{AllPrinted, origin, daemon_prints_log, daemon_catches_up}

-- A `snprintf` that leaves the format.
abbrev print : ℕ → FormatArgs → String × ℕ
print buflen call = (call.format, buflen)

abbrev mismatch : DebugRecord
mismatch = record {
  event = record zero_event { component = 4; event_id = 1003; active_pid = 42 };
  sequence = 7;
}

record_format_tells_example :
    (call : FormatArgs) × (fields : List (String × Arg)) × (record_format print true 256
        (some mismatch)
      ≡ some (print 256 call))
    × (matched none "" call.format call.args ≡ some fields)
    × (told fields ≡ mismatch)
record_format_tells_example =
    record_format_tells print 256 mismatch (omega arith) (omega arith) (omega arith) (omega arith)

abbrev used : DebugRing
used = record { write_index = 5; records = λ i. record zero_record { sequence = 99 } }

abbrev log : List Event
log =
    record zero_event { component = 1; event_id = 1001 }
    ∷ record zero_event { component = 4; event_id = 1003; active_pid = 42 }
    ∷ record zero_event { component = 4; event_id = 1002 }
    ∷ []

read_recent_example :
    (fresh : DebugRing) × (init (some used) ≡ some fresh)
    × (snapshot (some (append_all fresh log)) ≡ length log)
    × (read (some (append_all fresh log)) true 1 9 ≡ entries log (min 9 (length log - 1)) 1)
read_recent_example = read_recent used log 1 9 (omega arith) (omega arith) (omega arith)

-- Two writers reserve; the first copies its record.
abbrev one_copied : Recorder
one_copied = access (store 1) (
    access (reserve (get_or log 1 zero_event))
      (access (reserve (get_or log 0 zero_event)) fresh_recorder))

-- The second copies, and a third reserves.
abbrev third_reserved : Recorder
third_reserved = access (reserve (get_or log 2 zero_event)) (access (store 0) one_copied)

abbrev all_copied : Recorder
all_copied = access (store 0) third_reserved

-- The daemon reads the index while a record is not copied, and a first time before the third
-- reservation.
abbrev reads_two : Daemon
reads_two =
    daemon_step true (access (store 0) one_copied).ring (daemon_step true one_copied.ring started)

-- It prints while the third writer has not copied.
abbrev prints_one : Daemon
prints_one = daemon_step true third_reserved.ring reads_two

not_third : ¬ Awaits 0 third_reserved.pending
unfolding access fetch_add copy_record
not_third = λ a. elim a [ inl two ↦ absurd (omega arith) | inr none_else ↦ none_else ]

interleaved : Runs log 3 all_copied prints_one
unfolding init daemon_step poll snapshot access fetch_add copy_record
interleaved =
    stores 0
      (steps true
        (reserves
          (steps true
            (stores 0
              (steps true
                (stores 1
                  (reserves (reserves (begins used fresh_recorder.ring refl) (omega arith) refl)
                    (omega arith) refl)
                  (omega arith))
                (λ e. absurd cc))
              (omega arith))
            (λ _ a. a))
          (omega arith) refl)
        (λ _. not_third))
      (omega arith)

goes : prints_one.phase ≢ stopped
unfolding daemon_step poll snapshot access fetch_add copy_record take_record
goes = λ e. let f : draining 2 ≡ stopped = e in cc

daemon_prints_log_example : AllPrinted log 3 prints_one
daemon_prints_log_example = daemon_prints_log log 3 all_copied prints_one (omega arith) interleaved

all_copied_is_quiet : all_copied.pending ≡ []
unfolding access fetch_add copy_record
all_copied_is_quiet = refl

daemon_catches_up_example :
    printed (run_alone 1028 all_copied.ring prints_one).output
    ≡ entries log (3 - origin 3 prints_one) (origin 3 prints_one)
daemon_catches_up_example =
    daemon_catches_up log 3 all_copied prints_one 1028 (omega arith) interleaved all_copied_is_quiet
      goes (omega arith)

-- A daemon that reads between the two accesses of an append prints the slot as it was.
abbrev hasty : Daemon
hasty = run_alone 3 (access (reserve (get_or log 0 zero_event)) fresh_recorder).ring started

daemon_prints_unwritten : printed hasty.output ≡ zero_record ∷ []
unfolding run_alone daemon_step poll snapshot access fetch_add take_record
daemon_prints_unwritten = refl

-- A ring that holds the records 1 to 1024.
abbrev lapped : DebugRing
lapped = record {
  write_index = 1025;
  records = λ i. record zero_record { sequence = if i == 0 then 1024 else i };
}

-- The daemon has seen that there is one record; 1024 are appended before it reads it. One is lost,
-- and 1024 are counted; the record 1024 is printed now and again in the next round.
abbrev late : Daemon
late = run_alone 6 lapped (following (draining 1) 0 0 [])

daemon_miscounts : late.total_drops ≡ 1024
unfolding run_alone daemon_step poll snapshot take_record end_round
daemon_miscounts = refl

daemon_restarts_behind : late.last_seen_write_idx ≡ 1
unfolding run_alone daemon_step poll snapshot take_record end_round
daemon_restarts_behind = refl

-- The first writer copies after the second has reserved, and the second one last.
abbrev accesses : List Access
accesses =
    reserve (get_or log 0 zero_event)
    ∷ reserve (get_or log 1 zero_event)
    ∷ store 1
    ∷ reserve (get_or log 2 zero_event)
    ∷ store 0
    ∷ store 0
    ∷ []

accesses-IsUnlapped : IsUnlapped accesses fresh_recorder
unfolding access fetch_add copy_record
accesses-IsUnlapped = (omega arith, (omega arith, (omega arith, tt)))

accesses_end_quiet : (run accesses fresh_recorder).pending ≡ []
unfolding run access fetch_add copy_record
accesses_end_quiet = refl

appends_linearize_example :
    (init (some used) ≡ some fresh_recorder.ring)
    × (snapshot (some (run accesses fresh_recorder).ring)
        ≡ snapshot (some (append_all fresh_recorder.ring (reserved accesses))))
    × (read (some (run accesses fresh_recorder).ring) true 1 9
        ≡ read (some (append_all fresh_recorder.ring (reserved accesses))) true 1 9)
appends_linearize_example =
    appends_linearize used accesses 1 9 accesses-IsUnlapped accesses_end_quiet (omega arith)
      (omega arith) (omega arith)
