-- ===== src/DebugRing/Daemon.antt =====
-- NtelSpoofKext/src/ntel_debug_daemon.c: the consumer of the flight recorder. The loops of `main`
-- are a machine with one access to the shared ring in each step, so that appends may come between any
-- two steps. `keep_running`, which a signal clears, is an argument of a step.
pub mod Track
pub mod Follow
pub mod Run
pub mod Prints
use n_igpu_macos.Common.{
  ℕ, ◌+◌, ◌-◌, ◌%◌, Bool, true, false, not, some, List, [], ◌∷◌, ◌++◌, if◌then◌else◌, ltb, leb,
  ◌==◌, ◌&&◌, ◌||◌, u32, u64, sub32,
}
use n_igpu_macos.DebugRing.{DebugRecord, DebugRing, ring_size, slot, snapshot}

-- What the daemon prints; a record's line is `ntel_debug_record_format`.
pub data Line : Type 0 where
  synchronized : ℕ → Line
  overrun : (dropped expected_seq sequence : ℕ) → Line
  double_wrap : Line
  formatted : DebugRecord → Line
  progress : (records drops : ℕ) → Line
  shutting_down : (records drops : ℕ) → Line

-- Where the daemon stands: before the test of the outer loop, before a read of the sequence number to
-- start from, before the test of the inner loop, before a read of the one to go on from, or at
-- the end. The number is `current_write_idx`.
pub data Phase : Type 0 where
  polling : Phase
  syncing : ℕ → Phase
  draining : ℕ → Phase
  resyncing : Phase
  stopped : Phase

-- The variables of `main`, and what is printed so far.
pub record Daemon : Type 0 where
  pub phase : Phase
  pub expected_seq : ℕ
  pub last_seen_write_idx : ℕ
  pub first_run : Bool
  pub total_drops : ℕ
  pub records_processed : ℕ
  pub output : List Line

abbrev pub started : Daemon
started = record {
  phase = polling;
  expected_seq = 0;
  last_seen_write_idx = 0;
  first_run = true;
  total_drops = 0;
  records_processed = 0;
  output = [];
}

abbrev pub say : Daemon → Line → Daemon
say d line = record d { output = d.output ++ (line ∷ []) }

-- As far back as the ring holds.
abbrev pub oldest : ℕ → ℕ
oldest current = if leb ring_size current then sub32 current ring_size else 0

-- The end of a round of the outer loop.
unfoldable pub end_round : Daemon → Daemon
end_round d =
    if ltb 0 d.records_processed && d.records_processed % 100 == 0
    then record (say d (progress d.records_processed d.total_drops)) { phase = polling }
    else record d { phase = polling }

-- A round of the outer loop, up to its first read of a record.
unfoldable pub poll : (keep_running : Bool) → DebugRing → Daemon → Daemon
poll false ring d = record (say d (shutting_down d.records_processed d.total_drops)) {
  phase = stopped;
}
poll true ring d =
    let current = snapshot (some ring) in
    if current == d.last_seen_write_idx && not d.first_run
    then d
    else if d.first_run
    then record d { phase = syncing current; last_seen_write_idx = oldest current }
    else record d { phase = draining current }

-- A record that is printed; the overrun, if there is one, is printed before it.
abbrev pub consume : Daemon → DebugRecord → Daemon
consume d rec = record (say d (formatted rec)) {
  expected_seq = u64 (d.expected_seq + 1);
  last_seen_write_idx = u32 (d.last_seen_write_idx + 1);
  records_processed = u64 (d.records_processed + 1);
}

-- A round of the inner loop, on the copy of a record.
unfoldable pub take_record : (current : ℕ) → Daemon → DebugRecord → Daemon
take_record current d rec =
    if ltb d.expected_seq rec.sequence
    then (let dropped = rec.sequence - d.expected_seq in
        consume
          (record (say d (overrun dropped d.expected_seq rec.sequence)) {
            total_drops = u64 (d.total_drops + dropped);
            expected_seq = rec.sequence;
          })
          rec)
    else if ltb rec.sequence d.expected_seq
    then record (say d double_wrap) { phase = resyncing; last_seen_write_idx = oldest current }
    else consume d rec

-- The next access to the ring.
unfoldable pub daemon_step : (keep_running : Bool) → DebugRing → Daemon → Daemon
unfolding end_round poll take_record
daemon_step keep_running ring d =
    let here = ring.records (slot d.last_seen_write_idx) in
    elim d.phase [
      | polling ↦ poll keep_running ring d
      | syncing current ↦ record (say d (synchronized here.sequence)) {
        phase = draining current;
        expected_seq = here.sequence;
        first_run = false;
      }
      | draining current ↦
          if d.last_seen_write_idx == current || not keep_running
          then end_round d
          else take_record current d here
      | resyncing ↦ end_round (record d { expected_seq = here.sequence })
      | stopped ↦ d
    ]

-- Whether the next access reads a record.
abbrev pub reads_record : (keep_running : Bool) → Daemon → Bool
reads_record keep_running d = elim d.phase [
  | polling ↦ false
  | syncing current ↦ true
  | draining current ↦ not (d.last_seen_write_idx == current || not keep_running)
  | resyncing ↦ true
  | stopped ↦ false
]
