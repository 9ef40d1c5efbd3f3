-- ===== src/DebugRing/Daemon/Prints.antt =====
-- What a daemon that is not lapped prints, and that it catches up.
use n_igpu_macos.Common.{
  ℕ, zero, suc, ◌-◌, ◌%◌, ◌≤◌, ◌<◌, ◌^◌, ◌≡◌, ◌≢◌, ◌∙◌, refl, ap, inl, inr, true, false, not, ◌&&◌,
  ◌||◌, List, [], length, Bool-cases, if◌then◌else◌, ltb, ◌==◌, arith,
}
use n_igpu_macos.DebugRing.{Event, DebugRecord, DebugRing, slot, snapshot}
use n_igpu_macos.DebugRing.Log.{IsAt, entries}
use n_igpu_macos.DebugRing.Interleave.{Recorder}
use n_igpu_macos.DebugRing.Interleave.Linear.{quiet-IsAt}
use n_igpu_macos.DebugRing.Daemon.{
  Line, Phase, polling, syncing, draining, resyncing, stopped, Daemon, oldest, end_round, poll,
  take_record, daemon_step,
}
use n_igpu_macos.DebugRing.Daemon.Track.{
  printed, following, Says, Tracks, waits, syncs, polls, drains, quits, leaves,
}
use n_igpu_macos.DebugRing.Daemon.Follow.{daemon_step-Tracks, oldest_near}
use n_igpu_macos.DebugRing.Daemon.Run.{Runs, run_alone, bounded, runs-Follows}

-- The events that are printed: as many as are counted, up to the last one seen.
abbrev pub AllPrinted : List Event → ℕ → Daemon → Type 0
AllPrinted log n d =
    (printed d.output
      ≡ entries log d.records_processed (d.last_seen_write_idx - d.records_processed))
    × (d.records_processed ≤ d.last_seen_write_idx)
    × (d.total_drops ≡ 0)

Says-count :
    (log : List Event) (n first seen : ℕ) (phase : Phase) (d : Daemon) (output : List Line)
    → d ≡ following phase first seen output
    → Says log first seen output
    → AllPrinted log n d
Says-count log n first seen phase d output e says =
    let start : seen - (seen - first) ≡ first = omega (arith, says.from) in
    rw (e, start) (says.all, omega arith, refl)

-- In any interleaving of the two accesses of fewer than 2 ^ 32 appends with the steps of the daemon, in
-- which no append overwrites a record that the daemon has yet to read, no writer copies its record
-- a whole ring behind, and the daemon reads no record that is reserved but not yet copied: the daemon has printed a stretch of
-- successive events, each once, in order and with its own number, that ends before
-- `last_seen_write_idx`; `records_processed` is their number, and no drop is counted.
pub daemon_prints_log :
    (log : List Event) (n : ℕ) (r : Recorder) (d : Daemon)
    → length log < 2 ^ 32
    → Runs log n r d
    → AllPrinted log n d
daemon_prints_log log n r d small runs = elim (runs-Follows log n r d small runs).tracks [
  | waits e _ _ ↦ rw e (refl, omega arith, refl)
  | syncs current e _ _ _ _ ↦ rw e (refl, omega arith, refl)
  | polls seen output e says _ _ _ ↦ Says-count log n _ seen polling d output e says
  | drains seen current output e says _ _ _ _ _ ↦
      Says-count log n _ seen (draining current) d output e says
  | quits seen output e says _ ↦ Says-count log n _ seen stopped d output e says
  | leaves e ↦ rw e (refl, omega arith, refl)
]

-- The first event that the daemon prints, when `n` are appended before its next step.
abbrev pub origin : ℕ → Daemon → ℕ
origin n d = elim d.phase [
  | polling ↦ if d.first_run then oldest n else d.last_seen_write_idx - d.records_processed
  | _ ↦ d.last_seen_write_idx - d.records_processed
]

phase-end_round : (d : Daemon) → (end_round d).phase ≡ polling
unfolding end_round
phase-end_round d =
    elim (Bool-cases (ltb 0 d.records_processed && d.records_processed % 100 == 0)) [
      | inl hundred ↦ rw hundred refl
      | inr other ↦ rw other refl
    ]

poll_goes_on :
    (ring : DebugRing) (d : Daemon) → d.phase ≡ polling → (poll true ring d).phase ≢ stopped
unfolding poll snapshot
poll_goes_on ring d h =
    elim (Bool-cases (ring.write_index == d.last_seen_write_idx && not d.first_run)) [
      | inl same ↦ rw same (rw h (λ e. cc))
      | inr differ ↦ elim (Bool-cases d.first_run) [
        | inl starts ↦ rw (differ, starts) (λ e. cc)
        | inr reads ↦ rw (differ, reads) (λ e. cc)
      ]
    ]

take_record_goes_on :
    (current : ℕ) (d : Daemon) (rec : DebugRecord)
    → d.phase ≡ draining current
    → (take_record current d rec).phase ≢ stopped
unfolding take_record
take_record_goes_on current d rec h = elim (Bool-cases (ltb d.expected_seq rec.sequence)) [
  | inl over ↦ rw over (rw h (λ e. cc))
  | inr known ↦ elim (Bool-cases (ltb rec.sequence d.expected_seq)) [
    | inl behind ↦ rw (known, behind) (λ e. cc)
    | inr this ↦ rw (known, this) (rw h (λ e. cc))
  ]
]

-- A step in the inner loop.
step_drains :
    (ring : DebugRing) (d : Daemon) (current : ℕ)
    → d.phase ≡ draining current
    → daemon_step true ring d ≡ (
        if d.last_seen_write_idx == current || false
        then end_round d
        else take_record current d (ring.records (slot d.last_seen_write_idx)))
unfolding daemon_step
step_drains ring d current p = simp (daemon_step, p) refl

-- A step of a daemon that is told to go on does not end it.
goes_on :
    (ring : DebugRing) (d : Daemon) (phase : Phase)
    → d.phase ≡ phase
    → d.phase ≢ stopped
    → (daemon_step true ring d).phase ≢ stopped
unfolding daemon_step
goes_on ring d polling p h = simp (daemon_step, p) (poll_goes_on ring d p)
goes_on ring d (syncing current) p h = rw p (λ e. cc)
goes_on ring d (draining current) p h =
    rw (step_drains ring d current p)
      (elim (Bool-cases (d.last_seen_write_idx == current || false)) [
        | inl over ↦ rw (over, phase-end_round d) (λ e. cc)
        | inr more ↦
            rw more (take_record_goes_on current d (ring.records (slot d.last_seen_write_idx)) p)
      ])
goes_on ring d resyncing p h =
    rw
      (
        p,
        phase-end_round
            (record d { expected_seq = (ring.records (slot d.last_seen_write_idx)).sequence }),
      )
      (λ e. cc)
goes_on ring d stopped p h = absurd (h p)

Tracks-origin :
    (log : List Event) (n first k : ℕ) (d : Daemon)
    → d.phase ≢ stopped
    → Tracks log n first k d
    → first ≡ origin n d
Tracks-origin log n first k d h (waits e start _) = rw e start
Tracks-origin log n first k d h (syncs current e start _ _ _) = rw e (omega (arith, start))
Tracks-origin log n first k d h (polls seen output e says _ _ _) = rw e (omega (arith, says.from))
Tracks-origin log n first k d h (drains seen current output e says _ _ _ _ _) =
    rw e (omega (arith, says.from))
Tracks-origin log n first k d h (quits seen output e says _) = absurd (h (rw e refl))
Tracks-origin log n first k d h (leaves e) = absurd (h (rw e refl))

module _ (log : List Event) (n : ℕ) (ring : DebugRing) (at : IsAt log n ring)
    (blank : n ≡ 0 → (ring.records (slot 0)).sequence ≡ 0) (small : n < 2 ^ 32) (first : ℕ) where
  all_printed :
      (seen : ℕ) (output : List Line)
      → Says log first seen output
      → seen ≡ n
      → printed output ≡ entries log (n - first) first
  all_printed seen output says same = says.all ∙ ap (λ t. entries log (t - first) first) same

  runs_out :
      (k : ℕ) (d : Daemon)
      → d.phase ≢ stopped
      → Tracks log n first k d
      → printed (run_alone k ring d).output ≡ entries log (n - first) first
  unfolding run_alone
  runs_out (suc k) d h t = runs_out k (daemon_step true ring d) (goes_on ring d d.phase refl h) (
      daemon_step-Tracks log n ring at.counts blank small true first k k d t (omega arith) (λ e. cc)
        (λ _. at.keeps d.last_seen_write_idx))
  runs_out zero d h (waits e start soon) = absurd (omega (arith, (oldest_near n small).0))
  runs_out zero d h (syncs current e start inside near soon) =
      absurd (omega (arith, (oldest_near current (omega arith)).0))
  runs_out zero d h (polls seen output e says inside near soon) =
      rw e (elim (Bool-cases (ltb seen n)) [
        | inl below ↦ absurd (let late = soon (ground arith) in omega arith)
        | inr all ↦ all_printed seen output says (ground arith)
      ])
  runs_out zero d h (drains seen current output e says low inside near soon later) =
      rw e (all_printed seen output says (omega arith))
  runs_out zero d h (quits seen output e says inside) = absurd (h (rw e refl))
  runs_out zero d h (leaves e) = absurd (h (rw e refl))

-- From any point of such an interleaving at which no append is under way and the daemon has not
-- stopped: if it goes on alone for at least 1028 steps, it has printed all the events that are
-- appended, from the first one that it prints, each once, in order and with its own number.
pub daemon_catches_up :
    (log : List Event) (n : ℕ) (r : Recorder) (d : Daemon) (k : ℕ)
    → length log < 2 ^ 32
    → Runs log n r d
    → r.pending ≡ []
    → d.phase ≢ stopped
    → 1028 ≤ k
    → printed (run_alone k r.ring d).output ≡ entries log (n - origin n d) (origin n d)
daemon_catches_up log n r d k small runs quiet h enough =
    let f = runs-Follows log n r d small runs in
    let below : n < 2 ^ 32 = omega (arith, f.within) in
    let t = bounded log n f.first 1029 k d below enough f.tracks in
    rw (← Tracks-origin log n f.first k d h t)
      (runs_out log n r.ring (quiet-IsAt log n r f.under quiet) f.blank below f.first k d h t)
