-- ===== src/DebugRing/Daemon/Run.antt =====
-- The daemon and the two accesses of each append, in any interleaving in which no append laps the
-- daemon and the daemon reads no record before its copy.
use n_igpu_macos.Common.{
  ℕ, zero, suc, ◌+◌, ◌≤◌, ◌<◌, ◌^◌, ◌≡◌, refl, Bool, true, ◌||◌, some, List, length, get_or,
  some-inj, Option-cases, inl, inr, [], ltb, arith,
}
use n_igpu_macos.DebugRing.{Event, DebugRing, zero_event, init, slot}
use n_igpu_macos.DebugRing.Log.{entry}
use n_igpu_macos.DebugRing.Interleave.{Recorder, reserve, store, pending_at, access, InTime}
use n_igpu_macos.DebugRing.Interleave.Linear.{
  AllOwn, Awaits, AllOwn-pending_at, IsUnder, reserve-IsUnder, store-IsUnder,
}
use n_igpu_macos.DebugRing.Daemon.{
  polling, stopped, Daemon, started, oldest, daemon_step, reads_record,
}
use n_igpu_macos.DebugRing.Daemon.Track.{Tracks, waits, syncs, polls, drains, quits, leaves}
use n_igpu_macos.DebugRing.Daemon.Follow.{daemon_step-Tracks, oldest_near}

-- An append of number `n` overwrites nothing that the daemon has yet to read.
abbrev pub has_room : ℕ → Daemon → Bool
has_room n d = elim d.phase [
  | polling ↦ d.first_run || ltb n (d.last_seen_write_idx + 1024)
  | stopped ↦ true
  | _ ↦ ltb n (d.last_seen_write_idx + 1024)
]

-- The first `n` events of the log have reserved their places on an initialised ring. Writers reserve
-- and copy, and the daemon makes its steps, in any order in which a writer copies less than a whole ring
-- behind and the daemon reads no record that is reserved and not yet copied.
pub data Runs (log : List Event) : ℕ → Recorder → Daemon → Type 0 where
  begins :
      (before ring : DebugRing)
      → init (some before) ≡ some ring
      → Runs log 0 (record { ring = ring; pending = [] }) started
  reserves :
      {n : ℕ} {r : Recorder} {d : Daemon}
      → Runs log n r d
      → n < length log
      → has_room n d ≡ true
      → Runs log (n + 1) (access (reserve (get_or log n zero_event)) r) d
  stores :
      {n : ℕ} {r : Recorder} {d : Daemon} (k : ℕ)
      → Runs log n r d
      → InTime k r
      → Runs log n (access (store k) r) d
  steps :
      {n : ℕ} {r : Recorder} {d : Daemon} (keep_running : Bool)
      → Runs log n r d
      → (reads_record keep_running d ≡ true → ¬ Awaits d.last_seen_write_idx r.pending)
      → Runs log n r (daemon_step keep_running r.ring d)

-- The daemon alone, for a number of steps.
unfoldable pub run_alone : ℕ → DebugRing → Daemon → Daemon
unfolding daemon_step
run_alone zero ring d = d
run_alone (suc k) ring d = run_alone k ring (daemon_step true ring d)

-- What holds in every run.
pub record Follows (log : List Event) (n : ℕ) (r : Recorder) (d : Daemon) : Type 0 where
  pub under : IsUnder log n r
  pub blank : n ≡ 0 → (r.ring.records (slot 0)).sequence ≡ 0
  pub within : n ≤ length log
  pub first : ℕ
  pub tracks : Tracks log n first 1029 d

-- Wherever the daemon stands, 1028 steps are enough.
pub bounded :
    (log : List Event) (n first k j : ℕ) (d : Daemon)
    → n < 2 ^ 32
    → 1028 ≤ j
    → Tracks log n first k d
    → Tracks log n first j d
bounded log n first k j d small most (waits e start soon) =
    waits e start (rw start (omega (arith, (oldest_near n small).1)))
bounded log n first k j d small most (syncs current e start inside near soon) =
    syncs current e start inside near (omega arith)
bounded log n first k j d small most (polls seen output e says inside near soon) =
    polls seen output e says inside near (λ h. omega arith)
bounded log n first k j d small most
      (drains seen current output e says low inside near soon later) =
    drains seen current output e says low inside near (omega arith) (λ h. omega arith)
bounded log n first k j d small most (quits seen output e says inside) =
    quits seen output e says inside
bounded log n first k j d small most (leaves e) = leaves e

-- After one more append.
data Later (log : List Event) (n : ℕ) (d : Daemon) : Type 0 where
  from : (first : ℕ) → Tracks log n first 1029 d → Later log n d

append-Tracks :
    (log : List Event) (n first : ℕ) (d : Daemon)
    → n + 1 < 2 ^ 32
    → has_room n d ≡ true
    → Tracks log n first 1029 d
    → Later log (n + 1) d
append-Tracks log n first d small room (waits e start soon) =
    from (oldest (n + 1)) (waits e refl (omega (arith, (oldest_near (n + 1) small).1)))
append-Tracks log n first d small room (syncs current e start inside near soon) =
    let free : ltb n (oldest current + 1024) ≡ true = rw e at room in
    let near' : n + 1 ≤ first + 1024 = rw start (ground arith) in
    from first (syncs current e start (omega arith) near' (omega arith))
append-Tracks log n first d small room (polls seen output e says inside near soon) =
    let free : ltb n (seen + 1024) ≡ true = rw e at room in
    from first (polls seen output e says (omega arith) (ground arith) (λ h. ground arith))
append-Tracks log n first d small room
      (drains seen current output e says low inside near soon later) =
    let free : ltb n (seen + 1024) ≡ true = rw e at room in
    from first (
      drains seen current output e says low (omega arith) (ground arith) (ground arith)
        (λ h. ground arith))
append-Tracks log n first d small room (quits seen output e says inside) =
    from first (quits seen output e says (omega arith))
append-Tracks log n first d small room (leaves e) = from first (leaves e)

next :
    (log : List Event) (n : ℕ) (r : Recorder) (d : Daemon)
    → length log < 2 ^ 32
    → n < length log
    → has_room n d ≡ true
    → Follows log n r d
    → Follows log (n + 1) (access (reserve (get_or log n zero_event)) r) d
next log n r d small more room f =
    elim (append-Tracks log n f.first d (omega arith) room f.tracks) [
      | from first tracks ↦ record {
        under = reserve-IsUnder log n r (get_or log n zero_event) f.under (omega arith) refl;
        blank = λ e. absurd (omega arith);
        within = omega arith;
        first = first;
        tracks = tracks;
      }
    ]

-- A copy on an empty ring changes nothing.
store_blank :
    (log : List Event) (n k : ℕ) (r : Recorder)
    → AllOwn log n r.pending
    → (n ≡ 0 → (r.ring.records (slot 0)).sequence ≡ 0)
    → n ≡ 0
    → ((access (store k) r).ring.records (slot 0)).sequence ≡ 0
unfolding access
store_blank log n k r own blank empty = elim (Option-cases (pending_at k r.pending)) [
  | inl gone ↦ simp (gone, access) (blank empty)
  | inr (rec, found) ↦
      absurd (let (below, _) = AllOwn-pending_at log n k r.pending rec own found in omega arith)
]

-- A record that is copied is the one of the log.
copied :
    (log : List Event) (n j : ℕ) (r : Recorder)
    → IsUnder log n r
    → ¬ Awaits j r.pending
    → j < n
    → n ≤ j + 1024
    → r.ring.records (slot j) ≡ entry log j
copied log n j r under done_ below near = elim (under.covers j below near) [
  | inl kept ↦ kept
  | inr awaits ↦ absurd (done_ awaits)
]

pub runs-Follows :
    (log : List Event) (n : ℕ) (r : Recorder) (d : Daemon)
    → length log < 2 ^ 32
    → Runs log n r d
    → Follows log n r d
unfolding init
runs-Follows log n r d small (begins before ring' e) = rw⁻¹ (some-inj e) record {
  under = record { counts = refl; owned = tt; covers = λ j h k. absurd (omega arith) };
  blank = λ _. refl;
  within = omega arith;
  first = 0;
  tracks = waits refl refl (omega arith);
}
runs-Follows log n r d small (reserves before more room) =
    next log _ _ d small more room (runs-Follows log _ _ d small before)
runs-Follows log n r d small (stores k before timely) =
    let f = runs-Follows log n _ d small before in
    record {
      under = store-IsUnder log n k _ f.under timely;
      blank = store_blank log n k _ f.under.owned f.blank;
      within = f.within;
      first = f.first;
      tracks = f.tracks;
    }
runs-Follows log n r d small (steps running before seen) =
    let f = runs-Follows log n r _ small before in
    record {
      under = f.under;
      blank = f.blank;
      within = f.within;
      first = f.first;
      tracks = bounded log n f.first 1030 1029 _ (omega (arith, f.within)) (omega arith) (
          daemon_step-Tracks log n r.ring f.under.counts f.blank (omega (arith, f.within)) running
            f.first 1028 1030 _ f.tracks (omega arith) (λ _. omega arith)
            (λ reads. copied log n _ r f.under (seen reads)));
    }
