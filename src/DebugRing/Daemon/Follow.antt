-- ===== src/DebugRing/Daemon/Follow.antt =====
-- A step of the daemon keeps track of the log.
use n_igpu_macos.Common.{
  ℕ, suc, ◌+◌, ◌-◌, ◌%◌, ◌≤◌, ◌<◌, ◌^◌, ◌≡◌, refl, ap, inl, inr, Bool, true, false, not, ◌&&◌, ◌||◌,
  List, [], ◌∷◌, ◌++◌, ltb, leb, ◌==◌, Bool-cases, ==_iff, u32, u64, sub32, arith,
}
use n_igpu_macos.DebugRing.{Event, DebugRecord, DebugRing, slot, snapshot}
use n_igpu_macos.DebugRing.Log.{entry}
use n_igpu_macos.DebugRing.Daemon.{
  Line, synchronized, formatted, progress, shutting_down, polling, syncing, draining, Daemon,
  oldest, end_round, poll, take_record, daemon_step, reads_record,
}
use n_igpu_macos.DebugRing.Daemon.Track.{
  waiting, following, Says, line_added, record_added, Tracks, waits, syncs, polls, drains, quits,
  leaves,
}

pub oldest_near : (n : ℕ) → n < 2 ^ 32 → (oldest n ≤ n) × (n ≤ oldest n + 1024)
oldest_near n small = elim (Bool-cases (leb 1024 n)) [
  | inl full ↦
      let back : sub32 n 1024 ≡ n - 1024 = ground arith in
      rw (full, back) (ground arith, ground arith)
  | inr room ↦ rw room (ground arith, ground arith)
]

ltb_self : (n : ℕ) → ltb n n ≡ false
ltb_self n = ground arith

module _ (log : List Event) (n : ℕ) (ring : DebugRing) (counts : ring.write_index ≡ n)
    (blank : n ≡ 0 → (ring.records (slot 0)).sequence ≡ 0) (small : n < 2 ^ 32) where
  -- The sequence number to start from.
  sync_number :
      (current : ℕ)
      → current ≤ n
      → (oldest current < n → ring.records (slot (oldest current)) ≡ entry log (oldest current))
      → (ring.records (slot (oldest current))).sequence ≡ oldest current
  sync_number current inside kept = elim (Bool-cases (n == 0)) [
    | inl nothing ↦
        let empty : n ≡ 0 = (==_iff n 0).0 nothing in
        let start : current ≡ 0 = omega arith in
        let low : leb 1024 0 ≡ false = refl in rw start (blank empty)
    | inr something ↦
        let bounds = oldest_near current (omega arith) in
        let below : oldest current < n = before current inside something in
        ap (λ (r : DebugRecord). r.sequence) (kept below)
  ]
    where
      before : (current : ℕ) → current ≤ n → (n == 0) ≡ false → oldest current < n
      before current inside something = elim (Bool-cases (leb 1024 current)) [
        | inl full ↦
            let back : sub32 current 1024 ≡ current - 1024 = ground arith in
            rw (full, back) (ground arith)
        | inr room ↦ rw room (ground arith)
      ]

  -- The end of a round leaves the daemon before the next one.
  end_round-Tracks :
      (first seen current k : ℕ) (output : List Line)
      → Says log first seen output
      → seen ≤ n
      → n ≤ seen + 1024
      → (seen < n → n + 1 ≤ seen + k)
      → Tracks log n first k (end_round (following (draining current) first seen output))
  unfolding end_round
  end_round-Tracks first seen current k output says inside near soon =
      elim (Bool-cases (ltb 0 (seen - first) && (seen - first) % 100 == 0)) [
        | inl hundred ↦
            polls seen (output ++ (progress (seen - first) 0 ∷ [])) (rw hundred refl)
              (line_added log first seen output (progress (seen - first) 0) refl says) inside near
              soon
        | inr other ↦ polls seen output (rw other refl) says inside near soon
      ]

  -- A record that the appends have not reached is printed, and is the next one.
  take_record-Tracks :
      (first seen current k : ℕ) (output : List Line)
      → Says log first seen output
      → seen < current
      → current ≤ n
      → n ≤ seen + 1024
      → n ≤ seen + suc k
      → (current < n → n + 2 ≤ seen + suc k)
      → ring.records (slot seen) ≡ entry log seen
      → Tracks log n first k (
          take_record current
            (following (draining current) first seen output)
            (ring.records (slot seen)))
  unfolding take_record
  take_record-Tracks first seen current k output says below inside near soon later this =
      let expected : u64 (seen + 1) ≡ seen + 1 = omega arith in
      let index : u32 (seen + 1) ≡ seen + 1 = omega arith in
      let count : u64 (seen - first + 1) ≡ seen + 1 - first = omega (arith, says.from) in
      drains (seen + 1) current (output ++ (formatted (entry log seen) ∷ []))
        (rw (this, ltb_self seen, expected, index, count) refl)
        (record_added log first seen output says) (omega arith) inside (omega arith) (omega arith)
        (λ h. omega (arith, later h))

  -- A round of the outer loop.
  poll-Tracks :
      (running : Bool) (first seen k : ℕ) (output : List Line)
      → Says log first seen output
      → seen ≤ n
      → n ≤ seen + 1024
      → (seen < n → n + 1 ≤ seen + suc k)
      → Tracks log n first k (poll running ring (following polling first seen output))
  unfolding poll snapshot
  poll-Tracks false first seen k output says inside near soon =
      quits seen (output ++ (shutting_down (seen - first) 0 ∷ [])) refl
        (line_added log first seen output (shutting_down (seen - first) 0) refl says) inside
  poll-Tracks true first seen k output says inside near soon =
      rw counts (elim (Bool-cases (n == seen)) [
        | inl same ↦ polls seen output (rw same refl) says inside near λ h. absurd (ground arith)
        | inr more ↦
            let below : seen < n = ground arith in
            drains seen n output (rw more refl) says inside (omega arith) near
              (omega (arith, soon below)) λ h. absurd (omega arith)
      ])

  -- The first read.
  sync-Tracks :
      (running : Bool) (first current k : ℕ)
      → first ≡ oldest current
      → current ≤ n
      → n ≤ first + 1024
      → n + 3 ≤ first + suc k
      → (oldest current < n → ring.records (slot (oldest current)) ≡ entry log (oldest current))
      → Tracks log n first k (daemon_step running ring (waiting (syncing current) (oldest current)))
  unfolding daemon_step
  sync-Tracks running first current k start inside near soon kept =
      let number = sync_number current inside kept in
      let none_yet : first - first ≡ 0 = omega arith in
      drains first current (synchronized first ∷ []) (rw (number, none_yet, ← start) refl)
        record { from = omega arith; all = rw none_yet refl }
        (rw start (oldest_near current (omega arith)).0) inside near (omega arith)
        (λ h. omega arith)

  -- The steps left at the end of a round.
  on_time :
      (running : Bool) (seen current k j : ℕ)
      → (seen == current || not running) ≡ true
      → n ≤ seen + suc k
      → (current < n → n + 2 ≤ seen + suc k)
      → (running ≡ false → k + 2 ≤ j)
      → k ≤ j
      → seen < n
      → n + 1 ≤ seen + j
  on_time true seen current k j over soon later halting enough h =
      elim (Bool-cases (seen == current)) [
        | inl same ↦
            let last : seen ≡ current = (==_iff seen current).0 same in
            omega (arith, later (omega arith))
        | inr differ ↦ absurd (ground arith)
      ]
  on_time false seen current k j over soon later halting enough h = omega (arith, halting refl)

  -- A step that finds the record that it reads; one in which the daemon is told to stop may need more steps to make up for it.
  pub daemon_step-Tracks :
      (running : Bool) (first k j : ℕ) (d : Daemon)
      → Tracks log n first (suc k) d
      → k ≤ j
      → (running ≡ false → k + 2 ≤ j)
      → (reads_record running d ≡ true
          → d.last_seen_write_idx < n
          → n ≤ d.last_seen_write_idx + 1024
          → ring.records (slot d.last_seen_write_idx) ≡ entry log d.last_seen_write_idx)
      → Tracks log n first j (daemon_step running ring d)
  unfolding daemon_step poll snapshot
  daemon_step-Tracks false first k j d (waits e start soon) enough halting kept = rw e (leaves refl)
  daemon_step-Tracks true first k j d (waits e start soon) enough halting kept =
      let near : n ≤ first + 1024 = rw start (oldest_near n small).1 in
      rw (e, counts)
        (elim (Bool-cases (n == 0)) [
          | inl empty ↦ syncs n (rw empty refl) start (omega arith) near (omega arith)
          | inr some_there ↦ syncs n (rw some_there refl) start (omega arith) near (omega arith)
        ])
  daemon_step-Tracks running first k j d (syncs current e start inside near soon) enough halting
        kept =
      rw e (
        sync-Tracks running first current j start inside near (omega arith)
          (λ below. rw e at kept refl below (rw start at near)))
  daemon_step-Tracks running first k j d (polls seen output e says inside near soon) enough halting
        kept =
      rw e (poll-Tracks running first seen j output says inside near (λ h. omega (arith, soon h)))
  daemon_step-Tracks running first k j d
        (drains seen current output e says low inside near soon later) enough halting kept =
      elim (Bool-cases (seen == current || not running)) [
        | inl over ↦
            rw (e, over)
              (end_round-Tracks first seen current j output says (omega arith) near
                (on_time running seen current k j over soon later halting enough))
        | inr more ↦
            rw (e, more)
              (take_record-Tracks first seen current j output says (ground arith) inside near
                (omega arith) (λ h. omega (arith, later h))
                (rw (e, more) at kept refl (ground arith) near))
      ]
  daemon_step-Tracks running first k j d (quits seen output e says inside) enough halting kept =
      quits seen output (rw e refl) says inside
  daemon_step-Tracks running first k j d (leaves e) enough halting kept = leaves (rw e refl)
