-- ===== src/Simulation/Recorder.antt =====
-- NtelSpoofKext/src/NtelSimulation.c: `test_debug_ring_drain`, on the flight recorder of the process and
-- the count of failures. NTEL_DEBUG, which the build sets, and the clock are arguments.
use n_igpu_macos.Common.{
  ℕ, zero, suc, ◌+◌, ◌*◌, ◌≡◌, ◌∙◌, refl, ap, sym, inl, inr, Bool, true, false, not, none, some,
  if◌then◌else◌, leb, ◌==◌, Bool-cases, length, u32, arith,
}
use n_igpu_macos.DebugRing.{
  Event, DebugRing, zero_record, init, append, snapshot, read_from, read, reset,
}

-- NTEL_LOG_SPARSE
abbrev pub log_sparse : (ntel_debug : ℕ) → Event → DebugRing → DebugRing
log_sparse ntel_debug event ring = if leb 1 ntel_debug then append ring event else ring

-- The event of round `i`: NTEL_COMP_ENGINE and NTEL_EVT_SCORCH_PASS, with its numbers.
abbrev pub scorch_event : (now i : ℕ) → Event
scorch_event now i = record {
  timestamp = now;
  component = 4;
  event_id = 1002;
  read_idx = i;
  write_idx = i * 2;
  fence_value = i;
  active_pid = 0;
  last_error = 0;
}

-- The loop of the test, from round `i` on.
unfoldable pub log_rounds : (left i ntel_debug : ℕ) → (now : ℕ → ℕ) → DebugRing → DebugRing
log_rounds zero i ntel_debug now ring = ring
log_rounds (suc left) i ntel_debug now ring =
    log_rounds left (i + 1) ntel_debug now (log_sparse ntel_debug (scorch_event (now i) i) ring)

-- The rest of the test, once the ten rounds are over.
unfoldable pub check_ten : DebugRing → (failures : ℕ) → DebugRing × ℕ
check_ten ring failures =
    if not (snapshot (some ring) == 10)
    then (ring, u32 (failures + 1))
    else if not (length (read (some ring) true 0 16) == 10)
    then (ring, u32 (failures + 1))
    else elim (reset (some ring)) [ none ↦ (ring, failures) | some ring' ↦ (ring', failures) ]

unfoldable pub test_debug_ring_drain :
    (ntel_debug : ℕ) → (now : ℕ → ℕ) → DebugRing → (failures : ℕ) → DebugRing × ℕ
unfolding log_rounds check_ten
test_debug_ring_drain ntel_debug now ring failures = elim (init (some ring)) [
  | none ↦ (ring, failures)
  | some fresh ↦ check_ten (log_rounds 10 0 ntel_debug now fresh) failures
]

abbrev cleared : DebugRing
cleared = record { write_index = 0; records = λ i. zero_record }

-- A build that logs does so as one at level 1 does.
log_rounds-level :
    (left i ntel_debug : ℕ) (now : ℕ → ℕ) (ring : DebugRing)
    → leb 1 ntel_debug ≡ true
    → log_rounds left i ntel_debug now ring ≡ log_rounds left i 1 now ring
unfolding log_rounds
log_rounds-level zero i ntel_debug now ring logs = refl
log_rounds-level (suc left) i ntel_debug now ring logs =
    rw logs
      (log_rounds-level left (i + 1) ntel_debug now (append ring (scorch_event (now i) i)) logs)

-- The ten records are counted and read.
level_1_passes :
    (now : ℕ → ℕ) (failures : ℕ)
    → check_ten (log_rounds 10 0 1 now cleared) failures ≡ (cleared, failures)
unfolding log_rounds check_ten append snapshot read read_from reset
level_1_passes now failures = refl

-- The test leaves a ring with no record. In a build with NTEL_DEBUG at 0, which is the default of the
-- Makefile and of the header, it records a failure, whatever the clock says; with NTEL_DEBUG at 1 or
-- more it records none.
pub debug_ring_drain_verdict :
    (ntel_debug : ℕ) (now : ℕ → ℕ) (ring : DebugRing) (failures : ℕ)
    → (after : DebugRing) × (test_debug_ring_drain ntel_debug now ring failures
        ≡ (after, if ntel_debug == 0 then u32 (failures + 1) else failures))
      × (snapshot (some after) ≡ 0)
unfolding test_debug_ring_drain init snapshot
debug_ring_drain_verdict ntel_debug now ring failures = elim (Bool-cases (leb 1 ntel_debug)) [
  | inl logs ↦
      let on : (ntel_debug == 0) ≡ false = ground arith in
      (
        cleared,
        ap (λ r. check_ten r failures) (log_rounds-level 10 0 ntel_debug now cleared logs)
            ∙ level_1_passes now failures
            ∙ ap (λ (b : Bool). (cleared, if b then u32 (failures + 1) else failures)) (sym on),
        refl,
      )
  | inr silent ↦
      let off : (ntel_debug == 0) ≡ true = ground arith in (cleared, rw (silent, off) refl, refl)
]
