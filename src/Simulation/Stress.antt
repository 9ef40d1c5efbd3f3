-- ===== src/Simulation/Stress.antt =====
-- NtelSpoofKext/src/NtelSimulation.c: `test_stress_ring_multithread`, whose threads write and read the
-- ring at once. Each call of the ring is one step, since it runs under the mutex of the ring, and a
-- schedule is the sequence of the threads that take the steps.
pub mod Bytes
pub mod Traffic
pub mod Thread
pub mod Interleave
pub mod Whole
use n_igpu_macos.Common.{
  ℕ, zero, suc, ◌+◌, ◌%◌, ◌&&◌, Bool, true, false, not, Option, none, some, List, [], ◌∷◌,
  if◌then◌else◌, leb, ◌==◌, u32, Exec, done, ◌>>=◌,
}
use n_igpu_macos.SharedRing.{RingContext, ReadOutcome, try_write, try_read}
use n_igpu_macos.Simulation.{drain_ring}

-- `StressThreadArg`; the environment is the ring, which the threads share.
pub record StressThreadArg : Type 0 where
  pub thread_id : ℕ
  pub num_threads : ℕ
  pub iterations : ℕ
  pub writes_ok : ℕ
  pub reads_ok : ℕ
  pub data_errors : ℕ

-- A thread in its loop: the round `i`, and whether its write is behind it.
pub record Worker : Type 0 where
  pub arg : StressThreadArg
  pub i : ℕ
  pub has_written : Bool

-- The write of a round.
unfoldable pub write_step :
    StressThreadArg → Option RingContext → Exec (StressThreadArg × Option RingContext)
write_step sta ring = do
  (ring', wrote) ← try_write ring (some (sta.thread_id % 256 ∷ [])) 1
  done (if wrote then record sta { writes_ok = u32 (sta.writes_ok + 1) } else sta, ring')

-- `bytes_read == 1`, and the byte that was read.
abbrev pub is_one : Option ℕ → Bool
is_one none = false
is_one (some n) = n == 1

abbrev pub read_val : Option (List ℕ) → ℕ
read_val (some (x ∷ rest)) = x
read_val _ = 0

-- What a thread counts after a read.
unfoldable pub tally : StressThreadArg → ReadOutcome → StressThreadArg
tally sta outcome =
    if outcome.read
    then (let sta' = record sta { reads_ok = u32 (sta.reads_ok + 1) } in
        if is_one outcome.bytes_read && leb (sta.num_threads % 256) (read_val outcome.out_data)
        then record sta' { data_errors = u32 (sta'.data_errors + 1) }
        else sta')
    else sta

-- The read of a round.
unfoldable pub read_step :
    StressThreadArg → Option RingContext → Exec (StressThreadArg × Option RingContext)
unfolding tally
read_step sta ring = do
  outcome ← try_read ring (some (0 ∷ [])) 1 (some 0)
  done (tally sta outcome, outcome.ctx)

-- One call of the ring by `stress_ring_writer_reader`; a thread that is through its loop stays.
unfoldable pub worker_step : Worker → Option RingContext → Exec (Worker × Option RingContext)
unfolding write_step read_step
worker_step w ring = if leb w.arg.iterations w.i then done (w, ring) else elim w.has_written [
  | false ↦ do
    (sta, ring') ← write_step w.arg ring
    done (record w { arg = sta; has_written = true }, ring')
  | true ↦ do
    (sta, ring') ← read_step w.arg ring
    done (record { arg = sta; i = w.i + 1; has_written = false }, ring')
]

-- A step of thread `k`.
unfoldable pub step_at :
    (k : ℕ) → List Worker → Option RingContext → Exec (List Worker × Option RingContext)
unfolding worker_step
step_at k [] ring = done ([], ring)
step_at zero (w ∷ ws) ring = do (w', ring') ← worker_step w ring; done (w' ∷ ws, ring')
step_at (suc k) (w ∷ ws) ring = do (ws', ring') ← step_at k ws ring; done (w ∷ ws', ring')

unfoldable pub run_threads :
    (schedule : List ℕ) → List Worker → Option RingContext → Exec (List Worker × Option RingContext)
unfolding step_at
run_threads [] ws ring = done (ws, ring)
run_threads (k ∷ ks) ws ring = do (ws', ring') ← step_at k ws ring; run_threads ks ws' ring'

-- The threads from `i` on, before their loops.
unfoldable pub create_threads : (left i num_threads iters : ℕ) → List Worker
create_threads zero i num_threads iters = []
create_threads (suc left) i num_threads iters =
    record {
      arg = record {
        thread_id = i;
        num_threads = num_threads;
        iterations = iters;
        writes_ok = 0;
        reads_ok = 0;
        data_errors = 0;
      };
      i = 0;
      has_written = false;
    }
    ∷ create_threads left (i + 1) num_threads iters

-- The sum of a count over the threads.
unfoldable pub total : (StressThreadArg → ℕ) → List Worker → ℕ
total count [] = 0
total count (w ∷ ws) = u32 (count w.arg + total count ws)

-- `pthread_join` of all threads: whether they are through their loops.
unfoldable pub all_joined : List Worker → Bool
all_joined [] = true
all_joined (w ∷ ws) = leb w.arg.iterations w.i && all_joined ws

-- The rest of the test, once the threads have run; `none` is a schedule that leaves a thread in its
-- loop.
unfoldable pub settle :
    (fuel : ℕ) (drain : List ℕ) (drained failures : ℕ)
    → List Worker × Option RingContext
    → Exec (Option (Option RingContext × ℕ))
unfolding all_joined total
settle fuel drain drained failures (ws, ring) = if not (all_joined ws) then done none else do
  emptied ← drain_ring fuel ring (some drain) (some drained)
  elim emptied [
    | none ↦ done none
    | some ring' ↦ done (
        some
          (ring', if total (λ sta. sta.data_errors) ws == 0 then failures else u32 (failures + 1)))
  ]

-- On the ring of the environment and the count of failures. `drain` and `drained` are the local
-- variables of `drain_ring`.
unfoldable pub test_stress_ring_multithread :
    (fuel : ℕ) (drain : List ℕ) (drained : ℕ) (schedule : List ℕ) (num_threads : ℕ)
    → Option RingContext
    → (failures : ℕ) → Exec (Option (Option RingContext × ℕ))
unfolding run_threads create_threads settle
test_stress_ring_multithread fuel drain drained schedule num_threads ring failures = do
  emptied ← drain_ring fuel ring (some drain) (some drained)
  elim emptied [
    | none ↦ done none
    | some ring' ↦ do
      ran ← run_threads schedule (create_threads num_threads 0 num_threads 50000) ring'
      settle fuel drain drained failures ran
  ]
