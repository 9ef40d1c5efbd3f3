-- ===== src/Simulation/Suite.antt =====
-- NtelSpoofKext/src/NtelSimulation.c: the tests of the shared ring in the regression suite, on the
-- context of the ring and the count of failures. What a local variable holds before it is
-- written is an argument; what the tests print is left out.
pub mod Pass
pub mod Tearing
pub mod Whole
use n_igpu_macos.Common.{
  ℕ, zero, suc, ◌+◌, Bool, true, false, not, Option, none, some, List, [], ◌∷◌, if◌then◌else◌, ◌==◌,
  ◌&&◌, ◌||◌, ◌*◌, leb, u32, sub32, take, replicate, Exec, done, fault, ◌>>=◌,
}
use n_igpu_macos.SharedRing.{SharedRingHeader, RingContext, ReadOutcome, try_write, try_read}
use n_igpu_macos.Engine.Mask.{calculate_predicate_mask}
use n_igpu_macos.Simulation.{drain_ring}

-- The part of `NtelSimulationEnvironment` that these tests use.
pub record SimulationEnvironment : Type 0 where
  pub ring : Option RingContext
  pub frame_count : ℕ
  pub test_failures : ℕ
  pub watchdog_triggered : Bool

abbrev pub record_test_failure : SimulationEnvironment → SimulationEnvironment
record_test_failure env = record env { test_failures = u32 (env.test_failures + 1) }

-- `memcmp(xs, ys, n) == 0` for two blocks of `n` bytes
abbrev pub same_bytes : List ℕ → List ℕ → Bool
same_bytes [] [] = true
same_bytes [] (y ∷ ys) = false
same_bytes (x ∷ xs) [] = false
same_bytes (x ∷ xs) (y ∷ ys) = x == y && same_bytes xs ys

-- Whether the byte read is one of those written.
unfoldable pub is_torn : Option (List ℕ) → Bool
is_torn (some (read_val ∷ rest)) = not (read_val == 0xaa) && not (read_val == 0xbb)
is_torn _ = true

-- The loop of `test_cache_line_tearing`, with `left` rounds to go.
unfoldable pub test_cache_line_tearing :
    (left read_val read_bytes : ℕ) → SimulationEnvironment → Exec SimulationEnvironment
test_cache_line_tearing zero read_val read_bytes env = done env
test_cache_line_tearing (suc left) read_val read_bytes env = do
  (ring1, _) ← try_write env.ring (some (0xaa ∷ [])) 1
  (ring2, _) ← try_write ring1 (some (0xbb ∷ [])) 1
  outcome ← try_read ring2 (some (read_val ∷ [])) 1 (some read_bytes)
  let env' = record env { ring = outcome.ctx }
  let rest = test_cache_line_tearing left read_val read_bytes env'
  if is_torn outcome.out_data then done (record_test_failure env') else rest

unfoldable pub test_simd_remainder_occupancy : SimulationEnvironment → SimulationEnvironment
test_simd_remainder_occupancy env =
    if calculate_predicate_mask 273 32 == 0x1ffff then env else record_test_failure env

unfoldable pub test_asynchronous_watchdog : SimulationEnvironment → SimulationEnvironment
test_asynchronous_watchdog env =
    let env' = record env { frame_count = 120 } in
    if leb 120 env'.frame_count then record env' { watchdog_triggered = true } else env'

-- Both indices are set to `capacity_bytes - 4`.
abbrev pub near_end : RingContext → Exec RingContext
near_end ctx = elim ctx.header [
  | none ↦ fault
  | some h ↦
      let at = sub32 ctx.capacity_bytes 4 in
      done (record ctx { header = some (record h { write_idx = at; read_idx = at }) })
]

-- The bytes of `0xDEADBEEF, 0xCAFEBABE`
abbrev pub payload : List ℕ
payload = 0xef ∷ 0xbe ∷ 0xad ∷ 0xde ∷ 0xbe ∷ 0xba ∷ 0xfe ∷ 0xca ∷ []

-- `rb == 8 && memcmp(read_back, payload, 8) == 0`
abbrev pub is_read_back : ReadOutcome → Bool
is_read_back outcome = elim outcome.bytes_read [
  | none ↦ false
  | some rb ↦ rb == 8 && elim outcome.out_data [
    | none ↦ false
    | some read_back ↦ same_bytes (take 8 read_back) payload
  ]
]

unfoldable pub test_ring_wraparound :
    (read_back : List ℕ) (rb : ℕ) → SimulationEnvironment → Exec SimulationEnvironment
test_ring_wraparound read_back rb env = elim env.ring [
  | none ↦ fault
  | some ctx ↦ do
    ctx' ← near_end ctx
    (ring1, _) ← try_write (some ctx') (some payload) 8
    outcome ← try_read ring1 (some read_back) 8 (some rb)
    let env' = record env { ring = outcome.ctx }
    done (if is_read_back outcome then env' else record_test_failure env')
]

unfoldable pub test_monkey_brain_fuzzer : SimulationEnvironment → Exec SimulationEnvironment
test_monkey_brain_fuzzer env = elim env.ring [
  | none ↦ fault
  | some ctx ↦ do
    (ring1, res) ← try_write (some ctx) (some (replicate 4 0xff)) (u32 (ctx.capacity_bytes + 1))
    let env' = record env { ring = ring1 }
    done (if not res then env' else record_test_failure env')
]

-- The eight threads of `test_thread_riot` write the same four bytes, 1000 times each, and each write
-- is one step under the lock: in every interleaving, `left` such writes are to come.
unfoldable pub thread_writers : (left : ℕ) → Option RingContext → Exec (Option RingContext)
thread_writers zero ring = done ring
thread_writers (suc left) ring = do
  (ring', _) ← try_write ring (some (0x78 ∷ 0x56 ∷ 0x34 ∷ 0x12 ∷ [])) 4
  thread_writers left ring'

-- `drain` and `drained` are the local variables of `drain_ring`.
unfoldable pub test_thread_riot :
    (fuel : ℕ) (drain : List ℕ) (drained : ℕ)
    → SimulationEnvironment
    → Exec (Option SimulationEnvironment)
unfolding thread_writers drain_ring
test_thread_riot fuel drain drained env = do
  ring ← thread_writers (8 * 1000) env.ring
  emptied ← drain_ring fuel ring (some drain) (some drained)
  elim emptied [ none ↦ done none | some ring' ↦ done (some (record env { ring = ring' })) ]

-- `while (ntel_ring_try_write(env->ring, &dummy, 1))`; `none` is a loop that the fuel does not finish.
unfoldable pub fill_ring : (fuel : ℕ) → Option RingContext → Exec (Option (Option RingContext))
fill_ring zero ring = done none
fill_ring (suc fuel) ring = do
  (ring', wrote) ← try_write ring (some (0 ∷ [])) 1
  elim wrote [ false ↦ done (some ring') | true ↦ fill_ring fuel ring' ]

unfoldable pub test_chokehold :
    (fuel : ℕ) (drain : List ℕ) (drained : ℕ)
    → SimulationEnvironment
    → Exec (Option SimulationEnvironment)
unfolding fill_ring drain_ring
test_chokehold fuel drain drained env = do
  filled ← fill_ring fuel env.ring
  elim filled [
    | none ↦ done none
    | some ring ↦ do
      (ring', res) ← try_write ring (some (0 ∷ [])) 1
      emptied ← drain_ring fuel ring' (some drain) (some drained)
      elim emptied [
        | none ↦ done none
        | some ring'' ↦
            let env' = record env { ring = ring'' } in
            done (some (if not res then env' else record_test_failure env'))
      ]
  ]

-- The local variables of the tests before they are written.
pub record Locals : Type 0 where
  pub read_val : ℕ
  pub read_bytes : ℕ
  pub read_back : List ℕ
  pub rb : ℕ
  pub drain : List ℕ
  pub drained : ℕ

-- The tests that `ntel_sim_run` starts with.
unfoldable pub ring_tests :
    (fuel : ℕ) → Locals → SimulationEnvironment → Exec (Option SimulationEnvironment)
unfolding test_cache_line_tearing test_ring_wraparound test_monkey_brain_fuzzer test_thread_riot
    test_chokehold
ring_tests fuel l env = do
  torn ← test_cache_line_tearing 1000 l.read_val l.read_bytes env
  let watched = test_asynchronous_watchdog (test_simd_remainder_occupancy torn)
  wrapped ← test_ring_wraparound l.read_back l.rb watched
  fuzzed ← test_monkey_brain_fuzzer wrapped
  riot ← test_thread_riot fuel l.drain l.drained fuzzed
  elim riot [ none ↦ done none | some calm ↦ test_chokehold fuel l.drain l.drained calm ]
