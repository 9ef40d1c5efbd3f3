-- ===== src/Simulation/Suite/Whole.antt =====
-- The tests that `ntel_sim_run` starts with, one after the other.
use n_igpu_macos.Common.{ℕ, ◌≤◌, ◌<◌, ◌≡◌, ◌∙◌, refl, true, some, [], length, done, arith}
use n_igpu_macos.SharedRing.View.{OpenRing, context, IsValid, contents}
use n_igpu_macos.Engine.Mask.{calculate_predicate_mask}
use n_igpu_macos.Simulation.Suite.{
  SimulationEnvironment, Locals, test_cache_line_tearing, test_simd_remainder_occupancy,
  test_asynchronous_watchdog, test_ring_wraparound, test_monkey_brain_fuzzer, test_thread_riot,
  test_chokehold, ring_tests,
}
use n_igpu_macos.Simulation.Suite.Pass.{
  with_ring, fuzzer_passes, wraparound_passes, chokehold_passes,
}
use n_igpu_macos.Simulation.Suite.Tearing.{IsPure, tearing_passes, riot_ends}

-- After the watchdog's test.
abbrev watched : SimulationEnvironment → SimulationEnvironment
watched env = record env { frame_count = 120; watchdog_triggered = true }

mask_passes : (env : SimulationEnvironment) → test_simd_remainder_occupancy env ≡ env
unfolding test_simd_remainder_occupancy calculate_predicate_mask
mask_passes env = refl

watchdog_passes : (env : SimulationEnvironment) → test_asynchronous_watchdog env ≡ watched env
unfolding test_asynchronous_watchdog
watchdog_passes env = refl

-- The run, from what the tests return.
ring_tests_runs :
    (fuel : ℕ) (l : Locals) (env : SimulationEnvironment) (s s1 s2 s3 s4 : OpenRing)
    → test_cache_line_tearing 1000 l.read_val l.read_bytes (with_ring env s)
      ≡ done (with_ring env s1)
    → test_ring_wraparound l.read_back l.rb (with_ring (watched env) s1)
      ≡ done (with_ring (watched env) s2)
    → test_monkey_brain_fuzzer (with_ring (watched env) s2) ≡ done (with_ring (watched env) s2)
    → test_thread_riot fuel l.drain l.drained (with_ring (watched env) s2)
      ≡ done (some (with_ring (watched env) s3))
    → test_chokehold fuel l.drain l.drained (with_ring (watched env) s3)
      ≡ done (some (with_ring (watched env) s4))
    → ring_tests fuel l (with_ring env s) ≡ done (some (with_ring (watched env) s4))
unfolding ring_tests
ring_tests_runs fuel l env s s1 s2 s3 s4 torn wrapped fuzzed riot choked =
    rw
      (
        torn,
        mask_passes (with_ring env s1),
        watchdog_passes (with_ring env s1),
        wrapped,
        fuzzed,
        riot,
      )
      choked

-- On a valid open ring of more than 8 bytes that holds at most bytes 0xAA and 0xBB, with blocks of 8
-- and 256 bytes for the reads and fuel beyond the capacity: the first seven tests of the suite end,
-- with every access inside its buffers and for any values of their uninitialised variables, record
-- no failure, and leave the ring empty, valid and of the same capacity.
pub ring_tests_pass :
    (fuel : ℕ) (l : Locals) (s : OpenRing) (env : SimulationEnvironment)
    → IsValid s
    → 8 < s.capacity
    → IsPure (contents s)
    → 8 ≤ length l.read_back
    → 256 ≤ length l.drain
    → s.capacity < fuel
    → (s' : OpenRing) × (ring_tests fuel l (record env { ring = some (context s) })
        ≡ done (
            some (record env {
              ring = some (context s');
              frame_count = 120;
              watchdog_triggered = true;
            })))
      × IsValid s'
      × (s'.capacity ≡ s.capacity)
      × (contents s' ≡ [])
ring_tests_pass fuel l s env v large pure back block enough =
    let (s1, torn, v1, same1) =
      tearing_passes 1000 l.read_val l.read_bytes s env v (omega arith) pure in
    let (s2, wrapped, v2, same2, _) =
      wraparound_passes s1 l.read_back l.rb (watched env) v1 (omega arith) back in
    let (s3, riot, v3, same3) =
      riot_ends fuel s2 l.drain l.drained (watched env) v2 block (omega arith) in
    let (s4, choked, v4, same4, empty) =
      chokehold_passes fuel s3 l.drain l.drained (watched env) v3 block (omega arith) in
    (
      s4,
      ring_tests_runs fuel l env s s1 s2 s3 s4 torn wrapped (fuzzer_passes s2 (watched env) v2) riot
          choked,
      v4,
      same4 ∙ same3 ∙ same2 ∙ same1,
      empty,
    )
