-- ===== src/Simulation/Tests.antt =====
-- A ring that is drained.
use n_igpu_macos.Common.{
  ℕ, ◌*◌, zero, suc, ◌+◌, ◌≤◌, ◌<◌, ◌==◌, ◌++◌, List, count, length, none-some, refl, ◌≡◌, [], ◌∷◌,
  none, some, false, true, replicate, done, arith,
}
use n_igpu_macos.SharedRing.{fresh_header}
use n_igpu_macos.SharedRing.View.{OpenRing, context, IsValid, contents}
use n_igpu_macos.Engine.Isa.{unknown_entry}
use n_igpu_macos.Engine.Cache.{TranslationEngine, zero_entry}
use n_igpu_macos.Engine.Cache.View.{vacant}
use n_igpu_macos.Engine.Command.{Environment}
use n_igpu_macos.Engine.Command.Ready.{IsReady}
use n_igpu_macos.Simulation.{drain_ring, drain_ring_empties}
use n_igpu_macos.Simulation.Setup.{sim_setup, sim_setup_starts}
use n_igpu_macos.Simulation.Stress.{
  Worker, run_threads, create_threads, test_stress_ring_multithread,
}
use n_igpu_macos.Simulation.Stress.Traffic.{Handover, traffic}
use n_igpu_macos.Simulation.Stress.Interleave.{sum, calls_of}
use n_igpu_macos.Simulation.Stress.Whole.{stress_ring_passes}
use n_igpu_macos.DebugRing.{DebugRing, zero_record, snapshot}
use n_igpu_macos.Simulation.Recorder.{test_debug_ring_drain, debug_ring_drain_verdict}
use n_igpu_macos.Simulation.Pipeline.{Drain, engine_suite}
use n_igpu_macos.Simulation.Pipeline.Pass.{engine_suite_passes}
use n_igpu_macos.Simulation.Suite.{SimulationEnvironment, Locals, ring_tests}
use n_igpu_macos.Simulation.Suite.Whole.{ring_tests_pass}

-- 11, 12, 13 from place 2 on, round the end of the buffer
abbrev ring : OpenRing
ring = record {
  header = record (fresh_header 4) { write_idx = 1; read_idx = 2 };
  buffer = 13 ∷ 0 ∷ 11 ∷ 12 ∷ [];
  capacity = 4;
}

ring-IsValid : IsValid ring
ring-IsValid = record {
  small = omega arith;
  storage = omega arith;
  write_in = omega arith;
  read_in = omega arith;
}

drain_ring_empties_example :
    (s' : OpenRing) × (drain_ring 4 (some (context ring)) (some (replicate 256 0)) (some 0)
      ≡ done (some (some (context s'))))
    × IsValid s'
    × (s'.capacity ≡ 4)
    × (contents s' ≡ [])
drain_ring_empties_example =
    drain_ring_empties 4 ring (replicate 256 0) 0 ring-IsValid (omega arith) (omega arith)

-- An empty ring of 16 bytes.
abbrev small_ring : OpenRing
small_ring = record { header = fresh_header 16; buffer = replicate 16 0; capacity = 16 }

small_ring-IsValid : IsValid small_ring
small_ring-IsValid = record {
  small = omega arith;
  storage = omega arith;
  write_in = omega arith;
  read_in = omega arith;
}

abbrev locals : Locals
locals = record {
  read_val = 7;
  read_bytes = 7;
  read_back = replicate 8 7;
  rb = 7;
  drain = replicate 256 7;
  drained = 7;
}

abbrev environment : SimulationEnvironment
environment = record { ring = none; frame_count = 0; test_failures = 0; watchdog_triggered = false }

ring_tests_pass_example :
    (s' : OpenRing) × (ring_tests 17 locals
        (record environment { ring = some (context small_ring) })
      ≡ done (
          some (record environment {
            ring = some (context s');
            frame_count = 120;
            watchdog_triggered = true;
          })))
    × IsValid s'
    × (s'.capacity ≡ 16)
    × (contents s' ≡ [])
ring_tests_pass_example =
    ring_tests_pass 17 locals small_ring environment small_ring-IsValid (omega arith) tt
      (omega arith) (omega arith) (omega arith)

-- An empty ring of 1024 bytes.
abbrev large_ring : OpenRing
large_ring = record { header = fresh_header 1024; buffer = replicate 1024 0; capacity = 1024 }

large_ring-IsValid : IsValid large_ring
large_ring-IsValid = record {
  small = omega arith;
  storage = omega arith;
  write_in = omega arith;
  read_in = omega arith;
}

abbrev fresh_engine : TranslationEngine
fresh_engine = record {
  ring = some (context large_ring);
  isa_mapping_table = λ i. unknown_entry;
  active_pid = 5;
  shader_cache = λ i. zero_entry;
  cache_hits = 0;
  cache_misses = 0;
  collision_rejects = 0;
}

fresh_engine-IsReady : IsReady fresh_engine large_ring
fresh_engine-IsReady = record {
  on_ring = refl;
  ring_valid = large_ring-IsValid;
  sane = λ i h. vacant refl refl;
  outputs = λ i h k bytes e. absurd (none-some e);
}

abbrev process : Environment
process = record { pid = 42; lookup_alloc = true; translate_alloc = true; store_alloc = false }

sim_setup_starts_example :
    (s : OpenRing) × (e : TranslationEngine) × (env : SimulationEnvironment)
    × (after : SimulationEnvironment) × (sim_setup
          (record {
            hw = true;
            vram_mock = some (replicate 100 9);
            ring = some (context ring);
            engine = some fresh_engine;
            ring_mutex = true;
            engine_mutex = true;
          })
          100
        ≡ some (env, some e))
    × IsReady e s
    × (s.capacity ≡ 36)
    × (contents s ≡ [])
    × (env.ring ≡ some (context s))
    × (ring_tests 101 locals env ≡ done (some after))
    × (after.test_failures ≡ 0)
sim_setup_starts_example =
    sim_setup_starts (replicate 100 9) (context ring) fresh_engine 100 101 locals (omega arith)
      (omega arith) (omega arith) (omega arith) (omega arith) (omega arith)

abbrev storing : Environment
storing = record process { store_alloc = true }

abbrev drain : Drain
drain = record { fuel = 1025; block = replicate 256 9; drained = 9 }

engine_suite_passes_example :
    (after : TranslationEngine) × (ring : OpenRing) × (engine_suite drain
        (replicate 64 0)
        process
        process
        storing
        storing
        storing
        storing
        true
        false
        true
        true
        fresh_engine
        3
      ≡ done (some (after, 3)))
    × IsReady after ring
    × (contents ring ≡ [])
engine_suite_passes_example =
    engine_suite_passes drain (replicate 64 0) process process storing storing storing storing true
      false true fresh_engine large_ring 3 fresh_engine-IsReady (refl, refl) (refl, refl)
      (refl, refl) (refl, refl) (refl, refl) (refl, refl, refl, refl, refl) (omega arith)
      (omega arith) (omega arith) (omega arith) (omega arith) (omega arith)

calls_of-append : (j : ℕ) (xs ys : List ℕ) → calls_of j (xs ++ ys) ≡ calls_of j xs + calls_of j ys
calls_of-append j [] ys = omega arith
calls_of-append j (x ∷ xs) ys = omega (arith, calls_of-append j xs ys)

calls_of-replicate : (j m : ℕ) → calls_of j (replicate m j) ≡ m
calls_of-replicate j zero = refl
calls_of-replicate j (suc m) =
    let own : count (j == j) ≡ 1 = ground arith in omega (arith, own, calls_of-replicate j m)

-- Thread 1 makes all its calls, then thread 0.
abbrev one_by_one : List ℕ
one_by_one = replicate 100000 1 ++ replicate 100000 0

one_by_one_is_fair : (j : ℕ) → j < 2 → 100000 ≤ calls_of j one_by_one
one_by_one_is_fair zero h = omega (
  arith,
  calls_of-append 0 (replicate 100000 1) (replicate 100000 0),
  calls_of-replicate 0 100000,
)
one_by_one_is_fair (suc zero) h = omega (
  arith,
  calls_of-append 1 (replicate 100000 1) (replicate 100000 0),
  calls_of-replicate 1 100000,
)
one_by_one_is_fair (suc (suc j)) h = absurd (omega arith)

stress_ring_passes_example :
    (start : OpenRing) × (ws : List Worker) × (mid : OpenRing) × (ends : OpenRing)
    × (bytes : Handover) × (contents start ≡ [])
    × (run_threads one_by_one (create_threads 2 0 2 50000) (some (context start))
        ≡ done (ws, some (context mid)))
    × (traffic one_by_one (create_threads 2 0 2 50000) (some (context start)) ≡ done bytes)
    × (bytes.sent ≡ bytes.got ++ contents mid)
    × (sum (λ a. a.writes_ok) ws ≡ length bytes.sent)
    × (sum (λ a. a.reads_ok) ws ≡ length bytes.got)
    × (test_stress_ring_multithread 5 (replicate 256 0) 0 one_by_one 2 (some (context ring)) 0
        ≡ done (some (some (context ends), 0)))
    × IsValid ends
    × (contents ends ≡ [])
stress_ring_passes_example =
    stress_ring_passes 5 ring (replicate 256 0) 0 0 2 one_by_one ring-IsValid (omega arith)
      (omega arith) (omega arith) (omega arith) one_by_one_is_fair

debug_ring_drain_verdict_example :
    (after : DebugRing) × (test_debug_ring_drain 0
        (λ i. 7 * i)
        (record { write_index = 3; records = λ i. zero_record })
        4
      ≡ (after, 5))
    × (snapshot (some after) ≡ 0)
debug_ring_drain_verdict_example =
    debug_ring_drain_verdict 0 (λ i. 7 * i) (record { write_index = 3; records = λ i. zero_record })
      4
