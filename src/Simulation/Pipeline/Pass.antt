-- ===== src/Simulation/Pipeline/Pass.antt =====
-- The tests of the engine pass, in the order of the suite.
use n_igpu_macos.Common.{
  ℕ, ◌+◌, ◌≤◌, ◌<◌, ◌^◌, ◌≡◌, ◌∙◌, refl, Bool, true, some, List, [], length, done, arith,
}
use n_igpu_macos.SharedRing.View.{OpenRing, contents}
use n_igpu_macos.Engine.Cache.{TranslationEngine}
use n_igpu_macos.Engine.Command.{Environment}
use n_igpu_macos.Engine.Command.Ready.{IsReady}
use n_igpu_macos.Simulation.Pipeline.{
  test_e2e_pipeline, Drain, test_translation_output, engine_suite,
}
use n_igpu_macos.Simulation.Caching.{engine_tests}
use n_igpu_macos.Simulation.Caching.Pass.{engine_tests_pass}
use n_igpu_macos.Simulation.Pipeline.Message.{e2e_passes, translation_passes}

-- The run, from what its parts return.
suite_runs :
    (d : Drain) (read_buf : List ℕ) (env_a env_b env_c env_d env_e env_f : Environment)
    (alloc_b alloc_c alloc_d : Bool) (e e1 e3 e4 : TranslationEngine) (failures : ℕ)
    → engine_tests env_a env_b env_c env_d alloc_b alloc_c true alloc_d e failures
      ≡ done (e1, failures)
    → test_e2e_pipeline env_e e1 failures ≡ done (e3, failures)
    → test_translation_output d read_buf env_f e3 failures ≡ done (some (e4, failures))
    → engine_suite d read_buf env_a env_b env_c env_d env_e env_f alloc_b alloc_c true alloc_d e
        failures
      ≡ done (some (e4, failures))
unfolding engine_suite
suite_runs d read_buf env_a env_b env_c env_d env_e env_f alloc_b alloc_c alloc_d e e1 e3 e4
      failures tested piped translated =
    rw (tested, piped, translated) refl

-- With a ready engine on a ring of more than 656 bytes more than it holds, in one process with a number
-- that is not 0 and stays one behind 9999 more, with translations that can be allocated, and entries
-- too from the third command on, and a copy for the second lookup of `test_shader_cache`, and with
-- blocks of at least 256 and 64 bytes to read into and fuel for the ring: the five tests of the
-- engine, one after the other, end and record no failure, whether or not the other lookups can allocate, and leave a
-- ready engine on an empty ring.
pub engine_suite_passes :
    (d : Drain) (read_buf : List ℕ) (env_a env_b env_c env_d env_e env_f : Environment)
    (alloc_b alloc_c alloc_d : Bool) (e : TranslationEngine) (s : OpenRing) (failures : ℕ)
    → IsReady e s
    → (env_a.translate_alloc ≡ true) × (env_b.translate_alloc ≡ true)
    → (env_c.translate_alloc ≡ true) × (env_c.store_alloc ≡ true)
    → (env_d.translate_alloc ≡ true) × (env_d.store_alloc ≡ true)
    → (env_e.translate_alloc ≡ true) × (env_e.store_alloc ≡ true)
    → (env_f.translate_alloc ≡ true) × (env_f.store_alloc ≡ true)
    → (env_a.pid ≡ env_b.pid)
      × (env_b.pid ≡ env_c.pid)
      × (env_c.pid ≡ env_d.pid)
      × (env_d.pid ≡ env_e.pid)
      × (env_e.pid ≡ env_f.pid)
    → 0 < env_a.pid
    → env_a.pid + 9999 < 2 ^ 32
    → length (contents s) + 656 < s.capacity
    → 256 ≤ length d.block
    → 64 ≤ length read_buf
    → s.capacity < d.fuel
    → (after : TranslationEngine) × (ring : OpenRing) × (engine_suite d read_buf env_a env_b env_c
          env_d env_e env_f alloc_b alloc_c true alloc_d e failures
        ≡ done (some (after, failures)))
      × IsReady after ring
      × (contents ring ≡ [])
engine_suite_passes d read_buf env_a env_b env_c env_d env_e env_f alloc_b alloc_c alloc_d e s
      failures ready ab_ok c_ok d_ok (ok_e, store_e) (ok_f, store_f) (ab, bc, cd, de, ef) used small
      space room buf fuel =
    let (e1, s1, tested, ready1, pid, same, size1) =
      engine_tests_pass env_a env_b env_c env_d alloc_b alloc_c alloc_d e s failures ready ab_ok
        c_ok d_ok (ab, bc, cd) used small (omega arith) in
    let (e3, s3, piped, ready3, pid3, same', size3) =
      e2e_passes env_e e1 s1 failures ready1 (pid ∙ de) ok_e store_e (omega arith) in
    let (after, ring, translated, ready4, gone) =
      translation_passes d read_buf env_f e3 s3 failures ready3 (pid3 ∙ ef) ok_f store_f room buf
        (omega arith) (omega arith) (omega arith) in
    (
      after,
      ring,
      suite_runs d read_buf env_a env_b env_c env_d env_e env_f alloc_b alloc_c alloc_d e e1 e3
          after failures tested piped translated,
      ready4,
      gone,
    )
