-- ===== src/Simulation/Pipeline.antt =====
-- NtelSpoofKext/src/NtelSimulation.c: `test_e2e_pipeline` and `test_translation_output`, on an engine
-- (whose ring is the one of the environment) and the count of failures.
pub mod Message
pub mod Pass
use n_igpu_macos.Common.{
  ℕ, ◌+◌, ◌&&◌, Bool, true, false, not, Option, none, some, List, [], ◌∷◌, if◌then◌else◌, leb, u32,
  Exec, done, ◌>>=◌,
}
use n_igpu_macos.SharedRing.{ReadOutcome, try_read}
use n_igpu_macos.Engine.Cache.{TranslationEngine}
use n_igpu_macos.Engine.Command.{Environment}
use n_igpu_macos.Simulation.{drain_ring}
use n_igpu_macos.Simulation.Bleed.{command}
use n_igpu_macos.Simulation.Caching.{engine_tests}

-- A move, a float addition and a float multiplication.
abbrev pub alu_shader : List ℕ
alu_shader = 0x00 ∷ 0x10 ∷ 0x20 ∷ 0x03 ∷ 0x30 ∷ 0x40 ∷ 0x50 ∷ 0x04 ∷ 0x60 ∷ 0x70 ∷ 0x80 ∷ []

unfoldable pub test_e2e_pipeline :
    Environment → TranslationEngine → (failures : ℕ) → Exec (TranslationEngine × ℕ)
unfolding command
test_e2e_pipeline env e failures = do
  (e', engine_res) ← command env e alu_shader
  done (e', if engine_res then failures else u32 (failures + 1))

abbrev pub air_mov : List ℕ
air_mov = 0 ∷ 1 ∷ 2 ∷ []

-- The count of failures after the read.
abbrev pub judged : ReadOutcome → (failures : ℕ) → ℕ
judged outcome failures = elim outcome.bytes_read [
  | none ↦ failures
  | some bytes_read ↦
      if outcome.read && not (leb (32 + 16) bytes_read) then u32 (failures + 1) else failures
]

-- A block that `drain_ring` reads into, what its count holds before, and the fuel of its loop.
pub record Drain : Type 0 where
  pub fuel : ℕ
  pub block : List ℕ
  pub drained : ℕ

-- `drain_ring(env->ring)`
unfoldable pub drain_engine : Drain → TranslationEngine → Exec (Option TranslationEngine)
drain_engine d e = do
  emptied ← drain_ring d.fuel e.ring (some d.block) (some d.drained)
  elim emptied [ none ↦ done none | some ring ↦ done (some (record e { ring = ring })) ]

-- `read_buf` is the block that is read into.
unfoldable pub test_translation_output :
    Drain
    → (read_buf : List ℕ) → Environment
    → TranslationEngine
    → (failures : ℕ) → Exec (Option (TranslationEngine × ℕ))
unfolding command drain_engine
test_translation_output d read_buf env e failures = do
  emptied ← drain_engine d e
  elim emptied [
    | none ↦ done none
    | some e1 ↦ do
      (e2, result) ← command env e1 air_mov
      elim result [
        | false ↦ done (some (e2, u32 (failures + 1)))
        | true ↦ do
          outcome ← try_read e2.ring (some read_buf) 64 (some 0)
          last ← drain_engine d (record e2 { ring = outcome.ctx })
          elim last [ none ↦ done none | some e3 ↦ done (some (e3, judged outcome failures)) ]
      ]
  ]

-- The five tests of the engine in the order of `ntel_sim_run`, without the stress tests that a run may
-- have between the third and the fourth.
unfoldable pub engine_suite :
    Drain
    → (read_buf : List ℕ)
    → (env_a env_b env_c env_d env_e env_f : Environment) (alloc_b alloc_c alloc_c' alloc_d : Bool)
    → TranslationEngine
    → (failures : ℕ) → Exec (Option (TranslationEngine × ℕ))
unfolding engine_tests test_e2e_pipeline test_translation_output
engine_suite d read_buf env_a env_b env_c env_d env_e env_f alloc_b alloc_c alloc_c' alloc_d e
      failures =
    do
      (tested, failures1) ←
          engine_tests env_a env_b env_c env_d alloc_b alloc_c alloc_c' alloc_d e failures
      (piped, failures2) ← test_e2e_pipeline env_e tested failures1
      test_translation_output d read_buf env_f piped failures2
