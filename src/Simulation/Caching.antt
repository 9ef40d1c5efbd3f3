-- ===== src/Simulation/Caching.antt =====
-- NtelSpoofKext/src/NtelSimulation.c: `test_shader_cache` and `test_hash_collision_rejection`, on an
-- engine and the count of failures, and the tests of the engine in the order of `ntel_sim_run`.
pub mod Pass
use n_igpu_macos.Common.{
  ℕ, zero, suc, ◌+◌, Bool, true, false, not, ◌||◌, ◌&&◌, Option, none, some, List, [], ◌∷◌,
  if◌then◌else◌, ltb, ◌==◌, length, u32, bit_xor, Exec, done, fault, ◌>>=◌,
}
use n_igpu_macos.Engine.Hash.{shader_hash, shader_verify_tag}
use n_igpu_macos.Engine.Cache.{TranslationEngine, lookup}
use n_igpu_macos.Engine.Command.{Environment, process_command}
use n_igpu_macos.Simulation.Bleed.{command, test_context_bleed}

abbrev pub air_shader : List ℕ
air_shader = 1 ∷ 2 ∷ 3 ∷ 4 ∷ 5 ∷ 6 ∷ 7 ∷ 8 ∷ []

-- The lookup of the shader, with its own hash, tag and length.
abbrev pub find_shader :
    (lookup_alloc : Bool) → TranslationEngine → Exec (TranslationEngine × Option (List ℕ × ℕ))
find_shader lookup_alloc e =
    lookup lookup_alloc e (shader_hash air_shader) (shader_verify_tag air_shader)
      (length air_shader)

-- The second lookup of `test_shader_cache`, once the shader was processed.
unfoldable pub find_again :
    (lookup_alloc : Bool) → TranslationEngine → (failures : ℕ) → Exec (TranslationEngine × ℕ)
find_again lookup_alloc e failures = do
  (e', found) ← find_shader lookup_alloc e
  done (
    e',
    elim found [
      | none ↦ u32 (failures + 1)
      | some (bytecode, size) ↦ if size == 0 then u32 (failures + 1) else failures
    ],
  )

unfoldable pub test_shader_cache :
    Environment
    → (first_alloc second_alloc : Bool) → TranslationEngine
    → (failures : ℕ) → Exec (TranslationEngine × ℕ)
unfolding find_again command
test_shader_cache env first_alloc second_alloc e failures = do
  (e1, found) ← find_shader first_alloc e
  elim found [
    | some _ ↦ done (e1, u32 (failures + 1))
    | none ↦ do
      (e2, processed) ← command env e1 air_shader
      elim processed [
        | false ↦ done (e2, u32 (failures + 1))
        | true ↦ find_again second_alloc e2 failures
      ]
  ]

abbrev pub shader_a : List ℕ
shader_a = 0xaa ∷ 0xbb ∷ 0xcc ∷ 0xdd ∷ []

-- `vtag_a ^ 0xDEADBEEF`
abbrev pub wrong_tag : ℕ
wrong_tag = bit_xor (shader_verify_tag shader_a) 0xdead_beef

abbrev pub is_hit : Option (List ℕ × ℕ) → Bool
is_hit none = false
is_hit (some _) = true

-- What the command returned is not looked at.
unfoldable pub test_hash_collision_rejection :
    Environment
    → (lookup_alloc : Bool) → TranslationEngine
    → (failures : ℕ) → Exec (TranslationEngine × ℕ)
unfolding command
test_hash_collision_rejection env lookup_alloc e failures = do
  (e1, _) ← command env e shader_a
  (e2, found) ← lookup lookup_alloc e1 (shader_hash shader_a) wrong_tag (length shader_a)
  let hit = is_hit found
  done (
    e2,
    if not hit && ltb 0 e2.collision_rejects
        then failures
        else if hit
        then u32 (failures + 1)
        else failures,
  )

-- The three tests of the engine, as `ntel_sim_run` runs them. An `Environment` is what the system
-- answers during a command.
unfoldable pub engine_tests :
    (env_a env_b env_c env_d : Environment) (alloc_b alloc_c alloc_c' alloc_d : Bool)
    → TranslationEngine
    → (failures : ℕ) → Exec (TranslationEngine × ℕ)
unfolding test_context_bleed test_shader_cache test_hash_collision_rejection
engine_tests env_a env_b env_c env_d alloc_b alloc_c alloc_c' alloc_d e failures = do
  (bled, failures1) ← test_context_bleed env_a env_b alloc_b e failures
  (cached, failures2) ← test_shader_cache env_c alloc_c alloc_c' bled failures1
  test_hash_collision_rejection env_d alloc_d cached failures2
