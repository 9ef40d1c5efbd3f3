-- ===== src/Simulation/Bleed.antt =====
-- NtelSpoofKext/src/NtelSimulation.c: `test_context_bleed`, on an engine (whose ring is the one of the
-- environment) and the count of failures. What the system answers during the two commands, and whether
-- the lookup can allocate, are arguments.
pub mod Pass
use n_igpu_macos.Common.{
  ℕ, ◌+◌, Bool, true, false, not, Option, none, some, List, [], ◌∷◌, if◌then◌else◌, ◌==◌, length,
  u32, Exec, done, fault, ◌>>=◌,
}
use n_igpu_macos.Engine.Hash.{shader_hash, shader_verify_tag}
use n_igpu_macos.Engine.Cache.{TranslationEngine, lookup}
use n_igpu_macos.Engine.Command.{Environment, process_command}

-- `ntel_engine_process_command` on the engine of the environment
unfoldable pub command : Environment → TranslationEngine → List ℕ → Exec (TranslationEngine × Bool)
command env e air = do
  (engine, sent) ← process_command env (some e) (some air)
  elim engine [ none ↦ fault | some e' ↦ done (e', sent) ]

abbrev pub cmd_a : List ℕ
cmd_a = 0x10 ∷ 0x20 ∷ 0x30 ∷ 0x40 ∷ []

abbrev pub cmd_b : List ℕ
cmd_b = 0xaa ∷ 0xbb ∷ 0xcc ∷ 0xdd ∷ []

-- The lookup of the first command's entry, and the count of its misses.
unfoldable pub lookup_misses :
    (lookup_alloc : Bool) → TranslationEngine → (failures : ℕ) → Exec (TranslationEngine × ℕ)
lookup_misses lookup_alloc e failures = do
  (e', found) ← lookup lookup_alloc e (shader_hash cmd_a) (shader_verify_tag cmd_a) (length cmd_a)
  elim found [
    | some _ ↦ done (e', u32 (failures + 1))
    | none ↦
        if not (e'.cache_misses == u32 (e.cache_misses + 1))
        then done (e', u32 (failures + 1))
        else done (e', failures)
  ]

unfoldable pub test_context_bleed :
    (env_a env_b : Environment) (lookup_alloc : Bool)
    → TranslationEngine
    → (failures : ℕ) → Exec (TranslationEngine × ℕ)
unfolding command lookup_misses
test_context_bleed env_a env_b lookup_alloc e failures = do
  (e1, sent_a) ← command env_a (record e { active_pid = 0 }) cmd_a
  let foreign = u32 (e1.active_pid + 9999)
  (e2, sent_b) ←
      (if not sent_a
        then done (e1, false)
        else command env_b (record e1 { active_pid = foreign }) cmd_b)
  if not sent_b
      then done (e2, u32 (failures + 1))
      else if e2.active_pid == foreign
      then done (e2, u32 (failures + 1))
      else lookup_misses lookup_alloc e2 failures
