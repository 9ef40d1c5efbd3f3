-- ===== src/Engine/Command.antt =====
-- NtelSpoofKext/src/NtelTranslationEngine.c: `ntel_engine_process_command`, which ties the cache, the
-- translation and the ring together, with `ntel_engine_scorch_pass` and `ntel_engine_cleanup`. The
-- debug log is off (NTEL_DEBUG is 0 by default).

pub mod Isolation
pub mod Process
pub mod Ready
pub mod Serve
pub mod Store
pub mod Transparency
use n_igpu_macos.Common.{
  ℕ, Bool, true, false, not, ◌&&◌, Option, none, some, List, if◌then◌else◌, ◌==◌, length, Exec,
  done, ◌>>=◌,
}
use n_igpu_macos.SharedRing.{RingContext, try_write}
use n_igpu_macos.Engine.Hash.{shader_hash, shader_verify_tag}
use n_igpu_macos.Engine.Cache.{TranslationEngine, lookup, store, flush}
use n_igpu_macos.Engine.Translate.{translate_air_to_gen12}

-- What the system answers during a call: `(uint32_t)getpid()`, and whether each allocation
-- succeeds.
pub record Environment : Type 0 where
  pub pid : ℕ
  pub lookup_alloc : Bool
  pub translate_alloc : Bool
  pub store_alloc : Bool

-- `ntel_engine_scorch_pass`
unfoldable pub scorch_pass : TranslationEngine → TranslationEngine
scorch_pass e = flush e

-- The check of the caller's process.
unfoldable pub switch_process : ℕ → TranslationEngine → TranslationEngine
switch_process pid e =
    let e' = if not (e.active_pid == 0) && not (e.active_pid == pid) then scorch_pass e else e in
    record e' { active_pid = pid }

-- Bytes go to the ring.
unfoldable pub send : TranslationEngine → List ℕ → ℕ → Exec (TranslationEngine × Bool)
send e code size = do
  (ring', wrote) ← try_write e.ring (some code) size
  done (record e { ring = ring' }, wrote)

-- What follows a miss.
unfoldable pub compile_and_send :
    Environment → TranslationEngine → List ℕ → Exec (TranslationEngine × Bool)
unfolding send
compile_and_send env e air = do
  made ← translate_air_to_gen12 env.translate_alloc air
  elim made [
    | none ↦ done (e, false)
    | some (code, size) ↦ do
      (e', _) ←
          store env.store_alloc e (shader_hash air) (shader_verify_tag air) (length air) code size
      send e' code size
  ]

unfoldable pub submit : Environment → TranslationEngine → List ℕ → Exec (TranslationEngine × Bool)
unfolding compile_and_send send
submit env e air = do
  (e', found) ← lookup env.lookup_alloc e (shader_hash air) (shader_verify_tag air) (length air)
  elim found [ none ↦ compile_and_send env e' air | some (code, size) ↦ send e' code size ]

-- `ntel_engine_process_command`; a packet and its length are the list of its bytes.
unfoldable pub process_command :
    Environment
    → Option TranslationEngine
    → Option (List ℕ)
    → Exec (Option TranslationEngine × Bool)
unfolding submit switch_process
process_command env (some e) (some air) = elim e.ring [
  | none ↦ done (some e, false)
  | some _ ↦
      if length air == 0
      then done (some e, false)
      else (do (e', sent) ← submit env (switch_process env.pid e) air; done (some e', sent))
]
process_command env engine air = done (engine, false)

-- `ntel_engine_cleanup`
unfoldable pub engine_cleanup : Option TranslationEngine → Option TranslationEngine
engine_cleanup none = none
engine_cleanup (some e) = some (record (flush e) { ring = none })
