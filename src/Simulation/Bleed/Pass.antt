-- ===== src/Simulation/Bleed/Pass.antt =====
-- `test_context_bleed` passes on a ready engine.
use n_igpu_macos.Common.{
  ℕ, ◌+◌, ◌≤◌, ◌<◌, ◌^◌, ◌≡◌, ◌≢◌, ◌∙◌, refl, ap, inl, Bool, true, false, List, ne→==, eq→==,
  length, length-append, u32, IsBytes, done, arith,
}
use n_igpu_macos.SharedRing.View.{OpenRing, contents}
use n_igpu_macos.Engine.Hash.{shader_hash, hash_from, hash_round}
use n_igpu_macos.Engine.Cache.{TranslationEngine, slot, missed, inspect, lookup}
use n_igpu_macos.Engine.Command.{Environment}
use n_igpu_macos.Engine.Command.Ready.{output, IsReady}
use n_igpu_macos.Engine.Cache.Inspect.{slot-lt}
use n_igpu_macos.Engine.Command.Process.{process_command_sends, with_pid-IsReady}
use n_igpu_macos.Simulation.Sending.{length-output, output_is_some, queue_takes}
use n_igpu_macos.Engine.Command.Isolation.{process_command_clears}
use n_igpu_macos.Engine.Command.Transparency.{missed_or_rejected-IsReady}
use n_igpu_macos.Simulation.Bleed.{command, cmd_a, cmd_b, lookup_misses, test_context_bleed}

-- The entries of the two commands are apart.
apart : slot (shader_hash cmd_a) ≢ slot (shader_hash cmd_b)
unfolding shader_hash hash_from hash_round
apart = omega arith

cmd_a-IsBytes : IsBytes cmd_a
cmd_a-IsBytes = (omega arith, (omega arith, (omega arith, (omega arith, tt))))

pub cmd_b-IsBytes : IsBytes cmd_b
cmd_b-IsBytes = (omega arith, (omega arith, (omega arith, (omega arith, tt))))

-- A command that goes to the ring.
record Sent (env : Environment) (e : TranslationEngine) (s : OpenRing) (air : List ℕ) : Type 0 where
  after : TranslationEngine
  ring : OpenRing
  eq : command env e air ≡ done (after, true)
  ready : IsReady after ring
  pid : after.active_pid ≡ env.pid

-- Only the entry of the second command may be valid.
abbrev pub Cleared : TranslationEngine → Type 0
Cleared e = (i : ℕ) → i < 256 → i ≢ slot (shader_hash cmd_b) → (e.shader_cache i).valid ≡ false

-- The first command.
sends_a :
    (env : Environment) (e : TranslationEngine) (s : OpenRing)
    → IsReady e s
    → env.translate_alloc ≡ true
    → length (contents s) + 192 < s.capacity
    → (sent : Sent env e s cmd_a) × (sent.ring.capacity ≡ s.capacity)
      × (length (contents sent.ring) ≤ length (contents s) + 96)
unfolding command
sends_a env e s ready ok room =
    let (p, after, ring, _, key, eq, holds, same, ready', pid) =
      process_command_sends env e s cmd_a ready ok (omega arith) (omega arith) cmd_a-IsBytes in
    let four : length p ≡ 4 = ap (λ k. k.len) key in
    let bound : length (output p) ≤ 96 = omega (arith, length-output p) in
    let (taken, now) =
      queue_takes s.capacity (contents s) (output p) (omega (arith, output_is_some p))
        (omega arith) in
    let size : length (contents ring) ≡ length (contents s) + length (output p) =
      ap length (holds ∙ now) ∙ length-append (contents s) (output p) in
    (
      record { after = after; ring = ring; eq = rw (eq, taken) refl; ready = ready'; pid = pid },
      same,
      omega arith,
    )

-- The command of another process: the other entries are vacant behind it.
sends_b :
    (env : Environment) (e : TranslationEngine) (s : OpenRing)
    → IsReady e s
    → e.active_pid ≢ 0
    → e.active_pid ≢ env.pid
    → env.translate_alloc ≡ true
    → length (contents s) + 96 < s.capacity
    → (sent : Sent env e s cmd_b) × Cleared sent.after
      × (sent.ring.capacity ≡ s.capacity)
      × (length (contents sent.ring) ≤ length (contents s) + 96)
unfolding command
sends_b env e s ready used other ok room =
    let (after, ring, eq, holds, ready', cleared, pid, same) =
      process_command_clears env e s cmd_b ready used other ok (omega arith) (omega arith)
        cmd_b-IsBytes in
    let bound : length (output cmd_b) ≤ 96 = length-output cmd_b in
    let (taken, now) =
      queue_takes s.capacity (contents s) (output cmd_b) (omega (arith, output_is_some cmd_b))
        (omega arith) in
    let size : length (contents ring) ≡ length (contents s) + length (output cmd_b) =
      ap length (holds ∙ now) ∙ length-append (contents s) (output cmd_b) in
    (
      record { after = after; ring = ring; eq = rw (eq, taken) refl; ready = ready'; pid = pid },
      cleared,
      same,
      omega arith,
    )

lookup_misses_vacant :
    (lookup_alloc : Bool) (e : TranslationEngine) (failures : ℕ)
    → (e.shader_cache (slot (shader_hash cmd_a))).valid ≡ false
    → lookup_misses lookup_alloc e failures ≡ done (missed e, failures)
unfolding lookup_misses lookup inspect
lookup_misses_vacant lookup_alloc e failures vacant =
    let counted = eq→== (u32 (e.cache_misses + 1)) (u32 (e.cache_misses + 1)) refl in
    rw (vacant, counted) refl

-- The run, from what its commands return.
bleed_runs :
    (env_a env_b : Environment) (lookup_alloc : Bool) (e e1 e2 : TranslationEngine)
    (failures foreign : ℕ)
    → command env_a (record e { active_pid = 0 }) cmd_a ≡ done (e1, true)
    → u32 (e1.active_pid + 9999) ≡ foreign
    → command env_b (record e1 { active_pid = foreign }) cmd_b ≡ done (e2, true)
    → e2.active_pid ≢ foreign
    → lookup_misses lookup_alloc e2 failures ≡ done (missed e2, failures)
    → test_context_bleed env_a env_b lookup_alloc e failures ≡ done (missed e2, failures)
unfolding test_context_bleed
bleed_runs env_a env_b lookup_alloc e e1 e2 failures foreign first is_foreign second own misses =
    rw (first, is_foreign, second, ne→== e2.active_pid foreign own, misses) refl

-- What the test leaves.
pub bleed_leaves :
    (env_a env_b : Environment) (lookup_alloc : Bool) (e : TranslationEngine) (s : OpenRing)
    (failures : ℕ)
    → IsReady e s
    → env_a.translate_alloc ≡ true
    → env_b.translate_alloc ≡ true
    → env_a.pid ≡ env_b.pid
    → 0 < env_a.pid
    → env_a.pid + 9999 < 2 ^ 32
    → length (contents s) + 192 < s.capacity
    → (after : TranslationEngine) × (ring : OpenRing) × (test_context_bleed env_a env_b lookup_alloc
          e failures
        ≡ done (after, failures))
      × IsReady after ring
      × Cleared after
      × (ring.capacity ≡ s.capacity)
      × (length (contents ring) ≤ length (contents s) + 192)
      × (after.active_pid ≡ env_b.pid)
bleed_leaves env_a env_b lookup_alloc e s failures ready ok_a ok_b same used small room =
    let (a, capacity, held) =
      sends_a env_a (record e { active_pid = 0 }) s (with_pid-IsReady 0 e ready) ok_a room in
    let foreign = env_a.pid + 9999 in
    let is_foreign : u32 (a.after.active_pid + 9999) ≡ foreign =
      ap (λ p. u32 (p + 9999)) a.pid ∙ omega arith in
    let (b, cleared, capacity', held') =
      sends_b env_b (record a.after { active_pid = foreign }) a.ring
        (with_pid-IsReady foreign a.after a.ready) (λ z. omega arith) (λ z. omega arith) ok_b
        (omega arith) in
    let vacant = cleared (slot (shader_hash cmd_a)) (slot-lt (shader_hash cmd_a)) apart in
    let own : b.after.active_pid ≢ foreign = λ z. let p = b.pid in omega arith in
    let (ready', _, _) = missed_or_rejected-IsReady b.after (missed b.after) b.ready (inl refl) in
    (
      missed b.after,
      b.ring,
      bleed_runs env_a env_b lookup_alloc e a.after b.after failures foreign a.eq is_foreign b.eq
          own (lookup_misses_vacant lookup_alloc b.after failures vacant),
      ready',
      cleared,
      capacity' ∙ capacity,
      omega arith,
      b.pid,
    )

-- With a ready engine whose ring has room for two messages of 96 bytes, in a process with a number
-- that is not 0 and stays one behind 9999 more, and translation blocks that can be allocated:
-- `test_context_bleed` records no failure, whichever other allocations fail, and leaves a ready engine.
context_bleed_passes :
    (env_a env_b : Environment) (lookup_alloc : Bool) (e : TranslationEngine) (s : OpenRing)
    (failures : ℕ)
    → IsReady e s
    → env_a.translate_alloc ≡ true
    → env_b.translate_alloc ≡ true
    → env_a.pid ≡ env_b.pid
    → 0 < env_a.pid
    → env_a.pid + 9999 < 2 ^ 32
    → length (contents s) + 192 < s.capacity
    → (after : TranslationEngine) × (ring : OpenRing) × (test_context_bleed env_a env_b lookup_alloc
          e failures
        ≡ done (after, failures))
      × IsReady after ring
context_bleed_passes env_a env_b lookup_alloc e s failures ready ok_a ok_b same used small room =
    let (after, ring, runs, ready', _, _, _, _) =
      bleed_leaves env_a env_b lookup_alloc e s failures ready ok_a ok_b same used small room in
    (after, ring, runs, ready')
