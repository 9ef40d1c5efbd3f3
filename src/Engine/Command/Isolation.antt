-- ===== src/Engine/Command/Isolation.antt =====
-- A command of a new process sees nothing of the last one's shaders.
use n_igpu_macos.Common.{
  ℕ, ◌≤◌, ◌<◌, ◌≡◌, ◌≢◌, ◌∙◌, refl, ap, inl, true, false, some, none, ◌&&◌, ltb, leb, ◌+◌, ne→==,
  List, length, done, IsBytes, arith,
}
use n_igpu_macos.Queue
use n_igpu_macos.Queue.{put}
use n_igpu_macos.SharedRing.View.{OpenRing, contents}
use n_igpu_macos.Engine.Hash.{shader_hash}
use n_igpu_macos.Engine.Cache.{
  TranslationEngine, ShaderCacheEntry, slot, missed, inspect, lookup, flushed, flush, flush_from,
}
use n_igpu_macos.Engine.Cache.View.{IsSane, IsSaneEntry, vacant, filled, flush_from_lem}
use n_igpu_macos.Engine.Cache.Inspect.{slot-lt}
use n_igpu_macos.Engine.Command.Ready.{output, IsReady}
use n_igpu_macos.Engine.Command.Transparency.{
  IsSent, compile_and_send-IsSent, missed_or_rejected-IsReady,
}
use n_igpu_macos.Engine.Command.Process.{
  switches, scorch_pass-entry, switch_process-scorched, scorched-IsReady, process_command-submits,
}
use n_igpu_macos.Engine.Command.{Environment, scorch_pass, submit, process_command, engine_cleanup}

-- A packet whose entry is vacant is translated.
submit_vacant-IsSent :
    (env : Environment) (e : TranslationEngine) {s : OpenRing} (air : List ℕ)
    → IsReady e s
    → env.translate_alloc ≡ true
    → 0 < length air
    → length air ≤ 16384
    → IsBytes air
    → (e.shader_cache (slot (shader_hash air))).valid ≡ false
    → IsSent e s air air env.store_alloc (submit env e air)
unfolding submit lookup inspect
submit_vacant-IsSent env e air ready ok pos small bytes invalid =
    let (now_ready, pid, cache) = missed_or_rejected-IsReady e (missed e) ready (inl refl) in
    rw invalid (
      compile_and_send-IsSent env (missed e) e air now_ready ok pos small bytes refl (λ j ne. refl))

-- The command of another process, with what it clears.
pub process_command_clears :
    (env : Environment) (e : TranslationEngine) (s : OpenRing) (air : List ℕ)
    → IsReady e s
    → e.active_pid ≢ 0
    → e.active_pid ≢ env.pid
    → env.translate_alloc ≡ true
    → 0 < length air
    → length air ≤ 16384
    → IsBytes air
    → (after : TranslationEngine) × (ring : OpenRing) × (process_command env (some e) (some air)
        ≡ done (some after, (Queue.answer s.capacity (contents s) (put (output air))).1.ok))
      × (contents ring ≡ (Queue.answer s.capacity (contents s) (put (output air))).0)
      × IsReady after ring
      × (((i : ℕ) → i < 256 → i ≢ slot (shader_hash air) → (after.shader_cache i).valid ≡ false))
      × (after.active_pid ≡ env.pid)
      × (ring.capacity ≡ s.capacity)
process_command_clears env e s air ready used other ok pos small bytes =
    let new : switches env.pid e ≡ true =
      rw (ne→== e.active_pid 0 used, ne→== e.active_pid env.pid other) in
    let e' : TranslationEngine = record (scorch_pass e) { active_pid = env.pid } in
    let cleared =
      λ (j : ℕ) (h : j < 256). ap (λ (x : ShaderCacheEntry). x.valid) (scorch_pass-entry e j h) in
    let sent =
      submit_vacant-IsSent env e' air (scorched-IsReady env.pid e ready) ok pos small bytes
        (cleared (slot (shader_hash air)) (slot-lt (shader_hash air))) in
    (
      sent.after,
      sent.ring,
      process_command-submits env e air ready pos
          ∙ rw (switch_process-scorched env.pid e new, sent.returns) refl,
      sent.holds,
      sent.ready,
      (λ i inside ne. ap (λ (x : ShaderCacheEntry). x.valid) (sent.others i ne) ∙ cleared i inside),
      sent.same_pid,
      sent.same_capacity,
    )

-- With a ready engine that served one process, a command of another process (a packet of 1 to 16384
-- bytes, whose block can be allocated) offers the ring the output of that very packet, whatever
-- the cache held, and leaves no valid entry but, at most, the one that the packet's hash selects.
pub process_command_isolates :
    (env : Environment) (e : TranslationEngine) (s : OpenRing) (air : List ℕ) (i : ℕ)
    → IsReady e s
    → e.active_pid ≢ 0
    → e.active_pid ≢ env.pid
    → env.translate_alloc ≡ true
    → 0 < length air
    → length air ≤ 16384
    → IsBytes air
    → i < 256
    → i ≢ slot (shader_hash air)
    → (after : TranslationEngine) × (ring : OpenRing) × (process_command env (some e) (some air)
        ≡ done (some after, (Queue.answer s.capacity (contents s) (put (output air))).1.ok))
      × (contents ring ≡ (Queue.answer s.capacity (contents s) (put (output air))).0)
      × IsReady after ring
      × ((after.shader_cache i).valid ≡ false)
      × (after.active_pid ≡ env.pid)
process_command_isolates env e s air i ready used other ok pos small bytes inside ne =
    let (after, ring, eq, holds, ready', cleared, pid, _) =
      process_command_clears env e s air ready used other ok pos small bytes in
    (after, ring, eq, holds, ready', cleared i inside ne, pid)

-- No block of a sane entry outlives its flush.
freed : (entry : ShaderCacheEntry) → IsSaneEntry entry → (flushed entry).gen12_bytecode ≡ none
freed entry (vacant v b) = rw (v, b) refl
freed entry (filled code v b pos small room) = rw v refl

-- After `engine_cleanup` the engine has no ring, no counts, and no entry of a sane cache is valid or
-- owns a block.
pub engine_cleanup_frees :
    (e : TranslationEngine) (i : ℕ)
    → IsSane e.shader_cache
    → i < 256
    → (after : TranslationEngine) × (engine_cleanup (some e) ≡ some after)
      × (after.ring ≡ none)
      × ((after.shader_cache i).valid ≡ false)
      × ((after.shader_cache i).gen12_bytecode ≡ none)
      × (after.cache_hits + after.cache_misses + after.collision_rejects ≡ 0)
unfolding engine_cleanup flush
engine_cleanup_frees e i sane inside =
    let within : (leb 0 i && ltb i (0 + 256)) ≡ true = ground arith in
    let emptied_entry : flush_from 256 0 e.shader_cache i ≡ flushed (e.shader_cache i) =
      flush_from_lem 256 0 i e.shader_cache ∙ rw within refl in
    (
      record (flush e) { ring = none },
      refl,
      refl,
      ap (λ (x : ShaderCacheEntry). x.valid) emptied_entry,
      ap (λ (x : ShaderCacheEntry). x.gen12_bytecode) emptied_entry
          ∙ freed (e.shader_cache i) (sane i inside),
      refl,
    )
