-- ===== src/Simulation/Caching/Pass.antt =====
-- The three tests of the engine pass on a ready engine.
use n_igpu_macos.Common.{
  ℕ, ◌+◌, ◌<◌, ◌^◌, ◌≡◌, ◌≢◌, ◌∙◌, refl, inl, inr, Bool, true, false, List, ◌==◌, ltb, none, some,
  Bool-cases, ne→==, length, length-append, ◌||◌, leb, ap, ◌≤◌, IsBytes, done, arith,
}
use n_igpu_macos.Queue
use n_igpu_macos.Queue.{put}
use n_igpu_macos.Memo.{Key}
use n_igpu_macos.SharedRing.View.{OpenRing, contents}
use n_igpu_macos.Engine.Hash.{
  shader_hash, shader_verify_tag, hash_from, hash_round, crc_from, crc_round, crc32_table,
}
use n_igpu_macos.Engine.Cache.{TranslationEngine, slot, missed, hit, lookup}
use n_igpu_macos.Engine.Cache.Inspect.{slot-lt}
use n_igpu_macos.Engine.Cache.Lookup.{lookup-vacant, lookup-other_tag, lookup-held}
use n_igpu_macos.Engine.Command.{Environment}
use n_igpu_macos.Engine.Command.Ready.{packet_key, output, IsReady}
use n_igpu_macos.Engine.Command.Serve.{process_command-IsServed}
use n_igpu_macos.Engine.Command.Transparency.{missed_or_rejected-IsReady, hit-IsReady}
use n_igpu_macos.Simulation.Sending.{length-output, output_is_some, command-IsServed}
use n_igpu_macos.Simulation.Bleed.{command, cmd_b}
use n_igpu_macos.Simulation.Bleed.Pass.{bleed_leaves, cmd_b-IsBytes}
use n_igpu_macos.Simulation.Caching.{
  air_shader, find_again, test_shader_cache, shader_a, wrong_tag, test_hash_collision_rejection,
  engine_tests,
}

abbrev wrong_key : Key
wrong_key = record { hash = shader_hash shader_a; tag = wrong_tag; len = 4 }

tags_differ : (packet_key shader_a).tag ≢ wrong_key.tag
unfolding shader_verify_tag crc_from crc_round crc32_table
tags_differ = omega arith

apart : slot (shader_hash air_shader) ≢ slot (shader_hash cmd_b)
unfolding shader_hash hash_from hash_round
apart = omega arith

air_shader-IsBytes : IsBytes air_shader
air_shader-IsBytes = (
  omega arith,
  (
    omega arith,
    (omega arith, (omega arith, (omega arith, (omega arith, (omega arith, (omega arith, tt)))))),
  ),
)

-- The run, from what its calls return.
collision_runs :
    (env : Environment) (lookup_alloc sent : Bool) (e e1 e2 : TranslationEngine) (failures : ℕ)
    → command env e shader_a ≡ done (e1, sent)
    → lookup lookup_alloc e1 (shader_hash shader_a) wrong_tag 4 ≡ done (e2, none)
    → test_hash_collision_rejection env lookup_alloc e failures ≡ done (e2, failures)
unfolding test_hash_collision_rejection
collision_runs env lookup_alloc sent e e1 e2 failures first misses =
    elim (Bool-cases (ltb 0 e2.collision_rejects)) [
      | inl some_rejects ↦ rw (first, misses, some_rejects) refl
      | inr no_rejects ↦ rw (first, misses, no_rejects) refl
    ]

-- An offer adds a message or nothing.
put_adds :
    (cap : ℕ) (q msg : List ℕ) → length (Queue.answer cap q (put msg)).0 ≤ length q + length msg
unfolding Queue.answer
put_adds cap q msg = elim (Bool-cases (length msg == 0 || leb cap (length q + length msg))) [
  | inl refused ↦ rw refused (omega arith)
  | inr taken ↦ rw taken (omega (arith, length-append q msg))
]

collision_passes :
    (env : Environment) (lookup_alloc : Bool) (e : TranslationEngine) (s : OpenRing) (failures : ℕ)
    → IsReady e s
    → e.active_pid ≡ env.pid
    → env.translate_alloc ≡ true
    → env.store_alloc ≡ true
    → (after : TranslationEngine) × (ring : OpenRing) × (test_hash_collision_rejection env
          lookup_alloc e failures
        ≡ done (after, failures))
      × IsReady after ring
      × (after.active_pid ≡ env.pid)
      × (ring.capacity ≡ s.capacity)
      × (length (contents ring) ≤ length (contents s) + 96)
unfolding command
collision_passes env lookup_alloc e s failures ready pid ok store_ok =
    let v =
      process_command-IsServed env e s shader_a ready pid ok store_ok (omega arith) (omega arith)
        cmd_b-IsBytes in
    let (after, misses, how) =
      lookup-other_tag lookup_alloc v.after wrong_key (packet_key shader_a) (output v.packet)
        v.ready.sane v.kept tags_differ in
    let four : length v.packet ≡ 4 = ap (λ (k : Key). k.len) v.same_key in
    let few : length (output v.packet) ≤ 96 = omega (arith, length-output v.packet) in
    let (ready', same_pid, _) = missed_or_rejected-IsReady v.after after v.ready how in
    (
      after,
      v.ring,
      collision_runs env lookup_alloc
          (Queue.answer s.capacity (contents s) (put (output v.packet))).1.ok e v.after after
          failures (rw v.returns refl) misses,
      ready',
      same_pid ∙ v.pid,
      v.same_capacity,
      omega (arith, ap length v.holds, put_adds s.capacity (contents s) (output v.packet), few),
    )

cache_runs :
    (env : Environment) (first_alloc : Bool) (e e1 : TranslationEngine) (failures : ℕ)
    (bytes : List ℕ)
    → lookup first_alloc e (shader_hash air_shader) (shader_verify_tag air_shader) 8
      ≡ done (missed e, none)
    → command env (missed e) air_shader ≡ done (e1, true)
    → lookup true e1 (shader_hash air_shader) (shader_verify_tag air_shader) 8
      ≡ done (hit e1, some (bytes, length bytes))
    → (length bytes == 0) ≡ false
    → test_shader_cache env first_alloc true e failures ≡ done (hit e1, failures)
unfolding test_shader_cache find_again
cache_runs env first_alloc e e1 failures bytes misses sent hits full =
    rw (misses, sent, hits, full) refl

cache_passes :
    (env : Environment) (first_alloc : Bool) (e : TranslationEngine) (s : OpenRing) (failures : ℕ)
    → IsReady e s
    → e.active_pid ≡ env.pid
    → env.translate_alloc ≡ true
    → env.store_alloc ≡ true
    → (e.shader_cache (slot (shader_hash air_shader))).valid ≡ false
    → length (contents s) + 160 < s.capacity
    → (after : TranslationEngine) × (ring : OpenRing) × (test_shader_cache env first_alloc true e
          failures
        ≡ done (after, failures))
      × IsReady after ring
      × (after.active_pid ≡ env.pid)
      × (ring.capacity ≡ s.capacity)
      × (length (contents ring) ≤ length (contents s) + 160)
cache_passes env first_alloc e s failures ready pid ok store_ok vacant room =
    let (ready', _, _) = missed_or_rejected-IsReady e (missed e) ready (inl refl) in
    let (v, sent, _, _, size) =
      command-IsServed env (missed e) s air_shader ready' pid ok store_ok (omega arith)
        (omega arith) air_shader-IsBytes (omega arith) in
    let found = lookup-held v.after (packet_key air_shader) (output v.packet) v.ready.sane v.kept in
    let full : (length (output v.packet) == 0) ≡ false =
      ne→== (length (output v.packet)) 0 (λ z. omega (arith, output_is_some v.packet)) in
    (
      hit v.after,
      v.ring,
      cache_runs env first_alloc e v.after failures (output v.packet)
          (lookup-vacant first_alloc e (packet_key air_shader) vacant) sent found full,
      hit-IsReady v.after v.ready,
      v.pid,
      v.same_capacity,
      size,
    )

-- The first three tests.
pub engine_tests_pass :
    (env_a env_b env_c env_d : Environment) (alloc_b alloc_c alloc_d : Bool) (e : TranslationEngine)
    (s : OpenRing) (failures : ℕ)
    → IsReady e s
    → (env_a.translate_alloc ≡ true) × (env_b.translate_alloc ≡ true)
    → (env_c.translate_alloc ≡ true) × (env_c.store_alloc ≡ true)
    → (env_d.translate_alloc ≡ true) × (env_d.store_alloc ≡ true)
    → (env_a.pid ≡ env_b.pid) × (env_b.pid ≡ env_c.pid) × (env_c.pid ≡ env_d.pid)
    → 0 < env_a.pid
    → env_a.pid + 9999 < 2 ^ 32
    → length (contents s) + 352 < s.capacity
    → (after : TranslationEngine) × (ring : OpenRing) × (engine_tests env_a env_b env_c env_d
          alloc_b alloc_c true alloc_d e failures
        ≡ done (after, failures))
      × IsReady after ring
      × (after.active_pid ≡ env_d.pid)
      × (ring.capacity ≡ s.capacity)
      × (length (contents ring) ≤ length (contents s) + 448)
unfolding engine_tests
engine_tests_pass env_a env_b env_c env_d alloc_b alloc_c alloc_d e s failures ready (ok_a, ok_b)
      (ok_c, store_c) (ok_d, store_d) (ab, bc, cd) used small room =
    let (bled, ring, runs, ready', cleared, capacity, held, pid) =
      bleed_leaves env_a env_b alloc_b e s failures ready ok_a ok_b ab used small (omega arith) in
    let (cached, ring', runs', ready'', pid', capacity', size') =
      cache_passes env_c alloc_c bled ring failures ready' (pid ∙ bc) ok_c store_c
        (cleared (slot (shader_hash air_shader)) (slot-lt (shader_hash air_shader)) apart)
        (omega arith) in
    let (after, ring'', runs'', ready''', pid'', capacity'', size'') =
      collision_passes env_d alloc_d cached ring' failures ready'' (pid' ∙ cd) ok_d store_d in
    (
      after,
      ring'',
      rw (runs, runs', runs'') refl,
      ready''',
      pid'',
      capacity'' ∙ capacity' ∙ capacity,
      omega (arith, held, size', size''),
    )
