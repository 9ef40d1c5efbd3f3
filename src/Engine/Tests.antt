-- ===== src/Engine/Tests.antt =====
-- The engine at concrete packets, caches and rings.
use n_igpu_macos.Common.{
  some-inj, none-some, ℕ, ◌+◌, ◌-◌, ◌*◌, ◌%◌, ◌^◌, ◌≤◌, ◌<◌, ◌≡◌, ◌↔◌, ◌⊎◌, refl, ap, inr, List, [],
  ◌∷◌, ◌++◌, none, some, true, false, Bool, Option, Exec, done, fault, length, get_or, take,
  replicate, bit_xor, IsBytes, arith,
}
use n_igpu_macos.Memo
use n_igpu_macos.Memo.{Key, Request, ask, keep, wipe}
use n_igpu_macos.Queue
use n_igpu_macos.Queue.{put}
use n_igpu_macos.SharedRing.{fresh_header}
use n_igpu_macos.SharedRing.View.{OpenRing, context, IsValid, contents}
use n_igpu_macos.Engine.Hash.{hash_from, hash_round, shader_hash, shader_verify_tag}
use n_igpu_macos.Engine.Hash.Crc.{
  reference, is_wrong, index, crc_bits, crc_round-bits_iff, shader_verify_tag-eq-reference,
  shader_verify_tag-byte_iff,
}
use n_igpu_macos.Engine.Hash.{crc_round, crc32_table}
use n_igpu_macos.Engine.Hash.Fnv.{shader_hash_sees_byte}
use n_igpu_macos.Engine.Mask.{calculate_predicate_mask, lane, calculate_predicate_mask-lane}
use n_igpu_macos.Engine.Isa.{unknown_entry, init_opcode_lut}
use n_igpu_macos.Engine.Isa.Table.{entry_of, init_opcode_lut_lem}
use n_igpu_macos.Engine.Translate.{idd_header, translate_air_to_gen12}
use n_igpu_macos.Engine.Translate.Assemble.{assemble, program_bytes}
use n_igpu_macos.Engine.Translate.Correct.{
  translate_air_to_gen12-emits, translate_air_to_gen12-refuses,
}
use n_igpu_macos.Engine.Cache.{
  TranslationEngine, ShaderCache, ShaderCacheEntry, assign, zero_entry, slot, engine_init,
}
use n_igpu_macos.Engine.Cache.View.{IsSane, vacant, filled, view, assign-IsSane}
use n_igpu_macos.Engine.Cache.Refine.{session, cache_session_refines}
use n_igpu_macos.Engine.Cycle.{States, white, scan, walk, search, detect_cycle_dfs}
use n_igpu_macos.Engine.Cycle.Graph.{Walk}
use n_igpu_macos.Engine.Cycle.Detect.{detect_cycle_dfs_decides}
use n_igpu_macos.Engine.Command.{Environment, process_command, engine_cleanup}
use n_igpu_macos.Engine.Command.Ready.{packet_key, output, HoldsOutputs, IsReady}
use n_igpu_macos.Engine.Command.Store.{assign-HoldsOutputs}
use n_igpu_macos.Engine.Command.Process.{process_command_sends, engine_init-IsReady}
use n_igpu_macos.Engine.Command.Isolation.{process_command_isolates, engine_cleanup_frees}

-- an fadd, then a send that is cut short
abbrev packet : List ℕ
packet = 0x03 ∷ 1 ∷ 2 ∷ 3 ∷ 0x20 ∷ []

assemble-packet : length (assemble packet) ≡ 2
unfolding assemble
assemble-packet = refl

packet-IsBytes : IsBytes packet
packet-IsBytes = (omega arith, (omega arith, (omega arith, (omega arith, (omega arith, tt)))))

translate_air_to_gen12-emits_example :
    (block : List ℕ) × (translate_air_to_gen12 true packet
      ≡ done (some (block, 32 + length (assemble packet) * 16)))
    × (length block ≡ 32 + length packet * 16)
    × (length (assemble packet) ≤ length packet)
    × (take (32 + length (assemble packet) * 16) block
        ≡ idd_header ++ program_bytes (assemble packet))
translate_air_to_gen12-emits_example =
    translate_air_to_gen12-emits packet (omega arith) (omega arith) packet-IsBytes

translate_air_to_gen12-refuses_example : translate_air_to_gen12 false packet ≡ done none
translate_air_to_gen12-refuses_example =
    translate_air_to_gen12-refuses false packet (inr (inr refl))

-- a ring of 128 bytes that holds nothing
abbrev ring : OpenRing
ring = record { header = fresh_header 128; buffer = replicate 128 0; capacity = 128 }

ring-IsValid : IsValid ring
ring-IsValid = record {
  small = omega arith;
  storage = omega arith;
  write_in = omega arith;
  read_in = omega arith;
}

-- The entry that a command of `packet` leaves.
abbrev entry : ShaderCacheEntry
entry = record {
  hash = shader_hash packet;
  verify_tag = shader_verify_tag packet;
  air_source_len = 5;
  gen12_bytecode = some (output packet);
  bytecode_size = 64;
  valid = true;
}

abbrev zero_cache : ShaderCache
zero_cache = λ i. zero_entry

-- An engine that process 7 used for `packet`.
abbrev used : TranslationEngine
used = record {
  ring = some (context ring);
  isa_mapping_table = λ i. unknown_entry;
  active_pid = 7;
  shader_cache = assign zero_cache (slot (shader_hash packet)) entry;
  cache_hits = 0;
  cache_misses = 1;
  collision_rejects = 0;
}

zero_cache-IsSane : IsSane zero_cache
zero_cache-IsSane i h = vacant refl refl

zero_cache-HoldsOutputs : HoldsOutputs zero_cache
zero_cache-HoldsOutputs i h k bytes e = absurd (none-some e)

used-IsSane : IsSane used.shader_cache
unfolding assemble
used-IsSane =
    assign-IsSane (slot (shader_hash packet)) entry zero_cache-IsSane
      (filled (output packet) refl refl (omega arith) (omega arith) (omega arith))

used-IsReady : IsReady used ring
unfolding assemble
used-IsReady = record {
  on_ring = refl;
  ring_valid = ring-IsValid;
  sane = used-IsSane;
  outputs =
      assign-HoldsOutputs zero_cache (slot (shader_hash packet)) entry zero_cache-HoldsOutputs
        λ k bytes e. (
          packet,
          packet-IsBytes,
          ap (λ (x : Key × List ℕ). x.0) (some-inj e),
          ap (λ (x : Key × List ℕ). x.1) (some-inj e),
        );
}

abbrev same_process : Environment
same_process = record { pid = 7; lookup_alloc = true; translate_alloc = true; store_alloc = true }

abbrev next_process : Environment
next_process = record { pid = 42; lookup_alloc = true; translate_alloc = true; store_alloc = false }

process_command_sends_example :
    (p : List ℕ) × (after : TranslationEngine) × (after_ring : OpenRing) × IsBytes p
    × (packet_key p ≡ packet_key packet)
    × (process_command same_process (some used) (some packet)
        ≡ done (some after, (Queue.answer 128 (contents ring) (put (output p))).1.ok))
    × (contents after_ring ≡ (Queue.answer 128 (contents ring) (put (output p))).0)
    × (after_ring.capacity ≡ 128)
    × IsReady after after_ring
    × (after.active_pid ≡ 7)
process_command_sends_example =
    process_command_sends same_process used ring packet used-IsReady refl (omega arith)
      (omega arith) packet-IsBytes

-- place 3 is not the one of `packet`
process_command_isolates_example :
    (after : TranslationEngine) × (after_ring : OpenRing) × (process_command next_process
        (some used)
        (some packet)
      ≡ done (some after, (Queue.answer 128 (contents ring) (put (output packet))).1.ok))
    × (contents after_ring ≡ (Queue.answer 128 (contents ring) (put (output packet))).0)
    × IsReady after after_ring
    × ((after.shader_cache 3).valid ≡ false)
    × (after.active_pid ≡ 42)
unfolding shader_hash hash_from hash_round
process_command_isolates_example =
    process_command_isolates next_process used ring packet 3 used-IsReady (omega arith)
      (omega arith) refl (omega arith) (omega arith) packet-IsBytes (omega arith) (omega arith)

engine_cleanup_frees_example :
    (after : TranslationEngine) × (engine_cleanup (some used) ≡ some after)
    × (after.ring ≡ none)
    × ((after.shader_cache 3).valid ≡ false)
    × ((after.shader_cache 3).gen12_bytecode ≡ none)
    × (after.cache_hits + after.cache_misses + after.collision_rejects ≡ 0)
engine_cleanup_frees_example = engine_cleanup_frees used 3 used-IsSane (omega arith)

-- 0x101 takes the place of 0x001
abbrev requests : List Request
requests =
    keep true (record { hash = 0x001; tag = 5; len = 2 }) (7 ∷ 8 ∷ [])
    ∷ ask true (record { hash = 0x001; tag = 5; len = 2 })
    ∷ ask true (record { hash = 0x001; tag = 6; len = 2 })
    ∷ keep true (record { hash = 0x101; tag = 5; len = 2 }) (9 ∷ [])
    ∷ ask true (record { hash = 0x001; tag = 5; len = 2 })
    ∷ wipe
    ∷ []

cache_session_refines_example :
    session used requests ≡ done (Memo.session (view used.shader_cache) requests)
cache_session_refines_example = cache_session_refines requests used used-IsSane

memo_session-requests :
    Memo.session (λ i. none) requests ≡ none ∷ some (7 ∷ 8 ∷ []) ∷ none ∷ none ∷ none ∷ none ∷ []
unfolding Memo.session Memo.answer
memo_session-requests = refl

engine_init-IsReady_example :
    (e : TranslationEngine) × (engine_init true (some used) (some (context ring)) ≡ (some e, true))
    × IsReady e ring
    × (view e.shader_cache ≡ (λ i. none))
    × (e.active_pid ≡ 0)
engine_init-IsReady_example = engine_init-IsReady used ring ring-IsValid

init_opcode_lut_lem_example : init_opcode_lut (λ i. unknown_entry) 0x04 ≡ entry_of 0x04
init_opcode_lut_lem_example = init_opcode_lut_lem (λ i. unknown_entry) 0x04 (omega arith)

-- 70 threads in groups of 32 leave 6 in the last one
calculate_predicate_mask-lane_example :
    (lane (calculate_predicate_mask 70 32) 5 ≡ 1) ↔ ((70 % 32 ≡ 0) ⊎ (5 < 70 % 32))
calculate_predicate_mask-lane_example =
    calculate_predicate_mask-lane 70 32 5 (omega arith) (omega arith) (omega arith)

crc_round-bits_iff_example :
    (crc_round 0xffff_ffff 0xf5 ≡ crc_bits 8 (bit_xor 0xffff_ffff 0xf5))
    ↔ (is_wrong (index 0xffff_ffff 0xf5) ≡ false)
crc_round-bits_iff_example = crc_round-bits_iff 0xffff_ffff 0xf5 (omega arith)

shader_verify_tag-eq-reference_example :
    shader_verify_tag (0x62 ∷ 0x61 ∷ 0x61 ∷ []) ≡ reference (0x62 ∷ 0x61 ∷ 0x61 ∷ [])
unfolding crc_round crc32_table is_wrong
shader_verify_tag-eq-reference_example =
    shader_verify_tag-eq-reference (0x62 ∷ 0x61 ∷ 0x61 ∷ [])
      (omega arith, refl, (omega arith, refl, (omega arith, refl, tt)))

-- 255 - 0x01 is 254
shader_verify_tag-byte_iff_example :
    (shader_verify_tag (0x01 ∷ []) ≡ reference (0x01 ∷ [])) ↔ (is_wrong (255 - 0x01) ≡ false)
shader_verify_tag-byte_iff_example = shader_verify_tag-byte_iff 0x01 (omega arith)

shader_hash_sees_byte_example : (shader_hash ((1 ∷ []) ++ 2 ∷ 3 ∷ []) < 2 ^ 64) × (◌≡◌ {A = ℕ} 2 2)
shader_hash_sees_byte_example =
    shader_hash_sees_byte (1 ∷ []) (3 ∷ []) 2 2 (omega arith) (omega arith) (omega arith, tt) refl

abbrev graph : List (List ℕ) → ℕ → List ℕ
graph rows u = get_or rows u []

-- 0 on 1, 1 on 2, 2 on 0 and on a node out of range; 3 on nothing
abbrev ring_of_three : ℕ → List ℕ
ring_of_three = graph ((1 ∷ []) ∷ (2 ∷ []) ∷ (9 ∷ 0 ∷ []) ∷ [] ∷ [])

-- 0 on 1 and 2, both of them on 3
abbrev diamond : ℕ → List ℕ
diamond = graph ((1 ∷ 2 ∷ []) ∷ (3 ∷ []) ∷ (3 ∷ []) ∷ [] ∷ [])

-- Each node on the next one.
abbrev line : ℕ → List ℕ
line u = (u + 1) ∷ []

abbrev all_white : States
all_white v = white

abbrev answer : Exec (Option (Option States × Bool)) → Option Bool
answer (done (some (_, b))) = some b
answer (done none) = none
answer fault = none

detect_cycle_dfs_finds :
    answer (detect_cycle_dfs 20 (some all_white) 4 (some ring_of_three)) ≡ some true
unfolding detect_cycle_dfs search walk scan
detect_cycle_dfs_finds = refl

detect_cycle_dfs_clears :
    answer (detect_cycle_dfs 20 (some all_white) 4 (some diamond)) ≡ some false
unfolding detect_cycle_dfs search walk scan
detect_cycle_dfs_clears = refl

-- A path of 257 nodes is more than the stack holds.
detect_cycle_dfs_overruns : detect_cycle_dfs 600 (some all_white) 257 (some line) ≡ fault
unfolding detect_cycle_dfs search walk scan
detect_cycle_dfs_overruns = refl

detect_cycle_dfs_decides_example :
    (states' : States) × (answer : Bool) × (detect_cycle_dfs 9
        (some all_white)
        4
        (some ring_of_three)
      ≡ done (some (some states', answer)))
    × (((answer ≡ true) × (v : ℕ) × Walk 4 ring_of_three v v)
        ⊎ ((answer ≡ false) × ((v : ℕ) → v < 4 → Walk 4 ring_of_three v v → ⊥)))
detect_cycle_dfs_decides_example =
    detect_cycle_dfs_decides 9 4 ring_of_three all_white (omega arith) (omega arith) (λ v h. refl)
