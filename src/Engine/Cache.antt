-- ===== src/Engine/Cache.antt =====
-- NtelSpoofKext/src/NtelTranslationEngine.c: the engine's state and its shader cache. Each operation
-- holds the cache lock, so it is one step. A block that an entry owns is a value of the entry; to
-- free it is to drop it.
pub mod View
pub mod Inspect
pub mod Lookup
pub mod Refine
use n_igpu_macos.Common.{
  ℕ, zero, suc, ◌+◌, ◌%◌, Bool, true, false, not, ◌&&◌, ◌||◌, Option, none, some, List,
  if◌then◌else◌, ltb, ◌==◌, u32, Exec, done, ◌>>=◌, read_bytes,
}
use n_igpu_macos.SharedRing.{RingContext}
use n_igpu_macos.Engine.Isa.{Lut, init_opcode_lut}
use n_igpu_macos.Engine.Translate.{max_shader_bytecode}

-- `NtelShaderCacheEntry`
pub record ShaderCacheEntry : Type 0 where
  pub hash : ℕ
  pub verify_tag : ℕ
  pub air_source_len : ℕ
  pub gen12_bytecode : Option (List ℕ)
  pub bytecode_size : ℕ
  pub valid : Bool

-- NTEL_SHADER_CACHE_SIZE
abbrev pub shader_cache_size : ℕ
shader_cache_size = 256

-- An array of 256 entries, by index.
abbrev pub ShaderCache : Type 0
ShaderCache = ℕ → ShaderCacheEntry

abbrev pub assign : ShaderCache → ℕ → ShaderCacheEntry → ShaderCache
assign cache i entry = λ j. if j == i then entry else cache j

-- `NtelTranslationEngine`
pub record TranslationEngine : Type 0 where
  pub ring : Option RingContext
  pub isa_mapping_table : Lut
  pub active_pid : ℕ
  pub shader_cache : ShaderCache
  pub cache_hits : ℕ
  pub cache_misses : ℕ
  pub collision_rejects : ℕ

-- What `memset(..., 0, ...)` makes of an entry.
abbrev pub zero_entry : ShaderCacheEntry
zero_entry = record {
  hash = 0;
  verify_tag = 0;
  air_source_len = 0;
  gen12_bytecode = none;
  bytecode_size = 0;
  valid = false;
}

-- `ntel_engine_init`; `mutex_ok` is whether `pthread_mutex_init` returns 0.
unfoldable pub engine_init :
    (mutex_ok : Bool)
    → Option TranslationEngine
    → Option RingContext
    → Option TranslationEngine × Bool
engine_init mutex_ok (some engine) (some ring) = (
  some (record {
    ring = some ring;
    isa_mapping_table = init_opcode_lut engine.isa_mapping_table;
    active_pid = 0;
    shader_cache = λ _. zero_entry;
    cache_hits = 0;
    cache_misses = 0;
    collision_rejects = 0;
  }),
  mutex_ok,
)
engine_init mutex_ok engine ring = (engine, false)

abbrev pub slot : ℕ → ℕ
slot hash = hash % shader_cache_size

abbrev pub missed : TranslationEngine → TranslationEngine
missed e = record e { cache_misses = u32 (e.cache_misses + 1) }

abbrev pub rejected : TranslationEngine → TranslationEngine
rejected e = missed (record e { collision_rejects = u32 (e.collision_rejects + 1) })

abbrev pub hit : TranslationEngine → TranslationEngine
hit e = record e { cache_hits = u32 (e.cache_hits + 1) }

-- The copy of a matching entry's bytes; `alloc_ok` is whether its allocation succeeds.
unfoldable pub fetch :
    (alloc_ok : Bool)
    → TranslationEngine
    → Option (List ℕ)
    → ℕ
    → Exec (TranslationEngine × Option (List ℕ × ℕ))
fetch alloc_ok e none size = done (missed e, none)
fetch alloc_ok e (some code) size =
    if size == 0 || not alloc_ok
    then done (missed e, none)
    else (do copy ← read_bytes code 0 size; done (hit e, some (copy, size)))

-- The tests of `ntel_shader_cache_lookup` on the entry that the hash selects.
unfoldable pub inspect :
    (alloc_ok : Bool)
    → TranslationEngine
    → ShaderCacheEntry
    → (hash verify_tag air_source_len : ℕ) → Exec (TranslationEngine × Option (List ℕ × ℕ))
inspect alloc_ok e entry hash verify_tag air_source_len =
    if entry.valid && entry.hash == hash
    then (if not (entry.verify_tag == verify_tag) || not (entry.air_source_len == air_source_len)
        then done (rejected e, none)
        else fetch alloc_ok e entry.gen12_bytecode entry.bytecode_size)
    else done (missed e, none)

-- `ntel_shader_cache_lookup` on an engine; the option is what goes through its out pointers.
unfoldable pub lookup :
    (alloc_ok : Bool)
    → TranslationEngine
    → (hash verify_tag air_source_len : ℕ) → Exec (TranslationEngine × Option (List ℕ × ℕ))
unfolding inspect
lookup alloc_ok e hash verify_tag air_source_len =
    inspect alloc_ok e (e.shader_cache (slot hash)) hash verify_tag air_source_len

unfoldable pub shader_cache_lookup :
    (alloc_ok : Bool)
    → Option TranslationEngine
    → (hash verify_tag air_source_len : ℕ) → Exec (Option TranslationEngine × Option (List ℕ × ℕ))
unfolding lookup
shader_cache_lookup alloc_ok none hash verify_tag air_source_len = done (none, none)
shader_cache_lookup alloc_ok (some e) hash verify_tag air_source_len = do
  (e', found) ← lookup alloc_ok e hash verify_tag air_source_len
  done (some e', found)

-- The entry before its new block is allocated: the old one is freed.
abbrev pub emptied : ShaderCacheEntry → ShaderCacheEntry
emptied entry = record entry { gen12_bytecode = none; bytecode_size = 0; valid = false }

-- `ntel_shader_cache_store` on an engine and a block of bytes
unfoldable pub store :
    (alloc_ok : Bool)
    → TranslationEngine
    → (hash verify_tag air_source_len : ℕ) → List ℕ
    → ℕ
    → Exec (TranslationEngine × Bool)
store alloc_ok e hash verify_tag air_source_len bytecode size =
    if size == 0 || ltb max_shader_bytecode size
    then done (e, false)
    else (let i = slot hash in
        if alloc_ok
        then (do
          copy ← read_bytes bytecode 0 size
          done (
            record e {
              shader_cache = assign e.shader_cache i (record {
                hash = hash;
                verify_tag = verify_tag;
                air_source_len = air_source_len;
                gen12_bytecode = some copy;
                bytecode_size = size;
                valid = true;
              });
            },
            true,
          ))
        else done (
          record e { shader_cache = assign e.shader_cache i (emptied (e.shader_cache i)) },
          false,
        ))

unfoldable pub shader_cache_store :
    (alloc_ok : Bool)
    → Option TranslationEngine
    → (hash verify_tag air_source_len : ℕ) → Option (List ℕ)
    → ℕ
    → Exec (Option TranslationEngine × Bool)
unfolding store
shader_cache_store alloc_ok (some e) hash verify_tag air_source_len (some bytecode) size = do
  (e', stored) ← store alloc_ok e hash verify_tag air_source_len bytecode size
  done (some e', stored)
shader_cache_store alloc_ok engine hash verify_tag air_source_len bytecode size =
    done (engine, false)

-- One round of the loop of `ntel_shader_cache_flush`: a valid entry's block is freed.
abbrev pub flushed : ShaderCacheEntry → ShaderCacheEntry
flushed entry = record zero_entry {
  gen12_bytecode = if entry.valid then none else entry.gen12_bytecode;
}

unfoldable pub flush_from : (left i : ℕ) → ShaderCache → ShaderCache
flush_from zero i cache = cache
flush_from (suc left) i cache = flush_from left (i + 1) (assign cache i (flushed (cache i)))

-- `ntel_shader_cache_flush` on an engine
unfoldable pub flush : TranslationEngine → TranslationEngine
flush e = record e {
  shader_cache = flush_from shader_cache_size 0 e.shader_cache;
  cache_hits = 0;
  cache_misses = 0;
  collision_rejects = 0;
}
