-- ===== src/Engine/Command/Store.antt =====
-- What a store of a packet's output does to a ready engine.
use n_igpu_macos.Common.{
  some-inj, ℕ, ◌≤◌, ◌<◌, ◌≡◌, ◌≢◌, ◌∙◌, refl, ap, sym, inl, inr, Bool, true, false, ◌||◌, some,
  List, ltb, ◌==◌, ne→==, eq→==, Bool-cases, length, take, take_all, length-take, Exec, done,
  IsBytes, read_bytes_lem, arith,
}
use n_igpu_macos.Memo.{Key}
use n_igpu_macos.SharedRing.View.{OpenRing}
use n_igpu_macos.Engine.Hash.{shader_hash, shader_verify_tag}
use n_igpu_macos.Engine.Cache.{
  TranslationEngine, ShaderCache, ShaderCacheEntry, assign, slot, store, emptied,
}
use n_igpu_macos.Engine.Cache.View.{vacant, filled, view_entry, assign-IsSane}
use n_igpu_macos.Engine.Cache.Inspect.{slice-eq-take}
use n_igpu_macos.Engine.Command.Ready.{packet_key, output, HoldsOutputs, IsReady}

-- The engine after a store for `air`, whatever the store returned.
pub record IsStored (e : TranslationEngine) (s : OpenRing) (air : List ℕ) (alloc_ok : Bool)
    (size : ℕ) (step : Exec (TranslationEngine × Bool)) : Type 0 where
  pub after : TranslationEngine
  pub stored : Bool
  pub returns : step ≡ done (after, stored)
  pub ready : IsReady after s
  pub same_pid : after.active_pid ≡ e.active_pid
  pub others : (i : ℕ) → i ≢ slot (shader_hash air) → after.shader_cache i ≡ e.shader_cache i
  pub kept :
      alloc_ok ≡ true
      → size ≤ 65536
      → view_entry (after.shader_cache (slot (shader_hash air))) ≡ some (packet_key air, output air)

-- A cache keeps to its outputs when an entry is replaced by one that does.
pub assign-HoldsOutputs :
    (cache : ShaderCache) (j : ℕ) (entry : ShaderCacheEntry)
    → HoldsOutputs cache
    → ((k : Key) (bytes : List ℕ)
        → view_entry entry ≡ some (k, bytes)
        → (p : List ℕ) × IsBytes p × (packet_key p ≡ k) × (output p ≡ bytes))
    → HoldsOutputs (assign cache j entry)
assign-HoldsOutputs cache j entry holds one i h k bytes eq = elim (Bool-cases (i == j)) [
  | inl e ↦ one k bytes (rw e at eq)
  | inr n ↦ holds i h k bytes (rw n at eq)
]

assign-other :
    (cache : ShaderCache) (j i : ℕ) (entry : ShaderCacheEntry)
    → i ≢ j
    → assign cache j entry i ≡ cache i
assign-other cache j i entry ne = rw (ne→== i j ne)

assign-same :
    (cache : ShaderCache) (j : ℕ) (entry : ShaderCacheEntry) → assign cache j entry j ≡ entry
assign-same cache j entry = rw (eq→== j j refl) refl

module _ (e : TranslationEngine) {s : OpenRing} (air block : List ℕ) (size : ℕ)
    (ready : IsReady e s) (pos : 0 < size) (room : size ≤ length block)
    (message : take size block ≡ output air) (genuine : IsBytes air) where
  i : ℕ
  i = slot (shader_hash air)

  store_kept :
      (size == 0 || ltb 65536 size) ≡ false
      → IsStored e s air true size
          (store true e (shader_hash air) (shader_verify_tag air) (length air) block size)
  unfolding store i
  store_kept fine =
      let entry : ShaderCacheEntry = record {
        hash = shader_hash air;
        verify_tag = shader_verify_tag air;
        air_source_len = length air;
        gen12_bytecode = some (take size block);
        bytecode_size = size;
        valid = true;
      } in
      let whole = take_all (take size block) size (omega (arith, length-take {0} size block)) in
      record {
        after = record e { shader_cache = assign e.shader_cache i entry };
        stored = true;
        returns = rw (fine, read_bytes_lem block 0 size (omega arith), slice-eq-take block size);
        ready = record {
          on_ring = ready.on_ring;
          ring_valid = ready.ring_valid;
          sane = assign-IsSane i entry ready.sane (
              filled (take size block) refl refl pos (ground arith)
                (omega (arith, length-take {0} size block)));
          outputs = assign-HoldsOutputs e.shader_cache i entry ready.outputs λ k bytes eq. (
            air,
            genuine,
            ap (λ (x : Key × List ℕ). x.0) (some-inj eq),
            sym message ∙ sym whole ∙ ap (λ (x : Key × List ℕ). x.1) (some-inj eq),
          );
        };
        same_pid = refl;
        others = λ j ne. assign-other e.shader_cache i j entry ne;
        kept = λ _ _.
            ap view_entry (assign-same e.shader_cache i entry)
            ∙ ap (λ (b : List ℕ). some (packet_key air, b)) (whole ∙ message);
      }

  store_dropped :
      (size == 0 || ltb 65536 size) ≡ false
      → IsStored e s air false size
          (store false e (shader_hash air) (shader_verify_tag air) (length air) block size)
  unfolding store i
  store_dropped fine =
      let entry = emptied (e.shader_cache i) in
      record {
        after = record e { shader_cache = assign e.shader_cache i entry };
        stored = false;
        returns = rw fine;
        ready = record {
          on_ring = ready.on_ring;
          ring_valid = ready.ring_valid;
          sane = assign-IsSane i entry ready.sane (vacant refl refl);
          outputs =
              assign-HoldsOutputs e.shader_cache i entry ready.outputs (λ k bytes eq. absurd (cc));
        };
        same_pid = refl;
        others = λ j ne. assign-other e.shader_cache i j entry ne;
        kept = λ a _. absurd cc;
      }

  store_refused :
      (alloc_ok : Bool)
      → (size == 0 || ltb 65536 size) ≡ true
      → IsStored e s air alloc_ok size
          (store alloc_ok e (shader_hash air) (shader_verify_tag air) (length air) block size)
  unfolding store
  store_refused alloc_ok over = record {
    after = e;
    stored = false;
    returns = rw over;
    ready = ready;
    same_pid = refl;
    others = λ j ne. refl;
    kept = λ _ small. absurd (ground arith);
  }

  pub store-IsStored :
      (alloc_ok : Bool)
      → IsStored e s air alloc_ok size
          (store alloc_ok e (shader_hash air) (shader_verify_tag air) (length air) block size)
  store-IsStored true = elim (Bool-cases (size == 0 || ltb 65536 size)) [
    | inl over ↦ store_refused true over
    | inr fine ↦ store_kept fine
  ]
  store-IsStored false = elim (Bool-cases (size == 0 || ltb 65536 size)) [
    | inl over ↦ store_refused false over
    | inr fine ↦ store_dropped fine
  ]
