-- ===== src/Engine/Cache/View.antt =====
-- The shader cache as a memo, and the invariant of its entries.
use n_igpu_macos.Common.{
  ℕ, zero, suc, ◌+◌, ◌≤◌, ◌<◌, ◌≡◌, ◌≢◌, ◌∙◌, refl, ap, sym, inl, inr, Bool-cases, eq→==, ne→==,
  ==_iff, true, false, ◌&&◌, Option, none, some, List, if◌then◌else◌, ltb, leb, ◌==◌, length, take,
  arith,
}
use n_igpu_macos.Memo.{Key, Memo}
use n_igpu_macos.Engine.Translate.{max_shader_bytecode}
use n_igpu_macos.Engine.Cache.{ShaderCacheEntry, ShaderCache, assign, flushed, flush_from}

-- An entry that is not valid owns no block; a valid one owns a block of at least the bytes that it
-- reports, from 1 byte to 64 KB.
pub data IsSaneEntry (entry : ShaderCacheEntry) : Type 0 where
  vacant : entry.valid ≡ false → entry.gen12_bytecode ≡ none → IsSaneEntry entry
  filled :
      (code : List ℕ)
      → entry.valid ≡ true
      → entry.gen12_bytecode ≡ some code
      → 0 < entry.bytecode_size
      → entry.bytecode_size ≤ max_shader_bytecode
      → entry.bytecode_size ≤ length code
      → IsSaneEntry entry

abbrev pub IsSane : ShaderCache → Type 0
IsSane cache = (i : ℕ) → i < 256 → IsSaneEntry (cache i)

abbrev pub key_of : ShaderCacheEntry → Key
key_of entry = record { hash = entry.hash; tag = entry.verify_tag; len = entry.air_source_len }

abbrev pub held_bytes : ℕ → Option (List ℕ) → List ℕ
held_bytes size none = List.[]
held_bytes size (some code) = take size code

abbrev pub view_entry : ShaderCacheEntry → Option (Key × List ℕ)
view_entry entry =
    if entry.valid
    then some (key_of entry, held_bytes entry.bytecode_size entry.gen12_bytecode)
    else none

-- The memo that the 256 entries stand for.
abbrev pub view : ShaderCache → Memo
view cache = λ i. if ltb i 256 then view_entry (cache i) else none

pub flush_from_lem :
    (left i j : ℕ) (cache : ShaderCache)
    → flush_from left i cache j
      ≡ (if leb i j && ltb j (i + left) then flushed (cache j) else cache j)
unfolding flush_from
flush_from_lem zero i j cache = ground arith
flush_from_lem (suc left) i j cache =
    flush_from_lem left (i + 1) j (assign cache i (flushed (cache i))) ∙ step
  where
    next : ShaderCache
    next = assign cache i (flushed (cache i))

    at_i : j ≡ i → next j ≡ flushed (cache j)
    at_i e = rw (eq→== j i e) (ap (λ k. flushed (cache k)) (sym e))

    elsewhere : j ≢ i → next j ≡ cache j
    elsewhere ne = rw (ne→== j i ne)

    step :
        (if leb (i + 1) j && ltb j (i + 1 + left) then flushed (next j) else next j)
        ≡ (if leb i j && ltb j (i + suc left) then flushed (cache j) else cache j)
    step = elim (Bool-cases (j == i)) [
      | inl e ↦
          let same : j ≡ i = (==_iff j i).0 e in
          let now : (leb (i + 1) j && ltb j (i + 1 + left)) ≡ false = ground arith in
          let then_ : (leb i j && ltb j (i + suc left)) ≡ true = ground arith in
          rw (now, then_) (at_i same)
      | inr n ↦
          let other : j ≢ i = ground arith in
          let same : (leb (i + 1) j && ltb j (i + 1 + left)) ≡ (leb i j && ltb j (i + suc left)) =
            ground arith in
          rw (same, elsewhere other)
    ]

pub assign-IsSane :
    {cache : ShaderCache} (i : ℕ) (entry : ShaderCacheEntry)
    → IsSane cache
    → IsSaneEntry entry
    → IsSane (assign cache i entry)
assign-IsSane {cache} i entry sane one j h = elim (Bool-cases (j == i)) [
  | inl e ↦ rw e one
  | inr n ↦ rw n (sane j h)
]

pub flushed-IsSane : (entry : ShaderCacheEntry) → IsSaneEntry entry → IsSaneEntry (flushed entry)
flushed-IsSane entry (vacant v b) = vacant refl (rw v b)
flushed-IsSane entry (filled code v b pos small room) = vacant refl (rw v)
