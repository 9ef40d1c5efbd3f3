-- ===== src/Engine/Cache/Inspect.antt =====
-- What a lookup does with the entry that its hash selects.
use n_igpu_macos.Common.{
  ℕ, ◌≤◌, ◌<◌, ◌≡◌, ◌⊎◌, refl, inl, inr, Bool, true, false, Option, none, some, List, if◌then◌else◌,
  ◌==◌, Bool-cases, length, take, length-take, Exec, done, read_bytes_lem, slice, arith,
}
use n_igpu_macos.Memo
use n_igpu_macos.Memo.{Key, Memo, Request, ask, keep, wipe}
use n_igpu_macos.Engine.Cache.{
  ShaderCacheEntry, TranslationEngine, slot, missed, rejected, hit, fetch, inspect,
}
use n_igpu_macos.Engine.Cache.View.{IsSaneEntry, vacant, filled, key_of, view_entry}

pub slot-lt : (h : ℕ) → slot h < 256
slot-lt h = omega arith

pub slice-eq-take : (xs : List ℕ) (n : ℕ) → slice xs 0 n ≡ take n xs
unfolding slice
slice-eq-take xs n = refl

-- What an entry answers for a key: nothing, or a copy of the bytes that it holds.
pub data Inspected (alloc_ok : Bool) (e : TranslationEngine) (entry : ShaderCacheEntry) (k : Key)
    (result : Exec (TranslationEngine × Option (List ℕ × ℕ))) : Type 0 where
  nothing :
      (after : TranslationEngine)
      → result ≡ done (after, none)
      → (after ≡ missed e) ⊎ (after ≡ rejected e)
      → (if alloc_ok then Memo.matching k (view_entry entry) else none) ≡ none
      → Inspected alloc_ok e entry k result
  copied :
      (code : List ℕ)
      → result ≡ done (hit e, some (code, entry.bytecode_size))
      → alloc_ok ≡ true
      → entry.valid ≡ true
      → key_of entry ≡ k
      → view_entry entry ≡ some (k, code)
      → length code ≡ entry.bytecode_size
      → Inspected alloc_ok e entry k result

module _ (alloc_ok : Bool) (e : TranslationEngine) (entry : ShaderCacheEntry) (k : Key) where
  inspect_vacant :
      entry.valid ≡ false
      → Inspected alloc_ok e entry k (inspect alloc_ok e entry k.hash k.tag k.len)
  unfolding inspect
  inspect_vacant v = nothing (missed e) (rw v) (inl refl) (ground arith)

  inspect_other :
      entry.valid ≡ true
      → Memo.same_key (key_of entry) k ≡ false
      → Inspected alloc_ok e entry k (inspect alloc_ok e entry k.hash k.tag k.len)
  unfolding inspect
  inspect_other v other = elim (Bool-cases (entry.hash == k.hash)) [
    | inl same ↦ nothing (rejected e) (ground arith) (inr refl) (ground arith)
    | inr differs ↦ nothing (missed e) (ground arith) (inl refl) (ground arith)
  ]

  inspect_same :
      (code : List ℕ)
      → entry.valid ≡ true
      → Memo.same_key (key_of entry) k ≡ true
      → entry.gen12_bytecode ≡ some code
      → 0 < entry.bytecode_size
      → entry.bytecode_size ≤ length code
      → Inspected alloc_ok e entry k (inspect alloc_ok e entry k.hash k.tag k.len)
  unfolding inspect fetch
  inspect_same code v same b pos room = elim (Bool-cases alloc_ok) [
    | inl ok ↦
        copied (take entry.bytecode_size code)
          (ground (
            arith,
            read_bytes_lem code 0 entry.bytecode_size (omega arith),
            slice-eq-take code entry.bytecode_size,
          ))
          ok v (ground arith) (ground arith)
          (omega (arith, length-take {0} entry.bytecode_size code))
    | inr failed ↦ nothing (missed e) (ground arith) (inl refl) (ground arith)
  ]

  -- A sane entry is inspected inside its block.
  pub inspect-Inspected :
      IsSaneEntry entry → Inspected alloc_ok e entry k (inspect alloc_ok e entry k.hash k.tag k.len)
  inspect-Inspected (vacant v b) = inspect_vacant v
  inspect-Inspected (filled code v b pos small room) =
      elim (Bool-cases (Memo.same_key (key_of entry) k)) [
        | inl same ↦ inspect_same code v same b pos room
        | inr other ↦ inspect_other v other
      ]
