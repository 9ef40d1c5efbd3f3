-- ===== src/Engine/Cache/Lookup.antt =====
-- What a lookup answers, by what its entry holds.
use n_igpu_macos.Common.{
  ℕ, ◌≡◌, ◌≢◌, ◌⊎◌, ◌∙◌, refl, ap, sym, Bool, true, false, none, some, some-inj, none-some, List,
  length, done, arith,
}
use n_igpu_macos.Memo
use n_igpu_macos.Memo.{Key}
use n_igpu_macos.Engine.Cache.{TranslationEngine, slot, missed, rejected, hit, inspect, lookup}
use n_igpu_macos.Engine.Cache.View.{IsSane, view_entry}
use n_igpu_macos.Engine.Cache.Inspect.{nothing, copied, inspect-Inspected, slot-lt}

module _ (alloc_ok : Bool) (e : TranslationEngine) (k : Key) where
  pub lookup-vacant :
      (e.shader_cache (slot k.hash)).valid ≡ false
      → lookup alloc_ok e k.hash k.tag k.len ≡ done (missed e, none)
  unfolding lookup inspect
  lookup-vacant vacant = rw vacant refl

  -- Another tag under the same hash is not found.
  pub lookup-other_tag :
      (k' : Key) (bytes : List ℕ)
      → IsSane e.shader_cache
      → view_entry (e.shader_cache (slot k.hash)) ≡ some (k', bytes)
      → k'.tag ≢ k.tag
      → (after : TranslationEngine) × (lookup alloc_ok e k.hash k.tag k.len ≡ done (after, none))
        × ((after ≡ missed e) ⊎ (after ≡ rejected e))
  unfolding lookup
  lookup-other_tag k' bytes sane holds other =
      elim (inspect-Inspected alloc_ok e (e.shader_cache (slot k.hash)) k
        (sane (slot k.hash) (slot-lt k.hash))) [
          | nothing after eq kept none_found ↦ (after, eq, kept)
          | copied code eq alloc v key held size ↦
              absurd (other (ap (λ (x : Key × List ℕ). x.0.tag) (some-inj (sym holds ∙ held))))
        ]

key_found : (k : Key) (bytes : List ℕ) → Memo.matching k (some (k, bytes)) ≡ some bytes
key_found k bytes = ground arith

-- The bytes that are held under a key are found.
pub lookup-held :
    (e : TranslationEngine) (k : Key) (bytes : List ℕ)
    → IsSane e.shader_cache
    → view_entry (e.shader_cache (slot k.hash)) ≡ some (k, bytes)
    → lookup true e k.hash k.tag k.len ≡ done (hit e, some (bytes, length bytes))
unfolding lookup
lookup-held e k bytes sane holds =
    elim (inspect-Inspected true e (e.shader_cache (slot k.hash)) k
      (sane (slot k.hash) (slot-lt k.hash))) [
        | nothing after eq kept none_found ↦
            absurd (none-some (sym none_found ∙ ap (Memo.matching k) holds ∙ key_found k bytes))
        | copied code eq alloc v key held size ↦
            let same : code ≡ bytes =
              ap (λ (x : Key × List ℕ). x.1) (some-inj (sym held ∙ holds)) in
            eq
            ∙ ap (λ (n : ℕ). done (hit e, some (code, n))) (sym size)
            ∙ ap (λ (c : List ℕ). done (hit e, some (c, length c))) same
      ]
