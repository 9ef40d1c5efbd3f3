-- ===== src/Engine/Cache/Refine.antt =====
-- The shader cache answers requests as the memo of its entries does.
use n_igpu_macos.Common.{
  ℕ, ◌+◌, ◌<◌, ◌≡◌, ◌⊎◌, ◌∙◌, refl, ap, sym, fun_ext, inl, inr, Bool, true, false, ◌&&◌, ◌||◌,
  Option, none, some, List, [], ◌∷◌, if◌then◌else◌, ltb, leb, ◌==◌, Bool-cases, length, take_all,
  Exec, done, ◌>>=◌, read_bytes_lem, arith,
}
use n_igpu_macos.Memo
use n_igpu_macos.Memo.{Key, Memo, Request, ask, keep, wipe}
use n_igpu_macos.Engine.Cache.{
  ShaderCacheEntry, ShaderCache, TranslationEngine, assign, slot, missed, rejected, hit, lookup,
  emptied, store, flush,
}
use n_igpu_macos.Engine.Cache.View.{
  vacant, filled, IsSane, view_entry, view, flush_from_lem, assign-IsSane, flushed-IsSane,
}
use n_igpu_macos.Engine.Cache.Inspect.{slot-lt, slice-eq-take, nothing, copied, inspect-Inspected}

-- The bytes that a lookup hands over.
abbrev bytes_of : Option (List ℕ × ℕ) → Option (List ℕ)
bytes_of none = none
bytes_of (some (code, size)) = some code

-- A request to the engine's cache, with the answer that the caller sees.
pub answer : TranslationEngine → Request → Exec (TranslationEngine × Option (List ℕ))
answer e (ask alloc_ok k) = do
  (e', found) ← lookup alloc_ok e k.hash k.tag k.len
  done (e', bytes_of found)
answer e (keep alloc_ok k bytes) = do
  (e', _) ← store alloc_ok e k.hash k.tag k.len bytes (length bytes)
  done (e', none)
answer e wipe = done (flush e, none)

-- `step` is a request that went as the memo says.
pub record IsAnswered (e : TranslationEngine) (r : Request)
    (step : Exec (TranslationEngine × Option (List ℕ))) : Type 0 where
  pub after : TranslationEngine
  pub returns : step ≡ done (after, (Memo.answer (view e.shader_cache) r).1)
  pub sane : IsSane after.shader_cache
  pub holds : view after.shader_cache ≡ (Memo.answer (view e.shader_cache) r).0

view-slot : (cache : ShaderCache) (h : ℕ) → view cache (slot h) ≡ view_entry (cache (slot h))
view-slot cache h = ground (arith, slot-lt h)

missed_or_rejected :
    (e after : TranslationEngine)
    → (after ≡ missed e) ⊎ (after ≡ rejected e)
    → after.shader_cache ≡ e.shader_cache
missed_or_rejected e after (inl p) = ap (λ (x : TranslationEngine). x.shader_cache) p
missed_or_rejected e after (inr p) = ap (λ (x : TranslationEngine). x.shader_cache) p

-- The memo's answer to `ask`, at the entry itself.
asked : (alloc_ok : Bool) (cache : ShaderCache) (k : Key) → Option (List ℕ)
asked alloc_ok cache k =
    if alloc_ok then Memo.matching k (view_entry (cache (slot k.hash))) else none

answer-asked :
    (alloc_ok : Bool) (cache : ShaderCache) (k : Key)
    → (Memo.answer (view cache) (ask alloc_ok k)).1 ≡ asked alloc_ok cache k
unfolding Memo.answer asked
answer-asked alloc_ok cache k =
    ap (λ x. if alloc_ok then Memo.matching k x else none) (view-slot cache k.hash)

answer-ask :
    (e : TranslationEngine) (alloc_ok : Bool) (k : Key)
    → IsSane e.shader_cache
    → IsAnswered e (ask alloc_ok k) (answer e (ask alloc_ok k))
unfolding answer lookup Memo.answer asked
answer-ask e alloc_ok k sane =
    elim (inspect-Inspected alloc_ok e (e.shader_cache (slot k.hash)) k
      (sane (slot k.hash) (slot-lt k.hash))) [
        | nothing after eq kept none_found ↦
            let same = missed_or_rejected e after kept in
            record {
              after = after;
              returns =
                  ap (λ r. r >>= seen) eq
                  ∙ ap (λ x. done (after, x))
                      (sym (answer-asked alloc_ok e.shader_cache k ∙ none_found));
              sane = rw same sane;
              holds = ap view same;
            }
        | copied code eq ok v key held size ↦ record {
          after = hit e;
          returns =
              ap (λ r. r >>= seen) eq
              ∙ ap (λ x. done (hit e, x))
                  (sym (answer-asked alloc_ok e.shader_cache k ∙ rw (ok, held) (ground arith)));
          sane = sane;
          holds = refl;
        }
      ]
  where
    seen : TranslationEngine × Option (List ℕ × ℕ) → Exec (TranslationEngine × Option (List ℕ))
    seen r = done (r.0, bytes_of r.1)

-- A view with one entry replaced.
view-assign :
    (cache : ShaderCache) (i : ℕ) (entry : ShaderCacheEntry)
    → i < 256
    → view (assign cache i entry) ≡ Memo.put (view cache) i (view_entry entry)
view-assign cache i entry h = fun_ext λ j. elim (Bool-cases (j == i)) [
  | inl e ↦ let here : ltb j 256 ≡ true = ground arith in rw (e, here)
  | inr n ↦ rw n
]

module _ (e : TranslationEngine) (k : Key) (bytes : List ℕ) (sane : IsSane e.shader_cache) where
  keep_ignored :
      (alloc_ok : Bool)
      → (length bytes == 0 || ltb 65536 (length bytes)) ≡ true
      → IsAnswered e (keep alloc_ok k bytes) (answer e (keep alloc_ok k bytes))
  unfolding answer store Memo.answer
  keep_ignored alloc_ok ignored = record {
    after = e;
    returns = rw ignored;
    sane = sane;
    holds = rw ignored;
  }

  keep_stored :
      (length bytes == 0 || ltb 65536 (length bytes)) ≡ false
      → IsAnswered e (keep true k bytes) (answer e (keep true k bytes))
  unfolding answer store Memo.answer
  keep_stored fine =
      let entry : ShaderCacheEntry = record {
        hash = k.hash;
        verify_tag = k.tag;
        air_source_len = k.len;
        gen12_bytecode = some bytes;
        bytecode_size = length bytes;
        valid = true;
      } in
      let whole =
        slice-eq-take bytes (length bytes) ∙ take_all bytes (length bytes) (omega arith) in
      let here = slot-lt k.hash in
      record {
        after = record e { shader_cache = assign e.shader_cache (slot k.hash) entry };
        returns = rw (fine, read_bytes_lem bytes 0 (length bytes) (omega arith), whole);
        sane =
            assign-IsSane (slot k.hash) entry sane
              (filled bytes refl refl (ground arith) (ground arith) (omega arith));
        holds = rw fine (
            view-assign e.shader_cache (slot k.hash) entry here
            ∙ ap (λ t. Memo.put (view e.shader_cache) (slot k.hash) (some (k, t)))
                (take_all bytes (length bytes) (omega arith)));
      }

  keep_cleared :
      (length bytes == 0 || ltb 65536 (length bytes)) ≡ false
      → IsAnswered e (keep false k bytes) (answer e (keep false k bytes))
  unfolding answer store Memo.answer
  keep_cleared fine =
      let entry = emptied (e.shader_cache (slot k.hash)) in
      record {
        after = record e { shader_cache = assign e.shader_cache (slot k.hash) entry };
        returns = rw fine;
        sane = assign-IsSane (slot k.hash) entry sane (vacant refl refl);
        holds = rw fine (view-assign e.shader_cache (slot k.hash) entry (slot-lt k.hash));
      }

answer-keep :
    (e : TranslationEngine) (alloc_ok : Bool) (k : Key) (bytes : List ℕ)
    → IsSane e.shader_cache
    → IsAnswered e (keep alloc_ok k bytes) (answer e (keep alloc_ok k bytes))
answer-keep e true k bytes sane =
    elim (Bool-cases (length bytes == 0 || ltb 65536 (length bytes))) [
      | inl ignored ↦ keep_ignored e k bytes sane true ignored
      | inr fine ↦ keep_stored e k bytes sane fine
    ]
answer-keep e false k bytes sane =
    elim (Bool-cases (length bytes == 0 || ltb 65536 (length bytes))) [
      | inl ignored ↦ keep_ignored e k bytes sane false ignored
      | inr fine ↦ keep_cleared e k bytes sane fine
    ]

answer-wipe : (e : TranslationEngine) → IsSane e.shader_cache → IsAnswered e wipe (answer e wipe)
unfolding answer flush Memo.answer
answer-wipe e sane =
    let entry = λ (i : ℕ). flush_from_lem 256 0 i e.shader_cache in
    record {
      after = flush e;
      returns = refl;
      sane = λ i h.
          let inside : (leb 0 i && ltb i (0 + 256)) ≡ true = ground arith in
          rw (entry i, inside) (flushed-IsSane (e.shader_cache i) (sane i h));
      holds = fun_ext λ i. ground (arith, entry i);
    }

pub session : TranslationEngine → List Request → Exec (List (Option (List ℕ)))
session e [] = done []
session e (r ∷ rs) = do (e', reply) ← answer e r; replies ← session e' rs; done (reply ∷ replies)

answer-IsAnswered :
    (e : TranslationEngine) (r : Request) → IsSane e.shader_cache → IsAnswered e r (answer e r)
answer-IsAnswered e (ask alloc_ok k) sane = answer-ask e alloc_ok k sane
answer-IsAnswered e (keep alloc_ok k bytes) sane = answer-keep e alloc_ok k bytes sane
answer-IsAnswered e wipe sane = answer-wipe e sane

-- From a sane cache no sequence of lookups, stores and flushes, whichever of their allocations fail,
-- leaves its blocks, and the lookups hand over what the direct-mapped memo of the entries answers.
pub cache_session_refines :
    (rs : List Request) (e : TranslationEngine)
    → IsSane e.shader_cache
    → session e rs ≡ done (Memo.session (view e.shader_cache) rs)
unfolding session Memo.session
cache_session_refines [] e sane = refl
cache_session_refines (r ∷ rs) e sane =
    let a = answer-IsAnswered e r sane in
    rw (a.returns, cache_session_refines rs a.after a.sane)
      (ap (λ m. done ((Memo.answer (view e.shader_cache) r).1 ∷ Memo.session m rs)) a.holds)
