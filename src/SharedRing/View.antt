-- ===== src/SharedRing/View.antt =====
-- The bytes that a ring holds, oldest first, and how far a copy into it reaches.
use n_igpu_macos.Common.{
  ℕ, ◌+◌, ◌-◌, ◌≤◌, ◌<◌, ◌≡◌, ◌⊎◌, ◌∙◌, ap, ap₂, List, ◌++◌, some, true, if◌then◌else◌, ltb, leb,
  length, get_or, tabulate, tabulate_ext, tabulate-append, length-tabulate, arith,
}
use n_igpu_macos.SharedRing.{SharedRingHeader, RingContext, max_capacity, distance}

-- A ring between `ntel_ring_init` and `ntel_ring_cleanup`.
pub record OpenRing : Type 0 where
  pub header : SharedRingHeader
  pub buffer : List ℕ
  pub capacity : ℕ

-- The context of an open ring.
abbrev pub context : OpenRing → RingContext
context s = record {
  header = some s.header;
  buffer_base = some s.buffer;
  capacity_bytes = s.capacity;
  lock_initialized = true;
}

-- A ring of capacity 0 has both indices at 0.
pub record IsValid (s : OpenRing) : Type 0 where
  pub small : s.capacity ≤ max_capacity
  pub storage : s.capacity ≤ length s.buffer
  pub write_in : s.header.write_idx ≤ s.capacity - 1
  pub read_in : s.header.read_idx ≤ s.capacity - 1

-- The `i`-th place from `r` on, going round at `cap`.
abbrev pub wrap : ℕ → ℕ → ℕ → ℕ
wrap cap r i = if ltb (r + i) cap then r + i else r + i - cap

abbrev pub window : List ℕ → ℕ → ℕ → ℕ → List ℕ
window buf cap r n = tabulate n (λ i. get_or buf (wrap cap r i) 0)

-- The number of bytes from index `r` round to index `w`.
abbrev pub held : ℕ → ℕ → ℕ → ℕ
held cap w r = if leb r w then w - r else w + cap - r

-- The bytes written and not yet read, oldest first.
abbrev pub contents : OpenRing → List ℕ
contents s =
    let h = s.header in
    window s.buffer s.capacity h.read_idx (held s.capacity h.write_idx h.read_idx)

pub length-contents :
    (s : OpenRing) → length (contents s) ≡ held s.capacity s.header.write_idx s.header.read_idx
length-contents s = length-tabulate (held s.capacity s.header.write_idx s.header.read_idx) _

pub distance-eq-held :
    {s : OpenRing}
    → IsValid s
    → let h = s.header in
      distance s.capacity h.write_idx h.read_idx ≡ held s.capacity h.write_idx h.read_idx
distance-eq-held v = ground arith

-- `buf'` is `buf` with `len` bytes of `src` from place `w` on, going round at `cap`.
pub record IsCopied (buf buf' : List ℕ) (cap w : ℕ) (src : List ℕ) (len : ℕ) : Type 0 where
  pub same_length : length buf' ≡ length buf
  pub inside : (i : ℕ) → i < len → get_or buf' (wrap cap w i) 0 ≡ get_or src i 0
  pub outside :
      (j : ℕ) → (j < w) ⊎ (w + len ≤ j) → w + len ≤ j + cap → get_or buf' j 0 ≡ get_or buf j 0

-- A copy behind the window extends it by the bytes copied.
pub window-IsCopied :
    {buf buf' : List ℕ} {cap w : ℕ} {src : List ℕ} {len : ℕ} (r n k : ℕ)
    → IsCopied buf buf' cap w src len
    → r < cap
    → n + len < cap
    → w ≡ wrap cap r n
    → k ≡ n + len
    → window buf' cap r k ≡ window buf cap r n ++ tabulate len (λ i. get_or src i 0)
window-IsCopied {buf} {buf'} {cap} {w} {src} {len} r n k c hr fits at e =
    tabulate-append n len k (λ i. get_or buf' (wrap cap r i) 0) e
    ∙ ap₂ ◌++◌ (tabulate_ext n _ _ (λ i p. c.outside (wrap cap r i) (ground arith) (ground arith)))
        (tabulate_ext len _ _ (λ i p. ap (λ j. get_or buf' j 0) (same_place i p) ∙ c.inside i p))
  where
    same_place : (i : ℕ) → i < len → wrap cap r (n + i) ≡ wrap cap w i
    same_place i p = ground arith
