-- ===== src/SharedRing/Read.antt =====
-- `ntel_ring_try_read` on an open ring: which bytes it hands over, and what the ring holds then.
use n_igpu_macos.Common.{
  ℕ, ◌+◌, ◌-◌, ◌≤◌, ◌<◌, ◌≡◌, ◌∙◌, ◌%◌, inl, inr, refl, sym, ap, List, [], true, false, some,
  if◌then◌else◌, leb, ltb, ◌==◌, Bool-cases, length, take, drop, get_or, done, u32, sub32, slice,
  splice, length-slice, length-splice, get_or-splice, get_or-slice, memcpy_lem, min, arith,
  take-tabulate, drop-tabulate, tabulate_ext, take-eq-tabulate, get_or_ext, get_or-drop,
  length-drop, ◌⊎◌,
}
use n_igpu_macos.SharedRing.{SharedRingHeader, copy_out, read_locked, try_read}
use n_igpu_macos.SharedRing.View.{
  OpenRing, context, IsValid, held, contents, distance-eq-held, wrap, length-contents,
}
use n_igpu_macos.SharedRing.Write.{advance_lem}

-- `out'` is `out` with `n` bytes of the ring's buffer, from place `r` on, at its front.
pub record IsHandedOver (out out' buf : List ℕ) (cap r n : ℕ) : Type 0 where
  pub same_length : length out' ≡ length out
  pub inside : (i : ℕ) → i < n → get_or out' i 0 ≡ get_or buf (wrap cap r i) 0
  pub outside : (i : ℕ) → n ≤ i → get_or out' i 0 ≡ get_or out i 0

module _ (out buf : List ℕ) (cap r n : ℕ) (in_buffer : cap ≤ length buf) (in_ring : r < cap)
    (in_out : n ≤ length out) where
  splice-IsHandedOver : n ≤ cap - r → IsHandedOver out (splice out 0 (slice buf r n)) buf cap r n
  splice-IsHandedOver h =
      let xs = slice buf r n in
      let size = length-slice buf r n (omega arith) in
      let fits : 0 + length xs ≤ length out = omega arith in
      record {
        same_length = length-splice out 0 xs fits;
        inside =
            λ i p. ground (arith, get_or-splice out 0 xs i 0, get_or-slice buf r n i (r + i) 0);
        outside = λ i p. ground (arith, get_or-splice out 0 xs i 0);
      }

  splices-IsHandedOver :
      cap - r < n
      → n < cap
      → let k = cap - r in
        IsHandedOver out (splice (splice out 0 (slice buf r k)) k (slice buf 0 (n - k))) buf cap r n
  splices-IsHandedOver h small =
      let k = cap - r in
      let xs = slice buf r k in
      let ys = slice buf 0 (n - k) in
      let size_x = length-slice buf r k (omega arith) in
      let size_y = length-slice buf 0 (n - k) (omega arith) in
      let fits_x : 0 + length xs ≤ length out = omega arith in
      let same = length-splice out 0 xs fits_x in
      let fits_y : k + length ys ≤ length (splice out 0 xs) = omega arith in
      record {
        same_length = length-splice (splice out 0 xs) k ys fits_y ∙ same;
        inside = λ i p. ground (
          arith,
          get_or-splice (splice out 0 xs) k ys i 0,
          get_or-splice out 0 xs i 0,
          get_or-slice buf r k i (r + i) 0,
          get_or-slice buf 0 (n - k) (i - k) (i - k) 0,
        );
        outside = λ i p.
            ground (arith, get_or-splice (splice out 0 xs) k ys i 0, get_or-splice out 0 xs i 0);
      }

  copy_out-IsHandedOver :
      n < cap
      → (out' : List ℕ) × (copy_out out buf r n (cap - r) ≡ done out')
        × IsHandedOver out out' buf cap r n
  unfolding copy_out
  copy_out-IsHandedOver small = elim (Bool-cases (leb n (cap - r))) [
    | inl e ↦ (
      splice out 0 (slice buf r n),
      rw (e, memcpy_lem out 0 buf r n (ground arith) (ground arith)),
      splice-IsHandedOver (ground arith),
    )
    | inr e ↦ (
      splice first k (slice buf 0 (n - k)),
      rw (
        e,
        memcpy_lem out 0 buf r k (ground arith) (ground arith),
        memcpy_lem first k buf 0 (n - k) (ground (arith, same)) (ground arith),
      ),
      splices-IsHandedOver (ground arith) small,
    )
  ]
    where
      k : ℕ
      k = cap - r

      first : List ℕ
      first = splice out 0 (slice buf r k)

      same : k ≤ length out → length first ≡ length out
      same h =
          let size = length-slice buf r k (omega arith) in
          length-splice out 0 (slice buf r k) (omega arith)

module _ {s : OpenRing} (v : IsValid s) where
  open s use {header as h, buffer as buf, capacity as cap}

  abbrev count : ℕ
  count = held cap h.write_idx h.read_idx

  -- The ring after `n` bytes went out.
  abbrev pub consumed : ℕ → OpenRing
  consumed n = record s { header = record h { read_idx = u32 (h.read_idx + n) % cap } }

  pub consumed-contents :
      (n : ℕ)
      → n ≤ count
      → 0 < n
      → IsValid (consumed n) × (contents (consumed n) ≡ drop n (contents s))
  consumed-contents n le pos = (ground (arith, next), moved)
    where
      next : u32 (h.read_idx + n) % cap ≡ wrap cap h.read_idx n
      next = advance_lem cap h.read_idx n v.small (ground arith) (ground arith)

      left : ℕ
      left = held cap h.write_idx (u32 (h.read_idx + n) % cap)

      same_place :
          (i : ℕ) → i < left → wrap cap (u32 (h.read_idx + n) % cap) i ≡ wrap cap h.read_idx (n + i)
      same_place i p = ground (arith, next)

      moved : contents (consumed n) ≡ drop n (contents s)
      moved =
          tabulate_ext left _ _ (λ i p. ap (λ j. get_or buf j 0) (same_place i p))
          ∙ sym (drop-tabulate n left count _ (ground (arith, next)))

  read_locked_lem :
      (out : List ℕ) (n : ℕ)
      → (out' : List ℕ) → 0 < count
      → copy_out out buf h.read_idx (min count n) (cap - h.read_idx) ≡ done out'
      → read_locked h buf cap out n
        ≡ done (record {
          header = (consumed (min count n)).header;
          out_data = out';
          bytes_read = min count n;
          read = true;
        })
  unfolding read_locked
  read_locked_lem out n out' some_bytes copied =
      let same : sub32 cap h.read_idx ≡ cap - h.read_idx = ground arith in
      let least : (if ltb count n then count else n) ≡ min count n = ground arith in
      ground (arith, distance-eq-held v, same, least)

  pub handed_over-take :
      {out out' : List ℕ} (n : ℕ)
      → n ≤ count
      → n ≤ length out
      → IsHandedOver out out' buf cap h.read_idx n
      → take n out' ≡ take n (contents s)
  handed_over-take {out} {out'} n le room c =
      take-eq-tabulate n out' 0 (omega (arith, c.same_length))
      ∙ tabulate_ext n _ _ c.inside
      ∙ sym (take-tabulate n count _ le)

handed_over-drop :
    {out out' buf : List ℕ} {cap r : ℕ} (n : ℕ)
    → IsHandedOver out out' buf cap r n
    → drop n out' ≡ drop n out
handed_over-drop {out} {out'} n c =
    let size = c.same_length in
    get_or_ext 0 (drop n out') (drop n out)
      (omega (arith, length-drop {0} n out, length-drop {0} n out'))
      (λ i p.
        get_or-drop n out' i (n + i) 0 refl
        ∙ c.outside (n + i) (omega arith)
        ∙ sym (get_or-drop n out i (n + i) 0 refl))

read_locked_idle :
    (h : SharedRingHeader) (buf : List ℕ) (cap : ℕ) (out : List ℕ) (n : ℕ)
    → h.write_idx ≡ h.read_idx
    → read_locked h buf cap out n
      ≡ done (record { header = h; out_data = out; bytes_read = 0; read = false })
unfolding read_locked
read_locked_idle h buf cap out n e = ground arith

-- On a valid open ring that is not empty, with a block of at least `max_len > 0` bytes, the call
-- succeeds, hands over the oldest `min held max_len` bytes at the front of the block, leaves the
-- rest of the block alone, and drops exactly those bytes from the ring, which stays valid at the
-- same capacity.
pub try_read_gives :
    {s : OpenRing} (out : List ℕ) (max_len old : ℕ)
    → IsValid s
    → 0 < max_len
    → max_len ≤ length out
    → 0 < length (contents s)
    → let n = min (length (contents s)) max_len in
      (s' : OpenRing) × (out' : List ℕ) × (try_read (some (context s)) (some out) max_len (some old)
        ≡ done (record {
          ctx = some (context s');
          out_data = some out';
          bytes_read = some n;
          read = true;
        }))
      × (take n out' ≡ take n (contents s))
      × (drop n out' ≡ drop n out)
      × IsValid s'
      × (s'.capacity ≡ s.capacity)
      × (contents s' ≡ drop n (contents s))
unfolding try_read
try_read_gives {s} out max_len old v pos room busy =
    let size = length-contents s in
    let n = min (length (contents s)) max_len in
    let k = min (held cap h.write_idx h.read_idx) max_len in
    let same : k ≡ n = ap (λ t. min t max_len) (sym size) in
    let (out', copied, c) =
      copy_out-IsHandedOver out buf cap h.read_idx k v.storage (ground arith) (omega arith)
        (ground arith) in
    let (valid, left) = consumed-contents v k (omega arith) (omega arith) in
    rw (← same) (
      consumed v k,
      out',
      ground (arith, read_locked_lem v out max_len out' (omega arith) copied),
      handed_over-take v k (omega arith) (omega arith) c,
      handed_over-drop k c,
      valid,
      refl,
      left,
    )
  where
    open s use {header as h, buffer as buf, capacity as cap}

-- A read from an empty ring, or of no bytes, reports 0 bytes on a valid open ring and changes
-- neither the block nor the ring.
pub try_read_refuses :
    {s : OpenRing} (out : List ℕ) (max_len old : ℕ)
    → IsValid s
    → (max_len ≡ 0) ⊎ (contents s ≡ [])
    → try_read (some (context s)) (some out) max_len (some old)
      ≡ done (record {
        ctx = some (context s);
        out_data = some out;
        bytes_read = some 0;
        read = false;
      })
unfolding try_read
try_read_refuses {s} out max_len old v (inl e) = ground arith
try_read_refuses {s} out max_len old v (inr e) =
    let idle : s.header.write_idx ≡ s.header.read_idx =
      ground (arith, length-contents s, ap length e) in
    elim (Bool-cases (max_len == 0)) [
      | inl z ↦ rw z
      | inr p ↦ rw (p, read_locked_idle s.header s.buffer s.capacity out max_len idle)
    ]
