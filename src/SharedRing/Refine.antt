-- ===== src/SharedRing/Refine.antt =====
-- `ntel_ring_try_write` on an open ring: when it takes a message, and what the ring holds then.
use n_igpu_macos.Common.{
  ℕ, ◌+◌, ◌-◌, ◌≤◌, ◌<◌, ◌≡◌, ◌⊎◌, ◌∙◌, ◌%◌, refl, List, ◌++◌, true, false, some, length, done, u32,
  sub32, take, take-eq-tabulate, sym, ap, arith,
}
use n_igpu_macos.SharedRing.{copy_in, write_locked, try_write}
use n_igpu_macos.SharedRing.View.{
  OpenRing, context, IsValid, held, contents, distance-eq-held, window-IsCopied, IsCopied, wrap,
  length-contents,
}
use n_igpu_macos.SharedRing.Write.{copy_in-IsCopied, advance_lem}

module _ {s : OpenRing} (v : IsValid s) (src : List ℕ) (len : ℕ) where
  open s use {header as h, buffer as buf, capacity as cap}

  abbrev count : ℕ
  count = held cap h.write_idx h.read_idx

  -- The ring after a message of `len` bytes went in.
  abbrev written : List ℕ → OpenRing
  written buf' = record {
    header = record h { write_idx = u32 (h.write_idx + len) % cap };
    buffer = buf';
    capacity = cap;
  }

  write_locked_takes :
      (buf' : List ℕ)
      → count + len < cap
      → copy_in buf h.write_idx src len (cap - h.write_idx) ≡ done buf'
      → write_locked h buf cap src len ≡ done ((written buf').header, buf', true)
  unfolding write_locked
  write_locked_takes buf' fits copied =
      let same : sub32 cap h.write_idx ≡ cap - h.write_idx = omega arith in
      ground (arith, distance-eq-held v, same)

  write_locked_full : cap ≤ count + len → write_locked h buf cap src len ≡ done (h, buf, false)
  unfolding write_locked
  write_locked_full full = ground (arith, distance-eq-held v)

  written-contents :
      {buf' : List ℕ}
      → count + len < cap
      → len ≤ length src
      → IsCopied buf buf' cap h.write_idx src len
      → IsValid (written buf') × (contents (written buf') ≡ contents s ++ take len src)
  written-contents {buf'} fits in_src c =
      let next : u32 (h.write_idx + len) % cap ≡ wrap cap h.write_idx len =
        advance_lem cap h.write_idx len v.small (omega arith) (omega arith) in
      (
        ground arith,
        window-IsCopied h.read_idx count (held cap (u32 (h.write_idx + len) % cap) h.read_idx) c
              (omega arith) fits (ground arith) (ground arith)
            ∙ ap (λ t. contents s ++ t) (sym (take-eq-tabulate len src 0 in_src)),
      )

-- On a valid open ring, a message of `0 < len` bytes that fits strictly below the capacity is taken
-- whole: the call succeeds inside the buffer and the message, the ring stays valid at the same
-- capacity, and its contents are extended by exactly the message.
pub try_write_takes :
    {s : OpenRing} (src : List ℕ) (len : ℕ)
    → IsValid s
    → len ≤ length src
    → 0 < len
    → length (contents s) + len < s.capacity
    → (s' : OpenRing) × (try_write (some (context s)) (some src) len
        ≡ done (some (context s'), true))
      × IsValid s'
      × (s'.capacity ≡ s.capacity)
      × (contents s' ≡ contents s ++ take len src)
unfolding try_write
try_write_takes {s} src len v in_src pos fits =
    let fits' : held s.capacity s.header.write_idx s.header.read_idx + len < s.capacity =
      omega (arith, length-contents s) in
    let (buf', copied, c) =
      copy_in-IsCopied s.buffer s.capacity s.header.write_idx src len v.storage (omega arith) in_src
        (omega arith) in
    let (valid, holds) = written-contents v src len fits' in_src c in
    (
      written v src len buf',
      ground (arith, write_locked_takes v src len buf' fits' copied),
      valid,
      refl,
      holds,
    )

-- A message of no bytes, or one that would fill the ring, is refused on a valid open ring, and
-- nothing changes. Its length may exceed the caller's block: the block is not read.
pub try_write_refuses :
    {s : OpenRing} (src : List ℕ) (len : ℕ)
    → IsValid s
    → (len ≡ 0) ⊎ (s.capacity ≤ length (contents s) + len)
    → try_write (some (context s)) (some src) len ≡ done (some (context s), false)
unfolding try_write
try_write_refuses {s} src len v why = ground (arith, write_locked_full v src len, length-contents s)
