-- ===== src/SharedRing/Write.antt =====
-- The write path: where its two copies put the bytes.
use n_igpu_macos.Common.{
  ℕ, ◌+◌, ◌-◌, ◌≤◌, ◌<◌, ◌≡◌, ◌∙◌, inl, inr, List, leb, Bool-cases, length, done, slice, splice,
  length-slice, length-splice, get_or-splice, get_or-slice, memcpy_lem, arith,
}
use n_igpu_macos.Common.{◌≤◌, ◌%◌, u32}
use native.Mathlib.Nat.{mod-eq_of_lt, mod-eq-sub-mod}
use n_igpu_macos.SharedRing.{copy_in, max_capacity}
use n_igpu_macos.SharedRing.View.{IsCopied, wrap}

module _ (buf : List ℕ) (cap w : ℕ) (src : List ℕ) (len : ℕ) (in_buffer : cap ≤ length buf)
    (in_ring : w < cap) (in_src : len ≤ length src) where
  -- One copy, when the bytes end before the buffer does.
  splice-IsCopied : len ≤ cap - w → IsCopied buf (splice buf w (slice src 0 len)) cap w src len
  splice-IsCopied h =
      let xs = slice src 0 len in
      let size = length-slice src 0 len (omega arith) in
      let fits : w + length xs ≤ length buf = omega arith in
      record {
        same_length = length-splice buf w xs fits;
        inside = λ i p. ground (
          arith,
          get_or-splice buf w xs (w + i) 0,
          get_or-slice src 0 len i i 0,
          get_or-slice src 0 len (w + i - w) i 0,
        );
        outside = λ j p q. ground (arith, get_or-splice buf w xs j 0);
      }

  -- Two copies, when the bytes go round the end.
  splices-IsCopied :
      cap - w < len
      → len < cap
      → let s = cap - w in
        IsCopied buf (splice (splice buf w (slice src 0 s)) 0 (slice src s (len - s))) cap w src len
  splices-IsCopied h small =
      let s = cap - w in
      let xs = slice src 0 s in
      let ys = slice src s (len - s) in
      let size_x = length-slice src 0 s (omega arith) in
      let size_y = length-slice src s (len - s) (omega arith) in
      let fits_x : w + length xs ≤ length buf = omega arith in
      let same = length-splice buf w xs fits_x in
      let fits_y : 0 + length ys ≤ length (splice buf w xs) = omega arith in
      record {
        same_length = length-splice (splice buf w xs) 0 ys fits_y ∙ same;
        inside = λ i p. ground (
          arith,
          get_or-splice (splice buf w xs) 0 ys (wrap cap w i) 0,
          get_or-splice buf w xs (wrap cap w i) 0,
          get_or-slice src 0 s i i 0,
          get_or-slice src s (len - s) (i - s) i 0,
        );
        outside = λ j p q.
            ground (arith, get_or-splice (splice buf w xs) 0 ys j 0, get_or-splice buf w xs j 0);
      }

  pub copy_in-IsCopied :
      len < cap
      → (buf' : List ℕ) × (copy_in buf w src len (cap - w) ≡ done buf')
        × IsCopied buf buf' cap w src len
  unfolding copy_in
  copy_in-IsCopied small = elim (Bool-cases (leb len (cap - w))) [
    | inl e ↦ (
      splice buf w (slice src 0 len),
      rw (e, memcpy_lem buf w src 0 len (ground arith) (ground arith)),
      splice-IsCopied (ground arith),
    )
    | inr e ↦ (
      splice first 0 (slice src s (len - s)),
      rw (
        e,
        memcpy_lem buf w src 0 s (ground arith) (ground arith),
        memcpy_lem first 0 src s (len - s) (ground (arith, same)) (ground arith),
      ),
      splices-IsCopied (ground arith) small,
    )
  ]
    where
      s : ℕ
      s = cap - w

      first : List ℕ
      first = splice buf w (slice src 0 s)

      same : s ≤ length src → length first ≡ length buf
      same h =
          let size = length-slice src 0 s (omega arith) in
          length-splice buf w (slice src 0 s) (omega arith)

-- `(w + len) % cap` is the place `len` bytes on: neither the sum nor the remainder wraps.
pub advance_lem :
    (cap w len : ℕ)
    → cap ≤ max_capacity
    → w < cap
    → len < cap
    → u32 (w + len) % cap ≡ wrap cap w len
advance_lem cap w len small hw hl =
    let whole : u32 (w + len) ≡ w + len = omega arith in
    rw whole (
      ground (
        arith,
        mod-eq_of_lt {n = w + len} {m = cap},
        mod-eq-sub-mod {n = w + len} {m = cap},
        mod-eq_of_lt {n = w + len - cap} {m = cap},
      ))
