-- ===== src/Common/Splice.antt =====
-- What a memcpy leaves in its destination, by length, by index and by prefix.
use Prim.Native.Nat.{ℕ, ◌+◌, ◌-◌, ◌≤◌, ◌<◌}
use mathlib.Core.Path.{◌≡◌, ◌∙◌, ap}
use mathlib.Core.List.{List, ◌++◌, append-nil}
use native.Mathlib.Omega.{arith}
use n_igpu_macos.Common.Tests.{ltb, if◌then◌else◌}
use n_igpu_macos.Common.Lists.{
  get_elem?-eq-get_or, length, take, drop, get_or, length-append, length-take, length-drop,
  get_or-append_left, get_or-append_right, get_or-take, get_or-drop, take-append_right,
}
use n_igpu_macos.Common.Memory.{slice, splice, memcpy, read_bytes, load, done}

module _ {ℓ} {A : Type ℓ} where
  pub length-slice : (src : List A) (i n : ℕ) → i + n ≤ length src → length (slice src i n) ≡ n
  unfolding slice
  length-slice src i n h = omega (arith, length-take {ℓ} n (drop i src), length-drop {ℓ} i src)

  pub length-splice :
      (dst : List A) (d : ℕ) (xs : List A)
      → d + length xs ≤ length dst
      → length (splice dst d xs) ≡ length dst
  unfolding splice
  length-splice dst d xs h = omega (
    arith,
    length-append {ℓ} (take d dst) (xs ++ drop (d + length xs) dst),
    length-append {ℓ} xs (drop (d + length xs) dst),
    length-take {ℓ} d dst,
    length-drop {ℓ} (d + length xs) dst,
  )

  module _ (dst : List A) (d : ℕ) (xs : List A) (fits : d + length xs ≤ length dst) (v : A) where
    length-take_of_fits : length (take d dst) ≡ d
    length-take_of_fits = omega (arith, length-take {ℓ} d dst)

    pub get_or-splice_before : (i : ℕ) → i < d → get_or (splice dst d xs) i v ≡ get_or dst i v
    unfolding splice
    get_or-splice_before i h =
        get_or-append_left (take d dst) (xs ++ drop (d + length xs) dst) i v
          (omega (arith, length-take_of_fits))
        ∙ get_or-take d dst i v h

    pub get_or-splice_inside :
        (i k : ℕ) → k ≡ d + i → i < length xs → get_or (splice dst d xs) k v ≡ get_or xs i v
    unfolding splice
    get_or-splice_inside i k e h =
        get_or-append_right (take d dst) (xs ++ drop (d + length xs) dst) k i v
          (omega (arith, length-take_of_fits))
        ∙ get_or-append_left xs (drop (d + length xs) dst) i v h

    pub get_or-splice_after :
        (i : ℕ) → d + length xs ≤ i → get_or (splice dst d xs) i v ≡ get_or dst i v
    unfolding splice
    get_or-splice_after i h =
        get_or-append_right (take d dst) (xs ++ drop (d + length xs) dst) i (i - d) v
          (omega (arith, length-take_of_fits))
        ∙ get_or-append_right xs (drop (d + length xs) dst) (i - d) (i - d - length xs) v
            (omega arith)
        ∙ get_or-drop (d + length xs) dst (i - d - length xs) i v (omega arith)

  pub memcpy_lem :
      (dst : List A) (d : ℕ) (src : List A) (i n : ℕ)
      → d + n ≤ length dst
      → i + n ≤ length src
      → memcpy dst d src i n ≡ done (splice dst d (slice src i n))
  unfolding memcpy
  memcpy_lem dst d src i n hd hs = ground arith

  pub read_bytes_lem :
      (src : List A) (i n : ℕ) → i + n ≤ length src → read_bytes src i n ≡ done (slice src i n)
  unfolding read_bytes
  read_bytes_lem src i n h = ground arith

  -- Up to its end, a copy leaves what stood before it and the bytes copied.
  pub take-splice :
      (dst : List A) (d k : ℕ) (xs : List A)
      → d ≤ length dst
      → k ≡ d + length xs
      → take k (splice dst d xs) ≡ take d dst ++ xs
  unfolding splice
  take-splice dst d k xs h e =
      let m = length xs in
      take-append_right (take d dst) (xs ++ drop (d + m) dst) k m
        (omega (arith, length-take {ℓ} d dst))
      ∙ ap (λ t. take d dst ++ t)
          (take-append_right xs (drop (d + m) dst) m 0 (omega arith) ∙ append-nil xs)

  pub get_or-slice :
      (src : List A) (i n k m : ℕ) (v : A)
      → m ≡ i + k
      → k < n
      → get_or (slice src i n) k v ≡ get_or src m v
  unfolding slice
  get_or-slice src i n k m v e h = get_or-take n (drop i src) k v h ∙ get_or-drop i src k m v e

-- The three cases in one equation.
pub get_or-splice :
    {A : Type 0} (dst : List A) (d : ℕ) (xs : List A) (i : ℕ) (v : A)
    → d + length xs ≤ length dst
    → get_or (splice dst d xs) i v ≡ (
        if ltb i d
        then get_or dst i v
        else if ltb i (d + length xs)
        then get_or xs (i - d) v
        else get_or dst i v)
get_or-splice dst d xs i v fits = ground (
  arith,
  get_or-splice_before dst d xs fits v i,
  get_or-splice_inside dst d xs fits v (i - d) i,
  get_or-splice_after dst d xs fits v i,
)

pub load_lem {ℓ} :
    {A : Type ℓ} (src : List A) (i : ℕ) (d : A)
    → i < length src
    → load src i ≡ done (get_or src i d)
load_lem src i d h = rw (get_elem?-eq-get_or src i d h, load)
