-- ===== src/Common/Memory.antt =====
-- Blocks of memory as lists of bytes. An access out of range is a `fault`, which C leaves
-- undefined: a theorem that code ends in `done` says that it stays inside its blocks.
use Prim.Native.Nat.{ℕ, ◌+◌}
use mathlib.Core.Bool.{◌&&◌}
use mathlib.Core.Option.{none, some}
use mathlib.Core.List.{List, ◌++◌}
use n_igpu_macos.Common.Tests.{leb, if◌then◌else◌}
use n_igpu_macos.Common.Lists.{length, take, drop, get_elem?}

pub data Exec {ℓ} (A : Type ℓ) : Type ℓ where
  done : A → Exec A
  fault : Exec A

infixl 5 ◌>>=◌
abbrev pub ◌>>=◌ {ℓ κ} : {A : Type ℓ} {B : Type κ} → Exec A → (A → Exec B) → Exec B
done a >>= f = f a
fault >>= f = fault

-- The bytes `src[i .. i + n)`.
unfoldable pub slice {ℓ} : {A : Type ℓ} → List A → ℕ → ℕ → List A
slice src i n = take n (drop i src)

-- `dst` with `xs` in place of what stood at `d`.
unfoldable pub splice {ℓ} : {A : Type ℓ} → List A → ℕ → List A → List A
splice dst d xs = take d dst ++ (xs ++ drop (d + length xs) dst)

-- `p[i]`
abbrev pub load {ℓ} : {A : Type ℓ} → List A → ℕ → Exec A
load src i = elim (get_elem? src i) [ none ↦ fault | some x ↦ done x ]

-- `memcpy(out, src + i, n)` into a fresh block of `n` bytes
unfoldable pub read_bytes {ℓ} : {A : Type ℓ} → List A → ℕ → ℕ → Exec (List A)
unfolding slice
read_bytes src i n = if leb (i + n) (length src) then done (slice src i n) else fault

-- `memcpy(dst + d, src + i, n)`; the blocks do not overlap
unfoldable pub memcpy {ℓ} : {A : Type ℓ} → List A → ℕ → List A → ℕ → ℕ → Exec (List A)
unfolding slice splice
memcpy dst d src i n =
    if leb (d + n) (length dst) && leb (i + n) (length src)
    then done (splice dst d (slice src i n))
    else fault
