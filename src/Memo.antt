-- ===== src/Memo.antt =====
-- What the shader cache promises: a direct-mapped memo of 256 places, which answers a request with
-- the bytes last kept under the same hash, tag and length, unless another hash took the place.
use n_igpu_macos.Common.{
  ℕ, ◌%◌, Bool, ◌&&◌, Option, none, some, List, [], ◌∷◌, if◌then◌else◌, ◌==◌, ◌||◌, ltb, length,
}

pub record Key : Type 0 where
  pub hash : ℕ
  pub tag : ℕ
  pub len : ℕ

-- What a place holds, if anything.
abbrev pub Memo : Type 0
Memo = ℕ → Option (Key × List ℕ)

abbrev pub same_key : Key → Key → Bool
same_key a b = a.hash == b.hash && (a.tag == b.tag && a.len == b.len)

abbrev pub put : Memo → ℕ → Option (Key × List ℕ) → Memo
put m i x = λ j. if j == i then x else m j

abbrev pub matching : Key → Option (Key × List ℕ) → Option (List ℕ)
matching k none = none
matching k (some (k', bytes)) = if same_key k' k then some bytes else none

-- `alloc_ok` is whether the memory for a copy can be had: without it a request is not answered, and
-- an offer only clears the place. An offer of no bytes, or of more than 64 KB, is ignored.
pub data Request : Type 0 where
  ask : (alloc_ok : Bool) → Key → Request
  keep : (alloc_ok : Bool) → Key → List ℕ → Request
  wipe : Request

unfoldable pub answer : Memo → Request → Memo × Option (List ℕ)
answer m (ask alloc_ok k) = (m, if alloc_ok then matching k (m (k.hash % 256)) else none)
answer m (keep alloc_ok k bytes) =
    if length bytes == 0 || ltb 65536 (length bytes)
    then (m, none)
    else (put m (k.hash % 256) (if alloc_ok then some (k, bytes) else none), none)
answer m wipe = (λ i. none, none)

unfoldable pub session : Memo → List Request → List (Option (List ℕ))
session m [] = []
session m (r ∷ rs) = let (m', reply) = answer m r in reply ∷ session m' rs
