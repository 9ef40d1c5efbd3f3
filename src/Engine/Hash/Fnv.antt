-- ===== src/Engine/Hash/Fnv.antt =====
-- The shader hash: its range, and what it tells apart.
use n_igpu_macos.Common.{
  ℕ, ◌*◌, ◌^◌, ◌<◌, ◌≡◌, ◌∙◌, refl, sym, ap, List, [], ◌∷◌, ◌++◌, xor-lt, xor_cancel, xor_comm, u64,
  IsBytes, arith,
}
use n_igpu_macos.Engine.Hash.{hash_round, hash_from, shader_hash}

hash_round-lt : (h x : ℕ) → hash_round h x < 2 ^ 64
unfolding hash_round
hash_round-lt h x = omega arith

hash_from-lt : (h : ℕ) (bytes : List ℕ) → h < 2 ^ 64 → hash_from h bytes < 2 ^ 64
unfolding hash_from
hash_from-lt h [] p = p
hash_from-lt h (x ∷ xs) p = hash_from-lt (hash_round h x) xs (hash_round-lt h x)

-- The prime has an inverse modulo 2 ^ 64, so a product by it determines the factor.
product_injective :
    (a b : ℕ) → a < 2 ^ 64 → b < 2 ^ 64 → u64 (a * 0x100000001b3) ≡ u64 (b * 0x100000001b3) → a ≡ b
product_injective a b p q e = omega (arith, ap (λ (t : ℕ). t * 0xce965057aff6957b) e)

-- A round determines the hash that it started from, and the byte that it took.
hash_round-injective :
    (g h x : ℕ) → g < 2 ^ 64 → h < 2 ^ 64 → x < 256 → hash_round g x ≡ hash_round h x → g ≡ h
unfolding hash_round
hash_round-injective g h x p q r e =
    xor_cancel g h x
      (product_injective _ _ (xor-lt 64 g x p (omega arith)) (xor-lt 64 h x q (omega arith)) e)

hash_round-byte_injective :
    (h x y : ℕ) → h < 2 ^ 64 → x < 256 → y < 256 → hash_round h x ≡ hash_round h y → x ≡ y
unfolding hash_round
hash_round-byte_injective h x y p q r e = xor_cancel x y h (
    xor_comm x h
    ∙ product_injective _ _ (xor-lt 64 h x p (omega arith)) (xor-lt 64 h y p (omega arith)) e
    ∙ xor_comm h y)

hash_from-injective :
    (g h : ℕ) (bytes : List ℕ)
    → g < 2 ^ 64
    → h < 2 ^ 64
    → IsBytes bytes
    → hash_from g bytes ≡ hash_from h bytes
    → g ≡ h
unfolding hash_from
hash_from-injective g h [] p q r e = e
hash_from-injective g h (x ∷ xs) p q r e = hash_round-injective g h x p q r.0 (
    hash_from-injective (hash_round g x) (hash_round h x) xs (hash_round-lt g x) (hash_round-lt h x)
      r.1 e)

hash_from-append : (h : ℕ) (xs ys : List ℕ) → hash_from h (xs ++ ys) ≡ hash_from (hash_from h xs) ys
unfolding hash_from
hash_from-append h [] ys = refl
hash_from-append h (x ∷ xs) ys = hash_from-append (hash_round h x) xs ys

-- `ntel_shader_hash` is a 64-bit number, and two packets that differ in one byte at most have the
-- same hash only if that byte is the same: a change of a single byte is always seen.
pub shader_hash_sees_byte :
    (before after : List ℕ) (x y : ℕ)
    → x < 256
    → y < 256
    → IsBytes after
    → shader_hash (before ++ x ∷ after) ≡ shader_hash (before ++ y ∷ after)
    → (shader_hash (before ++ x ∷ after) < 2 ^ 64) × (x ≡ y)
unfolding shader_hash hash_from
shader_hash_sees_byte before after x y p q r e = (
  hash_from-lt _ (before ++ x ∷ after) (omega arith),
  hash_round-byte_injective h x y h-lt p q (
      hash_from-injective (hash_round h x) (hash_round h y) after (hash_round-lt h x)
        (hash_round-lt h y) r same),
)
  where
    h : ℕ
    h = hash_from 0xcbf29ce484222325 before

    h-lt : h < 2 ^ 64
    h-lt = hash_from-lt 0xcbf29ce484222325 before (omega arith)

    same : hash_from (hash_round h x) after ≡ hash_from (hash_round h y) after
    same =
        sym (hash_from-append 0xcbf29ce484222325 before (x ∷ after))
        ∙ e
        ∙ hash_from-append 0xcbf29ce484222325 before (y ∷ after)
