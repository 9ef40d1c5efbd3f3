-- ===== src/Common/Bits.antt =====
-- Exclusive or at variables, from its digit recursion, and `&` with a mask of low bits.
use Prim.Native.Nat.{ℕ, zero, suc, ◌+◌, ◌-◌, ◌*◌, ◌/◌, ◌%◌, ◌^◌, ◌≤◌, ◌<◌, min, bit_and, bit_xor}
use Prim.Native.Nat.{digits, bitwise, bit_and-bitwise, bit_xor-bitwise, differ}
use mathlib.Core.Path.{◌≡◌, refl, ap, ◌∙◌, sym}
use native.Mathlib.Nat.{
  le_refl, pow-suc, one-le-pow, mod-lt, mod-eq_of_lt, div-add-mod, mul-add-mod_self_left, div-one,
  div-div-eq-div-mul,
}
use native.Mathlib.Omega.{arith}

module _ (low : ℕ → ℕ) (digit : ℕ → ℕ → ℕ) where
  digits-zero : (fuel b : ℕ) → digits low digit fuel 0 b ≡ low b
  digits-zero zero b = refl
  digits-zero (suc fuel) b = refl

  -- Fuel beyond the first number changes nothing.
  digits_excess :
      (excess fuel a b : ℕ)
      → a ≤ fuel
      → digits low digit (fuel + excess) a b ≡ digits low digit fuel a b
  digits_excess excess fuel zero b enough = digits-zero (fuel + excess) b ∙ sym (digits-zero fuel b)
  digits_excess excess zero (suc a) b enough = absurd (omega arith)
  digits_excess excess (suc fuel) (suc a) b enough =
      let next : suc fuel + excess ≡ suc (fuel + excess) = omega arith in
      let halves = digits_excess excess fuel (suc a / 2) (b / 2) (omega arith) in rw (next, halves)

  bitwise_halves :
      (a b : ℕ)
      → bitwise low digit (suc a) b
        ≡ bitwise low digit (suc a / 2) (b / 2) * 2 + digit (suc a % 2) (b % 2)
  bitwise_halves a b =
      let half = suc a / 2 in
      let rest : half + (a - half) ≡ a = omega arith in
      let same =
        ap (λ fuel. digits low digit fuel half (b / 2)) (sym rest)
        ∙ digits_excess (a - half) half half (b / 2) (omega arith) in
      ap (λ x. x * 2 + digit (suc a % 2) (b % 2)) same

differ_bits : (x y : ℕ) → x < 2 → y < 2 → differ x y ≡ (x + y) % 2
differ_bits zero y p q = omega arith
differ_bits (suc zero) zero p q = refl
differ_bits (suc zero) (suc zero) p q = refl
differ_bits (suc zero) (suc (suc y)) p q = absurd (omega arith)
differ_bits (suc (suc x)) y p q = absurd (omega arith)

-- The lowest digit of an exclusive or, and the others.
pub xor_step : (a b : ℕ) → bit_xor a b ≡ bit_xor (a / 2) (b / 2) * 2 + (a + b) % 2
xor_step zero b = omega (arith, bit_xor-bitwise 0 b, bit_xor-bitwise 0 (b / 2))
xor_step (suc a) b = simp bit_xor-bitwise (
    omega (
      arith,
      bitwise_halves (λ y. y) differ a b,
      differ_bits (suc a % 2) (b % 2) (omega arith) (omega arith),
    ))

pub and_step : (a b : ℕ) → bit_and a b ≡ bit_and (a / 2) (b / 2) * 2 + min (a % 2) (b % 2)
and_step zero b = simp bit_and-bitwise (omega arith)
and_step (suc a) b = simp bit_and-bitwise (bitwise_halves (λ y. 0) min a b)

pub xor-div-two : (a b : ℕ) → bit_xor a b / 2 ≡ bit_xor (a / 2) (b / 2)
xor-div-two a b = omega (arith, xor_step a b)

pub xor-mod-two : (a b : ℕ) → bit_xor a b % 2 ≡ (a + b) % 2
xor-mod-two a b = omega (arith, xor_step a b)

-- Each law goes from the halves to the numbers; `n` bounds them.
module _ where
  assoc_below :
      (n a b c : ℕ) → a ≤ n → b ≤ n → c ≤ n → bit_xor (bit_xor a b) c ≡ bit_xor a (bit_xor b c)
  assoc_below zero zero zero zero p q r = refl
  assoc_below zero (suc a) b c p q r = elim p [ ]
  assoc_below zero zero (suc b) c p q r = elim q [ ]
  assoc_below zero zero zero (suc c) p q r = elim r [ ]
  assoc_below (suc n) a b c p q r = omega (
    arith,
    xor_step (bit_xor a b) c,
    xor_step a (bit_xor b c),
    ap (λ t. bit_xor t (c / 2)) (xor-div-two a b),
    ap (λ t. bit_xor (a / 2) t) (xor-div-two b c),
    xor-mod-two a b,
    xor-mod-two b c,
    assoc_below n (a / 2) (b / 2) (c / 2) (omega arith) (omega arith) (omega arith),
  )

  comm_below : (n a b : ℕ) → a ≤ n → b ≤ n → bit_xor a b ≡ bit_xor b a
  comm_below zero zero zero p q = refl
  comm_below zero (suc a) b p q = elim p [ ]
  comm_below zero zero (suc b) p q = elim q [ ]
  comm_below (suc n) a b p q =
      omega (
        arith,
        xor_step a b,
        xor_step b a,
        comm_below n (a / 2) (b / 2) (omega arith) (omega arith),
      )

  self_below : (n a : ℕ) → a ≤ n → bit_xor a a ≡ 0
  self_below zero zero p = refl
  self_below zero (suc a) p = elim p [ ]
  self_below (suc n) a p = omega (arith, xor_step a a, self_below n (a / 2) (omega arith))

  and-zero_below : (n a : ℕ) → a ≤ n → bit_and a 0 ≡ 0
  and-zero_below zero zero p = refl
  and-zero_below zero (suc a) p = elim p [ ]
  and-zero_below (suc n) a p = omega (arith, and_step a 0, and-zero_below n (a / 2) (omega arith))

pub xor_assoc : (a b c : ℕ) → bit_xor (bit_xor a b) c ≡ bit_xor a (bit_xor b c)
xor_assoc a b c = assoc_below (a + b + c) a b c (omega arith) (omega arith) (omega arith)

pub xor_comm : (a b : ℕ) → bit_xor a b ≡ bit_xor b a
xor_comm a b = comm_below (a + b) a b (omega arith) (omega arith)

pub xor_self : (a : ℕ) → bit_xor a a ≡ 0
xor_self a = self_below a a (le_refl a)

pub zero-xor : (a : ℕ) → bit_xor 0 a ≡ a
zero-xor a = bit_xor-bitwise 0 a

pub xor-zero : (a : ℕ) → bit_xor a 0 ≡ a
xor-zero a = xor_comm a 0 ∙ zero-xor a

-- The remainder by an even number, from the remainder of the half.
mod_twice : (a m : ℕ) → 0 < m → a % (2 * m) ≡ a / 2 % m * 2 + a % 2
mod_twice a m pos =
    let q = a / 2 / m in
    let r = a / 2 % m * 2 + a % 2 in
    let small : r < 2 * m = omega (arith, mod-lt (a / 2) pos) in
    let whole : a ≡ 2 * m * q + r = omega (arith, div-add-mod (a / 2) m) in
    ap (λ t. t % (2 * m)) whole ∙ mul-add-mod_self_left (2 * m) q r ∙ mod-eq_of_lt small

-- A mask of `k` ones keeps the remainder by `2 ^ k`.
mask_below : (k a : ℕ) → bit_and a (2 ^ k - 1) ≡ a % 2 ^ k
mask_below zero a = and-zero_below a a (le_refl a) ∙ omega arith
mask_below (suc k) a =
    let twice : 2 ^ suc k ≡ 2 * 2 ^ k = omega (arith, pow-suc 2 k) in
    let pos = one-le-pow k 2 in
    let half : (2 ^ suc k - 1) / 2 ≡ 2 ^ k - 1 = omega arith in
    omega (
      arith,
      and_step a (2 ^ suc k - 1),
      ap (λ t. bit_and (a / 2) t) half,
      mask_below k (a / 2),
      mod_twice a (2 ^ k) (omega arith),
      ap (λ t. a % t) twice,
    )

pub and_mask : (k a : ℕ) → bit_and a (2 ^ k - 1) ≡ a % 2 ^ k
and_mask = mask_below

xor-lt_below : (k a b : ℕ) → a < 2 ^ k → b < 2 ^ k → bit_xor a b < 2 ^ k
xor-lt_below zero a b p q =
    let z : a ≡ 0 = omega arith in let w : b ≡ 0 = omega arith in rw (z, w) (omega arith)
xor-lt_below (suc k) a b p q = omega (
  arith,
  xor_step a b,
  pow-suc 2 k,
  xor-lt_below k (a / 2) (b / 2) (omega (arith, pow-suc 2 k)) (omega (arith, pow-suc 2 k)),
)

-- Exclusive or stays inside a width.
pub xor-lt : (k a b : ℕ) → a < 2 ^ k → b < 2 ^ k → bit_xor a b < 2 ^ k
xor-lt = xor-lt_below

pow-suc_left : (n : ℕ) → 2 ^ suc n ≡ 2 * 2 ^ n
pow-suc_left n = omega (arith, pow-suc 2 n)

pub xor-div : (n a b : ℕ) → bit_xor a b / 2 ^ n ≡ bit_xor (a / 2 ^ n) (b / 2 ^ n)
xor-div zero a b = rw (div-one (bit_xor a b), div-one a, div-one b)
xor-div (suc n) a b =
    rw (pow-suc_left n, ← div-div-eq-div-mul (bit_xor a b) 2 (2 ^ n), xor-div-two a b)
      (rw (← div-div-eq-div-mul a 2 (2 ^ n), ← div-div-eq-div-mul b 2 (2 ^ n))
        (xor-div n (a / 2) (b / 2)))

-- Equal sums with one number come from equal numbers.
pub xor_cancel : (a b c : ℕ) → bit_xor a c ≡ bit_xor b c → a ≡ b
xor_cancel a b c e = sym (undo a) ∙ ap (λ t. bit_xor t c) e ∙ undo b
  where
    undo : (x : ℕ) → bit_xor (bit_xor x c) c ≡ x
    undo x = xor_assoc x c c ∙ ap (bit_xor x) (xor_self c) ∙ xor-zero x
