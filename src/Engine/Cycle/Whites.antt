-- ===== src/Engine/Cycle/Whites.antt =====
-- The states of the nodes under painting, and how many nodes are white.
use n_igpu_macos.Common.{
  ℕ, zero, suc, ◌+◌, ◌≤◌, ◌<◌, ◌≡◌, ◌≢◌, ◌⊎◌, inl, inr, refl, ap, ◌∙◌, ◌==◌, ==_iff, eq→==, ne→==,
  Bool-cases, arith,
}
use n_igpu_macos.Engine.Cycle.{CycleState, white, gray, black, States, paint}

pub paint_self : (s : States) (u : ℕ) (c : CycleState) → paint s u c u ≡ c
paint_self s u c = rw (eq→== u u refl) refl

pub paint_ne : (s : States) (u v : ℕ) (c : CycleState) → v ≢ u → paint s u c v ≡ s v
paint_ne s u v c h = rw (ne→== v u h) refl

-- A painted node is the one painted, with its new state, or another, with its old one.
pub paint-cases :
    (s : States) (u v : ℕ) (c : CycleState)
    → ((v ≡ u) × (paint s u c v ≡ c)) ⊎ ((v ≢ u) × (paint s u c v ≡ s v))
paint-cases s u v c = elim (Bool-cases (v == u)) [
  | inl e ↦ inl ((==_iff v u).0 e, rw e refl)
  | inr e ↦ inr (λ same. let t = eq→== v u same in cc, rw e refl)
]

abbrev tally : CycleState → ℕ
tally white = 1
tally gray = 0
tally black = 0

-- The white nodes below a number.
abbrev pub whites : ℕ → States → ℕ
whites zero s = 0
whites (suc n) s = tally (s n) + whites n s

tally_bound : (c : CycleState) → tally c ≤ 1
tally_bound white = omega arith
tally_bound gray = omega arith
tally_bound black = omega arith

pub whites_bound : (n : ℕ) (s : States) → whites n s ≤ n
whites_bound zero s = omega arith
whites_bound (suc n) s = omega (arith, whites_bound n s, tally_bound (s n))

module _ (s : States) (u : ℕ) (c : CycleState) (color : tally c ≡ 0) where
  tally-paint : (v : ℕ) → tally (paint s u c v) ≤ tally (s v)
  tally-paint v = elim (paint-cases s u v c) [
    | inl (_, e) ↦ rw (e, color) (omega arith)
    | inr (_, e) ↦ rw e (omega arith)
  ]

  -- A node that is painted is no more white than it was.
  pub whites-paint : (n : ℕ) → whites n (paint s u c) ≤ whites n s
  whites-paint zero = omega arith
  whites-paint (suc n) = omega (arith, whites-paint n, tally-paint n)

  -- A white node that is painted is one white node less.
  pub whites-paint_less : (n : ℕ) → u < n → s u ≡ white → whites n (paint s u c) + 1 ≤ whites n s
  whites-paint_less zero h w = absurd (omega arith)
  whites-paint_less (suc n) h w = elim (paint-cases s u n c) [
    | inl (same, e) ↦
        let was : tally (s n) ≡ 1 = ap (λ x. tally (s x)) same ∙ ap tally w in
        let is : tally (paint s u c n) ≡ 0 = ap tally e ∙ color in omega (arith, whites-paint n)
    | inr (differ, e) ↦
        let is : tally (paint s u c n) ≡ tally (s n) = ap tally e in
        omega (arith, whites-paint_less n (omega arith) w)
  ]
