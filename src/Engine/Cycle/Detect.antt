-- ===== src/Engine/Cycle/Detect.antt =====
-- `detect_cycle_dfs` decides whether the dependency graph has a cycle.
use n_igpu_macos.Common.{
  ℕ, zero, suc, ◌+◌, ◌*◌, ◌≤◌, ◌<◌, ◌≡◌, ◌⊎◌, inl, inr, refl, ap, sym, ◌∙◌, Bool, true, false, List,
  [], ◌∷◌, Option, some, Bool-cases, ◌==◌, ==_iff, Exec, done, arith,
}
use n_igpu_macos.Engine.Cycle.{
  CycleState, white, gray, black, States, paint, is_white, search, detect_cycle_dfs,
}
use n_igpu_macos.Engine.Cycle.Graph.{Among, Walk, Sorted-acyclic}
use n_igpu_macos.Engine.Cycle.Whites.{paint-cases, whites_bound, whites-paint_less}
use n_igpu_macos.Engine.Cycle.Walk.{Knows, Keeps, found, empties, walk-WalkedAs}

white_of : (c : CycleState) → is_white c ≡ true → c ≡ white
white_of white e = refl
white_of gray e = cc
white_of black e = cc

settled : (c : CycleState) → is_white c ≡ false → (c ≡ gray) ⊎ (c ≡ black)
settled white e = cc
settled gray e = inl refl
settled black e = inr refl

module _ (n : ℕ) (deps : ℕ → List ℕ) where
  -- How the search over the nodes ends.
  data SearchedAs (step : Exec (Option (States × Bool))) : Type 0 where
    finds :
        (s' : States) (v : ℕ) → Walk n deps v v → step ≡ done (some (s', true)) → SearchedAs step
    clears :
        (s' : States)
        → ((v : ℕ) → v < n → Walk n deps v v → ⊥)
        → step ≡ done (some (s', false))
        → SearchedAs step

  -- The nodes before a number are not white.
  abbrev Seen : States → ℕ → Type 0
  Seen s start = (v : ℕ) → v < start → is_white (s v) ≡ false

  Knows-start :
      (s : States) (start : ℕ) (order : List ℕ)
      → Knows n deps s [] order
      → start < n
      → s start ≡ white
      → Knows n deps (paint s start gray) (start ∷ []) order
  Knows-start s start order k h fresh = record {
    chain = tt;
    grays = grays';
    blacks = blacks';
    sorted = k.sorted;
    room = omega (arith, k.room, whites-paint_less s start gray refl n h fresh);
  }
    where
      grays' : (w : ℕ) → w < n → paint s start gray w ≡ gray → Among w (start ∷ [])
      grays' w h g = elim (paint-cases s start w gray) [
        | inl (same, _) ↦ inl same
        | inr (_, e) ↦ inr (k.grays w h (sym e ∙ g))
      ]

      blacks' : (w : ℕ) → w < n → paint s start gray w ≡ black → Among w order
      blacks' w h b = elim (paint-cases s start w gray) [
        | inl (_, e) ↦ absurd (let g : gray ≡ black = sym e ∙ b in cc)
        | inr (_, e) ↦ k.blacks w h (sym e ∙ b)
      ]

  Seen-suc :
      (s : States) (start : ℕ) → Seen s start → is_white (s start) ≡ false → Seen s (start + 1)
  Seen-suc s start seen here v h = elim (Bool-cases (v == start)) [
    | inl e ↦ let same = (==_iff v start).0 e in rw same here
    | inr e ↦ seen v (ground arith)
  ]

  -- An empty stack and no white node: every node is black, and stands in the order.
  acyclic :
      (s : States) (order : List ℕ)
      → Knows n deps s [] order
      → Seen s n
      → (v : ℕ) → v < n
      → Walk n deps v v
      → ⊥
  acyclic s order k seen v h w = elim (settled (s v) (seen v h)) [
    | inl g ↦ k.grays v h g
    | inr b ↦ Sorted-acyclic n deps v order k.sorted (k.blacks v h b) w
  ]

  search-SearchedAs :
      (fuel left start : ℕ) (s : States) (order : List ℕ)
      → n ≤ 256
      → 2 * n < fuel
      → start + left ≡ n
      → Knows n deps s [] order
      → Seen s start
      → SearchedAs (search fuel n deps left start s)
  unfolding search
  search-SearchedAs fuel zero start s order small enough end k seen =
      let all : start ≡ n = omega arith in clears s (acyclic s order k (rw all at seen)) refl
  search-SearchedAs fuel (suc left) start s order small enough end k seen =
      elim (Bool-cases (is_white (s start))) [
        | inr other ↦
            rw (search, other)
              (search-SearchedAs fuel left (start + 1) s order small enough (omega arith) k
                (Seen-suc s start seen other))
        | inl hit ↦
            let fresh = white_of (s start) hit in
            let k' = Knows-start s start order k (omega arith) fresh in
            let s1 = paint s start gray in
            let less = whites-paint_less s start gray refl n (omega arith) fresh in
            let bound = whites_bound n s in
            elim (walk-WalkedAs n deps fuel s1 (start ∷ []) order small k' (omega arith)) [
              | found s' v w eq ↦ finds s' v w (rw (search, hit, eq) refl)
              | empties s' order' k'' keeps eq ↦
                  rw (search, hit, eq)
                    (search-SearchedAs fuel left (start + 1) s' order' small enough (omega arith)
                      k'' (seen' s' keeps))
            ]
      ]
    where
      seen' : (s' : States) → Keeps n deps (paint s start gray) s' → Seen s' (start + 1)
      seen' s' keeps v h = keeps v (elim (paint-cases s start v gray) [
        | inl (_, e) ↦ ap is_white e
        | inr (other, e) ↦ ap is_white e ∙ seen v (omega arith)
      ])

-- On at most 256 nodes, all of them white, and with fuel for more than two rounds for each node:
-- `detect_cycle_dfs` ends without a push beyond its stack. It answers `true` only if some node
-- reaches itself along dependencies in range, and `false` only if none does.
pub detect_cycle_dfs_decides :
    (fuel node_count : ℕ) (deps : ℕ → List ℕ) (states : States)
    → node_count ≤ 256
    → 2 * node_count < fuel
    → ((v : ℕ) → v < node_count → states v ≡ white)
    → (states' : States) × (answer : Bool) × (detect_cycle_dfs fuel
          (some states)
          node_count
          (some deps)
        ≡ done (some (some states', answer)))
      × (((answer ≡ true) × (v : ℕ) × Walk node_count deps v v)
          ⊎ ((answer ≡ false) × ((v : ℕ) → v < node_count → Walk node_count deps v v → ⊥)))
unfolding detect_cycle_dfs
detect_cycle_dfs_decides fuel n deps s small enough fresh =
    elim (search-SearchedAs n deps fuel n 0 s [] small enough (omega arith) blank none_seen) [
      | finds s' v w eq ↦ (s', true, rw eq refl, inl (refl, v, w))
      | clears s' none_loops eq ↦ (s', false, rw eq refl, inr (refl, none_loops))
    ]
  where
    blank : Knows n deps s [] []
    blank = record {
      chain = tt;
      grays = λ v h g. let w = fresh v h in let e : gray ≡ white = sym g ∙ w in cc;
      blacks = λ v h b. let w = fresh v h in let e : black ≡ white = sym b ∙ w in cc;
      sorted = tt;
      room = omega (arith, whites_bound n s);
    }

    none_seen : Seen n deps s 0
    none_seen v h = absurd (omega arith)
