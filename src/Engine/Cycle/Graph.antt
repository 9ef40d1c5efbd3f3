-- ===== src/Engine/Cycle/Graph.antt =====
-- The dependency graph: edges, walks, and orders in which every node stands behind those that it
-- depends on.
use n_igpu_macos.Common.{ℕ, ◌<◌, ◌≡◌, ◌⊎◌, inl, inr, List, [], ◌∷◌}

abbrev pub Among : ℕ → List ℕ → Type 0
Among v [] = ⊥
Among v (x ∷ xs) = (v ≡ x) ⊎ Among v xs

-- The edge from a node to one of its dependencies; a dependency out of range is none.
abbrev pub Edge : (node_count : ℕ) → (ℕ → List ℕ) → ℕ → ℕ → Type 0
Edge n deps u v = Among v (deps u) × (v < n)

-- One or more edges.
pub data Walk (n : ℕ) (deps : ℕ → List ℕ) (u : ℕ) : ℕ → Type 0 where
  one : {v : ℕ} → Edge n deps u v → Walk n deps u v
  more : {v w : ℕ} → Walk n deps u v → Edge n deps v w → Walk n deps u w

-- A stack of nodes, each reached by an edge from the one below it.
abbrev pub Chain : (node_count : ℕ) → (ℕ → List ℕ) → List ℕ → Type 0
Chain n deps [] = Unit
Chain n deps (v ∷ []) = Unit
Chain n deps (v ∷ u ∷ rest) = Edge n deps u v × Chain n deps (u ∷ rest)

-- Each node depends only on those that come behind it in the list.
abbrev pub Sorted : (node_count : ℕ) → (ℕ → List ℕ) → List ℕ → Type 0
Sorted n deps [] = Unit
Sorted n deps (u ∷ order) = ((v : ℕ) → Edge n deps u v → Among v order) × Sorted n deps order

module _ (n : ℕ) (deps : ℕ → List ℕ) where
  -- From each node of a chain there is a walk to its top.
  pub Chain-Walk :
      (v u : ℕ) (rest : List ℕ) → Chain n deps (v ∷ rest) → Among u rest → Walk n deps u v
  Chain-Walk v u [] c m = absurd m
  Chain-Walk v u (x ∷ rest) c (inl e) = one (rw e c.0)
  Chain-Walk v u (x ∷ rest) c (inr m) = more (Chain-Walk x u rest c.1 m) c.0

  kept_by_step :
      (u v : ℕ) (order : List ℕ)
      → Sorted n deps order
      → Among u order
      → Edge n deps u v
      → Among v order
  kept_by_step u v [] s m e = absurd m
  kept_by_step u v (x ∷ order) s (inl same) e = inr (s.0 v (rw same at e))
  kept_by_step u v (x ∷ order) s (inr m) e = inr (kept_by_step u v order s.1 m e)

  kept_on_path :
      (u v : ℕ) (order : List ℕ)
      → Sorted n deps order
      → Among u order
      → Walk n deps u v
      → Among v order
  kept_on_path u v order s m (one e) = kept_by_step u v order s m e
  kept_on_path u v order s m (more w e) = kept_by_step _ v order s (kept_on_path u _ order s m w) e

  -- What a walk does first.
  first_step :
      (u v : ℕ) (order : List ℕ)
      → Sorted n deps order
      → ((w : ℕ) → Edge n deps u w → Among w order)
      → Walk n deps u v
      → Among v order
  first_step u v order s f (one e) = f v e
  first_step u v order s f (more w e) = kept_by_step _ v order s (first_step u _ order s f w) e

  -- No node of a sorted list lies on a cycle.
  pub Sorted-acyclic :
      (u : ℕ) (order : List ℕ) → Sorted n deps order → Among u order → Walk n deps u u → ⊥
  Sorted-acyclic u [] s m w = m
  Sorted-acyclic u (x ∷ order) s (inl e) w =
      Sorted-acyclic u order s.1 (first_step u u order s.1 (rw (← e) at s.0) w) w
  Sorted-acyclic u (x ∷ order) s (inr m) w = Sorted-acyclic u order s.1 m w
