-- ===== src/Engine/Cycle/Walk.antt =====
-- The `while` loop: what it knows of the graph and of the stack, and how it ends.
use n_igpu_macos.Common.{
  ℕ, zero, suc, ◌+◌, ◌*◌, ◌≤◌, ◌<◌, ◌≡◌, inl, inr, refl, ap, sym, ◌∙◌, Bool, true, false, List, [],
  ◌∷◌, length, Option, some, leb, ltb, lt→ltb, Bool-cases, Exec, done, arith,
}
use n_igpu_macos.Engine.Cycle.{
  CycleState, white, gray, black, States, paint, is_white, Scan, cycle, pushed, finished, look,
  scan, walk,
}
use n_igpu_macos.Engine.Cycle.Graph.{Among, Edge, Walk, one, more, Chain, Sorted, Chain-Walk}
use n_igpu_macos.Engine.Cycle.Whites.{paint-cases, whites, whites-paint, whites-paint_less}

module _ (n : ℕ) (s : States) where
  -- What the loop over the dependencies says of them.
  data ScannedAs (deps : List ℕ) (found : Scan) : Type 0 where
    meets : (v : ℕ) → Among v deps → v < n → s v ≡ gray → found ≡ cycle → ScannedAs deps found
    reaches : (v : ℕ) → Among v deps → v < n → s v ≡ white → found ≡ pushed v → ScannedAs deps found
    ends : ((v : ℕ) → Among v deps → v < n → s v ≡ black) → found ≡ finished → ScannedAs deps found

  later :
      (d : ℕ) (deps : List ℕ) (found : Scan)
      → (d < n → s d ≡ black)
      → ScannedAs deps found
      → ScannedAs (d ∷ deps) found
  later d deps found first (meets v m h e eq) = meets v (inr m) h e eq
  later d deps found first (reaches v m h e eq) = reaches v (inr m) h e eq
  later d deps found first (ends f eq) = ends all eq
    where
      all : (v : ℕ) → Among v (d ∷ deps) → v < n → s v ≡ black
      all v (inl same) h = rw same (first (rw same at h))
      all v (inr m) h = f v m h

  look-ScannedAs :
      (d : ℕ) (deps : List ℕ) (rest : Scan) (c : CycleState)
      → s d ≡ c
      → d < n
      → ScannedAs deps rest
      → ScannedAs (d ∷ deps) (look c d rest)
  look-ScannedAs d deps rest white e h r = reaches d (inl refl) h e refl
  look-ScannedAs d deps rest gray e h r = meets d (inl refl) h e refl
  look-ScannedAs d deps rest black e h r = later d deps rest (λ _. e) r

  scan-ScannedAs : (deps : List ℕ) → ScannedAs deps (scan n s deps)
  unfolding scan
  scan-ScannedAs [] = ends (λ v m h. absurd m) refl
  scan-ScannedAs (d ∷ deps) = elim (Bool-cases (leb n d)) [
    | inl out ↦
        rw out (later d deps (scan n s deps) (λ h. absurd (ground arith)) (scan-ScannedAs deps))
    | inr here ↦
        rw here
          (look-ScannedAs d deps (scan n s deps) (s d) refl (ground arith) (scan-ScannedAs deps))
  ]

module _ (n : ℕ) (deps : ℕ → List ℕ) where
  -- What holds each time round: the gray nodes are on the stack, which is a chain; the black ones are
  -- in an order in which they come before what they depend on; the stack and the white nodes are no
  -- more than the nodes.
  pub record Knows (s : States) (stack order : List ℕ) : Type 0 where
    pub chain : Chain n deps stack
    pub grays : (v : ℕ) → v < n → s v ≡ gray → Among v stack
    pub blacks : (v : ℕ) → v < n → s v ≡ black → Among v order
    pub sorted : Sorted n deps order
    pub room : length stack + whites n s ≤ n

  -- A node that is not white stays so.
  abbrev pub Keeps : States → States → Type 0
  Keeps s s' = (v : ℕ) → is_white (s v) ≡ false → is_white (s' v) ≡ false

  -- How the loop ends: with a walk from a node to itself, or with an empty stack.
  pub data WalkedAs (s : States) (step : Exec (Option (States × Bool))) : Type 0 where
    found :
        (s' : States) (v : ℕ) → Walk n deps v v → step ≡ done (some (s', true)) → WalkedAs s step
    empties :
        (s' : States) (order : List ℕ)
        → Knows s' [] order
        → Keeps s s'
        → step ≡ done (some (s', false))
        → WalkedAs s step

  Keeps-paint : (s : States) (u : ℕ) (c : CycleState) → is_white c ≡ false → Keeps s (paint s u c)
  Keeps-paint s u c color v h = elim (paint-cases s u v c) [
    | inl (_, e) ↦ ap is_white e ∙ color
    | inr (_, e) ↦ ap is_white e ∙ h
  ]

  -- The top of the stack depends on black nodes only: it is black next.
  Knows-pop :
      (s : States) (u : ℕ) (rest order : List ℕ)
      → Knows s (u ∷ rest) order
      → ((v : ℕ) → Edge n deps u v → s v ≡ black)
      → Knows (paint s u black) rest (u ∷ order)
  Knows-pop s u rest order k all = record {
    chain = tail rest k.chain;
    grays = grays';
    blacks = blacks';
    sorted = ((λ v e. k.blacks v e.1 (all v e)), k.sorted);
    room = omega (arith, k.room, whites-paint s u black refl n);
  }
    where
      tail : (rest : List ℕ) → Chain n deps (u ∷ rest) → Chain n deps rest
      tail [] c = tt
      tail (x ∷ rest) c = c.1

      grays' : (v : ℕ) → v < n → paint s u black v ≡ gray → Among v rest
      grays' v h g = elim (paint-cases s u v black) [
        | inl (_, e) ↦ absurd (let b : black ≡ gray = sym e ∙ g in cc)
        | inr (other, e) ↦ elim (k.grays v h (sym e ∙ g)) [
          | inl same ↦ absurd (other same)
          | inr m ↦ m
        ]
      ]

      blacks' : (v : ℕ) → v < n → paint s u black v ≡ black → Among v (u ∷ order)
      blacks' v h b = elim (paint-cases s u v black) [
        | inl (same, _) ↦ inl same
        | inr (_, e) ↦ inr (k.blacks v h (sym e ∙ b))
      ]

  -- A white dependency of the top goes on the stack.
  Knows-push :
      (s : States) (u v : ℕ) (rest order : List ℕ)
      → Knows s (u ∷ rest) order
      → Edge n deps u v
      → s v ≡ white
      → Knows (paint s v gray) (v ∷ u ∷ rest) order
  Knows-push s u v rest order k edge fresh = record {
    chain = (edge, k.chain);
    grays = grays';
    blacks = blacks';
    sorted = k.sorted;
    room = omega (arith, k.room, whites-paint_less s v gray refl n edge.1 fresh);
  }
    where
      grays' : (w : ℕ) → w < n → paint s v gray w ≡ gray → Among w (v ∷ u ∷ rest)
      grays' w h g = elim (paint-cases s v w gray) [
        | inl (same, _) ↦ inl same
        | inr (_, e) ↦ inr (k.grays w h (sym e ∙ g))
      ]

      blacks' : (w : ℕ) → w < n → paint s v gray w ≡ black → Among w order
      blacks' w h b = elim (paint-cases s v w gray) [
        | inl (_, e) ↦ absurd (let g : gray ≡ black = sym e ∙ b in cc)
        | inr (_, e) ↦ k.blacks w h (sym e ∙ b)
      ]

  -- A gray dependency of the top closes a walk.
  closes :
      (u v : ℕ) (rest : List ℕ)
      → Chain n deps (u ∷ rest)
      → Edge n deps u v
      → Among v (u ∷ rest)
      → Walk n deps v v
  closes u v rest c e (inl same) = one (rw (← same) at e)
  closes u v rest c e (inr m) = more (Chain-Walk n deps u v rest c m) e

  after :
      (s s' : States) (step : Exec (Option (States × Bool)))
      → Keeps s s'
      → WalkedAs s' step
      → WalkedAs s step
  after s s' step keeps (found t v w eq) = found t v w eq
  after s s' step keeps (empties t order k keeps' eq) =
      empties t order k (λ v h. keeps' v (keeps v h)) eq

  pub walk-WalkedAs :
      (fuel : ℕ) (s : States) (stack order : List ℕ)
      → n ≤ 256
      → Knows s stack order
      → 2 * whites n s + length stack < fuel
      → WalkedAs s (walk fuel n deps s stack)
  unfolding walk
  walk-WalkedAs zero s stack order small k enough = absurd (omega arith)
  walk-WalkedAs (suc fuel) s [] order small k enough = empties s order k (λ v h. h) refl
  walk-WalkedAs (suc fuel) s (u ∷ rest) order small k enough = elim (scan-ScannedAs n s (deps u)) [
    | meets v m h e eq ↦
        found (paint s u black) v (closes u v rest k.chain (m, h) (k.grays v h e))
          (rw (eq, walk) refl)
    | reaches v m h e eq ↦
        let k' = Knows-push s u v rest order k (m, h) e in
        let fewer = whites-paint_less s v gray refl n h e in
        let fits : ltb (length (u ∷ rest)) 256 ≡ true =
          lt→ltb (length (u ∷ rest)) 256 (omega (arith, k'.room)) in
        rw (eq, fits, walk)
          (after s (paint s v gray) (walk fuel n deps (paint s v gray) (v ∷ u ∷ rest))
            (Keeps-paint s v gray refl)
            (walk-WalkedAs fuel (paint s v gray) (v ∷ u ∷ rest) order small k' (omega arith)))
    | ends all eq ↦
        let k' = Knows-pop s u rest order k (λ v e. all v e.0 e.1) in
        let fewer = whites-paint s u black refl n in
        rw (eq, walk)
          (after s (paint s u black) (walk fuel n deps (paint s u black) rest)
            (Keeps-paint s u black refl)
            (walk-WalkedAs fuel (paint s u black) rest (u ∷ order) small k' (omega arith)))
  ]
