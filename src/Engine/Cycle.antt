-- ===== src/Engine/Cycle.antt =====
-- NtelSpoofKext/src/NtelTranslationEngine.c: `detect_cycle_dfs`, with its stack of 256 nodes. An array
-- is a function of the index; `deps[u]` and `dep_counts[u]` are a list. A push beyond the stack is a
-- fault.
pub mod Graph
pub mod Whites
pub mod Walk
pub mod Detect
use n_igpu_macos.Common.{
  ℕ, zero, suc, ◌+◌, ◌*◌, Bool, true, false, Option, none, some, List, [], ◌∷◌, if◌then◌else◌, ltb,
  leb, ◌==◌, length, Exec, done, fault, ◌>>=◌,
}

-- `NtelCycleState`
pub data CycleState : Type 0 where
  white gray black : CycleState

abbrev pub States : Type 0
States = ℕ → CycleState

abbrev pub paint : States → ℕ → CycleState → States
paint states u color = λ v. if v == u then color else states v

abbrev pub is_white : CycleState → Bool
is_white white = true
is_white gray = false
is_white black = false

-- What the loop over the dependencies of a node ends with.
pub data Scan : Type 0 where
  cycle : Scan
  pushed : ℕ → Scan
  finished : Scan

abbrev pub look : CycleState → ℕ → Scan → Scan
look white dep rest = pushed dep
look gray dep rest = cycle
look black dep rest = rest

-- The loop over the dependencies.
unfoldable pub scan : (node_count : ℕ) → States → List ℕ → Scan
scan n states [] = finished
scan n states (dep ∷ deps) =
    let rest = scan n states deps in if leb n dep then rest else look (states dep) dep rest

-- The `while` loop, with the top of the stack first; the Boolean is `has_cycle`, and `none` is a loop
-- that the fuel does not finish.
unfoldable pub walk :
    (fuel node_count : ℕ) → (ℕ → List ℕ) → States → List ℕ → Exec (Option (States × Bool))
walk zero n deps states stack = done none
walk (suc fuel) n deps states [] = done (some (states, false))
walk (suc fuel) n deps states (current ∷ rest) = elim (scan n states (deps current)) [
  | cycle ↦ done (some (paint states current black, true))
  | finished ↦ walk fuel n deps (paint states current black) rest
  | pushed dep ↦ elim (ltb (length (current ∷ rest)) 256) [
    | false ↦ fault
    | true ↦ walk fuel n deps (paint states dep gray) (dep ∷ current ∷ rest)
  ]
]

-- The `for` loop over the nodes, from `start` on with `left` to go.
unfoldable pub search :
    (fuel node_count : ℕ) → (ℕ → List ℕ) → (left start : ℕ) → States → Exec (Option (States × Bool))
unfolding walk
search fuel n deps zero start states = done (some (states, false))
search fuel n deps (suc left) start states = elim (is_white (states start)) [
  | false ↦ search fuel n deps left (start + 1) states
  | true ↦ do
    walked ← walk fuel n deps (paint states start gray) (start ∷ [])
    elim walked [
      | none ↦ done none
      | some (states', true) ↦ done (some (states', true))
      | some (states', false) ↦ search fuel n deps left (start + 1) states'
    ]
]

-- `detect_cycle_dfs`: the states that it leaves, and its result.
unfoldable pub detect_cycle_dfs :
    (fuel : ℕ)
    → Option States
    → (node_count : ℕ) → Option (ℕ → List ℕ)
    → Exec (Option (Option States × Bool))
unfolding search
detect_cycle_dfs fuel none n deps = done (some (none, false))
detect_cycle_dfs fuel (some states) n none = done (some (some states, false))
detect_cycle_dfs fuel (some states) n (some deps) = do
  searched ← search fuel n deps n 0 states
  elim searched [ none ↦ done none | some (states', found) ↦ done (some (some states', found)) ]
