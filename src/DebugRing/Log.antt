-- ===== src/DebugRing/Log.antt =====
-- The flight recorder against its log: the list of all the events appended.
use n_igpu_macos.Common.{
  ℕ, zero, suc, ◌+◌, ◌-◌, ◌≤◌, ◌<◌, ◌^◌, ◌≡◌, ◌≢◌, ◌∙◌, refl, ap, inl, inr, true, some, List, [],
  ◌∷◌, if◌then◌else◌, ltb, leb, ◌==◌, ◌||◌, ==_iff, ne→==, Bool-cases, u32, sub32, length, get_or,
  min, arith,
}
use n_igpu_macos.DebugRing.{
  Event, DebugRecord, DebugRing, zero_event, slot, zero_record, init, append, read_from, read,
  snapshot,
}

-- The record of the event that was number `j` of the log.
abbrev pub entry : List Event → ℕ → DebugRecord
entry log j = record { event = get_or log j zero_event; sequence = j }

-- The records of `n` events of the log, from number `start` on.
abbrev pub entries : List Event → (n start : ℕ) → List DebugRecord
entries log zero start = []
entries log (suc n) start = entry log start ∷ entries log n (start + 1)

-- The appends of a list of events, in order.
pub append_all : DebugRing → List Event → DebugRing
append_all ring [] = ring
append_all ring (e ∷ es) = append_all (append ring e) es

-- The ring stands after the first `n` events of the log: it holds the last 1024 of them.
pub record IsAt (log : List Event) (n : ℕ) (ring : DebugRing) : Type 0 where
  pub counts : ring.write_index ≡ n
  pub keeps : (j : ℕ) → j < n → n ≤ j + 1024 → ring.records (slot j) ≡ entry log j

pub append-IsAt :
    (log : List Event) (n : ℕ) (ring : DebugRing) (e : Event)
    → IsAt log n ring
    → n + 1 < 2 ^ 32
    → e ≡ get_or log n zero_event
    → IsAt log (n + 1) (append ring e)
unfolding append
append-IsAt log n ring e at small this = record {
  counts = rw at.counts (omega arith);
  keeps = λ j below recent. elim (Bool-cases (j == n)) [
    | inl last ↦
        let last' : j ≡ n = (==_iff j n).0 last in rw (last', at.counts, this) (ground arith)
    | inr before ↦
        let differs : j ≢ n = ground arith in
        let other : slot j ≢ slot n = omega arith in
        rw (at.counts, ne→== (slot j) (slot n) other) (at.keeps j (omega arith) (omega arith))
  ];
}

append_all-IsAt :
    (log es : List Event) (n : ℕ) (ring : DebugRing)
    → IsAt log n ring
    → n + length es < 2 ^ 32
    → ((i : ℕ) → i < length es → get_or es i zero_event ≡ get_or log (n + i) zero_event)
    → IsAt log (n + length es) (append_all ring es)
unfolding append_all
append_all-IsAt log [] n ring at small rest =
    let same : n + length {A = Event} [] ≡ n = omega arith in rw same at
append_all-IsAt log (e ∷ es) n ring at small rest =
    let first : n + 0 ≡ n = omega arith in
    let next =
      append-IsAt log n ring e at (omega arith)
        (rest 0 (omega arith) ∙ ap (λ k. get_or log k zero_event) first) in
    let shift : n + 1 + length es ≡ n + suc (length es) = omega arith in
    rw⁻¹ shift (
      append_all-IsAt log es (n + 1) (append ring e) next (omega arith) λ i h.
        let over : n + suc i ≡ n + 1 + i = omega arith in
        rest (suc i) (omega arith) ∙ ap (λ k. get_or log k zero_event) over)

read_from-entries :
    (log : List Event) (n left i : ℕ) (ring : DebugRing) (start : ℕ)
    → IsAt log n ring
    → n < 2 ^ 32
    → start + i + left ≤ n
    → n ≤ start + i + 1024
    → read_from left i ring start ≡ entries log left (start + i)
unfolding read_from
read_from-entries log n zero i ring start at small below recent = refl
read_from-entries log n (suc left) i ring start at small below recent =
    let whole : u32 (start + i) ≡ start + i = omega arith in
    let next : start + (i + 1) ≡ start + i + 1 = omega arith in
    rw (
      whole,
      at.keeps (start + i) (omega arith) (omega arith),
      read_from-entries log n left (i + 1) ring start at small (omega arith) (omega arith),
      next,
    )

-- A read of a ring that stands after `n` events.
pub IsAt-read :
    (log : List Event) (n : ℕ) (ring : DebugRing) (start count : ℕ)
    → IsAt log n ring
    → n < 2 ^ 32
    → start ≤ n
    → n ≤ start + 1024
    → read (some ring) true start count ≡ entries log (min count (n - start)) start
unfolding read
IsAt-read log n ring start count at small inside recent =
    elim (Bool-cases (count == 0 || leb n start)) [
      | inl empty ↦
          let none_left : min count (n - start) ≡ 0 = ground arith in
          rw (at.counts, empty, none_left) refl
      | inr more ↦
          let left : sub32 n start ≡ n - start = omega arith in
          let m : (if ltb count (n - start) then count else n - start) ≡ min count (n - start) =
            ground arith in
          let base : start + 0 ≡ start = omega arith in
          let got =
            read_from-entries log n (min count (n - start)) 0 ring start at small (ground arith)
              (omega arith) in
          simp (at.counts, more, left, m) (got ∙ ap (entries log (min count (n - start))) base)
    ]

pub fresh-IsAt :
    (log : List Event) → IsAt log 0 (record { write_index = 0; records = λ i. zero_record })
fresh-IsAt log = record { counts = refl; keeps = λ j h k. absurd (omega arith) }

pub append_all_fresh-IsAt :
    (log : List Event)
    → length log < 2 ^ 32
    → IsAt log
        (length log)
        (append_all (record { write_index = 0; records = λ i. zero_record }) log)
append_all_fresh-IsAt log small =
    let at =
      append_all-IsAt log log 0 _ (fresh-IsAt log) (omega arith)
        (λ i h. ap (λ k. get_or log k zero_event) (omega arith)) in
    let total : 0 + length log ≡ length log = omega arith in rw total at at

-- A read after fewer than 2 ^ 32 appends to an initialised ring, from a sequence number among the
-- last 1024: it gives the events with that number and the following ones, in order and with
-- their numbers, as many as were asked for or as there are.
pub read_recent :
    (ring : DebugRing) (log : List Event) (start count : ℕ)
    → length log < 2 ^ 32
    → start ≤ length log
    → length log ≤ start + 1024
    → (fresh : DebugRing) × (init (some ring) ≡ some fresh)
      × (snapshot (some (append_all fresh log)) ≡ length log)
      × (read (some (append_all fresh log)) true start count
          ≡ entries log (min count (length log - start)) start)
unfolding init snapshot
read_recent ring log start count small inside recent =
    let at = append_all_fresh-IsAt log small in
    (_, refl, at.counts, IsAt-read log (length log) _ start count at small inside recent)
