-- ===== src/DebugRing/Interleave/Linear.antt =====
-- Interleaved appends leave the ring that appends one by one would leave.
use n_igpu_macos.Common.{
  ℕ, zero, suc, ◌+◌, ◌≤◌, ◌<◌, ◌^◌, ◌≡◌, ◌≢◌, ◌⊎◌, ◌∙◌, refl, ap, sym, inl, inr, true, some, List,
  [], ◌∷◌, if◌then◌else◌, ◌==◌, ==_iff, eq→==, ne→==, Bool-cases, Option-cases, some-inj, length,
  get_or, arith,
}
use n_igpu_macos.DebugRing.{Event, DebugRecord, DebugRing, zero_event, slot, init, snapshot, read}
use n_igpu_macos.DebugRing.Log.{entry, append_all, IsAt, IsAt-read, append_all_fresh-IsAt}
use n_igpu_macos.DebugRing.Interleave.{
  Recorder, fresh_recorder, Access, reserve, store, fetch_add, copy_record, pending_at, without,
  access, run, reserved, InTime, IsUnlapped,
}

-- Each pending record is the one of its number in the log.
abbrev pub AllOwn : List Event → ℕ → List DebugRecord → Type 0
AllOwn log n [] = Unit
AllOwn log n (rec ∷ recs) = (rec.sequence < n) × (rec ≡ entry log rec.sequence) × AllOwn log n recs

-- Number `j` is pending.
abbrev pub Awaits : ℕ → List DebugRecord → Type 0
Awaits j [] = ⊥
Awaits j (rec ∷ recs) = (rec.sequence ≡ j) ⊎ Awaits j recs

AllOwn-suc :
    (log : List Event) (n : ℕ) (recs : List DebugRecord)
    → AllOwn log n recs
    → AllOwn log (n + 1) recs
AllOwn-suc log n [] all = tt
AllOwn-suc log n (rec ∷ recs) all = (omega (arith, all.0), all.1, AllOwn-suc log n recs all.2)

AllOwn-without :
    (log : List Event) (n k : ℕ) (recs : List DebugRecord)
    → AllOwn log n recs
    → AllOwn log n (without k recs)
AllOwn-without log n k [] all = tt
AllOwn-without log n zero (rec ∷ recs) all = all.2
AllOwn-without log n (suc k) (rec ∷ recs) all = (all.0, all.1, AllOwn-without log n k recs all.2)

pub AllOwn-pending_at :
    (log : List Event) (n k : ℕ) (recs : List DebugRecord) (rec : DebugRecord)
    → AllOwn log n recs
    → pending_at k recs ≡ some rec
    → (rec.sequence < n) × (rec ≡ entry log rec.sequence)
AllOwn-pending_at log n k [] rec all found = absurd cc
AllOwn-pending_at log n zero (r ∷ recs) rec all found =
    let same : r ≡ rec = some-inj found in
    let number = ap (λ (x : DebugRecord). x.sequence) same in
    (omega (arith, number, all.0), sym same ∙ all.1 ∙ ap (entry log) number)
AllOwn-pending_at log n (suc k) (r ∷ recs) rec all found =
    AllOwn-pending_at log n k recs rec all.2 found

Awaits-without :
    (j k : ℕ) (recs : List DebugRecord) (rec : DebugRecord)
    → pending_at k recs ≡ some rec
    → rec.sequence ≢ j
    → Awaits j recs
    → Awaits j (without k recs)
Awaits-without j k [] rec found other awaits = awaits
Awaits-without j zero (r ∷ recs) rec found other (inl here) =
    absurd (other (sym (ap (λ (x : DebugRecord). x.sequence) (some-inj found)) ∙ here))
Awaits-without j zero (r ∷ recs) rec found other (inr there_) = there_
Awaits-without j (suc k) (r ∷ recs) rec found other (inl here) = inl here
Awaits-without j (suc k) (r ∷ recs) rec found other (inr there_) =
    inr (Awaits-without j k recs rec found other there_)

-- The ring and its pending records, after `n` reservations.
pub record IsUnder (log : List Event) (n : ℕ) (r : Recorder) : Type 0 where
  pub counts : r.ring.write_index ≡ n
  pub owned : AllOwn log n r.pending
  pub covers :
      (j : ℕ) → j < n → n ≤ j + 1024 → (r.ring.records (slot j) ≡ entry log j) ⊎ Awaits j r.pending

pub reserve-IsUnder :
    (log : List Event) (n : ℕ) (r : Recorder) (e : Event)
    → IsUnder log n r
    → n + 1 < 2 ^ 32
    → e ≡ get_or log n zero_event
    → IsUnder log (n + 1) (access (reserve e) r)
unfolding access fetch_add
reserve-IsUnder log n r e u small this =
    let numbered : Event → DebugRecord = λ x. record { event = x; sequence = r.ring.write_index } in
    let own = ap numbered (this ∙ ap (λ k. get_or log k zero_event) (sym u.counts)) in
    record {
      counts = rw u.counts (omega arith);
      owned = (omega (arith, u.counts), own, AllOwn-suc log n r.pending u.owned);
      covers = λ j below recent. elim (Bool-cases (j == n)) [
        | inl last ↦ inr (inl (let last' : j ≡ n = (==_iff j n).0 last in omega (arith, u.counts)))
        | inr before ↦
            let differs : j ≢ n = ground arith in
            elim (u.covers j (omega arith) (omega arith)) [
              | inl kept ↦ inl kept
              | inr awaits ↦ inr (inr awaits)
            ]
      ];
    }

store_covers :
    (log : List Event) (n k : ℕ) (r : Recorder) (rec : DebugRecord)
    → IsUnder log n r
    → pending_at k r.pending ≡ some rec
    → r.ring.write_index ≤ rec.sequence + 1024
    → rec.sequence < n
    → rec ≡ entry log rec.sequence
    → (j : ℕ) → j < n
    → n ≤ j + 1024
    → ((if slot j == slot rec.sequence then rec else r.ring.records (slot j)) ≡ entry log j)
      ⊎ Awaits j (without k r.pending)
store_covers log n k r rec u found in_time below own j inside recent =
    elim (Bool-cases (j == rec.sequence)) [
      | inl e ↦
          let same : j ≡ rec.sequence = (==_iff j rec.sequence).0 e in
          rw (eq→== (slot j) (slot rec.sequence) (ap slot same))
            (inl (own ∙ ap (entry log) (sym same)))
      | inr d ↦
          let differs : j ≢ rec.sequence = ground arith in
          let apart : slot j ≢ slot rec.sequence = omega (arith, u.counts) in
          rw (ne→== (slot j) (slot rec.sequence) apart) (elim (u.covers j inside recent) [
            | inl kept ↦ inl kept
            | inr awaits ↦
                inr (Awaits-without j k r.pending rec found (λ e. differs (sym e)) awaits)
          ])
    ]

pub store-IsUnder :
    (log : List Event) (n k : ℕ) (r : Recorder)
    → IsUnder log n r
    → InTime k r
    → IsUnder log n (access (store k) r)
unfolding access copy_record
store-IsUnder log n k r u timely = elim (Option-cases (pending_at k r.pending)) [
  | inl gone ↦ simp (gone, access) u
  | inr (rec, found) ↦
      let in_time : r.ring.write_index ≤ rec.sequence + 1024 = rw (found, InTime) at timely in
      let (below, own) = AllOwn-pending_at log n k r.pending rec u.owned found in
      simp (found, access)
        record {
          counts = u.counts;
          owned = AllOwn-without log n k r.pending u.owned;
          covers = store_covers log n k r rec u found in_time below own;
        }
]

run-IsUnder :
    (log : List Event) (accesses : List Access) (n : ℕ) (r : Recorder)
    → IsUnder log n r
    → n + length (reserved accesses) < 2 ^ 32
    → ((i : ℕ)
        → i < length (reserved accesses)
        → get_or (reserved accesses) i zero_event ≡ get_or log (n + i) zero_event)
    → IsUnlapped accesses r
    → IsUnder log (n + length (reserved accesses)) (run accesses r)
unfolding run
run-IsUnder log [] n r u small rest unlapped =
    let same : n + length {A = Event} [] ≡ n = omega arith in rw same u
run-IsUnder log (reserve e ∷ accesses) n r u small rest unlapped =
    let first : n + 0 ≡ n = omega arith in
    let next =
      reserve-IsUnder log n r e u (omega arith)
        (rest 0 (omega arith) ∙ ap (λ k. get_or log k zero_event) first) in
    let shift : n + 1 + length (reserved accesses) ≡ n + suc (length (reserved accesses)) =
      omega arith in
    rw⁻¹ shift (
      run-IsUnder log accesses (n + 1) (access (reserve e) r) next (omega arith)
        (λ i h.
          let over : n + suc i ≡ n + 1 + i = omega arith in
          rest (suc i) (omega arith) ∙ ap (λ k. get_or log k zero_event) over)
        unlapped)
run-IsUnder log (store k ∷ accesses) n r u small rest unlapped =
    run-IsUnder log accesses n (access (store k) r) (store-IsUnder log n k r u unlapped.0) small
      rest unlapped.1

-- With no append under way, the ring stands after its events.
pub quiet-IsAt :
    (log : List Event) (n : ℕ) (r : Recorder) → IsUnder log n r → r.pending ≡ [] → IsAt log n r.ring
quiet-IsAt log n r u quiet = record {
  counts = u.counts;
  keeps = λ j inside recent. elim (u.covers j inside recent) [
    | inl kept ↦ kept
    | inr awaits ↦ absurd (rw quiet at awaits)
  ];
}

-- On an initialised ring, any interleaving of the two accesses of fewer than 2 ^ 32 appends, at whose
-- end no append is under way and in which no writer copies its record a whole ring behind, cannot be
-- told from the same appends one after the other, in the order in which they reserved their
-- places: the snapshots agree, and so does each read from a sequence number among the last 1024.
pub appends_linearize :
    (ring : DebugRing) (accesses : List Access) (start count : ℕ)
    → IsUnlapped accesses fresh_recorder
    → (run accesses fresh_recorder).pending ≡ []
    → length (reserved accesses) < 2 ^ 32
    → start ≤ length (reserved accesses)
    → length (reserved accesses) ≤ start + 1024
    → (init (some ring) ≡ some fresh_recorder.ring)
      × (snapshot (some (run accesses fresh_recorder).ring)
          ≡ snapshot (some (append_all fresh_recorder.ring (reserved accesses))))
      × (read (some (run accesses fresh_recorder).ring) true start count
          ≡ read (some (append_all fresh_recorder.ring (reserved accesses))) true start count)
unfolding init snapshot
appends_linearize ring accesses start count unlapped quiet small inside recent =
    let log = reserved accesses in
    let begins : IsUnder log 0 fresh_recorder = record {
      counts = refl;
      owned = tt;
      covers = λ j h k. absurd (omega arith);
    } in
    let under =
      run-IsUnder log accesses 0 fresh_recorder begins (omega arith)
        (λ i h. ap (λ k. get_or log k zero_event) (omega arith)) unlapped in
    let total : 0 + length log ≡ length log = omega arith in
    let at = quiet-IsAt log (length log) (run accesses fresh_recorder) (rw total at under) quiet in
    let at' = append_all_fresh-IsAt log small in
    (
      refl,
      at.counts ∙ sym at'.counts,
      IsAt-read log (length log) _ start count at small inside recent
          ∙ sym (IsAt-read log (length log) _ start count at' small inside recent),
    )
