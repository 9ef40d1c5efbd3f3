-- ===== src/DebugRing/Interleave.antt =====
-- NtelSpoofKext/src/NtelDebugRing.c: `ntel_debug_ring_append` as the two accesses to the ring that it
-- consists of. Between the two, other writers and readers may make theirs.
pub mod Linear
use n_igpu_macos.Common.{
  ℕ, zero, suc, ◌+◌, ◌≤◌, ◌≡◌, refl, Option, none, some, List, [], ◌∷◌, if◌then◌else◌, ◌==◌, u32,
}
use n_igpu_macos.DebugRing.{Event, DebugRecord, DebugRing, zero_record, slot, append}

-- The `atomic_fetch_add` that reserves a place, and the sequence number that it answers.
unfoldable pub fetch_add : DebugRing → DebugRing × ℕ
fetch_add ring = (record ring { write_index = u32 (ring.write_index + 1) }, ring.write_index)

-- The copy of the finished record into its place.
unfoldable pub copy_record : DebugRing → DebugRecord → DebugRing
copy_record ring rec = record ring {
  records = λ i. if i == slot rec.sequence then rec else ring.records i;
}

-- The ring, and the records of the writers that have reserved a place and not yet copied.
pub record Recorder : Type 0 where
  pub ring : DebugRing
  pub pending : List DebugRecord

-- An initialised ring, with no append under way.
abbrev pub fresh_recorder : Recorder
fresh_recorder = record {
  ring = record { write_index = 0; records = λ i. zero_record };
  pending = [];
}

-- A writer reserves a place, or the `k`-th pending one copies its record.
pub data Access : Type 0 where
  reserve : Event → Access
  store : (k : ℕ) → Access

abbrev pub pending_at : ℕ → List DebugRecord → Option DebugRecord
pending_at k [] = none
pending_at zero (rec ∷ recs) = some rec
pending_at (suc k) (rec ∷ recs) = pending_at k recs

abbrev pub without : ℕ → List DebugRecord → List DebugRecord
without k [] = []
without zero (rec ∷ recs) = recs
without (suc k) (rec ∷ recs) = rec ∷ without k recs

unfoldable pub access : Access → Recorder → Recorder
unfolding fetch_add copy_record
access (reserve e) r =
    let (ring', seq) = fetch_add r.ring in
    record { ring = ring'; pending = record { event = e; sequence = seq } ∷ r.pending }
access (store k) r = elim (pending_at k r.pending) [
  | none ↦ r
  | some rec ↦ record { ring = copy_record r.ring rec; pending = without k r.pending }
]

unfoldable pub run : List Access → Recorder → Recorder
unfolding access
run [] r = r
run (a ∷ rest) r = run rest (access a r)

-- The events, in the order in which their places were reserved.
abbrev pub reserved : List Access → List Event
reserved [] = []
reserved (reserve e ∷ rest) = e ∷ reserved rest
reserved (store k ∷ rest) = reserved rest

-- The `k`-th pending writer is not a whole ring behind.
abbrev pub InTime : ℕ → Recorder → Type 0
InTime k r = elim (pending_at k r.pending) [
  | none ↦ Unit
  | some rec ↦ r.ring.write_index ≤ rec.sequence + 1024
]

-- No writer copies its record a whole ring behind.
abbrev pub IsUnlapped : List Access → Recorder → Type 0
IsUnlapped [] r = Unit
IsUnlapped (reserve e ∷ rest) r = IsUnlapped rest (access (reserve e) r)
IsUnlapped (store k ∷ rest) r = InTime k r × IsUnlapped rest (access (store k) r)
