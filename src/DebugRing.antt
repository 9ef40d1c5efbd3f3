-- ===== src/DebugRing.antt =====
-- NtelSpoofKext/src/NtelDebugRing.c and NtelSpoofKext/include/NtelDebugRing.h: the flight recorder.
-- A ring keeps the last 1024 records. An append that nothing interrupts is one step here, and its two
-- accesses are in DebugRing/Interleave; what the clock answers during it is an argument. A null ring is `none`.
pub mod Log
pub mod Daemon
pub mod Format
pub mod Interleave
mod Tests
use n_igpu_macos.Common.{
  ℕ, zero, suc, ◌+◌, ◌%◌, Bool, true, false, Option, none, some, List, [], ◌∷◌, if◌then◌else◌, ltb,
  leb, ◌==◌, ◌||◌, u32, sub32, length,
}

-- The arguments of `ntel_debug_ring_append`, with the time. `last_error` is the pattern of an
-- `int32_t`.
pub record Event : Type 0 where
  pub timestamp : ℕ
  pub component : ℕ
  pub event_id : ℕ
  pub read_idx : ℕ
  pub write_idx : ℕ
  pub fence_value : ℕ
  pub active_pid : ℕ
  pub last_error : ℕ

-- `ntel_debug_record_t`: an event and its sequence number.
pub record DebugRecord : Type 0 where
  pub event : Event
  pub sequence : ℕ

-- NTEL_DEBUG_RING_SIZE
abbrev pub ring_size : ℕ
ring_size = 1024

-- `ntel_debug_ring_t`; the array is a function of the index.
pub record DebugRing : Type 0 where
  pub write_index : ℕ
  pub records : ℕ → DebugRecord

abbrev pub zero_event : Event
zero_event = record {
  timestamp = 0;
  component = 0;
  event_id = 0;
  read_idx = 0;
  write_idx = 0;
  fence_value = 0;
  active_pid = 0;
  last_error = 0;
}

abbrev pub zero_record : DebugRecord
zero_record = record { event = zero_event; sequence = 0 }

-- `seq & (NTEL_DEBUG_RING_SIZE - 1u)`, for a size that is a power of two.
abbrev pub slot : ℕ → ℕ
slot seq = seq % ring_size

-- `ntel_debug_ring_init`
unfoldable pub init : Option DebugRing → Option DebugRing
init none = none
init (some ring) = some (record { write_index = 0; records = λ i. zero_record })

-- `ntel_debug_ring_append` on a ring, when no other thread makes an access between its reservation and
-- its copy
unfoldable pub append : DebugRing → Event → DebugRing
append ring event =
    let seq = ring.write_index in
    record {
      write_index = u32 (seq + 1);
      records =
          λ i. if i == slot seq then record { event = event; sequence = seq } else ring.records i;
    }

unfoldable pub debug_ring_append : Option DebugRing → Event → Option DebugRing
debug_ring_append none event = none
debug_ring_append (some ring) event = some (append ring event)

-- `ntel_debug_ring_snapshot`
unfoldable pub snapshot : Option DebugRing → ℕ
snapshot none = 0
snapshot (some ring) = ring.write_index

-- The loop of `ntel_debug_ring_read`, from round `i` on.
unfoldable pub read_from : (left i : ℕ) → DebugRing → (start_seq : ℕ) → List DebugRecord
read_from zero i ring start_seq = []
read_from (suc left) i ring start_seq =
    ring.records (slot (u32 (start_seq + i))) ∷ read_from left (i + 1) ring start_seq

-- `ntel_debug_ring_read`: what it writes to `out` (its result is their number).
unfoldable pub read : Option DebugRing → (has_out : Bool) → (start_seq count : ℕ) → List DebugRecord
unfolding read_from
read none has_out start_seq count = []
read (some ring) false start_seq count = []
read (some ring) true start_seq count =
    let write_idx = ring.write_index in
    let available = sub32 write_idx start_seq in
    let to_read = if ltb count available then count else available in
    let out = read_from to_read 0 ring start_seq in
    if count == 0 || leb write_idx start_seq then [] else out

-- `ntel_debug_ring_reset`
unfoldable pub reset : Option DebugRing → Option DebugRing
reset none = none
reset (some ring) = some (record { write_index = 0; records = λ i. zero_record })
