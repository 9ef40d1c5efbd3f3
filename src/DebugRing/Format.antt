-- ===== src/DebugRing/Format.antt =====
-- NtelSpoofKext/src/NtelDebugRing.c: `ntel_debug_record_format`. `snprintf` is a parameter: the text
-- that it leaves in a buffer of a size, and the length that it returns, for a format and the arguments
-- after it.
pub mod Fields
use Prim.Native.String.{String}
use n_igpu_macos.Common.{
  ℕ, zero, suc, ◌+◌, ◌-◌, ◌≤◌, ◌<◌, ◌≡◌, refl, ap₂, Bool, true, false, ◌&&◌, ◌||◌, not, Option,
  none, some, List, [], ◌∷◌, if◌then◌else◌, ltb, leb, ◌==◌, arith,
}
use n_igpu_macos.DebugRing.{DebugRecord}

-- An argument after the format, with the type that the call gives it.
pub data Arg : Type 0 where
  unsigned_long_long : ℕ → Arg
  uint : ℕ → Arg
  int : ℕ → Arg
  str : String → Arg

-- The format, and what follows it in the call of `snprintf`.
pub record FormatArgs : Type 0 where
  pub format : String
  pub args : List Arg

-- `comp_names`
abbrev pub comp_names : ℕ → String
comp_names zero = "RING"
comp_names (suc zero) = "CACHE"
comp_names (suc (suc zero)) = "FW"
comp_names (suc (suc (suc zero))) = "SPOOF"
comp_names (suc (suc (suc (suc i)))) = "ENGINE"

-- `evt_names`
abbrev pub evt_names : ℕ → String
evt_names zero = "CACHE_COLLISION_MISMATCH"
evt_names (suc zero) = "SCORCH_PASS"
evt_names (suc (suc zero)) = "PID_MISMATCH"
evt_names (suc (suc (suc i))) = "TRANSLATION_FAILED"

abbrev pub base_event_id : ℕ
base_event_id = 1000

abbrev pub comp_of : ℕ → String
comp_of component = if ltb component 5 then comp_names component else "UNKN"

abbrev pub evt_of : ℕ → String
evt_of event_id =
    if leb (base_event_id + 1) event_id && leb event_id (base_event_id + 4)
    then evt_names (event_id - (base_event_id + 1))
    else "UNKN"

unfoldable pub format_args : DebugRecord → FormatArgs
format_args rec = record {
  format = "[%llu ns] seq=%u %s:%s ridx=%u widx=%u fence=%u pid=%u err=%d";
  args =
      unsigned_long_long rec.event.timestamp
      ∷ uint rec.sequence
      ∷ str (comp_of rec.event.component)
      ∷ str (evt_of rec.event.event_id)
      ∷ uint rec.event.read_idx
      ∷ uint rec.event.write_idx
      ∷ uint rec.event.fence_value
      ∷ uint rec.event.active_pid
      ∷ int rec.event.last_error
      ∷ [];
}

-- `ntel_debug_record_format`: `none` is the result -1, for which nothing is written.
unfoldable pub record_format :
    (snprintf : ℕ → FormatArgs → String × ℕ)
    → (has_buf : Bool) → (buflen : ℕ) → Option DebugRecord
    → Option (String × ℕ)
unfolding format_args
record_format snprintf has_buf buflen none = none
record_format snprintf has_buf buflen (some rec) =
    if not has_buf || buflen == 0 then none else some (snprintf buflen (format_args rec))
