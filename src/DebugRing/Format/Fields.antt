-- ===== src/DebugRing/Format/Fields.antt =====
-- What the call of `snprintf` tells of a record: its arguments by the text before each conversion.
use Prim.Native.Char.{code}
use Prim.Native.String.{String, ◌++◌ as text_append}
use text.Mathlib.Text.{◌==◌ as str_eq}
use mathlib.Core.Option.{map as option_map}
use n_igpu_macos.Common.{
  ℕ, zero, suc, ◌+◌, ◌-◌, ◌≤◌, ◌<◌, ◌≡◌, refl, ap₂, Bool, true, false, Option, none, some, List, [],
  ◌∷◌, if◌then◌else◌, ◌==◌, arith,
}
use n_igpu_macos.DebugRing.{DebugRecord}
use n_igpu_macos.DebugRing.Format.{
  Arg, unsigned_long_long, uint, int, str, FormatArgs, comp_of, evt_of, format_args, record_format,
}

-- The number of a component's name, and of an event's.
abbrev comp_number : String → ℕ
comp_number name =
    if str_eq name "RING"
    then 0
    else if str_eq name "CACHE"
    then 1
    else if str_eq name "FW"
    then 2
    else if str_eq name "SPOOF"
    then 3
    else if str_eq name "ENGINE"
    then 4
    else 5

abbrev evt_number : String → ℕ
evt_number name =
    if str_eq name "CACHE_COLLISION_MISMATCH"
    then 1001
    else if str_eq name "SCORCH_PASS"
    then 1002
    else if str_eq name "PID_MISMATCH"
    then 1003
    else if str_eq name "TRANSLATION_FAILED"
    then 1004
    else 0

comp_number-comp_of : (component : ℕ) → component < 5 → comp_number (comp_of component) ≡ component
comp_number-comp_of zero h = refl
comp_number-comp_of (suc zero) h = refl
comp_number-comp_of (suc (suc zero)) h = refl
comp_number-comp_of (suc (suc (suc zero))) h = refl
comp_number-comp_of (suc (suc (suc (suc zero)))) h = refl
comp_number-comp_of (suc (suc (suc (suc (suc c))))) h = absurd (omega arith)

evt_number-below : (i : ℕ) → i < 4 → evt_number (evt_of (1001 + i)) ≡ 1001 + i
evt_number-below zero h = refl
evt_number-below (suc zero) h = refl
evt_number-below (suc (suc zero)) h = refl
evt_number-below (suc (suc (suc zero))) h = refl
evt_number-below (suc (suc (suc (suc i)))) h = absurd (omega arith)

-- Whether a conversion is one for an argument of this type.
abbrev converts : (spec : String) → Arg → Bool
converts spec (unsigned_long_long n) = str_eq spec "llu"
converts spec (uint n) = str_eq spec "u"
converts spec (int n) = str_eq spec "d"
converts spec (str t) = str_eq spec "s"

-- A format against the arguments after it: each argument with the text before its conversion, or `none`
-- where a conversion has no argument of its type or an argument no conversion. `spec` is the part
-- of a conversion that is read, and `label` is the text since the last one.
abbrev pub matched :
    (spec : Option String) (label format : String) → List Arg → Option (List (String × Arg))
matched none label String.[] [] = some []
matched none label String.[] (arg ∷ args) = none
matched (some spec) label String.[] args = none
matched none label (String.◌∷◌ c format) args = elim (code c == 37) [
  | true ↦ matched (some "") label format args
  | false ↦ matched none (text_append label (String.◌∷◌ c "")) format args
]
matched (some spec) label (String.◌∷◌ c format) [] = elim (code c == 108) [
  | true ↦ matched (some (text_append spec (String.◌∷◌ c ""))) label format []
  | false ↦ none
]
matched (some spec) label (String.◌∷◌ c format) (arg ∷ args) = elim (code c == 108) [
  | true ↦ matched (some (text_append spec (String.◌∷◌ c ""))) label format (arg ∷ args)
  | false ↦ elim (converts (text_append spec (String.◌∷◌ c "")) arg) [
    | true ↦ option_map (λ fields. (label, arg) ∷ fields) (matched none "" format args)
    | false ↦ none
  ]
]

abbrev number_of : Arg → ℕ
number_of (unsigned_long_long n) = n
number_of (uint n) = n
number_of (int n) = n
number_of (str t) = 0

abbrev text_of : Arg → String
text_of (str t) = t
text_of _ = ""

-- The argument behind a label.
abbrev behind_label : String → List (String × Arg) → Arg
behind_label label [] = str ""
behind_label label (field ∷ fields) =
    let rest = behind_label label fields in if str_eq field.0 label then field.1 else rest

-- The record that the fields of a line tell of, each found by its label.
abbrev pub told : List (String × Arg) → DebugRecord
told fields =
    let number = λ (label : String). number_of (behind_label label fields) in
    let text = λ (label : String). text_of (behind_label label fields) in
    record {
      event = record {
        timestamp = number "[";
        component = comp_number (text " ");
        event_id = evt_number (text ":");
        read_idx = number " ridx=";
        write_idx = number " widx=";
        fence_value = number " fence=";
        active_pid = number " pid=";
        last_error = number " err=";
      };
      sequence = number " ns] seq=";
    }

evt_number-evt_of :
    (event_id : ℕ) → 1001 ≤ event_id → event_id ≤ 1004 → evt_number (evt_of event_id) ≡ event_id
evt_number-evt_of event_id low high =
    let whole : 1001 + (event_id - 1001) ≡ event_id = omega arith in
    rw whole at (evt_number-below (event_id - 1001) (omega arith))

-- The fields of a record's line.
fields_of : DebugRecord → List (String × Arg)
fields_of rec =
    ("[", unsigned_long_long rec.event.timestamp)
    ∷ (" ns] seq=", uint rec.sequence)
    ∷ (" ", str (comp_of rec.event.component))
    ∷ (":", str (evt_of rec.event.event_id))
    ∷ (" ridx=", uint rec.event.read_idx)
    ∷ (" widx=", uint rec.event.write_idx)
    ∷ (" fence=", uint rec.event.fence_value)
    ∷ (" pid=", uint rec.event.active_pid)
    ∷ (" err=", int rec.event.last_error)
    ∷ []

matched-format_args :
    (rec : DebugRecord)
    → matched none "" (format_args rec).format (format_args rec).args ≡ some (fields_of rec)
unfolding format_args fields_of
matched-format_args rec = refl

told-fields_of :
    (rec : DebugRecord)
    → rec.event.component < 5
    → 1001 ≤ rec.event.event_id
    → rec.event.event_id ≤ 1004
    → told (fields_of rec) ≡ rec
unfolding fields_of
told-fields_of rec known low high =
    let same_comp = comp_number-comp_of rec.event.component known in
    let same_evt = evt_number-evt_of rec.event.event_id low high in
    ap₂ (λ c e. record rec { event = record rec.event { component = c; event_id = e } }) same_comp
      same_evt

-- For a buffer of at least one byte and a record of one of the five components and of one of the four
-- events: what `snprintf` is given has, in the order of the format, an argument of its type for each
-- conversion and none left over, and the record can be had back from these arguments, each found by
-- the text that stands before its conversion. A line that the buffer cuts off tells less.
pub record_format_tells :
    (snprintf : ℕ → FormatArgs → String × ℕ) (buflen : ℕ) (rec : DebugRecord)
    → 0 < buflen
    → rec.event.component < 5
    → 1001 ≤ rec.event.event_id
    → rec.event.event_id ≤ 1004
    → (call : FormatArgs) × (fields : List (String × Arg)) × (record_format snprintf true buflen
          (some rec)
        ≡ some (snprintf buflen call))
      × (matched none "" call.format call.args ≡ some fields)
      × (told fields ≡ rec)
unfolding record_format
record_format_tells snprintf buflen rec room known low high =
    let some_room : (buflen == 0) ≡ false = ground arith in
    (
      format_args rec,
      fields_of rec,
      rw some_room refl,
      matched-format_args rec,
      told-fields_of rec known low high,
    )
