-- ===== src/SpoofService/Tests.antt =====
-- A start on a concrete device.
use text.Mathlib.Text.{◌==◌ as str_eq}
use n_igpu_macos.Common.{◌≡◌, ◌⊎◌, refl, Bool, true, false, none, some, [], ◌∷◌, if◌then◌else◌}
use n_igpu_macos.SpoofService.{
  PciDevice, Answers, start, validate_1235U_hardware, set_spoofed, set_uint32_data_property,
}
use n_igpu_macos.SpoofService.Start.{Spoofed, Refused, start_spoofs}

abbrev uhd770 : PciDevice
uhd770 = record {
  vendor_id = 0x8086;
  device_id = 0x46a8;
  properties = λ key. if str_eq key "class-code" then some (0 ∷ 0 ∷ 3 ∷ 0 ∷ []) else none;
}

abbrev granting : Answers
granting = record { has_data = λ key. true; accepts = λ key. true; starts = true }

start_spoofs_example :
    (after : PciDevice) × (started : Bool) × (start granting (some uhd770) ≡ (some after, started))
    × (after.vendor_id ≡ 0x8086)
    × (after.device_id ≡ 0x46a8)
    × (after.properties "class-code" ≡ some (0 ∷ 0 ∷ 3 ∷ 0 ∷ []))
    × (Spoofed granting uhd770 after started ⊎ Refused granting uhd770 after started)
start_spoofs_example = start_spoofs granting uhd770 "class-code" refl refl refl

-- The third property is refused: the first two stay.
abbrev half_granting : Answers
half_granting = record granting { accepts = λ key. if str_eq key "vendor-id" then false else true }

start_half_done :
    (after : PciDevice) × (start half_granting (some uhd770) ≡ (some after, false))
    × (after.properties "device-id" ≡ some (0x52 ∷ 0x8a ∷ 0 ∷ 0 ∷ []))
unfolding start validate_1235U_hardware set_spoofed set_uint32_data_property
start_half_done = (_, refl, refl)
