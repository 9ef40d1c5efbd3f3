-- ===== src/SpoofService.antt =====
-- NtelSpoofKext/src/NtelSpoofService.cpp: the kernel extension's service, which gives a PCI device the
-- identity of another one. The registry entry of the device is a map from keys to bytes; what IOKit
-- answers is an argument.
pub mod Start
mod Tests
use Prim.Native.String.{String}
use text.Mathlib.Text.{◌==◌ as str_eq}
use n_igpu_macos.Common.{
  ℕ, Bool, true, false, not, Option, none, some, List, if◌then◌else◌, ◌==◌, le32,
}

abbrev pub intel_vendor_id : ℕ
intel_vendor_id = 0x00008086

abbrev pub intel_uhd770_device_id : ℕ
intel_uhd770_device_id = 0x46a8

abbrev pub spoofed_igpu_platform_id : ℕ
spoofed_igpu_platform_id = 0x00005a08

abbrev pub spoofed_device_id : ℕ
spoofed_device_id = 0x00008a52

-- An IOPCIDevice.
pub record PciDevice : Type 0 where
  pub vendor_id : ℕ
  pub device_id : ℕ
  pub properties : String → Option (List ℕ)

-- Whether `OSData::withBytes` has memory for the value of a key, whether `setProperty` takes it, and
-- what `IOService::start` returns.
pub record Answers : Type 0 where
  pub has_data : String → Bool
  pub accepts : String → Bool
  pub starts : Bool

-- `validate_1235U_hardware`; another device of the vendor is only reported.
unfoldable pub validate_1235U_hardware : PciDevice → Bool
validate_1235U_hardware dev =
    if not (dev.vendor_id == 0x8086)
    then false
    else if not (dev.device_id == intel_uhd770_device_id)
    then true
    else true

-- `setUInt32DataProperty`; the bytes are those of a little-endian machine.
unfoldable pub set_uint32_data_property : Answers → PciDevice → String → ℕ → PciDevice × Bool
set_uint32_data_property answers dev key value =
    if not (answers.has_data key)
    then (dev, false)
    else if answers.accepts key
    then (
      record dev { properties = λ k. if str_eq k key then some (le32 value) else dev.properties k },
      true,
    )
    else (dev, false)

-- The three properties, in order, up to the first that fails.
unfoldable pub set_spoofed : Answers → PciDevice → PciDevice × Bool
unfolding set_uint32_data_property
set_spoofed answers dev =
    let (dev1, ok1) =
      set_uint32_data_property answers dev "AAPL,ig-platform-id" spoofed_igpu_platform_id in
    if not ok1
    then (dev1, false)
    else (let (dev2, ok2) = set_uint32_data_property answers dev1 "device-id" spoofed_device_id in
        if not ok2
        then (dev2, false)
        else set_uint32_data_property answers dev2 "vendor-id" intel_vendor_id)

-- `NtelSpoofService::start`; `none` is a provider that is not an IOPCIDevice.
unfoldable pub start : Answers → Option PciDevice → Option PciDevice × Bool
unfolding validate_1235U_hardware set_spoofed
start answers none = (none, false)
start answers (some dev) =
    if not (validate_1235U_hardware dev)
    then (some dev, false)
    else (let (dev', ok) = set_spoofed answers dev in
        if not ok then (some dev', false) else (some dev', answers.starts))

-- `NtelSpoofService::init`, on what `IOService::init` returns.
unfoldable pub init : Bool → Bool
init inherited = if not inherited then false else true
