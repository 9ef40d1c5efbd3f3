-- ===== src/SpoofService/Start.antt =====
-- What a start leaves in the registry entry of the device.
use Prim.Native.String.{String}
use text.Mathlib.Text.{◌==◌ as str_eq}
use n_igpu_macos.Common.{
  ℕ, ◌≡◌, ◌≢◌, ◌⊎◌, refl, inl, inr, Bool, true, false, ◌&&◌, some, [], ◌∷◌, if◌then◌else◌, ◌==◌,
  le32, Bool-cases, arith,
}
use n_igpu_macos.SpoofService.{
  PciDevice, Answers, validate_1235U_hardware, set_uint32_data_property, set_spoofed, start,
}

-- Whether the value of a key is stored.
abbrev pub stores : Answers → String → Bool
stores answers key = answers.has_data key && answers.accepts key

abbrev with_property : PciDevice → String → ℕ → PciDevice
with_property dev key value = record dev {
  properties = λ k. if str_eq k key then some (le32 value) else dev.properties k;
}

module _ (answers : Answers) (dev : PciDevice) (key : String) (value : ℕ) where
  set-stored :
      stores answers key ≡ true
      → set_uint32_data_property answers dev key value ≡ (with_property dev key value, true)
  unfolding set_uint32_data_property
  set-stored e = elim (Bool-cases (answers.has_data key)) [
    | inl has ↦ let takes : answers.accepts key ≡ true = rw has at e in rw (has, takes) refl
    | inr lacks ↦ absurd (let f : false ≡ true = rw lacks at e in cc)
  ]

  set-failed :
      stores answers key ≡ false → set_uint32_data_property answers dev key value ≡ (dev, false)
  unfolding set_uint32_data_property
  set-failed e = elim (Bool-cases (answers.has_data key)) [
    | inl has ↦ let refuses : answers.accepts key ≡ false = rw has at e in rw (has, refuses) refl
    | inr lacks ↦ rw lacks refl
  ]

abbrev pub all_stored : Answers → Bool
all_stored answers =
    stores answers "AAPL,ig-platform-id"
    && (stores answers "device-id" && stores answers "vendor-id")

-- The device passes for an Ice Lake one.
pub record Spoofed (answers : Answers) (dev after : PciDevice) (started : Bool) : Type 0 where
  pub intel : dev.vendor_id ≡ 0x8086
  pub stored : all_stored answers ≡ true
  pub returned : started ≡ answers.starts
  pub platform : after.properties "AAPL,ig-platform-id" ≡ some (0x08 ∷ 0x5a ∷ 0 ∷ 0 ∷ [])
  pub device : after.properties "device-id" ≡ some (0x52 ∷ 0x8a ∷ 0 ∷ 0 ∷ [])
  pub vendor : after.properties "vendor-id" ≡ some (0x86 ∷ 0x80 ∷ 0 ∷ 0 ∷ [])

-- The service does not start.
pub data Refused (answers : Answers) (dev after : PciDevice) (started : Bool) : Type 0 where
  other_vendor :
      dev.vendor_id ≢ 0x8086 → after ≡ dev → started ≡ false → Refused answers dev after started
  unstored : all_stored answers ≡ false → started ≡ false → Refused answers dev after started

module _ (answers : Answers) (dev : PciDevice) (k : String)
    (not_platform : str_eq k "AAPL,ig-platform-id" ≡ false)
    (not_device : str_eq k "device-id" ≡ false) (not_vendor : str_eq k "vendor-id" ≡ false) where
  -- What holds of every start.
  abbrev Starts : Type 0
  Starts =
      (after : PciDevice) × (started : Bool) × (start answers (some dev) ≡ (some after, started))
      × (after.vendor_id ≡ dev.vendor_id)
      × (after.device_id ≡ dev.device_id)
      × (after.properties k ≡ dev.properties k)
      × (Spoofed answers dev after started ⊎ Refused answers dev after started)

  abbrev dev1 : PciDevice
  dev1 = with_property dev "AAPL,ig-platform-id" 0x00005a08

  abbrev dev2 : PciDevice
  dev2 = with_property dev1 "device-id" 0x00008a52

  abbrev dev3 : PciDevice
  dev3 = with_property dev2 "vendor-id" 0x00008086

  starts_elsewhere : (dev.vendor_id == 0x8086) ≡ false → Starts
  unfolding start validate_1235U_hardware
  starts_elsewhere other = (
    dev,
    false,
    rw other refl,
    refl,
    refl,
    refl,
    inr (other_vendor (ground (arith, other)) refl refl),
  )

  validates : (dev.vendor_id == 0x8086) ≡ true → validate_1235U_hardware dev ≡ true
  unfolding validate_1235U_hardware
  validates intel = elim (Bool-cases (dev.device_id == 0x46a8)) [
    | inl known ↦ rw (intel, known) refl
    | inr unknown ↦ rw (intel, unknown) refl
  ]

  -- The run, from what the three properties return.
  start_runs :
      (after : PciDevice) (ok : Bool)
      → (dev.vendor_id == 0x8086) ≡ true
      → set_spoofed answers dev ≡ (after, ok)
      → start answers (some dev) ≡ (some after, if ok then answers.starts else false)
  unfolding start
  start_runs after true intel sets = rw (validates intel, sets) refl
  start_runs after false intel sets = rw (validates intel, sets) refl

  fails :
      (after : PciDevice)
      → (dev.vendor_id == 0x8086) ≡ true
      → set_spoofed answers dev ≡ (after, false)
      → after.vendor_id ≡ dev.vendor_id
      → after.device_id ≡ dev.device_id
      → after.properties k ≡ dev.properties k
      → all_stored answers ≡ false
      → Starts
  fails after intel sets same_vendor same_device same_k lost = (
    after,
    false,
    start_runs after false intel sets,
    same_vendor,
    same_device,
    same_k,
    inr (unstored lost refl),
  )

  spoofs :
      (dev.vendor_id == 0x8086) ≡ true
      → all_stored answers ≡ true
      → set_spoofed answers dev ≡ (dev3, true)
      → Starts
  spoofs intel stored sets = (
    dev3,
    answers.starts,
    start_runs dev3 true intel sets,
    refl,
    refl,
    rw (not_vendor, not_device, not_platform) refl,
    inl (record {
      intel = ground (arith, intel);
      stored = stored;
      returned = refl;
      platform = refl;
      device = refl;
      vendor = refl;
    }),
  )

  starts_here : (dev.vendor_id == 0x8086) ≡ true → Starts
  unfolding set_spoofed
  starts_here intel = elim (Bool-cases (stores answers "AAPL,ig-platform-id")) [
    | inr a ↦
        fails dev intel (rw (set-failed answers dev "AAPL,ig-platform-id" 0x00005a08 a) refl) refl
          refl refl (rw a refl)
    | inl a ↦
        let first = set-stored answers dev "AAPL,ig-platform-id" 0x00005a08 a in
        elim (Bool-cases (stores answers "device-id")) [
          | inr b ↦
              fails dev1 intel (rw (first, set-failed answers dev1 "device-id" 0x00008a52 b) refl)
                refl refl (rw not_platform refl) (rw (a, b) refl)
          | inl b ↦
              let second = set-stored answers dev1 "device-id" 0x00008a52 b in
              elim (Bool-cases (stores answers "vendor-id")) [
                | inr c ↦
                    fails dev2 intel
                      (rw (first, second, set-failed answers dev2 "vendor-id" 0x00008086 c) refl)
                      refl refl (rw (not_device, not_platform) refl) (rw (a, b, c) refl)
                | inl c ↦
                    spoofs intel (rw (a, b, c) refl)
                      (rw (first, second, set-stored answers dev2 "vendor-id" 0x00008086 c) refl)
              ]
        ]
  ]

  -- Whatever IOKit answers, on a PCI device `NtelSpoofService::start` changes neither its identity nor a
  -- property under another key than "AAPL,ig-platform-id", "device-id" and "vendor-id". Either the
  -- device is one of Intel, all three are stored with the bytes of 0x5A08, 0x8A52 and 0x8086, least
  -- significant first, and the start returns what `IOService::start` returns; or it returns false,
  -- since the device is of another vendor, and then nothing is changed, or since one of the three
  -- could not be stored.
  pub start_spoofs : Starts
  start_spoofs = elim (Bool-cases (dev.vendor_id == 0x8086)) [
    | inl intel ↦ starts_here intel
    | inr other ↦ starts_elsewhere other
  ]
