-- ===== src/Firmware.antt =====
-- NtelSpoofKext/src/NtelFirmwareInjector.c and NtelSpoofKext/include/NtelFirmwareInjector.h, as built
-- with NTEL_USERMODE: the context, its emulated MMIO window and the uploads into it. Console output
-- is left out. `malloc` is an argument: the block that it returns, if any.
pub mod Upload
pub mod Elf
pub mod Load
pub mod Kernel
mod Tests
use n_igpu_macos.Common.{
  ℕ, ◌+◌, ◌*◌, Bool, true, false, not, ◌&&◌, ◌||◌, Option, none, some, List, [], ◌∷◌, if◌then◌else◌,
  ltb, length, replicate, u32, le32, ◌<<<◌, Exec, done, fault, ◌>>=◌, memcpy,
}

-- `NtelFirmwareResult`
pub data FirmwareResult : Type 0 where
  success err_not_found err_load_failed err_invalid_signature : FirmwareResult
  err_hardware_reject err_vnode_open err_vnode_read err_too_large : FirmwareResult

-- `NtelFirmwareBlob`
pub record FirmwareBlob : Type 0 where
  pub blob_data : Option (List ℕ)
  pub blob_size : ℕ
  pub loaded : Bool

-- `NtelFirmwareContext`
pub record FirmwareContext : Type 0 where
  pub device_id : ℕ
  pub firmware_version : ℕ
  pub guc_loaded : Bool
  pub huc_loaded : Bool
  pub guc_blob : FirmwareBlob
  pub huc_blob : FirmwareBlob
  pub mmio_base : Option (List ℕ)
  pub mmio_size : ℕ

-- INTEL_GUC_STATUS_REG_OFFSET, INTEL_HUC_STATUS_REG_OFFSET, INTEL_GUC_LOAD_REG_OFFSET
abbrev pub guc_status_reg_offset : ℕ
guc_status_reg_offset = 0x4000

abbrev pub huc_status_reg_offset : ℕ
huc_status_reg_offset = 0x4400

abbrev pub guc_load_reg_offset : ℕ
guc_load_reg_offset = 0x4800

-- `simple_checksum` from a sum on
unfoldable pub checksum_from : ℕ → List ℕ → ℕ
checksum_from sum [] = sum
checksum_from sum (x ∷ xs) = checksum_from (u32 (u32 (u32 (sum <<< 5) + sum) + x)) xs

unfoldable pub simple_checksum : List ℕ → ℕ
simple_checksum bytes = checksum_from 0 bytes

-- `ntel_fw_map_mmio`; the context is not NULL.
unfoldable pub map_mmio : (alloc_ok : Bool) → FirmwareContext → FirmwareContext × FirmwareResult
map_mmio alloc_ok ctx = elim ctx.mmio_base [
  | some _ ↦ (ctx, success)
  | none ↦
      if alloc_ok
      then (record ctx { mmio_base = some (replicate 0x10000 0); mmio_size = 0x10000 }, success)
      else (record ctx { mmio_base = none; mmio_size = 0 }, err_load_failed)
]

-- `ntel_fw_check_mmio_space` returns NTEL_FW_SUCCESS.
unfoldable pub mmio_space : FirmwareContext → (offset len : ℕ) → Bool
mmio_space ctx offset len = elim ctx.mmio_base [
  | none ↦ false
  | some _ ↦ not (ltb ctx.mmio_size (u32 (offset + len)))
]

-- The body that `ntel_fw_upload_guc_to_hw` and `ntel_fw_upload_huc_to_hw` share.
unfoldable pub upload :
    FirmwareContext
    → FirmwareBlob
    → (load_offset status_offset : ℕ) → Exec (FirmwareContext × FirmwareResult)
unfolding mmio_space
upload ctx blob load_offset status_offset = elim ctx.mmio_base [
  | none ↦ done (ctx, err_load_failed)
  | some mmio ↦
      if not blob.loaded
        || not (mmio_space ctx load_offset blob.blob_size)
        || not (mmio_space ctx status_offset 4)
      then done (ctx, err_load_failed)
      else elim blob.blob_data [
        | none ↦ fault
        | some bytes ↦ do
          mmio' ← memcpy mmio load_offset bytes 0 blob.blob_size
          mmio'' ← memcpy mmio' status_offset (le32 1) 0 4
          done (record ctx { mmio_base = some mmio'' }, success)
      ]
]

unfoldable pub upload_guc_to_hw : FirmwareContext → Exec (FirmwareContext × FirmwareResult)
unfolding upload
upload_guc_to_hw ctx = upload ctx ctx.guc_blob guc_load_reg_offset guc_status_reg_offset

unfoldable pub upload_huc_to_hw : FirmwareContext → Exec (FirmwareContext × FirmwareResult)
unfolding upload
upload_huc_to_hw ctx = upload ctx ctx.huc_blob (guc_load_reg_offset + 0x1000) huc_status_reg_offset

-- `ntel_fw_verify_status`
unfoldable pub verify_status : Option FirmwareContext → Bool
verify_status none = false
verify_status (some ctx) =
    ctx.guc_loaded && ctx.huc_loaded && (ctx.guc_blob.loaded && ctx.huc_blob.loaded)

-- A blob that owns a block gives it back.
abbrev pub cleaned : FirmwareBlob → FirmwareBlob
cleaned blob = elim blob.blob_data [
  | none ↦ blob
  | some _ ↦ record { blob_data = none; blob_size = 0; loaded = false }
]

-- `ntel_fw_cleanup`
unfoldable pub cleanup : Option FirmwareContext → Option FirmwareContext
cleanup none = none
cleanup (some ctx) = some (record ctx {
  guc_loaded = false;
  huc_loaded = false;
  guc_blob = cleaned ctx.guc_blob;
  huc_blob = cleaned ctx.huc_blob;
  mmio_base = none;
  mmio_size = elim ctx.mmio_base [ none ↦ ctx.mmio_size | some _ ↦ 0 ];
})
