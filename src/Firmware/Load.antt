-- ===== src/Firmware/Load.antt =====
-- NtelSpoofKext/src/NtelFirmwareInjector.c: `ntel_fw_read_file`, `ntel_fw_load_blob` and
-- `ntel_fw_inject_all`, as built with NTEL_USERMODE. `malloc` and `fopen` are parameters, and what the
-- other calls of stdio answer about an open file is a `Stream`.
pub mod Read
pub mod Inject
use Prim.Native.String.{String}
use n_igpu_macos.Common.{
  ℕ, zero, ◌+◌, ◌&&◌, ◌||◌, Bool, true, false, not, Option, none, some, List, if◌then◌else◌, ltb,
  ◌==◌, length, u32, Exec, done, ◌>>=◌,
}
use n_igpu_macos.Firmware.{
  FirmwareBlob, FirmwareContext, FirmwareResult, success, err_not_found, err_load_failed,
  err_hardware_reject, err_vnode_read, err_too_large, map_mmio, upload_guc_to_hw, upload_huc_to_hw,
  cleanup,
}
use n_igpu_macos.Firmware.Elf.{max_blob_size, is_elf, extract_elf_load_segments}

-- `NtelFirmwareType`
pub data FirmwareType : Type 0 where
  guc huc unknown : FirmwareType

-- An open file: whether `fseek` to its end succeeds, what `ftell` answers (`none` is a negative
-- answer), whether `fseek` to its start succeeds, and the bytes that `fread` gives for a size.
pub record Stream : Type 0 where
  pub seek_end : Bool
  pub tell : Option ℕ
  pub seek_set : Bool
  pub read : ℕ → List ℕ

-- `res == NTEL_FW_SUCCESS`
abbrev pub is_success : FirmwareResult → Bool
is_success success = true
is_success _ = false

-- `get_blob_for_type`, and the context with that blob changed
abbrev pub blob_for_type : FirmwareContext → FirmwareType → Option FirmwareBlob
blob_for_type ctx guc = some ctx.guc_blob
blob_for_type ctx huc = some ctx.huc_blob
blob_for_type ctx unknown = none

abbrev pub with_blob : FirmwareContext → FirmwareType → FirmwareBlob → FirmwareContext
with_blob ctx guc blob = record ctx { guc_blob = blob }
with_blob ctx huc blob = record ctx { huc_blob = blob }
with_blob ctx unknown blob = ctx

-- `ntel_fw_cleanup`, and an error.
abbrev pub give_up : FirmwareContext → FirmwareResult → Exec (FirmwareContext × FirmwareResult)
give_up ctx res = done (elim (cleanup (some ctx)) [ none ↦ ctx | some ctx' ↦ ctx' ], res)

-- The two uploads.
unfoldable pub upload_both : FirmwareContext → Exec (FirmwareContext × FirmwareResult)
unfolding upload_guc_to_hw upload_huc_to_hw
upload_both ctx = do
  (ctx', guc_upload) ← upload_guc_to_hw ctx
  (ctx'', huc_upload) ← upload_huc_to_hw ctx'
  if not (is_success guc_upload) || not (is_success huc_upload)
      then give_up ctx'' err_hardware_reject
      else done (ctx'', success)

-- What follows the two loads; `mmio_ok` is whether the window's block can be had.
unfoldable pub upload_loaded :
    (mmio_ok : Bool) → FirmwareContext → Exec (FirmwareContext × FirmwareResult)
unfolding upload_both
upload_loaded mmio_ok ctx =
    let mapped = map_mmio mmio_ok (record ctx { guc_loaded = true; huc_loaded = true }) in
    if is_success mapped.1 then upload_both mapped.0 else done (mapped.0, success)

-- `malloc` answers by the place of the call and the size: a file is read to a block of place 0, and the
-- segments of an ELF image go to one of place 1.
module _ (malloc : (place size : ℕ) → Option (List ℕ)) where
  -- The bytes of a file, once they are read.
  unfoldable pub take_file : List ℕ → FirmwareBlob → Exec (FirmwareBlob × FirmwareResult)
  take_file bytes blob =
      if is_elf bytes
      then extract_elf_load_segments (malloc 1) bytes blob
      else done
          (record { blob_data = some bytes; blob_size = length bytes; loaded = true }, success)

  -- `ntel_fw_read_file` once `ftell` has answered.
  unfoldable pub read_sized : Stream → FirmwareBlob → ℕ → Exec (FirmwareBlob × FirmwareResult)
  unfolding take_file
  read_sized stream blob fsize =
      if fsize == 0 || not stream.seek_set
      then done (blob, err_load_failed)
      else if ltb max_blob_size (u32 fsize)
      then done (blob, err_too_large)
      else elim (malloc 0 (u32 fsize)) [
        | none ↦ done (blob, err_load_failed)
        | some _ ↦
            let bytes = stream.read (u32 fsize) in
            if not (length bytes == u32 fsize)
            then done (blob, err_vnode_read)
            else take_file bytes blob
      ]

  -- `ntel_fw_read_file` on what `fopen` returns.
  unfoldable pub read_file : Option Stream → FirmwareBlob → Exec (FirmwareBlob × FirmwareResult)
  unfolding read_sized
  read_file none blob = done (blob, err_not_found)
  read_file (some stream) blob =
      if not stream.seek_end then done (blob, err_load_failed) else elim stream.tell [
        | none ↦ done (blob, err_load_failed)
        | some fsize ↦ read_sized stream blob fsize
      ]

  module _ (fopen : String → Option Stream) where
    -- `ntel_fw_load_blob`; the context and the path are not NULL. The checksum is only printed.
    unfoldable pub load_blob :
        FirmwareContext → FirmwareType → String → Exec (FirmwareContext × FirmwareResult)
    unfolding read_file
    load_blob ctx type path = elim (blob_for_type ctx type) [
      | none ↦ done (ctx, err_not_found)
      | some blob ↦
          if blob.loaded
          then done (ctx, success)
          else (do (blob', res) ← read_file (fopen path) blob; done (with_blob ctx type blob', res))
    ]

-- The places of the two loads differ: those of HuC are 2 and 3.
module _ (malloc : (place size : ℕ) → Option (List ℕ)) (fopen : String → Option Stream) where
  -- `ntel_fw_inject_all` once GuC is loaded.
  unfoldable pub inject_huc :
      (mmio_ok : Bool) → FirmwareContext → Exec (FirmwareContext × FirmwareResult)
  unfolding load_blob upload_loaded
  inject_huc mmio_ok ctx = do
    (ctx', huc_res) ←
        load_blob (λ place. malloc (place + 2)) fopen ctx huc "firmware/bin/huc_xe_lp.raw"
    if not (is_success huc_res) then give_up ctx' huc_res else upload_loaded mmio_ok ctx'

  -- `ntel_fw_inject_all`
  unfoldable pub inject_all :
      (mmio_ok : Bool) → Option FirmwareContext → Exec (Option FirmwareContext × FirmwareResult)
  unfolding load_blob inject_huc
  inject_all mmio_ok none = done (none, err_load_failed)
  inject_all mmio_ok (some ctx) = do
    (ctx', guc_res) ← load_blob malloc fopen ctx guc "firmware/bin/guc_xe_lp.raw"
    (ctx'', res) ←
        (if not (is_success guc_res) then give_up ctx' guc_res else inject_huc mmio_ok ctx')
    done (some ctx'', res)
