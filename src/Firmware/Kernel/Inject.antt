-- ===== src/Firmware/Kernel/Inject.antt =====
-- `ntel_fw_inject_all` in a kernel build.
use n_igpu_macos.Common.{ℕ, Bool, true, not, ◌||◌, Option, none, if◌then◌else◌, Exec, done, ◌>>=◌}
use n_igpu_macos.Firmware.{FirmwareResult, success, err_hardware_reject}
use n_igpu_macos.Firmware.Load.{guc, huc, is_success}
use Prim.Native.String.{String}
use n_igpu_macos.Firmware.Kernel.{
  KernelContext, Resources, Vnode, map_mmio, load_blob, kernel_cleanup, upload_guc, upload_huc,
}

-- `ntel_fw_cleanup`, and an error.
abbrev pub give_up :
    KernelContext → FirmwareResult → Resources → Exec (KernelContext × FirmwareResult × Resources)
give_up ctx res r = let (ctx', r') = kernel_cleanup ctx r in done (ctx', res, r')

-- What the device answers after each doorbell.
module _ (guc_status huc_status : ℕ → ℕ) where
  -- The two uploads.
  unfoldable pub upload_mapped :
      KernelContext → Resources → Exec (KernelContext × FirmwareResult × Resources)
  unfolding upload_guc upload_huc
  upload_mapped ctx r = do
    (base, guc_upload) ← upload_guc ctx.base guc_status
    (base', huc_upload) ← upload_huc base huc_status
    let ctx' = record ctx { base = base' }
    if not (is_success guc_upload) || not (is_success huc_upload)
        then give_up ctx' err_hardware_reject r
        else done (ctx', success, r)

  -- What follows the two loads: the device that is handed to `ntel_fw_map_mmio` is NULL.
  unfoldable pub inject_loaded :
      KernelContext → Resources → Exec (KernelContext × FirmwareResult × Resources)
  unfolding map_mmio upload_mapped
  inject_loaded ctx r =
      let loaded = record ctx { base = record ctx.base { guc_loaded = true; huc_loaded = true } } in
      let (ctx', res, r') = map_mmio none loaded r in
      if is_success res then upload_mapped ctx' r' else done (ctx', success, r')

  -- Each load allocates at most one block, and the allocator answers each load by itself.
  module _ (guc_malloc_ok huc_malloc_ok : ℕ → Bool) (vnode_open : String → Option Vnode) where
    -- `ntel_fw_inject_all` once GuC is loaded.
    unfoldable pub inject_huc :
        KernelContext → Resources → Exec (KernelContext × FirmwareResult × Resources)
    unfolding load_blob inject_loaded
    inject_huc ctx r =
        let (ctx', huc_res, r') =
          load_blob huc_malloc_ok (vnode_open "firmware/bin/huc_xe_lp.raw") huc ctx r in
        if not (is_success huc_res) then give_up ctx' huc_res r' else inject_loaded ctx' r'

    -- `ntel_fw_inject_all`
    unfoldable pub inject_all :
        KernelContext → Resources → Exec (KernelContext × FirmwareResult × Resources)
    unfolding load_blob inject_huc
    inject_all ctx r =
        let (ctx', guc_res, r') =
          load_blob guc_malloc_ok (vnode_open "firmware/bin/guc_xe_lp.raw") guc ctx r in
        if not (is_success guc_res) then give_up ctx' guc_res r' else inject_huc ctx' r'
