-- ===== src/Firmware/Kernel.antt =====
-- NtelSpoofKext/src/NtelFirmwareInjector.c, the variants of a kernel build (`__APPLE__`, no
-- NTEL_USERMODE): files read through a vnode, the window of PCI BAR0, and uploads that wait for the
-- device. What the kernel's calls and the device answer are arguments; `ntel_fw_check_mmio_space`, which
-- the file defines for the other build only, is taken from there.
pub mod Words
pub mod Upload
pub mod Inject
pub mod Owned
use n_igpu_macos.Common.{
  ℕ, zero, suc, ◌+◌, ◌-◌, ◌*◌, ◌/◌, ◌%◌, Bool, true, false, not, ◌||◌, Option, none, some, List,
  if◌then◌else◌, ltb, ◌==◌, u32, le32, length, bit_and, Exec, done, fault, ◌>>=◌, memcpy,
}
use n_igpu_macos.Firmware.{
  FirmwareBlob, FirmwareContext, FirmwareResult, success, err_not_found, err_load_failed,
  err_hardware_reject, err_vnode_open, err_vnode_read, err_too_large, guc_status_reg_offset,
  huc_status_reg_offset, guc_load_reg_offset, mmio_space, cleanup,
}
use n_igpu_macos.Firmware.Elf.{max_blob_size}
use n_igpu_macos.Firmware.Load.{FirmwareType, guc, huc, is_success, blob_for_type, with_blob}
use Prim.Native.String.{String}

-- The kernel's `NtelFirmwareContext`; `mmio_map` is whether it holds an IOMemoryMap.
pub record KernelContext : Type 0 where
  pub base : FirmwareContext
  pub mmio_map : Bool

-- What the kernel has handed out: open vnodes, contiguous blocks, and memory maps.
pub record Resources : Type 0 where
  pub vnodes : ℕ
  pub blocks : ℕ
  pub maps : ℕ

-- An open vnode: the size that `vnode_getattr` answers, and what `vn_rdwr` reads for a size, with the
-- count of the bytes that it did not read; `none` is an error.
pub record Vnode : Type 0 where
  pub size : Option ℕ
  pub rdwr : ℕ → Option (List ℕ × ℕ)

abbrev pub closed : Resources → Resources
closed r = record r { vnodes = r.vnodes - 1 }

-- The read into a fresh block of the size that is in the blob.
unfoldable pub read_block :
    Vnode → FirmwareBlob → Resources → FirmwareBlob × FirmwareResult × Resources
read_block vp blob r = elim (vp.rdwr blob.blob_size) [
  | none ↦ (
    record { blob_data = none; blob_size = 0; loaded = false },
    err_vnode_read,
    record (closed r) { blocks = r.blocks - 1 },
  )
  | some (bytes, residual) ↦
      if not (residual == 0)
      then (
        record { blob_data = none; blob_size = 0; loaded = false },
        err_vnode_read,
        record (closed r) { blocks = r.blocks - 1 },
      )
      else (record blob { blob_data = some bytes; loaded = true }, success, closed r)
]

-- `ntel_fw_read_vnode` on an open vnode; `malloc_ok` is whether IOMallocContiguous has a block of a size.
unfoldable pub read_open :
    (malloc_ok : ℕ → Bool)
    → Vnode
    → FirmwareBlob
    → Resources
    → FirmwareBlob × FirmwareResult × Resources
unfolding read_block
read_open malloc_ok vp blob r = elim vp.size [
  | none ↦ (blob, err_load_failed, closed r)
  | some size ↦
      if size == 0 || ltb max_blob_size size
      then (blob, err_too_large, closed r)
      else if malloc_ok (u32 size)
      then read_block vp (record blob { blob_size = u32 size }) (record r { blocks = r.blocks + 1 })
      else (record { blob_data = none; blob_size = 0; loaded = false }, err_load_failed, closed r)
]

-- `ntel_fw_read_vnode`, on what `vnode_open` answers.
unfoldable pub read_vnode :
    (malloc_ok : ℕ → Bool)
    → Option Vnode
    → FirmwareBlob
    → Resources
    → FirmwareBlob × FirmwareResult × Resources
unfolding read_open
read_vnode malloc_ok none blob r = (blob, err_vnode_open, r)
read_vnode malloc_ok (some vp) blob r =
    read_open malloc_ok vp blob (record r { vnodes = r.vnodes + 1 })

-- An IOMemoryMap: the memory at its address, if that is not NULL, and its length.
pub record MemoryMap : Type 0 where
  pub address : Option (List ℕ)
  pub len : ℕ

-- `ntel_fw_map_mmio`; a device is what `mapDeviceMemoryWithRegister` answers.
unfoldable pub map_mmio :
    Option (Option MemoryMap)
    → KernelContext
    → Resources
    → KernelContext × FirmwareResult × Resources
map_mmio none ctx r = (ctx, err_not_found, r)
map_mmio (some bar) ctx r = if ctx.mmio_map then (ctx, success, r) else elim bar [
  | none ↦ (ctx, err_load_failed, r)
  | some map ↦ elim map.address [
    | none ↦ (
      record { base = record ctx.base { mmio_base = none; mmio_size = 0 }; mmio_map = false },
      err_load_failed,
      r,
    )
    | some mmio ↦
        if u32 map.len == 0
        then (
          record { base = record ctx.base { mmio_base = none; mmio_size = 0 }; mmio_map = false },
          err_load_failed,
          r,
        )
        else (
          record {
            base = record ctx.base { mmio_base = some mmio; mmio_size = u32 map.len };
            mmio_map = true;
          },
          success,
          record r { maps = r.maps + 1 },
        )
  ]
]

-- `ntel_fw_load_blob` with a path; the checksum is only printed.
unfoldable pub load_blob :
    (malloc_ok : ℕ → Bool)
    → Option Vnode
    → FirmwareType
    → KernelContext
    → Resources
    → KernelContext × FirmwareResult × Resources
unfolding read_vnode
load_blob malloc_ok file type ctx r = elim (blob_for_type ctx.base type) [
  | none ↦ (ctx, err_not_found, r)
  | some blob ↦
      if blob.loaded
      then (ctx, success, r)
      else (let (blob', res, r') = read_vnode malloc_ok file blob r in
          (record ctx { base = with_blob ctx.base type blob' }, res, r'))
]

-- The blocks that a blob owns.
abbrev pub owned : FirmwareBlob → ℕ
owned blob = elim blob.blob_data [ none ↦ 0 | some _ ↦ 1 ]

-- `ntel_fw_cleanup`: both blobs' blocks and the map are given back.
unfoldable pub kernel_cleanup : KernelContext → Resources → KernelContext × Resources
kernel_cleanup ctx r = (
  record {
    base = elim (cleanup (some ctx.base)) [ none ↦ ctx.base | some base ↦ base ];
    mmio_map = false;
  },
  record r {
    blocks = r.blocks - (owned ctx.base.guc_blob + owned ctx.base.huc_blob);
    maps = if ctx.mmio_map then r.maps - 1 else r.maps;
  },
)

-- INTEL_Doorbell_REG_OFFSET
abbrev pub doorbell_reg_offset : ℕ
doorbell_reg_offset = 0x4c00

-- INTEL_GUC_LOAD_COMPLETE_TIMEOUT
abbrev pub load_complete_timeout : ℕ
load_complete_timeout = 1000000

-- The loop over the words of a blob, from word `i` on.
unfoldable pub write_words :
    (left i : ℕ) (guc_data : List ℕ) (load_reg : ℕ) (mmio : List ℕ) → Exec (List ℕ)
write_words zero i bytes load_reg mmio = done mmio
write_words (suc left) i bytes load_reg mmio = do
  mmio' ← memcpy mmio (load_reg + i * 4) bytes (i * 4) 4
  write_words left (i + 1) bytes load_reg mmio'

-- The words, and the bytes behind them.
unfoldable pub write_blob : (bytes : List ℕ) (size load_reg : ℕ) (mmio : List ℕ) → Exec (List ℕ)
unfolding write_words
write_blob bytes size load_reg mmio = do
  mmio' ← write_words (size / 4) 0 bytes load_reg mmio
  if size % 4 == 0
      then done mmio'
      else memcpy mmio' (load_reg + size / 4 * 4) bytes (size / 4 * 4) (size % 4)

-- The wait for the device: `status i` is what its status register reads the `i`-th time.
unfoldable pub wait : (left i : ℕ) → (status : ℕ → ℕ) → Bool
wait zero i status = false
wait (suc left) i status = elim (bit_and (status i) 1 == 0) [
  | true ↦ wait left (i + 1) status
  | false ↦ true
]

-- The body that the two uploads share.
unfoldable pub upload :
    FirmwareContext
    → FirmwareBlob
    → (load_offset status_offset doorbell : ℕ) → (status : ℕ → ℕ)
    → Exec (FirmwareContext × FirmwareResult)
unfolding mmio_space write_blob wait
upload ctx blob load_offset status_offset doorbell status = elim ctx.mmio_base [
  | none ↦ done (ctx, err_load_failed)
  | some mmio ↦
      if not blob.loaded
        || not (mmio_space ctx status_offset 4)
        || not (mmio_space ctx load_offset blob.blob_size)
        || not (mmio_space ctx doorbell_reg_offset 4)
      then done (ctx, err_load_failed)
      else elim blob.blob_data [
        | none ↦ fault
        | some bytes ↦ do
          off ← memcpy mmio status_offset (le32 0) 0 4
          written ← write_blob bytes blob.blob_size load_offset off
          rung ← memcpy written doorbell_reg_offset (le32 doorbell) 0 4
          let ctx' = record ctx { mmio_base = some rung }
          let answered = wait load_complete_timeout 0 status
          done (ctx', if answered then success else err_hardware_reject)
      ]
]

unfoldable pub upload_guc :
    FirmwareContext → (status : ℕ → ℕ) → Exec (FirmwareContext × FirmwareResult)
unfolding upload
upload_guc ctx status = upload ctx ctx.guc_blob guc_load_reg_offset guc_status_reg_offset 1 status

unfoldable pub upload_huc :
    FirmwareContext → (status : ℕ → ℕ) → Exec (FirmwareContext × FirmwareResult)
unfolding upload
upload_huc ctx status =
    upload ctx ctx.huc_blob (guc_load_reg_offset + 0x1000) huc_status_reg_offset 2 status
