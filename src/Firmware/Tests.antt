-- ===== src/Firmware/Tests.antt =====
-- The uploads and the loading at concrete blobs and files.
use n_igpu_macos.Common.{
  ℕ, ◌+◌, ◌*◌, ◌≡◌, refl, inl, true, false, none, some, List, [], ◌∷◌, length, get_or, done, arith,
  some-inj, none-some, Option, inr, ap, ◌∙◌, sym, Bool-cases, ◌++◌, replicate, if◌then◌else◌, leb,
  ◌==◌, length-replicate, fault, slice, ltb,
}
use n_igpu_macos.Firmware.{
  FirmwareResult, FirmwareBlob, FirmwareContext, success, err_load_failed, simple_checksum,
  checksum_from, upload_guc_to_hw, upload_huc_to_hw, verify_status, cleanup,
}
use n_igpu_macos.Firmware.Upload.{loaded_blob, upload_all, upload_all_loads, firmware_cleanup_frees}
use Prim.Native.String.{String}
use text.Mathlib.Text.{◌==◌ as str_eq}
use n_igpu_macos.Firmware.Elf.{
  elf64, ehdr64, phdr64, field, le_value, extract_class, extract_elf_load_segments,
}
use n_igpu_macos.Firmware.Elf.Image.{segments, image, verdict, sum_sizes}
use n_igpu_macos.Firmware.Elf.Extract.{IsRegular, segments_of, outcome, extract-outcome}
use n_igpu_macos.Firmware.Elf.Wrap.{extract_class_wraps}
use n_igpu_macos.Firmware.Load.{Stream, inject_all}
use n_igpu_macos.Firmware.Load.Read.{empty}
use n_igpu_macos.Firmware.Load.{FirmwareType}
use n_igpu_macos.Firmware.Kernel.{
  KernelContext, Resources, Vnode, load_blob, map_mmio, kernel_cleanup, upload,
}
use n_igpu_macos.Firmware.Kernel.Upload.{with_bar, Reports, kernel_upload_settles}
use n_igpu_macos.Firmware.Kernel.Inject.{inject_huc, inject_loaded, inject_all as kernel_inject_all}
use n_igpu_macos.Firmware.Kernel.Owned.{IsBalanced}
use n_igpu_macos.Firmware.Kernel.Owned.Calls.{
  KernelCall, load, map_bar, inject, clean, run_call, run_calls, kernel_calls_balance,
}
use n_igpu_macos.Firmware.Load.Inject.{AllOrNothing, inject_all_settles}

abbrev guc : List ℕ
guc = 0x11 ∷ 0x12 ∷ 0x13 ∷ []

abbrev huc : List ℕ
huc = 0x21 ∷ 0x22 ∷ []

-- Both blobs are loaded, and there is no window.
abbrev context : FirmwareContext
context = record {
  device_id = 0x9a49;
  firmware_version = 1;
  guc_loaded = true;
  huc_loaded = true;
  guc_blob = loaded_blob guc 3;
  huc_blob = loaded_blob huc 2;
  mmio_base = none;
  mmio_size = 0;
}

simple_checksum-guc : simple_checksum guc ≡ (0x11 * 33 + 0x12) * 33 + 0x13
unfolding simple_checksum checksum_from
simple_checksum-guc = refl

upload_all_loads_example :
    (mmio : List ℕ) × (upload_all true context
      ≡ done (
        record context { mmio_base = some mmio; mmio_size = 0x10000 },
        success,
        success,
        success,
      ))
    × (length mmio ≡ 0x10000)
    × (get_or mmio (0x4800 + 2) 0 ≡ 0x13)
    × (get_or mmio (0x5800 + 1) 0 ≡ 0x22)
    × (get_or mmio 0x4000 0 ≡ 1)
    × (get_or mmio 0x4400 0 ≡ 1)
upload_all_loads_example =
    upload_all_loads context guc huc 3 2 2 1 (omega arith) (omega arith) (omega arith) (omega arith)
      (omega arith) (inl (omega arith)) (omega arith)

firmware_cleanup_frees_example :
    (after : FirmwareContext) × (cleanup (some context) ≡ some after)
    × (after.guc_blob.blob_data ≡ none)
    × (after.huc_blob.blob_data ≡ none)
    × (after.mmio_base ≡ none)
    × (verify_status (some after) ≡ false)
    × (upload_guc_to_hw after ≡ done (after, err_load_failed))
    × (upload_huc_to_hw after ≡ done (after, err_load_failed))
firmware_cleanup_frees_example = firmware_cleanup_frees context

abbrev zeros : ℕ → List ℕ
zeros n = replicate n 0

-- A 64-bit ELF file with one loadable segment, and three bytes behind its headers. The two arguments
-- are the bytes of the segment's offset and size.
abbrev elf_file : List ℕ → List ℕ → List ℕ
elf_file offset filesz =
    (0x7f ∷ 0x45 ∷ 0x4c ∷ 0x46 ∷ 2 ∷ 1 ∷ zeros 26)
    ++ (64 ∷ zeros 7)
    ++ zeros 14
    ++ (56 ∷ 0 ∷ 1 ∷ 0 ∷ zeros 6)
    ++ (1 ∷ zeros 7)
    ++ offset
    ++ zeros 16
    ++ filesz
    ++ zeros 16
    ++ (0xa1 ∷ 0xa2 ∷ 0xa3 ∷ [])

abbrev firmware_file : List ℕ
firmware_file = elf_file (120 ∷ zeros 7) (3 ∷ zeros 7)

-- Its segment starts 8 bytes before 2 ^ 64 and has 16 bytes.
abbrev wrapping_file : List ℕ
wrapping_file = elf_file (0xf8 ∷ replicate 7 0xff) (16 ∷ zeros 7)

-- A `malloc` that has 4 MB.
abbrev blocks : ℕ → Option (List ℕ)
blocks n = if leb n 0x40_0000 then some (replicate n 0xcc) else none

blocks_size : (n : ℕ) (block : List ℕ) → blocks n ≡ some block → length block ≡ n
blocks_size n block e = elim (Bool-cases (leb n 0x40_0000)) [
  | inl fits ↦ ap length (sym (some-inj (rw fits at e))) ∙ length-replicate {0} {A = ℕ} n 0xcc
  | inr over ↦ absurd (none-some (rw over at e))
]

firmware_file-IsRegular : IsRegular elf64 firmware_file
unfolding ehdr64 phdr64 segments field le_value slice
firmware_file-IsRegular = record {
  small = omega arith;
  ehdr_in = omega arith;
  entsize = refl;
  table_in = omega arith;
  fits = (omega arith, tt);
}

abbrev no_blob : FirmwareBlob
no_blob = record { blob_data = none; blob_size = 0; loaded = false }

image-firmware_file :
    image firmware_file (segments_of elf64 firmware_file) ≡ 0xa1 ∷ 0xa2 ∷ 0xa3 ∷ []
unfolding ehdr64 phdr64 segments field le_value slice
image-firmware_file = refl

extract-outcome_example :
    extract_elf_load_segments blocks firmware_file no_blob
    ≡ done (
        outcome no_blob
          (verdict 123 0 (segments_of elf64 firmware_file))
          (blocks (sum_sizes (segments_of elf64 firmware_file)))
          (image firmware_file (segments_of elf64 firmware_file)))
extract-outcome_example =
    extract-outcome blocks firmware_file no_blob blocks_size refl (inl refl) firmware_file-IsRegular

extract_class_wraps_example : extract_class blocks elf64 wrapping_file no_blob ≡ fault
unfolding ehdr64 phdr64 field le_value slice
extract_class_wraps_example =
    extract_class_wraps blocks elf64 wrapping_file no_blob (replicate 16 0xcc) (omega arith)
      (omega arith) (omega arith) refl refl (omega arith) refl (omega arith) (omega arith)
      (omega arith) (omega arith) refl

-- GuC is the ELF file, and there is no file for HuC.
abbrev files : String → Option Stream
files path =
    if str_eq path "firmware/bin/guc_xe_lp.raw"
    then some
        (record { seek_end = true; tell = some 123; seek_set = true; read = λ n. firmware_file })
    else none

-- The file is read; the block for its segments is the one that cannot be had.
abbrev answers : (place size : ℕ) → Option (List ℕ)
answers place size = if place == 1 then none else blocks size

answers_size : (place n : ℕ) (block : List ℕ) → answers place n ≡ some block → length block ≡ n
answers_size place n block e = elim (Bool-cases (place == 1)) [
  | inl one ↦ absurd (none-some (sym (ap (λ b. if b then none else blocks n) one) ∙ e))
  | inr other ↦ blocks_size n block (sym (ap (λ b. if b then none else blocks n) other) ∙ e)
]

inject_all_settles_example :
    (after : FirmwareContext) × (res : FirmwareResult) × (inject_all answers files true
        (some (record context { guc_blob = no_blob; huc_blob = no_blob; mmio_base = none }))
      ≡ done (some after, res))
    × AllOrNothing after res
inject_all_settles_example =
    inject_all_settles answers files true
      (record context { guc_blob = no_blob; huc_blob = no_blob }) answers_size
      (λ n e. inr (refl, inl refl, firmware_file-IsRegular)) tt (empty refl refl) (empty refl refl)

-- The device answers the third time.
abbrev third : ℕ → ℕ
third i = if ltb i 2 then 0 else 1

kernel_upload_settles_example :
    (mmio' : List ℕ) × (res : FirmwareResult) × (upload
        (with_bar context (zeros 0x4c04) 0x4c04)
        (loaded_blob guc 3)
        0x4800
        0x4400
        1
        third
      ≡ done (with_bar context mmio' 0x4c04, res))
    × Reports third res
    × (length mmio' ≡ length (zeros 0x4c04))
    × (get_or mmio' 0x4400 0 ≡ 0)
    × (get_or mmio' 0x4c00 0 ≡ 1)
    × (get_or mmio' 0x4802 0 ≡ 0x13)
    × (get_or mmio' 8 0 ≡ get_or (zeros 0x4c04) 8 0)
kernel_upload_settles_example =
    kernel_upload_settles context (zeros 0x4c04) guc 0x4c04 3 0x4800 0x4400 1 2 8 third
      (omega (arith, length-replicate {A = ℕ} 0x4c04 0)) (omega arith) (omega arith) (omega arith)
      (omega arith) (omega arith) (omega arith) (omega arith) (inl (omega arith))
      (inl (omega arith)) (inl (omega arith)) (inl (omega arith))

-- No blob is loaded and nothing is mapped; two loads, of which one comes back short, two mappings, and
-- an injection.
abbrev kernel_context : KernelContext
kernel_context = record {
  base = record context { guc_blob = no_blob; huc_blob = no_blob };
  mmio_map = false;
}

abbrev idle : Resources
idle = record { vnodes = 1; blocks = 2; maps = 3 }

abbrev short_file : Vnode
short_file = record { size = some 5; rdwr = λ n. some (zeros n, 2) }

abbrev whole_file : Vnode
whole_file = record { size = some 5; rdwr = λ n. some (zeros n, 0) }

abbrev calls : List KernelCall
calls =
    load (λ _. true) (some short_file) FirmwareType.huc
    ∷ load (λ _. true) (some whole_file) FirmwareType.guc
    ∷ map_bar (some (some (record { address = some (zeros 4); len = 4 })))
    ∷ map_bar (some none)
    ∷ inject (λ _. true) (λ _. true) (λ path. some whole_file) third third
    ∷ []

-- Both blocks and the map are held; the short read gave its block back.
calls_hold :
    (ctx : KernelContext) × (run_calls calls (kernel_context, idle)
      ≡ done (ctx, record { vnodes = 1; blocks = 4; maps = 4 }))
unfolding run_calls run_call load_blob map_mmio kernel_inject_all inject_huc inject_loaded
calls_hold = (_, refl)

-- After a cleanup, an injection of two files of one size, of which only the second cannot be allocated.
abbrev more_calls : List KernelCall
more_calls =
    calls ++ (clean ∷ inject (λ _. true) (λ _. false) (λ path. some whole_file) third third ∷ [])

kernel_calls_balance_example :
    (s : KernelContext × Resources) × (run_calls more_calls (kernel_context, idle) ≡ done s)
    × IsBalanced idle s
    × ((kernel_cleanup s.0 s.1).1 ≡ idle)
kernel_calls_balance_example = kernel_calls_balance more_calls kernel_context idle refl refl refl
