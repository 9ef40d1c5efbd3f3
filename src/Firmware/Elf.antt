-- ===== src/Firmware/Elf.antt =====
-- NtelSpoofKext/src/NtelFirmwareInjector.c: `ntel_fw_is_elf` and `ntel_fw_extract_elf_load_segments`.
-- A file and its size are the list of its bytes. `malloc` is a parameter: the block of uninitialised
-- bytes that it returns for a size, if any.
pub mod Image
pub mod Scan
pub mod Copy
pub mod Extract
pub mod Wrap
use n_igpu_macos.Common.{
  ℕ, zero, suc, ◌+◌, ◌*◌, ◌%◌, ◌^◌, Bool, true, false, not, ◌||◌, ◌&&◌, Option, none, some, List,
  [], ◌∷◌, if◌then◌else◌, ltb, leb, ◌==◌, length, get_or, u32, u64, Exec, done, ◌>>=◌, read_bytes,
  memcpy, slice,
}
use n_igpu_macos.Firmware.{
  FirmwareBlob, FirmwareResult, success, err_load_failed, err_invalid_signature, err_too_large,
}

-- NTEL_FW_MAX_BLOB_SIZE
abbrev pub max_blob_size : ℕ
max_blob_size = 4 * 1024 * 1024

-- `ntel_fw_is_elf`
unfoldable pub is_elf : List ℕ → Bool
is_elf bytes =
    leb 4 (length bytes)
    && (get_or bytes 0 0 == 0x7f
        && (get_or bytes 1 0 == 0x45 && (get_or bytes 2 0 == 0x4c && get_or bytes 3 0 == 0x46)))

-- The value of a little-endian field.
unfoldable pub le_value : List ℕ → ℕ
le_value [] = 0
le_value (x ∷ xs) = x + 256 * le_value xs

-- The field of `width` bytes at `offset` of a packed struct.
unfoldable pub field : List ℕ → (offset width : ℕ) → ℕ
unfolding le_value slice
field raw offset width = le_value (slice raw offset width)

-- What the code reads of `Elf64_Ehdr` and of `Elf32_Ehdr`.
pub record Ehdr : Type 0 where
  pub e_phoff : ℕ
  pub e_phentsize : ℕ
  pub e_phnum : ℕ

-- What the code reads of `Elf64_Phdr` and of `Elf32_Phdr`.
pub record Phdr : Type 0 where
  pub p_type : ℕ
  pub p_offset : ℕ
  pub p_filesz : ℕ

-- What the two blocks of the function differ in: the sizes and the fields of the structs, and the
-- width of the offsets.
pub record ElfClass : Type 0 where
  pub ehdr_size : ℕ
  pub phdr_size : ℕ
  pub bits : ℕ
  pub ehdr : List ℕ → Ehdr
  pub phdr : List ℕ → Phdr

unfoldable pub ehdr64 : List ℕ → Ehdr
unfolding field
ehdr64 raw = record {
  e_phoff = field raw 32 8;
  e_phentsize = field raw 54 2;
  e_phnum = field raw 56 2;
}

unfoldable pub phdr64 : List ℕ → Phdr
unfolding field
phdr64 raw = record { p_type = field raw 0 4; p_offset = field raw 8 8; p_filesz = field raw 32 8 }

unfoldable pub ehdr32 : List ℕ → Ehdr
unfolding field
ehdr32 raw = record {
  e_phoff = field raw 28 4;
  e_phentsize = field raw 42 2;
  e_phnum = field raw 44 2;
}

unfoldable pub phdr32 : List ℕ → Phdr
unfolding field
phdr32 raw = record { p_type = field raw 0 4; p_offset = field raw 4 4; p_filesz = field raw 16 4 }

abbrev pub elf64 : ElfClass
elf64 = record { ehdr_size = 64; phdr_size = 56; bits = 64; ehdr = ehdr64; phdr = phdr64 }

abbrev pub elf32 : ElfClass
elf32 = record { ehdr_size = 52; phdr_size = 32; bits = 32; ehdr = ehdr32; phdr = phdr32 }

-- Where program header `i` stands.
abbrev pub phdr_at : Ehdr → ℕ → ℕ
phdr_at eh i = eh.e_phoff + i * eh.e_phentsize

-- `phdr.p_type != NTEL_ELF_PT_LOAD || phdr.p_filesz == 0`
abbrev pub skipped : Phdr → Bool
skipped ph = not (ph.p_type == 1) || ph.p_filesz == 0

-- The sum of the sizes, or an early return.
pub data Scanned : Type 0 where
  total : ℕ → Scanned
  refused : FirmwareResult → Scanned

-- One round of the first loop; `next` is the rest of the loop, from a sum on.
unfoldable pub scan_header :
    (bits size : ℕ) → Phdr → (total_bytes : ℕ) → (next : ℕ → Exec Scanned) → Exec Scanned
scan_header bits size ph total_bytes next =
    if skipped ph
    then next total_bytes
    else if ltb size ((ph.p_offset + ph.p_filesz) % 2 ^ bits)
    then done (refused err_invalid_signature)
    else if ltb max_blob_size (u64 (total_bytes + ph.p_filesz))
    then done (refused err_too_large)
    else next (u64 (total_bytes + ph.p_filesz))

-- The first loop over the program headers, with `left` of them to go.
unfoldable pub scan : ElfClass → List ℕ → Ehdr → (left i total_bytes : ℕ) → Exec Scanned
unfolding scan_header
scan c bytes eh zero i total_bytes = done (total total_bytes)
scan c bytes eh (suc left) i total_bytes = do
  raw ← read_bytes bytes (phdr_at eh i) c.phdr_size
  scan_header c.bits (length bytes) (c.phdr raw) total_bytes (scan c bytes eh left (i + 1))

-- One round of the second loop, which copies a segment into the block `out`.
unfoldable pub copy_segment :
    (bits : ℕ)
    → List ℕ
    → Phdr
    → (write_at : ℕ) → List ℕ
    → (next : ℕ → List ℕ → Exec (List ℕ)) → Exec (List ℕ)
copy_segment bits bytes ph write_at out next = if skipped ph then next write_at out else (do
  out' ← memcpy out write_at bytes ph.p_offset ph.p_filesz
  next ((write_at + ph.p_filesz) % 2 ^ bits) out')

-- The second loop.
unfoldable pub copy_segments :
    ElfClass → List ℕ → Ehdr → (left i write_at : ℕ) → List ℕ → Exec (List ℕ)
unfolding copy_segment
copy_segments c bytes eh zero i write_at out = done out
copy_segments c bytes eh (suc left) i write_at out = do
  raw ← read_bytes bytes (phdr_at eh i) c.phdr_size
  copy_segment c.bits bytes (c.phdr raw) write_at out (copy_segments c bytes eh left (i + 1))

module _ (malloc : ℕ → Option (List ℕ)) where
  -- What follows the first loop.
  unfoldable pub gather :
      ElfClass → List ℕ → Ehdr → FirmwareBlob → Scanned → Exec (FirmwareBlob × FirmwareResult)
  unfolding copy_segments
  gather c bytes eh blob (refused e) = done (blob, e)
  gather c bytes eh blob (total total_bytes) =
      if total_bytes == 0 then done (blob, err_invalid_signature) else elim (malloc total_bytes) [
        | none ↦ done (blob, err_load_failed)
        | some block ↦ do
          out ← copy_segments c bytes eh eh.e_phnum 0 0 block
          done
              (record { blob_data = some out; blob_size = u32 total_bytes; loaded = true }, success)
      ]

  -- The block of one class.
  unfoldable pub extract_class :
      ElfClass → List ℕ → FirmwareBlob → Exec (FirmwareBlob × FirmwareResult)
  unfolding scan gather
  extract_class c bytes blob =
      if ltb (length bytes) c.ehdr_size then done (blob, err_invalid_signature) else (do
        raw ← read_bytes bytes 0 c.ehdr_size
        let eh = c.ehdr raw
        if ltb (length bytes) ((eh.e_phoff + eh.e_phnum * eh.e_phentsize) % 2 ^ c.bits)
              || not (eh.e_phentsize == c.phdr_size)
            then done (blob, err_invalid_signature)
            else (scan c bytes eh eh.e_phnum 0 0 >>= gather c bytes eh blob))

  -- `ntel_fw_extract_elf_load_segments`; `data` and `blob` are not NULL.
  unfoldable pub extract_elf_load_segments :
      List ℕ → FirmwareBlob → Exec (FirmwareBlob × FirmwareResult)
  unfolding extract_class
  extract_elf_load_segments bytes blob =
      if ltb (length bytes) 16 || not (get_or bytes 5 0 == 1)
      then done (blob, err_invalid_signature)
      else if get_or bytes 4 0 == 2
      then extract_class elf64 bytes blob
      else if get_or bytes 4 0 == 1
      then extract_class elf32 bytes blob
      else done (blob, err_invalid_signature)
