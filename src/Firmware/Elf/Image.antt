-- ===== src/Firmware/Elf/Image.antt =====
-- What a well-formed ELF file stands for: its loadable segments, one behind the other.
use n_igpu_macos.Common.{
  ℕ, zero, suc, ◌+◌, ◌≤◌, ◌<◌, ◌^◌, ◌≡◌, List, [], ◌∷◌, ◌++◌, if◌then◌else◌, ltb, ◌==◌, length,
  length-append, slice, length-slice, arith,
}
use n_igpu_macos.Firmware.{FirmwareResult, success, err_invalid_signature, err_too_large}
use n_igpu_macos.Firmware.Elf.{ElfClass, Ehdr, Phdr, phdr_at, skipped, max_blob_size}

-- The program headers from number `i` on that are loaded.
unfoldable pub segments : ElfClass → List ℕ → Ehdr → (left i : ℕ) → List Phdr
segments c bytes eh zero i = []
segments c bytes eh (suc left) i =
    let ph = c.phdr (slice bytes (phdr_at eh i) c.phdr_size) in
    let rest = segments c bytes eh left (i + 1) in if skipped ph then rest else ph ∷ rest

-- Their bytes.
abbrev pub image : List ℕ → List Phdr → List ℕ
image bytes [] = []
image bytes (ph ∷ phs) = slice bytes ph.p_offset ph.p_filesz ++ image bytes phs

-- The verdict on the segments, after `sum` bytes: each one stands in the file, and together they are
-- 1 byte to 4 MB.
abbrev pub verdict : (size sum : ℕ) → List Phdr → FirmwareResult
verdict size sum [] = if sum == 0 then err_invalid_signature else success
verdict size sum (ph ∷ phs) =
    if ltb size (ph.p_offset + ph.p_filesz)
    then err_invalid_signature
    else if ltb max_blob_size (sum + ph.p_filesz)
    then err_too_large
    else verdict size (sum + ph.p_filesz) phs

-- No segment's end exceeds the width of the offsets.
abbrev pub FitsWidth : (bits : ℕ) → List Phdr → Type 0
FitsWidth bits [] = Unit
FitsWidth bits (ph ∷ phs) = (ph.p_offset + ph.p_filesz < 2 ^ bits) × FitsWidth bits phs

-- Each segment stands in the file.
abbrev pub Inside : (size : ℕ) → List Phdr → Type 0
Inside size [] = Unit
Inside size (ph ∷ phs) = (ph.p_offset + ph.p_filesz ≤ size) × Inside size phs

abbrev pub sum_sizes : List Phdr → ℕ
sum_sizes [] = 0
sum_sizes (ph ∷ phs) = ph.p_filesz + sum_sizes phs

pub length-image :
    (bytes : List ℕ) (phs : List Phdr)
    → Inside (length bytes) phs
    → length (image bytes phs) ≡ sum_sizes phs
length-image bytes [] h = omega arith
length-image bytes (ph ∷ phs) h = omega (
  arith,
  length-append {0} (slice bytes ph.p_offset ph.p_filesz) (image bytes phs),
  length-slice bytes ph.p_offset ph.p_filesz h.0,
  length-image bytes phs h.1,
)
