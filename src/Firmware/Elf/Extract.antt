-- ===== src/Firmware/Elf/Extract.antt =====
-- The extraction of a regular ELF file, on every branch.
use n_igpu_macos.Common.{
  ℕ, zero, suc, ◌+◌, ◌*◌, ◌%◌, ◌≤◌, ◌<◌, ◌^◌, ◌≡◌, ◌⊎◌, ◌∙◌, refl, ap, ap₂, sym, inl, inr, true,
  false, not, ◌||◌, Option, none, some, List, if◌then◌else◌, ltb, ◌==◌, eq→==, Bool-cases,
  Option-cases, length, get_or, slice, read_bytes_lem, u32, Exec, done, ◌>>=◌, arith,
}
use native.Mathlib.Nat.{mod-eq_of_lt, le_trans}
use n_igpu_macos.Firmware.{
  FirmwareBlob, FirmwareResult, success, err_not_found, err_load_failed, err_invalid_signature,
  err_hardware_reject, err_vnode_open, err_vnode_read, err_too_large,
}
use n_igpu_macos.Firmware.Elf.{
  ElfClass, elf64, elf32, Ehdr, Phdr, max_blob_size, total, gather, extract_class,
  extract_elf_load_segments,
}
use n_igpu_macos.Firmware.Elf.Image.{
  segments, image, verdict, FitsWidth, Inside, sum_sizes, length-image,
}
use n_igpu_macos.Firmware.Elf.Scan.{TableInside, passes, fails, scan-ScannedAs}
use n_igpu_macos.Firmware.Elf.Copy.{copy_segments-image}

-- The header of a file, and its segments.
abbrev pub header_of : ElfClass → List ℕ → Ehdr
header_of c bytes = c.ehdr (slice bytes 0 c.ehdr_size)

abbrev pub segments_of : ElfClass → List ℕ → List Phdr
segments_of c bytes = segments c bytes (header_of c bytes) (header_of c bytes).e_phnum 0

-- A file with whole headers in it, and with no offset that wraps.
pub record IsRegular (c : ElfClass) (bytes : List ℕ) : Type 0 where
  pub small : length bytes < 2 ^ 32
  pub ehdr_in : c.ehdr_size ≤ length bytes
  pub entsize : (header_of c bytes).e_phentsize ≡ c.phdr_size
  pub table_in :
      (header_of c bytes).e_phoff + (header_of c bytes).e_phnum * c.phdr_size ≤ length bytes
  pub fits : FitsWidth c.bits (segments_of c bytes)

-- What the extraction leaves and returns: the image if the verdict is good and a block can be had, and
-- otherwise the blob as it was with the error.
abbrev pub outcome :
    FirmwareBlob → FirmwareResult → Option (List ℕ) → List ℕ → FirmwareBlob × FirmwareResult
outcome blob success (some block) img =
    (record { blob_data = some img; blob_size = length img; loaded = true }, success)
outcome blob success none img = (blob, err_load_failed)
outcome blob err_not_found block img = (blob, err_not_found)
outcome blob err_load_failed block img = (blob, err_load_failed)
outcome blob err_invalid_signature block img = (blob, err_invalid_signature)
outcome blob err_hardware_reject block img = (blob, err_hardware_reject)
outcome blob err_vnode_open block img = (blob, err_vnode_open)
outcome blob err_vnode_read block img = (blob, err_vnode_read)
outcome blob err_too_large block img = (blob, err_too_large)

outcome_fails :
    (blob : FirmwareBlob) (e : FirmwareResult) (block : Option (List ℕ)) (img : List ℕ)
    → (e ≡ success → ⊥)
    → outcome blob e block img ≡ (blob, e)
outcome_fails blob success block img h = absurd (h refl)
outcome_fails blob err_not_found block img h = refl
outcome_fails blob err_load_failed block img h = refl
outcome_fails blob err_invalid_signature block img h = refl
outcome_fails blob err_hardware_reject block img h = refl
outcome_fails blob err_vnode_open block img h = refl
outcome_fails blob err_vnode_read block img h = refl
outcome_fails blob err_too_large block img h = refl

pub le→ltb : (a b : ℕ) → b ≤ a → ltb a b ≡ false
le→ltb a b h = ground arith

table_inside :
    (c : ElfClass) (bytes : List ℕ) (eh : Ehdr) (left i : ℕ)
    → eh.e_phentsize ≡ c.phdr_size
    → eh.e_phoff + (i + left) * c.phdr_size ≤ length bytes
    → TableInside c bytes eh left i
table_inside c bytes eh zero i same inside = tt
table_inside c bytes eh (suc left) i same inside = (
  rw same (grind arith),
  table_inside c bytes eh left (i + 1) same
      (let next : i + 1 + left ≡ i + suc left = omega arith in rw next inside),
)

module _ (malloc : ℕ → Option (List ℕ))
    (malloc_size : (n : ℕ) (block : List ℕ) → malloc n ≡ some block → length block ≡ n) where
  -- After the first loop.
  gather_passes :
      (c : ElfClass) (bytes : List ℕ) (eh : Ehdr) (blob : FirmwareBlob)
      → 2 ^ 32 ≤ 2 ^ c.bits
      → TableInside c bytes eh eh.e_phnum 0
      → Inside (length bytes) (segments c bytes eh eh.e_phnum 0)
      → sum_sizes (segments c bytes eh eh.e_phnum 0) ≤ max_blob_size
      → let segs = segments c bytes eh eh.e_phnum 0 in
        gather malloc c bytes eh blob (total (sum_sizes segs))
        ≡ done (
            outcome blob
              (if sum_sizes segs == 0 then err_invalid_signature else success)
              (malloc (sum_sizes segs))
              (image bytes segs))
  unfolding gather
  gather_passes c bytes eh blob wide table inside low =
      let segs = segments c bytes eh eh.e_phnum 0 in
      elim (Bool-cases (sum_sizes segs == 0)) [
        | inl empty ↦ rw empty
        | inr some_bytes ↦ rw some_bytes (elim (Option-cases (malloc (sum_sizes segs))) [
          | inl failed ↦ rw failed
          | inr (block, e) ↦
              let size = malloc_size (sum_sizes segs) block e in
              let exact : u32 (sum_sizes segs) ≡ sum_sizes segs = omega arith in
              rw (
                e,
                copy_segments-image c bytes eh eh.e_phnum 0 0 block table inside (omega arith)
                    (omega arith),
                exact,
                length-image bytes segs inside,
              )
        ])
      ]

  extract_class-outcome :
      (c : ElfClass) (bytes : List ℕ) (blob : FirmwareBlob)
      → 2 ^ 32 ≤ 2 ^ c.bits
      → IsRegular c bytes
      → extract_class malloc c bytes blob
        ≡ done (
            outcome blob
              (verdict (length bytes) 0 (segments_of c bytes))
              (malloc (sum_sizes (segments_of c bytes)))
              (image bytes (segments_of c bytes)))
  unfolding extract_class
  extract_class-outcome c bytes blob wide r =
      rw (big, read_bytes_lem bytes 0 c.ehdr_size (omega arith), test)
        (elim (scan-ScannedAs c bytes eh eh.e_phnum 0 0 table r.fits r.small (omega arith)) [
          | passes eq within low says ↦
              ap (λ s. s >>= gather malloc c bytes eh blob)
                (eq ∙ ap (λ n. done (total n)) from_zero)
              ∙ gather_passes c bytes eh blob wide table within (omega arith)
              ∙ ap result (
                  ap (λ n. if n == 0 then err_invalid_signature else success) (sym from_zero)
                  ∙ sym says)
          | fails e eq says failed ↦
              ap (λ s. s >>= gather malloc c bytes eh blob) eq
              ∙ ap done
                  (sym (outcome_fails blob e (malloc (sum_sizes segs)) (image bytes segs) failed))
              ∙ ap result (sym says)
        ])
    where
      eh : Ehdr
      eh = header_of c bytes

      segs : List Phdr
      segs = segments_of c bytes

      result : FirmwareResult → Exec (FirmwareBlob × FirmwareResult)
      result v = done (outcome blob v (malloc (sum_sizes segs)) (image bytes segs))

      big : ltb (length bytes) c.ehdr_size ≡ false
      big = ground arith

      from_zero : 0 + sum_sizes segs ≡ sum_sizes segs
      from_zero = omega arith

      end :
          (eh.e_phoff + eh.e_phnum * eh.e_phentsize) % 2 ^ c.bits
          ≡ eh.e_phoff + eh.e_phnum * c.phdr_size
      end =
          ap (λ k. (eh.e_phoff + eh.e_phnum * k) % 2 ^ c.bits) r.entsize
          ∙ mod-eq_of_lt (omega (arith, r.table_in, r.small, wide))

      test :
          (ltb (length bytes) ((eh.e_phoff + eh.e_phnum * eh.e_phentsize) % 2 ^ c.bits)
            || not (eh.e_phentsize == c.phdr_size))
          ≡ false
      test =
          ap₂ (λ a b. a || not b) (ap (ltb (length bytes)) end ∙ le→ltb _ _ r.table_in)
            (eq→== eh.e_phentsize c.phdr_size r.entsize)

      table : TableInside c bytes eh eh.e_phnum 0
      table =
          table_inside c bytes eh eh.e_phnum 0 r.entsize
            (let sum : 0 + eh.e_phnum ≡ eh.e_phnum = omega arith in rw sum r.table_in)

-- The struct of the file's class byte.
abbrev pub class_of : List ℕ → ElfClass
class_of bytes = if get_or bytes 4 0 == 2 then elf64 else elf32

extract_guard :
    (bytes : List ℕ)
    → 16 ≤ length bytes
    → get_or bytes 5 0 ≡ 1
    → (ltb (length bytes) 16 || not (get_or bytes 5 0 == 1)) ≡ false
extract_guard bytes long encoding = ground arith

-- A little-endian file of class 1 or 2 whose headers stand in it and whose offsets do not wrap: the
-- extraction stays inside the file and its block, and ends on every branch as the segments say.
-- If each stands in the file, and they are 1 byte to 4 MB together, and a block can be had, the blob
-- becomes their bytes, one segment behind the other; otherwise the blob is unchanged and the error
-- says which of these failed first.
pub extract-outcome :
    (malloc : ℕ → Option (List ℕ)) (bytes : List ℕ) (blob : FirmwareBlob)
    → ((n : ℕ) (block : List ℕ) → malloc n ≡ some block → length block ≡ n)
    → get_or bytes 5 0 ≡ 1
    → (get_or bytes 4 0 ≡ 2) ⊎ (get_or bytes 4 0 ≡ 1)
    → IsRegular (class_of bytes) bytes
    → let segs = segments_of (class_of bytes) bytes in
      extract_elf_load_segments malloc bytes blob
      ≡ done (
          outcome blob (verdict (length bytes) 0 segs) (malloc (sum_sizes segs)) (image bytes segs))
unfolding extract_elf_load_segments
extract-outcome malloc bytes blob malloc_size encoding (inl is64) r =
    let e : (get_or bytes 4 0 == 2) ≡ true = eq→== _ _ is64 in
    let r' = rw e at r in
    let long : 16 ≤ length bytes = le_trans (omega arith) r'.ehdr_in in
    rw (extract_guard bytes long encoding, e)
      (extract_class-outcome malloc malloc_size elf64 bytes blob (omega arith) r')
extract-outcome malloc bytes blob malloc_size encoding (inr is32) r =
    let e : (get_or bytes 4 0 == 2) ≡ false = ground arith in
    let one : (get_or bytes 4 0 == 1) ≡ true = eq→== _ _ is32 in
    let r' = rw e at r in
    let long : 16 ≤ length bytes = le_trans (omega arith) r'.ehdr_in in
    rw (extract_guard bytes long encoding, e, one)
      (extract_class-outcome malloc malloc_size elf32 bytes blob (omega arith) r')
