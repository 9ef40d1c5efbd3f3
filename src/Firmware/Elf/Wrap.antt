-- ===== src/Firmware/Elf/Wrap.antt =====
-- A segment whose end wraps passes the first loop, and the second one reads outside the file.
use native.Mathlib.Nat.{mod-eq_of_lt}
use n_igpu_macos.Common.{
  ℕ, ◌+◌, ◌*◌, ◌%◌, ◌≤◌, ◌<◌, ◌^◌, ◌≡◌, ◌∙◌, ap, ap₂, true, false, not, ◌||◌, Option, some, List,
  ltb, ◌==◌, eq→==, length, slice, read_bytes_lem, memcpy, u32, u64, done, fault, ◌>>=◌, arith,
}
use n_igpu_macos.Firmware.{FirmwareBlob, success}
use n_igpu_macos.Firmware.Elf.{
  ElfClass, Ehdr, Phdr, phdr_at, skipped, max_blob_size, total, scan_header, scan, copy_segment,
  copy_segments, gather, extract_class,
}
use n_igpu_macos.Firmware.Elf.Extract.{header_of, le→ltb}

-- The header number 0 of a file.
abbrev pub first_of : ElfClass → List ℕ → Phdr
first_of c bytes = c.phdr (slice bytes (phdr_at (header_of c bytes) 0) c.phdr_size)

memcpy_outside : (dst src : List ℕ) (d i n : ℕ) → length src < i + n → memcpy dst d src i n ≡ fault
unfolding memcpy
memcpy_outside dst src d i n h = ground arith

module _ (malloc : ℕ → Option (List ℕ)) (c : ElfClass) (bytes : List ℕ) (blob : FirmwareBlob)
    (block : List ℕ) where
  abbrev eh : Ehdr
  eh = header_of c bytes

  abbrev ph : Phdr
  ph = first_of c bytes

  module _ (loads : skipped ph ≡ false) (inside : phdr_at eh 0 + c.phdr_size ≤ length bytes) where
    scan_wraps :
        (ph.p_offset + ph.p_filesz) % 2 ^ c.bits ≤ length bytes
        → ph.p_filesz ≤ max_blob_size
        → scan c bytes eh 1 0 0 ≡ done (total ph.p_filesz)
    unfolding scan scan_header
    scan_wraps wraps low =
        let fits : ltb (length bytes) ((ph.p_offset + ph.p_filesz) % 2 ^ c.bits) ≡ false =
          ground arith in
        let under : ltb max_blob_size (0 + ph.p_filesz) ≡ false = ground arith in
        let exact : u64 (0 + ph.p_filesz) ≡ 0 + ph.p_filesz = omega arith in
        let sum : 0 + ph.p_filesz ≡ ph.p_filesz = omega arith in
        rw (read_bytes_lem bytes (phdr_at eh 0) c.phdr_size inside, loads, fits, exact, under, sum)

    copy_faults :
        length bytes < ph.p_offset + ph.p_filesz → copy_segments c bytes eh 1 0 0 block ≡ fault
    unfolding copy_segments copy_segment
    copy_faults beyond = rw (
      read_bytes_lem bytes (phdr_at eh 0) c.phdr_size inside,
      loads,
      memcpy_outside block bytes 0 ph.p_offset ph.p_filesz beyond,
    )

-- A file of one class with one loadable segment, of 1 byte to 4 MB, that ends behind the file but whose
-- end, cut to the width of the offsets, stands in it: if a block can be had, the extraction copies from
-- outside the file.
pub extract_class_wraps :
    (malloc : ℕ → Option (List ℕ)) (c : ElfClass) (bytes : List ℕ) (blob : FirmwareBlob)
    (block : List ℕ)
    → length bytes < 2 ^ 32
    → 2 ^ 32 ≤ 2 ^ c.bits
    → c.ehdr_size ≤ length bytes
    → (header_of c bytes).e_phnum ≡ 1
    → (header_of c bytes).e_phentsize ≡ c.phdr_size
    → (header_of c bytes).e_phoff + c.phdr_size ≤ length bytes
    → (first_of c bytes).p_type ≡ 1
    → 0 < (first_of c bytes).p_filesz
    → (first_of c bytes).p_filesz ≤ max_blob_size
    → length bytes < (first_of c bytes).p_offset + (first_of c bytes).p_filesz
    → ((first_of c bytes).p_offset + (first_of c bytes).p_filesz) % 2 ^ c.bits ≤ length bytes
    → malloc (first_of c bytes).p_filesz ≡ some block
    → extract_class malloc c bytes blob ≡ fault
unfolding extract_class gather
extract_class_wraps malloc c bytes blob block small wide whole one entsize table loaded pos low
      beyond wraps found =
    rw (big, read_bytes_lem bytes 0 c.ehdr_size (omega arith), test)
      (ap (λ k. scan c bytes eh k 0 0 >>= gather malloc c bytes eh blob) one
        ∙ ap (λ s. s >>= gather malloc c bytes eh blob)
            (scan_wraps malloc c bytes blob block loads inside wraps low)
        ∙ gathered)
  where
    eh : Ehdr
    eh = header_of c bytes

    ph : Phdr
    ph = first_of c bytes

    big : ltb (length bytes) c.ehdr_size ≡ false
    big = ground arith

    loads : skipped ph ≡ false
    loads = ground arith

    inside : phdr_at eh 0 + c.phdr_size ≤ length bytes
    inside = omega (arith, table)

    end : (eh.e_phoff + eh.e_phnum * eh.e_phentsize) % 2 ^ c.bits ≡ eh.e_phoff + c.phdr_size
    end =
        ap₂ (λ n k. (eh.e_phoff + n * k) % 2 ^ c.bits) one entsize
        ∙ mod-eq_of_lt (omega (arith, table, small, wide))
        ∙ omega arith

    test :
        (ltb (length bytes) ((eh.e_phoff + eh.e_phnum * eh.e_phentsize) % 2 ^ c.bits)
          || not (eh.e_phentsize == c.phdr_size))
        ≡ false
    test =
        ap₂ (λ a b. a || not b) (ap (ltb (length bytes)) end ∙ le→ltb _ _ table)
          (eq→== eh.e_phentsize c.phdr_size entsize)

    gathered : gather malloc c bytes eh blob (total ph.p_filesz) ≡ fault
    gathered =
        let some_bytes : (ph.p_filesz == 0) ≡ false = ground arith in
        rw (some_bytes, found)
          (ap
            (λ s. s >>= λ out. done (
              record { blob_data = some out; blob_size = u32 ph.p_filesz; loaded = true },
              success,
            ))
            (ap (λ k. copy_segments c bytes eh k 0 0 block) one
              ∙ copy_faults malloc c bytes blob block loads inside beyond))
