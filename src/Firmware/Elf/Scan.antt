-- ===== src/Firmware/Elf/Scan.antt =====
-- The first loop passes exactly the files whose segments pass the verdict.
use n_igpu_macos.Common.{
  ℕ, zero, suc, ◌+◌, ◌%◌, ◌≤◌, ◌<◌, ◌^◌, ◌≡◌, refl, inl, inr, true, false, List, ◌∷◌, if◌then◌else◌,
  ltb, ◌==◌, Bool-cases, length, slice, read_bytes_lem, u64, Exec, done, arith,
}
use native.Mathlib.Nat.{mod-eq_of_lt}
use n_igpu_macos.Firmware.{FirmwareResult, success, err_invalid_signature, err_too_large}
use n_igpu_macos.Firmware.Elf.{
  ElfClass, Ehdr, Phdr, phdr_at, skipped, max_blob_size, Scanned, total, refused, scan_header, scan,
}
use n_igpu_macos.Firmware.Elf.Image.{segments, verdict, FitsWidth, Inside, sum_sizes}

-- Each program header from number `i` on stands in the file.
abbrev pub TableInside : ElfClass → List ℕ → Ehdr → (left i : ℕ) → Type 0
TableInside c bytes eh zero i = Unit
TableInside c bytes eh (suc left) i =
    (phdr_at eh i + c.phdr_size ≤ length bytes) × TableInside c bytes eh left (i + 1)

-- What the loop returns: the sum of a file that passes, or the error of one that does not.
pub data ScannedAs (size sum : ℕ) (phs : List Phdr) (step : Exec Scanned) : Type 0 where
  passes :
      step ≡ done (total (sum + sum_sizes phs))
      → Inside size phs
      → sum + sum_sizes phs ≤ max_blob_size
      → verdict size sum phs ≡ (if sum + sum_sizes phs == 0 then err_invalid_signature else success)
      → ScannedAs size sum phs step
  fails :
      (e : FirmwareResult)
      → step ≡ done (refused e)
      → verdict size sum phs ≡ e
      → (e ≡ success → ⊥)
      → ScannedAs size sum phs step

module _ (c : ElfClass) (bytes : List ℕ) (eh : Ehdr) where
  abbrev phdr_of : ℕ → Phdr
  phdr_of i = c.phdr (slice bytes (phdr_at eh i) c.phdr_size)

  scan-suc :
      (left i sum : ℕ)
      → phdr_at eh i + c.phdr_size ≤ length bytes
      → scan c bytes eh (suc left) i sum
        ≡ scan_header c.bits (length bytes) (phdr_of i) sum (scan c bytes eh left (i + 1))
  unfolding scan
  scan-suc left i sum h = rw (read_bytes_lem bytes (phdr_at eh i) c.phdr_size h) refl

  scan_header_skip :
      (ph : Phdr) (sum : ℕ) (next : ℕ → Exec Scanned)
      → skipped ph ≡ true
      → scan_header c.bits (length bytes) ph sum next ≡ next sum
  unfolding scan_header
  scan_header_skip ph sum next skip = rw skip

  -- A header that stands in the file and under the limit leaves the verdict to the rest.
  scan_on :
      (ph : Phdr) (phs : List Phdr) (sum : ℕ) (next : ℕ → Exec Scanned)
      → skipped ph ≡ false
      → (ph.p_offset + ph.p_filesz) % 2 ^ c.bits ≡ ph.p_offset + ph.p_filesz
      → ltb (length bytes) (ph.p_offset + ph.p_filesz) ≡ false
      → u64 (sum + ph.p_filesz) ≡ sum + ph.p_filesz
      → ltb max_blob_size (sum + ph.p_filesz) ≡ false
      → ph.p_offset + ph.p_filesz ≤ length bytes
      → ScannedAs (length bytes) (sum + ph.p_filesz) phs (next (sum + ph.p_filesz))
      → ScannedAs (length bytes) sum (ph ∷ phs) (scan_header c.bits (length bytes) ph sum next)
  unfolding scan_header
  scan_on ph phs sum next loads whole inside exact fine there (passes eq within low says) =
      let sums : sum + ph.p_filesz + sum_sizes phs ≡ sum + (ph.p_filesz + sum_sizes phs) =
        omega arith in
      passes (rw (loads, whole, inside, exact, fine) (rw sums at eq)) (there, within) (omega arith)
        (rw (inside, fine) (rw sums at says))
  scan_on ph phs sum next loads whole inside exact fine there (fails e eq says not_success) =
      fails e (rw (loads, whole, inside, exact, fine) eq) (rw (inside, fine) says) not_success

  -- A loaded header in front.
  scan_header-ScannedAs :
      (ph : Phdr) (phs : List Phdr) (sum : ℕ) (next : ℕ → Exec Scanned)
      → skipped ph ≡ false
      → ph.p_offset + ph.p_filesz < 2 ^ c.bits
      → length bytes < 2 ^ 32
      → sum ≤ max_blob_size
      → (sum + ph.p_filesz ≤ max_blob_size
          → ScannedAs (length bytes) (sum + ph.p_filesz) phs (next (sum + ph.p_filesz)))
      → ScannedAs (length bytes) sum (ph ∷ phs) (scan_header c.bits (length bytes) ph sum next)
  unfolding scan_header
  scan_header-ScannedAs ph phs sum next loads fits small low ih =
      let whole = mod-eq_of_lt fits in
      elim (Bool-cases (ltb (length bytes) (ph.p_offset + ph.p_filesz))) [
        | inl out ↦ fails err_invalid_signature (rw (loads, whole, out)) (rw out) (λ e. cc)
        | inr inside ↦
            let there : ph.p_offset + ph.p_filesz ≤ length bytes = ground arith in
            let exact : u64 (sum + ph.p_filesz) ≡ sum + ph.p_filesz = omega arith in
            elim (Bool-cases (ltb max_blob_size (sum + ph.p_filesz))) [
              | inl over ↦
                  fails err_too_large (rw (loads, whole, inside, exact, over)) (rw (inside, over))
                    (λ e. cc)
              | inr fine ↦
                  scan_on ph phs sum next loads (whole) inside exact fine there (ih (ground arith))
            ]
      ]

  pub scan-ScannedAs :
      (left i sum : ℕ)
      → TableInside c bytes eh left i
      → FitsWidth c.bits (segments c bytes eh left i)
      → length bytes < 2 ^ 32
      → sum ≤ max_blob_size
      → ScannedAs (length bytes) sum (segments c bytes eh left i) (scan c bytes eh left i sum)
  unfolding segments
  scan-ScannedAs zero i sum inside fits small low =
      let same : sum + 0 ≡ sum = omega arith in
      passes (rw same (unfold scan in refl)) tt (omega arith) (rw same)
  scan-ScannedAs (suc left) i sum inside fits small low =
      rw (scan-suc left i sum inside.0) (elim (Bool-cases (skipped (phdr_of i))) [
        | inl skip ↦
            rw (skip, scan_header_skip (phdr_of i) sum (scan c bytes eh left (i + 1)) skip)
              (scan-ScannedAs left (i + 1) sum inside.1 (rw skip at fits) small low)
        | inr loads ↦ rw loads (
            scan_header-ScannedAs (phdr_of i) (segments c bytes eh left (i + 1)) sum
              (scan c bytes eh left (i + 1)) loads (rw loads at fits).0 small low
              λ low'.
                scan-ScannedAs left (i + 1) (sum + (phdr_of i).p_filesz) inside.1
                  (rw loads at fits).1 small low')
      ])
