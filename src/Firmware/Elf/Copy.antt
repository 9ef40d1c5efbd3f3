-- ===== src/Firmware/Elf/Copy.antt =====
-- The second loop fills its block with the image.
use native.Mathlib.Nat.{mod-eq_of_lt}
use n_igpu_macos.Common.{
  ℕ, zero, suc, ◌+◌, ◌≤◌, ◌<◌, ◌^◌, ◌≡◌, ◌∙◌, refl, ap, sym, inl, inr, true, false, List, ◌++◌,
  append-nil, append_assoc, Bool-cases, length, take, take_all, slice, splice, length-slice,
  length-splice, take-splice, read_bytes_lem, memcpy_lem, Exec, done, arith,
}
use n_igpu_macos.Firmware.Elf.{ElfClass, Ehdr, Phdr, phdr_at, skipped, copy_segment, copy_segments}
use n_igpu_macos.Firmware.Elf.Image.{segments, image, Inside, sum_sizes}
use n_igpu_macos.Firmware.Elf.Scan.{TableInside}

module _ (c : ElfClass) (bytes : List ℕ) (eh : Ehdr) where
  abbrev phdr_of : ℕ → Phdr
  phdr_of i = c.phdr (slice bytes (phdr_at eh i) c.phdr_size)

  copy_segments-suc :
      (left i write_at : ℕ) (out : List ℕ)
      → phdr_at eh i + c.phdr_size ≤ length bytes
      → copy_segments c bytes eh (suc left) i write_at out
        ≡ copy_segment c.bits bytes (phdr_of i) write_at out (copy_segments c bytes eh left (i + 1))
  unfolding copy_segments
  copy_segments-suc left i write_at out h =
      rw (read_bytes_lem bytes (phdr_at eh i) c.phdr_size h) refl

  copy_segment_skip :
      (ph : Phdr) (write_at : ℕ) (out : List ℕ) (next : ℕ → List ℕ → Exec (List ℕ))
      → skipped ph ≡ true
      → copy_segment c.bits bytes ph write_at out next ≡ next write_at out
  unfolding copy_segment
  copy_segment_skip ph write_at out next skip = rw skip

  copy_segment_loads :
      (ph : Phdr) (write_at : ℕ) (out : List ℕ) (next : ℕ → List ℕ → Exec (List ℕ))
      → skipped ph ≡ false
      → write_at + ph.p_filesz ≤ length out
      → ph.p_offset + ph.p_filesz ≤ length bytes
      → write_at + ph.p_filesz < 2 ^ c.bits
      → copy_segment c.bits bytes ph write_at out next
        ≡ next (write_at + ph.p_filesz) (splice out write_at (slice bytes ph.p_offset ph.p_filesz))
  unfolding copy_segment
  copy_segment_loads ph write_at out next loads room inside fits =
      rw (
        loads,
        memcpy_lem out write_at bytes ph.p_offset ph.p_filesz room inside,
        mod-eq_of_lt fits,
      )

  -- From a block whose rest has the size of the segments left, the loop ends, inside file and block, and
  -- leaves what stood before and then the image.
  pub copy_segments-image :
      (left i write_at : ℕ) (out : List ℕ)
      → TableInside c bytes eh left i
      → Inside (length bytes) (segments c bytes eh left i)
      → write_at + sum_sizes (segments c bytes eh left i) ≡ length out
      → length out < 2 ^ c.bits
      → copy_segments c bytes eh left i write_at out
        ≡ done (take write_at out ++ image bytes (segments c bytes eh left i))
  unfolding segments
  copy_segments-image zero i write_at out table inside room small =
      unfold copy_segments in
      (ap done (sym (append-nil (take write_at out) ∙ take_all out write_at (omega arith))))
  copy_segments-image (suc left) i write_at out table inside room small =
      rw (copy_segments-suc left i write_at out table.0) (elim (Bool-cases (skipped (phdr_of i))) [
        | inl skip ↦
            rw
              (
                skip,
                copy_segment_skip (phdr_of i) write_at out (copy_segments c bytes eh left (i + 1))
                    skip,
              )
              (copy_segments-image left (i + 1) write_at out table.1 (rw skip at inside)
                (rw skip at room) small)
        | inr loads ↦
            let inside' = rw loads at inside in
            let room' = rw loads at room in
            let ph = phdr_of i in
            let piece = slice bytes ph.p_offset ph.p_filesz in
            let size = length-slice bytes ph.p_offset ph.p_filesz inside'.0 in
            let fits : write_at + ph.p_filesz ≤ length out = omega arith in
            let kept = length-splice out write_at piece (omega arith) in
            let rest = segments c bytes eh left (i + 1) in
            rw loads (
              copy_segment_loads ph write_at out (copy_segments c bytes eh left (i + 1)) loads fits
                inside'.0 (omega arith)
              ∙ copy_segments-image left (i + 1) (write_at + ph.p_filesz)
                  (splice out write_at piece) table.1 inside'.1 (omega arith) (rw kept small)
              ∙ ap (λ t. done (t ++ image bytes rest))
                  (take-splice out write_at (write_at + ph.p_filesz) piece (omega arith)
                    (omega arith))
              ∙ ap done (append_assoc (take write_at out) piece (image bytes rest)))
      ])
