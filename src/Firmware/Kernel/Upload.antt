-- ===== src/Firmware/Kernel/Upload.antt =====
-- What an upload leaves in the window of the device, and what it reports.
use n_igpu_macos.Common.{
  ℕ, ◌+◌, ◌-◌, ◌%◌, ◌≤◌, ◌<◌, ◌^◌, ◌≡◌, ◌⊎◌, ◌∙◌, inl, inr, refl, false, some, List, if◌then◌else◌,
  ltb, Bool-cases, u32, le32, length, get_or, done, slice, splice, length-slice, length-splice,
  get_or-splice, get_or-slice, memcpy_lem, arith,
}
use n_igpu_macos.Firmware.{
  FirmwareContext, FirmwareResult, success, err_hardware_reject, mmio_space,
}
use n_igpu_macos.Firmware.Upload.{loaded_blob}
use n_igpu_macos.Firmware.Kernel.{load_complete_timeout, wait, upload}
use n_igpu_macos.Firmware.Kernel.Words.{
  begun, length-begun, write_blob-memcpy, Answers, wait-Answers, Answers-wait,
}

-- The window of `w` bytes.
abbrev pub with_bar : FirmwareContext → List ℕ → ℕ → FirmwareContext
with_bar ctx mmio w = record ctx { mmio_base = some mmio; mmio_size = w }

-- What the upload reports, by the device's answers.
abbrev pub Reports : (ℕ → ℕ) → FirmwareResult → Type 0
Reports status res =
    (Answers load_complete_timeout 0 status × (res ≡ success))
    ⊎ ((Answers load_complete_timeout 0 status → ⊥) × (res ≡ err_hardware_reject))

reports :
    (status : ℕ → ℕ)
    → Reports status (if wait load_complete_timeout 0 status then success else err_hardware_reject)
reports status = elim (Bool-cases (wait load_complete_timeout 0 status)) [
  | inl answered ↦ inl (wait-Answers load_complete_timeout 0 status answered, rw answered refl)
  | inr silent ↦
      inr
        ((λ a. let answered = Answers-wait load_complete_timeout 0 status a in cc), rw silent refl)
]

module _ (mmio bytes : List ℕ) (w size l s v : ℕ) where
  -- The window after each step of the upload.
  abbrev off : List ℕ
  off = splice mmio s (slice (le32 0) 0 4)

  abbrev written : List ℕ
  written = begun off bytes l size

  abbrev pub rung : List ℕ
  rung = splice written 0x4c00 (slice (le32 v) 0 4)

  module _ (window : w ≤ length mmio) (narrow : w < 2 ^ 32) (room : size ≤ length bytes)
      (fits : l + size ≤ w) (before : s + 4 ≤ l) (apart : s + 4 ≤ 0x4c00) (bell : 0x4c04 ≤ w) where
    word : (x : ℕ) → length (slice (le32 x) 0 4) ≡ 4
    word x = length-slice (le32 x) 0 4 (omega arith)

    length-off : length off ≡ length mmio
    length-off = length-splice mmio s (slice (le32 0) 0 4) (omega (arith, word 0))

    length-written : length written ≡ length mmio
    length-written = length-begun off bytes l size room (omega (arith, length-off)) ∙ length-off

    pub length-rung : length rung ≡ length mmio
    length-rung =
        length-splice written 0x4c00 (slice (le32 v) 0 4) (omega (arith, word v, length-written))
        ∙ length-written

    pub upload_runs :
        (ctx : FirmwareContext) (status : ℕ → ℕ)
        → upload (with_bar ctx mmio w) (loaded_blob bytes size) l s v status
          ≡ done (
            with_bar ctx rung w,
            if wait load_complete_timeout 0 status then success else err_hardware_reject,
          )
    unfolding upload mmio_space
    upload_runs ctx status =
        let one : u32 (s + 4) ≡ s + 4 = omega arith in
        let two : u32 (l + size) ≡ l + size = omega arith in
        let status_fits : ltb w (s + 4) ≡ false = ground arith in
        let blob_fits : ltb w (l + size) ≡ false = ground arith in
        let bell_fits : ltb w 0x4c04 ≡ false = ground arith in
        rw
          (
            one,
            two,
            status_fits,
            blob_fits,
            bell_fits,
            memcpy_lem mmio s (le32 0) 0 4 (omega arith) (omega arith),
            write_blob-memcpy off bytes l size room (omega (arith, length-off)),
            memcpy_lem written 0x4c00 (le32 v) 0 4 (omega (arith, length-written)) (omega arith),
          )
          refl

    in_rung :
        (i : ℕ)
        → get_or rung i 0 ≡ (
            if ltb i 0x4c00
            then get_or written i 0
            else if ltb i 0x4c04
            then get_or (slice (le32 v) 0 4) (i - 0x4c00) 0
            else get_or written i 0)
    in_rung i = ground (
      arith,
      word v,
      get_or-splice written 0x4c00 (slice (le32 v) 0 4) i 0 (omega (arith, word v, length-written)),
    )

    in_written :
        (i : ℕ)
        → get_or written i 0 ≡ (
            if ltb i l
            then get_or off i 0
            else if ltb i (l + size)
            then get_or bytes (i - l) 0
            else get_or off i 0)
    in_written i =
        let size_n = length-slice bytes 0 size (omega arith) in
        ground (
          arith,
          size_n,
          get_or-splice off l (slice bytes 0 size) i 0 (omega (arith, length-off)),
          get_or-slice bytes 0 size (i - l) (i - l) 0,
        )

    in_off : (i : ℕ) → (i < s) ⊎ (s + 4 ≤ i) → get_or off i 0 ≡ get_or mmio i 0
    in_off i out =
        ground
          (arith, word 0, get_or-splice mmio s (slice (le32 0) 0 4) i 0 (omega (arith, word 0)))

    pub blob_there :
        (i : ℕ)
        → i < size
        → (l + i < 0x4c00) ⊎ (0x4c04 ≤ l + i)
        → get_or rung (l + i) 0 ≡ get_or bytes i 0
    blob_there i inside clear = ground (arith, in_rung (l + i), in_written (l + i))

    pub bell_there : get_or rung 0x4c00 0 ≡ v % 256
    unfolding slice
    bell_there = ground (arith, in_rung 0x4c00)

    pub status_there : get_or rung s 0 ≡ 0
    unfolding slice
    status_there = ground (
      arith,
      word 0,
      in_rung s,
      in_written s,
      get_or-splice mmio s (slice (le32 0) 0 4) s 0 (omega (arith, word 0)),
    )

    pub rest_there :
        (j : ℕ)
        → (j < s) ⊎ (s + 4 ≤ j)
        → (j < l) ⊎ (l + size ≤ j)
        → (j < 0x4c00) ⊎ (0x4c04 ≤ j)
        → get_or rung j 0 ≡ get_or mmio j 0
    rest_there j a b c = ground (arith, in_rung j, in_written j, in_off j a)

-- In a kernel build, with a window of `w` bytes in its memory, a loaded blob of `size` bytes in its
-- block, and registers in the window, the status register before the load register and the doorbell:
-- an upload ends inside its blocks. It reports success exactly when one of the million answers of the
-- device has the lowest bit, and a rejection otherwise. Either way the window holds 0 in the first byte
-- of the status register, the lowest byte of the number in the doorbell, each byte of the blob but
-- those that the doorbell takes the place of, and every other byte as before.
pub kernel_upload_settles :
    (ctx : FirmwareContext) (mmio bytes : List ℕ) (w size l s v i j : ℕ) (status : ℕ → ℕ)
    → w ≤ length mmio
    → w < 2 ^ 32
    → size ≤ length bytes
    → l + size ≤ w
    → s + 4 ≤ l
    → s + 4 ≤ 0x4c00
    → 0x4c04 ≤ w
    → i < size
    → (l + i < 0x4c00) ⊎ (0x4c04 ≤ l + i)
    → (j < s) ⊎ (s + 4 ≤ j)
    → (j < l) ⊎ (l + size ≤ j)
    → (j < 0x4c00) ⊎ (0x4c04 ≤ j)
    → (mmio' : List ℕ) × (res : FirmwareResult) × (upload
          (with_bar ctx mmio w)
          (loaded_blob bytes size)
          l
          s
          v
          status
        ≡ done (with_bar ctx mmio' w, res))
      × Reports status res
      × (length mmio' ≡ length mmio)
      × (get_or mmio' s 0 ≡ 0)
      × (get_or mmio' 0x4c00 0 ≡ v % 256)
      × (get_or mmio' (l + i) 0 ≡ get_or bytes i 0)
      × (get_or mmio' j 0 ≡ get_or mmio j 0)
kernel_upload_settles ctx mmio bytes w size l s v i j status window narrow room fits before apart
      bell inside clear a b c =
    (
      rung mmio bytes w size l s v,
      _,
      upload_runs mmio bytes w size l s v window narrow room fits before apart bell ctx status,
      reports status,
      length-rung mmio bytes w size l s v window narrow room fits before apart bell,
      status_there mmio bytes w size l s v window narrow room fits before apart bell,
      bell_there mmio bytes w size l s v window narrow room fits before apart bell,
      blob_there mmio bytes w size l s v window narrow room fits before apart bell i inside clear,
      rest_there mmio bytes w size l s v window narrow room fits before apart bell j a b c,
    )
