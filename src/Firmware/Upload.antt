-- ===== src/Firmware/Upload.antt =====
-- What the uploads leave in the MMIO window.
use n_igpu_macos.Common.{
  ℕ, ◌+◌, ◌≤◌, ◌<◌, ◌≡◌, ◌∙◌, refl, Bool, true, false, ◌⊎◌, inl, inr, none, some, List, ltb,
  Option-cases, length, length-replicate, get_or, u32, le32, Exec, done, ◌>>=◌, memcpy_lem, slice,
  splice, length-slice, length-splice, get_or-splice, get_or-splice_inside, get_or-slice, replicate,
  arith,
}
use n_igpu_macos.Firmware.{
  FirmwareResult, FirmwareBlob, FirmwareContext, success, err_load_failed, cleaned, cleanup,
  verify_status, upload, mmio_space, map_mmio, upload_guc_to_hw, upload_huc_to_hw,
}

-- The window after an upload of `size` bytes.
abbrev pub uploaded : List ℕ → List ℕ → (size load_offset status_offset : ℕ) → List ℕ
uploaded mmio bytes size load_offset status_offset =
    splice (splice mmio load_offset (slice bytes 0 size)) status_offset (slice (le32 1) 0 4)

abbrev pub loaded_blob : List ℕ → ℕ → FirmwareBlob
loaded_blob bytes size = record { blob_data = some bytes; blob_size = size; loaded = true }

abbrev pub with_window : FirmwareContext → List ℕ → FirmwareContext
with_window ctx mmio = record ctx { mmio_base = some mmio; mmio_size = 0x10000 }

-- Inside the window an upload succeeds.
pub upload_fits :
    (ctx : FirmwareContext) (mmio bytes : List ℕ) (size l s : ℕ)
    → length mmio ≡ 0x10000
    → size ≤ length bytes
    → l + size ≤ 0x10000
    → s + 4 ≤ 0x10000
    → upload (with_window ctx mmio) (loaded_blob bytes size) l s
      ≡ done (with_window ctx (uploaded mmio bytes size l s), success)
unfolding upload mmio_space
upload_fits ctx mmio bytes size l s window room a b =
    let one : u32 (l + size) ≡ l + size = omega arith in
    let two : u32 (s + 4) ≡ s + 4 = omega arith in
    let fits : ltb 0x10000 (l + size) ≡ false = ground arith in
    let status_fits : ltb 0x10000 (s + 4) ≡ false = ground arith in
    let part = length-slice bytes 0 size (omega arith) in
    let kept = length-splice mmio l (slice bytes 0 size) (omega arith) in
    rw (
      one,
      two,
      fits,
      status_fits,
      memcpy_lem mmio l bytes 0 size (omega arith) (omega arith),
      memcpy_lem (splice mmio l (slice bytes 0 size)) s (le32 1) 0 4 (omega arith) (omega arith),
    )

-- The window after an upload whose status register stands before the blob.
module _ (mmio bytes : List ℕ) (size l s : ℕ) (window : length mmio ≡ 0x10000)
    (room : size ≤ length bytes) (a : l + size ≤ 0x10000) (b : s + 4 ≤ l) where
  part : length (slice bytes 0 size) ≡ size
  part = length-slice bytes 0 size (omega arith)

  status : length (slice (le32 1) 0 4) ≡ 4
  status = length-slice (le32 1) 0 4 (omega arith)

  middle : List ℕ
  middle = splice mmio l (slice bytes 0 size)

  length-middle : length middle ≡ 0x10000
  unfolding middle
  length-middle = length-splice mmio l (slice bytes 0 size) (omega (arith, part)) ∙ window

  pub length-uploaded : length (uploaded mmio bytes size l s) ≡ 0x10000
  unfolding middle
  length-uploaded =
      length-splice middle s (slice (le32 1) 0 4) (omega (arith, status, length-middle))
      ∙ length-middle

  -- the blob's own bytes
  uploaded_blob :
      (i : ℕ) → i < size → get_or (uploaded mmio bytes size l s) (l + i) 0 ≡ get_or bytes i 0
  unfolding middle
  uploaded_blob i h =
      ground (
        arith,
        status,
        part,
        length-middle,
        get_or-splice middle s (slice (le32 1) 0 4) (l + i) 0
            (omega (arith, status, length-middle)),
      )
      ∙ get_or-splice_inside mmio l (slice bytes 0 size) (omega (arith, part)) 0 i (l + i) refl
          (omega (arith, part))
      ∙ get_or-slice bytes 0 size i i 0 (omega arith) h

  uploaded_status : get_or (uploaded mmio bytes size l s) s 0 ≡ 1
  unfolding middle slice
  uploaded_status =
      get_or-splice_inside middle s (slice (le32 1) 0 4) (omega (arith, status, length-middle)) 0 0
        s (omega arith) (omega (arith, status))

  -- every other byte
  uploaded_other :
      (i : ℕ)
      → (i < s) ⊎ (s + 4 ≤ i)
      → (i < l) ⊎ (l + size ≤ i)
      → get_or (uploaded mmio bytes size l s) i 0 ≡ get_or mmio i 0
  unfolding middle
  uploaded_other i p q = ground (
    arith,
    status,
    part,
    length-middle,
    get_or-splice middle s (slice (le32 1) 0 4) i 0 (omega (arith, status, length-middle)),
    get_or-splice mmio l (slice bytes 0 size) i 0 (omega (arith, part)),
  )

-- `ntel_fw_map_mmio` and then the two uploads, in the order of `ntel_fw_inject_all`, with the result of
-- each.
pub upload_all :
    (alloc_ok : Bool)
    → FirmwareContext
    → Exec (FirmwareContext × FirmwareResult × FirmwareResult × FirmwareResult)
upload_all alloc_ok ctx = do
  let (mapped, map_res) = map_mmio alloc_ok ctx
  (ctx', guc_res) ← upload_guc_to_hw mapped
  (ctx'', huc_res) ← upload_huc_to_hw ctx'
  done (ctx'', map_res, guc_res, huc_res)

-- With no window yet and one to be had, and loaded blobs no longer than their blocks, GuC of at most
-- 46 KB and HuC of at most 42 KB: mapping the window, uploading GuC and uploading HuC each
-- succeed inside the window of 64 KB, which then holds each byte of HuC at its load offset, each byte of GuC that
-- stands before the first 4 KB end or behind HuC, and 1 in the first byte of both status
-- registers. HuC takes the place of the bytes of GuC from 4 KB on.
pub upload_all_loads :
    (ctx : FirmwareContext) (guc huc : List ℕ) (guc_size huc_size i j : ℕ)
    → guc_size ≤ length guc
    → guc_size ≤ 0xb800
    → huc_size ≤ length huc
    → huc_size ≤ 0xa800
    → i < guc_size
    → (i < 0x1000) ⊎ (0x1000 + huc_size ≤ i)
    → j < huc_size
    → let ready = record ctx {
      guc_blob = loaded_blob guc guc_size;
      huc_blob = loaded_blob huc huc_size;
      mmio_base = none;
    } in
      (mmio : List ℕ) × (upload_all true ready
        ≡ done (
          record ready { mmio_base = some mmio; mmio_size = 0x10000 },
          success,
          success,
          success,
        ))
      × (length mmio ≡ 0x10000)
      × (get_or mmio (0x4800 + i) 0 ≡ get_or guc i 0)
      × (get_or mmio (0x5800 + j) 0 ≡ get_or huc j 0)
      × (get_or mmio 0x4000 0 ≡ 1)
      × (get_or mmio 0x4400 0 ≡ 1)
unfolding upload_all map_mmio upload_guc_to_hw upload_huc_to_hw
upload_all_loads ctx guc huc n m i j guc_room guc_small huc_room huc_small p apart q =
    let window = replicate {A = ℕ} 0x10000 0 in
    let size = length-replicate {0} {A = ℕ} 0x10000 0 in
    let base = record ctx { guc_blob = loaded_blob guc n; huc_blob = loaded_blob huc m } in
    let first = uploaded window guc n 0x4800 0x4000 in
    let first_size =
      length-uploaded window guc n 0x4800 0x4000 size guc_room (omega arith) (omega arith) in
    let kept =
      uploaded_other first huc m 0x5800 0x4400 first_size huc_room (omega arith) (omega arith) in
    (
      uploaded first huc m 0x5800 0x4400,
      rw
          (
            upload_fits base window guc n 0x4800 0x4000 size guc_room (omega arith) (omega arith),
            upload_fits base first huc m 0x5800 0x4400 first_size huc_room (omega arith)
                (omega arith),
          )
          refl,
      length-uploaded first huc m 0x5800 0x4400 first_size huc_room (omega arith) (omega arith),
      kept (0x4800 + i) (inr (omega arith)) (clear apart)
          ∙ uploaded_blob window guc n 0x4800 0x4000 size guc_room (omega arith) (omega arith) i p,
      uploaded_blob first huc m 0x5800 0x4400 first_size huc_room (omega arith) (omega arith) j q,
      kept 0x4000 (inl (omega arith)) (inl (omega arith))
          ∙ uploaded_status window guc n 0x4800 0x4000 size guc_room (omega arith) (omega arith),
      uploaded_status first huc m 0x5800 0x4400 first_size huc_room (omega arith) (omega arith),
    )
  where
    clear : (i < 0x1000) ⊎ (0x1000 + m ≤ i) → (0x4800 + i < 0x5800) ⊎ (0x5800 + m ≤ 0x4800 + i)
    clear (inl before) = inl (omega arith)
    clear (inr behind) = inr (omega arith)

-- No block outlives its clean-up.
pub freed : (blob : FirmwareBlob) → (cleaned blob).blob_data ≡ none
freed blob = elim (Option-cases blob.blob_data) [
  | inl e ↦ rw e refl
  | inr found ↦ let (bytes, e) = found in rw e refl
]

-- After `ntel_fw_cleanup` the context owns no blob and no window, `ntel_fw_verify_status` fails, and
-- neither upload runs.
pub firmware_cleanup_frees :
    (ctx : FirmwareContext)
    → (after : FirmwareContext) × (cleanup (some ctx) ≡ some after)
      × (after.guc_blob.blob_data ≡ none)
      × (after.huc_blob.blob_data ≡ none)
      × (after.mmio_base ≡ none)
      × (verify_status (some after) ≡ false)
      × (upload_guc_to_hw after ≡ done (after, err_load_failed))
      × (upload_huc_to_hw after ≡ done (after, err_load_failed))
unfolding cleanup verify_status upload_guc_to_hw upload_huc_to_hw upload
firmware_cleanup_frees ctx =
    (_, refl, freed ctx.guc_blob, freed ctx.huc_blob, refl, refl, refl, refl)
