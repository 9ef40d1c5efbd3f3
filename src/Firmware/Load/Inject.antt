-- ===== src/Firmware/Load/Inject.antt =====
-- `ntel_fw_inject_all` is all or nothing.
use Prim.Native.String.{String}
use n_igpu_macos.Common.{
  ℕ, ◌+◌, ◌≤◌, ◌<◌, ◌≡◌, ◌≢◌, ◌⊎◌, refl, ap, inl, inr, Bool, true, false, Option, none, some, List,
  ltb, Bool-cases, length, length-replicate, replicate, u32, Exec, done, ◌>>=◌, arith,
}
use n_igpu_macos.Firmware.{
  FirmwareBlob, FirmwareContext, FirmwareResult, success, err_load_failed, err_not_found,
  err_invalid_signature, err_vnode_open, err_vnode_read, err_too_large, err_hardware_reject,
  map_mmio, mmio_space, upload, upload_guc_to_hw, upload_huc_to_hw, verify_status, cleanup,
}
use n_igpu_macos.Firmware.Upload.{
  loaded_blob, freed, with_window, uploaded, upload_fits, length-uploaded,
}
use n_igpu_macos.Firmware.Elf.{max_blob_size}
use n_igpu_macos.Firmware.Load.{
  FirmwareType, guc, huc, Stream, is_success, load_blob, give_up, upload_both, upload_loaded,
  inject_huc, inject_all, with_blob,
}
use n_igpu_macos.Firmware.Load.Read.{
  IsSaneBlob, empty, full, IsSafeStream, loads, fails, read_file-ReadAs,
}

-- An upload of a sane blob returns, and the window keeps its size.
data UploadedAs (ctx : FirmwareContext) (step : Exec (FirmwareContext × FirmwareResult))
    : Type 0 where
  put :
      (mmio : List ℕ)
      → length mmio ≡ 0x10000
      → step ≡ done (with_window ctx mmio, success)
      → UploadedAs ctx step
  kept :
      (mmio : List ℕ)
      → length mmio ≡ 0x10000
      → step ≡ done (with_window ctx mmio, err_load_failed)
      → UploadedAs ctx step

upload_refused :
    (ctx : FirmwareContext) (mmio bytes : List ℕ) (l s : ℕ)
    → length bytes ≤ max_blob_size
    → l ≤ 0x10000
    → 0x10000 < l + length bytes
    → upload (with_window ctx mmio) (loaded_blob bytes (length bytes)) l s
      ≡ done (with_window ctx mmio, err_load_failed)
unfolding upload mmio_space
upload_refused ctx mmio bytes l s low start over =
    let one : u32 (l + length bytes) ≡ l + length bytes = omega arith in
    let out : ltb 0x10000 (l + length bytes) ≡ true = ground arith in rw (one, out)

upload-UploadedAs :
    (ctx : FirmwareContext) (mmio bytes : List ℕ) (l s : ℕ)
    → length mmio ≡ 0x10000
    → length bytes ≤ max_blob_size
    → s + 4 ≤ l
    → l ≤ 0x10000
    → UploadedAs ctx (upload (with_window ctx mmio) (loaded_blob bytes (length bytes)) l s)
upload-UploadedAs ctx mmio bytes l s window low before start =
    elim (Bool-cases (ltb 0x10000 (l + length bytes))) [
      | inl over ↦ kept mmio window (upload_refused ctx mmio bytes l s low start (ground arith))
      | inr fits ↦
          let inside : l + length bytes ≤ 0x10000 = ground arith in
          put (uploaded mmio bytes (length bytes) l s)
            (length-uploaded mmio bytes (length bytes) l s window (omega arith) inside before)
            (upload_fits ctx mmio bytes (length bytes) l s window (omega arith) inside
              (omega arith))
    ]

-- How the injection ends.
abbrev pub AllOrNothing : FirmwareContext → FirmwareResult → Type 0
AllOrNothing after res =
    ((res ≡ success) × (verify_status (some after) ≡ true))
    ⊎ ((res ≢ success)
        × (verify_status (some after) ≡ false)
        × (after.guc_blob.blob_data ≡ none)
        × (after.huc_blob.blob_data ≡ none)
        × (after.mmio_base ≡ none))

-- A step that ends so.
record EndsWell (step : Exec (FirmwareContext × FirmwareResult)) : Type 0 where
  after : FirmwareContext
  res : FirmwareResult
  returns : step ≡ done (after, res)
  settled : AllOrNothing after res

-- The context with both blobs loaded.
abbrev both_loaded : FirmwareContext → (g h : List ℕ) → FirmwareContext
both_loaded ctx g h = record ctx {
  guc_blob = loaded_blob g (length g);
  huc_blob = loaded_blob h (length h);
}

abbrev marked : FirmwareContext → (g h : List ℕ) → FirmwareContext
marked ctx g h = record (both_loaded ctx g h) { guc_loaded = true; huc_loaded = true }

give_up-EndsWell :
    (ctx : FirmwareContext) (e : FirmwareResult) → (e ≡ success → ⊥) → EndsWell (give_up ctx e)
unfolding cleanup verify_status
give_up-EndsWell ctx e failed = record {
  after = _;
  res = e;
  returns = refl;
  settled = inr (failed, refl, freed ctx.guc_blob, freed ctx.huc_blob, refl);
}

upload_both-EndsWell :
    (ctx : FirmwareContext) (g h mmio : List ℕ)
    → length g ≤ max_blob_size
    → length h ≤ max_blob_size
    → length mmio ≡ 0x10000
    → EndsWell (upload_both (with_window (marked ctx g h) mmio))
unfolding upload_both upload_guc_to_hw upload_huc_to_hw verify_status
upload_both-EndsWell ctx g h mmio low_g low_h window =
    elim (upload-UploadedAs base mmio g 0x4800 0x4000 window low_g (omega arith) (omega arith)) [
      | put mmio' window' eq ↦
          elim (upload-UploadedAs base mmio' h 0x5800 0x4400 window' low_h (omega arith)
            (omega arith)) [
              | put mmio'' _ eq' ↦ record {
                after = with_window base mmio'';
                res = success;
                returns = rw (eq, eq');
                settled = inl (refl, refl);
              }
              | kept mmio'' _ eq' ↦
                  rw (eq, eq')
                    (give_up-EndsWell (with_window base mmio'') err_hardware_reject (λ e. cc))
            ]
      | kept mmio' window' eq ↦
          elim (upload-UploadedAs base mmio' h 0x5800 0x4400 window' low_h (omega arith)
            (omega arith)) [
              | put mmio'' _ eq' ↦
                  rw (eq, eq')
                    (give_up-EndsWell (with_window base mmio'') err_hardware_reject (λ e. cc))
              | kept mmio'' _ eq' ↦
                  rw (eq, eq')
                    (give_up-EndsWell (with_window base mmio'') err_hardware_reject (λ e. cc))
            ]
    ]
  where
    base : FirmwareContext
    base = marked ctx g h

upload_loaded-EndsWell :
    (mmio_ok : Bool) (ctx : FirmwareContext) (g h : List ℕ)
    → length g ≤ max_blob_size
    → length h ≤ max_blob_size
    → EndsWell (upload_loaded mmio_ok (record (both_loaded ctx g h) { mmio_base = none }))
unfolding upload_loaded map_mmio verify_status
upload_loaded-EndsWell true ctx g h low_g low_h =
    upload_both-EndsWell ctx g h (replicate 0x10000 0) low_g low_h
      (length-replicate {0} {A = ℕ} 0x10000 0)
upload_loaded-EndsWell false ctx g h low_g low_h = record {
  after = _;
  res = success;
  returns = refl;
  settled = inl (refl, refl);
}

-- A load of a sane blob returns.
data LoadedAs (ctx : FirmwareContext) (type : FirmwareType)
    (step : Exec (FirmwareContext × FirmwareResult)) : Type 0 where
  has :
      (bytes : List ℕ)
      → length bytes ≤ max_blob_size
      → step ≡ done (with_blob ctx type (loaded_blob bytes (length bytes)), success)
      → LoadedAs ctx type step
  lacks : (e : FirmwareResult) → (e ≡ success → ⊥) → step ≡ done (ctx, e) → LoadedAs ctx type step

module _ (malloc : (place size : ℕ) → Option (List ℕ))
    (malloc_size : (place n : ℕ) (block : List ℕ) → malloc place n ≡ some block → length block ≡ n)
    (fopen : String → Option Stream) (path : String) (safe : IsSafeStream (fopen path)) where
  load_guc :
      (ctx : FirmwareContext)
      → IsSaneBlob ctx.guc_blob
      → LoadedAs ctx guc (load_blob malloc fopen ctx guc path)
  unfolding load_blob
  load_guc ctx (full bytes e low) = has bytes low (
      let used : ctx.guc_blob.loaded ≡ true = ap (λ (b : FirmwareBlob). b.loaded) e in
      simp used (ap (λ b. done (record ctx { guc_blob = b }, success)) e))
  load_guc ctx (empty unused _) =
      elim (read_file-ReadAs malloc malloc_size (fopen path) ctx.guc_blob safe) [
        | loads bytes eq low ↦ has bytes low (simp (unused, eq))
        | fails e eq failed ↦ lacks e failed (simp (unused, eq))
      ]

  load_huc :
      (ctx : FirmwareContext)
      → IsSaneBlob ctx.huc_blob
      → LoadedAs ctx huc (load_blob malloc fopen ctx huc path)
  unfolding load_blob
  load_huc ctx (full bytes e low) = has bytes low (
      let used : ctx.huc_blob.loaded ≡ true = ap (λ (b : FirmwareBlob). b.loaded) e in
      simp used (ap (λ b. done (record ctx { huc_blob = b }, success)) e))
  load_huc ctx (empty unused _) =
      elim (read_file-ReadAs malloc malloc_size (fopen path) ctx.huc_blob safe) [
        | loads bytes eq low ↦ has bytes low (simp (unused, eq))
        | fails e eq failed ↦ lacks e failed (simp (unused, eq))
      ]

not_success : (e : FirmwareResult) → (e ≡ success → ⊥) → is_success e ≡ false
not_success success h = absurd (h refl)
not_success err_not_found h = refl
not_success err_load_failed h = refl
not_success err_invalid_signature h = refl
not_success err_hardware_reject h = refl
not_success err_vnode_open h = refl
not_success err_vnode_read h = refl
not_success err_too_large h = refl

inject_huc-EndsWell :
    (malloc : (place size : ℕ) → Option (List ℕ)) (fopen : String → Option Stream) (mmio_ok : Bool)
    (ctx : FirmwareContext) (g : List ℕ)
    → ((place n : ℕ) (block : List ℕ) → malloc place n ≡ some block → length block ≡ n)
    → IsSafeStream (fopen "firmware/bin/huc_xe_lp.raw")
    → IsSaneBlob ctx.huc_blob
    → length g ≤ max_blob_size
    → EndsWell (
        inject_huc malloc fopen mmio_ok
          (record ctx { guc_blob = loaded_blob g (length g); mmio_base = none }))
unfolding inject_huc
inject_huc-EndsWell malloc fopen mmio_ok ctx g malloc_size safe sane low =
    let ctx1 = record ctx { guc_blob = loaded_blob g (length g); mmio_base = none } in
    elim (load_huc (λ place. malloc (place + 2)) (λ place. malloc_size (place + 2)) fopen
      "firmware/bin/huc_xe_lp.raw" safe ctx1 sane) [
        | has h low_h eq ↦ rw eq (upload_loaded-EndsWell mmio_ok ctx g h low low_h)
        | lacks e failed eq ↦ rw (eq, not_success e failed) (give_up-EndsWell ctx1 e failed)
      ]

-- On a context with no window, with blobs that own nothing or a block of their size, and with files
-- that are no ELF images or regular ones: `ntel_fw_inject_all` ends, inside all blocks and whichever
-- calls of the system fail, each allocation by itself. Either it succeeds and `ntel_fw_verify_status` holds, or it returns an
-- error, `ntel_fw_verify_status` fails, and the context owns no blob and no window.
pub inject_all_settles :
    (malloc : (place size : ℕ) → Option (List ℕ)) (fopen : String → Option Stream) (mmio_ok : Bool)
    (ctx : FirmwareContext)
    → ((place n : ℕ) (block : List ℕ) → malloc place n ≡ some block → length block ≡ n)
    → IsSafeStream (fopen "firmware/bin/guc_xe_lp.raw")
    → IsSafeStream (fopen "firmware/bin/huc_xe_lp.raw")
    → IsSaneBlob ctx.guc_blob
    → IsSaneBlob ctx.huc_blob
    → (after : FirmwareContext) × (res : FirmwareResult) × (inject_all malloc fopen mmio_ok
          (some (record ctx { mmio_base = none }))
        ≡ done (some after, res))
      × AllOrNothing after res
unfolding inject_all
inject_all_settles malloc fopen mmio_ok ctx malloc_size safe_g safe_h sane_g sane_h =
    let fresh = record ctx { mmio_base = none } in
    elim (load_guc malloc malloc_size fopen "firmware/bin/guc_xe_lp.raw" safe_g fresh sane_g) [
      | has g low eq ↦
          let r = inject_huc-EndsWell malloc fopen mmio_ok ctx g malloc_size safe_h sane_h low in
          (r.after, r.res, rw (eq, r.returns), r.settled)
      | lacks e failed eq ↦
          let r = give_up-EndsWell fresh e failed in
          (r.after, r.res, rw (eq, not_success e failed) (ap wrap r.returns), r.settled)
    ]
  where
    wrap : Exec (FirmwareContext × FirmwareResult) → Exec (Option FirmwareContext × FirmwareResult)
    wrap s = s >>= λ r. done (some r.0, r.1)
