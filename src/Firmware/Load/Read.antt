-- ===== src/Firmware/Load/Read.antt =====
-- A file is read to a blob in order, or leaves the blob as it was.
use n_igpu_macos.Common.{
  ℕ, ◌+◌, ◌≤◌, ◌≡◌, ◌⊎◌, refl, inl, inr, false, not, ◌||◌, Option, none, some, List, [], ◌∷◌, ltb,
  ◌==◌, Bool-cases, Option-cases, length, get_or, u32, Exec, done, arith,
}
use n_igpu_macos.Firmware.{
  FirmwareBlob, FirmwareResult, success, err_not_found, err_load_failed, err_invalid_signature,
  err_hardware_reject, err_vnode_open, err_vnode_read, err_too_large,
}
use n_igpu_macos.Firmware.Upload.{loaded_blob}
use n_igpu_macos.Firmware.Elf.{Phdr, max_blob_size, is_elf}
use n_igpu_macos.Firmware.Elf.Image.{verdict, image, length-image, sum_sizes, Inside}
use n_igpu_macos.Firmware.Elf.Extract.{IsRegular, class_of, segments_of, outcome, extract-outcome}
use n_igpu_macos.Firmware.Load.{Stream, take_file, read_sized, read_file}

-- A blob that owns nothing, or that owns a block of its size, of at most 4 MB.
pub data IsSaneBlob (blob : FirmwareBlob) : Type 0 where
  empty : blob.loaded ≡ false → blob.blob_data ≡ none → IsSaneBlob blob
  full :
      (bytes : List ℕ)
      → blob ≡ loaded_blob bytes (length bytes)
      → length bytes ≤ max_blob_size
      → IsSaneBlob blob

-- A file that is no ELF image, or a regular one.
abbrev pub IsSafe : List ℕ → Type 0
IsSafe bytes =
    (is_elf bytes ≡ false)
    ⊎ ((get_or bytes 5 0 ≡ 1)
        × ((get_or bytes 4 0 ≡ 2) ⊎ (get_or bytes 4 0 ≡ 1))
        × IsRegular (class_of bytes) bytes)

-- What the code reads of the stream is safe.
abbrev pub IsSafeStream : Option Stream → Type 0
IsSafeStream none = Unit
IsSafeStream (some stream) = (n : ℕ) → stream.tell ≡ some n → IsSafe (stream.read (u32 n))

-- A read that ends: a sane blob in use, or an error and the blob as it was.
pub data ReadAs (blob : FirmwareBlob) (step : Exec (FirmwareBlob × FirmwareResult)) : Type 0 where
  loads :
      (bytes : List ℕ)
      → step ≡ done (loaded_blob bytes (length bytes), success)
      → length bytes ≤ max_blob_size
      → ReadAs blob step
  fails : (e : FirmwareResult) → step ≡ done (blob, e) → (e ≡ success → ⊥) → ReadAs blob step

verdict-le :
    (size sum : ℕ) (phs : List Phdr)
    → sum ≤ max_blob_size
    → verdict size sum phs ≡ success
    → sum + sum_sizes phs ≤ max_blob_size
verdict-le size sum [] low h = omega arith
verdict-le size sum (ph ∷ phs) low h = ground (arith, verdict-le size (sum + ph.p_filesz) phs)

verdict-Inside : (size sum : ℕ) (phs : List Phdr) → verdict size sum phs ≡ success → Inside size phs
verdict-Inside size sum [] h = tt
verdict-Inside size sum (ph ∷ phs) h =
    (ground arith, verdict-Inside size (sum + ph.p_filesz) phs (ground arith))

image-le :
    (bytes : List ℕ) (phs : List Phdr)
    → verdict (length bytes) 0 phs ≡ success
    → length (image bytes phs) ≤ max_blob_size
image-le bytes phs h = omega (
  arith,
  verdict-le (length bytes) 0 phs (omega arith) h,
  length-image bytes phs (verdict-Inside (length bytes) 0 phs h),
)

-- Whatever the verdict, an outcome is in order.
outcome-ReadAs :
    (blob : FirmwareBlob) (v : FirmwareResult) (block : Option (List ℕ)) (img : List ℕ)
    → (v ≡ success → length img ≤ max_blob_size)
    → ReadAs blob (done (outcome blob v block img))
outcome-ReadAs blob success (some block) img h = loads img refl (h refl)
outcome-ReadAs blob success none img h = fails err_load_failed refl (λ e. cc)
outcome-ReadAs blob err_not_found block img h = fails err_not_found refl (λ e. cc)
outcome-ReadAs blob err_load_failed block img h = fails err_load_failed refl (λ e. cc)
outcome-ReadAs blob err_invalid_signature block img h = fails err_invalid_signature refl (λ e. cc)
outcome-ReadAs blob err_hardware_reject block img h = fails err_hardware_reject refl (λ e. cc)
outcome-ReadAs blob err_vnode_open block img h = fails err_vnode_open refl (λ e. cc)
outcome-ReadAs blob err_vnode_read block img h = fails err_vnode_read refl (λ e. cc)
outcome-ReadAs blob err_too_large block img h = fails err_too_large refl (λ e. cc)

module _ (malloc : (place size : ℕ) → Option (List ℕ))
    (malloc_size : (place n : ℕ) (block : List ℕ)
      → malloc place n ≡ some block
      → length block ≡ n) where
  take_file-ReadAs :
      (bytes : List ℕ) (blob : FirmwareBlob)
      → IsSafe bytes
      → length bytes ≤ max_blob_size
      → ReadAs blob (take_file malloc bytes blob)
  unfolding take_file
  take_file-ReadAs bytes blob (inl plain) low = loads bytes (rw plain) low
  take_file-ReadAs bytes blob (inr (encoding, class, regular)) low =
      elim (Bool-cases (is_elf bytes)) [
        | inl elf ↦
            rw (elf, extract-outcome (malloc 1) bytes blob (malloc_size 1) encoding class regular)
              (outcome-ReadAs blob (verdict (length bytes) 0 (segments_of (class_of bytes) bytes)) _
                _ (image-le bytes (segments_of (class_of bytes) bytes)))
        | inr plain ↦ loads bytes (rw plain) low
      ]

  read_sized-ReadAs :
      (stream : Stream) (blob : FirmwareBlob) (fsize : ℕ)
      → IsSafe (stream.read (u32 fsize))
      → ReadAs blob (read_sized malloc stream blob fsize)
  unfolding read_sized
  read_sized-ReadAs stream blob fsize safe =
      let bytes = stream.read (u32 fsize) in
      elim (Bool-cases (fsize == 0 || not stream.seek_set)) [
        | inl refused ↦ fails err_load_failed (rw refused) (λ e. cc)
        | inr sought ↦ elim (Bool-cases (ltb max_blob_size (u32 fsize))) [
          | inl over ↦ fails err_too_large (rw (sought, over)) (λ e. cc)
          | inr under ↦ elim (Option-cases (malloc 0 (u32 fsize))) [
            | inl failed ↦ fails err_load_failed (rw (sought, under, failed)) (λ e. cc)
            | inr (block, got) ↦ elim (Bool-cases (length bytes == u32 fsize)) [
              | inr short ↦ fails err_vnode_read (rw (sought, under, got, short)) (λ e. cc)
              | inl whole ↦
                  rw (sought, under, got, whole) (take_file-ReadAs bytes blob safe (ground arith))
            ]
          ]
        ]
      ]

  -- `ntel_fw_read_file` returns.
  pub read_file-ReadAs :
      (stream : Option Stream) (blob : FirmwareBlob)
      → IsSafeStream stream
      → ReadAs blob (read_file malloc stream blob)
  unfolding read_file
  read_file-ReadAs none blob safe = fails err_not_found refl (λ e. cc)
  read_file-ReadAs (some stream) blob safe = elim (Bool-cases stream.seek_end) [
    | inr stuck ↦ fails err_load_failed (rw stuck) (λ e. cc)
    | inl ended ↦ elim (Option-cases stream.tell) [
      | inl unknown_size ↦ fails err_load_failed (rw (ended, unknown_size)) (λ e. cc)
      | inr (fsize, told) ↦ rw (ended, told) (read_sized-ReadAs stream blob fsize (safe fsize told))
    ]
  ]
