-- ===== src/Firmware/Kernel/Words.antt =====
-- The copy in words is one copy, and the wait is a search among the answers.
use n_igpu_macos.Common.{
  ℕ, zero, suc, ◌+◌, ◌-◌, ◌*◌, ◌/◌, ◌%◌, ◌≤◌, ◌<◌, ◌≡◌, ◌≢◌, ◌⊎◌, ◌∙◌, inl, inr, refl, ap, sym,
  true, false, List, ◌==◌, ==_iff, Bool-cases, length, get_or, get_or_ext, bit_and, done, slice,
  splice, length-slice, length-splice, get_or-splice, get_or-slice, memcpy, memcpy_lem, arith,
}
use n_igpu_macos.Firmware.Kernel.{write_words, write_blob, wait}

module _ (mmio bytes : List ℕ) (l : ℕ) where
  -- The window with the first `n` bytes of the blob.
  abbrev pub begun : ℕ → List ℕ
  begun n = splice mmio l (slice bytes 0 n)

  pub length-begun :
      (n : ℕ) → n ≤ length bytes → l + n ≤ length mmio → length (begun n) ≡ length mmio
  length-begun n room fits =
      length-splice mmio l (slice bytes 0 n) (omega (arith, length-slice bytes 0 n (omega arith)))

  module _ (k m n at : ℕ) (whole : n ≡ k + m) (behind : at ≡ l + k) (room : n ≤ length bytes)
      (fits : l + n ≤ length mmio) where
    longer_length : length (splice (begun k) at (slice bytes k m)) ≡ length (begun n)
    longer_length =
        length-splice (begun k) at (slice bytes k m) (
          omega (
            arith,
            length-slice bytes k m (omega arith),
            length-begun k (omega arith) (omega arith),
          ))
        ∙ length-begun k (omega arith) (omega arith)
        ∙ sym (length-begun n room fits)

    longer_at : (i : ℕ) → get_or (splice (begun k) at (slice bytes k m)) i 0 ≡ get_or (begun n) i 0
    longer_at i =
        let size_k = length-slice bytes 0 k (omega arith) in
        let size_m = length-slice bytes k m (omega arith) in
        let size_n = length-slice bytes 0 n (omega arith) in
        let kept = length-begun k (omega arith) (omega arith) in
        ground (
          arith,
          size_k,
          size_m,
          size_n,
          get_or-splice (begun k) at (slice bytes k m) i 0 (omega arith),
          get_or-splice mmio l (slice bytes 0 k) i 0 (omega arith),
          get_or-splice mmio l (slice bytes 0 n) i 0 (omega arith),
          get_or-slice bytes k m (i - at) (i - l) 0,
          get_or-slice bytes 0 k (i - l) (i - l) 0,
          get_or-slice bytes 0 n (i - l) (i - l) 0,
        )

    -- A copy behind the first bytes makes them longer.
    longer : memcpy (begun k) at bytes k m ≡ done (begun n)
    longer =
        memcpy_lem (begun k) at bytes k m
          (omega (arith, length-begun k (omega arith) (omega arith))) (omega arith)
        ∙ ap done (
            get_or_ext 0 (splice (begun k) at (slice bytes k m)) (begun n) longer_length
              (λ i _. longer_at i))

  write_words_from :
      (left i n : ℕ)
      → n ≡ (i + left) * 4
      → n ≤ length bytes
      → l + n ≤ length mmio
      → write_words left i bytes l (begun (i * 4)) ≡ done (begun n)
  unfolding write_words
  write_words_from zero i n whole room fits = let same : n ≡ i * 4 = omega arith in rw same refl
  write_words_from (suc left) i n whole room fits =
      let next : (i + 1) * 4 ≡ i * 4 + 4 = omega arith in
      rw (longer (i * 4) 4 ((i + 1) * 4) (l + i * 4) next refl (omega arith) (omega arith))
        (write_words_from left (i + 1) n (omega arith) room fits)

  begun_nothing : l ≤ length mmio → begun 0 ≡ mmio
  begun_nothing inside =
      get_or_ext 0 (begun 0) mmio (length-begun 0 (omega arith) (omega arith)) λ i _.
        let none_there = length-slice bytes 0 0 (omega arith) in
        ground (arith, none_there, get_or-splice mmio l (slice bytes 0 0) i 0 (omega arith))

  -- Inside its blocks, the copy in words and a rest of less than four bytes is one copy.
  pub write_blob-memcpy :
      (size : ℕ)
      → size ≤ length bytes
      → l + size ≤ length mmio
      → write_blob bytes size l mmio ≡ done (begun size)
  unfolding write_blob
  write_blob-memcpy size room fits =
      let words =
        write_words_from (size / 4) 0 (size / 4 * 4) (omega arith) (omega arith) (omega arith) in
      let words' : write_words (size / 4) 0 bytes l mmio ≡ done (begun (size / 4 * 4)) =
        rw (begun_nothing (omega arith)) at words in
      elim (Bool-cases (size % 4 == 0)) [
        | inl e ↦ let all : size / 4 * 4 ≡ size = ground arith in rw (words', e) (rw all refl)
        | inr e ↦
            rw (words', e)
              (longer (size / 4 * 4) (size % 4) size (l + size / 4 * 4) (omega arith) refl room
                fits)
      ]

-- The device sets the lowest bit of its status within some answers.
abbrev pub Answers : (left i : ℕ) → (ℕ → ℕ) → Type 0
Answers left i status = (j : ℕ) × (i ≤ j) × (j < i + left) × (bit_and (status j) 1 ≢ 0)

pub wait-Answers : (left i : ℕ) (status : ℕ → ℕ) → wait left i status ≡ true → Answers left i status
unfolding wait
wait-Answers zero i status h = cc
wait-Answers (suc left) i status h = elim (Bool-cases (bit_and (status i) 1 == 0)) [
  | inl idle ↦
      let (j, low, high, set) = wait-Answers left (i + 1) status (rw (idle, wait) at h) in
      (j, omega arith, omega arith, set)
  | inr set ↦ (i, omega arith, omega arith, λ z. ground arith)
]

pub Answers-wait : (left i : ℕ) (status : ℕ → ℕ) → Answers left i status → wait left i status ≡ true
unfolding wait
Answers-wait zero i status (j, low, high, set) = absurd (omega arith)
Answers-wait (suc left) i status (j, low, high, set) =
    elim (Bool-cases (bit_and (status i) 1 == 0)) [
      | inl idle ↦
          rw (idle, wait)
            (Answers-wait left (i + 1) status
              (j, later idle (Bool-cases (i == j)), omega arith, set))
      | inr answered ↦ rw (answered, wait) refl
    ]
  where
    later : (bit_and (status i) 1 == 0) ≡ true → ((i == j) ≡ true) ⊎ ((i == j) ≡ false) → i + 1 ≤ j
    later idle (inl same) =
        let e : i ≡ j = (==_iff i j).0 same in
        absurd (set (rw e at ((==_iff (bit_and (status i) 1) 0).0 idle)))
    later idle (inr differ) = ground arith
