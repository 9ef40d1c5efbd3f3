-- ===== src/Engine/Mask.antt =====
-- NtelSpoofKext/src/NtelTranslationEngine.c: `ntel_calculate_predicate_mask`.
use n_igpu_macos.Common.{
  ℕ, ◌/◌, ◌%◌, ◌^◌, ◌≤◌, ◌<◌, ◌≡◌, ◌↔◌, ◌⊎◌, inl, inr, refl, true, false, if◌then◌else◌, ltb, ◌==◌,
  ==_iff, all_below, all_below_sound, u32, sub32, ◌<<<◌, Bool-cases, arith,
}

-- `1u << remainder` is made with a remainder below 32 only.
unfoldable pub calculate_predicate_mask : (threads_per_group simd_width : ℕ) → ℕ
calculate_predicate_mask threads simd =
    if simd == 0
    then 0
    else if ltb 32 simd
    then 0xffff_ffff
    else (let remainder = threads % simd in
        if remainder == 0 then 0xffff_ffff else sub32 (u32 (1 <<< remainder)) 1)

-- Whether lane `i` of a mask is on.
abbrev pub lane : ℕ → ℕ → ℕ
lane mask i = mask / 2 ^ i % 2

low_lanes :
    (all_below 32
      λ r. all_below 32 λ i. lane (sub32 (u32 (1 <<< r)) 1) i == (if ltb i r then 1 else 0))
    ≡ true
unfolding all_below
low_lanes = refl

all_lanes : (all_below 32 λ i. lane 0xffff_ffff i == 1) ≡ true
unfolding all_below
all_lanes = refl

low_lane :
    (r i : ℕ) → r < 32 → i < 32 → lane (sub32 (u32 (1 <<< r)) 1) i ≡ (if ltb i r then 1 else 0)
low_lane r i p q = (==_iff _ _).0 (all_below_sound 32 _ i (all_below_sound 32 _ r low_lanes p) q)

-- For a width from 1 to 32, lane `i` is on exactly when the last group is full, or `i` is below the
-- number of its threads.
pub calculate_predicate_mask-lane :
    (threads simd i : ℕ)
    → 0 < simd
    → simd ≤ 32
    → i < 32
    → (lane (calculate_predicate_mask threads simd) i ≡ 1)
      ↔ ((threads % simd ≡ 0) ⊎ (i < threads % simd))
unfolding calculate_predicate_mask
calculate_predicate_mask-lane threads simd i pos small hi =
    let width : ltb 32 simd ≡ false = ground arith in
    let some : (simd == 0) ≡ false = ground arith in
    rw (some, width)
      (elim (Bool-cases (threads % simd == 0)) [
        | inl e ↦
            rw e (
              λ _. inl ((==_iff _ _).0 e),
              λ _. (==_iff _ _).0 (all_below_sound 32 _ i all_lanes hi),
            )
        | inr e ↦ rw (e, low_lane (threads % simd) i (omega arith) hi) (ground arith)
      ])
