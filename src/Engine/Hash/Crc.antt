-- ===== src/Engine/Hash/Crc.antt =====
-- The verify tag is the CRC-32 of the packet: the table gives what eight single-bit steps of the
-- reflected polynomial 0xEDB88320 give.
use n_igpu_macos.Common.{
  ℕ, zero, suc, ◌+◌, ◌-◌, ◌*◌, ◌/◌, ◌%◌, ◌^◌, ◌<◌, ◌≡◌, ◌∙◌, refl, ap, sym, List, [], ◌∷◌, Bool,
  true, false, not, ◌||◌, leb, ◌↔◌, xor-div, xor_cancel, if◌then◌else◌, ◌==◌, ==_iff, bit_and,
  bit_xor, get_or, all_below, all_below_sound, xor_step, xor_assoc, xor_comm, xor-zero, xor-div-two,
  xor-mod-two, and_mask, arith,
}
use native.Mathlib.Nat.{pow-suc}
use n_igpu_macos.Engine.Hash.{crc32_table, crc_round, crc_from, shader_verify_tag}

-- One bit of the reflected CRC-32: shift right, and add the polynomial if a one falls out.
pub crc_bit : ℕ → ℕ
crc_bit c = if c % 2 == 1 then bit_xor (c / 2) 0xedb8_8320 else c / 2

pub crc_bits : ℕ → ℕ → ℕ
crc_bits zero c = c
crc_bits (suc n) c = crc_bits n (crc_bit c)

-- The definition of CRC-32, bit by bit: each byte is added to the low end and shifted out.
pub reference_from : ℕ → List ℕ → ℕ
reference_from c [] = c
reference_from c (x ∷ xs) = reference_from (crc_bits 8 (bit_xor c x)) xs

pub reference : List ℕ → ℕ
unfolding reference_from crc_bits crc_bit
reference bytes = bit_xor (reference_from 0xffff_ffff bytes) 0xffff_ffff

-- The indices at which the table of the source is not the CRC-32 table.
unfoldable pub is_wrong : ℕ → Bool
is_wrong i = i == 10 || i == 14 || i == 15 || i == 52 || leb 173 i

-- The table, against the bits, at every index.
table_checked :
    (all_below 256 λ i.
      let right = get_or crc32_table i 0 == crc_bits 8 i in if is_wrong i then not right else right)
    ≡ true
unfolding all_below crc32_table crc_bits crc_bit is_wrong
table_checked = refl

table_lem : (i : ℕ) → i < 256 → (get_or crc32_table i 0 ≡ crc_bits 8 i) ↔ (is_wrong i ≡ false)
table_lem i h =
    let here : (let right = get_or crc32_table i 0 == crc_bits 8 i in
          if is_wrong i then not right else right)
        ≡ true =
      all_below_sound 256 _ i table_checked h in
    ground arith

-- A step on a sum whose one part is even: that part is only shifted.
crc_bit-xor : (h c : ℕ) → crc_bit (bit_xor (h * 2) c) ≡ bit_xor h (crc_bit c)
unfolding crc_bit
crc_bit-xor h c =
    let odd : bit_xor (h * 2) c % 2 ≡ c % 2 = omega (arith, xor-mod-two (h * 2) c) in
    let twice : h * 2 / 2 ≡ h = omega arith in
    let half : bit_xor (h * 2) c / 2 ≡ bit_xor h (c / 2) =
      xor-div-two (h * 2) c ∙ ap (λ t. bit_xor t (c / 2)) twice in
    rw (odd, half) (ground (arith, xor_assoc h (c / 2) 0xedb8_8320))

-- `n` steps shift a part that has `n` low zeros.
crc_bits-xor : (n h c : ℕ) → crc_bits n (bit_xor (h * 2 ^ n) c) ≡ bit_xor h (crc_bits n c)
unfolding crc_bits
crc_bits-xor zero h c = ap (λ t. bit_xor t c) (omega arith)
crc_bits-xor (suc n) h c =
    let shifted : h * 2 ^ suc n ≡ h * 2 ^ n * 2 =
      omega (arith, ap (λ (t : ℕ). h * t) (pow-suc 2 n)) in
    rw (shifted, crc_bit-xor (h * 2 ^ n) c) (crc_bits-xor n h (crc_bit c))

-- Parts that share no digit add up by exclusive or.
xor_fields : (n h l : ℕ) → l < 2 ^ n → bit_xor (h * 2 ^ n) l ≡ h * 2 ^ n + l
xor_fields zero h l p =
    let none : l ≡ 0 = omega arith in rw none (xor-zero (h * 2 ^ 0) ∙ omega arith)
xor_fields (suc n) h l p =
    let shifted : h * 2 ^ suc n ≡ h * 2 ^ n * 2 =
      omega (arith, ap (λ (t : ℕ). h * t) (pow-suc 2 n)) in
    let half : h * 2 ^ suc n / 2 ≡ h * 2 ^ n = omega arith in
    omega (
      arith,
      xor_step (h * 2 ^ suc n) l,
      ap (λ t. bit_xor t (l / 2)) half,
      xor_fields n h (l / 2) (omega (arith, pow-suc 2 n)),
    )

-- Eight bits of any number: its low byte goes through them, and the rest is shifted.
crc_bits_eight : (c : ℕ) → crc_bits 8 c ≡ bit_xor (c / 256) (crc_bits 8 (c % 256))
crc_bits_eight c =
    let whole : c / 256 * 2 ^ 8 + c % 256 ≡ c = omega arith in
    let parts = xor_fields 8 (c / 256) (c % 256) (omega arith) ∙ whole in
    ap (crc_bits 8) (sym parts) ∙ crc_bits-xor 8 (c / 256) (c % 256)

-- A byte leaves the higher digits as they are.
xor-div-byte : (c x : ℕ) → x < 256 → bit_xor c x / 256 ≡ c / 256
xor-div-byte c x h =
    let gone : x / 2 ^ 8 ≡ 0 = omega arith in
    xor-div 8 c x ∙ ap (bit_xor (c / 256)) gone ∙ xor-zero (c / 256)

-- The index that a round reads.
abbrev pub index : ℕ → ℕ → ℕ
index c x = bit_xor c x % 256

-- One round of `ntel_shader_verify_tag` computes eight bits of CRC-32 exactly when the index that
-- it reads is none of 10, 14, 15, 52 and those from 173 on: there the table of the source is wrong.
pub crc_round-bits_iff :
    (c x : ℕ)
    → x < 256
    → (crc_round c x ≡ crc_bits 8 (bit_xor c x)) ↔ (is_wrong (index c x) ≡ false)
unfolding crc_round
crc_round-bits_iff c x h = (
  λ e.
      (table_lem (index c x) (omega arith)).0
        (xor_cancel _ _ (c / 256) (sym (ap (λ t. bit_xor t (c / 256)) entry) ∙ e ∙ bits)),
  λ good.
      ap (λ t. bit_xor t (c / 256)) (entry ∙ (table_lem (index c x) (omega arith)).1 good)
      ∙ sym bits,
)
  where
    entry : get_or crc32_table (bit_and (bit_xor c x) 255) 0 ≡ get_or crc32_table (index c x) 0
    entry = ap (λ t. get_or crc32_table t 0) (and_mask 8 (bit_xor c x))

    bits : crc_bits 8 (bit_xor c x) ≡ bit_xor (crc_bits 8 (index c x)) (c / 256)
    bits =
        crc_bits_eight (bit_xor c x)
        ∙ ap (λ t. bit_xor t (crc_bits 8 (index c x))) (xor-div-byte c x h)
        ∙ xor_comm (c / 256) (crc_bits 8 (index c x))

-- No round of the packet reads a wrong entry.
abbrev pub IsSound : ℕ → List ℕ → Type 0
IsSound c [] = Unit
IsSound c (x ∷ xs) = (x < 256) × (is_wrong (index c x) ≡ false) × IsSound (crc_round c x) xs

crc_from-eq-reference_from :
    (c : ℕ) (bytes : List ℕ) → IsSound c bytes → crc_from c bytes ≡ reference_from c bytes
unfolding crc_from reference_from
crc_from-eq-reference_from c [] h = refl
crc_from-eq-reference_from c (x ∷ xs) h =
    let round = (crc_round-bits_iff c x h.0).1 h.1 in
    crc_from-eq-reference_from (crc_round c x) xs h.2 ∙ ap (λ t. reference_from t xs) round

-- `ntel_shader_verify_tag` is the CRC-32 of every packet whose rounds read none of the wrong entries.
pub shader_verify_tag-eq-reference :
    (bytes : List ℕ) → IsSound 0xffff_ffff bytes → shader_verify_tag bytes ≡ reference bytes
unfolding shader_verify_tag reference
shader_verify_tag-eq-reference bytes h =
    ap (λ t. bit_xor t 0xffff_ffff) (crc_from-eq-reference_from 0xffff_ffff bytes h)

first_index : (all_below 256 λ x. index 0xffff_ffff x == 255 - x) ≡ true
unfolding all_below
first_index = refl

-- Of a packet of one byte `x` the tag is the CRC-32 exactly when 255 - `x` is none of the wrong
-- indices.
pub shader_verify_tag-byte_iff :
    (x : ℕ)
    → x < 256
    → (shader_verify_tag (x ∷ []) ≡ reference (x ∷ [])) ↔ (is_wrong (255 - x) ≡ false)
unfolding shader_verify_tag reference crc_from reference_from
shader_verify_tag-byte_iff x h =
    let same : index 0xffff_ffff x ≡ 255 - x =
      (==_iff _ _).0 (all_below_sound 256 _ x first_index h) in
    let round = crc_round-bits_iff 0xffff_ffff x h in
    (
      λ e. rw (← same) (round.0 (xor_cancel _ _ 0xffff_ffff e)),
      λ good. ap (λ t. bit_xor t 0xffff_ffff) (round.1 (rw same good)),
    )
