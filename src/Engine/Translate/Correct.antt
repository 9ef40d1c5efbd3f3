-- ===== src/Engine/Translate/Correct.antt =====
-- The translation loop against the assembler: it stays inside its blocks, ends, and emits exactly
-- the packet's instructions.
use n_igpu_macos.Common.{
  ℕ, zero, suc, ◌+◌, ◌-◌, ◌*◌, ◌≤◌, ◌<◌, ◌≡◌, ◌∙◌, refl, ap, sym, List, [], ◌∷◌, ◌++◌, append-nil,
  append_assoc, Bool, true, false, Option, some, none, ◌⊎◌, inl, inr, ltb, ◌==◌, ◌||◌, not, length,
  get_or, drop, take, drop_all, drop-drop, drop-eq-cons, length-drop, load_lem, Exec, done, ◌>>=◌,
  replicate, length-replicate, memcpy_lem, slice, splice, length-splice, take-splice, IsBytes,
  IsBytes-get_or, Bool-cases, u32, arith,
}
use n_igpu_macos.Engine.Isa.{Gen12Instruction, instruction_bytes}
use n_igpu_macos.Engine.Translate.{local_lut, translate_loop, translate_air_to_gen12, idd_header}
use n_igpu_macos.Engine.Translate.Assemble.{
  assemble, assemble-nil, assemble-cons, step_size, step_instruction, program_bytes,
}
use n_igpu_macos.Engine.Translate.Dispatch.{dispatch_lem}

step_size_bounds :
    (op : ℕ) (rest : List ℕ) → (1 ≤ step_size op rest) × (step_size op rest ≤ 1 + length rest)
unfolding step_size
step_size_bounds op rest = ground arith

slice-instruction_bytes :
    (i : Gen12Instruction) → slice (instruction_bytes i) 0 16 ≡ instruction_bytes i
unfolding slice
slice-instruction_bytes i = refl

-- The block after an instruction is written behind `count` others.
abbrev emitted : List ℕ → ℕ → Gen12Instruction → List ℕ
emitted gen12 count inst = splice gen12 (32 + count * 16) (instruction_bytes inst)

module _ (air : List ℕ) (small : length air ≤ 16384) (bytes : IsBytes air) where
  -- What the loop returns from `offset` on, with `count` instructions written.
  record IsTranslated (count : ℕ) (gen12 : List ℕ) (is : List Gen12Instruction)
      (result : Exec (List ℕ × ℕ)) : Type 0 where
    block : List ℕ
    returns : result ≡ done (block, count + length is)
    same_length : length block ≡ length gen12
    bounded : count + length is ≤ length air
    emits :
        take (32 + (count + length is) * 16) block
        ≡ take (32 + count * 16) gen12 ++ program_bytes is

  ends :
      (count : ℕ) (gen12 : List ℕ)
      → count ≤ length air
      → IsTranslated count gen12 [] (done (gen12, count))
  ends count gen12 h =
      let same : count + 0 ≡ count = omega arith in
      record {
        block = gen12;
        returns = rw same;
        same_length = refl;
        bounded = omega arith;
        emits = rw same (sym (append-nil (take (32 + count * 16) gen12)));
      }

  round :
      (left offset count : ℕ) (gen12 : List ℕ)
      → offset < length air
      → count < length air
      → length gen12 ≡ 32 + length air * 16
      → let op = get_or air offset 0 in
        let rest = drop (suc offset) air in
        translate_loop local_lut air (suc left) offset count gen12
        ≡ translate_loop local_lut air left
            (offset + step_size op rest)
            (count + 1)
            (emitted gen12 count (step_instruction op rest))
  unfolding translate_loop
  round left offset count gen12 h fits size =
      let op = get_or air offset 0 in
      let test : ltb offset (length air) ≡ true = ground arith in
      rw (
        test,
        translate_loop,
        load_lem air offset 0 h,
        dispatch_lem air offset small h op (IsBytes-get_or air offset bytes),
        memcpy_lem gen12 (32 + count * 16)
            (instruction_bytes (step_instruction op (drop (suc offset) air))) 0 16 (omega arith)
            (omega arith),
        slice-instruction_bytes,
      )

  -- One instruction in front of what the rest of the loop emits.
  goes_on :
      (inst : Gen12Instruction) (is : List Gen12Instruction) (count : ℕ) (gen12 : List ℕ)
      (result : Exec (List ℕ × ℕ))
      → count < length air
      → length gen12 ≡ 32 + length air * 16
      → IsTranslated (count + 1) (emitted gen12 count inst) is result
      → IsTranslated count gen12 (inst ∷ is) result
  goes_on inst is count gen12 result h size t =
      let next : count + 1 + length is ≡ count + length (inst ∷ is) = omega arith in
      let fits : 32 + count * 16 + length (instruction_bytes inst) ≤ length gen12 = omega arith in
      let front =
        take-splice gen12 (32 + count * 16) (32 + (count + 1) * 16) (instruction_bytes inst)
          (omega arith) (omega arith) in
      record {
        block = t.block;
        returns = t.returns ∙ ap (λ k. done (t.block, k)) next;
        same_length =
            t.same_length ∙ length-splice gen12 (32 + count * 16) (instruction_bytes inst) fits;
        bounded = omega (arith, t.bounded);
        emits =
            ap (λ k. take (32 + k * 16) t.block) (sym next)
            ∙ t.emits
            ∙ ap (λ u. u ++ program_bytes is) front
            ∙ append_assoc (take (32 + count * 16) gen12) (instruction_bytes inst)
                (program_bytes is);
      }

  translate_loop-IsTranslated :
      (left offset count : ℕ) (gen12 : List ℕ)
      → left + count ≡ length air
      → count ≤ offset
      → offset ≤ length air
      → length gen12 ≡ 32 + length air * 16
      → IsTranslated count gen12
          (assemble (drop offset air))
          (translate_loop local_lut air left offset count gen12)
  unfolding translate_loop
  translate_loop-IsTranslated zero offset count gen12 e lo hi size =
      rw (drop_all air offset (omega arith), assemble-nil) (ends count gen12 (omega arith))
  translate_loop-IsTranslated (suc left) offset count gen12 e lo hi size =
      elim (Bool-cases (ltb offset (length air))) [
        | inl more ↦
            let op = get_or air offset 0 in
            let rest = drop (suc offset) air in
            let inst = step_instruction op rest in
            let k = step_size op rest in
            let bounds = step_size_bounds op rest in
            let inside : offset < length air = ground arith in
            let behind = drop-drop (suc offset) (k - 1) (offset + k) air (omega arith) in
            let fits : 32 + count * 16 + length (instruction_bytes inst) ≤ length gen12 =
              omega arith in
            let ih =
              translate_loop-IsTranslated left (offset + k) (count + 1) (emitted gen12 count inst)
                (omega arith) (omega arith) (omega (arith, length-drop {0} (suc offset) air))
                (length-splice gen12 (32 + count * 16) (instruction_bytes inst) fits ∙ size) in
            rw
              (
                drop-eq-cons offset air 0 inside,
                assemble-cons op rest,
                behind,
                round left offset count gen12 inside (omega arith) size,
              )
              (goes_on inst (assemble (drop (offset + k) air)) count gen12 _ (omega arith) size ih)
        | inr over ↦
            let past : length air ≤ offset = ground arith in
            rw (drop_all air offset past, assemble-nil, over, translate_loop)
              (ends count gen12 (omega arith))
      ]

-- The block that the loop starts from: the header at its front.
header_block : List ℕ → List ℕ
header_block air = splice (replicate (32 + length air * 16) 0) 0 idd_header

length-header_block : (air : List ℕ) → length (header_block air) ≡ 32 + length air * 16
unfolding header_block
length-header_block air =
    let size = length-replicate {0} {A = ℕ} (32 + length air * 16) 0 in
    length-splice (replicate (32 + length air * 16) 0) 0 idd_header (omega arith) ∙ size

take-header_block : (air : List ℕ) → take 32 (header_block air) ≡ idd_header
unfolding header_block
take-header_block air =
    take-splice (replicate (32 + length air * 16) 0) 0 32 idd_header (omega arith) (omega arith)

slice-idd_header : slice idd_header 0 32 ≡ idd_header
unfolding slice
slice-idd_header = refl

-- What the function returns of what its loop returns.
abbrev reported : List ℕ × ℕ → Exec (Option (List ℕ × ℕ))
reported r = done (some (r.0, u32 (32 + r.1 * 16)))

enters :
    (air : List ℕ)
    → 0 < length air
    → length air ≤ 16384
    → translate_air_to_gen12 true air
      ≡ (translate_loop local_lut air (length air) 0 0 (header_block air) >>= reported)
unfolding translate_air_to_gen12 header_block
enters air pos small =
    let fresh = length-replicate {0} {A = ℕ} (32 + length air * 16) 0 in
    let size : u32 (32 + length air * 16) ≡ 32 + length air * 16 = omega arith in
    let fine : (length air == 0 || ltb 16384 (length air) || not true) ≡ false = ground arith in
    let copied =
      memcpy_lem (replicate (32 + length air * 16) 0) 0 idd_header 0 32 (omega arith) (omega arith)
      ∙ ap (λ xs. done (splice (replicate (32 + length air * 16) 0) 0 xs)) slice-idd_header in
    rw (fine, size, copied)

-- A packet of 1 to 16384 bytes is translated, with no access outside the packet or the block, if the
-- block can be allocated: the block has 32 + 16 * (bytes of the packet) bytes, and the reported
-- front of it is the IDD header and then exactly the instructions that the packet stands for.
pub translate_air_to_gen12-emits :
    (air : List ℕ)
    → 0 < length air
    → length air ≤ 16384
    → IsBytes air
    → (block : List ℕ) × (translate_air_to_gen12 true air
        ≡ done (some (block, 32 + length (assemble air) * 16)))
      × (length block ≡ 32 + length air * 16)
      × (length (assemble air) ≤ length air)
      × (take (32 + length (assemble air) * 16) block ≡ idd_header ++ program_bytes (assemble air))
translate_air_to_gen12-emits air pos small bytes =
    let t =
      translate_loop-IsTranslated air small bytes (length air) 0 0 (header_block air) (omega arith)
        (omega arith) (omega arith) (length-header_block air) in
    let is = assemble air in
    let none_before : 0 + length is ≡ length is = omega arith in
    let exact : u32 (32 + (0 + length is) * 16) ≡ 32 + length is * 16 = omega (arith, t.bounded) in
    (
      t.block,
      enters air pos small
          ∙ ap (λ r. r >>= reported) t.returns
          ∙ ap (λ n. done (some (t.block, n))) exact,
      t.same_length ∙ length-header_block air,
      omega (arith, t.bounded),
      ap (λ k. take (32 + k * 16) t.block) (sym none_before)
          ∙ t.emits
          ∙ ap (λ xs. xs ++ program_bytes is) (take-header_block air),
    )

-- Any other packet, or a failed allocation, is refused.
pub translate_air_to_gen12-refuses :
    (alloc_ok : Bool) (air : List ℕ)
    → (length air ≡ 0) ⊎ (16384 < length air) ⊎ (alloc_ok ≡ false)
    → translate_air_to_gen12 alloc_ok air ≡ done none
unfolding translate_air_to_gen12
translate_air_to_gen12-refuses alloc_ok air why =
    let refused : (length air == 0 || ltb 16384 (length air) || not alloc_ok) ≡ true =
      ground arith in
    rw refused
