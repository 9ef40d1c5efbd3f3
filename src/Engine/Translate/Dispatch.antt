-- ===== src/Engine/Translate/Dispatch.antt =====
-- One round of the translation loop against the assembler.
use n_igpu_macos.Common.{
  ℕ, suc, ◌+◌, ◌≤◌, ◌<◌, ◌≡◌, ◌∙◌, ap, sym, List, ◌==◌, length, get_or, drop, load_lem, get_or-drop,
  length-drop, u32, load, done, and_mask, Bool-cases, inl, inr, ==_iff, arith,
}
use n_igpu_macos.Engine.Isa.{three_operands, translate, OpcodeTranslator, unknown_entry}
use n_igpu_macos.Engine.Isa.Table.{entry_of, init_opcode_lut_lem}
use n_igpu_macos.Engine.Translate.{local_lut, dispatch}
use n_igpu_macos.Engine.Translate.Assemble.{
  step_size, step_instruction, size_of, instruction_of, nop, three,
}

-- An opcode is one of the six that the table knows, or unknown to the table and the assembler.
data Opcode (op : ℕ) (rest : List ℕ) : Type 0 where
  mov : op ≡ 0x00 → Opcode op rest
  add : op ≡ 0x01 → Opcode op rest
  fadd : op ≡ 0x03 → Opcode op rest
  fmul : op ≡ 0x04 → Opcode op rest
  send : op ≡ 0x20 → Opcode op rest
  barrier : op ≡ 0x30 → Opcode op rest
  unknown :
      entry_of op ≡ unknown_entry → size_of op ≡ 1 → instruction_of op rest ≡ nop → Opcode op rest

opcode_cases : (op : ℕ) (rest : List ℕ) → Opcode op rest
unfolding entry_of size_of instruction_of
opcode_cases op rest = elim (Bool-cases (op == 0x00)) [
  | inl e ↦ mov ((==_iff _ _).0 e)
  | inr n₀ ↦ elim (Bool-cases (op == 0x01)) [
    | inl e ↦ add ((==_iff _ _).0 e)
    | inr n₁ ↦ elim (Bool-cases (op == 0x03)) [
      | inl e ↦ fadd ((==_iff _ _).0 e)
      | inr n₃ ↦ elim (Bool-cases (op == 0x04)) [
        | inl e ↦ fmul ((==_iff _ _).0 e)
        | inr n₄ ↦ elim (Bool-cases (op == 0x20)) [
          | inl e ↦ send ((==_iff _ _).0 e)
          | inr n₅ ↦ elim (Bool-cases (op == 0x30)) [
            | inl e ↦ barrier ((==_iff _ _).0 e)
            | inr n₆ ↦
                unknown (rw (n₀, n₁, n₃, n₄, n₅, n₆)) (rw (n₀, n₁, n₃, n₄, n₅, n₆))
                  (rw (n₀, n₁, n₃, n₄, n₅, n₆))
          ]
        ]
      ]
    ]
  ]
]

-- The place behind the opcode at `offset` in a packet of at most 16384 bytes.
module _ (air : List ℕ) (offset : ℕ) (small : length air ≤ 16384) where
  abbrev pub rest : List ℕ
  rest = drop (suc offset) air

  load_operand :
      (k : ℕ)
      → offset + suc k < length air
      → load air (u32 (offset + suc k)) ≡ done (get_or rest k 0)
  load_operand k h =
      let place : u32 (offset + suc k) ≡ offset + suc k = omega arith in
      let byte = get_or-drop (suc offset) air k (offset + suc k) 0 (omega arith) in
      ap (load air) place ∙ load_lem air (offset + suc k) 0 h ∙ ap done (sym byte)

  three_operands_lem :
      (dword0 : ℕ)
      → offset + 4 ≤ length air
      → three_operands dword0 air offset ≡ done (three dword0 rest, offset + 4)
  unfolding three_operands
  three_operands_lem dword0 h =
      rw (load_operand 0 (omega arith), load_operand 1 (omega arith), load_operand 2 (omega arith))
        (ground (
          arith,
          and_mask 6 (get_or rest 0 0),
          and_mask 6 (get_or rest 1 0),
          and_mask 6 (get_or rest 2 0),
        ))

  translate-mov :
      offset + 3 ≤ length air
      → translate OpcodeTranslator.mov air offset ≡ done (instruction_of 0x00 rest, offset + 3)
  unfolding translate instruction_of
  translate-mov h =
      rw (load_operand 0 (omega arith), load_operand 1 (omega arith))
        (ground (arith, and_mask 6 (get_or rest 0 0), and_mask 6 (get_or rest 1 0)))

  translate-send :
      offset + 4 ≤ length air
      → translate OpcodeTranslator.send air offset ≡ done (instruction_of 0x20 rest, offset + 4)
  unfolding translate instruction_of
  translate-send h = rw (load_operand 2 (omega arith)) (ground arith)

  -- One opcode: the instruction that the assembler reads, and the offset behind it.
  abbrev pub Dispatches : ℕ → Type 0
  Dispatches op =
      dispatch local_lut air offset op ≡ done (step_instruction op rest, offset + step_size op rest)

  module _ (h : offset < length air) where
    dispatch_mov : Dispatches 0x00
    unfolding dispatch local_lut entry_of translate step_size step_instruction
    dispatch_mov =
        rw (init_opcode_lut_lem _ 0x00 (omega arith))
          (ground (arith, translate-mov, length-drop (suc offset) air))

    dispatch_add : Dispatches 0x01
    unfolding dispatch local_lut entry_of translate step_size step_instruction instruction_of
    dispatch_add =
        rw (init_opcode_lut_lem _ 0x01 (omega arith))
          (ground (arith, three_operands_lem 0x4000_0001, length-drop (suc offset) air))

    dispatch_fadd : Dispatches 0x03
    unfolding dispatch local_lut entry_of translate step_size step_instruction instruction_of
    dispatch_fadd =
        rw (init_opcode_lut_lem _ 0x03 (omega arith))
          (ground (arith, three_operands_lem 0x4000_0001, length-drop (suc offset) air))

    dispatch_fmul : Dispatches 0x04
    unfolding dispatch local_lut entry_of translate step_size step_instruction instruction_of
    dispatch_fmul =
        rw (init_opcode_lut_lem _ 0x04 (omega arith))
          (ground (arith, three_operands_lem 0x4600_0001, length-drop (suc offset) air))

    dispatch_send : Dispatches 0x20
    unfolding dispatch local_lut entry_of translate step_size step_instruction instruction_of
    dispatch_send =
        rw (init_opcode_lut_lem _ 0x20 (omega arith))
          (ground (arith, translate-send, length-drop (suc offset) air))

    dispatch_barrier : Dispatches 0x30
    unfolding dispatch local_lut entry_of translate step_size step_instruction instruction_of
    dispatch_barrier =
        rw (init_opcode_lut_lem _ 0x30 (omega arith)) (ground (arith, length-drop (suc offset) air))

    dispatch_unknown :
        (op : ℕ)
        → op < 256
        → entry_of op ≡ unknown_entry
        → size_of op ≡ 1
        → instruction_of op rest ≡ nop
        → Dispatches op
    unfolding dispatch local_lut translate step_size step_instruction
    dispatch_unknown op byte entry size inst =
        rw (init_opcode_lut_lem _ op byte, entry, size, inst)
          (ground (arith, length-drop (suc offset) air))

    pub dispatch_lem : (op : ℕ) → op < 256 → Dispatches op
    dispatch_lem op byte = elim (opcode_cases op rest) [
      | mov e ↦ rw e dispatch_mov
      | add e ↦ rw e dispatch_add
      | fadd e ↦ rw e dispatch_fadd
      | fmul e ↦ rw e dispatch_fmul
      | send e ↦ rw e dispatch_send
      | barrier e ↦ rw e dispatch_barrier
      | unknown e f g ↦ dispatch_unknown op byte e f g
    ]
