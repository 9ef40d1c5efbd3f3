-- ===== src/Engine/Translate/Assemble.antt =====
-- What a packet stands for: its instructions, read off the stream with no offsets and no buffer.
use n_igpu_macos.Common.{
  ℕ, zero, suc, ◌+◌, ◌-◌, ◌*◌, ◌%◌, ◌≡◌, refl, ap, List, [], ◌∷◌, ◌++◌, if◌then◌else◌, leb, ◌==◌,
  length, get_or, drop, ◌≤◌, arith,
}
use n_igpu_macos.Engine.Isa.{Gen12Instruction, instruction_bytes}

-- The bytes of an instruction with opcode `op`, the opcode among them.
unfoldable pub size_of : ℕ → ℕ
size_of op =
    if op == 0x00
    then 3
    else if op == 0x01
    then 4
    else if op == 0x03
    then 4
    else if op == 0x04
    then 4
    else if op == 0x20
    then 4
    else if op == 0x30
    then 2
    else 1

abbrev pub nop : Gen12Instruction
nop = record { dword0 = 0; dword1 = 0; dword2 = 0; dword3 = 0 }

-- One of 64 registers, in bits 4 to 9.
abbrev pub register : List ℕ → ℕ → ℕ
register rest i = get_or rest i 0 % 64 * 16

abbrev pub three : ℕ → List ℕ → Gen12Instruction
three dword0 rest = record {
  dword0 = dword0;
  dword1 = register rest 0;
  dword2 = register rest 1;
  dword3 = register rest 2;
}

-- The instruction of a whole encoding: opcode `op`, operands at the front of `rest`.
unfoldable pub instruction_of : ℕ → List ℕ → Gen12Instruction
instruction_of op rest =
    if op == 0x00
    then record {
      dword0 = 0x5000_0001;
      dword1 = register rest 0;
      dword2 = register rest 1;
      dword3 = 0;
    }
    else if op == 0x01
    then three 0x4000_0001 rest
    else if op == 0x03
    then three 0x4000_0001 rest
    else if op == 0x04
    then three 0x4600_0001 rest
    else if op == 0x20
    then record { dword0 = 0x4200_0000; dword1 = 0; dword2 = 0; dword3 = get_or rest 2 0 }
    else if op == 0x30
    then record { dword0 = 0x7000_0000; dword1 = 0; dword2 = 0; dword3 = 0x0f }
    else nop

-- An instruction that the packet cuts short counts as one unknown byte.
unfoldable pub step_size : ℕ → List ℕ → ℕ
unfolding size_of
step_size op rest = if leb (size_of op) (1 + length rest) then size_of op else 1

unfoldable pub step_instruction : ℕ → List ℕ → Gen12Instruction
unfolding size_of instruction_of
step_instruction op rest =
    if leb (size_of op) (1 + length rest) then instruction_of op rest else nop

-- `skip` bytes still belong to the last instruction.
assemble_from : (skip : ℕ) → List ℕ → List Gen12Instruction
assemble_from skip [] = []
assemble_from zero (op ∷ rest) =
    step_instruction op rest ∷ assemble_from (step_size op rest - 1) rest
assemble_from (suc skip) (x ∷ rest) = assemble_from skip rest

unfoldable pub assemble : List ℕ → List Gen12Instruction
unfolding assemble_from step_size step_instruction
assemble = assemble_from 0

abbrev pub program_bytes : List Gen12Instruction → List ℕ
program_bytes [] = []
program_bytes (i ∷ is) = instruction_bytes i ++ program_bytes is

assemble_from-drop :
    (skip : ℕ) (rest : List ℕ) → assemble_from skip rest ≡ assemble_from 0 (drop skip rest)
unfolding assemble_from
assemble_from-drop zero [] = refl
assemble_from-drop zero (x ∷ rest) = refl
assemble_from-drop (suc skip) [] = refl
assemble_from-drop (suc skip) (x ∷ rest) = assemble_from-drop skip rest

pub assemble-nil : assemble [] ≡ []
unfolding assemble
assemble-nil = refl

-- The first instruction, and the packet behind it.
pub assemble-cons :
    (op : ℕ) (rest : List ℕ)
    → assemble (op ∷ rest) ≡ step_instruction op rest ∷ assemble (drop (step_size op rest - 1) rest)
unfolding assemble
assemble-cons op rest =
    ap (λ t. step_instruction op rest ∷ t) (assemble_from-drop (step_size op rest - 1) rest)

pub length-program_bytes : (is : List Gen12Instruction) → length (program_bytes is) ≡ 16 * length is
length-program_bytes [] = refl
length-program_bytes (i ∷ is) = omega (arith, length-program_bytes is)

assemble_from_bound : (skip : ℕ) (air : List ℕ) → length (assemble_from skip air) ≤ length air
unfolding assemble_from
assemble_from_bound zero [] = omega arith
assemble_from_bound (suc skip) [] = omega arith
assemble_from_bound zero (op ∷ rest) =
    omega (arith, assemble_from_bound (step_size op rest - 1) rest)
assemble_from_bound (suc skip) (x ∷ rest) = omega (arith, assemble_from_bound skip rest)

-- At most one instruction of 16 bytes for a byte.
pub program_bytes_bound : (air : List ℕ) → length (program_bytes (assemble air)) ≤ 16 * length air
unfolding assemble
program_bytes_bound air =
    omega (arith, length-program_bytes (assemble air), assemble_from_bound 0 air)
