-- ===== src/Engine/Isa.antt =====
-- NtelSpoofKext/src/NtelTranslationEngine.c: the opcode table and the translators of single
-- instructions. Their pointers are never NULL: the loop that calls them passes its packet and its
-- offset. With NTEL_DEBUG at 0, its default, nothing observes the count of unknown opcodes, nor the
-- opcode that is read for the log.
pub mod Table
use Prim.Native.String.{String}
use n_igpu_macos.Common.{
  ℕ, zero, suc, ◌+◌, ◌*◌, Bool, List, ◌++◌, if◌then◌else◌, ltb, ◌==◌, bit_and, bit_or, u32, ◌<<<◌,
  le32, Exec, done, ◌>>=◌, load,
}

-- `NtelGen12Instruction`
pub record Gen12Instruction : Type 0 where
  pub dword0 : ℕ
  pub dword1 : ℕ
  pub dword2 : ℕ
  pub dword3 : ℕ

-- its 16 bytes in memory
abbrev pub instruction_bytes : Gen12Instruction → List ℕ
instruction_bytes i = le32 i.dword0 ++ (le32 i.dword1 ++ (le32 i.dword2 ++ le32 i.dword3))

-- The functions that a `NtelOpcodeTranslator` may point to.
pub data OpcodeTranslator : Type 0 where
  fadd fmul add mov barrier send unknown : OpcodeTranslator

-- `NtelOpcodeMap`
pub record OpcodeMap : Type 0 where
  pub mnemonic : String
  pub translate_fn : OpcodeTranslator
  pub payload_size : ℕ

-- An array of 256 entries, by index.
abbrev pub Lut : Type 0
Lut = ℕ → OpcodeMap

abbrev pub assign : Lut → ℕ → OpcodeMap → Lut
assign lut i entry = λ j. if j == i then entry else lut j

abbrev pub unknown_entry : OpcodeMap
unknown_entry = record { mnemonic = "unknown"; translate_fn = unknown; payload_size = 1 }

-- `for (i = 0; i < 256; i++)`, with `left` rounds to go
unfoldable pub clear_from : (left i : ℕ) → Lut → Lut
clear_from zero i lut = lut
clear_from (suc left) i lut = clear_from left (i + 1) (assign lut i unknown_entry)

-- The entries after the loop, in the order of the source.
abbrev assign_known : Lut → Lut
assign_known lut =
    let lut =
      assign lut 0x03 (record { mnemonic = "fadd"; translate_fn = fadd; payload_size = 4 }) in
    let lut =
      assign lut 0x04 (record { mnemonic = "fmul"; translate_fn = fmul; payload_size = 4 }) in
    let lut = assign lut 0x01 (record { mnemonic = "add"; translate_fn = add; payload_size = 4 }) in
    let lut = assign lut 0x00 (record { mnemonic = "mov"; translate_fn = mov; payload_size = 3 }) in
    let lut =
      assign lut 0x20 (record { mnemonic = "send"; translate_fn = send; payload_size = 4 }) in
    assign lut 0x30 (record { mnemonic = "sync.bar"; translate_fn = barrier; payload_size = 2 })

unfoldable pub init_opcode_lut : Lut → Lut
init_opcode_lut lut = assign_known (clear_from 256 0 lut)

-- `map_virtual_to_grf`
unfoldable pub map_virtual_to_grf : ℕ → ℕ
map_virtual_to_grf virt_reg = bit_and virt_reg 0x3f

abbrev pub operand : ℕ → ℕ
operand virt_reg = u32 (map_virtual_to_grf virt_reg <<< 4)

-- The three-operand form that `translate_fadd`, `translate_fmul` and `translate_add` share.
unfoldable pub three_operands : ℕ → List ℕ → ℕ → Exec (Gen12Instruction × ℕ)
unfolding map_virtual_to_grf
three_operands dword0 payload offset = do
  dest ← load payload (u32 (offset + 1))
  src0 ← load payload (u32 (offset + 2))
  src1 ← load payload (u32 (offset + 3))
  done (
    record { dword0 = dword0; dword1 = operand dest; dword2 = operand src0; dword3 = operand src1 },
    u32 (offset + 4),
  )

-- An instruction, and the offset behind it.
unfoldable pub translate : OpcodeTranslator → List ℕ → ℕ → Exec (Gen12Instruction × ℕ)
unfolding three_operands
translate fadd payload offset = three_operands (bit_or (0x40 <<< 24) 0x1) payload offset
translate fmul payload offset = three_operands (bit_or (0x46 <<< 24) 0x1) payload offset
translate add payload offset = three_operands (bit_or (0x40 <<< 24) 0x1) payload offset
translate mov payload offset = do
  dest ← load payload (u32 (offset + 1))
  src0 ← load payload (u32 (offset + 2))
  done (
    record {
      dword0 = bit_or (0x50 <<< 24) 0x1;
      dword1 = operand dest;
      dword2 = operand src0;
      dword3 = 0;
    },
    u32 (offset + 3),
  )
translate barrier payload offset =
    done (record { dword0 = 0x70 <<< 24; dword1 = 0; dword2 = 0; dword3 = 0x0f }, u32 (offset + 2))
translate send payload offset = do
  index ← load payload (u32 (offset + 3))
  done (record { dword0 = 0x42 <<< 24; dword1 = 0; dword2 = 0; dword3 = index }, u32 (offset + 4))
translate unknown payload offset =
    done (record { dword0 = 0; dword1 = 0; dword2 = 0; dword3 = 0 }, u32 (offset + 1))
