-- ===== src/Engine/Isa/Table.antt =====
-- The opcode table after its initialisation.
use n_igpu_macos.Common.{
  ℕ, zero, suc, ◌+◌, ◌<◌, ◌≡◌, ◌∙◌, if◌then◌else◌, ltb, leb, ◌==◌, ◌&&◌, arith,
}
use n_igpu_macos.Engine.Isa.{
  OpcodeMap, fadd, fmul, add, mov, barrier, send, Lut, assign, unknown_entry, clear_from,
  init_opcode_lut,
}

clear_from_lem :
    (left i j : ℕ) (lut : Lut)
    → clear_from left i lut j ≡ (if leb i j && ltb j (i + left) then unknown_entry else lut j)
unfolding clear_from
clear_from_lem zero i j lut = ground arith
clear_from_lem (suc left) i j lut =
    clear_from_lem left (i + 1) j (assign lut i unknown_entry) ∙ ground arith

-- The opcodes that the engine knows.
unfoldable pub entry_of : ℕ → OpcodeMap
entry_of op =
    if op == 0x00
    then record { mnemonic = "mov"; translate_fn = mov; payload_size = 3 }
    else if op == 0x01
    then record { mnemonic = "add"; translate_fn = add; payload_size = 4 }
    else if op == 0x03
    then record { mnemonic = "fadd"; translate_fn = fadd; payload_size = 4 }
    else if op == 0x04
    then record { mnemonic = "fmul"; translate_fn = fmul; payload_size = 4 }
    else if op == 0x20
    then record { mnemonic = "send"; translate_fn = send; payload_size = 4 }
    else if op == 0x30
    then record { mnemonic = "sync.bar"; translate_fn = barrier; payload_size = 2 }
    else unknown_entry

-- `ntel_init_opcode_lut` sets all 256 entries, whatever they were: six known opcodes, and the
-- unknown entry everywhere else.
pub init_opcode_lut_lem : (lut : Lut) (op : ℕ) → op < 256 → init_opcode_lut lut op ≡ entry_of op
unfolding init_opcode_lut entry_of
init_opcode_lut_lem lut op h =
    let cleared : clear_from 256 0 lut op ≡ unknown_entry =
      clear_from_lem 256 0 op lut ∙ ground arith in
    rw cleared (ground arith)
