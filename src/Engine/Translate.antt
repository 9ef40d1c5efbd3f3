-- ===== src/Engine/Translate.antt =====
-- NtelSpoofKext/src/NtelTranslationEngine.c: `translate_air_to_gen12`. A packet and its length are
-- the list of its bytes.
pub mod Assemble
pub mod Dispatch
pub mod Correct
use n_igpu_macos.Common.{
  ℕ, zero, suc, ◌+◌, ◌*◌, ◌/◌, Bool, true, false, not, ◌||◌, Option, none, some, List, [], ◌∷◌,
  ◌++◌, if◌then◌else◌, ltb, leb, ◌==◌, length, replicate, u32, le32, Exec, done, ◌>>=◌, load,
  memcpy,
}
use n_igpu_macos.Engine.Isa.{
  Gen12Instruction, OpcodeMap, Lut, unknown_entry, unknown, init_opcode_lut, translate,
  instruction_bytes,
}

-- NTEL_MAX_SHADER_BYTECODE
abbrev pub max_shader_bytecode : ℕ
max_shader_bytecode = 64 * 1024

-- `ntel_build_idd_header`: the 32 bytes of the NtelIDD, its first field a uint64_t.
abbrev pub idd_header : List ℕ
idd_header =
    le32 0x0010_0000
    ++ (le32 0
        ++ (le32 0x2000 ++ (le32 0x3000 ++ (le32 0x1000 ++ (le32 32 ++ (le32 0 ++ le32 0))))))

-- The static table of the function, initialised at its first call. No entry keeps what it was
-- before (`Isa.Table`).
unfoldable pub local_lut : Lut
local_lut = init_opcode_lut (λ _. unknown_entry)

unfoldable pub dispatch : Lut → List ℕ → ℕ → ℕ → Exec (Gen12Instruction × ℕ)
dispatch lut air offset air_op =
    let entry = lut air_op in
    if leb (u32 (offset + entry.payload_size)) (length air)
    then translate entry.translate_fn air offset
    else translate unknown air offset

-- The `while` loop; `left` is `max_instructions - inst_count`.
pub translate_loop : Lut → List ℕ → (left offset inst_count : ℕ) → List ℕ → Exec (List ℕ × ℕ)
unfolding dispatch
translate_loop lut air zero offset inst_count gen12 = done (gen12, inst_count)
translate_loop lut air (suc left) offset inst_count gen12 = elim (ltb offset (length air)) [
  | false ↦ done (gen12, inst_count)
  | true ↦ do
    air_op ← load air offset
    (inst, offset') ← dispatch lut air offset air_op
    gen12' ← memcpy gen12 (32 + inst_count * 16) (instruction_bytes inst) 0 16
    translate_loop lut air left offset' (inst_count + 1) gen12'
]

-- The block made and the bytes of it that count; `none` is a refusal. `alloc_ok` is whether the
-- allocation succeeds.
pub translate_air_to_gen12 : (alloc_ok : Bool) → List ℕ → Exec (Option (List ℕ × ℕ))
unfolding translate_loop local_lut
translate_air_to_gen12 alloc_ok air =
    if length air == 0 || ltb (max_shader_bytecode / 4) (length air) || not alloc_ok
    then done none
    else (do
      gen12 ← memcpy (replicate (u32 (32 + length air * 16)) 0) 0 idd_header 0 32
      (gen12', inst_count) ← translate_loop local_lut air (length air) 0 0 gen12
      done (some (gen12', u32 (32 + inst_count * 16))))
