-- ===== src/Engine/Hash.antt =====
-- NtelSpoofKext/src/NtelTranslationEngine.c: `ntel_shader_hash` (FNV-1a, 64 bits) and
-- `ntel_shader_verify_tag` (CRC-32 by table). A block and its length are the list of its bytes.
pub mod Crc
pub mod Fnv
use n_igpu_macos.Common.{ℕ, ◌*◌, List, [], ◌∷◌, bit_and, bit_xor, get_or, u64, ◌>>>◌}

-- one round of the loop of `ntel_shader_hash`
unfoldable pub hash_round : ℕ → ℕ → ℕ
hash_round h byte = u64 (bit_xor h byte * 0x100000001b3)

unfoldable pub hash_from : ℕ → List ℕ → ℕ
hash_from h [] = h
hash_from h (x ∷ xs) = hash_from (hash_round h x) xs

unfoldable pub shader_hash : List ℕ → ℕ
unfolding hash_from
shader_hash bytes = hash_from 0xcbf29ce484222325 bytes

unfoldable pub crc32_table : List ℕ
crc32_table =
    0x00000000 ∷ 0x77073096 ∷ 0xee0e612c ∷ 0x990951ba ∷ 0x076dc419 ∷ 0x706af48f ∷ 0xe963a535
    ∷ 0x9e6495a3 ∷ 0x0edb8832 ∷ 0x79dcb8a4 ∷ 0xe0d5e91b ∷ 0x97d2d988 ∷ 0x09b64c2b ∷ 0x7eb17cbd
    ∷ 0xe7b82d09 ∷ 0x90bf1d9f ∷ 0x1db71064 ∷ 0x6ab020f2 ∷ 0xf3b97148 ∷ 0x84be41de ∷ 0x1adad47d
    ∷ 0x6ddde4eb ∷ 0xf4d4b551 ∷ 0x83d385c7 ∷ 0x136c9856 ∷ 0x646ba8c0 ∷ 0xfd62f97a ∷ 0x8a65c9ec
    ∷ 0x14015c4f ∷ 0x63066cd9 ∷ 0xfa0f3d63 ∷ 0x8d080df5 ∷ 0x3b6e20c8 ∷ 0x4c69105e ∷ 0xd56041e4
    ∷ 0xa2677172 ∷ 0x3c03e4d1 ∷ 0x4b04d447 ∷ 0xd20d85fd ∷ 0xa50ab56b ∷ 0x35b5a8fa ∷ 0x42b2986c
    ∷ 0xdbbbc9d6 ∷ 0xacbcf940 ∷ 0x32d86ce3 ∷ 0x45df5c75 ∷ 0xdcd60dcf ∷ 0xabd13d59 ∷ 0x26d930ac
    ∷ 0x51de003a ∷ 0xc8d75180 ∷ 0xbfd06116 ∷ 0x21b4f6b5 ∷ 0x56b3c423 ∷ 0xcfba9599 ∷ 0xb8bda50f
    ∷ 0x2802b89e ∷ 0x5f058808 ∷ 0xc60cd9b2 ∷ 0xb10be924 ∷ 0x2f6f7c87 ∷ 0x58684c11 ∷ 0xc1611dab
    ∷ 0xb6662d3d ∷ 0x76dc4190 ∷ 0x01db7106 ∷ 0x98d220bc ∷ 0xefd5102a ∷ 0x71b18589 ∷ 0x06b6b51f
    ∷ 0x9fbfe4a5 ∷ 0xe8b8d433 ∷ 0x7807c9a2 ∷ 0x0f00f934 ∷ 0x9609a88e ∷ 0xe10e9818 ∷ 0x7f6a0dbb
    ∷ 0x086d3d2d ∷ 0x91646c97 ∷ 0xe6635c01 ∷ 0x6b6b51f4 ∷ 0x1c6c6162 ∷ 0x856530d8 ∷ 0xf262004e
    ∷ 0x6c0695ed ∷ 0x1b01a57b ∷ 0x8208f4c1 ∷ 0xf50fc457 ∷ 0x65b0d9c6 ∷ 0x12b7e950 ∷ 0x8bbeb8ea
    ∷ 0xfcb9887c ∷ 0x62dd1ddf ∷ 0x15da2d49 ∷ 0x8cd37cf3 ∷ 0xfbd44c65 ∷ 0x4db26158 ∷ 0x3ab551ce
    ∷ 0xa3bc0074 ∷ 0xd4bb30e2 ∷ 0x4adfa541 ∷ 0x3dd895d7 ∷ 0xa4d1c46d ∷ 0xd3d6f4fb ∷ 0x4369e96a
    ∷ 0x346ed9fc ∷ 0xad678846 ∷ 0xda60b8d0 ∷ 0x44042d73 ∷ 0x33031de5 ∷ 0xaa0a4c5f ∷ 0xdd0d7cc9
    ∷ 0x5005713c ∷ 0x270241aa ∷ 0xbe0b1010 ∷ 0xc90c2086 ∷ 0x5768b525 ∷ 0x206f85b3 ∷ 0xb966d409
    ∷ 0xce61e49f ∷ 0x5edef90e ∷ 0x29d9c998 ∷ 0xb0d09822 ∷ 0xc7d7a8b4 ∷ 0x59b33d17 ∷ 0x2eb40d81
    ∷ 0xb7bd5c3b ∷ 0xc0ba6cad ∷ 0xedb88320 ∷ 0x9abfb3b6 ∷ 0x03b6e20c ∷ 0x74b1d29a ∷ 0xead54739
    ∷ 0x9dd277af ∷ 0x04db2615 ∷ 0x73dc1683 ∷ 0xe3630b12 ∷ 0x94643b84 ∷ 0x0d6d6a3e ∷ 0x7a6a5aa8
    ∷ 0xe40ecf0b ∷ 0x9309ff9d ∷ 0x0a00ae27 ∷ 0x7d079eb1 ∷ 0xf00f9344 ∷ 0x8708a3d2 ∷ 0x1e01f268
    ∷ 0x6906c2fe ∷ 0xf762575d ∷ 0x806567cb ∷ 0x196c3671 ∷ 0x6e6b06e7 ∷ 0xfed41b76 ∷ 0x89d32be0
    ∷ 0x10da7a5a ∷ 0x67dd4acc ∷ 0xf9b9df6f ∷ 0x8ebeeff9 ∷ 0x17b7be43 ∷ 0x60b08ed5 ∷ 0xd6d6a3e8
    ∷ 0xa1d1937e ∷ 0x38d8c2c4 ∷ 0x4fdff252 ∷ 0xd1bb67f1 ∷ 0xa6bc5767 ∷ 0x3fb506dd ∷ 0x48b2364b
    ∷ 0xd80d2bda ∷ 0xaf0a1b4c ∷ 0x36034af6 ∷ 0x41047a60 ∷ 0xdf60efc3 ∷ 0xa8670955 ∷ 0x31684d8a
    ∷ 0x4c6f7b1c ∷ 0xd208ef04 ∷ 0xa50fdf92 ∷ 0x3c068e28 ∷ 0x4b01be9e ∷ 0xd5656b3d ∷ 0xa2625bab
    ∷ 0x3b6b0a11 ∷ 0x4c6c3a87 ∷ 0xdcd00b16 ∷ 0xabd73b80 ∷ 0x32de6a3a ∷ 0x45d95aac ∷ 0xdbbd3f0f
    ∷ 0xacba4f99 ∷ 0x35b31e23 ∷ 0x42b42eb5 ∷ 0xcb6e0164 ∷ 0xbc6931f2 ∷ 0x25606048 ∷ 0x526750de
    ∷ 0xcc03c57d ∷ 0xbb04f5eb ∷ 0x220da451 ∷ 0x550a94c7 ∷ 0xc5b58956 ∷ 0xb2b2b9c0 ∷ 0x2bbbe87a
    ∷ 0x5cbce8ec ∷ 0xc2d8ad4f ∷ 0xb5df9dd9 ∷ 0x2cd6cc63 ∷ 0x5bd1fcf5 ∷ 0x94d9810e ∷ 0xe3deb198
    ∷ 0x7ad7e022 ∷ 0x0dd0d0b4 ∷ 0x93b4b517 ∷ 0xe4b38581 ∷ 0x7dbad43b ∷ 0x0abde4ad ∷ 0x9a02f93c
    ∷ 0xed05c9aa ∷ 0x740c9810 ∷ 0x030ba886 ∷ 0x9d6f3d25 ∷ 0xea680db3 ∷ 0x73615c09 ∷ 0x04666c9f
    ∷ 0xb4d61564 ∷ 0xc3d125f2 ∷ 0x5ad87448 ∷ 0x2ddf44de ∷ 0xb3bb217d ∷ 0xc4bc11eb ∷ 0x5db54051
    ∷ 0x2ab270c7 ∷ 0xba0d6d56 ∷ 0xcd0a5dc0 ∷ 0x54030c7a ∷ 0x23043cec ∷ 0xbd60594f ∷ 0xca6769d9
    ∷ 0x536e3863 ∷ 0x246908f5 ∷ 0xa7610908 ∷ 0xd066399e ∷ 0x496f6824 ∷ 0x3e6858b2 ∷ 0xa00c3d11
    ∷ 0xd70b0d87 ∷ 0x4e025c3d ∷ 0x39056cab ∷ 0xa9ba713a ∷ 0xdebd41ac ∷ 0x47b41016 ∷ 0x30b32080
    ∷ 0xaed7b523 ∷ 0xd9d085b5 ∷ 0x40d9d40f ∷ 0x37dee499 ∷ []

-- one round of the loop of `ntel_shader_verify_tag`; the index is below 256
unfoldable pub crc_round : ℕ → ℕ → ℕ
crc_round crc byte = bit_xor (get_or crc32_table (bit_and (bit_xor crc byte) 0xff) 0) (crc >>> 8)

unfoldable pub crc_from : ℕ → List ℕ → ℕ
crc_from crc [] = crc
crc_from crc (x ∷ xs) = crc_from (crc_round crc x) xs

unfoldable pub shader_verify_tag : List ℕ → ℕ
unfolding crc_from
shader_verify_tag bytes = bit_xor (crc_from 0xffff_ffff bytes) 0xffff_ffff
