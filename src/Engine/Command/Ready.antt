-- ===== src/Engine/Command/Ready.antt =====
-- What a ready engine is: on an open ring, with outputs in its cache.
use n_igpu_macos.Common.{ℕ, ◌<◌, ◌≡◌, some, List, ◌++◌, length, IsBytes}
use n_igpu_macos.Memo.{Key}
use n_igpu_macos.SharedRing.View.{OpenRing, context, IsValid}
use n_igpu_macos.Engine.Hash.{shader_hash, shader_verify_tag}
use n_igpu_macos.Engine.Translate.{idd_header}
use n_igpu_macos.Engine.Translate.Assemble.{assemble, program_bytes}
use n_igpu_macos.Engine.Cache.{TranslationEngine, ShaderCache}
use n_igpu_macos.Engine.Cache.View.{IsSane, view_entry}

-- The key under which a packet is cached.
abbrev pub packet_key : List ℕ → Key
packet_key air = record { hash = shader_hash air; tag = shader_verify_tag air; len = length air }

-- The message that a packet is translated to.
abbrev pub output : List ℕ → List ℕ
output air = idd_header ++ program_bytes (assemble air)

-- Each valid entry holds the output of a packet of bytes with the entry's key.
abbrev pub HoldsOutputs : ShaderCache → Type 0
HoldsOutputs cache =
    (i : ℕ)
    → i < 256
    → (k : Key) (bytes : List ℕ) → view_entry (cache i) ≡ some (k, bytes)
    → (p : List ℕ) × IsBytes p × (packet_key p ≡ k) × (output p ≡ bytes)

-- An engine on an open ring, with a cache in order.
pub record IsReady (e : TranslationEngine) (s : OpenRing) : Type 0 where
  pub on_ring : e.ring ≡ some (context s)
  pub ring_valid : IsValid s
  pub sane : IsSane e.shader_cache
  pub outputs : HoldsOutputs e.shader_cache
