-- ===== src/Firmware/Kernel/Owned.antt =====
-- What the kernel build holds is what its context owns, whatever fails.
pub mod Calls
use n_igpu_macos.Common.{
  count, ℕ, ◌+◌, ◌-◌, ◌≡◌, ◌⊎◌, ◌∙◌, refl, ap, inl, inr, Bool, true, false, ◌||◌, Option, none,
  some, List, [], ◌∷◌, if◌then◌else◌, ltb, ◌==◌, Bool-cases, Option-cases, u32, arith, Exec, done,
  ◌>>=◌,
}
use n_igpu_macos.Firmware.{FirmwareBlob, FirmwareResult, cleaned, cleanup}
use n_igpu_macos.Firmware.Elf.{max_blob_size}
use n_igpu_macos.Firmware.Load.{FirmwareType, guc, huc, unknown, is_success}
use Prim.Native.String.{String}
use n_igpu_macos.Firmware.Kernel.{
  KernelContext, Resources, Vnode, MemoryMap, read_block, read_open, read_vnode, load_blob,
  map_mmio, owned, kernel_cleanup,
}

-- The context and the resources behind a call.
abbrev pub behind : KernelContext × FirmwareResult × Resources → KernelContext × Resources
behind (ctx, _, r) = (ctx, r)

-- What is handed out beyond `r0` is what the context owns, and a blob that is not loaded owns nothing.
pub record IsBalanced (r0 : Resources) (s : KernelContext × Resources) : Type 0 where
  pub vnodes : s.1.vnodes ≡ r0.vnodes
  pub blocks : s.1.blocks ≡ r0.blocks + (owned s.0.base.guc_blob + owned s.0.base.huc_blob)
  pub maps : s.1.maps ≡ r0.maps + count s.0.mmio_map
  pub guc_empty : (s.0.base.guc_blob.loaded ≡ true) ⊎ (owned s.0.base.guc_blob ≡ 0)
  pub huc_empty : (s.0.base.huc_blob.loaded ≡ true) ⊎ (owned s.0.base.huc_blob ≡ 0)

-- What a read changes: the blob owns the block that is handed out, or none.
record IsRead (r : Resources) (out : FirmwareBlob × FirmwareResult × Resources) : Type 0 where
  vnodes : out.2.vnodes ≡ r.vnodes
  blocks : out.2.blocks ≡ r.blocks + owned out.0
  maps : out.2.maps ≡ r.maps
  empty : (out.0.loaded ≡ true) ⊎ (owned out.0 ≡ 0)

unowned : {loaded : Bool} {n : ℕ} → (loaded ≡ true) ⊎ (n ≡ 0) → loaded ≡ false → n ≡ 0
unowned (inl has) lacks = absurd cc
unowned (inr nothing) lacks = nothing

module _ (r : Resources) where
  read_block-IsRead :
      (vp : Vnode) (blob : FirmwareBlob)
      → IsRead r (read_block vp blob (record r { vnodes = r.vnodes + 1; blocks = r.blocks + 1 }))
  unfolding read_block
  read_block-IsRead vp blob = elim (Option-cases (vp.rdwr blob.blob_size)) [
    | inl failed ↦
        rw (failed, read_block)
          record { vnodes = omega arith; blocks = omega arith; maps = refl; empty = inr refl }
    | inr ((bytes, residual), got) ↦ elim (Bool-cases (residual == 0)) [
      | inl all ↦
          rw (got, all, read_block)
            record { vnodes = omega arith; blocks = refl; maps = refl; empty = inl refl }
      | inr short ↦
          rw (got, short, read_block)
            record { vnodes = omega arith; blocks = omega arith; maps = refl; empty = inr refl }
    ]
  ]

  -- A blob that stays as it was.
  unread :
      (blob : FirmwareBlob) (e : FirmwareResult)
      → owned blob ≡ 0
      → IsRead r (blob, e, record r { vnodes = r.vnodes + 1 - 1 })
  unread blob e nothing = record {
    vnodes = omega arith;
    blocks = omega arith;
    maps = refl;
    empty = inr nothing;
  }

  read_open-IsRead :
      (malloc_ok : ℕ → Bool) (vp : Vnode) (blob : FirmwareBlob)
      → owned blob ≡ 0
      → IsRead r (read_open malloc_ok vp blob (record r { vnodes = r.vnodes + 1 }))
  unfolding read_open
  read_open-IsRead malloc_ok vp blob nothing = elim (Option-cases vp.size) [
    | inl failed ↦ rw failed (unread blob _ nothing)
    | inr (size, known) ↦ elim (Bool-cases (size == 0 || ltb max_blob_size size)) [
      | inl large ↦ rw (known, large) (unread blob _ nothing)
      | inr fine ↦ elim (Bool-cases (malloc_ok (u32 size))) [
        | inl has ↦
            rw (known, fine, has) (read_block-IsRead vp (record blob { blob_size = u32 size }))
        | inr lacks ↦ rw (known, fine, lacks) (unread _ _ refl)
      ]
    ]
  ]

  read_vnode-IsRead :
      (malloc_ok : ℕ → Bool) (file : Option Vnode) (blob : FirmwareBlob)
      → owned blob ≡ 0
      → IsRead r (read_vnode malloc_ok file blob r)
  unfolding read_vnode
  read_vnode-IsRead malloc_ok none blob nothing = record {
    vnodes = refl;
    blocks = omega arith;
    maps = refl;
    empty = inr nothing;
  }
  read_vnode-IsRead malloc_ok (some vp) blob nothing = read_open-IsRead malloc_ok vp blob nothing

owned-cleaned : (blob : FirmwareBlob) → owned (cleaned blob) ≡ 0
owned-cleaned blob = elim (Option-cases blob.blob_data) [ inl lacks ↦ cc | inr (bytes, has) ↦ cc ]

resources : {r s : Resources} → r.vnodes ≡ s.vnodes → r.blocks ≡ s.blocks → r.maps ≡ s.maps → r ≡ s
resources v b m = λ i. record { vnodes = v i; blocks = b i; maps = m i }

module _ (r0 : Resources) where
  pub load-IsBalanced :
      (malloc_ok : ℕ → Bool) (file : Option Vnode) (type : FirmwareType) (ctx : KernelContext)
      (r : Resources)
      → IsBalanced r0 (ctx, r)
      → IsBalanced r0 (behind (load_blob malloc_ok file type ctx r))
  unfolding load_blob
  load-IsBalanced malloc_ok file guc ctx r b = elim (Bool-cases ctx.base.guc_blob.loaded) [
    | inl has ↦ simp has b
    | inr lacks ↦
        let got =
          read_vnode-IsRead r malloc_ok file ctx.base.guc_blob (unowned b.guc_empty lacks) in
        simp lacks record {
          vnodes = got.vnodes ∙ b.vnodes;
          blocks = omega (arith, got.blocks, b.blocks, unowned b.guc_empty lacks);
          maps = got.maps ∙ b.maps;
          guc_empty = got.empty;
          huc_empty = b.huc_empty;
        }
  ]
  load-IsBalanced malloc_ok file huc ctx r b = elim (Bool-cases ctx.base.huc_blob.loaded) [
    | inl has ↦ simp has b
    | inr lacks ↦
        let got =
          read_vnode-IsRead r malloc_ok file ctx.base.huc_blob (unowned b.huc_empty lacks) in
        simp lacks record {
          vnodes = got.vnodes ∙ b.vnodes;
          blocks = omega (arith, got.blocks, b.blocks, unowned b.huc_empty lacks);
          maps = got.maps ∙ b.maps;
          guc_empty = b.guc_empty;
          huc_empty = got.empty;
        }
  ]
  load-IsBalanced malloc_ok file unknown ctx r b = b

  pub map-IsBalanced :
      (bar : Option (Option MemoryMap)) (ctx : KernelContext) (r : Resources)
      → IsBalanced r0 (ctx, r)
      → IsBalanced r0 (behind (map_mmio bar ctx r))
  unfolding map_mmio
  map-IsBalanced none ctx r b = b
  map-IsBalanced (some bar) ctx r b = elim (Bool-cases ctx.mmio_map) [
    | inl has ↦ simp has b
    | inr lacks ↦ elim (Option-cases bar) [
      | inl failed ↦ simp (lacks, failed) b
      | inr (map, mapped) ↦ elim (Option-cases map.address) [
        | inl nowhere ↦
            simp (lacks, mapped, nowhere)
              record {
                vnodes = b.vnodes;
                blocks = b.blocks;
                maps = omega (arith, b.maps, ap count lacks);
                guc_empty = b.guc_empty;
                huc_empty = b.huc_empty;
              }
        | inr (mmio, at) ↦ elim (Bool-cases (u32 map.len == 0)) [
          | inl empty ↦
              simp (lacks, mapped, at, empty)
                record {
                  vnodes = b.vnodes;
                  blocks = b.blocks;
                  maps = omega (arith, b.maps, ap count lacks);
                  guc_empty = b.guc_empty;
                  huc_empty = b.huc_empty;
                }
          | inr sized ↦
              simp (lacks, mapped, at, sized)
                record {
                  vnodes = b.vnodes;
                  blocks = b.blocks;
                  maps = omega (arith, b.maps, ap count lacks);
                  guc_empty = b.guc_empty;
                  huc_empty = b.huc_empty;
                }
        ]
      ]
    ]
  ]

  unmapped :
      (mapped : Bool) (n : ℕ) → n ≡ r0.maps + count mapped → (if mapped then n - 1 else n) ≡ r0.maps
  unmapped true n e = omega (arith, e)
  unmapped false n e = omega (arith, e)

  pub clean-IsBalanced :
      (ctx : KernelContext) (r : Resources)
      → IsBalanced r0 (ctx, r)
      → IsBalanced r0 (kernel_cleanup ctx r)
  unfolding kernel_cleanup cleanup
  clean-IsBalanced ctx r b = record {
    vnodes = b.vnodes;
    blocks =
        omega (arith, b.blocks, owned-cleaned ctx.base.guc_blob, owned-cleaned ctx.base.huc_blob);
    maps = omega (arith, unmapped ctx.mmio_map r.maps b.maps);
    guc_empty = inr (owned-cleaned ctx.base.guc_blob);
    huc_empty = inr (owned-cleaned ctx.base.huc_blob);
  }

  -- Once it is cleaned up, everything is given back.
  pub given_back :
      (s : KernelContext × Resources) → IsBalanced r0 s → (kernel_cleanup s.0 s.1).1 ≡ r0
  unfolding kernel_cleanup
  given_back (ctx, r) b =
      resources b.vnodes (omega (arith, b.blocks)) (unmapped ctx.mmio_map r.maps b.maps)
