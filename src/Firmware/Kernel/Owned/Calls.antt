-- ===== src/Firmware/Kernel/Owned/Calls.antt =====
-- Sequences of calls of a kernel client.
use n_igpu_macos.Common.{
  count, ℕ, ◌≡◌, refl, ap, inl, inr, Bool, false, Option, List, [], ◌∷◌, Bool-cases, arith, Exec,
  done, ◌>>=◌,
}
use n_igpu_macos.Firmware.{FirmwareResult}
use n_igpu_macos.Firmware.Load.{FirmwareType, is_success}
use Prim.Native.String.{String}
use n_igpu_macos.Firmware.Kernel.{
  KernelContext, Resources, Vnode, MemoryMap, load_blob, map_mmio, owned, kernel_cleanup,
}
use n_igpu_macos.Firmware.Kernel.Inject.{give_up, inject_loaded, inject_huc, inject_all}
use n_igpu_macos.Firmware.Kernel.Owned.{
  behind, IsBalanced, load-IsBalanced, map-IsBalanced, clean-IsBalanced, given_back,
}

-- The calls of a client, with what the kernel and the device answer.
pub data KernelCall : Type 0 where
  load : (malloc_ok : ℕ → Bool) → Option Vnode → FirmwareType → KernelCall
  map_bar : Option (Option MemoryMap) → KernelCall
  inject :
      (guc_malloc_ok huc_malloc_ok : ℕ → Bool)
      → (vnode_open : String → Option Vnode) → (guc_status huc_status : ℕ → ℕ) → KernelCall
  clean : KernelCall

unfoldable pub run_call : KernelCall → KernelContext × Resources → Exec (KernelContext × Resources)
unfolding inject_all
run_call (load malloc_ok file type) (ctx, r) = done (behind (load_blob malloc_ok file type ctx r))
run_call (map_bar bar) (ctx, r) = done (behind (map_mmio bar ctx r))
run_call (inject guc_malloc_ok huc_malloc_ok vnode_open guc_status huc_status) (ctx, r) = do
  out ← inject_all guc_status huc_status guc_malloc_ok huc_malloc_ok vnode_open ctx r
  done (behind out)
run_call clean (ctx, r) = done (kernel_cleanup ctx r)

unfoldable pub run_calls :
    List KernelCall → KernelContext × Resources → Exec (KernelContext × Resources)
unfolding run_call
run_calls [] s = done s
run_calls (call ∷ calls) s = do s' ← run_call call s; run_calls calls s'

module _ (r0 : Resources) where
  -- A call that ends, with a balance.
  abbrev Settles : Exec (KernelContext × Resources) → Type 0
  Settles run = (s : KernelContext × Resources) × (run ≡ done s) × IsBalanced r0 s

  abbrev Balances : Exec (KernelContext × FirmwareResult × Resources) → Type 0
  Balances run =
      (out : KernelContext × FirmwareResult × Resources) × (run ≡ done out)
      × IsBalanced r0 (behind out)

  inject_loaded-Balances :
      (gs hs : ℕ → ℕ) (ctx : KernelContext) (r : Resources)
      → IsBalanced r0 (ctx, r)
      → Balances (inject_loaded gs hs ctx r)
  unfolding inject_loaded map_mmio
  inject_loaded-Balances gs hs ctx r b = (
    _,
    refl,
    record {
      vnodes = b.vnodes;
      blocks = b.blocks;
      maps = b.maps;
      guc_empty = b.guc_empty;
      huc_empty = b.huc_empty;
    },
  )

  give_up-Balances :
      (ctx : KernelContext) (res : FirmwareResult) (r : Resources)
      → IsBalanced r0 (ctx, r)
      → Balances (give_up ctx res r)
  give_up-Balances ctx res r b = (_, refl, clean-IsBalanced r0 ctx r b)

  inject_huc-Balances :
      (gs hs : ℕ → ℕ) (gm hm : ℕ → Bool) (vnode_open : String → Option Vnode) (ctx : KernelContext)
      (r : Resources)
      → IsBalanced r0 (ctx, r)
      → Balances (inject_huc gs hs gm hm vnode_open ctx r)
  unfolding inject_huc
  inject_huc-Balances gs hs gm hm vnode_open ctx r b =
      let file = vnode_open "firmware/bin/huc_xe_lp.raw" in
      let (ctx', res, r') = load_blob hm file FirmwareType.huc ctx r in
      let b' = load-IsBalanced r0 hm file FirmwareType.huc ctx r b in
      elim (Bool-cases (is_success res)) [
        | inl loaded ↦ simp loaded (inject_loaded-Balances gs hs ctx' r' b')
        | inr failed ↦ simp failed (give_up-Balances ctx' res r' b')
      ]

  inject_all-Balances :
      (gs hs : ℕ → ℕ) (gm hm : ℕ → Bool) (vnode_open : String → Option Vnode) (ctx : KernelContext)
      (r : Resources)
      → IsBalanced r0 (ctx, r)
      → Balances (inject_all gs hs gm hm vnode_open ctx r)
  unfolding inject_all
  inject_all-Balances gs hs gm hm vnode_open ctx r b =
      let file = vnode_open "firmware/bin/guc_xe_lp.raw" in
      let (ctx', res, r') = load_blob gm file FirmwareType.guc ctx r in
      let b' = load-IsBalanced r0 gm file FirmwareType.guc ctx r b in
      elim (Bool-cases (is_success res)) [
        | inl loaded ↦ simp loaded (inject_huc-Balances gs hs gm hm vnode_open ctx' r' b')
        | inr failed ↦ simp failed (give_up-Balances ctx' res r' b')
      ]

  run_call-Settles :
      (call : KernelCall) (s : KernelContext × Resources)
      → IsBalanced r0 s
      → Settles (run_call call s)
  unfolding run_call
  run_call-Settles (load malloc_ok file type) s b =
      (_, refl, load-IsBalanced r0 malloc_ok file type s.0 s.1 b)
  run_call-Settles (map_bar bar) s b = (_, refl, map-IsBalanced r0 bar s.0 s.1 b)
  run_call-Settles (inject gm hm vnode_open gs hs) s b =
      let (out, runs, balanced) = inject_all-Balances gs hs gm hm vnode_open s.0 s.1 b in
      (behind out, rw runs refl, balanced)
  run_call-Settles clean s b = (_, refl, clean-IsBalanced r0 s.0 s.1 b)

  run_calls-Settles :
      (calls : List KernelCall) (s : KernelContext × Resources)
      → IsBalanced r0 s
      → Settles (run_calls calls s)
  unfolding run_calls
  run_calls-Settles [] s b = (s, refl, b)
  run_calls-Settles (call ∷ calls) s b =
      let (s', runs, b') = run_call-Settles call s b in
      let (s'', rest, b'') = run_calls-Settles calls s' b' in (s'', rw (runs, rest) refl, b'')

-- From a context that owns no block and no map, any sequence of loads, mappings of BAR0, injections and
-- cleanups ends, whatever the file system, the allocator and the device answered. Then no vnode is
-- open that was not before, the blocks and maps handed out are exactly those that the context's
-- blobs and its map hold, a blob that is not loaded holds none, and one more cleanup gives back
-- everything.
pub kernel_calls_balance :
    (calls : List KernelCall) (ctx : KernelContext) (r : Resources)
    → owned ctx.base.guc_blob ≡ 0
    → owned ctx.base.huc_blob ≡ 0
    → ctx.mmio_map ≡ false
    → (s : KernelContext × Resources) × (run_calls calls (ctx, r) ≡ done s)
      × IsBalanced r s
      × ((kernel_cleanup s.0 s.1).1 ≡ r)
kernel_calls_balance calls ctx r no_guc no_huc no_map =
    let start : IsBalanced r (ctx, r) = record {
      vnodes = refl;
      blocks = omega (arith, no_guc, no_huc);
      maps = omega (arith, ap count no_map);
      guc_empty = inr no_guc;
      huc_empty = inr no_huc;
    } in
    let (s, runs, after) = run_calls-Settles r calls (ctx, r) start in
    (s, runs, after, given_back r s after)
