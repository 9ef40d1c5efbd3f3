-- ===== src/SharedRing/Lifecycle.antt =====
-- `ntel_ring_init` and `ntel_ring_cleanup`: which memory makes a ring, and what a closed one does.
use n_igpu_macos.Common.{ℕ, ◌-◌, ◌≤◌, ◌≡◌, List, [], some, true, length, drop, length-drop, arith}
use n_igpu_macos.SharedRing.{RingContext, header_size, max_capacity, fresh_header, init}
use n_igpu_macos.SharedRing.View.{OpenRing, context, IsValid, contents}

-- The ring that `ntel_ring_init` makes of `size` bytes of shared memory.
abbrev pub fresh : List ℕ → ℕ → OpenRing
fresh mem size = record {
  header = fresh_header (size - header_size);
  buffer = drop header_size mem;
  capacity = size - header_size;
}

-- With a size from the header's 64 bytes to 8 MB, memory of at least that size and a mutex,
-- `ntel_ring_init` leaves a valid open ring over the bytes behind the header that holds nothing,
-- whatever the context was.
pub init_opens :
    (ctx : RingContext) (mem : List ℕ) (size : ℕ)
    → header_size ≤ size
    → size ≤ max_capacity
    → size ≤ length mem
    → (init (some ctx) (some mem) size true ≡ (some (context (fresh mem size)), true))
      × IsValid (fresh mem size)
      × (contents (fresh mem size) ≡ [])
unfolding init
init_opens ctx mem size lo hi room =
    (ground arith, omega (arith, length-drop {0} header_size mem), ground arith)
