-- ===== src/Simulation.antt =====
-- NtelSpoofKext/src/NtelSimulation.c: `drain_ring`, by which the simulated consumer empties the ring.
pub mod Suite
pub mod Bleed
pub mod Sending
pub mod Setup
pub mod Stress
pub mod Pipeline
pub mod Recorder
pub mod Caching
mod Tests
use n_igpu_macos.Common.{
  ℕ, zero, suc, ◌+◌, ◌-◌, ◌≤◌, ◌<◌, ◌≡◌, ◌∙◌, refl, ap, inl, inr, Bool, true, false, Option, none,
  some, List, [], ◌∷◌, ◌==◌, Bool-cases, length, length-take, length-drop, take, drop, min, Exec,
  done, ◌>>=◌, arith,
}
use n_igpu_macos.SharedRing.{RingContext, ReadOutcome, try_read}
use n_igpu_macos.SharedRing.View.{OpenRing, context, IsValid, contents}
use n_igpu_macos.SharedRing.Read.{try_read_gives, try_read_refuses}

-- `while (ntel_ring_try_read(ring, drain, sizeof(drain), &drained))` on a block of 256 bytes; `none`
-- is a loop that the fuel does not finish.
unfoldable pub drain_ring :
    (fuel : ℕ)
    → Option RingContext
    → Option (List ℕ)
    → Option ℕ
    → Exec (Option (Option RingContext))
drain_ring zero ring drain drained = done none
drain_ring (suc fuel) ring drain drained = do
  outcome ← try_read ring drain 256 drained
  elim outcome.read [
    | false ↦ done (some outcome.ctx)
    | true ↦ drain_ring fuel outcome.ctx outcome.out_data outcome.bytes_read
  ]

-- What a block still has room for after a read put `n` bytes at its front.
still_room :
    (out out' front : List ℕ) (n : ℕ)
    → 256 ≤ length out
    → n ≤ 256
    → n ≤ length front
    → take n out' ≡ take n front
    → drop n out' ≡ drop n out
    → 256 ≤ length out'
still_room out out' front n room small enough same_front same_rest = omega (
  arith,
  ap length same_front,
  ap length same_rest,
  length-take {0} n out',
  length-take {0} n front,
  length-drop {0} n out',
  length-drop {0} n out,
)

pub empty_list : (xs : List ℕ) → length xs ≡ 0 → xs ≡ []
empty_list [] h = refl
empty_list (x ∷ xs) h = absurd (omega arith)

-- On a valid open ring `drain_ring` ends, with a block of at least 256 bytes, after at most one round
-- more than the ring holds bytes, with every access inside its buffers, and leaves an empty valid ring
-- of the same capacity.
pub drain_ring_empties :
    (fuel : ℕ) (s : OpenRing) (block : List ℕ) (old : ℕ)
    → IsValid s
    → 256 ≤ length block
    → length (contents s) < fuel
    → (s' : OpenRing) × (drain_ring fuel (some (context s)) (some block) (some old)
        ≡ done (some (some (context s'))))
      × IsValid s'
      × (s'.capacity ≡ s.capacity)
      × (contents s' ≡ [])
unfolding drain_ring
drain_ring_empties zero s block old v room enough = absurd (omega arith)
drain_ring_empties (suc fuel) s block old v room enough =
    elim (Bool-cases (length (contents s) == 0)) [
      | inl e ↦
          let empty = empty_list (contents s) (ground arith) in
          (s, rw (try_read_refuses block 256 old v (inr empty)) refl, v, refl, empty)
      | inr busy ↦
          let held : 0 < length (contents s) = ground arith in
          let n = min (length (contents s)) 256 in
          let (s1, out, eq, front, rest, valid, same, holds) =
            try_read_gives block 256 old v (omega arith) room held in
          let fewer : length (contents s1) < fuel =
            omega (arith, ap length holds, length-drop {0} n (contents s)) in
          let (s2, ends, valid2, same2, empty) =
            drain_ring_empties fuel s1 out n valid
              (still_room block out (contents s) n room (omega arith) (omega arith) front rest)
              fewer in
          (s2, rw eq ends, valid2, same2 ∙ same, empty)
    ]
