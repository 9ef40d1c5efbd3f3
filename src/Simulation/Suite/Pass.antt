-- ===== src/Simulation/Suite/Pass.antt =====
-- The tests of the ring pass on every valid open ring that is large enough.
use n_igpu_macos.Common.{
  ℕ, zero, suc, ◌+◌, ◌-◌, ◌≤◌, ◌<◌, ◌≡◌, ◌∙◌, refl, ap, inl, inr, true, some, List, [], ◌∷◌, ltb,
  Bool-cases, u32, sub32, length, take, replicate, length-append, done, arith,
}
use n_igpu_macos.SharedRing.{try_write, try_read}
use n_igpu_macos.SharedRing.View.{OpenRing, context, IsValid, contents, length-contents}
use n_igpu_macos.SharedRing.Refine.{try_write_takes, try_write_refuses}
use n_igpu_macos.SharedRing.RoundTrip.{try_read-try_write}
use n_igpu_macos.Simulation.{empty_list, drain_ring_empties}
use n_igpu_macos.Simulation.Suite.{
  SimulationEnvironment, payload, test_ring_wraparound, test_monkey_brain_fuzzer, fill_ring,
  test_chokehold,
}

-- An environment with another open ring.
abbrev pub with_ring : SimulationEnvironment → OpenRing → SimulationEnvironment
with_ring env s = record env { ring = some (context s) }

pub contents_bound : (s : OpenRing) → IsValid s → length (contents s) ≤ s.capacity
contents_bound s v = ground (arith, length-contents s, v.write_in, v.read_in)

-- `while (ntel_ring_try_write(…))` fills the ring.
pub fill_ring_fills :
    (fuel : ℕ) (s : OpenRing)
    → IsValid s
    → s.capacity < fuel + length (contents s)
    → (s' : OpenRing) × (fill_ring fuel (some (context s)) ≡ done (some (some (context s'))))
      × IsValid s'
      × (s'.capacity ≡ s.capacity)
      × (s.capacity ≤ length (contents s') + 1)
unfolding fill_ring
fill_ring_fills zero s v enough = absurd (omega (arith, contents_bound s v))
fill_ring_fills (suc fuel) s v enough =
    elim (Bool-cases (ltb (length (contents s) + 1) s.capacity)) [
      | inl room ↦
          let (s1, eq, valid, same, holds) =
            try_write_takes {s = s} (0 ∷ []) 1 v (omega arith) (omega arith) (ground arith) in
          let more : length (contents s1) ≡ length (contents s) + 1 =
            ap length holds ∙ length-append (contents s) (0 ∷ []) in
          let (s2, ends, valid2, same2, full) = fill_ring_fills fuel s1 valid (omega arith) in
          (s2, rw eq ends, valid2, same2 ∙ same, omega arith)
      | inr full ↦
          let most : s.capacity ≤ length (contents s) + 1 = ground arith in
          (s, rw (try_write_refuses {s = s} (0 ∷ []) 1 v (inr most)) refl, v, refl, most)
    ]

-- `test_chokehold` ends, records no failure, and leaves an empty ring.
pub chokehold_passes :
    (fuel : ℕ) (s : OpenRing) (drain : List ℕ) (drained : ℕ) (env : SimulationEnvironment)
    → IsValid s
    → 256 ≤ length drain
    → s.capacity < fuel
    → (s' : OpenRing) × (test_chokehold fuel drain drained (with_ring env s)
        ≡ done (some (with_ring env s')))
      × IsValid s'
      × (s'.capacity ≡ s.capacity)
      × (contents s' ≡ [])
unfolding test_chokehold
chokehold_passes fuel s drain drained env v block enough =
    let (s1, filled, valid, same, full) = fill_ring_fills fuel s v (omega arith) in
    let refused = try_write_refuses {s = s1} (0 ∷ []) 1 valid (inr (omega arith)) in
    let held : length (contents s1) < fuel = omega (arith, contents_bound s1 valid) in
    let (s2, emptied, valid2, same2, empty) =
      drain_ring_empties fuel s1 drain drained valid block held in
    (s2, rw (filled, refused, emptied) refl, valid2, same2 ∙ same, empty)

-- `test_monkey_brain_fuzzer` records no failure and changes nothing.
pub fuzzer_passes :
    (s : OpenRing) (env : SimulationEnvironment)
    → IsValid s
    → test_monkey_brain_fuzzer (with_ring env s) ≡ done (with_ring env s)
unfolding test_monkey_brain_fuzzer
fuzzer_passes s env v =
    let whole : u32 (s.capacity + 1) ≡ s.capacity + 1 = omega (arith, v.small) in
    let refused =
      try_write_refuses {s = s} (replicate 4 0xff) (s.capacity + 1) v (inr (omega arith)) in
    rw (whole, refused) refl

-- The ring with both indices near the end of its buffer.
abbrev moved : OpenRing → OpenRing
moved s = record s {
  header = record s.header { write_idx = s.capacity - 4; read_idx = s.capacity - 4 };
}

moved-IsValid : (s : OpenRing) → IsValid s → 8 < s.capacity → IsValid (moved s)
moved-IsValid s v large = record {
  small = v.small;
  storage = v.storage;
  write_in = omega arith;
  read_in = omega arith;
}

contents-moved : (s : OpenRing) → 8 < s.capacity → contents (moved s) ≡ []
contents-moved s large = empty_list (contents (moved s)) (ground (arith, length-contents (moved s)))

-- The run, from what its calls return.
wraparound_runs :
    (s s1 s2 : OpenRing) (read_back out : List ℕ) (rb : ℕ) (env : SimulationEnvironment)
    → sub32 s.capacity 4 ≡ s.capacity - 4
    → try_write (some (context (moved s))) (some payload) 8 ≡ done (some (context s1), true)
    → try_read (some (context s1)) (some read_back) 8 (some rb)
      ≡ done (record {
        ctx = some (context s2);
        out_data = some out;
        bytes_read = some 8;
        read = true;
      })
    → take 8 out ≡ payload
    → test_ring_wraparound read_back rb (with_ring env s) ≡ done (with_ring env s2)
unfolding test_ring_wraparound
wraparound_runs s s1 s2 read_back out rb env at put got back = rw (at, put, got, back) refl

-- `test_ring_wraparound` records no failure and leaves an empty ring.
pub wraparound_passes :
    (s : OpenRing) (read_back : List ℕ) (rb : ℕ) (env : SimulationEnvironment)
    → IsValid s
    → 8 < s.capacity
    → 8 ≤ length read_back
    → (s' : OpenRing) × (test_ring_wraparound read_back rb (with_ring env s)
        ≡ done (with_ring env s'))
      × IsValid s'
      × (s'.capacity ≡ s.capacity)
      × (contents s' ≡ [])
wraparound_passes s read_back rb env v large room =
    let at : sub32 s.capacity 4 ≡ s.capacity - 4 = omega (arith, v.small) in
    let (s1, s2, out, put, got, back, valid, same, empty) =
      try_read-try_write (moved s) payload read_back rb (moved-IsValid s v large)
        (contents-moved s large) (omega arith) large room in
    (s2, wraparound_runs s s1 s2 read_back out rb env at put got back, valid, same, empty)
