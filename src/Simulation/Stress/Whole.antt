-- ===== src/Simulation/Stress/Whole.antt =====
-- `test_stress_ring_multithread` passes in every interleaving.
use n_igpu_macos.Common.{
  ℕ, zero, suc, ◌+◌, ◌≤◌, ◌<◌, ◌≡◌, refl, ap, inl, inr, true, some, List, [], ◌∷◌, ◌++◌, ◌∙◌, sym,
  ltb, Bool-cases, min, length, done, arith,
}
use n_igpu_macos.SharedRing.View.{OpenRing, context, IsValid, contents, length-contents}
use n_igpu_macos.Simulation.{drain_ring, drain_ring_empties}
use n_igpu_macos.Simulation.Stress.{
  Worker, run_threads, create_threads, total, all_joined, settle, test_stress_ring_multithread,
}
use n_igpu_macos.Simulation.Stress.Traffic.{Handover, traffic}
use n_igpu_macos.Simulation.Stress.Interleave.{
  AllSound, sum, progress_at, calls_of, run_threads-IsPass,
}

create_threads-AllSound : (n left i : ℕ) → i + left ≤ n → AllSound n (create_threads left i n 50000)
unfolding create_threads
create_threads-AllSound n zero i room = tt
create_threads-AllSound n (suc left) i room = (
  record {
    num = refl;
    own = omega arith;
    clean = refl;
    bounded = refl;
    rounds = omega arith;
    writes = omega arith;
    reads = omega arith;
  },
  create_threads-AllSound n left (i + 1) (omega arith),
)

-- No thread has counted anything at the start.
sum-create_threads :
    (n left i : ℕ)
    → (sum (λ a. a.writes_ok) (create_threads left i n 50000) ≡ 0)
      × (sum (λ a. a.reads_ok) (create_threads left i n 50000) ≡ 0)
unfolding create_threads
sum-create_threads n zero i = (refl, refl)
sum-create_threads n (suc left) i =
    let (w, r) = sum-create_threads n left (i + 1) in (omega (arith, w), omega (arith, r))

progress_at-create_threads :
    (n left i j : ℕ) → left ≤ j → progress_at j (create_threads left i n 50000) ≡ 100000
unfolding create_threads
progress_at-create_threads n zero i j out = refl
progress_at-create_threads n (suc left) i zero out = absurd (omega arith)
progress_at-create_threads n (suc left) i (suc j) out =
    progress_at-create_threads n left (i + 1) j (omega arith)

total_errors : (n : ℕ) (ws : List Worker) → AllSound n ws → total (λ a. a.data_errors) ws ≡ 0
unfolding total
total_errors n [] all = refl
total_errors n (w ∷ ws) all = omega (arith, all.0.clean, total_errors n ws all.1)

-- Threads that have made all their calls are joined.
joined :
    (n : ℕ) (ws : List Worker)
    → AllSound n ws
    → ((j : ℕ) → progress_at j ws ≡ 100000)
    → all_joined ws ≡ true
unfolding all_joined
joined n [] all made = refl
joined n (w ∷ ws) all made =
    let through : w.arg.iterations ≤ w.i = omega (arith, made 0, all.0.rounds, all.0.bounded) in
    let rest = joined n ws all.1 (λ j. made (suc j)) in ground arith

-- The run of the test, from what its parts return.
stress_runs :
    (fuel : ℕ) (block : List ℕ) (old failures n : ℕ) (schedule : List ℕ)
    (s start mid ends : OpenRing) (ws : List Worker)
    → drain_ring fuel (some (context s)) (some block) (some old)
      ≡ done (some (some (context start)))
    → run_threads schedule (create_threads n 0 n 50000) (some (context start))
      ≡ done (ws, some (context mid))
    → all_joined ws ≡ true
    → drain_ring fuel (some (context mid)) (some block) (some old)
      ≡ done (some (some (context ends)))
    → total (λ a. a.data_errors) ws ≡ 0
    → test_stress_ring_multithread fuel block old schedule n (some (context s)) failures
      ≡ done (some (some (context ends), failures))
unfolding test_stress_ring_multithread settle
stress_runs fuel block old failures n schedule s start mid ends ws first ran through last clean =
    rw (first, ran, through, last, clean) refl

all_made :
    (n : ℕ) (schedule : List ℕ) (ws : List Worker)
    → ((j : ℕ)
        → progress_at j ws
          ≡ min 100000 (progress_at j (create_threads n 0 n 50000) + calls_of j schedule))
    → ((j : ℕ) → j < n → 100000 ≤ calls_of j schedule)
    → (j : ℕ) → progress_at j ws ≡ 100000
all_made n schedule ws moved fair j = elim (Bool-cases (ltb j n)) [
  | inl inside ↦ let enough = fair j (ground arith) in omega (arith, moved j, enough)
  | inr outside ↦ omega (arith, moved j, progress_at-create_threads n n 0 j (ground arith))
]

-- In every interleaving of up to 64 threads that gives each of them its 100000 calls of a valid ring,
-- with a block of at least 256 bytes to drain it by and fuel for the bytes that it holds and for
-- its capacity: each call is inside its buffers, the threads end, the test records no failure and leaves
-- an empty valid ring. The bytes that the threads wrote, in order, are those that they read, in
-- order, and then those that the ring held when the threads had ended; the counts of the threads
-- add up to the numbers of both.
pub stress_ring_passes :
    (fuel : ℕ) (s : OpenRing) (block : List ℕ) (old failures n : ℕ) (schedule : List ℕ)
    → IsValid s
    → 256 ≤ length block
    → length (contents s) < fuel
    → s.capacity < fuel
    → n ≤ 64
    → ((j : ℕ) → j < n → 100000 ≤ calls_of j schedule)
    → (start : OpenRing) × (ws : List Worker) × (mid : OpenRing) × (ends : OpenRing)
      × (bytes : Handover) × (contents start ≡ [])
      × (run_threads schedule (create_threads n 0 n 50000) (some (context start))
          ≡ done (ws, some (context mid)))
      × (traffic schedule (create_threads n 0 n 50000) (some (context start)) ≡ done bytes)
      × (bytes.sent ≡ bytes.got ++ contents mid)
      × (sum (λ a. a.writes_ok) ws ≡ length bytes.sent)
      × (sum (λ a. a.reads_ok) ws ≡ length bytes.got)
      × (test_stress_ring_multithread fuel block old schedule n (some (context s)) failures
          ≡ done (some (some (context ends), failures)))
      × IsValid ends
      × (contents ends ≡ [])
stress_ring_passes fuel s block old failures n schedule v room enough whole few fair =
    let (start, first, v0, same, empty) = drain_ring_empties fuel s block old v room enough in
    let (ws, mid, bytes, ran, moved_bytes, p) =
      run_threads-IsPass n few schedule (create_threads n 0 n 50000) start v0
        (create_threads-AllSound n n 0 (omega arith)) (rw empty tt) in
    let made = λ (j : ℕ). all_made n schedule ws p.moved fair j in
    let through = joined n ws p.sound made in
    let fits : length (contents mid) < fuel =
      ground (arith, length-contents mid, p.valid, p.same_capacity, same) in
    let (ends, last, v2, _, gone) = drain_ring_empties fuel mid block old p.valid room fits in
    let (no_writes, no_reads) = sum-create_threads n n 0 in
    (
      start,
      ws,
      mid,
      ends,
      bytes,
      empty,
      ran,
      moved_bytes,
      ap (λ q. q ++ bytes.sent) (sym empty) ∙ p.flow,
      omega (arith, p.writes_counted, no_writes),
      omega (arith, p.reads_counted, no_reads),
      stress_runs fuel block old failures n schedule s start mid ends ws first ran through last
          (total_errors n ws p.sound),
      v2,
      gone,
    )
