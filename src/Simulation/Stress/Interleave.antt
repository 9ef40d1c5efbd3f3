-- ===== src/Simulation/Stress/Interleave.antt =====
-- What an interleaving of the threads does.
use n_igpu_macos.Common.{
  ℕ, zero, suc, ◌+◌, ◌*◌, ◌≤◌, ◌≡◌, ◌∙◌, refl, ap, Bool, some, List, [], ◌∷◌, ◌++◌, ◌==◌,
  append-nil, append_assoc, sym, min, length, length-append, count, done, arith,
}
use n_igpu_macos.SharedRing.View.{OpenRing, context, IsValid, contents}
use n_igpu_macos.Simulation.Stress.{StressThreadArg, Worker, step_at, run_threads}
use n_igpu_macos.Simulation.Stress.Traffic.{Handover, no_bytes, followed_by, bytes_at, traffic}
use n_igpu_macos.Simulation.Stress.Thread.{Below, progress, IsSound, worker_step-IsStep}

abbrev pub AllSound : ℕ → List Worker → Type 0
AllSound n [] = Unit
AllSound n (w ∷ ws) = IsSound n w × AllSound n ws

-- The sum of a count over the threads, with no bound.
abbrev pub sum : (StressThreadArg → ℕ) → List Worker → ℕ
sum f [] = 0
sum f (w ∷ ws) = f w.arg + sum f ws

-- The calls that thread `j` has made; one that there is not is through.
abbrev pub progress_at : ℕ → List Worker → ℕ
progress_at j [] = 100000
progress_at zero (w ∷ ws) = progress w
progress_at (suc j) (w ∷ ws) = progress_at j ws

-- The calls of thread `j` in a schedule.
abbrev pub calls_of : ℕ → List ℕ → ℕ
calls_of j [] = 0
calls_of j (k ∷ ks) = count (k == j) + calls_of j ks

progress_at_bound : (n j : ℕ) (ws : List Worker) → AllSound n ws → progress_at j ws ≤ 100000
progress_at_bound n j [] all = omega arith
progress_at_bound n zero (w ∷ ws) all = omega (arith, all.0.rounds, all.0.bounded)
progress_at_bound n (suc j) (w ∷ ws) all = progress_at_bound n j ws all.1

head_moved :
    (n : ℕ) (w w' : Worker) (ws : List Worker)
    → AllSound n ws
    → progress w' ≡ min (2 * 50000) (progress w + 1)
    → (j : ℕ) → progress_at j (w' ∷ ws) ≡ min 100000 (progress_at j (w ∷ ws) + count (0 == j))
head_moved n w w' ws all moved zero = moved
head_moved n w w' ws all moved (suc j) =
    let other : count (0 == suc j) ≡ 0 = ground arith in
    omega (arith, other, progress_at_bound n j ws all)

tail_moved :
    (n k : ℕ) (w : Worker) (ws ws' : List Worker)
    → IsSound n w
    → ((j : ℕ) → progress_at j ws' ≡ min 100000 (progress_at j ws + count (k == j)))
    → (j : ℕ) → progress_at j (w ∷ ws') ≡ min 100000 (progress_at j (w ∷ ws) + count (suc k == j))
tail_moved n k w ws ws' sound moved zero =
    let other : count (suc k == 0) ≡ 0 = ground arith in
    omega (arith, other, sound.rounds, sound.bounded)
tail_moved n k w ws ws' sound moved (suc j) =
    let same : (k == j) ≡ (suc k == suc j) = ground arith in
    moved j ∙ ap (λ (b : Bool). min 100000 (progress_at j ws + count b)) same

-- From threads `ws` and a ring `s` to others, where thread `j` makes `made j` calls and `b` is handed
-- over.
pub record IsPass (n : ℕ) (made : ℕ → ℕ) (ws : List Worker) (s : OpenRing) (b : Handover)
    (ws' : List Worker) (s' : OpenRing) : Type 0 where
  pub valid : IsValid s'
  pub same_capacity : s'.capacity ≡ s.capacity
  pub sound : AllSound n ws'
  pub below : Below n (contents s')
  pub moved : (j : ℕ) → progress_at j ws' ≡ min 100000 (progress_at j ws + made j)
  pub flow : contents s ++ b.sent ≡ b.got ++ contents s'
  pub writes_counted : sum (λ a. a.writes_ok) ws' ≡ sum (λ a. a.writes_ok) ws + length b.sent
  pub reads_counted : sum (λ a. a.reads_ok) ws' ≡ sum (λ a. a.reads_ok) ws + length b.got

-- What a queue takes and gives in two runs.
flow_then :
    (q sent got q1 sent' got' q2 : List ℕ)
    → q ++ sent ≡ got ++ q1
    → q1 ++ sent' ≡ got' ++ q2
    → q ++ (sent ++ sent') ≡ (got ++ got') ++ q2
flow_then q sent got q1 sent' got' q2 first rest =
    sym (append_assoc q sent sent')
    ∙ ap (λ t. t ++ sent') first
    ∙ append_assoc got q1 sent'
    ∙ ap (λ t. got ++ t) rest
    ∙ sym (append_assoc got got' q2)

module _ (n : ℕ) (few : n ≤ 64) where
  pub step_at-IsPass :
      (k : ℕ) (ws : List Worker) (s : OpenRing)
      → IsValid s
      → AllSound n ws
      → Below n (contents s)
      → (ws' : List Worker) × (s' : OpenRing) × (b : Handover) × (step_at k ws (some (context s))
          ≡ done (ws', some (context s')))
        × (bytes_at k ws (some (context s)) ≡ done b)
        × IsPass n (λ j. count (k == j)) ws s b ws' s'
  unfolding step_at bytes_at
  step_at-IsPass k [] s v all below = (
    [],
    s,
    no_bytes,
    refl,
    refl,
    record {
      valid = v;
      same_capacity = refl;
      sound = tt;
      below = below;
      moved = λ j. omega arith;
      flow = append-nil (contents s);
      writes_counted = omega arith;
      reads_counted = omega arith;
    },
  )
  step_at-IsPass zero (w ∷ ws) s v all below =
      let (w', s', b, eq, moved_bytes, p) = worker_step-IsStep n few w s v all.0 below in
      (
        w' ∷ ws,
        s',
        b,
        rw eq refl,
        moved_bytes,
        record {
          valid = p.valid;
          same_capacity = p.same_capacity;
          sound = (p.sound, all.1);
          below = p.below;
          moved = head_moved n w w' ws all.1 p.moved;
          flow = p.flow;
          writes_counted = omega (arith, p.writes_counted);
          reads_counted = omega (arith, p.reads_counted);
        },
      )
  step_at-IsPass (suc k) (w ∷ ws) s v all below =
      let (ws', s', b, eq, moved_bytes, p) = step_at-IsPass k ws s v all.1 below in
      (
        w ∷ ws',
        s',
        b,
        rw eq refl,
        moved_bytes,
        record {
          valid = p.valid;
          same_capacity = p.same_capacity;
          sound = (all.0, p.sound);
          below = p.below;
          moved = tail_moved n k w ws ws' all.0 p.moved;
          flow = p.flow;
          writes_counted = omega (arith, p.writes_counted);
          reads_counted = omega (arith, p.reads_counted);
        },
      )

  pub run_threads-IsPass :
      (schedule : List ℕ) (ws : List Worker) (s : OpenRing)
      → IsValid s
      → AllSound n ws
      → Below n (contents s)
      → (ws' : List Worker) × (s' : OpenRing) × (b : Handover) × (run_threads schedule ws
            (some (context s))
          ≡ done (ws', some (context s')))
        × (traffic schedule ws (some (context s)) ≡ done b)
        × IsPass n (λ j. calls_of j schedule) ws s b ws' s'
  unfolding run_threads traffic
  run_threads-IsPass [] ws s v all below = (
    ws,
    s,
    no_bytes,
    refl,
    refl,
    record {
      valid = v;
      same_capacity = refl;
      sound = all;
      below = below;
      moved = λ j. omega (arith, progress_at_bound n j ws all);
      flow = append-nil (contents s);
      writes_counted = omega arith;
      reads_counted = omega arith;
    },
  )
  run_threads-IsPass (k ∷ ks) ws s v all below =
      let (ws1, s1, b1, eq1, moved1, p1) = step_at-IsPass k ws s v all below in
      let (ws2, s2, b2, eq2, moved2, p2) =
        run_threads-IsPass ks ws1 s1 p1.valid p1.sound p1.below in
      (
        ws2,
        s2,
        followed_by b1 b2,
        rw (eq1, eq2) refl,
        rw (moved1, eq1, moved2) refl,
        record {
          valid = p2.valid;
          same_capacity = p2.same_capacity ∙ p1.same_capacity;
          sound = p2.sound;
          below = p2.below;
          moved = λ j. omega (arith, p1.moved j, p2.moved j);
          flow =
              flow_then (contents s) b1.sent b1.got (contents s1) b2.sent b2.got (contents s2)
                p1.flow p2.flow;
          writes_counted =
              omega (arith, p1.writes_counted, p2.writes_counted, length-append b1.sent b2.sent);
          reads_counted =
              omega (arith, p1.reads_counted, p2.reads_counted, length-append b1.got b2.got);
        },
      )
