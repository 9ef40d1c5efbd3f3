-- ===== src/Simulation/Stress/Thread.antt =====
-- What one step of a thread does to its counts and to the ring.
use n_igpu_macos.Common.{
  ℕ, ◌+◌, ◌*◌, ◌%◌, ◌≤◌, ◌<◌, ◌≡◌, refl, ap, inl, inr, true, false, some, List, [], ◌∷◌, ◌++◌, leb,
  min, length, append-nil, sym, ◌∙◌, count, u32, Bool-cases, done, arith,
}
use n_igpu_macos.SharedRing.View.{OpenRing, context, IsValid, contents}
use n_igpu_macos.Simulation.Stress.Bytes.{idle, gives, writes_byte, reads_byte}
use n_igpu_macos.Simulation.Stress.{Worker, write_step, read_step, tally, worker_step}
use n_igpu_macos.Simulation.Stress.Traffic.{Handover, no_bytes, worker_bytes}

-- Each byte of the ring is the number of a thread.
abbrev pub Below : ℕ → List ℕ → Type 0
Below n [] = Unit
Below n (x ∷ xs) = (x < n) × Below n xs

Below-append : (n : ℕ) (xs : List ℕ) (y : ℕ) → Below n xs → y < n → Below n (xs ++ (y ∷ []))
Below-append n [] y b h = (h, tt)
Below-append n (x ∷ xs) y b h = (b.0, Below-append n xs y b.1 h)

-- The calls that a thread has made.
abbrev pub progress : Worker → ℕ
progress w = 2 * w.i + count w.has_written

-- A thread of `n`, with no error and no more calls counted than made.
pub record IsSound (n : ℕ) (w : Worker) : Type 0 where
  pub num : w.arg.num_threads ≡ n
  pub own : w.arg.thread_id < n
  pub clean : w.arg.data_errors ≡ 0
  pub bounded : w.arg.iterations ≡ 50000
  pub rounds : w.i + count w.has_written ≤ w.arg.iterations
  pub writes : w.arg.writes_ok ≤ w.i + count w.has_written
  pub reads : w.arg.reads_ok ≤ w.i

-- A step that ends, on a thread `w` and a ring `s`, and hands over `b`: the ring is a FIFO of what was
-- written, and the thread counts what it hands over.
pub record IsStep (n : ℕ) (w : Worker) (s : OpenRing) (b : Handover) (w' : Worker) (s' : OpenRing)
    : Type 0 where
  pub valid : IsValid s'
  pub same_capacity : s'.capacity ≡ s.capacity
  pub sound : IsSound n w'
  pub below : Below n (contents s')
  pub moved : progress w' ≡ min (2 * 50000) (progress w + 1)
  pub flow : contents s ++ b.sent ≡ b.got ++ contents s'
  pub writes_counted : w'.arg.writes_ok ≡ w.arg.writes_ok + length b.sent
  pub reads_counted : w'.arg.reads_ok ≡ w.arg.reads_ok + length b.got

module _ (n : ℕ) (few : n ≤ 64) (w : Worker) (s : OpenRing) (v : IsValid s) (sound : IsSound n w)
    (below : Below n (contents s)) where
  abbrev Steps : Type 0
  Steps =
      (w' : Worker) × (s' : OpenRing) × (b : Handover) × (worker_step w (some (context s))
        ≡ done (w', some (context s')))
      × (worker_bytes w (some (context s)) ≡ done b)
      × IsStep n w s b w' s'

  -- A thread that is through its loop.
  ended : leb w.arg.iterations w.i ≡ true → Steps
  unfolding worker_step worker_bytes
  ended over =
      let through : w.arg.iterations ≤ w.i = ground arith in
      (
        w,
        s,
        no_bytes,
        rw over refl,
        rw over refl,
        record {
          valid = v;
          same_capacity = refl;
          sound = sound;
          below = below;
          moved = omega (arith, through, sound.rounds, sound.bounded);
          flow = append-nil (contents s);
          writes_counted = omega arith;
          reads_counted = omega arith;
        },
      )

  -- A round that still runs.
  module _ (runs : leb w.arg.iterations w.i ≡ false) where
    in_loop : w.i < w.arg.iterations
    in_loop = ground (arith, runs)

    adds_one :
        (s' : OpenRing)
        → IsValid s'
        → s'.capacity ≡ s.capacity
        → w.has_written ≡ false
        → contents s' ≡ contents s ++ (w.arg.thread_id % 256 ∷ [])
        → IsStep n w s
            (record { sent = w.arg.thread_id % 256 ∷ []; got = [] })
            (record w {
              arg = record w.arg { writes_ok = u32 (w.arg.writes_ok + 1) };
              has_written = true;
            })
            s'
    adds_one s' v' same first holds =
        let none_yet = ap count first in
        let low : w.arg.thread_id % 256 ≡ w.arg.thread_id = omega (arith, sound.own) in
        record {
          valid = v';
          same_capacity = same;
          sound = record {
            num = sound.num;
            own = sound.own;
            clean = sound.clean;
            bounded = sound.bounded;
            rounds = omega (arith, in_loop);
            writes = omega (arith, sound.writes, none_yet);
            reads = sound.reads;
          };
          below = rw holds (Below-append n (contents s) _ below (omega (arith, low, sound.own)));
          moved = omega (arith, in_loop, none_yet, sound.bounded);
          flow = sym holds;
          writes_counted = omega (arith, sound.writes, none_yet, in_loop, sound.bounded);
          reads_counted = omega arith;
        }

    adds_none :
        (s' : OpenRing)
        → IsValid s'
        → s'.capacity ≡ s.capacity
        → w.has_written ≡ false
        → contents s' ≡ contents s
        → IsStep n w s no_bytes (record w { has_written = true }) s'
    adds_none s' v' same first holds =
        let none_yet = ap count first in
        record {
          valid = v';
          same_capacity = same;
          sound = record {
            num = sound.num;
            own = sound.own;
            clean = sound.clean;
            bounded = sound.bounded;
            rounds = omega (arith, in_loop);
            writes = omega (arith, sound.writes, none_yet);
            reads = sound.reads;
          };
          below = rw holds below;
          moved = omega (arith, in_loop, none_yet, sound.bounded);
          flow = append-nil (contents s) ∙ sym holds;
          writes_counted = omega arith;
          reads_counted = omega arith;
        }

    writes : w.has_written ≡ false → Steps
    unfolding worker_step write_step worker_bytes
    writes first =
        let (s', wrote, eq, valid, same, holds) = writes_byte (w.arg.thread_id % 256) v in
        elim (Bool-cases wrote) [
          | inl taken ↦ (
            _,
            s',
            _,
            rw (runs, first, eq, taken) refl,
            rw (runs, first, eq, taken) refl,
            adds_one s' valid same first (rw taken at holds),
          )
          | inr full ↦ (
            _,
            s',
            _,
            rw (runs, first, eq, full) refl,
            rw (runs, first, eq, full) refl,
            adds_none s' valid same first (rw full at holds),
          )
        ]

    finds_none :
        w.has_written ≡ true
        → contents s ≡ []
        → IsStep n w s no_bytes (record w { i = w.i + 1; has_written = false }) s
    finds_none second empty =
        let written = ap count second in
        record {
          valid = v;
          same_capacity = refl;
          sound = record {
            num = sound.num;
            own = sound.own;
            clean = sound.clean;
            bounded = sound.bounded;
            rounds = omega (arith, in_loop);
            writes = omega (arith, sound.writes, written);
            reads = omega (arith, sound.reads);
          };
          below = below;
          moved = omega (arith, in_loop, written, sound.bounded);
          flow = append-nil (contents s);
          writes_counted = omega arith;
          reads_counted = omega arith;
        }

    takes_one :
        (x : ℕ) (rest : List ℕ) (s' : OpenRing)
        → contents s ≡ x ∷ rest
        → IsValid s'
        → s'.capacity ≡ s.capacity
        → w.has_written ≡ true
        → contents s' ≡ rest
        → IsStep n w s
            (record { sent = []; got = x ∷ [] })
            (record {
              arg = record w.arg { reads_ok = u32 (w.arg.reads_ok + 1) };
              i = w.i + 1;
              has_written = false;
            })
            s'
    takes_one x rest s' held v' same second left =
        let written = ap count second in
        record {
          valid = v';
          same_capacity = same;
          sound = record {
            num = sound.num;
            own = sound.own;
            clean = sound.clean;
            bounded = sound.bounded;
            rounds = omega (arith, in_loop);
            writes = omega (arith, sound.writes, written);
            reads = omega (arith, sound.reads);
          };
          below = rw left ((rw held at below).1);
          moved = omega (arith, in_loop, written, sound.bounded);
          flow = append-nil (contents s) ∙ held ∙ ap (λ q. x ∷ q) (sym left);
          writes_counted = omega arith;
          reads_counted = omega (arith, sound.reads, in_loop, sound.bounded);
        }

    reads : w.has_written ≡ true → Steps
    unfolding worker_step read_step tally worker_bytes
    reads second = elim (reads_byte v) [
      | idle empty eq ↦
          (_, s, _, rw (runs, second, eq) refl, rw (runs, second, eq) refl, finds_none second empty)
      | gives x rest s' held eq valid same left ↦
          let own : leb (w.arg.num_threads % 256) x ≡ false =
            let small : x < n = (rw held at below).0 in ground (arith, sound.num) in
          (
            _,
            s',
            _,
            rw (runs, second, eq, own) refl,
            rw (runs, second, eq) refl,
            takes_one x rest s' held valid same second left,
          )
    ]

  pub worker_step-IsStep : Steps
  worker_step-IsStep = elim (Bool-cases (leb w.arg.iterations w.i)) [
    | inl over ↦ ended over
    | inr runs ↦ elim (Bool-cases w.has_written) [
      | inl second ↦ reads runs second
      | inr first ↦ writes runs first
    ]
  ]
