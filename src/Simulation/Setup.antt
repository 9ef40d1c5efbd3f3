-- ===== src/Simulation/Setup.antt =====
-- NtelSpoofKext/src/NtelSimulation.c: `ntel_sim_setup`, and the start of the suite on what it makes.
-- The blocks of `malloc`, with what they happen to hold, and the mutexes are arguments; the counters of
-- the mock hardware, which nothing reads, are left out.
use n_igpu_macos.Common.{
  ℕ, ◌-◌, ◌≤◌, ◌<◌, ◌≡◌, refl, ap, Bool, true, false, Option, none, some, List, [], ◌∷◌,
  if◌then◌else◌, length, done, arith,
}
use n_igpu_macos.SharedRing.{RingContext, max_capacity, init}
use n_igpu_macos.SharedRing.View.{OpenRing, context, contents}
use n_igpu_macos.SharedRing.Lifecycle.{fresh, init_opens}
use n_igpu_macos.Engine.Cache.{TranslationEngine, engine_init}
use n_igpu_macos.Engine.Command.Ready.{IsReady}
use n_igpu_macos.Engine.Command.Process.{engine_init-IsReady}
use n_igpu_macos.Simulation.Suite.{SimulationEnvironment, Locals, ring_tests}
use n_igpu_macos.Simulation.Suite.Tearing.{IsPure}
use n_igpu_macos.Simulation.Suite.Whole.{ring_tests_pass}

-- What the calls of `malloc` return for the hardware, its memory, the ring and the engine, and whether
-- the two mutexes can be had.
pub record Allocated : Type 0 where
  pub hw : Bool
  pub vram_mock : Option (List ℕ)
  pub ring : Option RingContext
  pub engine : Option TranslationEngine
  pub ring_mutex : Bool
  pub engine_mutex : Bool

-- `ntel_sim_setup`: the environment and its engine; `none` is `abort`.
unfoldable pub sim_setup :
    Allocated → (vram_size : ℕ) → Option (SimulationEnvironment × Option TranslationEngine)
sim_setup a vram_size = elim a.vram_mock [
  | none ↦ none
  | some mem ↦ elim a.ring [
    | none ↦ none
    | some block ↦ elim a.engine [
      | none ↦ none
      | some engine ↦
          let ring = (init (some block) (some mem) vram_size a.ring_mutex).0 in
          if a.hw
          then some (
            record { ring = ring; frame_count = 0; test_failures = 0; watchdog_triggered = false },
            (engine_init a.engine_mutex (some engine) ring).0,
          )
          else none
    ]
  ]
]

IsPure-nil : (xs : List ℕ) → xs ≡ [] → IsPure xs
IsPure-nil [] e = tt
IsPure-nil (x ∷ xs) e = absurd (let n = ap length e in omega arith)

-- With all blocks and mutexes at hand and a memory of 73 bytes to 8 MB, whatever the blocks hold:
-- `ntel_sim_setup` makes an engine that is ready on an empty ring of 64 bytes less than the memory, and
-- the first seven tests, with fuel beyond the memory's size, end on that ring without a failure.
pub sim_setup_starts :
    (mem : List ℕ) (block : RingContext) (engine : TranslationEngine) (vram_size fuel : ℕ)
    (l : Locals)
    → 72 < vram_size
    → vram_size ≤ max_capacity
    → vram_size ≤ length mem
    → vram_size < fuel
    → 8 ≤ length l.read_back
    → 256 ≤ length l.drain
    → (s : OpenRing) × (e : TranslationEngine) × (env : SimulationEnvironment)
      × (after : SimulationEnvironment) × (sim_setup
            (record {
              hw = true;
              vram_mock = some mem;
              ring = some block;
              engine = some engine;
              ring_mutex = true;
              engine_mutex = true;
            })
            vram_size
          ≡ some (env, some e))
      × IsReady e s
      × (s.capacity ≡ vram_size - 64)
      × (contents s ≡ [])
      × (env.ring ≡ some (context s))
      × (ring_tests fuel l env ≡ done (some after))
      × (after.test_failures ≡ 0)
unfolding sim_setup
sim_setup_starts mem block engine vram_size fuel l low high inside enough back drain =
    let s = fresh mem vram_size in
    let (opens, valid, none_held) = init_opens block mem vram_size (omega arith) high inside in
    let (e, made, ready, _, _) = engine_init-IsReady engine s valid in
    let pure : IsPure (contents s) = IsPure-nil (contents s) none_held in
    let env : SimulationEnvironment = record {
      ring = some (context s);
      frame_count = 0;
      test_failures = 0;
      watchdog_triggered = false;
    } in
    let (s', passes, _, _, _) =
      ring_tests_pass fuel l s env valid (omega arith) pure back drain (omega arith) in
    (
      s,
      e,
      env,
      record env { ring = some (context s'); frame_count = 120; watchdog_triggered = true },
      rw (opens, made) refl,
      ready,
      refl,
      none_held,
      refl,
      passes,
      refl,
    )
