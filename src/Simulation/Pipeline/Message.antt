-- ===== src/Simulation/Pipeline/Message.antt =====
-- `test_e2e_pipeline` and `test_translation_output` pass on a ready engine.
use n_igpu_macos.Common.{
  ℕ, ◌+◌, ◌≤◌, ◌<◌, ◌≡◌, ◌∙◌, refl, ap, true, Option, some, List, [], ◌∷◌, leb, min, length,
  length-append, length-drop, IsBytes, done, arith,
}
use n_igpu_macos.SharedRing.{RingContext, ReadOutcome, try_read}
use n_igpu_macos.SharedRing.View.{OpenRing, context, IsValid, contents}
use n_igpu_macos.SharedRing.Read.{try_read_gives}
use n_igpu_macos.Engine.Translate.{idd_header}
use n_igpu_macos.Engine.Translate.Assemble.{
  assemble, program_bytes, assemble-cons, length-program_bytes,
}
use n_igpu_macos.Engine.Cache.{TranslationEngine}
use n_igpu_macos.Engine.Command.{Environment}
use n_igpu_macos.Engine.Command.Ready.{output, IsReady}
use n_igpu_macos.Simulation.{drain_ring_empties}
use n_igpu_macos.Simulation.Sending.{command-IsServed}
use n_igpu_macos.Simulation.Bleed.{command}
use n_igpu_macos.Simulation.Pipeline.{
  alu_shader, test_e2e_pipeline, air_mov, judged, Drain, drain_engine, test_translation_output,
}

alu_shader-IsBytes : IsBytes alu_shader
alu_shader-IsBytes = (
  omega arith,
  (
    omega arith,
    (
      omega arith,
      (
        omega arith,
        (
          omega arith,
          (
            omega arith,
            (omega arith, (omega arith, (omega arith, (omega arith, (omega arith, tt))))),
          ),
        ),
      ),
    ),
  ),
)

air_mov-IsBytes : IsBytes air_mov
air_mov-IsBytes = (omega arith, (omega arith, (omega arith, tt)))

-- A packet that is not empty has an instruction.
output_has_one : (p : List ℕ) → 0 < length p → 48 ≤ length (output p)
output_has_one [] some_bytes = absurd (omega arith)
output_has_one (op ∷ rest) some_bytes = omega (
  arith,
  length-append idd_header (program_bytes (assemble (op ∷ rest))),
  length-program_bytes (assemble (op ∷ rest)),
  ap length (assemble-cons op rest),
)

with_ring-IsReady :
    (e : TranslationEngine) (s s' : OpenRing)
    → IsReady e s
    → IsValid s'
    → IsReady (record e { ring = some (context s') }) s'
with_ring-IsReady e s s' r v = record {
  on_ring = refl;
  ring_valid = v;
  sane = r.sane;
  outputs = r.outputs;
}

pub drains :
    (d : Drain) (e : TranslationEngine) (s : OpenRing)
    → IsReady e s
    → 256 ≤ length d.block
    → length (contents s) < d.fuel
    → (s' : OpenRing) × (drain_engine d e ≡ done (some (record e { ring = some (context s') })))
      × IsReady (record e { ring = some (context s') }) s'
      × (s'.capacity ≡ s.capacity)
      × (contents s' ≡ [])
unfolding drain_engine
drains d e s ready room enough =
    let (s', ends, v, same, empty) =
      drain_ring_empties d.fuel s d.block d.drained ready.ring_valid room enough in
    (s', rw (ready.on_ring, ends) refl, with_ring-IsReady e s s' ready v, same, empty)

pub e2e_passes :
    (env : Environment) (e : TranslationEngine) (s : OpenRing) (failures : ℕ)
    → IsReady e s
    → e.active_pid ≡ env.pid
    → env.translate_alloc ≡ true
    → env.store_alloc ≡ true
    → length (contents s) + 208 < s.capacity
    → (after : TranslationEngine) × (ring : OpenRing) × (test_e2e_pipeline env e failures
        ≡ done (after, failures))
      × IsReady after ring
      × (after.active_pid ≡ env.pid)
      × (ring.capacity ≡ s.capacity)
      × (length (contents ring) ≤ length (contents s) + 208)
unfolding test_e2e_pipeline
e2e_passes env e s failures ready pid ok store_ok room =
    let (v, sent, _, _, size) =
      command-IsServed env e s alu_shader ready pid ok store_ok (omega arith) (omega arith)
        alu_shader-IsBytes (omega arith) in
    (v.after, v.ring, rw sent refl, v.ready, v.pid, v.same_capacity, size)

judged_well :
    (ring : Option RingContext) (out : Option (List ℕ)) (n failures : ℕ)
    → 48 ≤ n
    → judged (record { ctx = ring; out_data = out; bytes_read = some n; read = true }) failures
      ≡ failures
judged_well ring out n failures large =
    let enough : leb 48 n ≡ true = ground arith in rw enough refl

-- A read of up to 64 bytes, when the ring holds a message with an instruction.
reads_message :
    (e : TranslationEngine) (s : OpenRing) (read_buf : List ℕ) (failures : ℕ)
    → IsReady e s
    → 64 ≤ length read_buf
    → 48 ≤ length (contents s)
    → (outcome : ReadOutcome) × (s' : OpenRing) × (try_read e.ring (some read_buf) 64 (some 0)
        ≡ done outcome)
      × (outcome.ctx ≡ some (context s'))
      × IsValid s'
      × (length (contents s') ≤ length (contents s))
      × (judged outcome failures ≡ failures)
reads_message e s read_buf failures ready buf large =
    let n = min (length (contents s)) 64 in
    let (s', out, got, _, _, valid, _, left) =
      try_read_gives read_buf 64 0 ready.ring_valid (omega arith) buf (omega arith) in
    (
      _,
      s',
      ap (λ r. try_read r (some read_buf) 64 (some 0)) ready.on_ring ∙ got,
      refl,
      valid,
      omega (arith, ap length left, length-drop {0} n (contents s)),
      judged_well (some (context s')) (some out) n failures (omega arith),
    )

-- The run, from what its calls return.
translation_runs :
    (d : Drain) (read_buf : List ℕ) (env : Environment) (e e1 e2 e3 : TranslationEngine)
    (outcome : ReadOutcome) (failures : ℕ)
    → drain_engine d e ≡ done (some e1)
    → command env e1 air_mov ≡ done (e2, true)
    → try_read e2.ring (some read_buf) 64 (some 0) ≡ done outcome
    → judged outcome failures ≡ failures
    → drain_engine d (record e2 { ring = outcome.ctx }) ≡ done (some e3)
    → test_translation_output d read_buf env e failures ≡ done (some (e3, failures))
unfolding test_translation_output
translation_runs d read_buf env e e1 e2 e3 outcome failures first sent got well last =
    rw (first, sent, got, last, well) refl

pub translation_passes :
    (d : Drain) (read_buf : List ℕ) (env : Environment) (e : TranslationEngine) (s : OpenRing)
    (failures : ℕ)
    → IsReady e s
    → e.active_pid ≡ env.pid
    → env.translate_alloc ≡ true
    → env.store_alloc ≡ true
    → 256 ≤ length d.block
    → 64 ≤ length read_buf
    → length (contents s) < d.fuel
    → 80 < d.fuel
    → 80 < s.capacity
    → (after : TranslationEngine) × (ring : OpenRing) × (test_translation_output d read_buf env e
          failures
        ≡ done (some (after, failures)))
      × IsReady after ring
      × (contents ring ≡ [])
translation_passes d read_buf env e s failures ready pid ok store_ok room buf enough fuel fits =
    let (s1, first, ready1, same, empty) = drains d e s ready room enough in
    let e1 : TranslationEngine = record e { ring = some (context s1) } in
    let (v, sent, holds, three, size) =
      command-IsServed env e1 s1 air_mov ready1 pid ok store_ok (omega arith) (omega arith)
        air_mov-IsBytes (omega (arith, ap length empty)) in
    let long = output_has_one v.packet (omega (arith, three)) in
    let total : length (contents v.ring) ≡ length (contents s1) + length (output v.packet) =
      ap length holds ∙ length-append (contents s1) (output v.packet) in
    let (outcome, s2, got, ring, v2, fewer, well) =
      reads_message v.after v.ring read_buf failures v.ready buf (omega arith) in
    let (s3, last, ready3, _, gone) =
      drains d (record v.after { ring = some (context s2) }) s2
        (with_ring-IsReady v.after v.ring s2 v.ready v2) room
        (omega (arith, fewer, size, ap length empty)) in
    (
      _,
      s3,
      translation_runs d read_buf env e e1 v.after _ outcome failures first sent got well
          (ap (λ r. drain_engine d (record v.after { ring = r })) ring ∙ last),
      ready3,
      gone,
    )
