-- ===== src/Engine/Command/Process.antt =====
-- `ntel_engine_process_command` on a ready engine.
use n_igpu_macos.Common.{
  none-some, fun_ext, ℕ, ◌+◌, ◌≤◌, ◌<◌, ◌≡◌, ◌∙◌, refl, ap, sym, inl, inr, Bool, true, false, not,
  ◌&&◌, none, some, List, ltb, leb, ◌==◌, Bool-cases, length, done, ◌>>=◌, IsBytes, arith,
}
use n_igpu_macos.Queue
use n_igpu_macos.Queue.{put}
use n_igpu_macos.SharedRing.View.{OpenRing, IsValid, context, contents}
use n_igpu_macos.Engine.Cache.{engine_init, TranslationEngine, flushed, flush}
use n_igpu_macos.Engine.Cache.View.{flush_from_lem, flushed-IsSane, view_entry, view, vacant}
use n_igpu_macos.Engine.Command.Ready.{packet_key, output, IsReady}
use n_igpu_macos.Engine.Command.Transparency.{submit-IsSent}
use n_igpu_macos.Engine.Command.{Environment, scorch_pass, switch_process, submit, process_command}

-- Whether the caller's process differs from the one before.
abbrev pub switches : ℕ → TranslationEngine → Bool
switches pid e = not (e.active_pid == 0) && not (e.active_pid == pid)

-- A scorch pass empties each entry.
pub scorch_pass-entry :
    (e : TranslationEngine) (i : ℕ)
    → i < 256
    → (scorch_pass e).shader_cache i ≡ flushed (e.shader_cache i)
unfolding scorch_pass flush
scorch_pass-entry e i h =
    let inside : (leb 0 i && ltb i (0 + 256)) ≡ true = ground arith in
    flush_from_lem 256 0 i e.shader_cache ∙ rw inside refl

scorch_pass-ring : (e : TranslationEngine) → (scorch_pass e).ring ≡ e.ring
unfolding scorch_pass flush
scorch_pass-ring e = refl

pub switch_process-kept :
    (pid : ℕ) (e : TranslationEngine)
    → switches pid e ≡ false
    → switch_process pid e ≡ record e { active_pid = pid }
unfolding switch_process
switch_process-kept pid e h = rw h

pub switch_process-scorched :
    (pid : ℕ) (e : TranslationEngine)
    → switches pid e ≡ true
    → switch_process pid e ≡ record (scorch_pass e) { active_pid = pid }
unfolding switch_process
switch_process-scorched pid e h = rw h

pub scorched-IsReady :
    (pid : ℕ) (e : TranslationEngine) {s : OpenRing}
    → IsReady e s
    → IsReady (record (scorch_pass e) { active_pid = pid }) s
scorched-IsReady pid e {s} r = record {
  on_ring = scorch_pass-ring e ∙ r.on_ring;
  ring_valid = r.ring_valid;
  sane = λ i h. rw (scorch_pass-entry e i h) (flushed-IsSane (e.shader_cache i) (r.sane i h));
  outputs =
      λ i h k bytes eq. absurd (none-some (sym (ap view_entry (scorch_pass-entry e i h)) ∙ eq));
}

pub with_pid-IsReady :
    (pid : ℕ) (e : TranslationEngine) {s : OpenRing}
    → IsReady e s
    → IsReady (record e { active_pid = pid }) s
with_pid-IsReady pid e r = record {
  on_ring = r.on_ring;
  ring_valid = r.ring_valid;
  sane = r.sane;
  outputs = r.outputs;
}

switch_process-IsReady :
    (pid : ℕ) (e : TranslationEngine) {s : OpenRing}
    → IsReady e s
    → IsReady (switch_process pid e) s × ((switch_process pid e).active_pid ≡ pid)
switch_process-IsReady pid e r = elim (Bool-cases (switches pid e)) [
  | inl new ↦ rw (switch_process-scorched pid e new) (scorched-IsReady pid e r, refl)
  | inr same ↦ rw (switch_process-kept pid e same) (with_pid-IsReady pid e r, refl)
]

-- On a ring, a packet that is not empty is submitted.
pub process_command-submits :
    (env : Environment) (e : TranslationEngine) {s : OpenRing} (air : List ℕ)
    → IsReady e s
    → 0 < length air
    → process_command env (some e) (some air)
      ≡ (submit env (switch_process env.pid e) air >>= λ r. done (some r.0, r.1))
unfolding process_command
process_command-submits env e air r pos =
    let full : (length air == 0) ≡ false = ground arith in simp (r.on_ring, full)

-- With a ready engine, a packet of 1 to 16384 bytes and a translation block that can be allocated,
-- `process_command` stays inside its blocks and offers the ring one message: the output of a packet of
-- bytes with the caller's hash, verify tag and length. It returns whether the queue takes the message, the ring
-- then holds what the queue holds, the engine is ready again, and it serves the caller's process.
-- The other two allocations may fail.
pub process_command_sends :
    (env : Environment) (e : TranslationEngine) (s : OpenRing) (air : List ℕ)
    → IsReady e s
    → env.translate_alloc ≡ true
    → 0 < length air
    → length air ≤ 16384
    → IsBytes air
    → (packet : List ℕ) × (after : TranslationEngine) × (ring : OpenRing) × IsBytes packet
      × (packet_key packet ≡ packet_key air)
      × (process_command env (some e) (some air)
          ≡ done (some after, (Queue.answer s.capacity (contents s) (put (output packet))).1.ok))
      × (contents ring ≡ (Queue.answer s.capacity (contents s) (put (output packet))).0)
      × (ring.capacity ≡ s.capacity)
      × IsReady after ring
      × (after.active_pid ≡ env.pid)
process_command_sends env e s air ready ok pos small bytes =
    let (now_ready, pid) = switch_process-IsReady env.pid e ready in
    let (packet, sent) =
      submit-IsSent env (switch_process env.pid e) air now_ready ok pos small bytes in
    (
      packet,
      sent.after,
      sent.ring,
      sent.genuine,
      sent.same_key,
      process_command-submits env e air ready pos ∙ rw sent.returns refl,
      sent.holds,
      sent.same_capacity,
      sent.ready,
      sent.same_pid ∙ pid,
    )

-- The engine that `ntel_engine_init` makes on a valid open ring, with a mutex, is ready and holds
-- nothing, whatever it was before, and it serves no process yet.
pub engine_init-IsReady :
    (engine : TranslationEngine) (s : OpenRing)
    → IsValid s
    → (e : TranslationEngine) × (engine_init true (some engine) (some (context s)) ≡ (some e, true))
      × IsReady e s
      × (view e.shader_cache ≡ (λ i. none))
      × (e.active_pid ≡ 0)
unfolding engine_init
engine_init-IsReady engine s v = (
  _,
  refl,
  record {
    on_ring = refl;
    ring_valid = v;
    sane = λ i h. vacant refl refl;
    outputs = λ i h k bytes eq. absurd (none-some eq);
  },
  fun_ext (λ i. ground arith),
  refl,
)
