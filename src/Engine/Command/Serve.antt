-- ===== src/Engine/Command/Serve.antt =====
-- A command of the process that the engine already serves, whose blocks can all be had.
use n_igpu_macos.Common.{
  ℕ, ◌≤◌, ◌<◌, ◌≡◌, ◌≢◌, ◌∙◌, refl, true, false, some, List, length, done, IsBytes, arith,
}
use n_igpu_macos.Queue
use n_igpu_macos.Queue.{put}
use n_igpu_macos.SharedRing.View.{OpenRing, contents}
use n_igpu_macos.Engine.Hash.{shader_hash}
use n_igpu_macos.Engine.Cache.{TranslationEngine, slot}
use n_igpu_macos.Engine.Cache.View.{view_entry}
use n_igpu_macos.Engine.Command.Ready.{packet_key, output, IsReady}
use n_igpu_macos.Engine.Command.Transparency.{submit-IsSent}
use n_igpu_macos.Engine.Command.Process.{
  switches, switch_process-kept, with_pid-IsReady, process_command-submits,
}
use n_igpu_macos.Engine.Command.{Environment, process_command}

-- The command sent the output of `packet`, and its entry holds it.
pub record IsServed (env : Environment) (e : TranslationEngine) (s : OpenRing) (air : List ℕ)
    : Type 0 where
  pub packet : List ℕ
  pub after : TranslationEngine
  pub ring : OpenRing
  pub same_key : packet_key packet ≡ packet_key air
  pub returns :
      process_command env (some e) (some air)
      ≡ done (some after, (Queue.answer s.capacity (contents s) (put (output packet))).1.ok)
  pub holds : contents ring ≡ (Queue.answer s.capacity (contents s) (put (output packet))).0
  pub same_capacity : ring.capacity ≡ s.capacity
  pub ready : IsReady after ring
  pub pid : after.active_pid ≡ env.pid
  pub others : (i : ℕ) → i ≢ slot (shader_hash air) → after.shader_cache i ≡ e.shader_cache i
  pub kept :
      view_entry (after.shader_cache (slot (shader_hash air)))
      ≡ some (packet_key air, output packet)

pub process_command-IsServed :
    (env : Environment) (e : TranslationEngine) (s : OpenRing) (air : List ℕ)
    → IsReady e s
    → e.active_pid ≡ env.pid
    → env.translate_alloc ≡ true
    → env.store_alloc ≡ true
    → 0 < length air
    → length air ≤ 4094
    → IsBytes air
    → IsServed env e s air
process_command-IsServed env e s air ready same ok store_ok pos small bytes =
    let stays : switches env.pid e ≡ false = ground arith in
    let e' : TranslationEngine = record e { active_pid = env.pid } in
    let (p, sent) =
      submit-IsSent env e' air (with_pid-IsReady env.pid e ready) ok pos (omega arith) bytes in
    record {
      packet = p;
      after = sent.after;
      ring = sent.ring;
      same_key = sent.same_key;
      returns =
          process_command-submits env e air ready pos
          ∙ rw (switch_process-kept env.pid e stays, sent.returns) refl;
      holds = sent.holds;
      same_capacity = sent.same_capacity;
      ready = sent.ready;
      pid = sent.same_pid;
      others = sent.others;
      kept = sent.kept store_ok small;
    }
