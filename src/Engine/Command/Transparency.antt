-- ===== src/Engine/Command/Transparency.antt =====
-- What a command puts on the ring: the translation of its packet, from the cache or made anew.
use n_igpu_macos.Common.{
  ℕ, ◌+◌, ◌*◌, ◌≤◌, ◌<◌, ◌≡◌, ◌≢◌, ◌⊎◌, ◌∙◌, refl, ap, sym, inl, inr, Bool, true, some, List,
  length, take, take_all, Exec, done, IsBytes, arith,
}
use n_igpu_macos.Queue
use n_igpu_macos.Queue.{put}
use n_igpu_macos.SharedRing.View.{OpenRing, context, contents}
use n_igpu_macos.SharedRing.Session.{try_write_answers}
use n_igpu_macos.Engine.Hash.{shader_hash}
use n_igpu_macos.Engine.Translate.Assemble.{assemble, program_bytes_bound, length-program_bytes}
use n_igpu_macos.Engine.Translate.Correct.{translate_air_to_gen12-emits}
use n_igpu_macos.Engine.Cache.{TranslationEngine, ShaderCache, slot, missed, rejected, hit, lookup}
use n_igpu_macos.Engine.Cache.View.{view_entry}
use n_igpu_macos.Engine.Cache.Inspect.{nothing, copied, inspect-Inspected, slot-lt}
use n_igpu_macos.Engine.Command.Ready.{packet_key, output, IsReady}
use n_igpu_macos.Engine.Command.Store.{store-IsStored}
use n_igpu_macos.Engine.Command.{Environment, send, compile_and_send, submit}

-- A step of the engine for `air` that offered the ring the output of `packet`.
pub record IsSent (e : TranslationEngine) (s : OpenRing) (air packet : List ℕ) (store_alloc : Bool)
    (step : Exec (TranslationEngine × Bool)) : Type 0 where
  pub genuine : IsBytes packet
  pub same_key : packet_key packet ≡ packet_key air
  pub after : TranslationEngine
  pub ring : OpenRing
  pub returns :
      step ≡ done (after, (Queue.answer s.capacity (contents s) (put (output packet))).1.ok)
  pub ready : IsReady after ring
  pub same_capacity : ring.capacity ≡ s.capacity
  pub holds : contents ring ≡ (Queue.answer s.capacity (contents s) (put (output packet))).0
  pub same_pid : after.active_pid ≡ e.active_pid
  pub others : (i : ℕ) → i ≢ slot (shader_hash air) → after.shader_cache i ≡ e.shader_cache i
  pub kept :
      store_alloc ≡ true
      → length air ≤ 4094
      → view_entry (after.shader_cache (slot (shader_hash air)))
        ≡ some (packet_key air, output packet)

-- The end of each path: `size` bytes of a block go to the ring.
send-IsSent :
    (e before : TranslationEngine) {s : OpenRing} (air p code : List ℕ) (size : ℕ)
    (store_alloc : Bool)
    → IsReady e s
    → size ≤ length code
    → take size code ≡ output p
    → IsBytes p
    → packet_key p ≡ packet_key air
    → e.active_pid ≡ before.active_pid
    → ((i : ℕ) → i ≢ slot (shader_hash air) → e.shader_cache i ≡ before.shader_cache i)
    → (store_alloc ≡ true
        → length air ≤ 4094
        → view_entry (e.shader_cache (slot (shader_hash air))) ≡ some (packet_key air, output p))
    → IsSent before s air p store_alloc (send e code size)
unfolding send
send-IsSent e before {s} air p code size store_alloc r room message genuine key pid others kept =
    let (s', eq, valid, same, holds) = try_write_answers code size r.ring_valid room in
    record {
      genuine = genuine;
      same_key = key;
      after = record e { ring = some (context s') };
      ring = s';
      returns = rw (r.on_ring, eq, message);
      ready = record { on_ring = refl; ring_valid = valid; sane = r.sane; outputs = r.outputs };
      same_capacity = same;
      holds = rw message at holds;
      same_pid = pid;
      others = others;
      kept = kept;
    }

pub missed_or_rejected-IsReady :
    (e after : TranslationEngine) {s : OpenRing}
    → IsReady e s
    → (after ≡ missed e) ⊎ (after ≡ rejected e)
    → IsReady after s × (after.active_pid ≡ e.active_pid) × (after.shader_cache ≡ e.shader_cache)
missed_or_rejected-IsReady e after {s} r (inl p) = (
  rw p (record {
    on_ring = r.on_ring;
    ring_valid = r.ring_valid;
    sane = r.sane;
    outputs = r.outputs;
  }),
  ap (λ (x : TranslationEngine). x.active_pid) p,
  ap (λ (x : TranslationEngine). x.shader_cache) p,
)
missed_or_rejected-IsReady e after {s} r (inr p) = (
  rw p (record {
    on_ring = r.on_ring;
    ring_valid = r.ring_valid;
    sane = r.sane;
    outputs = r.outputs;
  }),
  ap (λ (x : TranslationEngine). x.active_pid) p,
  ap (λ (x : TranslationEngine). x.shader_cache) p,
)

pub hit-IsReady : (e : TranslationEngine) {s : OpenRing} → IsReady e s → IsReady (hit e) s
hit-IsReady e r = record {
  on_ring = r.on_ring;
  ring_valid = r.ring_valid;
  sane = r.sane;
  outputs = r.outputs;
}

-- A miss: the translation goes to the cache, and to the ring.
pub compile_and_send-IsSent :
    (env : Environment) (e before : TranslationEngine) {s : OpenRing} (air : List ℕ)
    → IsReady e s
    → env.translate_alloc ≡ true
    → 0 < length air
    → length air ≤ 16384
    → IsBytes air
    → e.active_pid ≡ before.active_pid
    → ((i : ℕ) → i ≢ slot (shader_hash air) → e.shader_cache i ≡ before.shader_cache i)
    → IsSent before s air air env.store_alloc (compile_and_send env e air)
unfolding compile_and_send
compile_and_send-IsSent env e before {s} air ready ok pos small bytes pid others =
    let (block, made, room, count, message) = translate_air_to_gen12-emits air pos small bytes in
    let size = 32 + length (assemble air) * 16 in
    let fits : size ≤ length block = omega arith in
    let some_bytes : 0 < size = omega arith in
    let st = store-IsStored e air block size ready some_bytes fits message bytes env.store_alloc in
    let sent =
      send-IsSent st.after before air air block size env.store_alloc st.ready fits message bytes
        refl (st.same_pid ∙ pid) (λ i ne. st.others i ne ∙ others i ne)
        (λ ok few.
          st.kept ok
            (omega (arith, program_bytes_bound air, length-program_bytes (assemble air)))) in
    rw (ok, made, st.returns) sent

-- The cache's answer, or a translation.
pub submit-IsSent :
    (env : Environment) (e : TranslationEngine) {s : OpenRing} (air : List ℕ)
    → IsReady e s
    → env.translate_alloc ≡ true
    → 0 < length air
    → length air ≤ 16384
    → IsBytes air
    → (packet : List ℕ) × IsSent e s air packet env.store_alloc (submit env e air)
unfolding submit lookup
submit-IsSent env e {s} air ready ok pos small bytes =
    let i = slot (shader_hash air) in
    let inside = slot-lt (shader_hash air) in
    elim (inspect-Inspected env.lookup_alloc e (e.shader_cache i) (packet_key air)
      (ready.sane i inside)) [
        | nothing after eq kept none_found ↦
            let (now_ready, pid, cache) = missed_or_rejected-IsReady e after ready kept in
            (
              air,
              rw eq (
                  compile_and_send-IsSent env after e air now_ready ok pos small bytes pid
                    (λ j ne. ap (λ (c : ShaderCache). c j) cache)),
            )
        | copied code eq alloc v key held size ↦
            let (p, genuine, same, made) = ready.outputs i inside (packet_key air) code held in
            (
              p,
              rw eq (
                  send-IsSent (hit e) e air p code (e.shader_cache i).bytecode_size env.store_alloc
                    (hit-IsReady e ready) (omega arith)
                    (take_all code (e.shader_cache i).bytecode_size (omega arith) ∙ sym made)
                    genuine same refl (λ j ne. refl)
                    (λ _ _. held ∙ ap (λ (b : List ℕ). some (packet_key air, b)) (sym made))),
            )
      ]
