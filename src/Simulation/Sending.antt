-- ===== src/Simulation/Sending.antt =====
-- A command of the simulation whose output the ring has room for.
use n_igpu_macos.Common.{
  ℕ, ◌+◌, ◌*◌, ◌≤◌, ◌<◌, ◌≡◌, ◌∙◌, refl, ap, true, false, ◌||◌, List, ◌++◌, leb, ◌==◌, length,
  length-append, IsBytes, done, arith,
}
use n_igpu_macos.Queue
use n_igpu_macos.Queue.{put}
use n_igpu_macos.Memo.{Key}
use n_igpu_macos.SharedRing.View.{OpenRing, contents}
use n_igpu_macos.Engine.Translate.{idd_header}
use n_igpu_macos.Engine.Translate.Assemble.{assemble, program_bytes, program_bytes_bound}
use n_igpu_macos.Engine.Cache.{TranslationEngine}
use n_igpu_macos.Engine.Command.{Environment}
use n_igpu_macos.Engine.Command.Ready.{output, IsReady}
use n_igpu_macos.Engine.Command.Serve.{IsServed, process_command-IsServed}
use n_igpu_macos.Simulation.Bleed.{command}

pub length-output : (p : List ℕ) → length (output p) ≤ 32 + 16 * length p
length-output p =
    omega (arith, program_bytes_bound p, length-append idd_header (program_bytes (assemble p)))

pub output_is_some : (p : List ℕ) → 32 ≤ length (output p)
output_is_some p = omega (arith, length-append idd_header (program_bytes (assemble p)))

-- A queue with room takes a message.
pub queue_takes :
    (cap : ℕ) (q msg : List ℕ)
    → 0 < length msg
    → length q + length msg < cap
    → ((Queue.answer cap q (put msg)).1.ok ≡ true) × ((Queue.answer cap q (put msg)).0 ≡ q ++ msg)
unfolding Queue.answer
queue_takes cap q msg some_bytes room =
    let room_left : (length msg == 0 || leb cap (length q + length msg)) ≡ false = ground arith in
    (rw room_left refl, rw room_left refl)

-- The command is served, and its message is in the ring.
pub command-IsServed :
    (env : Environment) (e : TranslationEngine) (s : OpenRing) (air : List ℕ)
    → IsReady e s
    → e.active_pid ≡ env.pid
    → env.translate_alloc ≡ true
    → env.store_alloc ≡ true
    → 0 < length air
    → length air ≤ 4094
    → IsBytes air
    → length (contents s) + (32 + 16 * length air) < s.capacity
    → (v : IsServed env e s air) × (command env e air ≡ done (v.after, true))
      × (contents v.ring ≡ contents s ++ output v.packet)
      × (length v.packet ≡ length air)
      × (length (contents v.ring) ≤ length (contents s) + (32 + 16 * length air))
unfolding command
command-IsServed env e s air ready pid ok store_ok pos small bytes room =
    let v = process_command-IsServed env e s air ready pid ok store_ok pos small bytes in
    let same : length v.packet ≡ length air = ap (λ (k : Key). k.len) v.same_key in
    let bound = length-output v.packet in
    let (taken, now) =
      queue_takes s.capacity (contents s) (output v.packet) (omega (arith, output_is_some v.packet))
        (omega arith) in
    let size : length (contents v.ring) ≡ length (contents s) + length (output v.packet) =
      ap length (v.holds ∙ now) ∙ length-append (contents s) (output v.packet) in
    (v, rw (v.returns, taken) refl, v.holds ∙ now, same, omega arith)
