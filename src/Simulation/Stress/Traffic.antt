-- ===== src/Simulation/Stress/Traffic.antt =====
-- The bytes that pass through the ring while the threads run: what each call hands over, in the order
-- of the calls.
use n_igpu_macos.Common.{
  ℕ, zero, suc, ◌%◌, true, false, Option, none, some, List, [], ◌∷◌, ◌++◌, if◌then◌else◌, leb, Exec,
  done, ◌>>=◌,
}
use n_igpu_macos.SharedRing.{RingContext, try_write, try_read}
use n_igpu_macos.Simulation.Stress.{Worker, step_at}

-- Handover that were written, and bytes that were read.
pub record Handover : Type 0 where
  pub sent : List ℕ
  pub got : List ℕ

abbrev pub no_bytes : Handover
no_bytes = record { sent = []; got = [] }

abbrev pub followed_by : Handover → Handover → Handover
followed_by a b = record { sent = a.sent ++ b.sent; got = a.got ++ b.got }

-- What the next call of a thread hands over.
unfoldable pub worker_bytes : Worker → Option RingContext → Exec Handover
worker_bytes w ring = if leb w.arg.iterations w.i then done no_bytes else elim w.has_written [
  | false ↦ do
    (_, wrote) ← try_write ring (some (w.arg.thread_id % 256 ∷ [])) 1
    done (if wrote then record { sent = w.arg.thread_id % 256 ∷ []; got = [] } else no_bytes)
  | true ↦ do
    outcome ← try_read ring (some (0 ∷ [])) 1 (some 0)
    elim outcome.out_data [
      | none ↦ done no_bytes
      | some bytes ↦ done (if outcome.read then record { sent = []; got = bytes } else no_bytes)
    ]
]

unfoldable pub bytes_at : (k : ℕ) → List Worker → Option RingContext → Exec Handover
unfolding worker_bytes
bytes_at k [] ring = done no_bytes
bytes_at zero (w ∷ ws) ring = worker_bytes w ring
bytes_at (suc k) (w ∷ ws) ring = bytes_at k ws ring

unfoldable pub traffic : (schedule : List ℕ) → List Worker → Option RingContext → Exec Handover
unfolding bytes_at
traffic [] ws ring = done no_bytes
traffic (k ∷ ks) ws ring = do
  first ← bytes_at k ws ring
  (ws', ring') ← step_at k ws ring
  rest ← traffic ks ws' ring'
  done (followed_by first rest)
