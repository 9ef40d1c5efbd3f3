-- ===== src/SharedRing/RoundTrip.antt =====
-- A message goes through an empty ring unchanged.
use n_igpu_macos.Common.{
  ℕ, ◌≤◌, ◌<◌, ◌≡◌, ◌∙◌, ap, true, some, List, [], ◌++◌, length, take, take_all, drop_all, min,
  done, arith,
}
use n_igpu_macos.SharedRing.{try_write, try_read}
use n_igpu_macos.SharedRing.View.{OpenRing, context, IsValid, contents}
use n_igpu_macos.SharedRing.Refine.{try_write_takes}
use n_igpu_macos.SharedRing.Read.{try_read_gives}

-- A read of all that the ring holds.
try_read_all :
    (s : OpenRing) (msg block : List ℕ) (old : ℕ)
    → IsValid s
    → contents s ≡ msg
    → 0 < length msg
    → length msg ≤ length block
    → (s' : OpenRing) × (out : List ℕ) × (try_read
          (some (context s))
          (some block)
          (length msg)
          (some old)
        ≡ done (record {
          ctx = some (context s');
          out_data = some out;
          bytes_read = some (length msg);
          read = true;
        }))
      × (take (length msg) out ≡ msg)
      × IsValid s'
      × (s'.capacity ≡ s.capacity)
      × (contents s' ≡ [])
try_read_all s msg block old v holds some_bytes room =
    let size : length (contents s) ≡ length msg = ap length holds in
    let (s', out, eq, front, rest, valid, same, left) =
      try_read_gives {s = s} block (length msg) old v some_bytes room (omega arith) in
    let n : min (length (contents s)) (length msg) ≡ length msg = omega arith in
    (
      s',
      out,
      rw n at eq,
      rw n at front ∙ ap (take (length msg)) holds ∙ take_all msg (length msg) (omega arith),
      valid,
      same,
      left ∙ rw (n, holds) (drop_all msg (length msg) (omega arith)),
    )

-- On a valid open ring that is empty, a message of at least one byte and of less than the capacity,
-- once written, is read back whole, into a block that has room for it, and leaves the ring empty and
-- valid.
pub try_read-try_write :
    (s : OpenRing) (msg block : List ℕ) (old : ℕ)
    → IsValid s
    → contents s ≡ []
    → 0 < length msg
    → length msg < s.capacity
    → length msg ≤ length block
    → (s1 : OpenRing) × (s2 : OpenRing) × (out : List ℕ) × (try_write
          (some (context s))
          (some msg)
          (length msg)
        ≡ done (some (context s1), true))
      × (try_read (some (context s1)) (some block) (length msg) (some old)
          ≡ done (record {
            ctx = some (context s2);
            out_data = some out;
            bytes_read = some (length msg);
            read = true;
          }))
      × (take (length msg) out ≡ msg)
      × IsValid s2
      × (s2.capacity ≡ s.capacity)
      × (contents s2 ≡ [])
try_read-try_write s msg block old v empty some_bytes fits room =
    let none_held : length (contents s) ≡ 0 = ap length empty in
    let (s1, put, valid, same, holds) =
      try_write_takes {s = s} msg (length msg) v (omega arith) some_bytes (omega arith) in
    let exactly : contents s1 ≡ msg =
      holds
      ∙ ap (λ t. t ++ take (length msg) msg) empty
      ∙ take_all msg (length msg) (omega arith) in
    let (s2, out, got, back, valid2, same2, empty2) =
      try_read_all s1 msg block old valid exactly some_bytes room in
    (s1, s2, out, put, got, back, valid2, same2 ∙ same, empty2)
