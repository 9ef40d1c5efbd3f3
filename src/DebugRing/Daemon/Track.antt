-- ===== src/DebugRing/Daemon/Track.antt =====
-- A daemon that the appends never lap: what it has printed, and where it stands.
use n_igpu_macos.Common.{
  ℕ, zero, suc, ◌+◌, ◌-◌, ◌≤◌, ◌<◌, ◌≡◌, ◌∙◌, refl, ap, sym, true, false, List, [], ◌∷◌, ◌++◌,
  append-nil, arith,
}
use n_igpu_macos.DebugRing.{Event, DebugRecord}
use n_igpu_macos.DebugRing.Log.{entry, entries}
use n_igpu_macos.DebugRing.Daemon.{
  Line, synchronized, overrun, double_wrap, formatted, progress, shutting_down, Phase, polling,
  syncing, draining, stopped, Daemon, oldest,
}

-- The records among what is printed.
abbrev pub printed : List Line → List DebugRecord
printed [] = []
printed (formatted rec ∷ lines) = rec ∷ printed lines
printed (synchronized s ∷ lines) = printed lines
printed (overrun a b c ∷ lines) = printed lines
printed (double_wrap ∷ lines) = printed lines
printed (progress a b ∷ lines) = printed lines
printed (shutting_down a b ∷ lines) = printed lines

pub printed-append : (xs ys : List Line) → printed (xs ++ ys) ≡ printed xs ++ printed ys
printed-append [] ys = refl
printed-append (formatted rec ∷ xs) ys = ap (λ t. rec ∷ t) (printed-append xs ys)
printed-append (synchronized s ∷ xs) ys = printed-append xs ys
printed-append (overrun a b c ∷ xs) ys = printed-append xs ys
printed-append (double_wrap ∷ xs) ys = printed-append xs ys
printed-append (progress a b ∷ xs) ys = printed-append xs ys
printed-append (shutting_down a b ∷ xs) ys = printed-append xs ys

-- Entries, with one more at the end; `k` is its number.
pub entries_last :
    (log : List Event) (n start k : ℕ)
    → k ≡ start + n
    → entries log (suc n) start ≡ entries log n start ++ (entry log k ∷ [])
entries_last log zero start k e = let same : k ≡ start = omega arith in rw same refl
entries_last log (suc n) start k e =
    ap (λ t. entry log start ∷ t) (entries_last log n (start + 1) k (omega arith))

-- Before its first read.
abbrev pub waiting : Phase → ℕ → Daemon
waiting phase seen = record {
  phase = phase;
  expected_seq = 0;
  last_seen_write_idx = seen;
  first_run = true;
  total_drops = 0;
  records_processed = 0;
  output = [];
}

-- With everything printed from number `first` up to `seen`, and no drops.
abbrev pub following : Phase → (first seen : ℕ) → List Line → Daemon
following phase first seen output = record {
  phase = phase;
  expected_seq = seen;
  last_seen_write_idx = seen;
  first_run = false;
  total_drops = 0;
  records_processed = seen - first;
  output = output;
}

-- The output has the events of a stretch of the log, each once and in order.
pub record Says (log : List Event) (first seen : ℕ) (output : List Line) : Type 0 where
  pub from : first ≤ seen
  pub all : printed output ≡ entries log (seen - first) first

-- Where a daemon stands when `n` events of the log are appended. It prints from number `first` on, and
-- `k` more steps are enough for it to print the `n` events.
pub data Tracks (log : List Event) (n first k : ℕ) (d : Daemon) : Type 0 where
  waits : d ≡ waiting polling 0 → first ≡ oldest n → n + 4 ≤ first + k → Tracks log n first k d
  syncs :
      (current : ℕ)
      → d ≡ waiting (syncing current) (oldest current)
      → first ≡ oldest current
      → current ≤ n
      → n ≤ first + 1024
      → n + 3 ≤ first + k
      → Tracks log n first k d
  polls :
      (seen : ℕ) (output : List Line)
      → d ≡ following polling first seen output
      → Says log first seen output
      → seen ≤ n
      → n ≤ seen + 1024
      → (seen < n → n + 1 ≤ seen + k)
      → Tracks log n first k d
  drains :
      (seen current : ℕ) (output : List Line)
      → d ≡ following (draining current) first seen output
      → Says log first seen output
      → seen ≤ current
      → current ≤ n
      → n ≤ seen + 1024
      → n ≤ seen + k
      → (current < n → n + 2 ≤ seen + k)
      → Tracks log n first k d
  quits :
      (seen : ℕ) (output : List Line)
      → d ≡ following stopped first seen output
      → Says log first seen output
      → seen ≤ n
      → Tracks log n first k d
  leaves :
      d ≡ record (waiting stopped 0) { output = shutting_down 0 0 ∷ [] } → Tracks log n first k d

-- A line that is no record.
pub line_added :
    (log : List Event) (first seen : ℕ) (output : List Line) (line : Line)
    → printed (line ∷ []) ≡ []
    → Says log first seen output
    → Says log first seen (output ++ (line ∷ []))
line_added log first seen output line silent says = record {
  from = says.from;
  all = printed-append output (line ∷ []) ∙ rw (silent, append-nil) says.all;
}

-- The next record.
pub record_added :
    (log : List Event) (first seen : ℕ) (output : List Line)
    → Says log first seen output
    → Says log first (seen + 1) (output ++ (formatted (entry log seen) ∷ []))
record_added log first seen output says =
    let one : seen + 1 - first ≡ suc (seen - first) = omega (arith, says.from) in
    record {
      from = omega (arith, says.from);
      all =
          printed-append output (formatted (entry log seen) ∷ [])
          ∙ ap (λ t. t ++ (entry log seen ∷ [])) says.all
          ∙ sym (entries_last log (seen - first) first seen (omega (arith, says.from)))
          ∙ ap (λ k. entries log k first) (sym one);
    }
