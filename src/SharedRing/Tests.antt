-- ===== src/SharedRing/Tests.antt =====
-- A ring of 8 bytes at work, and the theorems at concrete rings.
use n_igpu_macos.Common.{
  ℕ, ◌≡◌, refl, inl, inr, List, [], ◌∷◌, ◌++◌, none, some, true, false, done, length, take, drop,
  min, replicate, arith,
}
use n_igpu_macos.Queue
use n_igpu_macos.Queue.{Call, Reply, put, get}
use n_igpu_macos.SharedRing.{RingContext, fresh_header, init, try_write, try_read}
use n_igpu_macos.SharedRing.View.{OpenRing, context, IsValid, contents}
use n_igpu_macos.SharedRing.Lifecycle.{fresh, init_opens}
use n_igpu_macos.SharedRing.Refine.{try_write_takes, try_write_refuses}
use n_igpu_macos.SharedRing.Read.{try_read_gives, try_read_refuses}
use n_igpu_macos.SharedRing.RoundTrip.{try_read-try_write}
use n_igpu_macos.SharedRing.Session.{session, session_refines}

-- 11, 12, 13 from place 6 on, round the end of the buffer
abbrev wrapped : OpenRing
wrapped = record {
  header = record (fresh_header 8) { write_idx = 1; read_idx = 6 };
  buffer = 13 ∷ 0 ∷ 0 ∷ 0 ∷ 0 ∷ 0 ∷ 11 ∷ 12 ∷ [];
  capacity = 8;
}

abbrev closed_context : RingContext
closed_context = record {
  header = none;
  buffer_base = none;
  capacity_bytes = 0;
  lock_initialized = false;
}

abbrev script : List Call
script = get 2 ∷ put (21 ∷ 22 ∷ 23 ∷ 24 ∷ 25 ∷ 26 ∷ []) ∷ put (31 ∷ 32 ∷ []) ∷ get 9 ∷ get 9 ∷ []

abbrev replies : List Reply
replies =
    record { ok = true; bytes = 11 ∷ 12 ∷ [] }
    ∷ record { ok = true; bytes = [] }
    ∷ record { ok = false; bytes = [] }
    ∷ record { ok = true; bytes = 13 ∷ 21 ∷ 22 ∷ 23 ∷ 24 ∷ 25 ∷ 26 ∷ [] }
    ∷ record { ok = false; bytes = [] }
    ∷ []

contents-wrapped : contents wrapped ≡ 11 ∷ 12 ∷ 13 ∷ []
contents-wrapped = refl

wrapped-IsValid : IsValid wrapped
wrapped-IsValid = record {
  small = omega arith;
  storage = omega arith;
  write_in = omega arith;
  read_in = omega arith;
}

queue_session-wrapped : Queue.session 8 (11 ∷ 12 ∷ 13 ∷ []) script ≡ replies
unfolding Queue.session Queue.answer
queue_session-wrapped = refl

session_refines_example :
    session (some (context wrapped)) script ≡ done (Queue.session 8 (contents wrapped) script)
session_refines_example = session_refines script wrapped-IsValid

try_write_takes_example :
    (s' : OpenRing) × (try_write (some (context wrapped)) (some (21 ∷ 22 ∷ [])) 2
      ≡ done (some (context s'), true))
    × IsValid s'
    × (s'.capacity ≡ 8)
    × (contents s' ≡ contents wrapped ++ take 2 (21 ∷ 22 ∷ []))
try_write_takes_example =
    try_write_takes (21 ∷ 22 ∷ []) 2 wrapped-IsValid (omega arith) (omega arith) (omega arith)

-- five more bytes would fill the ring
try_write_refuses_example :
    try_write (some (context wrapped)) (some (21 ∷ 22 ∷ 23 ∷ 24 ∷ 25 ∷ [])) 5
    ≡ done (some (context wrapped), false)
try_write_refuses_example =
    try_write_refuses (21 ∷ 22 ∷ 23 ∷ 24 ∷ 25 ∷ []) 5 wrapped-IsValid (inr (omega arith))

try_read_gives_example :
    (s' : OpenRing) × (out' : List ℕ) × (try_read
        (some (context wrapped))
        (some (1 ∷ 2 ∷ 3 ∷ 4 ∷ []))
        4
        (some 0)
      ≡ done (record {
        ctx = some (context s');
        out_data = some out';
        bytes_read = some (min (length (contents wrapped)) 4);
        read = true;
      }))
    × (take (min (length (contents wrapped)) 4) out'
        ≡ take (min (length (contents wrapped)) 4) (contents wrapped))
    × (drop (min (length (contents wrapped)) 4) out'
        ≡ drop (min (length (contents wrapped)) 4) (1 ∷ 2 ∷ 3 ∷ 4 ∷ []))
    × IsValid s'
    × (s'.capacity ≡ 8)
    × (contents s' ≡ drop (min (length (contents wrapped)) 4) (contents wrapped))
try_read_gives_example =
    try_read_gives (1 ∷ 2 ∷ 3 ∷ 4 ∷ []) 4 0 wrapped-IsValid (omega arith) (omega arith)
      (omega arith)

abbrev memory : List ℕ
memory = replicate 72 0xff

init_opens_example :
    (init (some closed_context) (some memory) 72 true ≡ (some (context (fresh memory 72)), true))
    × IsValid (fresh memory 72)
    × (contents (fresh memory 72) ≡ [])
init_opens_example = init_opens closed_context memory 72 (omega arith) (omega arith) (omega arith)

try_read_refuses_example :
    try_read (some (context wrapped)) (some (1 ∷ [])) 0 (some 7)
    ≡ done (record {
      ctx = some (context wrapped);
      out_data = some (1 ∷ []);
      bytes_read = some 0;
      read = false;
    })
try_read_refuses_example = try_read_refuses (1 ∷ []) 0 7 wrapped-IsValid (inl refl)

-- Both indices at 6.
abbrev drained_ring : OpenRing
drained_ring = record wrapped { header = record (fresh_header 8) { write_idx = 6; read_idx = 6 } }

drained_ring-IsValid : IsValid drained_ring
drained_ring-IsValid = record {
  small = omega arith;
  storage = omega arith;
  write_in = omega arith;
  read_in = omega arith;
}

try_read-try_write_example :
    (s1 : OpenRing) × (s2 : OpenRing) × (out : List ℕ) × (try_write
        (some (context drained_ring))
        (some (41 ∷ 42 ∷ 43 ∷ []))
        3
      ≡ done (some (context s1), true))
    × (try_read (some (context s1)) (some (0 ∷ 0 ∷ 0 ∷ 0 ∷ [])) 3 (some 9)
        ≡ done (record {
          ctx = some (context s2);
          out_data = some out;
          bytes_read = some 3;
          read = true;
        }))
    × (take 3 out ≡ 41 ∷ 42 ∷ 43 ∷ [])
    × IsValid s2
    × (s2.capacity ≡ 8)
    × (contents s2 ≡ [])
try_read-try_write_example =
    try_read-try_write drained_ring (41 ∷ 42 ∷ 43 ∷ []) (0 ∷ 0 ∷ 0 ∷ 0 ∷ []) 9 drained_ring-IsValid
      refl (omega arith) (omega arith) (omega arith)
