-- ===== src/SharedRing/Session.antt =====
-- Any sequence of calls on an open ring. Each call holds the mutex from its first load of an index
-- to its last store, so the calls of any number of threads are such a sequence.
use n_igpu_macos.Common.{
  ℕ, ◌+◌, ◌≤◌, ◌<◌, ◌≡◌, ◌⊎◌, ◌∙◌, inl, inr, refl, sym, ap, ap₂, List, [], ◌∷◌, ◌++◌, Bool-cases,
  true, false, Option, some, none, leb, ◌==◌, ◌||◌, length, take, drop, replicate, length-replicate,
  length-take, take_all, drop_all, Exec, done, ◌>>=◌, min, arith,
}
use n_igpu_macos.Queue
use n_igpu_macos.Queue.{Call, put, get, Reply}
use n_igpu_macos.SharedRing.{RingContext, try_write, try_read, ReadOutcome}
use n_igpu_macos.SharedRing.View.{OpenRing, context, IsValid, contents}
use n_igpu_macos.SharedRing.Refine.{try_write_takes, try_write_refuses}
use n_igpu_macos.SharedRing.Read.{try_read_gives, try_read_refuses}

-- What a reader finds at the front of its block: as many bytes as were reported.
abbrev received : ReadOutcome → List ℕ
received o = elim o.bytes_read [
  | none ↦ []
  | some n ↦ elim o.out_data [ none ↦ [] | some out ↦ take n out ]
]

pub answer : Option RingContext → Call → Exec (Option RingContext × Reply)
answer ctx (put msg) = do
  (ctx', ok) ← try_write ctx (some msg) (length msg)
  done (ctx', record { ok = ok; bytes = [] })
answer ctx (get n) = do
  o ← try_read ctx (some (replicate n 0)) n (some 0)
  done (o.ctx, record { ok = o.read; bytes = received o })

pub session : Option RingContext → List Call → Exec (List Reply)
session ctx [] = done []
session ctx (c ∷ calls) = do
  (ctx', reply) ← answer ctx c
  replies ← session ctx' calls
  done (reply ∷ replies)

-- `step` is a call that went as the queue says.
pub record IsAnswered (s : OpenRing) (c : Call) (step : Exec (Option RingContext × Reply))
    : Type 0 where
  after : OpenRing
  returns : step ≡ done (some (context after), (Queue.answer s.capacity (contents s) c).1)
  valid : IsValid after
  same_capacity : after.capacity ≡ s.capacity
  holds : contents after ≡ (Queue.answer s.capacity (contents s) c).0

take-min : (q : List ℕ) (n : ℕ) → take (min (length q) n) q ≡ take n q
take-min q n = elim (Bool-cases (leb n (length q))) [
  | inl e ↦ ap (λ k. take k q) (ground arith)
  | inr e ↦
      ap (λ k. take k q) (ground arith)
      ∙ take_all q (length q) (ground arith)
      ∙ sym (take_all q n (ground arith))
]

drop-min : (q : List ℕ) (n : ℕ) → drop (min (length q) n) q ≡ drop n q
drop-min q n = elim (Bool-cases (leb n (length q))) [
  | inl e ↦ ap (λ k. drop k q) (ground arith)
  | inr e ↦
      ap (λ k. drop k q) (ground arith)
      ∙ drop_all q (length q) (ground arith)
      ∙ sym (drop_all q n (ground arith))
]

-- The queue's side of each branch.
module _ (cap : ℕ) (q : List ℕ) where
  queue_refuses :
      (msg : List ℕ)
      → (length msg ≡ 0) ⊎ (cap ≤ length q + length msg)
      → Queue.answer cap q (put msg) ≡ (q, record { ok = false; bytes = [] })
  unfolding Queue.answer
  queue_refuses msg h = ground arith

  queue_takes :
      (msg : List ℕ)
      → 0 < length msg
      → length q + length msg < cap
      → Queue.answer cap q (put msg) ≡ (q ++ msg, record { ok = true; bytes = [] })
  unfolding Queue.answer
  queue_takes msg pos fits = ground arith

  queue_empty :
      (n : ℕ)
      → (n ≡ 0) ⊎ (length q ≡ 0)
      → Queue.answer cap q (get n) ≡ (q, record { ok = false; bytes = [] })
  unfolding Queue.answer
  queue_empty n h = ground arith

  queue_gives :
      (n : ℕ)
      → 0 < n
      → 0 < length q
      → Queue.answer cap q (get n) ≡ (drop n q, record { ok = true; bytes = take n q })
  unfolding Queue.answer
  queue_gives n pos busy = ground arith

empty_of_length : (q : List ℕ) → length q ≡ 0 → q ≡ []
empty_of_length [] h = refl
empty_of_length (x ∷ q) h = absurd (omega arith)

module _ {s : OpenRing} (v : IsValid s) where
  put_refused :
      (msg : List ℕ)
      → (length msg ≡ 0) ⊎ (s.capacity ≤ length (contents s) + length msg)
      → IsAnswered s (put msg) (answer (some (context s)) (put msg))
  unfolding answer
  put_refused msg why =
      let q = queue_refuses s.capacity (contents s) msg why in
      record {
        after = s;
        returns = rw (q, try_write_refuses msg (length msg) v why);
        valid = v;
        same_capacity = refl;
        holds = rw q;
      }

  put_taken :
      (msg : List ℕ)
      → 0 < length msg
      → length (contents s) + length msg < s.capacity
      → IsAnswered s (put msg) (answer (some (context s)) (put msg))
  unfolding answer
  put_taken msg pos fits =
      let q = queue_takes s.capacity (contents s) msg pos fits in
      let (s', eq, valid, same, holds) =
        try_write_takes msg (length msg) v (omega arith) pos fits in
      record {
        after = s';
        returns = rw (q, eq);
        valid = valid;
        same_capacity = same;
        holds = rw q (holds ∙ ap (λ t. contents s ++ t) (take_all msg (length msg) (omega arith)));
      }

  get_refused :
      (n : ℕ)
      → (n ≡ 0) ⊎ (length (contents s) ≡ 0)
      → IsAnswered s (get n) (answer (some (context s)) (get n))
  unfolding answer
  get_refused n why =
      let q = queue_empty s.capacity (contents s) n why in
      let why' : (n ≡ 0) ⊎ (contents s ≡ []) = elim why [
        | inl z ↦ inl z
        | inr z ↦ inr (empty_of_length (contents s) z)
      ] in
      record {
        after = s;
        returns = rw (q, try_read_refuses (replicate n 0) n 0 v why');
        valid = v;
        same_capacity = refl;
        holds = rw q;
      }

  get_given :
      (n : ℕ)
      → 0 < n
      → 0 < length (contents s)
      → IsAnswered s (get n) (answer (some (context s)) (get n))
  unfolding answer
  get_given n pos busy =
      let q = queue_gives s.capacity (contents s) n pos busy in
      let (s', out', eq, front, rest, valid, same, holds) =
        try_read_gives (replicate n 0) n 0 v pos (omega (arith, length-replicate {0} {A = ℕ} n 0))
          busy in
      record {
        after = s';
        returns = rw (q, eq, front, take-min (contents s) n);
        valid = valid;
        same_capacity = same;
        holds = rw q (holds ∙ drop-min (contents s) n);
      }

  -- One call on a valid open ring is answered as the queue of its contents answers it.
  answer-IsAnswered : (c : Call) → IsAnswered s c (answer (some (context s)) c)
  answer-IsAnswered (put msg) =
      elim (Bool-cases (length msg == 0 || leb s.capacity (length (contents s) + length msg))) [
        | inl e ↦ put_refused msg (ground arith)
        | inr e ↦ put_taken msg (ground arith) (ground arith)
      ]
  answer-IsAnswered (get n) = elim (Bool-cases (n == 0 || length (contents s) == 0)) [
    | inl e ↦ get_refused n (ground arith)
    | inr e ↦ get_given n (ground arith) (ground arith)
  ]

-- No sequence of calls of `ntel_ring_try_write` and `ntel_ring_try_read` on a valid open ring
-- leaves its buffers, and none tells the ring from the bounded queue of its contents: the replies
-- are the same.
pub session_refines :
    (calls : List Call) {s : OpenRing}
    → IsValid s
    → session (some (context s)) calls ≡ done (Queue.session s.capacity (contents s) calls)
unfolding session Queue.session
session_refines [] v = refl
session_refines (c ∷ calls) {s} v =
    let a = answer-IsAnswered v c in
    rw (a.returns, session_refines calls a.valid)
      (ap₂ (λ cap q. done ((Queue.answer s.capacity (contents s) c).1 ∷ Queue.session cap q calls))
        a.same_capacity a.holds)

-- A write from the front of a block, as the queue answers it.
pub try_write_answers :
    {s : OpenRing} (src : List ℕ) (len : ℕ)
    → IsValid s
    → len ≤ length src
    → let answered = Queue.answer s.capacity (contents s) (put (take len src)) in
      (s' : OpenRing) × (try_write (some (context s)) (some src) len
        ≡ done (some (context s'), answered.1.ok))
      × IsValid s'
      × (s'.capacity ≡ s.capacity)
      × (contents s' ≡ answered.0)
try_write_answers {s} src len v room =
    let size : length (take len src) ≡ len = omega (arith, length-take {0} len src) in
    elim (Bool-cases (len == 0 || leb s.capacity (length (contents s) + len))) [
      | inl e ↦
          let q = queue_refuses s.capacity (contents s) (take len src) (ground arith) in
          (s, rw q (try_write_refuses src len v (ground arith)), v, refl, rw q)
      | inr e ↦
          let q =
            queue_takes s.capacity (contents s) (take len src) (ground arith) (ground arith) in
          let (s', eq, valid, same, holds) =
            try_write_takes src len v room (ground arith) (ground arith) in
          (s', rw q eq, valid, same, rw q holds)
    ]
