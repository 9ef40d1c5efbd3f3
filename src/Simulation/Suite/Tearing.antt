-- ===== src/Simulation/Suite/Tearing.antt =====
-- The tests that write in a loop: `test_cache_line_tearing` and `test_thread_riot`.
use n_igpu_macos.Common.{
  ℕ, zero, suc, ◌+◌, ◌*◌, ◌≤◌, ◌<◌, ◌≡◌, ◌⊎◌, ◌∙◌, refl, ap, inl, inr, Bool, true, false, some,
  List, [], ◌∷◌, ◌++◌, ltb, Bool-cases, length, get_or, take, take_all, drop, min, length-append,
  done, arith,
}
use n_igpu_macos.SharedRing.{try_write, try_read}
use n_igpu_macos.SharedRing.View.{OpenRing, context, IsValid, contents}
use n_igpu_macos.SharedRing.Refine.{try_write_takes, try_write_refuses}
use n_igpu_macos.SharedRing.Read.{try_read_gives}
use n_igpu_macos.Simulation.{drain_ring_empties}
use n_igpu_macos.Simulation.Suite.{
  SimulationEnvironment, is_torn, test_cache_line_tearing, thread_writers, test_thread_riot,
}
use n_igpu_macos.Simulation.Suite.Pass.{with_ring, contents_bound}

-- The bytes that the test writes, and no others.
abbrev pub IsPure : List ℕ → Type 0
IsPure [] = Unit
IsPure (x ∷ xs) = ((x ≡ 0xaa) ⊎ (x ≡ 0xbb)) × IsPure xs

IsPure-append : (xs ys : List ℕ) → IsPure xs → IsPure ys → IsPure (xs ++ ys)
IsPure-append [] ys p q = q
IsPure-append (x ∷ xs) ys p q = (p.0, IsPure-append xs ys p.1 q)

-- A write that is taken whole or refused, on a valid ring.
record Offered (s : OpenRing) (msg : List ℕ) : Type 0 where
  after : OpenRing
  wrote : Bool
  eq : try_write (some (context s)) (some msg) (length msg) ≡ done (some (context after), wrote)
  valid : IsValid after
  same : after.capacity ≡ s.capacity
  holds :
      (contents after ≡ contents s ++ msg)
      ⊎ ((contents after ≡ contents s) × (s.capacity ≤ length (contents s) + length msg))

offer : (s : OpenRing) (msg : List ℕ) → IsValid s → 0 < length msg → Offered s msg
offer s msg v some_bytes = elim (Bool-cases (ltb (length (contents s) + length msg) s.capacity)) [
  | inl room ↦
      let (s', eq, valid, same, holds) =
        try_write_takes {s = s} msg (length msg) v (omega arith) some_bytes (ground arith) in
      record {
        after = s';
        wrote = true;
        eq = eq;
        valid = valid;
        same = same;
        holds = inl (holds ∙ ap (λ t. contents s ++ t) (take_all msg (length msg) (omega arith)));
      }
  | inr full ↦
      let most : s.capacity ≤ length (contents s) + length msg = ground arith in
      record {
        after = s;
        wrote = false;
        eq = try_write_refuses {s = s} msg (length msg) v (inr most);
        valid = v;
        same = refl;
        holds = inr (refl, most);
      }
]

-- A byte of the test's keeps the ring pure, and there is a byte then.
offer-IsPure :
    (s : OpenRing) (x : ℕ) (o : Offered s (x ∷ []))
    → (x ≡ 0xaa) ⊎ (x ≡ 0xbb)
    → 2 ≤ s.capacity
    → IsPure (contents s)
    → IsPure (contents o.after) × (0 < length (contents o.after))
offer-IsPure s x o this large pure = elim o.holds [
  | inl longer ↦ (
    rw longer (IsPure-append (contents s) (x ∷ []) pure (this, tt)),
    rw longer (omega (arith, length-append (contents s) (x ∷ []))),
  )
  | inr (equal, full) ↦ (rw equal pure, rw equal (omega arith))
]

-- The first byte of a pure list, in front of a block.
not_torn :
    (xs out : List ℕ)
    → IsPure xs
    → 0 < length xs
    → take 1 out ≡ take 1 xs
    → is_torn (some out) ≡ false
unfolding is_torn
not_torn [] out p h e = absurd (omega arith)
not_torn (x ∷ xs) [] p h e = absurd (let n = ap length e in omega arith)
not_torn (x ∷ xs) (y ∷ out) (inl same, p) h e =
    let first : y ≡ x = ap (λ l. get_or l 0 0) e in rw (first, same) refl
not_torn (x ∷ xs) (y ∷ out) (inr same, p) h e =
    let first : y ≡ x = ap (λ l. get_or l 0 0) e in rw (first, same) refl

IsPure-drop : (xs : List ℕ) → IsPure xs → IsPure (drop 1 xs)
IsPure-drop [] p = p
IsPure-drop (x ∷ xs) p = p.1

-- The read of a round.
record Read (s : OpenRing) (read_val read_bytes : ℕ) : Type 0 where
  after : OpenRing
  out : List ℕ
  eq :
      try_read (some (context s)) (some (read_val ∷ [])) 1 (some read_bytes)
      ≡ done (record {
        ctx = some (context after);
        out_data = some out;
        bytes_read = some 1;
        read = true;
      })
  whole : is_torn (some out) ≡ false
  valid : IsValid after
  same : after.capacity ≡ s.capacity
  pure : IsPure (contents after)

one_byte_out :
    (s : OpenRing) (read_val read_bytes : ℕ)
    → IsValid s
    → IsPure (contents s)
    → 0 < length (contents s)
    → Read s read_val read_bytes
one_byte_out s read_val read_bytes v pure held =
    let (s', out, eq, front, rest, valid, same, left) =
      try_read_gives {s = s} (read_val ∷ []) 1 read_bytes v (omega arith) (omega arith) held in
    let n : min (length (contents s)) 1 ≡ 1 = omega arith in
    record {
      after = s';
      out = out;
      eq = rw n at eq;
      whole = not_torn (contents s) out pure held (rw n at front);
      valid = valid;
      same = same;
      pure = rw (left, n) (IsPure-drop (contents s) pure);
    }

-- A round, from what its calls return.
tearing_round :
    (left read_val read_bytes : ℕ) (s : OpenRing) (env : SimulationEnvironment)
    (a : Offered s (0xaa ∷ [])) (b : Offered a.after (0xbb ∷ []))
    (r : Read b.after read_val read_bytes)
    → test_cache_line_tearing (suc left) read_val read_bytes (with_ring env s)
      ≡ test_cache_line_tearing left read_val read_bytes (with_ring env r.after)
unfolding test_cache_line_tearing
tearing_round left read_val read_bytes s env a b r = rw (a.eq, b.eq, r.eq, r.whole) refl

-- `test_cache_line_tearing` records no failure.
pub tearing_passes :
    (left read_val read_bytes : ℕ) (s : OpenRing) (env : SimulationEnvironment)
    → IsValid s
    → 2 ≤ s.capacity
    → IsPure (contents s)
    → (s' : OpenRing) × (test_cache_line_tearing left read_val read_bytes (with_ring env s)
        ≡ done (with_ring env s'))
      × IsValid s'
      × (s'.capacity ≡ s.capacity)
unfolding test_cache_line_tearing
tearing_passes zero read_val read_bytes s env v large pure = (s, refl, v, refl)
tearing_passes (suc left) read_val read_bytes s env v large pure =
    let a = offer s (0xaa ∷ []) v (omega arith) in
    let (pure_a, held_a) = offer-IsPure s 0xaa a (inl refl) large pure in
    let b = offer a.after (0xbb ∷ []) a.valid (omega arith) in
    let (pure_b, held_b) = offer-IsPure a.after 0xbb b (inr refl) (omega (arith, a.same)) pure_a in
    let r = one_byte_out b.after read_val read_bytes b.valid pure_b held_b in
    let (s', eq, valid, same) =
      tearing_passes left read_val read_bytes r.after env r.valid
        (omega (arith, a.same, b.same, r.same)) r.pure in
    (
      s',
      tearing_round left read_val read_bytes s env a b r ∙ eq,
      valid,
      same ∙ r.same ∙ b.same ∙ a.same,
    )

writers_end :
    (left : ℕ) (s : OpenRing)
    → IsValid s
    → (s' : OpenRing) × (thread_writers left (some (context s)) ≡ done (some (context s')))
      × IsValid s'
      × (s'.capacity ≡ s.capacity)
unfolding thread_writers
writers_end zero s v = (s, refl, v, refl)
writers_end (suc left) s v =
    let o = offer s (0x78 ∷ 0x56 ∷ 0x34 ∷ 0x12 ∷ []) v (omega arith) in
    let (s', eq, valid, same) = writers_end left o.after o.valid in
    (s', rw o.eq eq, valid, same ∙ o.same)

-- `test_thread_riot` ends, and leaves an empty ring.
pub riot_ends :
    (fuel : ℕ) (s : OpenRing) (drain : List ℕ) (drained : ℕ) (env : SimulationEnvironment)
    → IsValid s
    → 256 ≤ length drain
    → s.capacity < fuel
    → (s' : OpenRing) × (test_thread_riot fuel drain drained (with_ring env s)
        ≡ done (some (with_ring env s')))
      × IsValid s'
      × (s'.capacity ≡ s.capacity)
unfolding test_thread_riot
riot_ends fuel s drain drained env v block enough =
    let (s1, written, valid, same) = writers_end (8 * 1000) s v in
    let (s2, emptied, valid2, same2, _) =
      drain_ring_empties fuel s1 drain drained valid block
        (omega (arith, contents_bound s1 valid)) in
    (s2, rw (written, emptied) refl, valid2, same2 ∙ same)
