-- ===== src/Simulation/Stress/Bytes.antt =====
-- Calls of the ring for one byte.
use n_igpu_macos.Common.{
  ℕ, ◌+◌, ◌<◌, ◌≡◌, ◌⊎◌, ◌∙◌, refl, ap, ap₂, inl, inr, Bool, true, false, some, List, [], ◌∷◌, ◌++◌,
  if◌then◌else◌, leb, min, length, take, drop, Bool-cases, done, arith,
}
use n_igpu_macos.Queue
use n_igpu_macos.Queue.{put}
use n_igpu_macos.SharedRing.{try_write, try_read}
use n_igpu_macos.SharedRing.View.{OpenRing, context, IsValid, contents}
use n_igpu_macos.SharedRing.Session.{try_write_answers}
use n_igpu_macos.SharedRing.Read.{try_read_gives, try_read_refuses}

pub writes_byte :
    {s : OpenRing} (x : ℕ)
    → IsValid s
    → (s' : OpenRing) × (wrote : Bool) × (try_write (some (context s)) (some (x ∷ [])) 1
        ≡ done (some (context s'), wrote))
      × IsValid s'
      × (s'.capacity ≡ s.capacity)
      × (contents s' ≡ (if wrote then contents s ++ (x ∷ []) else contents s))
unfolding Queue.answer
writes_byte {s} x v =
    let (s', eq, valid, same, holds) = try_write_answers (x ∷ []) 1 v (omega arith) in
    elim (Bool-cases (leb s.capacity (length (contents s) + 1))) [
      | inl full ↦ (s', false, rw full at eq, valid, same, rw full at holds)
      | inr room ↦ (s', true, rw room at eq, valid, same, rw room at holds)
    ]

list_cases : (xs : List ℕ) → (xs ≡ []) ⊎ ((x : ℕ) × (rest : List ℕ) × (xs ≡ x ∷ rest))
list_cases [] = inl refl
list_cases (x ∷ rest) = inr (x, rest, refl)

one_byte : (out : List ℕ) (x : ℕ) → take 1 out ≡ x ∷ [] → drop 1 out ≡ [] → out ≡ x ∷ []
one_byte [] x front back = front
one_byte (y ∷ ys) x front back = ap (λ t. y ∷ t) back ∙ front

first_byte :
    (x : ℕ) (rest out q : List ℕ) (n : ℕ)
    → q ≡ x ∷ rest
    → n ≡ 1
    → take n out ≡ take n q
    → drop n out ≡ drop n (0 ∷ [])
    → (out ≡ x ∷ []) × (drop n q ≡ rest)
first_byte x rest out q n held one front back =
    (one_byte out x (rw (one, held) at front) (rw one at back), rw (one, held) refl)

-- What a read of one byte finds.
pub data ReadsByte (s : OpenRing) : Type 0 where
  idle :
      contents s ≡ []
      → try_read (some (context s)) (some (0 ∷ [])) 1 (some 0)
        ≡ done (record {
          ctx = some (context s);
          out_data = some (0 ∷ []);
          bytes_read = some 0;
          read = false;
        })
      → ReadsByte s
  gives :
      (x : ℕ) (rest : List ℕ) (s' : OpenRing)
      → contents s ≡ x ∷ rest
      → try_read (some (context s)) (some (0 ∷ [])) 1 (some 0)
        ≡ done (record {
          ctx = some (context s');
          out_data = some (x ∷ []);
          bytes_read = some 1;
          read = true;
        })
      → IsValid s'
      → s'.capacity ≡ s.capacity
      → contents s' ≡ rest
      → ReadsByte s

pub reads_byte : {s : OpenRing} → IsValid s → ReadsByte s
reads_byte {s} v = elim (list_cases (contents s)) [
  | inl none_held ↦ idle none_held (try_read_refuses (0 ∷ []) 1 0 v (inr none_held))
  | inr (x, rest, held) ↦
      let busy : 0 < length (contents s) = omega (arith, ap length held) in
      let (s', out, eq, front, back, valid, same, left) =
        try_read_gives (0 ∷ []) 1 0 v (omega arith) (omega arith) busy in
      let one : min (length (contents s)) 1 ≡ 1 = omega arith in
      let (is_x, is_rest) = first_byte x rest out (contents s) _ held one front back in
      let returned = λ (bytes : List ℕ) (n : ℕ). done (record {
        ctx = some (context s');
        out_data = some bytes;
        bytes_read = some n;
        read = true;
      }) in
      gives x rest s' held (eq ∙ ap₂ returned is_x one) valid same (left ∙ is_rest)
]
