-- ===== src/Queue.antt =====
-- What the shared ring promises: a FIFO of bytes that holds fewer than `cap` of them, and takes a
-- message whole or not at all. Also the calls that clients make of it, and the replies they see.
use n_igpu_macos.Common.{
  ℕ, ◌+◌, Bool, true, false, ◌||◌, List, [], ◌∷◌, ◌++◌, if◌then◌else◌, leb, ◌==◌, length, take,
  drop,
}

-- `put` offers a message, and `get n` asks for at most `n` bytes.
pub data Call : Type 0 where
  put : List ℕ → Call
  get : ℕ → Call

-- Whether the call succeeded, and the bytes that it handed over.
pub record Reply : Type 0 where
  pub ok : Bool
  pub bytes : List ℕ

unfoldable pub answer : ℕ → List ℕ → Call → List ℕ × Reply
answer cap q (put msg) =
    if length msg == 0 || leb cap (length q + length msg)
    then (q, record { ok = false; bytes = [] })
    else (q ++ msg, record { ok = true; bytes = [] })
answer cap q (get n) =
    if n == 0 || length q == 0
    then (q, record { ok = false; bytes = [] })
    else (drop n q, record { ok = true; bytes = take n q })

unfoldable pub session : ℕ → List ℕ → List Call → List Reply
session cap q [] = []
session cap q (c ∷ calls) = let (q', reply) = answer cap q c in reply ∷ session cap q' calls
