-- ===== src/SharedRing.antt =====
-- NtelSpoofKext/src/NtelSharedRing.c and include/NtelSharedRing.h, as built with NTEL_USERMODE.
-- A pointer that may be NULL is an option, and a function that writes through a pointer returns
-- what stands behind it afterwards. The critical sections run under the context's mutex, so each
-- is one step; the barriers and the cache-line flushes have no effect on the values.
pub mod Lifecycle
pub mod View
pub mod Write
pub mod Read
pub mod Refine
pub mod Session
pub mod RoundTrip
mod Tests
use n_igpu_macos.Common.{
  ℕ, ◌+◌, ◌-◌, ◌*◌, ◌/◌, ◌%◌, ◌^◌, Bool, true, false, not, ◌||◌, Option, none, some, List,
  if◌then◌else◌, ltb, leb, ◌==◌, u32, sub32, drop, replicate, Exec, done, ◌>>=◌, memcpy,
}

-- `NtelSharedRingHeader`
pub record SharedRingHeader : Type 0 where
  pub write_idx : ℕ
  pub read_idx : ℕ
  pub capacity_dw : ℕ
  pub reserved : List ℕ

-- `NtelRingContext`. `header` and `buffer_base` are the first 64 bytes of the shared memory and
-- the bytes behind them.
pub record RingContext : Type 0 where
  pub header : Option SharedRingHeader
  pub buffer_base : Option (List ℕ)
  pub capacity_bytes : ℕ
  pub lock_initialized : Bool

-- NTEL_RING_MAX_CAPACITY
abbrev pub max_capacity : ℕ
max_capacity = 8 * 1024 * 1024

-- `sizeof(NtelSharedRingHeader)`
abbrev pub header_size : ℕ
header_size = 64

abbrev pub fresh_header : ℕ → SharedRingHeader
fresh_header cap = record {
  write_idx = 0;
  read_idx = 0;
  capacity_dw = cap / 4;
  reserved = replicate 13 0;
}

-- `mutex_ok` is whether `pthread_mutex_init` returns 0.
pub init : Option RingContext → Option (List ℕ) → ℕ → (mutex_ok : Bool) → Option RingContext × Bool
init none mem size mutex_ok = (none, false)
init (some ctx) none size mutex_ok = (some ctx, false)
init (some ctx) (some mem) size mutex_ok =
    if ltb size header_size || ltb max_capacity size
    then (some ctx, false)
    else (if mutex_ok
        then (
          some (record {
            header = some (fresh_header (size - header_size));
            buffer_base = some (drop header_size mem);
            capacity_bytes = size - header_size;
            lock_initialized = true;
          }),
          true,
        )
        else (some (record ctx { lock_initialized = false }), false))

-- The bytes from index `r` round to index `w`.
abbrev pub distance : ℕ → ℕ → ℕ → ℕ
distance cap w r = if leb r w then sub32 w r else sub32 cap (sub32 r w)

-- The two halves of a copy that goes round the end of the buffer.
pub copy_in : List ℕ → ℕ → List ℕ → ℕ → ℕ → Exec (List ℕ)
copy_in buf w src len space_to_end = if leb len space_to_end then memcpy buf w src 0 len else (do
  buf' ← memcpy buf w src 0 space_to_end
  memcpy buf' 0 src space_to_end (len - space_to_end))

pub copy_out : List ℕ → List ℕ → ℕ → ℕ → ℕ → Exec (List ℕ)
copy_out out buf r to_read space_to_end =
    if leb to_read space_to_end then memcpy out 0 buf r to_read else (do
      out' ← memcpy out 0 buf r space_to_end
      memcpy out' space_to_end buf 0 (to_read - space_to_end))

-- The critical section of `ntel_ring_try_write`.
pub write_locked :
    SharedRingHeader → List ℕ → ℕ → List ℕ → ℕ → Exec (SharedRingHeader × List ℕ × Bool)
write_locked h buf cap src len =
    let w = h.write_idx in
    let free_space = sub32 cap (distance cap w h.read_idx) in
    if free_space == 0 || leb free_space len then done (h, buf, false) else (do
      buf' ← copy_in buf w src len (sub32 cap w)
      done (record h { write_idx = u32 (w + len) % cap }, buf', true))

write_checked :
    Option SharedRingHeader
    → Option (List ℕ)
    → Option (List ℕ)
    → RingContext
    → ℕ
    → Exec (RingContext × Bool)
write_checked (some h) (some buf) (some src) ctx len =
    if not ctx.lock_initialized || (len == 0 || ltb ctx.capacity_bytes len)
    then done (ctx, false)
    else (do
      (h', buf', wrote) ← write_locked h buf ctx.capacity_bytes src len
      done (record ctx { header = some h'; buffer_base = some buf' }, wrote))
write_checked _ _ _ ctx len = done (ctx, false)

pub try_write : Option RingContext → Option (List ℕ) → ℕ → Exec (Option RingContext × Bool)
unfolding write_checked
try_write none src len = done (none, false)
try_write (some ctx) src len = do
  (ctx', wrote) ← write_checked ctx.header ctx.buffer_base src ctx len
  done (some ctx', wrote)

-- What `ntel_ring_try_read` leaves behind its pointers, and its result.
pub record ReadResult : Type 0 where
  pub header : SharedRingHeader
  pub out_data : List ℕ
  pub bytes_read : ℕ
  pub read : Bool

-- The critical section of `ntel_ring_try_read`.
pub read_locked : SharedRingHeader → List ℕ → ℕ → List ℕ → ℕ → Exec ReadResult
read_locked h buf cap out max_len =
    let r = h.read_idx in
    if h.write_idx == r
    then done (record { header = h; out_data = out; bytes_read = 0; read = false })
    else (let available = distance cap h.write_idx r in
        let to_read = if ltb available max_len then available else max_len in
        do
          out' ← copy_out out buf r to_read (sub32 cap r)
          done (record {
            header = record h { read_idx = u32 (r + to_read) % cap };
            out_data = out';
            bytes_read = to_read;
            read = true;
          }))

pub record ReadOutcome : Type 0 where
  pub ctx : Option RingContext
  pub out_data : Option (List ℕ)
  pub bytes_read : Option ℕ
  pub read : Bool

read_checked :
    Option SharedRingHeader
    → Option (List ℕ)
    → RingContext
    → Option (List ℕ)
    → ℕ
    → Option ℕ
    → Exec ReadOutcome
read_checked (some h) (some buf) ctx (some out) max_len (some n) =
    if not ctx.lock_initialized
    then done (record { ctx = some ctx; out_data = some out; bytes_read = some n; read = false })
    else (if max_len == 0
        then done
            (record { ctx = some ctx; out_data = some out; bytes_read = some 0; read = false })
        else (do
          res ← read_locked h buf ctx.capacity_bytes out max_len
          done (record {
            ctx = some (record ctx { header = some res.header });
            out_data = some res.out_data;
            bytes_read = some res.bytes_read;
            read = res.read;
          })))
read_checked _ _ ctx out max_len n =
    done (record { ctx = some ctx; out_data = out; bytes_read = n; read = false })

pub try_read : Option RingContext → Option (List ℕ) → ℕ → Option ℕ → Exec ReadOutcome
unfolding read_checked
try_read none out max_len n =
    done (record { ctx = none; out_data = out; bytes_read = n; read = false })
try_read (some ctx) out max_len n = read_checked ctx.header ctx.buffer_base ctx out max_len n

pub cleanup : Option RingContext → Option RingContext
cleanup none = none
cleanup (some ctx) =
    some
      (record { header = none; buffer_base = none; capacity_bytes = 0; lock_initialized = false })
