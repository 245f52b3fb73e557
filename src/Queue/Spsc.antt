-- ===== src/Queue/Spsc.antt =====
-- cpp/core/queue/spsc_queue.hpp: a ring buffer between one producer and one consumer. The release
-- store that ends an operation is the point at which it takes effect, so an operation is one step.
-- A slot of the raw buffer holds an object or none.
pub mod Fifo
pub mod Tests
use cascade.Base.{
  ℕ, zero, suc, ◌+◌, ◌-◌, ◌*◌, Bool, true, false, List, [], ◌∷◌, Option, none, some, ltb, leb,
  if◌then◌else◌, get_or, set, replicate,
}
use cascade.Base.Word.{add64, sub64}
use Prim.Native.Nat.{bit_and}

pub record SpscQueue (A : Type 0) : Type 0 where
  pub capacity : ℕ
  pub mask : ℕ
  pub buffer : List (Option A)
  pub head : ℕ
  pub tail_cached : ℕ
  pub tail : ℕ
  pub head_cached : ℕ

-- `while (p < v) p <<= 1`, on fuel: 64 rounds are all that a 64-bit `v` of at most 2 ^ 63 takes.
unfoldable pub round_loop : ℕ → ℕ → ℕ → ℕ
round_loop zero p v = p
round_loop (suc fuel) p v = let more = round_loop fuel (2 * p) v in if ltb p v then more else p

pub round_up_pow2 : ℕ → ℕ
round_up_pow2 v = round_loop 64 1 v

module _ {A : Type 0} where
  pub new_queue : ℕ → SpscQueue A
  new_queue capacity =
      let rounded = round_up_pow2 capacity in
      record {
        capacity = rounded;
        mask = rounded - 1;
        buffer = replicate rounded none;
        head = 0;
        tail_cached = 0;
        tail = 0;
        head_cached = 0;
      }

  -- The producer's write and the store of the tail.
  abbrev pub put : A → SpscQueue A → SpscQueue A
  put value q = record q {
    buffer = set q.buffer (bit_and q.tail q.mask) (some value);
    tail = add64 q.tail 1;
  }

  pub try_push : A → SpscQueue A → Bool × SpscQueue A
  try_push value q =
      let next_tail = add64 q.tail 1 in
      if ltb q.capacity (sub64 next_tail q.head_cached)
      then (if ltb q.capacity (sub64 next_tail q.head)
          then (false, record q { head_cached = q.head })
          else (true, put value (record q { head_cached = q.head })))
      else (true, put value q)

  -- The consumer's read, the destruction of the object, and the store of the head.
  abbrev pub take_out : SpscQueue A → Option A × SpscQueue A
  take_out q = (
    get_or q.buffer (bit_and q.head q.mask) none,
    record q { buffer = set q.buffer (bit_and q.head q.mask) none; head = add64 q.head 1 },
  )

  pub try_pop : SpscQueue A → Option A × SpscQueue A
  try_pop q =
      if leb q.tail_cached q.head
      then (if leb q.tail q.head
          then (none, record q { tail_cached = q.tail })
          else take_out (record q { tail_cached = q.tail }))
      else take_out q

  pub size_approx : SpscQueue A → ℕ
  size_approx q = sub64 q.tail q.head
