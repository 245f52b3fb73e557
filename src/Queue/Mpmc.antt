-- ===== src/Queue/Mpmc.antt =====
-- cpp/core/queue/mpmc_queue.hpp: a ring buffer between many producers and consumers. Each load, store
-- and compare-and-swap is a step of one thread; between two steps of a thread the others take any of
-- theirs. A slot of the raw buffer holds an object or none.
pub mod Steps
pub mod Slots
pub mod Facts
pub mod Sound
pub mod Moves
pub mod Fifo
pub mod Safety
pub mod Tests
use cascade.Base.{
  ℕ, zero, suc, ◌+◌, ◌-◌, ◌*◌, ◌%◌, ◌^◌, Bool, true, false, List, [], ◌∷◌, ◌++◌, Option, none, some,
  ltb, ◌==◌, if◌then◌else◌, get_or, set,
}
use cascade.Base.Word.{add64}
use cascade.Queue.Spsc.{round_loop}
use Prim.Native.Nat.{bit_and}

pub record Slot (A : Type 0) : Type 0 where
  pub sequence : ℕ
  pub storage : Option A

pub record MpmcQueue (A : Type 0) : Type 0 where
  pub capacity : ℕ
  pub mask : ℕ
  pub slots : List (Slot A)
  pub head : ℕ
  pub tail : ℕ

pub round_up_pow2 : ℕ → ℕ
round_up_pow2 v = let p = round_loop 64 1 v in if p == 0 then 1 else p

-- The sign of `static_cast<std::intptr_t>(a) - static_cast<std::intptr_t>(b)`.
pub is_behind : ℕ → ℕ → Bool
is_behind a b = ltb ((a + 2 ^ 63) % 2 ^ 64) ((b + 2 ^ 63) % 2 ^ 64)

-- Where a thread stands in `try_push` or `try_pop`: before the load of the counter, before the load
-- of the slot's sequence, before the CAS, with the slot claimed, before the store of the sequence,
-- and after the return.
pub data Thread (A : Type 0) : Type 0 where
  idle : Thread A
  push_start : A → Thread A
  push_look : A → ℕ → Thread A
  push_claim : A → ℕ → Thread A
  push_write : A → ℕ → Thread A
  push_publish : A → ℕ → Thread A
  pushed : Bool → Thread A
  pop_start : Thread A
  pop_look : ℕ → Thread A
  pop_claim : ℕ → Thread A
  pop_read : ℕ → Thread A
  pop_release : ℕ → Option A → Thread A
  popped : Option A → Thread A

module _ {A : Type 0} where
  abbrev pub blank_slot : Slot A
  blank_slot = record { sequence = 0; storage = none }

  -- The slots from index `i` on, `n` of them.
  pub first_slots : ℕ → ℕ → List (Slot A)
  first_slots zero i = []
  first_slots (suc n) i = record { sequence = i; storage = none } ∷ first_slots n (i + 1)

  pub new_queue : ℕ → MpmcQueue A
  new_queue capacity =
      let rounded = round_up_pow2 capacity in
      record {
        capacity = rounded;
        mask = rounded - 1;
        slots = first_slots rounded 0;
        head = 0;
        tail = 0;
      }

  -- `slots_[pos & mask_]`
  pub slot_at : MpmcQueue A → ℕ → Slot A
  slot_at q pos = get_or q.slots (bit_and pos q.mask) blank_slot

  pub set_slot : ℕ → Slot A → MpmcQueue A → MpmcQueue A
  set_slot pos slot q = record q { slots = set q.slots (bit_and pos q.mask) slot }

  -- The branches of a push, and of a pop, on the slot's sequence.
  pub look_push : A → ℕ → ℕ → Thread A
  look_push value pos seq =
      if seq == pos
      then push_claim value pos
      else if is_behind seq pos
      then pushed false
      else push_start value

  pub look_pop : ℕ → ℕ → Thread A
  look_pop pos seq =
      if seq == add64 pos 1
      then pop_claim pos
      else if is_behind seq (add64 pos 1)
      then popped none
      else pop_start

  -- One step of a thread. A weak CAS may fail where it would succeed; a CAS that fails loads the
  -- counter.
  pub advance : Bool → Thread A → MpmcQueue A → Thread A × MpmcQueue A
  advance fails idle q = (idle, q)
  advance fails (push_start value) q = (push_look value q.tail, q)
  advance fails (push_look value pos) q = (look_push value pos (slot_at q pos).sequence, q)
  advance true (push_claim value pos) q = (push_look value q.tail, q)
  advance false (push_claim value pos) q =
      if q.tail == pos
      then (push_write value pos, record q { tail = add64 pos 1 })
      else (push_look value q.tail, q)
  advance fails (push_write value pos) q =
      (push_publish value pos, set_slot pos (record (slot_at q pos) { storage = some value }) q)
  advance fails (push_publish value pos) q =
      (pushed true, set_slot pos (record (slot_at q pos) { sequence = add64 pos 1 }) q)
  advance fails (pushed done) q = (pushed done, q)
  advance fails pop_start q = (pop_look q.head, q)
  advance fails (pop_look pos) q = (look_pop pos (slot_at q pos).sequence, q)
  advance true (pop_claim pos) q = (pop_look q.head, q)
  advance false (pop_claim pos) q =
      if q.head == pos
      then (pop_read pos, record q { head = add64 pos 1 })
      else (pop_look q.head, q)
  advance fails (pop_read pos) q = (
    pop_release pos (slot_at q pos).storage,
    set_slot pos (record (slot_at q pos) { storage = none }) q,
  )
  advance fails (pop_release pos result) q = (
    popped result,
    set_slot pos (record (slot_at q pos) { sequence = add64 (add64 pos q.mask) 1 }) q,
  )
  advance fails (popped result) q = (popped result, q)
