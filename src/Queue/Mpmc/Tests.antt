-- ===== src/Queue/Mpmc/Tests.antt =====
-- The theorems on the queue at a concrete run: a producer and a consumer on two slots.
use cascade.Base.{
  ℕ, ◌+◌, ◌^◌, ◌%◌, ◌≤◌, ◌<◌, ◌≡◌, ◌≢◌, refl, inl, inr, true, false, List, [], Option, arith, ltb,
  ltb→lt, length, get_elem?,
}
use cascade.Queue.Mpmc.{
  MpmcQueue, new_queue, round_up_pow2, first_slots, Thread, idle, push_start, pop_start,
  pop_release, look_push, look_pop, is_behind, slot_at, set_slot, advance,
}
use cascade.Queue.Spsc.{round_loop}
use cascade.Queue.Mpmc.Facts.{push_place, pop_place}
use cascade.Queue.Mpmc.Steps.{
  update, note_claim, IsResting, Reached, start, call_push, call_pop, step,
}
use cascade.Queue.Mpmc.Safety.{Claims, Reached-fifo, Reached-apart_slots}

-- A state with the way to it.
abbrev State : Type 0
State = (q : MpmcQueue ℕ) × (threads : ℕ → Thread ℕ) × (log : List ℕ) × Reached 2 q threads log

abbrev begun : State
begun = (new_queue 2, (λ i. idle), [], start)

abbrev next : (i : ℕ) (s : State) → ltb (s.0.tail + s.0.capacity) (2 ^ 64) ≡ true → State
next i s small = (
  (advance false (s.1 i) s.0).1,
  update s.1 i ((advance false (s.1 i) s.0).0),
  note_claim ((advance false (s.1 i) s.0).0) s.2,
  step i false s.3 (ltb→lt (s.0.tail + s.0.capacity) (2 ^ 64) small),
)

-- Thread 0 pushes 7.
abbrev first_pushed : State
unfolding IsResting new_queue round_up_pow2 round_loop first_slots advance update look_push look_pop
    is_behind slot_at set_slot note_claim
first_pushed =
    let called : State =
      (begun.0, update begun.1 0 (push_start 7), begun.2, call_push 0 7 begun.3 tt) in
    next 0 (next 0 (next 0 (next 0 (next 0 called refl) refl) refl) refl) refl

-- It claims a place for 8.
abbrev second_claimed : State
unfolding IsResting new_queue round_up_pow2 round_loop first_slots advance update look_push look_pop
    is_behind slot_at set_slot note_claim
second_claimed =
    let s = first_pushed in
    let called : State = (s.0, update s.1 0 (push_start 8), s.2, call_push 0 8 s.3 tt) in
    next 0 (next 0 (next 0 called refl) refl) refl

-- Thread 1 takes 7 out, and has the slot of 7 still to release.
abbrev taken : State
unfolding IsResting new_queue round_up_pow2 round_loop first_slots advance update look_push look_pop
    is_behind slot_at set_slot note_claim
taken =
    let s = second_claimed in
    let called : State = (s.0, update s.1 1 pop_start, s.2, call_pop 1 s.3 tt) in
    next 1 (next 1 (next 1 (next 1 called refl) refl) refl) refl

Reached-fifo_example :
    ((i n : ℕ) (result : Option ℕ)
      → taken.1 i ≡ pop_release n result
      → (n < taken.0.head) × (result ≡ get_elem? taken.2 n))
    × (taken.0.head ≤ length taken.2)
Reached-fifo_example = Reached-fifo 2 (omega arith) taken.0 taken.1 taken.2 taken.3

Reached-apart_slots_example : 1 % taken.0.capacity ≢ 0 % taken.0.capacity
unfolding IsResting new_queue round_up_pow2 round_loop first_slots advance update look_push look_pop
    is_behind slot_at set_slot note_claim Claims push_place pop_place
Reached-apart_slots_example =
    Reached-apart_slots 2 (omega arith) taken.0 taken.1 taken.2 taken.3 0 1 1 0
      (λ e. absurd (omega arith)) (inl refl) (inr refl)
