-- ===== src/Queue/Mpmc/Steps.antt =====
-- Threads on one queue, interleaved in any order.
use cascade.Base.{ℕ, ◌+◌, ◌^◌, ◌<◌, Bool, List, [], ◌∷◌, ◌++◌, ◌==◌, if◌then◌else◌}
use cascade.Queue.Mpmc.{
  MpmcQueue, new_queue, Thread, idle, push_start, push_write, pushed, pop_start, popped, advance,
}

module _ {A : Type 0} where
  -- The values of the claims by producers, in their order.
  unfoldable pub note_claim : Thread A → List A → List A
  note_claim (push_write value pos) log = log ++ value ∷ []
  note_claim other log = log

  -- A thread that is in no call.
  unfoldable pub IsResting : Thread A → Type 0
  IsResting idle = Unit
  IsResting (pushed done) = Unit
  IsResting (popped result) = Unit
  IsResting other = ⊥

  unfoldable pub update : (ℕ → Thread A) → ℕ → Thread A → ℕ → Thread A
  update threads i t j = if i == j then t else threads j

  -- The queue, the threads, and the values that producers have claimed a place for, in the order of
  -- their claims. A thread starts a call when it has none; counters do not reach 2 ^ 64.
  pub data Reached (capacity : ℕ) : MpmcQueue A → (ℕ → Thread A) → List A → Type 0 where
    start : Reached capacity (new_queue capacity) (λ i. idle) []
    call_push :
        (i : ℕ) (value : A) {q : MpmcQueue A} {threads : ℕ → Thread A} {log : List A}
        → Reached capacity q threads log
        → IsResting (threads i)
        → Reached capacity q (update threads i (push_start value)) log
    call_pop :
        (i : ℕ) {q : MpmcQueue A} {threads : ℕ → Thread A} {log : List A}
        → Reached capacity q threads log
        → IsResting (threads i)
        → Reached capacity q (update threads i pop_start) log
    step :
        (i : ℕ) (fails : Bool) {q : MpmcQueue A} {threads : ℕ → Thread A} {log : List A}
        → Reached capacity q threads log
        → q.tail + q.capacity < 2 ^ 64
        → Reached capacity
            ((advance fails (threads i) q).1)
            (update threads i ((advance fails (threads i) q).0))
            (note_claim ((advance fails (threads i) q).0) log)
