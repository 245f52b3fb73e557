-- ===== src/Queue/Mpmc/Safety.antt =====
-- What holds in every state that threads on one queue can reach.
use cascade.Base.{
  ℕ, zero, suc, ◌+◌, ◌-◌, ◌*◌, ◌%◌, ◌^◌, ◌≤◌, ◌<◌, ◌≡◌, refl, ap, subst, sym, ◌∙◌, ◌≢◌, ◌⊎◌, inl,
  inr, List, [], Option, none, some, arith, length, get_elem?, get_or, ltb, lt→ltb, ==_ne,
  Bool-cases,
}
use cascade.Base.Bits.{bit_and-ones}
use cascade.Queue.Spsc.{round_loop}
use cascade.Queue.Mpmc.{
  MpmcQueue, new_queue, first_slots, blank_slot, round_up_pow2, slot_at, Thread, idle, push_start,
  push_look, push_claim, push_write, push_publish, pushed, pop_start, pop_look, pop_claim, pop_read,
  pop_release, popped,
}
use cascade.Queue.Mpmc.Steps.{Reached, start, call_push, call_pop, step}
use cascade.Queue.Mpmc.Slots.{Shape, sequence_at, shared, next_apart}
use cascade.Queue.Mpmc.Facts.{push_place, pop_place, Fact}
use cascade.Queue.Mpmc.Sound.{Alone, Sound, Sound-quiet}
use cascade.Queue.Mpmc.Moves.{some_same}
use cascade.Queue.Mpmc.Fifo.{advance-Sound}
use native.Mathlib.Nat.{mod-lt, mod-le, pow-suc, one-le-pow}
use Prim.Native.Nat.{bit_and}

-- A doubling of a power of two is one.
round_loop-power : (fuel k v : ℕ) → (bits : ℕ) × (k ≤ bits) × (round_loop fuel (2 ^ k) v ≡ 2 ^ bits)
unfolding round_loop
round_loop-power zero k v = (k, omega arith, refl)
round_loop-power (suc fuel) k v =
    let (bits, more, e) = round_loop-power fuel (suc k) v in
    elim (Bool-cases (ltb (2 ^ k) v)) [
      | inl again ↦
          let twice : 2 * 2 ^ k ≡ 2 ^ suc k = omega (arith, pow-suc 2 k) in
          (bits, omega arith, rw (again, twice) e)
      | inr last ↦ (k, omega arith, rw last refl)
    ]

round_loop-again : (fuel p v : ℕ) → p < v → round_loop (suc fuel) p v ≡ round_loop fuel (2 * p) v
unfolding round_loop
round_loop-again fuel p v l = rw (lt→ltb p v l) refl

pow_two_le : (k : ℕ) → 1 ≤ k → 2 ≤ 2 ^ k
pow_two_le zero l = absurd (omega arith)
pow_two_le (suc k) l = omega (arith, pow-suc 2 k, one-le-pow k 2)

-- A capacity of two or more is rounded to a power of two that is no 1.
round_up_pow2-power : (v : ℕ) → 2 ≤ v → (bits : ℕ) × (2 ≤ 2 ^ bits) × (round_up_pow2 v ≡ 2 ^ bits)
unfolding round_up_pow2
round_up_pow2-power v two =
    let (bits, more, e) = round_loop-power 63 1 v in
    let whole : round_loop 64 1 v ≡ 2 ^ bits = round_loop-again 63 1 v (omega arith) ∙ e in
    let large = pow_two_le bits more in
    (bits, large, rw (whole, ==_ne (2 ^ bits) 0 (omega (arith, large))) refl)

module _ (A : Type 0) where
  length-first_slots : (n i : ℕ) → length (first_slots {A = A} n i) ≡ n
  unfolding first_slots
  length-first_slots zero i = refl
  length-first_slots (suc n) i = ap suc (length-first_slots n (i + 1))

  first_slots_at :
      (n i k : ℕ)
      → k < n
      → get_or (first_slots {A = A} n i) k blank_slot ≡ record { sequence = i + k; storage = none }
  unfolding first_slots
  first_slots_at zero i k l = absurd (omega arith)
  first_slots_at (suc n) i zero l =
      ap (λ (s : ℕ). record { sequence = s; storage = none }) (omega arith)
  first_slots_at (suc n) i (suc k) l =
      first_slots_at n (i + 1) k (omega arith)
      ∙ ap (λ (s : ℕ). record { sequence = s; storage = none }) (omega arith)

  new_queue-Shape : (capacity : ℕ) → 2 ≤ capacity → Shape (new_queue {A = A} capacity)
  unfolding new_queue
  new_queue-Shape capacity two =
      let (bits, large, e) = round_up_pow2-power capacity two in
      record {
        bits = bits;
        power = e;
        masked = refl;
        sized = length-first_slots (round_up_pow2 capacity) 0;
        two = omega (arith, large, e);
      }

  -- The slot of a position starts with the position's remainder, and empty.
  new_queue-slot :
      (capacity p : ℕ)
      → 2 ≤ capacity
      → sequence_at (new_queue {A = A} capacity) p ≡ p % round_up_pow2 capacity
  unfolding new_queue sequence_at slot_at
  new_queue-slot capacity p two =
      let n = round_up_pow2 capacity in
      let (bits, large, e) = round_up_pow2-power capacity two in
      let low : bit_and p (n - 1) ≡ p % n = rw e (bit_and-ones bits p) in
      ap (λ k. (get_or (first_slots {A = A} n 0) k blank_slot).sequence) low
      ∙ ap (λ r. r.sequence)
          (first_slots_at n 0 (p % n) (mod-lt p {m = n} (omega (arith, large, e))))
      ∙ omega arith

  counters :
      (capacity : ℕ)
      → (0 ≡ (new_queue {A = A} capacity).tail)
        × ((new_queue {A = A} capacity).head ≤ (new_queue {A = A} capacity).tail)
  unfolding new_queue
  counters capacity = (refl, omega arith)

  new_queue-Sound :
      (capacity : ℕ) → 2 ≤ capacity → Sound (new_queue {A = A} capacity) (λ i. idle) []
  unfolding Fact Alone push_place pop_place
  new_queue-Sound capacity two =
      let n = round_up_pow2 capacity in
      let unfilled : (p : ℕ) → sequence_at (new_queue {A = A} capacity) p ≡ p + 1 → ⊥ =
        λ p e. omega (arith, e, new_queue-slot capacity p two, mod-le p n) in
      record {
        shape = new_queue-Shape capacity two;
        logged = (counters capacity).0;
        order = (counters capacity).1;
        published = λ p e. absurd (unfilled p e);
        kept = λ p later e. absurd (unfilled p e);
        facts = λ i. tt;
        pushers = λ j k p ne e. absurd (cc (e));
        poppers = λ j k p ne e. absurd (cc (e));
      }

no_claim : (p : ℕ) → (none ≡ some p) ⊎ (none ≡ some p) → ⊥
no_claim p (inl e) = absurd (cc (e))
no_claim p (inr e) = absurd (cc (e))

module _ {A : Type 0} where
  Reached-Sound :
      (capacity : ℕ)
      → 2 ≤ capacity
      → (q : MpmcQueue A) (threads : ℕ → Thread A) (log : List A) → Reached capacity q threads log
      → Sound q threads log
  unfolding Fact push_place pop_place
  Reached-Sound capacity two _ _ _ start = new_queue-Sound A capacity two
  Reached-Sound capacity two _ _ _ (call_push i value {q} {threads} {log} before resting) =
      Sound-quiet q threads log i (push_start value)
        (Reached-Sound capacity two q threads log before) tt refl refl
  Reached-Sound capacity two _ _ _ (call_pop i {q} {threads} {log} before resting) =
      Sound-quiet q threads log i pop_start (Reached-Sound capacity two q threads log before) tt
        refl refl
  Reached-Sound capacity two _ _ _ (step i fails {q} {threads} {log} before small) =
      advance-Sound q threads log i (Reached-Sound capacity two q threads log before) fails
        (threads i) small refl

  -- The thread is between its claim of the position and its store of the slot's sequence.
  unfoldable pub Claims : Thread A → ℕ → Type 0
  Claims t p = (push_place t ≡ some p) ⊎ (pop_place t ≡ some p)

  -- A place that is claimed by a producer has a free slot, one that is claimed by a consumer a
  -- filled one.
  claimed_sequence :
      (q : MpmcQueue A) (log : List A) (t : Thread A) (p : ℕ)
      → Fact q log t
      → Claims t p
      → ((push_place t ≡ some p) × (sequence_at q p ≡ p))
        ⊎ ((pop_place t ≡ some p) × (sequence_at q p ≡ p + 1))
  unfolding Fact Claims push_place pop_place
  claimed_sequence q log (push_write v x) p f (inl e) =
      inl (e, subst (λ n. sequence_at q n ≡ n) (some_same x p e) f.1)
  claimed_sequence q log (push_publish v x) p f (inl e) =
      inl (e, subst (λ n. sequence_at q n ≡ n) (some_same x p e) f.1)
  claimed_sequence q log (pop_read x) p f (inr e) =
      inr (e, subst (λ n. sequence_at q n ≡ n + 1) (some_same x p e) f.1)
  claimed_sequence q log (pop_release x r) p f (inr e) =
      inr (e, subst (λ n. sequence_at q n ≡ n + 1) (some_same x p e) f.1)
  claimed_sequence q log (push_write v x) p f (inr e) = absurd (cc (e))
  claimed_sequence q log (push_publish v x) p f (inr e) = absurd (cc (e))
  claimed_sequence q log (pop_read x) p f (inl e) = absurd (cc (e))
  claimed_sequence q log (pop_release x r) p f (inl e) = absurd (cc (e))
  claimed_sequence q log idle p f c = absurd (no_claim p c)
  claimed_sequence q log (push_start v) p f c = absurd (no_claim p c)
  claimed_sequence q log (push_look v x) p f c = absurd (no_claim p c)
  claimed_sequence q log (push_claim v x) p f c = absurd (no_claim p c)
  claimed_sequence q log (pushed done) p f c = absurd (no_claim p c)
  claimed_sequence q log pop_start p f c = absurd (no_claim p c)
  claimed_sequence q log (pop_look x) p f c = absurd (no_claim p c)
  claimed_sequence q log (pop_claim x) p f c = absurd (no_claim p c)
  claimed_sequence q log (popped r) p f c = absurd (no_claim p c)

  -- In every state that threads reach on a queue that was made with a capacity of two or more, by
  -- steps in any order and while the counters are below 2 ^ 64 less the capacity, two threads that
  -- have claimed a place and not yet released its slot never share a slot.
  pub Reached-apart_slots :
      (capacity : ℕ)
      → 2 ≤ capacity
      → (q : MpmcQueue A) (threads : ℕ → Thread A) (log : List A) → Reached capacity q threads log
      → (i j x y : ℕ) → i ≢ j
      → Claims (threads i) x
      → Claims (threads j) y
      → x % q.capacity ≢ y % q.capacity
  unfolding Alone sequence_at
  Reached-apart_slots capacity two q threads log reached i j x y ne c d e =
      let h = Reached-Sound capacity two q threads log reached in
      let one_slot : sequence_at q x ≡ sequence_at q y =
        ap (λ s. s.sequence) (shared q h.shape x y e) in
      elim (claimed_sequence q log (threads i) x (h.facts i) c) [
        | inl (mine, free) ↦ elim (claimed_sequence q log (threads j) y (h.facts j) d) [
          | inl (yours, free_too) ↦
              h.pushers i j x ne mine (yours ∙ ap some (omega (arith, one_slot)))
          | inr (yours, full) ↦ next_apart q h.shape y x (omega (arith, one_slot)) (sym e)
        ]
        | inr (mine, full) ↦ elim (claimed_sequence q log (threads j) y (h.facts j) d) [
          | inl (yours, free) ↦ next_apart q h.shape x y (omega (arith, one_slot)) e
          | inr (yours, full_too) ↦
              h.poppers i j x ne mine (yours ∙ ap some (omega (arith, one_slot)))
        ]
      ]

  -- In every state that threads reach on a queue that was made with a capacity of two or more, by
  -- steps in any order and while the counters are below 2 ^ 64 less the capacity, a consumer that
  -- has claimed the n-th place takes out the value of the n-th claim by a producer; no more places
  -- are claimed by consumers than by producers.
  pub Reached-fifo :
      (capacity : ℕ)
      → 2 ≤ capacity
      → (q : MpmcQueue A) (threads : ℕ → Thread A) (log : List A) → Reached capacity q threads log
      → ((i n : ℕ) (result : Option A)
          → threads i ≡ pop_release n result
          → (n < q.head) × (result ≡ get_elem? log n))
        × (q.head ≤ length log)
  unfolding Fact
  Reached-fifo capacity two q threads log reached =
      let h = Reached-Sound capacity two q threads log reached in
      (
        λ i n result at. let f = subst (Fact q log) at (h.facts i) in (f.0, f.2),
        omega (arith, h.order, h.logged),
      )
