-- ===== src/Queue/Mpmc/Facts.antt =====
-- What a thread may rely on where it stands, and why the steps of the others leave that alone.
use cascade.Base.{
  ℕ, ◌+◌, ◌%◌, ◌≤◌, ◌<◌, ◌≡◌, refl, ap, sym, ◌∙◌, ◌≢◌, ◌⊎◌, inl, inr, List, [], ◌∷◌, ◌++◌, Option,
  none, some, arith, length, get_elem?, get_elem?-append_left,
}
use cascade.Queue.Mpmc.{
  Slot, MpmcQueue, slot_at, set_slot, Thread, idle, push_start, push_look, push_claim, push_write,
  push_publish, pushed, pop_start, pop_look, pop_claim, pop_read, pop_release, popped,
}
use cascade.Queue.Mpmc.Slots.{Shape, sequence_at, storage_at, shared, next_apart, set_slot-other}

module _ {A : Type 0} where
  -- The position that a thread has claimed as a producer, and as a consumer.
  unfoldable pub push_place : Thread A → Option ℕ
  push_place (push_write value pos) = some pos
  push_place (push_publish value pos) = some pos
  push_place other = none

  unfoldable pub pop_place : Thread A → Option ℕ
  pop_place (pop_read pos) = some pos
  pop_place (pop_release pos result) = some pos
  pop_place other = none

  -- `log` has the values of the producers' claims, in order.
  unfoldable pub Fact : MpmcQueue A → List A → Thread A → Type 0
  Fact q log (push_look value pos) = pos ≤ q.tail
  Fact q log (push_claim value pos) = (pos ≤ q.tail) × (pos ≡ q.tail → sequence_at q pos ≡ pos)
  Fact q log (push_write value pos) =
      (pos < q.tail) × (sequence_at q pos ≡ pos) × (get_elem? log pos ≡ some value)
  Fact q log (push_publish value pos) =
      (pos < q.tail)
      × (sequence_at q pos ≡ pos)
      × (get_elem? log pos ≡ some value)
      × (storage_at q pos ≡ some value)
  Fact q log (pop_look pos) = pos ≤ q.head
  Fact q log (pop_claim pos) = (pos ≤ q.head) × (pos ≡ q.head → sequence_at q pos ≡ pos + 1)
  Fact q log (pop_read pos) =
      (pos < q.head) × (sequence_at q pos ≡ pos + 1) × (storage_at q pos ≡ get_elem? log pos)
  Fact q log (pop_release pos result) =
      (pos < q.head) × (sequence_at q pos ≡ pos + 1) × (result ≡ get_elem? log pos)
  Fact q log other = Unit

  -- The positions whose slots a fact is about.
  Relies : MpmcQueue A → Thread A → ℕ → Type 0
  Relies q (push_claim value pos) x = (x ≡ pos) × (pos ≡ q.tail)
  Relies q (push_write value pos) x = x ≡ pos
  Relies q (push_publish value pos) x = x ≡ pos
  Relies q (pop_claim pos) x = (x ≡ pos) × (pos ≡ q.head)
  Relies q (pop_read pos) x = x ≡ pos
  Relies q (pop_release pos result) x = x ≡ pos
  Relies q other x = ⊥

  -- A store to a slot that a fact is not about leaves the fact as it is.
  Fact-set_slot :
      (q : MpmcQueue A) (h : Shape q) (log : List A) (p : ℕ) (s : Slot A) (t : Thread A)
      → ((x : ℕ) → Relies q t x → x % q.capacity ≢ p % q.capacity)
      → Fact q log t
      → Fact (set_slot p s q) log t
  unfolding Fact Relies sequence_at storage_at set_slot
  Fact-set_slot q h log p s idle apart f = tt
  Fact-set_slot q h log p s (push_start value) apart f = tt
  Fact-set_slot q h log p s (push_look value pos) apart f = f
  Fact-set_slot q h log p s (push_claim value pos) apart f =
      (f.0, λ e. ap (λ r. r.sequence) (set_slot-other q h p pos s (apart pos (refl, e))) ∙ f.1 e)
  Fact-set_slot q h log p s (push_write value pos) apart f =
      let same = set_slot-other q h p pos s (apart pos refl) in
      (f.0, ap (λ r. r.sequence) same ∙ f.1, f.2)
  Fact-set_slot q h log p s (push_publish value pos) apart f =
      let same = set_slot-other q h p pos s (apart pos refl) in
      (f.0, ap (λ r. r.sequence) same ∙ f.1, f.2, ap (λ r. r.storage) same ∙ f.3)
  Fact-set_slot q h log p s (pushed done) apart f = tt
  Fact-set_slot q h log p s pop_start apart f = tt
  Fact-set_slot q h log p s (pop_look pos) apart f = f
  Fact-set_slot q h log p s (pop_claim pos) apart f =
      (f.0, λ e. ap (λ r. r.sequence) (set_slot-other q h p pos s (apart pos (refl, e))) ∙ f.1 e)
  Fact-set_slot q h log p s (pop_read pos) apart f =
      let same = set_slot-other q h p pos s (apart pos refl) in
      (f.0, ap (λ r. r.sequence) same ∙ f.1, ap (λ r. r.storage) same ∙ f.2)
  Fact-set_slot q h log p s (pop_release pos result) apart f =
      let same = set_slot-other q h p pos s (apart pos refl) in
      (f.0, ap (λ r. r.sequence) same ∙ f.1, f.2)
  Fact-set_slot q h log p s (popped result) apart f = tt

  -- The slot of a position that a fact is about is a free one that the thread has claimed or is
  -- next to be claimed, or a filled one.
  relied :
      (q : MpmcQueue A) (log : List A) (t : Thread A) (x : ℕ)
      → Fact q log t
      → Relies q t x
      → ((sequence_at q x ≡ x) × ((push_place t ≡ some x) ⊎ (x ≡ q.tail)))
        ⊎ ((sequence_at q x ≡ x + 1) × ((pop_place t ≡ some x) ⊎ (x ≡ q.head)))
  unfolding Fact Relies push_place pop_place
  relied q log idle x f e = absurd e
  relied q log (push_start value) x f e = absurd e
  relied q log (push_look value pos) x f e = absurd e
  relied q log (pushed done) x f e = absurd e
  relied q log pop_start x f e = absurd e
  relied q log (pop_look pos) x f e = absurd e
  relied q log (popped result) x f e = absurd e
  relied q log (push_claim value pos) x f (e, last) = rw e (inl (f.1 last, inr last))
  relied q log (push_write value pos) x f e = rw e (inl (f.1, inl refl))
  relied q log (push_publish value pos) x f e = rw e (inl (f.1, inl refl))
  relied q log (pop_claim pos) x f (e, last) = rw e (inr (f.1 last, inr last))
  relied q log (pop_read pos) x f e = rw e (inr (f.1, inl refl))
  relied q log (pop_release pos result) x f e = rw e (inr (f.1, inl refl))

  module _ (q : MpmcQueue A) (h : Shape q) (log : List A) (t : Thread A) (f : Fact q log t)
      (p : ℕ) where
    same_sequence : (x : ℕ) → x % q.capacity ≡ p % q.capacity → sequence_at q x ≡ sequence_at q p
    unfolding sequence_at
    same_sequence x e = ap (λ s. s.sequence) (shared q h x p e)

    -- No other thread relies on the slot that a producer has claimed.
    free_apart :
        sequence_at q p ≡ p
        → p < q.tail
        → push_place t ≢ some p
        → (x : ℕ) → Relies q t x
        → x % q.capacity ≢ p % q.capacity
    free_apart free claimed alone x r e =
        let both = same_sequence x e in
        elim (relied q log t x f r) [
          | inl (seq, who) ↦
              let here : x ≡ p = omega arith in
              elim who [
                | inl holds ↦ alone (holds ∙ ap some here)
                | inr last ↦ absurd (omega arith)
              ]
          | inr (seq, who) ↦ next_apart q h x p (omega arith) e
        ]

    -- No other thread relies on the slot that a consumer has claimed.
    full_apart :
        sequence_at q p ≡ p + 1
        → p < q.head
        → pop_place t ≢ some p
        → (x : ℕ) → Relies q t x
        → x % q.capacity ≢ p % q.capacity
    full_apart full claimed alone x r e =
        let both = same_sequence x e in
        elim (relied q log t x f r) [
          | inl (seq, who) ↦ next_apart q h p x (omega arith) (sym e)
          | inr (seq, who) ↦
              let here : x ≡ p = omega arith in
              elim who [
                | inl holds ↦ alone (holds ∙ ap some here)
                | inr last ↦ absurd (omega arith)
              ]
        ]

    -- A store by the producer that has claimed the slot, and by the consumer, leaves the facts of the
    -- others as they are.
    pub Fact-store_free :
        (s : Slot A)
        → sequence_at q p ≡ p
        → p < q.tail
        → push_place t ≢ some p
        → Fact (set_slot p s q) log t
    Fact-store_free s free claimed alone =
        Fact-set_slot q h log p s t (free_apart free claimed alone) f

    pub Fact-store_full :
        (s : Slot A)
        → sequence_at q p ≡ p + 1
        → p < q.head
        → pop_place t ≢ some p
        → Fact (set_slot p s q) log t
    Fact-store_full s full claimed alone =
        Fact-set_slot q h log p s t (full_apart full claimed alone) f

  -- A claim by a producer, which appends its value, leaves the facts of all threads as they are.
  pub Fact-claim_push :
      (q : MpmcQueue A) (log : List A) (v : A) (t : Thread A)
      → length log ≡ q.tail
      → q.head ≤ q.tail
      → Fact q log t
      → Fact (record q { tail = q.tail + 1 }) (log ++ v ∷ []) t
  unfolding Fact sequence_at storage_at slot_at
  Fact-claim_push q log v idle size order f = tt
  Fact-claim_push q log v (push_start value) size order f = tt
  Fact-claim_push q log v (push_look value pos) size order f = omega arith
  Fact-claim_push q log v (push_claim value pos) size order f =
      (omega (arith, f.0), λ e. absurd (omega (arith, f.0, e)))
  Fact-claim_push q log v (push_write value pos) size order f =
      (omega (arith, f.0), f.1, get_elem?-append_left pos log (v ∷ []) (omega (arith, f.0)) ∙ f.2)
  Fact-claim_push q log v (push_publish value pos) size order f = (
    omega (arith, f.0),
    f.1,
    get_elem?-append_left pos log (v ∷ []) (omega (arith, f.0)) ∙ f.2,
    f.3,
  )
  Fact-claim_push q log v (pushed done) size order f = tt
  Fact-claim_push q log v pop_start size order f = tt
  Fact-claim_push q log v (pop_look pos) size order f = f
  Fact-claim_push q log v (pop_claim pos) size order f = f
  Fact-claim_push q log v (pop_read pos) size order f =
      (f.0, f.1, f.2 ∙ sym (get_elem?-append_left pos log (v ∷ []) (omega (arith, f.0))))
  Fact-claim_push q log v (pop_release pos result) size order f =
      (f.0, f.1, f.2 ∙ sym (get_elem?-append_left pos log (v ∷ []) (omega (arith, f.0))))
  Fact-claim_push q log v (popped result) size order f = tt

  -- So does a claim by a consumer.
  pub Fact-claim_pop :
      (q : MpmcQueue A) (log : List A) (t : Thread A)
      → Fact q log t
      → Fact (record q { head = q.head + 1 }) log t
  unfolding Fact sequence_at storage_at slot_at
  Fact-claim_pop q log idle f = tt
  Fact-claim_pop q log (push_start value) f = tt
  Fact-claim_pop q log (push_look value pos) f = f
  Fact-claim_pop q log (push_claim value pos) f = f
  Fact-claim_pop q log (push_write value pos) f = f
  Fact-claim_pop q log (push_publish value pos) f = f
  Fact-claim_pop q log (pushed done) f = tt
  Fact-claim_pop q log pop_start f = tt
  Fact-claim_pop q log (pop_look pos) f = omega (arith, f)
  Fact-claim_pop q log (pop_claim pos) f = (omega (arith, f.0), λ e. absurd (omega (arith, f.0, e)))
  Fact-claim_pop q log (pop_read pos) f = (omega (arith, f.0), f.1, f.2)
  Fact-claim_pop q log (pop_release pos result) f = (omega (arith, f.0), f.1, f.2)
  Fact-claim_pop q log (popped result) f = tt
