-- ===== src/Queue/Mpmc/Moves.antt =====
-- The moves of a thread that change the queue keep the invariant.
use cascade.Base.{
  ℕ, ◌+◌, ◌^◌, ◌<◌, ◌≡◌, refl, ap, subst, sym, ◌∙◌, ◌≢◌, true, List, [], ◌∷◌, ◌++◌, Option, none,
  some, arith, length, length-append, get_elem?, get_elem?-append_left, get_elem?-append_right,
}
use cascade.Base.Word.{add64}
use cascade.Queue.Mpmc.{
  MpmcQueue, slot_at, set_slot, Thread, idle, push_start, push_look, push_claim, push_write,
  push_publish, pushed, pop_start, pop_look, pop_claim, pop_read, pop_release, popped,
}
use cascade.Queue.Mpmc.Steps.{update}
use cascade.Queue.Mpmc.Slots.{sequence_at, storage_at, next_apart, lap_apart, set_slot-same}
use cascade.Queue.Mpmc.Facts.{
  push_place, pop_place, Fact, Fact-store_free, Fact-store_full, Fact-claim_push, Fact-claim_pop,
}
use cascade.Queue.Mpmc.Sound.{Alone, Alone-update, update-all, Sound, Sound-store}

-- The value of a claim is the one behind all before it.
claimed_last : {A : Type 0} (log : List A) (v : A) → get_elem? (log ++ v ∷ []) (length log) ≡ some v
claimed_last log v =
    ap (get_elem? (log ++ v ∷ [])) (omega arith) ∙ get_elem?-append_right 0 log (v ∷ [])

pub some_same : (x y : ℕ) → some x ≡ some y → x ≡ y
some_same x y e = ap (λ o. elim o [ none ↦ x | some a ↦ a ]) e

-- A claimed place lies before the counter.
module _ {A : Type 0} (q : MpmcQueue A) (log : List A) where
  push_place_lt : (t : Thread A) (p : ℕ) → Fact q log t → push_place t ≡ some p → p < q.tail
  unfolding Fact push_place
  push_place_lt (push_write v x) p f e = omega (arith, f.0, some_same x p e)
  push_place_lt (push_publish v x) p f e = omega (arith, f.0, some_same x p e)
  push_place_lt idle p f e = absurd (cc (e))
  push_place_lt (push_start v) p f e = absurd (cc (e))
  push_place_lt (push_look v x) p f e = absurd (cc (e))
  push_place_lt (push_claim v x) p f e = absurd (cc (e))
  push_place_lt (pushed done) p f e = absurd (cc (e))
  push_place_lt pop_start p f e = absurd (cc (e))
  push_place_lt (pop_look x) p f e = absurd (cc (e))
  push_place_lt (pop_claim x) p f e = absurd (cc (e))
  push_place_lt (pop_read x) p f e = absurd (cc (e))
  push_place_lt (pop_release x r) p f e = absurd (cc (e))
  push_place_lt (popped r) p f e = absurd (cc (e))

  pop_place_lt : (t : Thread A) (p : ℕ) → Fact q log t → pop_place t ≡ some p → p < q.head
  unfolding Fact pop_place
  pop_place_lt (pop_read x) p f e = omega (arith, f.0, some_same x p e)
  pop_place_lt (pop_release x r) p f e = omega (arith, f.0, some_same x p e)
  pop_place_lt idle p f e = absurd (cc (e))
  pop_place_lt (push_start v) p f e = absurd (cc (e))
  pop_place_lt (push_look v x) p f e = absurd (cc (e))
  pop_place_lt (push_claim v x) p f e = absurd (cc (e))
  pop_place_lt (push_write v x) p f e = absurd (cc (e))
  pop_place_lt (push_publish v x) p f e = absurd (cc (e))
  pop_place_lt (pushed done) p f e = absurd (cc (e))
  pop_place_lt pop_start p f e = absurd (cc (e))
  pop_place_lt (pop_look x) p f e = absurd (cc (e))
  pop_place_lt (pop_claim x) p f e = absurd (cc (e))
  pop_place_lt (popped r) p f e = absurd (cc (e))

module _ {A : Type 0} (q : MpmcQueue A) (threads : ℕ → Thread A) (log : List A) (i : ℕ)
    (h : Sound q threads log) where
  alone_push :
      (p : ℕ) → push_place (threads i) ≡ some p → (j : ℕ) → i ≢ j → push_place (threads j) ≢ some p
  unfolding Alone
  alone_push p mine j ne = h.pushers i j p ne mine

  alone_pop :
      (p : ℕ) → pop_place (threads i) ≡ some p → (j : ℕ) → i ≢ j → pop_place (threads j) ≢ some p
  unfolding Alone
  alone_pop p mine j ne = h.poppers i j p ne mine

  pub Sound-write :
      (v : A) (p : ℕ)
      → threads i ≡ push_write v p
      → Sound
          (set_slot p (record (slot_at q p) { storage = some v }) q)
          (update threads i (push_publish v p))
          log
  unfolding Fact push_place pop_place sequence_at storage_at set_slot
  Sound-write v p at =
      let f = subst (Fact q log) at (h.facts i) in
      let mine : push_place (threads i) ≡ some p = ap push_place at in
      let s = record (slot_at q p) { storage = some v } in
      let same = set_slot-same q h.shape p p s refl in
      Sound-store q threads log i p s (push_publish v p) h
        (f.0, ap (λ r. r.sequence) same ∙ f.1, f.2, ap (λ r. r.storage) same)
        (λ j ne.
          Fact-store_free q h.shape log (threads j) (h.facts j) p s f.1 f.0
            (alone_push p mine j ne))
        (λ x e. mine ∙ e) (λ x e. absurd (cc (e)))
        (λ x shares e. absurd (next_apart q h.shape x p (sym f.1 ∙ e) shares))

  pub Sound-publish :
      (v : A) (p : ℕ)
      → q.tail + q.capacity < 2 ^ 64
      → threads i ≡ push_publish v p
      → Sound
          (set_slot p (record (slot_at q p) { sequence = add64 p 1 }) q)
          (update threads i (pushed true))
          log
  unfolding Fact push_place pop_place sequence_at storage_at set_slot
  Sound-publish v p small at =
      let f = subst (Fact q log) at (h.facts i) in
      let mine : push_place (threads i) ≡ some p = ap push_place at in
      let s = record (slot_at q p) { sequence = add64 p 1 } in
      Sound-store q threads log i p s (pushed true) h tt
        (λ j ne.
          Fact-store_free q h.shape log (threads j) (h.facts j) p s f.1 f.0
            (alone_push p mine j ne))
        (λ x e. absurd (cc (e))) (λ x e. absurd (cc (e)))
        (λ x shares e.
          let here : x ≡ p = omega (arith, e, f.0) in
          (omega (arith, f.0), λ later. f.3 ∙ sym f.2 ∙ ap (get_elem? log) (sym here)))

  pub Sound-read :
      (p : ℕ)
      → threads i ≡ pop_read p
      → Sound
          (set_slot p (record (slot_at q p) { storage = none }) q)
          (update threads i (pop_release p (slot_at q p).storage))
          log
  unfolding Fact push_place pop_place sequence_at storage_at set_slot
  Sound-read p at =
      let f = subst (Fact q log) at (h.facts i) in
      let mine : pop_place (threads i) ≡ some p = ap pop_place at in
      let s = record (slot_at q p) { storage = none } in
      let same = set_slot-same q h.shape p p s refl in
      Sound-store q threads log i p s (pop_release p (slot_at q p).storage) h
        (f.0, ap (λ r. r.sequence) same ∙ f.1, f.2)
        (λ j ne.
          Fact-store_full q h.shape log (threads j) (h.facts j) p s f.1 f.0 (alone_pop p mine j ne))
        (λ x e. absurd (cc (e))) (λ x e. mine ∙ e)
        (λ x shares e.
          let here : x ≡ p = omega (arith, e, f.1) in
          (omega (arith, f.0, h.order), λ later. absurd (omega (arith, f.0))))

  pub Sound-release :
      (p : ℕ) (r : Option A)
      → q.tail + q.capacity < 2 ^ 64
      → threads i ≡ pop_release p r
      → Sound
          (set_slot p (record (slot_at q p) { sequence = add64 (add64 p q.mask) 1 }) q)
          (update threads i (popped r))
          log
  unfolding Fact push_place pop_place sequence_at storage_at set_slot
  Sound-release p r small at =
      let f = subst (Fact q log) at (h.facts i) in
      let mine : pop_place (threads i) ≡ some p = ap pop_place at in
      let s = record (slot_at q p) { sequence = add64 (add64 p q.mask) 1 } in
      let lap : add64 (add64 p q.mask) 1 ≡ p + q.capacity =
        omega (arith, f.0, h.order, h.shape.masked, h.shape.two) in
      Sound-store q threads log i p s (popped r) h tt
        (λ j ne.
          Fact-store_full q h.shape log (threads j) (h.facts j) p s f.1 f.0 (alone_pop p mine j ne))
        (λ x e. absurd (cc (e))) (λ x e. absurd (cc (e)))
        (λ x shares e. absurd (lap_apart q h.shape x p (sym e ∙ lap) (sym shares)))

  pub Sound-claim_push :
      (v : A)
      → threads i ≡ push_claim v q.tail
      → Sound
          (record q { tail = q.tail + 1 })
          (update threads i (push_write v q.tail))
          (log ++ v ∷ [])
  unfolding Fact push_place pop_place sequence_at storage_at slot_at Alone
  Sound-claim_push v at =
      let f = subst (Fact q log) at (h.facts i) in
      let grown = record q { tail = q.tail + 1 } in
      let last : get_elem? (log ++ v ∷ []) q.tail ≡ some v =
        ap (get_elem? (log ++ v ∷ [])) (sym h.logged) ∙ claimed_last log v in
      record {
        shape = record {
          bits = h.shape.bits;
          power = h.shape.power;
          masked = h.shape.masked;
          sized = h.shape.sized;
          two = h.shape.two;
        };
        logged = omega (arith, length-append log (v ∷ []), h.logged);
        order = omega (arith, h.order);
        published = λ p e. omega (arith, h.published p e);
        kept = λ p later e.
            h.kept p later e
            ∙ sym (get_elem?-append_left p log (v ∷ []) (omega (arith, h.published p e, h.logged)));
        facts =
            update-all (Fact grown (log ++ v ∷ [])) threads i (push_write v q.tail)
              (omega arith, f.1 refl, last)
              (λ j ne. Fact-claim_push q log v (threads j) h.logged h.order (h.facts j));
        pushers = Alone-update push_place threads i (push_write v q.tail) h.pushers (λ k p ne e e'.
            absurd (
              omega
                (arith, push_place_lt q log (threads k) p (h.facts k) e', some_same q.tail p e)));
        poppers =
            Alone-update pop_place threads i (push_write v q.tail) h.poppers
              (λ k p ne e. absurd (cc (e)));
      }

  pub Sound-claim_pop :
      threads i ≡ pop_claim q.head
      → Sound (record q { head = q.head + 1 }) (update threads i (pop_read q.head)) log
  unfolding Fact push_place pop_place sequence_at storage_at slot_at Alone
  Sound-claim_pop at =
      let f = subst (Fact q log) at (h.facts i) in
      let full = f.1 refl in
      let moved = record q { head = q.head + 1 } in
      record {
        shape = record {
          bits = h.shape.bits;
          power = h.shape.power;
          masked = h.shape.masked;
          sized = h.shape.sized;
          two = h.shape.two;
        };
        logged = h.logged;
        order = omega (arith, h.published q.head full);
        published = h.published;
        kept = λ p later e. h.kept p (omega arith) e;
        facts =
            update-all (Fact moved log) threads i (pop_read q.head)
              (omega arith, full, h.kept q.head (omega arith) full)
              (λ j ne. Fact-claim_pop q log (threads j) (h.facts j));
        pushers =
            Alone-update push_place threads i (pop_read q.head) h.pushers
              (λ k p ne e. absurd (cc (e)));
        poppers = Alone-update pop_place threads i (pop_read q.head) h.poppers (λ k p ne e e'.
            absurd (
              omega
                (arith, pop_place_lt q log (threads k) p (h.facts k) e', some_same q.head p e)));
      }
