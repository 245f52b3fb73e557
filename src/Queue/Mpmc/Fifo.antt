-- ===== src/Queue/Mpmc/Fifo.antt =====
-- Every interleaving keeps the invariant, so the queue hands the values out in order, each once.
use cascade.Base.{
  ℕ, ◌+◌, ◌^◌, ◌≤◌, ◌<◌, ◌≡◌, refl, subst, sym, inl, inr, Bool, true, false, List, [], ◌∷◌, ◌++◌,
  none, arith, ◌==◌, Bool-cases,
}
use cascade.Base.Word.{add64}
use cascade.Queue.Mpmc.{
  MpmcQueue, slot_at, Thread, idle, push_start, push_look, push_claim, push_write, push_publish,
  pushed, pop_start, pop_look, pop_claim, pop_read, pop_release, popped, look_push, look_pop,
  is_behind, advance,
}
use cascade.Queue.Mpmc.Steps.{note_claim, update}
use cascade.Queue.Mpmc.Slots.{sequence_at}
use cascade.Queue.Mpmc.Facts.{push_place, pop_place, Fact}
use cascade.Queue.Mpmc.Sound.{Sound, Sound-quiet}
use cascade.Queue.Mpmc.Moves.{
  Sound-write, Sound-publish, Sound-read, Sound-release, Sound-claim_push, Sound-claim_pop,
}

module _ {A : Type 0} (q : MpmcQueue A) (threads : ℕ → Thread A) (log : List A) (i : ℕ)
    (h : Sound q threads log) where
  look_push-Sound :
      (v : A) (pos seq : ℕ)
      → pos ≤ q.tail
      → sequence_at q pos ≡ seq
      → Sound q (update threads i (look_push v pos seq)) (note_claim (look_push v pos seq) log)
  unfolding look_push Fact push_place pop_place note_claim
  look_push-Sound v pos seq l e = elim (Bool-cases (seq == pos)) [
    | inl same ↦
        let ready : sequence_at q pos ≡ pos = ground (arith, e, same) in
        rw same (Sound-quiet q threads log i (push_claim v pos) h (l, λ last. ready) refl refl)
    | inr differs ↦ elim (Bool-cases (is_behind seq pos)) [
      | inl full ↦ rw (differs, full) (Sound-quiet q threads log i (pushed false) h tt refl refl)
      | inr moved ↦ rw (differs, moved) (Sound-quiet q threads log i (push_start v) h tt refl refl)
    ]
  ]

  look_pop-Sound :
      (pos seq : ℕ)
      → q.tail + q.capacity < 2 ^ 64
      → pos ≤ q.head
      → sequence_at q pos ≡ seq
      → Sound q (update threads i (look_pop pos seq)) (note_claim (look_pop pos seq) log)
  unfolding look_pop Fact push_place pop_place note_claim
  look_pop-Sound pos seq small l e = elim (Bool-cases (seq == add64 pos 1)) [
    | inl same ↦
        let ready : sequence_at q pos ≡ pos + 1 =
          ground (arith, e, same, l, h.order, small, h.shape.two) in
        rw same (Sound-quiet q threads log i (pop_claim pos) h (l, λ last. ready) refl refl)
    | inr differs ↦ elim (Bool-cases (is_behind seq (add64 pos 1))) [
      | inl empty ↦ rw (differs, empty) (Sound-quiet q threads log i (popped none) h tt refl refl)
      | inr moved ↦ rw (differs, moved) (Sound-quiet q threads log i pop_start h tt refl refl)
    ]
  ]

  claim_push-Sound :
      (v : A) (pos : ℕ)
      → q.tail + q.capacity < 2 ^ 64
      → q.tail ≡ pos
      → threads i ≡ push_claim v pos
      → Sound
          (record q { tail = add64 pos 1 })
          (update threads i (push_write v pos))
          (log ++ v ∷ [])
  claim_push-Sound v pos small e at =
      subst
        (λ p.
          threads i ≡ push_claim v p
          → Sound (record q { tail = add64 p 1 }) (update threads i (push_write v p))
              (log ++ v ∷ []))
        e
        (λ now.
          let exact : add64 q.tail 1 ≡ q.tail + 1 = omega (arith, small, h.shape.two) in
          subst
            (λ n.
              Sound (record q { tail = n }) (update threads i (push_write v q.tail))
                (log ++ v ∷ []))
            (sym exact) (Sound-claim_push q threads log i h v now))
        at

  claim_pop-Sound :
      (pos : ℕ)
      → q.tail + q.capacity < 2 ^ 64
      → q.head ≡ pos
      → threads i ≡ pop_claim pos
      → Sound (record q { head = add64 pos 1 }) (update threads i (pop_read pos)) log
  claim_pop-Sound pos small e at =
      subst
        (λ p.
          threads i ≡ pop_claim p
          → Sound (record q { head = add64 p 1 }) (update threads i (pop_read p)) log)
        e
        (λ now.
          let exact : add64 q.head 1 ≡ q.head + 1 = omega (arith, small, h.order, h.shape.two) in
          subst (λ n. Sound (record q { head = n }) (update threads i (pop_read q.head)) log)
            (sym exact) (Sound-claim_pop q threads log i h now))
        at

  -- Any step of any thread keeps the invariant.
  pub advance-Sound :
      (fails : Bool) (t : Thread A)
      → q.tail + q.capacity < 2 ^ 64
      → threads i ≡ t
      → Sound
          ((advance fails t q).1)
          (update threads i ((advance fails t q).0))
          (note_claim ((advance fails t q).0) log)
  unfolding advance Fact push_place pop_place note_claim slot_at sequence_at
  advance-Sound fails idle small at = Sound-quiet q threads log i idle h tt refl refl
  advance-Sound fails (push_start v) small at =
      Sound-quiet q threads log i (push_look v q.tail) h (omega arith) refl refl
  advance-Sound fails (push_look v pos) small at =
      look_push-Sound v pos (slot_at q pos).sequence (subst (Fact q log) at (h.facts i)) refl
  advance-Sound true (push_claim v pos) small at =
      Sound-quiet q threads log i (push_look v q.tail) h (omega arith) refl refl
  advance-Sound false (push_claim v pos) small at = elim (Bool-cases (q.tail == pos)) [
    | inl same ↦ rw same (claim_push-Sound v pos small (ground (arith, same)) at)
    | inr moved ↦
        rw moved (Sound-quiet q threads log i (push_look v q.tail) h (omega arith) refl refl)
  ]
  advance-Sound fails (push_write v pos) small at = Sound-write q threads log i h v pos at
  advance-Sound fails (push_publish v pos) small at = Sound-publish q threads log i h v pos small at
  advance-Sound fails (pushed done) small at =
      Sound-quiet q threads log i (pushed done) h tt refl refl
  advance-Sound fails pop_start small at =
      Sound-quiet q threads log i (pop_look q.head) h (omega arith) refl refl
  advance-Sound fails (pop_look pos) small at =
      look_pop-Sound pos (slot_at q pos).sequence small (subst (Fact q log) at (h.facts i)) refl
  advance-Sound true (pop_claim pos) small at =
      Sound-quiet q threads log i (pop_look q.head) h (omega arith) refl refl
  advance-Sound false (pop_claim pos) small at = elim (Bool-cases (q.head == pos)) [
    | inl same ↦ rw same (claim_pop-Sound pos small (ground (arith, same)) at)
    | inr moved ↦ rw moved (Sound-quiet q threads log i (pop_look q.head) h (omega arith) refl refl)
  ]
  advance-Sound fails (pop_read pos) small at = Sound-read q threads log i h pos at
  advance-Sound fails (pop_release pos r) small at = Sound-release q threads log i h pos r small at
  advance-Sound fails (popped r) small at = Sound-quiet q threads log i (popped r) h tt refl refl
