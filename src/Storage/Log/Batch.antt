-- ===== src/Storage/Log/Batch.antt =====
-- `append_batch` on a log that holds a list of payloads.
use cascade.Base.{
  ℕ, ◌+◌, ◌^◌, ◌≤◌, ◌<◌, ◌≡◌, refl, ap, sym, subst, Bool, true, false, List, [], ◌∷◌, ◌++◌,
  append_assoc, append-nil, arith, length, length-append, some, if◌then◌else◌,
}
use cascade.Base.Word.{add64}
use cascade.Storage.Segment.Layout.{ArePayloads}
use cascade.Storage.Log.{
  Log, append_rolling, append_retry, roll_new_segment, append_each, append_batch, cannot_fit,
  publish_offset, flush, append,
}
use cascade.Storage.Log.Chain.{IsChained, HoldsLog}
use cascade.Storage.Log.AppendRead.{append_rolling_lem}

append_rolling_max :
    (p : List ℕ) (l : Log) → (append_rolling p l).1.max_segment_bytes ≡ l.max_segment_bytes
unfolding append_rolling append_retry roll_new_segment
append_rolling_max p l = ground arith

-- Every payload fits in a segment of `max` bytes.
abbrev pub AllFit : ℕ → List (List ℕ) → Type 0
AllFit max [] = Unit
AllFit max (p ∷ qs) = (16 + length p ≤ max) × AllFit max qs

append_each_flushes :
    (qs : List (List ℕ)) (l : Log) → (append_each qs l).1.flush_calls ≡ l.flush_calls
unfolding append_each append_rolling append_retry roll_new_segment
append_each_flushes [] l = refl
append_each_flushes (p ∷ qs) l = ground (arith, append_each_flushes qs (append_rolling p l).1)

append_each_lem :
    (base : ℕ) (l : Log) (ps qs : List (List ℕ))
    → IsChained base l ps
    → ArePayloads qs
    → AllFit l.max_segment_bytes qs
    → base + length ps + length qs < 2 ^ 64
    → ((append_each qs l).0 ≡ true) × IsChained base (append_each qs l).1 (ps ++ qs)
unfolding append_each
append_each_lem base l ps [] c ok fits offsets =
    (refl, subst (IsChained base l) (sym (append-nil ps)) c)
append_each_lem base l ps (p ∷ qs) c ok fits offsets =
    let (e, c') = append_rolling_lem base l ps p c ok.0 fits.0 (omega arith) in
    let more = length-append {0} ps (p ∷ []) in
    let fits' = subst (λ m. AllFit m qs) (sym (append_rolling_max p l)) fits.1 in
    let again =
      append_each_lem base (append_rolling p l).1 (ps ++ p ∷ []) qs c' ok.1 fits' (omega arith) in
    rw (e, append_each)
      (
        again.0,
        subst (IsChained base (append_each qs (append_rolling p l).1).1)
            (append_assoc ps (p ∷ []) qs) again.1,
      )

cannot_fit-AllFit :
    (max : ℕ) (qs : List (List ℕ)) → ArePayloads qs → AllFit max qs → cannot_fit max qs ≡ false
unfolding cannot_fit
cannot_fit-AllFit max [] ok fits = refl
cannot_fit-AllFit max (p ∷ qs) ok fits = ground (arith, cannot_fit-AllFit max qs ok.1 fits.1)

active-next :
    (base : ℕ) (l : Log) (ps : List (List ℕ))
    → IsChained base l ps
    → l.active.next_offset ≡ base + length ps
active-next base l ps c =
    let (front, back, split, rest, held, starts) = c.chain in
    omega (arith, held.next, starts, ap length split, length-append front back)

publish_offset-HoldsLog :
    (base : ℕ) (l : Log) (ps : List (List ℕ))
    → IsChained base l ps
    → HoldsLog base (publish_offset l) ps
publish_offset-HoldsLog base l ps c = record {
  chained = record {
    chain = c.chain;
    active = c.active;
    size = c.size;
    positive = c.positive;
    small = c.small;
  };
  next = active-next base l ps c;
}

-- A single append flushes nothing.
pub append_flushes : (p : List ℕ) (l : Log) → (append p l).1.flush_calls ≡ l.flush_calls
unfolding append append_rolling append_retry roll_new_segment
append_flushes p l = ground arith

-- A flush is counted, and none if none is asked for.
pub flush_if :
    (b : Bool) (l : Log) (n : ℕ)
    → l.flush_calls ≡ n
    → (if b then flush l else l).flush_calls ≡ (if b then add64 n 1 else n)
unfolding flush
flush_if true l n e = ap (λ k. add64 k 1) e
flush_if false l n e = e

-- A flush changes nothing that a reader can see.
pub flush-HoldsLog :
    (base : ℕ) (l : Log) (ps : List (List ℕ)) → HoldsLog base l ps → HoldsLog base (flush l) ps
unfolding flush
flush-HoldsLog base l ps h = record {
  chained = record {
    chain = h.chained.chain;
    active = h.chained.active;
    size = h.chained.size;
    positive = h.chained.positive;
    small = h.chained.small;
  };
  next = h.next;
}

published :
    (base : ℕ) (l : Log) (ps : List (List ℕ)) (calls : ℕ) (flush_after : Bool)
    → IsChained base l ps
    → l.flush_calls ≡ calls
    → HoldsLog base (if flush_after then flush (publish_offset l) else publish_offset l) ps
      × ((if flush_after then flush (publish_offset l) else publish_offset l).flush_calls
          ≡ (if flush_after then add64 calls 1 else calls))
published base l ps calls true c e = (
  flush-HoldsLog base (publish_offset l) ps (publish_offset-HoldsLog base l ps c),
  unfold flush in ap (λ n. add64 n 1) e,
)
published base l ps calls false c e = (publish_offset-HoldsLog base l ps c, e)

-- As long as the offsets stay below 2 ^ 64, a batch of payloads that each fit in a segment is appended at consecutive offsets, across as many
-- segments as that takes, and published and flushed once, if a flush was asked for.
pub append_batch_lem :
    (base : ℕ) (l : Log) (ps : List (List ℕ)) (q : List ℕ) (qs : List (List ℕ)) (flush_after : Bool)
    → HoldsLog base l ps
    → ArePayloads (q ∷ qs)
    → AllFit l.max_segment_bytes (q ∷ qs)
    → base + length ps + length (q ∷ qs) < 2 ^ 64
    → ((append_batch (q ∷ qs) flush_after l).0 ≡ some (base + length ps))
      × HoldsLog base (append_batch (q ∷ qs) flush_after l).1 (ps ++ q ∷ qs)
      × ((append_batch (q ∷ qs) flush_after l).1.flush_calls
          ≡ (if flush_after then add64 l.flush_calls 1 else l.flush_calls))
unfolding append_batch
append_batch_lem base l ps q qs flush_after h ok fits offsets =
    let (e, c) = append_each_lem base l ps (q ∷ qs) h.chained ok fits offsets in
    let fit = cannot_fit-AllFit l.max_segment_bytes (q ∷ qs) ok fits in
    let first = active-next base l ps h.chained in
    let flushed = append_each_flushes (q ∷ qs) l in
    let (held, calls) =
      published base (append_each (q ∷ qs) l).1 (ps ++ q ∷ qs) l.flush_calls flush_after c
        flushed in
    rw (fit, e) (ap some first, held, calls)
