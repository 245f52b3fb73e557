-- ===== src/Media/AdaptiveSender/Drain.antt =====
-- What a drain sends: every packet of high priority, and those of normal priority that the bucket
-- grants.
use cascade.Base.{
  ℕ, zero, suc, ◌+◌, ◌%◌, ◌^◌, ◌<◌, ◌≡◌, refl, ap, inl, inr, List, [], ◌∷◌, ◌++◌, arith, length,
  Bool-cases,
}
use cascade.Base.Word.{add64}
use cascade.Base.Double.{Doubles}
use cascade.Media.SendQueue.{pop_with_priority, size}
use cascade.Media.NetworkEstimator.{NetworkConditionEstimator}
use cascade.Media.BitrateController.{BitrateController, evaluate}
use cascade.Media.AdaptiveSender.{
  AdaptiveSender, DeterministicTokenBucket, take_packet, try_consume, drain_step, drain_loop,
  configure, drain,
}

-- Some of the packets, in their order.
pub data SomeOf : List (List ℕ) → List (List ℕ) → Type 0 where
  end : SomeOf [] []
  take_one : (p : List ℕ) {xs ys : List (List ℕ)} → SomeOf xs ys → SomeOf (p ∷ xs) (p ∷ ys)
  skip_one : (p : List ℕ) {xs ys : List (List ℕ)} → SomeOf xs ys → SomeOf xs (p ∷ ys)

module _ (D : Doubles) where
  -- What is left of a drain of packets `ns` of normal priority.
  record Drained (ns : List (List ℕ)) (before : ℕ) (sent : List (List ℕ))
      (s : AdaptiveSender D.Double) : Type 0 where
    pub some_of : SomeOf sent ns
    pub empty : size s.queue ≡ 0
    pub counted : (s.dropped_count + length sent) % 2 ^ 64 ≡ (before + length ns) % 2 ^ 64

  queued :
      List (List ℕ)
      → List (List ℕ)
      → DeterministicTokenBucket D.Double
      → ℕ
      → AdaptiveSender D.Double
  queued hs ns bucket dropped = record {
    queue = record { high_queue = hs; normal_queue = ns };
    bucket = bucket;
    dropped_count = dropped;
  }

  drain_normals :
      (ns : List (List ℕ)) (fuel now dropped : ℕ) (bucket : DeterministicTokenBucket D.Double)
      → length ns < fuel
      → Drained ns dropped
          ((drain_loop D fuel now (queued [] ns bucket dropped)).0)
          ((drain_loop D fuel now (queued [] ns bucket dropped)).1)
  unfolding drain_loop drain_step take_packet queued pop_with_priority size
  drain_normals ns zero now dropped bucket l = absurd (omega arith)
  drain_normals [] (suc fuel) now dropped bucket l = record {
    some_of = end;
    empty = refl;
    counted = omega arith;
  }
  drain_normals (n ∷ ns) (suc fuel) now dropped bucket l =
      let outcome = try_consume D (D.of_nat (length n)) now bucket in
      elim (Bool-cases outcome.0) [
        | inl granted ↦
            let rest = drain_normals ns fuel now dropped outcome.1 (omega arith) in
            rw granted (record {
              some_of = take_one n rest.some_of;
              empty = rest.empty;
              counted = omega (arith, rest.counted);
            })
        | inr refused ↦
            let rest = drain_normals ns fuel now (add64 dropped 1) outcome.1 (omega arith) in
            rw refused (record {
              some_of = skip_one n rest.some_of;
              empty = rest.empty;
              counted = omega (arith, rest.counted);
            })
      ]

  drain_both :
      (hs ns : List (List ℕ)) (fuel now dropped : ℕ) (bucket : DeterministicTokenBucket D.Double)
      → length hs + length ns < fuel
      → (kept : List (List ℕ)) × ((drain_loop D fuel now (queued hs ns bucket dropped)).0
          ≡ hs ++ kept)
        × Drained ns dropped kept ((drain_loop D fuel now (queued hs ns bucket dropped)).1)
  unfolding drain_loop drain_step take_packet queued pop_with_priority
  drain_both hs ns zero now dropped bucket l = absurd (omega arith)
  drain_both [] ns (suc fuel) now dropped bucket l = (
    (drain_loop D (suc fuel) now (queued [] ns bucket dropped)).0,
    refl,
    drain_normals ns (suc fuel) now dropped bucket (omega arith),
  )
  drain_both (h ∷ hs) ns (suc fuel) now dropped bucket l =
      let (kept, e, rest) = drain_both hs ns fuel now dropped bucket (omega arith) in
      (kept, ap (◌∷◌ h) e, rest)

  -- A drain sends every packet of high priority, in order, and behind them some of the packets of
  -- normal priority, in their order; it leaves the queue empty, and adds the packets that it does
  -- not send to the count of dropped ones, modulo 2 ^ 64.
  pub drain_lem :
      (now : ℕ) (e : NetworkConditionEstimator D.Double) (c : BitrateController D.Double)
      (s : AdaptiveSender D.Double)
      → let (sent, last, chosen, seen) = drain D now e c s in
        (kept : List (List ℕ)) × (sent ≡ s.queue.high_queue ++ kept)
        × SomeOf kept s.queue.normal_queue
        × (size last.queue ≡ 0)
        × ((last.dropped_count + length kept) % 2 ^ 64
            ≡ (s.dropped_count + length s.queue.normal_queue) % 2 ^ 64)
  unfolding drain configure queued size
  drain_lem now e c s =
      let begun = configure D now ((evaluate D now e c).0) s in
      let (kept, sent, left) =
        drain_both s.queue.high_queue s.queue.normal_queue (size s.queue + 1) now s.dropped_count
          begun.bucket (omega arith) in
      (kept, sent, left.some_of, left.empty, left.counted)
