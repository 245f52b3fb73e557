-- ===== src/Broker/Partition/Publish.antt =====
-- Publishing to a partition.
use cascade.Base.{
  ℕ, zero, suc, ◌+◌, ◌^◌, ◌≤◌, ◌<◌, ◌≡◌, refl, subst, ◌≢◌, ◌⊎◌, inl, inr, Bool, true, false, List,
  [], ◌∷◌, ◌++◌, Option, none, some, arith, length, length-append, leb, if◌then◌else◌, Bool-cases,
}
use native.Mathlib.Decide.{dec_le, dec_lt}
use cascade.Broker.OffsetStore.{OffsetStore, min_committed_offset_for}
use cascade.Broker.Partition.{
  Partition, Answer, BatchAck, acked, rejected, threw, over_lag_limit, try_publish,
  try_publish_batch, is_per_message, Surroundings, wait_loop, publish, publish_batch,
  count_rejected, count_published,
}
use cascade.Broker.Partition.Limit.{over_lag_limit_lem}
use cascade.Storage.Log
use cascade.Storage.Log.{Log}
use cascade.Storage.Log.Chain.{HoldsLog, read_lem}
use cascade.Storage.Segment.Read.{lookup_record}
use cascade.Broker.Partition
use cascade.Storage.Log.AppendRead.{append_lem}
use cascade.Storage.Log.Batch.{flush-HoldsLog}
use cascade.Storage.Segment.Layout.{IsPayload}

-- A read of the partition is one of its log.
pub read_payload :
    (offset : ℕ) (p : Partition) (ps : List (List ℕ))
    → HoldsLog 0 p.log ps
    → Partition.read offset p ≡ lookup_record 0 offset ps
unfolding Partition.read
read_payload offset p ps h =
    let e : 0 + offset ≡ offset = omega arith in
    subst (λ o. Log.read o p.log ≡ lookup_record 0 offset ps) e (read_lem 0 offset p.log ps h)

rejected_log : (p : Partition) → (count_rejected p).log ≡ p.log
rejected_log p = ground arith

published_log : (n b : ℕ) (p : Partition) → (count_published n b p).log ≡ p.log
published_log n b p = ground arith

flushed :
    (base : ℕ) (l : Log) (ps : List (List ℕ)) (b : Bool)
    → HoldsLog base l ps
    → HoldsLog base (if b then Log.flush l else l) ps
flushed base l ps true h = flush-HoldsLog base l ps h
flushed base l ps false h = h

-- A publish of a payload that fits in a segment is refused, with the log left as it was, just if
-- the partition is over its limit, and else acknowledged under the next offset, which the log then
-- holds the payload at.
pub try_publish_lem :
    (base : ℕ) (payload : List ℕ) (s : OffsetStore) (p : Partition) (ps : List (List ℕ))
    → HoldsLog base p.log ps
    → IsPayload payload
    → 16 + length payload ≤ p.log.max_segment_bytes
    → base + length ps + 1 < 2 ^ 64
    → ((over_lag_limit s p ≡ true)
        × ((try_publish payload s p).0 ≡ rejected)
        × ((try_publish payload s p).1.log ≡ p.log))
      ⊎ ((over_lag_limit s p ≡ false)
          × ((try_publish payload s p).0 ≡ acked (base + length ps))
          × HoldsLog base (try_publish payload s p).1.log (ps ++ payload ∷ []))
unfolding try_publish
try_publish_lem base payload s p ps h ok fits offsets = elim (Bool-cases (over_lag_limit s p)) [
  | inl over ↦ inl (over, rw (over) refl, rw (over) (rejected_log p))
  | inr below ↦
      let (e, held) = append_lem base p.log ps payload h ok fits offsets in
      inr (
        below,
        rw (below, e) refl,
        rw (below, e)
            (rw
              (published_log 1 0 (record p {
                log =
                    if is_per_message p.flush_policy
                    then Log.flush (Log.append payload p.log).1
                    else (Log.append payload p.log).1;
              }))
              (flushed base (Log.append payload p.log).1 (ps ++ payload ∷ [])
                (is_per_message p.flush_policy) held)),
      )
]

-- Backpressure: on a partition with a lag limit and a registered group, whose log holds a list of
-- payloads, an acknowledged publish of a payload that fits in a segment, at an offset below
-- 2 ^ 64 - 1, leaves at most `max_lag_records` records that the slowest group has not committed.
pub try_publish_bound :
    (base : ℕ) (payload : List ℕ) (s : OffsetStore) (p : Partition) (ps : List (List ℕ)) (o m : ℕ)
    → HoldsLog base p.log ps
    → IsPayload payload
    → 16 + length payload ≤ p.log.max_segment_bytes
    → base + length ps + 1 < 2 ^ 64
    → 0 < p.max_lag_records
    → min_committed_offset_for p.topic p.index s ≡ some m
    → (try_publish payload s p).0 ≡ acked o
    → (try_publish payload s p).1.log.next_offset ≤ m + p.max_lag_records
try_publish_bound base payload s p ps o m h ok fits offsets limited e done =
    elim (try_publish_lem base payload s p ps h ok fits offsets) [
      | inl (over, refused, same) ↦ absurd (cc)
      | inr (below, offset, held) ↦ elim (dec_le (m + p.max_lag_records) p.log.next_offset) [
        | yes far ↦ absurd (let over = (over_lag_limit_lem s p).1 (limited, (m, e, far)) in cc)
        | no near ↦
            let more = length-append {0} ps (payload ∷ []) in omega (arith, held.next, h.next)
      ]
    ]

round_ends :
    {A : Type 0} (answer : Answer A) (after : Partition) (rest : Option (Answer A × Partition))
    (b : Bool)
    → (b ≡ true) ⊎ (rest ≢ none)
    → elim answer as (λ x. Option (Answer A × Partition)) [
      | acked a ↦ some (acked a, after)
      | threw ↦ some (threw, after)
      | rejected ↦ if b then some (rejected, after) else rest
    ]
      ≢ none
round_ends (acked a) after rest b h = λ e. cc
round_ends threw after rest b h = λ e. cc
round_ends rejected after rest true h = λ e. cc
round_ends rejected after rest false (inl h) = absurd (cc)
round_ends rejected after rest false (inr h) = h

-- The waiting loop ends: with one more round of fuel than the round by which the deadline passes,
-- it gives an answer.
wait_loop-ends :
    {A : Type 0} (fuel : ℕ) (try : OffsetStore → Partition → Answer A × Partition)
    (w : Surroundings) (deadline round last : ℕ) (p : Partition)
    → round ≤ last
    → last < round + fuel
    → deadline ≤ w.clock last
    → wait_loop fuel try w deadline round p ≢ none
unfolding wait_loop
wait_loop-ends zero try w deadline round last p a b c = absurd (omega arith)
wait_loop-ends (suc fuel) try w deadline round last p a b c =
    let (answer, after) = try (w.store round) p in
    round_ends answer after (wait_loop fuel try w deadline (suc round) after)
      (leb deadline (w.clock round))
      (elim (dec_lt round last) [
        | yes more ↦ inr (
            wait_loop-ends fuel try w deadline (suc round) last after (omega arith) (omega arith) c)
        | no now ↦ inl (let same : round ≡ last = omega arith in rw (same) (ground arith))
      ])

-- `publish` returns or throws: at most one round more than those before the clock reaches the
-- deadline.
pub publish-ends :
    (fuel last : ℕ) (payload : List ℕ) (w : Surroundings) (deadline : ℕ) (p : Partition)
    → last < fuel
    → deadline ≤ w.clock last
    → publish fuel payload w deadline p ≢ none
unfolding publish
publish-ends fuel last payload w deadline p enough late =
    wait_loop-ends fuel (try_publish payload) w deadline 0 last p (omega arith)
      (omega (arith, enough)) late

-- An acknowledgement in the first round ends the loop.
pub publish-acked :
    (fuel o : ℕ) (payload : List ℕ) (w : Surroundings) (deadline : ℕ) (p : Partition)
    → (try_publish payload (w.store 0) p).0 ≡ acked o
    → publish (suc fuel) payload w deadline p
      ≡ some (acked o, (try_publish payload (w.store 0) p).1)
unfolding publish wait_loop
publish-acked fuel o payload w deadline p e = rw (e, publish, wait_loop) refl
