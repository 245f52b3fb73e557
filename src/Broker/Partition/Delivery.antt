-- ===== src/Broker/Partition/Delivery.antt =====
-- What a publish to a partition answers, and what the log then holds.
use cascade.Base.{
  ℕ, zero, suc, ◌+◌, ◌^◌, ◌≤◌, ◌<◌, ◌≡◌, subst, sym, ◌∙◌, ◌⊎◌, inl, inr, false, List, [], ◌∷◌, ◌++◌,
  some, arith, length, leb, if◌then◌else◌, Bool-cases,
}
use native.Mathlib.Decide.{dec_le}
use cascade.Base.Word.{add64}
use cascade.Broker.OffsetStore.{OffsetStore, min_committed_offset_for}
use cascade.Broker.Partition.{
  Partition, acked, rejected, try_publish, is_per_message, Surroundings, wait_loop, publish,
  over_lag_limit, count_published,
}
use cascade.Broker.Partition.Limit.{over_lag_limit_lem}
use cascade.Broker.Partition.Publish.{try_publish_lem}
use cascade.Storage.Log
use cascade.Storage.Log.{Log}
use cascade.Storage.Log.AppendRead.{append_lem}
use cascade.Storage.Log.Chain.{HoldsLog}
use cascade.Storage.Log.Batch.{append_flushes, flush_if}
use cascade.Storage.Segment.Layout.{IsPayload}

published_flushes :
    (n b : ℕ) (p : Partition) → (count_published n b p).log.flush_calls ≡ p.log.flush_calls
published_flushes n b p = ground arith

try_publish_flushes :
    (payload : List ℕ) (s : OffsetStore) (p : Partition) (o : ℕ)
    → over_lag_limit s p ≡ false
    → (Log.append payload p.log).0 ≡ some o
    → (try_publish payload s p).1.log.flush_calls
      ≡ (if is_per_message p.flush_policy then add64 p.log.flush_calls 1 else p.log.flush_calls)
unfolding try_publish
try_publish_flushes payload s p o below e =
    let l = (Log.append payload p.log).1 in
    rw (below, e, try_publish)
      (published_flushes 1 0
          (record p { log = if is_per_message p.flush_policy then Log.flush l else l })
        ∙ flush_if (is_per_message p.flush_policy) l p.log.flush_calls
            (append_flushes payload p.log))

module _ (base : ℕ) (payload : List ℕ) (ok : IsPayload payload) where
  -- Publishing a payload that fits in a segment, at an offset below 2 ^ 64 - 1. It is refused, with
  -- the log left as it was, only where the partition has a limit, a group is registered, and at
  -- least as many records as the limit are not committed by the slowest group. Else, and only where
  -- this does not hold, it is acknowledged under the next offset, the log then holds the payload at
  -- that offset, and it has been flushed once if the policy is to flush each message, and not at all
  -- if it is not.
  pub try_publish-answers :
      (s : OffsetStore) (p : Partition) (ps : List (List ℕ))
      → HoldsLog base p.log ps
      → 16 + length payload ≤ p.log.max_segment_bytes
      → base + length ps + 1 < 2 ^ 64
      → (((m : ℕ) × (min_committed_offset_for p.topic p.index s ≡ some m)
            × (0 < p.max_lag_records)
            × (m + p.max_lag_records ≤ base + length ps))
          × ((try_publish payload s p).0 ≡ rejected)
          × ((try_publish payload s p).1.log ≡ p.log))
        ⊎ (((m : ℕ)
              → min_committed_offset_for p.topic p.index s ≡ some m
              → 0 < p.max_lag_records
              → base + length ps < m + p.max_lag_records)
            × ((try_publish payload s p).0 ≡ acked (base + length ps))
            × HoldsLog base (try_publish payload s p).1.log (ps ++ payload ∷ [])
            × ((try_publish payload s p).1.log.flush_calls ≡ (
                if is_per_message p.flush_policy
                then add64 p.log.flush_calls 1
                else p.log.flush_calls)))
  try_publish-answers s p ps h fits offsets =
      elim (try_publish_lem base payload s p ps h ok fits offsets) [
        | inl (over, refused, same) ↦
            let (limited, (m, e, far)) = (over_lag_limit_lem s p).0 over in
            inl ((m, e, limited, omega (arith, far, h.next)), refused, same)
        | inr (below, offset, held) ↦
            let appended = (append_lem base p.log ps payload h ok fits offsets).0 in
            inr (
              λ m e limited. elim (dec_le (m + p.max_lag_records) p.log.next_offset) [
                | yes far ↦
                    absurd (let over = (over_lag_limit_lem s p).1 (limited, (m, e, far)) in cc)
                | no near ↦ omega (arith, near, h.next)
              ],
              offset,
              held,
              try_publish_flushes payload s p (base + length ps) below appended,
            )
      ]

  -- However many rounds a publish waits, the log that it leaves holds its payload once, at the
  -- offset that it returns.
  wait_loop-delivers :
      (fuel : ℕ) (w : Surroundings) (deadline round o : ℕ) (p after : Partition)
      (ps : List (List ℕ))
      → HoldsLog base p.log ps
      → 16 + length payload ≤ p.log.max_segment_bytes
      → base + length ps + 1 < 2 ^ 64
      → wait_loop fuel (try_publish payload) w deadline round p ≡ some (acked o, after)
      → (o ≡ base + length ps) × HoldsLog base after.log (ps ++ payload ∷ [])
  unfolding wait_loop
  wait_loop-delivers zero w deadline round o p after ps h fits offsets e = absurd (cc)
  wait_loop-delivers (suc fuel) w deadline round o p after ps h fits offsets e =
      let q = (try_publish payload (w.store round) p).1 in
      elim (try_publish_lem base payload (w.store round) p ps h ok fits offsets) [
        | inl (over, refused, same) ↦ elim (Bool-cases (leb deadline (w.clock round))) [
          | inl late ↦ absurd (let e' = rw (refused, late, wait_loop) at e in cc)
          | inr early ↦
              wait_loop-delivers fuel w deadline (suc round) o q after ps
                (subst (λ l. HoldsLog base l ps) (sym same) h)
                (subst (λ l. 16 + length payload ≤ l.max_segment_bytes) (sym same) fits) offsets
                (rw (refused, early, wait_loop) at e)
        ]
        | inr (below, offset, held) ↦
            let e' = rw (offset, wait_loop) at e in
            let same : q ≡ after = cc in
            let at : base + length ps ≡ o = cc in
            (sym at, subst (λ x. HoldsLog base x.log (ps ++ payload ∷ [])) same held)
      ]

  pub publish-delivers :
      (fuel : ℕ) (w : Surroundings) (deadline o : ℕ) (p after : Partition) (ps : List (List ℕ))
      → HoldsLog base p.log ps
      → 16 + length payload ≤ p.log.max_segment_bytes
      → base + length ps + 1 < 2 ^ 64
      → publish fuel payload w deadline p ≡ some (acked o, after)
      → (o ≡ base + length ps) × HoldsLog base after.log (ps ++ payload ∷ [])
  unfolding publish
  publish-delivers fuel w deadline o p after ps h fits offsets e =
      wait_loop-delivers fuel w deadline 0 o p after ps h fits offsets e
