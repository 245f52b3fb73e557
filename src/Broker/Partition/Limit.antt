-- ===== src/Broker/Partition/Limit.antt =====
-- The lag limit.
use cascade.Base.{ℕ, ◌+◌, ◌≤◌, ◌<◌, ◌≡◌, ◌↔◌, true, some, Option-cases, inl, inr, arith}
use cascade.Broker.OffsetStore.{OffsetStore, min_committed_offset_for}
use cascade.Broker.Partition.{Partition, over_lag_limit}

-- A partition is over its limit just if it has one, some group is registered, and the records that
-- the slowest group has not committed are at least as many.
pub over_lag_limit_lem :
    (s : OffsetStore) (p : Partition)
    → (over_lag_limit s p ≡ true) ↔ (
        (0 < p.max_lag_records)
        × ((m : ℕ) × (min_committed_offset_for p.topic p.index s ≡ some m)
            × (m + p.max_lag_records ≤ p.log.next_offset)))
unfolding over_lag_limit
over_lag_limit_lem s p = (
  λ h. elim (Option-cases (min_committed_offset_for p.topic p.index s)) [
    | inl e ↦ absurd (let h' = rw e at h in ground arith)
    | inr (m, e) ↦ let h' = rw e at h in (ground arith, (m, e, ground arith))
  ],
  λ (positive, (m, e, far)). rw (e) (ground arith),
)
