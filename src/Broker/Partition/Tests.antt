-- ===== src/Broker/Partition/Tests.antt =====
-- The theorems on partitions at concrete inputs.
use cascade.Base.{
  ℕ, ◌<◌, ◌+◌, ◌≤◌, ◌≡◌, refl, ◌≢◌, ◌⊎◌, inl, inr, true, false, [], ◌∷◌, none, some, arith,
}
use cascade.Base.Word.{add64}
use cascade.Broker.Partition.Delivery.{try_publish-answers}
use cascade.Broker.OffsetStore.{min_committed_offset_for, OffsetStore, empty_store, register_group}
use cascade.Broker.OffsetStore.Tests.{logs, billing, registered_min}
use cascade.Broker.Partition.{
  Partition, acked, rejected, per_message, over_lag_limit, try_publish, publish, Surroundings,
}
use cascade.Broker.Partition.Publish.{
  try_publish_lem, try_publish_bound, publish-ends, publish-acked,
}
use cascade.Storage.Log.Chain.{HoldsLog}
use cascade.Storage.Log.Tests.{new_log, new-HoldsLog, word, word-IsPayload}

-- A partition that lets its groups lag by one record.
abbrev pub part : Partition
part = record {
  topic = logs;
  index = 0;
  log = new_log;
  max_lag_records = 1;
  flush_policy = per_message;
  counts = none;
}

abbrev store : OffsetStore
store = register_group logs 0 billing empty_store

below_limit : over_lag_limit store part ≡ false
unfolding over_lag_limit
below_limit = rw (registered_min) refl

first_publish :
    ((over_lag_limit store part ≡ true)
      × ((try_publish word store part).0 ≡ rejected)
      × ((try_publish word store part).1.log ≡ part.log))
    ⊎ ((over_lag_limit store part ≡ false)
        × ((try_publish word store part).0 ≡ acked 0)
        × HoldsLog 0 (try_publish word store part).1.log (word ∷ []))
first_publish =
    try_publish_lem 0 word store part [] new-HoldsLog word-IsPayload (omega arith) (omega arith)

try_publish-answers_example :
    (((m : ℕ) × (min_committed_offset_for logs 0 store ≡ some m) × (0 < 1) × (m + 1 ≤ 0))
      × ((try_publish word store part).0 ≡ rejected)
      × ((try_publish word store part).1.log ≡ part.log))
    ⊎ (((m : ℕ) → min_committed_offset_for logs 0 store ≡ some m → 0 < 1 → 0 < m + 1)
        × ((try_publish word store part).0 ≡ acked 0)
        × HoldsLog 0 (try_publish word store part).1.log (word ∷ [])
        × ((try_publish word store part).1.log.flush_calls ≡ add64 0 1))
try_publish-answers_example =
    try_publish-answers 0 word word-IsPayload store part [] new-HoldsLog (omega arith) (omega arith)

first_acked : (try_publish word store part).0 ≡ acked 0
first_acked = elim first_publish [
  | inl (over, e, l) ↦ absurd (let w = below_limit in cc)
  | inr (below, e, l) ↦ e
]

try_publish_bound_example : (try_publish word store part).1.log.next_offset ≤ 0 + 1
try_publish_bound_example =
    try_publish_bound 0 word store part [] 0 0 new-HoldsLog word-IsPayload (omega arith)
      (omega arith) (omega arith) registered_min first_acked

-- A clock that moves on by one in each round.
abbrev pub steady : Surroundings
steady = record { store = λ round. store; clock = λ round. round }

publish-ends_example : publish 10 word steady 5 part ≢ none
publish-ends_example = publish-ends 10 5 word steady 5 part (omega arith) (omega arith)

-- The payload goes through in the first round.
pub published_part : (after : Partition) × (publish 10 word steady 5 part ≡ some (acked 0, after))
published_part = ((try_publish word store part).1, publish-acked 9 0 word steady 5 part first_acked)
