-- ===== src/Broker/Partition.antt =====
-- cpp/core/broker/partition.hpp: a log with a limit on how far its slowest consumer group may lag.
-- The offset store is shared with the consumers, so the operations take it as it is at their time.
pub mod Limit
pub mod Delivery
pub mod Publish
pub mod Tests
use cascade.Base.{
  ℕ, zero, suc, ◌-◌, Bool, true, false, ◌&&◌, ◌||◌, List, [], ◌∷◌, Option, none, some, ltb, leb,
  ◌==◌, is_empty, length, if◌then◌else◌,
}
use cascade.Base.Word.{add64}
use cascade.Broker.OffsetStore.{OffsetStore, min_committed_offset_for}
use cascade.Storage.Log
use cascade.Storage.Log.{Log, open_log}
use cascade.Storage.Segment.{ReadResult}

pub data FlushPolicy : Type 0 where
  per_message : FlushPolicy
  manual : FlushPolicy

abbrev pub is_per_message : FlushPolicy → Bool
is_per_message per_message = true
is_per_message manual = false

pub record BatchAck : Type 0 where
  pub first_offset : ℕ
  pub count : ℕ

-- How a publish ends: with an acknowledgement, with std::nullopt, or with an exception.
pub data Answer (A : Type 0) : Type 0 where
  acked : A → Answer A
  rejected : Answer A
  threw : Answer A

-- What a partition has added to the shared counters of the registry.
pub record Counts : Type 0 where
  pub publish_total : ℕ
  pub batches_total : ℕ
  pub rejected_total : ℕ

-- `counts` is none until `attach_metrics`. The two latency histograms are left out.
pub record Partition : Type 0 where
  pub topic : List ℕ
  pub index : ℕ
  pub log : Log
  pub max_lag_records : ℕ
  pub flush_policy : FlushPolicy
  pub counts : Option Counts

-- The constructor, on the segment files in the directory.
pub new_partition : List ℕ → ℕ → List (ℕ × List ℕ) → ℕ → ℕ → FlushPolicy → Option Partition
new_partition topic index files max_segment_bytes max_lag flush_policy =
    elim (open_log max_segment_bytes files) [
      | none ↦ none
      | some l ↦ some (record {
        topic = topic;
        index = index;
        log = l;
        max_lag_records = max_lag;
        flush_policy = flush_policy;
        counts = none;
      })
    ]

pub attach_metrics : Partition → Partition
attach_metrics p = record p {
  counts = some (record { publish_total = 0; batches_total = 0; rejected_total = 0 });
}

pub over_lag_limit : OffsetStore → Partition → Bool
over_lag_limit s p =
    if p.max_lag_records == 0 then false else elim (min_committed_offset_for p.topic p.index s) [
      | none ↦ false
      | some m ↦
          let hwm = p.log.next_offset in
          let lag = if ltb m hwm then hwm - m else 0 in leb p.max_lag_records lag
    ]

abbrev pub count_rejected : Partition → Partition
count_rejected p = elim p.counts [
  | none ↦ p
  | some c ↦ record p { counts = some (record c { rejected_total = add64 c.rejected_total 1 }) }
]

abbrev pub count_published : ℕ → ℕ → Partition → Partition
count_published n batches p = elim p.counts [
  | none ↦ p
  | some c ↦ record p {
    counts = some (record c {
      publish_total = add64 c.publish_total n;
      batches_total = add64 c.batches_total batches;
    });
  }
]

pub try_publish : List ℕ → OffsetStore → Partition → Answer ℕ × Partition
try_publish payload s p =
    let (offset, l) = Log.append payload p.log in
    if over_lag_limit s p then (rejected, count_rejected p) else elim offset [
      | none ↦ (threw, record p { log = l })
      | some o ↦ (
        acked o,
        count_published 1 0
            (record p { log = if is_per_message p.flush_policy then Log.flush l else l }),
      )
    ]

pub try_publish_batch : List (List ℕ) → OffsetStore → Partition → Answer BatchAck × Partition
try_publish_batch payloads s p =
    let (offset, l) = Log.append_batch payloads (is_per_message p.flush_policy) p.log in
    if is_empty payloads
    then (acked (record { first_offset = p.log.next_offset; count = 0 }), p)
    else if over_lag_limit s p
    then (rejected, count_rejected p)
    else elim offset [
      | none ↦ (threw, record p { log = l })
      | some first ↦ (
        acked (record { first_offset = first; count = length payloads }),
        count_published (length payloads) 1 (record p { log = l }),
      )
    ]

-- What the waiting loops of `publish` and `publish_batch` meet: the offset store and the clock in
-- each round, as the consumers and the time leave them.
pub record Surroundings : Type 0 where
  pub store : ℕ → OffsetStore
  pub clock : ℕ → ℕ

-- The loop: try, give up once the deadline has passed (`rejected` stands for BackpressureTimeout),
-- else sleep and try again. None is out of fuel.
pub wait_loop :
    {A : Type 0}
    → ℕ
    → (OffsetStore → Partition → Answer A × Partition)
    → Surroundings
    → ℕ
    → ℕ
    → Partition
    → Option (Answer A × Partition)
wait_loop zero try w deadline round p = none
wait_loop (suc fuel) try w deadline round p =
    let (answer, after) = try (w.store round) p in
    let rest = wait_loop fuel try w deadline (suc round) after in
    elim answer [
      | acked a ↦ some (acked a, after)
      | threw ↦ some (threw, after)
      | rejected ↦ if leb deadline (w.clock round) then some (rejected, after) else rest
    ]

pub publish : ℕ → List ℕ → Surroundings → ℕ → Partition → Option (Answer ℕ × Partition)
publish fuel payload w deadline p = wait_loop fuel (try_publish payload) w deadline 0 p

pub publish_batch :
    ℕ → List (List ℕ) → Surroundings → ℕ → Partition → Option (Answer BatchAck × Partition)
publish_batch fuel payloads w deadline p =
    wait_loop fuel (try_publish_batch payloads) w deadline 0 p

pub flush : Partition → Partition
flush p = record p { log = Log.flush p.log }

pub read : ℕ → Partition → Option ReadResult
read offset p = Log.read offset p.log
