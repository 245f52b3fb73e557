-- ===== src/Broker/Topic.antt =====
-- cpp/core/broker/topic.hpp and producer.hpp: a topic is a fixed row of partitions; a producer picks
-- the partition of each publish. `std::hash` is a parameter.
pub mod Consistent
pub mod Keyed
pub mod Tests
use cascade.Base.{
  ℕ, zero, suc, ◌+◌, ◌-◌, ◌%◌, List, [], ◌∷◌, ◌++◌, Option, none, some, length, get_elem?, set,
}
use cascade.Base.Word.{add64}
use cascade.Base.Text.{to_string}
use cascade.Broker.HashRing.{HashRing, new_ring, add_partition, partition_for}
use cascade.Broker.OffsetStore.{OffsetStore}
use cascade.Broker.Partition
use cascade.Broker.Partition.{
  Partition, FlushPolicy, Answer, acked, rejected, threw, BatchAck, new_partition, Surroundings,
}

pub record Topic : Type 0 where
  pub name : List ℕ
  pub partitions : List Partition

-- base_dir + "/" + name + "/partition-" + std::to_string(i)
pub partition_dir : List ℕ → List ℕ → ℕ → List ℕ
partition_dir base_dir name i =
    base_dir
    ++ 47 ∷ name
    ++ (47 ∷ 112 ∷ 97 ∷ 114 ∷ 116 ∷ 105 ∷ 116 ∷ 105 ∷ 111 ∷ 110 ∷ 45 ∷ [])
    ++ to_string i

module _ (disk : List ℕ → List (ℕ × List ℕ)) (name base_dir : List ℕ)
    (max_segment_bytes max_lag_records : ℕ) (flush_policy : FlushPolicy) where
  -- The loop of the constructor, from partition `i` on, `n` to go; none if a log's constructor
  -- throws. `disk` gives the segment files of a directory.
  pub open_partitions : ℕ → ℕ → Option (List Partition)
  open_partitions zero i = some []
  open_partitions (suc n) i =
      let rest = open_partitions n (suc i) in
      elim (new_partition name i (disk (partition_dir base_dir name i)) max_segment_bytes
        max_lag_records flush_policy) [
          | none ↦ none
          | some p ↦ elim rest [ none ↦ none | some ps ↦ some (p ∷ ps) ]
        ]

  pub new_topic : ℕ → Option Topic
  new_topic num_partitions = elim (open_partitions num_partitions 0) [
    | none ↦ none
    | some ps ↦ some (record { name = name; partitions = ps })
  ]

pub num_partitions : Topic → ℕ
num_partitions t = length t.partitions

-- `partitions_.at(index)`; none stands for its exception.
pub partition : Topic → ℕ → Option Partition
partition t index = get_elem? t.partitions index

pub record PublishResult : Type 0 where
  pub partition : ℕ
  pub offset : ℕ

pub record BatchPublishResult : Type 0 where
  pub partition : ℕ
  pub first_offset : ℕ
  pub count : ℕ

-- A producer's own state; the topic is shared.
pub record Producer : Type 0 where
  pub topic : Topic
  pub hash_ring : HashRing
  pub round_robin : ℕ

-- The partition after a call on it, put back at its place.
abbrev pub put_back : ℕ → Partition → Producer → Producer
put_back index p pr = record pr {
  topic = record pr.topic { partitions = set pr.topic.partitions index p };
}

abbrev pub answer_map : {A B : Type 0} → (A → B) → Answer A → Answer B
answer_map f (acked a) = acked (f a)
answer_map f rejected = rejected
answer_map f threw = threw

-- `topic_->partition(index)->publish(payload, len)`, with the partition's index in the result.
pub publish_to :
    ℕ → ℕ → List ℕ → Surroundings → ℕ → Producer → Option (Answer PublishResult × Producer)
publish_to fuel index payload w deadline pr = elim (partition pr.topic index) [
  | none ↦ some (threw, pr)
  | some p ↦ elim (Partition.publish fuel payload w deadline p) [
    | none ↦ none
    | some (answer, after) ↦
        some (
          answer_map (λ o. record { partition = index; offset = o }) answer,
          put_back index after pr,
        )
  ]
]

pub publish_batch_to :
    ℕ
    → ℕ
    → List (List ℕ)
    → Surroundings
    → ℕ
    → Producer
    → Option (Answer BatchPublishResult × Producer)
publish_batch_to fuel index payloads w deadline pr = elim (partition pr.topic index) [
  | none ↦ some (threw, pr)
  | some p ↦ elim (Partition.publish_batch fuel payloads w deadline p) [
    | none ↦ none
    | some (answer, after) ↦ some (
      answer_map (λ a. record { partition = index; first_offset = a.first_offset; count = a.count })
          answer,
      put_back index after pr,
    )
  ]
]

-- `round_robin_.fetch_add(1) % num_partitions`
pub next_partition : Producer → ℕ × Producer
next_partition pr =
    (pr.round_robin % num_partitions pr.topic, record pr { round_robin = add64 pr.round_robin 1 })

pub publish : ℕ → List ℕ → Surroundings → ℕ → Producer → Option (Answer PublishResult × Producer)
publish fuel payload w deadline pr =
    let (p, after) = next_partition pr in publish_to fuel p payload w deadline after

pub publish_batch :
    ℕ → List (List ℕ) → Surroundings → ℕ → Producer → Option (Answer BatchPublishResult × Producer)
publish_batch fuel payloads w deadline pr =
    let (p, after) = next_partition pr in publish_batch_to fuel p payloads w deadline after

module _ (hash : List ℕ → ℕ) where
  -- The loop of the constructor, from partition `p` on, `n` to go.
  pub add_partitions : ℕ → ℕ → HashRing → HashRing
  add_partitions zero p r = r
  add_partitions (suc n) p r = add_partitions n (suc p) (add_partition hash p r)

  -- The ring has the default of 128 virtual nodes to a partition.
  pub new_producer : Topic → Producer
  new_producer t = record {
    topic = t;
    hash_ring = add_partitions (num_partitions t) 0 (new_ring 128);
    round_robin = 0;
  }

  pub publish_keyed_consistent :
      ℕ → List ℕ → List ℕ → Surroundings → ℕ → Producer → Option (Answer PublishResult × Producer)
  publish_keyed_consistent fuel key payload w deadline pr =
      elim (partition_for hash key pr.hash_ring) [
        | none ↦ some (threw, pr)
        | some p ↦ publish_to fuel p payload w deadline pr
      ]

  pub publish_keyed :
      ℕ → List ℕ → List ℕ → Surroundings → ℕ → Producer → Option (Answer PublishResult × Producer)
  publish_keyed fuel key payload w deadline pr =
      publish_to fuel (hash key % num_partitions pr.topic) payload w deadline pr

  pub publish_batch_keyed :
      ℕ
      → List ℕ
      → List (List ℕ)
      → Surroundings
      → ℕ
      → Producer
      → Option (Answer BatchPublishResult × Producer)
  publish_batch_keyed fuel key payloads w deadline pr =
      publish_batch_to fuel (hash key % num_partitions pr.topic) payloads w deadline pr

pub try_publish : ℕ → List ℕ → OffsetStore → Producer → Answer PublishResult × Producer
try_publish index payload s pr = elim (partition pr.topic index) [
  | none ↦ (threw, pr)
  | some p ↦
      let (answer, after) = Partition.try_publish payload s p in
      (answer_map (λ o. record { partition = index; offset = o }) answer, put_back index after pr)
]

pub try_publish_batch :
    ℕ → List (List ℕ) → OffsetStore → Producer → Answer BatchPublishResult × Producer
try_publish_batch index payloads s pr = elim (partition pr.topic index) [
  | none ↦ (threw, pr)
  | some p ↦
      let (answer, after) = Partition.try_publish_batch payloads s p in
      (
        answer_map
            (λ a. record { partition = index; first_offset = a.first_offset; count = a.count })
            answer,
        put_back index after pr,
      )
]
