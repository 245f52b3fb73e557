-- ===== src/Broker/Topic/Tests.antt =====
-- The theorem on keyed publishes at a concrete input.
use cascade.Base.{ℕ, ◌%◌, ◌≡◌, refl, ◌≢◌, List, [], ◌∷◌, some, arith, length}
use cascade.Broker.HashRing.{new_ring}
use cascade.Broker.Topic.{PublishResult, Producer, put_back, partition, num_partitions}
use cascade.Broker.Topic.Keyed.{publish_keyed-delivers, publish_keyed-acked}
use cascade.Broker.Partition.Tests.{part, steady, published_part}
use cascade.Broker.Partition.{Partition}
use cascade.Storage.Log.Chain.{HoldsLog}
use cascade.Storage.Log.Tests.{word, new-HoldsLog, word-IsPayload}

abbrev producer : Producer
producer = record {
  topic = record { name = part.topic; partitions = part ∷ part ∷ [] };
  hash_ring = new_ring 128;
  round_robin = 0;
}

abbrev key : List ℕ
key = 1 ∷ 2 ∷ 3 ∷ []

-- The second partition, by the length of the key.
second : partition producer.topic (length key % num_partitions producer.topic) ≡ some part
unfolding partition num_partitions
second = refl

abbrev place : ℕ
place = length key % num_partitions producer.topic

abbrev first_receipt : PublishResult
first_receipt = record { partition = place; offset = 0 }

publish_keyed-delivers_example :
    (place ≡ place)
    × (first_receipt.offset ≡ 0)
    × ((q : Partition) × (partition (put_back place published_part.0 producer).topic place ≡ some q)
        × HoldsLog 0 q.log (word ∷ []))
    × ((j : ℕ)
        → place ≢ j
        → partition (put_back place published_part.0 producer).topic j ≡ partition producer.topic j)
publish_keyed-delivers_example =
    publish_keyed-delivers length 10 key word steady 5 producer
      (put_back place published_part.0 producer) first_receipt part 0 [] second new-HoldsLog
      word-IsPayload (omega arith) (omega arith)
      (publish_keyed-acked length 10 key word steady 5 producer part published_part.0 0 second
        published_part.1)
