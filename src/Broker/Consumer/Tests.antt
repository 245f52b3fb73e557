-- ===== src/Broker/Consumer/Tests.antt =====
-- The theorems on consumers at concrete inputs.
use cascade.Base.{
  ltb, ◌&&◌, ◌==◌, if◌then◌else◌, some, ◌+◌, ◌%◌, ◌≡◌, none, [], ◌∷◌, arith, length, take, drop,
}
use cascade.Base.Dict.{find}
use cascade.Broker.OffsetStore.{empty_store, committed}
use cascade.Broker.Topic.{Topic, num_partitions}
use cascade.Broker.Consumer.Assignment.{new_consumer-cursors}
use cascade.Broker.Partition.{Partition, manual}
use cascade.Broker.Consumer.{poll_partition, new_consumer}
use cascade.Broker.Consumer.Poll.{poll_partition_lem, records_of}
use cascade.Storage.Log.{append}
use cascade.Storage.Log.Tests.{new_log, word, one_word-HoldsLog}

abbrev part : Partition
part = record {
  topic = [];
  index = 0;
  log = (append word new_log).1;
  max_lag_records = 0;
  flush_policy = manual;
  counts = none;
}

poll_partition_lem_example :
    poll_partition 100 0 part 0
    ≡ (records_of 0 0 (take 100 (drop 0 (word ∷ []))), 0 + length (take 100 (drop 0 (word ∷ []))))
poll_partition_lem_example =
    poll_partition_lem 100 0 0 part (word ∷ []) one_word-HoldsLog (omega arith)

abbrev topic : Topic
topic = record { name = 116 ∷ []; partitions = part ∷ part ∷ part ∷ [] }

-- The first of two members and the last of three partitions.
new_consumer-cursors_example :
    (find 2 (new_consumer topic (103 ∷ []) 2 0 empty_store).0.cursors ≡ (
      if ltb 2 (num_partitions topic) && 2 % 2 == 0
      then some (committed (116 ∷ []) 2 empty_store (103 ∷ []))
      else none))
    × (committed (116 ∷ []) 2 (new_consumer topic (103 ∷ []) 2 0 empty_store).1 (103 ∷ [])
        ≡ committed (116 ∷ []) 2 empty_store (103 ∷ []))
new_consumer-cursors_example = new_consumer-cursors topic (103 ∷ []) 2 0 empty_store 2 (omega arith)
