-- ===== src/Broker/Topics.antt =====
-- cpp/core/broker/broker.hpp: the table of topics. The control plane, once connected, is a function
-- that says whether it creates a topic; its heartbeats are left out.
pub mod Create
use cascade.Base.{ℕ, Bool, true, false, List, [], ◌∷◌, Option, none, some, if◌then◌else◌}
use cascade.Base.Text.{find_text, insert_text}
use cascade.Broker.OffsetStore.{OffsetStore, empty_store}
use cascade.Broker.Partition.{FlushPolicy}
use cascade.Broker.Topic.{Topic, new_topic}

pub record Broker : Type 0 where
  pub data_dir : List ℕ
  pub offset_store : OffsetStore
  pub topics : List (List ℕ × Topic)
  pub control_plane : Option (List ℕ → ℕ → Bool)

pub new_broker : List ℕ → Broker
new_broker data_dir = record {
  data_dir = data_dir;
  offset_store = empty_store;
  topics = [];
  control_plane = none;
}

-- `connect_to_control_plane`: none for the exception of a second connection.
pub connect_to_control_plane : (List ℕ → ℕ → Bool) → Broker → Option Broker
connect_to_control_plane client b = elim b.control_plane [
  | some c ↦ none
  | none ↦ some (record b { control_plane = some client })
]

pub is_connected_to_control_plane : Broker → Bool
is_connected_to_control_plane b = elim b.control_plane [ none ↦ false | some c ↦ true ]

abbrev pub is_allowed : Option (List ℕ → ℕ → Bool) → List ℕ → ℕ → Bool
is_allowed none name num_partitions = true
is_allowed (some client) name num_partitions = client name num_partitions

pub get_topic : List ℕ → Broker → Option Topic
get_topic name b = find_text name b.topics

-- `create_topic`: none for an exception. `disk` gives the segment files of a directory.
pub create_topic :
    (List ℕ → List (ℕ × List ℕ)) → List ℕ → ℕ → ℕ → ℕ → FlushPolicy → Broker → Option Topic × Broker
create_topic disk name num_partitions max_segment_bytes max_lag_records flush_policy b =
    elim (find_text name b.topics) [
      | some t ↦ (none, b)
      | none ↦
          if is_allowed b.control_plane name num_partitions
          then elim (new_topic disk name b.data_dir max_segment_bytes max_lag_records flush_policy
              num_partitions) [
                | none ↦ (none, b)
                | some t ↦ (some t, record b { topics = insert_text name t b.topics })
              ]
          else (none, b)
    ]
