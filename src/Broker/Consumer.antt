-- ===== src/Broker/Consumer.antt =====
-- cpp/core/broker/consumer.hpp: a member of a consumer group, with a cursor for each partition that
-- is assigned to it. The order of the cursors stands for the unspecified order of the
-- std::unordered_map. A partition that is not there (`at` throws) ends the poll.
pub mod Assignment
pub mod Poll
pub mod Tests
use cascade.Base.{
  ℕ, zero, suc, ◌+◌, ◌-◌, ◌%◌, Bool, true, false, List, [], ◌∷◌, ◌++◌, Option, none, some, length,
  ltb, leb, is_empty, ◌==◌, if◌then◌else◌,
}
use cascade.Base.Word.{add64}
use cascade.Base.Dict.{insert}
use cascade.Broker.OffsetStore
use cascade.Broker.OffsetStore.{OffsetStore, register_group, get}
use cascade.Broker.Partition
use cascade.Broker.Partition.{Partition}
use cascade.Broker.Topic.{Topic, num_partitions, partition}

pub record PolledRecord : Type 0 where
  pub partition : ℕ
  pub offset : ℕ
  pub payload : List ℕ

-- `consumed` is what the consumer has added to the shared counter; none until `attach_metrics`.
pub record Consumer : Type 0 where
  pub topic : Topic
  pub group : List ℕ
  pub cursors : List (ℕ × ℕ)
  pub consumed : Option ℕ

-- `committed.value_or(0)`
abbrev pub value_or : ℕ → Option ℕ → ℕ
value_or d none = d
value_or d (some v) = v

module _ (topic group : List ℕ) (group_size consumer_index : ℕ) where
  pub is_assigned : ℕ → Bool
  is_assigned p = p % group_size == consumer_index

  -- The loop of the constructor, from partition `p` on, `n` to go.
  pub assign : ℕ → ℕ → List (ℕ × ℕ) → OffsetStore → List (ℕ × ℕ) × OffsetStore
  assign zero p cursors s = (cursors, s)
  assign (suc n) p cursors s =
      let s' = register_group topic p group s in
      let taken = assign n (suc p) (insert p (value_or 0 (get topic p group s')) cursors) s' in
      let skipped = assign n (suc p) cursors s in if is_assigned p then taken else skipped

pub new_consumer : Topic → List ℕ → ℕ → ℕ → OffsetStore → Consumer × OffsetStore
new_consumer topic group group_size consumer_index s =
    let (cursors, s') =
      assign topic.name group group_size consumer_index (num_partitions topic) 0 [] s in
    (record { topic = topic; group = group; cursors = cursors; consumed = none }, s')

-- The inner loop of `poll`: at most `room` records of one partition from `cursor` on. A cursor's
-- increment wraps at 64 bits.
pub poll_partition : ℕ → ℕ → Partition → ℕ → List PolledRecord × ℕ
poll_partition zero index p cursor = ([], cursor)
poll_partition (suc room) index p cursor =
    let (more, after) = poll_partition room index p (add64 cursor 1) in
    elim (Partition.read cursor p) [
      | none ↦ ([], cursor)
      | some r ↦
          (record { partition = index; offset = r.offset; payload = r.payload } ∷ more, after)
    ]

-- The outer loop, with `room` records still wanted; false if `at` throws.
pub poll_all : Topic → ℕ → List (ℕ × ℕ) → (Bool × List PolledRecord) × List (ℕ × ℕ)
poll_all t room [] = ((true, []), [])
poll_all t room ((index, cursor) ∷ cursors) = elim (partition t index) [
  | none ↦ ((false, []), (index, cursor) ∷ cursors)
  | some p ↦
      let (found, after) = poll_partition room index p cursor in
      let ((done, more), rest) = poll_all t (room - length found) cursors in
      if leb room (length found)
      then ((true, found), (index, after) ∷ cursors)
      else ((done, found ++ more), (index, after) ∷ rest)
]

-- `poll`: none for the exception.
pub poll : ℕ → Consumer → Option (List PolledRecord) × Consumer
poll max_records c =
    let ((done, found), cursors) = poll_all c.topic max_records c.cursors in
    if done
    then (
      some found,
      record c {
        cursors = cursors;
        consumed = elim c.consumed [
          | none ↦ none
          | some n ↦ some (if is_empty found then n else add64 n (length found))
        ];
      },
    )
    else (none, record c { cursors = cursors })

pub commit_all : List ℕ → List ℕ → List (ℕ × ℕ) → OffsetStore → OffsetStore
commit_all topic group [] s = s
commit_all topic group ((index, cursor) ∷ cursors) s =
    commit_all topic group cursors (OffsetStore.commit topic index group cursor s)

pub commit : Consumer → OffsetStore → OffsetStore
commit c s = commit_all c.topic.name c.group c.cursors s
