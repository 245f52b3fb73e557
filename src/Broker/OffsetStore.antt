-- ===== src/Broker/OffsetStore.antt =====
-- cpp/core/broker/offset_store.hpp: the offsets that consumer groups have committed, under string
-- keys. The mutex makes each operation one step. A partition's index is a number: the code gives
-- none that is negative.
pub mod Keys
pub mod Commits
pub mod Tests
use cascade.Base.{
  ℕ, ◌-◌, ◌^◌, Bool, true, false, ◌||◌, List, [], ◌∷◌, ◌++◌, Option, none, some, ltb, if◌then◌else◌,
}
use cascade.Base.Text.{to_string, text_eq, find_text, insert_text}

pub record OffsetStore : Type 0 where
  pub entries : List (List ℕ × ℕ)
  pub groups_by_partition : List (List ℕ × List (List ℕ))

abbrev pub empty_store : OffsetStore
empty_store = record { entries = []; groups_by_partition = [] }

-- '#'
abbrev pub separator : ℕ
separator = 35

unfoldable pub partition_key : List ℕ → ℕ → List ℕ
partition_key topic partition = topic ++ separator ∷ to_string partition

unfoldable pub entry_key : List ℕ → ℕ → List ℕ → List ℕ
entry_key topic partition group = partition_key topic partition ++ separator ∷ group

-- `groups.insert(group)` on a std::set.
pub insert_group : List ℕ → List (List ℕ) → List (List ℕ)
insert_group group [] = group ∷ []
insert_group group (g ∷ gs) = if text_eq g group then g ∷ gs else g ∷ insert_group group gs

-- The set that `groups_by_partition_[pkey]` finds or makes.
pub registered : List ℕ → ℕ → OffsetStore → List (List ℕ)
registered topic partition s =
    elim (find_text (partition_key topic partition) s.groups_by_partition) [
      | none ↦ []
      | some gs ↦ gs
    ]

pub register_group : List ℕ → ℕ → List ℕ → OffsetStore → OffsetStore
register_group topic partition group s =
    let pkey = partition_key topic partition in
    let key = entry_key topic partition group in
    record {
      entries = elim (find_text key s.entries) [
        | none ↦ insert_text key 0 s.entries
        | some v ↦ s.entries
      ];
      groups_by_partition =
          insert_text pkey (insert_group group (registered topic partition s))
            s.groups_by_partition;
    }

pub commit : List ℕ → ℕ → List ℕ → ℕ → OffsetStore → OffsetStore
commit topic partition group next_offset s = record s {
  entries = insert_text (entry_key topic partition group) next_offset s.entries;
}

pub get : List ℕ → ℕ → List ℕ → OffsetStore → Option ℕ
get topic partition group s = find_text (entry_key topic partition group) s.entries

-- The offset that counts for a group: 0 where it has none.
pub committed : List ℕ → ℕ → OffsetStore → List ℕ → ℕ
committed topic partition s group = elim (get topic partition group s) [ none ↦ 0 | some v ↦ v ]

-- The loop of `min_committed_offset_for`.
pub min_over : List ℕ → ℕ → OffsetStore → ℕ → List (List ℕ) → ℕ
min_over topic partition s min_val [] = min_val
min_over topic partition s min_val (g ∷ gs) =
    let v = committed topic partition s g in
    min_over topic partition s (if ltb v min_val then v else min_val) gs

pub min_committed_offset_for : List ℕ → ℕ → OffsetStore → Option ℕ
min_committed_offset_for topic partition s = elim (registered topic partition s) [
  | [] ↦ none
  | g ∷ gs ↦ some (min_over topic partition s (2 ^ 64 - 1) (g ∷ gs))
]
