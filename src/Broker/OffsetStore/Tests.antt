-- ===== src/Broker/OffsetStore/Tests.antt =====
-- The theorems on the offset store at concrete inputs.
use cascade.Base.{ℕ, ◌-◌, ◌^◌, ◌≤◌, ◌≡◌, refl, ◌↔◌, List, [], ◌∷◌, some, arith}
use cascade.Base.Text.{Lacks, to_string, digits, find_text, insert_text}
use cascade.Broker.OffsetStore.{
  OffsetStore, empty_store, separator, entry_key, partition_key, get, commit, register_group,
  registered, committed, min_committed_offset_for, min_over, insert_group,
}
use cascade.Broker.OffsetStore.Commits.{min_committed_offset_for_lem, AllReached}

abbrev pub logs : List ℕ
logs = 108 ∷ 111 ∷ 103 ∷ 115 ∷ []

abbrev twelve : ℕ
twelve = 12

abbrev one : ℕ
one = 1

abbrev pub billing : List ℕ
billing = 98 ∷ []

logs-Lacks : Lacks separator logs
logs-Lacks = (
  (λ e. absurd (omega arith)),
  ((λ e. absurd (omega arith)), ((λ e. absurd (omega arith)), ((λ e. absurd (omega arith)), tt))),
)

abbrev one_group : OffsetStore
one_group = commit logs 0 billing 7 (register_group logs 0 billing empty_store)

one_group_min : min_committed_offset_for logs 0 one_group ≡ some 7
unfolding min_committed_offset_for min_over committed get registered commit register_group
    insert_group entry_key partition_key to_string digits find_text insert_text
one_group_min = refl

min_committed_offset_for_lem_example :
    (3 ≤ 7) ↔ ((3 ≤ 2 ^ 64 - 1) × AllReached logs 0 one_group 3 (registered logs 0 one_group))
min_committed_offset_for_lem_example =
    min_committed_offset_for_lem logs 0 one_group 7 3 one_group_min

pub registered_min :
    min_committed_offset_for logs 0 (register_group logs 0 billing empty_store) ≡ some 0
unfolding min_committed_offset_for min_over committed get registered register_group insert_group
    entry_key partition_key to_string digits find_text insert_text
registered_min = refl
