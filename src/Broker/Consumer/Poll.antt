-- ===== src/Broker/Consumer/Poll.antt =====
-- What a consumer's poll returns.
use cascade.Base.{
  ℕ, zero, suc, ◌+◌, ◌^◌, ◌%◌, ◌<◌, ◌≡◌, refl, ap, ◌∙◌, true, List, [], ◌∷◌, none, some, ◌⊎◌, inl,
  inr, arith, length, get_elem?, take, drop,
}
use native.Mathlib.Nat.{mod-lt}
use cascade.Base.Word.{add64}
use cascade.Broker.Partition
use cascade.Broker.Partition.{Partition}
use cascade.Broker.Partition.Publish.{read_payload}
use cascade.Broker.Consumer.{PolledRecord, poll_partition, is_assigned}
use cascade.Storage.Log.Chain.{HoldsLog}
use cascade.Storage.Segment.Read.{lookup_record}

-- The records of the payloads `ps`, numbered from `offset` on.
abbrev pub records_of : ℕ → ℕ → List (List ℕ) → List PolledRecord
records_of index offset [] = []
records_of index offset (p ∷ ps) =
    record { partition = index; offset = offset; payload = p } ∷ records_of index (offset + 1) ps

drop_cases :
    (k : ℕ) (xs : List (List ℕ))
    → ((get_elem? xs k ≡ none) × (drop k xs ≡ []))
      ⊎ ((x : List ℕ) × (get_elem? xs k ≡ some x)
          × (drop k xs ≡ x ∷ drop (k + 1) xs)
          × (k < length xs))
drop_cases zero [] = inl (refl, refl)
drop_cases zero (x ∷ xs) = inr (x, refl, refl, omega arith)
drop_cases (suc k) [] = inl (refl, refl)
drop_cases (suc k) (x ∷ xs) = elim (drop_cases k xs) [
  | inl h ↦ inl h
  | inr (y, a, b, c) ↦
      let e : suc k + 1 ≡ suc (k + 1) = omega arith in inr (y, a, rw (e) b, omega arith)
]

read_there :
    (k : ℕ) (p : Partition) (ps : List (List ℕ)) (x : List ℕ)
    → HoldsLog 0 p.log ps
    → get_elem? ps k ≡ some x
    → Partition.read k p ≡ some (record { offset = k; payload = x })
unfolding lookup_record
read_there k p ps x h e =
    let start : 0 + k ≡ k = omega arith in
    read_payload k p ps h ∙ rw (e) (ap (λ o. some (record { offset = o; payload = x })) start)

read_absent :
    (k : ℕ) (p : Partition) (ps : List (List ℕ))
    → HoldsLog 0 p.log ps
    → get_elem? ps k ≡ none
    → Partition.read k p ≡ none
unfolding lookup_record
read_absent k p ps h e = read_payload k p ps h ∙ rw (e) refl

-- A poll of a partition that holds `ps`, fewer than 2 ^ 64 payloads from offset 0 on, returns the payloads from the cursor on, as many as there
-- is room for, in order, without a gap and under their offsets, and moves the cursor behind them.
pub poll_partition_lem :
    (room index cursor : ℕ) (p : Partition) (ps : List (List ℕ))
    → HoldsLog 0 p.log ps
    → length ps < 2 ^ 64
    → poll_partition room index p cursor ≡ (
      records_of index cursor (take room (drop cursor ps)),
      cursor + length (take room (drop cursor ps)),
    )
unfolding poll_partition
poll_partition_lem zero index cursor p ps h small = ap (λ c. ([], c)) (omega arith)
poll_partition_lem (suc room) index cursor p ps h small = elim (drop_cases cursor ps) [
  | inl (absent, end) ↦
      rw (read_absent cursor p ps h absent, end, poll_partition) (ap (λ c. ([], c)) (omega arith))
  | inr (x, there, next, inside) ↦
      let again = poll_partition_lem room index (cursor + 1) p ps h small in
      let step : add64 cursor 1 ≡ cursor + 1 = omega arith in
      rw (read_there cursor p ps x h there, next, step, again, poll_partition)
        (ap (λ c. (records_of index cursor (x ∷ take room (drop (cursor + 1) ps)), c))
          (omega arith))
]

-- In a group of `group_size` members, each partition is assigned to exactly one: a member that it
-- is assigned to stands at its index modulo the group's size.
is_assigned_lem :
    (topic group : List ℕ) (group_size p : ℕ)
    → 0 < group_size
    → (is_assigned topic group group_size (p % group_size) p ≡ true)
      × (p % group_size < group_size)
      × ((i : ℕ) → is_assigned topic group group_size i p ≡ true → i ≡ p % group_size)
unfolding is_assigned
is_assigned_lem topic group group_size p positive =
    let bounded = mod-lt p positive in (ground arith, bounded, λ i h. ground arith)
