-- ===== src/Broker/Consumer/Assignment.antt =====
-- Which partitions a member of a group gets, and where it begins.
use cascade.Base.{
  ℕ, zero, suc, ◌+◌, ◌%◌, ◌<◌, ◌≡◌, refl, ap, sym, ◌∙◌, Bool, true, false, ◌&&◌, List, [], Option,
  none, some, ltb, leb, ◌==◌, if◌then◌else◌, Bool-cases, Option-cases, inl, inr, arith,
}
use native.Mathlib.Decide.{ℕ_discrete}
use cascade.Base.Dict.{find, insert, find-insert}
use cascade.Broker.OffsetStore.{OffsetStore, register_group, get, committed}
use cascade.Broker.OffsetStore.Commits.{committed-register_group, committed-none, committed-some}
use cascade.Broker.Topic.{Topic, num_partitions}
use cascade.Broker.Consumer.{is_assigned, assign, new_consumer, value_or}

value_or-committed :
    (t : List ℕ) (p : ℕ) (g : List ℕ) (s : OffsetStore)
    → value_or 0 (get t p g s) ≡ committed t p s g
value_or-committed t p g s = elim (Option-cases (get t p g s)) [
  | inl e ↦ rw (e, committed-none t p g s e) refl
  | inr (v, e) ↦ rw (e, committed-some t p v g s e) refl
]

module _ (topic group : List ℕ) (group_size consumer_index : ℕ) where
  -- The offset of every partition that counts for the group is not changed by the loop.
  assign-committed :
      (n p j : ℕ) (cursors : List (ℕ × ℕ)) (s : OffsetStore)
      → committed topic j (assign topic group group_size consumer_index n p cursors s).1 group
        ≡ committed topic j s group
  unfolding assign
  assign-committed zero p j cursors s = refl
  assign-committed (suc n) p j cursors s =
      let s' = register_group topic p group s in
      let taken =
        assign-committed n (suc p) j (insert p (value_or 0 (get topic p group s')) cursors) s' in
      let skipped = assign-committed n (suc p) j cursors s in
      let same = committed-register_group topic topic p j group group s in
      elim (Bool-cases (is_assigned topic group group_size consumer_index p)) [
        | inl yours ↦ rw (yours) (taken ∙ same)
        | inr other ↦ rw (other) skipped
      ]

  -- The number of the partition that the loop stands at, and those behind it.
  joined :
      (p n j : ℕ) (cursors : List (ℕ × ℕ)) (s : OffsetStore) (start : ℕ)
      → is_assigned topic group group_size consumer_index p ≡ true
      → committed topic j (register_group topic p group s) group ≡ committed topic j s group
      → start ≡ committed topic p s group
      → (if (leb (suc p) j && ltb j (suc p + n))
            && is_assigned topic group group_size consumer_index j
          then some (committed topic j (register_group topic p group s) group)
          else find j (insert p start cursors))
        ≡ (if (leb p j && ltb j (p + suc n)) && is_assigned topic group group_size consumer_index j
            then some (committed topic j s group)
            else find j cursors)
  joined p n j cursors s start yours same begins =
      let found = find-insert p j start cursors in
      elim (ℕ_discrete p j) [
        | yes e ↦
            let mine =
              ap (λ i. is_assigned topic group group_size consumer_index i) (sym e) ∙ yours in
            let at : some start ≡ some (committed topic j s group) =
              ap some (begins ∙ ap (λ i. committed topic i s group) e) in
            ground arith
        | no ne ↦ ground arith
      ]

  passed :
      (p n j : ℕ) (cursors : List (ℕ × ℕ)) (s : OffsetStore)
      → is_assigned topic group group_size consumer_index p ≡ false
      → (if (leb (suc p) j && ltb j (suc p + n))
            && is_assigned topic group group_size consumer_index j
          then some (committed topic j s group)
          else find j cursors)
        ≡ (if (leb p j && ltb j (p + suc n)) && is_assigned topic group group_size consumer_index j
            then some (committed topic j s group)
            else find j cursors)
  passed p n j cursors s other = elim (ℕ_discrete p j) [
    | yes e ↦
        let skipped =
          ap (λ i. is_assigned topic group group_size consumer_index i) (sym e) ∙ other in
        ground arith
    | no ne ↦ ground arith
  ]

  assign-cursors :
      (n p j : ℕ) (cursors : List (ℕ × ℕ)) (s : OffsetStore)
      → find j (assign topic group group_size consumer_index n p cursors s).0 ≡ (
          if (leb p j && ltb j (p + n)) && is_assigned topic group group_size consumer_index j
          then some (committed topic j s group)
          else find j cursors)
  unfolding assign
  assign-cursors zero p j cursors s = ground arith
  assign-cursors (suc n) p j cursors s =
      let s' = register_group topic p group s in
      let start = value_or 0 (get topic p group s') in
      let same = committed-register_group topic topic p j group group s in
      let same_p = committed-register_group topic topic p p group group s in
      let begins = value_or-committed topic p group s' in
      elim (Bool-cases (is_assigned topic group group_size consumer_index p)) [
        | inl yours ↦ rw (yours) (
            assign-cursors n (suc p) j (insert p start cursors) s'
            ∙ joined p n j cursors s start yours same (begins ∙ same_p))
        | inr other ↦
            rw (other) (assign-cursors n (suc p) j cursors s ∙ passed p n j cursors s other)
      ]

-- A loop from partition 0 on is over all of them.
abbrev cursor_of : Bool → ℕ → Option ℕ
cursor_of assigned start = if assigned then some start else none

whole :
    (group_size consumer_index n p start : ℕ)
    → cursor_of ((leb 0 p && ltb p (0 + n)) && p % group_size == consumer_index) start
      ≡ cursor_of (ltb p n && p % group_size == consumer_index) start
whole group_size consumer_index n p start = let e : 0 + n ≡ n = omega arith in rw (e) (ground arith)

-- A member's cursors: for each partition of the topic that it stands at modulo the group's size, and
-- for no other, the offset that the group has committed there, or 0; and the offsets that count for
-- the group are what they were.
pub new_consumer-cursors :
    (t : Topic) (group : List ℕ) (group_size consumer_index : ℕ) (s : OffsetStore) (p : ℕ)
    → 0 < group_size
    → (find p (new_consumer t group group_size consumer_index s).0.cursors ≡ (
        if ltb p (num_partitions t) && p % group_size == consumer_index
        then some (committed t.name p s group)
        else none))
      × (committed t.name p (new_consumer t group group_size consumer_index s).1 group
          ≡ committed t.name p s group)
unfolding new_consumer is_assigned find
new_consumer-cursors t group group_size consumer_index s p positive = (
  assign-cursors t.name group group_size consumer_index (num_partitions t) 0 p [] s
      ∙ whole group_size consumer_index (num_partitions t) p (committed t.name p s group),
  assign-committed t.name group group_size consumer_index (num_partitions t) 0 p [] s,
)
