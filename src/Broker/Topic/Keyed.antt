-- ===== src/Broker/Topic/Keyed.antt =====
-- Where a publish goes.
use cascade.Base.{
  ℕ, zero, suc, ◌+◌, ◌^◌, ◌≤◌, ◌<◌, ◌++◌, length, ◌%◌, ◌≡◌, refl, ap, ◌≢◌, List, [], ◌∷◌, some,
  Option-cases, inl, inr, get_elem?, set,
}
use cascade.Broker.Partition
use cascade.Broker.Partition.{Partition, Answer, acked, rejected, threw, Surroundings}
use cascade.Broker.Partition.Delivery.{publish-delivers}
use cascade.Storage.Log.Chain.{HoldsLog}
use cascade.Storage.Segment.Layout.{IsPayload}
use cascade.Broker.Topic.{
  Producer, PublishResult, partition, put_back, publish_to, publish_keyed, num_partitions,
  answer_map,
}

get_elem?-set_other :
    (xs : List Partition) (i j : ℕ) (x : Partition)
    → i ≢ j
    → get_elem? (set xs i x) j ≡ get_elem? xs j
get_elem?-set_other [] i j x h = refl
get_elem?-set_other (y ∷ xs) zero zero x h = absurd (h refl)
get_elem?-set_other (y ∷ xs) zero (suc j) x h = refl
get_elem?-set_other (y ∷ xs) (suc i) zero x h = refl
get_elem?-set_other (y ∷ xs) (suc i) (suc j) x h = get_elem?-set_other xs i j x (λ e. h (ap suc e))

mapped_partition :
    (i : ℕ) (a : Answer ℕ) (r : PublishResult)
    → answer_map (λ o. record { partition = i; offset = o }) a ≡ acked r
    → r.partition ≡ i
mapped_partition i (acked o) r e = cc
mapped_partition i rejected r e = absurd (cc)
mapped_partition i threw r e = absurd (cc)

module _ (fuel index : ℕ) (payload : List ℕ) (w : Surroundings) (deadline : ℕ) (pr after : Producer)
    (r : PublishResult) where
  publish_to-there :
      publish_to fuel index payload w deadline pr ≡ some (acked r, after)
      → (r.partition ≡ index)
        × ((j : ℕ) → index ≢ j → partition after.topic j ≡ partition pr.topic j)
  unfolding publish_to partition
  publish_to-there e = elim (Option-cases (get_elem? pr.topic.partitions index)) [
    | inl missing ↦ absurd (let e' = rw (missing, publish_to) at e in cc)
    | inr (p, there) ↦ elim (Option-cases (Partition.publish fuel payload w deadline p)) [
      | inl waiting ↦ absurd (let e' = rw (there, waiting, publish_to) at e in cc)
      | inr ((answer, q), done) ↦
          let e' = rw (there, done, publish_to) at e in
          let mapped : answer_map (λ o. record { partition = index; offset = o }) answer ≡ acked r =
            cc in
          let kept : put_back index q pr ≡ after = cc in
          (
            mapped_partition index answer r mapped,
            λ j h. rw (← kept) (get_elem?-set_other pr.topic.partitions index j q h),
          )
    ]
  ]

-- A keyed publish that is acknowledged went to the partition that the key's hash names, and left
-- every other partition of the topic as it was.
publish_keyed-partition :
    (hash : List ℕ → ℕ) (fuel : ℕ) (key payload : List ℕ) (w : Surroundings) (deadline : ℕ)
    (pr after : Producer) (r : PublishResult)
    → publish_keyed hash fuel key payload w deadline pr ≡ some (acked r, after)
    → (r.partition ≡ hash key % num_partitions pr.topic)
      × ((j : ℕ)
          → hash key % num_partitions pr.topic ≢ j
          → partition after.topic j ≡ partition pr.topic j)
unfolding publish_keyed
publish_keyed-partition hash fuel key payload w deadline pr after r e =
    publish_to-there fuel (hash key % num_partitions pr.topic) payload w deadline pr after r e

get_elem?-set_same :
    (xs : List Partition) (i : ℕ) (x y : Partition)
    → get_elem? xs i ≡ some y
    → get_elem? (set xs i x) i ≡ some x
get_elem?-set_same [] i x y e = absurd (cc)
get_elem?-set_same (z ∷ xs) zero x y e = refl
get_elem?-set_same (z ∷ xs) (suc i) x y e = get_elem?-set_same xs i x y e

mapped_offset :
    (i : ℕ) (a : Answer ℕ) (r : PublishResult)
    → answer_map (λ o. record { partition = i; offset = o }) a ≡ acked r
    → a ≡ acked r.offset
mapped_offset i (acked o) r e = cc
mapped_offset i rejected r e = absurd (cc)
mapped_offset i threw r e = absurd (cc)

publish_to-stored :
    (fuel index : ℕ) (payload : List ℕ) (w : Surroundings) (deadline : ℕ) (pr after : Producer)
    (r : PublishResult) (p : Partition)
    → partition pr.topic index ≡ some p
    → publish_to fuel index payload w deadline pr ≡ some (acked r, after)
    → (q : Partition) × (Partition.publish fuel payload w deadline p ≡ some (acked r.offset, q))
      × (partition after.topic index ≡ some q)
unfolding publish_to partition
publish_to-stored fuel index payload w deadline pr after r p there e =
    elim (Option-cases (Partition.publish fuel payload w deadline p)) [
      | inl waiting ↦ absurd (let e' = rw (there, waiting, publish_to) at e in cc)
      | inr ((answer, q), done) ↦
          let e' = rw (there, done, publish_to) at e in
          let mapped : answer_map (λ o. record { partition = index; offset = o }) answer ≡ acked r =
            cc in
          let kept : put_back index q pr ≡ after = cc in
          let was = mapped_offset index answer r mapped in
          (
            q,
            rw (done, was) refl,
            rw (← kept) (get_elem?-set_same pr.topic.partitions index q p there),
          )
    ]

-- A keyed publish of a payload that fits in a segment, to a partition whose log holds the payloads
-- `ps` from `base` on, below the offset 2 ^ 64 - 1: if it is acknowledged, after however many rounds of
-- waiting, the partition that the key's hash names holds `ps` and then the payload, which is at the
-- offset of the acknowledgement, and every other partition is as it was.
pub publish_keyed-delivers :
    (hash : List ℕ → ℕ) (fuel : ℕ) (key payload : List ℕ) (w : Surroundings) (deadline : ℕ)
    (pr after : Producer) (r : PublishResult) (p : Partition) (base : ℕ) (ps : List (List ℕ))
    → partition pr.topic (hash key % num_partitions pr.topic) ≡ some p
    → HoldsLog base p.log ps
    → IsPayload payload
    → 16 + length payload ≤ p.log.max_segment_bytes
    → base + length ps + 1 < 2 ^ 64
    → publish_keyed hash fuel key payload w deadline pr ≡ some (acked r, after)
    → (r.partition ≡ hash key % num_partitions pr.topic)
      × (r.offset ≡ base + length ps)
      × ((q : Partition) × (partition after.topic (hash key % num_partitions pr.topic) ≡ some q)
          × HoldsLog base q.log (ps ++ payload ∷ []))
      × ((j : ℕ)
          → hash key % num_partitions pr.topic ≢ j
          → partition after.topic j ≡ partition pr.topic j)
unfolding publish_keyed
publish_keyed-delivers hash fuel key payload w deadline pr after r p base ps there h ok fits offsets
      e =
    let index = hash key % num_partitions pr.topic in
    let (place, others) = publish_to-there fuel index payload w deadline pr after r e in
    let (q, done, stored) = publish_to-stored fuel index payload w deadline pr after r p there e in
    let (offset, held) =
      publish-delivers base payload ok fuel w deadline r.offset p q ps h fits offsets done in
    (place, offset, (q, stored, held), others)

-- The partition's acknowledgement is passed on with the partition's index.
pub publish_keyed-acked :
    (hash : List ℕ → ℕ) (fuel : ℕ) (key payload : List ℕ) (w : Surroundings) (deadline : ℕ)
    (pr : Producer) (p q : Partition) (o : ℕ)
    → partition pr.topic (hash key % num_partitions pr.topic) ≡ some p
    → Partition.publish fuel payload w deadline p ≡ some (acked o, q)
    → publish_keyed hash fuel key payload w deadline pr
      ≡ some (
        acked (record { partition = hash key % num_partitions pr.topic; offset = o }),
        put_back (hash key % num_partitions pr.topic) q pr,
      )
unfolding publish_keyed publish_to
publish_keyed-acked hash fuel key payload w deadline pr p q o there done =
    rw (there, done, publish_keyed, publish_to) refl
