-- ===== src/Broker/HashRing/Owners.antt =====
-- A ring that has a partition gives every key an owner.
use cascade.Base.{ℕ, suc, ◌≡◌, ◌≢◌, refl, inl, inr, List, [], ◌∷◌, none, Option-cases, arith}
use cascade.Broker.HashRing.{
  HashRing, insert_point, lower_bound, begin, owner, wrap_around, add_nodes, add_partition,
  new_ring, partition_for, virtual_node_name,
}
use cascade.Broker.HashRing.Remap.{owner-add_nodes}

begin-insert_point_some : (k p : ℕ) (ring : List (ℕ × ℕ)) → begin (insert_point k p ring) ≢ none
unfolding begin insert_point
begin-insert_point_some k p [] = ground arith
begin-insert_point_some k p ((j, q) ∷ ring) = ground arith

owner_some : (h : ℕ) (ring : List (ℕ × ℕ)) → begin ring ≢ none → owner h ring ≢ none
unfolding owner wrap_around
owner_some h ring filled e = elim (Option-cases (lower_bound h ring)) [
  | inr (point, there) ↦ absurd (let e' = rw (there, owner) at e in cc)
  | inl past ↦ elim (Option-cases (begin ring)) [
    | inl missing ↦ filled missing
    | inr (point, there) ↦ absurd (let e' = rw (past, there, owner) at e in cc)
  ]
]

-- A partition with at least one virtual node has a place on the ring.
pub partition_for-add_partition_some :
    (hash : List ℕ → ℕ) (key : List ℕ) (p n : ℕ) (r : HashRing)
    → r.virtual_nodes ≡ suc n
    → partition_for hash key (add_partition hash p r) ≢ none
unfolding partition_for add_partition add_nodes
partition_for-add_partition_some hash key p n r nodes e =
    let e' = rw (nodes, add_partition, partition_for, add_nodes) at e in
    let point = hash (virtual_node_name p 0) in
    elim (owner-add_nodes hash (hash key) p n 1 (insert_point point p r.ring)) [
      | inl mine ↦ absurd (cc)
      | inr same ↦
          owner_some (hash key) (insert_point point p r.ring)
            (begin-insert_point_some point p r.ring) cc
    ]

pub add_partition-nodes :
    (hash : List ℕ → ℕ) (p : ℕ) (r : HashRing)
    → (add_partition hash p r).virtual_nodes ≡ r.virtual_nodes
unfolding add_partition
add_partition-nodes hash p r = refl

pub partition_for-new_ring :
    (hash : List ℕ → ℕ) (key : List ℕ) (nodes : ℕ) → partition_for hash key (new_ring nodes) ≡ none
unfolding partition_for owner wrap_around lower_bound begin
partition_for-new_ring hash key nodes = refl
