-- ===== src/Broker/HashRing/Remap.antt =====
-- Which keys move when a partition is added.
use cascade.Base.{
  ℕ, zero, suc, ◌≡◌, refl, ◌∙◌, ◌⊎◌, inl, inr, List, [], ◌∷◌, some, Option-cases, arith,
}
use cascade.Broker.HashRing.{
  HashRing, insert_point, lower_bound, begin, owner, wrap_around, add_nodes, add_partition,
  partition_for, virtual_node_name,
}

-- A new point is the next one for a hash, or the next one is what it was.
lower_bound-insert_point :
    (h k p : ℕ) (ring : List (ℕ × ℕ))
    → (lower_bound h (insert_point k p ring) ≡ some (k, p))
      ⊎ (lower_bound h (insert_point k p ring) ≡ lower_bound h ring)
unfolding lower_bound insert_point
lower_bound-insert_point h k p [] = ground arith
lower_bound-insert_point h k p ((j, q) ∷ ring) = ground (arith, lower_bound-insert_point h k p ring)

begin-insert_point :
    (k p : ℕ) (ring : List (ℕ × ℕ))
    → (begin (insert_point k p ring) ≡ some (k, p)) ⊎ (begin (insert_point k p ring) ≡ begin ring)
unfolding begin insert_point
begin-insert_point k p [] = inl refl
begin-insert_point k p ((j, q) ∷ ring) = ground arith

owner-insert_point :
    (h k p : ℕ) (ring : List (ℕ × ℕ))
    → (owner h (insert_point k p ring) ≡ some p) ⊎ (owner h (insert_point k p ring) ≡ owner h ring)
unfolding owner wrap_around
owner-insert_point h k p ring = elim (lower_bound-insert_point h k p ring) [
  | inl mine ↦ inl (rw (owner, mine) refl)
  | inr same ↦ elim (Option-cases (lower_bound h ring)) [
    | inr (point, e) ↦ inr (rw (owner, same, e) refl)
    | inl none_after ↦ elim (begin-insert_point k p ring) [
      | inl mine ↦ inl (rw (owner, same, none_after, mine) refl)
      | inr first ↦ inr (rw (owner, same, none_after, first) refl)
    ]
  ]
]

pub owner-add_nodes :
    (hash : List ℕ → ℕ) (h p n v : ℕ) (ring : List (ℕ × ℕ))
    → (owner h (add_nodes hash p n v ring) ≡ some p)
      ⊎ (owner h (add_nodes hash p n v ring) ≡ owner h ring)
unfolding add_nodes
owner-add_nodes hash h p zero v ring = inr refl
owner-add_nodes hash h p (suc n) v ring =
    let point = hash (virtual_node_name p v) in
    elim (owner-add_nodes hash h p n (suc v) (insert_point point p ring)) [
      | inl mine ↦ inl mine
      | inr same ↦ elim (owner-insert_point h point p ring) [
        | inl mine ↦ inl (same ∙ mine)
        | inr kept ↦ inr (same ∙ kept)
      ]
    ]

-- Adding a partition moves keys only to the new partition: a key's partition is the new one or what
-- it was before, whatever the hash and its collisions.
pub partition_for-add_partition :
    (hash : List ℕ → ℕ) (key : List ℕ) (p : ℕ) (r : HashRing)
    → (partition_for hash key (add_partition hash p r) ≡ some p)
      ⊎ (partition_for hash key (add_partition hash p r) ≡ partition_for hash key r)
unfolding partition_for add_partition
partition_for-add_partition hash key p r =
    owner-add_nodes hash (hash key) p r.virtual_nodes 0 r.ring
