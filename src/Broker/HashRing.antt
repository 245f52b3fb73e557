-- ===== src/Broker/HashRing.antt =====
-- cpp/core/broker/consistent_hash.hpp: virtual nodes on a ring. The std::map is a list of its points
-- in order; `std::hash` is a parameter.
pub mod Owners
pub mod Remap
pub mod Tests
use cascade.Base.{
  ℕ, zero, suc, ◌+◌, List, [], ◌∷◌, ◌++◌, Option, none, some, ltb, leb, ◌==◌, if◌then◌else◌, length,
}
use cascade.Base.Text.{to_string}

-- `ring_[h] = partition_id`
pub insert_point : ℕ → ℕ → List (ℕ × ℕ) → List (ℕ × ℕ)
insert_point h partition_id [] = (h, partition_id) ∷ []
insert_point h partition_id ((j, p) ∷ ring) =
    let rest = insert_point h partition_id ring in
    if j == h
    then (h, partition_id) ∷ ring
    else if ltb h j
    then (h, partition_id) ∷ (j, p) ∷ ring
    else (j, p) ∷ rest

-- `ring_.erase(h)`
pub erase_point : ℕ → List (ℕ × ℕ) → List (ℕ × ℕ)
erase_point h [] = []
erase_point h ((j, p) ∷ ring) = if j == h then ring else (j, p) ∷ erase_point h ring

-- `ring_.lower_bound(h)`: the first point at or after `h`; none is `end()`.
pub lower_bound : ℕ → List (ℕ × ℕ) → Option (ℕ × ℕ)
lower_bound h [] = none
lower_bound h ((j, p) ∷ ring) = if leb h j then some (j, p) else lower_bound h ring

-- `ring_.begin()`
pub begin : List (ℕ × ℕ) → Option (ℕ × ℕ)
begin [] = none
begin (point ∷ ring) = some point

-- `if (it == ring_.end()) it = ring_.begin();` and the point's partition.
pub wrap_around : Option (ℕ × ℕ) → Option (ℕ × ℕ) → Option ℕ
wrap_around (some (j, p)) first = some p
wrap_around none (some (j, p)) = some p
wrap_around none none = none

-- The partition of a hash; none stands for the exception of an empty ring.
pub owner : ℕ → List (ℕ × ℕ) → Option ℕ
owner h ring = wrap_around (lower_bound h ring) (begin ring)

-- std::to_string(partition_id) + "#vnode#" + std::to_string(virtual_index)
pub virtual_node_name : ℕ → ℕ → List ℕ
virtual_node_name partition_id virtual_index =
    to_string partition_id
    ++ (35 ∷ 118 ∷ 110 ∷ 111 ∷ 100 ∷ 101 ∷ 35 ∷ [])
    ++ to_string virtual_index

pub record HashRing : Type 0 where
  pub virtual_nodes : ℕ
  pub ring : List (ℕ × ℕ)

abbrev pub new_ring : ℕ → HashRing
new_ring virtual_nodes = record { virtual_nodes = virtual_nodes; ring = [] }

pub ring_size : HashRing → ℕ
ring_size r = length r.ring

module _ (hash : List ℕ → ℕ) where
  -- The loops of `add_partition` and `remove_partition`, from virtual node `v` on, `n` to go.
  pub add_nodes : ℕ → ℕ → ℕ → List (ℕ × ℕ) → List (ℕ × ℕ)
  add_nodes partition_id zero v ring = ring
  add_nodes partition_id (suc n) v ring =
      add_nodes partition_id n (suc v)
        (insert_point (hash (virtual_node_name partition_id v)) partition_id ring)

  pub remove_nodes : ℕ → ℕ → ℕ → List (ℕ × ℕ) → List (ℕ × ℕ)
  remove_nodes partition_id zero v ring = ring
  remove_nodes partition_id (suc n) v ring =
      remove_nodes partition_id n (suc v)
        (erase_point (hash (virtual_node_name partition_id v)) ring)

  pub add_partition : ℕ → HashRing → HashRing
  add_partition partition_id r = record r { ring = add_nodes partition_id r.virtual_nodes 0 r.ring }

  pub remove_partition : ℕ → HashRing → HashRing
  remove_partition partition_id r = record r {
    ring = remove_nodes partition_id r.virtual_nodes 0 r.ring;
  }

  pub partition_for : List ℕ → HashRing → Option ℕ
  partition_for key r = owner (hash key) r.ring
