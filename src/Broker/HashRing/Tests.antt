-- ===== src/Broker/HashRing/Tests.antt =====
-- The theorem on the hash ring at a concrete input.
use cascade.Base.{◌≡◌, ◌⊎◌, [], ◌∷◌, some, length}
use cascade.Broker.HashRing.{new_ring, add_partition, partition_for}
use cascade.Broker.HashRing.Remap.{partition_for-add_partition}

partition_for-add_partition_example :
    let r = add_partition length 0 (new_ring 2) in
    (partition_for length (1 ∷ 2 ∷ []) (add_partition length 11 r) ≡ some 11)
    ⊎ (partition_for length (1 ∷ 2 ∷ []) (add_partition length 11 r)
        ≡ partition_for length (1 ∷ 2 ∷ []) r)
partition_for-add_partition_example =
    partition_for-add_partition length (1 ∷ 2 ∷ []) 11 (add_partition length 0 (new_ring 2))
