-- ===== src/Memory/MemoryPool/Tests.antt =====
-- Runs of the pool, and the theorems at concrete inputs.
use cascade.Base.{
  ℕ, ◌+◌, ◌≤◌, ◌<◌, ◌≡◌, ◌≢◌, ◌⊎◌, inl, refl, true, [], ◌∷◌, Option, none, some, arith,
}
use cascade.Memory.MemoryPool.{
  MemoryPool, initial, new_pool, add_slab, grow, exhausted, pop_head, allocate, allocate_loop,
  grow_if_still_empty, block_capacity, chain_links, link, block_ptr, pack, index_of, generation_of,
}
use cascade.Memory.MemoryPool.FreeList.{count}
use cascade.Memory.MemoryPool.Owners.{Fresh, Promised, Reached, constructed, allocated_one}
use cascade.Memory.MemoryPool.Safety.{Reached-apart, allocate-throws}

-- Two blocks of 8 bytes at 4096; then both are taken, and a third from a second slab at 8192.
abbrev two_blocks : MemoryPool
two_blocks = add_slab 4096 (initial 2)

abbrev one_taken : MemoryPool
one_taken = (pop_head 8 two_blocks).1

abbrev both_taken : MemoryPool
both_taken = (pop_head 8 one_taken).1

abbrev third_taken : MemoryPool
third_taken = (pop_head 8 (add_slab 8192 both_taken)).1

two_blocks-Reached : Reached 8 two_blocks []
unfolding new_pool grow exhausted initial allocate allocate_loop grow_if_still_empty pop_head
    add_slab chain_links link block_ptr pack index_of generation_of count Fresh Promised
two_blocks-Reached = constructed 2 4096 (omega arith) refl

one_taken-Reached : Reached 8 one_taken (4096 ∷ [])
unfolding new_pool grow exhausted initial allocate allocate_loop grow_if_still_empty pop_head
    add_slab chain_links link block_ptr pack index_of generation_of count Fresh Promised
one_taken-Reached = allocated_one none two_blocks-Reached tt refl

both_taken-Reached : Reached 8 both_taken (4104 ∷ 4096 ∷ [])
unfolding new_pool grow exhausted initial allocate allocate_loop grow_if_still_empty pop_head
    add_slab chain_links link block_ptr pack index_of generation_of count Fresh Promised
both_taken-Reached = allocated_one none one_taken-Reached tt refl

third_taken-Reached : Reached 8 third_taken (8192 ∷ 4104 ∷ 4096 ∷ [])
unfolding new_pool grow exhausted initial allocate allocate_loop grow_if_still_empty pop_head
    add_slab chain_links link block_ptr pack index_of generation_of count Fresh Promised
third_taken-Reached =
    allocated_one (some 8192) both_taken-Reached
      (omega arith, λ s l. inl (let e : s ≡ 0 = omega (arith, l) in rw e (omega arith))) refl

Reached-apart_example :
    (third_taken.allocated ≡ 3)
    × ((a : ℕ) → count a (8192 ∷ 4104 ∷ 4096 ∷ []) ≤ 1)
    × ((a b : ℕ)
        → 0 < count a (8192 ∷ 4104 ∷ 4096 ∷ [])
        → 0 < count b (8192 ∷ 4104 ∷ 4096 ∷ [])
        → a ≢ b
        → (a + 8 ≤ b) ⊎ (b + 8 ≤ a))
Reached-apart_example =
    Reached-apart 8 (omega arith) third_taken (8192 ∷ 4104 ∷ 4096 ∷ []) third_taken-Reached

allocate-throws_example :
    ((raw : Option ℕ) → allocate 8 raw both_taken ≡ none → 2 ≡ block_capacity both_taken)
    × ((raw : ℕ) → allocate 8 (some raw) both_taken ≡ none → exhausted both_taken ≡ true)
allocate-throws_example =
    allocate-throws 8 (omega arith) both_taken (4104 ∷ 4096 ∷ []) both_taken-Reached
