-- ===== src/Memory/MemoryPool/Safety.antt =====
-- What the pool's callers rely on, at every state that calls can reach.
use cascade.Base.{
  ℕ, ◌+◌, ◌≤◌, ◌<◌, ◌≡◌, refl, ap, subst, sym, ◌∙◌, ◌≢◌, ◌⊎◌, inl, inr, true, false, List, [], ◌∷◌,
  map, Option, none, some, arith, length, length-replicate, Bool-cases,
}
use cascade.Memory.MemoryPool.{
  MemoryPool, block_ptr, null_index, max_slabs, exhausted, grow, initial, new_pool, pop_head,
  push_head, set_link, allocate, deallocate, block_capacity,
}
use cascade.Memory.MemoryPool.Table.{index_of-pack}
use cascade.Memory.MemoryPool.FreeList.{count, without, IsChain, Holds, push_head-Holds}
use cascade.Memory.MemoryPool.Growth.{add_slab-Holds}
use cascade.Memory.MemoryPool.Blocks.{Placed}
use cascade.Memory.MemoryPool.Members.{count-map_source, count-map, length-map}
use native.Mathlib.Decide.{dec_lt}
use cascade.Memory.MemoryPool.Owners.{
  Fresh, Promised, Reached, constructed, allocated_one, returned_one, Owns, allocate_loop-listed,
  allocate-grown, allocate-full, allocate-refused, pop-Owns, add_slab-Placed, grown-Owns, in_use,
  returned-Owns, blocks_differ,
}

initial-Holds : (blocks : ℕ) → 0 < blocks → Holds (initial blocks) [] []
unfolding initial IsChain count
initial-Holds blocks positive = record {
  blocks = positive;
  bound = omega arith;
  indices = omega arith;
  slab_table = length-replicate {A = ℕ} max_slabs 0;
  link_table = length-replicate {A = List ℕ} max_slabs [];
  rows = λ s l. absurd (omega arith);
  chained = index_of-pack null_index 0 (omega arith);
  once = λ i. ground arith;
  total = omega arith;
  counted = refl;
}

-- The account of a call's result: the exception leaves none.
PoolOwns : ℕ → Option MemoryPool → Type 0
PoolOwns stride none = Unit
PoolOwns stride (some p) = Owns stride p []

CallOwns : ℕ → List ℕ → Option (ℕ × MemoryPool) → Type 0
CallOwns stride held none = Unit
CallOwns stride held (some (ptr, q)) = Owns stride q (ptr ∷ held)

initial_blocks : (blocks : ℕ) → exhausted (initial blocks) ≡ false → 0 < blocks
unfolding initial exhausted
initial_blocks blocks fits = ground arith

initial-Fresh : (stride blocks raw : ℕ) → 0 < raw → Fresh stride (initial blocks) raw
unfolding initial Fresh
initial-Fresh stride blocks raw nonnull = (nonnull, λ s l. absurd (omega arith))

module _ (stride : ℕ) (positive : 0 < stride) where
  initial-Placed : (blocks : ℕ) → Placed stride (initial blocks)
  unfolding initial
  initial-Placed blocks = record {
    nonnull = λ s l. absurd (omega arith);
    apart = λ s t l m. absurd (omega arith);
  }

  constructed-Owns : (blocks raw : ℕ) → 0 < raw → PoolOwns stride (new_pool blocks (some raw))
  unfolding new_pool grow PoolOwns
  constructed-Owns blocks raw nonnull = elim (Bool-cases (exhausted (initial blocks))) [
    | inl full ↦ rw full tt
    | inr fits ↦
        let filled = initial_blocks blocks fits in
        let base = initial-Holds blocks filled in
        rw fits (record {
          indices = [];
          free = _;
          holds = add_slab-Holds raw (initial blocks) [] [] base fits;
          placed =
              add_slab-Placed stride positive raw (initial blocks) [] [] base fits
                (initial-Fresh stride blocks raw nonnull) (initial-Placed blocks);
          located = refl;
        })
  ]

  allocated-Owns :
      (raw : Option ℕ) (p : MemoryPool) (indices free held : List ℕ)
      → Holds p indices free
      → Placed stride p
      → map (block_ptr stride p) indices ≡ held
      → Promised stride p raw
      → CallOwns stride held (allocate stride raw p)
  unfolding allocate CallOwns Promised
  allocated-Owns raw p indices (i ∷ rest) held h placed e promised =
      rw (allocate_loop-listed stride p indices 1 raw i rest h)
        (pop-Owns stride positive p indices held i rest h placed e)
  allocated-Owns none p indices [] held h placed e promised =
      rw (allocate-refused stride p indices h) tt
  allocated-Owns (some raw) p indices [] held h placed e promised =
      elim (Bool-cases (exhausted p)) [
        | inl full ↦ rw (allocate-full stride p indices (some raw) h full) tt
        | inr fits ↦
            let own : Owns stride p held = record {
              indices = indices;
              free = [];
              holds = h;
              placed = placed;
              located = e;
            } in
            rw (allocate-grown stride p indices raw h fits)
              (grown-Owns stride positive raw p held own refl fits promised)
      ]

  -- Every state that calls reach has such an account.
  Reached-Owns : (p : MemoryPool) (held : List ℕ) → Reached stride p held → Owns stride p held
  unfolding PoolOwns CallOwns
  Reached-Owns p _ (constructed blocks raw nonnull made) =
      subst (PoolOwns stride) made (constructed-Owns blocks raw nonnull)
  Reached-Owns _ _ (allocated_one raw {p} {q} {held} {ptr} before promised e) =
      let h = Reached-Owns p held before in
      subst (CallOwns stride held) e
        (allocated-Owns raw p h.indices h.free held h.holds h.placed h.located promised)
  Reached-Owns _ _ (returned_one ptr {p} {held} before m) =
      returned-Owns stride positive ptr p held (Reached-Owns p held before) m

  used_apart :
      (p : MemoryPool) (held : List ℕ) (h : Owns stride p held) (a b : ℕ)
      → 0 < count a held
      → 0 < count b held
      → a ≢ b
      → (a + stride ≤ b) ⊎ (b + stride ≤ a)
  used_apart p held h a b ma mb ne =
      let f = block_ptr stride p in
      let mapped =
        subst (λ xs. (c : ℕ) → 0 < count c xs → 0 < count c (map f h.indices)) h.located
          (λ c m. m) in
      let (i, mi, ei) = count-map_source f a h.indices (mapped a ma) in
      let (j, mj, ej) = count-map_source f b h.indices (mapped b mb) in
      let apart : i ≢ j = λ e. ne (sym ei ∙ ap f e ∙ ej) in
      elim (blocks_differ stride positive p held h i j mi mj apart) [
        | inl l ↦ inl (omega (arith, ei, ej))
        | inr l ↦ inr (omega (arith, ei, ej))
      ]

  used_once : (p : MemoryPool) (held : List ℕ) (h : Owns stride p held) (a : ℕ) → count a held ≤ 1
  used_once p held h a =
      let f = block_ptr stride p in
      let mapped : count a (map f h.indices) ≡ count a held = ap (count a) h.located in
      elim (dec_lt 0 (count a held)) [
        | no none_used ↦ omega arith
        | yes m ↦
            let (i, mi, ei) = count-map_source f a h.indices (omega (arith, mapped)) in
            let distinct : (j : ℕ) → 0 < count j h.indices → i ≢ j → f i ≢ f j = λ j mj ne same.
              elim (blocks_differ stride positive p held h i j mi mj ne) [
                | inl l ↦ omega (arith, positive, same)
                | inr l ↦ omega (arith, positive, same)
              ] in
            let times : count a (map f h.indices) ≡ count i h.indices =
              ap (λ c. count c (map f h.indices)) (sym ei) ∙ count-map f i h.indices distinct in
            ground (arith, times, mapped, h.holds.once i)
      ]

  -- In every state that calls reach, the addresses in use are as many as the pool counts, none of
  -- them is in use twice, and two of them are at least a block apart: where a block has a positive
  -- size, `operator new` answers with memory that is not null and apart from the slabs that it gave
  -- before, and a caller only returns an address that is in use.
  pub Reached-apart :
      (p : MemoryPool) (held : List ℕ)
      → Reached stride p held
      → (p.allocated ≡ length held)
        × ((a : ℕ) → count a held ≤ 1)
        × ((a b : ℕ)
            → 0 < count a held
            → 0 < count b held
            → a ≢ b
            → (a + stride ≤ b) ⊎ (b + stride ≤ a))
  Reached-apart p held reached =
      let h = Reached-Owns p held reached in
      let f = block_ptr stride p in
      (
        h.holds.counted ∙ sym (length-map f h.indices) ∙ ap length h.located,
        λ a. used_once p held h a,
        λ a b ma mb ne. used_apart p held h a b ma mb ne,
      )

  throws_full :
      (p : MemoryPool) (indices free : List ℕ)
      → Holds p indices free
      → (raw : Option ℕ) → allocate stride raw p ≡ none
      → length indices ≡ block_capacity p
  unfolding allocate block_capacity
  throws_full p indices [] h raw e = omega (arith, h.total, h.indices)
  throws_full p indices (i ∷ rest) h raw e =
      absurd (cc (e, allocate_loop-listed stride p indices 1 raw i rest h))

  throws_exhausted :
      (p : MemoryPool) (indices free : List ℕ)
      → Holds p indices free
      → (raw : ℕ) → allocate stride (some raw) p ≡ none
      → exhausted p ≡ true
  unfolding allocate
  throws_exhausted p indices (i ∷ rest) h raw e =
      absurd (cc (e, allocate_loop-listed stride p indices 1 (some raw) i rest h))
  throws_exhausted p indices [] h raw e = elim (Bool-cases (exhausted p)) [
    | inl full ↦ full
    | inr fits ↦ absurd (cc (e, allocate-grown stride p indices raw h fits))
  ]

  -- In every state that calls reach, a call of `allocate` with memory for a new slab at hand throws
  -- only if every block of the pool is in use and the pool may have no further slab; without such
  -- memory it throws only if every block of the pool is in use.
  pub allocate-throws :
      (p : MemoryPool) (held : List ℕ)
      → Reached stride p held
      → ((raw : Option ℕ) → allocate stride raw p ≡ none → length held ≡ block_capacity p)
        × ((raw : ℕ) → allocate stride (some raw) p ≡ none → exhausted p ≡ true)
  allocate-throws p held reached =
      let h = Reached-Owns p held reached in
      let same : length h.indices ≡ length held =
        sym (length-map (block_ptr stride p) h.indices) ∙ ap length h.located in
      (
        λ raw e. omega (arith, same, throws_full p h.indices h.free h.holds raw e),
        λ raw e. throws_exhausted p h.indices h.free h.holds raw e,
      )

  push_then_pop :
      (p : MemoryPool) (i : ℕ) (indices rest : List ℕ)
      → Holds p indices rest
      → Holds (push_head i p) (without i indices) (i ∷ rest)
      → ((pop_head stride (push_head i p)).0 ≡ block_ptr stride p i)
        × ((pop_head stride (push_head i p)).1.allocated ≡ p.allocated)
  unfolding pop_head push_head set_link block_ptr IsChain
  push_then_pop p i indices rest h back =
      (rw back.chained.0 refl, omega (arith, h.counted, h.total, h.indices))

  -- In every state that calls reach, the address that was returned last is the next to be handed
  -- out, and the pool then counts as many blocks in use as before the return.
  allocate-deallocate :
      (raw : Option ℕ) (ptr : ℕ) (p : MemoryPool) (held : List ℕ)
      → Reached stride p held
      → 0 < count ptr held
      → (q : MemoryPool) × (allocate stride raw (deallocate stride ptr p) ≡ some (ptr, q))
        × (q.allocated ≡ p.allocated)
  unfolding allocate
  allocate-deallocate raw ptr p held reached m =
      let h = Reached-Owns p held reached in
      let (i, mine, e, pushed) = in_use stride positive ptr p held h m in
      let back = push_head-Holds stride p h.indices i h.free h.holds mine in
      let taken =
        allocate_loop-listed stride (push_head i p) (without i h.indices) 1 raw i h.free back in
      let (same, count_same) = push_then_pop p i h.indices h.free h.holds back in
      (
        (pop_head stride (push_head i p)).1,
        rw (pushed, taken) (ap (λ x. some (x, (pop_head stride (push_head i p)).1)) (same ∙ e)),
        count_same,
      )
