-- ===== src/Memory/MemoryPool/Owners.antt =====
-- The pool as its callers see it: the addresses that are handed out and come back.
use cascade.Base.{
  ℕ, suc, ◌+◌, ◌*◌, ◌/◌, ◌%◌, ◌≤◌, ◌<◌, ◌≡◌, refl, ap, subst, sym, ◌∙◌, ◌≢◌, ◌⊎◌, inl, inr, true,
  false, List, [], ◌∷◌, map, Option, none, some, arith, ==_ne, get_or, set, get_or-set_same,
  get_or-set_other,
}
use cascade.Memory.MemoryPool.{
  MemoryPool, block_ptr, null_index, exhausted, add_slab, grow, grow_if_still_empty, new_pool,
  pop_head, push_head, allocate, allocate_loop, deallocate, index_of, index_from_ptr, set_link,
}
use cascade.Memory.MemoryPool.FreeList.{
  count, without, IsChain, free_lt, Holds, held_lt, row_inside, pop_head-Holds, push_head-Holds,
}
use cascade.Memory.MemoryPool.Growth.{room, empty_add_slab-Holds}
use cascade.Memory.MemoryPool.Blocks.{Placed, blocks_apart, block_nonnull, index_from_ptr-block_ptr}
use cascade.Memory.MemoryPool.Members.{map_ext, count-map_source, without-map}
use native.Mathlib.Decide.{ℕ_discrete}

-- What `operator new` promises of the memory at `raw`: not null, and apart from every slab.
unfoldable pub Fresh : ℕ → MemoryPool → ℕ → Type 0
Fresh stride p raw =
    (0 < raw)
    × ((s : ℕ)
        → s < p.slab_count
        → (get_or p.slabs s 0 + stride * p.blocks_per_slab ≤ raw)
          ⊎ (raw + stride * p.blocks_per_slab ≤ get_or p.slabs s 0))

unfoldable pub Promised : ℕ → MemoryPool → Option ℕ → Type 0
Promised stride p none = Unit
Promised stride p (some raw) = Fresh stride p raw

-- The states of a pool of blocks of `stride` bytes, with the addresses that are in use: from the
-- constructor by any calls, where a caller only returns an address that is in use.
pub data Reached (stride : ℕ) : MemoryPool → List ℕ → Type 0 where
  constructed :
      (blocks raw : ℕ) {p : MemoryPool}
      → 0 < raw
      → new_pool blocks (some raw) ≡ some p
      → Reached stride p []
  allocated_one :
      (raw : Option ℕ) {p q : MemoryPool} {held : List ℕ} {ptr : ℕ}
      → Reached stride p held
      → Promised stride p raw
      → allocate stride raw p ≡ some (ptr, q)
      → Reached stride q (ptr ∷ held)
  returned_one :
      (ptr : ℕ) {p : MemoryPool} {held : List ℕ}
      → Reached stride p held
      → 0 < count ptr held
      → Reached stride (deallocate stride ptr p) (without ptr held)

-- The pool's own account of the addresses in use.
pub record Owns (stride : ℕ) (p : MemoryPool) (held : List ℕ) : Type 0 where
  pub indices : List ℕ
  pub free : List ℕ
  pub holds : Holds p indices free
  pub placed : Placed stride p
  pub located : map (block_ptr stride p) indices ≡ held

module _ (stride : ℕ) (p : MemoryPool) (held : List ℕ) where
  -- A free block is taken at once, whatever `operator new` would say.
  pub allocate_loop-listed :
      (fuel : ℕ) (raw : Option ℕ) (i : ℕ) (rest : List ℕ)
      → Holds p held (i ∷ rest)
      → allocate_loop (suc fuel) stride raw p ≡ some (pop_head stride p)
  unfolding allocate_loop IsChain count
  allocate_loop-listed fuel raw i rest h =
      let l = free_lt p held (i ∷ rest) h i (ground arith) in
      let e = h.chained.0 in
      rw (==_ne (index_of p.free_head) null_index (omega (arith, e, l, h.indices))) refl

module _ (stride : ℕ) (p : MemoryPool) (held : List ℕ) where
  -- Without a free block the pool grows first.
  pub allocate-grown :
      (raw : ℕ)
      → Holds p held []
      → exhausted p ≡ false
      → allocate stride (some raw) p ≡ some (pop_head stride (add_slab raw p))
  unfolding allocate allocate_loop IsChain grow_if_still_empty grow
  allocate-grown raw h fits =
      rw (h.chained, fits)
        (allocate_loop-listed stride (add_slab raw p) held 0 (some raw) _ _
          (empty_add_slab-Holds raw p held h fits))

  pub allocate-full :
      (raw : Option ℕ) → Holds p held [] → exhausted p ≡ true → allocate stride raw p ≡ none
  unfolding allocate allocate_loop IsChain grow_if_still_empty grow
  allocate-full none h full = rw (h.chained) refl
  allocate-full (some raw) h full = rw (h.chained, full) refl

  pub allocate-refused : Holds p held [] → allocate stride none p ≡ none
  unfolding allocate allocate_loop IsChain grow_if_still_empty grow
  allocate-refused h = rw (h.chained) refl

module _ (stride : ℕ) (positive : 0 < stride) where
  pub pop-Owns :
      (p : MemoryPool) (indices held : List ℕ) (i : ℕ) (rest : List ℕ)
      → Holds p indices (i ∷ rest)
      → Placed stride p
      → map (block_ptr stride p) indices ≡ held
      → Owns stride ((pop_head stride p).1) ((pop_head stride p).0 ∷ held)
  unfolding pop_head block_ptr IsChain
  pop-Owns p indices held i rest h placed e = record {
    indices = i ∷ indices;
    free = rest;
    holds = pop_head-Holds stride p indices i rest h;
    placed = record { nonnull = placed.nonnull; apart = placed.apart };
    located = rw (h.chained.0, e) refl;
  }

  block_ptr-add_slab :
      (raw : ℕ) (p : MemoryPool) (indices free : List ℕ) (i : ℕ)
      → Holds p indices free
      → 0 < count i indices
      → block_ptr stride (add_slab raw p) i ≡ block_ptr stride p i
  unfolding block_ptr add_slab
  block_ptr-add_slab raw p indices free i h m =
      let row = row_inside p indices free h i (held_lt p indices free h i m) in
      ap (λ base. base + i % p.blocks_per_slab * stride)
        (get_or-set_other p.slabs p.slab_count (i / p.blocks_per_slab) raw 0 (λ e. omega arith))

  pub add_slab-Placed :
      (raw : ℕ) (p : MemoryPool) (indices free : List ℕ)
      → Holds p indices free
      → exhausted p ≡ false
      → Fresh stride p raw
      → Placed stride p
      → Placed stride (add_slab raw p)
  unfolding add_slab Fresh
  add_slab-Placed raw p indices free h fits fresh placed =
      let n = p.slab_count in
      let (few, filled, all) = room p fits h.indices in
      let here : get_or (set p.slabs n raw) n 0 ≡ raw =
        get_or-set_same p.slabs n raw 0 (omega (arith, few, h.slab_table)) in
      let there : (s : ℕ) → s < n → get_or (set p.slabs n raw) s 0 ≡ get_or p.slabs s 0 =
        λ s l. get_or-set_other p.slabs n s raw 0 (λ e. omega arith) in
      record {
        nonnull = λ s l. elim (ℕ_discrete s n) [
          | yes e ↦ rw (e, here) fresh.0
          | no ne ↦ let old : s < n = omega (arith, ne) in rw (there s old) (placed.nonnull s old)
        ];
        apart = λ s t l m. elim (ℕ_discrete t n) [
          | yes e ↦ rw (e, here, there s (omega arith)) (fresh.1 s (omega arith))
          | no ne ↦
              let old : t < n = omega (arith, ne) in
              rw (there s (omega arith), there t old) (placed.apart s t l old)
        ];
      }

  pub grown-Owns :
      (raw : ℕ) (p : MemoryPool) (held : List ℕ) (h : Owns stride p held)
      → h.free ≡ []
      → exhausted p ≡ false
      → Fresh stride p raw
      → Owns stride
          ((pop_head stride (add_slab raw p)).1)
          ((pop_head stride (add_slab raw p)).0 ∷ held)
  grown-Owns raw p held h none_free fits fresh =
      let empty = subst (λ free. Holds p h.indices free) none_free h.holds in
      let grown = empty_add_slab-Holds raw p h.indices empty fits in
      let placed = add_slab-Placed raw p h.indices [] empty fits fresh h.placed in
      pop-Owns (add_slab raw p) h.indices held _ _ grown placed
        (map_ext _ _ h.indices (λ i m. block_ptr-add_slab raw p h.indices [] i empty m) ∙ h.located)

  pub blocks_differ :
      (p : MemoryPool) (held : List ℕ) (h : Owns stride p held) (i j : ℕ)
      → 0 < count i h.indices
      → 0 < count j h.indices
      → i ≢ j
      → (block_ptr stride p i + stride ≤ block_ptr stride p j)
        ⊎ (block_ptr stride p j + stride ≤ block_ptr stride p i)
  blocks_differ p held h i j mi mj ne =
      let inside : (k : ℕ) → 0 < count k h.indices → k / p.blocks_per_slab < p.slab_count =
        λ k m. row_inside p h.indices h.free h.holds k (held_lt p h.indices h.free h.holds k m) in
      blocks_apart stride p h.placed h.holds.blocks i j ne (inside i mi) (inside j mj)

  -- The block of an address in use.
  pub in_use :
      (ptr : ℕ) (p : MemoryPool) (held : List ℕ) (h : Owns stride p held)
      → 0 < count ptr held
      → (i : ℕ) × (0 < count i h.indices)
        × (block_ptr stride p i ≡ ptr)
        × (deallocate stride ptr p ≡ push_head i p)
  unfolding deallocate
  in_use ptr p held h m =
      let (i, mine, e) =
        count-map_source (block_ptr stride p) ptr h.indices
          (subst (λ xs. 0 < count ptr xs) (sym h.located) m) in
      let l = held_lt p h.indices h.free h.holds i mine in
      let row = row_inside p h.indices h.free h.holds i l in
      let back =
        index_from_ptr-block_ptr stride p h.placed h.holds.blocks positive i
          (omega (arith, l, h.holds.indices)) row in
      let found = ap (index_from_ptr stride p) (sym e) ∙ back in
      let nonnull = block_nonnull stride p h.placed h.holds.blocks i row in
      (
        i,
        mine,
        e,
        rw
            (
              found,
              ==_ne ptr 0 (omega (arith, e, nonnull)),
              ==_ne i null_index (omega (arith, l, h.holds.indices)),
            )
            refl,
      )

  pub returned-Owns :
      (ptr : ℕ) (p : MemoryPool) (held : List ℕ)
      → Owns stride p held
      → 0 < count ptr held
      → Owns stride (deallocate stride ptr p) (without ptr held)
  unfolding push_head set_link block_ptr
  returned-Owns ptr p held h m =
      let (i, mine, e, pushed) = in_use ptr p held h m in
      let apart : (j : ℕ)
          → 0 < count j h.indices
          → i ≢ j
          → block_ptr stride p i ≢ block_ptr stride p j =
        λ j mj ne same. elim (blocks_differ p held h i j mine mj ne) [
          | inl a ↦ omega (arith, positive, same)
          | inr a ↦ omega (arith, positive, same)
        ] in
      rw pushed (record {
        indices = without i h.indices;
        free = i ∷ h.free;
        holds = push_head-Holds stride p h.indices i h.free h.holds mine;
        placed = record { nonnull = h.placed.nonnull; apart = h.placed.apart };
        located = sym (without-map (block_ptr stride p) i h.indices apart) ∙ rw (e, h.located) refl;
      })
