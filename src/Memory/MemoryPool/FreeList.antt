-- ===== src/Memory/MemoryPool/FreeList.antt =====
-- The free list of the pool and the blocks in use: what each operation on the head does to them.
use cascade.Base.{
  ℕ, ◌+◌, ◌*◌, ◌/◌, ◌^◌, ◌≤◌, ◌<◌, ◌≡◌, refl, subst, sym, ◌∙◌, List, [], ◌∷◌, arith, ltb, ◌==◌,
  ==_refl, ==_ne, if◌then◌else◌, get_or, length, length-set,
}
use cascade.Base.Word.{add32}
use cascade.Memory.MemoryPool.{
  MemoryPool, index_of, generation_of, link, set_link, pop_head, push_head, null_index, max_slabs,
}
use cascade.Memory.MemoryPool.Table.{
  index_of-pack, slab_lt, link-set_link_same, link-set_link_other, rows-set_link,
}
use native.Mathlib.Decide.{ℕ_discrete}

-- How often a block occurs.
unfoldable pub count : ℕ → List ℕ → ℕ
count i [] = 0
count i (x ∷ xs) = (if i == x then 1 else 0) + count i xs

unfoldable pub without : ℕ → List ℕ → List ℕ
without i [] = []
without i (x ∷ xs) = let rest = without i xs in if i == x then xs else x ∷ rest

pub count-without :
    (i j : ℕ) (xs : List ℕ)
    → 0 < count i xs
    → count j (without i xs) + (if j == i then 1 else 0) ≡ count j xs
unfolding count without
count-without i j [] h = absurd (omega arith)
count-without i j (x ∷ xs) h = elim (ℕ_discrete i x) [
  | yes e ↦ rw (e, ==_refl x) (omega arith)
  | no ne ↦
      let m : 0 < count i xs = ground arith in
      rw (==_ne i x ne) (omega (arith, count-without i j xs m))
]

pub length-without : (i : ℕ) (xs : List ℕ) → 0 < count i xs → length (without i xs) + 1 ≡ length xs
unfolding count without
length-without i [] h = absurd (omega arith)
length-without i (x ∷ xs) h = elim (ℕ_discrete i x) [
  | yes e ↦ rw (e, ==_refl x) (omega arith)
  | no ne ↦
      let m : 0 < count i xs = ground arith in
      rw (==_ne i x ne) (omega (arith, length-without i xs m))
]

-- The links lead from `head` through exactly these blocks.
unfoldable pub IsChain : MemoryPool → ℕ → List ℕ → Type 0
IsChain p head [] = head ≡ null_index
IsChain p head (i ∷ is) = (head ≡ i) × IsChain p (link p i) is

pub IsChain-ext :
    (p q : MemoryPool) (head : ℕ) (is : List ℕ)
    → ((j : ℕ) → 0 < count j is → link q j ≡ link p j)
    → IsChain p head is
    → IsChain q head is
unfolding IsChain count
IsChain-ext p q head [] same h = h
IsChain-ext p q head (i ∷ is) same (e, h) =
    let l = same i (ground arith) in
    (e, rw l (IsChain-ext p q (link p i) is (λ j m. same j (omega arith)) h))

-- The pool whose free blocks are `free`, the next to be handed out first, and whose blocks in use
-- are `held`: each block of the slabs is in one of the two, once.
pub record Holds (p : MemoryPool) (held free : List ℕ) : Type 0 where
  pub blocks : 0 < p.blocks_per_slab
  pub bound : p.slab_count ≤ max_slabs
  pub indices : p.slab_count * p.blocks_per_slab ≤ null_index
  pub slab_table : length p.slabs ≡ max_slabs
  pub link_table : length p.links ≡ max_slabs
  pub rows : (s : ℕ) → s < p.slab_count → length (get_or p.links s []) ≡ p.blocks_per_slab
  pub chained : IsChain p (index_of p.free_head) free
  pub once :
      (i : ℕ)
      → count i free + count i held ≡ (if ltb i (p.slab_count * p.blocks_per_slab) then 1 else 0)
  pub total : length free + length held ≡ p.slab_count * p.blocks_per_slab
  pub counted : p.allocated ≡ length held

module _ (p : MemoryPool) (held free : List ℕ) (h : Holds p held free) where
  pub free_lt : (i : ℕ) → 0 < count i free → i < p.slab_count * p.blocks_per_slab
  free_lt i m = ground (arith, h.once i)

  pub held_lt : (i : ℕ) → 0 < count i held → i < p.slab_count * p.blocks_per_slab
  held_lt i m = ground (arith, h.once i)

  pub row_inside :
      (i : ℕ) → i < p.slab_count * p.blocks_per_slab → i / p.blocks_per_slab < p.slab_count
  row_inside i l = slab_lt i p.slab_count p.blocks_per_slab h.blocks l

head_small :
    (p : MemoryPool) (head : ℕ) (is : List ℕ)
    → ((j : ℕ) → 0 < count j is → j < null_index)
    → IsChain p head is
    → head < 2 ^ 32
unfolding IsChain count
head_small p head [] low h = omega arith
head_small p head (i ∷ is) low (e, h) = omega (arith, low i (ground arith))

module _ (stride : ℕ) (p : MemoryPool) (held : List ℕ) where
  -- The block at the head goes to the caller.
  pub pop_head-Holds :
      (i : ℕ) (rest : List ℕ)
      → Holds p held (i ∷ rest)
      → Holds ((pop_head stride p).1) (i ∷ held) rest
  unfolding pop_head count link IsChain
  pop_head-Holds i rest h =
      let low : (j : ℕ) → 0 < count j rest → j < null_index =
        λ j m. omega (arith, free_lt p held (i ∷ rest) h j (ground arith), h.indices) in
      let (e, tail) = h.chained in
      let small = head_small p (link p i) rest low tail in
      let q = (pop_head stride p).1 in
      let moved : index_of q.free_head ≡ link p i =
        rw e (index_of-pack (link p i) (add32 (generation_of p.free_head) 1) small) in
      record {
        blocks = h.blocks;
        bound = h.bound;
        indices = h.indices;
        slab_table = h.slab_table;
        link_table = h.link_table;
        rows = h.rows;
        chained =
            subst (λ x. IsChain q x rest) (sym moved)
              (IsChain-ext p q (link p i) rest (λ j m. refl) tail);
        once = λ j. omega (arith, h.once j);
        total = omega (arith, h.total);
        counted = omega (arith, h.counted, h.total, h.indices);
      }

  -- A block in use comes back as the head.
  pub push_head-Holds :
      (i : ℕ) (free : List ℕ)
      → Holds p held free
      → 0 < count i held
      → Holds (push_head i p) (without i held) (i ∷ free)
  unfolding push_head set_link link count IsChain
  push_head-Holds i free h mine =
      let inside = held_lt p held free h i mine in
      let row = row_inside p held free h i inside in
      let mapped : i / p.blocks_per_slab < length p.links =
        omega (arith, row, h.bound, h.link_table) in
      let apart : (j : ℕ) → 0 < count j free → i ≡ j → ⊥ =
        λ j m e. ground (arith, mine, h.once i, subst (λ x. 0 < count x free) (sym e) m) in
      record {
        blocks = h.blocks;
        bound = h.bound;
        indices = h.indices;
        slab_table = h.slab_table;
        link_table = length-set p.links (i / p.blocks_per_slab) _ ∙ h.link_table;
        rows = λ s l. rows-set_link p i (index_of p.free_head) s mapped ∙ h.rows s l;
        chained = (
          index_of-pack i (add32 (generation_of p.free_head) 1) (omega (arith, h.indices)),
          rw
              (link-set_link_same p i (index_of p.free_head) h.blocks mapped
                (h.rows (i / p.blocks_per_slab) row))
              (IsChain-ext p (push_head i p) (index_of p.free_head) free
                (λ j m. link-set_link_other p i (index_of p.free_head) j mapped (apart j m))
                h.chained),
        );
        once = λ j. omega (arith, h.once j, count-without i j held mine);
        total = omega (arith, h.total, length-without i held mine);
        counted = omega (arith, h.counted, h.total, h.indices, length-without i held mine);
      }
