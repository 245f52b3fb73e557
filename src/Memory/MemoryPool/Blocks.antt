-- ===== src/Memory/MemoryPool/Blocks.antt =====
-- The addresses of the blocks: blocks do not overlap, and an address leads back to its block.
use cascade.Base.{
  ℕ, zero, suc, ◌+◌, ◌-◌, ◌*◌, ◌/◌, ◌%◌, ◌^◌, ◌≤◌, ◌<◌, ◌≡◌, refl, sym, ◌∙◌, ◌≢◌, ◌⊎◌, inl, inr,
  arith, get_or,
}
use cascade.Memory.MemoryPool.{MemoryPool, block_ptr, search_slabs, index_from_ptr}
use native.Mathlib.Decide.{ℕ_discrete, dec_lt}
use native.Mathlib.Nat.{mod-lt, mod-add-div', mul-le-mul_right, mul-div_cancel, suc-mul}

-- The slabs' memory as `operator new` gives it: not at null, and no two slabs overlap.
pub record Placed (stride : ℕ) (p : MemoryPool) : Type 0 where
  pub nonnull : (s : ℕ) → s < p.slab_count → 0 < get_or p.slabs s 0
  pub apart :
      (s t : ℕ)
      → s < t
      → t < p.slab_count
      → (get_or p.slabs s 0 + stride * p.blocks_per_slab ≤ get_or p.slabs t 0)
        ⊎ (get_or p.slabs t 0 + stride * p.blocks_per_slab ≤ get_or p.slabs s 0)

-- A block lies inside its slab.
inside_slab : (o b stride : ℕ) → o < b → o * stride + stride ≤ stride * b
inside_slab o b stride l =
    let m = mul-le-mul_right {m = o + 1} {n = b} stride (omega arith) in
    omega (arith, m, suc-mul o stride)

swapped : {A B : Type 0} → A ⊎ B → B ⊎ A
swapped (inl a) = inr a
swapped (inr b) = inl b

module _ (stride : ℕ) (p : MemoryPool) (placed : Placed stride p)
    (blocks : 0 < p.blocks_per_slab) where
  ordered_apart :
      (i j : ℕ)
      → i / p.blocks_per_slab < j / p.blocks_per_slab
      → j / p.blocks_per_slab < p.slab_count
      → (block_ptr stride p i + stride ≤ block_ptr stride p j)
        ⊎ (block_ptr stride p j + stride ≤ block_ptr stride p i)
  unfolding block_ptr
  ordered_apart i j l inside =
      let b = p.blocks_per_slab in
      let far_i = inside_slab (i % b) b stride (mod-lt i {m = b} blocks) in
      let far_j = inside_slab (j % b) b stride (mod-lt j {m = b} blocks) in
      elim (placed.apart (i / b) (j / b) l inside) [
        | inl before ↦ inl (omega arith)
        | inr after ↦ inr (omega arith)
      ]

  same_slab_apart :
      (i j : ℕ)
      → i / p.blocks_per_slab ≡ j / p.blocks_per_slab
      → i % p.blocks_per_slab < j % p.blocks_per_slab
      → block_ptr stride p i + stride ≤ block_ptr stride p j
  unfolding block_ptr
  same_slab_apart i j same l =
      let b = p.blocks_per_slab in
      let m = mul-le-mul_right {m = i % b + 1} {n = j % b} stride (omega arith) in
      rw same (omega (arith, m, suc-mul (i % b) stride))

  pub blocks_apart :
      (i j : ℕ)
      → i ≢ j
      → i / p.blocks_per_slab < p.slab_count
      → j / p.blocks_per_slab < p.slab_count
      → (block_ptr stride p i + stride ≤ block_ptr stride p j)
        ⊎ (block_ptr stride p j + stride ≤ block_ptr stride p i)
  blocks_apart i j ne hi hj =
      let b = p.blocks_per_slab in
      elim (ℕ_discrete (i / b) (j / b)) [
        | yes same ↦ elim (dec_lt (i % b) (j % b)) [
          | yes l ↦ inl (same_slab_apart i j same l)
          | no nl ↦
              let differ : i % b ≢ j % b =
                λ e. ne (sym (mod-add-div' i b) ∙ rw (e, same) refl ∙ mod-add-div' j b) in
              inr (same_slab_apart j i (sym same) (omega (arith, differ)))
        ]
        | no ns ↦ elim (dec_lt (i / b) (j / b)) [
          | yes l ↦ ordered_apart i j l hj
          | no nl ↦ swapped (ordered_apart j i (omega (arith, ns)) hi)
        ]
      ]

  pub block_nonnull : (i : ℕ) → i / p.blocks_per_slab < p.slab_count → 0 < block_ptr stride p i
  unfolding block_ptr
  block_nonnull i inside = omega (arith, placed.nonnull (i / p.blocks_per_slab) inside)

module _ (stride : ℕ) (p : MemoryPool) (placed : Placed stride p) (blocks : 0 < p.blocks_per_slab)
    (positive : 0 < stride) (i : ℕ) (small : i < 2 ^ 32) where
  search_slabs-hit :
      (remaining s : ℕ)
      → s ≡ i / p.blocks_per_slab
      → search_slabs stride p (block_ptr stride p i) (suc remaining) s ≡ i
  unfolding search_slabs block_ptr
  search_slabs-hit remaining s e =
      let b = p.blocks_per_slab in
      let far = inside_slab (i % b) b stride (mod-lt i {m = b} blocks) in
      let back = mod-add-div' i b in
      let divided = mul-div_cancel (i % b) positive in
      let offset : get_or p.slabs (i / b) 0 + i % b * stride - get_or p.slabs (i / b) 0
          ≡ i % b * stride =
        omega arith in
      rw (e, offset, divided) (ground (arith, far, back, positive))

  search_slabs-miss :
      (remaining s : ℕ)
      → s < i / p.blocks_per_slab
      → i / p.blocks_per_slab < p.slab_count
      → search_slabs stride p (block_ptr stride p i) (suc remaining) s
        ≡ search_slabs stride p (block_ptr stride p i) remaining (s + 1)
  unfolding search_slabs block_ptr
  search_slabs-miss remaining s l inside =
      let b = p.blocks_per_slab in
      let far = inside_slab (i % b) b stride (mod-lt i {m = b} blocks) in
      ground (arith, far, placed.apart s (i / b) l inside, positive)

  search_slabs-block_ptr :
      (remaining s : ℕ)
      → s ≤ i / p.blocks_per_slab
      → i / p.blocks_per_slab < p.slab_count
      → s + remaining ≡ p.slab_count
      → search_slabs stride p (block_ptr stride p i) remaining s ≡ i
  search_slabs-block_ptr zero s l inside e = absurd (omega arith)
  search_slabs-block_ptr (suc remaining) s l inside e =
      elim (ℕ_discrete s (i / p.blocks_per_slab)) [
        | yes here ↦ search_slabs-hit remaining s here
        | no before ↦
            search_slabs-miss remaining s (omega (arith, before)) inside
            ∙ search_slabs-block_ptr remaining (s + 1) (omega (arith, before)) inside (omega arith)
      ]

  pub index_from_ptr-block_ptr :
      i / p.blocks_per_slab < p.slab_count → index_from_ptr stride p (block_ptr stride p i) ≡ i
  unfolding index_from_ptr
  index_from_ptr-block_ptr inside =
      search_slabs-block_ptr p.slab_count 0 (omega arith) inside (omega arith)
