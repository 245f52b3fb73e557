-- ===== src/Memory/MemoryPool/Growth.antt =====
-- The growth of the pool: a new slab's blocks join the free list in order.
use cascade.Base.{
  ℕ, zero, suc, ◌+◌, ◌-◌, ◌*◌, ◌/◌, ◌%◌, ◌^◌, ◌≤◌, ◌<◌, ◌≡◌, refl, ap, subst, sym, ◌∙◌, false, List,
  [], ◌∷◌, ◌++◌, arith, ltb, leb, if◌then◌else◌, get_or, length, length-set, length-append,
  append-nil, get_or-set_same, get_or-set_other,
}
use cascade.Base.Word.{add32, mul64}
use cascade.Memory.MemoryPool.{
  MemoryPool, index_of, generation_of, link, null_index, max_slabs, exhausted, add_slab,
  chain_links,
}
use cascade.Memory.MemoryPool.Table.{
  index_of-pack, length-chain_links, chain_links_next, chain_links_last,
}
use cascade.Memory.MemoryPool.FreeList.{count, IsChain, IsChain-ext, Holds, free_lt, row_inside}
use native.Mathlib.Decide.{ℕ_discrete}
use native.Mathlib.Nat.{
  add-mul-div_right, add-mul-mod_self_right, div-eq_of_lt, mod-eq_of_lt, suc-mul,
}

pub range : ℕ → ℕ → List ℕ
range base zero = []
range base (suc n) = base ∷ range (base + 1) n

length-range : (base n : ℕ) → length (range base n) ≡ n
unfolding range
length-range base zero = refl
length-range base (suc n) = omega (arith, length-range (base + 1) n)

count-range :
    (i base n : ℕ)
    → count i (range base n) ≡ (if leb base i then (if ltb i (base + n) then 1 else 0) else 0)
unfolding range count
count-range i base zero = ground arith
count-range i base (suc n) = ground (arith, count-range i (base + 1) n)

count-append : (i : ℕ) (xs ys : List ℕ) → count i (xs ++ ys) ≡ count i xs + count i ys
unfolding count
count-append i [] ys = omega arith
count-append i (x ∷ xs) ys = omega (arith, count-append i xs ys)

-- The links of a slab lead through its blocks to what the last of them names.
slab-IsChain :
    (p : MemoryPool) (base m old : ℕ) (free : List ℕ)
    → ((k : ℕ) → k < m → link p (base + k) ≡ base + k + 1)
    → link p (base + m) ≡ old
    → IsChain p old free
    → IsChain p base (range base (suc m) ++ free)
unfolding range IsChain
slab-IsChain p base zero old free next last h =
    (refl, subst (λ x. IsChain p x free) (sym last ∙ ap (link p) (omega arith)) h)
slab-IsChain p base (suc m) old free next last h =
    let first : link p base ≡ base + 1 =
      ap (link p) (omega arith) ∙ next 0 (omega arith) ∙ omega arith in
    (
      refl,
      subst (λ x. IsChain p x (range (base + 1) (suc m) ++ free)) (sym first)
          (slab-IsChain p (base + 1) m old free
            (λ k l. ap (link p) (omega arith) ∙ next (k + 1) (omega arith) ∙ omega arith)
            (ap (link p) (omega arith) ∙ last) h),
    )

pub room :
    (p : MemoryPool)
    → exhausted p ≡ false
    → p.slab_count * p.blocks_per_slab ≤ null_index
    → (p.slab_count < max_slabs)
      × (0 < p.blocks_per_slab)
      × (p.slab_count * p.blocks_per_slab + p.blocks_per_slab ≤ null_index)
unfolding exhausted
room p e h = ground arith

module _ (raw : ℕ) (p : MemoryPool) (held free : List ℕ) (h : Holds p held free)
    (fits : exhausted p ≡ false) where
  -- A link of the old slabs is as before.
  link-add_slab_old :
      (j : ℕ) → j < p.slab_count * p.blocks_per_slab → link (add_slab raw p) j ≡ link p j
  unfolding link add_slab
  link-add_slab_old j l =
      let row = row_inside p held free h j l in
      ap (λ r. get_or r (j % p.blocks_per_slab) 0)
        (get_or-set_other p.links p.slab_count (j / p.blocks_per_slab) _ [] (λ e. omega arith))

  -- A link of the new slab stands in its table.
  link-add_slab_new :
      (k : ℕ)
      → k < p.blocks_per_slab
      → link (add_slab raw p) (p.slab_count * p.blocks_per_slab + k)
        ≡ get_or
            (chain_links
              (p.blocks_per_slab - 1)
              (p.slab_count * p.blocks_per_slab)
              (index_of p.free_head))
            k
            0
  unfolding link add_slab
  link-add_slab_new k l =
      let n = p.slab_count in
      let b = p.blocks_per_slab in
      let swap : n * b + k ≡ k + n * b = omega arith in
      let slab : (n * b + k) / b ≡ n =
        rw (swap, add-mul-div_right k n h.blocks, div-eq_of_lt l) (omega arith) in
      let offset : (n * b + k) % b ≡ k =
        rw (swap, add-mul-mod_self_right k n b, mod-eq_of_lt l) refl in
      let exact : mul64 n b ≡ n * b = omega (arith, h.indices) in
      let (few, positive, all) = room p fits h.indices in
      rw (slab, offset, exact)
        (ap (λ r. get_or r k 0)
          (get_or-set_same p.links n (chain_links (b - 1) (n * b) (index_of p.free_head)) []
            (omega (arith, h.link_table))))

  row_lengths :
      (s : ℕ)
      → s < p.slab_count + 1
      → length (get_or (add_slab raw p).links s []) ≡ p.blocks_per_slab
  unfolding add_slab
  row_lengths s l =
      let n = p.slab_count in
      let b = p.blocks_per_slab in
      let row = chain_links (b - 1) (mul64 n b) (index_of p.free_head) in
      let (few, positive, all) = room p fits h.indices in
      elim (ℕ_discrete n s) [
        | yes last ↦
            rw (sym last, get_or-set_same p.links n row [] (omega (arith, h.link_table)))
              (omega (arith, length-chain_links (b - 1) (mul64 n b) (index_of p.free_head)))
        | no old ↦ ap length (get_or-set_other p.links n s row [] old) ∙ h.rows s (omega arith)
      ]

  head-add_slab : index_of (add_slab raw p).free_head ≡ p.slab_count * p.blocks_per_slab
  unfolding add_slab
  head-add_slab =
      let base = mul64 p.slab_count p.blocks_per_slab in
      rw (index_of-pack (base % 2 ^ 32) (add32 (generation_of p.free_head) 1) (omega arith))
        (omega (arith, h.indices))

  new-IsChain :
      IsChain
        (add_slab raw p)
        (p.slab_count * p.blocks_per_slab)
        (range (p.slab_count * p.blocks_per_slab) p.blocks_per_slab ++ free)
  new-IsChain =
      let base = p.slab_count * p.blocks_per_slab in
      let b = p.blocks_per_slab in
      let old = index_of p.free_head in
      let (few, positive, all) = room p fits h.indices in
      let whole : suc (b - 1) ≡ b = omega (arith, positive) in
      let next : (k : ℕ) → k < b - 1 → link (add_slab raw p) (base + k) ≡ base + k + 1 = λ k l.
        link-add_slab_new k (omega arith)
        ∙ chain_links_next (b - 1) base old k l (omega (arith, all, positive)) in
      let last : link (add_slab raw p) (base + (b - 1)) ≡ old =
        link-add_slab_new (b - 1) (omega (arith, positive)) ∙ chain_links_last (b - 1) base old in
      let kept =
        IsChain-ext p (add_slab raw p) old free
          (λ j m. link-add_slab_old j (free_lt p held free h j m)) h.chained in
      subst (λ n. IsChain (add_slab raw p) base (range base n ++ free)) whole
        (slab-IsChain (add_slab raw p) base (b - 1) old free next last kept)

  -- The new blocks stand before the old ones in the list, in order.
  pub add_slab-Holds :
      Holds
        (add_slab raw p)
        held
        (range (p.slab_count * p.blocks_per_slab) p.blocks_per_slab ++ free)
  unfolding add_slab
  add_slab-Holds =
      let n = p.slab_count in
      let b = p.blocks_per_slab in
      let (few, positive, all) = room p fits h.indices in
      let more = suc-mul n b in
      record {
        blocks = h.blocks;
        bound = omega (arith, few);
        indices = omega (arith, all, more);
        slab_table = length-set p.slabs n raw ∙ h.slab_table;
        link_table = length-set p.links n _ ∙ h.link_table;
        rows = row_lengths;
        chained =
            subst (λ x. IsChain (add_slab raw p) x (range (n * b) b ++ free)) (sym head-add_slab)
              new-IsChain;
        once = λ i. ground (
          arith,
          more,
          all,
          h.once i,
          count-append i (range (n * b) b) free,
          count-range i (n * b) b,
        );
        total =
            omega
              (arith, more, h.total, length-range (n * b) b, length-append (range (n * b) b) free);
        counted = h.counted;
      }

range_first : (base n : ℕ) → 0 < n → range base n ++ [] ≡ base ∷ range (base + 1) (n - 1)
unfolding range
range_first base zero h = absurd (omega arith)
range_first base (suc n) h =
    let e : suc n - 1 ≡ n = omega arith in rw e (append-nil (base ∷ range (base + 1) n))

-- After the growth of a pool without free blocks its new slab's first block is next.
pub empty_add_slab-Holds :
    (raw : ℕ) (p : MemoryPool) (held : List ℕ)
    → Holds p held []
    → exhausted p ≡ false
    → Holds (add_slab raw p) held (
        p.slab_count * p.blocks_per_slab
        ∷ range (p.slab_count * p.blocks_per_slab + 1) (p.blocks_per_slab - 1))
empty_add_slab-Holds raw p held h fits =
    let (few, positive, all) = room p fits h.indices in
    subst (λ free. Holds (add_slab raw p) held free)
      (range_first (p.slab_count * p.blocks_per_slab) p.blocks_per_slab positive)
      (add_slab-Holds raw p held [] h fits)
