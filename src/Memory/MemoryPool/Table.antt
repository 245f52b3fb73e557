-- ===== src/Memory/MemoryPool/Table.antt =====
-- The packed head and the side table of links: what a store changes.
use cascade.Base.{
  ℕ, zero, suc, ◌+◌, ◌*◌, ◌/◌, ◌%◌, ◌^◌, ◌<◌, ◌≡◌, refl, ap, sym, ◌∙◌, [], arith, get_or, set,
  length, length-set, get_or-set_same, get_or-set_other,
}
use cascade.Base.Bits.{bit_and-ones, bit_or-shifted}
use cascade.Memory.MemoryPool.{
  MemoryPool, pack, index_of, generation_of, link, set_link, chain_links,
}
use native.Mathlib.Decide.{ℕ_discrete}
use native.Mathlib.Nat.{mod-lt, mod-add-div', div-lt_iff_lt-mul}

pub index_of-pack : (i g : ℕ) → i < 2 ^ 32 → index_of (pack i g) ≡ i
unfolding pack index_of
index_of-pack i g h = rw (bit_or-shifted 32 g i h, bit_and-ones 32 (g * 2 ^ 32 + i)) (omega arith)

pub generation_of-pack : (i g : ℕ) → i < 2 ^ 32 → generation_of (pack i g) ≡ g
unfolding pack generation_of
generation_of-pack i g h = rw (bit_or-shifted 32 g i h) (omega arith)

pub slab_lt : (i n b : ℕ) → 0 < b → i < n * b → i / b < n
slab_lt i n b positive h = (div-lt_iff_lt-mul {k = b} {x = i} {y = n} positive).1 h

module _ (p : MemoryPool) (i v : ℕ) where
  pub link-set_link_same :
      0 < p.blocks_per_slab
      → i / p.blocks_per_slab < length p.links
      → length (get_or p.links (i / p.blocks_per_slab) []) ≡ p.blocks_per_slab
      → link (set_link i v p) i ≡ v
  unfolding link set_link
  link-set_link_same positive inside full =
      let s = i / p.blocks_per_slab in
      let row = get_or p.links s [] in
      let o = i % p.blocks_per_slab in
      rw (get_or-set_same p.links s (set row o v) [] inside)
        (get_or-set_same row o v 0 (omega (arith, full, mod-lt i {m = p.blocks_per_slab} positive)))

  pub link-set_link_other :
      (j : ℕ)
      → i / p.blocks_per_slab < length p.links
      → (i ≡ j → ⊥)
      → link (set_link i v p) j ≡ link p j
  unfolding link set_link
  link-set_link_other j inside apart =
      let b = p.blocks_per_slab in
      let s = i / b in
      let row = get_or p.links s [] in
      elim (ℕ_discrete s (j / b)) [
        | yes same ↦
            let other : i % b ≡ j % b → ⊥ =
              λ e. apart (sym (mod-add-div' i b) ∙ rw (e, same) refl ∙ mod-add-div' j b) in
            rw (sym same, get_or-set_same p.links s (set row (i % b) v) [] inside)
              (get_or-set_other row (i % b) (j % b) v 0 other)
        | no apart_slabs ↦
            ap (λ r. get_or r (j % b) 0)
              (get_or-set_other p.links s (j / b) (set row (i % b) v) [] apart_slabs)
      ]

  pub rows-set_link :
      (s : ℕ)
      → i / p.blocks_per_slab < length p.links
      → length (get_or (set_link i v p).links s []) ≡ length (get_or p.links s [])
  unfolding set_link
  rows-set_link s inside =
      let b = p.blocks_per_slab in
      let t = i / b in
      let row = get_or p.links t [] in
      elim (ℕ_discrete t s) [
        | yes same ↦
            rw (sym same, get_or-set_same p.links t (set row (i % b) v) [] inside)
              (length-set row (i % b) v)
        | no apart ↦ ap length (get_or-set_other p.links t s (set row (i % b) v) [] apart)
      ]

pub length-chain_links : (n base old : ℕ) → length (chain_links n base old) ≡ n + 1
unfolding chain_links
length-chain_links zero base old = refl
length-chain_links (suc n) base old = omega (arith, length-chain_links n (base + 1) old)

pub chain_links_next :
    (n base old k : ℕ)
    → k < n
    → base + n < 2 ^ 32
    → get_or (chain_links n base old) k 0 ≡ base + k + 1
unfolding chain_links
chain_links_next zero base old k h small = absurd (omega arith)
chain_links_next (suc n) base old zero h small = omega arith
chain_links_next (suc n) base old (suc k) h small =
    omega (arith, chain_links_next n (base + 1) old k (omega arith) (omega arith))

pub chain_links_last : (n base old : ℕ) → get_or (chain_links n base old) n 0 ≡ old
unfolding chain_links
chain_links_last zero base old = refl
chain_links_last (suc n) base old = chain_links_last n (base + 1) old
