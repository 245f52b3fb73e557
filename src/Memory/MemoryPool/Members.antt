-- ===== src/Memory/MemoryPool/Members.antt =====
-- How often an element occurs in a mapped list.
use cascade.Base.{
  ℕ, suc, ◌<◌, ◌≡◌, refl, ap, sym, ◌≢◌, List, [], ◌∷◌, map, arith, ==_refl, ==_ne, length,
}
use cascade.Memory.MemoryPool.FreeList.{count, without}
use native.Mathlib.Decide.{ℕ_discrete}

pub map_ext :
    (f g : ℕ → ℕ) (xs : List ℕ) → ((i : ℕ) → 0 < count i xs → f i ≡ g i) → map f xs ≡ map g xs
unfolding count
map_ext f g [] same = refl
map_ext f g (x ∷ xs) same =
    rw (same x (ground arith), map_ext f g xs (λ i m. same i (omega arith))) refl

pub length-map : (f : ℕ → ℕ) (xs : List ℕ) → length (map f xs) ≡ length xs
length-map f [] = refl
length-map f (x ∷ xs) = ap suc (length-map f xs)

module _ (f : ℕ → ℕ) where
  -- What occurs in a mapped list comes from an element.
  pub count-map_source :
      (a : ℕ) (xs : List ℕ) → 0 < count a (map f xs) → (i : ℕ) × (0 < count i xs) × (f i ≡ a)
  unfolding count
  count-map_source a [] h = absurd (omega arith)
  count-map_source a (x ∷ xs) h = elim (ℕ_discrete a (f x)) [
    | yes e ↦ (x, ground arith, sym e)
    | no ne ↦ let (i, m, e) = count-map_source a xs (ground arith) in (i, omega arith, e)
  ]

  -- Where `f` keeps elements apart, the mapped list has each as often.
  pub count-map :
      (i : ℕ) (xs : List ℕ)
      → ((j : ℕ) → 0 < count j xs → i ≢ j → f i ≢ f j)
      → count (f i) (map f xs) ≡ count i xs
  unfolding count
  count-map i [] apart = refl
  count-map i (x ∷ xs) apart =
      let rest = count-map i xs (λ j m. apart j (omega arith)) in
      elim (ℕ_discrete i x) [
        | yes e ↦ rw (sym e, ==_refl i, ==_refl (f i)) (omega (arith, rest))
        | no ne ↦
            rw (==_ne i x ne, ==_ne (f i) (f x) (apart x (ground arith) ne)) (omega (arith, rest))
      ]

  pub without-map :
      (i : ℕ) (xs : List ℕ)
      → ((j : ℕ) → 0 < count j xs → i ≢ j → f i ≢ f j)
      → without (f i) (map f xs) ≡ map f (without i xs)
  unfolding count without
  without-map i [] apart = refl
  without-map i (x ∷ xs) apart =
      let rest = without-map i xs (λ j m. apart j (omega arith)) in
      elim (ℕ_discrete i x) [
        | yes e ↦ rw (sym e, ==_refl i, ==_refl (f i)) refl
        | no ne ↦
            rw (==_ne i x ne, ==_ne (f i) (f x) (apart x (ground arith) ne)) (ap (◌∷◌ (f x)) rest)
      ]
