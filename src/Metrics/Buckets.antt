-- ===== src/Metrics/Buckets.antt =====
-- The buckets of a histogram: what their cumulative counts count.
use cascade.Base.{
  ℕ, zero, suc, ◌+◌, ◌%◌, ◌^◌, ◌≤◌, ◌<◌, ◌≡◌, refl, ap, sym, ◌∙◌, inl, inr, true, List, [], ◌∷◌,
  arith, ltb, if◌then◌else◌, get_or, set, length, length-set, replicate, length-replicate,
  Bool-cases,
}
use cascade.Base.Word.{add64}
use cascade.Base.Double.{Doubles}
use cascade.Metrics.{Histogram, new_histogram, upper_bound, observe, sum_buckets, cumulative_count}

-- A count of one more in a bucket is a count of one more in every sum that has the bucket.
sum_buckets-set :
    (n idx : ℕ) (bs : List ℕ)
    → idx < length bs
    → sum_buckets n (set bs idx (add64 (get_or bs idx 0) 1))
      ≡ add64 (sum_buckets n bs) (if ltb idx n then 1 else 0)
unfolding sum_buckets
sum_buckets-set n idx [] l = absurd (omega arith)
sum_buckets-set zero idx (b ∷ bs) l = ground arith
sum_buckets-set (suc n) zero (b ∷ bs) l = ground arith
sum_buckets-set (suc n) (suc idx) (b ∷ bs) l =
    ground (arith, sum_buckets-set n idx bs (omega arith))

sum_buckets_lt : (n : ℕ) (bs : List ℕ) → sum_buckets n bs < 2 ^ 64
unfolding sum_buckets
sum_buckets_lt zero bs = omega arith
sum_buckets_lt (suc n) [] = omega arith
sum_buckets_lt (suc n) (b ∷ bs) = omega arith

sum_buckets-zero : (n k : ℕ) → sum_buckets n (replicate k 0) ≡ 0
unfolding sum_buckets
sum_buckets-zero zero k = refl
sum_buckets-zero (suc n) zero = refl
sum_buckets-zero (suc n) (suc k) = rw (sum_buckets-zero n k) refl

module _ (D : Doubles) where
  unfoldable pub AllAbove : D.Double → List D.Double → Type 0
  AllAbove b [] = Unit
  AllAbove b (x ∷ xs) = (D.less b x ≡ true) × AllAbove b xs

  -- The bounds grow from each to the next.
  unfoldable pub IsAscending : List D.Double → Type 0
  IsAscending [] = Unit
  IsAscending (b ∷ bs) = AllAbove b bs × IsAscending bs

  -- How many of the values are less than `b`.
  unfoldable pub count_less : D.Double → List D.Double → ℕ
  count_less b [] = 0
  count_less b (v ∷ vs) = (if D.less v b then 1 else 0) + count_less b vs

  pub observe_all : List D.Double → Histogram D.Double → Histogram D.Double
  observe_all [] h = h
  observe_all (v ∷ vs) h = observe_all vs (observe D v h)

  upper_bound_le : (bs : List D.Double) (v : D.Double) → upper_bound D bs v ≤ length bs
  unfolding upper_bound
  upper_bound_le [] v = omega arith
  upper_bound_le (b ∷ bs) v = ground (arith, upper_bound_le bs v)

  count_less_le : (b : D.Double) (vs : List D.Double) → count_less b vs ≤ length vs
  unfolding count_less
  count_less_le b [] = omega arith
  count_less_le b (v ∷ vs) = ground (arith, count_less_le b vs)

  module _
      (trans : (a b c : D.Double) → D.less a b ≡ true → D.less b c ≡ true → D.less a c ≡ true) where
    all_above :
        (v b : D.Double) (xs : List D.Double) (i : ℕ) (d : D.Double)
        → D.less v b ≡ true
        → AllAbove b xs
        → i < length xs
        → D.less v (get_or xs i d) ≡ true
    unfolding AllAbove
    all_above v b [] i d l above inside = absurd (omega arith)
    all_above v b (x ∷ xs) zero d l above inside = trans v b x l above.0
    all_above v b (x ∷ xs) (suc i) d l above inside = all_above v b xs i d l above.1 (omega arith)

    -- The bucket of a value is at most the i-th exactly if the value is less than the i-th bound.
    upper_bound-less :
        (bs : List D.Double) (v : D.Double) (i : ℕ) (d : D.Double)
        → IsAscending bs
        → i < length bs
        → ltb (upper_bound D bs v) (i + 1) ≡ D.less v (get_or bs i d)
    unfolding IsAscending upper_bound
    upper_bound-less [] v i d up inside = absurd (omega arith)
    upper_bound-less (b ∷ bs) v zero d up inside = elim (Bool-cases (D.less v b)) [
      | inl below ↦ rw below refl
      | inr above ↦ rw above (ground arith)
    ]
    upper_bound-less (b ∷ bs) v (suc i) d up inside =
        let rest = upper_bound-less bs v i d up.1 (omega arith) in
        elim (Bool-cases (D.less v b)) [
          | inl below ↦ rw (below, all_above v b bs i d below up.0 (omega arith)) (ground arith)
          | inr above ↦ rw (above, sym rest) (ground arith)
        ]

    observe_all-sum :
        (bs : List D.Double) (i : ℕ) (d : D.Double)
        → IsAscending bs
        → i < length bs
        → (vs : List D.Double) (h : Histogram D.Double) → h.bounds ≡ bs
        → length h.bucket_counts ≡ length bs + 1
        → cumulative_count i (observe_all vs h) % 2 ^ 64
          ≡ (cumulative_count i h + count_less (get_or bs i d) vs) % 2 ^ 64
    unfolding observe_all count_less cumulative_count observe
    observe_all-sum bs i d up inside [] h e full = omega arith
    observe_all-sum bs i d up inside (v ∷ vs) h e full =
        let idx = upper_bound D h.bounds v in
        let reached = upper_bound_le h.bounds v in
        let size = length-set h.bucket_counts idx (add64 (get_or h.bucket_counts idx 0) 1) in
        let rest =
          observe_all-sum bs i d up inside vs (observe D v h) e (omega (arith, size, full)) in
        let one =
          sum_buckets-set (i + 1) idx h.bucket_counts
            (omega (arith, ap (length {A = D.Double}) e)) in
        let side : ltb idx (i + 1) ≡ D.less v (get_or bs i d) =
          ap (λ b. ltb (upper_bound D b v) (i + 1)) e ∙ upper_bound-less bs v i d up inside in
        let step =
          one ∙ ap (λ b. add64 (sum_buckets (i + 1) h.bucket_counts) (if b then 1 else 0)) side in
        omega (arith, rest, step)

    -- After a histogram with ascending bounds has taken fewer than 2 ^ 64 values, the cumulative
    -- count of a bound is the number of the values that are less than the bound, if the order of the
    -- numbers is transitive; a value that is equal to the bound is not counted.
    pub cumulative_count-observe_all :
        (bs : List D.Double) (i : ℕ) (d : D.Double) (vs : List D.Double)
        → IsAscending bs
        → i < length bs
        → length vs < 2 ^ 64
        → cumulative_count i (observe_all vs (new_histogram D bs)) ≡ count_less (get_or bs i d) vs
    unfolding new_histogram cumulative_count
    cumulative_count-observe_all bs i d vs up inside few =
        let new = new_histogram D bs in
        let all =
          observe_all-sum bs i d up inside vs new refl
            (length-replicate {A = ℕ} (length bs + 1) 0) in
        let none_yet = sum_buckets-zero (i + 1) (length bs + 1) in
        let short = count_less_le (get_or bs i d) vs in
        let word = sum_buckets_lt (i + 1) (observe_all vs new).bucket_counts in
        omega (arith, all, none_yet, short, word)
