-- ===== src/Metrics/Tests.antt =====
-- The theorems on the metrics at concrete inputs: numbers without fractions.
use cascade.Base.{ℕ, ◌+◌, ◌-◌, ◌*◌, ◌/◌, ◌≡◌, refl, true, [], ◌∷◌, arith, ltb, leb}
use cascade.Base.Double.{Doubles}
use cascade.Base.Text.{to_string}
use cascade.Metrics.{MetricsRegistry, new_histogram, cumulative_count, empty_registry}
use cascade.Metrics.Buckets.{
  AllAbove, IsAscending, count_less, observe_all, cumulative_count-observe_all,
}

abbrev whole : Doubles
whole = record {
  Double = ℕ;
  of_nat = λ n. n;
  add = λ a b. a + b;
  sub = λ a b. a - b;
  mul = λ a b. a * b;
  div = λ a b. a / b;
  less = ltb;
  leq = leb;
  print = to_string;
}

less_trans : (a b c : ℕ) → ltb a b ≡ true → ltb b c ≡ true → ltb a c ≡ true
less_trans a b c p q = ground arith

-- The value 10 is not below the bound 10.
cumulative_count-observe_all_example :
    cumulative_count 0 (observe_all whole (3 ∷ 10 ∷ 12 ∷ []) (new_histogram whole (10 ∷ 20 ∷ [])))
    ≡ 1
unfolding IsAscending AllAbove count_less
cumulative_count-observe_all_example =
    cumulative_count-observe_all whole less_trans (10 ∷ 20 ∷ []) 0 0 (3 ∷ 10 ∷ 12 ∷ [])
      ((refl, tt), (tt, tt)) (omega arith) (omega arith)

abbrev registry : MetricsRegistry ℕ
registry = empty_registry
