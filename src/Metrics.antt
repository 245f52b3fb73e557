-- ===== src/Metrics.antt =====
-- cpp/core/metrics/metrics_registry.hpp: counters, gauges and histograms by name. Each operation is
-- one step: the counters are atomic, and a mutex guards the maps, whose order is the order of their
-- entries here. A gauge's value is kept in two's complement.
pub mod Buckets
pub mod Registry
pub mod Tests
use cascade.Base.{
  ℕ, zero, suc, ◌+◌, ◌-◌, ◌^◌, Bool, true, false, List, [], ◌∷◌, ◌++◌, Option, none, some, ltb,
  if◌then◌else◌, get_or, set, length, replicate,
}
use cascade.Base.Word.{add64}
use cascade.Base.Text.{to_string, find_text, insert_text}
use cascade.Base.Double.{Doubles}

pub record Histogram (D : Type 0) : Type 0 where
  pub bounds : List D
  pub bucket_counts : List ℕ
  pub count : ℕ
  pub sum : D

pub record MetricsRegistry (D : Type 0) : Type 0 where
  pub counters : List (List ℕ × ℕ)
  pub gauges : List (List ℕ × ℕ)
  pub histograms : List (List ℕ × Histogram D)

-- Counter::inc, Gauge::add
pub inc : ℕ → ℕ → ℕ
inc n value = add64 value n

module _ (D : Doubles) where
  pub new_histogram : List D.Double → Histogram D.Double
  new_histogram bucket_bounds = record {
    bounds = bucket_bounds;
    bucket_counts = replicate (length bucket_bounds + 1) 0;
    count = 0;
    sum = D.of_nat 0;
  }

  -- `std::upper_bound`, as an index: the first bound that `v` is less than.
  pub upper_bound : List D.Double → D.Double → ℕ
  upper_bound [] v = 0
  upper_bound (b ∷ bs) v = let rest = upper_bound bs v in if D.less v b then 0 else suc rest

  pub observe : D.Double → Histogram D.Double → Histogram D.Double
  observe v h =
      let idx = upper_bound h.bounds v in
      record h {
        count = add64 h.count 1;
        sum = D.add h.sum v;
        bucket_counts = set h.bucket_counts idx (add64 (get_or h.bucket_counts idx 0) 1);
      }

-- The sum of the first `n` buckets.
pub sum_buckets : ℕ → List ℕ → ℕ
sum_buckets zero bs = 0
sum_buckets (suc n) [] = 0
sum_buckets (suc n) (b ∷ bs) = add64 b (sum_buckets n bs)

module _ {D : Type 0} where
  pub cumulative_count : ℕ → Histogram D → ℕ
  cumulative_count bound_index h = sum_buckets (bound_index + 1) h.bucket_counts

  abbrev pub empty_registry : MetricsRegistry D
  empty_registry = record { counters = []; gauges = []; histograms = [] }

  pub made_counter : List ℕ → Option ℕ → MetricsRegistry D → ℕ × MetricsRegistry D
  made_counter name (some value) r = (value, r)
  made_counter name none r = (0, record r { counters = insert_text name 0 r.counters })

  -- The counter of a name, and the registry that has it then.
  pub counter : List ℕ → MetricsRegistry D → ℕ × MetricsRegistry D
  counter name r = made_counter name (find_text name r.counters) r

  pub gauge : List ℕ → MetricsRegistry D → ℕ × MetricsRegistry D
  gauge name r = elim (find_text name r.gauges) [
    | some value ↦ (value, r)
    | none ↦ (0, record r { gauges = insert_text name 0 r.gauges })
  ]

  -- A caller's `counter(name).inc(n)`, `gauge(name).set(v)` and `gauge(name).add(delta)`.
  pub inc_counter : List ℕ → ℕ → MetricsRegistry D → MetricsRegistry D
  inc_counter name n r =
      let (value, found) = counter name r in
      record found { counters = insert_text name (inc n value) found.counters }

  pub set_gauge : List ℕ → ℕ → MetricsRegistry D → MetricsRegistry D
  set_gauge name v r =
      let (value, found) = gauge name r in record found { gauges = insert_text name v found.gauges }

  pub add_gauge : List ℕ → ℕ → MetricsRegistry D → MetricsRegistry D
  add_gauge name delta r =
      let (value, found) = gauge name r in
      record found { gauges = insert_text name (inc delta value) found.gauges }

module _ (D : Doubles) where
  pub histogram :
      List ℕ
      → List D.Double
      → MetricsRegistry D.Double
      → Histogram D.Double × MetricsRegistry D.Double
  histogram name bucket_bounds r = elim (find_text name r.histograms) [
    | some h ↦ (h, r)
    | none ↦
        let made = new_histogram D bucket_bounds in
        (made, record r { histograms = insert_text name made r.histograms })
  ]

  pub observe_histogram :
      List ℕ → List D.Double → D.Double → MetricsRegistry D.Double → MetricsRegistry D.Double
  observe_histogram name bucket_bounds v r =
      let (h, found) = histogram name bucket_bounds r in
      record found { histograms = insert_text name (observe D v h) found.histograms }

-- A signed 64-bit number in decimal.
pub print_signed : ℕ → List ℕ
print_signed v = if ltb v (2 ^ 63) then to_string v else 45 ∷ to_string (2 ^ 64 - v)

-- "# TYPE "
abbrev type_prefix : List ℕ
type_prefix = 35 ∷ 32 ∷ 84 ∷ 89 ∷ 80 ∷ 69 ∷ 32 ∷ []

-- " counter\n", " gauge\n", " histogram\n"
abbrev counter_type : List ℕ
counter_type = 32 ∷ 99 ∷ 111 ∷ 117 ∷ 110 ∷ 116 ∷ 101 ∷ 114 ∷ 10 ∷ []

abbrev gauge_type : List ℕ
gauge_type = 32 ∷ 103 ∷ 97 ∷ 117 ∷ 103 ∷ 101 ∷ 10 ∷ []

abbrev histogram_type : List ℕ
histogram_type = 32 ∷ 104 ∷ 105 ∷ 115 ∷ 116 ∷ 111 ∷ 103 ∷ 114 ∷ 97 ∷ 109 ∷ 10 ∷ []

-- "_bucket{le=\"", "\"} ", "_bucket{le=\"+Inf\"} ", "_sum ", "_count "
abbrev bucket_open : List ℕ
bucket_open = 95 ∷ 98 ∷ 117 ∷ 99 ∷ 107 ∷ 101 ∷ 116 ∷ 123 ∷ 108 ∷ 101 ∷ 61 ∷ 34 ∷ []

abbrev bucket_close : List ℕ
bucket_close = 34 ∷ 125 ∷ 32 ∷ []

abbrev infinite_bucket : List ℕ
infinite_bucket = bucket_open ++ 43 ∷ 73 ∷ 110 ∷ 102 ∷ bucket_close

abbrev sum_suffix : List ℕ
sum_suffix = 95 ∷ 115 ∷ 117 ∷ 109 ∷ 32 ∷ []

abbrev count_suffix : List ℕ
count_suffix = 95 ∷ 99 ∷ 111 ∷ 117 ∷ 110 ∷ 116 ∷ 32 ∷ []

pub render_counters : List (List ℕ × ℕ) → List ℕ
render_counters [] = []
render_counters ((name, value) ∷ more) =
    type_prefix
    ++ name
    ++ counter_type
    ++ name
    ++ 32 ∷ to_string value
    ++ 10 ∷ []
    ++ render_counters more

pub render_gauges : List (List ℕ × ℕ) → List ℕ
render_gauges [] = []
render_gauges ((name, value) ∷ more) =
    type_prefix
    ++ name
    ++ gauge_type
    ++ name
    ++ 32 ∷ print_signed value
    ++ 10 ∷ []
    ++ render_gauges more

module _ (D : Doubles) where
  -- The lines of the buckets from index `i` on.
  pub render_buckets : List ℕ → Histogram D.Double → ℕ → List D.Double → List ℕ
  render_buckets name h i [] = []
  render_buckets name h i (b ∷ bs) =
      name
      ++ bucket_open
      ++ D.print b
      ++ bucket_close
      ++ to_string (cumulative_count i h)
      ++ 10 ∷ []
      ++ render_buckets name h (i + 1) bs

  pub render_histogram : List ℕ → Histogram D.Double → List ℕ
  render_histogram name h =
      type_prefix
      ++ name
      ++ histogram_type
      ++ render_buckets name h 0 h.bounds
      ++ name
      ++ infinite_bucket
      ++ to_string h.count
      ++ 10 ∷ []
      ++ name
      ++ sum_suffix
      ++ D.print h.sum
      ++ 10 ∷ []
      ++ name
      ++ count_suffix
      ++ to_string h.count
      ++ 10 ∷ []

  pub render_histograms : List (List ℕ × Histogram D.Double) → List ℕ
  render_histograms [] = []
  render_histograms ((name, h) ∷ more) = render_histogram name h ++ render_histograms more

  pub render_prometheus : MetricsRegistry D.Double → List ℕ
  render_prometheus r =
      render_counters r.counters ++ render_gauges r.gauges ++ render_histograms r.histograms
