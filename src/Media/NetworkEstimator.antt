-- ===== src/Media/NetworkEstimator.antt =====
-- cpp/core/media/network_estimator.hpp: bandwidth over a sliding window, loss and round trip time as
-- moving averages. The mutex makes each operation one step; the numbers of type double are a
-- parameter.
pub mod Window
use cascade.Base.{
  ℕ, zero, suc, ◌+◌, ◌-◌, Bool, true, false, List, [], ◌∷◌, ◌++◌, ltb, if◌then◌else◌, is_empty,
}
use cascade.Base.Word.{add64, sub64}
use cascade.Base.Double.{Doubles}

pub record Sample : Type 0 where
  pub timestamp_ms : ℕ
  pub bytes : ℕ

pub record NetworkConditionEstimator (D : Type 0) : Type 0 where
  pub bandwidth_window_ms : ℕ
  pub loss_alpha : D
  pub rtt_alpha : D
  pub samples : List Sample
  pub loss_ema : D
  pub loss_initialized : Bool
  pub rtt_ema : D
  pub rtt_initialized : Bool

-- The loop of `evict_old_locked`.
pub evict_old : ℕ → ℕ → List Sample → List Sample
evict_old window now_ms [] = []
evict_old window now_ms (s ∷ ss) =
    let rest = evict_old window now_ms ss in
    if ltb window (sub64 now_ms s.timestamp_ms) then rest else s ∷ ss

pub total_bytes : List Sample → ℕ
total_bytes [] = 0
total_bytes (s ∷ ss) = add64 s.bytes (total_bytes ss)

-- From the first sample on; 1 where no time has passed.
pub span_ms : ℕ → List Sample → ℕ
span_ms now_ms [] = 1
span_ms now_ms (s ∷ ss) = if ltb s.timestamp_ms now_ms then now_ms - s.timestamp_ms else 1

module _ (D : Doubles) where
  pub new_estimator : ℕ → D.Double → D.Double → NetworkConditionEstimator D.Double
  new_estimator window loss_ema_alpha rtt_ema_alpha = record {
    bandwidth_window_ms = window;
    loss_alpha = loss_ema_alpha;
    rtt_alpha = rtt_ema_alpha;
    samples = [];
    loss_ema = D.of_nat 0;
    loss_initialized = false;
    rtt_ema = D.of_nat 0;
    rtt_initialized = false;
  }

  pub evict_old_locked : ℕ → NetworkConditionEstimator D.Double → NetworkConditionEstimator D.Double
  evict_old_locked now_ms e = record e {
    samples = evict_old e.bandwidth_window_ms now_ms e.samples;
  }

  pub record_received_bytes :
      ℕ → ℕ → NetworkConditionEstimator D.Double → NetworkConditionEstimator D.Double
  record_received_bytes bytes now_ms e =
      evict_old_locked now_ms
        (record e { samples = e.samples ++ record { timestamp_ms = now_ms; bytes = bytes } ∷ [] })

  -- The moving average that starts with its first sample.
  pub average : D.Double → Bool → D.Double → D.Double → D.Double
  average alpha initialized sample ema =
      if initialized
      then D.add (D.mul alpha sample) (D.mul (D.sub (D.of_nat 1) alpha) ema)
      else sample

  pub record_loss_sample :
      Bool → NetworkConditionEstimator D.Double → NetworkConditionEstimator D.Double
  record_loss_sample lost e =
      let sample = if lost then D.of_nat 1 else D.of_nat 0 in
      record e {
        loss_ema = average e.loss_alpha e.loss_initialized sample e.loss_ema;
        loss_initialized = true;
      }

  pub record_rtt_sample :
      D.Double → NetworkConditionEstimator D.Double → NetworkConditionEstimator D.Double
  record_rtt_sample rtt_ms e = record e {
    rtt_ema = average e.rtt_alpha e.rtt_initialized rtt_ms e.rtt_ema;
    rtt_initialized = true;
  }

  -- The estimate for the samples of the window, and the estimator with these alone.
  pub estimated_bandwidth_kbps :
      ℕ → NetworkConditionEstimator D.Double → D.Double × NetworkConditionEstimator D.Double
  estimated_bandwidth_kbps now_ms e =
      let recent = evict_old_locked now_ms e in
      let bytes = D.of_nat (total_bytes recent.samples) in
      let span = D.of_nat (span_ms now_ms recent.samples) in
      let thousand = D.of_nat 1000 in
      (
        if is_empty recent.samples
            then D.of_nat 0
            else D.div (D.div (D.mul bytes (D.of_nat 8)) thousand) (D.div span thousand),
        recent,
      )

  pub estimated_loss_rate : NetworkConditionEstimator D.Double → D.Double
  estimated_loss_rate e = if e.loss_initialized then e.loss_ema else D.of_nat 0

  pub smoothed_rtt_ms : NetworkConditionEstimator D.Double → D.Double
  smoothed_rtt_ms e = if e.rtt_initialized then e.rtt_ema else D.of_nat 0
