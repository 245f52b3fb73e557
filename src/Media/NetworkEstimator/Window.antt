-- ===== src/Media/NetworkEstimator/Window.antt =====
-- The window of the estimator: the samples that it keeps are the recent ones of all it has taken.
use cascade.Base.{ℕ, ◌+◌, ◌≤◌, List, [], ◌∷◌, leb, if◌then◌else◌}
use cascade.Base.Double.{Doubles}
use cascade.Media.NetworkEstimator.{Sample, NetworkConditionEstimator, record_received_bytes}

-- The samples that are at most `window` old.
unfoldable pub recent : ℕ → ℕ → List Sample → List Sample
recent window now [] = []
recent window now (s ∷ ss) =
    let rest = recent window now ss in if leb now (s.timestamp_ms + window) then s ∷ rest else rest

-- Timestamps from `start` to `end`, none before the one that it follows.
unfoldable pub Ordered : ℕ → ℕ → List Sample → Type 0
Ordered start end [] = start ≤ end
Ordered start end (s ∷ ss) = (start ≤ s.timestamp_ms) × Ordered s.timestamp_ms end ss

module _ (D : Doubles) where
  pub record_all :
      List Sample → NetworkConditionEstimator D.Double → NetworkConditionEstimator D.Double
  record_all [] e = e
  record_all (s ∷ ss) e = record_all ss (record_received_bytes D s.bytes s.timestamp_ms e)
