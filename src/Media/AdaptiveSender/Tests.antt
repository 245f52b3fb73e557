-- ===== src/Media/AdaptiveSender/Tests.antt =====
-- The theorems on the estimator, the controller and the sender at concrete inputs: numbers without
-- fractions.
use cascade.Base.{
  ℕ, ◌+◌, ◌-◌, ◌*◌, ◌/◌, ◌%◌, ◌^◌, ◌≤◌, ◌≡◌, refl, List, [], ◌∷◌, ◌++◌, arith, ltb, leb, length,
}
use cascade.Base.Double.{Doubles}
use cascade.Base.Text.{to_string}
use cascade.Media.SendQueue.{size}
use cascade.Media.NetworkEstimator.{Sample, NetworkConditionEstimator, new_estimator}
use cascade.Media.BitrateController.{QualityLevel, BitrateController, bad_conditions, judge}
use cascade.Media.BitrateController.Ladder.{judge_all, judge_all-calm}
use cascade.Media.AdaptiveSender.{AdaptiveSender, new_bucket, drain}
use cascade.Media.AdaptiveSender.Drain.{SomeOf, drain_lem}

abbrev whole : Doubles
whole = record {
  Double = ℕ;
  of_nat = λ n. n;
  add = λ a b. a + b;
  sub = λ a b. a - b;
  mul = λ a b. a * b;
  div = λ a b. a / b;
  less = ltb;
  leq = leb;
  print = to_string;
}

abbrev sample : ℕ → ℕ → Sample
sample timestamp bytes = record { timestamp_ms = timestamp; bytes = bytes }

abbrev history : List Sample
history = sample 0 900 ∷ sample 1500 700 ∷ sample 2400 800 ∷ []

abbrev estimator : NetworkConditionEstimator ℕ
estimator = new_estimator whole 2000 0 0

-- Three levels; the middle one is current.
abbrev level : ℕ → QualityLevel
level kbps = record { name = []; bitrate_kbps = kbps }

abbrev controller : BitrateController ℕ
controller = record {
  ladder = level 64 ∷ level 128 ∷ level 256 ∷ [];
  loss_threshold = 5;
  upgrade_confirmations = 3;
  bandwidth_headroom = 1;
  current_index = 1;
  consecutive_good = 2;
}

abbrev readings : List (ℕ × ℕ)
readings = (900, 0) ∷ (900, 0) ∷ []

judge_all-calm_example :
    ((judge whole 900 9 controller).current_index ≡ 0)
    × ((judge_all whole readings (judge whole 900 9 controller)).current_index ≤ 0)
unfolding bad_conditions
judge_all-calm_example = judge_all-calm whole 900 9 readings controller refl (omega arith)

abbrev sender : AdaptiveSender ℕ
sender = record {
  queue = record { high_queue = (1 ∷ []) ∷ []; normal_queue = (2 ∷ []) ∷ (3 ∷ []) ∷ [] };
  bucket = new_bucket whole;
  dropped_count = 0;
}

drain_lem_example :
    let (sent, last, chosen, seen) = drain whole 2500 estimator controller sender in
    (kept : List (List ℕ)) × (sent ≡ ((1 ∷ []) ∷ []) ++ kept)
    × SomeOf kept ((2 ∷ []) ∷ (3 ∷ []) ∷ [])
    × (size last.queue ≡ 0)
    × ((last.dropped_count + length kept) % 2 ^ 64 ≡ 2 % 2 ^ 64)
drain_lem_example = drain_lem whole 2500 estimator controller sender
