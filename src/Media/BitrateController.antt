-- ===== src/Media/BitrateController.antt =====
-- cpp/core/media/bitrate_controller.hpp: a level of a ladder of bitrates, chosen by the estimates. The
-- estimator is an argument of each operation that reads it. The counters of type int do not
-- overflow here.
pub mod Ladder
use cascade.Base.{
  ℕ, zero, suc, ◌+◌, ◌-◌, Bool, true, false, ◌||◌, ◌&&◌, List, [], ◌∷◌, ltb, leb, if◌then◌else◌,
  get_or, length,
}
use cascade.Base.Double.{Doubles}
use cascade.Media.NetworkEstimator.{
  NetworkConditionEstimator, estimated_bandwidth_kbps, estimated_loss_rate,
}

pub record QualityLevel : Type 0 where
  pub name : List ℕ
  pub bitrate_kbps : ℕ

abbrev pub no_level : QualityLevel
no_level = record { name = []; bitrate_kbps = 0 }

pub record BitrateController (D : Type 0) : Type 0 where
  pub ladder : List QualityLevel
  pub loss_threshold : D
  pub upgrade_confirmations : ℕ
  pub bandwidth_headroom : D
  pub current_index : ℕ
  pub consecutive_good : ℕ

module _ (D : Doubles) where
  pub new_controller : List QualityLevel → D.Double → ℕ → D.Double → BitrateController D.Double
  new_controller ladder loss_threshold upgrade_confirmations bandwidth_headroom = record {
    ladder = ladder;
    loss_threshold = loss_threshold;
    upgrade_confirmations = upgrade_confirmations;
    bandwidth_headroom = bandwidth_headroom;
    current_index = 0;
    consecutive_good = 0;
  }

  -- `ladder_[index].bitrate_kbps * bandwidth_headroom_`
  pub needed : BitrateController D.Double → ℕ → D.Double
  needed c index =
      D.mul (D.of_nat (get_or c.ladder index no_level).bitrate_kbps) c.bandwidth_headroom

  unfoldable pub bad_conditions : D.Double → D.Double → BitrateController D.Double → Bool
  bad_conditions bw loss c =
      D.leq c.loss_threshold loss
      || (D.less (D.of_nat 0) bw && D.less bw (needed c c.current_index))

  -- The conditions of an upgrade, with the reading counted.
  pub may_upgrade : D.Double → BitrateController D.Double → Bool
  may_upgrade bw c =
      leb c.upgrade_confirmations c.consecutive_good
      && (ltb (c.current_index + 1) (length c.ladder) && D.leq (needed c (c.current_index + 1)) bw)

  -- What `evaluate` does with the two estimates.
  pub judge : D.Double → D.Double → BitrateController D.Double → BitrateController D.Double
  judge bw loss c =
      let counted = record c { consecutive_good = c.consecutive_good + 1 } in
      if bad_conditions bw loss c
      then record c { consecutive_good = 0; current_index = c.current_index - 1 }
      else if may_upgrade bw counted
      then record c { consecutive_good = 0; current_index = c.current_index + 1 }
      else counted

  pub evaluate :
      ℕ
      → NetworkConditionEstimator D.Double
      → BitrateController D.Double
      → BitrateController D.Double × NetworkConditionEstimator D.Double
  evaluate now_ms e c =
      let (bw, seen) = estimated_bandwidth_kbps D now_ms e in
      (judge bw (estimated_loss_rate D seen) c, seen)

  pub current : BitrateController D.Double → QualityLevel
  current c = get_or c.ladder c.current_index no_level
