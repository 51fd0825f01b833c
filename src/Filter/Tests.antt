-- ===== src/Filter/Tests.antt =====
-- Runs of the filter with one number for each matrix, and the theorems at such inputs.
use adaptive_lio.Common.{◌≡◌, refl, ◌⊎◌, Bool, true, false, List, [], ◌∷◌}
use adaptive_lio.Common.Fixed.{Fixed, nan, decimal, fixed_double}
use adaptive_lio.Imu.{Imu, usable}
use adaptive_lio.Imu.Gate.Tests.{sample}
use adaptive_lio.Linear.{Se3, scalar_linear}
use adaptive_lio.Filter.{
  Eskf, EskfOptions, Snapshot, make_eskf, build_noise, valid_snapshot, snapshot_finite, is_rotation,
  is_semidefinite, export_snapshot, restore_snapshot,
}
use adaptive_lio.Filter.Steps.{
  predict, can_predict, predicted, transition, state_finite, observe_se3, observe_checked,
  observe_with, observed, adopt, update_and_reset, project_cov, validate_observation_covariance,
}
use adaptive_lio.Filter.Calls.{
  IsTransaction, IsPredicted, IsObserved, Call, predict_call, observe_call, restore_call, run,
  predict_lem, observe_se3_lem, restore-export, run-IsFinite,
}

abbrev pub defaults : EskfOptions Fixed
defaults = record {
  imu_dt = decimal 1 2;
  gyro_var = decimal 1 5;
  acce_var = decimal 1 2;
  bias_gyro_var = decimal 1 6;
  bias_acce_var = decimal 1 4;
  update_bias_gyro = true;
  update_bias_acce = false;
}

abbrev pub fresh_filter : Eskf scalar_linear
fresh_filter = record {
  current_time = decimal 0 0;
  p = decimal 0 0;
  v = decimal 0 0;
  rotation = tt;
  bg = decimal 0 0;
  ba = decimal 0 0;
  g = decimal 0 0;
  dx = decimal 0 0;
  cov = decimal 1 0;
  noise = decimal 0 0;
  options = defaults;
}

-- The members' initial values.
make_eskf-defaults : make_eskf scalar_linear defaults ≡ fresh_filter
unfolding make_eskf build_noise
make_eskf-defaults = refl

abbrev pub origin : Se3 Fixed Unit
origin = record { so3 = tt; translation = decimal 1 1 }

-- A sample 10 ms later is accepted; one 60 ms later, one at the same time and one with NaN are not.
accepts : Imu Fixed → Bool
unfolding predict can_predict predicted transition usable
accepts x = (predict scalar_linear x fresh_filter).accepted

accepts_next : accepts (sample 10 (decimal 1 1)) ≡ true
unfolding accepts
accepts_next = refl

accepts_gap : accepts (sample 60 (decimal 1 1)) ≡ false
unfolding accepts
accepts_gap = refl

accepts_same : accepts (sample 0 (decimal 1 1)) ≡ false
unfolding accepts
accepts_same = refl

accepts_nan : accepts (sample 10 nan) ≡ false
unfolding accepts
accepts_nan = refl

-- An observation with variance 1 is accepted, and one with variance 0 is not.
observes : Fixed → Bool
unfolding observe_se3 observe_checked observe_with observed adopt update_and_reset project_cov
    validate_observation_covariance valid_snapshot snapshot_finite is_rotation is_semidefinite
observes r = (observe_se3 scalar_linear origin r fresh_filter).accepted

observes_one : observes (decimal 1 0) ≡ true
unfolding observes
observes_one = refl

observes_zero : observes (decimal 0 0) ≡ false
unfolding observes
observes_zero = refl

predict_lem_example :
    IsTransaction scalar_linear
      (IsPredicted scalar_linear (sample 10 (decimal 1 1)) fresh_filter)
      fresh_filter
      (predict scalar_linear (sample 10 (decimal 1 1)) fresh_filter)
predict_lem_example = predict_lem scalar_linear (sample 10 (decimal 1 1)) fresh_filter

observe_se3_lem_example :
    IsTransaction scalar_linear
      (IsObserved scalar_linear fresh_filter)
      fresh_filter
      (observe_se3 scalar_linear origin (decimal 1 0) fresh_filter)
observe_se3_lem_example = observe_se3_lem scalar_linear origin (decimal 1 0) fresh_filter

abbrev pub fresh_snapshot : Snapshot scalar_linear
fresh_snapshot = export_snapshot scalar_linear fresh_filter

pub fresh_snapshot-valid : valid_snapshot scalar_linear fresh_snapshot ≡ true
unfolding valid_snapshot snapshot_finite is_rotation is_semidefinite
fresh_snapshot-valid = refl

abbrev pub broken_filter : Eskf scalar_linear
broken_filter = record fresh_filter { v = nan }

restore-export_example :
    ((valid_snapshot scalar_linear fresh_snapshot ≡ true)
      × ((restore_snapshot scalar_linear fresh_snapshot broken_filter).accepted ≡ true)
      × (export_snapshot scalar_linear
            (restore_snapshot scalar_linear fresh_snapshot broken_filter).filter
          ≡ fresh_snapshot))
    ⊎ ((valid_snapshot scalar_linear fresh_snapshot ≡ false)
        × ((restore_snapshot scalar_linear fresh_snapshot broken_filter).accepted ≡ false)
        × ((restore_snapshot scalar_linear fresh_snapshot broken_filter).filter ≡ broken_filter))
restore-export_example = restore-export scalar_linear fresh_snapshot broken_filter

calls : List (Call scalar_linear)
calls =
    predict_call (sample 10 (decimal 1 1))
    ∷ observe_call origin (decimal 1 0)
    ∷ predict_call (sample 20 nan)
    ∷ restore_call fresh_snapshot
    ∷ []

run-IsFinite_example : state_finite scalar_linear (run scalar_linear calls fresh_filter) ≡ true
run-IsFinite_example = run-IsFinite scalar_linear calls fresh_filter refl
