-- ===== src/Frame/Tests.antt =====
-- Runs of the frame's prediction and deskewing, and the theorems at such inputs.
use adaptive_lio.Common.{ℕ, ◌≡◌, refl, false, Option, none, some, List, [], ◌∷◌, map, length}
use adaptive_lio.Common.Fixed.{Fixed, nan, decimal, fixed_double, Fixed-IsOrdered}
use adaptive_lio.Imu.{Imu, usable, constant}
use adaptive_lio.Imu.Gate.Tests.{sample}
use adaptive_lio.Linear.{Se3, scalar_linear}
use adaptive_lio.Filter.{NavState, get_nominal_state}
use adaptive_lio.Filter.Steps.{predict, can_predict, predicted, transition}
use adaptive_lio.Filter.Tests.{fresh_filter}
use adaptive_lio.Point.{Point}
use adaptive_lio.Replay.{propagate_interval, refuses_interval, endpoint}
use adaptive_lio.Frame.{
  Prediction, predict_frame, predict_loop, reaches_end, lower_bound, interpolated, pose_at,
  deskewed, deskew_to_end_imu, undistort,
}
use adaptive_lio.Frame.Trajectory.{FineOption, predict_frame-Fine}
use adaptive_lio.Frame.Deskew.{IfSome, IsDeskewed, deskew_to_end_imu-IsDeskewed}

-- Three samples, the last one behind the end of the frame at 25 ms.
abbrev pub samples : List (Imu Fixed)
samples = sample 10 (decimal 1 1) ∷ sample 20 (decimal 1 1) ∷ sample 30 (decimal 1 1) ∷ []

abbrev pub rest : Imu Fixed
rest = sample 0 (decimal 1 1)

stamps : Option (Prediction scalar_linear) → List Fixed
stamps none = []
stamps (some r) = map (λ s. s.timestamp) r.states

frame_stamps :
    stamps (predict_frame scalar_linear false (decimal 25 3) samples (some rest) fresh_filter)
    ≡ decimal 0 0 ∷ decimal 10 3 ∷ decimal 20 3 ∷ decimal 25 3 ∷ []
unfolding stamps predict_frame predict_loop reaches_end propagate_interval refuses_interval endpoint
    predict can_predict predicted transition usable
frame_stamps = refl

predict_frame-Fine_example :
    FineOption scalar_linear
      (decimal 25 3)
      (get_nominal_state scalar_linear fresh_filter)
      (predict_frame scalar_linear false (decimal 25 3) samples (some rest) fresh_filter)
predict_frame-Fine_example =
    predict_frame-Fine scalar_linear Fixed-IsOrdered false (decimal 25 3) samples (some rest)
      fresh_filter refl

abbrev pub state_at : ℕ → NavState scalar_linear
state_at t = record {
  timestamp = decimal t 3;
  rotation = tt;
  p = decimal t 3;
  v = decimal 1 0;
  bg = decimal 0 0;
  ba = decimal 0 0;
}

abbrev pub trajectory : List (NavState scalar_linear)
trajectory = state_at 0 ∷ state_at 10 ∷ state_at 20 ∷ []

abbrev pub still : Se3 Fixed Unit
still = record { so3 = tt; translation = decimal 0 0 }

-- Halfway between two states, at a state, and behind the last one.
deskew_at : ℕ → Option Fixed
unfolding deskew_to_end_imu deskewed pose_at interpolated lower_bound
deskew_at t =
    deskew_to_end_imu scalar_linear (constant (decimal 1 0)) (decimal t 3) trajectory still still

deskew_between : deskew_at 5 ≡ some (decimal 1005 3)
unfolding deskew_at
deskew_between = refl

deskew_state : deskew_at 10 ≡ some (decimal 101 2)
unfolding deskew_at
deskew_state = refl

deskew_behind : deskew_at 21 ≡ none
unfolding deskew_at
deskew_behind = refl

deskew_to_end_imu-IsDeskewed_example :
    IfSome scalar_linear
      (IsDeskewed scalar_linear (decimal 1 0) (decimal 5 3) trajectory still still)
      (deskew_to_end_imu scalar_linear
        (constant (decimal 1 0))
        (decimal 5 3)
        trajectory
        still
        still)
deskew_to_end_imu-IsDeskewed_example =
    deskew_to_end_imu-IsDeskewed scalar_linear (constant (decimal 1 0)) (decimal 5 3) trajectory
      still still

abbrev pub point_at : ℕ → Point Fixed
point_at t = record {
  raw_point = constant (decimal 1 0);
  end_point = constant nan;
  point = constant (decimal 0 0);
  intensity = decimal 0 0;
  alpha_time = decimal 0 0;
  relative_time = decimal 0 0;
  timespan = decimal 0 0;
  timestamp = decimal t 3;
  ring = 0;
  lid = 0;
}

abbrev pub scan : List (Point Fixed)
scan = point_at 5 ∷ point_at 21 ∷ point_at 10 ∷ []

two_left : length (undistort scalar_linear trajectory still still scan) ≡ 2
unfolding deskew_at undistort
two_left = refl
