-- ===== src/Imu/Gate/Tests.antt =====
-- Runs of the gate over concrete decimals, and the theorems at such inputs.
use adaptive_lio.Common.{ℕ, ◌≡◌, refl, true, false, List, [], ◌∷◌, length}
use adaptive_lio.Common.Fixed.{Fixed, nan, decimal, fixed_double, Fixed-IsOrdered}
use adaptive_lio.Imu.Axes.{get, put, channel, put_gyro, put_accel}
use adaptive_lio.Imu.{Imu, fresh_quality, same, constant}
use adaptive_lio.Imu.Gate.{
  ImuQualityOptions, Gate, Decision, forward, drop, fault, valid, create, initial, process,
  conclude, scan, check_axis, update_episode,
}
use adaptive_lio.Imu.Gate.Safety.{Inv}
use adaptive_lio.Imu.Gate.Fault.{process-fault, process-Inv, create-Inv}
use adaptive_lio.Imu.Gate.Stream.{Ascends, forwarded, forwarded-Ascends, process-fail_closed}

-- Ranges of 35 rad/s and 160 m/s^2, with a hold of `h` milliseconds.
abbrev pub ranged : ℕ → ImuQualityOptions Fixed
ranged h = record {
  gyro_limit = constant (decimal 35 0);
  accel_limit = constant (decimal 160 0);
  saturation_ratio = decimal 95 2;
  hold_seconds = decimal h 3;
  noise_multiplier = decimal 100 0;
  recovery_samples = 3;
}

-- A sample at `t` milliseconds, at rest but for the given value of the gyroscope's x axis.
abbrev pub sample : ℕ → Fixed → Imu Fixed
sample t w = record {
  quality = fresh_quality;
  timestamp = decimal t 3;
  gyro = record { x = w; y = decimal 0 0; z = decimal 0 0 };
  acce = record { x = decimal 0 0; y = decimal 0 0; z = decimal 981 2 };
}

abbrev pub closed : Gate Fixed
closed = initial (ranged 0)

abbrev pub holding : Gate Fixed
holding = initial (ranged 20)

pub closed-Inv : Inv closed
unfolding create valid
closed-Inv = create-Inv Fixed-IsOrdered (ranged 0) refl

pub holding-Inv : Inv holding
unfolding create valid
holding-Inv = create-Inv Fixed-IsOrdered (ranged 20) refl

decisions : Gate Fixed → List (Imu Fixed) → List Decision
unfolding process conclude scan check_axis channel get put put_gyro put_accel update_episode
decisions g [] = []
decisions g (s ∷ ss) = (process g s).decision ∷ decisions (process g s).gate ss

-- A NaN on one axis: the default options fail for good, and a hold bridges it.
closed_fails :
    decisions closed (sample 5 (decimal 1 1) ∷ sample 10 nan ∷ sample 15 (decimal 1 1) ∷ [])
    ≡ forward ∷ fault ∷ fault ∷ []
unfolding decisions
closed_fails = refl

holding_bridges :
    decisions holding (sample 5 (decimal 1 1) ∷ sample 10 nan ∷ sample 15 (decimal 1 1) ∷ [])
    ≡ forward ∷ forward ∷ forward ∷ []
unfolding decisions
holding_bridges = refl

-- Stale samples are dropped, a gap of more than 50 ms is a fault.
stale_and_gap :
    decisions closed (
      sample 5 (decimal 1 1) ∷ sample 5 (decimal 2 1) ∷ sample 3 (decimal 1 1) ∷ sample 80 nan ∷ [])
    ≡ forward ∷ drop ∷ drop ∷ fault ∷ []
unfolding decisions
stale_and_gap = refl

process-fault_example : (process closed (sample 5 nan)).gate.faulted ≡ true
unfolding decisions
process-fault_example = (process-fault closed (sample 5 nan)).0.0 refl

process-Inv_example : Inv (process holding (sample 5 nan)).gate
process-Inv_example = process-Inv Fixed-IsOrdered holding (sample 5 nan) holding-Inv

abbrev stream : List (Imu Fixed)
stream =
    sample 5 (decimal 1 1) ∷ sample 10 nan ∷ sample 10 (decimal 1 1) ∷ sample 15 (decimal 1 1) ∷ []

forwarded-Ascends_example : Ascends holding.last_stamp (forwarded holding stream)
forwarded-Ascends_example = forwarded-Ascends Fixed-IsOrdered holding stream holding-Inv

forwarded_three : length (forwarded holding stream) ≡ 3
unfolding decisions forwarded
forwarded_three = refl

process-fail_closed_example :
    (process closed (sample 5 (decimal 1 1))).sample.quality.held_mask ≡ same false
unfolding decisions
process-fail_closed_example = (process-fail_closed closed (sample 5 (decimal 1 1)) refl refl).4
