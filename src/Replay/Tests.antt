-- ===== src/Replay/Tests.antt =====
-- Runs of the predictor, and the theorems at such inputs.
use adaptive_lio.Common.{ℕ, ◌≡◌, refl, Bool, true, some, List, [], ◌∷◌, arith, length}
use adaptive_lio.Common.Fixed.{Fixed, decimal, fixed_double, Fixed-IsOrdered}
use adaptive_lio.Imu.{usable, constant}
use adaptive_lio.Imu.Gate.Tests.{sample}
use adaptive_lio.Linear.{scalar_linear}
use adaptive_lio.Filter.Steps.{predict, can_predict, predicted, transition}
use adaptive_lio.Filter.{
  restore_snapshot, valid_snapshot, snapshot_finite, is_rotation, is_semidefinite,
}
use adaptive_lio.Filter.Tests.{fresh_filter, fresh_snapshot, fresh_snapshot-valid}
use adaptive_lio.Replay.{
  Predictor, LioStateUpdate, make_predictor, append, submit, publishable, fail, trim,
  invalid_update, stale_update, propagate_interval, refuses_interval, endpoint,
}
use adaptive_lio.Replay.Advance.{advance, take_pending, catch_up, adopt_update, upper_bound, replay}
use adaptive_lio.Replay.Steps.{IsValid, IsStep}
use adaptive_lio.Replay.Calls.{
  Call, append_call, submit_call, advance_call, publishable_call, call, calls, calls-IsStep,
}
use adaptive_lio.Replay.History.{IsFit}
use adaptive_lio.Replay.Catch.{IsCaughtUp, advance-IsCaughtUp}

-- The predictor of the worker, with its default limits of 2 s and 0.5 s.
abbrev pub fresh : Predictor scalar_linear
fresh = make_predictor scalar_linear fresh_filter (decimal 2 0) (decimal 5 1)

pub fresh-IsValid : IsValid scalar_linear fresh
fresh-IsValid = record {
  history = record { fits = (tt, tt); bounded = ground arith };
  pending = tt;
  faulted_idle = λ h. refl;
  anchored = λ h. ground arith;
}

abbrev pub update : ℕ → LioStateUpdate scalar_linear
update n = record {
  state = fresh_snapshot;
  sequence = n;
  last_accepted_lidar_stamp = decimal 0 0;
  gyro_measurement_variance = constant (decimal 1 5);
}

-- A posterior at time 0 and four samples, two of them stale.
abbrev pub inputs : List (Call scalar_linear)
inputs =
    append_call (sample 0 (decimal 1 1))
    ∷ append_call (sample 10 (decimal 1 1))
    ∷ append_call (sample 10 (decimal 2 1))
    ∷ submit_call (update 1)
    ∷ append_call (sample 20 (decimal 1 1))
    ∷ advance_call
    ∷ publishable_call
    ∷ []

abbrev pub driven : List (Call scalar_linear) → Predictor scalar_linear
driven cs = calls scalar_linear cs fresh

unfoldable pub time_of : List (Call scalar_linear) → Fixed
unfolding calls call append submit publishable trim invalid_update stale_update propagate_interval
    refuses_interval endpoint advance take_pending catch_up adopt_update upper_bound replay fail
    restore_snapshot valid_snapshot snapshot_finite is_rotation is_semidefinite predict can_predict
    predicted transition usable
time_of cs = (driven cs).filter.current_time

faulted_of : List (Call scalar_linear) → Bool
unfolding time_of
faulted_of cs = (driven cs).faulted

size_of : List (Call scalar_linear) → ℕ
unfolding time_of
size_of cs = length (driven cs).history

caught_up : time_of inputs ≡ decimal 2 2
unfolding time_of
caught_up = refl

three_kept : size_of inputs ≡ 3
unfolding size_of
three_kept = refl

-- A gap of 80 ms stops the predictor.
gap_fails :
    faulted_of (
      append_call (sample 0 (decimal 1 1))
      ∷ submit_call (update 1)
      ∷ append_call (sample 80 (decimal 1 1))
      ∷ advance_call
      ∷ [])
    ≡ true
unfolding faulted_of
gap_fails = refl

calls-IsStep_example : IsStep scalar_linear fresh (driven inputs)
calls-IsStep_example = calls-IsStep scalar_linear Fixed-IsOrdered inputs fresh fresh-IsValid

-- Before the call of `Advance`: an update and three samples wait.
abbrev pub waiting : Predictor scalar_linear
waiting = record fresh {
  history = sample 0 (decimal 1 1) ∷ sample 10 (decimal 1 1) ∷ sample 20 (decimal 1 1) ∷ [];
  pending = some (update 1);
}

fit : (t : ℕ) → IsFit (sample t (decimal 1 1))
unfolding usable
fit t = record { usable_quality = refl; finite_stamp = refl; finite_values = refl }

pub waiting-IsValid : IsValid scalar_linear waiting
waiting-IsValid = record {
  history = record {
    fits = ((fit 0, (fit 10, (fit 20, tt))), ((refl, (refl, tt)), ((refl, tt), (tt, tt))));
    bounded = ground arith;
  };
  pending = (fresh_snapshot-valid, ground arith);
  faulted_idle = λ h. refl;
  anchored = λ h. ground arith;
}

advance-IsCaughtUp_example : IsCaughtUp scalar_linear (advance scalar_linear waiting)
advance-IsCaughtUp_example =
    advance-IsCaughtUp scalar_linear Fixed-IsOrdered waiting waiting-IsValid
