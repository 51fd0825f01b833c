-- ===== src/Init/Tests.antt =====
-- A run of the initialisation, and its theorem at that input.
use adaptive_lio.Common.{
  ℕ, ◌+◌, ◌*◌, ◌≡◌, refl, Bool, true, false, ◌⊎◌, none, List, [], ◌∷◌, arith, zero, suc,
}
use adaptive_lio.Common.Fixed.{Fixed, decimal, fixed_double, neg, pos_inf}
use adaptive_lio.Imu.{Imu, constant}
use adaptive_lio.Imu.Gate.Tests.{sample}
use adaptive_lio.Linear.{scalar_linear}
use adaptive_lio.Filter.Tests.{fresh_filter, defaults}
use adaptive_lio.Init.{
  Startup, accumulate, compute_mean, compute_cov_diag, measure_rest, try_init, add_imu, add_samples,
  try_init_imu,
}
use adaptive_lio.Init.Static.{IsStartup, IsStarted, try_init_imu_lem}

abbrev pub before : Startup scalar_linear
before = record {
  imu_init = record {
    options = record {
      init_time_seconds = decimal 1 1;
      init_imu_queue_max_size = 2000;
      max_static_gyro_var = decimal 5 1;
      max_static_acce_var = decimal 6 1;
      gravity_norm = decimal 981 2;
      use_speed_for_static_checking = false;
    };
    init_success = false;
    cov_gyro = constant (decimal 0 0);
    cov_acce = constant (decimal 0 0);
    init_bg = constant (decimal 0 0);
    init_ba = constant (decimal 0 0);
    gravity = constant (decimal 0 0);
    mean_acc = constant (decimal 0 0);
    is_static = false;
    init_imu_deque = [];
    current_time = decimal 0 0;
    init_start_time = decimal 0 0;
  };
  last_init_stamp = neg pos_inf;
  filter = fresh_filter;
  last_imu = none;
  gyro_variance = constant (decimal 1 5);
  last_accepted = decimal 0 0;
  imu_need_init = true;
}

-- `n` samples, 10 ms apart.
abbrev pub samples_from : ℕ → ℕ → List (Imu Fixed)
samples_from zero k = []
samples_from (suc n) k = sample (10 * k) (decimal 1 1) ∷ samples_from n (k + 1)

needs_init : ℕ → Bool
unfolding try_init_imu add_samples add_imu try_init measure_rest compute_mean compute_cov_diag
    accumulate
needs_init n =
    (try_init_imu scalar_linear defaults (decimal 2 0) (samples_from n 1) before).imu_need_init

eleven_do_not : needs_init 11 ≡ true
unfolding needs_init
eleven_do_not = refl

twelve_do : needs_init 12 ≡ false
unfolding needs_init
twelve_do = refl

before-IsStartup : IsStartup scalar_linear before
before-IsStartup = record { bounded = ground arith; genuine = tt; measured = λ h. absurd (cc) }

abbrev twelve : Startup scalar_linear
twelve = try_init_imu scalar_linear defaults (decimal 2 0) (samples_from 12 1) before

try_init_imu_lem_example :
    IsStartup scalar_linear twelve
    × (((twelve.imu_need_init ≡ true)
          × (twelve.filter ≡ fresh_filter)
          × (twelve.imu_init.init_success ≡ false))
        ⊎ IsStarted scalar_linear (decimal 2 0) (samples_from 12 1) twelve)
try_init_imu_lem_example =
    try_init_imu_lem scalar_linear defaults (decimal 2 0) (samples_from 12 1) before
      before-IsStartup
