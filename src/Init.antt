-- ===== src/Init.antt =====
-- `StaticIMUInit` of algo/static_imu_init.cc, `ComputeMeanAndCovDiag` of common/math_utils.h and
-- `TryInitIMU` of lio/lidarodom.cpp: biases and gravity from samples at rest.
pub mod Measured
pub mod Static
pub mod Tests
use adaptive_lio.Common.{
  ℕ, suc, ◌-◌, Bool, true, false, not, ◌&&◌, ◌||◌, Option, none, some, List, [], ◌∷◌, ◌++◌, drop,
  ltb, length, is_empty, back, if◌then◌else◌,
}
use adaptive_lio.Common.Double.{Double}
use adaptive_lio.Imu.Axes.{Vec3}
use adaptive_lio.Imu.{Imu, any, constant, cwise_max}
use adaptive_lio.Linear.{Linear}
use adaptive_lio.Filter.{Eskf, EskfOptions, set_initial_conditions, set_initial_time}

pub record InitOptions (D : Type 0) : Type 0 where
  pub init_time_seconds : D
  pub init_imu_queue_max_size : ℕ
  pub max_static_gyro_var : D
  pub max_static_acce_var : D
  pub gravity_norm : D
  pub use_speed_for_static_checking : Bool

pub record StaticImuInit (D : Type 0) : Type 0 where
  pub options : InitOptions D
  pub init_success : Bool
  pub cov_gyro : Vec3 D
  pub cov_acce : Vec3 D
  pub init_bg : Vec3 D
  pub init_ba : Vec3 D
  pub gravity : Vec3 D
  pub mean_acc : Vec3 D
  pub is_static : Bool
  pub init_imu_deque : List (Imu D)
  pub current_time : D
  pub init_start_time : D

-- What `TryInitIMU` changes: the initialiser, its static stamp, and the members for the frames.
pub record Startup {D : Type 0} (l : Linear D) : Type 0 where
  pub imu_init : StaticImuInit D
  pub last_init_stamp : D
  pub filter : Eskf l
  pub last_imu : Option (Imu D)
  pub gyro_variance : Vec3 D
  pub last_accepted : D
  pub imu_need_init : Bool

module _ {D : Type 0} ⦃d : Double D⦄ where
  abbrev pub zip_with : (D → D → D) → Vec3 D → Vec3 D → Vec3 D
  zip_with f a b = record { x = f a.x b.x; y = f a.y b.y; z = f a.z b.z }

  abbrev pub each_axis : (D → D) → Vec3 D → Vec3 D
  each_axis f a = record { x = f a.x; y = f a.y; z = f a.z }

  abbrev pub norm3 : Vec3 D → D
  norm3 v = d.sqrt (d.add (d.add (d.mul v.x v.x) (d.mul v.y v.y)) (d.mul v.z v.z))

  -- `std::accumulate` of the sums, from `sum` on.
  unfoldable pub accumulate : (Imu D → Vec3 D) → List (Imu D) → Vec3 D → Vec3 D
  accumulate getter [] sum = sum
  accumulate getter (x ∷ xs) sum = accumulate getter xs (zip_with d.add sum (getter x))

  abbrev pub squared : Vec3 D → Vec3 D → Vec3 D
  squared mean v = each_axis (λ x. d.mul x x) (zip_with d.sub v mean)

  -- The mean and the diagonal of the covariance of `ComputeMeanAndCovDiag`.
  unfoldable pub compute_mean : List (Imu D) → (Imu D → Vec3 D) → Vec3 D
  unfolding accumulate
  compute_mean samples getter =
      each_axis (λ x. d.div x (d.decimal (length samples) 0))
        (accumulate getter samples (constant (d.decimal 0 0)))

  unfoldable pub compute_cov_diag : List (Imu D) → Vec3 D → (Imu D → Vec3 D) → Vec3 D
  unfolding accumulate
  compute_cov_diag samples mean getter =
      each_axis (λ x. d.div x (d.decimal (length samples - 1) 0))
        (accumulate (λ s. squared mean (getter s)) samples (constant (d.decimal 0 0)))

  -- What `TryInit` computes before it tests the noise.
  abbrev pub measured_gravity : InitOptions D → Vec3 D → Vec3 D
  measured_gravity o mean_acce =
      each_axis (λ x. d.mul (d.div (d.neg x) (norm3 mean_acce)) o.gravity_norm) mean_acce

  abbrev pub without_gravity : Vec3 D → Imu D → Vec3 D
  without_gravity gravity s = zip_with d.add s.acce gravity

  unfoldable pub measure_rest : StaticImuInit D → StaticImuInit D
  unfolding compute_mean compute_cov_diag
  measure_rest s =
      let mean_gyro = compute_mean s.init_imu_deque (λ x. x.gyro) in
      let gravity = measured_gravity s.options (compute_mean s.init_imu_deque (λ x. x.acce)) in
      let mean_acce = compute_mean s.init_imu_deque (without_gravity gravity) in
      record s {
        cov_gyro = compute_cov_diag s.init_imu_deque mean_gyro (λ x. x.gyro);
        gravity = gravity;
        cov_acce = compute_cov_diag s.init_imu_deque mean_acce (without_gravity gravity);
      }

  abbrev pub noisy : StaticImuInit D → Bool
  noisy s =
      d.lt s.options.max_static_gyro_var (norm3 s.cov_gyro)
      || d.lt s.options.max_static_acce_var (norm3 s.cov_acce)

  -- `TryInit`; what it returns is not used.
  unfoldable pub try_init : StaticImuInit D → StaticImuInit D
  unfolding measure_rest
  try_init s =
      let m = measure_rest s in
      let mean_acce = compute_mean m.init_imu_deque (without_gravity m.gravity) in
      if ltb (length s.init_imu_deque) 10
      then s
      else (if noisy m then m else record m {
        init_bg = compute_mean m.init_imu_deque (λ x. x.gyro);
        init_ba = mean_acce;
        mean_acc = mean_acce;
        init_success = true;
      })

  -- The queue is shortened to its limit, and the time is set.
  abbrev pub finish_add : Imu D → StaticImuInit D → StaticImuInit D
  finish_add imu s = record s {
    init_imu_deque =
        drop (length s.init_imu_deque - s.options.init_imu_queue_max_size) s.init_imu_deque;
    current_time = imu.timestamp;
  }

  abbrev pub push : Imu D → StaticImuInit D → StaticImuInit D
  push imu s = record s {
    init_start_time = if is_empty s.init_imu_deque then imu.timestamp else s.init_start_time;
    init_imu_deque = s.init_imu_deque ++ (imu ∷ []);
  }

  abbrev pub attempt : Imu D → StaticImuInit D → StaticImuInit D
  attempt imu s =
      if d.lt s.options.init_time_seconds (d.sub imu.timestamp s.init_start_time)
      then try_init s
      else s

  -- `AddIMU`; what it returns is not used.
  unfoldable pub add_imu : Imu D → StaticImuInit D → StaticImuInit D
  unfolding try_init
  add_imu imu s =
      if s.init_success
      then s
      else (if s.options.use_speed_for_static_checking && not s.is_static
          then record s { init_imu_deque = [] }
          else finish_add imu (attempt imu (push imu s)))

  -- The loop of `TryInitIMU` over the samples of a frame skips repeated and altered ones.
  abbrev pub skips : D → Imu D → Bool
  skips last imu = d.le imu.timestamp last || imu.quality.degraded || any imu.quality.held_mask

module _ {D : Type 0} ⦃d : Double D⦄ (l : Linear D) where
  unfoldable pub add_samples : List (Imu D) → Startup l → Startup l
  unfolding add_imu
  add_samples [] s = s
  add_samples (x ∷ xs) s = add_samples xs (
      if skips s.last_init_stamp x
      then s
      else record s { last_init_stamp = x.timestamp; imu_init = add_imu x s.imu_init })

  -- The filter at the time of the newest sample of the frame, or at its end if it has none.
  abbrev pub start_time : D → Option (Imu D) → D
  start_time end_time none = end_time
  start_time end_time (some x) = x.timestamp

  abbrev pub initialised : EskfOptions D → D → Option (Imu D) → Startup l → Startup l
  initialised o end_time newest s =
      let i = s.imu_init in
      record s {
        filter = set_initial_time l (start_time end_time newest) (
            set_initial_conditions l o (l.of_vec3 i.init_bg) (l.of_vec3 i.init_ba)
              (l.of_vec3 i.gravity) s.filter);
        last_imu = newest;
        gyro_variance = cwise_max i.cov_gyro (constant (d.decimal 1 12));
        last_accepted = start_time end_time newest;
        imu_need_init = false;
      }

  -- `TryInitIMU`, with the default options of the filter.
  unfoldable pub try_init_imu : EskfOptions D → D → List (Imu D) → Startup l → Startup l
  unfolding add_samples
  try_init_imu o end_time samples s =
      let added = add_samples samples s in
      if added.imu_init.init_success then initialised o end_time (back samples) added else added
