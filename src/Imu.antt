-- ===== src/Imu.antt =====
-- tools/imu.h and `MergeImuQuality` of algo/imu_quality.h: an IMU sample and its quality.
-- The bits 0..5 of a mask are the six axes, and of `reasons` the four reasons; the code sets and
-- reads no other bit of them.
pub mod Axes
pub mod Gate
pub mod Merge
use adaptive_lio.Common.{Bool, true, false, ◌&&◌, ◌||◌, if◌then◌else◌}
use adaptive_lio.Common.Double.{Double}
use Axes.{Vec3, Six}

-- `enum Reason`, a flag for each bit.
pub record Reasons : Type 0 where
  pub non_finite : Bool
  pub saturated : Bool
  pub stale : Bool
  pub time_fault : Bool

abbrev pub no_reasons : Reasons
no_reasons = record { non_finite = false; saturated = false; stale = false; time_fault = false }

pub record ImuQuality (D : Type 0) : Type 0 where
  pub valid_mask : Six Bool
  pub saturation_mask : Six Bool
  pub held_mask : Six Bool
  pub reasons : Reasons
  pub degraded : Bool
  pub gyro_noise_scale : Vec3 D
  pub accel_noise_scale : Vec3 D
  pub degraded_total_seconds : D

pub record Imu (D : Type 0) : Type 0 where
  pub quality : ImuQuality D
  pub timestamp : D
  pub gyro : Vec3 D
  pub acce : Vec3 D

abbrev pub same {ℓ} : {A : Type ℓ} → A → Six A
same v = record { gyro_x = v; gyro_y = v; gyro_z = v; accel_x = v; accel_y = v; accel_z = v }

abbrev pub constant {ℓ} : {A : Type ℓ} → A → Vec3 A
constant v = record { x = v; y = v; z = v }

abbrev pub any : Six Bool → Bool
any m = m.gyro_x || m.gyro_y || m.gyro_z || m.accel_x || m.accel_y || m.accel_z

abbrev pub every : Six Bool → Bool
every m = m.gyro_x && m.gyro_y && m.gyro_z && m.accel_x && m.accel_y && m.accel_z

-- A bitwise operation on two masks.
abbrev pub bitwise : (Bool → Bool → Bool) → Six Bool → Six Bool → Six Bool
bitwise f a b = record {
  gyro_x = f a.gyro_x b.gyro_x;
  gyro_y = f a.gyro_y b.gyro_y;
  gyro_z = f a.gyro_z b.gyro_z;
  accel_x = f a.accel_x b.accel_x;
  accel_y = f a.accel_y b.accel_y;
  accel_z = f a.accel_z b.accel_z;
}

module _ {D : Type 0} ⦃d : Double D⦄ where
  -- The default value of the members of `ImuQuality`.
  abbrev pub fresh_quality : ImuQuality D
  fresh_quality = record {
    valid_mask = same true;
    saturation_mask = same false;
    held_mask = same false;
    reasons = no_reasons;
    degraded = false;
    gyro_noise_scale = constant (d.decimal 1 0);
    accel_noise_scale = constant (d.decimal 1 0);
    degraded_total_seconds = d.decimal 0 0;
  }

  abbrev pub all_finite : Vec3 D → Bool
  all_finite v = d.is_finite v.x && d.is_finite v.y && d.is_finite v.z

  abbrev pub at_least : D → Vec3 D → Bool
  at_least b v = d.le b v.x && d.le b v.y && d.le b v.z

  -- `ImuQuality::Usable`.
  unfoldable pub usable : ImuQuality D → Bool
  usable q =
      every (bitwise ◌||◌ q.valid_mask q.held_mask)
      && all_finite q.gyro_noise_scale
      && all_finite q.accel_noise_scale
      && at_least (d.decimal 1 0) q.gyro_noise_scale
      && at_least (d.decimal 1 0) q.accel_noise_scale

  -- `std::max`, which returns its first argument unless it is smaller, and `cwiseMax`.
  abbrev pub max : D → D → D
  max a b = if d.lt a b then b else a

  abbrev pub cwise_max : Vec3 D → Vec3 D → Vec3 D
  cwise_max a b = record { x = max a.x b.x; y = max a.y b.y; z = max a.z b.z }

  unfoldable pub merge : ImuQuality D → ImuQuality D → ImuQuality D
  merge a b = record {
    valid_mask = bitwise ◌&&◌ a.valid_mask b.valid_mask;
    saturation_mask = bitwise ◌||◌ a.saturation_mask b.saturation_mask;
    held_mask = bitwise ◌||◌ a.held_mask b.held_mask;
    reasons = record {
      non_finite = a.reasons.non_finite || b.reasons.non_finite;
      saturated = a.reasons.saturated || b.reasons.saturated;
      stale = a.reasons.stale || b.reasons.stale;
      time_fault = a.reasons.time_fault || b.reasons.time_fault;
    };
    degraded = a.degraded || b.degraded;
    gyro_noise_scale = cwise_max a.gyro_noise_scale b.gyro_noise_scale;
    accel_noise_scale = cwise_max a.accel_noise_scale b.accel_noise_scale;
    degraded_total_seconds = max a.degraded_total_seconds b.degraded_total_seconds;
  }
