-- ===== src/Imu/Gate.antt =====
-- `ImuQualityOptions` and `ImuQualityGate` of algo/imu_quality.h. `Process` changes its argument,
-- so the model returns the sample beside the decision and the new gate.
pub mod Loop
pub mod Safety
pub mod Fault
pub mod Stream
pub mod Tests
use adaptive_lio.Common.{
  ℕ, ◌+◌, Bool, true, false, not, ◌&&◌, ◌||◌, Option, none, some, List, [], ◌∷◌, leb, if◌then◌else◌,
}
use adaptive_lio.Common.Double.{Double}
use adaptive_lio.Imu.Axes.{Vec3, Axis, Six, axes, get, put, channel, put_gyro, put_accel}
use adaptive_lio.Imu.{Reasons, ImuQuality, Imu, same, any, all_finite, at_least, fresh_quality}

pub record ImuQualityOptions (D : Type 0) : Type 0 where
  pub gyro_limit : Vec3 D
  pub accel_limit : Vec3 D
  pub saturation_ratio : D
  pub hold_seconds : D
  pub noise_multiplier : D
  pub recovery_samples : ℕ

pub data Decision : Type 0 where
  forward drop fault : Decision

pub record Gate (D : Type 0) : Type 0 where
  pub options : ImuQualityOptions D
  pub healthy : Six D
  pub healthy_stamp : Six D
  pub last_stamp : D
  pub degraded_start : D
  pub degraded_total : D
  pub recovery : ℕ
  pub degraded : Bool
  pub faulted : Bool

-- How the loop over the axes ends: it ran through, or it returned `Fault()`.
pub data Scan (D : Type 0) : Type 0 where
  passed : Gate D → Imu D → Scan D
  stopped : Gate D → Imu D → Scan D

pub record Outcome (D : Type 0) : Type 0 where
  pub decision : Decision
  pub gate : Gate D
  pub sample : Imu D

module _ {D : Type 0} ⦃d : Double D⦄ where
  -- `ImuQualityOptions::Valid`. `recovery_samples` is an `int` of the configuration.
  unfoldable pub valid : ImuQualityOptions D → Bool
  valid o =
      all_finite o.gyro_limit
      && all_finite o.accel_limit
      && at_least (d.decimal 0 0) o.gyro_limit
      && at_least (d.decimal 0 0) o.accel_limit
      && d.is_finite o.saturation_ratio
      && d.lt (d.decimal 0 0) o.saturation_ratio
      && d.le o.saturation_ratio (d.decimal 1 0)
      && d.is_finite o.hold_seconds
      && d.le (d.decimal 0 0) o.hold_seconds
      && d.le o.hold_seconds (d.decimal 5 2)
      && d.is_finite o.noise_multiplier
      && d.le (d.decimal 1 0) o.noise_multiplier
      && leb 1 o.recovery_samples

  -- The initial values of the members.
  abbrev pub initial : ImuQualityOptions D → Gate D
  initial o = record {
    options = o;
    healthy = same (d.decimal 0 0);
    healthy_stamp = same (d.neg d.infinity);
    last_stamp = d.neg d.infinity;
    degraded_start = d.decimal 0 0;
    degraded_total = d.decimal 0 0;
    recovery = 0;
    degraded = false;
    faulted = false;
  }

  -- The constructor; `none` is its exception.
  unfoldable pub create : ImuQualityOptions D → Option (Gate D)
  unfolding valid
  create o = if valid o then some (initial o) else none

  -- `Fault()`.
  abbrev pub set_faulted : Gate D → Gate D
  set_faulted g = record g { faulted = true }

  abbrev pub with_quality : Imu D → ImuQuality D → Imu D
  with_quality s q = record s { quality = q }

  -- The marks that a bad value leaves: its bit of `valid_mask` is cleared, and the reason is set.
  abbrev pub mark_bad : Axis → Bool → Imu D → Imu D
  mark_bad a saturated s =
      let q = s.quality in
      with_quality s (record q {
        valid_mask = put q.valid_mask a false;
        saturation_mask = if saturated then put q.saturation_mask a true else q.saturation_mask;
        reasons =
            if saturated
            then record q.reasons { saturated = true }
            else record q.reasons { non_finite = true };
      })

  -- The last healthy value in place of a bad one, with its noise scale.
  abbrev pub hold : Axis → D → D → Imu D → Imu D
  hold a value scale s =
      let q = s.quality in
      record s {
        gyro = put_gyro s.gyro a value;
        acce = put_accel s.acce a value;
        quality = record q {
          held_mask = put q.held_mask a true;
          gyro_noise_scale = put_gyro q.gyro_noise_scale a scale;
          accel_noise_scale = put_accel q.accel_noise_scale a scale;
        };
      }

  abbrev pub is_saturated : ImuQualityOptions D → Axis → D → Bool
  is_saturated o a value =
      let limit = channel o.gyro_limit o.accel_limit a in
      d.is_finite value
      && d.lt (d.decimal 0 0) limit
      && d.le (d.mul o.saturation_ratio limit) (d.abs value)

  -- Why a bad value cannot be held: no hold is allowed, there was no healthy value, or it is old.
  abbrev pub cannot_hold : Gate D → Axis → D → Bool
  cannot_hold g a stamp =
      d.le g.options.hold_seconds (d.decimal 0 0)
      || not (d.is_finite (get g.healthy_stamp a))
      || d.lt (d.add g.options.hold_seconds (d.decimal 1 12)) (d.sub stamp (get g.healthy_stamp a))

  -- The body of the loop over the axes.
  unfoldable pub check_axis : Axis → Gate D → Imu D → Scan D
  check_axis a g s =
      let value = channel s.gyro s.acce a in
      let saturated = is_saturated g.options a value in
      if d.is_finite value && not saturated
      then passed
          (record g {
            healthy = put g.healthy a value;
            healthy_stamp = put g.healthy_stamp a s.timestamp;
          })
          s
      else (if cannot_hold g a s.timestamp
          then stopped (set_faulted g) (mark_bad a saturated s)
          else passed g
              (hold a (get g.healthy a) g.options.noise_multiplier (mark_bad a saturated s)))

  -- The loop goes on unless its body returned.
  abbrev pub and_then : Scan D → (Gate D → Imu D → Scan D) → Scan D
  and_then (passed g s) k = k g s
  and_then (stopped g s) k = stopped g s

  unfoldable pub scan : List Axis → Gate D → Imu D → Scan D
  scan [] g s = passed g s
  scan (a ∷ rest) g s = and_then (check_axis a g s) (scan rest)

  -- The episode of degradation after the loop: it begins, goes on, or ends after enough samples.
  unfoldable pub update_episode : Gate D → Imu D → Gate D
  update_episode g s =
      if any s.quality.held_mask
      then record g {
        degraded_start =
            if g.degraded
            then g.degraded_start
            else (if d.is_finite g.last_stamp then g.last_stamp else s.timestamp);
        degraded = true;
        recovery = 0;
      }
      else (if g.degraded
          then record g {
            recovery = g.recovery + 1;
            degraded = not (leb g.options.recovery_samples (g.recovery + 1));
          }
          else g)

  abbrev pub over_budget : Gate D → Imu D → Bool
  over_budget g s =
      g.degraded
      && d.lt (d.add g.options.hold_seconds (d.decimal 1 12)) (d.sub s.timestamp g.degraded_start)

  -- What `Process` does once the loop has passed.
  unfoldable pub finish : Gate D → Imu D → Outcome D
  finish g s =
      let e = update_episode g s in
      let total =
        (if e.degraded && d.is_finite g.last_stamp
          then d.add e.degraded_total (d.sub s.timestamp g.last_stamp)
          else e.degraded_total) in
      if over_budget e s
      then record { decision = fault; gate = set_faulted e; sample = s }
      else record {
        decision = forward;
        gate = record e { degraded_total = total; last_stamp = s.timestamp };
        sample =
            with_quality s
              (record s.quality { degraded = e.degraded; degraded_total_seconds = total });
      }

  unfoldable pub conclude : Scan D → Outcome D
  unfolding finish
  conclude (passed g s) = finish g s
  conclude (stopped g s) = record { decision = fault; gate = g; sample = s }

  abbrev pub add_reason : Imu D → (Reasons → Reasons) → Imu D
  add_reason s f = with_quality s (record s.quality { reasons = f s.quality.reasons })

  -- `sample.timestamp_ < last_stamp_ - 1. || (isfinite(last_stamp_) && dt > .05)`.
  abbrev pub time_jump : Gate D → Imu D → Bool
  time_jump g s =
      d.lt s.timestamp (d.sub g.last_stamp (d.decimal 1 0))
      || (d.is_finite g.last_stamp && d.lt (d.decimal 5 2) (d.sub s.timestamp g.last_stamp))

  unfoldable pub process : Gate D → Imu D → Outcome D
  process g s =
      if g.faulted
      then record { decision = fault; gate = g; sample = s }
      else (if not (d.is_finite s.timestamp)
          then record {
            decision = drop;
            gate = g;
            sample = add_reason s (λ r. record r { non_finite = true });
          }
          else (if time_jump g s
              then record {
                decision = fault;
                gate = set_faulted g;
                sample = add_reason s (λ r. record r { time_fault = true });
              }
              else (if d.le s.timestamp g.last_stamp
                  then record {
                    decision = drop;
                    gate = g;
                    sample = add_reason s (λ r. record r { stale = true });
                  }
                  else conclude (scan axes g (with_quality s fresh_quality)))))
