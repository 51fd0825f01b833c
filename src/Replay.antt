-- ===== src/Replay.antt =====
-- algo/imu_odom_predictor.h: `PropagateInterval` and `ImuOdomPredictor`, the outer filter that
-- replays IMU samples behind a posterior. Methods that change the predictor return it.
pub mod Advance
pub mod History
pub mod Steps
pub mod Calls
pub mod Catch
pub mod Timed
pub mod Tests
use adaptive_lio.Common.{
  ℕ, ◌+◌, ◌^◌, ◌%◌, Bool, true, false, not, ◌&&◌, ◌||◌, Option, none, some, List, [], ◌∷◌, ◌++◌,
  leb, ltb, ◌==◌, length, is_empty, back, front, if◌then◌else◌,
}
use adaptive_lio.Common.Double.{Double}
use adaptive_lio.Imu.Axes.{Vec3}
use adaptive_lio.Imu.{Imu, all_finite, usable, merge, constant, fresh_quality}
use adaptive_lio.Linear.{Linear}
use adaptive_lio.Filter.{Eskf, Snapshot, Step, valid_snapshot}
use adaptive_lio.Filter.Steps.{predict}

pub record LioStateUpdate {D : Type 0} (l : Linear D) : Type 0 where
  pub state : Snapshot l
  pub sequence : ℕ
  pub last_accepted_lidar_stamp : D
  pub gyro_measurement_variance : Vec3 D

pub record Counters : Type 0 where
  pub invalid_imu : ℕ
  pub stale_imu : ℕ
  pub invalid_state : ℕ
  pub stale_state : ℕ
  pub history_miss : ℕ
  pub gap : ℕ
  pub applied : ℕ
  pub timeout : ℕ

pub record Predictor {D : Type 0} (l : Linear D) : Type 0 where
  pub counters : Counters
  pub filter : Eskf l
  pub history : List (Imu D)
  pub pending : Option (LioStateUpdate l)
  pub sequence : ℕ
  pub anchor_time : D
  pub last_accepted : D
  pub history_seconds : D
  pub prediction_limit : D
  pub gyro_variance : Vec3 D
  pub initialized : Bool
  pub faulted : Bool

-- The answer of a method that returns `bool`, and the predictor after it.
pub record Answer {D : Type 0} (l : Linear D) : Type 0 where
  pub accepted : Bool
  pub predictor : Predictor l

-- `++` on a `uint64_t`.
abbrev pub increment : ℕ → ℕ
increment n = (n + 1) % 2 ^ 64

module _ {D : Type 0} ⦃d : Double D⦄ where
  -- `std::clamp`.
  abbrev pub clamp : D → D → D → D
  clamp v low high = if d.lt v low then low else (if d.lt high v then high else v)

  -- `(1-alpha)*a+alpha*b`.
  abbrev pub interpolate : D → Vec3 D → Vec3 D → Vec3 D
  interpolate alpha a b =
      let mix = λ (x : D) (y : D). d.add (d.mul (d.sub (d.decimal 1 0) alpha) x) (d.mul alpha y) in
      record { x = mix a.x b.x; y = mix a.y b.y; z = mix a.z b.z }

  abbrev pub finite_sample : Imu D → Bool
  finite_sample s = all_finite s.gyro && all_finite s.acce

  -- The sample at time `to` between two raw samples, with the merged quality.
  unfoldable pub endpoint : Imu D → Imu D → D → Imu D
  unfolding merge
  endpoint left right to =
      let alpha =
        clamp (d.div (d.sub to left.timestamp) (d.sub right.timestamp left.timestamp))
          (d.decimal 0 0) (d.decimal 1 0) in
      record {
        quality = merge left.quality right.quality;
        timestamp = to;
        gyro = interpolate alpha left.gyro right.gyro;
        acce = interpolate alpha left.acce right.acce;
      }

  -- The tests of `PropagateInterval` for a filter at time `from`, true where it refuses.
  unfoldable pub refuses_interval : D → Imu D → Imu D → D → Bool
  unfolding usable
  refuses_interval from left right to =
      not (d.is_finite to)
      || d.le right.timestamp left.timestamp
      || d.lt from (d.sub left.timestamp (d.decimal 1 9))
      || d.lt (d.add right.timestamp (d.decimal 1 9)) to
      || d.le to from
      || d.lt (d.add (d.decimal 5 2) (d.decimal 1 12)) (d.sub right.timestamp left.timestamp)
      || not (usable left.quality)
      || not (usable right.quality)
      || not (finite_sample left)
      || not (finite_sample right)

  -- The loop that drops the oldest samples, but not the last one before the cutoff.
  unfoldable pub trim : D → List (Imu D) → List (Imu D)
  trim cutoff (a ∷ b ∷ c ∷ rest) =
      let shorter = trim cutoff (b ∷ c ∷ rest) in
      if d.lt b.timestamp cutoff || leb 20001 (length (a ∷ b ∷ c ∷ rest))
      then shorter
      else a ∷ b ∷ c ∷ rest
  trim cutoff h = h

  abbrev pub bad_variance : Vec3 D → Bool
  bad_variance v =
      let zero = d.decimal 0 0 in
      not (all_finite v) || d.lt v.x zero || d.lt v.y zero || d.lt v.z zero

  abbrev pub not_newer : List (Imu D) → D → Bool
  not_newer h t = elim (back h) [ none ↦ false | some last ↦ d.le t last.timestamp ]

module _ {D : Type 0} ⦃d : Double D⦄ (l : Linear D) where
  unfoldable pub propagate_interval : Eskf l → Imu D → Imu D → D → Step l
  unfolding endpoint refuses_interval
  propagate_interval f left right to =
      if refuses_interval f.current_time left right to
      then record { accepted = false; filter = f }
      else predict l (endpoint left right to) f

  -- The constructor, with the initial values of the members, around a default filter.
  abbrev pub make_predictor : Eskf l → D → D → Predictor l
  make_predictor f history_seconds prediction_limit = record {
    counters = record {
      invalid_imu = 0;
      stale_imu = 0;
      invalid_state = 0;
      stale_state = 0;
      history_miss = 0;
      gap = 0;
      applied = 0;
      timeout = 0;
    };
    filter = f;
    history = [];
    pending = none;
    sequence = 0;
    anchor_time = d.decimal 0 0;
    last_accepted = d.decimal 0 0;
    history_seconds = history_seconds;
    prediction_limit = prediction_limit;
    gyro_variance = constant (d.decimal 1 5);
    initialized = false;
    faulted = false;
  }

  unfoldable pub fail : Predictor l → Predictor l
  fail p = record p { faulted = true; initialized = false; pending = none }

  unfoldable pub append : Imu D → Predictor l → Answer l
  unfolding trim
  append imu p =
      if not (usable imu.quality) || not (d.is_finite imu.timestamp) || not (finite_sample imu)
      then record {
        accepted = false;
        predictor = record p {
          counters = record p.counters { invalid_imu = increment p.counters.invalid_imu };
        };
      }
      else (if not_newer p.history imu.timestamp
          then record {
            accepted = false;
            predictor = record p {
              counters = record p.counters { stale_imu = increment p.counters.stale_imu };
            };
          }
          else record {
            accepted = true;
            predictor = record p {
              history = trim (d.sub imu.timestamp p.history_seconds) (p.history ++ (imu ∷ []));
            };
          })

  unfoldable pub invalid_update : LioStateUpdate l → Bool
  invalid_update u =
      u.sequence == 0
      || not (valid_snapshot l u.state)
      || not (d.is_finite u.last_accepted_lidar_stamp)
      || d.lt (d.add u.state.nav.timestamp (d.decimal 1 9)) u.last_accepted_lidar_stamp
      || bad_variance u.gyro_measurement_variance

  -- Whether the update is older than the one that waits.
  abbrev pub behind_pending : Option (LioStateUpdate l) → LioStateUpdate l → Bool
  behind_pending none u = false
  behind_pending (some q) u =
      leb u.sequence q.sequence || d.lt u.state.nav.timestamp q.state.nav.timestamp

  unfoldable pub stale_update : LioStateUpdate l → Predictor l → Bool
  stale_update u p =
      leb u.sequence p.sequence
      || behind_pending p.pending u
      || not (p.sequence == 0) && d.le u.state.nav.timestamp p.anchor_time
      || not (p.sequence == 0) && d.lt u.last_accepted_lidar_stamp p.last_accepted

  unfoldable pub submit : LioStateUpdate l → Predictor l → Answer l
  unfolding invalid_update stale_update
  submit u p =
      if invalid_update u
      then record {
        accepted = false;
        predictor = record p {
          counters = record p.counters { invalid_state = increment p.counters.invalid_state };
        };
      }
      else (if stale_update u p
          then record {
            accepted = false;
            predictor = record p {
              counters = record p.counters { stale_state = increment p.counters.stale_state };
            };
          }
          else record { accepted = true; predictor = record p { pending = some u } })

  unfoldable pub publishable : Predictor l → Answer l
  publishable p =
      if p.faulted || not p.initialized || is_empty p.history
      then record { accepted = false; predictor = p }
      else (if d.lt p.prediction_limit (d.sub p.filter.current_time p.last_accepted)
          then record {
            accepted = false;
            predictor = record p {
              counters = record p.counters { timeout = increment p.counters.timeout };
            };
          }
          else record { accepted = true; predictor = p })
