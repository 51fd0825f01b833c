-- ===== src/Output.antt =====
-- `ImuOdomOutput` of apps/imu_odom_output.h, and `get_ros_time` of apps/main_ada.cpp. What runs under
-- `mutex_` is one step. The rest of a round of the worker holds no mutex and is two steps: up to where
-- it reads the atomic `faulted_`, and from there on, where it publishes. It uses only what it owns
-- apart from that. The frame names, the fixed transform, the clock and the log are left out. The
-- functions of <cmath> and the conversion to an integer are the argument `lib`.
pub mod Projection
pub mod Bounds
pub mod Threads
pub mod Order
pub mod Tests
use adaptive_lio.Common.{
  drop, ℕ, suc, ◌-◌, ◌+◌, ◌^◌, Bool, true, false, not, ◌&&◌, ◌||◌, Option, none, some, List, [],
  ◌∷◌, ◌++◌, leb, ltb, ◌==◌, length, is_empty, back, if◌then◌else◌,
}
use adaptive_lio.Common.Double.{Double}
use adaptive_lio.Imu.Axes.{Vec3}
use adaptive_lio.Common.Int.{ℤ, pos_part}
use adaptive_lio.Imu.{Imu}
use adaptive_lio.Linear.{Linear, Se3}
use adaptive_lio.Filter.{export_snapshot}
use adaptive_lio.Scan.{Numeric}
use adaptive_lio.Replay.{Predictor, LioStateUpdate, append, submit, publishable}
use adaptive_lio.Replay.Advance.{advance}
use Projection.{OdomProjection, no_lever, project_odometry}

-- `rclcpp::Time(sec, nanosec)`.
pub record RosTime : Type 0 where
  pub sec : ℤ
  pub nanosec : ℕ

-- `nav_msgs::Odometry`: its stamp and the projection that it carries, with the time of the state
-- from which the worker makes them.
pub record Odometry {D : Type 0} (l : Linear D) : Type 0 where
  pub time : D
  pub stamp : RosTime
  pub content : OdomProjection l

-- A pose of the path.
pub record PoseStamped {D : Type 0} (l : Linear D) : Type 0 where
  pub stamp : RosTime
  pub pose : Se3 l.Matrix l.So3

-- The members that the mutex guards, with `faulted_` and the number of calls of the callback.
pub record Shared {D : Type 0} (l : Linear D) : Type 0 where
  pub imu_queue : List (Imu D)
  pub pending : Option (LioStateUpdate l)
  pub stopping : Bool
  pub faulted : Bool
  pub fault_calls : ℕ

-- What the worker owns. `published` is what it gave to the publisher, the newest first.
pub record Worker {D : Type 0} (l : Linear D) : Type 0 where
  pub predictor : Predictor l
  pub last_published : D
  pub last_path : D
  pub path : List (PoseStamped l)
  pub max_path : ℕ
  pub published : List (Odometry l)

-- What the worker took in this round.
pub record Batch {D : Type 0} (l : Linear D) : Type 0 where
  pub samples : List (Imu D)
  pub update : Option (LioStateUpdate l)

-- How a round goes on after its last test: whether it calls `Fail()`, and what it publishes.
pub record Round {D : Type 0} (l : Linear D) : Type 0 where
  pub failed : Bool
  pub worker : Worker l
  pub outgoing : Option (Odometry l)

module _ {D : Type 0} ⦃d : Double D⦄ where
  -- A `double` is cut off at the nanosecond.
  abbrev pub get_ros_time : Numeric D → D → RosTime
  get_ros_time lib timestamp = record {
    sec = lib.to_int (lib.floor timestamp);
    nanosec =
        pos_part
          (lib.to_int (d.mul (d.sub timestamp (lib.floor timestamp)) (d.decimal (10 ^ 9) 0)));
  }

module _ {D : Type 0} ⦃d : Double D⦄ (l : Linear D) where
  -- `if(!faulted_.exchange(true) && fault_callback_) fault_callback_()`.
  unfoldable pub fail : Shared l → Shared l
  fail s = record s {
    faulted = true;
    fault_calls = if s.faulted then s.fault_calls else suc s.fault_calls;
  }

  unfoldable pub stop : Shared l → Shared l
  stop s = record s { stopping = true }

  unfoldable pub on_imu : Imu D → Shared l → Shared l
  unfolding fail
  on_imu imu s =
      if s.stopping || s.faulted
      then s
      else (if leb 20000 (length s.imu_queue)
          then fail s
          else record s { imu_queue = s.imu_queue ++ (imu ∷ []) })

  abbrev pub newer : LioStateUpdate l → Option (LioStateUpdate l) → Bool
  newer u none = true
  newer u (some q) = ltb q.sequence u.sequence

  unfoldable pub on_state : LioStateUpdate l → Shared l → Shared l
  on_state u s =
      if s.stopping || s.faulted
      then s
      else (if newer u s.pending then record s { pending = some u } else s)

  -- The start of a round: `none` is the `break`, where the loop ends.
  unfoldable pub take_batch : Shared l → Option (Batch l × Shared l)
  take_batch s =
      if s.stopping || s.faulted
      then none
      else some (
        record { samples = s.imu_queue; update = s.pending },
        record s { imu_queue = []; pending = none },
      )

  unfoldable pub append_all : List (Imu D) → Predictor l → Predictor l
  append_all [] p = p
  append_all (x ∷ xs) p = append_all xs (append l x p).predictor

  unfoldable pub submit_some : Option (LioStateUpdate l) → Predictor l → Predictor l
  submit_some none p = p
  submit_some (some u) p = (submit l u p).predictor

  -- `AngularVelocity` and `GyroVariance`: the newest sample without the bias, and the variance of
  -- the gyroscope with the noise scale of that sample.
  abbrev pub angular_velocity : Predictor l → l.Matrix
  angular_velocity p = elim (back p.history) [
    | none ↦ l.zero 3 1
    | some x ↦ l.sub (l.of_vec3 x.gyro) p.filter.bg
  ]

  abbrev pub scaled_variance : Vec3 D → Vec3 D → Vec3 D
  scaled_variance v s = record { x = d.mul v.x s.x; y = d.mul v.y s.y; z = d.mul v.z s.z }

  abbrev pub gyro_variance_of : Predictor l → l.Matrix
  gyro_variance_of p = l.of_vec3 (elim (back p.history) [
    | none ↦ p.gyro_variance
    | some x ↦ scaled_variance p.gyro_variance x.quality.gyro_noise_scale
  ])

  abbrev pub odometry : Numeric D → Predictor l → Odometry l
  odometry lib p = record {
    time = p.filter.current_time;
    stamp = get_ros_time lib p.filter.current_time;
    content =
        project_odometry l (export_snapshot l p.filter) (angular_velocity p) (gyro_variance_of p)
          (no_lever l);
  }

  -- `path_.poses` after a push: the last `max_path_` poses.
  abbrev pub push_pose : ℕ → PoseStamped l → List (PoseStamped l) → List (PoseStamped l)
  push_pose max_path pose path =
      let longer = path ++ (pose ∷ []) in
      if ltb max_path (length longer) then drop (length longer - max_path) longer else longer

  unfoldable pub extend_path : ℕ → Odometry l → Worker l → Worker l
  extend_path subscribers o w =
      if not (w.max_path == 0)
        && ltb 0 subscribers
        && d.le (d.decimal 1 1) (d.sub o.time w.last_path)
      then record w {
        path = push_pose w.max_path (record { stamp = o.stamp; pose = o.content.pose }) w.path;
        last_path = o.time;
      }
      else w

  -- From `odom_pub_->publish` on, where `subscribers` is the count of the path's publisher.
  unfoldable pub publish : ℕ → Odometry l → Worker l → Worker l
  unfolding extend_path
  publish subscribers o w =
      extend_path subscribers o (record w { last_published = o.time; published = o ∷ w.published })

  -- `if(stamp<=last_published || faulted_)continue;`
  unfoldable pub passes : Bool → Odometry l → Worker l → Option (Odometry l)
  passes faulted o w = if d.le o.time w.last_published || faulted then none else some o

  abbrev pub with_predictor : Worker l → Predictor l → Worker l
  with_predictor w p = record w { predictor = p }

  unfoldable pub feed : Batch l → Predictor l → Predictor l
  unfolding append_all submit_some
  feed b p = advance l (submit_some b.update (append_all b.samples p))

  -- A round from the unlock on, up to its last `continue`; `faulted` is what the worker reads there.
  unfoldable pub work : Numeric D → Batch l → Bool → Worker l → Round l
  unfolding feed passes
  work lib b faulted w =
      let p = feed b w.predictor in
      let answer = publishable l p in
      let ready = with_predictor w answer.predictor in
      if p.faulted
      then record { failed = true; worker = with_predictor w p; outgoing = none }
      else (if not answer.accepted
          then record { failed = false; worker = ready; outgoing = none }
          else record {
            failed = false;
            worker = ready;
            outgoing = passes faulted (odometry lib answer.predictor) ready;
          })
