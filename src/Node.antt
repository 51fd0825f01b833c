-- ===== src/Node.antt =====
-- apps/main_ada.cpp: the callbacks of the point clouds, the queues of the two workers with their
-- rounds, the callback of the scan context, and the arguments that are left for gflags. Drawing a
-- random order and taking one point of each voxel are the argument `sample`. The steps of the two
-- queues run under their mutexes.
pub mod Channel
pub mod Workers
pub mod Ending
pub mod Thin
pub mod Feed
pub mod Tests
use adaptive_lio.Common.{
  ℕ, zero, suc, ◌+◌, ◌-◌, ◌/◌, Bool, true, false, not, ◌&&◌, ◌||◌, Option, none, some, List, [],
  ◌∷◌, ◌++◌, map, ltb, leb, ◌==◌, length, is_empty, pop_front, if◌then◌else◌,
}
use adaptive_lio.Common.Double.{Double}
use adaptive_lio.Imu.Axes.{Vec3}
use adaptive_lio.Linear.{Linear, Se3}
use adaptive_lio.Point.{Point}
use adaptive_lio.Convert.{header_time}
use adaptive_lio.Convert.Clouds.{Processed}
use adaptive_lio.Scan.{Numeric, ScParams, Descriptor, make_scan_context, make_ring_key}
use adaptive_lio.Mapping.{Config}

-- The characters of an argument.
abbrev pub Argument : Type 0
Argument = List ℕ

abbrev pub same_text : Argument → Argument → Bool
same_text [] [] = true
same_text [] (y ∷ ys) = false
same_text (x ∷ xs) [] = false
same_text (x ∷ xs) (y ∷ ys) = x == y && same_text xs ys

-- `a.rfind(prefix, 0) == 0`.
abbrev pub starts_with : Argument → Argument → Bool
starts_with [] a = true
starts_with (x ∷ xs) [] = false
starts_with (x ∷ xs) (y ∷ ys) = x == y && starts_with xs ys

-- The texts that the source compares with: "--ros-args", "--ros", "-r", "__" and "--params-file".
pub record Markers : Type 0 where
  pub ros_args : Argument
  pub ros : Argument
  pub remap : Argument
  pub special : Argument
  pub params_file : Argument

-- The loop over `argv[1]` on: a marker is left out, and a file of parameters with its value.
unfoldable pub filter_args : Markers → List Argument → List Argument
filter_args k [] = []
filter_args k (a ∷ []) =
    if same_text a k.ros_args
      || starts_with k.ros a
      || same_text a k.remap
      || starts_with k.special a
      || same_text a k.params_file
    then []
    else a ∷ []
filter_args k (a ∷ b ∷ as') =
    let skip_value = filter_args k as' in
    let rest = filter_args k (b ∷ as') in
    if same_text a k.ros_args
      || starts_with k.ros a
      || same_text a k.remap
      || starts_with k.special a
    then rest
    else (if same_text a k.params_file then skip_value else a ∷ rest)

-- A queue with what the program was asked to queue and what its worker took, oldest first.
-- `at_head` says whether the worker is at the head of its loop.
pub record Queue (A : Type 0) : Type 0 where
  pub waiting : List A
  pub stopping : Bool
  pub at_head : Bool
  pub ended : Bool
  pub offered : List A
  pub taken : List A

pub data Consumer : Type 0 where
  scan_publisher scantext : Consumer

abbrev pub step_of : ℕ → ℕ
step_of size = if ltb 1 (size / 2000) then size / 2000 else 1

module _ {A : Type 0} where
  -- At the limit the publisher drops the oldest scan, and the scan context the new one.
  abbrev pub enqueue : Consumer → A → List A → List A
  enqueue scan_publisher task waiting =
      (if leb 2 (length waiting) then pop_front waiting else waiting) ++ task ∷ []
  enqueue scantext task waiting = if ltb (length waiting) 5 then waiting ++ task ∷ [] else waiting

  unfoldable pub offer : Consumer → A → Queue A → Queue A
  offer w task q = record q { waiting = enqueue w task q.waiting; offered = q.offered ++ task ∷ [] }

  -- `cloud_pub_func`: only scans of the topic "laser" with a subscriber.
  unfoldable pub cloud_pub_func : Bool → ℕ → A → Queue A → Queue A
  unfolding offer
  cloud_pub_func is_laser subscribers task q =
      if not is_laser || subscribers == 0 then q else offer scan_publisher task q

  -- The body of a worker's loop, from the wait on: a worker with nothing to take waits, or ends.
  abbrev pub take_from : List A → Queue A → Queue A
  take_from [] q = if q.stopping then record q { ended = true } else q
  take_from (task ∷ rest) q = record q {
    waiting = rest;
    taken = q.taken ++ task ∷ [];
    at_head = true;
  }

  unfoldable pub take_task : Queue A → Queue A
  take_task q = take_from q.waiting q

  -- A round of a worker up to where it next looks at the queue or at the flag: `while (true)` and
  -- `while (!stop_scantext_thread)`.
  unfoldable pub work_round : Consumer → Queue A → Queue A
  unfolding take_task
  work_round scan_publisher q = if q.ended then q else take_task q
  work_round scantext q =
      if q.ended
      then q
      else (if q.at_head
          then (if q.stopping then record q { ended = true } else record q { at_head = false })
          else take_task q)

  unfoldable pub stop_worker : Queue A → Queue A
  stop_worker q = record q { stopping = true }

  -- `cloud_ds`: each `step`-th point; `left` counts the points to pass over.
  unfoldable pub every_nth : ℕ → ℕ → List A → List A
  every_nth step left [] = []
  every_nth step zero (p ∷ ps) = p ∷ every_nth step (step - 1) ps
  every_nth step (suc left) (p ∷ ps) = every_nth step left ps

  unfoldable pub thin : List A → List A
  unfolding every_nth
  thin points = every_nth (step_of (length points)) 0 points

-- The arguments of a call of `lio->pushData`.
pub record Push (D : Type 0) : Type 0 where
  pub points : List (Point D)
  pub begin_time : D
  pub duration : D
  pub is_aux : Bool

module _ {D : Type 0} ⦃d : Double D⦄ (sample : D → List (Point D) → List (Point D)) where
  -- The loop over the slices, as many as there are clouds and times.
  abbrev pub push_slices : D → D → D → List (List (Point D)) → List D → List (Push D)
  push_slices size stamp t0 [] ts = []
  push_slices size stamp t0 (c ∷ cs) [] = []
  push_slices size stamp t0 (c ∷ cs) (t ∷ ts) =
      record {
        points = sample size c;
        begin_time = d.sub (d.add stamp t) t0;
        duration = t0;
        is_aux = false;
      }
      ∷ push_slices size stamp t0 cs ts

  abbrev pub push_all : D → D → List (List (Point D)) → List D → List (Push D)
  push_all size stamp cs [] = []
  push_all size stamp cs (t ∷ ts) = push_slices size stamp t cs (t ∷ ts)

  unfoldable pub livox_pcl_cbk : ℕ → ℕ → Processed D → List (Push D)
  livox_pcl_cbk sec nanosec r = push_all (d.decimal 1 2) (header_time sec nanosec) r.pcl_out r.v_t

  -- The auxiliary LiDAR has one slice.
  abbrev pub first_slice : D → List (List (Point D)) → List D → List (Push D)
  first_slice stamp [] ts = []
  first_slice stamp (c ∷ cs) [] = []
  first_slice stamp (c ∷ cs) (t ∷ ts) =
      record { points = sample (d.decimal 1 2) c; begin_time = stamp; duration = t; is_aux = true }
      ∷ []

  unfoldable pub aux_livox_pcl_cbk : ℕ → ℕ → Processed D → List (Push D)
  aux_livox_pcl_cbk sec nanosec r = first_slice (header_time sec nanosec) r.pcl_out r.v_t

  -- `index` is `lio->getIndex()`.
  unfoldable pub standard_pcl_cbk : ℕ → ℕ → ℕ → Processed D → List (Push D)
  standard_pcl_cbk index sec nanosec r =
      push_all (if ltb index 30 then d.decimal 2 2 else d.decimal 1 1) (header_time sec nanosec)
        r.pcl_out r.v_t

pub record ScantextTask {D : Type 0} (l : Linear D) : Type 0 where
  pub sc : Descriptor D
  pub rk : List D
  pub cloud_ds : List (Vec3 D)
  pub odom_pose : Se3 l.Matrix l.So3
  pub time : D

-- The last pose and time with a scan context, and the queue.
pub record Extractor {D : Type 0} (l : Linear D) : Type 0 where
  pub last_sc : Option (Se3 l.Matrix l.So3 × D)
  pub queue : Queue (ScantextTask l)

module _ {D : Type 0} ⦃d : Double D⦄ (l : Linear D) (angle : l.So3 → D) where
  -- A threshold of the options, or a default.
  abbrev pub threshold : D → D → D
  threshold value default = if d.lt (d.decimal 1 6) value then value else default

  unfoldable pub do_sc : Config D → Se3 l.Matrix l.So3 → D → Option (Se3 l.Matrix l.So3 × D) → Bool
  do_sc config pose time none = true
  do_sc config pose time (some (last_pose, last_time)) =
      let delta = l.se3_mul (l.se3_inverse last_pose) pose in
      d.le (threshold config.keyframe_dist_thresh (d.decimal 1 0)) (l.norm delta.translation)
      || d.le (threshold config.keyframe_angle_thresh (d.decimal 2 1)) (angle delta.so3)
      || d.le (d.decimal 1 0) (d.sub time last_time)

  -- `points_world` is there.
  unfoldable pub scantext_cbk :
      Numeric D
      → Config D
      → ScParams D
      → List (Vec3 D)
      → Se3 l.Matrix l.So3
      → D
      → Extractor l
      → Extractor l
  unfolding do_sc offer thin make_scan_context make_ring_key
  scantext_cbk lib config params points_world pose time e =
      if not config.enable_mapping || not (do_sc config pose time e.last_sc)
      then e
      else let cloud_local =
          map (λ p. l.to_vec3 (l.se3_apply (l.se3_inverse pose) (l.of_vec3 p))) points_world in
        let sc = make_scan_context lib params cloud_local in
        record {
          last_sc = some (pose, time);
          queue =
              offer scantext
                (record {
                  sc = sc;
                  rk = make_ring_key sc;
                  cloud_ds = thin cloud_local;
                  odom_pose = pose;
                  time = time;
                })
                e.queue;
        }
