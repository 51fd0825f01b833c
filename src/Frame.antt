-- ===== src/Frame.antt =====
-- The frame's prediction and deskewing: `Predict` and `Undistort` of lio/lidarodom.cpp, and
-- `DeskewToEndImu` of algo/point_time.h. The samples are not null, since `pushData` refuses a null
-- pointer.
pub mod Trajectory
pub mod Deskew
pub mod Tests
use adaptive_lio.Common.{
  ℕ, Bool, true, false, not, ◌&&◌, ◌||◌, Option, none, some, List, [], ◌∷◌, ◌++◌, leb, length,
  is_empty, front, back, if◌then◌else◌,
}
use adaptive_lio.Common.Double.{Double}
use adaptive_lio.Imu.Axes.{Vec3}
use adaptive_lio.Imu.{Imu, all_finite}
use adaptive_lio.Linear.{Linear, Se3}
use adaptive_lio.Filter.{Eskf, NavState, get_nominal_state, get_se3}
use adaptive_lio.Point.{Point}
use adaptive_lio.Replay.{propagate_interval}

-- `eskf_`, `last_imu_` and `imu_states_` while a frame is predicted; `accepted` is the result.
pub record Prediction {D : Type 0} (l : Linear D) : Type 0 where
  pub accepted : Bool
  pub filter : Eskf l
  pub last_imu : Imu D
  pub states : List (NavState l)

-- Where a search in the trajectory ends.
pub record Bracket {D : Type 0} (l : Linear D) : Type 0 where
  pub left : Option (NavState l)
  pub right : Option (NavState l)

module _ {D : Type 0} ⦃d : Double D⦄ (l : Linear D) where
  -- `std::min(end, stamp)`.
  abbrev pub until : D → D → D
  until end_time stamp = if d.lt stamp end_time then stamp else end_time

  -- The last test of `Predict`.
  unfoldable pub reaches_end : D → Prediction l → Prediction l
  reaches_end end_time r = record {
    accepted =
        leb 2 (length r.states)
        && d.lt (d.abs (d.sub r.filter.current_time end_time)) (d.decimal 1 9);
    filter = r.filter;
    last_imu = r.last_imu;
    states = r.states;
  }

  abbrev pub next_last : D → Imu D → Imu D → Imu D
  next_last to imu last = if d.eq to imu.timestamp then imu else last

  -- The loop of `Predict`; `break` goes to the last test.
  unfoldable pub predict_loop : D → List (Imu D) → Eskf l → Imu D → List (NavState l) → Prediction l
  unfolding reaches_end
  predict_loop end_time [] f last states =
      reaches_end end_time
        (record { accepted = true; filter = f; last_imu = last; states = states })
  predict_loop end_time (imu ∷ rest) f last states =
      let to = until end_time imu.timestamp in
      let skipped = predict_loop end_time rest f last states in
      let stopped =
        reaches_end end_time
          (record { accepted = true; filter = f; last_imu = last; states = states }) in
      let r = propagate_interval l f last imu to in
      let longer = states ++ (get_nominal_state l r.filter ∷ []) in
      let onward = predict_loop end_time rest r.filter (next_last to imu last) longer in
      let ended = reaches_end end_time (record {
        accepted = true;
        filter = r.filter;
        last_imu = next_last to imu last;
        states = longer;
      }) in
      if d.le imu.timestamp f.current_time
      then skipped
      else (if d.le to f.current_time
          then stopped
          else (if not r.accepted
              then record { accepted = false; filter = r.filter; last_imu = last; states = states }
              else (if d.eq to end_time then ended else onward)))

  -- `Predict`, with `imu_states_` cleared before it; `none` is its refusal at the start.
  unfoldable pub predict_frame :
      Bool → D → List (Imu D) → Option (Imu D) → Eskf l → Option (Prediction l)
  unfolding predict_loop
  predict_frame prediction_fault end_time samples none f = none
  predict_frame prediction_fault end_time samples (some last) f =
      if prediction_fault
      then none
      else some (predict_loop end_time samples f last (get_nominal_state l f ∷ []))

  -- `std::lower_bound`: the first state that is not before `t`, and the one before it. The trajectory
  -- is sorted, so that the first one is what the binary search finds.
  unfoldable pub lower_bound : D → Option (NavState l) → List (NavState l) → Bracket l
  lower_bound t left [] = record { left = left; right = none }
  lower_bound t left (s ∷ ss) =
      let later = lower_bound t (some s) ss in
      if d.lt s.timestamp t then later else record { left = left; right = some s }

  abbrev pub before_front : D → List (NavState l) → Bool
  before_front t ss = elim (front ss) [ none ↦ true | some s ↦ d.lt t s.timestamp ]

  abbrev pub after_back : D → List (NavState l) → Bool
  after_back t ss = elim (back ss) [ none ↦ true | some s ↦ d.lt s.timestamp t ]

  abbrev pub mix : D → l.Matrix → l.Matrix → l.Matrix
  mix a p q = l.add (l.scale (d.sub (d.decimal 1 0) a) p) (l.scale a q)

  -- The pose between two states, by `slerp` and by a straight line.
  abbrev pub pose_between : D → NavState l → NavState l → Se3 l.Matrix l.So3
  pose_between stamp left right =
      let a = d.div (d.sub stamp left.timestamp) (d.sub right.timestamp left.timestamp) in
      record { so3 = l.slerp a left.rotation right.rotation; translation = mix a left.p right.p }

  unfoldable pub interpolated : D → Option (NavState l) → NavState l → Option (Se3 l.Matrix l.So3)
  interpolated stamp none right = none
  interpolated stamp (some left) right =
      if d.lt (d.decimal 0 0) (d.sub right.timestamp left.timestamp)
      then some (pose_between stamp left right)
      else none

  -- The pose at the sample's time, `none` where the function returns false.
  unfoldable pub pose_at :
      D → Option (NavState l) → Option (NavState l) → Option (Se3 l.Matrix l.So3)
  unfolding interpolated
  pose_at stamp left none = none
  pose_at stamp left (some right) =
      if d.eq right.timestamp stamp then some (get_se3 l right) else interpolated stamp left right

  abbrev pub pose_in : D → Bracket l → Option (Se3 l.Matrix l.So3)
  pose_in stamp b = pose_at stamp b.left b.right

  unfoldable pub deskewed :
      l.Matrix
      → Se3 l.Matrix l.So3
      → Se3 l.Matrix l.So3
      → Option (Se3 l.Matrix l.So3)
      → Option l.Matrix
  deskewed raw t_il t_wi_end none = none
  deskewed raw t_il t_wi_end (some pose) =
      let e = l.se3_apply (l.se3_mul (l.se3_mul (l.se3_inverse t_wi_end) pose) t_il) raw in
      if not (l.all_finite e) then none else some e

  -- `DeskewToEndImu`: its result, `none` where it returns false.
  unfoldable pub deskew_to_end_imu :
      Vec3 D → D → List (NavState l) → Se3 l.Matrix l.So3 → Se3 l.Matrix l.So3 → Option l.Matrix
  unfolding lower_bound pose_at deskewed
  deskew_to_end_imu raw stamp trajectory t_il t_wi_end =
      if not (all_finite raw)
        || not (d.is_finite stamp)
        || is_empty trajectory
        || before_front stamp trajectory
        || after_back stamp trajectory
        || not (l.se3_finite t_il)
        || not (l.se3_finite t_wi_end)
      then none
      else deskewed (l.of_vec3 raw) t_il t_wi_end
          (pose_in stamp (lower_bound stamp none trajectory))

  abbrev pub keep_deskewed : Point D → Option l.Matrix → List (Point D) → List (Point D)
  keep_deskewed p none rest = rest
  keep_deskewed p (some e) rest = record p { end_point = l.to_vec3 e } ∷ rest

  -- `Undistort` for the trajectory and the end pose of the frame.
  unfoldable pub undistort :
      List (NavState l) → Se3 l.Matrix l.So3 → Se3 l.Matrix l.So3 → List (Point D) → List (Point D)
  unfolding deskew_to_end_imu
  undistort trajectory t_il t_wi_end [] = []
  undistort trajectory t_il t_wi_end (p ∷ ps) =
      keep_deskewed p (deskew_to_end_imu p.raw_point p.timestamp trajectory t_il t_wi_end)
        (undistort trajectory t_il t_wi_end ps)
