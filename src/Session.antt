-- ===== src/Session.antt =====
-- `ProcessMeasurements` and `poseEstimation` of lio/lidarodom.cpp after initialisation: a frame is
-- predicted, deskewed, matched, corrected and committed. The solver and its correspondences are not
-- part of the repository's own code: `Solution` is what `optimize` leaves. The points are those of
-- the main scan, with the auxiliary ones where they are fused. Only the products are left out.
pub mod Maintain
pub mod Commit
pub mod Tests
use adaptive_lio.Common.{
  ℕ, suc, ◌+◌, ◌-◌, ◌%◌, Bool, true, false, not, ◌&&◌, ◌||◌, Option, none, some, List, [], ◌∷◌, map,
  leb, ltb, ◌==◌, length, is_empty, if◌then◌else◌,
}
use adaptive_lio.Common.Double.{Double}
use adaptive_lio.Common.Int.{ℤ, pos}
use adaptive_lio.Imu.Axes.{Vec3}
use adaptive_lio.Imu.{Imu}
use adaptive_lio.Linear.{Linear, Se3}
use adaptive_lio.Filter.{Eskf, export_snapshot, get_nominal_state, get_se3, valid_snapshot}
use adaptive_lio.Filter.Steps.{observe_se3}
use adaptive_lio.Point.{Point}
use adaptive_lio.Replay.{LioStateUpdate, increment}
use adaptive_lio.Voxel.{VoxelHashMap, insert_points, lasermap_fov_segment}
use adaptive_lio.Frame.{Prediction, predict_frame, undistort}
use adaptive_lio.Match.{MatchQuality, MatchLimits, accept_match}

pub record SessionOptions (D : Type 0) : Type 0 where
  pub limits : MatchLimits D
  pub size_voxel_map : D
  pub max_num_points_in_voxel : ℕ
  pub min_distance_points : D
  pub max_distance : D
  pub init_num_frames : ℕ
  pub map_update_translation_trigger : D
  pub map_update_rotation_trigger : D
  pub map_update_max_skip_frames : ℕ
  pub fov_segment_stride : ℕ

-- What `optimize` leaves: whether it succeeded, its pose and quality, and the covariance of it.
pub record Solution {D : Type 0} (l : Linear D) : Type 0 where
  pub optimized : Bool
  pub candidate : Se3 l.Matrix l.So3
  pub quality : MatchQuality D
  pub covariance : l.Matrix

-- The pose and the frame of the last maintenance of the map.
pub record Maintenance {D : Type 0} (l : Linear D) : Type 0 where
  pub pose : Se3 l.Matrix l.So3
  pub frame : ℕ

-- The members that a frame changes; `submitted` is what `state_callback_` was given, newest first.
pub record Session {D : Type 0} (l : Linear D) : Type 0 where
  pub filter : Eskf l
  pub last_imu : Option (Imu D)
  pub voxel_map : VoxelHashMap D
  pub last_maintenance : Option (Maintenance l)
  pub sequence : ℕ
  pub last_accepted : D
  pub gyro_variance : Vec3 D
  pub index_frame : ℕ
  pub prediction_fault : Bool
  pub stopping : Bool
  pub fault_calls : ℕ
  pub submitted : List (LioStateUpdate l)

-- Whether the frame was accepted, and the filter after the correction.
pub record Correction {D : Type 0} (l : Linear D) : Type 0 where
  pub accepted : Bool
  pub filter : Eskf l

module _ {D : Type 0} ⦃d : Double D⦄ (l : Linear D) where
  abbrev pub fail : Session l → Session l
  fail s = record s { stopping = true; fault_calls = suc s.fault_calls }

  -- The first frame seeds the map; a later one is matched, and the filter is corrected by it.
  unfoldable pub correct : SessionOptions D → Solution l → ℕ → Session l → Correction l
  correct o solution count s =
      let prior = export_snapshot l s.filter in
      let verdict =
        accept_match l solution.quality o.limits prior solution.candidate solution.covariance in
      let r = observe_se3 l solution.candidate solution.covariance s.filter in
      if is_empty s.voxel_map
      then record {
        accepted = valid_snapshot l prior && leb o.limits.minimum_support count;
        filter = s.filter;
      }
      else (if not solution.optimized
          then record { accepted = false; filter = s.filter }
          else (if not verdict.accepted
              then record { accepted = false; filter = s.filter }
              else record { accepted = r.accepted; filter = r.filter }))

  -- `RegisterCommittedPoints`: the points in the world, by the posterior pose.
  abbrev pub registered : Se3 l.Matrix l.So3 → List (Point D) → List (Vec3 D)
  registered pose ps = map (λ p. l.to_vec3 (l.se3_apply pose (l.of_vec3 p.end_point))) ps

  abbrev pub moved_enough : SessionOptions D → Se3 l.Matrix l.So3 → Maintenance l → Bool
  moved_enough o pose last =
      d.le o.map_update_translation_trigger (l.norm (l.sub pose.translation last.pose.translation))
      || d.le o.map_update_rotation_trigger
          (l.norm (l.so3_log (l.so3_mul (l.so3_inverse last.pose.so3) pose.so3)))

  -- Whether `poseEstimation` inserts the frame into the map.
  unfoldable pub should_update_map :
      SessionOptions D → Se3 l.Matrix l.So3 → ℕ → Option (Maintenance l) → Bool
  should_update_map o pose index none = true
  should_update_map o pose index (some last) =
      if ltb o.init_num_frames index
      then moved_enough o pose last
        || (ltb 0 o.map_update_max_skip_frames
            && leb o.map_update_max_skip_frames (index - last.frame))
      else true

  abbrev pub stride_hit : SessionOptions D → ℕ → Bool
  stride_hit o index =
      leb o.fov_segment_stride 1
      || (index % o.fov_segment_stride == 0)
      || leb index o.init_num_frames

  module _ (to_short : D → ℕ) where
    -- `poseEstimation` as far as it concerns the map.
    unfoldable pub maintain : SessionOptions D → List (Vec3 D) → Session l → Session l
    unfolding should_update_map
    maintain o points s =
        let pose = get_se3 l (get_nominal_state l s.filter) in
        let longer =
          insert_points to_short points o.size_voxel_map o.max_num_points_in_voxel
            o.min_distance_points (pos 0) s.voxel_map in
        let location = l.to_vec3 pose.translation in
        if should_update_map o pose s.index_frame s.last_maintenance
        then record s {
          voxel_map =
              if stride_hit o s.index_frame
              then lasermap_fov_segment o.max_distance location longer
              else longer;
          last_maintenance = some (record { pose = pose; frame = s.index_frame });
        }
        else s

    -- The posterior is handed on, whether the frame was accepted or not: the node sets
    -- `state_callback_` before it starts.
    abbrev pub submit_state : Bool → D → Session l → Session l
    submit_state accepted stamp s =
        let accepted_stamp = if accepted then stamp else s.last_accepted in
        record s {
          last_accepted = accepted_stamp;
          sequence = increment s.sequence;
          submitted =
              record {
                state = export_snapshot l s.filter;
                sequence = increment s.sequence;
                last_accepted_lidar_stamp = accepted_stamp;
                gyro_measurement_variance = s.gyro_variance;
              }
              ∷ s.submitted;
        }

    abbrev pub next_frame : Session l → Session l
    next_frame s = record s { index_frame = suc s.index_frame }

    -- The end of a frame, from the correction on.
    unfoldable pub commit :
        SessionOptions D → D → List (Point D) → Correction l → Session l → Session l
    unfolding maintain
    commit o stamp points c s =
        let corrected = record s { filter = c.filter } in
        let told = submit_state c.accepted stamp corrected in
        let pose = get_se3 l (get_nominal_state l c.filter) in
        if not (valid_snapshot l (export_snapshot l c.filter))
        then fail corrected
        else next_frame (if c.accepted then maintain o (registered pose points) told else told)

    -- The prediction's filter and left sample are kept also where it is refused.
    abbrev pub predicted_session : Prediction l → Session l → Session l
    predicted_session r s = record s { filter = r.filter; last_imu = some r.last_imu }

    abbrev pub refuse : Session l → Session l
    refuse s = fail (record s { prediction_fault = true })

    unfoldable pub after_prediction :
        SessionOptions D
        → D
        → Se3 l.Matrix l.So3
        → List (Point D)
        → Solution l
        → Option (Prediction l)
        → Session l
        → Session l
    unfolding correct commit
    after_prediction o stamp t_il points solution none s = refuse s
    after_prediction o stamp t_il points solution (some r) s =
        let p = predicted_session r s in
        let pose = get_se3 l (get_nominal_state l r.filter) in
        let surf = undistort l r.states t_il pose points in
        if not r.accepted
        then refuse p
        else commit o stamp surf (correct o solution (length surf) p) p

    -- `ProcessMeasurements` for a frame that ends at `stamp`.
    unfoldable pub process_measurements :
        SessionOptions D
        → D
        → Se3 l.Matrix l.So3
        → List (Point D)
        → List (Imu D)
        → Solution l
        → Session l
        → Session l
    unfolding after_prediction
    process_measurements o stamp t_il points samples solution s =
        after_prediction o stamp t_il points solution
          (predict_frame l s.prediction_fault stamp samples s.last_imu s.filter) s
