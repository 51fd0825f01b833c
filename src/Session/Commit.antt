-- ===== src/Session/Commit.antt =====
-- What a frame leaves behind: the map, the filter and the update for the outer chain.
use adaptive_lio.Common.{
  ℕ, ◌≤◌, ◌≡◌, refl, sym, ap, ◌∙◌, true, false, not, ◌⊎◌, inl, inr, Option, none, some, List, ◌∷◌,
  arith, either, is_empty, length,
}
use adaptive_lio.Common.Double.{Double, IsOrdered}
use adaptive_lio.Imu.Axes.{Vec3}
use adaptive_lio.Imu.{Imu}
use adaptive_lio.Linear.{Linear, Se3}
use adaptive_lio.Filter.{export_snapshot, get_nominal_state, get_se3, valid_snapshot}
use adaptive_lio.Filter.Calls.{observe_se3_lem}
use adaptive_lio.Point.{Point}
use adaptive_lio.Replay.{LioStateUpdate, increment}
use adaptive_lio.Frame.{Prediction, predict_frame, undistort}
use adaptive_lio.Match.{accept_match}
use adaptive_lio.Session.Maintain.{MapOk, maintain-IsMaintained}
use adaptive_lio.Session.{
  Session, SessionOptions, Solution, Correction, correct, registered, maintain, submit_state,
  commit, next_frame, predicted_session, after_prediction, process_measurements,
}

module _ {D : Type 0} ⦃d : Double D⦄ (l : Linear D) where
  -- A correction that does not accept the frame leaves the filter as it was.
  correct-kept :
      (o : SessionOptions D) (solution : Solution l) (count : ℕ) (s : Session l)
      → (correct l o solution count s).accepted ≡ false
      → (correct l o solution count s).filter ≡ s.filter
  unfolding correct
  correct-kept o solution count s =
      let Kept = λ (c : Correction l). c.accepted ≡ false → c.filter ≡ s.filter in
      either Kept (is_empty s.voxel_map) _ _ (λ a h. refl)
        (λ a.
          either Kept (not solution.optimized) _ _ (λ b h. refl)
            (λ b.
              either Kept
                (not
                  (accept_match l solution.quality o.limits (export_snapshot l s.filter)
                    solution.candidate solution.covariance).accepted)
                _ _ (λ c h. refl)
                (λ c h. elim (observe_se3_lem l solution.candidate solution.covariance s.filter) [
                  | inl (_, e) ↦ e
                  | inr (answered, _) ↦ ground arith
                ])))

  module _ (to_short : D → ℕ) (o : SessionOptions D) where
    -- What the outer chain is told after a frame that ends at `stamp`: the filter's state, which is
    -- valid, under the next number. Either the frame was accepted, or the map is as it was.
    pub record IsTold (stamp : D) (s n : Session l) : Type 0 where
      pub update : LioStateUpdate l
      pub told : n.submitted ≡ update ∷ s.submitted
      pub valid : valid_snapshot l update.state ≡ true
      pub of_filter : update.state ≡ export_snapshot l n.filter
      pub numbered : update.sequence ≡ increment s.sequence
      pub same_number : n.sequence ≡ update.sequence
      pub same_stamp : update.last_accepted_lidar_stamp ≡ n.last_accepted
      pub accepted_or_kept :
          (n.last_accepted ≡ stamp)
          ⊎ ((n.last_accepted ≡ s.last_accepted) × (n.voxel_map ≡ s.voxel_map))

    -- Nothing is told and the node stops.
    pub record IsStopped (s n : Session l) : Type 0 where
      pub untold : n.submitted ≡ s.submitted
      pub same_sequence : n.sequence ≡ s.sequence
      pub same_map : n.voxel_map ≡ s.voxel_map
      pub stops : n.stopping ≡ true

    pub record IsProcessed (stamp : D) (s n : Session l) : Type 0 where
      pub map_ok : MapOk l to_short o n.voxel_map
      pub outcome : IsTold stamp s n ⊎ IsStopped s n

    abbrev pub corrected : Correction l → Session l → Session l
    corrected c s = record s { filter = c.filter }

    accepted-IsProcessed :
        (laws : IsOrdered D) (stamp : D) (points : List (Vec3 D)) (c : Correction l) (s : Session l)
        → 1 ≤ o.max_num_points_in_voxel
        → MapOk l to_short o s.voxel_map
        → valid_snapshot l (export_snapshot l c.filter) ≡ true
        → c.accepted ≡ true
        → IsProcessed stamp s (
            next_frame l to_short (
              maintain l to_short o points
                (submit_state l to_short c.accepted stamp (corrected c s))))
    accepted-IsProcessed laws stamp points c s room i valid yes_accepted =
        let told = submit_state l to_short c.accepted stamp (corrected c s) in
        let m = maintain-IsMaintained l to_short o laws points told room i in
        let at_stamp : told.last_accepted ≡ stamp = rw yes_accepted refl in
        record {
          map_ok = m.map_ok;
          outcome = inl (record {
            update = record {
              state = export_snapshot l c.filter;
              sequence = increment s.sequence;
              last_accepted_lidar_stamp = told.last_accepted;
              gyro_measurement_variance = s.gyro_variance;
            };
            told = m.submitted_kept;
            valid = valid;
            of_filter = ap (export_snapshot l) (sym m.filter_kept);
            numbered = refl;
            same_number = m.sequence_kept;
            same_stamp = sym m.accepted_kept;
            accepted_or_kept = inl (m.accepted_kept ∙ at_stamp);
          });
        }

    rejected-IsProcessed :
        (stamp : D) (c : Correction l) (s : Session l)
        → MapOk l to_short o s.voxel_map
        → valid_snapshot l (export_snapshot l c.filter) ≡ true
        → c.accepted ≡ false
        → IsProcessed stamp s
            (next_frame l to_short (submit_state l to_short c.accepted stamp (corrected c s)))
    rejected-IsProcessed stamp c s i valid no_accepted =
        let told = submit_state l to_short c.accepted stamp (corrected c s) in
        let as_before : told.last_accepted ≡ s.last_accepted = rw no_accepted refl in
        record {
          map_ok = i;
          outcome = inl (record {
            update = record {
              state = export_snapshot l c.filter;
              sequence = increment s.sequence;
              last_accepted_lidar_stamp = told.last_accepted;
              gyro_measurement_variance = s.gyro_variance;
            };
            told = refl;
            valid = valid;
            of_filter = refl;
            numbered = refl;
            same_number = refl;
            same_stamp = refl;
            accepted_or_kept = inr (as_before, refl);
          });
        }

    commit-IsProcessed :
        (laws : IsOrdered D) (stamp : D) (points : List (Point D)) (c : Correction l)
        (s : Session l)
        → 1 ≤ o.max_num_points_in_voxel
        → MapOk l to_short o s.voxel_map
        → IsProcessed stamp s (commit l to_short o stamp points c s)
    unfolding commit
    commit-IsProcessed laws stamp points c s room i =
        let told = submit_state l to_short c.accepted stamp (corrected c s) in
        let world = registered l (get_se3 l (get_nominal_state l c.filter)) points in
        either (IsProcessed stamp s) (not (valid_snapshot l (export_snapshot l c.filter))) _ _
          (λ e. record {
            map_ok = i;
            outcome =
                inr (record { untold = refl; same_sequence = refl; same_map = refl; stops = refl });
          })
          (λ e.
            either (λ (n : Session l). IsProcessed stamp s (next_frame l to_short n)) c.accepted
              (maintain l to_short o world told) told
              (λ a. accepted-IsProcessed laws stamp world c s room i (ground arith) a)
              (λ a. rejected-IsProcessed stamp c s i (ground arith) a))

    -- The prediction changes only what the outcome does not speak of.
    predicted-IsTold :
        (stamp : D) (r : Prediction l) (s n : Session l)
        → IsTold stamp (predicted_session l to_short r s) n
        → IsTold stamp s n
    predicted-IsTold stamp r s n t = record {
      update = t.update;
      told = t.told;
      valid = t.valid;
      of_filter = t.of_filter;
      numbered = t.numbered;
      same_number = t.same_number;
      same_stamp = t.same_stamp;
      accepted_or_kept = t.accepted_or_kept;
    }

    predicted-IsProcessed :
        (stamp : D) (r : Prediction l) (s n : Session l)
        → IsProcessed stamp (predicted_session l to_short r s) n
        → IsProcessed stamp s n
    predicted-IsProcessed stamp r s n i = record {
      map_ok = i.map_ok;
      outcome = elim i.outcome [
        | inl t ↦ inl (predicted-IsTold stamp r s n t)
        | inr t ↦ inr (record {
          untold = t.untold;
          same_sequence = t.same_sequence;
          same_map = t.same_map;
          stops = t.stops;
        })
      ];
    }

    after_prediction-IsProcessed :
        (laws : IsOrdered D) (stamp : D) (t_il : Se3 l.Matrix l.So3) (points : List (Point D))
        (solution : Solution l) (r : Option (Prediction l)) (s : Session l)
        → 1 ≤ o.max_num_points_in_voxel
        → MapOk l to_short o s.voxel_map
        → IsProcessed stamp s (after_prediction l to_short o stamp t_il points solution r s)
    unfolding after_prediction
    after_prediction-IsProcessed laws stamp t_il points solution none s room i = record {
      map_ok = i;
      outcome = inr (record { untold = refl; same_sequence = refl; same_map = refl; stops = refl });
    }
    after_prediction-IsProcessed laws stamp t_il points solution (some r) s room i =
        let p = predicted_session l to_short r s in
        let surf = undistort l r.states t_il (get_se3 l (get_nominal_state l r.filter)) points in
        either (IsProcessed stamp s) (not r.accepted) _ _
          (λ e. record {
            map_ok = i;
            outcome =
                inr (record { untold = refl; same_sequence = refl; same_map = refl; stops = refl });
          })
          (λ e.
            let c = correct l o solution (length surf) p in
            predicted-IsProcessed stamp r s (commit l to_short o stamp surf c p)
              (commit-IsProcessed laws stamp surf c p room i))

    -- Whatever points, samples and solution a frame comes with, the map stays well formed. Either the
    -- outer chain is told the filter's state, which is valid, under the next number, and the frame's
    -- end is now the stamp of the last accepted frame, or this stamp and the map are as they were;
    -- or nothing is told, the map is as it was and the node stops.
    pub process_measurements-IsProcessed :
        (laws : IsOrdered D) (stamp : D) (t_il : Se3 l.Matrix l.So3) (points : List (Point D))
        (samples : List (Imu D)) (solution : Solution l) (s : Session l)
        → 1 ≤ o.max_num_points_in_voxel
        → MapOk l to_short o s.voxel_map
        → IsProcessed stamp s
            (process_measurements l to_short o stamp t_il points samples solution s)
    unfolding process_measurements
    process_measurements-IsProcessed laws stamp t_il points samples solution s room i =
        after_prediction-IsProcessed laws stamp t_il points solution
          (predict_frame l s.prediction_fault stamp samples s.last_imu s.filter) s room i

    -- A frame that the correction does not accept leaves the filter, the map and the stamp of the
    -- last accepted frame as they were.
    pub commit-correct :
        (stamp : D) (points : List (Point D)) (solution : Solution l) (s : Session l)
        → (correct l o solution (length points) s).accepted ≡ false
        → ((commit l to_short o stamp points (correct l o solution (length points) s) s).filter
            ≡ s.filter)
          × ((commit l to_short o stamp points (correct l o solution (length points) s) s).voxel_map
              ≡ s.voxel_map)
          × ((commit l to_short o stamp points
                (correct l o solution (length points) s)
                s).last_accepted
              ≡ s.last_accepted)
    unfolding commit
    commit-correct stamp points solution s h =
        let c = correct l o solution (length points) s in
        let kept = correct-kept o solution (length points) s h in
        let Same = λ (n : Session l).
          (n.filter ≡ s.filter)
          × (n.voxel_map ≡ s.voxel_map)
          × (n.last_accepted ≡ s.last_accepted) in
        either Same (not (valid_snapshot l (export_snapshot l c.filter))) _ _
          (λ e. (kept, refl, refl))
          (λ e.
            let told = submit_state l to_short c.accepted stamp (corrected c s) in
            let world = registered l (get_se3 l (get_nominal_state l c.filter)) points in
            let as_before : told.last_accepted ≡ s.last_accepted = rw h refl in
            either (λ (n : Session l). Same (next_frame l to_short n)) c.accepted
              (maintain l to_short o world told) told (λ a. ground arith)
              (λ a. (kept, refl, as_before)))
