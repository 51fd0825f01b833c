-- ===== src/Filter/Steps.antt =====
-- `UpdateAndReset`, `ProjectCov`, `Predict` and `ObserveSE3` of algo/eskf.hpp, and what
-- algo/lidar_observation.h computes for them.
use adaptive_lio.Common.{Bool, true, false, not, ◌&&◌, Option, none, some, if◌then◌else◌}
use adaptive_lio.Common.Double.{Double}
use adaptive_lio.Imu.Axes.{Vec3}
use adaptive_lio.Imu.{Imu, all_finite, usable, max}
use adaptive_lio.Linear.{Linear, Se3}
use adaptive_lio.Filter.{Eskf, Step, epsilon, valid_snapshot, export_snapshot}

module _ {D : Type 0} ⦃d : Double D⦄ where
  abbrev pub cwise_sqrt : Vec3 D → Vec3 D
  cwise_sqrt v = record { x = d.sqrt v.x; y = d.sqrt v.y; z = d.sqrt v.z }

module _ {D : Type 0} ⦃d : Double D⦄ (l : Linear D) where
  -- `ValidateObservationCovariance`: its output, or `none` where it returns false.
  unfoldable pub validate_observation_covariance : l.Matrix → Option l.Matrix
  validate_observation_covariance input =
      let tolerance =
        d.mul (d.mul (d.decimal 100 0) epsilon) (max (d.decimal 1 0) (l.norm input)) in
      let symmetric = l.scale (d.decimal 5 1) (l.add input (l.transpose input)) in
      if not (l.all_finite input)
      then none
      else (if d.lt tolerance (l.norm (l.sub input (l.transpose input)))
          then none
          else (if l.llt symmetric then some symmetric else none))

  -- `PoseInnovation`.
  abbrev pub pose_innovation : Se3 l.Matrix l.So3 → Se3 l.Matrix l.So3 → l.Matrix
  pose_innovation prior candidate =
      l.stack (l.sub candidate.translation prior.translation)
        (l.so3_log (l.so3_mul (l.so3_inverse prior.so3) candidate.so3))

  -- The Jacobian of the pose in the error state: I at (0, 0) and (3, 6).
  abbrev pub pose_jacobian : l.Matrix
  pose_jacobian = l.set_block 3 6 (l.set_block 0 0 (l.zero 6 18) (l.identity 3)) (l.identity 3)

  unfoldable pub project_cov : Eskf l → Eskf l
  project_cov f =
      let j =
        l.set_block 6 6 (l.identity 18)
          (l.sub (l.identity 3) (l.scale (d.decimal 5 1) (l.hat (l.block 3 1 6 0 f.dx)))) in
      record f { cov = l.mul (l.mul j f.cov) (l.transpose j) }

  unfoldable pub update_and_reset : Eskf l → Eskf l
  unfolding project_cov
  update_and_reset f =
      let moved = record f {
        p = l.add f.p (l.block 3 1 0 0 f.dx);
        v = l.add f.v (l.block 3 1 3 0 f.dx);
        rotation = l.so3_mul f.rotation (l.so3_exp (l.block 3 1 6 0 f.dx));
        bg = if f.options.update_bias_gyro then l.add f.bg (l.block 3 1 9 0 f.dx) else f.bg;
        ba = if f.options.update_bias_acce then l.add f.ba (l.block 3 1 12 0 f.dx) else f.ba;
        g = l.add f.g (l.block 3 1 15 0 f.dx);
      } in
      record (project_cov moved) { dx = l.zero 18 1 }

  abbrev pub symmetrized : l.Matrix → l.Matrix
  symmetrized m = l.scale (d.decimal 5 1) (l.add m (l.transpose m))

  -- The tests at the head of `Predict`.
  unfoldable pub can_predict : Imu D → Eskf l → Bool
  unfolding usable
  can_predict imu f =
      let dt = d.sub imu.timestamp f.current_time in
      usable imu.quality
      && d.is_finite dt
      && all_finite imu.gyro
      && all_finite imu.acce
      && d.lt (d.decimal 0 0) f.options.imu_dt
      && not (d.le dt (d.decimal 0 0))
      && not (d.lt (d.mul (d.decimal 5 0) f.options.imu_dt) dt)

  -- The transition matrix.
  unfoldable pub transition : Imu D → Eskf l → D → l.Matrix
  transition imu f dt =
      let old_r = l.so3_matrix f.rotation in
      let acce = l.sub (l.of_vec3 imu.acce) f.ba in
      let rate = l.sub (l.of_vec3 imu.gyro) f.bg in
      let half = d.decimal 5 1 in
      let i3 = l.identity 3 in
      let f1 = l.set_block 0 3 (l.identity 18) (l.scale dt i3) in
      let f2 =
        l.set_block 0 6 f1
          (l.scale dt (l.scale dt (l.mul (l.scale (d.neg half) old_r) (l.hat acce)))) in
      let f3 = l.set_block 0 12 f2 (l.scale dt (l.scale dt (l.scale (d.neg half) old_r))) in
      let f4 = l.set_block 0 15 f3 (l.scale dt (l.scale dt (l.scale half i3))) in
      let f5 = l.set_block 3 6 f4 (l.scale dt (l.mul (l.neg old_r) (l.hat acce))) in
      let f6 = l.set_block 3 12 f5 (l.scale dt (l.neg old_r)) in
      let f7 = l.set_block 3 15 f6 (l.scale dt i3) in
      let f8 = l.set_block 6 6 f7 (l.so3_matrix (l.so3_exp (l.scale dt (l.neg rate)))) in
      l.set_block 6 9 f8 (l.scale dt (l.neg i3))

  -- The state that `Predict` computes before it tests that it is finite.
  unfoldable pub predicted : Imu D → Eskf l → Eskf l
  unfolding transition
  predicted imu f =
      let dt = d.sub imu.timestamp f.current_time in
      let acce = l.sub (l.of_vec3 imu.acce) f.ba in
      let a = l.add (l.mul (l.so3_matrix f.rotation) acce) f.g in
      let rate = l.sub (l.of_vec3 imu.gyro) f.bg in
      let step = transition imu f dt in
      let scale3 = λ (v : Vec3 D). l.as_diagonal (l.of_vec3 (cwise_sqrt v)) in
      let noise_scale =
        l.set_block 6 6 (l.set_block 3 3 (l.identity 18) (scale3 imu.quality.accel_noise_scale))
          (scale3 imu.quality.gyro_noise_scale) in
      let noise =
        l.scale (d.div dt f.options.imu_dt) (l.mul (l.mul noise_scale f.noise) noise_scale) in
      record f {
        p =
            l.add (l.add f.p (l.scale dt f.v))
              (l.scale dt (l.scale dt (l.scale (d.decimal 5 1) a)));
        v = l.add f.v (l.scale dt a);
        rotation = l.so3_mul f.rotation (l.so3_exp (l.scale dt rate));
        cov = symmetrized (l.add (l.mul (l.mul step f.cov) (l.transpose step)) noise);
        dx = l.mul step f.dx;
        current_time = imu.timestamp;
      }

  abbrev pub state_finite : Eskf l → Bool
  state_finite f =
      l.all_finite f.p
      && l.all_finite f.v
      && l.all_finite (l.so3_matrix f.rotation)
      && l.all_finite f.cov

  unfoldable pub predict : Imu D → Eskf l → Step l
  unfolding can_predict predicted
  predict imu f =
      let next = predicted imu f in
      if not (can_predict imu f)
      then record { accepted = false; filter = f }
      else (if not (state_finite next)
          then record { accepted = false; filter = f }
          else record { accepted = true; filter = next })

  -- The candidate of `ObserveSE3`, from the validated covariance and the solver.
  unfoldable pub observed : Se3 l.Matrix l.So3 → l.Matrix → (l.Matrix → l.Matrix) → Eskf l → Eskf l
  unfolding update_and_reset
  observed pose validated solve f =
      let h = pose_jacobian in
      let gain = l.transpose (solve (l.transpose (l.mul f.cov (l.transpose h)))) in
      let innovation =
        l.stack (l.sub pose.translation f.p)
          (l.so3_log (l.so3_mul (l.so3_inverse f.rotation) pose.so3)) in
      let a = l.sub (l.identity 18) (l.mul gain h) in
      let candidate = record f {
        dx = l.mul gain innovation;
        cov =
            l.add (l.mul (l.mul a f.cov) (l.transpose a))
              (l.mul (l.mul gain validated) (l.transpose gain));
      } in
      let reset = update_and_reset candidate in record reset { cov = symmetrized reset.cov }

  -- The last test of `ObserveSE3`, and its assignment of the candidate.
  unfoldable pub adopt : Eskf l → Eskf l → Step l
  unfolding valid_snapshot
  adopt candidate f =
      if not (valid_snapshot l (export_snapshot l candidate))
      then record { accepted = false; filter = f }
      else record { accepted = true; filter = candidate }

  unfoldable pub observe_with :
      Se3 l.Matrix l.So3 → l.Matrix → Option (l.Matrix → l.Matrix) → Eskf l → Step l
  unfolding observed adopt
  observe_with pose validated none f = record { accepted = false; filter = f }
  observe_with pose validated (some solve) f = adopt (observed pose validated solve f) f

  unfoldable pub observe_checked : Se3 l.Matrix l.So3 → Option l.Matrix → Eskf l → Step l
  unfolding observe_with
  observe_checked pose none f = record { accepted = false; filter = f }
  observe_checked pose (some v) f =
      let h = pose_jacobian in
      observe_with pose v (l.ldlt (l.add (l.mul (l.mul h f.cov) (l.transpose h)) v)) f

  unfoldable pub observe_se3 : Se3 l.Matrix l.So3 → l.Matrix → Eskf l → Step l
  unfolding validate_observation_covariance observe_checked
  observe_se3 pose covariance f =
      if not (l.se3_finite pose)
      then record { accepted = false; filter = f }
      else observe_checked pose (validate_observation_covariance covariance) f
