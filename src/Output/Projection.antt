-- ===== src/Output/Projection.antt =====
-- `ProjectOdometry` of algo/odom_projection.h.
use adaptive_lio.Common.Double.{Double}
use adaptive_lio.Linear.{Linear, Se3}
use adaptive_lio.Filter.{Snapshot, get_se3}

pub record OdomProjection {D : Type 0} (l : Linear D) : Type 0 where
  pub pose : Se3 l.Matrix l.So3
  pub linear : l.Matrix
  pub angular : l.Matrix
  pub pose_cov : l.Matrix
  pub twist_cov : l.Matrix

module _ {D : Type 0} ⦃d : Double D⦄ (l : Linear D) where
  -- The default of the argument `T_IB`.
  abbrev pub no_lever : Se3 l.Matrix l.So3
  no_lever = record { so3 = l.so3_identity; translation = l.zero 3 1 }

  unfoldable pub project_odometry :
      Snapshot l → l.Matrix → l.Matrix → Se3 l.Matrix l.So3 → OdomProjection l
  project_odometry s omega gyro_variance t_ib =
      let world = l.so3_matrix s.nav.rotation in
      let c = l.transpose (l.so3_matrix t_ib.so3) in
      let lever = t_ib.translation in
      let vi = l.mul (l.transpose world) s.nav.v in
      let j0 = l.zero 6 18 in
      let j1 = l.set_block 0 0 j0 (l.identity 3) in
      let j2 = l.set_block 0 6 j1 (l.mul (l.neg world) (l.hat lever)) in
      let pose_j = l.set_block 3 6 j2 world in
      let k1 = l.set_block 0 3 j0 (l.mul c (l.transpose world)) in
      let k2 = l.set_block 0 6 k1 (l.mul c (l.hat vi)) in
      let k3 = l.set_block 0 9 k2 (l.mul c (l.hat lever)) in
      let twist_j = l.set_block 3 9 k3 (l.neg c) in
      let g = l.stack (l.mul (l.neg c) (l.hat lever)) c in
      record {
        pose = l.se3_mul (get_se3 l s.nav) t_ib;
        linear = l.mul c (l.add vi (l.cross omega lever));
        angular = l.mul c omega;
        pose_cov = l.mul (l.mul pose_j s.covariance) (l.transpose pose_j);
        twist_cov =
            l.add (l.mul (l.mul twist_j s.covariance) (l.transpose twist_j))
              (l.mul (l.mul g (l.as_diagonal gyro_variance)) (l.transpose g));
      }
