-- ===== src/Init/Measured.antt =====
-- What `TryInit` of algo/static_imu_init.cc measures, by sums over the samples axis by axis.
use adaptive_lio.Common.{ℕ, ◌-◌, ◌≤◌, ◌≡◌, refl, ap, false, List, [], ◌∷◌, length, All, drop}
use adaptive_lio.Common.Double.{Double}
use adaptive_lio.Imu.Axes.{Vec3}
use adaptive_lio.Imu.{Imu, any, constant}
use adaptive_lio.Init.{
  StaticImuInit, accumulate, compute_mean, compute_cov_diag, zip_with, each_axis, squared,
}

module _ {D : Type 0} ⦃d : Double D⦄ where
  -- A sample that the gate did not alter.
  pub record IsGenuine (x : Imu D) : Type 0 where
    pub not_degraded : x.quality.degraded ≡ false
    pub none_held : any x.quality.held_mask ≡ false

  -- The sum of a number of each sample, from `sum` on.
  abbrev pub total : (Imu D → D) → List (Imu D) → D → D
  total f [] sum = sum
  total f (x ∷ xs) sum = total f xs (d.add sum (f x))

  abbrev pub mean : (Imu D → D) → List (Imu D) → D
  mean f xs = d.div (total f xs (d.decimal 0 0)) (d.decimal (length xs) 0)

  abbrev pub spread : (Imu D → D) → D → List (Imu D) → D
  spread f m xs =
      d.div (total (λ x. d.mul (d.sub (f x) m) (d.sub (f x) m)) xs (d.decimal 0 0))
        (d.decimal (length xs - 1) 0)

  abbrev pub means : (Imu D → Vec3 D) → List (Imu D) → Vec3 D
  means f xs = record {
    x = mean (λ s. (f s).x) xs;
    y = mean (λ s. (f s).y) xs;
    z = mean (λ s. (f s).z) xs;
  }

  abbrev pub spreads : (Imu D → Vec3 D) → Vec3 D → List (Imu D) → Vec3 D
  spreads f m xs = record {
    x = spread (λ s. (f s).x) m.x xs;
    y = spread (λ s. (f s).y) m.y xs;
    z = spread (λ s. (f s).z) m.z xs;
  }

  abbrev pub length3 : Vec3 D → D
  length3 v = d.sqrt (d.add (d.add (d.mul v.x v.x) (d.mul v.y v.y)) (d.mul v.z v.z))

  -- Against the mean acceleration, with the given length.
  abbrev pub opposite : D → Vec3 D → Vec3 D
  opposite size m = record {
    x = d.mul (d.div (d.neg m.x) (length3 m)) size;
    y = d.mul (d.div (d.neg m.y) (length3 m)) size;
    z = d.mul (d.div (d.neg m.z) (length3 m)) size;
  }

  abbrev pub plus : Vec3 D → Imu D → Vec3 D
  plus g s = record { x = d.add s.acce.x g.x; y = d.add s.acce.y g.y; z = d.add s.acce.z g.z }

  -- The results come from the samples `used`, the last of which are in the queue.
  pub record IsMeasured (s : StaticImuInit D) : Type 0 where
    pub used : List (Imu D)
    pub dropped : ℕ
    pub enough : 10 ≤ length used
    pub genuine : All IsGenuine used
    pub newest : s.init_imu_deque ≡ drop dropped used
    pub bg : s.init_bg ≡ means (λ x. x.gyro) used
    pub gravity : s.gravity ≡ opposite s.options.gravity_norm (means (λ x. x.acce) used)
    pub ba : s.init_ba ≡ means (plus s.gravity) used
    pub cov_gyro : s.cov_gyro ≡ spreads (λ x. x.gyro) (means (λ x. x.gyro) used) used
    pub cov_acce : s.cov_acce ≡ spreads (plus s.gravity) (means (plus s.gravity) used) used
    pub quiet_gyro : d.lt s.options.max_static_gyro_var (length3 s.cov_gyro) ≡ false
    pub quiet_acce : d.lt s.options.max_static_acce_var (length3 s.cov_acce) ≡ false

  accumulate-totals :
      (getter : Imu D → Vec3 D) (xs : List (Imu D)) (sum : Vec3 D)
      → accumulate getter xs sum ≡ record {
        x = total (λ s. (getter s).x) xs sum.x;
        y = total (λ s. (getter s).y) xs sum.y;
        z = total (λ s. (getter s).z) xs sum.z;
      }
  unfolding accumulate
  accumulate-totals getter [] sum = refl
  accumulate-totals getter (x ∷ xs) sum =
      accumulate-totals getter xs (zip_with d.add sum (getter x))

  pub compute_mean-means :
      (xs : List (Imu D)) (getter : Imu D → Vec3 D) → compute_mean xs getter ≡ means getter xs
  unfolding compute_mean
  compute_mean-means xs getter =
      ap (each_axis (λ x. d.div x (d.decimal (length xs) 0)))
        (accumulate-totals getter xs (constant (d.decimal 0 0)))

  pub compute_cov_diag-spreads :
      (xs : List (Imu D)) (m : Vec3 D) (getter : Imu D → Vec3 D)
      → compute_cov_diag xs m getter ≡ spreads getter m xs
  unfolding compute_cov_diag
  compute_cov_diag-spreads xs m getter =
      ap (each_axis (λ x. d.div x (d.decimal (length xs - 1) 0)))
        (accumulate-totals (λ s. squared m (getter s)) xs (constant (d.decimal 0 0)))
