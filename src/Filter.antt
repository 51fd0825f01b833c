-- ===== src/Filter.antt =====
-- `ESKF<double>` of algo/eskf.hpp, `NavState` of tools/nav_state.h and the functions of
-- algo/lidar_observation.h. Methods that change the filter return it.
pub mod Calls
pub mod Steps
pub mod Tests
use adaptive_lio.Common.{Bool, true, false, not, ◌&&◌, ◌||◌, Option, none, some, if◌then◌else◌}
use adaptive_lio.Common.Double.{Double}
use adaptive_lio.Imu.Axes.{Vec3}
use adaptive_lio.Imu.{Imu, all_finite, usable, max}
use adaptive_lio.Linear.{Linear, Se3}

pub record NavState {D : Type 0} (l : Linear D) : Type 0 where
  pub timestamp : D
  pub rotation : l.So3
  pub p : l.Matrix
  pub v : l.Matrix
  pub bg : l.Matrix
  pub ba : l.Matrix

pub record EskfOptions (D : Type 0) : Type 0 where
  pub imu_dt : D
  pub gyro_var : D
  pub acce_var : D
  pub bias_gyro_var : D
  pub bias_acce_var : D
  pub update_bias_gyro : Bool
  pub update_bias_acce : Bool

pub record Snapshot {D : Type 0} (l : Linear D) : Type 0 where
  pub nav : NavState l
  pub gravity : l.Matrix
  pub covariance : l.Matrix
  pub options : EskfOptions D
  pub process_noise : l.Matrix

pub record Eskf {D : Type 0} (l : Linear D) : Type 0 where
  pub current_time : D
  pub p : l.Matrix
  pub v : l.Matrix
  pub rotation : l.So3
  pub bg : l.Matrix
  pub ba : l.Matrix
  pub g : l.Matrix
  pub dx : l.Matrix
  pub cov : l.Matrix
  pub noise : l.Matrix
  pub options : EskfOptions D

-- The answer of a method that returns `bool`, and the filter after it.
pub record Step {D : Type 0} (l : Linear D) : Type 0 where
  pub accepted : Bool
  pub filter : Eskf l

module _ {D : Type 0} ⦃d : Double D⦄ where
  -- `std::numeric_limits<double>::epsilon()`, which is 2^-52.
  abbrev pub epsilon : D
  epsilon = d.decimal 2220446049250313080847263336181640625 52

  abbrev pub variance_valid : D → Bool
  variance_valid v = d.is_finite v && not (d.lt v (d.decimal 0 0))

  abbrev pub options_valid : EskfOptions D → Bool
  options_valid o =
      d.is_finite o.imu_dt
      && not (d.le o.imu_dt (d.decimal 0 0))
      && variance_valid o.gyro_var
      && variance_valid o.acce_var
      && variance_valid o.bias_gyro_var
      && variance_valid o.bias_acce_var

module _ {D : Type 0} ⦃d : Double D⦄ (l : Linear D) where
  abbrev pub get_se3 : NavState l → Se3 l.Matrix l.So3
  get_se3 n = record { so3 = n.rotation; translation = n.p }

  abbrev pub get_nominal_state : Eskf l → NavState l
  get_nominal_state f = record {
    timestamp = f.current_time;
    rotation = f.rotation;
    p = f.p;
    v = f.v;
    bg = f.bg;
    ba = f.ba;
  }

  abbrev pub export_snapshot : Eskf l → Snapshot l
  export_snapshot f = record {
    nav = get_nominal_state f;
    gravity = f.g;
    covariance = f.cov;
    options = f.options;
    process_noise = f.noise;
  }

  -- The first test of `ValidSnapshot`.
  unfoldable pub snapshot_finite : Snapshot l → Bool
  snapshot_finite s =
      d.is_finite s.nav.timestamp
      && l.all_finite s.nav.p
      && l.all_finite s.nav.v
      && l.all_finite s.nav.bg
      && l.all_finite s.nav.ba
      && l.all_finite s.gravity
      && l.all_finite (l.so3_matrix s.nav.rotation)
      && l.all_finite s.covariance
      && l.all_finite s.process_noise
      && options_valid s.options

  unfoldable pub is_rotation : l.Matrix → Bool
  is_rotation r =
      not (d.lt (d.decimal 1 5) (l.norm (l.sub (l.mul (l.transpose r) r) (l.identity 3))))
      && not (d.lt (d.decimal 1 5) (d.abs (d.sub (l.determinant r) (d.decimal 1 0))))

  -- The body of the loop over the covariance and the process noise.
  unfoldable pub is_semidefinite : l.Matrix → Bool
  is_semidefinite m =
      let tol = d.mul (d.mul (d.decimal 100 0) epsilon) (max (d.decimal 1 0) (l.norm m)) in
      not (d.lt tol (l.norm (l.sub m (l.transpose m))))
      && elim (l.min_eigenvalue (l.scale (d.decimal 5 1) (l.add m (l.transpose m)))) [
        | none ↦ false
        | some e ↦ not (d.lt e (d.neg tol))
      ]

  unfoldable pub valid_snapshot : Snapshot l → Bool
  unfolding snapshot_finite is_rotation is_semidefinite
  valid_snapshot s =
      snapshot_finite s
      && is_rotation (l.so3_matrix s.nav.rotation)
      && is_semidefinite s.covariance
      && is_semidefinite s.process_noise

  unfoldable pub restore_snapshot : Snapshot l → Eskf l → Step l
  unfolding valid_snapshot
  restore_snapshot s f =
      if not (valid_snapshot s) then record { accepted = false; filter = f } else record {
        accepted = true;
        filter = record {
          current_time = s.nav.timestamp;
          p = s.nav.p;
          v = s.nav.v;
          rotation = s.nav.rotation;
          bg = s.nav.bg;
          ba = s.nav.ba;
          g = s.gravity;
          dx = l.zero 18 1;
          cov = s.covariance;
          noise = s.process_noise;
          options = s.options;
        };
      }

  abbrev pub vec3 : D → D → D → l.Matrix
  vec3 x y z = l.of_vec3 (record { x = x; y = y; z = z })

  -- `BuildNoise`: the diagonal of the process noise.
  unfoldable pub build_noise : EskfOptions D → l.Matrix → l.Matrix
  build_noise o noise =
      let zero3 = l.zero 3 1 in
      let same3 = λ (x : D). vec3 x x x in
      l.set_diagonal noise (
        l.stack zero3 (
          l.stack (same3 o.acce_var) (
            l.stack (same3 o.gyro_var)
              (l.stack (same3 o.bias_gyro_var) (l.stack (same3 o.bias_acce_var) zero3)))))

  -- The constructor, with the initial values of the members.
  unfoldable pub make_eskf : EskfOptions D → Eskf l
  unfolding build_noise
  make_eskf o = record {
    current_time = d.decimal 0 0;
    p = l.zero 3 1;
    v = l.zero 3 1;
    rotation = l.so3_identity;
    bg = l.zero 3 1;
    ba = l.zero 3 1;
    g = vec3 (d.decimal 0 0) (d.decimal 0 0) (d.neg (d.decimal 98 1));
    dx = l.zero 18 1;
    cov = l.identity 18;
    noise = build_noise o (l.zero 18 18);
    options = o;
  }

  unfoldable pub set_initial_conditions :
      EskfOptions D → l.Matrix → l.Matrix → l.Matrix → Eskf l → Eskf l
  unfolding build_noise
  set_initial_conditions o init_bg init_ba gravity f = record f {
    noise = build_noise o f.noise;
    options = o;
    bg = init_bg;
    ba = init_ba;
    g = gravity;
    cov = l.scale (d.decimal 1 4) (l.identity 18);
  }

  unfoldable pub set_initial_time : D → Eskf l → Eskf l
  set_initial_time t f = record f { current_time = t }
