-- ===== src/Imu/Axes.antt =====
-- The six axes of an IMU, three of the gyroscope and three of the accelerometer, and arrays over
-- them (`std::array<double, 6>`, the six low bits of a mask, a pair of `Vec3d`).
use adaptive_lio.Common.{ℕ, ◌≡◌, Bool, List, [], ◌∷◌, arith, ◌==◌, if◌then◌else◌}

pub record Vec3 {ℓ} (A : Type ℓ) : Type ℓ where
  pub x : A
  pub y : A
  pub z : A

pub data Axis : Type 0 where
  gyro_x gyro_y gyro_z accel_x accel_y accel_z : Axis

pub record Six {ℓ} (A : Type ℓ) : Type ℓ where
  pub gyro_x : A
  pub gyro_y : A
  pub gyro_z : A
  pub accel_x : A
  pub accel_y : A
  pub accel_z : A

-- `for (int axis = 0; axis < 6; ++axis)`.
abbrev pub axes : List Axis
axes = Axis.gyro_x ∷ Axis.gyro_y ∷ Axis.gyro_z ∷ Axis.accel_x ∷ Axis.accel_y ∷ Axis.accel_z ∷ []

abbrev pub index : Axis → ℕ
index Axis.gyro_x = 0
index Axis.gyro_y = 1
index Axis.gyro_z = 2
index Axis.accel_x = 3
index Axis.accel_y = 4
index Axis.accel_z = 5

abbrev pub same_axis : Axis → Axis → Bool
same_axis a b = index a == index b

module _ {ℓ} {A : Type ℓ} where
  unfoldable pub get : Six A → Axis → A
  get s Axis.gyro_x = s.gyro_x
  get s Axis.gyro_y = s.gyro_y
  get s Axis.gyro_z = s.gyro_z
  get s Axis.accel_x = s.accel_x
  get s Axis.accel_y = s.accel_y
  get s Axis.accel_z = s.accel_z

  unfoldable pub put : Six A → Axis → A → Six A
  put s Axis.gyro_x v = record s { gyro_x = v }
  put s Axis.gyro_y v = record s { gyro_y = v }
  put s Axis.gyro_z v = record s { gyro_z = v }
  put s Axis.accel_x v = record s { accel_x = v }
  put s Axis.accel_y v = record s { accel_y = v }
  put s Axis.accel_z v = record s { accel_z = v }

  -- `axis < 3 ? gyro[axis] : acce[axis - 3]`, read and written.
  unfoldable pub channel : Vec3 A → Vec3 A → Axis → A
  channel g c Axis.gyro_x = g.x
  channel g c Axis.gyro_y = g.y
  channel g c Axis.gyro_z = g.z
  channel g c Axis.accel_x = c.x
  channel g c Axis.accel_y = c.y
  channel g c Axis.accel_z = c.z

  unfoldable pub put_gyro : Vec3 A → Axis → A → Vec3 A
  put_gyro g Axis.gyro_x v = record g { x = v }
  put_gyro g Axis.gyro_y v = record g { y = v }
  put_gyro g Axis.gyro_z v = record g { z = v }
  put_gyro g _ v = g

  unfoldable pub put_accel : Vec3 A → Axis → A → Vec3 A
  put_accel c Axis.accel_x v = record c { x = v }
  put_accel c Axis.accel_y v = record c { y = v }
  put_accel c Axis.accel_z v = record c { z = v }
  put_accel c _ v = c

  pub get-put :
      (s : Six A) (b a : Axis) (v : A) → get (put s b v) a ≡ (if same_axis b a then v else get s a)
  unfolding get put
  get-put s b a v = ground arith

  pub channel-put :
      (g c : Vec3 A) (b a : Axis) (v : A)
      → channel (put_gyro g b v) (put_accel c b v) a ≡ (if same_axis b a then v else channel g c a)
  unfolding channel put_gyro put_accel
  channel-put g c b a v = ground arith
