-- ===== src/Imu/Merge.antt =====
-- What `MergeImuQuality` of algo/imu_quality.h keeps of the two ends of an interval.
use adaptive_lio.Common.{◌≡◌, Bool, true, ◌&&◌, ◌||◌, arith, ◌↔◌}
use adaptive_lio.Common.Double.{Double}
use adaptive_lio.Imu.Axes.{Vec3, Six}
use adaptive_lio.Imu.{ImuQuality, bitwise, every, all_finite, at_least, cwise_max, usable, merge}

covered_bit : (a b h k : Bool) → a || h ≡ true → b || k ≡ true → (a && b) || (h || k) ≡ true
covered_bit a b h k p q = ground arith

every_iff :
    (m : Six Bool)
    → (every m ≡ true) ↔ (
        (m.gyro_x ≡ true)
        × (m.gyro_y ≡ true)
        × (m.gyro_z ≡ true)
        × (m.accel_x ≡ true)
        × (m.accel_y ≡ true)
        × (m.accel_z ≡ true))
every_iff m = ground arith

and_five :
    (a b c e f : Bool)
    → a && b && c && e && f ≡ true
    → (a ≡ true) × (b ≡ true) × (c ≡ true) × (e ≡ true) × (f ≡ true)
and_five a b c e f h = ground arith

every-covered :
    (a b h k : Six Bool)
    → every (bitwise ◌||◌ a h) ≡ true
    → every (bitwise ◌||◌ b k) ≡ true
    → every (bitwise ◌||◌ (bitwise ◌&&◌ a b) (bitwise ◌||◌ h k)) ≡ true
every-covered a b h k p q =
    let p' = (every_iff (bitwise ◌||◌ a h)).0 p in
    let q' = (every_iff (bitwise ◌||◌ b k)).0 q in
    (every_iff (bitwise ◌||◌ (bitwise ◌&&◌ a b) (bitwise ◌||◌ h k))).1 (
      covered_bit a.gyro_x b.gyro_x h.gyro_x k.gyro_x p'.0 q'.0,
      covered_bit a.gyro_y b.gyro_y h.gyro_y k.gyro_y p'.1 q'.1,
      covered_bit a.gyro_z b.gyro_z h.gyro_z k.gyro_z p'.2 q'.2,
      covered_bit a.accel_x b.accel_x h.accel_x k.accel_x p'.3 q'.3,
      covered_bit a.accel_y b.accel_y h.accel_y k.accel_y p'.4 q'.4,
      covered_bit a.accel_z b.accel_z h.accel_z k.accel_z p'.5 q'.5,
    )

module _ {D : Type 0} ⦃d : Double D⦄ where
  all_finite-cwise_max :
      (a b : Vec3 D) → all_finite a ≡ true → all_finite b ≡ true → all_finite (cwise_max a b) ≡ true
  all_finite-cwise_max a b p q = ground arith

  at_least-cwise_max :
      (c : D) (a b : Vec3 D)
      → at_least c a ≡ true
      → at_least c b ≡ true
      → at_least c (cwise_max a b) ≡ true
  at_least-cwise_max c a b p q = ground arith

  -- The quality of an interval is usable if those of its two ends are: an axis that one end held is
  -- still accounted for, and the noise scales stay finite and at least one.
  pub usable-merge :
      (a b : ImuQuality D) → usable a ≡ true → usable b ≡ true → usable (merge a b) ≡ true
  unfolding usable merge
  usable-merge a b p q =
      let (p1, p2, p3, p4, p5) = and_five _ _ _ _ _ p in
      let (q1, q2, q3, q4, q5) = and_five _ _ _ _ _ q in
      rw (every-covered a.valid_mask b.valid_mask a.held_mask b.held_mask p1 q1) (
        rw (all_finite-cwise_max _ _ p2 q2) (
          rw (all_finite-cwise_max _ _ p3 q3)
            (rw (at_least-cwise_max _ _ _ p4 q4) (at_least-cwise_max _ _ _ p5 q5))))
