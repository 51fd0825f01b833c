-- ===== src/Point.antt =====
-- `point3D` of common/cloudMap.hpp, `SortFinitePoints` and `CropAuxPoints` of algo/aux_time_crop.h.
pub mod Crop
pub mod Sort
use adaptive_lio.Common.{
  ℕ, suc, Bool, true, false, not, ◌&&◌, List, [], ◌∷◌, ◌++◌, drop, if◌then◌else◌,
}
use adaptive_lio.Common.Double.{Double}
use adaptive_lio.Common.Sorting.{sort_by}
use adaptive_lio.Imu.Axes.{Vec3}
use adaptive_lio.Imu.{all_finite}

pub record Point (D : Type 0) : Type 0 where
  pub raw_point : Vec3 D
  pub end_point : Vec3 D
  pub point : Vec3 D
  pub intensity : D
  pub alpha_time : D
  pub relative_time : D
  pub timespan : D
  pub timestamp : D
  pub ring : ℕ
  pub lid : ℕ

-- Where `CropAuxPoints` leaves its cursor, and its output.
pub record Cropped (D : Type 0) : Type 0 where
  pub cursor : ℕ
  pub out : List (Point D)

module _ {ℓ} {A : Type ℓ} where
  abbrev pub keep_if : (A → Bool) → List A → List A
  keep_if p [] = []
  keep_if p (x ∷ xs) = if p x then x ∷ keep_if p xs else keep_if p xs

module _ {D : Type 0} ⦃d : Double D⦄ where
  abbrev pub finite_point : Point D → Bool
  finite_point p = d.is_finite p.timestamp && all_finite p.raw_point

  abbrev pub stamp_of : Point D → D
  stamp_of p = p.timestamp

  unfoldable pub sort_finite_points : List (Point D) → List (Point D)
  sort_finite_points ps = sort_by stamp_of (keep_if finite_point ps)

  module _ (begin_time end_time offset : D) where
    -- The loop of `CropAuxPoints` from `points[cursor]` on.
    unfoldable pub crop_from : List (Point D) → ℕ → List (Point D) → Cropped D
    crop_from [] cursor out = record { cursor = cursor; out = out }
    crop_from (p ∷ ps) cursor out =
        let t = d.add p.timestamp offset in
        let rest =
          crop_from ps (suc cursor)
            (if d.le begin_time t then out ++ (record p { timestamp = t } ∷ []) else out) in
        if d.le end_time t then record { cursor = cursor; out = out } else rest

    unfoldable pub crop_aux_points : List (Point D) → ℕ → List (Point D) → Cropped D
    crop_aux_points points cursor out = crop_from (drop cursor points) cursor out
