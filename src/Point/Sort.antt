-- ===== src/Point/Sort.antt =====
-- `SortFinitePoints` of algo/aux_time_crop.h: the finite points, in the order of their time stamps.
use mathlib.Core.List.{Perm}
use adaptive_lio.Common.{◌≡◌, true, List, [], ◌∷◌, arith, All, either}
use adaptive_lio.Common.Double.{Double, IsOrdered}
use adaptive_lio.Common.Sorting.{IsNumber, IsSorted, sort_by-All, sort_by-Perm, sort_by-IsSorted}
use adaptive_lio.Point.{Point, stamp_of, keep_if, finite_point, sort_finite_points}

module _ {D : Type 0} ⦃d : Double D⦄ where
  abbrev pub IsFinite : Point D → Type 0
  IsFinite p = finite_point p ≡ true

  keep_if-IsFinite : (ps : List (Point D)) → All IsFinite (keep_if finite_point ps)
  keep_if-IsFinite [] = tt
  keep_if-IsFinite (p ∷ ps) =
      either (All IsFinite) (finite_point p) _ _ (λ e. (e, keep_if-IsFinite ps))
        (λ e. keep_if-IsFinite ps)

  All-IsNumber : IsOrdered D → (ps : List (Point D)) → All IsFinite ps → All (IsNumber stamp_of) ps
  All-IsNumber laws [] a = tt
  All-IsNumber laws (p ∷ ps) (f, a) =
      (laws.le_of_finite p.timestamp (ground arith), All-IsNumber laws ps a)

  -- The points that remain are the finite ones, each as often as before, and in the order of time.
  pub sort_finite_points_lem :
      IsOrdered D
      → (ps : List (Point D))
      → IsSorted stamp_of (sort_finite_points ps)
        × All IsFinite (sort_finite_points ps)
        × Perm (sort_finite_points ps) (keep_if finite_point ps)
  unfolding sort_finite_points
  sort_finite_points_lem laws ps =
      let kept = keep_if finite_point ps in
      let finite = keep_if-IsFinite ps in
      (
        sort_by-IsSorted stamp_of laws kept (All-IsNumber laws kept finite),
        sort_by-All stamp_of IsFinite kept finite,
        sort_by-Perm stamp_of kept,
      )
