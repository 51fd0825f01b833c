-- ===== src/Sample/Tests.antt =====
-- Runs of the sampling by voxels, and its theorem at such an input.
use mathlib.Core.List.{Perm}
use mathlib.Core.List.Perm
use adaptive_lio.Common.{ℕ, ◌≡◌, refl, some, List, [], ◌∷◌, map}
use adaptive_lio.Common.Fixed.{Fixed, decimal, fixed_double}
use adaptive_lio.Imu.{constant}
use adaptive_lio.Point.{Point}
use adaptive_lio.Voxel.{same_voxel, coordinates}
use adaptive_lio.Voxel.Tests.{to_short}
use adaptive_lio.Frame.Tests.{point_at}
use adaptive_lio.Sample.{is_there, put_first, fill_grid, sub_sample_frame, grid_sampling}
use adaptive_lio.Sample.Agree.{IsWalk, grid_sampling-Perm}

-- A point on the diagonal, with a number as its ring.
abbrev on_diagonal : ℕ → Fixed → Point Fixed
on_diagonal ring x = record (point_at 0) { point = constant x; ring = ring }

-- Points 0 and 1 are in one voxel, as are 2 and 3.
abbrev frame : List (Point Fixed)
frame =
    on_diagonal 0 (decimal 1 1)
    ∷ on_diagonal 1 (decimal 2 1)
    ∷ on_diagonal 2 (decimal 11 1)
    ∷ on_diagonal 3 (decimal 12 1)
    ∷ []

first_of_each :
    map (λ (p : Point Fixed). p.ring) (sub_sample_frame to_short (decimal 1 0) (λ g. g) frame)
    ≡ 0 ∷ 2 ∷ []
unfolding sub_sample_frame fill_grid put_first is_there same_voxel coordinates
first_of_each = refl

as_it_is : (V : Type 0) → IsWalk {V = V} (λ grid. grid)
unfolding IsWalk
as_it_is V grid = Perm.rfl

grid_sampling-Perm_example :
    Perm
      (grid_sampling to_short (decimal 1 0) (λ s. s) frame)
      (map some (sub_sample_frame to_short (decimal 1 0) (λ g. g) frame))
grid_sampling-Perm_example =
    grid_sampling-Perm to_short (decimal 1 0) frame (λ g. g) (λ s. s) (as_it_is _) (as_it_is _)
