-- ===== src/Sample.antt =====
-- common/utility.cpp: `sub_sample_frame` and `grid_sampling`, which keep a point of each voxel. The
-- order in which a hash map is walked through is the argument `order`; an index that is out of
-- range gives `none`.
pub mod Agree
pub mod Tests
use adaptive_lio.Common.{
  ℕ, zero, suc, Bool, true, false, ◌||◌, Option, none, some, List, [], ◌∷◌, ◌++◌, map, get_elem?,
  if◌then◌else◌,
}
use adaptive_lio.Common.Double.{Double}
use adaptive_lio.Point.{Point}
use adaptive_lio.Voxel.{Voxel, same_voxel, coordinates}

-- A hash map over the voxels, in the order of the insertions.
abbrev pub Grid : Type 0 → Type 0
Grid V = List (Voxel × V)

module _ {V : Type 0} where
  unfoldable pub is_there : Voxel → Grid V → Bool
  is_there v [] = false
  is_there v (e ∷ es) = same_voxel v e.0 || is_there v es

  -- `if (grid.find(vox) == grid.end()) grid[vox] = value`.
  unfoldable pub put_first : Voxel → V → Grid V → Grid V
  unfolding is_there
  put_first v value grid = if is_there v grid then grid else grid ++ (v, value) ∷ []

module _ {D : Type 0} ⦃d : Double D⦄ (to_short : D → ℕ) (size_voxel : D) where
  abbrev pub voxel_of : Point D → Voxel
  voxel_of p = coordinates to_short p.point size_voxel

  -- The loop of `sub_sample_frame`.
  unfoldable pub fill_grid : List (Point D) → Grid (Point D) → Grid (Point D)
  unfolding put_first
  fill_grid [] grid = grid
  fill_grid (p ∷ ps) grid = fill_grid ps (put_first (voxel_of p) p grid)

  unfoldable pub sub_sample_frame :
      (Grid (Point D) → Grid (Point D)) → List (Point D) → List (Point D)
  unfolding fill_grid
  sub_sample_frame order frame = map (λ e. e.1) (order (fill_grid frame []))

  -- The loop of `grid_sampling`, from index `i` on.
  unfoldable pub fill_selected : ℕ → List (Point D) → Grid ℕ → Grid ℕ
  unfolding put_first
  fill_selected i [] selected = selected
  fill_selected i (p ∷ ps) selected = fill_selected (suc i) ps (put_first (voxel_of p) i selected)

  -- The key points.
  unfoldable pub grid_sampling : (Grid ℕ → Grid ℕ) → List (Point D) → List (Option (Point D))
  unfolding fill_selected
  grid_sampling order [] = []
  grid_sampling order (p ∷ ps) =
      map (λ e. get_elem? (p ∷ ps) e.1) (order (fill_selected 0 (p ∷ ps) []))
