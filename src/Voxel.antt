-- ===== src/Voxel.antt =====
-- The voxel map: `voxel` and `voxelBlock` of common/cloudMap.hpp, and `addPointToMap` and
-- `lasermap_fov_segment` of lio/lidarodom.cpp. `tsl::robin_map` is a list of pairs with one entry for
-- each key. `to_short` is the conversion of a `double` to `short`, which is the argument of the
-- section: C++ leaves it open for a value out of range.
pub mod Spacing
pub mod Eviction
pub mod Range
pub mod Search
pub mod Nearest
pub mod Tests
use adaptive_lio.Common.{
  ℕ, ◌+◌, Bool, true, false, not, ◌&&◌, ◌||◌, Option, none, some, List, [], ◌∷◌, ◌++◌, ◌==◌, leb,
  length, front, if◌then◌else◌,
}
use adaptive_lio.Common.Double.{Double}
use adaptive_lio.Common.Int.{ℤ, pos, leb_ℤ}
use adaptive_lio.Imu.Axes.{Vec3}

-- Three `short`s. A `short` s is written as the natural number s + 32768.
pub record Voxel : Type 0 where
  pub x : ℕ
  pub y : ℕ
  pub z : ℕ

pub record VoxelBlock (D : Type 0) : Type 0 where
  pub num_points : ℕ
  pub points : List (Vec3 D)

pub record Entry (D : Type 0) : Type 0 where
  pub key : Voxel
  pub block : VoxelBlock D

-- `voxelHashMap`.
abbrev pub VoxelHashMap : Type 0 → Type 0
VoxelHashMap D = List (Entry D)

unfoldable pub same_voxel : Voxel → Voxel → Bool
same_voxel a b = a.x == b.x && a.y == b.y && a.z == b.z

module _ {D : Type 0} where
  abbrev pub num_points_of : VoxelBlock D → ℕ
  num_points_of b = length b.points

  abbrev pub is_full : VoxelBlock D → Bool
  is_full b = b.num_points == length b.points

  abbrev pub add_point : Vec3 D → VoxelBlock D → VoxelBlock D
  add_point p b = record { num_points = b.num_points; points = b.points ++ (p ∷ []) }

  unfoldable pub find : Voxel → VoxelHashMap D → Option (VoxelBlock D)
  unfolding same_voxel
  find v [] = none
  find v (e ∷ es) = if same_voxel v e.key then some e.block else find v es

  -- `search.value() = b` for a key that is there.
  unfoldable pub set_value : Voxel → VoxelBlock D → VoxelHashMap D → VoxelHashMap D
  unfolding same_voxel
  set_value v b [] = []
  set_value v b (e ∷ es) =
      if same_voxel v e.key then record { key = e.key; block = b } ∷ es else e ∷ set_value v b es

  unfoldable pub erase : Voxel → VoxelHashMap D → VoxelHashMap D
  unfolding same_voxel
  erase v [] = []
  erase v (e ∷ es) = if same_voxel v e.key then es else e ∷ erase v es

  unfoldable pub erase_all : List Voxel → VoxelHashMap D → VoxelHashMap D
  erase_all [] m = m
  erase_all (v ∷ vs) m = erase_all vs (erase v m)

module _ {D : Type 0} ⦃d : Double D⦄ where
  -- `(a - b).squaredNorm()`.
  abbrev pub squared_distance : Vec3 D → Vec3 D → D
  squared_distance a b =
      let x = d.sub a.x b.x in
      let y = d.sub a.y b.y in
      let z = d.sub a.z b.z in d.add (d.add (d.mul x x) (d.mul y y)) (d.mul z z)

  -- The loop for `sq_dist_min_to_points`.
  unfoldable pub closest : Vec3 D → List (Vec3 D) → D → D
  closest point [] best = best
  closest point (p ∷ ps) best =
      closest point ps
        (if d.lt (squared_distance p point) best then squared_distance p point else best)

  -- Whether a block takes the point: it has room, no point is too close, and it has enough points.
  unfoldable pub takes : D → D → ℤ → Vec3 D → VoxelBlock D → Bool
  takes voxel_size min_distance min_num_points point b =
      not (is_full b)
      && d.lt (d.mul min_distance min_distance)
          (closest point b.points (d.mul (d.mul (d.decimal 10 0) voxel_size) voxel_size))
      && (leb_ℤ min_num_points (pos 0) || leb_ℤ min_num_points (pos (num_points_of b)))

  -- Whether `lasermap_fov_segment` erases an entry: it is empty, or its first point is too far.
  unfoldable pub is_far : D → Vec3 D → VoxelBlock D → Bool
  is_far max_distance location b = elim (front b.points) [
    | none ↦ true
    | some pt ↦ d.lt (d.mul max_distance max_distance) (squared_distance pt location)
  ]

  unfoldable pub voxels_to_erase : D → Vec3 D → VoxelHashMap D → List Voxel
  unfolding is_far
  voxels_to_erase max_distance location [] = []
  voxels_to_erase max_distance location (e ∷ es) =
      let rest = voxels_to_erase max_distance location es in
      if is_far max_distance location e.block then e.key ∷ rest else rest

  unfoldable pub lasermap_fov_segment : D → Vec3 D → VoxelHashMap D → VoxelHashMap D
  unfolding voxels_to_erase erase_all erase
  lasermap_fov_segment max_distance location m =
      erase_all (voxels_to_erase max_distance location m) m

  module _ (to_short : D → ℕ) where
    -- `voxel(short(p.x / size), ...)`.
    unfoldable pub coordinates : Vec3 D → D → Voxel
    coordinates p size = record {
      x = to_short (d.div p.x size);
      y = to_short (d.div p.y size);
      z = to_short (d.div p.z size);
    }

    -- What `addPointToMap` does with the block that it finds, or finds not. A new block is put at
    -- the end: the order of a hash map is not used.
    unfoldable pub put_point :
        Voxel → Vec3 D → D → ℕ → D → ℤ → Option (VoxelBlock D) → VoxelHashMap D → VoxelHashMap D
    unfolding takes closest set_value
    put_point v point size max_points min_distance min_num_points (some b) m =
        if takes size min_distance min_num_points point b
        then set_value v (add_point point b) m
        else m
    put_point v point size max_points min_distance min_num_points none m =
        if leb_ℤ min_num_points (pos 0)
        then m
          ++ (record { key = v; block = record { num_points = max_points; points = point ∷ [] } }
              ∷ [])
        else m

    unfoldable pub add_point_to_map : VoxelHashMap D → Vec3 D → D → ℕ → D → ℤ → VoxelHashMap D
    unfolding coordinates find put_point
    add_point_to_map m point size max_points min_distance min_num_points =
        let v = coordinates point size in
        put_point v point size max_points min_distance min_num_points (find v m) m

    -- The loop of `map_incremental` over the points of a frame.
    unfoldable pub insert_points : List (Vec3 D) → D → ℕ → D → ℤ → VoxelHashMap D → VoxelHashMap D
    unfolding add_point_to_map
    insert_points [] size max_points min_distance min_num_points m = m
    insert_points (p ∷ ps) size max_points min_distance min_num_points m =
        insert_points ps size max_points min_distance min_num_points
          (add_point_to_map m p size max_points min_distance min_num_points)
