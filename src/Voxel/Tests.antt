-- ===== src/Voxel/Tests.antt =====
-- Runs of the voxel map with voxels of one metre, and its theorems at such inputs.
use adaptive_lio.Common.{
  ℕ, ◌+◌, ◌-◌, ◌/◌, ◌^◌, ◌≡◌, refl, Option, none, some, List, [], ◌∷◌, arith, length, map,
}
use adaptive_lio.Common.Fixed.{Fixed, fin, decimal, fixed_double, Fixed-IsOrdered}
use adaptive_lio.Common.Int.{pos, negsuc}
use adaptive_lio.Common.Sorting.{sort_by, insert_by}
use adaptive_lio.Imu.Axes.{Vec3}
use adaptive_lio.Voxel.{
  VoxelHashMap, same_voxel, find, set_value, erase, erase_all, closest, takes, is_far,
  voxels_to_erase, lasermap_fov_segment, coordinates, put_point, add_point_to_map, insert_points,
}
use adaptive_lio.Voxel.Spacing.{IsMap, insert_points-IsMap}
use adaptive_lio.Voxel.Eviction.{Evicted, lasermap_fov_segment_lem}
use adaptive_lio.Voxel.Range.{short_loop, neighbours, from, neighbours-forever}
use adaptive_lio.Voxel.Search.{
  Candidate, loop_over, visited, candidates_of, in_voxel, gather, search_neighbors,
}
use adaptive_lio.Voxel.Nearest.{IsNearest, block_around, search_neighbors_lem}

-- The conversion to `short` of the numbers used here, with 32768 added.
abbrev pub to_short : Fixed → ℕ
to_short (fin (pos n)) = 32768 + n / 10 ^ 12
to_short (fin (negsuc n)) = 32768 - (n + 1) / 10 ^ 12
to_short x = 0

abbrev pub at : ℕ → Vec3 Fixed
at n = record { x = decimal n 1; y = decimal 5 1; z = decimal 5 1 }

-- Two points in one voxel, a third too close to the first, and one in the next voxel.
abbrev pub points : List (Vec3 Fixed)
points = at 1 ∷ at 6 ∷ at 2 ∷ at 15 ∷ []

map_of : List (Vec3 Fixed) → VoxelHashMap Fixed
unfolding insert_points add_point_to_map coordinates find put_point takes closest set_value
    same_voxel
map_of ps = insert_points to_short ps (decimal 1 0) 20 (decimal 2 1) (pos 0) []

sizes_of_map : map (λ e. length e.block.points) (map_of points) ≡ 2 ∷ 1 ∷ []
unfolding map_of
sizes_of_map = refl

insert_points-IsMap_example :
    IsMap to_short
      (decimal 1 0)
      20
      (decimal 2 1)
      (insert_points to_short points (decimal 1 0) 20 (decimal 2 1) (pos 0) [])
insert_points-IsMap_example =
    insert_points-IsMap to_short (decimal 1 0) 20 (decimal 2 1) Fixed-IsOrdered (pos 0) points []
      (ground arith) (tt, tt)

-- Two blocks, the second one 15 m away.
abbrev pub two_blocks : VoxelHashMap Fixed
two_blocks =
    record {
      key = record { x = 32768; y = 32768; z = 32768 };
      block = record { num_points = 20; points = at 1 ∷ at 6 ∷ [] };
    }
    ∷ record {
      key = record { x = 32783; y = 32768; z = 32768 };
      block = record { num_points = 20; points = at 150 ∷ [] };
    }
    ∷ []

evicted : length (lasermap_fov_segment (decimal 10 0) (at 0) two_blocks) ≡ 1
unfolding lasermap_fov_segment voxels_to_erase is_far erase_all erase same_voxel
evicted = refl

lasermap_fov_segment_lem_example :
    Evicted (decimal 10 0) (at 0) two_blocks (lasermap_fov_segment (decimal 10 0) (at 0) two_blocks)
unfolding same_voxel
lasermap_fov_segment_lem_example =
    lasermap_fov_segment_lem (decimal 10 0) (at 0) two_blocks ((refl, tt), (tt, tt))

neighbours_three : neighbours 4 32768 1 ≡ some (32767 ∷ 32768 ∷ 32769 ∷ [])
unfolding neighbours short_loop
neighbours_three = refl

-- A point in the last voxel of the range but one.
neighbours-forever_example : neighbours 1000 65534 1 ≡ none
neighbours-forever_example = neighbours-forever 1000 65534 1 (ground arith)

nearest_distances : Option (List (Candidate Fixed)) → List Fixed
nearest_distances none = []
nearest_distances (some cs) = map (λ c. c.distance) cs

nearest_one :
    nearest_distances
      (search_neighbors to_short 4 two_blocks (at 4) 1 (decimal 1 0) 1 1 (decimal 1 0))
    ≡ decimal 4 2 ∷ []
unfolding nearest_distances search_neighbors visited neighbours short_loop loop_over gather in_voxel
    candidates_of find same_voxel coordinates sort_by insert_by
nearest_one = refl

search_neighbors_lem_example :
    (r : List (Candidate Fixed)) × (search_neighbors to_short 4 two_blocks
        (at 4)
        1
        (decimal 1 0)
        1
        1
        (decimal 1 0)
      ≡ some r)
    × IsNearest 1
        (gather two_blocks
          (at 4)
          1
          (decimal 1 0)
          (block_around (coordinates to_short (at 4) (decimal 1 0)) 1))
        r
unfolding gather in_voxel candidates_of find same_voxel coordinates from
search_neighbors_lem_example =
    search_neighbors_lem Fixed-IsOrdered to_short two_blocks (at 4) 1 (decimal 1 0) 1 1
      (decimal 1 0) (ground arith, ground arith) (ground arith, ground arith)
      (ground arith, ground arith) (refl, (refl, tt))
