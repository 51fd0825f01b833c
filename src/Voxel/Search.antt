-- ===== src/Voxel/Search.antt =====
-- `searchNeighbors` of lio/lidarodom.cpp. `std::nth_element` and `std::sort` are one stable sort here:
-- which of two candidates at the same distance is kept is open in C++.
use adaptive_lio.Common.{
  ℕ, ◌&&◌, Option, none, some, List, [], ◌∷◌, ◌++◌, take, ◌==◌, ltb, if◌then◌else◌,
}
use adaptive_lio.Common.Double.{Double}
use adaptive_lio.Common.Sorting.{sort_by}
use adaptive_lio.Imu.Axes.{Vec3}
use adaptive_lio.Voxel.{
  Voxel, VoxelBlock, VoxelHashMap, find, squared_distance, coordinates, num_points_of,
}
use adaptive_lio.Voxel.Range.{neighbours}

-- `pair_distance_t`.
pub record Candidate (D : Type 0) : Type 0 where
  pub distance : D
  pub point : Vec3 D
  pub cell : Voxel

-- The results of a loop body before those of the rest of the loop, if all of it ends.
abbrev pub join {ℓ} : {B : Type ℓ} → Option (List B) → Option (List B) → Option (List B)
join none r = none
join (some xs) none = none
join (some xs) (some ys) = some (xs ++ ys)

module _ {ℓ κ} {A : Type ℓ} {B : Type κ} where
  unfoldable pub loop_over : (A → Option (List B)) → List A → Option (List B)
  loop_over body [] = some []
  loop_over body (x ∷ xs) = join (body x) (loop_over body xs)

  -- A loop over the values of a counter, if the counter ends.
  abbrev pub loop_while : (A → Option (List B)) → Option (List A) → Option (List B)
  loop_while body none = none
  loop_while body (some xs) = loop_over body xs

-- The voxels that the three loops visit.
unfoldable pub visited : ℕ → Voxel → ℕ → Option (List Voxel)
unfolding loop_over neighbours
visited fuel k n =
    loop_while
      (λ x.
        loop_while
          (λ y.
            loop_while (λ z. some (record { x = x; y = y; z = z } ∷ [])) (neighbours fuel k.z n))
          (neighbours fuel k.y n))
      (neighbours fuel k.x n)

module _ {D : Type 0} ⦃d : Double D⦄ where
  abbrev pub distance_of : Candidate D → D
  distance_of c = c.distance

  -- The loop over the points of a block.
  unfoldable pub candidates_of : Vec3 D → D → Voxel → List (Vec3 D) → List (Candidate D)
  candidates_of point max_sq_distance v [] = []
  candidates_of point max_sq_distance v (p ∷ ps) =
      let distance = squared_distance p point in
      let rest = candidates_of point max_sq_distance v ps in
      if d.lt (d.decimal 0 0) max_sq_distance && d.lt max_sq_distance distance
      then rest
      else record { distance = distance; point = p; cell = v } ∷ rest

  -- The body of the loops for the block that was found, or not.
  unfoldable pub in_voxel : Vec3 D → ℕ → D → Voxel → Option (VoxelBlock D) → List (Candidate D)
  unfolding candidates_of
  in_voxel point threshold max_sq_distance v none = []
  in_voxel point threshold max_sq_distance v (some b) =
      if ltb (num_points_of b) threshold then [] else candidates_of point max_sq_distance v b.points

  unfoldable pub gather : VoxelHashMap D → Vec3 D → ℕ → D → List Voxel → List (Candidate D)
  unfolding in_voxel find
  gather m point threshold max_sq_distance [] = []
  gather m point threshold max_sq_distance (v ∷ vs) =
      in_voxel point threshold max_sq_distance v (find v m)
      ++ gather m point threshold max_sq_distance vs

  abbrev pub keep_closest :
      VoxelHashMap D → Vec3 D → ℕ → ℕ → D → Option (List Voxel) → Option (List (Candidate D))
  keep_closest m point max_num threshold max_sq_distance none = none
  keep_closest m point max_num threshold max_sq_distance (some vs) =
      some (take max_num (sort_by distance_of (gather m point threshold max_sq_distance vs)))

  -- The neighbours with their distances and voxels, the closest first.
  unfoldable pub search_neighbors :
      (D → ℕ) → ℕ → VoxelHashMap D → Vec3 D → ℕ → D → ℕ → ℕ → D → Option (List (Candidate D))
  unfolding visited gather coordinates
  search_neighbors to_short fuel m point nb_voxels size max_num threshold max_sq_distance =
      if max_num == 0
      then some []
      else keep_closest m point max_num threshold max_sq_distance
          (visited fuel (coordinates to_short point size) nb_voxels)
