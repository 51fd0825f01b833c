-- ===== src/Voxel/Nearest.antt =====
-- What `searchNeighbors` returns.
use mathlib.Core.List.{Perm}
use adaptive_lio.Common.{
  drop, ℕ, zero, suc, ◌+◌, ◌*◌, ◌-◌, ◌≤◌, ◌<◌, ◌≡◌, refl, ap, subst, true, Option, some, List, [],
  ◌∷◌, ◌++◌, arith, either, ◌==◌, leb, length, take, drop, take-drop, length-take, All,
  if◌then◌else◌,
}
use adaptive_lio.Common.Double.{Double, IsOrdered}
use adaptive_lio.Common.Sorting.{
  sort_by, IsSorted, IsNumber, sort_by-Perm, sort_by-IsSorted, length-sort_by,
}
use adaptive_lio.Imu.Axes.{Vec3}
use adaptive_lio.Voxel.{Voxel, VoxelHashMap, coordinates}
use adaptive_lio.Voxel.Range.{from, neighbours_lem}
use adaptive_lio.Voxel.Search.{
  Candidate, loop_over, loop_while, visited, distance_of, gather, keep_closest, search_neighbors,
}

module _ {ℓ κ} {A : Type ℓ} {B : Type κ} where
  -- The same loops where every body ends.
  abbrev pub each : (A → List B) → List A → List B
  each f [] = []
  each f (x ∷ xs) = f x ++ each f xs

  loop_over-each :
      (body : A → Option (List B)) (f : A → List B) (xs : List A)
      → ((x : A) → body x ≡ some (f x))
      → loop_over body xs ≡ some (each f xs)
  unfolding loop_over
  loop_over-each body f [] h = refl
  loop_over-each body f (x ∷ xs) h = rw (h x, loop_over-each body f xs h) refl

  loop_while-each :
      (body : A → Option (List B)) (f : A → List B) (o : Option (List A)) (xs : List A)
      → o ≡ some xs
      → ((x : A) → body x ≡ some (f x))
      → loop_while body o ≡ some (each f xs)
  loop_while-each body f o xs e h = rw e (loop_over-each body f xs h)

-- The block of voxels around one, in the order of the loops.
abbrev pub block_around : Voxel → ℕ → List Voxel
block_around k n =
    each
      (λ x.
        each (λ y. each (λ z. record { x = x; y = y; z = z } ∷ []) (from (2 * n + 1) (k.z - n)))
          (from (2 * n + 1) (k.y - n)))
      (from (2 * n + 1) (k.x - n))

-- The neighbours of one coordinate are within the range of a `short`.
abbrev pub InRange : ℕ → ℕ → Type 0
InRange c n = n ≤ c × c + n < 65535

visited_lem :
    (k : Voxel) (n : ℕ)
    → InRange k.x n
    → InRange k.y n
    → InRange k.z n
    → visited (2 * n + 2) k n ≡ some (block_around k n)
unfolding visited
visited_lem k n hx hy hz = loop_while-each _ _ _ _ (neighbours_lem k.x n hx.0 hx.1) (λ x.
    loop_while-each _ _ _ _ (neighbours_lem k.y n hy.0 hy.1) (λ y.
      loop_while-each _ (λ z. record { x = x; y = y; z = z } ∷ []) _ _
        (neighbours_lem k.z n hz.0 hz.1) (λ z. refl)))

module _ {A : Type 0} {D : Type 0} ⦃d : Double D⦄ (key : A → D) where
  All-take {κ} : (P : A → Type κ) (n : ℕ) (xs : List A) → All P xs → All P (take n xs)
  All-take P zero xs a = tt
  All-take P (suc n) [] a = tt
  All-take P (suc n) (x ∷ xs) (h, a) = (h, All-take P n xs a)

  All-drop {κ} : (P : A → Type κ) (n : ℕ) (xs : List A) → All P xs → All P (drop n xs)
  All-drop P zero xs a = a
  All-drop P (suc n) [] a = tt
  All-drop P (suc n) (x ∷ xs) (h, a) = All-drop P n xs a

  take-IsSorted : (n : ℕ) (xs : List A) → IsSorted key xs → IsSorted key (take n xs)
  take-IsSorted zero xs s = tt
  take-IsSorted (suc n) [] s = tt
  take-IsSorted (suc n) (x ∷ xs) (h, s) = (All-take _ n xs h, take-IsSorted n xs s)

  -- Nothing that is cut off is before what is taken.
  take-first :
      (n : ℕ) (xs : List A)
      → IsSorted key xs
      → All (λ p. All (λ q. d.le (key p) (key q) ≡ true) (drop n xs)) (take n xs)
  take-first zero xs s = tt
  take-first (suc n) [] s = tt
  take-first (suc n) (x ∷ xs) (h, s) = (All-drop _ n xs h, take-first n xs s)

module _ {D : Type 0} ⦃d : Double D⦄ where
  -- What is returned, of the candidates: as many as asked for or all, the closest first, and no
  -- other candidate is closer than any of them.
  pub record IsNearest (max_num : ℕ) (candidates r : List (Candidate D)) : Type 0 where
    pub size : length r ≡ (if leb max_num (length candidates) then max_num else length candidates)
    pub closest_first : IsSorted distance_of r
    pub others : List (Candidate D)
    pub whole : Perm (r ++ others) candidates
    pub others_farther : All (λ c. All (λ o. d.le c.distance o.distance ≡ true) others) r

  take-IsNearest :
      (laws : IsOrdered D) (max_num : ℕ) (cs : List (Candidate D))
      → All (IsNumber distance_of) cs
      → IsNearest max_num cs (take max_num (sort_by distance_of cs))
  take-IsNearest laws max_num cs numbers =
      let sorted = sort_by distance_of cs in
      let perm = sort_by-Perm distance_of cs in
      let s = sort_by-IsSorted distance_of laws cs numbers in
      record {
        size =
            subst (λ n. length (take max_num sorted) ≡ (if leb max_num n then max_num else n))
              (length-sort_by distance_of cs) (length-take max_num sorted);
        closest_first = take-IsSorted distance_of max_num sorted s;
        others = drop max_num sorted;
        whole = rw (take-drop max_num sorted) perm;
        others_farther = take-first distance_of max_num sorted s;
      }

  -- Where the neighbouring voxels are within the range of a `short`, 2 n + 2 rounds of each loop are
  -- enough; the result is as many as asked for, or all, of the points in these voxels that are close
  -- enough and in blocks with enough points, the closest first, and no other such point is closer.
  pub search_neighbors_lem :
      (laws : IsOrdered D) (to_short : D → ℕ) (m : VoxelHashMap D) (point : Vec3 D) (n : ℕ)
      (size : D) (max_num threshold : ℕ) (max_sq_distance : D)
      → InRange (coordinates to_short point size).x n
      → InRange (coordinates to_short point size).y n
      → InRange (coordinates to_short point size).z n
      → All (IsNumber distance_of) (
          gather m point threshold max_sq_distance
            (block_around (coordinates to_short point size) n))
      → (r : List (Candidate D)) × (search_neighbors to_short
            (2 * n + 2)
            m
            point
            n
            size
            max_num
            threshold
            max_sq_distance
          ≡ some r)
        × IsNearest max_num
            (gather m point threshold max_sq_distance
              (block_around (coordinates to_short point size) n))
            r
  unfolding search_neighbors
  search_neighbors_lem laws to_short m point n size max_num threshold max_sq_distance hx hy hz
        numbers =
      let k = coordinates to_short point size in
      let cs = gather m point threshold max_sq_distance (block_around k n) in
      let r = take max_num (sort_by distance_of cs) in
      (
        r,
        either (λ o. o ≡ some r) (max_num == 0) _ _
            (λ e. let none_kept : max_num ≡ 0 = ground arith in rw none_kept refl)
            (λ e.
              ap (keep_closest m point max_num threshold max_sq_distance)
                (visited_lem k n hx hy hz)),
        take-IsNearest laws max_num cs numbers,
      )
