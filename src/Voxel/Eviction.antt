-- ===== src/Voxel/Eviction.antt =====
-- What `lasermap_fov_segment` leaves of the map.
use adaptive_lio.Common.{
  ◌≡◌, refl, ◌∙◌, sym, subst, ap, true, false, not, inl, inr, Bool-cases, List, [], ◌∷◌, either,
  All,
}
use adaptive_lio.Common.Double.{Double}
use adaptive_lio.Imu.Axes.{Vec3}
use adaptive_lio.Point.{keep_if}
use adaptive_lio.Voxel.{
  Voxel, Entry, VoxelHashMap, same_voxel, is_far, voxels_to_erase, erase, erase_all,
  lasermap_fov_segment,
}
use adaptive_lio.Voxel.Spacing.{DistinctKeys, same_voxel_refl, same_voxel_symm}

module _ {D : Type 0} where
  erase-first : (e : Entry D) (es : VoxelHashMap D) → erase e.key (e ∷ es) ≡ es
  unfolding erase
  erase-first e es = rw (same_voxel_refl e.key) refl

  erase_all-skip :
      (vs : List Voxel) (e : Entry D) (m : VoxelHashMap D)
      → All (λ v. same_voxel v e.key ≡ false) vs
      → erase_all vs (e ∷ m) ≡ e ∷ erase_all vs m
  unfolding erase_all erase
  erase_all-skip [] e m a = refl
  erase_all-skip (v ∷ vs) e m (h, a) = rw h (erase_all-skip vs e (erase v m) a)

module _ {D : Type 0} ⦃d : Double D⦄ (max_distance : D) (location : Vec3 D) where
  voxels_to_erase-All :
      (k : Voxel) (m : VoxelHashMap D)
      → All (λ f. same_voxel k f.key ≡ false) m
      → All (λ v. same_voxel v k ≡ false) (voxels_to_erase max_distance location m)
  unfolding voxels_to_erase
  voxels_to_erase-All k [] a = tt
  voxels_to_erase-All k (e ∷ es) (h, a) =
      either (All (λ v. same_voxel v k ≡ false)) (is_far max_distance location e.block) _ _
        (λ f. (same_voxel_symm k e.key h, voxels_to_erase-All k es a))
        (λ f. voxels_to_erase-All k es a)

  -- The map without the entries that `is_far` finds.
  pub lasermap_fov_segment-keep_if :
      (m : VoxelHashMap D)
      → DistinctKeys m
      → lasermap_fov_segment max_distance location m
        ≡ keep_if (λ e. not (is_far max_distance location e.block)) m
  unfolding lasermap_fov_segment voxels_to_erase erase_all
  lasermap_fov_segment-keep_if [] u = refl
  lasermap_fov_segment-keep_if (e ∷ es) (h, u) =
      let rest = lasermap_fov_segment-keep_if es u in
      let later = voxels_to_erase max_distance location es in
      either
        (λ vs.
          erase_all vs (e ∷ es)
          ≡ keep_if (λ e. not (is_far max_distance location e.block)) (e ∷ es))
        (is_far max_distance location e.block) (e.key ∷ later) later
        (λ f. rw f (ap (erase_all later) (erase-first e es) ∙ rest))
        (λ f.
          rw f (erase_all-skip later e es (voxels_to_erase-All e.key es h) ∙ ap (λ m. e ∷ m) rest))

  -- The first point of the block is not farther from the location than the distance.
  pub record IsNear (e : Entry D) : Type 0 where
    pub first : Vec3 D
    pub others : List (Vec3 D)
    pub has_points : e.block.points ≡ first ∷ others
    pub within :
        d.lt (d.mul max_distance max_distance) (
          d.add
            (d.add
              (d.mul (d.sub first.x location.x) (d.sub first.x location.x))
              (d.mul (d.sub first.y location.y) (d.sub first.y location.y)))
            (d.mul (d.sub first.z location.z) (d.sub first.z location.z)))
        ≡ false

  -- The block is empty, or its first point is farther.
  pub data IsGone (e : Entry D) : Type 0 where
    empty : e.block.points ≡ [] → IsGone e
    beyond :
        (first : Vec3 D) (others : List (Vec3 D))
        → e.block.points ≡ first ∷ others
        → d.lt (d.mul max_distance max_distance) (
            d.add
              (d.add
                (d.mul (d.sub first.x location.x) (d.sub first.x location.x))
                (d.mul (d.sub first.y location.y) (d.sub first.y location.y)))
              (d.mul (d.sub first.z location.z) (d.sub first.z location.z)))
          ≡ true
        → IsGone e

  -- The second map has the near entries of the first, in their order, and no others.
  pub data Evicted : VoxelHashMap D → VoxelHashMap D → Type 0 where
    done : Evicted [] []
    stays : {e : Entry D} {m n : VoxelHashMap D} → IsNear e → Evicted m n → Evicted (e ∷ m) (e ∷ n)
    goes : {e : Entry D} {m n : VoxelHashMap D} → IsGone e → Evicted m n → Evicted (e ∷ m) n

  far-IsGone :
      (e : Entry D) (ps : List (Vec3 D))
      → e.block.points ≡ ps
      → is_far max_distance location e.block ≡ true
      → IsGone e
  unfolding is_far
  far-IsGone e [] q h = empty q
  far-IsGone e (p ∷ ps) q h = beyond p ps q (rw q at h)

  is_far-IsNear :
      (e : Entry D) (ps : List (Vec3 D))
      → e.block.points ≡ ps
      → is_far max_distance location e.block ≡ false
      → IsNear e
  unfolding is_far
  is_far-IsNear e [] q h = let g = rw q at h in cc
  is_far-IsNear e (p ∷ ps) q h = record {
    first = p;
    others = ps;
    has_points = q;
    within = rw q at h;
  }

  keep_if-Evicted :
      (m : VoxelHashMap D) → Evicted m (keep_if (λ e. not (is_far max_distance location e.block)) m)
  keep_if-Evicted [] = done
  keep_if-Evicted (e ∷ es) = elim (Bool-cases (is_far max_distance location e.block)) [
    | inl f ↦ rw f (goes (far-IsGone e e.block.points refl f) (keep_if-Evicted es))
    | inr f ↦ rw f (stays (is_far-IsNear e e.block.points refl f) (keep_if-Evicted es))
  ]

  -- From a map without two entries of one key, exactly the entries are left, in their order, whose
  -- block has a first point that is not beyond the distance.
  pub lasermap_fov_segment_lem :
      (m : VoxelHashMap D)
      → DistinctKeys m
      → Evicted m (lasermap_fov_segment max_distance location m)
  lasermap_fov_segment_lem m u =
      subst (Evicted m) (sym (lasermap_fov_segment-keep_if m u)) (keep_if-Evicted m)
