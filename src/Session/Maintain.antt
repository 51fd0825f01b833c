-- ===== src/Session/Maintain.antt =====
-- What the maintenance of the map in `poseEstimation` keeps.
use adaptive_lio.Common.{ℕ, ◌≤◌, ◌≡◌, refl, sym, subst, Bool, not, List, [], ◌∷◌, either, All}
use adaptive_lio.Common.Double.{Double, IsOrdered}
use adaptive_lio.Common.Int.{pos}
use adaptive_lio.Imu.Axes.{Vec3}
use adaptive_lio.Linear.{Linear}
use adaptive_lio.Filter.{get_nominal_state, get_se3}
use adaptive_lio.Point.{keep_if}
use adaptive_lio.Voxel.{VoxelHashMap, Entry, is_far, lasermap_fov_segment}
use adaptive_lio.Voxel.Spacing.{IsMap, DistinctKeys, insert_points-IsMap}
use adaptive_lio.Voxel.Eviction.{lasermap_fov_segment-keep_if}
use adaptive_lio.Session.{Session, SessionOptions, should_update_map, stride_hit, maintain}

module _ {D : Type 0} where
  keep_if-All {κ} :
      (P : Entry D → Type κ) (p : Entry D → Bool) (m : VoxelHashMap D)
      → All P m
      → All P (keep_if p m)
  keep_if-All P p [] a = tt
  keep_if-All P p (e ∷ es) (h, a) =
      either (All P) (p e) _ _ (λ k. (h, keep_if-All P p es a)) (λ k. keep_if-All P p es a)

  keep_if-DistinctKeys :
      (p : Entry D → Bool) (m : VoxelHashMap D) → DistinctKeys m → DistinctKeys (keep_if p m)
  keep_if-DistinctKeys p [] u = tt
  keep_if-DistinctKeys p (e ∷ es) (h, u) =
      either DistinctKeys (p e) _ _ (λ k. (keep_if-All _ p es h, keep_if-DistinctKeys p es u))
        (λ k. keep_if-DistinctKeys p es u)

module _ {D : Type 0} ⦃d : Double D⦄ (l : Linear D) where
  module _ (to_short : D → ℕ) (o : SessionOptions D) where
    -- The invariant of the map for the options.
    abbrev pub MapOk : VoxelHashMap D → Type 0
    MapOk m = IsMap to_short o.size_voxel_map o.max_num_points_in_voxel o.min_distance_points m

    evict-MapOk :
        (location : Vec3 D) (m : VoxelHashMap D)
        → MapOk m
        → MapOk (lasermap_fov_segment o.max_distance location m)
    evict-MapOk location m (i, u) =
        let keep = λ (e : Entry D). not (is_far o.max_distance location e.block) in
        subst MapOk (sym (lasermap_fov_segment-keep_if o.max_distance location m u))
          (keep_if-All _ keep m i, keep_if-DistinctKeys keep m u)

    -- What the maintenance of the map changes, and what it does not.
    pub record IsMaintained (s n : Session l) : Type 0 where
      pub map_ok : MapOk n.voxel_map
      pub filter_kept : n.filter ≡ s.filter
      pub sequence_kept : n.sequence ≡ s.sequence
      pub submitted_kept : n.submitted ≡ s.submitted
      pub accepted_kept : n.last_accepted ≡ s.last_accepted

    pub maintain-IsMaintained :
        (laws : IsOrdered D) (points : List (Vec3 D)) (s : Session l)
        → 1 ≤ o.max_num_points_in_voxel
        → MapOk s.voxel_map
        → IsMaintained s (maintain l to_short o points s)
    unfolding maintain
    maintain-IsMaintained laws points s room i =
        let pose = get_se3 l (get_nominal_state l s.filter) in
        let longer =
          insert_points-IsMap to_short o.size_voxel_map o.max_num_points_in_voxel
            o.min_distance_points laws (pos 0) points s.voxel_map room i in
        either (IsMaintained s) (should_update_map l o pose s.index_frame s.last_maintenance) _ _
          (λ e. record {
            map_ok =
                either MapOk (stride_hit l o s.index_frame) _ _
                  (λ h. evict-MapOk (l.to_vec3 pose.translation) _ longer) (λ h. longer);
            filter_kept = refl;
            sequence_kept = refl;
            submitted_kept = refl;
            accepted_kept = refl;
          })
          (λ e. record {
            map_ok = i;
            filter_kept = refl;
            sequence_kept = refl;
            submitted_kept = refl;
            accepted_kept = refl;
          })
