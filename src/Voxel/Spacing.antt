-- ===== src/Voxel/Spacing.antt =====
-- What `addPointToMap` keeps of the map: capacity, spacing and the place of each point.
use adaptive_lio.Common.{
  ℕ, ◌≤◌, ◌≡◌, refl, sym, ◌∙◌, ap, subst, true, false, inl, inr, Option, none, some, List, [], ◌∷◌,
  ◌++◌, arith, either, length, length-append, All, All-append, Bool-cases, if◌then◌else◌,
}
use adaptive_lio.Common.Double.{Double, IsOrdered}
use adaptive_lio.Common.Int.{ℤ, pos, leb_ℤ}
use adaptive_lio.Imu.Axes.{Vec3}
use adaptive_lio.Voxel.{
  Voxel, VoxelBlock, Entry, VoxelHashMap, same_voxel, add_point, find, set_value, squared_distance,
  closest, takes, coordinates, put_point, add_point_to_map, insert_points,
}

pub same_voxel-eq : (v w : Voxel) → same_voxel v w ≡ true → v ≡ w
unfolding same_voxel
same_voxel-eq v w h =
    ap (λ x. record { x = x; y = v.y; z = v.z }) (ground arith)
    ∙ ap (λ y. record { x = w.x; y = y; z = v.z }) (ground arith)
    ∙ ap (λ z. record { x = w.x; y = w.y; z = z }) (ground arith)

pub same_voxel_refl : (v : Voxel) → same_voxel v v ≡ true
unfolding same_voxel
same_voxel_refl v = ground arith

pub same_voxel_symm : (v w : Voxel) → same_voxel v w ≡ false → same_voxel w v ≡ false
same_voxel_symm v w h = elim (Bool-cases (same_voxel w v)) [
  | inl s ↦
      cc (subst (λ x. same_voxel v x ≡ true) (sym (same_voxel-eq w v s)) (same_voxel_refl v), h)
  | inr s ↦ s
]

module _ {D : Type 0} where
  -- A key that is not found is not the first one, and is not found behind it.
  pub find-absent :
      (v : Voxel) (e : Entry D) (es : VoxelHashMap D)
      → find v (e ∷ es) ≡ none
      → (same_voxel v e.key ≡ false) × (find v es ≡ none)
  unfolding find
  find-absent v e es =
      either (λ o. o ≡ none → (same_voxel v e.key ≡ false) × (find v es ≡ none))
        (same_voxel v e.key) (some e.block) (find v es) (λ s f. ground arith) (λ s f. (s, f))

  -- No two entries have the same key.
  abbrev pub DistinctKeys : VoxelHashMap D → Type 0
  DistinctKeys [] = Unit
  DistinctKeys (e ∷ es) = All (λ f. same_voxel e.key f.key ≡ false) es × DistinctKeys es

  -- What holds of every key and block.
  abbrev pub Each : (Voxel → VoxelBlock D → Type 0) → VoxelHashMap D → Type 0
  Each Q m = All (λ e. Q e.key e.block) m

  find-Each :
      (Q : Voxel → VoxelBlock D → Type 0) (v : Voxel) (m : VoxelHashMap D) (b : VoxelBlock D)
      → Each Q m
      → find v m ≡ some b
      → Q v b
  unfolding find
  find-Each Q v [] b a = λ h. ground arith
  find-Each Q v (e ∷ es) b (q, a) =
      either (λ (o : Option (VoxelBlock D)). o ≡ some b → Q v b) (same_voxel v e.key) _ _
        (λ s h.
          subst (λ k. Q k b) (sym (same_voxel-eq v e.key s))
            (subst (Q e.key) (ap (λ o. elim o [ none ↦ e.block | some x ↦ x ]) h) q))
        (λ s. find-Each Q v es b a)

  set_value-Each :
      (Q : Voxel → VoxelBlock D → Type 0) (v : Voxel) (b : VoxelBlock D) (m : VoxelHashMap D)
      → Each Q m
      → Q v b
      → Each Q (set_value v b m)
  unfolding set_value
  set_value-Each Q v b [] a h = tt
  set_value-Each Q v b (e ∷ es) (q, a) h =
      either (Each Q) (same_voxel v e.key) _ _
        (λ s. (subst (λ k. Q k b) (same_voxel-eq v e.key s) h, a))
        (λ s. (q, set_value-Each Q v b es a h))

module _ {D : Type 0} ⦃d : Double D⦄ where
  -- The points of a block keep the distance from one another: no later one is within it.
  abbrev pub Spaced : D → List (Vec3 D) → Type 0
  Spaced min_distance [] = Unit
  Spaced min_distance (p ∷ ps) =
      All (λ q. d.le (squared_distance p q) (d.mul min_distance min_distance) ≡ false) ps
      × Spaced min_distance ps

  not_within :
      (laws : IsOrdered D) (sq best low : D)
      → d.lt sq best ≡ false
      → d.lt low best ≡ true
      → d.le sq low ≡ false
  not_within laws sq best low e b = elim (Bool-cases (d.le sq low)) [
    | inl h ↦ cc (laws.lt_of_le_of_lt sq low best h b, e)
    | inr h ↦ h
  ]

  closest-below :
      (laws : IsOrdered D) (point : Vec3 D) (ps : List (Vec3 D)) (best low : D)
      → d.lt low (closest point ps best) ≡ true
      → (d.lt low best ≡ true) × All (λ p. d.le (squared_distance p point) low ≡ false) ps
  unfolding closest
  closest-below laws point [] best low h = (h, tt)
  closest-below laws point (p ∷ ps) best low h =
      let sq = squared_distance p point in
      let (below, far) = closest-below laws point ps (if d.lt sq best then sq else best) low h in
      let (first, kept) =
        either (λ m. d.lt low m ≡ true → (d.lt low best ≡ true) × (d.le sq low ≡ false))
          (d.lt sq best) sq best
          (λ e b. (laws.lt_trans low sq best b e, laws.not_le_of_lt low sq b))
          (λ e b. (b, not_within laws sq best low e b)) below in
      (first, (kept, far))

  Spaced-push :
      (min_distance : D) (ps : List (Vec3 D)) (point : Vec3 D)
      → Spaced min_distance ps
      → All (λ p. d.le (squared_distance p point) (d.mul min_distance min_distance) ≡ false) ps
      → Spaced min_distance (ps ++ (point ∷ []))
  Spaced-push min_distance [] point s a = (tt, tt)
  Spaced-push min_distance (p ∷ ps) point (sp, s) (h, a) =
      (All-append _ ps (point ∷ []) sp (h, tt), Spaced-push min_distance ps point s a)

  module _ (to_short : D → ℕ) (size : D) (max_points : ℕ) (min_distance : D) where
    -- A block under its key: it is not empty and within its capacity, its points keep the distance
    -- from one another, and each is in the voxel of the key.
    pub record IsBlock (v : Voxel) (b : VoxelBlock D) : Type 0 where
      pub capacity : b.num_points ≡ max_points
      pub bounded : length b.points ≤ max_points
      pub filled : 1 ≤ length b.points
      pub spaced : Spaced min_distance b.points
      pub placed : All (λ p. coordinates to_short p size ≡ v) b.points

    abbrev pub IsMap : VoxelHashMap D → Type 0
    IsMap m = Each IsBlock m × DistinctKeys m

    add_point-IsBlock :
        (laws : IsOrdered D) (min_num_points : ℤ) (v : Voxel) (b : VoxelBlock D) (point : Vec3 D)
        → takes size min_distance min_num_points point b ≡ true
        → coordinates to_short point size ≡ v
        → IsBlock v b
        → IsBlock v (add_point point b)
    unfolding takes
    add_point-IsBlock laws min_num_points v b point t c i =
        let (_, far) =
          closest-below laws point b.points (d.mul (d.mul (d.decimal 10 0) size) size)
            (d.mul min_distance min_distance) (ground arith) in
        record {
          capacity = i.capacity;
          bounded =
              rw (length-append b.points (point ∷ [])) (ground (arith, i.capacity, i.bounded));
          filled = rw (length-append b.points (point ∷ [])) (ground arith);
          spaced = Spaced-push min_distance b.points point i.spaced far;
          placed = All-append _ b.points (point ∷ []) i.placed (c, tt);
        }

    set_value-All :
        (k : Voxel) (v : Voxel) (b : VoxelBlock D) (m : VoxelHashMap D)
        → All (λ f. same_voxel k f.key ≡ false) m
        → All (λ f. same_voxel k f.key ≡ false) (set_value v b m)
    unfolding set_value
    set_value-All k v b [] a = tt
    set_value-All k v b (e ∷ es) (h, a) =
        either (All (λ f. same_voxel k f.key ≡ false)) (same_voxel v e.key) _ _ (λ s. (h, a))
          (λ s. (h, set_value-All k v b es a))

    set_value-DistinctKeys :
        (v : Voxel) (b : VoxelBlock D) (m : VoxelHashMap D)
        → DistinctKeys m
        → DistinctKeys (set_value v b m)
    unfolding set_value
    set_value-DistinctKeys v b [] a = tt
    set_value-DistinctKeys v b (e ∷ es) (h, a) =
        either DistinctKeys (same_voxel v e.key) _ _ (λ s. (h, a))
          (λ s. (set_value-All e.key v b es h, set_value-DistinctKeys v b es a))

    push-DistinctKeys :
        (v : Voxel) (b : VoxelBlock D) (m : VoxelHashMap D)
        → find v m ≡ none
        → DistinctKeys m
        → DistinctKeys (m ++ (record { key = v; block = b } ∷ []))
    unfolding find
    push-DistinctKeys v b [] f a = (tt, tt)
    push-DistinctKeys v b (e ∷ es) f (h, a) =
        let (other, absent) = find-absent v e es f in
        (All-append _ es _ h (same_voxel_symm v e.key other, tt), push-DistinctKeys v b es absent a)

    put_point-IsMap :
        (laws : IsOrdered D) (min_num_points : ℤ) (v : Voxel) (point : Vec3 D)
        (o : Option (VoxelBlock D)) (m : VoxelHashMap D)
        → 1 ≤ max_points
        → find v m ≡ o
        → coordinates to_short point size ≡ v
        → IsMap m
        → IsMap (put_point to_short v point size max_points min_distance min_num_points o m)
    unfolding put_point
    put_point-IsMap laws min_num_points v point none m room f c (i, u) =
        either IsMap (leb_ℤ min_num_points (pos 0)) _ _
          (λ e. (
            All-append _ m _ i (
              record {
                capacity = refl;
                bounded = room;
                filled = ground arith;
                spaced = (tt, tt);
                placed = (c, tt);
              },
              tt,
            ),
            push-DistinctKeys v _ m f u,
          ))
          (λ e. (i, u))
    put_point-IsMap laws min_num_points v point (some b) m room f c (i, u) =
        either IsMap (takes size min_distance min_num_points point b) _ _
          (λ e. (
            set_value-Each IsBlock v (add_point point b) m i
                (add_point-IsBlock laws min_num_points v b point e c (find-Each IsBlock v m b i f)),
            set_value-DistinctKeys v (add_point point b) m u,
          ))
          (λ e. (i, u))

    -- Whatever points are inserted into a well-formed map of a positive capacity, it stays well
    -- formed: every block is filled within its capacity, its points keep the distance from one
    -- another and lie in the voxel of its key, and no voxel has two blocks.
    pub insert_points-IsMap :
        (laws : IsOrdered D) (min_num_points : ℤ) (ps : List (Vec3 D)) (m : VoxelHashMap D)
        → 1 ≤ max_points
        → IsMap m
        → IsMap (insert_points to_short ps size max_points min_distance min_num_points m)
    unfolding insert_points add_point_to_map
    insert_points-IsMap laws min_num_points [] m room i = i
    insert_points-IsMap laws min_num_points (p ∷ ps) m room i =
        insert_points-IsMap laws min_num_points ps
          (add_point_to_map to_short m p size max_points min_distance min_num_points) room
          (put_point-IsMap laws min_num_points (coordinates to_short p size) p
            (find (coordinates to_short p size) m) m room refl refl i)
