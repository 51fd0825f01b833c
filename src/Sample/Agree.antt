-- ===== src/Sample/Agree.antt =====
-- `grid_sampling` beside `sub_sample_frame` of common/utility.cpp.
use mathlib.Core.List.{Perm, append_assoc}
use mathlib.Core.List.Perm
use adaptive_lio.Common.{
  ℕ, suc, ◌≡◌, refl, ap, ◌∙◌, sym, subst, arith, Bool, true, false, ◌||◌, some, List, [], ◌∷◌, ◌++◌,
  map, length, length-append, get_elem?, if◌then◌else◌,
}
use adaptive_lio.Common.Double.{Double}
use adaptive_lio.Point.{Point}
use adaptive_lio.Voxel.{Voxel, same_voxel}
use adaptive_lio.Sample.{
  Grid, is_there, put_first, voxel_of, fill_grid, sub_sample_frame, fill_selected, grid_sampling,
}

-- `order` is a walk through a map.
unfoldable pub IsWalk : {V : Type 0} → (Grid V → Grid V) → Type 0
IsWalk {V = V} order = (grid : Grid V) → Perm (order grid) grid

pub get-middle :
    {A : Type 0} (xs : List A) (x : A) (ys : List A) → get_elem? (xs ++ x ∷ ys) (length xs) ≡ some x
get-middle [] x ys = refl
get-middle (y ∷ xs) x ys = get-middle xs x ys

module _ {D : Type 0} ⦃d : Double D⦄ (to_short : D → ℕ) (size_voxel : D)
    (frame : List (Point D)) where
  -- The two maps have the same keys, and the indices of the one lead to the points of the other.
  data Matches : Grid (Point D) → Grid ℕ → Type 0 where
    none_yet : Matches [] []
    one_more :
        {v : Voxel} {p : Point D} {i : ℕ} {g : Grid (Point D)} {s : Grid ℕ}
        → get_elem? frame i ≡ some p
        → Matches g s
        → Matches ((v, p) ∷ g) ((v, i) ∷ s)

  Matches-there :
      {g : Grid (Point D)} {s : Grid ℕ} (v : Voxel) → Matches g s → is_there v g ≡ is_there v s
  unfolding is_there
  Matches-there v none_yet = refl
  Matches-there v (one_more {v = w} e m) = ap (λ b. same_voxel v w || b) (Matches-there v m)

  Matches-append :
      {g : Grid (Point D)} {s : Grid ℕ} (v : Voxel) (p : Point D) (i : ℕ)
      → get_elem? frame i ≡ some p
      → Matches g s
      → Matches (g ++ (v, p) ∷ []) (s ++ (v, i) ∷ [])
  Matches-append v p i h none_yet = one_more h none_yet
  Matches-append v p i h (one_more e m) = one_more e (Matches-append v p i h m)

  Matches-branch :
      {g g' : Grid (Point D)} {s s' : Grid ℕ} (b c : Bool)
      → b ≡ c
      → Matches g s
      → Matches g' s'
      → Matches (if b then g else g') (if c then s else s')
  Matches-branch true true e m n = m
  Matches-branch true false e m n = cc
  Matches-branch false true e m n = cc
  Matches-branch false false e m n = n

  fill-Matches :
      (pre ps : List (Point D)) (g : Grid (Point D)) (s : Grid ℕ)
      → frame ≡ pre ++ ps
      → Matches g s
      → Matches
          (fill_grid to_short size_voxel ps g)
          (fill_selected to_short size_voxel (length pre) ps s)
  unfolding fill_grid fill_selected put_first
  fill-Matches pre [] g s e m = m
  fill-Matches pre (p ∷ ps) g s e m =
      let v = voxel_of to_short size_voxel p in
      let here : get_elem? frame (length pre) ≡ some p =
        ap (λ f. get_elem? f (length pre)) e ∙ get-middle pre p ps in
      let next : length (pre ++ p ∷ []) ≡ suc (length pre) =
        omega (arith, length-append pre (p ∷ [])) in
      let g' = put_first v p g in
      let s' = put_first v (length pre) s in
      subst
        (λ n.
          Matches (fill_grid to_short size_voxel ps g') (fill_selected to_short size_voxel n ps s'))
        next
        (fill-Matches (pre ++ p ∷ []) ps g' s' (e ∙ sym (append_assoc pre (p ∷ []) ps)) (
          Matches-branch (is_there v g) (is_there v s) (Matches-there v m) m
            (Matches-append v p (length pre) here m)))

  Matches-values :
      {g : Grid (Point D)} {s : Grid ℕ}
      → Matches g s
      → map (λ e. get_elem? frame e.1) s ≡ map some (map (λ e. e.1) g)
  Matches-values none_yet = refl
  Matches-values (one_more {p = p} {g = g} {s = s} e m) =
      ap (λ o. o ∷ map (λ e'. get_elem? frame e'.1) s) e ∙ ap (λ r. some p ∷ r) (Matches-values m)

  values-Perm :
      (walk : Grid (Point D) → Grid (Point D)) (walk' : Grid ℕ → Grid ℕ)
      → IsWalk walk
      → IsWalk walk'
      → Perm
          (map (λ e. get_elem? frame e.1) (walk' (fill_selected to_short size_voxel 0 frame [])))
          (map some (sub_sample_frame to_short size_voxel walk frame))
  unfolding IsWalk sub_sample_frame
  values-Perm walk walk' w w' =
      let g = fill_grid to_short size_voxel frame [] in
      let s = fill_selected to_short size_voxel 0 frame [] in
      Perm.trans (Perm.map (λ e. get_elem? frame e.1) (w' s)) (
        Perm.symm (
          subst (Perm (map some (map (λ e. e.1) (walk g))))
            (sym (Matches-values (fill-Matches [] frame [] [] refl none_yet)))
            (Perm.map some (Perm.map (λ e. e.1) (w g)))))

-- In whatever order the two hash maps are walked through, `grid_sampling` gives the points that
-- `sub_sample_frame` leaves, each as often, in another order at most; in particular no index of
-- a key point is out of range.
pub grid_sampling-Perm :
    {D : Type 0} ⦃d : Double D⦄ (to_short : D → ℕ) (size_voxel : D) (frame : List (Point D))
    (walk : Grid (Point D) → Grid (Point D)) (walk' : Grid ℕ → Grid ℕ)
    → IsWalk walk
    → IsWalk walk'
    → Perm
        (grid_sampling to_short size_voxel walk' frame)
        (map some (sub_sample_frame to_short size_voxel walk frame))
unfolding grid_sampling sub_sample_frame fill_grid IsWalk
grid_sampling-Perm to_short size_voxel [] walk walk' w w' =
    Perm.symm (Perm.map some (Perm.map (λ e. e.1) (w [])))
grid_sampling-Perm to_short size_voxel (p ∷ ps) walk walk' w w' =
    values-Perm to_short size_voxel (p ∷ ps) walk walk' w w'
