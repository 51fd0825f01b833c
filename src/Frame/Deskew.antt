-- ===== src/Frame/Deskew.antt =====
-- What `DeskewToEndImu` of algo/point_time.h and `Undistort` of lio/lidarodom.cpp promise.
use mathlib.Core.List.{append_assoc}
use adaptive_lio.Common.{
  ◌≡◌, refl, ap, ◌∙◌, sym, ◌++◌, Bool, true, false, not, ◌||◌, inl, inr, Option, none, some, List,
  [], ◌∷◌, map, arith, either, is_empty, Option-cases,
}
use adaptive_lio.Common.Double.{Double}
use adaptive_lio.Imu.Axes.{Vec3}
use adaptive_lio.Imu.{all_finite}
use adaptive_lio.Linear.{Linear, Se3}
use adaptive_lio.Filter.{NavState}
use adaptive_lio.Point.{Point, keep_if}
use adaptive_lio.Frame.{
  Bracket, lower_bound, before_front, after_back, interpolated, pose_at, deskewed,
  deskew_to_end_imu, undistort,
}

module _ {D : Type 0} ⦃d : Double D⦄ (l : Linear D) where
  -- What holds of the value, if there is one.
  abbrev pub IfSome : {A : Type 0} → (A → Type 0) → Option A → Type 0
  IfSome P none = Unit
  IfSome P (some a) = P a

  -- `left` is the last of the states `before`, if there is one, and it is before the time.
  abbrev EndsIn : D → List (NavState l) → Option (NavState l) → Type 0
  EndsIn t before none = Unit
  EndsIn t before (some a) =
      (first : List (NavState l)) × (before ≡ first ++ a ∷ []) × (d.lt a.timestamp t ≡ true)

  -- The right state is one of the trajectory and not before the time, and the left one, if there is
  -- one, is the state just before it.
  abbrev Between : D → List (NavState l) → Option (NavState l) → Option (NavState l) → Type 0
  Between t trajectory left right =
      IfSome
        (λ (r : NavState l).
          (before : List (NavState l)) × (after : List (NavState l)) × (trajectory
            ≡ before ++ r ∷ after)
          × (d.lt r.timestamp t ≡ false)
          × EndsIn t before left)
        right

  abbrev IsBracket : D → List (NavState l) → Bracket l → Type 0
  IsBracket t trajectory b = Between t trajectory b.left b.right

  lower_bound-IsBracket :
      (t : D) (before : List (NavState l)) (left : Option (NavState l))
      (ss trajectory : List (NavState l))
      → trajectory ≡ before ++ ss
      → EndsIn t before left
      → IsBracket t trajectory (lower_bound l t left ss)
  unfolding lower_bound
  lower_bound-IsBracket t before left [] trajectory e h = tt
  lower_bound-IsBracket t before left (s ∷ ss) trajectory e h =
      either (IsBracket t trajectory) (d.lt s.timestamp t) _ _
        (λ earlier.
          lower_bound-IsBracket t (before ++ s ∷ []) (some s) ss trajectory
            (e ∙ sym (append_assoc before (s ∷ []) ss)) (before, refl, earlier))
        (λ not_earlier. (before, ss, e, not_earlier, h))

  -- The pose of the trajectory at the time: that of a state of the trajectory at just this time, or
  -- one on the way between two neighbouring states of the trajectory, the first before the time and
  -- the second not, at the share of the time between them.
  pub data IsInterpolated (t : D) (trajectory : List (NavState l)) (pose : Se3 l.Matrix l.So3)
      : Type 0 where
    at_state :
        (before : List (NavState l)) (s : NavState l) (after : List (NavState l))
        → trajectory ≡ before ++ s ∷ after
        → d.eq s.timestamp t ≡ true
        → pose ≡ record { so3 = s.rotation; translation = s.p }
        → IsInterpolated t trajectory pose
    between :
        (before : List (NavState l)) (a b : NavState l) (after : List (NavState l)) (share : D)
        → trajectory ≡ before ++ a ∷ b ∷ after
        → d.lt a.timestamp t ≡ true
        → d.lt b.timestamp t ≡ false
        → d.lt (d.decimal 0 0) (d.sub b.timestamp a.timestamp) ≡ true
        → share ≡ d.div (d.sub t a.timestamp) (d.sub b.timestamp a.timestamp)
        → pose.so3 ≡ l.slerp share a.rotation b.rotation
        → pose.translation ≡ l.add (l.scale (d.sub (d.decimal 1 0) share) a.p) (l.scale share b.p)
        → IsInterpolated t trajectory pose

  interpolated-IsInterpolated :
      (t : D) (trajectory : List (NavState l)) (left : Option (NavState l)) (b : NavState l)
      (before after : List (NavState l))
      → trajectory ≡ before ++ b ∷ after
      → EndsIn t before left
      → d.lt b.timestamp t ≡ false
      → IfSome (IsInterpolated t trajectory) (interpolated l t left b)
  unfolding interpolated
  interpolated-IsInterpolated t trajectory none b before after e ha hb = tt
  interpolated-IsInterpolated t trajectory (some a) b before after e (first, f, ha) hb =
      either (IfSome (IsInterpolated t trajectory))
        (d.lt (d.decimal 0 0) (d.sub b.timestamp a.timestamp)) _ _
        (λ apart.
          between first a b after _
            (e ∙ ap (λ v. v ++ b ∷ after) f ∙ append_assoc first (a ∷ []) (b ∷ after)) ha hb apart
            refl refl refl)
        (λ n. tt)

  pose_at-IsInterpolated :
      (t : D) (trajectory : List (NavState l)) (left right : Option (NavState l))
      → Between t trajectory left right
      → IfSome (IsInterpolated t trajectory) (pose_at l t left right)
  unfolding pose_at
  pose_at-IsInterpolated t trajectory left none h = tt
  pose_at-IsInterpolated t trajectory left (some r) (before, after, e, not_before, ends) =
      either (IfSome (IsInterpolated t trajectory)) (d.eq r.timestamp t) _ _
        (λ same. at_state before r after e same refl)
        (λ n. interpolated-IsInterpolated t trajectory left r before after e ends not_before)

  -- A deskewed point: it is finite, its time is within the trajectory, and it comes from a pose of
  -- the trajectory at this time.
  pub record IsDeskewed (raw : l.Matrix) (t : D) (trajectory : List (NavState l))
      (t_il t_wi_end : Se3 l.Matrix l.So3) (e : l.Matrix) : Type 0 where
    pub finite : l.all_finite e ≡ true
    pub not_before : before_front l t trajectory ≡ false
    pub not_after : after_back l t trajectory ≡ false
    pub pose : Se3 l.Matrix l.So3
    pub interpolated_pose : IsInterpolated t trajectory pose
    pub place : e ≡ l.se3_apply (l.se3_mul (l.se3_mul (l.se3_inverse t_wi_end) pose) t_il) raw

  deskewed-IsDeskewed :
      (raw : l.Matrix) (t : D) (trajectory : List (NavState l)) (t_il t_wi_end : Se3 l.Matrix l.So3)
      (o : Option (Se3 l.Matrix l.So3))
      → before_front l t trajectory ≡ false
      → after_back l t trajectory ≡ false
      → IfSome (IsInterpolated t trajectory) o
      → IfSome (IsDeskewed raw t trajectory t_il t_wi_end) (deskewed l raw t_il t_wi_end o)
  unfolding deskewed
  deskewed-IsDeskewed raw t trajectory t_il t_wi_end none hb ha i = tt
  deskewed-IsDeskewed raw t trajectory t_il t_wi_end (some pose) hb ha i =
      let e = l.se3_apply (l.se3_mul (l.se3_mul (l.se3_inverse t_wi_end) pose) t_il) raw in
      either (IfSome (IsDeskewed raw t trajectory t_il t_wi_end)) (not (l.all_finite e)) _ _
        (λ n. tt)
        (λ n. record {
          finite = ground arith;
          not_before = hb;
          not_after = ha;
          pose = pose;
          interpolated_pose = i;
          place = refl;
        })

  -- A point that is deskewed is finite, its time is within the trajectory, and it is moved from the
  -- pose of a state of the trajectory at just this time, or from the one interpolated between two
  -- neighbouring states of it, the first before the time and the second not, to the end of the frame:
  -- nothing is extrapolated.
  pub deskew_to_end_imu-IsDeskewed :
      (raw : Vec3 D) (t : D) (trajectory : List (NavState l)) (t_il t_wi_end : Se3 l.Matrix l.So3)
      → IfSome
          (IsDeskewed (l.of_vec3 raw) t trajectory t_il t_wi_end)
          (deskew_to_end_imu l raw t trajectory t_il t_wi_end)
  unfolding deskew_to_end_imu
  deskew_to_end_imu-IsDeskewed raw t trajectory t_il t_wi_end =
      let b = lower_bound l t none trajectory in
      let i = lower_bound-IsBracket t [] none trajectory trajectory refl tt in
      either (IfSome (IsDeskewed (l.of_vec3 raw) t trajectory t_il t_wi_end))
        (not (all_finite raw)
          || not (d.is_finite t)
          || is_empty trajectory
          || before_front l t trajectory
          || after_back l t trajectory
          || not (l.se3_finite t_il)
          || not (l.se3_finite t_wi_end))
        _ _ (λ e. tt)
        (λ e.
          deskewed-IsDeskewed (l.of_vec3 raw) t trajectory t_il t_wi_end
            (pose_at l t b.left b.right) (ground arith) (ground arith)
            (pose_at-IsInterpolated t trajectory b.left b.right i))

  -- What `Undistort` may not change: the sensor's measurement and its time.
  abbrev pub sample_of : Point D → Vec3 D × D
  sample_of p = (p.raw_point, p.timestamp)

  abbrev pub is_some : {A : Type 0} → Option A → Bool
  is_some none = false
  is_some (some a) = true

  -- `Undistort` keeps exactly the points that can be deskewed, in their order, with their raw
  -- coordinates and stamps.
  pub undistort_lem :
      (trajectory : List (NavState l)) (t_il t_wi_end : Se3 l.Matrix l.So3) (ps : List (Point D))
      → map sample_of (undistort l trajectory t_il t_wi_end ps)
        ≡ map sample_of (
            keep_if
              (λ p. is_some (deskew_to_end_imu l p.raw_point p.timestamp trajectory t_il t_wi_end))
              ps)
  unfolding undistort
  undistort_lem trajectory t_il t_wi_end [] = refl
  undistort_lem trajectory t_il t_wi_end (p ∷ ps) =
      let rest = undistort_lem trajectory t_il t_wi_end ps in
      elim (Option-cases (deskew_to_end_imu l p.raw_point p.timestamp trajectory t_il t_wi_end)) [
        | inl e ↦ rw e rest
        | inr (q, e) ↦ rw e (ap (λ xs. sample_of p ∷ xs) rest)
      ]
