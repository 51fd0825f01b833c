-- ===== src/Convert/Range.antt =====
-- The slices of the handlers of `PointCloud2` in preprocess/cloud_convert/cloud_convert2.cc, and
-- `Process` from one message to the next.
use mathlib.Core.Option
use adaptive_lio.Common.{
  ℕ, zero, suc, ◌%◌, ◌^◌, ◌<◌, ◌≡◌, refl, ap, ◌∙◌, sym, subst, arith, Bool, true, false, not, ◌&&◌,
  ◌||◌, Option, none, some, List, [], ◌∷◌, ◌==◌, ltb, length, back, if◌then◌else◌,
}
use adaptive_lio.Common.Double.{Double}
use adaptive_lio.Common.Int.{ℤ, pos, negsuc, pos_part, ◌-ℤ◌, ltb_ℤ, leb_ℤ}
use adaptive_lio.Imu.{all_finite}
use adaptive_lio.Point.{Point}
use adaptive_lio.Convert.{
  CustomMsg, CloudConvert, push_nat, push_at, replicate, header_time, run_loop, unless_skipped,
  out_of_range, reset, avia_handler, aux_avia_handler,
}
use adaptive_lio.Convert.Clouds.{
  RawPoint, CloudMsg, slice_id, place, filtered_step, begin_slices, oust64_handler, oust64_from,
  cloud_point, process_custom, process_cloud, handle_cloud, move_out,
}
use adaptive_lio.Convert.Slices.{length-replicate}
use adaptive_lio.Convert.Places.{magnitude, skipped_lem, reset_lem, cleared, no_points}

abbrev pub is_some : {A : Type 0} → Option A → Bool
is_some none = false
is_some (some a) = true

module _ {A : Type 0} where
  -- A result is there exactly if `ok` says so, and keeps the number of slices.
  abbrev Within : Bool → ℕ → Option (List A) → Type 0
  Within ok size none = ok ≡ false
  Within ok size (some cs) = (ok ≡ true) × (length cs ≡ size)

  Within-is_some : (ok : Bool) (size : ℕ) (o : Option (List A)) → Within ok size o → is_some o ≡ ok
  Within-is_some ok size none h = sym h
  Within-is_some ok size (some cs) h = sym h.0

  Within-cast :
      (ok ok' : Bool) (size size' : ℕ) (o : Option (List A))
      → ok ≡ ok'
      → size ≡ size'
      → Within ok size o
      → Within ok' size' o
  Within-cast ok ok' size size' none e f h = sym e ∙ h
  Within-cast ok ok' size size' (some cs) e f h = (sym e ∙ h.0, h.1 ∙ f)

  -- The tests of the loop in front of the choice of a slice.
  guards-Within :
      (finite kth far ok : Bool) (size : ℕ) (cs : List A) (k : Option (List A))
      → length cs ≡ size
      → Within ok size k
      → Within (not finite || not kth || far || ok) size (
          if not finite
          then some cs
          else unless_skipped (some (not kth)) cs (if far then some cs else k))
  guards-Within false kth far ok size cs k e h = (refl, e)
  guards-Within true false far ok size cs k e h = (refl, e)
  guards-Within true true true ok size cs k e h = (refl, e)
  guards-Within true true false ok size cs k e h = h

module _ {A : Type 0} where
  push_nat-Within :
      (n : ℕ) (a : A) (cs : List (List A))
      → Within (ltb n (length cs)) (length cs) (push_nat n a cs)
  unfolding push_nat
  push_nat-Within n a [] = ground arith
  push_nat-Within zero a (c ∷ cs) = (ground arith, refl)
  push_nat-Within (suc n) a (c ∷ cs) = longer (push_nat n a cs) (push_nat-Within n a cs)
    where
      longer :
          (o : Option (List (List A)))
          → Within (ltb n (length cs)) (length cs) o
          → Within (ltb (suc n) (length (c ∷ cs))) (length (c ∷ cs)) (Option.map (λ r. c ∷ r) o)
      longer none h = ground arith
      longer (some r) h = ground arith

  push_at-Within :
      (z : ℤ) (a : A) (cs : List (List A))
      → Within (leb_ℤ (pos 0) z && ltb_ℤ z (pos (length cs))) (length cs) (push_at z a cs)
  unfolding push_at
  push_at-Within (pos n) a cs =
      let same : (leb_ℤ (pos 0) (pos n) && ltb_ℤ (pos n) (pos (length cs))) ≡ ltb n (length cs) =
        ground arith in
      rw same (push_nat-Within n a cs)
  push_at-Within (negsuc n) a cs = ground arith

-- Every point passes.
abbrev pub all_from : {P : Type 0} → (ℕ → P → Bool) → ℕ → List P → Bool
all_from ok i [] = true
all_from ok i (p ∷ ps) = ok i p && all_from ok (suc i) ps

module _ {P A : Type 0} (ok : ℕ → P → Bool) where
  Within-bind :
      (o : Option (List A)) (b rest : Bool) (size : ℕ) (f : List A → Option (List A))
      → Within b size o
      → ((cs : List A) → length cs ≡ size → Within rest size (f cs))
      → Within (b && rest) size (elim o [ none ↦ none | some cs ↦ f cs ])
  Within-bind none b rest size f e g = rw e refl
  Within-bind (some cs) b rest size f e g = rw e.0 (g cs e.1)

  run_loop-Within :
      (step : ℕ → P → List A → Option (List A)) (size : ℕ)
      → ((i : ℕ) (p : P) (cs : List A) → length cs ≡ size → Within (ok i p) size (step i p cs))
      → (i : ℕ) (ps : List P) (cs : List A) → length cs ≡ size
      → Within (all_from ok i ps) size (run_loop step i ps cs)
  unfolding run_loop
  run_loop-Within step size keep i [] cs h = (refl, h)
  run_loop-Within step size keep i (p ∷ ps) cs h =
      Within-bind (step i p cs) (ok i p) (all_from ok (suc i) ps) size
        (λ cs'. run_loop step (suc i) ps cs') (keep i p cs h)
        (λ cs' e. run_loop-Within step size keep (suc i) ps cs' e)

is_some-map : {A B : Type 0} (f : A → B) (o : Option A) → is_some (Option.map f o) ≡ is_some o
is_some-map f none = refl
is_some-map f (some a) = refl

-- The slice is one of those there are exactly if the number was, or was the next one.
slice_lem :
    (id z : ℤ)
    → leb_ℤ z (pos 0) ≡ false
    → (leb_ℤ (pos 0) (if ltb_ℤ id (pos 0) || leb_ℤ z id then id -ℤ pos 1 else id)
        && ltb_ℤ (if ltb_ℤ id (pos 0) || leb_ℤ z id then id -ℤ pos 1 else id) (pos (pos_part z)))
      ≡ (leb_ℤ (pos 0) id && leb_ℤ id z)
slice_lem id z h = ground arith

module _ {D : Type 0} ⦃d : Double D⦄ where
  module _ (to_int : D → ℤ) (c : CloudConvert D) (relative : RawPoint D → D) where
    -- The time of a point is that of a slice, or just behind the last.
    abbrev pub timely : RawPoint D → Bool
    timely p =
        let id = to_int (d.div (relative p) c.delta_time) in
        leb_ℤ (pos 0) id && leb_ℤ id c.sweep_cut_num

    -- A point that is dropped does not matter.
    abbrev pub harmless : ℕ → RawPoint D → Bool
    harmless i p =
        not (all_finite p.position)
        || not (i % magnitude c.point_filter_num == 0)
        || out_of_range 150 c.blind p.position
        || timely p

  module _ (to_int : D → ℤ) (c : CloudConvert D) (relative timestamp : RawPoint D → D) where
    place-Within :
        leb_ℤ c.sweep_cut_num (pos 0) ≡ false
        → (p : RawPoint D) (cs : List (List (Point D))) → length cs ≡ pos_part c.sweep_cut_num
        → Within (timely to_int c relative p) (pos_part c.sweep_cut_num) (
            push_at
              (slice_id to_int c (d.div (relative p) c.delta_time))
              (cloud_point to_int c (relative p) (timestamp p) p)
              cs)
    unfolding slice_id
    place-Within slices p cs size =
        let id = to_int (d.div (relative p) c.delta_time) in
        Within-cast _ (timely to_int c relative p) (length cs) (pos_part c.sweep_cut_num) _
          (rw size (slice_lem id c.sweep_cut_num slices)) size
          (push_at-Within (slice_id to_int c (d.div (relative p) c.delta_time))
            (cloud_point to_int c (relative p) (timestamp p) p) cs)

    filtered_step-Within :
        0 < magnitude c.point_filter_num
        → leb_ℤ c.sweep_cut_num (pos 0) ≡ false
        → (i : ℕ) (p : RawPoint D) (cs : List (List (Point D)))
        → length cs ≡ pos_part c.sweep_cut_num
        → Within
            (harmless to_int c relative i p)
            (pos_part c.sweep_cut_num)
            (filtered_step to_int c relative timestamp i p cs)
    unfolding filtered_step place
    filtered_step-Within filter slices i p cs size = rw (skipped_lem c.point_filter_num i filter) (
        guards-Within (all_finite p.position) (i % magnitude c.point_filter_num == 0)
          (out_of_range 150 c.blind p.position) (timely to_int c relative p)
          (pos_part c.sweep_cut_num) cs _ size (place-Within slices p cs size))

    -- The loop over the points.
    pub run_filtered :
        0 < magnitude c.point_filter_num
        → leb_ℤ c.sweep_cut_num (pos 0) ≡ false
        → (ps : List (RawPoint D)) (cs : List (List (Point D)))
        → length cs ≡ pos_part c.sweep_cut_num
        → is_some (run_loop (filtered_step to_int c relative timestamp) 0 ps cs)
          ≡ all_from (harmless to_int c relative) 0 ps
    run_filtered filter slices ps cs size = Within-is_some _ (pos_part c.sweep_cut_num) _ (
        run_loop-Within (harmless to_int c relative) (filtered_step to_int c relative timestamp)
          (pos_part c.sweep_cut_num) (filtered_step-Within filter slices) 0 ps cs size)

  abbrev pub nanoseconds : RawPoint D → D
  nanoseconds p = d.div p.stamp (d.decimal (10 ^ 9) 0)

  module _ (to_int : D → ℤ) (c : CloudConvert D) (m : CloudMsg D) (last : RawPoint D) where
    -- For a message with points and a filter that is not zero, the handler of the Ouster LiDAR stays
    -- inside of its slices exactly if every point that it does not drop, for a coordinate that is not
    -- finite, by the filter or for its range, has the number of a slice or the next one.
    pub is_some-oust64_handler :
        0 < magnitude c.point_filter_num
        → back m.points ≡ some last
        → is_some (oust64_handler to_int (reset c) m)
          ≡ all_from
              (harmless to_int (begin_slices (reset c) (nanoseconds last)) nanoseconds)
              0
              m.points
    unfolding oust64_handler begin_slices
    is_some-oust64_handler filter e =
        let (some_slice, fresh, same, untimed) = reset_lem c in
        let c' = begin_slices (reset c) (nanoseconds last) in
        let timestamp = λ (p : RawPoint D). d.add (header_time m.sec m.nanosec) (nanoseconds p) in
        let size : length (reset c).v_cloud ≡ pos_part (reset c).sweep_cut_num =
          ap (λ (cs : List (List (Point D))). length cs) fresh ∙ length-replicate _ [] in
        ap (λ o. is_some (oust64_from to_int (reset c) m o)) e
        ∙ is_some-map (λ clouds. record c' { v_cloud = clouds }) _
        ∙ run_filtered to_int c' nanoseconds timestamp
            (subst (λ z. 0 < magnitude z) (sym same) filter) some_slice m.points (reset c).v_cloud
            size

  reset_eq :
      (c : CloudConvert D)
      → reset c ≡ record c {
        sweep_cut_num = (reset c).sweep_cut_num;
        v_cloud = replicate (pos_part (reset c).sweep_cut_num) no_points;
        v_timestamp = [];
      }
  unfolding reset
  reset_eq c =
      ap
        (λ (v : List (List (Point D))). record c {
          sweep_cut_num = (reset c).sweep_cut_num;
          v_cloud = v;
          v_timestamp = [];
        })
        (cleared (pos_part (reset c).sweep_cut_num) c.v_cloud)

  reset-forgets :
      (c : CloudConvert D) (clouds : List (List (Point D))) (times : List D)
      → reset (record c { v_cloud = clouds; v_timestamp = times }) ≡ reset c
  unfolding reset
  reset-forgets c clouds times =
      reset_eq (record c { v_cloud = clouds; v_timestamp = times }) ∙ sym (reset_eq c)

  -- `Process` depends on the options, the span and the message only: what the vectors hold when it is
  -- called, such as the slices of the last message or what a move left there, changes nothing.
  pub process-forgets :
      (to_int : D → ℤ) (c : CloudConvert D) (clouds : List (List (Point D))) (times : List D)
      (custom : CustomMsg D) (is_aux : Bool) (m : CloudMsg D)
      → (process_custom to_int (record c { v_cloud = clouds; v_timestamp = times }) custom is_aux
          ≡ process_custom to_int c custom is_aux)
        × (process_cloud to_int (record c { v_cloud = clouds; v_timestamp = times }) m
            ≡ process_cloud to_int c m)
  unfolding process_custom process_cloud
  process-forgets to_int c clouds times custom is_aux m =
      let same = reset-forgets c clouds times in
      (
        ap
            (λ (r : CloudConvert D).
              Option.map move_out
                (if is_aux then aux_avia_handler r custom else avia_handler to_int r custom))
            same,
        ap (λ (r : CloudConvert D). Option.map move_out (handle_cloud to_int c.lidar_type r m))
            same,
      )
