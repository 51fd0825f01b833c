-- ===== src/Convert/Places.antt =====
-- Where `Process` of preprocess/cloud_convert/cloud_convert2.cc puts a point of a Livox message: the slot
-- of a point, and the body of the loop beside it.
use adaptive_lio.Common.{
  ℕ, zero, suc, ◌%◌, ◌<◌, ◌≡◌, refl, ap, arith, Bool, true, false, not, ◌&&◌, Option, none, some,
  List, [], ◌∷◌, map, ◌==◌, length, get_elem?, either, if◌then◌else◌,
}
use adaptive_lio.Common.Double.{Double}
use adaptive_lio.Common.Int.{ℤ, pos, negsuc, pos_part, ◌-ℤ◌, leb_ℤ}
use adaptive_lio.Imu.{all_finite}
use adaptive_lio.Point.{Point}
use adaptive_lio.Convert.{
  CustomPoint, CloudConvert, push_nat, push_at, replicate, skipped, unless_skipped, good_tag,
  clamp_id, seconds, out_of_range, reset, avia_id, avia_point, avia_step,
}
use adaptive_lio.Convert.Slices.{by_slot, Fits}

abbrev pub magnitude : ℤ → ℕ
magnitude (pos n) = n
magnitude (negsuc n) = suc n

pub skipped_lem :
    (f : ℤ) (i : ℕ) → 0 < magnitude f → skipped f i ≡ some (not (i % magnitude f == 0))
unfolding skipped
skipped_lem (pos zero) i h = absurd (omega arith)
skipped_lem (pos (suc n)) i h = refl
skipped_lem (negsuc n) i h = refl

-- The clamped number is that of a slice.
pub clamp_id_lem :
    (id z : ℤ)
    → leb_ℤ z (pos 0) ≡ false
    → (clamp_id id (z -ℤ pos 1) ≡ pos (pos_part (clamp_id id (z -ℤ pos 1))))
      × (pos_part (clamp_id id (z -ℤ pos 1)) < pos_part z)
unfolding clamp_id
clamp_id_lem id z h = ground arith

pub push_at_lem :
    {A : Type 0} (z : ℤ) (p : A) (cs : List (List A))
    → z ≡ pos (pos_part z)
    → push_at z p cs ≡ push_nat (pos_part z) p cs
unfolding push_at
push_at_lem (pos n) p cs h = refl
push_at_lem (negsuc n) p cs h = cc

module _ {A : Type 0} where
  abbrev pub no_points : List A
  no_points = []

  pub map-clear :
      (cs : List (List A)) → map (λ (c : List A). no_points) cs ≡ replicate (length cs) no_points
  unfolding replicate
  map-clear [] = refl
  map-clear (c ∷ cs) = ap (λ (r : List (List A)). no_points ∷ r) (map-clear cs)

  -- The slices of `reset`, whether they are allocated again or cleared.
  pub cleared :
      (n : ℕ) (cs : List (List A))
      → (if not (length cs == n) then replicate n no_points else map (λ (c : List A). no_points) cs)
        ≡ replicate n no_points
  cleared n cs =
      either (λ (r : List (List A)). r ≡ replicate n no_points) (not (length cs == n)) _ _
        (λ e. refl) (λ e. let same : length cs ≡ n = ground arith in rw (← same) (map-clear cs))

  abbrev pub if_kept : Bool → ℕ → A → Option (ℕ × A)
  if_kept true n x = some (n, x)
  if_kept false n x = none

  pub kept_lem : (b : Bool) (m n : ℕ) (x a : A) → if_kept b m x ≡ some (n, a) → m ≡ n
  kept_lem true m n x a h = cc
  kept_lem false m n x a h = cc

-- The tests of the loop, one after another, are their conjunction.
pub guards :
    {P A : Type 0} (slot : ℕ → P → Option (ℕ × A)) (finite late kth far good : Bool) (n : ℕ) (x : A)
    (cs : List (List A)) (k : Option (List (List A)))
    → k ≡ push_nat n x cs
    → (if not finite
        then some cs
        else (if late
            then some cs
            else unless_skipped
                (some (not kth))
                cs
                (if far then some cs else (if good then k else some cs))))
      ≡ by_slot slot (if_kept (finite && not late && kth && not far && good) n x) cs
guards slot false late kth far good n x cs k e = refl
guards slot true true kth far good n x cs k e = refl
guards slot true false false far good n x cs k e = refl
guards slot true false true true good n x cs k e = refl
guards slot true false true false false n x cs k e = refl
guards slot true false true false true n x cs k e = e

module _ {D : Type 0} ⦃d : Double D⦄ where
  -- `reset` leaves at least one slice, and all are empty, whatever they were.
  pub reset_lem :
      (c : CloudConvert D)
      → (leb_ℤ (reset c).sweep_cut_num (pos 0) ≡ false)
        × ((reset c).v_cloud ≡ replicate (pos_part (reset c).sweep_cut_num) [])
        × ((reset c).point_filter_num ≡ c.point_filter_num)
        × ((reset c).v_timestamp ≡ [])
  unfolding reset
  reset_lem c = (
    either (λ z. leb_ℤ z (pos 0) ≡ false) (leb_ℤ c.sweep_cut_num (pos 0)) _ _ (λ e. refl) (λ e. e),
    cleared _ c.v_cloud,
    refl,
    refl,
  )

  module _ (to_int : D → ℤ) (c : CloudConvert D) (header : D) where
    -- The points that are kept: the coordinates are finite, the time is not after the span, it is one
    -- of each `point_filter_num`, its range is within the bounds, and its tag is good.
    abbrev pub keeps : ℕ → CustomPoint D → Bool
    keeps i p =
        all_finite p.position
        && not (d.lt c.timespan (seconds p.offset_time))
        && (i % magnitude c.point_filter_num == 0)
        && not (out_of_range 250 c.blind p.position)
        && good_tag p.tag

    -- Where the point of index `i` goes.
    abbrev pub avia_slot : ℕ → CustomPoint D → Option (ℕ × Point D)
    avia_slot i p =
        if_kept (keeps i p) (pos_part (avia_id to_int c p)) (avia_point to_int c header p)

    pub avia_step-by_slot :
        0 < magnitude c.point_filter_num
        → leb_ℤ c.sweep_cut_num (pos 0) ≡ false
        → (i : ℕ) (p : CustomPoint D) (cs : List (List (Point D)))
        → avia_step to_int c header i p cs ≡ by_slot avia_slot (avia_slot i p) cs
    unfolding avia_step
    avia_step-by_slot filter slices i p cs =
        let id =
          clamp_id_lem (to_int (d.div (seconds p.offset_time) c.delta_time)) c.sweep_cut_num
            slices in
        rw (skipped_lem c.point_filter_num i filter) (
          guards avia_slot (all_finite p.position) (d.lt c.timespan (seconds p.offset_time))
            (i % magnitude c.point_filter_num == 0) (out_of_range 250 c.blind p.position)
            (good_tag p.tag) (pos_part (avia_id to_int c p)) (avia_point to_int c header p) cs
            (push_at (avia_id to_int c p) (avia_point to_int c header p) cs)
            (push_at_lem (avia_id to_int c p) (avia_point to_int c header p) cs id.0))

    pub avia_slot-Fits :
        leb_ℤ c.sweep_cut_num (pos 0) ≡ false → Fits avia_slot (pos_part c.sweep_cut_num)
    avia_slot-Fits slices i p n a h =
        let id =
          clamp_id_lem (to_int (d.div (seconds p.offset_time) c.delta_time)) c.sweep_cut_num
            slices in
        omega (
          arith,
          id.1,
          kept_lem (keeps i p) (pos_part (avia_id to_int c p)) n (avia_point to_int c header p) a h,
        )

pub get_elem?-lt :
    {A : Type 0} (xs : List A) (i : ℕ) → i < length xs → (x : A) × (get_elem? xs i ≡ some x)
get_elem?-lt [] i h = absurd (omega arith)
get_elem?-lt (x ∷ xs) zero h = (x, refl)
get_elem?-lt (x ∷ xs) (suc i) h = get_elem?-lt xs i (omega arith)
