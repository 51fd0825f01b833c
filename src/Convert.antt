-- ===== src/Convert.antt =====
-- `CloudConvert2` of preprocess/cloud_convert/cloud_convert2.h and .cc: its members, `reset`, and the
-- two handlers of Livox messages. A result `none` is undefined behaviour: a write outside of a
-- vector, the end of an empty one, or a remainder by zero. `to_int` is the conversion of a `double`
-- to `int`, which is the argument of the model. A moved vector is left empty.
pub mod Clouds
pub mod Slices
pub mod Places
pub mod Segments
pub mod Range
pub mod Trim
pub mod Tests
use Prim.Native.Nat.{bit_and}
use mathlib.Core.Option
use adaptive_lio.Common.{
  ℕ, zero, suc, ◌+◌, ◌-◌, ◌*◌, ◌%◌, ◌^◌, Bool, true, false, not, ◌&&◌, ◌||◌, Option, none, some,
  List, [], ◌∷◌, ◌++◌, map, ltb, ◌==◌, length, take, get_elem?, if◌then◌else◌,
}
use adaptive_lio.Common.Double.{Double}
use adaptive_lio.Common.Int.{ℤ, pos, negsuc, pos_part, neg_part, ◌-ℤ◌, ltb_ℤ, leb_ℤ, eqb_ℤ}
use adaptive_lio.Imu.Axes.{Vec3}
use adaptive_lio.Imu.{all_finite}
use adaptive_lio.Point.{Point}

pub data LidarType : Type 0 where
  avia velo32 oust64 robosense16 pandar : LidarType

-- `livox_ros_driver2::msg::CustomPoint` and `CustomMsg`.
pub record CustomPoint (D : Type 0) : Type 0 where
  pub offset_time : ℕ
  pub position : Vec3 D
  pub reflectivity : ℕ
  pub tag : ℕ
  pub line : ℕ

pub record CustomMsg (D : Type 0) : Type 0 where
  pub sec : ℕ
  pub nanosec : ℕ
  pub point_num : ℕ
  pub points : List (CustomPoint D)

-- The members. `int`s are integers.
pub record CloudConvert (D : Type 0) : Type 0 where
  pub v_timestamp : List D
  pub v_cloud : List (List (Point D))
  pub point_filter_num : ℤ
  pub blind : D
  pub sweep_cut_num : ℤ
  pub delta_time : D
  pub timespan : D
  pub lidar_type : LidarType

module _ {A : Type 0} where
  -- `v_cloud[id].push_back(p)`.
  unfoldable pub push_nat : ℕ → A → List (List A) → Option (List (List A))
  push_nat n p [] = none
  push_nat zero p (c ∷ cs) = some ((c ++ p ∷ []) ∷ cs)
  push_nat (suc n) p (c ∷ cs) = Option.map (λ rest. c ∷ rest) (push_nat n p cs)

  unfoldable pub push_at : ℤ → A → List (List A) → Option (List (List A))
  unfolding push_nat
  push_at (pos n) p cs = push_nat n p cs
  push_at (negsuc n) p cs = none

  -- `v_cloud.resize(n)` of an empty vector.
  unfoldable pub replicate : ℕ → A → List A
  replicate zero a = []
  replicate (suc n) a = a ∷ replicate n a

-- `for (int i = 0; i < plsize; i++)` with a body that may fail.
unfoldable pub run_loop : {P C : Type 0} → (ℕ → P → C → Option C) → ℕ → List P → C → Option C
run_loop step i [] c = some c
run_loop step i (p ∷ ps) c = elim (step i p c) [
  | none ↦ none
  | some c' ↦ run_loop step (suc i) ps c'
]

-- `i % point_filter_num_ != 0`.
unfoldable pub skipped : ℤ → ℕ → Option Bool
skipped (pos zero) i = none
skipped (pos (suc n)) i = some (not (i % suc n == 0))
skipped (negsuc n) i = some (not (i % suc n == 0))

-- The body goes on with the next point if this one is skipped.
abbrev pub unless_skipped : {C : Type 0} → Option Bool → C → Option C → Option C
unless_skipped none c rest = none
unless_skipped (some true) c rest = some c
unless_skipped (some false) c rest = rest

-- A conversion to `int` of 32 bits, and `std::min<int>(msg->point_num, msg->points.size())`.
abbrev pub as_int : ℕ → ℤ
as_int n = let w = n % 2 ^ 32 in if ltb w (2 ^ 31) then pos w else negsuc (2 ^ 32 - w - 1)

unfoldable pub plsize : {D : Type 0} → CustomMsg D → ℤ
plsize m =
    let a = as_int m.point_num in let b = as_int (length m.points) in if ltb_ℤ b a then b else a

-- `(tag & 0x30) == 0x10 || (tag & 0x30) == 0x00`.
unfoldable pub good_tag : ℕ → Bool
good_tag tag = (bit_and tag 0x30 == 0x10) || (bit_and tag 0x30 == 0)

-- `std::clamp(id, 0, high)`.
unfoldable pub clamp_id : ℤ → ℤ → ℤ
clamp_id id high = if ltb_ℤ id (pos 0) then pos 0 else (if ltb_ℤ high id then high else id)

module _ {D : Type 0} ⦃d : Double D⦄ where
  abbrev pub of_int : ℤ → D
  of_int (pos n) = d.decimal n 0
  of_int (negsuc n) = d.neg (d.decimal (suc n) 0)

  -- `offset_time / tm_scale`, and the time of the header.
  abbrev pub seconds : ℕ → D
  seconds t = d.div (d.decimal t 0) (d.decimal (10 ^ 9) 0)

  abbrev pub header_time : ℕ → ℕ → D
  header_time sec nanosec = d.add (d.decimal sec 0) (d.mul (d.decimal nanosec 0) (d.decimal 1 9))

  -- `range > limit * limit || range < blind * blind`.
  unfoldable pub out_of_range : ℕ → D → Vec3 D → Bool
  out_of_range limit blind v =
      let range = d.add (d.add (d.mul v.x v.x) (d.mul v.y v.y)) (d.mul v.z v.z) in
      d.lt (d.decimal (limit * limit) 0) range || d.lt range (d.mul blind blind)

  -- `v_timestamp`: the end of each slice after the start.
  unfoldable pub slice_ends : ℕ → ℕ → D → List D
  slice_ends zero i delta = []
  slice_ends (suc n) i delta = d.mul (d.decimal (i + 1) 0) delta ∷ slice_ends n (suc i) delta

  abbrev pub not_a_number : D
  not_a_number = d.sub d.infinity d.infinity

  -- A `point3D` with the members that each handler writes.
  abbrev pub make_point : Vec3 D → D → D → D → D → D → ℕ → Point D
  make_point v intensity relative timestamp alpha span ring = record {
    raw_point = v;
    end_point = record { x = not_a_number; y = not_a_number; z = not_a_number };
    point = v;
    intensity = intensity;
    alpha_time = alpha;
    relative_time = relative;
    timespan = span;
    timestamp = timestamp;
    ring = ring;
    lid = 0;
  }

  unfoldable pub reset : CloudConvert D → CloudConvert D
  unfolding replicate
  reset c =
      let cut = if leb_ℤ c.sweep_cut_num (pos 0) then pos 1 else c.sweep_cut_num in
      record c {
        sweep_cut_num = cut;
        v_cloud =
            if not (length c.v_cloud == pos_part cut)
            then replicate (pos_part cut) []
            else map (λ cloud. []) c.v_cloud;
        v_timestamp = [];
      }

  module _ (to_int : D → ℤ) where
    -- The slice of a point, `static_cast<int>((offset_time / tm_scale) / delta_time)` clamped.
    abbrev pub avia_id : CloudConvert D → CustomPoint D → ℤ
    avia_id c p =
        clamp_id (to_int (d.div (seconds p.offset_time) c.delta_time)) (c.sweep_cut_num -ℤ pos 1)

    abbrev pub avia_point : CloudConvert D → D → CustomPoint D → Point D
    avia_point c header p =
        let relative = seconds p.offset_time in
        make_point p.position (d.decimal p.reflectivity 0) relative (d.add header relative)
          (d.sub (d.div relative c.delta_time) (of_int (avia_id c p))) c.delta_time p.line

    unfoldable pub avia_step :
        CloudConvert D
        → D
        → ℕ
        → CustomPoint D
        → List (List (Point D))
        → Option (List (List (Point D)))
    unfolding skipped out_of_range good_tag push_at clamp_id
    avia_step c header i p clouds =
        if not (all_finite p.position)
        then some clouds
        else (if d.lt c.timespan (seconds p.offset_time)
            then some clouds
            else unless_skipped (skipped c.point_filter_num i) clouds (
                if out_of_range 250 c.blind p.position
                then some clouds
                else (if good_tag p.tag
                    then push_at (avia_id c p) (avia_point c header p) clouds
                    else some clouds)))

    -- From the loop on.
    unfoldable pub avia_fill : CloudConvert D → CustomMsg D → Option (CloudConvert D)
    unfolding run_loop avia_step plsize
    avia_fill c m =
        Option.map (λ clouds. record c { v_cloud = clouds })
          (run_loop (avia_step c (header_time m.sec m.nanosec)) 0
            (take (pos_part (plsize m)) m.points) c.v_cloud)

    -- `last` is `points[plsize - 1]`.
    unfoldable pub avia_from :
        CloudConvert D → CustomMsg D → Option (CustomPoint D) → Option (CloudConvert D)
    unfolding avia_fill slice_ends
    avia_from c m none = none
    avia_from c m (some last) =
        let span = seconds last.offset_time in
        let delta = d.div span (of_int c.sweep_cut_num) in
        if d.le span (d.decimal 0 0)
        then some (record c { timespan = span })
        else avia_fill
            (record c {
              timespan = span;
              delta_time = delta;
              v_timestamp = slice_ends (pos_part c.sweep_cut_num) 0 delta;
            })
            m

    unfoldable pub avia_handler : CloudConvert D → CustomMsg D → Option (CloudConvert D)
    unfolding avia_from plsize
    avia_handler c m =
        if leb_ℤ (plsize m) (pos 0) || leb_ℤ c.sweep_cut_num (pos 0)
        then some c
        else avia_from c m (get_elem? m.points (pos_part (plsize m) - 1))

  -- The handler of the auxiliary LiDAR, which has one slice.
  abbrev pub aux_point : CloudConvert D → D → CustomPoint D → Point D
  aux_point c header p =
      let relative = seconds p.offset_time in
      make_point p.position (d.decimal p.reflectivity 0) relative (d.add header relative)
        (d.div relative c.timespan) c.timespan p.line

  unfoldable pub aux_step :
      CloudConvert D
      → D
      → ℕ
      → CustomPoint D
      → List (List (Point D))
      → Option (List (List (Point D)))
  unfolding skipped out_of_range good_tag push_at
  aux_step c header i p clouds = unless_skipped (skipped c.point_filter_num i) clouds (
      if not (all_finite p.position)
      then some clouds
      else (if out_of_range 250 c.blind p.position
          then some clouds
          else (if good_tag p.tag
              then push_at (pos 0) (aux_point c header p) clouds
              else some clouds)))

  unfoldable pub aux_fill : CloudConvert D → CustomMsg D → Option (CloudConvert D)
  unfolding run_loop aux_step plsize
  aux_fill c m =
      Option.map (λ clouds. record c { v_cloud = clouds })
        (run_loop (aux_step c (header_time m.sec m.nanosec)) 0 (take (pos_part (plsize m)) m.points)
          c.v_cloud)

  unfoldable pub aux_from :
      CloudConvert D → CustomMsg D → Option (CustomPoint D) → Option (CloudConvert D)
  unfolding aux_fill
  aux_from c m none = none
  aux_from c m (some last) =
      let span = seconds last.offset_time in
      if d.le span (d.decimal 0 0)
      then some (record c { timespan = span })
      else aux_fill (record c { timespan = span; v_timestamp = span ∷ [] }) m

  unfoldable pub aux_avia_handler : CloudConvert D → CustomMsg D → Option (CloudConvert D)
  unfolding aux_from plsize
  aux_avia_handler c m =
      if leb_ℤ (plsize m) (pos 0)
      then some c
      else aux_from c m (get_elem? m.points (pos_part (plsize m) - 1))
