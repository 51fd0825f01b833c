-- ===== src/Convert/Clouds.antt =====
-- The handlers of `sensor_msgs::PointCloud2`, both `Process` and `LoadFromYAML` of
-- preprocess/cloud_convert/cloud_convert2.cc. A message holds what `pcl::fromROSMsg` gives. The order
-- in which `std::sort` leaves points of the same time is that of the message.
use mathlib.Core.Option
use adaptive_lio.Common.{
  ℕ, ◌^◌, Bool, true, false, not, ◌||◌, Option, none, some, List, [], ◌∷◌, front, back,
  if◌then◌else◌,
}
use adaptive_lio.Common.Double.{Double}
use adaptive_lio.Common.Int.{ℤ, pos, pos_part, ◌-ℤ◌, ltb_ℤ, leb_ℤ, eqb_ℤ}
use adaptive_lio.Common.Sorting.{sort_by}
use adaptive_lio.Imu.Axes.{Vec3}
use adaptive_lio.Imu.{all_finite}
use adaptive_lio.Point.{Point}
use adaptive_lio.Convert.{
  LidarType, CustomMsg, CloudConvert, push_at, run_loop, skipped, unless_skipped, of_int,
  header_time, out_of_range, slice_ends, make_point, reset, avia_handler, aux_avia_handler,
}

-- The PCL points of the LiDARs; `stamp` is the member `t`, `time` or `timestamp`.
pub record RawPoint (D : Type 0) : Type 0 where
  pub position : Vec3 D
  pub intensity : D
  pub stamp : D
  pub ring : ℕ

pub record CloudMsg (D : Type 0) : Type 0 where
  pub sec : ℕ
  pub nanosec : ℕ
  pub points : List (RawPoint D)

-- What `Process` leaves and its outputs.
pub record Processed (D : Type 0) : Type 0 where
  pub converter : CloudConvert D
  pub pcl_out : List (List (Point D))
  pub v_t : List D

-- The node `preprocess` of a file that has the four keys; the last one says whether the retired key
-- is there.
pub record Preprocess (D : Type 0) : Type 0 where
  pub lidar_type : ℤ
  pub point_filter_num : ℤ
  pub sweep_cut_num : ℤ
  pub blind : D
  pub degenerate_window_num : Bool

pub record Loaded (D : Type 0) : Type 0 where
  pub converter : CloudConvert D
  pub thrown : Bool

module _ {A : Type 0} where
  -- `while (late(points[plsize - 1])) points.pop_back();`, where the end of an empty vector is read
  -- if all are late.
  unfoldable pub pop_late : (A → Bool) → List A → Option (List A)
  pop_late late [] = none
  pop_late late (p ∷ ps) = elim (pop_late late ps) [
    | none ↦ if late p then none else some (p ∷ [])
    | some kept ↦ some (p ∷ kept)
  ]

unfoldable pub lidar_type_of : ℤ → LidarType → LidarType
lidar_type_of n old =
    if eqb_ℤ n (pos 1)
    then LidarType.avia
    else (if eqb_ℤ n (pos 2)
        then LidarType.velo32
        else (if eqb_ℤ n (pos 3)
            then LidarType.oust64
            else (if eqb_ℤ n (pos 4)
                then LidarType.robosense16
                else (if eqb_ℤ n (pos 5) then LidarType.pandar else old))))

module _ {D : Type 0} ⦃d : Double D⦄ where
  abbrev pub stamp_of : RawPoint D → D
  stamp_of p = p.stamp

  -- `timespan_`, `delta_time` and `v_timestamp`.
  unfoldable pub begin_slices : CloudConvert D → D → CloudConvert D
  unfolding slice_ends
  begin_slices c span =
      let delta = d.div span (of_int c.sweep_cut_num) in
      record c {
        timespan = span;
        delta_time = delta;
        v_timestamp = slice_ends (pos_part c.sweep_cut_num) 0 delta;
      }

  abbrev pub fill :
      (ℕ → RawPoint D → List (List (Point D)) → Option (List (List (Point D))))
      → CloudConvert D
      → List (RawPoint D)
      → Option (CloudConvert D)
  fill step c points =
      Option.map (λ clouds. record c { v_cloud = clouds }) (run_loop step 0 points c.v_cloud)

  -- The points of a tenth of a second from the first on, with the first and the last of them.
  abbrev pub first_tenth : List (RawPoint D) → Option (RawPoint D × RawPoint D × List (RawPoint D))
  first_tenth sorted = elim (front sorted) [
    | none ↦ none
    | some first ↦
        let late = λ (p : RawPoint D). d.le (d.decimal 1 1) (d.sub p.stamp first.stamp) in
        elim (pop_late late sorted) [
          | none ↦ none
          | some kept ↦ Option.map (λ (last : RawPoint D). (first, last, kept)) (back kept)
        ]
  ]

  -- `pcl_out = std::move(v_cloud); v_t = std::move(v_timestamp);`.
  abbrev pub move_out : CloudConvert D → Processed D
  move_out c = record {
    converter = record c { v_cloud = []; v_timestamp = [] };
    pcl_out = c.v_cloud;
    v_t = c.v_timestamp;
  }

  module _ (to_int : D → ℤ) where
    -- `id`, which is moved down by one if it is no slice.
    unfoldable pub slice_id : CloudConvert D → D → ℤ
    slice_id c ratio =
        let id = to_int ratio in
        if ltb_ℤ id (pos 0) || leb_ℤ c.sweep_cut_num id then id -ℤ pos 1 else id

    abbrev pub cloud_point : CloudConvert D → D → D → RawPoint D → Point D
    cloud_point c relative timestamp p =
        let ratio = d.div relative c.delta_time in
        make_point p.position p.intensity relative timestamp
          (d.sub ratio (of_int (slice_id c ratio))) c.delta_time p.ring

    -- From the test of the range on.
    unfoldable pub place :
        CloudConvert D → D → D → RawPoint D → List (List (Point D)) → Option (List (List (Point D)))
    unfolding out_of_range slice_id push_at
    place c relative timestamp p clouds =
        if out_of_range 150 c.blind p.position
        then some clouds
        else push_at (slice_id c (d.div relative c.delta_time)) (cloud_point c relative timestamp p)
            clouds

    -- The body with the filter of points, and that of Robosense without.
    unfoldable pub filtered_step :
        CloudConvert D
        → (RawPoint D → D)
        → (RawPoint D → D)
        → ℕ
        → RawPoint D
        → List (List (Point D))
        → Option (List (List (Point D)))
    unfolding skipped place
    filtered_step c relative timestamp i p clouds =
        if not (all_finite p.position)
        then some clouds
        else unless_skipped (skipped c.point_filter_num i) clouds
            (place c (relative p) (timestamp p) p clouds)

    unfoldable pub robosense_step :
        CloudConvert D
        → (RawPoint D → D)
        → (RawPoint D → D)
        → ℕ
        → RawPoint D
        → List (List (Point D))
        → Option (List (List (Point D)))
    unfolding place
    robosense_step c relative timestamp i p clouds =
        if not (all_finite p.position)
        then some clouds
        else place c (relative p) (timestamp p) p clouds

    -- `t` is in nanoseconds, and the last point gives the span.
    abbrev pub oust64_from :
        CloudConvert D → CloudMsg D → Option (RawPoint D) → Option (CloudConvert D)
    oust64_from c m none = none
    oust64_from c m (some last) =
        let relative = λ (p : RawPoint D). d.div p.stamp (d.decimal (10 ^ 9) 0) in
        let c' = begin_slices c (relative last) in
        let timestamp = λ (p : RawPoint D). d.add (header_time m.sec m.nanosec) (relative p) in
        fill (filtered_step c' relative timestamp) c' m.points

    unfoldable pub oust64_handler : CloudConvert D → CloudMsg D → Option (CloudConvert D)
    unfolding begin_slices filtered_step run_loop
    oust64_handler c m = oust64_from c m (back m.points)

    abbrev pub velodyne_from :
        CloudConvert D → CloudMsg D → List (RawPoint D) → Option (CloudConvert D)
    velodyne_from c m kept = elim (back kept) [
      | none ↦ none
      | some last ↦
          let relative = λ (p : RawPoint D). d.div p.stamp (d.decimal 1 0) in
          let c' = begin_slices c (relative last) in
          let timestamp = λ (p : RawPoint D). d.add (header_time m.sec m.nanosec) (relative p) in
          fill (filtered_step c' relative timestamp) c' kept
    ]

    unfoldable pub velodyne_handler : CloudConvert D → CloudMsg D → Option (CloudConvert D)
    unfolding begin_slices filtered_step run_loop pop_late sort_by
    velodyne_handler c m =
        let late = λ (p : RawPoint D). d.le (d.decimal 1 1) (d.div p.stamp (d.decimal 1 0)) in
        elim (pop_late late (sort_by stamp_of m.points)) [
          | none ↦ none
          | some kept ↦ velodyne_from c m kept
        ]

    unfoldable pub robosense_handler : CloudConvert D → CloudMsg D → Option (CloudConvert D)
    unfolding begin_slices robosense_step run_loop pop_late sort_by
    robosense_handler c m = elim (first_tenth (sort_by stamp_of m.points)) [
      | none ↦ none
      | some (first, last, kept) ↦
          let c' = begin_slices c (d.sub last.stamp first.stamp) in
          fill (robosense_step c' (λ p. d.sub p.stamp first.stamp) stamp_of) c' kept
    ]

    unfoldable pub pandar_handler : CloudConvert D → CloudMsg D → Option (CloudConvert D)
    unfolding begin_slices filtered_step run_loop pop_late sort_by
    pandar_handler c m = elim (first_tenth (sort_by stamp_of m.points)) [
      | none ↦ none
      | some (first, last, kept) ↦
          let relative = λ (p : RawPoint D). d.sub p.stamp first.stamp in
          let c' = begin_slices c (d.sub last.stamp first.stamp) in
          let timestamp = λ (p : RawPoint D). d.add (header_time m.sec m.nanosec) (relative p) in
          fill (filtered_step c' relative timestamp) c' kept
    ]

    unfoldable pub process_custom : CloudConvert D → CustomMsg D → Bool → Option (Processed D)
    unfolding reset avia_handler aux_avia_handler
    process_custom c m is_aux_lidar =
        Option.map move_out
          (if is_aux_lidar then aux_avia_handler (reset c) m else avia_handler to_int (reset c) m)

    abbrev pub handle_cloud : LidarType → CloudConvert D → CloudMsg D → Option (CloudConvert D)
    handle_cloud LidarType.oust64 c m = oust64_handler c m
    handle_cloud LidarType.velo32 c m = velodyne_handler c m
    handle_cloud LidarType.robosense16 c m = robosense_handler c m
    handle_cloud LidarType.pandar c m = pandar_handler c m
    handle_cloud LidarType.avia c m = some c

    unfoldable pub process_cloud : CloudConvert D → CloudMsg D → Option (Processed D)
    unfolding reset oust64_handler velodyne_handler robosense_handler pandar_handler
    process_cloud c m = Option.map move_out (handle_cloud c.lidar_type (reset c) m)

  unfoldable pub load_from_yaml : CloudConvert D → Preprocess D → Loaded D
  unfolding lidar_type_of
  load_from_yaml c y =
      let c' = record c {
        point_filter_num = y.point_filter_num;
        sweep_cut_num = y.sweep_cut_num;
        blind = y.blind;
      } in
      if y.degenerate_window_num then record { converter = c'; thrown = true } else record {
        converter = record c' { lidar_type = lidar_type_of y.lidar_type c.lidar_type };
        thrown = false;
      }
