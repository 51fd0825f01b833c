-- ===== src/Convert/Tests.antt =====
-- Runs of the conversion on small messages, and its theorems at those inputs.
use adaptive_lio.Common.{
  ℕ, ◌*◌, ◌^◌, ◌≡◌, refl, true, false, Option, none, some, List, [], ◌∷◌, map, arith,
}
use mathlib.Core.Option
use adaptive_lio.Common.Fixed.{Fixed, fin, decimal, fixed_double}
use adaptive_lio.Common.Int.{ℤ, pos, divide}
use adaptive_lio.Common.Sorting.{insert_by}
use adaptive_lio.Point.{Point}
use adaptive_lio.Convert.{LidarType, CustomPoint, CustomMsg, CloudConvert, reset}
use adaptive_lio.Convert.Clouds.{
  RawPoint, CloudMsg, Processed, process_custom, process_cloud, oust64_handler, load_from_yaml,
}
use adaptive_lio.Convert.Slices.{Returns}
use adaptive_lio.Convert.Segments.{IsConverted, process_custom-IsConverted}
use adaptive_lio.Convert.Range.{is_some, all_from, harmless, nanoseconds, is_some-oust64_handler}
use adaptive_lio.Convert.Clouds.{begin_slices}

abbrev to_int : Fixed → ℤ
to_int (fin a) = divide a (10 ^ 12)
to_int _ = pos 0

abbrev converter : CloudConvert Fixed
converter = record {
  v_timestamp = decimal 7 0 ∷ [];
  v_cloud = [];
  point_filter_num = pos 1;
  blind = decimal 1 1;
  sweep_cut_num = pos 2;
  delta_time = decimal 1 1;
  timespan = decimal 0 0;
  lidar_type = LidarType.oust64;
}

abbrev livox : ℕ → ℕ → CustomPoint Fixed
livox t tag = record {
  offset_time = t;
  position = record { x = decimal 1 0; y = decimal 2 0; z = decimal 2 0 };
  reflectivity = 5;
  tag = tag;
  line = 3;
}

-- A point with a bad tag, one at the end, and one behind the last point.
abbrev livox_msg : CustomMsg Fixed
livox_msg = record {
  sec = 10;
  nanosec = 0;
  point_num = 5;
  points =
      livox 0 0
      ∷ livox (40 * 10 ^ 6) 0x20
      ∷ livox (60 * 10 ^ 6) 0x10
      ∷ livox (110 * 10 ^ 6) 0
      ∷ livox (100 * 10 ^ 6) 0
      ∷ [];
}

abbrev times : List (List (Point Fixed)) → List (List Fixed)
times cs = map (λ c. map (λ (p : Point Fixed). p.relative_time) c) cs

abbrev out_times : Option (Processed Fixed) → Option (List (List Fixed))
out_times o = Option.map (λ (r : Processed Fixed). times r.pcl_out) o

slices_of_livox :
    out_times (process_custom to_int converter livox_msg false)
    ≡ some ((decimal 0 0 ∷ []) ∷ (decimal 6 2 ∷ decimal 1 1 ∷ []) ∷ [])
unfolding process_custom
slices_of_livox = refl

slice_of_aux :
    out_times (process_custom to_int converter livox_msg true)
    ≡ some ((decimal 0 0 ∷ decimal 6 2 ∷ decimal 11 2 ∷ decimal 1 1 ∷ []) ∷ [] ∷ [])
unfolding process_custom
slice_of_aux = refl

abbrev raw : Fixed → RawPoint Fixed
raw t = record {
  position = record { x = decimal 1 0; y = decimal 2 0; z = decimal 2 0 };
  intensity = decimal 5 0;
  stamp = t;
  ring = 3;
}

abbrev cloud_msg : List Fixed → CloudMsg Fixed
cloud_msg ts = record { sec = 10; nanosec = 0; points = map raw ts }

-- The last point of an organised cloud need not be the latest.
abbrev ouster_late : CloudMsg Fixed
ouster_late = cloud_msg (decimal 0 0 ∷ decimal (90 * 10 ^ 6) 0 ∷ decimal (40 * 10 ^ 6) 0 ∷ [])

ouster_out_of_range : process_cloud to_int converter ouster_late ≡ none
unfolding process_cloud
ouster_out_of_range = refl

velodyne_run :
    out_times (
      process_cloud to_int
        (record converter { lidar_type = LidarType.velo32 })
        (cloud_msg (decimal 5 2 ∷ decimal 2 1 ∷ decimal 0 0 ∷ decimal 8 2 ∷ [])))
    ≡ some ((decimal 0 0 ∷ []) ∷ (decimal 5 2 ∷ decimal 8 2 ∷ []) ∷ [])
unfolding process_cloud insert_by
velodyne_run = refl

robosense_run :
    out_times (
      process_cloud to_int
        (record converter { lidar_type = LidarType.robosense16 })
        (cloud_msg (decimal 105 2 ∷ decimal 12 1 ∷ decimal 1 0 ∷ decimal 108 2 ∷ [])))
    ≡ some ((decimal 0 0 ∷ []) ∷ (decimal 5 2 ∷ decimal 8 2 ∷ []) ∷ [])
unfolding process_cloud insert_by
robosense_run = refl

retired_key :
    (load_from_yaml converter (record {
      lidar_type = pos 5;
      point_filter_num = pos 4;
      sweep_cut_num = pos 1;
      blind = decimal 1 0;
      degenerate_window_num = true;
    })).thrown
    ≡ true
unfolding load_from_yaml
retired_key = refl

process_custom-IsConverted_example :
    Returns
      (IsConverted to_int converter livox_msg)
      (process_custom to_int converter livox_msg false)
process_custom-IsConverted_example =
    process_custom-IsConverted to_int converter livox_msg (omega arith)

is_some-oust64_handler_example :
    is_some (oust64_handler to_int (reset converter) ouster_late)
    ≡ all_from
        (harmless to_int
          (begin_slices (reset converter) (nanoseconds (raw (decimal (40 * 10 ^ 6) 0))))
          nanoseconds)
        0
        ouster_late.points
is_some-oust64_handler_example =
    is_some-oust64_handler to_int converter ouster_late (raw (decimal (40 * 10 ^ 6) 0))
      (omega arith) refl
