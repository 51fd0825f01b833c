-- ===== src/Sync/Tests.antt =====
-- Runs of the buffers over concrete decimals, and the theorems at such inputs.
use adaptive_lio.Common.{ℕ, ◌≡◌, ◌≤◌, refl, Option, none, some, List, [], ◌∷◌, arith, length}
use adaptive_lio.Common.Fixed.{Fixed, nan, decimal, fixed_double, Fixed-IsOrdered}
use adaptive_lio.Imu.{Imu, constant}
use adaptive_lio.Imu.Gate.Tests.{sample}
use adaptive_lio.Point.{Point, stamp_of, sort_finite_points, crop_from, crop_aux_points}
use adaptive_lio.Common.Sorting.{IsSorted, sort_by, insert_by}
use adaptive_lio.Point.Sort.{sort_finite_points_lem}
use adaptive_lio.Point.Crop.{crop_aux_points_lem}
use adaptive_lio.Sync.{
  Span, Sync, SyncOptions, MeasureGroup, start, push_aux, push_lidar, push_imu, take_imu,
  aux_action, collect_aux, measure, get_measurements,
}
use adaptive_lio.Sync.Invariant.{IsValid, start-IsValid}
use adaptive_lio.Sync.Measure.{IsMeasured, Step, Reach, get_measurements-IsMeasured, Reach-IsValid}

abbrev point_at : Fixed → Point Fixed
point_at t = record {
  raw_point = constant (decimal 1 0);
  end_point = constant nan;
  point = constant (decimal 1 0);
  intensity = decimal 0 0;
  alpha_time = decimal 0 0;
  relative_time = decimal 0 0;
  timespan = decimal 0 0;
  timestamp = t;
  ring = 0;
  lid = 0;
}

abbrev options : SyncOptions Fixed
options = record {
  delay_time = decimal 0 0;
  aux_lidar_time_offset = decimal 0 0;
  aux_lidar_sync_margin = decimal 1 2;
  min_aux_points = 1;
}

-- A span of 100 milliseconds from `t` milliseconds on.
abbrev span : ℕ → Span Fixed
span t = record { first = decimal t 3; second = decimal 1 1 }

abbrev stamps : List (Point Fixed) → List Fixed
stamps [] = []
stamps (p ∷ ps) = p.timestamp ∷ stamps ps

sorts :
    stamps
      (sort_finite_points (point_at (decimal 3 3) ∷ point_at nan ∷ point_at (decimal 1 3) ∷ []))
    ≡ decimal 1 3 ∷ decimal 3 3 ∷ []
unfolding sort_finite_points sort_by insert_by
sorts = refl

sort_finite_points_example :
    IsSorted stamp_of (sort_finite_points (point_at (decimal 3 3) ∷ point_at (decimal 1 3) ∷ []))
sort_finite_points_example =
    (sort_finite_points_lem Fixed-IsOrdered
      (point_at (decimal 3 3) ∷ point_at (decimal 1 3) ∷ [])).0

abbrev packet : List (Point Fixed)
packet = point_at (decimal 95 3) ∷ point_at (decimal 150 3) ∷ point_at (decimal 210 3) ∷ []

crop_aux_points_example :
    (crop_aux_points (decimal 1 1) (decimal 2 1) (decimal 0 0) packet 0 []).cursor ≤ length packet
crop_aux_points_example =
    (crop_aux_points_lem (decimal 1 1) (decimal 2 1) (decimal 0 0) packet 0 [] (omega arith)).4

crops :
    stamps (crop_aux_points (decimal 1 1) (decimal 2 1) (decimal 0 0) packet 0 []).out
    ≡ decimal 150 3 ∷ []
unfolding crop_aux_points crop_from
crops = refl

-- A scan at 100 ms, an auxiliary packet, and samples at 150, 200 and 210 ms.
abbrev ready : Sync Fixed
ready = push_imu (some (sample 210 (decimal 0 0))) (
    push_imu (some (sample 200 (decimal 0 0))) (
      push_imu (some (sample 150 (decimal 0 0)))
        (push_aux packet (span 90) (push_lidar packet (span 100) 7 start))))

start-IsValid_here : IsValid (start {D = Fixed})
start-IsValid_here = start-IsValid refl refl

ready-Reach : Reach options start ready
ready-Reach =
    Reach.next
      (Reach.next
        (Reach.next
          (Reach.next (Reach.next Reach.here (Step.lidar packet (span 100) 7 start))
            (Step.aux packet (span 90) _))
          (Step.imu (some (sample 150 (decimal 0 0))) _))
        (Step.imu (some (sample 200 (decimal 0 0))) _))
      (Step.imu (some (sample 210 (decimal 0 0))) _)

ready-IsValid : IsValid ready
ready-IsValid = Reach-IsValid Fixed-IsOrdered start-IsValid_here ready-Reach

-- The measurement that comes out, unfolded.
measured : Option (MeasureGroup Fixed × Sync Fixed)
unfolding start push_lidar push_aux push_imu sort_finite_points sort_by insert_by take_imu
    aux_action collect_aux crop_aux_points crop_from measure get_measurements
measured = get_measurements options ready

abbrev imu_stamps : List (Imu Fixed) → List Fixed
imu_stamps [] = []
imu_stamps (x ∷ xs) = x.timestamp ∷ imu_stamps xs

abbrev view : Option (MeasureGroup Fixed × Sync Fixed) → List (List Fixed)
view none = []
view (some (m, s)) =
    imu_stamps m.imu ∷ imu_stamps s.imu_buffer ∷ stamps m.lidar ∷ stamps m.aux_lidar ∷ []

-- Two samples and a bracket, which stays; the scan; the auxiliary points of its span.
measures :
    view measured
    ≡ (decimal 150 3 ∷ decimal 200 3 ∷ decimal 210 3 ∷ [])
      ∷ (decimal 210 3 ∷ [])
      ∷ (decimal 95 3 ∷ decimal 150 3 ∷ decimal 210 3 ∷ [])
      ∷ (decimal 150 3 ∷ [])
      ∷ []
unfolding measured
measures = refl

abbrev scan_time : Span Fixed
scan_time = span 100

get_measurements-IsMeasured_example :
    IsMeasured options ready
      (measure options ready packet scan_time 7).0
      (measure options ready packet scan_time 7).1
    × IsValid (measure options ready packet scan_time 7).1
unfolding measured
get_measurements-IsMeasured_example =
    get_measurements-IsMeasured options ready Fixed-IsOrdered ready-IsValid refl

Reach-IsValid_example : IsValid ready
Reach-IsValid_example = Reach-IsValid Fixed-IsOrdered start-IsValid_here ready-Reach
