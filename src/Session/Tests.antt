-- ===== src/Session/Tests.antt =====
-- A seed frame and a refused one, and the theorems at such inputs.
use adaptive_lio.Common.{◌≡◌, refl, true, false, none, some, [], arith}
use adaptive_lio.Common.Fixed.{Fixed, decimal, fixed_double, Fixed-IsOrdered}
use adaptive_lio.Imu.{constant}
use adaptive_lio.Linear.{scalar_linear}
use adaptive_lio.Filter.{valid_snapshot, snapshot_finite, is_rotation, is_semidefinite}
use adaptive_lio.Filter.Tests.{fresh_filter, origin}
use adaptive_lio.Frame.Tests.{samples, rest, scan, still}
use adaptive_lio.Match.{
  MatchLimits, MatchQuality, accept_match, bad_cost, too_far, judge_covariance, judge_innovation,
  judge_score,
}
use adaptive_lio.Match.Accept.{IsMatch, accept_match_lem}
use adaptive_lio.Filter.Steps.{validate_observation_covariance}
use adaptive_lio.Filter.Tests.{fresh_snapshot}
use adaptive_lio.Voxel.Tests.{to_short}
use adaptive_lio.Session.{Session, SessionOptions, Solution, correct, commit, process_measurements}
use adaptive_lio.Session.Commit.{IsProcessed, process_measurements-IsProcessed, commit-correct}

abbrev pub limits : MatchLimits Fixed
limits = record {
  minimum_support = 2;
  max_score = decimal 10 0;
  max_translation = decimal 2 0;
  max_rotation = decimal 1 0;
}

abbrev pub quality : MatchQuality Fixed
quality = record {
  usable = true;
  residuals = 5;
  initial_cost = decimal 2 0;
  final_cost = decimal 1 0;
}

accept_match_lem_example : IsMatch scalar_linear quality limits fresh_snapshot origin (decimal 1 0)
unfolding accept_match bad_cost too_far judge_covariance judge_innovation judge_score
    validate_observation_covariance valid_snapshot snapshot_finite is_rotation is_semidefinite
accept_match_lem_example =
    (accept_match_lem scalar_linear quality limits fresh_snapshot origin (decimal 1 0)).0.0 refl

abbrev pub options : SessionOptions Fixed
options = record {
  limits = limits;
  size_voxel_map = decimal 1 0;
  max_num_points_in_voxel = 20;
  min_distance_points = decimal 1 1;
  max_distance = decimal 100 0;
  init_num_frames = 20;
  map_update_translation_trigger = decimal 1 1;
  map_update_rotation_trigger = decimal 1 1;
  map_update_max_skip_frames = 5;
  fov_segment_stride = 4;
}

abbrev pub unsolved : Solution scalar_linear
unsolved = record {
  optimized = false;
  candidate = origin;
  quality = quality;
  covariance = decimal 1 0;
}

abbrev pub beginning : Session scalar_linear
beginning = record {
  filter = fresh_filter;
  last_imu = some rest;
  voxel_map = [];
  last_maintenance = none;
  sequence = 0;
  last_accepted = decimal 0 0;
  gyro_variance = constant (decimal 1 5);
  index_frame = 1;
  prediction_fault = false;
  stopping = false;
  fault_calls = 0;
  submitted = [];
}

process_measurements-IsProcessed_example :
    IsProcessed scalar_linear to_short options (decimal 25 3) beginning (
      process_measurements scalar_linear to_short options
        (decimal 25 3)
        still
        scan
        samples
        unsolved
        beginning)
process_measurements-IsProcessed_example =
    process_measurements-IsProcessed scalar_linear to_short options Fixed-IsOrdered (decimal 25 3)
      still scan samples unsolved beginning (ground arith) (tt, tt)

-- An empty scan is not enough to seed the map.
commit-correct_example :
    ((commit scalar_linear to_short options
        (decimal 25 3)
        []
        (correct scalar_linear options unsolved 0 beginning)
        beginning).filter
      ≡ fresh_filter)
    × ((commit scalar_linear to_short options
          (decimal 25 3)
          []
          (correct scalar_linear options unsolved 0 beginning)
          beginning).voxel_map
        ≡ [])
    × ((commit scalar_linear to_short options
          (decimal 25 3)
          []
          (correct scalar_linear options unsolved 0 beginning)
          beginning).last_accepted
        ≡ decimal 0 0)
unfolding correct valid_snapshot snapshot_finite is_rotation is_semidefinite
commit-correct_example =
    commit-correct scalar_linear to_short options (decimal 25 3) [] unsolved beginning refl
