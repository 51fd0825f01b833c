-- ===== src/Mapping/Tests.antt =====
-- Runs of `MappingCore` and of the cache, and their theorems at those inputs.
use adaptive_lio.Common.{ℕ, ◌≡◌, ◌≢◌, refl, true, false, List, [], ◌∷◌, map, arith, length}
use adaptive_lio.Common.Fixed.{Fixed, fin, decimal, fixed_double}
use adaptive_lio.Common.Int.{pos}
use adaptive_lio.Linear.{scalar_linear}
use adaptive_lio.Scan.{Descriptor}
use adaptive_lio.Scan.Tests.{lib, params, scan}
use adaptive_lio.Mapping.{
  MappingCore, KeyFrame, Added, add_frame_with_sc, save_map_async, save_database,
}
use adaptive_lio.Mapping.Cache.{
  Cached, write_binary, write_descriptor_cache, compute_descriptor_checksum,
}
use adaptive_lio.Mapping.Detect.{checksum-detects}
use adaptive_lio.Mapping.Frames.{IsMapping, Step, Reach, Reach-IsMapping}

abbrev empty_core : MappingCore scalar_linear
empty_core = record {
  config = record {
    enable_mapping = true;
    keyframe_dist_thresh = decimal 1 0;
    keyframe_angle_thresh = decimal 2 1;
    map_save_path = "/tmp/map.pcd";
    auto_save_interval = decimal 3 0;
  };
  scan_context = params;
  keyframes = [];
  last_keyframe_pose = record { so3 = tt; translation = decimal 0 0 };
  accumulated_dist_since_save = decimal 0 0;
  saving = false;
  global_map = [];
  db_initialized = false;
  frame_index = 7;
  files = [];
  save_threads = 0;
}

abbrev empty_descriptor : Descriptor Fixed
empty_descriptor = record { rows = 0; columns = [] }

abbrev no_turn : Unit {0} → Fixed
no_turn r = decimal 0 0

-- A frame at a distance from the origin.
abbrev drive : ℕ → MappingCore scalar_linear → MappingCore scalar_linear
drive x s =
    (add_frame_with_sc scalar_linear no_turn lib true scan
      (record { so3 = tt; translation = decimal x 0 }) (decimal x 0) empty_descriptor [] s).0

abbrev indices : MappingCore scalar_linear → List ℕ
indices s = map (λ (kf : KeyFrame scalar_linear). kf.index) s.keyframes

-- The second frame is too near to be a key frame; the third one asks for a save.
three_frames : indices (drive 5 (drive 1 (drive 1 empty_core))) ≡ 0 ∷ 1 ∷ []
unfolding add_frame_with_sc
three_frames = refl

saves : (drive 5 (drive 1 (drive 1 empty_core))).saving ≡ true
unfolding add_frame_with_sc
saves = refl

database_thrown :
    (add_frame_with_sc scalar_linear no_turn lib false scan
      (record { so3 = tt; translation = decimal 1 0 })
      (decimal 0 0)
      empty_descriptor
      []
      empty_core).1
    ≡ Added.thrown
unfolding add_frame_with_sc
database_thrown = refl

nothing_to_save : (save_database scalar_linear true empty_core).1 ≡ false
unfolding save_database
nothing_to_save = refl

abbrev bytes_of : Fixed → List ℕ
bytes_of (fin (pos n)) = write_binary 8 n
bytes_of _ = []

abbrev cached : ℕ → Cached Fixed
cached n = record {
  index = 3;
  pose_data = [];
  cloud_path = 97 ∷ [];
  descriptor = empty_descriptor;
  ring_key = fin (pos n) ∷ [];
  cart_descriptor = empty_descriptor;
}

cache_length : length (write_descriptor_cache bytes_of (cached 1) params) ≡ 118
unfolding write_descriptor_cache
cache_length = refl

empty_core-IsMapping : IsMapping scalar_linear empty_core
empty_core-IsMapping = record { numbered = tt; database = refl; points = refl; one_thread = refl }

Reach-IsMapping_example :
    IsMapping scalar_linear (save_map_async scalar_linear (drive 1 empty_core))
Reach-IsMapping_example = Reach-IsMapping scalar_linear empty_core-IsMapping (
    Reach.next
      (Reach.next Reach.here (
        Step.frame no_turn lib true scan (record { so3 = tt; translation = decimal 1 0 })
          (decimal 1 0) empty_descriptor [] refl))
      (Step.request_save refl))

checksum-detects_example :
    compute_descriptor_checksum bytes_of (cached 1)
    ≢ compute_descriptor_checksum bytes_of (cached 2)
unfolding write_binary
checksum-detects_example =
    checksum-detects bytes_of (cached 1) (cached 2)
      (0 ∷ 0 ∷ 0 ∷ 0 ∷ 0 ∷ 0 ∷ 0 ∷ 0 ∷ 1 ∷ 0 ∷ 0 ∷ 0 ∷ 0 ∷ 0 ∷ 0 ∷ 0 ∷ 0 ∷ 0 ∷ 0 ∷ 0 ∷ [])
      (0 ∷ 0 ∷ 0 ∷ 0 ∷ 0 ∷ 0 ∷ 0 ∷ []) 1 2 refl refl (omega arith) (omega arith) (omega arith)
      (omega arith)
