-- ===== src/Mapping.antt =====
-- `MappingCore` of scantext_module/Mapping.hpp and Mapping.cpp: key frames, the map and the database
-- on disk. The file system is a list of the actions on it, newest first; whether poses.txt opens is
-- the argument `opens`. A method under `map_mutex_` is one step; the thread that saves the map is
-- counted while it runs. A path is the text that it is derived from.
pub mod Bits
pub mod Cache
pub mod Detect
pub mod Frames
pub mod Tests
use Prim.Native.String.{String}
use adaptive_lio.Common.{
  ℕ, zero, suc, ◌+◌, Bool, true, false, not, ◌&&◌, ◌||◌, List, [], ◌∷◌, ◌++◌, map, length, is_empty,
  if◌then◌else◌,
}
use adaptive_lio.Common.Double.{Double}
use adaptive_lio.Imu.Axes.{Vec3}
use adaptive_lio.Linear.{Linear, Se3}
use adaptive_lio.Scan.{Numeric, ScParams, Descriptor, number}
use adaptive_lio.Scan.Cart.{make_cart_context}

pub record Config (D : Type 0) : Type 0 where
  pub enable_mapping : Bool
  pub keyframe_dist_thresh : D
  pub keyframe_angle_thresh : D
  pub map_save_path : String
  pub auto_save_interval : D

pub record KeyFrame {D : Type 0} (l : Linear D) : Type 0 where
  pub index : ℕ
  pub time : D
  pub pose : Se3 l.Matrix l.So3
  pub cloud : List (Vec3 D)
  pub descriptor : Descriptor D
  pub ring_key : List D
  pub cart_descriptor : Descriptor D

-- What is done to the directory of the database.
pub data FileAction {D : Type 0} (l : Linear D) : Type 0 where
  recreate : String → FileAction l
  open_poses : FileAction l
  remove_manifest : FileAction l
  write_pose : ℕ → D → Se3 l.Matrix l.So3 → FileAction l
  write_cloud : ℕ → FileAction l
  write_descriptor : KeyFrame l → ScParams D → FileAction l

pub record MappingCore {D : Type 0} (l : Linear D) : Type 0 where
  pub config : Config D
  pub scan_context : ScParams D
  pub keyframes : List (KeyFrame l)
  pub last_keyframe_pose : Se3 l.Matrix l.So3
  pub accumulated_dist_since_save : D
  pub saving : Bool
  pub global_map : List (Vec3 D)
  pub db_initialized : Bool
  pub frame_index : ℕ
  pub files : List (FileAction l)
  -- How many threads that save the map are running.
  pub save_threads : ℕ

-- What `addFrameWithSC` answers; `thrown` is the exception of the database.
pub data Added {D : Type 0} (l : Linear D) : Type 0 where
  refused thrown : Added l
  added : KeyFrame l → Added l

module _ {D : Type 0} ⦃d : Double D⦄ where
  abbrev pub is_due : Config D → D → Bool
  is_due config total =
      d.lt (number 0) config.auto_save_interval && d.le config.auto_save_interval total

module _ {D : Type 0} ⦃d : Double D⦄ (l : Linear D) where
  unfoldable pub is_key_frame : (l.So3 → D) → MappingCore l → Se3 l.Matrix l.So3 → Bool
  is_key_frame angle s pose =
      let delta = l.se3_mul (l.se3_inverse s.last_keyframe_pose) pose in
      is_empty s.keyframes
      || d.le s.config.keyframe_dist_thresh (l.norm delta.translation)
      || d.le s.config.keyframe_angle_thresh (angle delta.so3)

  -- `initDatabaseIfNeeded`, and whether it threw.
  unfoldable pub init_database_if_needed : Bool → MappingCore l → MappingCore l × Bool
  init_database_if_needed opens s =
      let opened = open_poses ∷ recreate s.config.map_save_path ∷ s.files in
      if s.db_initialized
      then (s, false)
      else (if opens
          then (
            record s {
              frame_index = 0;
              accumulated_dist_since_save = number 0;
              db_initialized = true;
              files = remove_manifest ∷ opened;
            },
            false,
          )
          else (record s { files = opened }, true))

  unfoldable pub set_config : Config D → MappingCore l → MappingCore l
  set_config config s = record s { config = config }

  unfoldable pub set_scan_context_params : ScParams D → MappingCore l → MappingCore l
  set_scan_context_params params s = record s { scan_context = params }

  -- `saving_.exchange(true)`, and the thread that is started.
  unfoldable pub save_map_async : MappingCore l → MappingCore l
  save_map_async s =
      if s.saving then s else record s { saving = true; save_threads = suc s.save_threads }

  -- The end of such a thread.
  unfoldable pub end_save : MappingCore l → MappingCore l
  end_save s = record s {
    saving = false;
    save_threads = elim s.save_threads [ zero ↦ zero | suc n ↦ n ];
  }

  -- The points of the map in their order, with those of the cloud by the pose behind them.
  abbrev pub extend_map : Se3 l.Matrix l.So3 → List (Vec3 D) → List (Vec3 D) → List (Vec3 D)
  extend_map pose cloud points =
      points ++ map (λ p. l.to_vec3 (l.se3_apply pose (l.of_vec3 p))) cloud

  -- The distance since the last save, and the save that it asks for.
  unfoldable pub auto_save : D → MappingCore l → MappingCore l
  unfolding save_map_async
  auto_save dist s =
      let total = d.add s.accumulated_dist_since_save dist in
      let due =
        d.lt (number 0) s.config.auto_save_interval && d.le s.config.auto_save_interval total in
      if due
      then record (save_map_async s) { accumulated_dist_since_save = number 0 }
      else record s { accumulated_dist_since_save = total }

  -- From the construction of the key frame on.
  unfoldable pub store_frame :
      Numeric D
      → List (Vec3 D)
      → Se3 l.Matrix l.So3
      → D
      → Descriptor D
      → List D
      → MappingCore l
      → MappingCore l × Added l
  unfolding auto_save make_cart_context
  store_frame lib cloud pose time sc rk s =
      let kf : KeyFrame l = record {
        index = s.frame_index;
        time = time;
        pose = pose;
        cloud = cloud;
        descriptor = sc;
        ring_key = rk;
        cart_descriptor = make_cart_context lib s.scan_context cloud (number 0);
      } in
      let stored : MappingCore l = record s {
        frame_index = suc s.frame_index;
        keyframes = s.keyframes ++ kf ∷ [];
        files =
            write_descriptor kf s.scan_context
            ∷ write_cloud kf.index
            ∷ write_pose kf.index time pose
            ∷ s.files;
        global_map = extend_map pose cloud s.global_map;
      } in
      let dist = l.norm (l.sub pose.translation s.last_keyframe_pose.translation) in
      (record (auto_save dist stored) { last_keyframe_pose = pose }, added kf)

  abbrev pub store_unless_thrown :
      (MappingCore l → MappingCore l × Added l) → MappingCore l × Bool → MappingCore l × Added l
  store_unless_thrown store (s, true) = (s, thrown)
  store_unless_thrown store (s, false) = store s

  unfoldable pub add_frame_with_sc :
      (l.So3 → D)
      → Numeric D
      → Bool
      → List (Vec3 D)
      → Se3 l.Matrix l.So3
      → D
      → Descriptor D
      → List D
      → MappingCore l
      → MappingCore l × Added l
  unfolding is_key_frame init_database_if_needed store_frame
  add_frame_with_sc angle lib opens cloud pose time sc rk s =
      if not s.config.enable_mapping || not (is_key_frame angle s pose)
      then (s, refused)
      else store_unless_thrown (store_frame lib cloud pose time sc rk)
          (init_database_if_needed opens s)

  -- `saveMap`: whether there was something to write, if the file was written.
  unfoldable pub save_map : Bool → MappingCore l → Bool
  save_map written s = if is_empty s.global_map then false else written

  abbrev pub write_frames :
      ScParams D → List (KeyFrame l) → List (FileAction l) → List (FileAction l)
  write_frames params [] files = files
  write_frames params (kf ∷ kfs) files = write_frames params kfs (
      write_descriptor kf params
      ∷ write_cloud kf.index
      ∷ write_pose kf.index kf.time kf.pose
      ∷ files)

  -- `saveDatabase`: the actions on its own directory, and the result.
  unfoldable pub save_database : Bool → MappingCore l → List (FileAction l) × Bool
  save_database opens s =
      if is_empty s.keyframes
      then ([], false)
      else (if opens
          then (write_frames s.scan_context s.keyframes (open_poses ∷ remove_manifest ∷ []), true)
          else (open_poses ∷ remove_manifest ∷ [], false))
