-- ===== src/Lib.antt =====
-- Adaptive-LIO: LiDAR-inertial odometry for a robot.
--
-- The program has two chains. IMU samples pass a quality gate and go to both chains; LiDAR scans are
-- buffered until IMU samples cover them, and one scan with its samples is handed to the inner
-- error-state Kalman filter, which predicts, deskews, matches and corrects; the posterior goes to the
-- outer chain, which replays IMU samples behind it and publishes odometry.
--
-- Paths below are from the repository's root; `lio` stands for src/Adaptive-LIO/src.
-- - lio/tools/imu.h, lio/algo/imu_quality.h: Imu.antt, Imu/; `ImuQualityGate::Process` is
--   `process`, its loop `scan` and `check_axis`.
-- - lio/algo/aux_time_crop.h: Point.antt, Point/.
-- - lio/lio/lidarodom.cpp, the buffers: Sync.antt, Sync/; both `pushData` are `push_lidar`,
--   `push_aux` and `push_imu`, `getMeasureMents` is `get_measurements`.
-- - Eigen and Sophus: Linear.antt, an interface of operations that the filter takes as a
--   parameter.
-- - lio/algo/eskf.hpp, lio/tools/nav_state.h, lio/algo/lidar_observation.h: Filter.antt,
--   Filter/Steps.antt; Filter/Calls.antt has the theorems.
-- - lio/algo/imu_odom_predictor.h: Replay.antt, Replay/Advance.antt; the other files of Replay/
--   have the theorems.
-- - lio/apps/imu_odom_output.h, lio/algo/odom_projection.h: Output.antt, Output/; a round of
--   `Run` is `take_batch`, then `work`, then `publish`; Output/Threads.antt has the threads
--   together.
-- - lio/common/cloudMap.hpp and lio/lio/lidarodom.cpp, the voxel map: Voxel.antt,
--   Voxel/Search.antt and Voxel/Range.antt; the other files of Voxel/ have the theorems. A
--   `short` s is written as s + 32768.
-- - lio/lio/lidarodom.cpp, `Predict` and `Undistort`, and lio/algo/point_time.h: Frame.antt,
--   Frame/.
-- - lio/algo/match_quality.h: Match.antt; Match/Accept.antt has the theorem.
-- - lio/lio/lidarodom.cpp, `ProcessMeasurements` and `poseEstimation`, and
--   lio/algo/frame_commit.h: Session.antt; Session/Maintain.antt and Session/Commit.antt have
--   the theorems.
-- - lio/algo/static_imu_init.cc, lio/common/math_utils.h (`ComputeMeanAndCovDiag`) and
--   `TryInitIMU` of lio/lio/lidarodom.cpp: Init.antt, Init/.
-- - lio/preprocess/cloud_convert/cloud_convert2.h and .cc: Convert.antt, Convert/; both
--   `Process` are `process_custom` and `process_cloud`, each handler has its name.
-- - lio/scantext_module/ScanContext.hpp and ScanContext.cpp (include/ and src/): Scan.antt and
--   Scan/Cart.antt; the other files of Scan/ have the theorems; each method has its name.
-- - lio/scantext_module/Mapping.hpp and Mapping.cpp (include/ and src/): Mapping.antt, Mapping/;
--   `addFrameWithSC` is `add_frame_with_sc`, the cache of descriptors is Mapping/Cache.antt.
-- - lio/apps/main_ada.cpp: Node.antt, Node/; `imuHandler` is `imu_handler` in Node/Feed.antt,
--   the other callbacks have their names, a round of a worker is `work_round`.
-- - lio/algo/lidar_sampling.h: Coverage.antt, Coverage/; `SelectGeometricCoverage` is
--   `select_geometric_coverage`, its loop `take_turns` and `turn_over`.
-- - lio/common/utility.cpp, the sampling by voxels: Sample.antt, Sample/; the functions have
--   their names.
--
-- Numbers. A `double` is a type with the operations that the code uses (Common/Double.antt), without
-- any law; a theorem that needs facts of IEEE 754 about comparisons takes them as the hypothesis
-- `IsOrdered`, and Common/Fixed.antt (decimals, two infinities and NaN) meets it. Sizes are natural
-- numbers. A bit mask over the six IMU axes is a record of six Booleans: the code uses no other bit.
--
-- Fuel. Two kinds of loops have it: those of the search over neighbouring voxels, where 2 n + 2 rounds
-- for a reach of n voxels are proved to be enough, and where the counter overflows, no number of rounds
-- is; and the rounds of the selection of correspondences, where one more than there are of them is
-- proved to be enough. All other loops are structural recursion over the list that the code walks
-- through.
--
-- Concurrency. Every function that runs under a mutex is one step on the state that the mutex guards;
-- interleavings of the threads are sequences of such steps.
--
-- Not modelled: the solver, the search for correspondences, the reading of the configuration,
-- publishers and files. The solver's result, Eigen, Sophus, <cmath>, the conversions of a `double`
-- to an integer and to bytes, and the random order and the sampling of the incoming points are
-- parameters.
pub mod Common
pub mod Imu
pub mod Point
pub mod Sync
pub mod Linear
pub mod Filter
pub mod Replay
pub mod Output
pub mod Voxel
pub mod Frame
pub mod Match
pub mod Session
pub mod Init
pub mod Convert
pub mod Scan
pub mod Mapping
pub mod Node
pub mod Coverage
pub mod Sample
