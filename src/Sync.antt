-- ===== src/Sync.antt =====
-- The buffers of `lidarodom_m` (lio/lidarodom.cpp) and the functions that use them under `mtx_buf`:
-- both `pushData`, `getMeasureMents`, `Fail` and `RequestStop`. Each call is one step on the state,
-- since the mutex makes it atomic. `fault_calls` counts the calls of the fault callback.
pub mod Rising
pub mod Invariant
pub mod Measure
pub mod Aux
pub mod Tests
use adaptive_lio.Common.{
  ℕ, suc, ◌+◌, Bool, true, false, not, ◌&&◌, ◌||◌, Option, none, some, List, [], ◌∷◌, ◌++◌, ltb,
  leb, length, is_empty, pop_front, back, front, if◌then◌else◌,
}
use adaptive_lio.Common.Double.{Double}
use adaptive_lio.Imu.{Imu, all_finite}
use adaptive_lio.Point.{Point, Cropped, keep_if, finite_point, sort_finite_points, crop_aux_points}

-- A packet's begin and duration, in seconds.
pub record Span (D : Type 0) : Type 0 where
  pub first : D
  pub second : D

pub record Sync (D : Type 0) : Type 0 where
  pub lidar_buffer : List (List (Point D))
  pub time_buffer : List (Span D)
  pub ingress_time_buffer : List ℕ
  pub aux_lidar_buffer : List (List (Point D))
  pub aux_lidar_time_buffer : List (Span D)
  pub aux_point_cursor : ℕ
  pub imu_buffer : List (Imu D)
  pub last_timestamp_imu : D
  pub last_timestamp_lidar : D
  pub stopping : Bool
  pub fault_calls : ℕ

-- The options that synchronisation reads.
pub record SyncOptions (D : Type 0) : Type 0 where
  pub delay_time : D
  pub aux_lidar_time_offset : D
  pub aux_lidar_sync_margin : D
  pub min_aux_points : ℕ

-- `MeasureGroup`; `aux_time` is unset where too few auxiliary points were found.
pub record MeasureGroup (D : Type 0) : Type 0 where
  pub lidar : List (Point D)
  pub aux_lidar : List (Point D)
  pub lidar_begin_time : D
  pub lidar_end_time : D
  pub imu : List (Imu D)
  pub aux_time : Option D
  pub ingress_time : ℕ

-- The state of the loop over the auxiliary packets.
pub record AuxQueue (D : Type 0) : Type 0 where
  pub packets : List (List (Point D))
  pub times : List (Span D)
  pub cursor : ℕ
  pub points : List (Point D)

pub data AuxAction : Type 0 where
  discard wait crop : AuxAction

-- The IMU samples taken, and those left.
pub record Split (D : Type 0) : Type 0 where
  pub taken : List (Imu D)
  pub rest : List (Imu D)

module _ {D : Type 0} ⦃d : Double D⦄ where
  -- The members' initial values.
  unfoldable pub start : Sync D
  start = record {
    lidar_buffer = [];
    time_buffer = [];
    ingress_time_buffer = [];
    aux_lidar_buffer = [];
    aux_lidar_time_buffer = [];
    aux_point_cursor = 0;
    imu_buffer = [];
    last_timestamp_imu = d.neg (d.decimal 1 0);
    last_timestamp_lidar = d.decimal 0 0;
    stopping = false;
    fault_calls = 0;
  }

  unfoldable pub request_stop : Sync D → Sync D
  request_stop s = record s { stopping = true }

  unfoldable pub fail : Sync D → Sync D
  fail s = record s { stopping = true; fault_calls = suc s.fault_calls }

  abbrev pub invalid_time : Span D → Bool
  invalid_time t =
      not (d.is_finite t.first) || not (d.is_finite t.second) || d.le t.second (d.decimal 0 0)

  abbrev pub out_of_order : List (Span D) → D → Bool
  out_of_order ts first = elim (back ts) [ none ↦ false | some t ↦ d.le first t.first ]

  -- `aux_lidar_buffer_.size() >= 200`: the oldest packet makes room.
  abbrev pub drop_oldest_aux : Sync D → Sync D
  drop_oldest_aux s =
      if leb 200 (length s.aux_lidar_buffer)
      then record s {
        aux_lidar_buffer = pop_front s.aux_lidar_buffer;
        aux_lidar_time_buffer = pop_front s.aux_lidar_time_buffer;
        aux_point_cursor = 0;
      }
      else s

  abbrev pub append_aux : List (Point D) → Span D → Sync D → Sync D
  append_aux msg t s = record s {
    aux_lidar_buffer = s.aux_lidar_buffer ++ (msg ∷ []);
    aux_lidar_time_buffer = s.aux_lidar_time_buffer ++ (t ∷ []);
  }

  -- `pushData` of a cloud: of the auxiliary LiDAR, and of the main one.
  unfoldable pub push_aux : List (Point D) → Span D → Sync D → Sync D
  push_aux points t s =
      let msg = sort_finite_points (keep_if finite_point points) in
      if invalid_time t
      then s
      else (if s.stopping
          then s
          else (if out_of_order s.aux_lidar_time_buffer t.first
              then s
              else append_aux msg t (drop_oldest_aux s)))

  unfoldable pub push_lidar : List (Point D) → Span D → ℕ → Sync D → Sync D
  unfolding fail
  push_lidar points t ingress s =
      let msg = keep_if finite_point points in
      if invalid_time t
      then s
      else (if s.stopping
          then s
          else (if d.le t.first s.last_timestamp_lidar
              then s
              else (if leb 200 (length s.lidar_buffer) then fail s else record s {
                lidar_buffer = s.lidar_buffer ++ (msg ∷ []);
                time_buffer = s.time_buffer ++ (t ∷ []);
                ingress_time_buffer = s.ingress_time_buffer ++ (ingress ∷ []);
                last_timestamp_lidar = t.first;
              })))

  -- `pushData` of an IMU sample; `none` is a null pointer.
  unfoldable pub push_imu : Option (Imu D) → Sync D → Sync D
  unfolding fail
  push_imu none s = s
  push_imu (some imu) s =
      if not (d.is_finite imu.timestamp)
        || not (all_finite imu.gyro)
        || not (all_finite imu.acce)
        || d.le imu.timestamp s.last_timestamp_imu
      then s
      else (if s.stopping
          then s
          else (if leb 20000 (length s.imu_buffer) then fail s else record s {
            last_timestamp_imu = imu.timestamp;
            imu_buffer = s.imu_buffer ++ (imu ∷ []);
          }))

  -- `while (!imu_buffer_.empty() && imu_buffer_.front()->timestamp_ <= end)`.
  unfoldable pub take_imu : D → List (Imu D) → Split D
  take_imu end_time [] = record { taken = []; rest = [] }
  take_imu end_time (x ∷ xs) =
      let r = take_imu end_time xs in
      if d.le x.timestamp end_time
      then record { taken = x ∷ r.taken; rest = r.rest }
      else record { taken = []; rest = x ∷ xs }

  -- `std::max(0.0, options_.aux_lidar_sync_margin)`.
  abbrev pub sync_margin : SyncOptions D → D
  sync_margin o =
      if d.lt (d.decimal 0 0) o.aux_lidar_sync_margin
      then o.aux_lidar_sync_margin
      else d.decimal 0 0

  -- What the loop does with a packet: it is dropped if it is empty or ends before the window, it
  -- waits for a later scan if it begins after it, and is cropped otherwise.
  unfoldable pub aux_action : SyncOptions D → D → D → List (Point D) → Span D → AuxAction
  aux_action o begin_time end_time aux t =
      let start_time = d.add t.first o.aux_lidar_time_offset in
      let end_of_packet = d.add (d.add t.first t.second) o.aux_lidar_time_offset in
      if is_empty aux || d.lt end_of_packet (d.sub begin_time (sync_margin o))
      then discard
      else (if d.lt (d.add end_time (sync_margin o)) start_time then wait else crop)

  -- The loop over the auxiliary packets for the window [begin, end) of the main scan. The two
  -- deques are pushed and popped together, so the last clause is not reached.
  unfoldable pub collect_aux :
      SyncOptions D
      → D
      → D
      → List (List (Point D))
      → List (Span D)
      → ℕ
      → List (Point D)
      → AuxQueue D
  collect_aux o begin_time end_time [] times cursor out = record {
    packets = [];
    times = times;
    cursor = cursor;
    points = out;
  }
  collect_aux o begin_time end_time (aux ∷ packets) (t ∷ times) cursor out =
      let c = crop_aux_points begin_time end_time o.aux_lidar_time_offset aux cursor out in
      elim (aux_action o begin_time end_time aux t) [
        | discard ↦ collect_aux o begin_time end_time packets times 0 out
        | wait ↦ record {
          packets = aux ∷ packets;
          times = t ∷ times;
          cursor = cursor;
          points = out;
        }
        | crop ↦ elim (leb (length aux) c.cursor) [
          | true ↦ collect_aux o begin_time end_time packets times 0 c.out
          | false ↦ record {
            packets = aux ∷ packets;
            times = t ∷ times;
            cursor = c.cursor;
            points = c.out;
          }
        ]
      ]
  collect_aux o begin_time end_time (aux ∷ packets) [] cursor out = record {
    packets = aux ∷ packets;
    times = [];
    cursor = cursor;
    points = out;
  }

  -- The sample left is a read-only right bracket.
  abbrev pub first_of : List (Imu D) → List (Imu D)
  first_of [] = []
  first_of (x ∷ xs) = x ∷ []

  -- The measurement for the oldest scan, with its span and entry time, and the state after it. The
  -- first sample that is left is read as a right bracket and not consumed.
  unfoldable pub measure :
      SyncOptions D → Sync D → List (Point D) → Span D → ℕ → MeasureGroup D × Sync D
  measure o s scan t ingress =
      let end_time = d.add t.first t.second in
      let split = take_imu end_time s.imu_buffer in
      let a =
        collect_aux o t.first end_time s.aux_lidar_buffer s.aux_lidar_time_buffer s.aux_point_cursor
          [] in
      let few = ltb (length a.points) o.min_aux_points in
      (
        record {
          lidar = scan;
          aux_lidar = if few then [] else a.points;
          lidar_begin_time = t.first;
          lidar_end_time = end_time;
          imu = split.taken ++ first_of split.rest;
          aux_time = if few then none else some t.first;
          ingress_time = ingress;
        },
        record s {
          lidar_buffer = pop_front s.lidar_buffer;
          time_buffer = pop_front s.time_buffer;
          ingress_time_buffer = pop_front s.ingress_time_buffer;
          imu_buffer = split.rest;
          aux_lidar_buffer = a.packets;
          aux_lidar_time_buffer = a.times;
          aux_point_cursor = a.cursor;
        },
      )

  unfoldable pub choose :
      SyncOptions D
      → Sync D
      → Option (Imu D)
      → List (List (Point D))
      → List (Span D)
      → List ℕ
      → Option (MeasureGroup D × Sync D)
  choose o s (some newest) (scan ∷ _) (t ∷ _) (ingress ∷ _) =
      if d.lt newest.timestamp (d.add (d.add t.first t.second) o.delay_time)
      then none
      else some (measure o s scan t ingress)
  choose o s _ _ _ _ = none

  -- `getMeasureMents` gives one scan or none: it waits for IMU samples up to `delay_time_` past the
  -- end of the scan. The three deques of the scans are pushed and popped together.
  unfoldable pub get_measurements : SyncOptions D → Sync D → Option (MeasureGroup D × Sync D)
  unfolding choose
  get_measurements o s =
      choose o s (back s.imu_buffer) s.lidar_buffer s.time_buffer s.ingress_time_buffer
