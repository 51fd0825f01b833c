-- ===== src/Output/Threads.antt =====
-- The threads of `ImuOdomOutput` of apps/imu_odom_output.h together: a state of the whole, and its
-- steps in any interleaving.
use adaptive_lio.Common.{ℕ, Option, none, some, List, [], ◌∷◌, if◌then◌else◌}
use adaptive_lio.Common.Double.{Double}
use adaptive_lio.Imu.{Imu}
use adaptive_lio.Linear.{Linear}
use adaptive_lio.Replay.{LioStateUpdate}
use adaptive_lio.Scan.{Numeric}
use adaptive_lio.Output.{
  Shared, Worker, Batch, Round, fail, stop, on_imu, on_state, take_batch, work, publish, Odometry,
}

-- Where the worker is: at the head of its loop, with what it took, before it publishes, or at its end.
pub data Phase {D : Type 0} (l : Linear D) : Type 0 where
  waiting ended : Phase l
  holding : Batch l → Phase l
  sending : Odometry l → Phase l

pub record System {D : Type 0} (l : Linear D) : Type 0 where
  pub shared : Shared l
  pub phase : Phase l
  pub worker : Worker l

-- Between any two steps of the worker there can be calls from other threads.
pub data Event {D : Type 0} (l : Linear D) : Type 0 where
  imu_event : Imu D → Event l
  state_event : LioStateUpdate l → Event l
  stop_event fail_event take_event work_event : Event l
  publish_event : ℕ → Event l

module _ {D : Type 0} ⦃d : Double D⦄ (l : Linear D) where
  abbrev pub with_shared : System l → Shared l → System l
  with_shared s q = record s { shared = q }

  abbrev pub taken : System l → Option (Batch l × Shared l) → System l
  taken s none = record s { phase = ended }
  taken s (some (b, q)) = record s { phase = holding b; shared = q }

  abbrev pub next_phase : Option (Odometry l) → Phase l
  next_phase none = waiting
  next_phase (some o) = sending o

  abbrev pub worked : System l → Round l → System l
  worked s r = record s {
    phase = next_phase r.outgoing;
    worker = r.worker;
    shared = if r.failed then fail l s.shared else s.shared;
  }

  -- The worker's steps, each of them in its phase.
  abbrev pub take_in : Phase l → System l → System l
  take_in waiting s = taken s (take_batch l s.shared)
  take_in ended s = s
  take_in (holding b) s = s
  take_in (sending o) s = s

  abbrev pub work_on : Numeric D → Phase l → System l → System l
  work_on lib waiting s = s
  work_on lib ended s = s
  work_on lib (holding b) s = worked s (work l lib b s.shared.faulted s.worker)
  work_on lib (sending o) s = s

  abbrev pub send : Phase l → ℕ → System l → System l
  send waiting n s = s
  send ended n s = s
  send (holding b) n s = s
  send (sending o) n s = record s { phase = waiting; worker = publish l n o s.worker }

  unfoldable pub step : Numeric D → Event l → System l → System l
  unfolding work take_batch fail publish
  step lib (imu_event x) s = with_shared s (on_imu l x s.shared)
  step lib (state_event u) s = with_shared s (on_state l u s.shared)
  step lib stop_event s = with_shared s (stop l s.shared)
  step lib fail_event s = with_shared s (fail l s.shared)
  step lib take_event s = take_in s.phase s
  step lib work_event s = work_on lib s.phase s
  step lib (publish_event n) s = send s.phase n s

  unfoldable pub run : Numeric D → List (Event l) → System l → System l
  run lib [] s = s
  run lib (e ∷ es) s = run lib es (step lib e s)
