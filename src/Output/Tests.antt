-- ===== src/Output/Tests.antt =====
-- A run of the output, and its theorem at that input.
use adaptive_lio.Common.{◌≡◌, refl, false, none, List, [], ◌∷◌, arith, map}
use adaptive_lio.Common.Fixed.{Fixed, decimal, fixed_double, neg, pos_inf, Fixed-IsOrdered}
use adaptive_lio.Imu.Gate.Tests.{sample}
use adaptive_lio.Linear.{scalar_linear}
use adaptive_lio.Replay.Tests.{fresh, fresh-IsValid, update, time_of}
use adaptive_lio.Scan.Tests.{lib}
use adaptive_lio.Output.{
  fail, on_imu, on_state, take_batch, work, feed, append_all, submit_some, passes, publish,
  extend_path,
}
use adaptive_lio.Output.Threads.{
  System, Event, imu_event, state_event, fail_event, take_event, work_event, publish_event, waiting,
  step, run,
}
use adaptive_lio.Output.Order.{IsSystem, IsStep, run-IsStep}

abbrev pub idle : System scalar_linear
idle = record {
  shared = record {
    imu_queue = [];
    pending = none;
    stopping = false;
    faulted = false;
    fault_calls = 0;
  };
  phase = waiting;
  worker = record {
    predictor = fresh;
    last_published = neg pos_inf;
    last_path = neg pos_inf;
    path = [];
    max_path = 300;
    published = [];
  };
}

idle-IsSystem : IsSystem scalar_linear lib idle
idle-IsSystem = record {
  shared_ok = record { queue_bounded = ground arith; called_once = refl };
  worker_ok = record {
    predictor_ok = (fresh-IsValid, λ h. ground arith);
    last_number = refl;
    up_to_last = tt;
    falling = tt;
    stamped = tt;
    path_bounded = ground arith;
  };
  phase_ok = tt;
}

-- A round that publishes, one with a fault after its last test, and one with a fault before it.
abbrev pub events : List (Event scalar_linear)
events =
    imu_event (sample 0 (decimal 1 1))
    ∷ state_event (update 1)
    ∷ imu_event (sample 10 (decimal 1 1))
    ∷ take_event
    ∷ work_event
    ∷ publish_event 1
    ∷ imu_event (sample 20 (decimal 1 1))
    ∷ take_event
    ∷ work_event
    ∷ fail_event
    ∷ publish_event 0
    ∷ []

times : List (Event scalar_linear) → List Fixed
unfolding time_of run step on_imu on_state take_batch work feed append_all submit_some passes
    publish extend_path fail
times es = map (λ o. o.time) (run scalar_linear lib es idle).worker.published

times_of_run : times events ≡ decimal 2 2 ∷ decimal 1 2 ∷ []
unfolding times
times_of_run = refl

-- The fault comes before the last test.
silenced :
    times (
      imu_event (sample 0 (decimal 1 1))
      ∷ state_event (update 1)
      ∷ imu_event (sample 10 (decimal 1 1))
      ∷ take_event
      ∷ fail_event
      ∷ work_event
      ∷ publish_event 1
      ∷ [])
    ≡ []
unfolding times
silenced = refl

run-IsStep_example : IsStep scalar_linear lib idle (run scalar_linear lib events idle)
run-IsStep_example = run-IsStep scalar_linear Fixed-IsOrdered lib events idle idle-IsSystem
