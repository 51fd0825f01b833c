-- ===== src/Node/Tests.antt =====
-- Runs of the node's callbacks and queues, and their theorems at those inputs.
use adaptive_lio.Common.{ℕ, ◌≡◌, refl, true, false, List, [], ◌∷◌, ◌*◌, map, length}
use adaptive_lio.Common.Fixed.{Fixed, nan, decimal, fixed_double, Fixed-IsOrdered}
use adaptive_lio.Imu.{constant}
use adaptive_lio.Imu.Gate.{process, conclude, scan, check_axis, update_episode}
use adaptive_lio.Imu.Axes.{get, put, channel, put_gyro, put_accel}
use adaptive_lio.Imu.Gate.Tests.{closed, closed-Inv}
use adaptive_lio.Node.{
  Markers, filter_args, Queue, Consumer, scan_publisher, scantext, offer, cloud_pub_func, take_task,
  work_round, stop_worker, every_nth, thin,
}
use adaptive_lio.Node.Workers.{Step, begin, step, Refines, Reach-Refines, empty_queue}
use adaptive_lio.Node.Ending.{Ends, rounds, rounds-Ends}
use adaptive_lio.Node.Thin.{Thinned, thin-Thinned}
use adaptive_lio.Node.Feed.{ImuMsg, imu_handler, feed_all, feed_all-IsFed, IsFed, pushed, to_sample}

abbrev markers : Markers
markers = record {
  ros_args = 1 ∷ 2 ∷ 3 ∷ [];
  ros = 1 ∷ 2 ∷ [];
  remap = 4 ∷ [];
  special = 5 ∷ 5 ∷ [];
  params_file = 6 ∷ [];
}

-- The value of a file of parameters is left out, that of a remapping is not.
values_of_markers :
    filter_args markers ((9 ∷ []) ∷ (6 ∷ []) ∷ (7 ∷ []) ∷ (4 ∷ []) ∷ (8 ∷ []) ∷ (1 ∷ 2 ∷ []) ∷ [])
    ≡ (9 ∷ []) ∷ (8 ∷ []) ∷ []
unfolding filter_args
values_of_markers = refl

-- Three scans before the worker runs.
abbrev three_offers : Consumer → Queue ℕ
three_offers w = offer w 3 (offer w 2 (offer w 1 empty_queue))

oldest_is_dropped : (three_offers scan_publisher).waiting ≡ 2 ∷ 3 ∷ []
unfolding offer
oldest_is_dropped = refl

-- Of seven tasks the scan context refuses the last two.
newest_is_refused :
    (offer scantext 7
      (offer scantext 6 (offer scantext 5 (offer scantext 4 (three_offers scantext))))).waiting
    ≡ 1 ∷ 2 ∷ 3 ∷ 4 ∷ 5 ∷ []
unfolding offer
newest_is_refused = refl

no_subscriber : cloud_pub_func true 0 5 (three_offers scan_publisher) ≡ three_offers scan_publisher
unfolding cloud_pub_func
no_subscriber = refl

-- At the head of its loop the worker of the scan context leaves all that waits.
leaves_its_queue :
    (rounds scantext 2 (stop_worker (three_offers scantext))).waiting ≡ 1 ∷ 2 ∷ 3 ∷ []
unfolding rounds work_round take_task stop_worker offer
leaves_its_queue = refl

each_third : every_nth {A = ℕ} 3 0 (0 ∷ 1 ∷ 2 ∷ 3 ∷ 4 ∷ 5 ∷ 6 ∷ []) ≡ 0 ∷ 3 ∷ 6 ∷ []
unfolding every_nth
each_third = refl

Reach-Refines_example : Refines {A = ℕ} scan_publisher (
    work_round scan_publisher
      (offer scan_publisher 3 (offer scan_publisher 2 (offer scan_publisher 1 empty_queue))))
Reach-Refines_example =
    Reach-Refines scan_publisher
      (work_round scan_publisher
        (offer scan_publisher 3 (offer scan_publisher 2 (offer scan_publisher 1 empty_queue))))
      (step (step (step (step begin (Step.offering 1)) (Step.offering 2)) (Step.offering 3))
        Step.working)

abbrev stopped_queue : Queue ℕ
stopped_queue = record {
  waiting = 4 ∷ 5 ∷ [];
  stopping = true;
  at_head = true;
  ended = false;
  offered = 3 ∷ 4 ∷ 5 ∷ [];
  taken = 3 ∷ [];
}

rounds-Ends_example : Ends scan_publisher stopped_queue (rounds scan_publisher 3 stopped_queue)
rounds-Ends_example = rounds-Ends scan_publisher stopped_queue refl refl

thin-Thinned_example : Thinned {A = ℕ} (1 ∷ 2 ∷ 3 ∷ []) (thin (1 ∷ 2 ∷ 3 ∷ []))
thin-Thinned_example = thin-Thinned (1 ∷ 2 ∷ 3 ∷ [])

-- A message at `t` milliseconds, with an acceleration of `a` in units of gravity.
abbrev message : ℕ → Fixed → ImuMsg Fixed
message t a = record {
  sec = 0;
  nanosec = t * 1000000;
  angular_velocity = constant (decimal 0 0);
  linear_acceleration = constant a;
}

abbrev messages : List (ImuMsg Fixed)
messages =
    message 5 (decimal 1 0)
    ∷ message 5 (decimal 1 0)
    ∷ message 10 (decimal 1 0)
    ∷ message 15 nan
    ∷ message 20 (decimal 1 0)
    ∷ []

-- The stale message is dropped, and after the NaN nothing is forwarded.
two_are_pushed : length (pushed (feed_all (decimal 981 2) true closed messages)) ≡ 2
unfolding feed_all imu_handler process conclude scan check_axis channel get put put_gyro put_accel
    update_episode
two_are_pushed = refl

feed_all-IsFed_example :
    IsFed true closed
      (map (to_sample (decimal 981 2)) messages)
      (feed_all (decimal 981 2) true closed messages)
feed_all-IsFed_example =
    feed_all-IsFed Fixed-IsOrdered (decimal 981 2) true closed messages closed-Inv
