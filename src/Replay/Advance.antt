-- ===== src/Replay/Advance.antt =====
-- `ImuOdomPredictor::Advance` of algo/imu_odom_predictor.h.
use adaptive_lio.Common.{
  Bool, true, false, not, ◌||◌, Option, none, some, List, [], ◌∷◌, is_empty, back, front,
  if◌then◌else◌,
}
use adaptive_lio.Common.Double.{Double}
use adaptive_lio.Imu.{Imu}
use adaptive_lio.Linear.{Linear}
use adaptive_lio.Filter.{Eskf, Step, restore_snapshot}
use adaptive_lio.Replay.{Predictor, LioStateUpdate, increment, propagate_interval, fail}

-- Whether `Advance` goes on, or returned.
pub data Flow {D : Type 0} (l : Linear D) : Type 0 where
  going : Predictor l → Flow l
  returned : Predictor l → Flow l

-- Where the search in the history ends: the sample before, and the samples from there on.
pub record Place (D : Type 0) : Type 0 where
  pub before : Option (Imu D)
  pub rest : List (Imu D)

module _ {D : Type 0} ⦃d : Double D⦄ where
  -- `std::upper_bound`: the first sample later than `t`. The history is sorted, so that the first
  -- one is what the binary search finds.
  unfoldable pub upper_bound : D → Option (Imu D) → List (Imu D) → Place D
  upper_bound t before [] = record { before = before; rest = [] }
  upper_bound t before (x ∷ xs) =
      let r = upper_bound t (some x) xs in
      if d.lt t x.timestamp then record { before = before; rest = x ∷ xs } else r

  -- A time is not later than the newest sample; is before the oldest one.
  abbrev pub reached : D → List (Imu D) → Bool
  reached t h = elim (back h) [ none ↦ false | some x ↦ d.le t x.timestamp ]

  abbrev pub precedes : D → List (Imu D) → Bool
  precedes t h = elim (front h) [ none ↦ false | some x ↦ d.lt t x.timestamp ]

module _ {D : Type 0} ⦃d : Double D⦄ (l : Linear D) where
  abbrev pub miss : Predictor l → Predictor l
  miss p = fail l (record p {
    counters = record p.counters { history_miss = increment p.counters.history_miss };
  })

  -- What follows a restored posterior: a refused snapshot leaves all but `pending_` as it was.
  unfoldable pub adopt_update : LioStateUpdate l → Step l → Predictor l → Predictor l
  adopt_update u r p =
      if r.accepted
      then record p {
        pending = none;
        filter = r.filter;
        sequence = u.sequence;
        anchor_time = u.state.nav.timestamp;
        last_accepted = u.last_accepted_lidar_stamp;
        gyro_variance = u.gyro_measurement_variance;
        initialized = true;
        counters = record p.counters { applied = increment p.counters.applied };
      }
      else record p { pending = none }

  unfoldable pub take_pending : Option (LioStateUpdate l) → Predictor l → Flow l
  unfolding adopt_update fail
  take_pending none p = going p
  take_pending (some u) p =
      if not (reached u.state.nav.timestamp p.history)
      then going p
      else (if precedes u.state.nav.timestamp p.history
          then returned (miss p)
          else going (adopt_update u (restore_snapshot l u.state p.filter) p))

  -- The loop over the samples from the first later one on.
  unfoldable pub replay : Option (Imu D) → List (Imu D) → Eskf l → Step l
  replay before [] f = record { accepted = true; filter = f }
  replay none (x ∷ xs) f = record { accepted = false; filter = f }
  replay (some left) (x ∷ xs) f =
      let r = propagate_interval l f left x x.timestamp in
      let rest = replay (some x) xs r.filter in
      if r.accepted then rest else record { accepted = false; filter = r.filter }

  abbrev pub after_failure : Step l → Predictor l → Predictor l
  after_failure r p = fail l (record p {
    filter = r.filter;
    counters = record p.counters { gap = increment p.counters.gap };
  })

  abbrev pub after_replay : Step l → Predictor l → Predictor l
  after_replay r p = if r.accepted then record p { filter = r.filter } else after_failure r p

  abbrev pub replay_from : Place D → Eskf l → Step l
  replay_from place f = replay place.before place.rest f

  unfoldable pub catch_up : Flow l → Predictor l
  unfolding upper_bound replay fail
  catch_up (returned p) = p
  catch_up (going p) =
      if not p.initialized
      then p
      else (if precedes p.filter.current_time p.history
          then miss p
          else after_replay
              (replay_from (upper_bound p.filter.current_time none p.history) p.filter) p)

  unfoldable pub advance : Predictor l → Predictor l
  unfolding take_pending catch_up
  advance p = if p.faulted || is_empty p.history then p else catch_up (take_pending p.pending p)
