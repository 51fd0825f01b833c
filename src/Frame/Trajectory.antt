-- ===== src/Frame/Trajectory.antt =====
-- What `Predict` of lio/lidarodom.cpp promises: the trajectory that deskewing reads.
use adaptive_lio.Common.{
  ◌≤◌, ◌≡◌, refl, sym, ap, subst, Bool, true, false, not, Option, none, some, List, [], ◌∷◌, ◌++◌,
  arith, either, length,
}
use adaptive_lio.Common.Double.{Double, IsOrdered}
use adaptive_lio.Imu.{Imu}
use adaptive_lio.Linear.{Linear}
use adaptive_lio.Filter.{Eskf, NavState, Step, get_nominal_state}
use adaptive_lio.Replay.{propagate_interval, refuses_interval}
use adaptive_lio.Replay.Catch.{propagate-time}
use adaptive_lio.Sync.Rising.{Rises, Rises-push}
use adaptive_lio.Frame.{Prediction, until, next_last, reaches_end, predict_loop, predict_frame}

module _ {D : Type 0} ⦃d : Double D⦄ (l : Linear D) where
  abbrev pub stamp_of : NavState l → D
  stamp_of s = s.timestamp

  -- The states begin with the frame's first one and rise strictly up to the filter's time.
  pub record IsTrajectory (first : NavState l) (r : Prediction l) : Type 0 where
    pub more : List (NavState l)
    pub begins : r.states ≡ first ∷ more
    pub rises : Rises stamp_of first.timestamp more r.filter.current_time
    pub number : d.le r.filter.current_time r.filter.current_time ≡ true

  -- The trajectory so far.
  abbrev pub so_far : Bool → Eskf l → Imu D → List (NavState l) → Prediction l
  so_far ok f last states = record { accepted = ok; filter = f; last_imu = last; states = states }

  propagate-finite :
      (f : Eskf l) (left right : Imu D) (to : D)
      → (propagate_interval l f left right to).accepted ≡ true
      → d.is_finite to ≡ true
  unfolding propagate_interval refuses_interval
  propagate-finite f left right to =
      either (λ (r : Step l). r.accepted ≡ true → d.is_finite to ≡ true)
        (refuses_interval f.current_time left right to) _ _ (λ e h. ground arith)
        (λ e h. ground arith)

  -- What a prediction that was accepted has: the trajectory, with at least two states, up to the end
  -- of the frame.
  pub record IsFrame (end_time : D) (first : NavState l) (r : Prediction l) : Type 0 where
    pub trajectory : IsTrajectory first r
    pub two_states : 2 ≤ length r.states
    pub at_end : d.lt (d.abs (d.sub r.filter.current_time end_time)) (d.decimal 1 9) ≡ true

  abbrev pub Fine : D → NavState l → Prediction l → Type 0
  Fine end_time first r = r.accepted ≡ true → IsFrame end_time first r

  reaches_end-Fine :
      (end_time : D) (first : NavState l) (r : Prediction l)
      → IsTrajectory first r
      → Fine end_time first (reaches_end l end_time r)
  unfolding reaches_end
  reaches_end-Fine end_time first r t h = record {
    trajectory = record { more = t.more; begins = t.begins; rises = t.rises; number = t.number };
    two_states = ground arith;
    at_end = ground arith;
  }

  push-IsTrajectory :
      (laws : IsOrdered D) (first : NavState l) (f : Eskf l) (last last2 left right : Imu D)
      (to : D) (states : List (NavState l))
      → (propagate_interval l f left right to).accepted ≡ true
      → d.le to f.current_time ≡ false
      → IsTrajectory first (so_far true f last states)
      → IsTrajectory first (
          so_far true
            (propagate_interval l f left right to).filter
            last2
            (states ++ (get_nominal_state l (propagate_interval l f left right to).filter ∷ [])))
  push-IsTrajectory laws first f last last2 left right to states ok later t =
      let n = (propagate_interval l f left right to).filter in
      let time = propagate-time l f left right to ok in
      let number = laws.le_of_finite to (propagate-finite f left right to ok) in
      let number2 = subst (λ x. d.le x x ≡ true) (sym time) number in
      record {
        more = t.more ++ (get_nominal_state l n ∷ []);
        begins = ap (λ ss. ss ++ (get_nominal_state l n ∷ [])) t.begins;
        rises =
            Rises-push stamp_of first.timestamp f.current_time t.more (get_nominal_state l n) laws
              t.rises
              (subst (λ x. d.lt f.current_time x ≡ true) (sym time)
                (laws.lt_of_not_le to f.current_time number t.number later))
              number2;
        number = number2;
      }

  predict_loop-Fine :
      (laws : IsOrdered D) (end_time : D) (samples : List (Imu D)) (f : Eskf l) (last : Imu D)
      (states : List (NavState l)) (first : NavState l)
      → IsTrajectory first (so_far true f last states)
      → Fine end_time first (predict_loop l end_time samples f last states)
  unfolding predict_loop
  predict_loop-Fine laws end_time [] f last states first t =
      reaches_end-Fine end_time first (so_far true f last states) t
  predict_loop-Fine laws end_time (imu ∷ rest) f last states first t =
      let to = until l end_time imu.timestamp in
      let r = propagate_interval l f last imu to in
      let longer = states ++ (get_nominal_state l r.filter ∷ []) in
      let next = next_last l to imu last in
      either (Fine end_time first) (d.le imu.timestamp f.current_time) _ _
        (λ e. predict_loop-Fine laws end_time rest f last states first t)
        (λ e.
          either (Fine end_time first) (d.le to f.current_time) _ _
            (λ m. reaches_end-Fine end_time first (so_far true f last states) t)
            (λ m.
              either (Fine end_time first) (not r.accepted) _ _ (λ k h. ground arith)
                (λ k.
                  let pushed =
                    push-IsTrajectory laws first f last next last imu to states (ground arith) m
                      t in
                  either (Fine end_time first) (d.eq to end_time) _ _
                    (λ z. reaches_end-Fine end_time first (so_far true r.filter next longer) pushed)
                    (λ z. predict_loop-Fine laws end_time rest r.filter next longer first pushed))))

  abbrev pub FineOption : D → NavState l → Option (Prediction l) → Type 0
  FineOption end_time first none = Unit
  FineOption end_time first (some r) = Fine end_time first r

  -- From a filter at a finite time, a prediction that is accepted has a trajectory of at least two
  -- states, the first of them the filter's state before it, whose stamps rise strictly up to the
  -- filter's time, and this is the end of the frame up to a nanosecond.
  pub predict_frame-Fine :
      (laws : IsOrdered D) (prediction_fault : Bool) (end_time : D) (samples : List (Imu D))
      (last_imu : Option (Imu D)) (f : Eskf l)
      → d.is_finite f.current_time ≡ true
      → FineOption end_time
          (get_nominal_state l f)
          (predict_frame l prediction_fault end_time samples last_imu f)
  unfolding predict_frame
  predict_frame-Fine laws prediction_fault end_time samples none f h = tt
  predict_frame-Fine laws prediction_fault end_time samples (some last) f h =
      let number = laws.le_of_finite f.current_time h in
      either (FineOption end_time (get_nominal_state l f)) prediction_fault _ _ (λ e. tt)
        (λ e.
          predict_loop-Fine laws end_time samples f last (get_nominal_state l f ∷ [])
            (get_nominal_state l f)
            (record { more = []; begins = refl; rises = number; number = number }))
