-- ===== src/Replay/Timed.antt =====
-- The time of the predictor's filter is a finite number once it has a posterior.
use adaptive_lio.Common.{
  ◌≡◌, refl, sym, subst, true, false, not, ◌||◌, Option, none, some, List, [], ◌∷◌, arith, either,
  All, is_empty,
}
use adaptive_lio.Common.Double.{Double}
use adaptive_lio.Imu.{Imu}
use adaptive_lio.Linear.{Linear}
use adaptive_lio.Filter.{Eskf, Step, Snapshot, valid_snapshot, snapshot_finite, restore_snapshot}
use adaptive_lio.Replay.{
  Predictor, LioStateUpdate, append, submit, publishable, fail, propagate_interval,
}
use adaptive_lio.Replay.Advance.{
  Flow, going, returned, advance, take_pending, adopt_update, reached, catch_up, precedes, miss,
  after_failure, replay_from, upper_bound, replay,
}
use adaptive_lio.Replay.History.{IsFit}
use adaptive_lio.Replay.Steps.{IsValid}
use adaptive_lio.Replay.Calls.{
  Call, append_call, submit_call, advance_call, publishable_call, fail_call, call, FlowStep,
  take_pending-FlowStep,
}
use adaptive_lio.Replay.Catch.{propagate-time}

module _ {D : Type 0} ⦃d : Double D⦄ (l : Linear D) where
  abbrev pub IsTimed : Predictor l → Type 0
  IsTimed p = p.initialized ≡ true → d.is_finite p.filter.current_time ≡ true

  -- A step of the filter that was accepted ends at a finite time.
  abbrev pub EndsFinite : Step l → Type 0
  EndsFinite r = r.accepted ≡ true → d.is_finite r.filter.current_time ≡ true

  replay-EndsFinite :
      (before : Option (Imu D)) (xs : List (Imu D)) (f : Eskf l)
      → d.is_finite f.current_time ≡ true
      → All IsFit xs
      → EndsFinite (replay l before xs f)
  unfolding replay
  replay-EndsFinite before [] f h fits = λ a. h
  replay-EndsFinite none (x ∷ xs) f h fits = λ a. ground arith
  replay-EndsFinite (some left) (x ∷ xs) f h (fit, fits) =
      let next = propagate_interval l f left x x.timestamp in
      either EndsFinite next.accepted _ _
        (λ e.
          replay-EndsFinite (some x) xs next.filter
            (subst (λ t. d.is_finite t ≡ true) (sym (propagate-time l f left x x.timestamp e))
              fit.finite_stamp)
            fits)
        (λ e a. ground arith)

  place-EndsFinite :
      (t : D) (before : Option (Imu D)) (xs : List (Imu D)) (f : Eskf l)
      → d.is_finite f.current_time ≡ true
      → All IsFit xs
      → EndsFinite (replay_from l (upper_bound t before xs) f)
  unfolding upper_bound replay
  place-EndsFinite t before [] f h fits = λ a. h
  place-EndsFinite t before (x ∷ xs) f h (fit, fits) =
      either (λ place. EndsFinite (replay_from l place f)) (d.lt t x.timestamp) _ _
        (λ e. replay-EndsFinite before (x ∷ xs) f h (fit, fits))
        (λ e. place-EndsFinite t (some x) xs f h fits)

  restore-EndsFinite : (s : Snapshot l) (f : Eskf l) → EndsFinite (restore_snapshot l s f)
  unfolding restore_snapshot valid_snapshot snapshot_finite
  restore-EndsFinite s f = ground arith

  adopt_update-IsTimed :
      (u : LioStateUpdate l) (r : Step l) (p : Predictor l)
      → EndsFinite r
      → IsTimed p
      → IsTimed (adopt_update l u r p)
  unfolding adopt_update
  adopt_update-IsTimed u r p ends timed =
      either IsTimed r.accepted _ _ (λ e ready. ends e) (λ e. timed)

  abbrev pub FlowTimed : Flow l → Type 0
  FlowTimed (going n) = IsTimed n
  FlowTimed (returned n) = n.initialized ≡ false

  take_pending-FlowTimed :
      (o : Option (LioStateUpdate l)) (p : Predictor l) → IsTimed p → FlowTimed (take_pending l o p)
  unfolding take_pending fail
  take_pending-FlowTimed none p timed = timed
  take_pending-FlowTimed (some u) p timed =
      either FlowTimed (not (reached u.state.nav.timestamp p.history)) _ _ (λ e. timed)
        (λ e.
          either FlowTimed (precedes u.state.nav.timestamp p.history) _ _ (λ m. refl)
            (λ m.
              adopt_update-IsTimed u (restore_snapshot l u.state p.filter) p
                (restore-EndsFinite u.state p.filter) timed))

  idle-IsTimed : (p : Predictor l) → p.initialized ≡ false → IsTimed p
  idle-IsTimed p e h = ground arith

  flow-IsTimed :
      (p : Predictor l) (flow : Flow l)
      → FlowStep l p flow
      → FlowTimed flow
      → IsTimed (catch_up l flow)
  unfolding catch_up fail
  flow-IsTimed p (returned n) s timed = idle-IsTimed n timed
  flow-IsTimed p (going n) s timed =
      either IsTimed (not n.initialized) _ _ (λ e. timed)
        (λ e.
          either IsTimed (precedes n.filter.current_time n.history) _ _
            (λ m. idle-IsTimed (miss l n) refl)
            (λ m.
              let r = replay_from l (upper_bound n.filter.current_time none n.history) n.filter in
              either IsTimed r.accepted _ _
                (λ a ready.
                  place-EndsFinite n.filter.current_time none n.history n.filter
                    (timed (ground arith)) s.valid.history.fits.0 a)
                (λ a. idle-IsTimed (after_failure l r n) refl)))

  advance-IsTimed : (p : Predictor l) → IsValid l p → IsTimed p → IsTimed (advance l p)
  unfolding advance
  advance-IsTimed p v timed =
      either IsTimed (p.faulted || is_empty p.history) _ _ (λ e. timed)
        (λ e.
          flow-IsTimed p (take_pending l p.pending p)
            (take_pending-FlowStep l p.pending p (ground arith) v.pending v)
            (take_pending-FlowTimed p.pending p timed))

  -- Every method keeps it that a predictor with a posterior has a finite time.
  pub call-IsTimed : (c : Call l) (p : Predictor l) → IsValid l p → IsTimed p → IsTimed (call l c p)
  unfolding call append submit publishable fail
  call-IsTimed (append_call imu) p v timed = ground arith
  call-IsTimed (submit_call u) p v timed = ground arith
  call-IsTimed advance_call p v timed = advance-IsTimed p v timed
  call-IsTimed publishable_call p v timed = ground arith
  call-IsTimed fail_call p v timed = idle-IsTimed (fail l p) refl
