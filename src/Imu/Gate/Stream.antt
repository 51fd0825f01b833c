-- ===== src/Imu/Gate/Stream.antt =====
-- The gate over a stream of samples, as `imuHandler` of apps/main_ada.cpp runs it: what it forwards
-- to both estimators, in order. And the default options, under which it forwards no altered value.
use adaptive_lio.Common.{◌≡◌, refl, sym, ◌∙◌, true, false, List, [], ◌∷◌, arith}
use adaptive_lio.Common.Double.{Double, IsOrdered}
use adaptive_lio.Imu.Axes.{Axis, axes}
use adaptive_lio.Imu.{Imu, same, fresh_quality}
use adaptive_lio.Imu.Gate.{
  Gate, Scan, passed, stopped, Outcome, Decision, forward, drop, fault, check_axis, scan, finish,
  conclude, process, with_quality,
}
use adaptive_lio.Imu.Gate.Loop.{After, scan_keeps}
use adaptive_lio.Imu.Gate.Safety.{Inv, IsClean, IsForwarded, process-forward, process-IsForwarded}
use adaptive_lio.Imu.Gate.Fault.{process-fault, process-Inv}

module _ {D : Type 0} ⦃d : Double D⦄ where
  abbrev pub collect : Decision → Imu D → List (Imu D) → List (Imu D)
  collect forward s rest = s ∷ rest
  collect drop s rest = rest
  collect fault s rest = rest

  unfoldable pub forwarded : Gate D → List (Imu D) → List (Imu D)
  forwarded g [] = []
  forwarded g (s ∷ ss) =
      collect (process g s).decision (process g s).sample (forwarded (process g s).gate ss)

  -- Clean samples whose time stamps grow strictly, beginning after `b`.
  abbrev pub Ascends : D → List (Imu D) → Type 0
  Ascends b [] = Unit
  Ascends b (s ∷ ss) = (d.lt b s.timestamp ≡ true) × IsClean s × Ascends s.timestamp ss

  forwarded-faulted : (g : Gate D) (ss : List (Imu D)) → g.faulted ≡ true → forwarded g ss ≡ []
  unfolding forwarded
  forwarded-faulted g [] h = refl
  forwarded-faulted g (s ∷ ss) h =
      let (answers, stays, _) = process-fault g s in
      let gate = stays h in
      rw (answers.1 (rw gate h), forwarded) (forwarded-faulted (process g s).gate ss (rw gate h))

  collect-Ascends :
      {g : Gate D} {s : Imu D} {o : Outcome D} {rest : List (Imu D)} (c : Decision)
      → (c ≡ forward → IsForwarded g s o)
      → (c ≡ drop → o.gate ≡ g)
      → (c ≡ fault → rest ≡ [])
      → Ascends o.gate.last_stamp rest
      → Ascends g.last_stamp (collect c o.sample rest)
  collect-Ascends forward f _ _ a =
      let k = f refl in (rw k.same_stamp k.later, k.clean, rw (k.same_stamp ∙ sym k.next_stamp) a)
  collect-Ascends drop _ e _ a = rw (← e refl) a
  collect-Ascends fault _ _ e a = rw (e refl) tt

  -- However the input is disordered or corrupted, and even across a fault, what the gate forwards
  -- is a sequence of clean samples with strictly growing time stamps, all after the last one.
  pub forwarded-Ascends :
      IsOrdered D → (g : Gate D) (ss : List (Imu D)) → Inv g → Ascends g.last_stamp (forwarded g ss)
  unfolding forwarded
  forwarded-Ascends laws g [] v = tt
  forwarded-Ascends laws g (s ∷ ss) v =
      let (answers, _, dropped) = process-fault g s in
      collect-Ascends (process g s).decision (process-IsForwarded laws g s v) dropped
        (λ e. forwarded-faulted (process g s).gate ss (answers.0 e))
        (forwarded-Ascends laws (process g s).gate ss (process-Inv laws g s v))

  -- With no hold allowed the loop changes no value and clears no bit.
  IsUntouched : Imu D → Imu D → Type 0
  IsUntouched s s' =
      (s'.gyro ≡ s.gyro)
      × (s'.acce ≡ s.acce)
      × (s'.quality.valid_mask ≡ s.quality.valid_mask)
      × (s'.quality.saturation_mask ≡ s.quality.saturation_mask)
      × (s'.quality.held_mask ≡ s.quality.held_mask)

  check_axis-IsUntouched :
      (g : Gate D) (s : Imu D) (a : Axis) (g' : Gate D) (s' : Imu D)
      → (g'.options ≡ g.options) × IsUntouched s s'
      → d.le g.options.hold_seconds (d.decimal 0 0) ≡ true
      → After (λ g'' s''. (g''.options ≡ g.options) × IsUntouched s s'') (check_axis a g' s')
  unfolding check_axis IsUntouched
  check_axis-IsUntouched g s a g' s' k h =
      let closed : d.le g'.options.hold_seconds (d.decimal 0 0) ≡ true = rw (k.0) h in ground arith

  conclude-IsUntouched :
      (g : Gate D) (s : Imu D) (r : Scan D)
      → After (λ g' s'. (g'.options ≡ g.options) × IsUntouched s s') r
      → (conclude r).decision ≡ forward
      → IsUntouched s (conclude r).sample
  unfolding conclude finish IsUntouched
  conclude-IsUntouched g s (passed g' s') k h = ground arith
  conclude-IsUntouched g s (stopped g' s') k h = cc

  -- If no hold is allowed (the default), a forwarded sample has the values that were received, with
  -- every axis valid, none saturated and none held: a bad value makes the gate fail instead.
  pub process-fail_closed :
      (g : Gate D) (s : Imu D)
      → d.le g.options.hold_seconds (d.decimal 0 0) ≡ true
      → (process g s).decision ≡ forward
      → ((process g s).sample.gyro ≡ s.gyro)
        × ((process g s).sample.acce ≡ s.acce)
        × ((process g s).sample.quality.valid_mask ≡ same true)
        × ((process g s).sample.quality.saturation_mask ≡ same false)
        × ((process g s).sample.quality.held_mask ≡ same false)
  unfolding IsUntouched
  process-fail_closed g s h f =
      let (_, _, _, e) = process-forward g s f in
      let fresh = with_quality s fresh_quality in
      rw e (
        conclude-IsUntouched g fresh (scan axes g fresh)
          (scan_keeps (λ g' s'. (g'.options ≡ g.options) × IsUntouched fresh s')
            (λ a g' s' k. check_axis-IsUntouched g fresh a g' s' k h) axes g fresh
            (refl, (refl, refl, refl, refl, refl)))
          (rw e at f))
