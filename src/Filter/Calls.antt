-- ===== src/Filter/Calls.antt =====
-- What each call of the filter promises: it is a transaction, and it keeps the state finite.
use adaptive_lio.Common.{◌≡◌, true, false, ◌⊎◌, inl, inr, List, [], ◌∷◌, arith}
use adaptive_lio.Common.Double.{Double}
use adaptive_lio.Imu.{Imu, usable}
use adaptive_lio.Linear.{Linear, Se3}
use adaptive_lio.Filter.{
  Eskf, Snapshot, Step, valid_snapshot, export_snapshot, snapshot_finite, restore_snapshot,
}
use adaptive_lio.Filter.Steps.{
  can_predict, predicted, predict, observed, adopt, observe_with, observe_checked, observe_se3,
  state_finite, update_and_reset, project_cov,
}

module _ {D : Type 0} ⦃d : Double D⦄ (l : Linear D) where
  -- A call that answers false changes nothing; one that answers true leads to `P`.
  abbrev pub IsTransaction : (Eskf l → Type 0) → Eskf l → Step l → Type 0
  IsTransaction P f r = ((r.accepted ≡ false) × (r.filter ≡ f)) ⊎ ((r.accepted ≡ true) × P r.filter)

  pub record IsPredicted (imu : Imu D) (f n : Eskf l) : Type 0 where
    pub at_sample : n.current_time ≡ imu.timestamp
    pub usable_sample : usable imu.quality ≡ true
    pub later : d.le (d.sub imu.timestamp f.current_time) (d.decimal 0 0) ≡ false
    pub no_gap :
        d.lt (d.mul (d.decimal 5 0) f.options.imu_dt) (d.sub imu.timestamp f.current_time) ≡ false
    pub finite : state_finite l n ≡ true
    pub bg_kept : n.bg ≡ f.bg
    pub ba_kept : n.ba ≡ f.ba
    pub g_kept : n.g ≡ f.g
    pub noise_kept : n.noise ≡ f.noise
    pub options_kept : n.options ≡ f.options

  -- `Predict` answers false and changes nothing; or it answers true, the sample was usable and later
  -- than the filter by at most five of its periods, the filter is at the sample's time and finite,
  -- and biases, gravity, noise and options are as before.
  pub predict_lem :
      (imu : Imu D) (f : Eskf l) → IsTransaction (IsPredicted imu f) f (predict l imu f)
  unfolding predict can_predict predicted
  predict_lem imu f = ground arith

  pub record IsObserved (f n : Eskf l) : Type 0 where
    pub valid : valid_snapshot l (export_snapshot l n) ≡ true
    pub time_kept : n.current_time ≡ f.current_time
    pub noise_kept : n.noise ≡ f.noise
    pub options_kept : n.options ≡ f.options
    pub no_error : n.dx ≡ l.zero 18 1
    pub bg_frozen : f.options.update_bias_gyro ≡ false → n.bg ≡ f.bg
    pub ba_frozen : f.options.update_bias_acce ≡ false → n.ba ≡ f.ba

  adopt_lem :
      (pose : Se3 l.Matrix l.So3) (v : l.Matrix) (solve : l.Matrix → l.Matrix) (f : Eskf l)
      → IsTransaction (IsObserved f) f (adopt l (observed l pose v solve f) f)
  unfolding adopt observed update_and_reset project_cov
  adopt_lem pose v solve f = ground arith

  -- `ObserveSE3` answers false and changes nothing; or it answers true, and the posterior is a valid
  -- snapshot at the same time, with noise and options as before, no error state left, and the
  -- biases that are not estimated as before.
  pub observe_se3_lem :
      (pose : Se3 l.Matrix l.So3) (covariance : l.Matrix) (f : Eskf l)
      → IsTransaction (IsObserved f) f (observe_se3 l pose covariance f)
  unfolding observe_se3 observe_checked observe_with
  observe_se3_lem pose covariance f = ground arith

  -- `RestoreSnapshot` answers true if the snapshot is valid, and then the filter exports just this
  -- snapshot, whatever it was before; otherwise it answers false and leaves the filter unchanged.
  pub restore-export :
      (s : Snapshot l) (f : Eskf l)
      → ((valid_snapshot l s ≡ true)
          × ((restore_snapshot l s f).accepted ≡ true)
          × (export_snapshot l (restore_snapshot l s f).filter ≡ s))
        ⊎ ((valid_snapshot l s ≡ false)
            × ((restore_snapshot l s f).accepted ≡ false)
            × ((restore_snapshot l s f).filter ≡ f))
  unfolding restore_snapshot
  restore-export s f = ground arith

-- The calls that the two owners of a filter make, in any order.
pub data Call {D : Type 0} (l : Linear D) : Type 0 where
  predict_call : Imu D → Call l
  observe_call : Se3 l.Matrix l.So3 → l.Matrix → Call l
  restore_call : Snapshot l → Call l

module _ {D : Type 0} ⦃d : Double D⦄ (l : Linear D) where
  unfoldable pub apply : Call l → Eskf l → Step l
  apply (predict_call imu) f = predict l imu f
  apply (observe_call pose covariance) f = observe_se3 l pose covariance f
  apply (restore_call s) f = restore_snapshot l s f

  unfoldable pub run : List (Call l) → Eskf l → Eskf l
  run [] f = f
  run (c ∷ cs) f = run cs (apply c f).filter

  valid_snapshot-IsFinite :
      (f : Eskf l) → valid_snapshot l (export_snapshot l f) ≡ true → state_finite l f ≡ true
  unfolding valid_snapshot snapshot_finite
  valid_snapshot-IsFinite f h = ground arith

  apply-IsFinite :
      (c : Call l) (f : Eskf l) → state_finite l f ≡ true → state_finite l (apply c f).filter ≡ true
  unfolding apply
  apply-IsFinite (predict_call imu) f h = elim (predict_lem l imu f) [
    | inl (_, e) ↦ rw e h
    | inr (_, p) ↦ p.finite
  ]
  apply-IsFinite (observe_call pose covariance) f h = elim (observe_se3_lem l pose covariance f) [
    | inl (_, e) ↦ rw e h
    | inr (_, o) ↦ valid_snapshot-IsFinite (observe_se3 l pose covariance f).filter o.valid
  ]
  apply-IsFinite (restore_call s) f h = elim (restore-export l s f) [
    | inl (v, _, e) ↦ valid_snapshot-IsFinite (restore_snapshot l s f).filter (rw e v)
    | inr (_, _, e) ↦ rw e h
  ]

  -- Whatever samples, observations and snapshots arrive, in any order, a filter whose position,
  -- velocity, rotation and covariance are finite stays so.
  pub run-IsFinite :
      (cs : List (Call l)) (f : Eskf l) → state_finite l f ≡ true → state_finite l (run cs f) ≡ true
  unfolding run
  run-IsFinite [] f h = h
  run-IsFinite (c ∷ cs) f h = run-IsFinite cs (apply c f).filter (apply-IsFinite c f h)
