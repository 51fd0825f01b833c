-- ===== src/Imu/Gate/Safety.antt =====
-- What `ImuQualityGate::Process` promises for one sample, on every branch.
use adaptive_lio.Common.{◌≡◌, refl, ◌∙◌, true, false, ◌⊎◌, inl, inr, arith, Bool-cases}
use adaptive_lio.Common.Double.{Double, IsOrdered}
use adaptive_lio.Imu.Axes.{Axis, axes, get, channel}
use adaptive_lio.Imu.{Imu, all_finite, fresh_quality, usable}
use adaptive_lio.Imu.Gate.{
  Gate, Scan, passed, stopped, Outcome, forward, scan, update_episode, over_budget, finish,
  conclude, process, with_quality,
}
use adaptive_lio.Imu.Gate.Loop.{IsSound, IsKept, Scanned, After, scan-Scanned}

module _ {D : Type 0} ⦃d : Double D⦄ where
  -- A gate that has not failed is sound.
  abbrev pub Inv : Gate D → Type 0
  Inv g = g.faulted ≡ false → IsSound g

  -- A sample that both estimators can use.
  pub record IsClean (s : Imu D) : Type 0 where
    pub is_usable : usable s.quality ≡ true
    pub gyro_finite : all_finite s.gyro ≡ true
    pub acce_finite : all_finite s.acce ≡ true

  Scanned-IsClean : {g g' : Gate D} {s s' : Imu D} → Scanned g s axes g' s' → IsClean s'
  unfolding usable get channel
  Scanned-IsClean {g'} {s'} (k, v) =
      let cx = k.axis_covered Axis.gyro_x in
      let cy = k.axis_covered Axis.gyro_y in
      let cz = k.axis_covered Axis.gyro_z in
      let ax = k.axis_covered Axis.accel_x in
      let ay = k.axis_covered Axis.accel_y in
      let az = k.axis_covered Axis.accel_z in
      record { is_usable = ground arith; gyro_finite = ground arith; acce_finite = ground arith }

  finish-stamp :
      (g : Gate D) (s : Imu D)
      → (finish g s).decision ≡ forward
      → ((finish g s).gate.last_stamp ≡ s.timestamp) × ((finish g s).sample.timestamp ≡ s.timestamp)
  unfolding finish
  finish-stamp g s h = ground arith

  finish-IsClean : (g : Gate D) (s : Imu D) → IsClean s → IsClean (finish g s).sample
  unfolding finish usable
  finish-IsClean g s c = elim (Bool-cases (over_budget (update_episode g s) s)) [
    | inl e ↦ rw e c
    | inr e ↦ rw e (record {
      is_usable = c.is_usable;
      gyro_finite = c.gyro_finite;
      acce_finite = c.acce_finite;
    })
  ]

  -- A forwarded sample is later than the one before it, which its stamp replaces, and it is clean.
  pub record IsForwarded (g : Gate D) (s : Imu D) (o : Outcome D) : Type 0 where
    pub later : d.lt g.last_stamp s.timestamp ≡ true
    pub same_stamp : o.sample.timestamp ≡ s.timestamp
    pub next_stamp : o.gate.last_stamp ≡ s.timestamp
    pub clean : IsClean o.sample

  conclude-forward :
      (g : Gate D) (s : Imu D) (r : Scan D)
      → After (Scanned g s axes) r
      → (conclude r).decision ≡ forward
      → ((conclude r).sample.timestamp ≡ s.timestamp)
        × ((conclude r).gate.last_stamp ≡ s.timestamp)
        × IsClean (conclude r).sample
  unfolding conclude
  conclude-forward g s (passed g' s') p h =
      let stamps = finish-stamp g' s' h in
      (stamps.1 ∙ p.0.stamp, stamps.0 ∙ p.0.stamp, finish-IsClean g' s' (Scanned-IsClean p))
  conclude-forward g s (stopped g' s') p h = cc

  finish-same :
      (g : Gate D) (s : Imu D)
      → ((finish g s).gate.options ≡ g.options)
        × ((finish g s).gate.healthy ≡ g.healthy)
        × ((finish g s).gate.healthy_stamp ≡ g.healthy_stamp)
        × (((finish g s).gate.last_stamp ≡ g.last_stamp)
            ⊎ ((finish g s).gate.last_stamp ≡ s.timestamp))
  unfolding finish update_episode
  finish-same g s = ground arith

  pub finish-IsSound :
      (g : Gate D) (s : Imu D)
      → IsSound g
      → d.le s.timestamp s.timestamp ≡ true
      → IsSound (finish g s).gate
  finish-IsSound g s v n =
      let (o, h, t, l) = finish-same g s in
      record {
        scale_finite = rw o v.scale_finite;
        scale_ge = rw o v.scale_ge;
        held_finite = rw (h, t) v.held_finite;
        last_number = elim l [ inl e ↦ rw e v.last_number | inr e ↦ rw e n ];
      }

  pub fresh-IsKept :
      (laws : IsOrdered D) (g : Gate D) (s : Imu D)
      → IsSound g
      → d.is_finite s.timestamp ≡ true
      → IsKept g (with_quality s fresh_quality) g (with_quality s fresh_quality)
  unfolding get channel
  fresh-IsKept laws g s v t =
      let one = laws.one_finite in
      let ge = laws.le_of_finite (d.decimal 1 0) one in
      record {
        sound = v;
        axis_covered = λ b. ground arith;
        stamp = refl;
        stamp_finite = t;
        last = refl;
        same_options = refl;
        same_total = refl;
      }

  -- Which branch of `Process` forwards a sample.
  pub process-forward :
      (g : Gate D) (s : Imu D)
      → (process g s).decision ≡ forward
      → (g.faulted ≡ false)
        × (d.is_finite s.timestamp ≡ true)
        × (d.le s.timestamp g.last_stamp ≡ false)
        × (process g s ≡ conclude (scan axes g (with_quality s fresh_quality)))
  unfolding process
  process-forward g s h = ground arith

  -- Every sample that the gate forwards has a finite time stamp after the last one, finite values
  -- on all six axes and a usable quality, whatever the sample and the history were.
  pub process-IsForwarded :
      IsOrdered D
      → (g : Gate D) (s : Imu D) → Inv g
      → (process g s).decision ≡ forward
      → IsForwarded g s (process g s)
  process-IsForwarded laws g s v h =
      let (ok, t, late, e) = process-forward g s h in
      let v' = v ok in
      let fresh = with_quality s fresh_quality in
      let (stamp, next, c) =
        conclude-forward g fresh (scan axes g fresh)
          (scan-Scanned g fresh axes g fresh (fresh-IsKept laws g s v' t)) (rw e at h) in
      record {
        later = laws.lt_of_not_le _ _ (laws.le_of_finite _ t) v'.last_number late;
        same_stamp = rw e stamp;
        next_stamp = rw e next;
        clean = rw e c;
      }
