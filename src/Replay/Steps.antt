-- ===== src/Replay/Steps.antt =====
-- What one call of `ImuOdomPredictor` keeps, but for `Advance`.
use adaptive_lio.Common.{
  ℕ, ◌≡◌, refl, sym, ◌∙◌, subst, true, false, ◌⊎◌, inl, inr, Option, none, some, [], ◌∷◌, ◌++◌,
  arith, ◌≤◌, ◌<◌,
}
use adaptive_lio.Common.Double.{Double, IsOrdered}
use adaptive_lio.Imu.{Imu, usable}
use adaptive_lio.Linear.{Linear}
use adaptive_lio.Filter.{valid_snapshot}
use adaptive_lio.Replay.{
  Predictor, LioStateUpdate, append, submit, publishable, fail, increment, trim, invalid_update,
  stale_update, finite_sample, not_newer,
}
use adaptive_lio.Replay.Advance.{miss}
use adaptive_lio.Replay.History.{IsHistory, push-IsHistory}

module _ {D : Type 0} ⦃d : Double D⦄ (l : Linear D) where
  -- The update that waits has a valid state and is newer than the one that was applied.
  abbrev pub PendingOk : ℕ → Option (LioStateUpdate l) → Type 0
  PendingOk sequence none = Unit
  PendingOk sequence (some u) = (valid_snapshot l u.state ≡ true) × (sequence < u.sequence)

  pub record IsValid (p : Predictor l) : Type 0 where
    pub history : IsHistory p.history
    pub pending : PendingOk p.sequence p.pending
    pub faulted_idle : p.faulted ≡ true → p.initialized ≡ false
    pub anchored : p.initialized ≡ true → 0 < p.sequence

  -- How a call may change a valid predictor: it stays valid and faulted, and the sequence number of
  -- the applied posterior does not go back.
  pub record IsStep (p n : Predictor l) : Type 0 where
    pub valid : IsValid n
    pub stays_faulted : p.faulted ≡ true → n.faulted ≡ true
    pub sequence_grows : p.sequence ≤ n.sequence

  -- A step that leaves the flags and the applied posterior alone.
  pub quiet-IsStep :
      (p n : Predictor l)
      → n.sequence ≡ p.sequence
      → n.faulted ≡ p.faulted
      → n.initialized ≡ p.initialized
      → IsHistory n.history
      → PendingOk p.sequence n.pending
      → IsValid p
      → IsStep p n
  quiet-IsStep p n sequence faulted initialized history pending v = record {
    valid = record {
      history = history;
      pending = subst (λ s. PendingOk s n.pending) (sym sequence) pending;
      faulted_idle = λ h. initialized ∙ v.faulted_idle (sym faulted ∙ h);
      anchored = λ h. subst (λ s. 0 < s) (sym sequence) (v.anchored (sym initialized ∙ h));
    };
    stays_faulted = λ h. faulted ∙ h;
    sequence_grows = omega (arith, sequence);
  }

  -- `Fail()` after any change of the filter and the counters.
  pub fail-IsStep :
      (p n : Predictor l) → IsHistory p.history → p.sequence ≡ n.sequence → IsStep n (fail l p)
  unfolding fail
  fail-IsStep p n history sequence = record {
    valid = record {
      history = history;
      pending = tt;
      faulted_idle = λ h. refl;
      anchored = λ h. ground arith;
    };
    stays_faulted = λ h. refl;
    sequence_grows = omega (arith, sequence);
  }

  pub miss-IsStep : (p : Predictor l) → IsValid p → IsStep p (miss l p)
  miss-IsStep p v =
      fail-IsStep
        (record p {
          counters = record p.counters { history_miss = increment p.counters.history_miss };
        })
        p v.history refl

  append-cases :
      (imu : Imu D) (p : Predictor l)
      → ((append l imu p).predictor.history ≡ p.history)
        ⊎ ((((append l imu p).predictor.history
                ≡ trim (d.sub imu.timestamp p.history_seconds) (p.history ++ (imu ∷ [])))
              × (not_newer p.history imu.timestamp ≡ false))
            × (usable imu.quality ≡ true)
            × (d.is_finite imu.timestamp ≡ true)
            × (finite_sample imu ≡ true))
  unfolding append
  append-cases imu p = ground arith

  append-kept :
      (imu : Imu D) (p : Predictor l)
      → ((append l imu p).predictor.pending ≡ p.pending)
        × ((append l imu p).predictor.sequence ≡ p.sequence)
        × ((append l imu p).predictor.faulted ≡ p.faulted)
        × ((append l imu p).predictor.initialized ≡ p.initialized)
  unfolding append
  append-kept imu p = ground arith

  publishable-kept :
      (p : Predictor l)
      → ((publishable l p).predictor.pending ≡ p.pending)
        × ((publishable l p).predictor.sequence ≡ p.sequence)
        × ((publishable l p).predictor.faulted ≡ p.faulted)
        × ((publishable l p).predictor.initialized ≡ p.initialized)
        × ((publishable l p).predictor.history ≡ p.history)
  unfolding publishable
  publishable-kept p = ground arith

  submit-cases :
      (u : LioStateUpdate l) (p : Predictor l)
      → ((submit l u p).predictor.pending ≡ p.pending)
        ⊎ (((submit l u p).predictor.pending ≡ some u)
            × ((valid_snapshot l u.state ≡ true) × (p.sequence < u.sequence)))
  unfolding submit invalid_update stale_update
  submit-cases u p = ground arith

  submit-kept :
      (u : LioStateUpdate l) (p : Predictor l)
      → ((submit l u p).predictor.sequence ≡ p.sequence)
        × ((submit l u p).predictor.faulted ≡ p.faulted)
        × ((submit l u p).predictor.initialized ≡ p.initialized)
        × ((submit l u p).predictor.history ≡ p.history)
  unfolding submit
  submit-kept u p = ground arith

  pub append-IsStep :
      (laws : IsOrdered D) (imu : Imu D) (p : Predictor l)
      → IsValid p
      → IsStep p (append l imu p).predictor
  append-IsStep laws imu p v =
      let (pending, sequence, faulted, initialized) = append-kept imu p in
      quiet-IsStep p (append l imu p).predictor sequence faulted initialized
        (elim (append-cases imu p) [
          | inl e ↦ subst IsHistory (sym e) v.history
          | inr ((e, newer), usable_quality, finite_stamp, finite_values) ↦
              subst IsHistory (sym e) (
                push-IsHistory laws (d.sub imu.timestamp p.history_seconds) p.history imu v.history
                  (record {
                    usable_quality = usable_quality;
                    finite_stamp = finite_stamp;
                    finite_values = finite_values;
                  })
                  newer)
        ])
        (subst (PendingOk p.sequence) (sym pending) v.pending) v

  pub submit-IsStep :
      (u : LioStateUpdate l) (p : Predictor l) → IsValid p → IsStep p (submit l u p).predictor
  submit-IsStep u p v =
      let (sequence, faulted, initialized, history) = submit-kept u p in
      quiet-IsStep p (submit l u p).predictor sequence faulted initialized
        (subst IsHistory (sym history) v.history)
        (elim (submit-cases u p) [
          | inl e ↦ subst (PendingOk p.sequence) (sym e) v.pending
          | inr (e, ok) ↦ subst (PendingOk p.sequence) (sym e) ok
        ])
        v

  pub publishable-IsStep : (p : Predictor l) → IsValid p → IsStep p (publishable l p).predictor
  publishable-IsStep p v =
      let (pending, sequence, faulted, initialized, history) = publishable-kept p in
      quiet-IsStep p (publishable l p).predictor sequence faulted initialized
        (subst IsHistory (sym history) v.history)
        (subst (PendingOk p.sequence) (sym pending) v.pending) v
