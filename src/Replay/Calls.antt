-- ===== src/Replay/Calls.antt =====
-- The invariant of `ImuOdomPredictor` over all its methods.
use adaptive_lio.Common.{
  ◌≡◌, refl, true, false, not, ◌||◌, inl, inr, Option, none, some, List, [], ◌∷◌, arith, either,
  ◌<◌, Bool-cases, is_empty,
}
use adaptive_lio.Common.Double.{Double, IsOrdered}
use adaptive_lio.Imu.{Imu}
use adaptive_lio.Linear.{Linear}
use adaptive_lio.Filter.{Step, restore_snapshot}
use adaptive_lio.Replay.{Predictor, LioStateUpdate, append, submit, publishable, fail, increment}
use adaptive_lio.Replay.Advance.{
  Flow, going, returned, advance, take_pending, catch_up, adopt_update, reached, precedes,
  after_replay, replay_from, upper_bound,
}
use adaptive_lio.Replay.Steps.{
  PendingOk, IsValid, IsStep, quiet-IsStep, fail-IsStep, miss-IsStep, append-IsStep, submit-IsStep,
  publishable-IsStep,
}

-- The methods of the predictor.
pub data Call {D : Type 0} (l : Linear D) : Type 0 where
  append_call : Imu D → Call l
  submit_call : LioStateUpdate l → Call l
  advance_call : Call l
  publishable_call : Call l
  fail_call : Call l

module _ {D : Type 0} ⦃d : Double D⦄ (l : Linear D) where
  -- The part of a step that a flow of `Advance` has made.
  abbrev pub FlowStep : Predictor l → Flow l → Type 0
  FlowStep p (going n) = IsStep l p n
  FlowStep p (returned n) = IsStep l p n × (n.faulted ≡ true)

  adopt_update-IsStep :
      (u : LioStateUpdate l) (r : Step l) (p : Predictor l)
      → p.faulted ≡ false
      → p.sequence < u.sequence
      → IsValid l p
      → IsStep l p (adopt_update l u r p)
  unfolding adopt_update
  adopt_update-IsStep u r p healthy newer v = elim (Bool-cases r.accepted) [
    | inl e ↦ rw e (record {
      valid = record {
        history = v.history;
        pending = tt;
        faulted_idle = λ h. ground arith;
        anchored = λ h. ground arith;
      };
      stays_faulted = λ h. h;
      sequence_grows = omega (arith, newer);
    })
    | inr e ↦ rw e (quiet-IsStep l p (record p { pending = none }) refl refl refl v.history tt v)
  ]

  pub take_pending-FlowStep :
      (o : Option (LioStateUpdate l)) (p : Predictor l)
      → p.faulted ≡ false
      → PendingOk l p.sequence o
      → IsValid l p
      → FlowStep p (take_pending l o p)
  unfolding take_pending fail
  take_pending-FlowStep none p healthy ok v =
      quiet-IsStep l p p refl refl refl v.history v.pending v
  take_pending-FlowStep (some u) p healthy ok v =
      elim (Bool-cases (reached u.state.nav.timestamp p.history)) [
        | inl e ↦ elim (Bool-cases (precedes u.state.nav.timestamp p.history)) [
          | inl m ↦ rw (e, m) (miss-IsStep l p v, refl)
          | inr m ↦
              rw (e, m)
                (adopt_update-IsStep u (restore_snapshot l u.state p.filter) p healthy ok.1 v)
        ]
        | inr e ↦ rw e (quiet-IsStep l p p refl refl refl v.history v.pending v)
      ]

  IsStep-trans : (p n m : Predictor l) → IsStep l p n → IsStep l n m → IsStep l p m
  IsStep-trans p n m a b = record {
    valid = b.valid;
    stays_faulted = λ h. b.stays_faulted (a.stays_faulted h);
    sequence_grows = omega (arith, a.sequence_grows, b.sequence_grows);
  }

  after_replay-IsStep :
      (r : Step l) (p : Predictor l) → IsValid l p → IsStep l p (after_replay l r p)
  after_replay-IsStep r p v =
      either (IsStep l p) r.accepted _ _
        (λ e.
          quiet-IsStep l p (record p { filter = r.filter }) refl refl refl v.history v.pending v)
        (λ e.
          fail-IsStep l
            (record p {
              filter = r.filter;
              counters = record p.counters { gap = increment p.counters.gap };
            })
            p v.history refl)

  unchanged-IsStep : (p : Predictor l) → IsValid l p → IsStep l p p
  unchanged-IsStep p v = quiet-IsStep l p p refl refl refl v.history v.pending v

  going-IsStep : (p : Predictor l) → IsValid l p → IsStep l p (catch_up l (going p))
  unfolding catch_up
  going-IsStep p v =
      either (IsStep l p) (not p.initialized) _ _ (λ e. unchanged-IsStep p v)
        (λ e.
          either (IsStep l p) (precedes p.filter.current_time p.history) _ _
            (λ m. miss-IsStep l p v)
            (λ m.
              after_replay-IsStep
                (replay_from l (upper_bound p.filter.current_time none p.history) p.filter) p v))

  flow-IsStep : (p : Predictor l) (flow : Flow l) → FlowStep p flow → IsStep l p (catch_up l flow)
  unfolding catch_up
  flow-IsStep p (returned n) s = s.0
  flow-IsStep p (going n) s = IsStep-trans p n (catch_up l (going n)) s (going-IsStep n s.valid)

  advance-IsStep : (p : Predictor l) → IsValid l p → IsStep l p (advance l p)
  unfolding advance
  advance-IsStep p v =
      either (IsStep l p) (p.faulted || is_empty p.history) _ _ (λ e. unchanged-IsStep p v)
        (λ e.
          flow-IsStep p (take_pending l p.pending p)
            (take_pending-FlowStep p.pending p (ground arith) v.pending v))

  unfoldable pub call : Call l → Predictor l → Predictor l
  call (append_call imu) p = (append l imu p).predictor
  call (submit_call u) p = (submit l u p).predictor
  call advance_call p = advance l p
  call publishable_call p = (publishable l p).predictor
  call fail_call p = fail l p

  pub call-IsStep :
      (laws : IsOrdered D) (c : Call l) (p : Predictor l) → IsValid l p → IsStep l p (call c p)
  unfolding call
  call-IsStep laws (append_call imu) p v = append-IsStep l laws imu p v
  call-IsStep laws (submit_call u) p v = submit-IsStep l u p v
  call-IsStep laws advance_call p v = advance-IsStep p v
  call-IsStep laws publishable_call p v = publishable-IsStep l p v
  call-IsStep laws fail_call p v = fail-IsStep l p p v.history refl

  unfoldable pub calls : List (Call l) → Predictor l → Predictor l
  calls [] p = p
  calls (c ∷ cs) p = calls cs (call c p)

  -- After any sequence of calls from a valid predictor: the history holds at most 20000 samples,
  -- all usable, with strictly rising stamps; the update that waits is valid and newer than the one
  -- applied; a faulted predictor is not initialised and stays faulted; the sequence number of the
  -- applied posterior never goes back.
  pub calls-IsStep :
      (laws : IsOrdered D) (cs : List (Call l)) (p : Predictor l)
      → IsValid l p
      → IsStep l p (calls cs p)
  unfolding calls
  calls-IsStep laws [] p v = unchanged-IsStep p v
  calls-IsStep laws (c ∷ cs) p v =
      let s = call-IsStep laws c p v in
      IsStep-trans p (call c p) (calls cs (call c p)) s (calls-IsStep laws cs (call c p) s.valid)
