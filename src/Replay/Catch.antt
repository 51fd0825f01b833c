-- ===== src/Replay/Catch.antt =====
-- Where `ImuOdomPredictor::Advance` ends: the filter has used the whole history.
use adaptive_lio.Common.{
  ◌≡◌, refl, sym, subst, true, false, not, ◌||◌, inl, inr, Option, none, some, List, [], ◌∷◌, arith,
  either, All, Bool-cases, is_empty,
}
use adaptive_lio.Common.Double.{Double, IsOrdered}
use adaptive_lio.Imu.{Imu}
use adaptive_lio.Linear.{Linear}
use adaptive_lio.Filter.{Eskf, Step}
use adaptive_lio.Filter.Calls.{predict_lem}
use adaptive_lio.Replay.{Predictor, fail, propagate_interval, refuses_interval, endpoint}
use adaptive_lio.Replay.Advance.{
  Flow, going, returned, advance, take_pending, catch_up, precedes, miss, after_replay,
  after_failure, replay_from, upper_bound, replay,
}
use adaptive_lio.Replay.History.{Before, After, Rising}
use adaptive_lio.Replay.Steps.{IsValid}
use adaptive_lio.Replay.Calls.{FlowStep, take_pending-FlowStep}

module _ {D : Type 0} ⦃d : Double D⦄ where
  abbrev pub NotLater : D → Imu D → Type 0
  NotLater t y = d.lt t y.timestamp ≡ false

  -- Every sample of `seen` is before every one of `xs`.
  abbrev pub Crossed : List (Imu D) → List (Imu D) → Type 0
  Crossed seen xs = All (λ x. All (Before x.timestamp) seen) xs

  not_after : (laws : IsOrdered D) (t y : D) → d.lt y t ≡ true → d.lt t y ≡ false
  not_after laws t y h = elim (Bool-cases (d.lt t y)) [
    | inl e ↦ cc (laws.lt_trans t y t e h, laws.lt_irrefl t)
    | inr e ↦ e
  ]

  Before-NotLater :
      (laws : IsOrdered D) (t : D) (ys : List (Imu D)) → All (Before t) ys → All (NotLater t) ys
  Before-NotLater laws t [] b = tt
  Before-NotLater laws t (y ∷ ys) (yt, b) =
      (not_after laws t y.timestamp yt, Before-NotLater laws t ys b)

  Crossed-push :
      (x : Imu D) (seen xs : List (Imu D))
      → Crossed seen xs
      → All (After x.timestamp) xs
      → Crossed (x ∷ seen) xs
  Crossed-push x seen [] c a = tt
  Crossed-push x seen (y ∷ ys) (cy, c) (xy, a) = ((xy, cy), Crossed-push x seen ys c a)

module _ {D : Type 0} ⦃d : Double D⦄ (l : Linear D) where
  pub propagate-time :
      (f : Eskf l) (left right : Imu D) (to : D)
      → (propagate_interval l f left right to).accepted ≡ true
      → (propagate_interval l f left right to).filter.current_time ≡ to
  unfolding propagate_interval endpoint
  propagate-time f left right to =
      either (λ (r : Step l). r.accepted ≡ true → r.filter.current_time ≡ to)
        (refuses_interval f.current_time left right to) _ _ (λ e h. ground arith)
        (λ e h. elim (predict_lem l (endpoint left right to) f) [
          | inl (n, _) ↦ ground arith
          | inr (_, p) ↦ p.at_sample
        ])

  -- If the answer is true, the filter has reached all of these samples.
  abbrev pub Reaches : List (Imu D) → List (Imu D) → Step l → Type 0
  Reaches seen xs r =
      r.accepted ≡ true
      → All (NotLater r.filter.current_time) seen × All (NotLater r.filter.current_time) xs

  -- The loop over the later samples ends at the last of them.
  replay-Reaches :
      (laws : IsOrdered D) (before : Option (Imu D)) (xs : List (Imu D)) (f : Eskf l)
      (seen : List (Imu D))
      → All (NotLater f.current_time) seen
      → Crossed seen xs
      → Rising xs
      → Reaches seen xs (replay l before xs f)
  unfolding replay
  replay-Reaches laws before [] f seen n c r = λ h. (n, tt)
  replay-Reaches laws none (x ∷ xs) f seen n c r = λ h. ground arith
  replay-Reaches laws (some left) (x ∷ xs) f seen n (cx, c) (after, r) =
      let next = propagate_interval l f left x x.timestamp in
      either (Reaches seen (x ∷ xs)) next.accepted _ _
        (λ e h.
          let time = propagate-time f left x x.timestamp e in
          let caught = Before-NotLater laws x.timestamp seen cx in
          let ((nx, ns), nxs) =
            replay-Reaches laws (some x) xs next.filter (x ∷ seen)
              (subst (λ t. All (NotLater t) (x ∷ seen)) (sym time)
                (laws.lt_irrefl x.timestamp, caught))
              (Crossed-push x seen xs c after) r h in
          (ns, (nx, nxs)))
        (λ e h. ground arith)

  place-Reaches :
      (laws : IsOrdered D) (before : Option (Imu D)) (xs : List (Imu D)) (f : Eskf l)
      (seen : List (Imu D))
      → All (NotLater f.current_time) seen
      → Crossed seen xs
      → Rising xs
      → Reaches seen xs (replay_from l (upper_bound f.current_time before xs) f)
  unfolding upper_bound replay
  place-Reaches laws before [] f seen n c r = λ h. (n, tt)
  place-Reaches laws before (x ∷ xs) f seen n (cx, c) (after, r) =
      either (λ place. Reaches seen (x ∷ xs) (replay_from l place f))
        (d.lt f.current_time x.timestamp) _ _
        (λ e. replay-Reaches laws before (x ∷ xs) f seen n (cx, c) (after, r))
        (λ e h.
          let ((nx, ns), nxs) =
            place-Reaches laws (some x) xs f (x ∷ seen) (e, n) (Crossed-push x seen xs c after) r
              h in
          (ns, (nx, nxs)))

  -- A predictor that can give its state has used all the samples it holds.
  abbrev pub IsCaughtUp : Predictor l → Type 0
  IsCaughtUp p =
      p.faulted ≡ false → p.initialized ≡ true → All (NotLater p.filter.current_time) p.history

  nothing-Crossed : (xs : List (Imu D)) → Crossed [] xs
  nothing-Crossed [] = tt
  nothing-Crossed (x ∷ xs) = (tt, nothing-Crossed xs)

  faulted-IsCaughtUp : (p : Predictor l) → p.faulted ≡ true → IsCaughtUp p
  faulted-IsCaughtUp p h healthy = ground arith

  after_replay-IsCaughtUp :
      (r : Step l) (p : Predictor l) → Reaches [] p.history r → IsCaughtUp (after_replay l r p)
  unfolding fail
  after_replay-IsCaughtUp r p reaches =
      either IsCaughtUp r.accepted _ _ (λ e healthy ready. (reaches e).1)
        (λ e. faulted-IsCaughtUp (after_failure l r p) refl)

  flow-IsCaughtUp :
      (laws : IsOrdered D) (p : Predictor l) (flow : Flow l)
      → FlowStep l p flow
      → IsCaughtUp (catch_up l flow)
  unfolding catch_up fail
  flow-IsCaughtUp laws p (returned n) s = faulted-IsCaughtUp n s.1
  flow-IsCaughtUp laws p (going n) s =
      either IsCaughtUp (not n.initialized) _ _ (λ e healthy ready. ground arith)
        (λ e.
          either IsCaughtUp (precedes n.filter.current_time n.history) _ _
            (λ m. faulted-IsCaughtUp (miss l n) refl)
            (λ m. after_replay-IsCaughtUp _ n (
              place-Reaches laws none n.history n.filter [] tt (nothing-Crossed n.history)
                s.valid.history.fits.1)))

  skipped-IsCaughtUp :
      (p : Predictor l) (h : List (Imu D))
      → (p.faulted || is_empty h ≡ true)
      → p.faulted ≡ false
      → All (NotLater p.filter.current_time) h
  skipped-IsCaughtUp p [] e healthy = tt
  skipped-IsCaughtUp p (x ∷ xs) e healthy = ground arith

  -- After `Advance`, a predictor that has not failed and is initialised has replayed its whole
  -- history: no sample that it holds is later than its filter.
  pub advance-IsCaughtUp :
      (laws : IsOrdered D) (p : Predictor l) → IsValid l p → IsCaughtUp (advance l p)
  unfolding advance
  advance-IsCaughtUp laws p v =
      either IsCaughtUp (p.faulted || is_empty p.history) _ _
        (λ e healthy ready. skipped-IsCaughtUp p p.history e healthy)
        (λ e.
          flow-IsCaughtUp laws p (take_pending l p.pending p)
            (take_pending-FlowStep l p.pending p (ground arith) v.pending v))
