-- ===== src/Sync/Measure.antt =====
-- What `getMeasureMents` hands to the estimator, and that every call keeps the buffers well formed.
use adaptive_lio.Common.{
  ℕ, ◌≡◌, refl, ap, subst, Bool, true, false, if◌then◌else◌, length-append, inl, inr, Option, none,
  some, List, [], ◌∷◌, ◌++◌, length, pop_front, front, back, arith, All, Bool-cases,
}
use adaptive_lio.Common.Double.{Double, IsOrdered}
use adaptive_lio.Imu.{Imu}
use adaptive_lio.Point.{Point}
use adaptive_lio.Point.Crop.{Within}
use adaptive_lio.Sync.{
  Span, Sync, SyncOptions, MeasureGroup, fail, request_stop, invalid_time, push_aux, push_lidar,
  push_imu, first_of, take_imu, measure, choose, get_measurements,
}
use adaptive_lio.Sync.Rising.{Rises, take_imu-IsSplit}
use adaptive_lio.Sync.Aux.{collect_aux-IsCollected}
use adaptive_lio.Sync.Invariant.{
  ScansOk, IsValid, fail-IsValid, push_imu-IsValid, push_lidar-IsValid, push_aux-IsValid,
  length-pop_front,
}

guard_stopped :
    {A : Type 0} (a b : Bool) (s x : A) → b ≡ true → (if a then s else (if b then s else x)) ≡ s
guard_stopped a b s x h = ground arith

module _ {D : Type 0} ⦃d : Double D⦄ where
  -- The measurement `m` for the oldest scan of `s`, and the state `s'` after it.
  pub record IsMeasured (o : SyncOptions D) (s : Sync D) (m : MeasureGroup D) (s' : Sync D)
      : Type 0 where
    pub span : Span D
    pub oldest_span : front s.time_buffer ≡ some span
    pub oldest_scan : front s.lidar_buffer ≡ some m.lidar
    pub begin_time : m.lidar_begin_time ≡ span.first
    pub end_time : m.lidar_end_time ≡ d.add span.first span.second
    -- The newest sample is not before the end of the scan and the delay.
    pub newest : Imu D
    pub is_newest : back s.imu_buffer ≡ some newest
    pub waited : d.lt newest.timestamp (d.add m.lidar_end_time o.delay_time) ≡ false
    -- The samples up to the end of the scan are consumed, those behind it stay, and the first of
    -- these is read as a bracket.
    pub taken : List (Imu D)
    pub nothing_lost : taken ++ s'.imu_buffer ≡ s.imu_buffer
    pub taken_until : All (λ x. d.le x.timestamp m.lidar_end_time ≡ true) taken
    pub rest_past : All (λ x. d.le x.timestamp m.lidar_end_time ≡ false) s'.imu_buffer
    pub bracketed : m.imu ≡ taken ++ first_of s'.imu_buffer
    -- The auxiliary points lie in the half-open span of the scan.
    pub aux_within : All (Within m.lidar_begin_time m.lidar_end_time) m.aux_lidar

  abbrev Found : SyncOptions D → Sync D → Option (MeasureGroup D × Sync D) → Type 0
  Found o s none = Unit
  Found o s (some (m, s')) = IsMeasured o s m s' × IsValid s'

  pop-ScansOk :
      (scans : List (List (Point D))) (times : List (Span D)) (ingress : List ℕ) (last : D)
      → ScansOk scans times ingress last
      → ScansOk (pop_front scans) (pop_front times) (pop_front ingress) last
  pop-ScansOk scans times ingress last q = record {
    low = (popped times q.low q.rises).0;
    rises = (popped times q.low q.rises).1;
    as_long = omega (arith, q.as_long, length-pop_front scans, length-pop_front times);
    as_long' = omega (arith, q.as_long', length-pop_front ingress, length-pop_front times);
    bounded = omega (arith, q.bounded, length-pop_front scans);
    number = q.number;
  }
    where
      popped :
          (times : List (Span D)) (low : D)
          → Rises (λ t. t.first) low times last
          → (b : D) × Rises (λ (t : Span D). t.first) b (pop_front times) last
      popped [] low r = (low, r)
      popped (t ∷ ts) low r = (t.first, r.1)

  few_or_All-Within :
      (b e : D) (few : Bool) (points : List (Point D))
      → All (Within b e) points
      → All (Within b e) (if few then [] else points)
  few_or_All-Within b e true points h = tt
  few_or_All-Within b e false points h = h

  measure-Found :
      (o : SyncOptions D) (s : Sync D) (newest : Imu D) (scan : List (Point D)) (t : Span D) (i : ℕ)
      → IsOrdered D
      → IsValid s
      → back s.imu_buffer ≡ some newest
      → front s.lidar_buffer ≡ some scan
      → front s.time_buffer ≡ some t
      → d.lt newest.timestamp (d.add (d.add t.first t.second) o.delay_time) ≡ false
      → Found o s (some (measure o s scan t i))
  unfolding measure
  measure-Found o s newest scan t i laws v n ls ts w =
      let e = d.add t.first t.second in
      let q = v.imu_ok in
      let split = take_imu-IsSplit e q.low s.last_timestamp_imu s.imu_buffer laws q.rises in
      let aux =
        collect_aux-IsCollected o t.first e s.aux_lidar_buffer s.aux_lidar_time_buffer
          s.aux_point_cursor [] v.aux_ok tt in
      (
        record {
          span = t;
          oldest_span = ts;
          oldest_scan = ls;
          begin_time = refl;
          end_time = refl;
          newest = newest;
          is_newest = n;
          waited = w;
          taken = (take_imu e s.imu_buffer).taken;
          nothing_lost = split.whole;
          taken_until = split.taken_until;
          rest_past = split.rest_past;
          bracketed = refl;
          aux_within = few_or_All-Within t.first e _ _ aux.within;
        },
        record {
          imu_ok = record {
            low = split.next_low;
            rises = split.rest_rises;
            bounded = omega (
              arith,
              q.bounded,
              ap length split.whole,
              length-append (take_imu e s.imu_buffer).taken (take_imu e s.imu_buffer).rest,
            );
            number = q.number;
          };
          scans_ok = pop-ScansOk _ _ _ _ v.scans_ok;
          aux_ok = aux.queue_ok;
        },
      )

  choose-Found :
      (o : SyncOptions D) (s : Sync D) (n : Option (Imu D)) (scans : List (List (Point D)))
      (times : List (Span D)) (ingress : List ℕ)
      → IsOrdered D
      → IsValid s
      → back s.imu_buffer ≡ n
      → s.lidar_buffer ≡ scans
      → s.time_buffer ≡ times
      → Found o s (choose o s n scans times ingress)
  unfolding choose
  choose-Found o s (some n) (scan ∷ scans) (t ∷ times) (i ∷ ingress) laws v en el et =
      elim (Bool-cases (d.lt n.timestamp (d.add (d.add t.first t.second) o.delay_time))) [
        | inl early ↦ rw early tt
        | inr ready ↦
            rw ready (measure-Found o s n scan t i laws v en (ap front el) (ap front et) ready)
      ]
  choose-Found o s _ _ _ _ laws v en el et = tt

  -- A measurement that is handed out is for the oldest scan, once samples up to its end and the
  -- delay have come. It has every waiting sample up to the end of the scan, in order, none is lost,
  -- and the first later one, which stays; its auxiliary points lie in the half-open span of the
  -- scan. The buffers stay well formed.
  pub get_measurements-IsMeasured :
      (o : SyncOptions D) (s : Sync D) {m : MeasureGroup D} {s' : Sync D}
      → IsOrdered D
      → IsValid s
      → get_measurements o s ≡ some (m, s')
      → IsMeasured o s m s' × IsValid s'
  unfolding get_measurements
  get_measurements-IsMeasured o s laws v e = subst (Found o s) e (
      choose-Found o s (back s.imu_buffer) s.lidar_buffer s.time_buffer s.ingress_time_buffer laws v
        refl refl refl)

  -- The calls, of the callbacks' threads and of the estimator's, in any order.
  pub data Step (o : SyncOptions D) : Sync D → Sync D → Type 0 where
    lidar :
        (points : List (Point D)) (t : Span D) (ingress : ℕ) (s : Sync D)
        → Step o s (push_lidar points t ingress s)
    aux : (points : List (Point D)) (t : Span D) (s : Sync D) → Step o s (push_aux points t s)
    imu : (x : Option (Imu D)) (s : Sync D) → Step o s (push_imu x s)
    measured :
        (s s' : Sync D) (m : MeasureGroup D) → get_measurements o s ≡ some (m, s') → Step o s s'
    failed : (s : Sync D) → Step o s (fail s)
    stopped : (s : Sync D) → Step o s (request_stop s)

  pub data Reach (o : SyncOptions D) (s : Sync D) : Sync D → Type 0 where
    here : Reach o s s
    next : {t u : Sync D} → Reach o s t → Step o t u → Reach o s u

  Step-IsValid :
      {o : SyncOptions D} {s u : Sync D} → IsOrdered D → Step o s u → IsValid s → IsValid u
  unfolding request_stop
  Step-IsValid laws (lidar points t ingress s) v = push_lidar-IsValid laws points t ingress s v
  Step-IsValid laws (aux points t s) v = push_aux-IsValid points t s v
  Step-IsValid laws (imu x s) v = push_imu-IsValid laws x s v
  Step-IsValid {o} laws (measured s s' m e) v = (get_measurements-IsMeasured o s laws v e).1
  Step-IsValid laws (failed s) v = fail-IsValid s v
  Step-IsValid laws (stopped s) v = record {
    imu_ok = v.imu_ok;
    scans_ok = v.scans_ok;
    aux_ok = v.aux_ok;
  }

  -- Whatever calls are made in whatever order, the queues keep their bounds, their deques stay as
  -- long as one another, time stamps rise strictly, and the cursor stays in its packet.
  pub Reach-IsValid :
      {o : SyncOptions D} {s u : Sync D} → IsOrdered D → IsValid s → Reach o s u → IsValid u
  Reach-IsValid laws v here = v
  Reach-IsValid laws v (next r st) = Step-IsValid laws st (Reach-IsValid laws v r)

  -- Once the node is stopping, no callback's data is buffered any more.
  pub stopped-ignores :
      (s : Sync D) (points : List (Point D)) (t : Span D) (ingress : ℕ) (x : Option (Imu D))
      → s.stopping ≡ true
      → (push_lidar points t ingress s ≡ s) × (push_aux points t s ≡ s) × (push_imu x s ≡ s)
  unfolding push_lidar push_aux push_imu
  stopped-ignores s points t ingress none h = (
    guard_stopped (invalid_time t) s.stopping s _ h,
    guard_stopped (invalid_time t) s.stopping s _ h,
    refl,
  )
  stopped-ignores s points t ingress (some x) h = (
    guard_stopped (invalid_time t) s.stopping s _ h,
    guard_stopped (invalid_time t) s.stopping s _ h,
    guard_stopped _ s.stopping s _ h,
  )
