-- ===== src/Output/Bounds.antt =====
-- What one call or round of `ImuOdomOutput` keeps.
use adaptive_lio.Common.{
  ℕ, ◌-◌, ◌≤◌, ◌≡◌, refl, Bool, true, false, not, ◌||◌, ◌&&◌, Option, none, some, List, [], ◌∷◌,
  ◌++◌, arith, either, ltb, ◌==◌, length, length-drop, All,
}
use adaptive_lio.Common.Double.{Double, IsOrdered}
use adaptive_lio.Imu.{Imu}
use adaptive_lio.Linear.{Linear}
use adaptive_lio.Replay.{Predictor, LioStateUpdate, publishable}
use adaptive_lio.Replay.Steps.{IsValid}
use adaptive_lio.Replay.Calls.{
  Call, append_call, submit_call, advance_call, publishable_call, call, call-IsStep,
}
use adaptive_lio.Replay.Timed.{IsTimed, call-IsTimed}
use adaptive_lio.Scan.{Numeric}
use adaptive_lio.Output.{
  Odometry, Worker, Batch, Round, PoseStamped, append_all, submit_some, feed, odometry, push_pose,
  extend_path, publish, passes, work, with_predictor, get_ros_time,
}

module _ {D : Type 0} ⦃d : Double D⦄ (l : Linear D) where
  -- What the worker needs of its predictor.
  abbrev pub PredictorOk : Predictor l → Type 0
  PredictorOk p = IsValid l p × IsTimed l p

  call-PredictorOk :
      (laws : IsOrdered D) (c : Call l) (p : Predictor l) → PredictorOk p → PredictorOk (call l c p)
  call-PredictorOk laws c p (v, timed) =
      ((call-IsStep l laws c p v).valid, call-IsTimed l c p v timed)

  append_all-PredictorOk :
      (laws : IsOrdered D) (xs : List (Imu D)) (p : Predictor l)
      → PredictorOk p
      → PredictorOk (append_all l xs p)
  unfolding append_all call
  append_all-PredictorOk laws [] p ok = ok
  append_all-PredictorOk laws (x ∷ xs) p ok =
      append_all-PredictorOk laws xs (call l (append_call x) p)
        (call-PredictorOk laws (append_call x) p ok)

  submit_some-PredictorOk :
      (laws : IsOrdered D) (u : Option (LioStateUpdate l)) (p : Predictor l)
      → PredictorOk p
      → PredictorOk (submit_some l u p)
  unfolding submit_some call
  submit_some-PredictorOk laws none p ok = ok
  submit_some-PredictorOk laws (some u) p ok = call-PredictorOk laws (submit_call u) p ok

  feed-PredictorOk :
      (laws : IsOrdered D) (b : Batch l) (p : Predictor l)
      → PredictorOk p
      → PredictorOk (feed l b p)
  unfolding feed call
  feed-PredictorOk laws b p ok =
      call-PredictorOk laws advance_call (submit_some l b.update (append_all l b.samples p)) (
        submit_some-PredictorOk laws b.update (append_all l b.samples p)
          (append_all-PredictorOk laws b.samples p ok))

  publishable-PredictorOk :
      (laws : IsOrdered D) (p : Predictor l)
      → PredictorOk p
      → PredictorOk (publishable l p).predictor
  unfolding call
  publishable-PredictorOk laws p ok = call-PredictorOk laws publishable_call p ok

  -- What it takes to publish: the predictor is healthy and within its limit.
  pub publishable-ready :
      (p : Predictor l)
      → (publishable l p).accepted ≡ true
      → ((publishable l p).predictor.initialized ≡ true)
        × (p.faulted ≡ false)
        × (d.lt p.prediction_limit (d.sub p.filter.current_time p.last_accepted) ≡ false)
  unfolding publishable
  publishable-ready p h = ground arith

  abbrev pub UpTo : D → Odometry l → Type 0
  UpTo t o = d.le o.time t ≡ true

  -- Newest first: each message is later than all before it.
  abbrev pub Falling : List (Odometry l) → Type 0
  Falling [] = Unit
  Falling (o ∷ os) = All (λ p. d.lt p.time o.time ≡ true) os × Falling os

  -- The header of a message has the time of its state.
  abbrev pub HasStamp : Numeric D → Odometry l → Type 0
  HasStamp lib o = o.stamp ≡ get_ros_time lib o.time

  -- The worker's invariant.
  pub record IsWorker (lib : Numeric D) (w : Worker l) : Type 0 where
    pub predictor_ok : PredictorOk w.predictor
    pub last_number : d.le w.last_published w.last_published ≡ true
    pub up_to_last : All (UpTo w.last_published) w.published
    pub falling : Falling w.published
    pub stamped : All (HasStamp lib) w.published
    pub path_bounded : length w.path ≤ w.max_path

  push_pose-bounded :
      (max_path : ℕ) (pose : PoseStamped l) (path : List (PoseStamped l))
      → length (push_pose l max_path pose path) ≤ max_path
  push_pose-bounded max_path pose path =
      let longer = path ++ (pose ∷ []) in
      either (λ xs. length xs ≤ max_path) (ltb max_path (length longer)) _ _
        (λ e. rw (length-drop (length longer - max_path) longer) (ground arith)) (λ e. ground arith)

  All-before :
      (laws : IsOrdered D) (t u : D) (os : List (Odometry l))
      → d.lt t u ≡ true
      → All (UpTo t) os
      → All (λ p. d.lt p.time u ≡ true) os
  All-before laws t u [] h a = tt
  All-before laws t u (o ∷ os) h (x, a) =
      (laws.lt_of_le_of_lt o.time t u x h, All-before laws t u os h a)

  All-UpTo :
      (laws : IsOrdered D) (u : D) (os : List (Odometry l))
      → All (λ p. d.lt p.time u ≡ true) os
      → All (UpTo u) os
  All-UpTo laws u [] a = tt
  All-UpTo laws u (o ∷ os) (x, a) = (laws.le_of_lt o.time u x, All-UpTo laws u os a)

  -- A message that has passed the last test of a round.
  pub record IsOutgoing (lib : Numeric D) (w : Worker l) (o : Odometry l) : Type 0 where
    pub number : d.le o.time o.time ≡ true
    pub later : d.lt w.last_published o.time ≡ true
    pub stamped : HasStamp lib o

  abbrev pub IfOutgoing : Numeric D → Worker l → Option (Odometry l) → Type 0
  IfOutgoing lib w none = Unit
  IfOutgoing lib w (some o) = IsOutgoing lib w o

  extend_path-IsWorker :
      (lib : Numeric D) (n : ℕ) (o : Odometry l) (w : Worker l)
      → IsWorker lib w
      → IsWorker lib (extend_path l n o w)
  unfolding extend_path
  extend_path-IsWorker lib n o w i =
      either (IsWorker lib)
        (not (w.max_path == 0) && ltb 0 n && d.le (d.decimal 1 1) (d.sub o.time w.last_path)) _ _
        (λ e. record {
          predictor_ok = i.predictor_ok;
          last_number = i.last_number;
          up_to_last = i.up_to_last;
          falling = i.falling;
          stamped = i.stamped;
          path_bounded =
              push_pose-bounded w.max_path (record { stamp = o.stamp; pose = o.content.pose })
                w.path;
        })
        (λ e. i)

  pub publish-IsWorker :
      (laws : IsOrdered D) (lib : Numeric D) (n : ℕ) (o : Odometry l) (w : Worker l)
      → IsOutgoing lib w o
      → IsWorker lib w
      → IsWorker lib (publish l n o w)
  unfolding publish
  publish-IsWorker laws lib n o w out i =
      let before = All-before laws w.last_published o.time w.published out.later i.up_to_last in
      extend_path-IsWorker lib n o
        (record w { last_published = o.time; published = o ∷ w.published })
        (record {
          predictor_ok = i.predictor_ok;
          last_number = out.number;
          up_to_last = (out.number, All-UpTo laws o.time w.published before);
          falling = (before, i.falling);
          stamped = (out.stamped, i.stamped);
          path_bounded = i.path_bounded;
        })

  with_predictor-IsWorker :
      (lib : Numeric D) (w : Worker l) (p : Predictor l)
      → IsWorker lib w
      → PredictorOk p
      → IsWorker lib (with_predictor l w p)
  with_predictor-IsWorker lib w p i ok = record {
    predictor_ok = ok;
    last_number = i.last_number;
    up_to_last = i.up_to_last;
    falling = i.falling;
    stamped = i.stamped;
    path_bounded = i.path_bounded;
  }

  passes-IsOutgoing :
      (laws : IsOrdered D) (lib : Numeric D) (faulted : Bool) (o : Odometry l) (w : Worker l)
      → IsWorker lib w
      → d.le o.time o.time ≡ true
      → HasStamp lib o
      → IfOutgoing lib w (passes l faulted o w)
  unfolding passes
  passes-IsOutgoing laws lib faulted o w i number stamped =
      either (IfOutgoing lib w) (d.le o.time w.last_published || faulted) _ _ (λ e. tt)
        (λ e. record {
          number = number;
          later = laws.lt_of_not_le o.time w.last_published number i.last_number (ground arith);
          stamped = stamped;
        })

  -- A round up to its last test keeps the worker's invariant, and what it goes on to publish is new.
  abbrev pub IsRound : Numeric D → Round l → Type 0
  IsRound lib r = IsWorker lib r.worker × IfOutgoing lib r.worker r.outgoing

  pub work-IsRound :
      (laws : IsOrdered D) (lib : Numeric D) (b : Batch l) (faulted : Bool) (w : Worker l)
      → IsWorker lib w
      → IsRound lib (work l lib b faulted w)
  unfolding work
  work-IsRound laws lib b faulted w i =
      let p = feed l b w.predictor in
      let ok = feed-PredictorOk laws b w.predictor i.predictor_ok in
      let answer = publishable l p in
      let ok2 = publishable-PredictorOk laws p ok in
      let ready = with_predictor-IsWorker lib w answer.predictor i ok2 in
      either (IsRound lib) p.faulted _ _ (λ e. (with_predictor-IsWorker lib w p i ok, tt))
        (λ e.
          either (IsRound lib) (not answer.accepted) _ _ (λ a. (ready, tt))
            (λ a. (
              ready,
              passes-IsOutgoing laws lib faulted (odometry l lib answer.predictor)
                  (with_predictor l w answer.predictor) ready
                  (laws.le_of_finite answer.predictor.filter.current_time
                    (ok2.1 (publishable-ready p (ground arith)).0))
                  refl,
            )))
