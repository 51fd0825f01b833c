-- ===== src/Output/Order.antt =====
-- What holds of `ImuOdomOutput` in any interleaving of its callbacks and its worker.
use adaptive_lio.Common.{
  ℕ, ◌≤◌, ◌≡◌, refl, sym, ap, subst, ◌∙◌, Bool, true, ◌||◌, Option, none, some, List, [], ◌∷◌,
  arith, either, leb, length, length-append, if◌then◌else◌,
}
use adaptive_lio.Common.Double.{Double, IsOrdered}
use adaptive_lio.Imu.{Imu}
use adaptive_lio.Linear.{Linear}
use adaptive_lio.Replay.{LioStateUpdate}
use adaptive_lio.Scan.{Numeric}
use adaptive_lio.Output.{
  Shared, Worker, Batch, fail, newer, stop, on_imu, on_state, take_batch, work, passes, publish,
  extend_path, Odometry,
}
use adaptive_lio.Output.Bounds.{IsWorker, IsOutgoing, IfOutgoing, publish-IsWorker, work-IsRound}
use adaptive_lio.Output.Threads.{
  Phase, waiting, ended, holding, sending, System, Event, imu_event, state_event, stop_event,
  fail_event, take_event, work_event, publish_event, with_shared, taken, next_phase, take_in,
  work_on, send, step, run,
}

module _ {D : Type 0} ⦃d : Double D⦄ (l : Linear D) where
  -- The queue is bounded, and the callback was called once if there was a fault, and else never.
  pub record IsShared (s : Shared l) : Type 0 where
    pub queue_bounded : length s.imu_queue ≤ 20000
    pub called_once : s.fault_calls ≡ (if s.faulted then 1 else 0)

  fail-IsShared : (s : Shared l) → IsShared s → IsShared (fail l s)
  unfolding fail
  fail-IsShared s i = record {
    queue_bounded = i.queue_bounded;
    called_once = ground (arith, i.called_once);
  }

  on_imu-IsShared : (x : Imu D) (s : Shared l) → IsShared s → IsShared (on_imu l x s)
  unfolding on_imu
  on_imu-IsShared x s i =
      either IsShared (s.stopping || s.faulted) _ _ (λ e. i)
        (λ e.
          either IsShared (leb 20000 (length s.imu_queue)) _ _ (λ m. fail-IsShared s i)
            (λ m. record {
              queue_bounded = rw (length-append s.imu_queue (x ∷ [])) (ground arith);
              called_once = i.called_once;
            }))

  on_state-IsShared : (u : LioStateUpdate l) (s : Shared l) → IsShared s → IsShared (on_state l u s)
  unfolding on_state
  on_state-IsShared u s i =
      either IsShared (s.stopping || s.faulted) _ _ (λ e. i)
        (λ e.
          either IsShared (newer l u s.pending) _ _
            (λ m. record { queue_bounded = i.queue_bounded; called_once = i.called_once }) (λ m. i))

  abbrev pub PhaseOk : Numeric D → Worker l → Phase l → Type 0
  PhaseOk lib w waiting = Unit
  PhaseOk lib w ended = Unit
  PhaseOk lib w (holding b) = Unit
  PhaseOk lib w (sending o) = IsOutgoing l lib w o

  pub record IsSystem (lib : Numeric D) (s : System l) : Type 0 where
    pub shared_ok : IsShared s.shared
    pub worker_ok : IsWorker l lib s.worker
    pub phase_ok : PhaseOk lib s.worker s.phase

  -- What the worker still publishes without another look at `faulted_`.
  abbrev pub outgoing : Phase l → Option (Odometry l)
  outgoing waiting = none
  outgoing ended = none
  outgoing (holding b) = none
  outgoing (sending o) = some o

  -- Nothing new is published from `s` to `n`, except for the message on its way in `s`.
  pub data IsQuiet (s n : System l) : Type 0 where
    nothing :
        n.worker.published ≡ s.worker.published → outgoing n.phase ≡ outgoing s.phase → IsQuiet s n
    last_one :
        (o : Odometry l)
        → outgoing s.phase ≡ some o
        → n.worker.published ≡ o ∷ s.worker.published
        → outgoing n.phase ≡ none
        → IsQuiet s n

  -- A fault is not taken back, and from then on no other message starts on its way.
  pub record IsStep (lib : Numeric D) (s n : System l) : Type 0 where
    pub system : IsSystem lib n
    pub stays_faulted : s.shared.faulted ≡ true → n.shared.faulted ≡ true
    pub quiet : s.shared.faulted ≡ true → IsQuiet s n

  IsQuiet-then : (s m n : System l) → IsQuiet s m → IsQuiet m n → IsQuiet s n
  IsQuiet-then s m n (nothing p q) (nothing p' q') = nothing (p' ∙ p) (q' ∙ q)
  IsQuiet-then s m n (nothing p q) (last_one o e p' q') =
      last_one o (sym q ∙ e) (p' ∙ ap (λ os. o ∷ os) p) q'
  IsQuiet-then s m n (last_one o e p q) (nothing p' q') = last_one o e (p' ∙ p) (q' ∙ q)
  IsQuiet-then s m n (last_one o e p q) (last_one o' e' p' q') = let g = sym q ∙ e' in cc

  -- A step of the shared part only.
  shared-IsStep :
      (lib : Numeric D) (s : System l) (q : Shared l)
      → IsSystem lib s
      → IsShared q
      → (s.shared.faulted ≡ true → q.faulted ≡ true)
      → IsStep lib s (with_shared l s q)
  shared-IsStep lib s q i ok stays = record {
    system = record { shared_ok = ok; worker_ok = i.worker_ok; phase_ok = i.phase_ok };
    stays_faulted = stays;
    quiet = λ h. nothing refl refl;
  }

  on_imu-stays : (x : Imu D) (s : Shared l) → s.faulted ≡ true → (on_imu l x s).faulted ≡ true
  unfolding on_imu fail
  on_imu-stays x s h = ground arith

  on_state-stays :
      (u : LioStateUpdate l) (s : Shared l) → s.faulted ≡ true → (on_state l u s).faulted ≡ true
  unfolding on_state
  on_state-stays u s h = ground arith

  stop-IsShared : (s : Shared l) → IsShared s → IsShared (stop l s)
  unfolding stop
  stop-IsShared s i = record { queue_bounded = i.queue_bounded; called_once = i.called_once }

  unchanged-IsStep : (lib : Numeric D) (s : System l) → IsSystem lib s → IsStep lib s s
  unchanged-IsStep lib s i = record {
    system = i;
    stays_faulted = λ h. h;
    quiet = λ h. nothing refl refl;
  }

  taken-IsStep :
      (lib : Numeric D) (s : System l)
      → IsSystem lib s
      → outgoing s.phase ≡ none
      → IsStep lib s (taken l s (take_batch l s.shared))
  unfolding take_batch
  taken-IsStep lib s i idle =
      either (λ (o : Option (Batch l × Shared l)). IsStep lib s (taken l s o))
        (s.shared.stopping || s.shared.faulted) _ _
        (λ e. record {
          system = record { shared_ok = i.shared_ok; worker_ok = i.worker_ok; phase_ok = tt };
          stays_faulted = λ h. h;
          quiet = λ h. nothing refl (sym idle);
        })
        (λ e. record {
          system = record {
            shared_ok = record {
              queue_bounded = ground arith;
              called_once = i.shared_ok.called_once;
            };
            worker_ok = i.worker_ok;
            phase_ok = tt;
          };
          stays_faulted = λ h. h;
          quiet = λ h. nothing refl (sym idle);
        })

  take_in-IsStep :
      (lib : Numeric D) (p : Phase l) (s : System l)
      → s.phase ≡ p
      → IsSystem lib s
      → IsStep lib s (take_in l p s)
  take_in-IsStep lib waiting s e i = taken-IsStep lib s i (ap outgoing e)
  take_in-IsStep lib ended s e i = unchanged-IsStep lib s i
  take_in-IsStep lib (holding b) s e i = unchanged-IsStep lib s i
  take_in-IsStep lib (sending o) s e i = unchanged-IsStep lib s i

  -- A round that reads that there was a fault publishes nothing.
  work-quiet :
      (lib : Numeric D) (b : Batch l) (faulted : Bool) (w : Worker l)
      → faulted ≡ true
      → ((work l lib b faulted w).worker.published ≡ w.published)
        × ((work l lib b faulted w).outgoing ≡ none)
  unfolding work passes
  work-quiet lib b faulted w h = ground arith

  worked-IsShared :
      (s : Shared l) (failed : Bool) → IsShared s → IsShared (if failed then fail l s else s)
  worked-IsShared s failed i = either IsShared failed _ _ (λ e. fail-IsShared s i) (λ e. i)

  worked-stays :
      (s : Shared l) (failed : Bool)
      → s.faulted ≡ true
      → (if failed then fail l s else s).faulted ≡ true
  unfolding fail
  worked-stays s failed h = ground arith

  next-PhaseOk :
      (lib : Numeric D) (w : Worker l) (o : Option (Odometry l))
      → IfOutgoing l lib w o
      → PhaseOk lib w (next_phase l o)
  next-PhaseOk lib w none h = tt
  next-PhaseOk lib w (some o) h = h

  outgoing-next : (o : Option (Odometry l)) → outgoing (next_phase l o) ≡ o
  outgoing-next none = refl
  outgoing-next (some o) = refl

  work_on-IsStep :
      (laws : IsOrdered D) (lib : Numeric D) (p : Phase l) (s : System l)
      → s.phase ≡ p
      → IsSystem lib s
      → IsStep lib s (work_on l lib p s)
  work_on-IsStep laws lib waiting s e i = unchanged-IsStep lib s i
  work_on-IsStep laws lib ended s e i = unchanged-IsStep lib s i
  work_on-IsStep laws lib (sending o) s e i = unchanged-IsStep lib s i
  work_on-IsStep laws lib (holding b) s e i =
      let r = work l lib b s.shared.faulted s.worker in
      let (worker_ok, out) = work-IsRound l laws lib b s.shared.faulted s.worker i.worker_ok in
      record {
        system = record {
          shared_ok = worked-IsShared s.shared r.failed i.shared_ok;
          worker_ok = worker_ok;
          phase_ok = next-PhaseOk lib r.worker r.outgoing out;
        };
        stays_faulted = λ h. worked-stays s.shared r.failed h;
        quiet = λ h.
            let (same, silent) = work-quiet lib b s.shared.faulted s.worker h in
            nothing same (outgoing-next r.outgoing ∙ silent ∙ sym (ap outgoing e));
      }

  publish-published :
      (n : ℕ) (o : Odometry l) (w : Worker l) → (publish l n o w).published ≡ o ∷ w.published
  unfolding publish extend_path
  publish-published n o w = ground arith

  send-IsStep :
      (laws : IsOrdered D) (lib : Numeric D) (p : Phase l) (n : ℕ) (s : System l)
      → s.phase ≡ p
      → IsSystem lib s
      → IsStep lib s (send l p n s)
  send-IsStep laws lib waiting n s e i = unchanged-IsStep lib s i
  send-IsStep laws lib ended n s e i = unchanged-IsStep lib s i
  send-IsStep laws lib (holding b) n s e i = unchanged-IsStep lib s i
  send-IsStep laws lib (sending o) n s e i = record {
    system = record {
      shared_ok = i.shared_ok;
      worker_ok =
          publish-IsWorker l laws lib n o s.worker (subst (PhaseOk lib s.worker) e i.phase_ok)
            i.worker_ok;
      phase_ok = tt;
    };
    stays_faulted = λ h. h;
    quiet = λ h. last_one o (ap outgoing e) (publish-published n o s.worker) refl;
  }

  step-IsStep :
      (laws : IsOrdered D) (lib : Numeric D) (e : Event l) (s : System l)
      → IsSystem lib s
      → IsStep lib s (step l lib e s)
  unfolding step stop
  step-IsStep laws lib (imu_event x) s i =
      shared-IsStep lib s (on_imu l x s.shared) i (on_imu-IsShared x s.shared i.shared_ok)
        (on_imu-stays x s.shared)
  step-IsStep laws lib (state_event u) s i =
      shared-IsStep lib s (on_state l u s.shared) i (on_state-IsShared u s.shared i.shared_ok)
        (on_state-stays u s.shared)
  step-IsStep laws lib stop_event s i =
      shared-IsStep lib s (stop l s.shared) i (stop-IsShared s.shared i.shared_ok) (λ h. h)
  step-IsStep laws lib fail_event s i =
      shared-IsStep lib s (fail l s.shared) i (fail-IsShared s.shared i.shared_ok)
        (worked-stays s.shared true)
  step-IsStep laws lib take_event s i = take_in-IsStep lib s.phase s refl i
  step-IsStep laws lib work_event s i = work_on-IsStep laws lib s.phase s refl i
  step-IsStep laws lib (publish_event n) s i = send-IsStep laws lib s.phase n s refl i

  -- In any interleaving of callbacks, stops and faults with the steps of the worker, from a system
  -- that keeps the invariant: the invariant is kept, so the states whose odometry is published have
  -- strictly rising times, each message is stamped with the time of its state, at most 20000 samples
  -- wait, the path is within its limit and the fault callback was called at most once; and after a
  -- fault nothing more is published, except for one message that had passed the worker's test before.
  pub run-IsStep :
      (laws : IsOrdered D) (lib : Numeric D) (es : List (Event l)) (s : System l)
      → IsSystem lib s
      → IsStep lib s (run l lib es s)
  unfolding run
  run-IsStep laws lib [] s i = unchanged-IsStep lib s i
  run-IsStep laws lib (e ∷ es) s i =
      let m = step l lib e s in
      let first = step-IsStep laws lib e s i in
      let rest = run-IsStep laws lib es m first.system in
      record {
        system = rest.system;
        stays_faulted = λ h. rest.stays_faulted (first.stays_faulted h);
        quiet = λ h.
            IsQuiet-then s m (run l lib es m) (first.quiet h) (rest.quiet (first.stays_faulted h));
      }
