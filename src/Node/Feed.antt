-- ===== src/Node/Feed.antt =====
-- `imuHandler` of apps/main_ada.cpp: each message goes through the gate, and what the gate forwards
-- goes to the output of the odometry and to the front end. Logging is left out.
use adaptive_lio.Common.{
  ℕ, ◌≡◌, refl, sym, subst, ap, ◌∙◌, Bool, true, false, List, [], ◌∷◌, ◌++◌, map, All,
  if◌then◌else◌,
}
use adaptive_lio.Common.Double.{Double, IsOrdered}
use adaptive_lio.Imu.Axes.{Vec3}
use adaptive_lio.Imu.{Imu, fresh_quality}
use adaptive_lio.Imu.Gate.{Gate, Decision, forward, drop, fault, process}
use adaptive_lio.Imu.Gate.Safety.{Inv}
use adaptive_lio.Imu.Gate.Fault.{process-fault}
use adaptive_lio.Imu.Gate.Stream.{Ascends, forwarded, forwarded-Ascends, collect}
use adaptive_lio.Convert.{header_time}

pub record ImuMsg (D : Type 0) : Type 0 where
  pub sec : ℕ
  pub nanosec : ℕ
  pub angular_velocity : Vec3 D
  pub linear_acceleration : Vec3 D

-- The calls of the handler: `lio->Fail()`, `imu_odom_output->OnImu(imu)` and `lio->pushData(imu)`.
pub data HandlerCall (D : Type 0) : Type 0 where
  fail_lio : HandlerCall D
  output_imu : Imu D → HandlerCall D
  push_data : Imu D → HandlerCall D

module _ {D : Type 0} ⦃d : Double D⦄ where
  -- The sample in SI units.
  abbrev pub to_sample : D → ImuMsg D → Imu D
  to_sample gnorm msg = record {
    quality = fresh_quality;
    timestamp = header_time msg.sec msg.nanosec;
    gyro = msg.angular_velocity;
    acce = record {
      x = d.mul msg.linear_acceleration.x gnorm;
      y = d.mul msg.linear_acceleration.y gnorm;
      z = d.mul msg.linear_acceleration.z gnorm;
    };
  }

  abbrev pub answer : Bool → Decision → Imu D → List (HandlerCall D)
  answer has_output fault imu = fail_lio ∷ []
  answer has_output drop imu = []
  answer has_output forward imu =
      if has_output then output_imu imu ∷ push_data imu ∷ [] else push_data imu ∷ []

  unfoldable pub imu_handler : D → Bool → ImuMsg D → Gate D → Gate D × List (HandlerCall D)
  imu_handler gnorm has_output msg g =
      let o = process g (to_sample gnorm msg) in (o.gate, answer has_output o.decision o.sample)

  -- The calls for a sequence of messages.
  unfoldable pub feed_all : D → Bool → Gate D → List (ImuMsg D) → List (HandlerCall D)
  unfolding imu_handler
  feed_all gnorm has_output g [] = []
  feed_all gnorm has_output g (m ∷ ms) =
      let r = imu_handler gnorm has_output m g in r.1 ++ feed_all gnorm has_output r.0 ms

  abbrev pub pushed : List (HandlerCall D) → List (Imu D)
  pushed [] = []
  pushed (fail_lio ∷ cs) = pushed cs
  pushed (output_imu s ∷ cs) = pushed cs
  pushed (push_data s ∷ cs) = s ∷ pushed cs

  abbrev pub output : List (HandlerCall D) → List (Imu D)
  output [] = []
  output (fail_lio ∷ cs) = output cs
  output (output_imu s ∷ cs) = s ∷ output cs
  output (push_data s ∷ cs) = output cs

  -- Once the front end was failed, nothing else is called.
  abbrev pub Closes : List (HandlerCall D) → Type 0
  Closes [] = Unit
  Closes (fail_lio ∷ cs) = All (λ c. c ≡ fail_lio) cs
  Closes (output_imu s ∷ cs) = Closes cs
  Closes (push_data s ∷ cs) = Closes cs

  -- What reaches the two estimators from the gate `g`.
  pub record IsFed (has_output : Bool) (g : Gate D) (ss : List (Imu D)) (cs : List (HandlerCall D))
      : Type 0 where
    pub to_lio : pushed cs ≡ forwarded g ss
    pub to_output : output cs ≡ (if has_output then pushed cs else [])
    pub ascends : Ascends g.last_stamp (pushed cs)
    pub closes : Closes cs

  pushed-answer :
      (b : Bool) (c : Decision) (s : Imu D) (cs : List (HandlerCall D))
      → pushed (answer b c s ++ cs) ≡ collect c s (pushed cs)
  pushed-answer b fault s cs = refl
  pushed-answer b drop s cs = refl
  pushed-answer true forward s cs = refl
  pushed-answer false forward s cs = refl

  output-answer :
      (b : Bool) (c : Decision) (s : Imu D) (cs : List (HandlerCall D))
      → output cs ≡ (if b then pushed cs else [])
      → output (answer b c s ++ cs) ≡ (if b then pushed (answer b c s ++ cs) else [])
  output-answer b fault s cs h = h
  output-answer b drop s cs h = h
  output-answer true forward s cs h = ap (λ v. s ∷ v) h
  output-answer false forward s cs h = h

  Closes-answer :
      (b : Bool) (c : Decision) (s : Imu D) (cs : List (HandlerCall D))
      → (c ≡ fault → All (λ v. v ≡ fail_lio) cs)
      → Closes cs
      → Closes (answer b c s ++ cs)
  Closes-answer b fault s cs f h = f refl
  Closes-answer b drop s cs f h = h
  Closes-answer true forward s cs f h = h
  Closes-answer false forward s cs f h = h

  feed_all-pushed :
      (gnorm : D) (b : Bool) (g : Gate D) (ms : List (ImuMsg D))
      → pushed (feed_all gnorm b g ms) ≡ forwarded g (map (to_sample gnorm) ms)
  unfolding feed_all forwarded
  feed_all-pushed gnorm b g [] = refl
  feed_all-pushed gnorm b g (m ∷ ms) =
      let o = process g (to_sample gnorm m) in
      pushed-answer b o.decision o.sample (feed_all gnorm b o.gate ms)
      ∙ ap (collect o.decision o.sample) (feed_all-pushed gnorm b o.gate ms)

  feed_all-output :
      (gnorm : D) (b : Bool) (g : Gate D) (ms : List (ImuMsg D))
      → output (feed_all gnorm b g ms) ≡ (if b then pushed (feed_all gnorm b g ms) else [])
  unfolding feed_all
  feed_all-output gnorm true g [] = refl
  feed_all-output gnorm false g [] = refl
  feed_all-output gnorm b g (m ∷ ms) =
      let o = process g (to_sample gnorm m) in
      output-answer b o.decision o.sample (feed_all gnorm b o.gate ms)
        (feed_all-output gnorm b o.gate ms)

  answer_fails :
      (b : Bool) (c : Decision) (s : Imu D) (cs : List (HandlerCall D))
      → c ≡ fault
      → All (λ v. v ≡ fail_lio) cs
      → All (λ v. v ≡ fail_lio) (answer b c s ++ cs)
  answer_fails b fault s cs e h = (refl, h)
  answer_fails b drop s cs e h = cc
  answer_fails b forward s cs e h = cc

  feed_all-faulted :
      (gnorm : D) (b : Bool) (g : Gate D) (ms : List (ImuMsg D))
      → g.faulted ≡ true
      → All (λ v. v ≡ fail_lio) (feed_all gnorm b g ms)
  unfolding feed_all
  feed_all-faulted gnorm b g [] h = tt
  feed_all-faulted gnorm b g (m ∷ ms) h =
      let s = to_sample gnorm m in
      let (answers, stays, _) = process-fault g s in
      let failed : (process g s).gate.faulted ≡ true = ap (λ v. v.faulted) (stays h) ∙ h in
      answer_fails b (process g s).decision (process g s).sample
        (feed_all gnorm b (process g s).gate ms) (answers.1 failed)
        (feed_all-faulted gnorm b (process g s).gate ms failed)

  feed_all-Closes :
      (gnorm : D) (b : Bool) (g : Gate D) (ms : List (ImuMsg D)) → Closes (feed_all gnorm b g ms)
  unfolding feed_all
  feed_all-Closes gnorm b g [] = tt
  feed_all-Closes gnorm b g (m ∷ ms) =
      let o = process g (to_sample gnorm m) in
      Closes-answer b o.decision o.sample (feed_all gnorm b o.gate ms)
        (λ e. feed_all-faulted gnorm b o.gate ms ((process-fault g (to_sample gnorm m)).0.0 e))
        (feed_all-Closes gnorm b o.gate ms)

  -- From a gate that keeps the invariant, whatever messages arrive: the front end is given
  -- exactly the samples that the gate forwards, in their order, so clean ones whose stamps
  -- rise strictly; the output of the odometry, if there is one, is given the same ones; and
  -- once the front end was failed, no sample is given to either.
  pub feed_all-IsFed :
      IsOrdered D
      → (gnorm : D) (has_output : Bool) (g : Gate D) (ms : List (ImuMsg D)) → Inv g
      → IsFed has_output g (map (to_sample gnorm) ms) (feed_all gnorm has_output g ms)
  feed_all-IsFed laws gnorm b g ms v = record {
    to_lio = feed_all-pushed gnorm b g ms;
    to_output = feed_all-output gnorm b g ms;
    ascends =
        subst (Ascends g.last_stamp) (sym (feed_all-pushed gnorm b g ms))
          (forwarded-Ascends laws g (map (to_sample gnorm) ms) v);
    closes = feed_all-Closes gnorm b g ms;
  }
