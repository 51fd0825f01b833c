-- ===== src/Init/Static.antt =====
-- What the initialisation from samples at rest promises.
use adaptive_lio.Common.{
  ℕ, zero, suc, ◌+◌, ◌-◌, ap, sym, ◌∙◌, ◌≤◌, ◌≡◌, refl, true, false, not, ◌&&◌, ◌⊎◌, inl, inr, List,
  [], ◌∷◌, arith, either, drop, length, length-drop, All, All-append, ltb, back,
}
use adaptive_lio.Common.Double.{Double}
use adaptive_lio.Imu.{Imu, constant, cwise_max}
use adaptive_lio.Linear.{Linear}
use adaptive_lio.Filter.{EskfOptions, set_initial_conditions, set_initial_time}
use adaptive_lio.Init.{
  StaticImuInit, Startup, measure_rest, noisy, try_init, finish_add, push, attempt, add_imu, skips,
  compute_mean, without_gravity, measured_gravity, add_samples, start_time, initialised,
  try_init_imu,
}
use adaptive_lio.Init.Measured.{
  IsGenuine, IsMeasured, spreads, compute_mean-means, compute_cov_diag-spreads,
}

All-drop {ℓ κ} : {A : Type ℓ} (P : A → Type κ) (n : ℕ) (xs : List A) → All P xs → All P (drop n xs)
All-drop P zero xs a = a
All-drop P (suc n) [] a = tt
All-drop P (suc n) (x ∷ xs) (h, a) = All-drop P n xs a

drop-nil : {A : Type 0} (n : ℕ) → drop {A = A} n [] ≡ []
drop-nil zero = refl
drop-nil (suc n) = refl

drop-drop : {A : Type 0} (n k : ℕ) (xs : List A) → drop n (drop k xs) ≡ drop (k + n) xs
drop-drop n zero xs = let e : n ≡ 0 + n = omega arith in ap (λ m. drop m xs) e
drop-drop n (suc k) [] = drop-nil n ∙ sym (drop-nil (suc k + n))
drop-drop n (suc k) (x ∷ xs) =
    let e : suc (k + n) ≡ suc k + n = omega arith in drop-drop n k xs ∙ ap (λ m. drop m (x ∷ xs)) e

module _ {D : Type 0} ⦃d : Double D⦄ where
  -- The queue is bounded and holds genuine samples only, and success means that biases, gravity and
  -- noise were measured.
  pub record IsInit (s : StaticImuInit D) : Type 0 where
    pub bounded : length s.init_imu_deque ≤ s.options.init_imu_queue_max_size
    pub genuine : All IsGenuine s.init_imu_deque
    pub measured : s.init_success ≡ true → IsMeasured s

  -- The same before the queue is shortened.
  abbrev pub IsLong : StaticImuInit D → Type 0
  IsLong s = All IsGenuine s.init_imu_deque × (s.init_success ≡ true → IsMeasured s)

  shortened-IsMeasured :
      (x : Imu D) (n : ℕ) (s : StaticImuInit D)
      → IsMeasured s
      → IsMeasured
          (record s { init_imu_deque = drop n s.init_imu_deque; current_time = x.timestamp })
  shortened-IsMeasured x n s m = record {
    used = m.used;
    dropped = m.dropped + n;
    enough = m.enough;
    genuine = m.genuine;
    newest = ap (drop n) m.newest ∙ drop-drop n m.dropped m.used;
    bg = m.bg;
    gravity = m.gravity;
    ba = m.ba;
    cov_gyro = m.cov_gyro;
    cov_acce = m.cov_acce;
    quiet_gyro = m.quiet_gyro;
    quiet_acce = m.quiet_acce;
  }

  finish_add-IsInit : (x : Imu D) (s : StaticImuInit D) → IsLong s → IsInit (finish_add x s)
  finish_add-IsInit x s (genuine, measured) =
      let surplus = length s.init_imu_deque - s.options.init_imu_queue_max_size in
      record {
        bounded = omega (arith, length-drop surplus s.init_imu_deque);
        genuine = All-drop IsGenuine surplus s.init_imu_deque genuine;
        measured = λ h. shortened-IsMeasured x surplus s (measured h);
      }

  try_init-IsMeasured :
      (s : StaticImuInit D)
      → All IsGenuine s.init_imu_deque
      → ltb (length s.init_imu_deque) 10 ≡ false
      → noisy (measure_rest s) ≡ false
      → IsMeasured (record (measure_rest s) {
        init_bg = compute_mean s.init_imu_deque (λ x. x.gyro);
        init_ba = compute_mean s.init_imu_deque (without_gravity (measure_rest s).gravity);
        mean_acc = compute_mean s.init_imu_deque (without_gravity (measure_rest s).gravity);
        init_success = true;
      })
  unfolding measure_rest
  try_init-IsMeasured s genuine many quiet =
      let q = s.init_imu_deque in
      let gravity = measured_gravity s.options (compute_mean q (λ x. x.acce)) in
      let mean = compute_mean-means q (without_gravity gravity) in
      record {
        used = q;
        dropped = 0;
        enough = ground arith;
        genuine = genuine;
        newest = refl;
        bg = compute_mean-means q (λ x. x.gyro);
        gravity = ap (measured_gravity s.options) (compute_mean-means q (λ x. x.acce));
        ba = mean;
        cov_gyro =
            compute_cov_diag-spreads q (compute_mean q (λ x. x.gyro)) (λ x. x.gyro)
            ∙ ap (λ m. spreads (λ x. x.gyro) m q) (compute_mean-means q (λ x. x.gyro));
        cov_acce =
            compute_cov_diag-spreads q (compute_mean q (without_gravity gravity))
              (without_gravity gravity)
            ∙ ap (λ m. spreads (without_gravity gravity) m q) mean;
        quiet_gyro = ground arith;
        quiet_acce = ground arith;
      }

  try_init-IsLong : (s : StaticImuInit D) → s.init_success ≡ false → IsLong s → IsLong (try_init s)
  unfolding try_init measure_rest
  try_init-IsLong s fresh (genuine, measured) =
      either IsLong (ltb (length s.init_imu_deque) 10) _ _ (λ e. (genuine, measured))
        (λ e.
          either IsLong (noisy (measure_rest s)) _ _ (λ n. (genuine, λ h. absurd (cc)))
            (λ n. (genuine, λ h. try_init-IsMeasured s genuine e n)))

  add_imu-IsInit : (x : Imu D) (s : StaticImuInit D) → IsGenuine x → IsInit s → IsInit (add_imu x s)
  unfolding add_imu
  add_imu-IsInit x s g i =
      let p = push x s in
      either IsInit s.init_success _ _ (λ e. i)
        (λ e.
          either IsInit (s.options.use_speed_for_static_checking && not s.is_static) _ _
            (λ w. record { bounded = ground arith; genuine = tt; measured = λ h. absurd (cc) })
            (λ w.
              let long : IsLong p = (
                All-append IsGenuine s.init_imu_deque (x ∷ []) i.genuine (g, tt),
                λ h. absurd (cc),
              ) in
              finish_add-IsInit x (attempt x p) (
                either IsLong
                  (d.lt p.options.init_time_seconds (d.sub x.timestamp p.init_start_time)) _ _
                  (λ t. try_init-IsLong p e long) (λ t. long))))

module _ {D : Type 0} ⦃d : Double D⦄ (l : Linear D) where
  abbrev pub IsStartup : Startup l → Type 0
  IsStartup s = IsInit s.imu_init

  add_samples-IsStartup :
      (xs : List (Imu D)) (s : Startup l) → IsStartup s → IsStartup (add_samples l xs s)
  unfolding add_samples
  add_samples-IsStartup [] s i = i
  add_samples-IsStartup (x ∷ xs) s i = add_samples-IsStartup xs _ (
      either IsStartup (skips s.last_init_stamp x) s
        (record s { last_init_stamp = x.timestamp; imu_init = add_imu x s.imu_init }) (λ e. i)
        (λ e.
          add_imu-IsInit x s.imu_init
            (record { not_degraded = ground arith; none_held = ground arith }) i))

  add_samples-kept :
      (xs : List (Imu D)) (s : Startup l)
      → ((add_samples l xs s).filter ≡ s.filter)
        × ((add_samples l xs s).imu_need_init ≡ s.imu_need_init)
  unfolding add_samples
  add_samples-kept [] s = (refl, refl)
  add_samples-kept (x ∷ xs) s =
      let n = record s { last_init_stamp = x.timestamp; imu_init = add_imu x s.imu_init } in
      either
        (λ (m : Startup l).
          ((add_samples l xs m).filter ≡ s.filter)
          × ((add_samples l xs m).imu_need_init ≡ s.imu_need_init))
        (skips s.last_init_stamp x) s n (λ e. add_samples-kept xs s) (λ e. add_samples-kept xs n)

  -- What the frames start from.
  pub record IsStarted (end_time : D) (samples : List (Imu D)) (n : Startup l) : Type 0 where
    pub started : n.imu_need_init ≡ false
    pub measured : IsMeasured n.imu_init
    pub at_newest : n.filter.current_time ≡ start_time l end_time (back samples)
    pub left_bracket : n.last_imu ≡ back samples
    pub accepted_stamp : n.last_accepted ≡ n.filter.current_time
    pub bg_set : n.filter.bg ≡ l.of_vec3 n.imu_init.init_bg
    pub ba_set : n.filter.ba ≡ l.of_vec3 n.imu_init.init_ba
    pub gravity_set : n.filter.g ≡ l.of_vec3 n.imu_init.gravity
    pub gyro_variance_set :
        n.gyro_variance ≡ cwise_max n.imu_init.cov_gyro (constant (d.decimal 1 12))

  -- A frame before the initialisation keeps the queue bounded and free of altered samples. Either the
  -- measurement has not succeeded, nothing is initialised and the filter is as it was; or the filter is at the newest sample, which
  -- becomes the left end of the next interval, its biases are the means of at least ten unaltered
  -- samples, the last of which are those in the queue, the acceleration without gravity, its gravity
  -- is against their mean acceleration and has the length of the options, and the norms of their
  -- variances are within the limits.
  pub try_init_imu_lem :
      (o : EskfOptions D) (end_time : D) (samples : List (Imu D)) (s : Startup l)
      → IsStartup s
      → IsStartup (try_init_imu l o end_time samples s)
        × ((((try_init_imu l o end_time samples s).imu_need_init ≡ s.imu_need_init)
              × ((try_init_imu l o end_time samples s).filter ≡ s.filter)
              × ((try_init_imu l o end_time samples s).imu_init.init_success ≡ false))
            ⊎ IsStarted end_time samples (try_init_imu l o end_time samples s))
  unfolding try_init_imu set_initial_time set_initial_conditions
  try_init_imu_lem o end_time samples s i =
      let added = add_samples l samples s in
      let ok = add_samples-IsStartup samples s i in
      let (filter, need) = add_samples-kept samples s in
      either
        (λ (n : Startup l).
          IsStartup n
          × (((n.imu_need_init ≡ s.imu_need_init)
                × (n.filter ≡ s.filter)
                × (n.imu_init.init_success ≡ false))
              ⊎ IsStarted end_time samples n))
        added.imu_init.init_success (initialised l o end_time (back samples) added) added
        (λ e. (
          ok,
          inr (record {
            started = refl;
            measured = ok.measured e;
            at_newest = refl;
            left_bracket = refl;
            accepted_stamp = refl;
            bg_set = refl;
            ba_set = refl;
            gravity_set = refl;
            gyro_variance_set = refl;
          }),
        ))
        (λ e. (ok, inl (need, filter, e)))
