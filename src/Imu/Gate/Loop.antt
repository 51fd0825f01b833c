-- ===== src/Imu/Gate/Loop.antt =====
-- The loop over the axes in `ImuQualityGate::Process`: what holds of each axis once it has passed.
use adaptive_lio.Common.{◌≡◌, ◌∙◌, true, false, ◌||◌, List, [], ◌∷◌, arith, All}
use adaptive_lio.Common.Double.{Double}
use adaptive_lio.Imu.Axes.{Axis, get, channel, get-put, channel-put}
use adaptive_lio.Imu.{Imu}
use adaptive_lio.Imu.Gate.{Gate, Scan, passed, stopped, and_then, check_axis, scan}

module _ {D : Type 0} ⦃d : Double D⦄ where
  -- The noise multiplier is a usable scale, a value to hold is finite, and the last time stamp is a
  -- number (or minus infinity).
  pub record IsSound (g : Gate D) : Type 0 where
    pub scale_finite : d.is_finite g.options.noise_multiplier ≡ true
    pub scale_ge : d.le (d.decimal 1 0) g.options.noise_multiplier ≡ true
    pub held_finite :
        (a : Axis)
        → d.is_finite (get g.healthy_stamp a) ≡ true
        → d.is_finite (get g.healthy a) ≡ true
    pub last_number : d.le g.last_stamp g.last_stamp ≡ true

  -- The axis is valid or held, and its noise scale is usable.
  pub record IsCovered (a : Axis) (s : Imu D) : Type 0 where
    pub covered : get s.quality.valid_mask a || get s.quality.held_mask a ≡ true
    pub noise_finite :
        d.is_finite (channel s.quality.gyro_noise_scale s.quality.accel_noise_scale a) ≡ true
    pub noise_ge :
        d.le (d.decimal 1 0) (channel s.quality.gyro_noise_scale s.quality.accel_noise_scale a)
        ≡ true

  abbrev pub HasValue : Axis → Imu D → Type 0
  HasValue a s = d.is_finite (channel s.gyro s.acce a) ≡ true

  -- `P` holds if the loop, or its body, passes.
  abbrev pub After : (Gate D → Imu D → Type 0) → Scan D → Type 0
  After P (passed g s) = P g s
  After P (stopped g s) = Unit

  pub After-and_then :
      (P Q : Gate D → Imu D → Type 0) (k : Gate D → Imu D → Scan D) (r : Scan D)
      → After P r
      → ((g : Gate D) (s : Imu D) → P g s → After Q (k g s))
      → After Q (and_then r k)
  After-and_then P Q k (passed g s) h f = f g s h
  After-and_then P Q k (stopped g s) h f = tt

  -- What each round keeps, the loop keeps.
  pub scan_keeps :
      (P : Gate D → Imu D → Type 0)
      → ((a : Axis) (g : Gate D) (s : Imu D) → P g s → After P (check_axis a g s))
      → (bs : List Axis) (g : Gate D) (s : Imu D) → P g s
      → After P (scan bs g s)
  unfolding scan
  scan_keeps P keep [] g s h = h
  scan_keeps P keep (a ∷ bs) g s h =
      After-and_then P P (scan bs) (check_axis a g s) (keep a g s h) (scan_keeps P keep bs)

  check_axis-held_finite :
      (a b : Axis) (g : Gate D) (s : Imu D)
      → IsSound g
      → d.is_finite s.timestamp ≡ true
      → After
          (λ g' s'.
            d.is_finite (get g'.healthy_stamp b) ≡ true → d.is_finite (get g'.healthy b) ≡ true)
          (check_axis a g s)
  unfolding check_axis
  check_axis-held_finite a b g s v t = ground (
    arith,
    v.held_finite b,
    get-put g.healthy a b (channel s.gyro s.acce a),
    get-put g.healthy_stamp a b s.timestamp,
  )

  check_axis-IsCovered :
      (a b : Axis) (g : Gate D) (s : Imu D)
      → IsSound g
      → IsCovered b s
      → After (λ g' s'. IsCovered b s') (check_axis a g s)
  unfolding check_axis
  check_axis-IsCovered a b g s v c = ground (
    arith,
    get-put s.quality.valid_mask a b false,
    get-put s.quality.held_mask a b true,
    channel-put s.quality.gyro_noise_scale s.quality.accel_noise_scale a b
        g.options.noise_multiplier,
  )

  check_axis-HasValue :
      (a b : Axis) (g : Gate D) (s : Imu D)
      → IsSound g
      → HasValue b s
      → After (λ g' s'. HasValue b s') (check_axis a g s)
  unfolding check_axis
  check_axis-HasValue a b g s v c =
      ground (arith, v.held_finite a, channel-put s.gyro s.acce a b (get g.healthy a))

  check_axis-HasValue_self :
      (a : Axis) (g : Gate D) (s : Imu D)
      → IsSound g
      → After (λ g' s'. HasValue a s') (check_axis a g s)
  unfolding check_axis
  check_axis-HasValue_self a g s v =
      ground (arith, v.held_finite a, channel-put s.gyro s.acce a a (get g.healthy a))

  -- What the loop keeps of the gate `g` and the sample `s` that it starts from.
  pub record IsKept (g : Gate D) (s : Imu D) (g' : Gate D) (s' : Imu D) : Type 0 where
    pub sound : IsSound g'
    pub axis_covered : (b : Axis) → IsCovered b s'
    pub stamp : s'.timestamp ≡ s.timestamp
    pub stamp_finite : d.is_finite s'.timestamp ≡ true
    pub last : g'.last_stamp ≡ g.last_stamp
    pub same_options : g'.options ≡ g.options
    pub same_total : g'.degraded_total ≡ g.degraded_total

  After-split :
      (P : Axis → Gate D → Imu D → Type 0) (r : Scan D)
      → ((b : Axis) → After (P b) r)
      → After (λ g' s'. (b : Axis) → P b g' s') r
  After-split P (passed g s) h = h
  After-split P (stopped g s) h = tt

  After-both :
      (P Q : Gate D → Imu D → Type 0) (r : Scan D)
      → After P r
      → After Q r
      → After (λ g' s'. P g' s' × Q g' s') r
  After-both P Q (passed g s) p q = (p, q)
  After-both P Q (stopped g s) p q = tt

  After-map :
      (P Q : Gate D → Imu D → Type 0) (r : Scan D)
      → ((g' : Gate D) (s' : Imu D) → P g' s' → Q g' s')
      → After P r
      → After Q r
  After-map P Q (passed g s) f p = f g s p
  After-map P Q (stopped g s) f p = tt

  -- The fields that the body of the loop leaves alone.
  abbrev pub SameFields : Gate D → Imu D → Gate D → Imu D → Type 0
  SameFields g s g' s' =
      (s'.timestamp ≡ s.timestamp)
      × (g'.last_stamp ≡ g.last_stamp)
      × (g'.options ≡ g.options)
      × (g'.degraded_total ≡ g.degraded_total)

  check_axis-SameFields :
      (a : Axis) (g : Gate D) (s : Imu D) → After (SameFields g s) (check_axis a g s)
  unfolding check_axis
  check_axis-SameFields a g s = ground arith

  IsKept-step :
      {g g' g'' : Gate D} {s s' s'' : Imu D}
      → IsKept g s g' s'
      → ((b : Axis)
          → d.is_finite (get g''.healthy_stamp b) ≡ true
          → d.is_finite (get g''.healthy b) ≡ true)
      → ((b : Axis) → IsCovered b s'')
      → SameFields g' s' g'' s''
      → IsKept g s g'' s''
  IsKept-step k held cover (t, l, o, m) = record {
    sound = record {
      scale_finite = rw o k.sound.scale_finite;
      scale_ge = rw o k.sound.scale_ge;
      held_finite = held;
      last_number = rw l k.sound.last_number;
    };
    axis_covered = cover;
    stamp = t ∙ k.stamp;
    stamp_finite = rw t k.stamp_finite;
    last = l ∙ k.last;
    same_options = o ∙ k.same_options;
    same_total = m ∙ k.same_total;
  }

  check_axis-IsKept :
      (g : Gate D) (s : Imu D) (a : Axis) (g' : Gate D) (s' : Imu D)
      → IsKept g s g' s'
      → After (IsKept g s) (check_axis a g' s')
  check_axis-IsKept g s a g' s' k =
      let r = check_axis a g' s' in
      let HeldFinite = λ (b : Axis) (g'' : Gate D) (s'' : Imu D).
        d.is_finite (get g''.healthy_stamp b) ≡ true → d.is_finite (get g''.healthy b) ≡ true in
      let Covered = λ (b : Axis) (g'' : Gate D) (s'' : Imu D). IsCovered b s'' in
      let held =
        After-split HeldFinite r (λ b. check_axis-held_finite a b g' s' k.sound k.stamp_finite) in
      let cover =
        After-split Covered r (λ b. check_axis-IsCovered a b g' s' k.sound (k.axis_covered b)) in
      After-map _ (IsKept g s) r (λ g'' s'' h. IsKept-step k h.0.0 h.0.1 h.1)
        (After-both _ _ r (After-both _ _ r held cover) (check_axis-SameFields a g' s'))

  abbrev pub Scanned : Gate D → Imu D → List Axis → Gate D → Imu D → Type 0
  Scanned g s bs g' s' = IsKept g s g' s' × All (λ b. HasValue b s') bs

  -- After the loop each axis that it went through has a finite value.
  pub scan-Scanned :
      (g : Gate D) (s : Imu D) (bs : List Axis) (g' : Gate D) (s' : Imu D)
      → IsKept g s g' s'
      → After (Scanned g s bs) (scan bs g' s')
  unfolding scan
  scan-Scanned g s [] g' s' k = (k, tt)
  scan-Scanned g s (a ∷ bs) g' s' k =
      After-and_then (λ g'' s''. IsKept g s g'' s'' × HasValue a s'') (Scanned g s (a ∷ bs))
        (scan bs) (check_axis a g' s')
        (After-both _ _ (check_axis a g' s') (check_axis-IsKept g s a g' s' k)
          (check_axis-HasValue_self a g' s' k.sound))
        (λ g'' s'' h.
          After-map _ (Scanned g s (a ∷ bs)) (scan bs g'' s'') (λ g₃ s₃ p. (p.0.0, (p.1.1, p.0.1)))
            (After-both _ _ (scan bs g'' s'') (scan-Scanned g s bs g'' s'' h.0) (
              scan_keeps (λ g₃ s₃. IsKept g s g₃ s₃ × HasValue a s₃)
                (λ b g₃ s₃ k.
                  After-both _ _ (check_axis b g₃ s₃) (check_axis-IsKept g s b g₃ s₃ k.0)
                    (check_axis-HasValue b a g₃ s₃ k.0.sound k.1))
                bs g'' s'' h)))
