-- ===== src/Sync/Invariant.antt =====
-- What holds of the buffers of `lidarodom_m` after any sequence of calls.
use adaptive_lio.Common.{
  ℕ, ◌-◌, ◌≤◌, ◌≡◌, refl, Bool, true, false, if◌then◌else◌, ◌⊎◌, inl, inr, Option, none, some, List,
  [], ◌∷◌, ◌++◌, length, pop_front, leb, arith, Bool-cases, length-append,
}
use adaptive_lio.Common.Double.{Double, IsOrdered}
use adaptive_lio.Imu.{Imu}
use adaptive_lio.Point.{Point, keep_if, finite_point, sort_finite_points}
use adaptive_lio.Sync.{
  Span, Sync, start, fail, drop_oldest_aux, append_aux, invalid_time, out_of_order, push_aux,
  push_lidar, push_imu,
}
use adaptive_lio.Sync.Rising.{Rises, Rises-push}
use adaptive_lio.Sync.Aux.{CursorFits, AuxOk, fits_zero}

pub length-pop_front : {A : Type 0} (xs : List A) → length (pop_front xs) ≡ length xs - 1
length-pop_front [] = omega arith
length-pop_front (x ∷ xs) = omega arith

-- Three early returns of the state as it was.
guards_three :
    {A : Type 0} (a b c : Bool) (s x : A)
    → ((if a then s else (if b then s else (if c then s else x))) ≡ s)
      ⊎ ((if a then s else (if b then s else (if c then s else x))) ≡ x)
guards_three a b c s x = ground arith

module _ {D : Type 0} ⦃d : Double D⦄ where
  -- The waiting samples rise strictly up to the watermark, and there are at most 20000.
  pub record ImuOk (xs : List (Imu D)) (last : D) : Type 0 where
    pub low : D
    pub rises : Rises (λ x. x.timestamp) low xs last
    pub bounded : length xs ≤ 20000
    pub number : d.le last last ≡ true

  -- The three deques of the scans are as long, the begins of the scans rise strictly up to the
  -- watermark, and at most 200 scans wait.
  pub record ScansOk (scans : List (List (Point D))) (times : List (Span D)) (ingress : List ℕ)
      (last : D) : Type 0 where
    pub low : D
    pub rises : Rises (λ t. t.first) low times last
    pub as_long : length scans ≡ length times
    pub as_long' : length ingress ≡ length times
    pub bounded : length scans ≤ 200
    pub number : d.le last last ≡ true

  pub record IsValid (s : Sync D) : Type 0 where
    pub imu_ok : ImuOk s.imu_buffer s.last_timestamp_imu
    pub scans_ok : ScansOk s.lidar_buffer s.time_buffer s.ingress_time_buffer s.last_timestamp_lidar
    pub aux_ok : AuxOk s.aux_lidar_buffer s.aux_lidar_time_buffer s.aux_point_cursor

  pub start-IsValid :
      d.le (d.neg (d.decimal 1 0)) (d.neg (d.decimal 1 0)) ≡ true
      → d.le (d.decimal 0 0) (d.decimal 0 0) ≡ true
      → IsValid start
  unfolding start
  start-IsValid one zero = record {
    imu_ok = record { low = _; rises = one; bounded = omega arith; number = one };
    scans_ok = record {
      low = _;
      rises = zero;
      as_long = refl;
      as_long' = refl;
      bounded = omega arith;
      number = zero;
    };
    aux_ok = record { as_long = refl; bounded = omega arith; fits = refl };
  }

  pub fail-IsValid : (s : Sync D) → IsValid s → IsValid (fail s)
  unfolding fail
  fail-IsValid s v = record { imu_ok = v.imu_ok; scans_ok = v.scans_ok; aux_ok = v.aux_ok }

  -- An IMU sample is ignored, or overflows the queue, or is appended.
  push_imu-cases :
      (x : Imu D) (s : Sync D)
      → (push_imu (some x) s ≡ s)
        ⊎ (push_imu (some x) s ≡ fail s)
        ⊎ ((d.is_finite x.timestamp ≡ true)
            × (d.le x.timestamp s.last_timestamp_imu ≡ false)
            × (leb 20000 (length s.imu_buffer) ≡ false)
            × (push_imu (some x) s ≡ record s {
              last_timestamp_imu = x.timestamp;
              imu_buffer = s.imu_buffer ++ (x ∷ []);
            }))
  unfolding push_imu
  push_imu-cases x s = ground arith

  pub push_imu-IsValid :
      IsOrdered D → (x : Option (Imu D)) (s : Sync D) → IsValid s → IsValid (push_imu x s)
  push_imu-IsValid laws none s v = unfold push_imu in v
  push_imu-IsValid laws (some x) s v = elim (push_imu-cases x s) [
    | inl e ↦ rw e v
    | inr (inl e) ↦ rw e (fail-IsValid s v)
    | inr (inr (finite, late, room, e)) ↦
        let n = laws.le_of_finite x.timestamp finite in
        let q = v.imu_ok in
        rw e (record {
          imu_ok = record {
            low = q.low;
            rises =
                Rises-push (λ (x : Imu D). x.timestamp) q.low s.last_timestamp_imu s.imu_buffer x
                  laws q.rises (laws.lt_of_not_le _ _ n q.number late) n;
            bounded = ground (arith, length-append s.imu_buffer (x ∷ []));
            number = n;
          };
          scans_ok = v.scans_ok;
          aux_ok = v.aux_ok;
        })
  ]

  push_lidar-cases :
      (points : List (Point D)) (t : Span D) (ingress : ℕ) (s : Sync D)
      → (push_lidar points t ingress s ≡ s)
        ⊎ (push_lidar points t ingress s ≡ fail s)
        ⊎ ((d.is_finite t.first ≡ true)
            × (d.le t.first s.last_timestamp_lidar ≡ false)
            × (leb 200 (length s.lidar_buffer) ≡ false)
            × (push_lidar points t ingress s ≡ record s {
              lidar_buffer = s.lidar_buffer ++ (keep_if finite_point points ∷ []);
              time_buffer = s.time_buffer ++ (t ∷ []);
              ingress_time_buffer = s.ingress_time_buffer ++ (ingress ∷ []);
              last_timestamp_lidar = t.first;
            }))
  unfolding push_lidar
  push_lidar-cases points t ingress s = ground arith

  pub push_lidar-IsValid :
      IsOrdered D
      → (points : List (Point D)) (t : Span D) (ingress : ℕ) (s : Sync D) → IsValid s
      → IsValid (push_lidar points t ingress s)
  push_lidar-IsValid laws points t ingress s v = elim (push_lidar-cases points t ingress s) [
    | inl e ↦ rw e v
    | inr (inl e) ↦ rw e (fail-IsValid s v)
    | inr (inr (finite, late, room, e)) ↦
        let n = laws.le_of_finite t.first finite in
        let q = v.scans_ok in
        let scan = keep_if finite_point points in
        rw e (record {
          imu_ok = v.imu_ok;
          scans_ok = record {
            low = q.low;
            rises =
                Rises-push (λ (t : Span D). t.first) q.low s.last_timestamp_lidar s.time_buffer t
                  laws q.rises (laws.lt_of_not_le _ _ n q.number late) n;
            as_long = omega (
              arith,
              q.as_long,
              length-append s.lidar_buffer (scan ∷ []),
              length-append s.time_buffer (t ∷ []),
            );
            as_long' = omega (
              arith,
              q.as_long',
              length-append s.ingress_time_buffer (ingress ∷ []),
              length-append s.time_buffer (t ∷ []),
            );
            bounded = ground (arith, length-append s.lidar_buffer (scan ∷ []));
            number = n;
          };
          aux_ok = v.aux_ok;
        })
  ]

  -- Making room and appending a packet keeps the auxiliary deques well formed.
  append_aux-AuxOk :
      (packets : List (List (Point D))) (times : List (Span D)) (cursor : ℕ) (msg : List (Point D))
      (t : Span D)
      → AuxOk packets times cursor
      → length packets ≤ 199
      → AuxOk (packets ++ (msg ∷ [])) (times ++ (t ∷ [])) cursor
  append_aux-AuxOk packets times cursor msg t q room = record {
    as_long =
        omega (arith, q.as_long, length-append packets (msg ∷ []), length-append times (t ∷ []));
    bounded = omega (arith, room, length-append packets (msg ∷ []));
    fits = CursorFits-append packets q.fits;
  }
    where
      CursorFits-append :
          (packets : List (List (Point D)))
          → CursorFits cursor packets
          → CursorFits cursor (packets ++ (msg ∷ []))
      CursorFits-append [] h = omega arith
      CursorFits-append (aux ∷ packets) h = h

  drop_oldest-AuxOk :
      (packets : List (List (Point D))) (times : List (Span D)) (cursor : ℕ)
      → AuxOk packets times cursor
      → AuxOk (pop_front packets) (pop_front times) 0
  drop_oldest-AuxOk packets times cursor q = record {
    as_long = omega (arith, q.as_long, length-pop_front packets, length-pop_front times);
    bounded = omega (arith, q.bounded, length-pop_front packets);
    fits = fits_zero (pop_front packets);
  }

  push_aux-cases :
      (points : List (Point D)) (t : Span D) (s : Sync D)
      → (push_aux points t s ≡ s)
        ⊎ (push_aux points t s
            ≡ append_aux (sort_finite_points (keep_if finite_point points)) t (drop_oldest_aux s))
  unfolding push_aux
  push_aux-cases points t s =
      guards_three (invalid_time t) s.stopping (out_of_order s.aux_lidar_time_buffer t.first) s _

  pub push_aux-IsValid :
      (points : List (Point D)) (t : Span D) (s : Sync D)
      → IsValid s
      → IsValid (push_aux points t s)
  push_aux-IsValid points t s v = elim (push_aux-cases points t s) [
    | inl e ↦ rw e v
    | inr e ↦
        let msg = sort_finite_points (keep_if finite_point points) in
        elim (Bool-cases (leb 200 (length s.aux_lidar_buffer))) [
          | inl full ↦
              rw (e, full)
                (record {
                  imu_ok = v.imu_ok;
                  scans_ok = v.scans_ok;
                  aux_ok =
                      append_aux-AuxOk (pop_front s.aux_lidar_buffer)
                        (pop_front s.aux_lidar_time_buffer) 0 msg t
                        (drop_oldest-AuxOk _ _ _ v.aux_ok)
                        (omega (arith, v.aux_ok.bounded, length-pop_front s.aux_lidar_buffer));
                })
          | inr room ↦
              rw (e, room)
                (record {
                  imu_ok = v.imu_ok;
                  scans_ok = v.scans_ok;
                  aux_ok =
                      append_aux-AuxOk s.aux_lidar_buffer s.aux_lidar_time_buffer s.aux_point_cursor
                        msg t v.aux_ok (ground arith);
                })
        ]
  ]
