-- ===== src/Sync/Aux.antt =====
-- The loop over the auxiliary packets in `getMeasureMents`.
use adaptive_lio.Common.{
  ℕ, ◌≤◌, ◌≡◌, refl, ◌⊎◌, inl, inr, List, [], ◌∷◌, leb, length, arith, All, All-append, Bool-cases,
}
use adaptive_lio.Common.Double.{Double}
use adaptive_lio.Point.{Point, crop_aux_points}
use adaptive_lio.Point.Crop.{Within, crop_aux_points_lem}
use adaptive_lio.Sync.{
  Span, SyncOptions, AuxQueue, AuxAction, discard, wait, crop, aux_action, collect_aux,
}

-- The cursor stands in the oldest packet, or at 0 where there is none.
abbrev pub CursorFits : {D : Type 0} → ℕ → List (List (Point D)) → Type 0
CursorFits c [] = c ≡ 0
CursorFits c (aux ∷ packets) = c ≤ length aux

AuxAction-cases : (a : AuxAction) → (a ≡ discard) ⊎ (a ≡ wait) ⊎ (a ≡ crop)
AuxAction-cases a = ground arith

pub fits_zero : {D : Type 0} (packets : List (List (Point D))) → CursorFits 0 packets
fits_zero [] = refl
fits_zero (aux ∷ packets) = omega arith

module _ {D : Type 0} ⦃d : Double D⦄ where
  -- The two deques are as long, they hold at most 200 packets, and the cursor fits.
  pub record AuxOk (packets : List (List (Point D))) (times : List (Span D)) (cursor : ℕ)
      : Type 0 where
    pub as_long : length packets ≡ length times
    pub bounded : length packets ≤ 200
    pub fits : CursorFits cursor packets

  pub record IsCollected (begin_time end_time : D) (q : AuxQueue D) : Type 0 where
    pub queue_ok : AuxOk q.packets q.times q.cursor
    pub within : All (Within begin_time end_time) q.points

  -- The queue stays well formed, the cursor stays in its packet, and every point collected for a
  -- scan has a corrected time stamp in the half-open span of the scan.
  pub collect_aux-IsCollected :
      (o : SyncOptions D) (b e : D) (packets : List (List (Point D))) (times : List (Span D))
      (cursor : ℕ) (out : List (Point D))
      → AuxOk packets times cursor
      → All (Within b e) out
      → IsCollected b e (collect_aux o b e packets times cursor out)
  unfolding collect_aux
  collect_aux-IsCollected o b e [] times cursor out q w = record { queue_ok = q; within = w }
  collect_aux-IsCollected o b e (aux ∷ packets) [] cursor out q w = record {
    queue_ok = q;
    within = w;
  }
  collect_aux-IsCollected o b e (aux ∷ packets) (t ∷ times) cursor out q w =
      let c = crop_aux_points b e o.aux_lidar_time_offset aux cursor out in
      let (out_is, all_in, _, _, stays) =
        crop_aux_points_lem b e o.aux_lidar_time_offset aux cursor out q.fits in
      let inside : All (Within b e) c.out = rw out_is (All-append (Within b e) out _ w all_in) in
      let popped : AuxOk packets times 0 = record {
        as_long = omega (arith, q.as_long);
        bounded = omega (arith, q.bounded);
        fits = fits_zero packets;
      } in
      elim (AuxAction-cases (aux_action o b e aux t)) [
        | inl skip ↦
            rw (skip, collect_aux) (collect_aux-IsCollected o b e packets times 0 out popped w)
        | inr (inl waits) ↦ rw (waits, collect_aux) (record { queue_ok = q; within = w })
        | inr (inr crops) ↦ elim (Bool-cases (leb (length aux) c.cursor)) [
          | inl done ↦
              rw (crops, done, collect_aux)
                (collect_aux-IsCollected o b e packets times 0 c.out popped inside)
          | inr more ↦
              rw (crops, more, collect_aux)
                (record {
                  queue_ok = record { as_long = q.as_long; bounded = q.bounded; fits = stays };
                  within = inside;
                })
        ]
      ]
