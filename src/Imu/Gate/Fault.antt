-- ===== src/Imu/Gate/Fault.antt =====
-- When `ImuQualityGate::Process` fails, and what it keeps until then.
use adaptive_lio.Common.{
  ◌≡◌, refl, ◌∙◌, true, false, ◌⊎◌, inl, inr, ◌↔◌, ◌≢◌, some, List, [], ◌∷◌, arith,
}
use adaptive_lio.Common.Double.{Double, IsOrdered}
use adaptive_lio.Imu.Axes.{Axis, axes, get}
use adaptive_lio.Imu.{Imu, fresh_quality}
use adaptive_lio.Imu.Gate.{
  ImuQualityOptions, initial, create, Gate, Scan, passed, stopped, drop, fault, check_axis, scan,
  and_then, update_episode, finish, conclude, process, with_quality,
}
use adaptive_lio.Imu.Gate.Loop.{Scanned, After, scan-Scanned, scan_keeps}
use adaptive_lio.Imu.Gate.Safety.{Inv, finish-IsSound, fresh-IsKept}

module _ {D : Type 0} ⦃d : Double D⦄ where
  -- A loop that returned has marked the gate.
  abbrev Stops : Scan D → Type 0
  Stops (passed g s) = Unit {0}
  Stops (stopped g s) = g.faulted ≡ true

  Stops-and_then :
      (r : Scan D) (k : Gate D → Imu D → Scan D)
      → Stops r
      → ((g : Gate D) (s : Imu D) → Stops (k g s))
      → Stops (and_then r k)
  Stops-and_then (passed g s) k p f = f g s
  Stops-and_then (stopped g s) k p f = p

  check_axis-stopped : (a : Axis) (g : Gate D) (s : Imu D) → Stops (check_axis a g s)
  unfolding check_axis
  check_axis-stopped a g s = ground arith

  scan-stopped : (bs : List Axis) (g : Gate D) (s : Imu D) → Stops (scan bs g s)
  unfolding scan
  scan-stopped [] g s = tt
  scan-stopped (a ∷ bs) g s =
      Stops-and_then (check_axis a g s) (scan bs) (check_axis-stopped a g s) (scan-stopped bs)

  check_axis-faulted :
      (g : Gate D) (a : Axis) (g' : Gate D) (s' : Imu D)
      → g'.faulted ≡ g.faulted
      → After (λ g'' s''. g''.faulted ≡ g.faulted) (check_axis a g' s')
  unfolding check_axis
  check_axis-faulted g a g' s' h = ground arith

  finish-fault :
      (g : Gate D) (s : Imu D)
      → g.faulted ≡ false
      → ((finish g s).decision ≡ fault) ↔ ((finish g s).gate.faulted ≡ true)
  unfolding finish update_episode
  finish-fault g s h = ground arith

  conclude-fault :
      (g : Gate D) (r : Scan D)
      → g.faulted ≡ false
      → Stops r
      → After (λ g' s'. g'.faulted ≡ g.faulted) r
      → ((conclude r).decision ≡ fault) ↔ ((conclude r).gate.faulted ≡ true)
  unfolding conclude
  conclude-fault g (passed g' s') h p k = finish-fault g' s' (k ∙ h)
  conclude-fault g (stopped g' s') h p k = (λ _. p, λ _. refl)

  conclude-ne-drop : (r : Scan D) → (conclude r).decision ≢ drop
  unfolding conclude finish
  conclude-ne-drop (passed g s) h = ground arith
  conclude-ne-drop (stopped g s) h = cc

  scan-fault :
      (g : Gate D) (s : Imu D)
      → g.faulted ≡ false
      → ((conclude (scan axes g s)).decision ≡ fault)
        ↔ ((conclude (scan axes g s)).gate.faulted ≡ true)
  scan-fault g s h =
      conclude-fault g (scan axes g s) h (scan-stopped axes g s)
        (scan_keeps (λ g' s'. g'.faulted ≡ g.faulted) (check_axis-faulted g) axes g s refl)

  -- `Fault` is answered exactly if the gate has failed by then; a gate that has failed answers
  -- nothing else and stays as it is; a dropped sample leaves the gate as it was.
  pub process-fault :
      (g : Gate D) (s : Imu D)
      → (((process g s).decision ≡ fault) ↔ ((process g s).gate.faulted ≡ true))
        × (g.faulted ≡ true → (process g s).gate ≡ g)
        × ((process g s).decision ≡ drop → (process g s).gate ≡ g)
  unfolding process
  process-fault g s =
      let fresh = with_quality s fresh_quality in
      ground (arith, scan-fault g fresh, conclude-ne-drop (scan axes g fresh))

  conclude-Inv :
      (g : Gate D) (s : Imu D) (r : Scan D)
      → IsOrdered D
      → After (Scanned g s axes) r
      → Stops r
      → Inv (conclude r).gate
  unfolding conclude
  conclude-Inv g s (passed g' s') laws h p _ =
      finish-IsSound g' s' h.0.sound (laws.le_of_finite _ h.0.stamp_finite)
  conclude-Inv g s (stopped g' s') laws h p ok = cc

  process-cases :
      (g : Gate D) (s : Imu D)
      → ((process g s).gate ≡ g)
        ⊎ ((process g s).gate.faulted ≡ true)
        ⊎ ((g.faulted ≡ false)
            × (d.is_finite s.timestamp ≡ true)
            × (process g s ≡ conclude (scan axes g (with_quality s fresh_quality))))
  unfolding process
  process-cases g s = ground arith

  -- Whatever arrives, a gate that has not failed can hold only finite values, has a usable noise
  -- multiplier, and has a last time stamp that is a number or minus infinity.
  pub process-Inv : IsOrdered D → (g : Gate D) (s : Imu D) → Inv g → Inv (process g s).gate
  process-Inv laws g s v = elim (process-cases g s) [
    | inl e ↦ rw e v
    | inr (inl e) ↦ λ ok. cc
    | inr (inr (ok, t, e)) ↦
        let fresh = with_quality s fresh_quality in
        rw e (
          conclude-Inv g fresh (scan axes g fresh) laws
            (scan-Scanned g fresh axes g fresh (fresh-IsKept laws g s (v ok) t))
            (scan-stopped axes g fresh))
  ]

  initial-stamp :
      IsOrdered D
      → (o : ImuQualityOptions D) (a : Axis) → d.is_finite (get (initial o).healthy_stamp a) ≡ false
  unfolding get
  initial-stamp laws o a = ground (arith, laws.not_finite_infinity)

  create-initial :
      (o : ImuQualityOptions D) {g : Gate D}
      → create o ≡ some g
      → (g ≡ initial o)
        × (d.is_finite o.noise_multiplier ≡ true)
        × (d.le (d.decimal 1 0) o.noise_multiplier ≡ true)
  unfolding create
  create-initial o e = ground arith

  -- The constructor makes a gate that keeps the invariant.
  pub create-Inv : IsOrdered D → (o : ImuQualityOptions D) {g : Gate D} → create o ≡ some g → Inv g
  create-Inv laws o {g} e =
      let (same_gate, finite, ge) = create-initial o e in
      rw same_gate λ ok. record {
        scale_finite = finite;
        scale_ge = ge;
        held_finite = λ a h. cc (initial-stamp laws o a);
        last_number = laws.le_infinity;
      }
