-- ===== src/Replay/History.antt =====
-- The history of `ImuOdomPredictor`: what `Append` keeps of it.
use adaptive_lio.Common.{
  ◌≡◌, true, false, ◌||◌, inl, inr, List, [], ◌∷◌, ◌++◌, arith, ◌≤◌, leb, length, All, All-append,
  Bool-cases,
}
use adaptive_lio.Common.Double.{Double, IsOrdered}
use adaptive_lio.Imu.{Imu, usable}
use adaptive_lio.Replay.{finite_sample, trim, not_newer}

module _ {D : Type 0} ⦃d : Double D⦄ where
  -- A sample that the filter can use.
  pub record IsFit (x : Imu D) : Type 0 where
    pub usable_quality : usable x.quality ≡ true
    pub finite_stamp : d.is_finite x.timestamp ≡ true
    pub finite_values : finite_sample x ≡ true

  abbrev pub Before : D → Imu D → Type 0
  Before t y = d.lt y.timestamp t ≡ true

  abbrev pub After : D → Imu D → Type 0
  After t y = d.lt t y.timestamp ≡ true

  -- Every sample is before all later ones.
  abbrev pub Rising : List (Imu D) → Type 0
  Rising [] = Unit
  Rising (x ∷ xs) = All (After x.timestamp) xs × Rising xs

  abbrev pub Fits : List (Imu D) → Type 0
  Fits h = All IsFit h × Rising h

  trim-Fits : (cutoff : D) (h : List (Imu D)) → Fits h → Fits (trim cutoff h)
  unfolding trim
  trim-Fits cutoff [] f = f
  trim-Fits cutoff (a ∷ []) f = f
  trim-Fits cutoff (a ∷ b ∷ []) f = f
  trim-Fits cutoff (a ∷ b ∷ c ∷ rest) ((fit, fits), (later, rising)) =
      let shorter = trim-Fits cutoff (b ∷ c ∷ rest) (fits, rising) in
      elim (Bool-cases (d.lt b.timestamp cutoff || leb 20001 (length (a ∷ b ∷ c ∷ rest)))) [
        | inl e ↦ rw e shorter
        | inr e ↦ rw e ((fit, fits), (later, rising))
      ]

  trim-bounded : (cutoff : D) (h : List (Imu D)) → length (trim cutoff h) ≤ 20000
  unfolding trim
  trim-bounded cutoff [] = ground arith
  trim-bounded cutoff (a ∷ []) = ground arith
  trim-bounded cutoff (a ∷ b ∷ []) = ground arith
  trim-bounded cutoff (a ∷ b ∷ c ∷ rest) =
      let shorter = trim-bounded cutoff (b ∷ c ∷ rest) in
      elim (Bool-cases (d.lt b.timestamp cutoff || leb 20001 (length (a ∷ b ∷ c ∷ rest)))) [
        | inl e ↦ rw e shorter
        | inr e ↦ rw e (ground arith)
      ]

  -- A sample that is newer than the last one is newer than all.
  newer_than-All :
      (laws : IsOrdered D) (h : List (Imu D)) (t : D)
      → d.is_finite t ≡ true
      → Fits h
      → not_newer h t ≡ false
      → All (Before t) h
  newer_than-All laws [] t finite f n = tt
  newer_than-All laws (x ∷ []) t finite ((fit, _), _) n = (
    laws.lt_of_not_le _ _ (laws.le_of_finite _ finite) (laws.le_of_finite _ fit.finite_stamp) n,
    tt,
  )
  newer_than-All laws (x ∷ y ∷ ys) t finite ((_, fits), ((xy, _), rising)) n =
      let rest = newer_than-All laws (y ∷ ys) t finite (fits, rising) n in
      (laws.lt_trans _ _ _ xy rest.0, rest)

  Rising-push :
      (h : List (Imu D)) (x : Imu D)
      → Rising h
      → All (Before x.timestamp) h
      → Rising (h ++ (x ∷ []))
  Rising-push [] x r b = (tt, tt)
  Rising-push (y ∷ ys) x (later, rising) (yx, b) =
      (All-append (After y.timestamp) ys (x ∷ []) later (yx, tt), Rising-push ys x rising b)

  -- What the history is at any time: samples fit for the filter with rising stamps, not too many.
  pub record IsHistory (h : List (Imu D)) : Type 0 where
    pub fits : Fits h
    pub bounded : length h ≤ 20000

  pub push-IsHistory :
      (laws : IsOrdered D) (cutoff : D) (h : List (Imu D)) (x : Imu D)
      → IsHistory h
      → IsFit x
      → not_newer h x.timestamp ≡ false
      → IsHistory (trim cutoff (h ++ (x ∷ [])))
  push-IsHistory laws cutoff h x i fit n =
      let before = newer_than-All laws h x.timestamp fit.finite_stamp i.fits n in
      record {
        fits =
            trim-Fits cutoff (h ++ (x ∷ []))
              (All-append IsFit h (x ∷ []) i.fits.0 (fit, tt), Rising-push h x i.fits.1 before);
        bounded = trim-bounded cutoff (h ++ (x ∷ []));
      }
