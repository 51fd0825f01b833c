-- ===== src/Convert/Trim.antt =====
-- What the `while` loops of preprocess/cloud_convert/cloud_convert2.cc keep, which take late points
-- off the end of the sorted points.
use adaptive_lio.Common.{
  ◌≡◌, refl, ap, Bool, true, false, Option, none, some, List, [], ◌∷◌, ◌++◌, back, All, either,
  if◌then◌else◌,
}
use adaptive_lio.Convert.Clouds.{pop_late}

module _ {A : Type 0} where
  -- What the `while` loop that takes late points off the end leaves: all but a late end, unless all
  -- are late and the loop reads in front of the vector.
  pub data IsTrimmed (late : A → Bool) (ps : List A) : Option (List A) → Type 0 where
    ran_out : All (λ p. late p ≡ true) ps → IsTrimmed late ps none
    stopped :
        (kept removed : List A) (last : A)
        → back kept ≡ some last
        → late last ≡ false
        → kept ++ removed ≡ ps
        → All (λ p. late p ≡ true) removed
        → IsTrimmed late ps (some kept)

  back-cons : (p last : A) (xs : List A) → back xs ≡ some last → back (p ∷ xs) ≡ some last
  back-cons p last [] h = cc
  back-cons p last (x ∷ xs) h = h

  -- The loop that takes points off the end while the last is late stops in front of the late end:
  -- what it keeps is a first part of the points that ends with one that is not late, and all that it
  -- took off are late. It runs out of points, and reads in front of them, only if all are late.
  pub pop_late-IsTrimmed : (late : A → Bool) (ps : List A) → IsTrimmed late ps (pop_late late ps)
  unfolding pop_late
  pop_late-IsTrimmed late [] = IsTrimmed.ran_out tt
  pop_late-IsTrimmed late (p ∷ ps) = onward (pop_late late ps) (pop_late-IsTrimmed late ps)
    where
      onward :
          (o : Option (List A))
          → IsTrimmed late ps o
          → IsTrimmed late (p ∷ ps) (elim o [
            | none ↦ if late p then none else some (p ∷ [])
            | some kept ↦ some (p ∷ kept)
          ])
      onward none (IsTrimmed.ran_out a) =
          either (IsTrimmed late (p ∷ ps)) (late p) _ _ (λ e. IsTrimmed.ran_out (e, a))
            (λ e. IsTrimmed.stopped (p ∷ []) ps p refl e refl a)
      onward (some kept) (IsTrimmed.stopped _ removed last e f g a) =
          IsTrimmed.stopped (p ∷ kept) removed last (back-cons p last kept e) f
            (ap (λ xs. p ∷ xs) g) a
