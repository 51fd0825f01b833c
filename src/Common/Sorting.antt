-- ===== src/Common/Sorting.antt =====
-- Insertion sort by a `double`, for `std::sort` and `std::stable_sort`, and what it promises on
-- keys that are numbers.
use Prim.Native.Nat.{suc}
use mathlib.Core.Path.{◌≡◌, refl, ap, ◌∙◌}
use mathlib.Core.Bool.{true}
use mathlib.Core.List.{List, [], ◌∷◌, Perm}
use mathlib.Core.List.Perm
use adaptive_lio.Common.Lists.{if◌then◌else◌, length, All, either}
use adaptive_lio.Common.Double.{Double, IsOrdered}

module _ {A : Type 0} {D : Type 0} ⦃d : Double D⦄ (key : A → D) where
  -- Insertion behind the elements of an equal key, so that the sort is stable.
  unfoldable pub insert_by : A → List A → List A
  insert_by p [] = p ∷ []
  insert_by p (q ∷ qs) = if d.lt (key q) (key p) then q ∷ insert_by p qs else p ∷ q ∷ qs

  unfoldable pub sort_by : List A → List A
  sort_by [] = []
  sort_by (p ∷ ps) = insert_by p (sort_by ps)

  -- A key that is a number.
  abbrev pub IsNumber : A → Type 0
  IsNumber p = d.le (key p) (key p) ≡ true

  -- No element is above one behind it.
  abbrev pub IsSorted : List A → Type 0
  IsSorted [] = Unit
  IsSorted (p ∷ ps) = All (λ q. d.le (key p) (key q) ≡ true) ps × IsSorted ps

  insert_by-All {κ} :
      (P : A → Type κ) (p : A) (ps : List A) → P p → All P ps → All P (insert_by p ps)
  unfolding insert_by
  insert_by-All P p [] h a = (h, a)
  insert_by-All P p (q ∷ qs) h a =
      either (All P) (d.lt (key q) (key p)) _ _ (λ e. (a.0, insert_by-All P p qs h a.1))
        (λ e. (h, a))

  insert_by-Perm : (p : A) (ps : List A) → Perm (insert_by p ps) (p ∷ ps)
  unfolding insert_by
  insert_by-Perm p [] = Perm.refl (p ∷ [])
  insert_by-Perm p (q ∷ qs) =
      either (λ xs. Perm xs (p ∷ q ∷ qs)) (d.lt (key q) (key p)) _ _
        (λ e. Perm.trans (Perm.cons q (insert_by-Perm p qs)) (Perm.swap p q qs))
        (λ e. Perm.refl (p ∷ q ∷ qs))

  All-le_trans :
      IsOrdered D
      → (p q : A) (ps : List A) → d.le (key p) (key q) ≡ true
      → All (λ r. d.le (key q) (key r) ≡ true) ps
      → All (λ r. d.le (key p) (key r) ≡ true) ps
  All-le_trans laws p q [] h a = tt
  All-le_trans laws p q (r ∷ rs) h a = (laws.le_trans _ _ _ h a.0, All-le_trans laws p q rs h a.1)

  insert_by-IsSorted :
      IsOrdered D
      → (p : A) (ps : List A) → IsNumber p
      → All IsNumber ps
      → IsSorted ps
      → IsSorted (insert_by p ps)
  unfolding insert_by
  insert_by-IsSorted laws p [] fp f s = (tt, tt)
  insert_by-IsSorted laws p (q ∷ qs) fp f s =
      either IsSorted (d.lt (key q) (key p)) _ _
        (λ e. (
          insert_by-All (λ r. d.le (key q) (key r) ≡ true) p qs (laws.le_of_lt _ _ e) s.0,
          insert_by-IsSorted laws p qs fp f.1 s.1,
        ))
        (λ e.
          let h = laws.le_of_not_lt (key q) (key p) f.0 fp e in
          ((h, All-le_trans laws p q qs h s.0), s))

  pub sort_by-All {κ} : (P : A → Type κ) (ps : List A) → All P ps → All P (sort_by ps)
  unfolding sort_by
  sort_by-All P [] a = tt
  sort_by-All P (p ∷ ps) (h, a) = insert_by-All P p (sort_by ps) h (sort_by-All P ps a)

  pub sort_by-Perm : (ps : List A) → Perm (sort_by ps) ps
  unfolding sort_by
  sort_by-Perm [] = Perm.refl []
  sort_by-Perm (p ∷ ps) = Perm.trans (insert_by-Perm p (sort_by ps)) (Perm.cons p (sort_by-Perm ps))

  pub sort_by-IsSorted : IsOrdered D → (ps : List A) → All IsNumber ps → IsSorted (sort_by ps)
  unfolding sort_by
  sort_by-IsSorted laws [] f = tt
  sort_by-IsSorted laws (p ∷ ps) (fp, f) =
      insert_by-IsSorted laws p (sort_by ps) fp (sort_by-All IsNumber ps f)
        (sort_by-IsSorted laws ps f)

  length-insert_by : (p : A) (ps : List A) → length (insert_by p ps) ≡ suc (length ps)
  unfolding insert_by
  length-insert_by p [] = refl
  length-insert_by p (q ∷ qs) =
      either (λ (xs : List A). length xs ≡ suc (suc (length qs))) (d.lt (key q) (key p)) _ _
        (λ e. ap suc (length-insert_by p qs)) (λ e. refl)

  pub length-sort_by : (ps : List A) → length (sort_by ps) ≡ length ps
  unfolding sort_by
  length-sort_by [] = refl
  length-sort_by (p ∷ ps) = length-insert_by p (sort_by ps) ∙ ap suc (length-sort_by ps)
