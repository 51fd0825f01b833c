-- ===== src/Coverage/Bins.antt =====
-- The bins of `SelectGeometricCoverage` of algo/lidar_sampling.h beside the correspondences that they
-- hold, and `CorrespondenceBin` in terms of a normal and a place.
use mathlib.Core.List.{append_assoc}
use adaptive_lio.Common.{
  ℕ, zero, suc, ◌≡◌, refl, ap, ◌∙◌, sym, subst, arith, Bool, true, false, some, List, [], ◌∷◌, ◌++◌,
  length, length-append, get_elem?, All, either, if◌then◌else◌,
}
use adaptive_lio.Common.Double.{Double}
use adaptive_lio.Common.Int.{ℤ, pos, negsuc, ltb_ℤ, eqb_ℤ}
use adaptive_lio.Imu.Axes.{Vec3}
use adaptive_lio.Sample.Agree.{get-middle}
use adaptive_lio.Coverage.{
  LidarCorrespondence, CoverageBin, Bins, lex_lt, push_bin, correspondence_bin, fill, index_lists,
  oriented, doubled,
}
use adaptive_lio.Coverage.First.{firsts}

-- Numbers and keys that are not before one another are equal.
ltb_antisymm : (a b : ℤ) → ltb_ℤ a b ≡ false → ltb_ℤ b a ≡ false → a ≡ b
ltb_antisymm (pos a) (pos b) h g = ap pos (ground arith)
ltb_antisymm (pos a) (negsuc b) h g = absurd (ground arith)
ltb_antisymm (negsuc a) (pos b) h g = absurd (ground arith)
ltb_antisymm (negsuc a) (negsuc b) h g = ap negsuc (ground arith)

eqb_refl : (a : ℤ) → eqb_ℤ a a ≡ true
eqb_refl (pos a) = ground arith
eqb_refl (negsuc a) = ground arith

lex_antisymm : (xs ys : CoverageBin) → lex_lt xs ys ≡ false → lex_lt ys xs ≡ false → xs ≡ ys
lex_antisymm [] [] h g = refl
lex_antisymm [] (y ∷ ys) h g = cc
lex_antisymm (x ∷ xs) [] h g = cc
lex_antisymm (x ∷ xs) (y ∷ ys) h g =
    let e : x ≡ y = ltb_antisymm x y (ground arith) (ground arith) in
    let same : eqb_ℤ x y ≡ true = subst (λ v. eqb_ℤ x v ≡ true) e (eqb_refl x) in
    let same' : eqb_ℤ y x ≡ true = subst (λ v. eqb_ℤ v x ≡ true) e (eqb_refl x) in
    ap (λ v. v ∷ xs) e ∙ ap (λ v. y ∷ v) (lex_antisymm xs ys (ground arith) (ground arith))

-- A bin with this key that is not empty.
pub data HasBin (k : CoverageBin) : Bins → Type 0 where
  here : {j : ℕ} {is : List ℕ} {bs : Bins} → HasBin k ((k, j ∷ is) ∷ bs)
  there : {b : CoverageBin × List ℕ} {bs : Bins} → HasBin k bs → HasBin k (b ∷ bs)

grown-HasBin :
    (k : CoverageBin) (i : ℕ) (is : List ℕ) (bs : Bins) → HasBin k ((k, is ++ i ∷ []) ∷ bs)
grown-HasBin k i [] bs = here
grown-HasBin k i (j ∷ is) bs = here

push_bin-here : (k : CoverageBin) (i : ℕ) (bs : Bins) → HasBin k (push_bin k i bs)
unfolding push_bin
push_bin-here k i [] = here
push_bin-here k i ((k', is) ∷ bs) =
    let rest = push_bin k i bs in
    either (HasBin k) (lex_lt k k') ((k, i ∷ []) ∷ (k', is) ∷ bs)
      (if lex_lt k' k then (k', is) ∷ rest else (k', is ++ i ∷ []) ∷ bs) (λ e. here)
      (λ e.
        either (HasBin k) (lex_lt k' k) ((k', is) ∷ rest) ((k', is ++ i ∷ []) ∷ bs)
          (λ e'. there (push_bin-here k i bs))
          (λ e'.
            subst (λ v. HasBin k ((v, is ++ i ∷ []) ∷ bs)) (lex_antisymm k k' e e')
              (grown-HasBin k i is bs)))

tail-HasBin :
    {k : CoverageBin} {b : CoverageBin × List ℕ} {bs rest : Bins}
    → (HasBin k bs → HasBin k rest)
    → HasBin k (b ∷ bs)
    → HasBin k (b ∷ rest)
tail-HasBin f here = here
tail-HasBin f (there h) = there (f h)

longer-HasBin :
    {k b : CoverageBin} {is : List ℕ} {bs : Bins} (i : ℕ)
    → HasBin k ((b, is) ∷ bs)
    → HasBin k ((b, is ++ i ∷ []) ∷ bs)
longer-HasBin i here = here
longer-HasBin i (there h) = there h

push_bin-there :
    (k : CoverageBin) (i : ℕ) (k' : CoverageBin) (bs : Bins)
    → HasBin k' bs
    → HasBin k' (push_bin k i bs)
unfolding push_bin
push_bin-there k i k' [] h = elim h [ ]
push_bin-there k i k' ((b, is) ∷ bs) h =
    let rest = push_bin k i bs in
    either (HasBin k') (lex_lt k b) ((k, i ∷ []) ∷ (b, is) ∷ bs)
      (if lex_lt b k then (b, is) ∷ rest else (b, is ++ i ∷ []) ∷ bs) (λ e. there h)
      (λ e.
        either (HasBin k') (lex_lt b k) ((b, is) ∷ rest) ((b, is ++ i ∷ []) ∷ bs)
          (λ e'. tail-HasBin (λ g. push_bin-there k i k' bs g) h) (λ e'. longer-HasBin i h))

-- Every index of a bin is related to its key.
abbrev pub Keyed : (ℕ → CoverageBin → Type 0) → Bins → Type 0
Keyed R bins = All (λ b. All (λ i. R i b.0) b.1) bins

All-snoc : (P : ℕ → Type 0) (is : List ℕ) (i : ℕ) → All P is → P i → All P (is ++ i ∷ [])
All-snoc P [] i a p = (p, tt)
All-snoc P (j ∷ is) i (h, a) p = (h, All-snoc P is i a p)

push_bin-Keyed :
    (R : ℕ → CoverageBin → Type 0) (k : CoverageBin) (i : ℕ) (bs : Bins)
    → R i k
    → Keyed R bs
    → Keyed R (push_bin k i bs)
unfolding push_bin
push_bin-Keyed R k i [] r a = ((r, tt), tt)
push_bin-Keyed R k i (b ∷ bs) r (h, a) =
    let rest = push_bin k i bs in
    either (Keyed R) (lex_lt k b.0) ((k, i ∷ []) ∷ b ∷ bs)
      (if lex_lt b.0 k then b ∷ rest else (b.0, b.1 ++ i ∷ []) ∷ bs) (λ e. ((r, tt), (h, a)))
      (λ e.
        either (Keyed R) (lex_lt b.0 k) (b ∷ rest) ((b.0, b.1 ++ i ∷ []) ∷ bs)
          (λ e'. (h, push_bin-Keyed R k i bs r a))
          (λ e'. (All-snoc (λ j. R j b.0) b.1 i h (subst (R i) (lex_antisymm k b.0 e e') r), a)))

-- The first of a bin is among the first of all of them.
abbrev pub Among : ℕ → List ℕ → Type 0
Among j xs = (before : List ℕ) × (after : List ℕ) × (xs ≡ before ++ j ∷ after)

pub HasBin-first :
    (R : ℕ → CoverageBin → Type 0) (k : CoverageBin) (bins : Bins)
    → HasBin k bins
    → Keyed R bins
    → (j : ℕ) × R j k × Among j (firsts (index_lists bins))
HasBin-first R k [] h a = elim h [ ]
HasBin-first R k ((k', []) ∷ bs) (there h) (a, rest) = HasBin-first R k bs h rest
HasBin-first R k ((k', j ∷ is) ∷ bs) here ((r, a), rest) =
    (j, r, ([], firsts (index_lists bs), refl))
HasBin-first R k ((k', j ∷ is) ∷ bs) (there h) (a, rest) =
    let (i, r, (before, after, e)) = HasBin-first R k bs h rest in
    (i, r, (j ∷ before, after, ap (λ v. j ∷ v) e))

side_inj : (a b : Bool) → (if a then negsuc 0 else pos 1) ≡ (if b then negsuc 0 else pos 1) → a ≡ b
side_inj true true e = refl
side_inj true false e = cc
side_inj false true e = cc
side_inj false false e = refl

abbrev item : ℕ → CoverageBin → ℤ
item i [] = pos 0
item zero (x ∷ xs) = x
item (suc i) (x ∷ xs) = item i xs

module _ {D : Type 0} ⦃d : Double D⦄ where
  -- The sign of the component of the greatest size, the first of them, is minus.
  abbrev pub flipped : Vec3 D → Bool
  flipped n =
      if d.lt (d.abs n.x) (d.abs n.y)
      then (if d.lt (d.abs n.y) (d.abs n.z)
          then d.lt n.z (d.decimal 0 0)
          else d.lt n.y (d.decimal 0 0))
      else (if d.lt (d.abs n.x) (d.abs n.z)
          then d.lt n.z (d.decimal 0 0)
          else d.lt n.x (d.decimal 0 0))

  oriented_lem :
      (n : Vec3 D)
      → oriented n ≡ record {
        x = if flipped n then d.neg n.x else n.x;
        y = if flipped n then d.neg n.y else n.y;
        z = if flipped n then d.neg n.z else n.z;
      }
  oriented_lem n = ground arith

module _ {D : Type 0} ⦃d : Double D⦄ (round : D → D) (to_int : D → ℤ) where
  -- A component of the normal in the direction in which its greatest one is not negative, doubled
  -- and rounded.
  abbrev pub doubled_facing : Vec3 D → D → ℤ
  doubled_facing n component =
      to_int (round (d.mul (d.decimal 2 0) (if flipped n then d.neg component else component)))

  -- The normals are alike up to their sign and to rounding, and the places are in one octant.
  pub record IsAlike (a b : LidarCorrespondence D) : Type 0 where
    pub normal_x :
        doubled_facing a.normal_world a.normal_world.x
        ≡ doubled_facing b.normal_world b.normal_world.x
    pub normal_y :
        doubled_facing a.normal_world a.normal_world.y
        ≡ doubled_facing b.normal_world b.normal_world.y
    pub normal_z :
        doubled_facing a.normal_world a.normal_world.z
        ≡ doubled_facing b.normal_world b.normal_world.z
    pub octant_x : d.lt a.end_imu.x (d.decimal 0 0) ≡ d.lt b.end_imu.x (d.decimal 0 0)
    pub octant_y : d.lt a.end_imu.y (d.decimal 0 0) ≡ d.lt b.end_imu.y (d.decimal 0 0)
    pub octant_z : d.lt a.end_imu.z (d.decimal 0 0) ≡ d.lt b.end_imu.z (d.decimal 0 0)

  doubled_lem :
      (f : Vec3 D → D) (n : Vec3 D)
      → doubled round to_int (f (oriented n))
        ≡ doubled round to_int (
            f (record {
              x = if flipped n then d.neg n.x else n.x;
              y = if flipped n then d.neg n.y else n.y;
              z = if flipped n then d.neg n.z else n.z;
            }))
  doubled_lem f n = ap (λ v. doubled round to_int (f v)) (oriented_lem n)

  pub correspondence_bin-IsAlike :
      (a b : LidarCorrespondence D)
      → correspondence_bin round to_int a ≡ correspondence_bin round to_int b
      → IsAlike a b
  unfolding correspondence_bin
  correspondence_bin-IsAlike a b e =
      let n = a.normal_world in
      let m = b.normal_world in
      record {
        normal_x = sym (doubled_lem (λ v. v.x) n) ∙ ap (item 0) e ∙ doubled_lem (λ v. v.x) m;
        normal_y = sym (doubled_lem (λ v. v.y) n) ∙ ap (item 1) e ∙ doubled_lem (λ v. v.y) m;
        normal_z = sym (doubled_lem (λ v. v.z) n) ∙ ap (item 2) e ∙ doubled_lem (λ v. v.z) m;
        octant_x = side_inj _ _ (ap (item 3) e);
        octant_y = side_inj _ _ (ap (item 4) e);
        octant_z = side_inj _ _ (ap (item 5) e);
      }

  -- Index `j` has a correspondence with this key.
  abbrev pub HasKey : List (LidarCorrespondence D) → ℕ → CoverageBin → Type 0
  HasKey cs j k =
      (c : LidarCorrespondence D) × (get_elem? cs j ≡ some c)
      × (correspondence_bin round to_int c ≡ k)

  fill-there :
      (k : CoverageBin) (i : ℕ) (cs : List (LidarCorrespondence D)) (bins : Bins)
      → HasBin k bins
      → HasBin k (fill round to_int i cs bins)
  unfolding fill
  fill-there k i [] bins h = h
  fill-there k i (c ∷ cs) bins h =
      fill-there k (suc i) cs _ (push_bin-there (correspondence_bin round to_int c) i k bins h)

  pub fill-here :
      (i n : ℕ) (cs : List (LidarCorrespondence D)) (bins : Bins) (c : LidarCorrespondence D)
      → get_elem? cs n ≡ some c
      → HasBin (correspondence_bin round to_int c) (fill round to_int i cs bins)
  unfolding fill
  fill-here i n [] bins c e = cc
  fill-here i zero (x ∷ cs) bins c e =
      let same : x ≡ c = cc in
      subst (λ v. HasBin (correspondence_bin round to_int v) (fill round to_int i (x ∷ cs) bins))
        same
        (fill-there (correspondence_bin round to_int x) (suc i) cs _
          (push_bin-here (correspondence_bin round to_int x) i bins))
  fill-here i (suc n) (x ∷ cs) bins c e = fill-here (suc i) n cs _ c e

  pub fill-Keyed :
      (all before cs : List (LidarCorrespondence D)) (bins : Bins)
      → all ≡ before ++ cs
      → Keyed (HasKey all) bins
      → Keyed (HasKey all) (fill round to_int (length before) cs bins)
  unfolding fill
  fill-Keyed all before [] bins e h = h
  fill-Keyed all before (c ∷ cs) bins e h =
      let k = correspondence_bin round to_int c in
      let found : get_elem? all (length before) ≡ some c =
        ap (λ v. get_elem? v (length before)) e ∙ get-middle before c cs in
      let next : length (before ++ c ∷ []) ≡ suc (length before) =
        omega (arith, length-append before (c ∷ [])) in
      let bins' = push_bin k (length before) bins in
      subst (λ n. Keyed (HasKey all) (fill round to_int n cs bins')) next
        (fill-Keyed all (before ++ c ∷ []) cs bins' (e ∙ sym (append_assoc before (c ∷ []) cs))
          (push_bin-Keyed (HasKey all) k (length before) bins (c, found, refl) h))
