-- ===== src/Scan/Cells.antt =====
-- The cells of the descriptor that `makeScanContext` of scantext_module/ScanContext.cpp makes.
use mathlib.Core.Option
use adaptive_lio.Common.{
  ℕ, zero, suc, ◌<◌, ◌≡◌, refl, ap, ◌∙◌, sym, subst, arith, Bool, true, false, ◌&&◌, Option, none,
  some, List, [], ◌∷◌, ◌==◌, get_elem?, All, ◌⊎◌, inl, inr, Bool-cases, if◌then◌else◌,
}
use adaptive_lio.Common.Double.{Double, IsOrdered}
use adaptive_lio.Imu.Axes.{Vec3}
use adaptive_lio.Scan.{
  Numeric, ScParams, modify, repeat, number, ring_of, sector_of, counts, put_height, raise_cell,
  raise_cells, make_scan_context,
}

get_elem?-modify :
    {A : Type 0} (n k : ℕ) (f : A → A) (xs : List A)
    → get_elem? (modify n f xs) k
      ≡ (if n == k then Option.map f (get_elem? xs k) else get_elem? xs k)
unfolding modify
get_elem?-modify n k f [] = ground arith
get_elem?-modify zero zero f (x ∷ xs) = refl
get_elem?-modify zero (suc k) f (x ∷ xs) = ground arith
get_elem?-modify (suc n) zero f (x ∷ xs) = ground arith
get_elem?-modify (suc n) (suc k) f (x ∷ xs) = ground (arith, get_elem?-modify n k f xs)

get_elem?-repeat : {A : Type 0} (n k : ℕ) (a : A) → k < n → get_elem? (repeat n a) k ≡ some a
unfolding repeat
get_elem?-repeat zero k a h = absurd (omega arith)
get_elem?-repeat (suc n) zero a h = refl
get_elem?-repeat (suc n) (suc k) a h = get_elem?-repeat n k a (omega arith)

module _ {A : Type 0} where
  abbrev in_column : ℕ → Option (List A) → Option A
  in_column r none = none
  in_column r (some column) = get_elem? column r

  -- The cell in row `r` and column `c`.
  abbrev pub cell : ℕ → ℕ → List (List A) → Option A
  cell r c columns = in_column r (get_elem? columns c)

  in_column-modify :
      (n r : ℕ) (f : A → A) (o : Option (List A))
      → in_column r (Option.map (modify n f) o)
        ≡ (if n == r then Option.map f (in_column r o) else in_column r o)
  in_column-modify n r f none = ground arith
  in_column-modify n r f (some column) = get_elem?-modify n r f column

  cell-modify :
      (m n r c : ℕ) (f : A → A) (columns : List (List A))
      → cell r c (modify m (modify n f) columns)
        ≡ (if n == r && m == c then Option.map f (cell r c columns) else cell r c columns)
  cell-modify m n r c f columns =
      ap (in_column r) (get_elem?-modify m c (modify n f) columns) ∙ elim (Bool-cases (m == c)) [
        | inl e ↦ rw e (in_column-modify n r f (get_elem? columns c) ∙ ground arith)
        | inr e ↦ rw e (ground arith)
      ]

module _ {D : Type 0} ⦃d : Double D⦄ where
  -- The heights of a bin in their order, one after another.
  abbrev pub tallest : List D → D → D
  tallest [] old = old
  tallest (z ∷ zs) old = tallest zs (put_height z old)

  abbrev AmongHeights : D → List D → Type 0
  AmongHeights v [] = ⊥
  AmongHeights v (z ∷ zs) = (v ≡ z) ⊎ AmongHeights v zs

  -- A height that is a number and not zero.
  abbrev pub IsHeight : D → Type 0
  IsHeight z = (d.le z z ≡ true) × (d.eq z (number 0) ≡ false)

  -- The value of a bin is the highest of its heights, or zero if it has none.
  pub data IsHighest : List D → D → Type 0 where
    empty_bin : (v : D) → v ≡ number 0 → IsHighest [] v
    highest :
        (z : D) (zs : List D) (v : D)
        → AmongHeights v (z ∷ zs)
        → All (λ h. d.le h v ≡ true) (z ∷ zs)
        → IsHighest (z ∷ zs) v

  put_height_lem :
      (z old : D)
      → d.eq old (number 0) ≡ false
      → ((d.lt old z ≡ true) × (put_height z old ≡ z))
        ⊎ ((d.lt old z ≡ false) × (put_height z old ≡ old))
  put_height_lem z old h = elim (Bool-cases (d.lt old z)) [
    | inl e ↦ inl (e, rw h (rw e refl))
    | inr e ↦ inr (e, rw h (rw e refl))
  ]

  -- What is at least the old value and the heights, and is one of them.
  abbrev Tops : List D → D → Type 0
  Tops zs v = AmongHeights v zs × All (λ h. d.le h v ≡ true) zs

  module _ (laws : IsOrdered D) where
    Tops-higher :
        (z old : D) (zs : List D) (v : D)
        → d.lt old z ≡ true
        → Tops (z ∷ zs) v
        → Tops (old ∷ z ∷ zs) v
    Tops-higher z old zs v e (m, (le_z, a)) =
        (inr m, (laws.le_trans old z v (laws.le_of_lt old z e) le_z, (le_z, a)))

    Tops-lower :
        (z old : D) (zs : List D) (v : D)
        → d.le z old ≡ true
        → Tops (old ∷ zs) v
        → Tops (old ∷ z ∷ zs) v
    Tops-lower z old zs v e (inl p, (le_old, a)) =
        (inl p, (le_old, (laws.le_trans z old v e le_old, a)))
    Tops-lower z old zs v e (inr m, (le_old, a)) =
        (inr (inr m), (le_old, (laws.le_trans z old v e le_old, a)))

    tallest-Tops :
        (zs : List D) (old : D) → IsHeight old → All IsHeight zs → Tops (old ∷ zs) (tallest zs old)
    tallest-Tops [] old h a = (inl refl, (h.0, tt))
    tallest-Tops (z ∷ zs) old h (hz, a) = elim (put_height_lem z old h.1) [
      | inl (e, p) ↦
          subst (λ x. Tops (old ∷ z ∷ zs) (tallest zs x)) (sym p)
            (Tops-higher z old zs (tallest zs z) e (tallest-Tops zs z hz a))
      | inr (e, p) ↦
          subst (λ x. Tops (old ∷ z ∷ zs) (tallest zs x)) (sym p)
            (Tops-lower z old zs (tallest zs old) (laws.le_of_not_lt old z h.0 hz.0 e)
              (tallest-Tops zs old h a))
    ]

    -- From an empty bin on.
    tallest-IsHighest :
        (zs : List D)
        → d.eq (number 0) (number 0) ≡ true
        → All IsHeight zs
        → IsHighest zs (tallest zs (number 0))
    tallest-IsHighest [] same a = IsHighest.empty_bin (number 0) refl
    tallest-IsHighest (z ∷ zs) same (hz, a) =
        let (m, b) = tallest-Tops zs z hz a in
        let start : put_height z (number 0) ≡ z = rw same refl in
        rw start (IsHighest.highest z zs (tallest zs z) m b)

  module _ (lib : Numeric D) (p : ScParams D) where
    abbrev falls : ℕ → ℕ → Vec3 D → Bool
    falls r c v = counts p v && (ring_of lib p v == r && sector_of lib p v == c)

    -- The heights of the points that count and fall in a bin.
    abbrev pub heights : ℕ → ℕ → List (Vec3 D) → List D
    heights r c [] = []
    heights r c (v ∷ vs) = if falls r c v then v.z ∷ heights r c vs else heights r c vs

    cell-raise_cell :
        (r c : ℕ) (v : Vec3 D) (columns : List (List D))
        → cell r c (raise_cell lib p v columns) ≡ (
            if falls r c v
            then Option.map (put_height v.z) (cell r c columns)
            else cell r c columns)
    unfolding raise_cell
    cell-raise_cell r c v columns = elim (Bool-cases (counts p v)) [
      | inl e ↦
          rw e (cell-modify (sector_of lib p v) (ring_of lib p v) r c (put_height v.z) columns)
      | inr e ↦ rw e refl
    ]

    map-if :
        (b : Bool) (z : D) (zs : List D) (o o' : Option D)
        → o' ≡ (if b then Option.map (put_height z) o else o)
        → Option.map (tallest zs) o' ≡ Option.map (tallest (if b then z ∷ zs else zs)) o
    map-if true z zs none o' e = rw e refl
    map-if true z zs (some x) o' e = rw e refl
    map-if false z zs o o' e = rw e refl

    cell-raise_cells :
        (r c : ℕ) (vs : List (Vec3 D)) (columns : List (List D))
        → cell r c (raise_cells lib p vs columns)
          ≡ Option.map (tallest (heights r c vs)) (cell r c columns)
    cell-raise_cells r c [] columns = elim (cell r c columns) as (λ o. o ≡ Option.map (λ x. x) o) [
      | none ↦ refl
      | some x ↦ refl
    ]
    cell-raise_cells r c (v ∷ vs) columns =
        cell-raise_cells r c vs (raise_cell lib p v columns)
        ∙ map-if (falls r c v) v.z (heights r c vs) (cell r c columns)
            (cell r c (raise_cell lib p v columns)) (cell-raise_cell r c v columns)

    -- If zero equals itself and no height in a bin is zero, then in the descriptor of a scan the bin
    -- has the highest of the heights of the points that count and fall in it, or zero if there are
    -- none.
    pub make_scan_context-IsHighest :
        IsOrdered D
        → d.eq (number 0) (number 0) ≡ true
        → (scan : List (Vec3 D)) (r c : ℕ) → r < p.num_ring
        → c < p.num_sector
        → All IsHeight (heights r c scan)
        → (v : D) × (cell r c (make_scan_context lib p scan).columns ≡ some v)
          × IsHighest (heights r c scan) v
    unfolding make_scan_context
    make_scan_context-IsHighest laws same scan r c hr hc a =
        let empty : cell r c (repeat p.num_sector (repeat p.num_ring (number 0)))
            ≡ some (number 0) =
          ap (in_column r) (get_elem?-repeat p.num_sector c (repeat p.num_ring (number 0)) hc)
          ∙ get_elem?-repeat p.num_ring r (number 0) hr in
        (
          tallest (heights r c scan) (number 0),
          cell-raise_cells r c scan _ ∙ ap (Option.map (tallest (heights r c scan))) empty,
          tallest-IsHighest laws (heights r c scan) same a,
        )
