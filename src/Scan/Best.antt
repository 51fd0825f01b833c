-- ===== src/Scan/Best.antt =====
-- The shifts that `distanceBtnScanContext` of scantext_module/ScanContext.cpp tries.
use adaptive_lio.Common.{
  ℕ, zero, suc, ◌+◌, ◌-◌, ◌%◌, ◌≤◌, ◌<◌, ◌≡◌, refl, ap, ◌∙◌, arith, true, false, not, ◌||◌, Option,
  none, some, List, [], ◌∷◌, map, ltb, ◌==◌, All, length, ◌⊎◌, inl, inr, either, Bool-cases,
  if◌then◌else◌,
}
use adaptive_lio.Common.Double.{Double, IsOrdered}
use adaptive_lio.Common.Int.{pos}
use adaptive_lio.Scan.{
  Numeric, ScParams, Descriptor, cols, circshift, insert_set, tabulate, around, number, mean_of,
  smallest, search_half, make_sector_key, fast_align_using_sector_key, key_distance, shifts_of,
  shift_distance, dist_direct_sc, distance_btn_scan_context,
}
use adaptive_lio.Scan.Shift.{circshift-IsTurned}

-- A number of the list.
abbrev pub Among : ℕ → List ℕ → Type 0
Among x [] = ⊥
Among x (y ∷ ys) = (x ≡ y) ⊎ Among x ys

not_lt : {D : Type 0} ⦃d : Double D⦄ → IsOrdered D → (x y : D) → d.lt y x ≡ true → d.lt x y ≡ false
not_lt ⦃d⦄ laws x y h = ground (arith, laws.lt_trans x y x, laws.lt_irrefl x)

module _ {D : Type 0} ⦃d : Double D⦄ (f : ℕ → D) where
  -- Where the loop found its result: nothing was below what it began with, or at a smaller value.
  abbrev pub Found : List ℕ → D → ℕ → D → ℕ → Type 0
  Found shifts low best low' best' =
      ((low' ≡ low) × (best' ≡ best))
      ⊎ (Among best' shifts × (low' ≡ f best') × (d.lt low' low ≡ true))

  -- What the loop leaves, from the value `low` at `best` on: no number of the list has a value below
  -- the result, which is the value of one of them or the one it began with.
  pub record IsSmallest (shifts : List ℕ) (low : D) (best : ℕ) (low' : D) (best' : ℕ) : Type 0 where
    pub least : All (λ s. d.lt (f s) low' ≡ false) shifts
    pub found : Found shifts low best low' best'

  module _ (laws : IsOrdered D) where
    -- One more number in front, whose value is smaller.
    smaller :
        (s : ℕ) (ss : List ℕ) (low : D) (best : ℕ) (low' : D) (best' : ℕ)
        → d.lt (f s) low ≡ true
        → Found ss (f s) s low' best'
        → (d.lt (f s) low' ≡ false) × Found (s ∷ ss) low best low' best'
    smaller s ss low best low' best' e (inl (p, q)) =
        (rw p (laws.lt_irrefl (f s)), inr (inl q, rw q p, rw p e))
    smaller s ss low best low' best' e (inr (a, p, h)) =
        (not_lt laws (f s) low' h, inr (inr a, p, laws.lt_trans low' (f s) low h e))

    not_smaller :
        (s : ℕ) (ss : List ℕ) (low : D) (best : ℕ) (low' : D) (best' : ℕ)
        → d.lt (f s) low ≡ false
        → Found ss low best low' best'
        → (d.lt (f s) low' ≡ false) × Found (s ∷ ss) low best low' best'
    not_smaller s ss low best low' best' e (inl (p, q)) = (rw p e, inl (p, q))
    not_smaller s ss low best low' best' e (inr (a, p, h)) =
        (ground (arith, laws.lt_trans (f s) low' low), inr (inr a, p, h))

    pub smallest-IsSmallest :
        (shifts : List ℕ) (low : D) (best : ℕ)
        → (low' : D) × (best' : ℕ) × (smallest (λ s. some (f s)) shifts low best
            ≡ some (low', best'))
          × IsSmallest shifts low best low' best'
    unfolding smallest
    smallest-IsSmallest [] low best =
        (low, best, refl, record { least = tt; found = inl (refl, refl) })
    smallest-IsSmallest (s ∷ ss) low best = elim (Bool-cases (d.lt (f s) low)) [
      | inl e ↦
          let (low', best', run, h) = smallest-IsSmallest ss (f s) s in
          let (a, b) = smaller s ss low best low' best' e h.found in
          (low', best', rw e run, record { least = (a, h.least); found = b })
      | inr e ↦
          let (low', best', run, h) = smallest-IsSmallest ss low best in
          let (a, b) = not_smaller s ss low best low' best' e h.found in
          (low', best', rw e run, record { least = (a, h.least); found = b })
    ]

Among-All {ℓ} : (P : ℕ → Type ℓ) (x : ℕ) (xs : List ℕ) → Among x xs → All P xs → P x
Among-All P x [] h a = absurd h
Among-All P x (y ∷ ys) (inl e) a = rw e a.0
Among-All P x (y ∷ ys) (inr h) a = Among-All P x ys h a.1

tabulate-All {ℓ} :
    (P : ℕ → Type ℓ) (n i k : ℕ)
    → i + n ≤ k
    → ((j : ℕ) → j < k → P j)
    → All P (tabulate n i (λ j. j))
unfolding tabulate
tabulate-All P zero i k b h = tt
tabulate-All P (suc n) i k b h = (h i (omega arith), tabulate-All P n (suc i) k (omega arith) h)

insert_set-All {ℓ} :
    (P : ℕ → Type ℓ) (x : ℕ) (xs : List ℕ) → P x → All P xs → All P (insert_set x xs)
unfolding insert_set
insert_set-All P x [] h a = (h, tt)
insert_set-All P x (y ∷ ys) h a =
    either (All P) (ltb x y) _ _ (λ e. (h, a))
      (λ e. either (All P) (x == y) _ _ (λ e. a) (λ e. (a.0, insert_set-All P x ys h a.1)))

All-weaken {ℓ κ} :
    {P : ℕ → Type ℓ} {Q : ℕ → Type κ} (xs : List ℕ) → ((x : ℕ) → P x → Q x) → All P xs → All Q xs
All-weaken [] f a = tt
All-weaken (x ∷ xs) f a = (f x a.0, All-weaken xs f a.1)

-- The shifts on both sides are numbers of columns.
around-All :
    (n center left i : ℕ) (shifts : List ℕ)
    → 0 < n
    → All (λ s. s < n) shifts
    → All (λ s. s < n) (around n center left i shifts)
unfolding around
around-All n center zero i shifts h a = a
around-All n center (suc left) i shifts h a = around-All n center left (suc i) _ h (
    insert_set-All (λ s. s < n) ((center + i) % n) _ (omega arith)
      (insert_set-All (λ s. s < n) ((center + n - i) % n) shifts (omega arith) a))

at_some :
    {A B : Type 0} (o : Option A) (a : A) (k : A → Option B)
    → o ≡ some a
    → elim o [ none ↦ none | some x ↦ k x ] ≡ k a
at_some none a k h = cc
at_some (some x) a k h = cc

-- The place where the loop stops is one of the numbers.
Found-lt :
    {D : Type 0} ⦃d : Double D⦄ (f : ℕ → D) (n : ℕ) (shifts : List ℕ) (low low' : D) (best : ℕ)
    → Found f shifts low 0 low' best
    → All (λ s. s < n) shifts
    → 0 < n
    → best < n
Found-lt f n shifts low low' best (inl (p, q)) a h = rw q h
Found-lt f n shifts low low' best (inr (m, p, q)) a h = Among-All (λ s. s < n) best shifts m a

smallest-eq :
    {D : Type 0} ⦃d : Double D⦄ (f : ℕ → Option D) (g : ℕ → D) (ss : List ℕ) (low : D) (best : ℕ)
    → All (λ s. f s ≡ some (g s)) ss
    → smallest f ss low best ≡ smallest (λ s. some (g s)) ss low best
unfolding smallest
smallest-eq f g [] low best a = refl
smallest-eq ⦃d⦄ f g (s ∷ ss) low best a =
    at_some (f s) (g s)
      (λ v. smallest f ss (if d.lt v low then v else low) (if d.lt v low then s else best)) a.0
    ∙ smallest-eq f g ss _ _ a.1

module _ {D : Type 0} ⦃d : Double D⦄ where
  -- The distance where the first scan is turned.
  abbrev pub turned_distance : Descriptor D → Descriptor D → ℕ → D
  turned_distance sc1 sc2 shift = elim (circshift sc1 (pos shift)) [
    | none ↦ number 1
    | some shifted ↦ dist_direct_sc shifted sc2
  ]

  shift_distance_lem :
      (sc1 sc2 : Descriptor D) (s : ℕ)
      → s < cols sc1
      → shift_distance sc1 sc2 s ≡ some (turned_distance sc1 sc2 s)
  shift_distance_lem sc1 sc2 s h =
      let (sc', t) = circshift-IsTurned sc1 s h in at_turned (circshift sc1 (pos s)) sc' t.shifted
    where
      at_turned :
          (o : Option (Descriptor D)) (sc' : Descriptor D)
          → o ≡ some sc'
          → ◌≡◌ {A = Option D}
              (elim o [ none ↦ none | some shifted ↦ some (dist_direct_sc shifted sc2) ])
              (some (elim o [ none ↦ number 1 | some shifted ↦ dist_direct_sc shifted sc2 ]))
      at_turned none sc' e = cc
      at_turned (some x) sc' e = refl

  length-make_sector_key : (sc : Descriptor D) → length (make_sector_key sc) ≡ cols sc
  unfolding make_sector_key
  length-make_sector_key sc = go sc.columns
    where
      go : (cs : List (List D)) → length (map mean_of cs) ≡ length cs
      go [] = refl
      go (c ∷ cs) = ap suc (go cs)

  module _ (laws : IsOrdered D) (lib : Numeric D) where
    best-lt :
        (n : ℕ) (o : Option (D × ℕ)) (low : D) (best : ℕ)
        → o ≡ some (low, best)
        → best < n
        → elim o [ none ↦ 0 | some (l, b) ↦ b ] < n
    best-lt n none low best e h = absurd (cc)
    best-lt n (some (l, b)) low best e h = ground arith

    fast_align-lt :
        (ref query : List D)
        → 0 < length ref
        → fast_align_using_sector_key lib ref query < length ref
    unfolding fast_align_using_sector_key
    fast_align-lt ref query h =
        let n = length ref in
        let shifts = tabulate n 0 (λ s. s) in
        let (low, best, run, found) =
          smallest-IsSmallest (key_distance lib ref query) laws shifts lib.largest 0 in
        either (λ (r : ℕ). r < n) (n == 0 || not (length query == n)) _ _ (λ e. h)
          (λ e. best-lt n _ low best run (
            Found-lt (key_distance lib ref query) n shifts lib.largest low best found.found
              (tabulate-All _ n 0 n (omega arith) (λ j b. b)) h))

    shifts_of-All :
        (p : ScParams D) (sc1 sc2 : Descriptor D)
        → 0 < p.num_sector
        → cols sc1 ≡ p.num_sector
        → All (λ s. s < p.num_sector) (shifts_of lib p sc1 sc2)
    unfolding shifts_of
    shifts_of-All p sc1 sc2 h e =
        let n = p.num_sector in
        let keys = length-make_sector_key sc1 ∙ e in
        let center =
          fast_align-lt (make_sector_key sc1) (make_sector_key sc2) (omega (arith, keys)) in
        either (All (λ s. s < n)) p.use_scpp _ _
          (λ _. around-All n _ (search_half lib p) 1 _ h (omega (arith, keys, center), tt))
          (λ _. tabulate-All (λ s. s < n) n 0 n (omega arith) (λ j b. b))

    -- With a positive number of sectors that is the number of columns of the first scan, the distance
    -- is found in bounds: every shift that is tried and the one that is answered are numbers of
    -- columns, and no shift that is tried has a smaller distance than the one found. The answer is
    -- found there, unless no distance is below the largest number.
    pub distance_btn-IsSmallest :
        (p : ScParams D) (sc1 sc2 : Descriptor D)
        → 0 < p.num_sector
        → cols sc1 ≡ p.num_sector
        → (low : D) × (best : ℕ) × (distance_btn_scan_context lib p sc1 sc2
            ≡ some (if not (d.is_finite low) then number 1 else low, best))
          × (best < p.num_sector)
          × All (λ s. s < p.num_sector) (shifts_of lib p sc1 sc2)
          × IsSmallest (turned_distance sc1 sc2) (shifts_of lib p sc1 sc2) lib.largest 0 low best
    unfolding distance_btn_scan_context
    distance_btn-IsSmallest p sc1 sc2 h e =
        let shifts = shifts_of lib p sc1 sc2 in
        let inside = shifts_of-All p sc1 sc2 h e in
        let (low, best, run, found) =
          smallest-IsSmallest (turned_distance sc1 sc2) laws shifts lib.largest 0 in
        let same =
          smallest-eq (shift_distance sc1 sc2) (turned_distance sc1 sc2) shifts lib.largest 0 (
            All-weaken shifts (λ s b. shift_distance_lem sc1 sc2 s (omega (arith, e, b))) inside) in
        (
          low,
          best,
          at_some (smallest (shift_distance sc1 sc2) shifts lib.largest 0) (low, best)
              (λ r. some (if not (d.is_finite r.0) then number 1 else r.0, r.1)) (same ∙ run),
          Found-lt (turned_distance sc1 sc2) p.num_sector shifts lib.largest low best found.found
              inside h,
          inside,
          found,
        )
