-- ===== src/Scan/Shift.antt =====
-- `circshift` of scantext_module/ScanContext.cpp and its columns.
use native.Mathlib.Nat.{mod-eq_of_lt, mod-eq-sub-mod}
use adaptive_lio.Common.{
  ℕ, zero, suc, ◌+◌, ◌-◌, ◌%◌, ◌≤◌, ◌<◌, ◌≡◌, refl, ap, ◌∙◌, sym, arith, some, List, [], ◌∷◌, ◌++◌,
  ltb, ◌==◌, length, get_elem?, take, drop, take-drop, length-append, length-drop, if◌then◌else◌,
  inl, inr, Bool-cases,
}
use adaptive_lio.Common.Int.{ℤ, pos, negsuc}
use adaptive_lio.Scan.{Descriptor, cols, rotate, circshift}

mod_small : (i n : ℕ) → i < n → i % n ≡ i
mod_small i n h = mod-eq_of_lt h

mod_once : (i n : ℕ) → n ≤ i → i < n + n → i % n ≡ i - n
mod_once i n h b = mod-eq-sub-mod h ∙ mod_small (i - n) n (omega arith)

module _ {A : Type 0} where
  drop-append : (xs ys : List A) → drop (length xs) (xs ++ ys) ≡ ys
  drop-append [] ys = refl
  drop-append (x ∷ xs) ys = drop-append xs ys

  take-append : (xs ys : List A) → take (length xs) (xs ++ ys) ≡ xs
  take-append [] ys = refl
  take-append (x ∷ xs) ys = ap (λ r. x ∷ r) (take-append xs ys)

  -- A turn by `k`, and then by what is missing to a full turn.
  turn_back :
      (k n : ℕ) (xs : List A)
      → length (drop k xs) ≡ n
      → drop n (drop k xs ++ take k xs) ++ take n (drop k xs ++ take k xs) ≡ xs
  turn_back k n xs e = rw (← e) (
      rw (drop-append (drop k xs) (take k xs))
        (rw (take-append (drop k xs) (take k xs)) (take-drop k xs)))

  get_elem?-append_left :
      (xs ys : List A) (i : ℕ) → i < length xs → get_elem? (xs ++ ys) i ≡ get_elem? xs i
  get_elem?-append_left [] ys i h = absurd (omega arith)
  get_elem?-append_left (x ∷ xs) ys zero h = refl
  get_elem?-append_left (x ∷ xs) ys (suc i) h = get_elem?-append_left xs ys i (omega arith)

  get_elem?-append_right :
      (xs ys : List A) (i j : ℕ) → i ≡ length xs + j → get_elem? (xs ++ ys) i ≡ get_elem? ys j
  get_elem?-append_right [] ys i j h = let e : i ≡ j = omega arith in rw e refl
  get_elem?-append_right (x ∷ xs) ys zero j h = absurd (omega arith)
  get_elem?-append_right (x ∷ xs) ys (suc i) j h = get_elem?-append_right xs ys i j (omega arith)

  get_elem?-drop : (k i j : ℕ) (xs : List A) → j ≡ k + i → get_elem? (drop k xs) i ≡ get_elem? xs j
  get_elem?-drop zero i j xs h = let e : j ≡ i = omega arith in rw e refl
  get_elem?-drop (suc k) i j [] h = refl
  get_elem?-drop (suc k) i zero (x ∷ xs) h = absurd (omega arith)
  get_elem?-drop (suc k) i (suc j) (x ∷ xs) h = get_elem?-drop k i j xs (omega arith)

  get_elem?-take : (k i : ℕ) (xs : List A) → i < k → get_elem? (take k xs) i ≡ get_elem? xs i
  get_elem?-take zero i xs h = absurd (omega arith)
  get_elem?-take (suc k) i [] h = refl
  get_elem?-take (suc k) zero (x ∷ xs) h = refl
  get_elem?-take (suc k) (suc i) (x ∷ xs) h = get_elem?-take k i xs (omega arith)

  length-turn : (k : ℕ) (xs : List A) → length (drop k xs ++ take k xs) ≡ length xs
  length-turn k xs = omega (
    arith,
    length-append (drop k xs) (take k xs),
    length-append (take k xs) (drop k xs),
    ap (λ (r : List A). length r) (take-drop k xs),
  )

  -- Column `i` of the turned matrix is column `i + k`, counted around.
  get_elem?-turn :
      (k i : ℕ) (xs : List A)
      → k < length xs
      → i < length xs
      → get_elem? (drop k xs ++ take k xs) i ≡ get_elem? xs ((i + k) % length xs)
  get_elem?-turn k i xs hk hi = elim (Bool-cases (ltb (i + k) (length xs))) [
    | inl low ↦
        get_elem?-append_left (drop k xs) (take k xs) i (ground (arith, length-drop k xs))
        ∙ get_elem?-drop k i _ xs (mod_small (i + k) (length xs) (ground arith) ∙ omega arith)
    | inr high ↦
        get_elem?-append_right (drop k xs) (take k xs) i (i + k - length xs)
          (ground (arith, length-drop k xs))
        ∙ get_elem?-take k (i + k - length xs) xs (ground arith)
        ∙ ap (get_elem? xs) (sym (mod_once (i + k) (length xs) (ground arith) (omega arith)))
  ]

-- A negative number.
abbrev pub negate : ℕ → ℤ
negate zero = pos 0
negate (suc n) = negsuc n

module _ {D : Type 0} where
  circshift_pos :
      (sc : Descriptor D) (k : ℕ)
      → k < cols sc
      → circshift sc (pos k) ≡ (if k == 0 then some sc else some (rotate k sc))
  unfolding circshift
  circshift_pos sc k h = ground (arith, mod_small k (cols sc) h)

  circshift_neg :
      (sc : Descriptor D) (k : ℕ)
      → suc k < cols sc
      → circshift sc (negsuc k) ≡ some (rotate (cols sc - suc k) sc)
  unfolding circshift
  circshift_neg sc k h = ground (arith, mod_small (cols sc - suc k) (cols sc) (omega arith))

  -- What a shift by `k` columns gives, and that the shift back gives the matrix again.
  pub record IsTurned (sc : Descriptor D) (k : ℕ) (sc' : Descriptor D) : Type 0 where
    pub shifted : circshift sc (pos k) ≡ some sc'
    pub same_rows : sc'.rows ≡ sc.rows
    pub turned :
        (c : ℕ) → c < cols sc → get_elem? sc'.columns c ≡ get_elem? sc.columns ((c + k) % cols sc)
    pub back : circshift sc' (negate k) ≡ some sc

  -- A shift by fewer columns than there are moves column `c + k`, counted around, to column `c`, and
  -- the shift by as many columns to the other side gives the matrix again.
  pub circshift-IsTurned :
      (sc : Descriptor D) (k : ℕ) → k < cols sc → (sc' : Descriptor D) × IsTurned sc k sc'
  circshift-IsTurned sc zero h = (
    sc,
    record {
      shifted = circshift_pos sc 0 h;
      same_rows = refl;
      turned = λ c b.
          ap (get_elem? sc.columns) (sym (mod_small (c + 0) (cols sc) (omega arith) ∙ omega arith));
      back = circshift_pos sc 0 h;
    },
  )
  circshift-IsTurned sc (suc k) h = (
    rotate (suc k) sc,
    record {
      shifted = circshift_pos sc (suc k) h ∙ ground arith;
      same_rows = refl;
      turned = λ c b. get_elem?-turn (suc k) c sc.columns h b;
      back =
          circshift_neg (rotate (suc k) sc) k (omega (arith, length-turn (suc k) sc.columns))
          ∙ ap (λ (columns : List (List D)). some (record sc { columns = columns }))
              (turn_back (suc k) _ sc.columns
                (omega (arith, length-turn (suc k) sc.columns, length-drop (suc k) sc.columns)));
    },
  )
