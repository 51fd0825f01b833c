-- ===== src/Coverage/First.antt =====
-- The order in which `SelectGeometricCoverage` of algo/lidar_sampling.h takes indices from the bins.
use mathlib.Core.List.{append_assoc, append-nil}
use adaptive_lio.Common.{
  ℕ, zero, suc, ◌+◌, ◌≤◌, ◌≡◌, refl, ap, ◌∙◌, sym, subst, arith, Bool, true, false, Option, none,
  some, List, [], ◌∷◌, ◌++◌, ltb, ◌==◌, length, length-append, get_elem?, either, if◌then◌else◌,
}
use adaptive_lio.Common.Double.{Double}
use adaptive_lio.Common.Int.{ℤ}
use adaptive_lio.Convert.Slices.{Returns}
use adaptive_lio.Coverage.{
  LidarCorrespondence, turn_over, take_turns, fill, index_lists, select_indices,
}
use adaptive_lio.Coverage.Turns.{IsSelected, on_option}
use adaptive_lio.Coverage.Select.{indices, select_indices-IsSelected}

-- The first index of every bin, in the order of the bins.
abbrev pub firsts : List (List ℕ) → List ℕ
firsts [] = []
firsts ([] ∷ es) = firsts es
firsts ((x ∷ e) ∷ es) = x ∷ firsts es

-- The list begins with `start`.
pub record Begins (start : List ℕ) (xs : List ℕ) : Type 0 where
  pub more : List ℕ
  pub whole : xs ≡ start ++ more

Begins-here : (xs : List ℕ) → Begins xs xs
Begins-here xs = record { more = []; whole = sym (append-nil xs) }

Begins-shorter : (xs ys zs : List ℕ) → Begins (xs ++ ys) zs → Begins xs zs
Begins-shorter xs ys zs b = record {
  more = ys ++ b.more;
  whole = b.whole ∙ append_assoc xs ys b.more;
}

turn_over-Begins :
    (r b : ℕ) (added : Bool) (es : List (List ℕ)) (sel : List ℕ)
    → Begins sel (turn_over r b added es sel).0
unfolding turn_over
turn_over-Begins r b added [] sel = Begins-here sel
turn_over-Begins r b added (e ∷ es) sel =
    on_option (λ v. Begins sel v.0) (get_elem? e r) (turn_over r b added es sel)
      (λ i.
        if length (sel ++ i ∷ []) == b
        then (sel ++ i ∷ [], true)
        else turn_over r b true es (sel ++ i ∷ []))
      (λ n. turn_over-Begins r b added es sel)
      (λ i s.
        either (λ v. Begins sel v.0) (length (sel ++ i ∷ []) == b) (sel ++ i ∷ [], true)
          (turn_over r b true es (sel ++ i ∷ [])) (λ e. record { more = i ∷ []; whole = refl })
          (λ e.
            Begins-shorter sel (i ∷ []) (turn_over r b true es (sel ++ i ∷ [])).0
              (turn_over-Begins r b true es (sel ++ i ∷ []))))

firsts-nil : (es : List (List ℕ)) → length es ≡ 0 → firsts es ≡ []
firsts-nil [] h = refl
firsts-nil (e ∷ es) h = absurd (omega arith)

-- The first round, when the budget has room for all bins.
turn_over-firsts :
    (b : ℕ) (added : Bool) (es : List (List ℕ)) (sel : List ℕ)
    → length sel + length es ≤ b
    → (turn_over 0 b added es sel).0 ≡ sel ++ firsts es
unfolding turn_over
turn_over-firsts b added [] sel h = sym (append-nil sel)
turn_over-firsts b added ([] ∷ es) sel h = turn_over-firsts b added es sel (omega arith)
turn_over-firsts b added ((x ∷ e) ∷ es) sel h =
    let longer = length-append sel (x ∷ []) in
    either (λ v. v.0 ≡ sel ++ (x ∷ firsts es)) (length (sel ++ x ∷ []) == b) (sel ++ x ∷ [], true)
      (turn_over 0 b true es (sel ++ x ∷ []))
      (λ full. ap (λ v. sel ++ (x ∷ v)) (sym (firsts-nil es (ground (arith, longer)))))
      (λ n.
        turn_over-firsts b true es (sel ++ x ∷ []) (omega (arith, longer))
        ∙ append_assoc sel (x ∷ []) (firsts es))

-- Of a result that is there.
abbrev Whenever : (List ℕ → Type 0) → Option (List ℕ) → Type 0
Whenever P none = Unit
Whenever P (some xs) = P xs

Whenever-weaken :
    (P Q : List ℕ → Type 0) (o : Option (List ℕ))
    → ((xs : List ℕ) → P xs → Q xs)
    → Whenever P o
    → Whenever Q o
Whenever-weaken P Q none f h = tt
Whenever-weaken P Q (some xs) f h = f xs h

take_turns-Begins :
    (fuel r b : ℕ) (bins : List (List ℕ)) (sel : List ℕ)
    → Whenever (Begins sel) (take_turns fuel r b bins sel)
unfolding take_turns
take_turns-Begins zero r b bins sel = tt
take_turns-Begins (suc fuel) r b bins sel =
    let q = turn_over r b false bins sel in
    let rest = take_turns fuel (suc r) b bins q.0 in
    let now = turn_over-Begins r b false bins sel in
    either (Whenever (Begins sel)) (ltb (length sel) b) (if q.1 then rest else some q.0) (some sel)
      (λ l.
        either (Whenever (Begins sel)) q.1 rest (some q.0)
          (λ a.
            Whenever-weaken (Begins q.0) (Begins sel) rest
              (λ xs h. Begins-shorter sel now.more xs (subst (λ v. Begins v xs) now.whole h))
              (take_turns-Begins fuel (suc r) b bins q.0))
          (λ a. now))
      (λ l. Begins-here sel)

first_round-Begins :
    (fuel b : ℕ) (bins : List (List ℕ))
    → length bins ≤ b
    → Whenever (Begins (firsts bins)) (take_turns fuel 0 b bins [])
unfolding take_turns
first_round-Begins zero b bins h = tt
first_round-Begins (suc fuel) b bins h =
    let q = turn_over 0 b false bins [] in
    let rest = take_turns fuel 1 b bins q.0 in
    let now : q.0 ≡ firsts bins = turn_over-firsts b false bins [] (omega arith) in
    either (Whenever (Begins (firsts bins))) (ltb 0 b) (if q.1 then rest else some q.0) (some [])
      (λ l.
        either (Whenever (Begins (firsts bins))) q.1 rest (some q.0)
          (λ a. subst (λ v. Whenever (Begins v) rest) now (take_turns-Begins fuel 1 b bins q.0))
          (λ a. subst (λ v. Begins v q.0) now (Begins-here q.0)))
      (λ l. subst (λ v. Begins v []) (sym (firsts-nil bins (ground arith))) (Begins-here []))

both :
    (P Q : List ℕ → Type 0) (o : Option (List ℕ))
    → Returns P o
    → Whenever Q o
    → Returns (λ xs. P xs × Q xs) o
both P Q none h g = h
both P Q (some xs) h g = (h, g)

module _ {D : Type 0} ⦃d : Double D⦄ (round : D → D) (to_int : D → ℤ) where
  -- The bins of `cs`.
  abbrev pub bins_of : List (LidarCorrespondence D) → List (List ℕ)
  bins_of cs = index_lists (fill round to_int 0 cs [])

  -- If the budget is at least the number of bins, the selection begins with the first index of
  -- every bin, in the order of the bins: no direction or place with a correspondence is left
  -- out.
  pub select_indices-Begins :
      (cs : List (LidarCorrespondence D)) (budget : ℕ)
      → length (bins_of cs) ≤ budget
      → Returns
          (λ sel. IsSelected budget (indices 0 (length cs)) sel × Begins (firsts (bins_of cs)) sel)
          (select_indices round to_int cs budget)
  unfolding select_indices
  select_indices-Begins cs budget h =
      both (IsSelected budget (indices 0 (length cs))) (Begins (firsts (bins_of cs)))
        (select_indices round to_int cs budget) (select_indices-IsSelected round to_int cs budget)
        (first_round-Begins (suc (length cs)) budget (bins_of cs) h)
