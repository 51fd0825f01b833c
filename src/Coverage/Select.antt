-- ===== src/Coverage/Select.antt =====
-- The bins of `SelectGeometricCoverage` of algo/lidar_sampling.h, and the function as a whole.
use mathlib.Core.List.{Perm, perm_middle, append_assoc, append-nil}
use mathlib.Core.List.Perm
use adaptive_lio.Common.{
  ℕ, zero, suc, ◌+◌, ◌≤◌, ◌≡◌, refl, sym, subst, arith, List, [], ◌∷◌, ◌++◌, length, length-append,
  All, either, if◌then◌else◌,
}
use adaptive_lio.Common.Double.{Double}
use adaptive_lio.Common.Int.{ℤ}
use adaptive_lio.Convert.Slices.{Returns, Returns-map, Returns-weaken}
use adaptive_lio.Coverage.{
  LidarCorrespondence, SamplingCoverage, CoverageBin, Bins, lex_lt, push_bin, correspondence_bin,
  fill, index_lists, select_indices, coverage_of, select_geometric_coverage,
}
use adaptive_lio.Coverage.Turns.{IsSelected, left_of, take_turns-IsSelected}

-- The numbers from `i` on, `n` of them.
abbrev pub indices : ℕ → ℕ → List ℕ
indices i zero = []
indices i (suc n) = i ∷ indices (suc i) n

abbrev held : Bins → List ℕ
held bins = left_of 0 (index_lists bins)

push_bin-Perm : (k : CoverageBin) (i : ℕ) (bs : Bins) → Perm (held (push_bin k i bs)) (i ∷ held bs)
unfolding push_bin
push_bin-Perm k i [] = Perm.rfl
push_bin-Perm k i (b ∷ bs) =
    let rest = push_bin k i bs in
    either (λ v. Perm (held v) (i ∷ held (b ∷ bs))) (lex_lt k b.0) ((k, i ∷ []) ∷ b ∷ bs)
      (if lex_lt b.0 k then b ∷ rest else (b.0, b.1 ++ i ∷ []) ∷ bs) (λ e. Perm.rfl)
      (λ e.
        either (λ v. Perm (held v) (i ∷ held (b ∷ bs))) (lex_lt b.0 k) (b ∷ rest)
          ((b.0, b.1 ++ i ∷ []) ∷ bs)
          (λ e'.
            Perm.trans (Perm.append_left b.1 (push_bin-Perm k i bs)) (perm_middle b.1 (held bs)))
          (λ e'.
            subst (λ v. Perm v (i ∷ (b.1 ++ held bs))) (sym (append_assoc b.1 (i ∷ []) (held bs)))
              (perm_middle b.1 (held bs))))

-- No bin has more than `m` indices.
abbrev Short : ℕ → Bins → Type 0
Short m bins = All (λ e. length e ≤ m) (index_lists bins)

Short-suc : (m : ℕ) (bs : Bins) → Short m bs → Short (suc m) bs
Short-suc m [] h = tt
Short-suc m (b ∷ bs) (h, hs) = (omega arith, Short-suc m bs hs)

push_bin-Short :
    (k : CoverageBin) (i m : ℕ) (bs : Bins) → Short m bs → Short (suc m) (push_bin k i bs)
unfolding push_bin
push_bin-Short k i m [] h = (omega arith, tt)
push_bin-Short k i m (b ∷ bs) (h, hs) =
    let rest = push_bin k i bs in
    either (Short (suc m)) (lex_lt k b.0) ((k, i ∷ []) ∷ b ∷ bs)
      (if lex_lt b.0 k then b ∷ rest else (b.0, b.1 ++ i ∷ []) ∷ bs)
      (λ e. (omega arith, (omega arith, Short-suc m bs hs)))
      (λ e.
        either (Short (suc m)) (lex_lt b.0 k) (b ∷ rest) ((b.0, b.1 ++ i ∷ []) ∷ bs)
          (λ e'. (omega arith, push_bin-Short k i m bs hs))
          (λ e'. (omega (arith, length-append b.1 (i ∷ [])), Short-suc m bs hs)))

module _ {D : Type 0} ⦃d : Double D⦄ (round : D → D) (to_int : D → ℤ) where
  fill-Perm :
      (i : ℕ) (cs : List (LidarCorrespondence D)) (bins : Bins)
      → Perm (held (fill round to_int i cs bins)) (held bins ++ indices i (length cs))
  unfolding fill
  fill-Perm i [] bins = subst (Perm (held bins)) (sym (append-nil (held bins))) Perm.rfl
  fill-Perm i (c ∷ cs) bins =
      let k = correspondence_bin round to_int c in
      let later = indices (suc i) (length cs) in
      Perm.trans (fill-Perm (suc i) cs (push_bin k i bins)) (
        Perm.trans (Perm.append_right later (push_bin-Perm k i bins))
          (Perm.symm (perm_middle (held bins) later)))

  fill-Short :
      (i m : ℕ) (cs : List (LidarCorrespondence D)) (bins : Bins)
      → Short m bins
      → Short (m + length cs) (fill round to_int i cs bins)
  unfolding fill
  fill-Short i m [] bins h = let e : m ≡ m + 0 = omega arith in subst (λ v. Short v bins) e h
  fill-Short i m (c ∷ cs) bins h =
      let k = correspondence_bin round to_int c in
      let e : suc m + length cs ≡ m + suc (length cs) = omega arith in
      subst (λ v. Short v (fill round to_int (suc i) cs (push_bin k i bins))) e
        (fill-Short (suc i) (suc m) cs (push_bin k i bins) (push_bin-Short k i m bins h))

  pub select_indices-IsSelected :
      (cs : List (LidarCorrespondence D)) (budget : ℕ)
      → Returns (IsSelected budget (indices 0 (length cs))) (select_indices round to_int cs budget)
  unfolding select_indices
  select_indices-IsSelected cs budget =
      let bins = fill round to_int 0 cs [] in
      let e : 0 + length cs ≡ length cs = omega arith in
      take_turns-IsSelected (length cs) (suc (length cs)) 0 budget (indices 0 (length cs))
        (index_lists bins) [] (subst (λ v. Short v bins) e (fill-Short 0 0 cs [] tt)) (omega arith)
        (omega arith) (fill-Perm 0 cs []) (omega arith)

  -- What is selected of `cs`, and what the report says of it.
  pub IsCovered : List (LidarCorrespondence D) → ℕ → List ℕ × SamplingCoverage → Type 0
  IsCovered cs budget r =
      IsSelected budget (indices 0 (length cs)) r.0
      × (r.1.candidates ≡ length cs × r.1.retained ≡ length r.0)

  -- For any correspondences and budget the selection ends within one round more than there are
  -- correspondences. The selected indices and the others are together the index of every
  -- correspondence once; as many are selected as the budget, or all, and never more; and the
  -- report has the numbers of both.
  pub select-IsCovered :
      (cs : List (LidarCorrespondence D)) (budget : ℕ)
      → Returns (IsCovered cs budget) (select_geometric_coverage round to_int cs budget)
  unfolding select_geometric_coverage coverage_of IsCovered
  select-IsCovered cs budget =
      Returns-map (IsCovered cs budget) (λ s. (s, coverage_of round to_int cs s))
        (select_indices round to_int cs budget)
        (Returns-weaken (IsSelected budget (indices 0 (length cs)))
          (λ s. IsCovered cs budget (s, coverage_of round to_int cs s))
          (select_indices round to_int cs budget) (λ s h. (h, (refl, refl)))
          (select_indices-IsSelected cs budget))
