-- ===== src/Coverage/Alike.antt =====
-- What `SelectGeometricCoverage` of algo/lidar_sampling.h leaves out, when the budget has room for a
-- correspondence of each bin.
use mathlib.Core.List.{append_assoc}
use adaptive_lio.Common.{
  ℕ, ◌≤◌, ◌≡◌, refl, ap, ◌∙◌, sym, arith, some, List, [], ◌++◌, ◌∷◌, length, get_elem?,
}
use adaptive_lio.Common.Double.{Double}
use adaptive_lio.Common.Int.{ℤ}
use adaptive_lio.Convert.Slices.{Returns, Returns-weaken}
use adaptive_lio.Coverage.{
  LidarCorrespondence, CoverageBin, correspondence_bin, fill, select_indices,
}
use adaptive_lio.Coverage.Turns.{IsSelected}
use adaptive_lio.Coverage.Select.{indices}
use adaptive_lio.Coverage.First.{Begins, firsts, bins_of, select_indices-Begins}
use adaptive_lio.Coverage.Keys.{HasKeys, length-bins}
use adaptive_lio.Coverage.Bins.{
  Among, IsAlike, correspondence_bin-IsAlike, HasKey, fill-here, fill-Keyed, HasBin-first,
}

module _ {D : Type 0} ⦃d : Double D⦄ (round : D → D) (to_int : D → ℤ) where
  -- One of the selected indices has a correspondence that is like `c`.
  pub record IsRepresented (cs : List (LidarCorrespondence D)) (c : LidarCorrespondence D)
      (sel : List ℕ) : Type 0 where
    pub index : ℕ
    pub selected : Among index sel
    pub chosen : LidarCorrespondence D
    pub found : get_elem? cs index ≡ some chosen
    pub alike : IsAlike round to_int c chosen

  Among-Begins : (j : ℕ) (start sel : List ℕ) → Among j start → Begins start sel → Among j sel
  Among-Begins j start sel (before, after, e) b = (
    before,
    after ++ b.more,
    b.whole ∙ ap (λ v. v ++ b.more) e ∙ append_assoc before (j ∷ after) b.more,
  )

  first-IsRepresented :
      (cs : List (LidarCorrespondence D)) (i : ℕ) (c : LidarCorrespondence D) (sel : List ℕ)
      → get_elem? cs i ≡ some c
      → Begins (firsts (bins_of round to_int cs)) sel
      → IsRepresented cs c sel
  first-IsRepresented cs i c sel e b =
      let (j, (chosen, found, key), among) =
        HasBin-first (HasKey round to_int cs) (correspondence_bin round to_int c)
          (fill round to_int 0 cs []) (fill-here round to_int 0 i cs [] c e)
          (fill-Keyed round to_int cs [] cs [] refl tt) in
      record {
        index = j;
        selected = Among-Begins j (firsts (bins_of round to_int cs)) sel among b;
        chosen = chosen;
        found = found;
        alike = correspondence_bin-IsAlike round to_int c chosen (sym key);
      }

  -- If the budget is at least the number of keys of the correspondences, then for every correspondence
  -- one is selected whose end lies in the same octant and whose normal is the same, up to its sign and
  -- after doubling and rounding: no direction or place with a correspondence is left out.
  pub select_indices-IsRepresented :
      (cs : List (LidarCorrespondence D)) (keys : List CoverageBin) (budget i : ℕ)
      (c : LidarCorrespondence D)
      → HasKeys round to_int keys cs
      → length keys ≤ budget
      → get_elem? cs i ≡ some c
      → Returns (IsRepresented cs c) (select_indices round to_int cs budget)
  select_indices-IsRepresented cs keys budget i c h room e =
      let bins = length-bins round to_int keys cs h in
      Returns-weaken
        (λ sel.
          IsSelected budget (indices 0 (length cs)) sel
          × Begins (firsts (bins_of round to_int cs)) sel)
        (IsRepresented cs c) (select_indices round to_int cs budget)
        (λ sel h'. first-IsRepresented cs i c sel e h'.1)
        (select_indices-Begins round to_int cs budget (omega (arith, bins, room)))
