-- ===== src/Coverage.antt =====
-- algo/lidar_sampling.h and the options of algo/lidar_geometry_quality.h: which correspondences of a
-- frame are kept, in turns over bins of their normals and places. An array of integers is a list,
-- and the ordered map of the bins a list in the order of its keys.
pub mod Turns
pub mod Select
pub mod First
pub mod Bins
pub mod Keys
pub mod Alike
pub mod Tests
use mathlib.Core.Option
use adaptive_lio.Common.{
  ℕ, zero, suc, ◌+◌, Bool, true, false, not, ◌&&◌, ◌||◌, Option, none, some, List, [], ◌∷◌, ◌++◌,
  map, ltb, ◌==◌, length, get_elem?, take, drop, if◌then◌else◌,
}
use adaptive_lio.Common.Double.{Double}
use adaptive_lio.Common.Int.{ℤ, pos, negsuc, ltb_ℤ, eqb_ℤ}
use adaptive_lio.Imu.Axes.{Vec3}

pub record LidarCorrespondence (D : Type 0) : Type 0 where
  pub end_imu : Vec3 D
  pub anchor_world : Vec3 D
  pub normal_world : Vec3 D
  pub weight : D

-- `std::array<int, 6>`, with its order.
abbrev pub CoverageBin : Type 0
CoverageBin = List ℤ

abbrev pub lex_lt : CoverageBin → CoverageBin → Bool
lex_lt xs [] = false
lex_lt [] (y ∷ ys) = true
lex_lt (x ∷ xs) (y ∷ ys) = ltb_ℤ x y || (eqb_ℤ x y && lex_lt xs ys)

abbrev pub Bins : Type 0
Bins = List (CoverageBin × List ℕ)

abbrev pub index_lists : Bins → List (List ℕ)
index_lists bins = map (λ b. b.1) bins

-- `bins[k].push_back(i)`.
unfoldable pub push_bin : CoverageBin → ℕ → Bins → Bins
push_bin k i [] = (k, i ∷ []) ∷ []
push_bin k i (b ∷ bs) =
    let rest = push_bin k i bs in
    if lex_lt k b.0
    then (k, i ∷ []) ∷ b ∷ bs
    else (if lex_lt b.0 k then b ∷ rest else (b.0, b.1 ++ i ∷ []) ∷ bs)

-- One round over the bins: `added` and the indices so far. It ends early when the budget is reached.
unfoldable pub turn_over : ℕ → ℕ → Bool → List (List ℕ) → List ℕ → List ℕ × Bool
turn_over round budget added [] selected = (selected, added)
turn_over round budget added (e ∷ es) selected = elim (get_elem? e round) [
  | none ↦ turn_over round budget added es selected
  | some i ↦
      if length (selected ++ i ∷ []) == budget
      then (selected ++ i ∷ [], true)
      else turn_over round budget true es (selected ++ i ∷ [])
]

-- The loop over the rounds; `none` where the fuel ends.
unfoldable pub take_turns : ℕ → ℕ → ℕ → List (List ℕ) → List ℕ → Option (List ℕ)
unfolding turn_over
take_turns zero round budget bins selected = none
take_turns (suc fuel) round budget bins selected =
    let r = turn_over round budget false bins selected in
    let rest = take_turns fuel (suc round) budget bins r.0 in
    if ltb (length selected) budget then (if r.1 then rest else some r.0) else some selected

pub record SamplingCoverage : Type 0 where
  pub candidates : ℕ
  pub retained : ℕ
  pub normal_bins : ℕ
  pub spatial_bins : ℕ
  pub dominant_normal_counts : Vec3 ℕ

-- A `std::set` of arrays, in its order.
abbrev pub insert_array : List ℤ → List (List ℤ) → List (List ℤ)
insert_array x [] = x ∷ []
insert_array x (y ∷ ys) =
    let rest = insert_array x ys in
    if lex_lt x y then x ∷ y ∷ ys else (if lex_lt y x then y ∷ rest else y ∷ ys)

abbrev pub count_axis : ℕ → Vec3 ℕ → Vec3 ℕ
count_axis zero v = record v { x = suc v.x }
count_axis (suc zero) v = record v { y = suc v.y }
count_axis (suc (suc n)) v = record v { z = suc v.z }

module _ {D : Type 0} ⦃d : Double D⦄ where
  -- `maxCoeff(&dominant)` of the absolute values: the first of the greatest.
  abbrev pub dominant : Vec3 D → ℕ
  dominant n =
      let x_or_y : ℕ × D =
        (if d.lt (d.abs n.x) (d.abs n.y) then (1, d.abs n.y) else (0, d.abs n.x)) in
      if d.lt x_or_y.1 (d.abs n.z) then 2 else x_or_y.0

  abbrev pub component : ℕ → Vec3 D → D
  component zero v = v.x
  component (suc zero) v = v.y
  component (suc (suc n)) v = v.z

  abbrev pub oriented : Vec3 D → Vec3 D
  oriented n =
      if d.lt (component (dominant n) n) (d.decimal 0 0)
      then record { x = d.neg n.x; y = d.neg n.y; z = d.neg n.z }
      else n

  abbrev pub side : D → ℤ
  side v = if d.lt v (d.decimal 0 0) then negsuc 0 else pos 1

module _ {D : Type 0} ⦃d : Double D⦄ (round : D → D) (to_int : D → ℤ) where
  abbrev pub doubled : D → ℤ
  doubled v = to_int (round (d.mul (d.decimal 2 0) v))

  unfoldable pub correspondence_bin : LidarCorrespondence D → CoverageBin
  correspondence_bin c =
      let n = oriented c.normal_world in
      doubled n.x
      ∷ doubled n.y
      ∷ doubled n.z
      ∷ side c.end_imu.x
      ∷ side c.end_imu.y
      ∷ side c.end_imu.z
      ∷ []

  -- The loop that fills the bins, from index `i` on.
  unfoldable pub fill : ℕ → List (LidarCorrespondence D) → Bins → Bins
  unfolding push_bin correspondence_bin
  fill i [] bins = bins
  fill i (c ∷ cs) bins = fill (suc i) cs (push_bin (correspondence_bin c) i bins)

  -- The fuel is one round more than there are candidates.
  unfoldable pub select_indices : List (LidarCorrespondence D) → ℕ → Option (List ℕ)
  unfolding take_turns fill
  select_indices cs budget = take_turns (suc (length cs)) 0 budget (index_lists (fill 0 cs [])) []

  -- The body of the loop over the selected ones that counts bins and axes.
  abbrev pub counted :
      LidarCorrespondence D
      → List (List ℤ) × (List (List ℤ) × Vec3 ℕ)
      → List (List ℤ) × (List (List ℤ) × Vec3 ℕ)
  counted c (normals, (spatial, axes)) =
      let b = correspondence_bin c in
      (
        insert_array (take 3 b) normals,
        (insert_array (drop 3 b) spatial, count_axis (dominant c.normal_world) axes),
      )

  -- `candidates[i]` is there for every selected index.
  abbrev pub count_selected :
      List (LidarCorrespondence D)
      → List ℕ
      → List (List ℤ) × (List (List ℤ) × Vec3 ℕ)
      → List (List ℤ) × (List (List ℤ) × Vec3 ℕ)
  count_selected cs [] counts = counts
  count_selected cs (i ∷ is) counts = elim (get_elem? cs i) [
    | none ↦ count_selected cs is counts
    | some c ↦ count_selected cs is (counted c counts)
  ]

  unfoldable pub coverage_of : List (LidarCorrespondence D) → List ℕ → SamplingCoverage
  coverage_of cs selected =
      let counts = count_selected cs selected ([], ([], record { x = 0; y = 0; z = 0 })) in
      record {
        candidates = length cs;
        retained = length selected;
        normal_bins = length counts.0;
        spatial_bins = length counts.1.0;
        dominant_normal_counts = counts.1.1;
      }

  unfoldable pub select_geometric_coverage :
      List (LidarCorrespondence D) → ℕ → Option (List ℕ × SamplingCoverage)
  unfolding select_indices coverage_of
  select_geometric_coverage cs budget =
      Option.map (λ selected. (selected, coverage_of cs selected)) (select_indices cs budget)
