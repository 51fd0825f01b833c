-- ===== src/Scan.antt =====
-- `ScanContext` of scantext_module/ScanContext.hpp and ScanContext.cpp: descriptors of a scan, their
-- keys, and the distance of two scans over the shifts of one. A matrix is the list of its columns.
-- The functions of the C++ library on a `double` are the argument `Numeric`; `float` and `double`
-- are one type. `num_ring` and `num_sector` are `int`s that are positive.
pub mod Cart
pub mod Shift
pub mod Best
pub mod Cells
pub mod Tests
use adaptive_lio.Common.{
  ℕ, zero, suc, ◌+◌, ◌-◌, ◌*◌, ◌/◌, ◌%◌, Bool, true, false, not, ◌&&◌, ◌||◌, Option, none, some,
  List, [], ◌∷◌, ◌++◌, map, ltb, leb, ◌==◌, length, take, drop, if◌then◌else◌,
}
use adaptive_lio.Common.Double.{Double}
use adaptive_lio.Common.Int.{ℤ, pos, negsuc, pos_part, ◌+ℤ◌, ltb_ℤ, leb_ℤ}
use adaptive_lio.Imu.Axes.{Vec3}
use adaptive_lio.Imu.{all_finite, max}

-- What is used of <cmath> and <limits>, and the conversion of a `double` to `int`.
pub record Numeric (D : Type 0) : Type 0 where
  pub to_int : D → ℤ
  pub round : D → D
  pub floor : D → D
  pub atan2 : D → D → D
  pub cos : D → D
  pub sin : D → D
  pub two_pi : D
  -- `std::numeric_limits<double>::max()`.
  pub largest : D

pub record ScParams (D : Type 0) : Type 0 where
  pub num_ring : ℕ
  pub num_sector : ℕ
  pub max_radius : D
  pub lidar_height : D
  pub use_scpp : Bool
  pub scpp_search_ratio : D
  pub cart_x_unit : D
  pub cart_y_unit : D
  pub cart_x_max : D
  pub cart_y_max : D

-- `Eigen::MatrixXd` by columns.
pub record Descriptor (D : Type 0) : Type 0 where
  pub rows : ℕ
  pub columns : List (List D)

module _ {A : Type 0} where
  unfoldable pub modify : ℕ → (A → A) → List A → List A
  modify n f [] = []
  modify zero f (x ∷ xs) = f x ∷ xs
  modify (suc n) f (x ∷ xs) = x ∷ modify n f xs

  unfoldable pub repeat : ℕ → A → List A
  repeat zero a = []
  repeat (suc n) a = a ∷ repeat n a

  abbrev pub get_or : A → ℕ → List A → A
  get_or a n [] = a
  get_or a zero (x ∷ xs) = x
  get_or a (suc n) (x ∷ xs) = get_or a n xs

  -- `f i, f (i + 1), ...`, `n` values.
  unfoldable pub tabulate : ℕ → ℕ → (ℕ → A) → List A
  tabulate zero i f = []
  tabulate (suc n) i f = f i ∷ tabulate n (suc i) f

-- `std::min(std::max(i, 0), n - 1)`.
abbrev pub bounded : ℤ → ℕ → ℕ
bounded i n = if ltb (n - 1) (pos_part i) then n - 1 else pos_part i

-- `std::set<int>::insert`.
unfoldable pub insert_set : ℕ → List ℕ → List ℕ
insert_set x [] = x ∷ []
insert_set x (y ∷ ys) =
    if ltb x y then x ∷ y ∷ ys else (if x == y then y ∷ ys else y ∷ insert_set x ys)

-- `for (int i = 1; i <= search_half; ++i)` from `i` on.
unfoldable pub around : ℕ → ℕ → ℕ → ℕ → List ℕ → List ℕ
unfolding insert_set
around n center zero i shifts = shifts
around n center (suc left) i shifts =
    around n center left (suc i)
      (insert_set ((center + i) % n) (insert_set ((center + n - i) % n) shifts))

module _ {D : Type 0} where
  abbrev pub cols : Descriptor D → ℕ
  cols sc = length sc.columns

  abbrev pub rotate : ℕ → Descriptor D → Descriptor D
  rotate k sc = record sc { columns = drop k sc.columns ++ take k sc.columns }

  -- `none` is a remainder by zero, or a negative number of columns.
  unfoldable pub circshift : Descriptor D → ℤ → Option (Descriptor D)
  circshift sc shift =
      let z = if ltb_ℤ shift (pos 0) then pos (cols sc) +ℤ shift else shift in
      if cols sc == 0 then none else elim z [
        | pos n ↦ if n % cols sc == 0 then some sc else some (rotate (n % cols sc) sc)
        | negsuc n ↦ if suc n % cols sc == 0 then some sc else none
      ]

module _ {D : Type 0} ⦃d : Double D⦄ where
  abbrev pub number : ℕ → D
  number n = d.decimal n 0

  -- The mean of the values that are not next to zero.
  abbrev pub sum_up : D → ℕ → List D → D × ℕ
  sum_up sum cnt [] = (sum, cnt)
  sum_up sum cnt (v ∷ vs) =
      let big = d.lt (d.decimal 1 6) (d.abs v) in
      sum_up (if big then d.add sum v else sum) (if big then cnt + 1 else cnt) vs

  unfoldable pub mean_of : List D → D
  mean_of vs =
      let (sum, cnt) = sum_up (number 0) 0 vs in
      if ltb 0 cnt then d.div sum (number cnt) else number 0

  abbrev pub row_of : ℕ → Descriptor D → List D
  row_of r sc = map (get_or (number 0) r) sc.columns

  unfoldable pub make_ring_key : Descriptor D → List D
  unfolding tabulate mean_of
  make_ring_key sc = tabulate sc.rows 0 (λ r. mean_of (row_of r sc))

  unfoldable pub make_sector_key : Descriptor D → List D
  unfolding mean_of
  make_sector_key sc = map mean_of sc.columns

  abbrev pub dot : D → List D → List D → D
  dot sum [] ys = sum
  dot sum (x ∷ xs) [] = sum
  dot sum (x ∷ xs) (y ∷ ys) = dot (d.add sum (d.mul x y)) xs ys

  unfoldable pub norm : List D → D
  norm xs = d.sqrt (dot (number 0) xs xs)

  -- `std::clamp(v, -1.0, 1.0)`.
  abbrev pub clamp_one : D → D
  clamp_one v =
      if d.lt v (d.neg (number 1))
      then d.neg (number 1)
      else (if d.lt (number 1) v then number 1 else v)

  abbrev pub negligible : D → D → Bool
  negligible n1 n2 = d.lt n1 (d.decimal 1 9) || d.lt n2 (d.decimal 1 9)

  -- The sum of the similarities of the columns, and the number of those that count.
  unfoldable pub similarity : D → ℕ → List (List D) → List (List D) → D × ℕ
  unfolding norm
  similarity sum cnt [] ys = (sum, cnt)
  similarity sum cnt (x ∷ xs) [] = (sum, cnt)
  similarity sum cnt (x ∷ xs) (y ∷ ys) =
      let small = negligible (norm x) (norm y) in
      let cosine = clamp_one (d.div (dot (number 0) x y) (d.mul (norm x) (norm y))) in
      similarity (if small then sum else d.add sum cosine) (if small then cnt else cnt + 1) xs ys

  unfoldable pub dist_direct_sc : Descriptor D → Descriptor D → D
  unfolding similarity
  dist_direct_sc sc1 sc2 =
      let (sum, cnt) = similarity (number 0) 0 sc1.columns sc2.columns in
      if not (sc1.rows == sc2.rows) || not (cols sc1 == cols sc2)
      then number 1
      else (if cnt == 0 then number 1 else d.sub (number 1) (d.div sum (number cnt)))

  -- The loop over the shifts that keeps the first of the smallest values.
  unfoldable pub smallest : (ℕ → Option D) → List ℕ → D → ℕ → Option (D × ℕ)
  smallest f [] low best = some (low, best)
  smallest f (s ∷ ss) low best = elim (f s) [
    | none ↦ none
    | some v ↦ smallest f ss (if d.lt v low then v else low) (if d.lt v low then s else best)
  ]

  -- Whether a point counts.
  unfoldable pub counts : ScParams D → Vec3 D → Bool
  counts p v =
      all_finite v && not (d.lt p.max_radius (d.sqrt (d.add (d.mul v.x v.x) (d.mul v.y v.y))))

  abbrev pub put_height : D → D → D
  put_height z old = if d.eq old (number 0) then z else max old z

  abbrev pub inside : D → D → Bool
  inside x limit = d.lt (d.neg limit) x && d.lt x limit

  abbrev pub shift_distance : Descriptor D → Descriptor D → ℕ → Option D
  shift_distance sc1 sc2 shift = elim (circshift sc1 (pos shift)) [
    | none ↦ none
    | some shifted ↦ some (dist_direct_sc shifted sc2)
  ]

  module _ (lib : Numeric D) where
    -- `gap` is the width of a ring or a sector.
    unfoldable pub ring_of : ScParams D → Vec3 D → ℕ
    ring_of p v =
        let range = d.sqrt (d.add (d.mul v.x v.x) (d.mul v.y v.y)) in
        bounded (lib.to_int (d.div range (d.div p.max_radius (number p.num_ring)))) p.num_ring

    unfoldable pub sector_of : ScParams D → Vec3 D → ℕ
    sector_of p v =
        let angle = lib.atan2 v.y v.x in
        let turned = if d.lt angle (number 0) then d.add angle lib.two_pi else angle in
        bounded (lib.to_int (d.div turned (d.div lib.two_pi (number p.num_sector)))) p.num_sector

    unfoldable pub raise_cell : ScParams D → Vec3 D → List (List D) → List (List D)
    unfolding counts ring_of sector_of modify
    raise_cell p v columns =
        if counts p v
        then modify (sector_of p v) (modify (ring_of p v) (put_height v.z)) columns
        else columns

    abbrev pub raise_cells : ScParams D → List (Vec3 D) → List (List D) → List (List D)
    raise_cells p [] columns = columns
    raise_cells p (v ∷ vs) columns = raise_cells p vs (raise_cell p v columns)

    unfoldable pub make_scan_context : ScParams D → List (Vec3 D) → Descriptor D
    unfolding raise_cell repeat
    make_scan_context p scan = record {
      rows = p.num_ring;
      columns = raise_cells p scan (repeat p.num_sector (repeat p.num_ring (number 0)));
    }

    -- The same from points with an accessor.
    unfoldable pub make_scan_context_from_points :
        {P : Type 0} → ScParams D → List P → (P → Vec3 D) → Descriptor D
    unfolding make_scan_context
    make_scan_context_from_points p points get_xyz = make_scan_context p (map get_xyz points)

    -- The norm of the difference of two keys, where one is shifted.
    abbrev pub key_distance : List D → List D → ℕ → D
    key_distance ref query shift =
        let n = length ref in
        let differences =
          tabulate n 0 (λ c.
            d.sub (get_or (number 0) c ref) (get_or (number 0) ((c + n - shift) % n) query)) in
        d.sqrt (dot (number 0) differences differences)

    unfoldable pub fast_align_using_sector_key : List D → List D → ℕ
    unfolding tabulate smallest
    fast_align_using_sector_key ref query =
        let n = length ref in
        if n == 0 || not (length query == n)
        then 0
        else elim (smallest (λ s. some (key_distance ref query s)) (tabulate n 0 (λ s. s))
            lib.largest 0) [ none ↦ 0 | some (low, best) ↦ best ]

    abbrev pub search_half : ScParams D → ℕ
    search_half p =
        let n = p.num_sector in
        let ratio =
          pos_part
            (lib.to_int (lib.round (d.mul (max (number 0) p.scpp_search_ratio) (number n)))) in
        let half = if ltb ratio (n / 2) then ratio else n / 2 in if ltb 1 half then half else 1

    unfoldable pub shifts_of : ScParams D → Descriptor D → Descriptor D → List ℕ
    unfolding around tabulate fast_align_using_sector_key make_sector_key
    shifts_of p sc1 sc2 =
        let center = fast_align_using_sector_key (make_sector_key sc1) (make_sector_key sc2) in
        if p.use_scpp
        then around p.num_sector center (search_half p) 1 (center ∷ [])
        else tabulate p.num_sector 0 (λ i. i)

    unfoldable pub distance_btn_scan_context :
        ScParams D → Descriptor D → Descriptor D → Option (D × ℕ)
    unfolding shifts_of smallest circshift dist_direct_sc
    distance_btn_scan_context p sc1 sc2 =
        elim (smallest (shift_distance sc1 sc2) (shifts_of p sc1 sc2) lib.largest 0) [
          | none ↦ none
          | some (low, best) ↦ some (if not (d.is_finite low) then number 1 else low, best)
        ]
