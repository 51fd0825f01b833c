-- ===== src/Scan/Tests.antt =====
-- Runs of `ScanContext` on small scans, and its theorems at those inputs.
use adaptive_lio.Common.{
  ℕ, ◌^◌, ◌<◌, ◌≡◌, refl, true, not, some, List, [], ◌∷◌, arith, All, if◌then◌else◌,
}
use adaptive_lio.Common.Fixed.{Fixed, fin, decimal, fixed_double, neg, Fixed-IsOrdered, lt}
use adaptive_lio.Common.Int.{ℤ, pos, negsuc, divide}
use adaptive_lio.Imu.Axes.{Vec3}
use adaptive_lio.Scan.{
  Numeric, ScParams, Descriptor, circshift, number, shifts_of, make_scan_context, make_ring_key,
  distance_btn_scan_context, counts, ring_of, sector_of,
}
use adaptive_lio.Scan.Shift.{IsTurned, circshift-IsTurned}
use adaptive_lio.Scan.Best.{IsSmallest, turned_distance, distance_btn-IsSmallest}
use adaptive_lio.Scan.Cells.{cell, IsHighest, heights, make_scan_context-IsHighest}

abbrev pub to_int : Fixed → ℤ
to_int (fin a) = divide a (10 ^ 12)
to_int _ = pos 0

-- An angle that tells the sides of the x axis apart.
abbrev pub lib : Numeric Fixed
lib = record {
  to_int = to_int;
  round = λ x. x;
  floor = λ x. x;
  atan2 = λ y x. if lt y (decimal 0 0) then neg (decimal 1 0) else decimal 1 0;
  cos = λ x. decimal 1 0;
  sin = λ x. decimal 0 0;
  two_pi = decimal 628 2;
  largest = decimal (10 ^ 9) 0;
}

abbrev pub params : ScParams Fixed
params = record {
  num_ring = 2;
  num_sector = 2;
  max_radius = decimal 80 0;
  lidar_height = decimal 2 0;
  use_scpp = true;
  scpp_search_ratio = decimal 1 1;
  cart_x_unit = decimal 5 0;
  cart_y_unit = decimal 2 0;
  cart_x_max = decimal 10 0;
  cart_y_max = decimal 2 0;
}

abbrev pub at : Fixed → Fixed → Fixed → Vec3 Fixed
at x y z = record { x = x; y = y; z = z }

-- The example's square root is the identity: ranges are squared.
abbrev pub scan : List (Vec3 Fixed)
scan =
    at (decimal 1 0) (decimal 1 0) (decimal 5 1)
    ∷ at (decimal 1 0) (decimal 2 0) (decimal 7 1)
    ∷ at (decimal 7 0) (neg (decimal 1 0)) (neg (decimal 1 0))
    ∷ at (decimal 9 0) (neg (decimal 1 0)) (decimal 3 0)
    ∷ []

abbrev descriptor : Descriptor Fixed
descriptor = record {
  rows = 2;
  columns = (decimal 7 1 ∷ decimal 0 0 ∷ []) ∷ (decimal 0 0 ∷ neg (decimal 1 0) ∷ []) ∷ [];
}

descriptor_of_scan : make_scan_context lib params scan ≡ descriptor
unfolding make_scan_context
descriptor_of_scan = refl

-- A height of zero counts for nothing: the lower point behind it takes the bin.
zero_is_lost :
    cell 0 0
      (make_scan_context lib params (
        at (decimal 1 0) (decimal 1 0) (decimal 0 0)
        ∷ at (decimal 1 0) (decimal 1 0) (neg (decimal 2 0))
        ∷ [])).columns
    ≡ some (neg (decimal 2 0))
unfolding make_scan_context
zero_is_lost = refl

shift_back :
    circshift descriptor (negsuc 0)
    ≡ some (record {
      rows = 2;
      columns = (decimal 0 0 ∷ neg (decimal 1 0) ∷ []) ∷ (decimal 7 1 ∷ decimal 0 0 ∷ []) ∷ [];
    })
unfolding circshift
shift_back = refl

ring_key : make_ring_key descriptor ≡ decimal 7 1 ∷ neg (decimal 1 0) ∷ []
unfolding make_ring_key
ring_key = refl

same_scan : distance_btn_scan_context lib params descriptor descriptor ≡ some (decimal 0 0, 0)
unfolding distance_btn_scan_context
same_scan = refl

circshift-IsTurned_example : (sc' : Descriptor Fixed) × IsTurned descriptor 1 sc'
circshift-IsTurned_example = circshift-IsTurned descriptor 1 (omega arith)

distance_btn-IsSmallest_example :
    (low : Fixed) × (best : ℕ) × (distance_btn_scan_context lib params descriptor descriptor
      ≡ some (if not (fixed_double.is_finite low) then number 1 else low, best))
    × (best < 2)
    × All (λ s. s < 2) (shifts_of lib params descriptor descriptor)
    × IsSmallest
        (turned_distance descriptor descriptor)
        (shifts_of lib params descriptor descriptor)
        lib.largest
        0
        low
        best
distance_btn-IsSmallest_example =
    distance_btn-IsSmallest Fixed-IsOrdered lib params descriptor descriptor (omega arith) refl

make_scan_context-IsHighest_example :
    (v : Fixed) × (cell 0 0 (make_scan_context lib params scan).columns ≡ some v)
    × IsHighest (heights lib params 0 0 scan) v
unfolding counts ring_of sector_of
make_scan_context-IsHighest_example =
    make_scan_context-IsHighest lib params Fixed-IsOrdered refl scan 0 0 (omega arith) (omega arith)
      ((refl, refl), ((refl, refl), tt))
