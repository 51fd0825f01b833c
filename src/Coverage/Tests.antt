-- ===== src/Coverage/Tests.antt =====
-- Runs of the selection, and its theorems at those inputs.
use adaptive_lio.Common.{◌≡◌, refl, arith, some, List, [], ◌∷◌}
use adaptive_lio.Common.Fixed.{Fixed, decimal, fixed_double}
use adaptive_lio.Common.Int.{pos}
use adaptive_lio.Imu.{constant}
use adaptive_lio.Convert.Slices.{Returns}
use adaptive_lio.Scan.Tests.{lib, at}
use adaptive_lio.Coverage.{
  LidarCorrespondence, CoverageBin, select_geometric_coverage, select_indices, coverage_of,
  correspondence_bin, fill, push_bin, take_turns, turn_over,
}
use adaptive_lio.Coverage.Select.{IsCovered, select-IsCovered}
use adaptive_lio.Coverage.Keys.{first, later}
use adaptive_lio.Coverage.Alike.{IsRepresented, select_indices-IsRepresented}

-- A correspondence with the given normal.
abbrev facing : Fixed → Fixed → LidarCorrespondence Fixed
facing x z = record {
  end_imu = constant (decimal 1 0);
  anchor_world = constant (decimal 0 0);
  normal_world = at x (decimal 0 0) z;
  weight = decimal 1 0;
}

-- Three correspondences of the ground and one of a wall.
abbrev four : List (LidarCorrespondence Fixed)
four =
    facing (decimal 0 0) (decimal 1 0)
    ∷ facing (decimal 0 0) (decimal 1 0)
    ∷ facing (decimal 0 0) (decimal 1 0)
    ∷ facing (decimal 1 0) (decimal 0 0)
    ∷ []

-- The wall comes before the second of the ground.
wall_is_second : select_indices lib.round lib.to_int four 3 ≡ some (0 ∷ 3 ∷ 1 ∷ [])
unfolding select_indices take_turns turn_over fill push_bin correspondence_bin
wall_is_second = refl

report_of_two : (coverage_of lib.round lib.to_int four (0 ∷ 3 ∷ [])).normal_bins ≡ 2
unfolding coverage_of correspondence_bin
report_of_two = refl

select-IsCovered_example :
    Returns
      (IsCovered lib.round lib.to_int four 3)
      (select_geometric_coverage lib.round lib.to_int four 3)
select-IsCovered_example = select-IsCovered lib.round lib.to_int four 3

-- The keys of the ground and of the wall.
abbrev two_keys : List CoverageBin
two_keys =
    (pos 0 ∷ pos 0 ∷ pos 2 ∷ pos 1 ∷ pos 1 ∷ pos 1 ∷ [])
    ∷ (pos 2 ∷ pos 0 ∷ pos 0 ∷ pos 1 ∷ pos 1 ∷ pos 1 ∷ [])
    ∷ []

select_indices-IsRepresented_example :
    Returns
      (IsRepresented lib.round lib.to_int four (facing (decimal 1 0) (decimal 0 0)))
      (select_indices lib.round lib.to_int four 2)
unfolding correspondence_bin
select_indices-IsRepresented_example =
    select_indices-IsRepresented lib.round lib.to_int four two_keys 2 3
      (facing (decimal 1 0) (decimal 0 0))
      (first refl, (first refl, (first refl, (later (first refl), tt)))) (omega arith) refl
