-- ===== src/Scan/Cart.antt =====
-- The rectangular descriptor of `ScanContext`, that of the class's second way to compare scans:
-- `makeCartContext` and `distanceBtnCartContext` of scantext_module/ScanContext.cpp.
use adaptive_lio.Common.{ℕ, not, ◌&&◌, ◌||◌, List, [], ◌∷◌, ◌++◌, ltb, ◌==◌, if◌then◌else◌}
use adaptive_lio.Common.Double.{Double}
use adaptive_lio.Common.Int.{ℤ, pos, pos_part, ltb_ℤ, leb_ℤ}
use adaptive_lio.Imu.Axes.{Vec3}
use adaptive_lio.Imu.{all_finite}
use adaptive_lio.Scan.{
  Numeric, ScParams, Descriptor, modify, repeat, cols, number, dot, norm, clamp_one, negligible,
  inside,
}

module _ {D : Type 0} where
  abbrev pub flat : List (List D) → List D
  flat [] = []
  flat (c ∷ cs) = c ++ flat cs

module _ {D : Type 0} ⦃d : Double D⦄ where
  unfoldable pub distance_btn_cart_context : Descriptor D → Descriptor D → D
  unfolding norm
  distance_btn_cart_context cc1 cc2 =
      let v1 = flat cc1.columns in
      let v2 = flat cc2.columns in
      if not (cc1.rows == cc2.rows) || not (cols cc1 == cols cc2)
      then number 1
      else (if negligible (norm v1) (norm v2)
          then number 1
          else d.sub (number 1)
              (clamp_one (d.div (dot (number 0) v1 v2) (d.mul (norm v1) (norm v2)))))

  module _ (lib : Numeric D) where
    -- `std::max(1, static_cast<int>(std::round((2.0 * max) / unit)))`.
    abbrev pub cart_cells : D → D → ℕ
    cart_cells extent unit =
        let n = pos_part (lib.to_int (lib.round (d.div (d.mul (number 2) extent) unit))) in
        if ltb 1 n then n else 1

    -- The cell of a coordinate, counted from the middle.
    abbrev pub cart_index : D → D → ℕ → ℤ
    cart_index x unit n =
        let sign = if d.le (number 0) x then number 1 else d.neg (number 1) in
        lib.to_int (
          d.add (d.mul sign (lib.floor (d.div (d.abs x) unit)))
            (lib.floor (d.div (number n) (number 2))))

    abbrev pub turn : D → Vec3 D → Vec3 D
    turn yaw v =
        let c = lib.cos yaw in
        let s = lib.sin yaw in
        if d.lt (d.decimal 1 9) (d.abs yaw)
        then record v {
          x = d.sub (d.mul c v.x) (d.mul s v.y);
          y = d.add (d.mul s v.x) (d.mul c v.y);
        }
        else v

    -- A matrix with a row for each cell of x; `z` is kept if it is above the cell.
    unfoldable pub add_cart : ScParams D → D → ℕ → ℕ → Vec3 D → List (List D) → List (List D)
    unfolding modify
    add_cart p yaw num_x num_y v columns =
        let w = turn yaw v in
        let xi = cart_index w.x p.cart_x_unit num_x in
        let yi = cart_index w.y p.cart_y_unit num_y in
        if not (all_finite v)
          || not (inside w.x p.cart_x_max && inside w.y p.cart_y_max)
          || ltb_ℤ xi (pos 0)
          || leb_ℤ (pos num_x) xi
          || ltb_ℤ yi (pos 0)
          || leb_ℤ (pos num_y) yi
        then columns
        else modify (pos_part yi) (modify (pos_part xi) (λ old. if d.lt old w.z then w.z else old))
            columns

    abbrev pub add_carts : ScParams D → D → ℕ → ℕ → List (Vec3 D) → List (List D) → List (List D)
    add_carts p yaw num_x num_y [] columns = columns
    add_carts p yaw num_x num_y (v ∷ vs) columns =
        add_carts p yaw num_x num_y vs (add_cart p yaw num_x num_y v columns)

    unfoldable pub make_cart_context : ScParams D → List (Vec3 D) → D → Descriptor D
    unfolding add_cart repeat
    make_cart_context p scan yaw =
        let num_x = cart_cells p.cart_x_max p.cart_x_unit in
        let num_y = cart_cells p.cart_y_max p.cart_y_unit in
        record {
          rows = num_x;
          columns = add_carts p yaw num_x num_y scan (repeat num_y (repeat num_x (number 0)));
        }
