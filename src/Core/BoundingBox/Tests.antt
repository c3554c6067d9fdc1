-- ===== src/Core/BoundingBox/Tests.antt =====
-- Bounding boxes at concrete inputs.
use mathlib.Core.Option
use ruffle.Prelude.{some, arith, ◌≡◌, refl, pos, negsuc, true, inl}
use ruffle.Core.BoundingBox.Defs.{
  BoundingBox, empty_box, from_rectangle, min, max, clamp, encompass, union, intersects, contains,
}
use ruffle.Core.BoundingBox.Laws.{
  contains-union, contains-encompass, intersects-contains, intersects-common, contains-clamp,
}
use ruffle.Core.BoundingBox.Setters.{
  difference, is_i32, checked, sum, minus, width, put_x, set_x, set_width,
}
use ruffle.Core.BoundingBox.Widths.{width-set_x, width-set_width}

-- From (-2, 0) to (4, 3), and from (1, -5) to (9, 1).
abbrev low : BoundingBox
low = record { x_min = negsuc 1; y_min = pos 0; x_max = pos 4; y_max = pos 3; valid = true }

abbrev high : BoundingBox
high = record { x_min = pos 1; y_min = negsuc 4; x_max = pos 9; y_max = pos 1; valid = true }

rectangle_low :
    from_rectangle (record { x_min = negsuc 1; x_max = pos 4; y_min = pos 0; y_max = pos 3 }) ≡ low
unfolding from_rectangle
rectangle_low = refl

encompass_empty :
    encompass (pos 2) (negsuc 0) empty_box
    ≡ record { x_min = pos 2; y_min = negsuc 0; x_max = pos 2; y_max = negsuc 0; valid = true }
unfolding encompass empty_box
encompass_empty = refl

contains-union_example : contains (negsuc 0, pos 2) (union high low) ≡ true
unfolding contains
contains-union_example = contains-union (negsuc 0, pos 2) low high (inl refl)

contains-encompass_example :
    (contains (pos 7, negsuc 2) (encompass (pos 7) (negsuc 2) low) ≡ true)
    × (contains (pos 1, pos 1) low ≡ true
        → contains (pos 1, pos 1) (encompass (pos 7) (negsuc 2) low) ≡ true)
contains-encompass_example = contains-encompass (pos 7) (negsuc 2) (pos 1, pos 1) low

intersects-contains_example : intersects high low ≡ true
unfolding contains
intersects-contains_example = intersects-contains (pos 2, pos 1) low high refl refl

intersects-common_example :
    (contains (max low.x_min high.x_min, max low.y_min high.y_min) low ≡ true)
    × (contains (max low.x_min high.x_min, max low.y_min high.y_min) high ≡ true)
unfolding intersects min max
intersects-common_example = intersects-common low high refl

contains-clamp_example : contains (clamp (pos 8, negsuc 9) low) low ≡ true
contains-clamp_example = contains-clamp (pos 8, negsuc 9) low refl refl refl

-- Moved to 10, the box from (-2, 0) to (4, 3) goes to 16.
set_x-low : set_x (pos 10) low ≡ some (record low { x_min = pos 10; x_max = pos 16 })
unfolding set_x width put_x checked is_i32 sum minus difference Option.bind
set_x-low = refl

width-set_x_example :
    (moved : BoundingBox) × (set_x (pos 10) low ≡ some moved)
    × (moved.x_min ≡ pos 10)
    × (moved.valid ≡ true)
    × (width moved ≡ width low)
    × (moved.y_min ≡ low.y_min)
    × (moved.y_max ≡ low.y_max)
width-set_x_example =
    width-set_x (pos 10) low refl (unfold minus difference in omega arith)
      (unfold sum minus difference in omega arith)

width-set_width_example :
    (resized : BoundingBox) × (set_width (pos 20) low ≡ some resized)
    × (resized.valid ≡ true)
    × (width resized ≡ some (pos 20))
    × (resized.x_min ≡ low.x_min)
width-set_width_example =
    width-set_width 20 low (omega arith) refl (unfold sum difference in omega arith)
