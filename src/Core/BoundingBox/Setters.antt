-- ===== src/Core/BoundingBox/Setters.antt =====
-- The operations of `BoundingBox` that add coordinates (core/src/bounding_box.rs). A sum that is no
-- i32 is a panic, as where overflow is checked, and `none` here.
use mathlib.Core.Option.{Option, none, some}
use mathlib.Core.Option
use ruffle.Prelude.{ℕ, ◌+◌, ◌-◌, ◌^◌, ℤ, pos, negsuc, Bool, true, ◌&&◌, leb, ltb, if◌then◌else◌}
use ruffle.Core.BoundingBox.Defs.{Twips, above, below, leq, BoundingBox}

-- `p - q`
unfoldable pub difference : ℕ → ℕ → ℤ
difference p q = if leb q p then pos (p - q) else negsuc (q - p - 1)

unfoldable pub is_i32 : ℤ → Bool
is_i32 (pos n) = ltb n (2 ^ 31)
is_i32 (negsuc n) = ltb n (2 ^ 31)

unfoldable pub checked : ℤ → Option Twips
unfolding is_i32
checked n = if is_i32 n then some n else none

-- `a + b` and `a - b`, before the overflow is checked.
unfoldable pub sum : Twips → Twips → ℤ
unfolding difference
sum a b = difference (above a + above b) (below a + below b)

unfoldable pub minus : Twips → Twips → ℤ
unfolding difference
minus a b = difference (above a + below b) (below a + above b)

unfoldable pub width : BoundingBox → Option Twips
unfolding checked minus
width self = if self.valid then checked (minus self.x_max self.x_min) else some (pos 0)

unfoldable pub height : BoundingBox → Option Twips
unfolding checked minus
height self = if self.valid then checked (minus self.y_max self.y_min) else some (pos 0)

-- `if self.y_max >= self.y_min { self.valid = true; }`, once the coordinates of x are set.
unfoldable pub put_x : Twips → Twips → BoundingBox → BoundingBox
put_x x x_max self = record self {
  x_min = x;
  x_max = x_max;
  valid = if leq self.y_min self.y_max then true else self.valid;
}

unfoldable pub put_y : Twips → Twips → BoundingBox → BoundingBox
put_y y y_max self = record self {
  y_min = y;
  y_max = y_max;
  valid = if leq self.x_min self.x_max then true else self.valid;
}

unfoldable pub set_x : Twips → BoundingBox → Option BoundingBox
unfolding width put_x checked sum Option.bind
set_x x self =
    Option.bind (width self) (λ w. Option.map (λ x_max. put_x x x_max self) (checked (sum x w)))

unfoldable pub set_y : Twips → BoundingBox → Option BoundingBox
unfolding height put_y checked sum Option.bind
set_y y self =
    Option.bind (height self) (λ h. Option.map (λ y_max. put_y y y_max self) (checked (sum y h)))

-- The box with another end, valid if its ends are in order.
unfoldable pub end_x : Twips → BoundingBox → BoundingBox
end_x x_max self = record self {
  x_max = x_max;
  valid = leq self.x_min x_max && leq self.y_min self.y_max;
}

unfoldable pub end_y : Twips → BoundingBox → BoundingBox
end_y y_max self = record self {
  y_max = y_max;
  valid = leq self.x_min self.x_max && leq self.y_min y_max;
}

unfoldable pub set_width : Twips → BoundingBox → Option BoundingBox
unfolding end_x checked sum
set_width width self = Option.map (λ x_max. end_x x_max self) (checked (sum self.x_min width))

unfoldable pub set_height : Twips → BoundingBox → Option BoundingBox
unfolding end_y checked sum
set_height height self = Option.map (λ y_max. end_y y_max self) (checked (sum self.y_min height))
