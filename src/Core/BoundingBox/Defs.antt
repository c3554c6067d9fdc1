-- ===== src/Core/BoundingBox/Defs.antt =====
-- `BoundingBox` (core/src/bounding_box.rs) with the operations that compare coordinates.
use ruffle.Prelude.{
  ℕ, suc, ◌+◌, ℤ, pos, negsuc, Bool, true, false, not, ◌&&◌, ◌||◌, leb, if◌then◌else◌,
}

-- `Twips`: a number of twentieths of a pixel (swf/src/types.rs).
abbrev pub Twips : Type 0
Twips = ℤ

-- The parts of a number above and below zero.
abbrev pub above : Twips → ℕ
above (pos n) = n
above (negsuc n) = 0

abbrev pub below : Twips → ℕ
below (pos n) = 0
below (negsuc n) = suc n

-- `a <= b`
abbrev pub leq : Twips → Twips → Bool
leq a b = leb (above a + below b) (above b + below a)

unfoldable pub min : Twips → Twips → Twips
min a b = if leq a b then a else b

unfoldable pub max : Twips → Twips → Twips
max a b = if leq a b then b else a

pub record BoundingBox : Type 0 where
  pub x_min : Twips
  pub y_min : Twips
  pub x_max : Twips
  pub y_max : Twips
  pub valid : Bool

-- `BoundingBox::default()`
unfoldable pub empty_box : BoundingBox
empty_box = record { x_min = pos 0; y_min = pos 0; x_max = pos 0; y_max = pos 0; valid = false }

-- `swf::Rectangle`
pub record Rectangle : Type 0 where
  pub x_min : Twips
  pub x_max : Twips
  pub y_min : Twips
  pub y_max : Twips

unfoldable pub from_rectangle : Rectangle → BoundingBox
from_rectangle rect = record {
  x_min = rect.x_min;
  y_min = rect.y_min;
  x_max = rect.x_max;
  y_max = rect.y_max;
  valid = true;
}

unfoldable pub clamp : Twips × Twips → BoundingBox → Twips × Twips
clamp point self =
    if self.valid
    then (min (max point.0 self.x_min) self.x_max, min (max point.1 self.y_min) self.y_max)
    else point

unfoldable pub encompass : Twips → Twips → BoundingBox → BoundingBox
encompass x y self =
    if self.valid
    then record {
      x_min = if not (leq self.x_min x) then x else self.x_min;
      y_min = if not (leq self.y_min y) then y else self.y_min;
      x_max = if not (leq x self.x_max) then x else self.x_max;
      y_max = if not (leq y self.y_max) then y else self.y_max;
      valid = true;
    }
    else record { x_min = x; y_min = y; x_max = x; y_max = y; valid = true }

unfoldable pub union : BoundingBox → BoundingBox → BoundingBox
union other self =
    if other.valid
    then if self.valid
      then record {
        x_min = min self.x_min other.x_min;
        y_min = min self.y_min other.y_min;
        x_max = max self.x_max other.x_max;
        y_max = max self.y_max other.y_max;
        valid = self.valid;
      }
      else other
    else self

unfoldable pub intersects : BoundingBox → BoundingBox → Bool
intersects other self =
    if not self.valid || not other.valid
    then false
    else leq (max self.x_min other.x_min) (min self.x_max other.x_max)
      && leq (max self.y_min other.y_min) (min self.y_max other.y_max)

unfoldable pub contains : Twips × Twips → BoundingBox → Bool
contains point self =
    self.valid
    && (leq self.x_min point.0
        && (leq point.0 self.x_max && (leq self.y_min point.1 && leq point.1 self.y_max)))
