-- ===== src/Core/BoundingBox/Widths.antt =====
-- Moving and resizing a box (core/src/bounding_box.rs).
use mathlib.Core.Option
use ruffle.Prelude.{
  ℕ, ◌+◌, ◌^◌, ◌<◌, ◌≡◌, refl, sym, ap, ◌∙◌, ℤ, pos, negsuc, some, Bool, true, false, if◌then◌else◌,
  arith, FitsSigned, le→leb, lt→ltb, lt→leb,
}
use ruffle.Core.BoundingBox.Defs.{Twips, above, below, leq, BoundingBox}
use ruffle.Core.BoundingBox.Setters.{
  difference, is_i32, checked, sum, minus, width, put_x, set_x, end_x, set_width,
}

difference_lem : (p q : ℕ) → above (difference p q) + q ≡ below (difference p q) + p
unfolding difference
difference_lem p q = ground arith

difference-id : (n : ℤ) (p q : ℕ) → above n + q ≡ below n + p → difference p q ≡ n
unfolding difference
difference-id (pos n) p q h = rw (le→leb q p (omega (arith, h))) (ap pos (omega (arith, h)))
difference-id (negsuc n) p q h = rw (lt→leb q p (omega (arith, h))) (ap negsuc (omega (arith, h)))

sum_lem :
    (a b : Twips) → above (sum a b) + (below a + below b) ≡ below (sum a b) + (above a + above b)
unfolding sum
sum_lem a b = difference_lem (above a + above b) (below a + below b)

-- What is added is the difference afterwards.
minus-sum : (a b : Twips) → minus (sum a b) a ≡ b
unfolding minus
minus-sum a b =
    difference-id b (above (sum a b) + below a) (below (sum a b) + above a)
      (omega (arith, sum_lem a b))

checked-some : (n : ℤ) → FitsSigned (2 ^ 31) n → checked n ≡ some n
unfolding checked is_i32
checked-some (pos n) h = rw (lt→ltb n (2 ^ 31) h) refl
checked-some (negsuc n) h = rw (lt→ltb n (2 ^ 31) h) refl

either_true : (b c : Bool) → c ≡ true → (if b then true else c) ≡ true
either_true true c h = refl
either_true false c h = h

width_valid :
    (box : BoundingBox) → box.valid ≡ true → width box ≡ checked (minus box.x_max box.x_min)
unfolding width
width_valid box valid = rw valid refl

-- For a valid box whose width is an i32, and a coordinate such that the new right end is one:
-- `set_x` does not panic, and the box that it returns starts at the coordinate and is valid, with
-- the width and the vertical ends of the box before.
pub width-set_x :
    (x : Twips) (box : BoundingBox)
    → box.valid ≡ true
    → FitsSigned (2 ^ 31) (minus box.x_max box.x_min)
    → FitsSigned (2 ^ 31) (sum x (minus box.x_max box.x_min))
    → (moved : BoundingBox) × (set_x x box ≡ some moved)
      × (moved.x_min ≡ x)
      × (moved.valid ≡ true)
      × (width moved ≡ width box)
      × (moved.y_min ≡ box.y_min)
      × (moved.y_max ≡ box.y_max)
unfolding set_x width put_x Option.bind
width-set_x x box valid fits moved_fits =
    let w = minus box.x_max box.x_min in
    let same = checked-some w fits in
    let still = either_true (leq box.y_min box.y_max) box.valid valid in
    (
      put_x x (sum x w) box,
      rw (valid, same, checked-some (sum x w) moved_fits) refl,
      refl,
      still,
      width_valid (put_x x (sum x w) box) still
          ∙ ap checked (minus-sum x w)
          ∙ sym (width_valid box valid),
      refl,
      refl,
    )

-- For a width that is not negative and an i32, on a box whose vertical ends are in order, such that
-- the new right end is an i32: `set_width` does not panic, and the box that it returns is valid, has
-- that width, and starts where the box before does.
pub width-set_width :
    (n : ℕ) (box : BoundingBox)
    → n < 2 ^ 31
    → leq box.y_min box.y_max ≡ true
    → FitsSigned (2 ^ 31) (sum box.x_min (pos n))
    → (resized : BoundingBox) × (set_width (pos n) box ≡ some resized)
      × (resized.valid ≡ true)
      × (width resized ≡ some (pos n))
      × (resized.x_min ≡ box.x_min)
unfolding set_width width end_x
width-set_width n box small ordered fits =
    let e = sum box.x_min (pos n) in
    let forward : leq box.x_min e ≡ true =
      le→leb (above box.x_min + below e) (above e + below box.x_min)
        (omega (arith, sum_lem box.x_min (pos n))) in
    (
      end_x e box,
      rw (checked-some e fits) refl,
      rw (forward, ordered) refl,
      rw (forward, ordered) (ap checked (minus-sum box.x_min (pos n)) ∙ checked-some (pos n) small),
      refl,
    )
