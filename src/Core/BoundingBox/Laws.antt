-- ===== src/Core/BoundingBox/Laws.antt =====
-- Boxes and the points in them (core/src/bounding_box.rs).
use ruffle.Prelude.{
  ◌≡◌, refl, Bool, true, false, not, ◌&&◌, ◌||◌, if◌then◌else◌, arith, Bool-cases, inl, inr, ◌⊎◌,
}
use ruffle.Core.BoundingBox.Defs.{
  Twips, leq, min, max, BoundingBox, clamp, encompass, union, intersects, contains,
}

-- A point in a box, written out.
abbrev pub Inside : Twips × Twips → BoundingBox → Type 0
Inside point box =
    (box.valid ≡ true)
    × (leq box.x_min point.0 ≡ true)
    × (leq point.0 box.x_max ≡ true)
    × (leq box.y_min point.1 ≡ true)
    × (leq point.1 box.y_max ≡ true)

all_five :
    (a b c d e : Bool)
    → (a && (b && (c && (d && e)))) ≡ true
    → (a ≡ true) × (b ≡ true) × (c ≡ true) × (d ≡ true) × (e ≡ true)
all_five true true true true true h = (refl, refl, refl, refl, refl)
all_five false b c d e h = ground arith
all_five true false c d e h = ground arith
all_five true true false d e h = ground arith
all_five true true true false e h = ground arith
all_five true true true true false h = ground arith

contains-Inside :
    (point : Twips × Twips) (box : BoundingBox) → contains point box ≡ true → Inside point box
unfolding contains
contains-Inside point box h = all_five _ _ _ _ _ h

Inside-contains :
    (point : Twips × Twips) (box : BoundingBox) → Inside point box → contains point box ≡ true
unfolding contains
Inside-contains point box h = rw (h.0, h.1, h.2, h.3, h.4) refl

min_left : (a b x : Twips) → leq a x ≡ true → leq (min a b) x ≡ true
unfolding min
min_left a b x h = ground arith

min_right : (a b x : Twips) → leq b x ≡ true → leq (min a b) x ≡ true
unfolding min
min_right a b x h = ground arith

max_left : (a b x : Twips) → leq x a ≡ true → leq x (max a b) ≡ true
unfolding max
max_left a b x h = ground arith

max_right : (a b x : Twips) → leq x b ≡ true → leq x (max a b) ≡ true
unfolding max
max_right a b x h = ground arith

-- A point in either box is in their union.
pub contains-union :
    (point : Twips × Twips) (self other : BoundingBox)
    → (contains point self ≡ true) ⊎ (contains point other ≡ true)
    → contains point (union other self) ≡ true
unfolding union
contains-union point self other (inl h) =
    let i = contains-Inside point self h in
    elim (Bool-cases other.valid) [
      | inl valid ↦
          rw (valid, i.0)
            (Inside-contains point _ (
              refl,
              min_left self.x_min other.x_min point.0 i.1,
              max_left self.x_max other.x_max point.0 i.2,
              min_left self.y_min other.y_min point.1 i.3,
              max_left self.y_max other.y_max point.1 i.4,
            ))
      | inr invalid ↦ rw invalid h
    ]
contains-union point self other (inr h) =
    let i = contains-Inside point other h in
    elim (Bool-cases self.valid) [
      | inl valid ↦
          rw (i.0, valid)
            (Inside-contains point _ (
              refl,
              min_right self.x_min other.x_min point.0 i.1,
              max_right self.x_max other.x_max point.0 i.2,
              min_right self.y_min other.y_min point.1 i.3,
              max_right self.y_max other.y_max point.1 i.4,
            ))
      | inr invalid ↦ rw (i.0, invalid) (Inside-contains point _ (refl, i.1, i.2, i.3, i.4))
    ]

lowered : (a x : Twips) → leq (if not (leq a x) then x else a) x ≡ true
lowered a x = ground arith

raised : (a x : Twips) → leq x (if not (leq x a) then x else a) ≡ true
raised a x = ground arith

lower_kept : (a x z : Twips) → leq a z ≡ true → leq (if not (leq a x) then x else a) z ≡ true
lower_kept a x z h = ground arith

raise_kept : (a x z : Twips) → leq z a ≡ true → leq z (if not (leq x a) then x else a) ≡ true
raise_kept a x z h = ground arith

-- `encompass` takes the point into the box, and keeps every point that was in it.
pub contains-encompass :
    (x y : Twips) (point : Twips × Twips) (self : BoundingBox)
    → (contains (x, y) (encompass x y self) ≡ true)
      × (contains point self ≡ true → contains point (encompass x y self) ≡ true)
unfolding encompass
contains-encompass x y point self = elim (Bool-cases self.valid) [
  | inl valid ↦ rw valid (
    Inside-contains (x, y) _
        (
          refl,
          lowered self.x_min x,
          raised self.x_max x,
          lowered self.y_min y,
          raised self.y_max y,
        ),
    λ h.
        let i = contains-Inside point (record self { valid = true }) h in
        Inside-contains point _ (
          refl,
          lower_kept self.x_min x point.0 i.1,
          raise_kept self.x_max x point.0 i.2,
          lower_kept self.y_min y point.1 i.3,
          raise_kept self.y_max y point.1 i.4,
        ),
  )
  | inr invalid ↦ rw invalid (
    Inside-contains (x, y) _ (refl, itself x, itself x, itself y, itself y),
    λ h. absurd (not_both false (contains-Inside point (record self { valid = false }) h).0 refl),
  )
]
  where
    itself : (x : Twips) → leq x x ≡ true
    itself x = ground arith

    not_both : (b : Bool) → b ≡ true → b ≡ false → ⊥
    not_both b h k = ground arith

-- The interval from the greater of two lower ends to the lesser of two upper ends.
overlap :
    (a b c d z : Twips)
    → leq a z ≡ true
    → leq c z ≡ true
    → leq z b ≡ true
    → leq z d ≡ true
    → leq (max a c) (min b d) ≡ true
unfolding max min
overlap a b c d z ha hc hb hd = ground arith

-- Two boxes with a point in common intersect.
pub intersects-contains :
    (point : Twips × Twips) (self other : BoundingBox)
    → contains point self ≡ true
    → contains point other ≡ true
    → intersects other self ≡ true
unfolding intersects
intersects-contains point self other h k =
    let i = contains-Inside point self h in
    let j = contains-Inside point other k in
    rw
      (
        i.0,
        j.0,
        overlap self.x_min self.x_max other.x_min other.x_max point.0 i.1 j.1 i.2 j.2,
        overlap self.y_min self.y_max other.y_min other.y_max point.1 i.3 j.3 i.4 j.4,
      )
      refl

upper_of : (a b c d : Twips) → leq (max a c) (min b d) ≡ true → leq (max a c) b ≡ true
unfolding max min
upper_of a b c d h = ground arith

upper_of_other : (a b c d : Twips) → leq (max a c) (min b d) ≡ true → leq (max a c) d ≡ true
unfolding max min
upper_of_other a b c d h = ground arith

itself_leq : (a : Twips) → leq a a ≡ true
itself_leq a = ground arith

-- Two boxes that intersect have a point in common: the one with the greater of the lower ends.
pub intersects-common :
    (self other : BoundingBox)
    → intersects other self ≡ true
    → (contains (max self.x_min other.x_min, max self.y_min other.y_min) self ≡ true)
      × (contains (max self.x_min other.x_min, max self.y_min other.y_min) other ≡ true)
unfolding intersects
intersects-common self other h =
    let p = parts self.valid other.valid _ _ h in
    (
      Inside-contains _ self (
        p.0,
        max_left self.x_min other.x_min self.x_min (itself_leq self.x_min),
        upper_of self.x_min self.x_max other.x_min other.x_max p.2,
        max_left self.y_min other.y_min self.y_min (itself_leq self.y_min),
        upper_of self.y_min self.y_max other.y_min other.y_max p.3,
      ),
      Inside-contains _ other (
        p.1,
        max_right self.x_min other.x_min other.x_min (itself_leq other.x_min),
        upper_of_other self.x_min self.x_max other.x_min other.x_max p.2,
        max_right self.y_min other.y_min other.y_min (itself_leq other.y_min),
        upper_of_other self.y_min self.y_max other.y_min other.y_max p.3,
      ),
    )
  where
    parts :
        (v w a b : Bool)
        → (if not v || not w then false else a && b) ≡ true
        → (v ≡ true) × (w ≡ true) × (a ≡ true) × (b ≡ true)
    parts true true true true h = (refl, refl, refl, refl)
    parts false w a b h = ground arith
    parts true false a b h = ground arith
    parts true true false b h = ground arith
    parts true true true false h = ground arith

clamped_low : (x a b : Twips) → leq a b ≡ true → leq a (min (max x a) b) ≡ true
unfolding max min
clamped_low x a b h = ground arith

clamped_high : (x a b : Twips) → leq (min (max x a) b) b ≡ true
unfolding max min
clamped_high x a b = ground arith

-- A point clamped by a valid box that is in order is in the box.
pub contains-clamp :
    (point : Twips × Twips) (self : BoundingBox)
    → self.valid ≡ true
    → leq self.x_min self.x_max ≡ true
    → leq self.y_min self.y_max ≡ true
    → contains (clamp point self) self ≡ true
unfolding clamp
contains-clamp point self valid hx hy = rw valid (
    Inside-contains _ (record self { valid = true })
      (
        refl,
        clamped_low point.0 self.x_min self.x_max hx,
        clamped_high point.0 self.x_min self.x_max,
        clamped_low point.1 self.y_min self.y_max hy,
        clamped_high point.1 self.y_min self.y_max,
      ))
