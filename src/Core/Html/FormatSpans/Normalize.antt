-- ===== src/Core/Html/FormatSpans/Normalize.antt =====
-- What `normalize` establishes (core/src/html/text_format.rs).
use ruffle.Prelude.{
  ℕ, ◌+◌, ◌-◌, ◌<◌, ◌≡◌, refl, ap, ◌∙◌, Bool, false, ◌||◌, List, [], ◌∷◌, ◌++◌, arith, ltb, ◌==◌,
  sum_of, Bool-cases, inl, inr, All, ltb→lt,
}
use mathlib.Core.List.{reverse, reverse-append}
use ruffle.Core.Html.TextFormat.{TextFormat}
use ruffle.Core.Html.TextSpan.{TextSpan, with_length_and_format, set_span_format, can_merge}
use ruffle.Core.Html.FormatSpans.Defs.{
  total, trim_loop, fit_length, drop_null, merge_loop, merge_all, or_default,
}

pub total-append : (xs ys : List TextSpan) → total (xs ++ ys) ≡ total xs + total ys
unfolding sum_of
total-append [] ys = omega arith
total-append (x ∷ xs) ys = omega (arith, total-append xs ys)

pub total-reverse : (xs : List TextSpan) → total (reverse xs) ≡ total xs
unfolding sum_of
total-reverse [] = refl
total-reverse (x ∷ xs) =
    ap total (reverse-append (x ∷ []) xs)
    ∙ total-append (reverse xs) (x ∷ [])
    ∙ omega (arith, total-reverse xs)

pub length-with_format : (n : ℕ) (tf : TextFormat) → (with_length_and_format n tf).span_length ≡ n
unfolding with_length_and_format set_span_format
length-with_format n tf = refl

total-trim_loop : (xs : List TextSpan) (d : ℕ) → total (trim_loop xs d) ≡ total xs - d
unfolding trim_loop sum_of
total-trim_loop [] d = omega arith
total-trim_loop (x ∷ xs) d = ground (arith, total-trim_loop xs (d - x.span_length))

pub total-fit_length :
    (len : ℕ) (tf : TextFormat) (xs : List TextSpan) → total (fit_length len tf xs) ≡ len
unfolding fit_length sum_of
total-fit_length len tf xs = elim (Bool-cases (ltb (total xs) len)) [
  | inl less ↦ rw less (
      total-append xs (with_length_and_format (len - total xs) tf ∷ [])
      ∙ omega (arith, ltb→lt _ _ less, length-with_format (len - total xs) tf))
  | inr le ↦ elim (Bool-cases (ltb len (total xs))) [
    | inl greater ↦
        rw (le, greater)
          (total-reverse (trim_loop (reverse xs) (total xs - len))
            ∙ total-trim_loop (reverse xs) (total xs - len)
            ∙ omega (arith, total-reverse xs, ltb→lt _ _ greater))
    | inr equal ↦ rw (le, equal) (ground arith)
  ]
]

pub total-drop_null : (xs : List TextSpan) → total (drop_null xs) ≡ total xs
unfolding drop_null sum_of
total-drop_null [] = refl
total-drop_null (x ∷ xs) = ground (arith, total-drop_null xs)

total-merge_loop :
    (xs : List TextSpan) (x : TextSpan) → total (merge_loop x xs) ≡ x.span_length + total xs
unfolding merge_loop sum_of
total-merge_loop [] x = refl
total-merge_loop (y ∷ ys) x = elim (Bool-cases (can_merge x y || (y.span_length == 0))) [
  | inl merges ↦
      rw merges (
        total-merge_loop ys (record x { span_length = x.span_length + y.span_length })
        ∙ omega arith)
  | inr stays ↦ rw stays (ap (λ n. x.span_length + n) (total-merge_loop ys y))
]

pub total-merge_all : (xs : List TextSpan) → total (merge_all xs) ≡ total xs
unfolding merge_all sum_of
total-merge_all [] = refl
total-merge_all (x ∷ xs) = total-merge_loop xs x

pub total-or_default :
    (len : ℕ) (tf : TextFormat) (xs : List TextSpan)
    → total xs ≡ len
    → total (or_default len tf xs) ≡ len
unfolding or_default sum_of
total-or_default len tf [] h = omega (arith, length-with_format len tf)
total-or_default len tf (x ∷ xs) h = h

-- No span but the one of an empty text is without length.
abbrev pub Positive : List TextSpan → Type 0
Positive spans = All (λ s. 0 < s.span_length) spans

-- No two neighbours could be merged.
abbrev pub Separate : List TextSpan → Type 0
Separate [] = Unit
Separate (x ∷ []) = Unit
Separate (x ∷ y ∷ rest) = (can_merge x y ≡ false) × Separate (y ∷ rest)

-- The first span, if there is one, has a length.
abbrev pub HeadPositive : List TextSpan → Type 0
HeadPositive [] = Unit
HeadPositive (x ∷ xs) = 0 < x.span_length

pub drop_null-HeadPositive : (xs : List TextSpan) → HeadPositive (drop_null xs)
unfolding drop_null
drop_null-HeadPositive [] = tt
drop_null-HeadPositive (x ∷ xs) = elim (Bool-cases (x.span_length == 0)) [
  | inl null ↦ rw null (drop_null-HeadPositive xs)
  | inr long ↦ rw long (positive x.span_length long)
]
  where
    positive : (n : ℕ) → (n == 0) ≡ false → 0 < n
    positive n h = ground arith

pub or_right : (a : Bool) (n : ℕ) → (a || (n == 0)) ≡ false → 0 < n
or_right a n h = ground arith

pub or_left : (a b : Bool) → (a || b) ≡ false → a ≡ false
or_left a b h = ground arith

pub merge_loop-Positive :
    (xs : List TextSpan) (x : TextSpan) → 0 < x.span_length → Positive (merge_loop x xs)
unfolding merge_loop
merge_loop-Positive [] x h = (h, tt)
merge_loop-Positive (y ∷ ys) x h = elim (Bool-cases (can_merge x y || (y.span_length == 0))) [
  | inl merges ↦ rw merges (
      merge_loop-Positive ys (record x { span_length = x.span_length + y.span_length })
        (omega arith))
  | inr stays ↦ rw stays (h, merge_loop-Positive ys y (or_right _ _ stays))
]

-- The test of two formats does not look at the lengths.
can_merge-length :
    (p x : TextSpan) (n : ℕ) → can_merge p (record x { span_length = n }) ≡ can_merge p x
unfolding can_merge
can_merge-length p x n = refl

pub merge_loop-Separate :
    (xs : List TextSpan) (p x : TextSpan) → can_merge p x ≡ false → Separate (p ∷ merge_loop x xs)
unfolding merge_loop
merge_loop-Separate [] p x h = (h, tt)
merge_loop-Separate (y ∷ ys) p x h = elim (Bool-cases (can_merge x y || (y.span_length == 0))) [
  | inl merges ↦ rw merges (
      merge_loop-Separate ys p (record x { span_length = x.span_length + y.span_length })
        (can_merge-length p x (x.span_length + y.span_length) ∙ h))
  | inr stays ↦ rw stays (h, merge_loop-Separate ys x y (or_left _ _ stays))
]

pub Separate-tail : (p : TextSpan) (xs : List TextSpan) → Separate (p ∷ xs) → Separate xs
Separate-tail p [] h = tt
Separate-tail p (x ∷ xs) h = h.1
