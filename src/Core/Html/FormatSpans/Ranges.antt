-- ===== src/Core/Html/FormatSpans/Ranges.antt =====
-- The range of spans that an edit works on, after the breaks (`get_span_boundaries` and the guards
-- of `Vec::drain` in core/src/html/text_format.rs).
use ruffle.Prelude.{
  ℕ, zero, suc, ◌+◌, ◌-◌, ◌≤◌, ◌<◌, ◌≡◌, refl, sym, ap, ◌∙◌, false, List, [], ◌∷◌, ◌++◌, Option,
  some, none, arith, leb, ◌==◌, length, take, sum_of, Bool-cases, inl, inr, take-append_length,
  length-append, min, subst, leb→le,
}
use ruffle.Core.Html.TextSpan.{TextSpan}
use ruffle.Core.Html.FormatSpans.Defs.{
  total, resolve_position_as_span, split_span, break_at, ensure_span_break_at, start_of, end_of,
  get_span_boundaries,
}
use ruffle.Core.Html.FormatSpans.Normalize.{total-append, Positive}
use ruffle.Core.Html.FormatSpans.Breaks.{Found, Resolved, resolve_lem, split_span_split}

Positive-append :
    (front ys zs : List TextSpan)
    → (Positive ys → Positive zs)
    → Positive (front ++ ys)
    → Positive (front ++ zs)
Positive-append [] ys zs f h = f h
Positive-append (x ∷ front) ys zs f h = (h.0, Positive-append front ys zs f h.1)

split_span-Positive :
    (xs : List TextSpan) (p index offset : ℕ)
    → Found xs 0 0 p index offset
    → 0 < offset
    → Positive xs
    → Positive (split_span index offset xs)
split_span-Positive xs p index offset h amid positive =
    let inside : offset < h.span.span_length = h.inside in
    subst Positive (sym (split_span_split xs p index offset h)) (
      Positive-append h.front (h.span ∷ h.back) _ (λ g. (amid, (omega (arith, inside), g.1)))
        (subst Positive h.splits positive))

total-split_span :
    (xs : List TextSpan) (p index offset : ℕ)
    → Found xs 0 0 p index offset
    → total (split_span index offset xs) ≡ total xs
unfolding sum_of
total-split_span xs p index offset h =
    let cut : List TextSpan =
      record h.span { span_length = offset }
      ∷ record h.span { span_length = h.span.span_length - offset }
      ∷ h.back in
    ap total (split_span_split xs p index offset h)
    ∙ total-append h.front cut
    ∙ omega (arith, h.inside, ap total h.splits, total-append h.front (h.span ∷ h.back))

break_at-Positive :
    (xs : List TextSpan) (p : ℕ) (r : Option (ℕ × ℕ))
    → Resolved xs 0 0 p r
    → Positive xs
    → (total (break_at r xs).1 ≡ total xs) × Positive (break_at r xs).1
unfolding break_at
break_at-Positive xs p none h positive = (refl, positive)
break_at-Positive xs p (some (index, offset)) h positive = elim (Bool-cases (offset == 0)) [
  | inl start ↦ rw start (refl, positive)
  | inr amid ↦ rw amid (
    total-split_span xs p index offset h,
    split_span-Positive xs p index offset h (above offset amid) positive,
  )
]
  where
    above : (n : ℕ) → (n == 0) ≡ false → 0 < n
    above n h = ground arith

-- A break keeps the number of bytes, and makes no empty span.
pub ensure_span_break_at-Positive :
    (p : ℕ) (xs : List TextSpan)
    → Positive xs
    → (total (ensure_span_break_at p xs).1 ≡ total xs) × Positive (ensure_span_break_at p xs).1
unfolding ensure_span_break_at
ensure_span_break_at-Positive p xs positive =
    break_at-Positive xs p (resolve_position_as_span p xs) (resolve_lem p xs) positive

total_through :
    (front : List TextSpan) (x : TextSpan) (back : List TextSpan)
    → total (take (suc (length front)) (front ++ x ∷ back)) ≡ total front + x.span_length
unfolding sum_of
total_through [] x back = omega arith
total_through (y ∷ front) x back = omega (arith, total_through front x back)

-- Each span more is a byte more at least.
total-take_mono :
    (xs : List TextSpan) (k m : ℕ)
    → Positive xs
    → k ≤ m
    → m ≤ length xs
    → total (take k xs) + (m - k) ≤ total (take m xs)
unfolding sum_of
total-take_mono xs zero zero h a b = omega arith
total-take_mono [] k (suc m) h a b = absurd (omega (arith, b))
total-take_mono (x ∷ xs) zero (suc m) h a b =
    omega (arith, h.0, total-take_mono xs 0 m h.1 (omega arith) (omega (arith, b)))
total-take_mono (x ∷ xs) (suc k) (suc m) h a b =
    omega (arith, total-take_mono xs k m h.1 (omega (arith, a)) (omega (arith, b)))
total-take_mono xs (suc k) zero h a b = absurd (omega (arith, a))

-- Where a span was found: the bytes in front of it and up to its end.
record Covers (xs : List TextSpan) (p index : ℕ) : Type 0 where
  starts : total (take index xs) ≤ p
  ends : p < total (take (suc index) xs)
  bounded : index < length xs

Found-Covers :
    (xs : List TextSpan) (p index offset : ℕ) → Found xs 0 0 p index offset → Covers xs p index
Found-Covers xs p index offset h =
    subst (λ ys. Covers ys p index) (sym h.splits)
      (subst (Covers (h.front ++ h.span ∷ h.back) p) {x = length h.front} (omega (arith, h.counts))
        (record {
          starts = omega (arith, ap total (take-append_length h.front (h.span ∷ h.back)), h.before);
          ends = omega (arith, total_through h.front h.span h.back, h.before, h.inside);
          bounded = omega (arith, length-append h.front (h.span ∷ h.back));
        }))

-- The end of a range is not in front of its start.
Covers-ordered :
    (xs : List TextSpan) (from last k m : ℕ)
    → Positive xs
    → from ≤ suc last
    → Covers xs from k
    → Covers xs last m
    → k ≤ suc m
Covers-ordered xs from last k m positive h a b = elim (Bool-cases (leb k (suc m))) [
  | inl before ↦ leb→le _ _ before
  | inr behind ↦
      let late : suc (suc m) ≤ k = late k m behind in
      absurd (
        omega (
          arith,
          total-take_mono xs (suc m) k positive (omega (arith, late)) (omega (arith, a.bounded)),
          late,
          a.starts,
          b.ends,
          h,
        ))
]
  where
    late : (k m : ℕ) → leb k (suc m) ≡ false → suc (suc m) ≤ k
    late k m h = ground arith

abbrev pub InRange : ℕ × ℕ → List TextSpan → Type 0
InRange range xs = (range.0 ≤ range.1) × (range.1 ≤ length xs)

start_of_end_of_lem :
    (xs : List TextSpan) (from to : ℕ) (r s : Option (ℕ × ℕ))
    → Positive xs
    → from ≤ to
    → from < total xs
    → Resolved xs 0 0 from r
    → Resolved xs 0 0 (to - 1) s
    → InRange (start_of r, min (end_of s (length xs)) (length xs)) xs
unfolding start_of end_of
start_of_end_of_lem xs from to none s positive h inside a b = absurd (omega (arith, a, inside))
start_of_end_of_lem xs from to (some (k, i)) none positive h inside a b =
    let c = Found-Covers xs from k i a in (omega (arith, c.bounded), omega arith)
start_of_end_of_lem xs from to (some (k, i)) (some (m, j)) positive h inside a b =
    let c = Found-Covers xs from k i a in
    let d = Found-Covers xs (to - 1) m j b in
    (
      omega (
        arith,
        c.bounded,
        d.bounded,
        Covers-ordered xs from (to - 1) k m positive (omega (arith, h)) c d,
      ),
      omega arith,
    )

-- For a range that starts in the text, the spans of `get_span_boundaries` are a range of the list.
pub get_span_boundaries-InRange :
    (xs : List TextSpan) (from to : ℕ)
    → Positive xs
    → from ≤ to
    → from < total xs
    → InRange (get_span_boundaries from to xs) xs
unfolding get_span_boundaries
get_span_boundaries-InRange xs from to positive h inside =
    start_of_end_of_lem xs from to _ _ positive h inside (resolve_lem from xs)
      (resolve_lem (to - 1) xs)
