-- ===== src/Core/Html/FormatSpans/Apply.antt =====
-- Formats applied to spans and read back (core/src/html/text_format.rs).
use ruffle.Prelude.{
  ℕ, ◌+◌, ◌<◌, ◌≡◌, refl, ap, true, List, ◌∷◌, Option, some, none, arith, ltb, lt→ltb, length,
}
use ruffle.Core.Html.TextFormat.{Str, TextFormat, mix_with, option_or}
use ruffle.Core.Html.TextSpan.{
  TextSpan, set_span_format, or_keep, span_format, with_length_and_format,
}
use ruffle.Core.Html.FormatSpans.Defs.{
  resolve_position_as_span, resolve_loop, ensure_span_break_at, break_at, get_span_boundaries,
  start_of, end_of,
}
use ruffle.Core.Html.FormatSpans.Edit.{replaced_spans, drain_insert}

or_keep-option_or :
    {A : Type 0} (x y : Option A) (z : A) → or_keep (option_or x y) z ≡ or_keep x (or_keep y z)
or_keep-option_or none y z = refl
or_keep-option_or (some x) y z = refl

-- A format read from a span and applied to another one, of any format, makes it a span of the same
-- format, except that the bullet becomes the first span's `bold`.
pub set_span_format-span_format :
    (source target : TextSpan)
    → set_span_format (span_format source) target
      ≡ record source { span_length = target.span_length; bullet = source.bold }
unfolding set_span_format span_format
set_span_format-span_format source target = refl

-- To apply two formats mixed is to apply the second one and then the first.
pub set_span_format-mix_with :
    (first second : TextFormat) (span : TextSpan)
    → set_span_format (mix_with first second) span
      ≡ set_span_format first (set_span_format second span)
unfolding set_span_format mix_with
set_span_format-mix_with first second span = simp or_keep-option_or

resolve-front :
    (x : TextSpan) (xs : List TextSpan)
    → 0 < x.span_length
    → resolve_position_as_span 0 (x ∷ xs) ≡ some (0, 0)
unfolding resolve_position_as_span resolve_loop
resolve-front x xs h = rw (starts x.span_length h) refl
  where
    starts : (n : ℕ) → 0 < n → ltb 0 (0 + n) ≡ true
    starts n h = ground arith

break-front :
    (x : TextSpan) (xs : List TextSpan)
    → 0 < x.span_length
    → ensure_span_break_at 0 (x ∷ xs) ≡ (some 0, x ∷ xs)
unfolding ensure_span_break_at break_at
break-front x xs h = rw (resolve-front x xs h) refl

boundaries-front :
    (x : TextSpan) (xs : List TextSpan)
    → 0 < x.span_length
    → get_span_boundaries 0 0 (x ∷ xs) ≡ (0, 1)
unfolding get_span_boundaries start_of end_of
boundaries-front x xs h = rw (resolve-front x xs h) (ap (λ n. (0, n)) (omega arith))

-- An insertion with a format at the start of a text that is not empty takes the first span away, if
-- that has a length: the span of the insertion stands in its place.
pub replaced_spans-front :
    (text with : Str) (new_tf default_format : TextFormat) (x : TextSpan) (xs : List TextSpan)
    → 0 < length text
    → 0 < x.span_length
    → replaced_spans 0 0 with
        (some new_tf)
        (record { text = text; spans = x ∷ xs; default_format = default_format })
      ≡ some (with_length_and_format (length with) new_tf ∷ xs)
unfolding replaced_spans drain_insert
replaced_spans-front text with new_tf default_format x xs h long =
    rw (break-front x xs long, break-front x xs long, boundaries-front x xs long, lt→ltb _ _ h)
      (ground arith)
