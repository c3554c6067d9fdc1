-- ===== src/Core/Html/Tests.antt =====
-- Formatted text at the inputs of core/src/html/test.rs, and the theorems at concrete inputs.
use ruffle.Prelude.{length, ℕ, ◌≡◌, refl, [], ◌∷◌, some, none, arith, sum_of, true}
use ruffle.Core.Html.TextFormat.{
  Str, TextFormat, no_format, f64_eq, bool_eq, list_eq, str_eq, color_eq, align_eq, mix_with,
  merge_matching_properties, matching, option_eq,
}
use ruffle.Core.Html.TextSpan.{
  TextSpan, default_span, set_span_format, with_length_and_format, can_merge, span_format,
}
use ruffle.Core.Html.FormatSpans.Defs.{
  FormatSpans, resolve_loop, resolve_position_as_span, split_span, break_at, ensure_span_break_at,
  start_of, end_of, get_span_boundaries, fit_length, drop_null, merge_loop, merge_all, or_default,
  normalize,
}
use ruffle.Core.Html.FormatSpans.Edit.{
  slice, get_text_format, format_range, set_text_format, drain_insert, is_char_boundary, get_to,
  get_from, replaced_text, replaced_spans, replace_text, iter_from, iter_spans,
}
use ruffle.Core.Html.FormatSpans.Normal.{
  IsNormal, normalize-IsNormal, normalize-id, normalize-normalize,
}
use ruffle.Core.Html.FormatSpans.Breaks.{
  format_at, BreaksAt, ensure_span_break_at-format, ensure_span_break_at-BreaksAt,
}
use mathlib.Core.Option
use ruffle.Core.Html.FormatSpans.Panics.{replace_text-IsNormal, replace_text_lem}
use ruffle.Core.Html.FormatSpans.Formats.{Alike, format_or_default, normalize-Alike}
use ruffle.Core.Html.FormatSpans.Apply.{
  set_span_format-span_format, set_span_format-mix_with, replaced_spans-front,
}

-- "Same!" and "Difference!", cut to their first letters.
abbrev tf1 : TextFormat
tf1 = record no_format { font = some (83 ∷ []) }

abbrev tf2 : TextFormat
tf2 = record no_format { font = some (68 ∷ []) }

abbrev span1 : ℕ → TextSpan
span1 n = record default_span { span_length = n; font = 83 ∷ [] }

abbrev span2 : ℕ → TextSpan
span2 n = record default_span { span_length = n; font = 68 ∷ [] }

-- "abcdefghi"
abbrev letters : Str
letters = 97 ∷ 98 ∷ 99 ∷ 100 ∷ 101 ∷ 102 ∷ 103 ∷ 104 ∷ 105 ∷ []

abbrev two_spans : FormatSpans
two_spans = record { text = letters; spans = span1 5 ∷ span2 4 ∷ []; default_format = no_format }

abbrev letters_123 : Str
letters_123 = 97 ∷ 98 ∷ 99 ∷ 49 ∷ 50 ∷ 51 ∷ 103 ∷ 104 ∷ 105 ∷ []

replace_text_inbounds :
    replace_text 3 6 (49 ∷ 50 ∷ 51 ∷ []) none two_spans
    ≡ some (record two_spans { text = letters_123; spans = span1 3 ∷ span2 6 ∷ [] })
unfolding replace_text replaced_spans replaced_text get_to get_from is_char_boundary
    ensure_span_break_at break_at resolve_position_as_span resolve_loop split_span
    get_span_boundaries start_of end_of drain_insert normalize fit_length drop_null merge_all
    merge_loop or_default can_merge with_length_and_format set_span_format span_format default_span
    sum_of str_eq list_eq bool_eq color_eq f64_eq align_eq
replace_text_inbounds = refl

set_text_format_double_cut :
    set_text_format 3 7 tf2 (record two_spans { spans = span1 9 ∷ [] })
    ≡ record two_spans { spans = span1 3 ∷ span2 4 ∷ span1 2 ∷ [] }
unfolding set_text_format format_range ensure_span_break_at no_format break_at
    resolve_position_as_span resolve_loop split_span get_span_boundaries start_of end_of normalize
    fit_length drop_null merge_all merge_loop or_default can_merge set_span_format default_span
    sum_of str_eq list_eq bool_eq color_eq f64_eq align_eq
set_text_format_double_cut = refl

-- A range that takes in both spans: the font differs, the rest does not.
get_text_format_all :
    get_text_format 0 100 two_spans ≡ record (span_format (span1 0)) { font = none }
unfolding get_text_format slice get_span_boundaries resolve_position_as_span resolve_loop start_of
    end_of merge_matching_properties matching option_eq span_format str_eq list_eq bool_eq color_eq
    f64_eq align_eq default_span
get_text_format_all = refl

-- Spans that are too short for their text, with an empty one amid and two of the same format.
abbrev untidy : FormatSpans
untidy = record two_spans { spans = span1 0 ∷ span1 2 ∷ span2 0 ∷ span1 1 ∷ span2 4 ∷ [] }

iter_spans_two :
    iter_spans two_spans
    ≡ (0, 5, 97 ∷ 98 ∷ 99 ∷ 100 ∷ 101 ∷ [], span1 5)
      ∷ (5, 9, 102 ∷ 103 ∷ 104 ∷ 105 ∷ [], span2 4)
      ∷ []
unfolding iter_spans iter_from is_char_boundary
iter_spans_two = refl

two_spans-IsNormal : IsNormal 9 two_spans.spans
unfolding can_merge str_eq list_eq sum_of
two_spans-IsNormal = record {
  covers = refl;
  separate = (refl, tt);
  positive = λ h. (omega arith, (omega arith, tt));
  single = λ h. absurd (omega (arith, h));
}

normalize-IsNormal_example :
    ((normalize untidy).text ≡ letters) × IsNormal 9 (normalize untidy).spans
normalize-IsNormal_example = normalize-IsNormal untidy

normalize-id_example : normalize two_spans ≡ two_spans
normalize-id_example = normalize-id two_spans (omega arith) two_spans-IsNormal

normalize-normalize_example : normalize (normalize untidy) ≡ normalize untidy
normalize-normalize_example = normalize-normalize untidy

ensure_span_break_at-format_example :
    format_at (ensure_span_break_at 7 two_spans.spans).1 8 ≡ format_at two_spans.spans 8
ensure_span_break_at-format_example = ensure_span_break_at-format 7 two_spans.spans 8

ensure_span_break_at-BreaksAt_example : BreaksAt 7 (ensure_span_break_at 7 two_spans.spans)
ensure_span_break_at-BreaksAt_example = ensure_span_break_at-BreaksAt 7 two_spans.spans

set_span_format-span_format_example :
    set_span_format (span_format (record (span1 3) { bold = true })) (span2 4)
    ≡ record (span1 4) { bold = true; bullet = true }
set_span_format-span_format_example =
    set_span_format-span_format (record (span1 3) { bold = true }) (span2 4)

set_span_format-mix_with_example :
    set_span_format (mix_with tf1 tf2) (span2 3)
    ≡ set_span_format tf1 (set_span_format tf2 (span2 3))
set_span_format-mix_with_example = set_span_format-mix_with tf1 tf2 (span2 3)

replaced_spans-front_example :
    replaced_spans 0 0 (120 ∷ []) (some tf2) two_spans
    ≡ some (with_length_and_format 1 tf2 ∷ span2 4 ∷ [])
replaced_spans-front_example =
    replaced_spans-front letters (120 ∷ []) tf2 no_format (span1 5) (span2 4 ∷ []) (omega arith)
      (omega arith)

replace_text-IsNormal_example :
    (result : FormatSpans) × (replace_text 3 7 (49 ∷ []) none two_spans ≡ some result)
    × IsNormal (length result.text) result.spans
replace_text-IsNormal_example =
    replace_text-IsNormal 3 7 (49 ∷ []) none two_spans two_spans-IsNormal

replace_text_lem_example :
    Option.map (λ result. result.text) (replace_text 3 6 (49 ∷ 50 ∷ 51 ∷ []) none two_spans)
    ≡ some letters_123
unfolding is_char_boundary
replace_text_lem_example =
    replace_text_lem 3 6 (49 ∷ 50 ∷ 51 ∷ []) none two_spans two_spans-IsNormal (omega arith)
      (omega arith) refl refl

normalize-Alike_example :
    Alike
      (format_at (normalize untidy).spans 6)
      (format_or_default untidy.default_format untidy.spans 6)
normalize-Alike_example = normalize-Alike untidy 6 (omega arith)
