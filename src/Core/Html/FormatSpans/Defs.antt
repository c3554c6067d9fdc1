-- ===== src/Core/Html/FormatSpans/Defs.antt =====
-- Formatted text (core/src/html/text_format.rs): a string with the spans that format it.
use ruffle.Prelude.{
  ℕ, zero, suc, ◌+◌, ◌-◌, ◌||◌, List, [], ◌∷◌, ◌++◌, Option, some, none, ltb, ◌==◌, if◌then◌else◌,
  length, sum_of, min,
}
use mathlib.Core.List.{reverse}
use ruffle.Core.Html.TextFormat.{Str, TextFormat, no_format, mix_with}
use ruffle.Core.Html.TextSpan.{TextSpan, default_span, with_length_and_format, can_merge}

pub record FormatSpans : Type 0 where
  pub text : Str
  pub spans : List TextSpan
  pub default_format : TextFormat

unfoldable pub new : FormatSpans
new = record { text = []; spans = default_span ∷ []; default_format = no_format }

unfoldable pub from_str_and_spans : Str → List TextSpan → FormatSpans
from_str_and_spans text spans = record { text = text; spans = spans; default_format = no_format }

unfoldable pub set_default_format : TextFormat → FormatSpans → FormatSpans
set_default_format tf self = record self { default_format = mix_with tf self.default_format }

-- The sum of the lengths, as `normalize` computes it.
abbrev pub total : List TextSpan → ℕ
total spans = sum_of (λ s. s.span_length) spans

-- The loop of `resolve_position_as_span` at `index`, with `position` bytes before it.
unfoldable pub resolve_loop : List TextSpan → ℕ → ℕ → ℕ → Option (ℕ × ℕ)
resolve_loop [] index position search_pos = none
resolve_loop (span ∷ spans) index position search_pos =
    if ltb search_pos (position + span.span_length)
    then some (index, search_pos - position)
    else resolve_loop spans (index + 1) (position + span.span_length) search_pos

unfoldable pub resolve_position_as_span : ℕ → List TextSpan → Option (ℕ × ℕ)
resolve_position_as_span search_pos spans = resolve_loop spans 0 0 search_pos

-- Cut the span at `index` after `break_index` bytes: the span is shortened and the rest inserted
-- behind it.
unfoldable pub split_span : ℕ → ℕ → List TextSpan → List TextSpan
split_span index break_index [] = []
split_span zero break_index (first_span ∷ spans) =
    record first_span { span_length = break_index }
    ∷ record first_span { span_length = first_span.span_length - break_index }
    ∷ spans
split_span (suc index) break_index (span ∷ spans) = span ∷ split_span index break_index spans

unfoldable pub break_at : Option (ℕ × ℕ) → List TextSpan → Option ℕ × List TextSpan
break_at none spans = (none, spans)
break_at (some (first_span_pos, break_index)) spans =
    if break_index == 0
    then (some first_span_pos, spans)
    else (some (first_span_pos + 1), split_span first_span_pos break_index spans)

unfoldable pub ensure_span_break_at : ℕ → List TextSpan → Option ℕ × List TextSpan
unfolding break_at
ensure_span_break_at search_pos spans = break_at (resolve_position_as_span search_pos spans) spans

unfoldable pub start_of : Option (ℕ × ℕ) → ℕ
start_of (some (pos, i)) = pos
start_of none = 0

unfoldable pub end_of : Option (ℕ × ℕ) → ℕ → ℕ
end_of (some (pos, i)) len = pos + 1
end_of none len = len

unfoldable pub get_span_boundaries : ℕ → ℕ → List TextSpan → ℕ × ℕ
unfolding start_of end_of
get_span_boundaries from to spans = (
  start_of (resolve_position_as_span from spans),
  min (end_of (resolve_position_as_span (to - 1) spans) (length spans)) (length spans),
)

-- The `while` loop that takes `deficiency` bytes off the end; the vector is seen from its end.
unfoldable pub trim_loop : List TextSpan → ℕ → List TextSpan
trim_loop [] deficiency = []
trim_loop (last ∷ spans) deficiency =
    let rest = trim_loop spans (deficiency - last.span_length) in
    if deficiency == 0
    then last ∷ spans
    else if ltb deficiency last.span_length
    then record last { span_length = last.span_length - deficiency } ∷ spans
    else rest

-- The lengths are made to match the text.
unfoldable pub fit_length : ℕ → TextFormat → List TextSpan → List TextSpan
fit_length len default_format spans =
    if ltb (total spans) len
    then spans ++ with_length_and_format (len - total spans) default_format ∷ []
    else if ltb len (total spans)
    then reverse (trim_loop (reverse spans) (total spans - len))
    else spans

-- Leading spans without length are removed.
unfoldable pub drop_null : List TextSpan → List TextSpan
drop_null [] = []
drop_null (span ∷ spans) = if span.span_length == 0 then drop_null spans else span ∷ spans

-- The loop that merges spans: `current` is the span at `i`, and the list is what follows it.
unfoldable pub merge_loop : TextSpan → List TextSpan → List TextSpan
merge_loop current [] = current ∷ []
merge_loop current (next ∷ rest) =
    let merged =
      merge_loop (record current { span_length = current.span_length + next.span_length }) rest in
    let separate = current ∷ merge_loop next rest in
    if can_merge current next || (next.span_length == 0) then merged else separate

unfoldable pub merge_all : List TextSpan → List TextSpan
unfolding merge_loop
merge_all [] = []
merge_all (span ∷ spans) = merge_loop span spans

-- There is always a span.
unfoldable pub or_default : ℕ → TextFormat → List TextSpan → List TextSpan
or_default len default_format [] = with_length_and_format len default_format ∷ []
or_default len default_format (span ∷ spans) = span ∷ spans

unfoldable pub normalize : FormatSpans → FormatSpans
normalize self =
    let len = length self.text in
    record self {
      spans =
          or_default len self.default_format
            (merge_all (drop_null (fit_length len self.default_format self.spans)));
    }
