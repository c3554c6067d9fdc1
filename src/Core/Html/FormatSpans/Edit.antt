-- ===== src/Core/Html/FormatSpans/Edit.antt =====
-- Reading and changing formatted text (core/src/html/text_format.rs, core/src/html/iterators.rs).
use ruffle.Prelude.{
  ℕ, zero, suc, ◌+◌, ◌-◌, ◌/◌, Bool, true, ◌&&◌, not, List, [], ◌∷◌, ◌++◌, Option, some, none, ltb,
  leb, ◌==◌, if◌then◌else◌, length, get_elem?, take, drop, min,
}
use mathlib.Core.List.{foldl}
use mathlib.Core.Option
use ruffle.Core.Html.TextFormat.{Str, TextFormat, no_format, merge_matching_properties, option_or}
use ruffle.Core.Html.TextSpan.{TextSpan, set_span_format, with_length_and_format, span_format}
use ruffle.Core.Html.FormatSpans.Defs.{
  FormatSpans, ensure_span_break_at, get_span_boundaries, normalize,
}

-- `vec.get(start..stop)`: out of range it is `None`.
unfoldable pub slice : {A : Type 0} → ℕ → ℕ → List A → Option (List A)
slice start stop xs =
    if leb start stop && leb stop (length xs)
    then some (take (stop - start) (drop start xs))
    else none

merge_formats : Option (List TextSpan) → TextFormat → TextFormat
merge_formats none fmt = fmt
merge_formats (some spans) fmt =
    foldl (λ merged span. merge_matching_properties merged (span_format span)) fmt spans

format_from : Option TextSpan → Option (List TextSpan) → TextFormat
unfolding merge_formats
format_from none spans = no_format
format_from (some start_span) spans = merge_formats spans (span_format start_span)

unfoldable pub get_text_format : ℕ → ℕ → FormatSpans → TextFormat
unfolding format_from slice
get_text_format from to self =
    let (start_pos, end_pos) = get_span_boundaries from to self.spans in
    format_from (get_elem? self.spans start_pos) (slice (start_pos + 1) end_pos self.spans)

-- The spans from `start` up to `stop` take the format. The loop has no effect if the range is not
-- one of the vector.
unfoldable pub format_range : ℕ → ℕ → TextFormat → List TextSpan → List TextSpan
format_range start stop fmt [] = []
format_range zero zero fmt (span ∷ spans) = span ∷ spans
format_range zero (suc stop) fmt (span ∷ spans) =
    set_span_format fmt span ∷ format_range zero stop fmt spans
format_range (suc start) zero fmt (span ∷ spans) = span ∷ spans
format_range (suc start) (suc stop) fmt (span ∷ spans) = span ∷ format_range start stop fmt spans

unfoldable pub set_text_format : ℕ → ℕ → TextFormat → FormatSpans → FormatSpans
set_text_format from to fmt self =
    let spans = (ensure_span_break_at to (ensure_span_break_at from self.spans).1).1 in
    let (start_pos, end_pos) = get_span_boundaries from to spans in
    normalize (record self {
      spans =
          if leb start_pos end_pos && leb end_pos (length spans)
          then format_range start_pos end_pos fmt spans
          else spans;
    })

-- `vec.drain(start..stop)` and `vec.insert(start, span)`; `none` is a panic.
unfoldable pub drain_insert : ℕ → ℕ → TextSpan → List TextSpan → Option (List TextSpan)
drain_insert start stop span spans =
    if leb start stop && leb stop (length spans)
    then some (take start spans ++ span ∷ drop stop spans)
    else none

boundary_byte : Option ℕ → Bool → Bool
boundary_byte (some b) at_end = not (b / 64 == 2)
boundary_byte none at_end = at_end

-- `str::is_char_boundary`: an end of the string, or a byte that does not continue a character.
unfoldable pub is_char_boundary : ℕ → Str → Bool
unfolding boundary_byte
is_char_boundary zero text = true
is_char_boundary (suc i) text = boundary_byte (get_elem? text (suc i)) (suc i == length text)

-- `text.get(0..from)` and `text.get(to..)`
unfoldable pub get_to : ℕ → Str → Option Str
get_to from text =
    if leb from (length text) && is_char_boundary from text then some (take from text) else none

unfoldable pub get_from : ℕ → Str → Option Str
get_from to text =
    if leb to (length text) && is_char_boundary to text then some (drop to text) else none

-- The text that `replace_text` puts together.
unfoldable pub replaced_text : ℕ → ℕ → Str → Str → Str
unfolding get_to get_from
replaced_text from to with text =
    (Option.get_or (get_to from text) text ++ with) ++ Option.get_or (get_from to text) []

unfoldable pub replaced_spans :
    ℕ → ℕ → Str → Option TextFormat → FormatSpans → Option (List TextSpan)
replaced_spans from to with new_tf self =
    let spans = (ensure_span_break_at to (ensure_span_break_at from self.spans).1).1 in
    let (start_pos, end_pos) = get_span_boundaries from to spans in
    let fmt =
      Option.get_or (option_or new_tf (Option.map span_format (get_elem? spans end_pos)))
        self.default_format in
    if ltb from (length self.text)
    then drain_insert start_pos end_pos (with_length_and_format (length with) fmt) spans
    else some (
        self.spans
        ++ with_length_and_format (length with) (Option.get_or new_tf self.default_format) ∷ [])

unfoldable pub replace_text : ℕ → ℕ → Str → Option TextFormat → FormatSpans → Option FormatSpans
replace_text from to with new_tf self =
    if ltb to from
    then some self
    else Option.map
        (λ spans.
          normalize (record self { text = replaced_text from to with self.text; spans = spans }))
        (replaced_spans from to with new_tf self)

-- `TextSpanIter::next`, run to its end: each span with the range of the text that it covers. It ends
-- early where a range cuts a character.
unfoldable pub iter_from : ℕ → Str → List TextSpan → List (ℕ × ℕ × Str × TextSpan)
iter_from start_pos text [] = []
iter_from start_pos text (span ∷ spans) =
    let start = min start_pos (length text) in
    let stop = min (start_pos + span.span_length) (length text) in
    let rest = iter_from stop text spans in
    if is_char_boundary start text && is_char_boundary stop text
    then (start, stop, take (stop - start) (drop start text), span) ∷ rest
    else []

unfoldable pub iter_spans : FormatSpans → List (ℕ × ℕ × Str × TextSpan)
iter_spans self = iter_from 0 self.text self.spans
