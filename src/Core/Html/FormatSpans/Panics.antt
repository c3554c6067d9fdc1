-- ===== src/Core/Html/FormatSpans/Panics.antt =====
-- `replace_text` and the cases in which it could panic (core/src/html/text_format.rs).
use ruffle.Prelude.{
  ℕ, ◌≤◌, ◌<◌, ◌≡◌, refl, sym, ap, true, false, List, ◌∷◌, ◌++◌, Option, some, arith, ltb, length,
  take, drop, Bool-cases, inl, inr, ltb→lt, le→leb, le→ltb, subst,
}
use mathlib.Core.Option
use ruffle.Core.Html.TextFormat.{Str, TextFormat}
use ruffle.Core.Html.TextSpan.{TextSpan}
use ruffle.Core.Html.FormatSpans.Defs.{FormatSpans, ensure_span_break_at, normalize}
use ruffle.Core.Html.FormatSpans.Edit.{
  get_to, get_from, is_char_boundary, drain_insert, replaced_text, replaced_spans, replace_text,
}
use ruffle.Core.Html.FormatSpans.Normal.{IsNormal, normalize-IsNormal}
use ruffle.Core.Html.FormatSpans.Ranges.{
  InRange, ensure_span_break_at-Positive, get_span_boundaries-InRange,
}

drain_insert-InRange :
    (range : ℕ × ℕ) (span : TextSpan) (xs : List TextSpan)
    → InRange range xs
    → drain_insert range.0 range.1 span xs ≡ some (take range.0 xs ++ span ∷ drop range.1 xs)
unfolding drain_insert
drain_insert-InRange range span xs h =
    rw (le→leb range.0 range.1 h.0, le→leb range.1 (length xs) h.1) refl

replaced_spans-some :
    (from to : ℕ) (with : Str) (new_tf : Option TextFormat) (self : FormatSpans)
    → IsNormal (length self.text) self.spans
    → from ≤ to
    → (ys : List TextSpan) × (replaced_spans from to with new_tf self ≡ some ys)
unfolding replaced_spans
replaced_spans-some from to with new_tf self normal h =
    elim (Bool-cases (ltb from (length self.text))) [
      | inl inside ↦
          let less : from < length self.text = ltb→lt _ _ inside in
          let once =
            ensure_span_break_at-Positive from self.spans (normal.positive (omega (arith, less))) in
          let twice =
            ensure_span_break_at-Positive to (ensure_span_break_at from self.spans).1 once.1 in
          rw inside (
            _,
            drain_insert-InRange _ _ _ (
                get_span_boundaries-InRange _ from to twice.1 h
                  (omega (arith, less, twice.0, once.0, normal.covers))),
          )
      | inr outside ↦ rw outside (_, refl)
    ]

-- Formatted text that `replace_text` may return.
Returned : Option FormatSpans → Type 0
Returned r = (result : FormatSpans) × (r ≡ some result) × IsNormal (length result.text) result.spans

normalized-Returned : (self : FormatSpans) → Returned (some (normalize self))
unfolding Returned
normalized-Returned self =
    let normal = normalize-IsNormal self in
    (
      normalize self,
      refl,
      subst (λ text. IsNormal (length text) (normalize self).spans) (sym (normal.0)) (normal.1),
    )

-- On normal formatted text `replace_text` does not panic, whatever the range: it returns formatted
-- text, and that is normal again.
pub replace_text-IsNormal :
    (from to : ℕ) (with : Str) (new_tf : Option TextFormat) (self : FormatSpans)
    → IsNormal (length self.text) self.spans
    → (result : FormatSpans) × (replace_text from to with new_tf self ≡ some result)
      × IsNormal (length result.text) result.spans
unfolding replace_text Returned
replace_text-IsNormal from to with new_tf self normal = elim (Bool-cases (ltb to from)) [
  | inl degenerate ↦ rw degenerate (self, refl, normal)
  | inr range ↦
      let spans = replaced_spans-some from to with new_tf self normal (in_order _ _ range) in
      rw (range, spans.1)
        (normalized-Returned
          (record self { text = replaced_text from to with self.text; spans = spans.0 }))
]
  where
    in_order : (m n : ℕ) → ltb m n ≡ false → n ≤ m
    in_order m n h = ground arith

replaced_text_between :
    (from to : ℕ) (with text : Str)
    → from ≤ length text
    → to ≤ length text
    → is_char_boundary from text ≡ true
    → is_char_boundary to text ≡ true
    → replaced_text from to with text ≡ (take from text ++ with) ++ drop to text
unfolding replaced_text get_to get_from
replaced_text_between from to with text a b c d =
    rw (le→leb from (length text) a, le→leb to (length text) b, c, d) refl

-- Where the range is one of the text and cuts no character, the text that `replace_text` returns is
-- the old one with the range replaced.
pub replace_text_lem :
    (from to : ℕ) (with : Str) (new_tf : Option TextFormat) (self : FormatSpans)
    → IsNormal (length self.text) self.spans
    → from ≤ to
    → to ≤ length self.text
    → is_char_boundary from self.text ≡ true
    → is_char_boundary to self.text ≡ true
    → Option.map (λ result. result.text) (replace_text from to with new_tf self)
      ≡ some ((take from self.text ++ with) ++ drop to self.text)
unfolding replace_text normalize
replace_text_lem from to with new_tf self normal h b c d =
    rw (le→ltb to from h, (replaced_spans-some from to with new_tf self normal h).1)
      (ap some (replaced_text_between from to with self.text (omega (arith, h, b)) b c d))
