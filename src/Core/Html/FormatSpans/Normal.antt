-- ===== src/Core/Html/FormatSpans/Normal.antt =====
-- The normal form of formatted text: what `normalize` establishes, and that it changes nothing
-- there (core/src/html/text_format.rs).
use ruffle.Prelude.{
  ℕ, zero, suc, ◌+◌, ◌<◌, ◌≡◌, refl, sym, ap, ◌∙◌, false, ◌||◌, List, [], ◌∷◌, arith, ◌==◌, length,
  sum_of, Bool-cases, inl, inr,
}
use ruffle.Core.Html.TextFormat.{TextFormat}
use ruffle.Core.Html.TextSpan.{TextSpan, with_length_and_format, can_merge}
use ruffle.Core.Html.FormatSpans.Defs.{
  FormatSpans, total, fit_length, drop_null, merge_loop, merge_all, or_default, normalize,
}
use ruffle.Core.Html.FormatSpans.Normalize.{
  total-fit_length, total-drop_null, total-merge_all, total-or_default, Positive, Separate,
  HeadPositive, drop_null-HeadPositive, merge_loop-Positive, merge_loop-Separate, or_left,
}

-- The spans of a text of `len` bytes: they cover it, no two neighbours have the same format, and
-- each has a length, unless the text is empty: then there is one span.
pub record IsNormal (len : ℕ) (spans : List TextSpan) : Type 0 where
  pub covers : total spans ≡ len
  pub separate : Separate spans
  pub positive : 0 < len → Positive spans
  pub single : len ≡ 0 → length spans ≡ 1

Positive-covers : (x : TextSpan) (xs : List TextSpan) → Positive (x ∷ xs) → 0 < total (x ∷ xs)
unfolding sum_of
Positive-covers x xs h = omega (arith, h.0)

or_default-IsNormal :
    (len : ℕ) (tf : TextFormat) (xs : List TextSpan)
    → total xs ≡ len
    → Positive xs
    → Separate xs
    → IsNormal len (or_default len tf xs)
unfolding or_default sum_of
or_default-IsNormal len tf [] covers positive separate = record {
  covers = total-or_default len tf [] covers;
  separate = tt;
  positive = λ h. omega (arith, covers, h);
  single = λ _. refl;
}
or_default-IsNormal len tf (x ∷ xs) covers positive separate = record {
  covers = covers;
  separate = separate;
  positive = λ _. positive;
  single = λ h. omega (arith, Positive-covers x xs positive, covers, h);
}

merge_all-Positive : (xs : List TextSpan) → HeadPositive xs → Positive (merge_all xs)
unfolding merge_all
merge_all-Positive [] h = tt
merge_all-Positive (x ∷ xs) h = merge_loop-Positive xs x h

merge_all-Separate : (xs : List TextSpan) → Separate (merge_all xs)
unfolding merge_all merge_loop
merge_all-Separate [] = tt
merge_all-Separate (x ∷ xs) = alone xs x
  where
    alone : (xs : List TextSpan) (x : TextSpan) → Separate (merge_loop x xs)
    alone [] x = tt
    alone (y ∷ ys) x = elim (Bool-cases (can_merge x y || (y.span_length == 0))) [
      | inl merges ↦ rw merges (alone ys (record x { span_length = x.span_length + y.span_length }))
      | inr stays ↦ rw stays (merge_loop-Separate ys x y (or_left _ _ stays))
    ]

normalized : ℕ → TextFormat → List TextSpan → List TextSpan
normalized len tf xs = or_default len tf (merge_all (drop_null (fit_length len tf xs)))

normalized-IsNormal :
    (len : ℕ) (tf : TextFormat) (xs : List TextSpan) → IsNormal len (normalized len tf xs)
unfolding normalized
normalized-IsNormal len tf xs =
    let fit : List TextSpan = drop_null (fit_length len tf xs) in
    or_default-IsNormal len tf (merge_all fit)
      (total-merge_all fit ∙ total-drop_null (fit_length len tf xs) ∙ total-fit_length len tf xs)
      (merge_all-Positive fit (drop_null-HeadPositive (fit_length len tf xs)))
      (merge_all-Separate fit)

-- Whatever the spans were before, `normalize` leaves the text as it was, with spans that cover it,
-- no two neighbours of the same format, and none without length unless the text is empty: then
-- there is exactly one span.
pub normalize-IsNormal :
    (self : FormatSpans)
    → ((normalize self).text ≡ self.text) × IsNormal (length self.text) (normalize self).spans
unfolding normalize normalized
normalize-IsNormal self =
    (refl, normalized-IsNormal (length self.text) self.default_format self.spans)

fit_length-id :
    (len : ℕ) (tf : TextFormat) (xs : List TextSpan) → total xs ≡ len → fit_length len tf xs ≡ xs
unfolding fit_length
fit_length-id len tf xs h = ground arith

drop_null-id : (xs : List TextSpan) → Positive xs → drop_null xs ≡ xs
unfolding drop_null
drop_null-id [] h = refl
drop_null-id (x ∷ xs) h = ground (arith, h.0)

drop_null-nil : (xs : List TextSpan) → total xs ≡ 0 → drop_null xs ≡ []
unfolding drop_null sum_of
drop_null-nil [] h = refl
drop_null-nil (x ∷ xs) h = ground (arith, drop_null-nil xs)

merge_loop-id :
    (x : TextSpan) (xs : List TextSpan) → Positive xs → Separate (x ∷ xs) → merge_loop x xs ≡ x ∷ xs
unfolding merge_loop
merge_loop-id x [] h separate = refl
merge_loop-id x (y ∷ ys) h separate =
    rw (separate.0, long y.span_length h.0) (ap (λ t. x ∷ t) (merge_loop-id y ys h.1 separate.1))
  where
    long : (n : ℕ) → 0 < n → (n == 0) ≡ false
    long n h = ground arith

merge_all-id : (xs : List TextSpan) → Positive xs → Separate xs → merge_all xs ≡ xs
unfolding merge_all
merge_all-id [] h separate = refl
merge_all-id (x ∷ xs) h separate = merge_loop-id x xs h.1 separate

pub or_default-id :
    (len : ℕ) (tf : TextFormat) (xs : List TextSpan) → 0 < total xs → or_default len tf xs ≡ xs
unfolding or_default sum_of
or_default-id len tf [] h = ground (arith, h)
or_default-id len tf (x ∷ xs) h = refl

normalized-id :
    (len : ℕ) (tf : TextFormat) (xs : List TextSpan)
    → 0 < len
    → IsNormal len xs
    → normalized len tf xs ≡ xs
unfolding normalized
normalized-id len tf xs h normal =
    ap (λ t. or_default len tf (merge_all (drop_null t))) (fit_length-id len tf xs normal.covers)
    ∙ ap (λ t. or_default len tf (merge_all t)) (drop_null-id xs (normal.positive h))
    ∙ ap (or_default len tf) (merge_all-id xs (normal.positive h) normal.separate)
    ∙ or_default-id len tf xs (omega (arith, normal.covers, h))

normalized-empty :
    (tf : TextFormat) (xs : List TextSpan) → normalized 0 tf xs ≡ with_length_and_format 0 tf ∷ []
unfolding normalized merge_all or_default
normalized-empty tf xs =
    ap (λ t. or_default 0 tf (merge_all t))
      (drop_null-nil (fit_length 0 tf xs) (total-fit_length 0 tf xs))

normalized-normalized :
    (len : ℕ) (tf : TextFormat) (xs : List TextSpan)
    → normalized len tf (normalized len tf xs) ≡ normalized len tf xs
normalized-normalized zero tf xs =
    normalized-empty tf (normalized 0 tf xs) ∙ sym (normalized-empty tf xs)
normalized-normalized (suc len) tf xs =
    normalized-id (suc len) tf (normalized (suc len) tf xs) (omega arith)
      (normalized-IsNormal (suc len) tf xs)

-- Formatted text that is normal, and not empty, is not changed by `normalize`.
pub normalize-id :
    (self : FormatSpans)
    → 0 < length self.text
    → IsNormal (length self.text) self.spans
    → normalize self ≡ self
unfolding normalize normalized
normalize-id self h normal =
    ap (λ t. record self { spans = t })
      (normalized-id (length self.text) self.default_format self.spans h normal)

-- Doing `normalize` twice is the same as doing it once.
pub normalize-normalize : (self : FormatSpans) → normalize (normalize self) ≡ normalize self
unfolding normalize normalized
normalize-normalize self =
    ap (λ t. record self { spans = t })
      (normalized-normalized (length self.text) self.default_format self.spans)
