-- ===== src/Core/Html/FormatSpans/Breaks.antt =====
-- Positions in formatted text, and the breaks between spans at them
-- (`resolve_position_as_span` and `ensure_span_break_at` of core/src/html/text_format.rs).
use ruffle.Prelude.{
  ℕ, ◌+◌, ◌-◌, ◌≤◌, ◌<◌, ◌≡◌, refl, sym, ap, ◌∙◌, true, false, List, [], ◌∷◌, ◌++◌, Option, some,
  none, arith, ltb, ◌==◌, if◌then◌else◌, length, take, sum_of, Bool-cases, inl, inr, ltb→lt,
  take-append_length, length-append,
}
use mathlib.Core.List.{append_assoc}
use ruffle.Core.Html.TextSpan.{TextSpan}
use ruffle.Core.Html.FormatSpans.Defs.{
  total, resolve_loop, resolve_position_as_span, split_span, break_at, ensure_span_break_at,
}
use ruffle.Core.Html.FormatSpans.Normalize.{total-append}

-- The format of the byte at `i`: its span, without regard to the span's length.
abbrev pub format_at : List TextSpan → ℕ → Option TextSpan
format_at [] i = none
format_at (span ∷ spans) i =
    if ltb i span.span_length
    then some (record span { span_length = 0 })
    else format_at spans (i - span.span_length)

-- The byte at `search_pos` is the byte `offset` of the span at `index`.
pub record Found (spans : List TextSpan) (first position search_pos index offset : ℕ) : Type 0 where
  pub front : List TextSpan
  pub span : TextSpan
  pub back : List TextSpan
  pub splits : spans ≡ front ++ span ∷ back
  pub counts : first + length front ≡ index
  pub before : position + total front + offset ≡ search_pos
  pub inside : offset < span.span_length

abbrev pub Resolved : List TextSpan → ℕ → ℕ → ℕ → Option (ℕ × ℕ) → Type 0
Resolved spans first position search_pos none = position + total spans ≤ search_pos
Resolved spans first position search_pos (some (index, offset)) =
    Found spans first position search_pos index offset

Resolved-cons :
    (x : TextSpan) (xs : List TextSpan) (first position search_pos : ℕ) (r : Option (ℕ × ℕ))
    → Resolved xs (first + 1) (position + x.span_length) search_pos r
    → Resolved (x ∷ xs) first position search_pos r
unfolding sum_of
Resolved-cons x xs first position search_pos none h = omega (arith, h)
Resolved-cons x xs first position search_pos (some (index, offset)) h = record {
  front = x ∷ h.front;
  span = h.span;
  back = h.back;
  splits = ap (λ t. x ∷ t) h.splits;
  counts = omega (arith, h.counts);
  before = omega (arith, h.before);
  inside = h.inside;
}

resolve_loop-Resolved :
    (xs : List TextSpan) (first position search_pos : ℕ)
    → position ≤ search_pos
    → Resolved xs first position search_pos (resolve_loop xs first position search_pos)
unfolding resolve_loop sum_of
resolve_loop-Resolved [] first position search_pos h = omega (arith, h)
resolve_loop-Resolved (x ∷ xs) first position search_pos h =
    elim (Bool-cases (ltb search_pos (position + x.span_length))) [
      | inl here ↦ rw here (record {
        front = [];
        span = x;
        back = xs;
        splits = refl;
        counts = omega arith;
        before = omega (arith, h);
        inside = omega (arith, h, ltb→lt _ _ here);
      })
      | inr further ↦ rw further (
          Resolved-cons x xs first position search_pos _ (
            resolve_loop-Resolved xs (first + 1) (position + x.span_length) search_pos
              (at_least _ _ further)))
    ]
  where
    at_least : (m n : ℕ) → ltb m n ≡ false → n ≤ m
    at_least m n h = ground arith

pub resolve_lem : (p : ℕ) (xs : List TextSpan) → Resolved xs 0 0 p (resolve_position_as_span p xs)
unfolding resolve_position_as_span
resolve_lem p xs = resolve_loop-Resolved xs 0 0 p (omega arith)

-- What stands behind the same spans is looked up alike.
format_at-append :
    (front xs ys : List TextSpan)
    → ((i : ℕ) → format_at xs i ≡ format_at ys i)
    → (i : ℕ) → format_at (front ++ xs) i ≡ format_at (front ++ ys) i
format_at-append [] xs ys h i = h i
format_at-append (x ∷ front) xs ys h i =
    ap (λ t. if ltb i x.span_length then some (record x { span_length = 0 }) else t)
      (format_at-append front xs ys h (i - x.span_length))

split_span-append :
    (front : List TextSpan) (x : TextSpan) (back : List TextSpan) (n : ℕ)
    → split_span (length front) n (front ++ x ∷ back)
      ≡ front ++ record x { span_length = n } ∷ record x { span_length = x.span_length - n } ∷ back
unfolding split_span
split_span-append [] x back n = refl
split_span-append (y ∷ front) x back n = ap (λ t. y ∷ t) (split_span-append front x back n)

cut_twice :
    {A : Type 0} (c : A) (f : ℕ → A) (m n i : ℕ)
    → n < m
    → (if ltb i n then c else if ltb (i - n) (m - n) then c else f (i - n - (m - n)))
      ≡ (if ltb i m then c else f (i - m))
cut_twice c f m n i h = elim (Bool-cases (ltb i n)) [
  | inl low ↦ ground arith
  | inr high ↦ rw (high, same high) (ap (λ t. if ltb i m then c else f t) (omega (arith, h)))
]
  where
    same : ltb i n ≡ false → ltb (i - n) (m - n) ≡ ltb i m
    same high = ground arith

format_at-cut :
    (x : TextSpan) (back : List TextSpan) (n i : ℕ)
    → n < x.span_length
    → format_at
        (record x { span_length = n } ∷ record x { span_length = x.span_length - n } ∷ back)
        i
      ≡ format_at (x ∷ back) i
format_at-cut x back n i h =
    cut_twice (some (record x { span_length = 0 })) (format_at back) x.span_length n i h

pub split_span_split :
    (xs : List TextSpan) (p index offset : ℕ) (h : Found xs 0 0 p index offset)
    → split_span index offset xs
      ≡ h.front
        ++ record h.span { span_length = offset }
          ∷ record h.span { span_length = h.span.span_length - offset }
          ∷ h.back
split_span_split xs p index offset h =
    ap (split_span index offset) h.splits
    ∙ ap (λ k. split_span k offset (h.front ++ h.span ∷ h.back)) (sym (omega (arith, h.counts)))
    ∙ split_span-append h.front h.span h.back offset

split_span-format :
    (xs : List TextSpan) (p index offset i : ℕ)
    → Found xs 0 0 p index offset
    → format_at (split_span index offset xs) i ≡ format_at xs i
split_span-format xs p index offset i h =
    ap (λ t. format_at t i) (split_span_split xs p index offset h)
    ∙ format_at-append h.front _ (h.span ∷ h.back)
        (λ j. format_at-cut h.span h.back offset j h.inside) i
    ∙ ap (λ t. format_at t i) (sym h.splits)

break_at-format :
    (xs : List TextSpan) (p i : ℕ) (r : Option (ℕ × ℕ))
    → Resolved xs 0 0 p r
    → format_at (break_at r xs).1 i ≡ format_at xs i
unfolding break_at
break_at-format xs p i none h = refl
break_at-format xs p i (some (index, offset)) h = elim (Bool-cases (offset == 0)) [
  | inl start ↦ rw start refl
  | inr amid ↦ rw amid (split_span-format xs p index offset i h)
]

-- `ensure_span_break_at` changes the format of no byte of the text.
pub ensure_span_break_at-format :
    (p : ℕ) (xs : List TextSpan) (i : ℕ)
    → format_at (ensure_span_break_at p xs).1 i ≡ format_at xs i
unfolding ensure_span_break_at
ensure_span_break_at-format p xs i =
    break_at-format xs p i (resolve_position_as_span p xs) (resolve_lem p xs)

-- The span with the returned index starts at the position; there is none if the position is not
-- covered.
abbrev pub BreaksAt : ℕ → Option ℕ × List TextSpan → Type 0
BreaksAt p (none, spans) = total spans ≤ p
BreaksAt p (some index, spans) = (total (take index spans) ≡ p) × index < length spans

BreaksAt-append :
    (p k : ℕ) (xs front : List TextSpan) (x : TextSpan) (back : List TextSpan)
    → xs ≡ front ++ x ∷ back
    → length front ≡ k
    → total front ≡ p
    → BreaksAt p (some k, xs)
BreaksAt-append p k xs front x back splits counts covers = (
  ap (λ t. total (take k t)) splits
      ∙ ap (λ j. total (take j (front ++ x ∷ back))) (sym counts)
      ∙ ap total (take-append_length front (x ∷ back))
      ∙ covers,
  omega (arith, ap length splits, length-append front (x ∷ back), counts),
)

split_span-BreaksAt :
    (xs : List TextSpan) (p index offset : ℕ)
    → Found xs 0 0 p index offset
    → BreaksAt p (some (index + 1), split_span index offset xs)
unfolding sum_of
split_span-BreaksAt xs p index offset h =
    let cut : TextSpan = record h.span { span_length = offset } in
    let rest : TextSpan = record h.span { span_length = h.span.span_length - offset } in
    BreaksAt-append p (index + 1) (split_span index offset xs) (h.front ++ cut ∷ []) rest h.back
      (split_span_split xs p index offset h ∙ sym (append_assoc h.front (cut ∷ []) (rest ∷ h.back)))
      (omega (arith, length-append h.front (cut ∷ []), h.counts))
      (omega (arith, total-append h.front (cut ∷ []), h.before))

break_at-BreaksAt :
    (xs : List TextSpan) (p : ℕ) (r : Option (ℕ × ℕ))
    → Resolved xs 0 0 p r
    → BreaksAt p (break_at r xs)
unfolding break_at
break_at-BreaksAt xs p none h = omega (arith, h)
break_at-BreaksAt xs p (some (index, offset)) h = elim (Bool-cases (offset == 0)) [
  | inl start ↦ rw start (
      BreaksAt-append p index xs h.front h.span h.back h.splits (omega (arith, h.counts))
        (before (total h.front) offset p h.before start))
  | inr amid ↦ rw amid (split_span-BreaksAt xs p index offset h)
]
  where
    before : (m n k : ℕ) → 0 + m + n ≡ k → (n == 0) ≡ true → m ≡ k
    before m n k h null = ground arith

-- `ensure_span_break_at` returns the index of a span that starts at the position, and no index only
-- where the spans end at or before it.
pub ensure_span_break_at-BreaksAt :
    (p : ℕ) (xs : List TextSpan) → BreaksAt p (ensure_span_break_at p xs)
unfolding ensure_span_break_at
ensure_span_break_at-BreaksAt p xs =
    break_at-BreaksAt xs p (resolve_position_as_span p xs) (resolve_lem p xs)
