-- ===== src/Core/Html/FormatSpans/Formats.antt =====
-- What `normalize` does to the format of each byte (core/src/html/text_format.rs).
use ruffle.Prelude.{
  ℕ, ◌+◌, ◌-◌, ◌≤◌, ◌<◌, ◌≡◌, refl, sym, ap, ◌∙◌, Bool, true, false, ◌||◌, List, [], ◌∷◌, ◌++◌, ◌⊎◌,
  Option, some, none, arith, ltb, ◌==◌, if◌then◌else◌, length, sum_of, Bool-cases, inl, inr, ltb→lt,
  lt→ltb, subst,
}
use mathlib.Core.List.{reverse, reverse-cons, reverse-reverse}
use ruffle.Core.Html.TextFormat.{TextFormat}
use ruffle.Core.Html.TextSpan.{TextSpan, with_length_and_format, set_span_format, can_merge}
use ruffle.Core.Html.FormatSpans.Defs.{
  FormatSpans, total, trim_loop, fit_length, drop_null, merge_loop, merge_all, normalize,
}
use ruffle.Core.Html.FormatSpans.Normalize.{
  total-reverse, total-fit_length, total-drop_null, total-merge_all,
}
use ruffle.Core.Html.FormatSpans.Normal.{or_default-id}
use ruffle.Core.Html.FormatSpans.Breaks.{format_at}

joined :
    {A : Type 0} (c : A) (f g : ℕ → A) (n m i : ℕ)
    → (if ltb i n then c else if ltb (i - n) m then f (i - n) else g (i - n - m))
      ≡ (if ltb i (n + m) then if ltb i n then c else f (i - n) else g (i - (n + m)))
joined c f g n m i = elim (Bool-cases (ltb i n)) [
  | inl low ↦ ground arith
  | inr high ↦
      rw (high, same high) (ap (λ j. if ltb i (n + m) then f (i - n) else g j) (omega arith))
]
  where
    same : ltb i n ≡ false → ltb (i - n) m ≡ ltb i (n + m)
    same high = ground arith

-- The bytes of two lists of spans, one behind the other.
format_at-append_if :
    (front xs : List TextSpan) (i : ℕ)
    → format_at (front ++ xs) i
      ≡ (if ltb i (total front) then format_at front i else format_at xs (i - total front))
unfolding sum_of
format_at-append_if [] xs i = ground arith
format_at-append_if (x ∷ front) xs i =
    ap (λ t. if ltb i x.span_length then some (record x { span_length = 0 }) else t)
      (format_at-append_if front xs (i - x.span_length))
    ∙ joined (some (record x { span_length = 0 })) (format_at front) (format_at xs) x.span_length
        (total front) i

format_at-drop_null : (xs : List TextSpan) (i : ℕ) → format_at (drop_null xs) i ≡ format_at xs i
unfolding drop_null
format_at-drop_null [] i = refl
format_at-drop_null (x ∷ xs) i = elim (Bool-cases (x.span_length == 0)) [
  | inl null ↦ rw null (format_at-drop_null xs i ∙ ground arith)
  | inr long ↦ rw long refl
]

-- Formats that `can_merge` does not tell apart.
unfoldable pub Alike : Option TextSpan → Option TextSpan → Type 0
Alike none none = Unit
Alike (some a) (some b) = (a ≡ b) ⊎ (can_merge a b ≡ true)
Alike _ _ = ⊥

Alike-refl : (x : Option TextSpan) → Alike x x
unfolding Alike
Alike-refl none = tt
Alike-refl (some a) = inl refl

format_at-front :
    (front xs : List TextSpan) (i : ℕ)
    → i < total front
    → format_at (front ++ xs) i ≡ format_at front i
format_at-front front xs i h = format_at-append_if front xs i ∙ rw (lt→ltb _ _ h) refl

format_at-shorter :
    (front : List TextSpan) (y : TextSpan) (d i : ℕ)
    → d < y.span_length
    → i + d < total front + y.span_length
    → format_at (front ++ record y { span_length = y.span_length - d } ∷ []) i
      ≡ format_at (front ++ y ∷ []) i
format_at-shorter front y d i short h =
    format_at-append_if front (record y { span_length = y.span_length - d } ∷ []) i
    ∙ shorter (format_at front i) (some (record y { span_length = 0 })) none (total front)
        y.span_length d i h
    ∙ sym (format_at-append_if front (y ∷ []) i)
  where
    shorter :
        (a b c : Option TextSpan) (t n d i : ℕ)
        → i + d < t + n
        → (if ltb i t then a else if ltb (i - t) (n - d) then b else c)
          ≡ (if ltb i t then a else if ltb (i - t) n then b else c)
    shorter a b c t n d i h = ground arith

-- What is cut off the end changes nothing in front.
trim_loop-format :
    (ys : List TextSpan) (d i : ℕ)
    → i + d < total ys
    → format_at (reverse (trim_loop ys d)) i ≡ format_at (reverse ys) i
unfolding trim_loop sum_of
trim_loop-format [] d i h = absurd (omega (arith, h))
trim_loop-format (y ∷ ys) d i h = elim (Bool-cases (d == 0)) [
  | inl done ↦ rw done refl
  | inr more ↦ elim (Bool-cases (ltb d y.span_length)) [
    | inl shorter ↦
        rw (more, shorter)
          (ap (λ t. format_at t i) (reverse-cons (record y { span_length = y.span_length - d }) ys)
            ∙ format_at-shorter (reverse ys) y d i (ltb→lt _ _ shorter)
                (omega (arith, total-reverse ys, h))
            ∙ sym (ap (λ t. format_at t i) (reverse-cons y ys)))
    | inr longer ↦
        rw (more, longer)
          (trim_loop-format ys (d - y.span_length) i (less _ _ longer _ _ h)
            ∙ sym (
                format_at-front (reverse ys) (y ∷ []) i
                  (omega (arith, total-reverse ys, less _ _ longer _ _ h)))
            ∙ sym (ap (λ t. format_at t i) (reverse-cons y ys)))
  ]
]
  where
    less : (d n : ℕ) → ltb d n ≡ false → (i t : ℕ) → i + d < n + t → i + (d - n) < t
    less d n longer i t h = ground arith

-- The format of a byte of a text of `len` bytes before `normalize`: that of its span, or the default
-- format where the spans are too short.
abbrev pub format_or_default : TextFormat → List TextSpan → ℕ → Option TextSpan
format_or_default tf xs i =
    if ltb i (total xs) then format_at xs i else some (with_length_and_format 0 tf)

fit_length-format :
    (len : ℕ) (tf : TextFormat) (xs : List TextSpan) (i : ℕ)
    → i < len
    → format_at (fit_length len tf xs) i ≡ format_or_default tf xs i
unfolding fit_length with_length_and_format set_span_format
fit_length-format len tf xs i h = elim (Bool-cases (ltb (total xs) len)) [
  | inl less ↦ rw less (
      format_at-append_if xs (with_length_and_format (len - total xs) tf ∷ []) i
      ∙ ap (λ t. if ltb i (total xs) then format_at xs i else t)
          (rw (lt→ltb (i - total xs) (len - total xs) (omega (arith, h, ltb→lt _ _ less))) refl))
  | inr enough ↦ elim (Bool-cases (ltb len (total xs))) [
    | inl greater ↦
        rw (enough, greater)
          (trim_loop-format (reverse xs) (total xs - len) i
              (omega (arith, total-reverse xs, ltb→lt _ _ greater, h))
            ∙ ap (λ t. format_at t i) (reverse-reverse xs)
            ∙ inside (omega (arith, ltb→lt _ _ greater, h)))
    | inr equal ↦ rw (enough, equal) (inside (omega (arith, h, least _ _ enough)))
  ]
]
  where
    inside : i < total xs → format_at xs i ≡ format_or_default tf xs i
    inside h = rw (lt→ltb i (total xs) h) refl

    least : (m n : ℕ) → ltb m n ≡ false → n ≤ m
    least m n h = ground arith

-- The current span only grows.
merge_loop-head :
    (xs : List TextSpan) (x : TextSpan) (i : ℕ)
    → i < x.span_length
    → format_at (merge_loop x xs) i ≡ some (record x { span_length = 0 })
unfolding merge_loop
merge_loop-head [] x i h = rw (lt→ltb _ _ h) refl
merge_loop-head (y ∷ ys) x i h = elim (Bool-cases (can_merge x y || (y.span_length == 0))) [
  | inl merges ↦ rw merges (
      merge_loop-head ys (record x { span_length = x.span_length + y.span_length }) i
        (omega (arith, h)))
  | inr stays ↦ rw (stays, lt→ltb _ _ h) refl
]

-- A byte of two neighbours that are merged.
merged-Alike :
    (x y : TextSpan) (ys : List TextSpan) (i : ℕ)
    → (can_merge x y || (y.span_length == 0)) ≡ true
    → i < x.span_length + y.span_length
    → Alike (some (record x { span_length = 0 })) (format_at (x ∷ y ∷ ys) i)
unfolding Alike can_merge
merged-Alike x y ys i merges h = elim (Bool-cases (ltb i x.span_length)) [
  | inl first ↦ rw first (inl refl)
  | inr second ↦
      rw (second, later i x.span_length y.span_length second h)
        (inr (alike _ _ _ _ second h merges))
]
  where
    later : (i m n : ℕ) → ltb i m ≡ false → i < m + n → ltb (i - m) n ≡ true
    later i m n out h = ground arith

    alike : (i m n : ℕ) (b : Bool) → ltb i m ≡ false → i < m + n → (b || (n == 0)) ≡ true → b ≡ true
    alike i m n b out h merges = ground arith

behind_first : (i m n : ℕ) → ltb i (m + n) ≡ false → ltb i m ≡ false
behind_first i m n h = ground arith

behind_second : (i m n : ℕ) → ltb i (m + n) ≡ false → ltb (i - m) n ≡ false
behind_second i m n h = ground arith

merge_loop-Alike :
    (xs : List TextSpan) (x : TextSpan) (i : ℕ)
    → Alike (format_at (merge_loop x xs) i) (format_at (x ∷ xs) i)
unfolding merge_loop
merge_loop-Alike [] x i = Alike-refl _
merge_loop-Alike (y ∷ ys) x i = elim (Bool-cases (can_merge x y || (y.span_length == 0))) [
  | inl merges ↦ elim (Bool-cases (ltb i (x.span_length + y.span_length))) [
    | inl inside ↦ rw merges (
        subst (λ t. Alike t (format_at (x ∷ y ∷ ys) i))
          (sym (
            merge_loop-head ys (record x { span_length = x.span_length + y.span_length }) i
              (ltb→lt _ _ inside)))
          (merged-Alike x y ys i merges (ltb→lt _ _ inside)))
    | inr behind ↦ rw merges (
        subst (Alike _) (outside x.span_length y.span_length behind)
          (merge_loop-Alike ys (record x { span_length = x.span_length + y.span_length }) i))
  ]
  | inr stays ↦ rw stays (elim (Bool-cases (ltb i x.span_length)) [
    | inl first ↦ rw first (Alike-refl _)
    | inr later ↦ rw later (merge_loop-Alike ys y (i - x.span_length))
  ])
]
  where
    outside :
        (m n : ℕ)
        → ltb i (m + n) ≡ false
        → format_at (record x { span_length = m + n } ∷ ys) i
          ≡ format_at (record x { span_length = m } ∷ record y { span_length = n } ∷ ys) i
    outside m n h =
        rw (h, behind_first i m n h, behind_second i m n h) (ap (format_at ys) (omega arith))

merge_all-Alike : (xs : List TextSpan) (i : ℕ) → Alike (format_at (merge_all xs) i) (format_at xs i)
unfolding merge_all
merge_all-Alike [] i = Alike-refl _
merge_all-Alike (x ∷ xs) i = merge_loop-Alike xs x i

-- `normalize` leaves every byte of the text in a format that `can_merge` does not tell apart from
-- that of its span, or from the default format where the spans were too short for the text.
pub normalize-Alike :
    (self : FormatSpans) (i : ℕ)
    → i < length self.text
    → Alike
        (format_at (normalize self).spans i)
        (format_or_default self.default_format self.spans i)
unfolding normalize
normalize-Alike self i h =
    let len = length self.text in
    let fit = fit_length len self.default_format self.spans in
    let merged = merge_all (drop_null fit) in
    let covers : total merged ≡ len =
      total-merge_all (drop_null fit)
      ∙ total-drop_null fit
      ∙ total-fit_length len self.default_format self.spans in
    subst (λ t. Alike (format_at t i) (format_or_default self.default_format self.spans i))
      (sym (or_default-id len self.default_format merged (omega (arith, covers, h))))
      (subst (Alike (format_at merged i))
        (format_at-drop_null fit i ∙ fit_length-format len self.default_format self.spans i h)
        (merge_all-Alike (drop_null fit) i))
