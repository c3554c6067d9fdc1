-- ===== src/Core/Html/TextFormat.antt =====
-- Text formats (core/src/html/text_format.rs) and the values in them.
use ruffle.Prelude.{
  ℕ, ◌%◌, ◌^◌, Bool, true, false, ◌&&◌, ◌||◌, not, List, [], ◌∷◌, Option, some, none, ltb, ◌==◌,
  if◌then◌else◌,
}

abbrev pub Str : Type 0
Str = List ℕ

-- An f64 is its bit pattern.
abbrev pub F64 : Type 0
F64 = ℕ

-- `==` on f64: no NaN equals anything, and the two zeros are equal.
is_nan : F64 → Bool
is_nan x = ltb 0x7ff0_0000_0000_0000 (x % 2 ^ 63)

unfoldable pub f64_eq : F64 → F64 → Bool
unfolding is_nan
f64_eq x y =
    not (is_nan x) && (not (is_nan y) && (x == y || ((x % 2 ^ 63 == 0) && (y % 2 ^ 63 == 0))))

unfoldable pub bool_eq : Bool → Bool → Bool
bool_eq true b = b
bool_eq false b = not b

unfoldable pub list_eq : {A : Type 0} → (A → A → Bool) → List A → List A → Bool
list_eq eq [] [] = true
list_eq eq (a ∷ as') (b ∷ bs) = eq a b && list_eq eq as' bs
list_eq eq _ _ = false

unfoldable pub str_eq : Str → Str → Bool
unfolding list_eq
str_eq s t = list_eq ◌==◌ s t

unfoldable pub option_eq : {A : Type 0} → (A → A → Bool) → Option A → Option A → Bool
option_eq eq none none = true
option_eq eq (some a) (some b) = eq a b
option_eq eq _ _ = false

-- `swf::Color`
pub record Color : Type 0 where
  pub r : ℕ
  pub g : ℕ
  pub b : ℕ
  pub a : ℕ

unfoldable pub color_eq : Color → Color → Bool
color_eq c d = (c.r == d.r) && ((c.g == d.g) && ((c.b == d.b) && (c.a == d.a)))

-- `swf::TextAlign`
pub data TextAlign : Type 0 where
  left right center justify : TextAlign

unfoldable pub align_eq : TextAlign → TextAlign → Bool
align_eq left left = true
align_eq right right = true
align_eq center center = true
align_eq justify justify = true
align_eq _ _ = false

pub record TextFormat : Type 0 where
  pub font : Option Str
  pub size : Option F64
  pub color : Option Color
  pub align : Option TextAlign
  pub bold : Option Bool
  pub italic : Option Bool
  pub underline : Option Bool
  pub left_margin : Option F64
  pub right_margin : Option F64
  pub indent : Option F64
  pub block_indent : Option F64
  pub kerning : Option Bool
  pub leading : Option F64
  pub letter_spacing : Option F64
  pub tab_stops : Option (List F64)
  pub bullet : Option Bool
  pub url : Option Str
  pub target : Option Str

-- `TextFormat::default()`
unfoldable pub no_format : TextFormat
no_format = record {
  font = none;
  size = none;
  color = none;
  align = none;
  bold = none;
  italic = none;
  underline = none;
  left_margin = none;
  right_margin = none;
  indent = none;
  block_indent = none;
  kerning = none;
  leading = none;
  letter_spacing = none;
  tab_stops = none;
  bullet = none;
  url = none;
  target = none;
}

-- `if self.x == rhs.x { self.x } else { None }`
unfoldable pub matching : {A : Type 0} → (A → A → Bool) → Option A → Option A → Option A
matching eq x y = if option_eq eq x y then x else none

unfoldable pub merge_matching_properties : TextFormat → TextFormat → TextFormat
merge_matching_properties self rhs = record {
  font = matching str_eq self.font rhs.font;
  size = matching f64_eq self.size rhs.size;
  color = matching color_eq self.color rhs.color;
  align = matching align_eq self.align rhs.align;
  bold = matching bool_eq self.bold rhs.bold;
  italic = matching bool_eq self.italic rhs.italic;
  underline = matching bool_eq self.underline rhs.underline;
  left_margin = matching f64_eq self.left_margin rhs.left_margin;
  right_margin = matching f64_eq self.right_margin rhs.right_margin;
  indent = matching f64_eq self.indent rhs.indent;
  block_indent = matching f64_eq self.block_indent rhs.block_indent;
  kerning = matching bool_eq self.kerning rhs.kerning;
  leading = matching f64_eq self.leading rhs.leading;
  letter_spacing = matching f64_eq self.letter_spacing rhs.letter_spacing;
  tab_stops = matching (list_eq f64_eq) self.tab_stops rhs.tab_stops;
  bullet = matching bool_eq self.bullet rhs.bullet;
  url = matching str_eq self.url rhs.url;
  target = matching str_eq self.target rhs.target;
}

-- `Option::or`
abbrev pub option_or : {A : Type 0} → Option A → Option A → Option A
option_or (some a) y = some a
option_or none y = y

unfoldable pub mix_with : TextFormat → TextFormat → TextFormat
mix_with self rhs = record {
  font = option_or self.font rhs.font;
  size = option_or self.size rhs.size;
  color = option_or self.color rhs.color;
  align = option_or self.align rhs.align;
  bold = option_or self.bold rhs.bold;
  italic = option_or self.italic rhs.italic;
  underline = option_or self.underline rhs.underline;
  left_margin = option_or self.left_margin rhs.left_margin;
  right_margin = option_or self.right_margin rhs.right_margin;
  indent = option_or self.indent rhs.indent;
  block_indent = option_or self.block_indent rhs.block_indent;
  kerning = option_or self.kerning rhs.kerning;
  leading = option_or self.leading rhs.leading;
  letter_spacing = option_or self.letter_spacing rhs.letter_spacing;
  tab_stops = option_or self.tab_stops rhs.tab_stops;
  bullet = option_or self.bullet rhs.bullet;
  url = option_or self.url rhs.url;
  target = option_or self.target rhs.target;
}
