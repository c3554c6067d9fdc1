-- ===== src/Core/Html/TextSpan.antt =====
-- Text spans (core/src/html/text_format.rs): a length with a resolved format.
use ruffle.Prelude.{ℕ, Bool, false, ◌&&◌, List, [], Option, some, none}
use ruffle.Core.Html.TextFormat.{
  Str, F64, Color, TextAlign, left, TextFormat, f64_eq, bool_eq, list_eq, str_eq, color_eq,
  align_eq,
}

pub record TextSpan : Type 0 where
  pub span_length : ℕ
  pub font : Str
  pub size : F64
  pub color : Color
  pub align : TextAlign
  pub bold : Bool
  pub italic : Bool
  pub underline : Bool
  pub left_margin : F64
  pub right_margin : F64
  pub indent : F64
  pub block_indent : F64
  pub kerning : Bool
  pub leading : F64
  pub letter_spacing : F64
  pub tab_stops : List F64
  pub bullet : Bool
  pub url : Str
  pub target : Str

-- `TextSpan::default()`; the size is 12.0.
unfoldable pub default_span : TextSpan
default_span = record {
  span_length = 0;
  font = [];
  size = 0x4028_0000_0000_0000;
  color = record { r = 0; g = 0; b = 0; a = 0 };
  align = left;
  bold = false;
  italic = false;
  underline = false;
  left_margin = 0;
  right_margin = 0;
  indent = 0;
  block_indent = 0;
  kerning = false;
  leading = 0;
  letter_spacing = 0;
  tab_stops = [];
  bullet = false;
  url = [];
  target = [];
}

-- `if let Some(x) = &tf.x { self.x = x.clone(); }`
abbrev pub or_keep : {A : Type 0} → Option A → A → A
or_keep (some new) old = new
or_keep none old = old

unfoldable pub set_span_format : TextFormat → TextSpan → TextSpan
set_span_format tf span = record {
  span_length = span.span_length;
  font = or_keep tf.font span.font;
  size = or_keep tf.size span.size;
  color = or_keep tf.color span.color;
  align = or_keep tf.align span.align;
  bold = or_keep tf.bold span.bold;
  italic = or_keep tf.italic span.italic;
  underline = or_keep tf.underline span.underline;
  left_margin = or_keep tf.left_margin span.left_margin;
  right_margin = or_keep tf.right_margin span.right_margin;
  indent = or_keep tf.indent span.indent;
  block_indent = or_keep tf.block_indent span.block_indent;
  kerning = or_keep tf.kerning span.kerning;
  leading = or_keep tf.leading span.leading;
  letter_spacing = or_keep tf.letter_spacing span.letter_spacing;
  tab_stops = or_keep tf.tab_stops span.tab_stops;
  bullet = or_keep tf.bullet span.bullet;
  url = or_keep tf.url span.url;
  target = or_keep tf.target span.target;
}

unfoldable pub with_length_and_format : ℕ → TextFormat → TextSpan
with_length_and_format length tf = set_span_format tf (record default_span { span_length = length })

unfoldable pub can_merge : TextSpan → TextSpan → Bool
can_merge self rhs =
    str_eq self.font rhs.font
    && (f64_eq self.size rhs.size
        && (color_eq self.color rhs.color
            && (align_eq self.align rhs.align
                && (bool_eq self.bold rhs.bold
                    && (bool_eq self.italic rhs.italic
                        && (bool_eq self.underline rhs.underline
                            && (f64_eq self.left_margin rhs.left_margin
                                && (f64_eq self.right_margin rhs.right_margin
                                    && (f64_eq self.indent rhs.indent
                                        && (f64_eq self.block_indent rhs.block_indent
                                            && (bool_eq self.kerning rhs.kerning
                                                && (f64_eq self.leading rhs.leading
                                                    && (f64_eq self.letter_spacing
                                                          rhs.letter_spacing
                                                        && (list_eq f64_eq self.tab_stops
                                                            rhs.tab_stops
                                                            && (bool_eq self.bullet rhs.bullet
                                                            && (str_eq self.url rhs.url
                                                            && (str_eq self.target
                                                            rhs.target)))))))))))))))))

-- The format of a span. The bullet is taken from the field `bold`, as the source has it.
unfoldable pub span_format : TextSpan → TextFormat
span_format span = record {
  font = some span.font;
  size = some span.size;
  color = some span.color;
  align = some span.align;
  bold = some span.bold;
  italic = some span.italic;
  underline = some span.underline;
  left_margin = some span.left_margin;
  right_margin = some span.right_margin;
  indent = some span.indent;
  block_indent = some span.block_indent;
  kerning = some span.kerning;
  leading = some span.leading;
  letter_spacing = some span.letter_spacing;
  tab_stops = some span.tab_stops;
  bullet = some span.bold;
  url = some span.url;
  target = some span.target;
}
