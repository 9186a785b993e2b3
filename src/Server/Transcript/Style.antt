-- ===== src/Server/Transcript/Style.antt =====
-- internal/server/transcript.go: the SGR state of the terminal, and the escape sequence that sets
-- it. A colour's `value` is the uint32 of the source; parameters are the `int`s that `Atoi` reads.
pub mod Size
pub mod Params
pub mod Replay
use ptymux.Std.Strings.{split, join}
use ptymux.Std.Strconv.{ℤ, pos, negsuc, atoi, format_uint, digits}
use ptymux.Prelude.{
  ℕ, zero, suc, ◌+◌, ◌-◌, ◌*◌, ◌/◌, ◌%◌, ◌^◌, ◌≤◌, ◌<◌, min, ◌≡◌, refl, sym, ap, ◌∙◌, subst, ◌≢◌,
  ◌↔◌, ◌⊎◌, inl, inr, Bool, true, false, not, ◌&&◌, ◌||◌, Option, none, some, List, [], ◌∷◌, ◌++◌,
  map, append_assoc, append-nil, arith, ltb, leb, ◌==◌, if◌then◌else◌, ltb→lt, lt→ltb, leb→le,
  ==_iff, tests, Bool-cases, Option-cases, length, set, take, drop, length-append, length-set,
  take-append-drop, length-take, length-drop, take-of-length-le, take-length-append,
  drop-length-append, All, All-append, All-take, All-drop, Bytes, codes, bytes_eq, bytes_eq_refl,
  bytes_eq_iff, if-intro, take-append-of-le, drop-append-of-le,
}

pub record AnsiColor : Type 0 where
  pub kind : ℕ
  pub value : ℕ

pub record AnsiStyle : Type 0 where
  pub bold : Bool
  pub faint : Bool
  pub italic : Bool
  pub underline : Bool
  pub blink : Bool
  pub conceal : Bool
  pub strike : Bool
  pub fg : AnsiColor
  pub bg : AnsiColor

abbrev pub no_color : AnsiColor
no_color = record { kind = 0; value = 0 }

abbrev pub default_style : AnsiStyle
default_style = record {
  bold = false;
  faint = false;
  italic = false;
  underline = false;
  blink = false;
  conceal = false;
  strike = false;
  fg = no_color;
  bg = no_color;
}

-- `s == ansiStyle{}`
unfoldable pub is_default : AnsiStyle → Bool
is_default s =
    not s.bold
    && not s.faint
    && not s.italic
    && not s.underline
    && not s.blink
    && not s.conceal
    && not s.strike
    && s.fg.kind == 0
    && s.fg.value == 0
    && s.bg.kind == 0
    && s.bg.value == 0

unfoldable pub indexed_color : ℕ → AnsiColor
indexed_color value = record { kind = 1; value = value }

-- red<<16 | green<<8 | blue, for components of one byte
unfoldable pub rgb_color : ℕ → ℕ → ℕ → AnsiColor
rgb_color red green blue = record { kind = 2; value = red * 65536 + green * 256 + blue }

is_byte : ℤ → Bool
is_byte (pos n) = leb n 255
is_byte (negsuc n) = false

abbrev pub magnitude : ℤ → ℕ
magnitude (pos n) = n
magnitude (negsuc n) = 0

abbrev pub is_int : ℕ → ℤ → Bool
is_int k (pos n) = n == k
is_int k (negsuc n) = false

-- `params[0] == 2` with three components behind it
extended_rgb : List ℤ → AnsiColor × ℕ
unfolding is_byte rgb_color
extended_rgb (k ∷ r ∷ g ∷ b ∷ rest) =
    if is_int 2 k
    then (if is_byte r && is_byte g && is_byte b
        then (rgb_color (magnitude r) (magnitude g) (magnitude b), 4)
        else (no_color, 0))
    else (no_color, 0)
extended_rgb _ = (no_color, 0)

-- The colour, and how many parameters it took: 0 for none.
unfoldable pub extended_color : List ℤ → AnsiColor × ℕ
unfolding extended_rgb is_byte indexed_color
extended_color (k ∷ n ∷ rest) =
    if is_int 5 k && is_byte n
    then (indexed_color (magnitude n), 2)
    else extended_rgb (k ∷ n ∷ rest)
extended_color _ = (no_color, 0)

-- The cases of the switch that read one parameter only.
apply_plain : AnsiStyle → ℕ → AnsiStyle
unfolding indexed_color
apply_plain s p =
    if p == 0
    then default_style
    else if p == 1
    then record s { bold = true }
    else if p == 2
    then record s { faint = true }
    else if p == 3
    then record s { italic = true }
    else if p == 4
    then record s { underline = true }
    else if p == 5 || p == 6
    then record s { blink = true }
    else if p == 8
    then record s { conceal = true }
    else if p == 9
    then record s { strike = true }
    else if p == 22
    then record s { bold = false; faint = false }
    else if p == 23
    then record s { italic = false }
    else if p == 24
    then record s { underline = false }
    else if p == 25
    then record s { blink = false }
    else if p == 28
    then record s { conceal = false }
    else if p == 29
    then record s { strike = false }
    else if leb 30 p && leb p 37
    then record s { fg = indexed_color (p - 30) }
    else if p == 39
    then record s { fg = no_color }
    else if leb 40 p && leb p 47
    then record s { bg = indexed_color (p - 40) }
    else if p == 49
    then record s { bg = no_color }
    else if leb 90 p && leb p 97
    then record s { fg = indexed_color (p - 90 + 8) }
    else if leb 100 p && leb p 107
    then record s { bg = indexed_color (p - 100 + 8) }
    else s

set_fg : AnsiStyle → AnsiColor × ℕ → AnsiStyle
set_fg s (color, consumed) = if ltb 0 consumed then record s { fg = color } else s

set_bg : AnsiStyle → AnsiColor × ℕ → AnsiStyle
set_bg s (color, consumed) = if ltb 0 consumed then record s { bg = color } else s

-- The style after `params[i]`, and how many of the later parameters it took.
apply_param : AnsiStyle → ℤ → List ℤ → AnsiStyle × ℕ
unfolding apply_plain set_fg set_bg
apply_param s (negsuc n) rest = (s, 0)
apply_param s (pos p) rest =
    if p == 38
    then (set_fg s (extended_color rest), (extended_color rest).1)
    else if p == 48
    then (set_bg s (extended_color rest), (extended_color rest).1)
    else (apply_plain s p, 0)

-- `for i := 0; i < len(params); i++`; `skip` counts the parameters that a colour took.
unfoldable pub apply_params : ℕ → AnsiStyle → List ℤ → AnsiStyle
unfolding apply_param
apply_params skip s [] = s
apply_params (suc skip) s (p ∷ rest) = apply_params skip s rest
apply_params zero s (p ∷ rest) = let (s', skip) = apply_param s p rest in apply_params skip s' rest

-- Reading stops at the first part that is no number.
pub parse_parts : List Bytes → List ℤ
parse_parts [] = []
parse_parts ([] ∷ parts) = pos 0 ∷ parse_parts parts
parse_parts ((c ∷ part) ∷ parts) =
    let rest = parse_parts parts in elim (atoi (c ∷ part)) [ none ↦ [] | some value ↦ value ∷ rest ]

unfoldable pub parse_sgr_parameters : Bytes → List ℤ
unfolding parse_parts
parse_sgr_parameters [] = pos 0 ∷ []
parse_sgr_parameters (c ∷ raw) = parse_parts (split b';' (c ∷ raw))

unfoldable pub apply_sgr : AnsiStyle → Bytes → AnsiStyle
unfolding apply_params parse_sgr_parameters
apply_sgr s raw = apply_params 0 s (parse_sgr_parameters raw)

-- `append(params, …)` for one colour
pub color_params : AnsiColor → Bool → List Bytes
color_params color foreground =
    let base = if foreground then codes "38" else codes "48" in
    if color.kind == 0
    then []
    else if color.kind == 1
    then base ∷ codes "5" ∷ format_uint color.value ∷ []
    else base
      ∷ codes "2"
      ∷ format_uint (color.value / 65536 % 256)
      ∷ format_uint (color.value / 256 % 256)
      ∷ format_uint (color.value % 256)
      ∷ []

pub flag_param : Bool → Bytes → List Bytes
flag_param true p = p ∷ []
flag_param false p = []

pub style_params : AnsiStyle → List Bytes
unfolding color_params flag_param
style_params s =
    flag_param s.bold (codes "1")
    ++ (flag_param s.faint (codes "2")
        ++ (flag_param s.italic (codes "3")
            ++ (flag_param s.underline (codes "4")
                ++ (flag_param s.blink (codes "5")
                    ++ (flag_param s.conceal (codes "8")
                        ++ (flag_param s.strike (codes "9")
                            ++ (color_params s.fg true ++ color_params s.bg false)))))))

pub with_csi : List Bytes → Bytes
with_csi [] = []
with_csi (p ∷ ps) = 0x1b ∷ b'[' ∷ (join (b';' ∷ []) (p ∷ ps) ++ b'm' ∷ [])

unfoldable pub sequence : AnsiStyle → Bytes
unfolding style_params with_csi join
sequence s = with_csi (style_params s)

abbrev orange_bold : AnsiStyle
orange_bold = record default_style { bold = true; fg = record { kind = 2; value = 0xff8000 } }

sequence-orange_bold : sequence orange_bold ≡ 0x1b ∷ codes "[1;38;2;255;128;0m"
unfolding sequence format_uint digits
sequence-orange_bold = refl

apply_sgr-orange_bold : apply_sgr default_style (codes "1;38;2;255;128;0") ≡ orange_bold
unfolding apply_sgr atoi extended_color split
apply_sgr-orange_bold = refl
