-- ===== src/Server/Transcript/Style/Replay.antt =====
-- The sequence of a style sets that style.
use ptymux.Std.Strings.{join, split}
use ptymux.Std.Strings.SplitJoin.{Lacks, split-join}
use ptymux.Std.Strconv.{format_uint}
use ptymux.Std.Strconv.RoundTrip.{IsDigit, digits-IsDigit}
use ptymux.Server.Transcript.Style.{
  AnsiColor, AnsiStyle, default_style, no_color, color_params, flag_param, style_params, with_csi,
  sequence, parse_parts, parse_sgr_parameters, apply_params, apply_sgr, is_default,
}
use ptymux.Server.Transcript.Style.Params.{
  IsColor, set_bold, set_faint, set_italic, set_underline, set_blink, set_conceal, set_strike,
  set_fg, set_bg,
}
use ptymux.Prelude.{
  ℕ, ◌≡◌, refl, sym, ap, ◌∙◌, subst, ◌≢◌, Bool, true, false, List, [], ◌∷◌, ◌++◌, append-nil, arith,
  ◌==◌, if◌then◌else◌, All, All-append, Bytes, codes, if-intro,
}

apply_style_params :
    (s : AnsiStyle)
    → IsColor s.fg
    → IsColor s.bg
    → apply_params 0 default_style (parse_parts (style_params s)) ≡ s
unfolding style_params
apply_style_params s f b =
    set_bold default_style _ s.bold
    ∙ set_faint (record default_style { bold = s.bold }) _ s.faint
    ∙ set_italic (record default_style { bold = s.bold; faint = s.faint }) _ s.italic
    ∙ set_underline
        (record s {
          underline = false;
          blink = false;
          conceal = false;
          strike = false;
          fg = no_color;
          bg = no_color;
        })
        _ s.underline
    ∙ set_blink
        (record s { blink = false; conceal = false; strike = false; fg = no_color; bg = no_color })
        _ s.blink
    ∙ set_conceal (record s { conceal = false; strike = false; fg = no_color; bg = no_color }) _
        s.conceal
    ∙ set_strike (record s { strike = false; fg = no_color; bg = no_color }) _ s.strike
    ∙ set_fg (record s { fg = no_color; bg = no_color }) (color_params s.bg false) s.fg f
    ∙ ap (λ ps. apply_params 0 (record s { bg = no_color }) (parse_parts ps))
        (sym (append-nil (color_params s.bg false)))
    ∙ set_bg (record s { bg = no_color }) [] s.bg b
    ∙ (unfold apply_params parse_parts in refl)

abbrev Separable : List Bytes → Type 0
Separable = All (Lacks b';')

number-Lacks : (t : Bytes) → All IsDigit t → Lacks b';' t
number-Lacks [] h = tt
number-Lacks (c ∷ t) h = (omega (arith, h.0), number-Lacks t h.1)

format_uint-Lacks : (n : ℕ) → Lacks b';' (format_uint n)
unfolding format_uint
format_uint-Lacks n = number-Lacks _ (digits-IsDigit 20 n)

flag_param-Separable : (b : Bool) (k : ℕ) → k ≢ b';' → Separable (flag_param b (k ∷ []))
unfolding flag_param
flag_param-Separable true k h = ((h, tt), tt)
flag_param-Separable false k h = tt

base-Lacks : (fg : Bool) → Lacks b';' (if fg then codes "38" else codes "48")
base-Lacks true = omega arith
base-Lacks false = omega arith

color_params-Separable : (c : AnsiColor) (fg : Bool) → Separable (color_params c fg)
unfolding color_params
color_params-Separable c fg =
    if-intro Separable (c.kind == 0) (λ _. tt)
      λ _.
        if-intro Separable (c.kind == 1)
          (λ _. (base-Lacks fg, (omega arith, (format_uint-Lacks c.value, tt))))
          (λ _. (
            base-Lacks fg,
            (omega arith, (format_uint-Lacks _, (format_uint-Lacks _, (format_uint-Lacks _, tt)))),
          ))

style_params-Separable : (s : AnsiStyle) → Separable (style_params s)
unfolding style_params
style_params-Separable s =
    All-append _ (flag_param s.bold (codes "1")) _ (flag_param-Separable s.bold b'1' (omega arith))
      (All-append _ (flag_param s.faint (codes "2")) _
        (flag_param-Separable s.faint b'2' (omega arith))
        (All-append _ (flag_param s.italic (codes "3")) _
          (flag_param-Separable s.italic b'3' (omega arith))
          (All-append _ (flag_param s.underline (codes "4")) _
            (flag_param-Separable s.underline b'4' (omega arith))
            (All-append _ (flag_param s.blink (codes "5")) _
              (flag_param-Separable s.blink b'5' (omega arith))
              (All-append _ (flag_param s.conceal (codes "8")) _
                (flag_param-Separable s.conceal b'8' (omega arith))
                (All-append _ (flag_param s.strike (codes "9")) _
                  (flag_param-Separable s.strike b'9' (omega arith))
                  (All-append _ (color_params s.fg true) _ (color_params-Separable s.fg true)
                    (color_params-Separable s.bg false))))))))

parse_sgr_parameters_lem : (raw : Bytes) → parse_sgr_parameters raw ≡ parse_parts (split b';' raw)
unfolding parse_sgr_parameters split parse_parts
parse_sgr_parameters_lem [] = refl
parse_sgr_parameters_lem (c ∷ raw) = refl

-- The escape sequence around the body that sets the style.
abbrev pub Replays : AnsiStyle → Bytes → Type 0
Replays s sgr =
    (body : Bytes) × (sgr ≡ 0x1b ∷ b'[' ∷ (body ++ b'm' ∷ [])) × (apply_sgr default_style body ≡ s)

not-default :
    (s : AnsiStyle) → apply_params 0 default_style (parse_parts []) ≡ s → ¬ (is_default s ≡ false)
unfolding apply_params parse_parts is_default
not-default s e h = ground arith

replay :
    (s : AnsiStyle) (ps : List Bytes)
    → style_params s ≡ ps
    → IsColor s.fg
    → IsColor s.bg
    → is_default s ≡ false
    → Replays s (with_csi ps)
unfolding with_csi apply_sgr
replay s [] e f b other = absurd (
    not-default s
      (subst (λ x. apply_params 0 default_style (parse_parts x) ≡ s) e (apply_style_params s f b))
      other)
replay s (p ∷ ps) e f b other = (
  join (b';' ∷ []) (p ∷ ps),
  refl,
  ap (apply_params 0 default_style) (parse_sgr_parameters_lem (join (b';' ∷ []) (p ∷ ps)))
      ∙ ap (λ x. apply_params 0 default_style (parse_parts x))
          (split-join b';' p ps (subst Separable e (style_params-Separable s)) ∙ sym e)
      ∙ apply_style_params s f b,
)

-- The escape sequence that a line starts with sets the style it was made from: it is a CSI
-- sequence with final byte m, whose parameters turn the default style into that style. (A
-- default style needs no sequence; a colour is none, one of 256, or an RGB value.)
pub sequence-Replays :
    (s : AnsiStyle) → IsColor s.fg → IsColor s.bg → is_default s ≡ false → Replays s (sequence s)
unfolding sequence
sequence-Replays s f b other = replay s (style_params s) refl f b other
