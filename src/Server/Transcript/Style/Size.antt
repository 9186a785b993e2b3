-- ===== src/Server/Transcript/Style/Size.antt =====
-- The escape sequence of a style is short.
use ptymux.Std.Strings.{join}
use ptymux.Std.Strconv.{length-format_uint}
use ptymux.Server.Transcript.Style.{
  AnsiColor, AnsiStyle, color_params, flag_param, style_params, with_csi, sequence,
}
use ptymux.Prelude.{
  ℕ, ◌+◌, ◌/◌, ◌%◌, ◌≤◌, ◌≡◌, Bool, true, false, List, [], ◌∷◌, ◌++◌, arith, length, length-append,
  Bytes, codes,
}

-- The bytes of a list of parameters, each with its separator.
cost : List Bytes → ℕ
cost [] = 0
cost (p ∷ ps) = length p + 1 + cost ps

cost-append : (ps qs : List Bytes) → cost (ps ++ qs) ≡ cost ps + cost qs
unfolding cost
cost-append [] qs = omega arith
cost-append (p ∷ ps) qs = omega (arith, cost-append ps qs)

length-join : (ps : List Bytes) → length (join (b';' ∷ []) ps) ≤ cost ps
unfolding join cost
length-join [] = omega arith
length-join (p ∷ []) = omega arith
length-join (p ∷ q ∷ ps) =
    omega (arith, length-append p (b';' ∷ join (b';' ∷ []) (q ∷ ps)), length-join (q ∷ ps))

cost-color_params : (c : AnsiColor) (fg : Bool) → cost (color_params c fg) ≤ 68
unfolding color_params cost
cost-color_params c fg = ground (
  arith,
  length-format_uint c.value,
  length-format_uint (c.value / 65536 % 256),
  length-format_uint (c.value / 256 % 256),
  length-format_uint (c.value % 256),
)

cost-flag_param : (b : Bool) (k : ℕ) → cost (flag_param b (k ∷ [])) ≤ 2
unfolding flag_param cost
cost-flag_param b k = ground arith

cost-style_params : (s : AnsiStyle) → cost (style_params s) ≤ 150
unfolding style_params
cost-style_params s = omega (
  arith,
  cost-append (flag_param s.bold (codes "1")) _,
  cost-append (flag_param s.faint (codes "2")) _,
  cost-append (flag_param s.italic (codes "3")) _,
  cost-append (flag_param s.underline (codes "4")) _,
  cost-append (flag_param s.blink (codes "5")) _,
  cost-append (flag_param s.conceal (codes "8")) _,
  cost-append (flag_param s.strike (codes "9")) _,
  cost-append (color_params s.fg true) (color_params s.bg false),
  cost-flag_param s.bold b'1',
  cost-flag_param s.faint b'2',
  cost-flag_param s.italic b'3',
  cost-flag_param s.underline b'4',
  cost-flag_param s.blink b'5',
  cost-flag_param s.conceal b'8',
  cost-flag_param s.strike b'9',
  cost-color_params s.fg true,
  cost-color_params s.bg false,
)

length-with_csi : (ps : List Bytes) → length (with_csi ps) ≤ cost ps + 3
unfolding with_csi cost
length-with_csi [] = omega arith
length-with_csi (p ∷ ps) =
    omega (arith, length-append (join (b';' ∷ []) (p ∷ ps)) (b'm' ∷ []), length-join (p ∷ ps))

-- The sequence that sets a style is short: it never overflows a pending line.
pub length-sequence : (s : AnsiStyle) → length (sequence s) ≤ 153
unfolding sequence
length-sequence s = omega (arith, length-with_csi (style_params s), cost-style_params s)
