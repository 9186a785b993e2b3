-- ===== src/Server/Transcript/Style/Params.antt =====
-- What the parameters of a style do to a style that lacks them.
use ptymux.Std.Strconv.{ℤ, pos, atoi, format_uint}
use ptymux.Std.Strconv.RoundTrip.{format_uint-Digits, atoi-format_uint}
use ptymux.Server.Transcript.Style.{
  AnsiColor, AnsiStyle, no_color, color_params, flag_param, parse_parts, apply_params,
  extended_color,
}
use ptymux.Prelude.{
  ℕ, ◌+◌, ◌*◌, ◌/◌, ◌%◌, ◌^◌, ◌≤◌, ◌<◌, ◌≡◌, refl, ap, ◌∙◌, subst, ◌⊎◌, inl, inr, Bool, true, false,
  some, List, ◌∷◌, ◌++◌, arith, if◌then◌else◌, Bytes, codes,
}

abbrev rgb : ℕ → AnsiColor
rgb v = record { kind = 2; value = v }

-- The colours that the source builds: none, one of 256, or red, green and blue.
abbrev pub IsColor : AnsiColor → Type 0
IsColor c =
    (c ≡ no_color)
    ⊎ (((v : ℕ) × (c ≡ record { kind = 1; value = v }) × (v ≤ 255))
        ⊎ ((v : ℕ) × (c ≡ record { kind = 2; value = v }) × (v < 16777216)))

parse_parts-number :
    (n : ℕ) (ps : List Bytes)
    → n < 2 ^ 63
    → parse_parts (format_uint n ∷ ps) ≡ pos n ∷ parse_parts ps
unfolding parse_parts
parse_parts-number n ps h =
    let (c, s, e, _, _) = format_uint-Digits n in
    let read : atoi (c ∷ s) ≡ some (pos n) =
      subst (λ x. atoi x ≡ some (pos n)) e (atoi-format_uint n h) in
    rw e (rw (read, parse_parts) refl)

extended_indexed :
    (v : ℕ) (rest : List ℤ)
    → v ≤ 255
    → extended_color (pos 5 ∷ pos v ∷ rest) ≡ (record { kind = 1; value = v }, 2)
unfolding extended_color
extended_indexed v rest h = ground arith

extended_components :
    (r g b v : ℕ) (rest : List ℤ)
    → r ≤ 255
    → g ≤ 255
    → b ≤ 255
    → r * 65536 + g * 256 + b ≡ v
    → extended_color (pos 2 ∷ pos r ∷ pos g ∷ pos b ∷ rest) ≡ (rgb v, 4)
unfolding extended_color
extended_components r g b v rest hr hg hb e = ground arith

parse_parts-rgb :
    (v : ℕ) (fg : Bool) (ps : List Bytes)
    → parse_parts (color_params (rgb v) fg ++ ps)
      ≡ pos (if fg then 38 else 48)
        ∷ pos 2
        ∷ pos (v / 65536 % 256)
        ∷ pos (v / 256 % 256)
        ∷ pos (v % 256)
        ∷ parse_parts ps
unfolding color_params parse_parts atoi
parse_parts-rgb v fg ps =
    head fg
    ∙ ap (λ x. pos (if fg then 38 else 48) ∷ pos 2 ∷ x)
        (parse_parts-number (v / 65536 % 256) _ (omega arith)
          ∙ ap (◌∷◌ (pos (v / 65536 % 256))) (
              parse_parts-number (v / 256 % 256) _ (omega arith)
              ∙ ap (◌∷◌ (pos (v / 256 % 256))) (parse_parts-number (v % 256) ps (omega arith))))
  where
    head :
        (c : Bool)
        → parse_parts (color_params (rgb v) c ++ ps)
          ≡ pos (if c then 38 else 48)
            ∷ pos 2
            ∷ parse_parts (
                format_uint (v / 65536 % 256)
                ∷ format_uint (v / 256 % 256)
                ∷ format_uint (v % 256)
                ∷ ps)
    head true = refl
    head false = refl

module _ (s : AnsiStyle) (ps : List Bytes) where
  pub set_bold :
      (b : Bool)
      → apply_params 0 (record s { bold = false }) (parse_parts (flag_param b (codes "1") ++ ps))
        ≡ apply_params 0 (record s { bold = b }) (parse_parts ps)
  unfolding apply_params parse_parts flag_param atoi
  set_bold true = refl
  set_bold false = refl

  pub set_faint :
      (b : Bool)
      → apply_params 0 (record s { faint = false }) (parse_parts (flag_param b (codes "2") ++ ps))
        ≡ apply_params 0 (record s { faint = b }) (parse_parts ps)
  unfolding apply_params parse_parts flag_param atoi
  set_faint true = refl
  set_faint false = refl

  pub set_italic :
      (b : Bool)
      → apply_params 0 (record s { italic = false }) (parse_parts (flag_param b (codes "3") ++ ps))
        ≡ apply_params 0 (record s { italic = b }) (parse_parts ps)
  unfolding apply_params parse_parts flag_param atoi
  set_italic true = refl
  set_italic false = refl

  pub set_underline :
      (b : Bool)
      → apply_params 0
          (record s { underline = false })
          (parse_parts (flag_param b (codes "4") ++ ps))
        ≡ apply_params 0 (record s { underline = b }) (parse_parts ps)
  unfolding apply_params parse_parts flag_param atoi
  set_underline true = refl
  set_underline false = refl

  pub set_blink :
      (b : Bool)
      → apply_params 0 (record s { blink = false }) (parse_parts (flag_param b (codes "5") ++ ps))
        ≡ apply_params 0 (record s { blink = b }) (parse_parts ps)
  unfolding apply_params parse_parts flag_param atoi
  set_blink true = refl
  set_blink false = refl

  pub set_conceal :
      (b : Bool)
      → apply_params 0 (record s { conceal = false }) (parse_parts (flag_param b (codes "8") ++ ps))
        ≡ apply_params 0 (record s { conceal = b }) (parse_parts ps)
  unfolding apply_params parse_parts flag_param atoi
  set_conceal true = refl
  set_conceal false = refl

  pub set_strike :
      (b : Bool)
      → apply_params 0 (record s { strike = false }) (parse_parts (flag_param b (codes "9") ++ ps))
        ≡ apply_params 0 (record s { strike = b }) (parse_parts ps)
  unfolding apply_params parse_parts flag_param atoi
  set_strike true = refl
  set_strike false = refl

  pub set_fg_indexed :
      (v : ℕ)
      → v ≤ 255
      → apply_params 0
          (record s { fg = no_color })
          (parse_parts (color_params (record { kind = 1; value = v }) true ++ ps))
        ≡ apply_params 0 (record s { fg = record { kind = 1; value = v } }) (parse_parts ps)
  unfolding color_params parse_parts apply_params atoi
  set_fg_indexed v h =
      let e : extended_color (pos 5 ∷ pos v ∷ parse_parts ps)
          ≡ (record { kind = 1; value = v }, 2) =
        extended_indexed v (parse_parts ps) h in
      rw (parse_parts-number v ps (omega arith)) (rw (apply_params, e) refl)

  pub set_fg_rgb :
      (v : ℕ)
      → v < 16777216
      → apply_params 0
          (record s { fg = no_color })
          (parse_parts (color_params (record { kind = 2; value = v }) true ++ ps))
        ≡ apply_params 0 (record s { fg = record { kind = 2; value = v } }) (parse_parts ps)
  unfolding apply_params
  set_fg_rgb v h =
      let e : extended_color
            (pos 2 ∷ pos (v / 65536 % 256) ∷ pos (v / 256 % 256) ∷ pos (v % 256) ∷ parse_parts ps)
          ≡ (rgb v, 4) =
        extended_components _ _ _ v (parse_parts ps) (omega arith) (omega arith) (omega arith)
          (omega arith) in
      rw (parse_parts-rgb v true ps) (rw (apply_params, e) refl)

  pub set_fg :
      (c : AnsiColor)
      → IsColor c
      → apply_params 0 (record s { fg = no_color }) (parse_parts (color_params c true ++ ps))
        ≡ apply_params 0 (record s { fg = c }) (parse_parts ps)
  set_fg c (inl e) = rw e (unfold color_params in refl)
  set_fg c (inr (inl (v, e, h))) = rw e (set_fg_indexed v h)
  set_fg c (inr (inr (v, e, h))) = rw e (set_fg_rgb v h)

  pub set_bg_indexed :
      (v : ℕ)
      → v ≤ 255
      → apply_params 0
          (record s { bg = no_color })
          (parse_parts (color_params (record { kind = 1; value = v }) false ++ ps))
        ≡ apply_params 0 (record s { bg = record { kind = 1; value = v } }) (parse_parts ps)
  unfolding color_params parse_parts apply_params atoi
  set_bg_indexed v h =
      let e : extended_color (pos 5 ∷ pos v ∷ parse_parts ps)
          ≡ (record { kind = 1; value = v }, 2) =
        extended_indexed v (parse_parts ps) h in
      rw (parse_parts-number v ps (omega arith)) (rw (apply_params, e) refl)

  pub set_bg_rgb :
      (v : ℕ)
      → v < 16777216
      → apply_params 0
          (record s { bg = no_color })
          (parse_parts (color_params (record { kind = 2; value = v }) false ++ ps))
        ≡ apply_params 0 (record s { bg = record { kind = 2; value = v } }) (parse_parts ps)
  unfolding apply_params
  set_bg_rgb v h =
      let e : extended_color
            (pos 2 ∷ pos (v / 65536 % 256) ∷ pos (v / 256 % 256) ∷ pos (v % 256) ∷ parse_parts ps)
          ≡ (rgb v, 4) =
        extended_components _ _ _ v (parse_parts ps) (omega arith) (omega arith) (omega arith)
          (omega arith) in
      rw (parse_parts-rgb v false ps) (rw (apply_params, e) refl)

  pub set_bg :
      (c : AnsiColor)
      → IsColor c
      → apply_params 0 (record s { bg = no_color }) (parse_parts (color_params c false ++ ps))
        ≡ apply_params 0 (record s { bg = c }) (parse_parts ps)
  set_bg c (inl e) = rw e (unfold color_params in refl)
  set_bg c (inr (inl (v, e, h))) = rw e (set_bg_indexed v h)
  set_bg c (inr (inr (v, e, h))) = rw e (set_bg_rgb v h)
