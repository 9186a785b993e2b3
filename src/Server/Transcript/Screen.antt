-- ===== src/Server/Transcript/Screen.antt =====
-- The alternate screen: what a full-screen program writes leaves no trace in the transcript.
use ptymux.Server.Transcript.{
  AnsiTranscript, AnsiScanState, scan_text, scan_escape, scan_csi, scan_osc, scan_osc_escape,
  append_control_byte, finish_control, enter_alt_screen, leave_alt_screen, switch_screen,
  handle_params, handle_csi, write_text_byte, scan_byte, write, is_alternate_mode,
}
use ptymux.Server.Transcript.Bounds.{IsValid, write-IsValid}
use ptymux.Server.Transcript.Chunks.{scan, write-eq-scan}
use ptymux.Std.Strings.{split}
use ptymux.Std.Strconv.{atoi}
use ptymux.Prelude.{
  ℕ, ◌≡◌, refl, sym, ap, ◌∙◌, subst, Bool, true, false, [], ◌∷◌, ◌++◌, arith, Bytes, codes,
}

-- All but the scanner's place in an escape sequence is the same.
abbrev Frozen : AnsiTranscript → AnsiTranscript → Type 0
Frozen t u = u ≡ record t { state = u.state; control = u.control }

Frozen-trans : (t u w : AnsiTranscript) → Frozen t u → Frozen u w → Frozen t w
Frozen-trans t u w h k = ground arith

abbrev Stay : AnsiTranscript → AnsiTranscript → Type 0
Stay t u = u.alt_screen ≡ true → Frozen t u

append_control_byte-Frozen : (t : AnsiTranscript) (b : ℕ) → Frozen t (append_control_byte t b)
unfolding append_control_byte
append_control_byte-Frozen t b = ground arith

handle_params-Stay :
    (t : AnsiTranscript) (params : Bytes) (final : ℕ)
    → t.alt_screen ≡ true
    → Stay t (handle_params t params final)
unfolding handle_params switch_screen leave_alt_screen
handle_params-Stay t params final alt = ground arith

handle_csi-Stay :
    (t : AnsiTranscript) (control : Bytes)
    → t.control ≡ control
    → t.alt_screen ≡ true
    → Stay t (handle_csi t)
unfolding handle_csi
handle_csi-Stay t [] e alt = rw (e, handle_csi) (λ _. refl)
handle_csi-Stay t (a ∷ []) e alt = rw (e, handle_csi) (λ _. refl)
handle_csi-Stay t (a ∷ b ∷ []) e alt = rw (e, handle_csi) (λ _. refl)
handle_csi-Stay t (a ∷ b ∷ c ∷ rest) e alt = rw (e, handle_csi) (handle_params-Stay t _ _ alt)

-- On the alternate screen a byte changes nothing, or it ends in leaving that screen.
scan_byte-Stay :
    (s : AnsiScanState) (t : AnsiTranscript) (b : ℕ)
    → t.alt_screen ≡ true
    → Stay t (scan_byte s t b)
unfolding scan_byte write_text_byte append_control_byte finish_control
scan_byte-Stay scan_text t b alt = ground arith
scan_byte-Stay scan_escape t b alt = ground arith
scan_byte-Stay scan_csi t b alt =
    let t' = append_control_byte t b in ground (arith, handle_csi-Stay t' t'.control refl alt')
  where
    alt' : (append_control_byte t b).alt_screen ≡ true
    alt' = ground arith
scan_byte-Stay scan_osc t b alt = ground arith
scan_byte-Stay scan_osc_escape t b alt = ground arith

-- The alternate screen is up before the text and behind each byte of it.
abbrev pub StaysAlt : AnsiTranscript → Bytes → Type 0
StaysAlt t [] = t.alt_screen ≡ true
StaysAlt t (b ∷ s) = (t.alt_screen ≡ true) × StaysAlt (scan_byte t.state t b) s

StaysAlt-alt : (t : AnsiTranscript) (s : Bytes) → StaysAlt t s → t.alt_screen ≡ true
StaysAlt-alt t [] h = h
StaysAlt-alt t (b ∷ s) h = h.0

scan-Frozen : (t : AnsiTranscript) (s : Bytes) → StaysAlt t s → Frozen t (scan t s)
unfolding scan
scan-Frozen t [] h = refl
scan-Frozen t (b ∷ s) h =
    Frozen-trans t (scan_byte t.state t b) (scan (scan_byte t.state t b) s)
      (scan_byte-Stay t.state t b h.0 (StaysAlt-alt _ s h.1))
      (scan-Frozen (scan_byte t.state t b) s h.1)

-- the private modes that are an alternate screen
pub data ScreenMode : Type 0 where
  mode_47 mode_1047 mode_1049 : ScreenMode

unfoldable pub mode_text : ScreenMode → Bytes
mode_text mode_47 = codes "47"
mode_text mode_1047 = codes "1047"
mode_text mode_1049 = codes "1049"

abbrev pub enter_sequence : ScreenMode → Bytes
enter_sequence mode = 0x1b ∷ codes "[?" ++ mode_text mode ++ codes "h"

abbrev pub leave_sequence : ScreenMode → Bytes
leave_sequence mode = 0x1b ∷ codes "[?" ++ mode_text mode ++ codes "l"

enter_text :
    (mode : ScreenMode) (t : AnsiTranscript)
    → t.alt_screen ≡ false
    → scan (record t { state = scan_text; alt_screen = false }) (enter_sequence mode)
      ≡ record (enter_alt_screen t) { state = scan_text; control = [] }
unfolding scan scan_byte write_text_byte append_control_byte finish_control handle_csi handle_params
    switch_screen is_alternate_mode enter_alt_screen split atoi mode_text
enter_text mode_47 t h = refl
enter_text mode_1047 t h = refl
enter_text mode_1049 t h = refl

leave_text :
    (mode : ScreenMode) (t : AnsiTranscript)
    → scan (record t { state = scan_text; alt_screen = true }) (leave_sequence mode)
      ≡ record (leave_alt_screen t) { state = scan_text; control = [] }
unfolding scan scan_byte write_text_byte append_control_byte finish_control handle_csi handle_params
    switch_screen is_alternate_mode leave_alt_screen split atoi mode_text
leave_text mode_47 t = refl
leave_text mode_1047 t = refl
leave_text mode_1049 t = refl

-- The transcript `t` seen through the equations of its scanner and screen.
in_mode :
    (t : AnsiTranscript) (s : AnsiScanState) (alt : Bool)
    → t.state ≡ s
    → t.alt_screen ≡ alt
    → t ≡ record t { state = s; alt_screen = alt }
in_mode t s alt e a = ground arith

left :
    (t a b c : AnsiTranscript)
    → t.state ≡ scan_text
    → t.alt_screen ≡ false
    → a ≡ record (enter_alt_screen t) { state = scan_text; control = [] }
    → Frozen a b
    → c ≡ record (leave_alt_screen b) { state = scan_text; control = [] }
    → c ≡ record t {
      control = [];
      saved_pending = [];
      saved_pending_start = false;
      saved_pending_drop = false;
      saved_style = t.style;
    }
unfolding enter_alt_screen leave_alt_screen
left t a b c e alt entered frozen leaves = ground arith

-- From a valid transcript between escape sequences, off the alternate screen: a program that
-- enters the alternate screen by any of the modes 47, 1047 and 1049, writes anything that does not
-- leave it and ends between escape sequences, and then leaves it by any of them, has changed neither the recorded lines nor the pending line nor
-- the style; only the saved copies and the control buffer are reset.
pub write-alt_screen :
    (enters leaves : ScreenMode) (t : AnsiTranscript) (s : Bytes)
    → IsValid t
    → t.state ≡ scan_text
    → t.alt_screen ≡ false
    → StaysAlt (write t (enter_sequence enters)) s
    → (write (write t (enter_sequence enters)) s).state ≡ scan_text
    → write (write (write t (enter_sequence enters)) s) (leave_sequence leaves) ≡ record t {
      control = [];
      saved_pending = [];
      saved_pending_start = false;
      saved_pending_drop = false;
      saved_style = t.style;
    }
write-alt_screen enters leaves t s v e alt stays ends =
    let a = write t (enter_sequence enters) in
    let b = write a s in
    let valid : IsValid a = write-IsValid t (enter_sequence enters) v in
    let entered : a ≡ record (enter_alt_screen t) { state = scan_text; control = [] } =
      write-eq-scan t (enter_sequence enters) v
      ∙ ap (λ x. scan x (enter_sequence enters)) (in_mode t scan_text false e alt)
      ∙ enter_text enters t alt in
    let frozen : Frozen a b =
      subst (Frozen a) (sym (write-eq-scan a s valid)) (scan-Frozen a s stays) in
    let still : b.alt_screen ≡ true =
      ap (λ (x : AnsiTranscript). x.alt_screen) frozen ∙ StaysAlt-alt a s stays in
    left t a b _ e alt entered frozen (
      write-eq-scan b (leave_sequence leaves) (write-IsValid a s valid)
      ∙ ap (λ x. scan x (leave_sequence leaves)) (in_mode b scan_text true ends still)
      ∙ leave_text leaves b)
