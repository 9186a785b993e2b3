-- ===== src/Server/Transcript/Hidden.antt =====
-- No line of ptymux's own protocol is ever recorded or shown.
use ptymux.Server.Cleaner.{clean_terminal_string}
use ptymux.Server.Marker.{is_internal_marker_line}
use ptymux.Server.Transcript.{
  reset_sequence, AnsiTranscript, AnsiScanState, scan_text, scan_escape, scan_csi, scan_osc,
  scan_osc_escape, max_transcript_lines, max_transcript_bytes, trim_lines, add_line, commit_line,
  reset_pending, append_pending, ensure_pending_start, append_control_byte, finish_control,
  enter_alt_screen, leave_alt_screen, switch_screen, is_alternate_mode, handle_params, handle_csi,
  write_text_byte, scan_byte, pending_line, write,
}
use ptymux.Server.Transcript.Style.{is_default}
use ptymux.Server.Transcript.Bounds.{IsValid}
use ptymux.Server.Transcript.Chunks.{
  append_pending-SameMode, ensure_pending_start-SameMode, scan, write-eq-scan,
}
use ptymux.Server.Transcript.Recent.{shown_lines}
use ptymux.Prelude.{
  ℕ, suc, ◌-◌, ◌≡◌, refl, sym, subst, false, not, ◌&&◌, ◌||◌, List, [], ◌∷◌, ◌++◌, arith, ltb, leb,
  ◌==◌, if◌then◌else◌, length, All, All-append, Bytes, codes, bytes_eq, if-intro,
}

-- The line reads as text that no marker occurs in.
abbrev pub IsVisible : Bytes → Type 0
IsVisible l = is_internal_marker_line (clean_terminal_string l) ≡ false

abbrev pub Clean : AnsiTranscript → Type 0
Clean t = All IsVisible t.lines

trim_lines-IsVisible :
    (ls : List Bytes) (total : ℕ) → All IsVisible ls → All IsVisible (trim_lines ls total).0
unfolding trim_lines
trim_lines-IsVisible [] total h = tt
trim_lines-IsVisible (l ∷ ls) total h =
    if-intro (λ (x : List Bytes × ℕ). All IsVisible x.0)
      (ltb max_transcript_lines (suc (length ls)) || ltb max_transcript_bytes total)
      (λ _. trim_lines-IsVisible ls (total - length l) h.1) (λ _. h)

add_line-Clean : (t : AnsiTranscript) (l : Bytes) → Clean t → Clean (add_line t l)
unfolding add_line
add_line-Clean t l h =
    if-intro Clean
      (is_internal_marker_line (clean_terminal_string l) || ltb max_transcript_bytes (length l))
      (λ _. h)
      (λ e.
        trim_lines-IsVisible (t.lines ++ l ∷ []) _
          (All-append IsVisible t.lines (l ∷ []) h (ground arith, tt)))

commit_line-Clean : (t : AnsiTranscript) → Clean t → Clean (commit_line t)
unfolding commit_line reset_pending
commit_line-Clean t h = if-intro Clean t.pending_drop (λ _. h) (λ _. add_line-Clean t _ h)

append_pending-Clean : (t : AnsiTranscript) (s : Bytes) → Clean t → Clean (append_pending t s)
append_pending-Clean t s h = subst (All IsVisible) (sym (append_pending-SameMode t s).lines) h

ensure_pending_start-Clean : (t : AnsiTranscript) → Clean t → Clean (ensure_pending_start t)
ensure_pending_start-Clean t h =
    subst (All IsVisible) (sym (ensure_pending_start-SameMode t).lines) h

switch_screen-Clean : (t : AnsiTranscript) (final : ℕ) → Clean t → Clean (switch_screen t final)
unfolding switch_screen enter_alt_screen leave_alt_screen reset_pending
switch_screen-Clean t final h =
    if-intro Clean (final == b'h' && not t.alt_screen) (λ _. h)
      λ _. if-intro Clean (final == b'l' && t.alt_screen) (λ _. h) (λ _. h)

handle_params-Clean :
    (t : AnsiTranscript) (params : Bytes) (final : ℕ)
    → Clean t
    → Clean (handle_params t params final)
unfolding handle_params
handle_params-Clean t params final h =
    if-intro Clean ((final == b'h' || final == b'l') && is_alternate_mode params)
      (λ _. switch_screen-Clean t final h)
      λ _.
        if-intro Clean (final == b'J' && not t.alt_screen && bytes_eq params (codes "3")) (λ _. tt)
          λ _.
            if-intro Clean (not (final == b'm') || t.alt_screen) (λ _. h)
              (λ _. append_pending-Clean _ t.control (ensure_pending_start-Clean t h))

handle_csi-Clean :
    (t : AnsiTranscript) (control : Bytes) → t.control ≡ control → Clean t → Clean (handle_csi t)
unfolding handle_csi
handle_csi-Clean t [] e h = rw (e, handle_csi) h
handle_csi-Clean t (a ∷ []) e h = rw (e, handle_csi) h
handle_csi-Clean t (a ∷ b ∷ []) e h = rw (e, handle_csi) h
handle_csi-Clean t (a ∷ b ∷ c ∷ rest) e h = rw (e, handle_csi) (handle_params-Clean t _ _ h)

write_text_byte-Clean : (t : AnsiTranscript) (b : ℕ) → Clean t → Clean (write_text_byte t b)
unfolding write_text_byte
write_text_byte-Clean t b h =
    let appended : Clean (append_pending t (b ∷ [])) = append_pending-Clean t (b ∷ []) h in
    if-intro Clean (b == 0x1b) (λ _. h)
      λ _.
        if-intro Clean t.alt_screen (λ _. h)
          λ _.
            if-intro Clean (b == b'\n') (λ _. commit_line-Clean t h)
              λ _.
                if-intro Clean (b == b'\r' || b == 0x08 || b == b'\t') (λ _. appended)
                  λ _. if-intro Clean (leb 0x20 b) (λ _. appended) (λ _. h)

append_control_byte-Clean : (t : AnsiTranscript) (b : ℕ) → Clean t → Clean (append_control_byte t b)
unfolding append_control_byte
append_control_byte-Clean t b h = if-intro Clean (ltb (length t.control) 4096) (λ _. h) (λ _. h)

scan_byte-Clean :
    (s : AnsiScanState) (t : AnsiTranscript) (b : ℕ) → Clean t → Clean (scan_byte s t b)
unfolding scan_byte finish_control
scan_byte-Clean scan_text t b h = write_text_byte-Clean t b h
scan_byte-Clean scan_escape t b h =
    let w : Clean (append_control_byte t b) = append_control_byte-Clean t b h in
    if-intro Clean (b == b'[') (λ _. w) λ _. if-intro Clean (b == b']') (λ _. w) (λ _. w)
scan_byte-Clean scan_csi t b h =
    let w : Clean (append_control_byte t b) = append_control_byte-Clean t b h in
    if-intro Clean (leb 0x40 b && leb b 0x7e) (λ _. handle_csi-Clean _ _ refl w) (λ _. w)
scan_byte-Clean scan_osc t b h =
    if-intro Clean (b == 0x07) (λ _. h)
      λ _. if-intro Clean (b == 0x1b) (λ _. h) (λ _. append_control_byte-Clean t b h)
scan_byte-Clean scan_osc_escape t b h =
    if-intro Clean (b == b'\\') (λ _. h)
      (λ _. append_control_byte-Clean _ b (append_control_byte-Clean t 0x1b h))

scan-Clean : (t : AnsiTranscript) (s : Bytes) → Clean t → Clean (scan t s)
unfolding scan
scan-Clean t [] h = h
scan-Clean t (b ∷ s) h = scan-Clean (scan_byte t.state t b) s (scan_byte-Clean t.state t b h)

pending_line-IsVisible : (t : AnsiTranscript) → All IsVisible (pending_line t)
unfolding pending_line
pending_line-IsVisible t =
    let line : Bytes = if is_default t.style then t.pending else t.pending ++ reset_sequence in
    if-intro (All IsVisible) (not t.pending_drop && ltb 0 (length t.pending))
      (λ _.
        if-intro (All IsVisible) (is_internal_marker_line (clean_terminal_string line)) (λ _. tt)
          (λ e. (e, tt)))
      (λ _. tt)

-- If no recorded line of a valid transcript reads as one of ptymux's own marker lines, none of
-- the lines that can be shown does after any chunk, the pending one included.
pub write-IsVisible :
    (t : AnsiTranscript) (s : Bytes)
    → IsValid t
    → All IsVisible t.lines
    → All IsVisible (shown_lines (write t s))
write-IsVisible t s v h =
    All-append IsVisible (write t s).lines _
      (subst Clean (sym (write-eq-scan t s v)) (scan-Clean t s h))
      (pending_line-IsVisible (write t s))
