-- ===== src/Server/Transcript/Bounds.antt =====
-- The memory that a transcript takes, whatever a shell writes.
use ptymux.Server.Transcript.Style.{AnsiStyle, sequence, apply_sgr}
use ptymux.Server.Cleaner.{clean_terminal_string}
use ptymux.Server.Marker.{is_internal_marker_line}
use ptymux.Server.Transcript.{
  is_alternate_mode, is_scan_text, AnsiTranscript, AnsiScanState, scan_text, scan_escape, scan_csi,
  scan_osc, scan_osc_escape, max_transcript_lines, max_transcript_bytes, max_control_bytes,
  empty_transcript, reset_pending, put_pending, put_prefix, ensure_pending_start, append_pending,
  trim_lines, add_line, commit_line, append_control_byte, finish_control, enter_alt_screen,
  leave_alt_screen, switch_screen, handle_params, handle_csi, write_text_byte, scan_byte,
  write_round, write_loop, write,
}
use ptymux.Prelude.{
  ℕ, zero, suc, ◌+◌, ◌-◌, ◌≤◌, ◌≡◌, refl, true, false, not, ◌&&◌, ◌||◌, List, [], ◌∷◌, ◌++◌, arith,
  ltb, leb, ◌==◌, length, length-append, Bytes, codes, bytes_eq, if-intro,
}

abbrev pub size : List Bytes → ℕ
size [] = 0
size (l ∷ ls) = length l + size ls

-- What every transcript satisfies: its bounds, and that a line is marked as started before it
-- gets a byte.
pub record IsValid (t : AnsiTranscript) : Type 0 where
  pub lines_fit : length t.lines ≤ max_transcript_lines
  pub counted : t.total_bytes ≡ size t.lines
  pub bytes_fit : t.total_bytes ≤ max_transcript_bytes
  pub pending_fits : length t.pending ≤ max_transcript_bytes
  pub saved_fits : length t.saved_pending ≤ max_transcript_bytes
  pub control_fits : length t.control ≤ max_control_bytes
  pub started : t.pending_start ≡ false → t.pending ≡ []
  pub saved_started : t.saved_pending_start ≡ false → t.saved_pending ≡ []

size-append : (ls : List Bytes) (l : Bytes) → size (ls ++ l ∷ []) ≡ size ls + length l
size-append [] l = omega arith
size-append (k ∷ ls) l = omega (arith, size-append ls l)

reset_pending-IsValid : (t : AnsiTranscript) → IsValid t → IsValid (reset_pending t)
unfolding reset_pending
reset_pending-IsValid t v = ground arith

put_pending-IsValid :
    (t : AnsiTranscript) (s : Bytes)
    → t.pending_start ≡ true
    → IsValid t
    → IsValid (put_pending t s)
unfolding put_pending
put_pending-IsValid t s h v = ground (arith, length-append t.pending s)

pub put_pending-start :
    (t : AnsiTranscript) (s : Bytes) → (put_pending t s).pending_start ≡ t.pending_start
unfolding put_pending
put_pending-start t s = ground arith

put_prefix-IsValid :
    (t : AnsiTranscript) (s : Bytes) → t.pending_start ≡ true → IsValid t → IsValid (put_prefix t s)
unfolding put_prefix
put_prefix-IsValid t [] h v = v
put_prefix-IsValid t (b ∷ s) h v =
    if-intro IsValid t.pending_drop (λ _. v) (λ _. put_pending-IsValid t (b ∷ s) h v)

put_prefix-start :
    (t : AnsiTranscript) (s : Bytes) → (put_prefix t s).pending_start ≡ t.pending_start
unfolding put_prefix
put_prefix-start t [] = refl
put_prefix-start t (b ∷ s) =
    if-intro (λ (x : AnsiTranscript). x.pending_start ≡ t.pending_start) t.pending_drop (λ _. refl)
      (λ _. put_pending-start t (b ∷ s))

ensure_pending_start-IsValid : (t : AnsiTranscript) → IsValid t → IsValid (ensure_pending_start t)
unfolding ensure_pending_start
ensure_pending_start-IsValid t v =
    if-intro IsValid (t.pending_start || t.pending_drop) (λ _. v)
      (λ _.
        put_prefix-IsValid (record t { pending_start = true }) (sequence t.style) refl
          (ground arith))

pub ensure_pending_start-start :
    (t : AnsiTranscript) → t.pending_drop ≡ false → (ensure_pending_start t).pending_start ≡ true
unfolding ensure_pending_start
ensure_pending_start-start t h =
    if-intro (λ (x : AnsiTranscript). x.pending_start ≡ true) (t.pending_start || t.pending_drop)
      (λ e. ground arith)
      (λ _. put_prefix-start (record t { pending_start = true }) (sequence t.style))

pub append_pending-IsValid :
    (t : AnsiTranscript) (s : Bytes) → IsValid t → IsValid (append_pending t s)
unfolding append_pending
append_pending-IsValid t [] v = v
append_pending-IsValid t (b ∷ s) v =
    if-intro IsValid t.pending_drop (λ _. v)
      λ kept.
        put_pending-IsValid _ (b ∷ s)
          (if-intro (λ (x : AnsiTranscript). x.pending_start ≡ true) t.pending_start (λ e. e)
            (λ _. ensure_pending_start-start t kept))
          (if-intro IsValid t.pending_start (λ _. v) (λ _. ensure_pending_start-IsValid t v))

-- The loop of `addLine` ends within both bounds, and the count stays right.
abbrev Fits : List Bytes × ℕ → Type 0
Fits (lines, total) =
    (length lines ≤ max_transcript_lines) × (total ≡ size lines) × (total ≤ max_transcript_bytes)

trim_lines-Fits : (ls : List Bytes) (total : ℕ) → total ≡ size ls → Fits (trim_lines ls total)
unfolding trim_lines
trim_lines-Fits [] total h = omega arith
trim_lines-Fits (l ∷ ls) total h =
    if-intro Fits (ltb max_transcript_lines (suc (length ls)) || ltb max_transcript_bytes total)
      (λ _. trim_lines-Fits ls (total - length l) (omega arith)) (λ e. ground arith)

add_line-IsValid : (t : AnsiTranscript) (l : Bytes) → IsValid t → IsValid (add_line t l)
unfolding add_line
add_line-IsValid t l v =
    let f : Fits (trim_lines (t.lines ++ l ∷ []) (t.total_bytes + length l)) =
      trim_lines-Fits (t.lines ++ l ∷ []) (t.total_bytes + length l)
        (omega (arith, size-append t.lines l)) in
    if-intro IsValid
      (is_internal_marker_line (clean_terminal_string l) || ltb max_transcript_bytes (length l))
      (λ _. v)
      (λ _. record {
        lines_fit = f.0;
        counted = f.1;
        bytes_fit = f.2;
        pending_fits = v.pending_fits;
        saved_fits = v.saved_fits;
        control_fits = v.control_fits;
        started = v.started;
        saved_started = v.saved_started;
      })

commit_line-IsValid : (t : AnsiTranscript) → IsValid t → IsValid (commit_line t)
unfolding commit_line
commit_line-IsValid t v =
    if-intro IsValid t.pending_drop (λ _. reset_pending-IsValid t v)
      (λ _. reset_pending-IsValid _ (add_line-IsValid t _ v))

append_control_byte-IsValid :
    (t : AnsiTranscript) (b : ℕ) → IsValid t → IsValid (append_control_byte t b)
unfolding append_control_byte
append_control_byte-IsValid t b v = ground (arith, length-append t.control (b ∷ []))

finish_control-IsValid : (t : AnsiTranscript) → IsValid t → IsValid (finish_control t)
unfolding finish_control
finish_control-IsValid t v = ground arith

switch_screen-IsValid :
    (t : AnsiTranscript) (final : ℕ) → IsValid t → IsValid (switch_screen t final)
unfolding switch_screen enter_alt_screen leave_alt_screen
switch_screen-IsValid t final v = ground arith

-- `record t { style = … }` and `record t { state = … }` touch no field of the invariant.
with_style-IsValid :
    (t : AnsiTranscript) (s : AnsiStyle) → IsValid t → IsValid (record t { style = s })
with_style-IsValid t s v = ground arith

with_state-IsValid :
    (t : AnsiTranscript) (s : AnsiScanState) → IsValid t → IsValid (record t { state = s })
with_state-IsValid t s v = ground arith

clear-IsValid :
    (t : AnsiTranscript) → IsValid t → IsValid (record t { lines = []; total_bytes = 0 })
clear-IsValid t v = ground arith

handle_params-IsValid :
    (t : AnsiTranscript) (params : Bytes) (final : ℕ)
    → IsValid t
    → IsValid (handle_params t params final)
unfolding handle_params
handle_params-IsValid t params final v =
    if-intro IsValid ((final == b'h' || final == b'l') && is_alternate_mode params)
      (λ _. switch_screen-IsValid t final v)
      λ _.
        if-intro IsValid (final == b'J' && not t.alt_screen && bytes_eq params (codes "3"))
          (λ _. clear-IsValid t v)
          λ _.
            if-intro IsValid (not (final == b'm') || t.alt_screen) (λ _. v)
              λ _.
                with_style-IsValid (append_pending (ensure_pending_start t) t.control)
                  (apply_sgr _ params)
                  (append_pending-IsValid _ t.control (ensure_pending_start-IsValid t v))

handle_control-IsValid :
    (t : AnsiTranscript) (control : Bytes)
    → t.control ≡ control
    → IsValid t
    → IsValid (handle_csi t)
unfolding handle_csi
handle_control-IsValid t [] e v = rw (e, handle_csi) v
handle_control-IsValid t (a ∷ []) e v = rw (e, handle_csi) v
handle_control-IsValid t (a ∷ b ∷ []) e v = rw (e, handle_csi) v
handle_control-IsValid t (a ∷ b ∷ c ∷ rest) e v = rw (e, handle_csi) (handle_params-IsValid t _ _ v)

write_text_byte-IsValid : (t : AnsiTranscript) (b : ℕ) → IsValid t → IsValid (write_text_byte t b)
unfolding write_text_byte
write_text_byte-IsValid t b v =
    let appended : IsValid (append_pending t (b ∷ [])) = append_pending-IsValid t (b ∷ []) v in
    if-intro IsValid (b == 0x1b) (λ _. ground arith)
      λ _.
        if-intro IsValid t.alt_screen (λ _. v)
          λ _.
            if-intro IsValid (b == b'\n') (λ _. commit_line-IsValid t v)
              λ _.
                if-intro IsValid (b == b'\r' || b == 0x08 || b == b'\t') (λ _. appended)
                  λ _. if-intro IsValid (leb 0x20 b) (λ _. appended) (λ _. v)

-- One byte, in any state of the scanner, keeps the bounds.
pub scan_byte-IsValid :
    (s : AnsiScanState) (t : AnsiTranscript) (b : ℕ) → IsValid t → IsValid (scan_byte s t b)
unfolding scan_byte
scan_byte-IsValid scan_text t b v = write_text_byte-IsValid t b v
scan_byte-IsValid scan_escape t b v =
    let w : IsValid (append_control_byte t b) = append_control_byte-IsValid t b v in
    if-intro IsValid (b == b'[') (λ _. with_state-IsValid _ scan_csi w)
      λ _.
        if-intro IsValid (b == b']') (λ _. with_state-IsValid _ scan_osc w)
          (λ _. finish_control-IsValid _ w)
scan_byte-IsValid scan_csi t b v =
    let w : IsValid (append_control_byte t b) = append_control_byte-IsValid t b v in
    if-intro IsValid (leb 0x40 b && leb b 0x7e)
      (λ _. finish_control-IsValid _ (handle_control-IsValid _ _ refl w)) (λ _. w)
scan_byte-IsValid scan_osc t b v =
    if-intro IsValid (b == 0x07) (λ _. finish_control-IsValid t v)
      λ _.
        if-intro IsValid (b == 0x1b) (λ _. with_state-IsValid t scan_osc_escape v)
          (λ _. append_control_byte-IsValid t b v)
scan_byte-IsValid scan_osc_escape t b v =
    if-intro IsValid (b == b'\\') (λ _. finish_control-IsValid t v)
      (λ _.
        with_state-IsValid _ scan_osc
          (append_control_byte-IsValid _ b (append_control_byte-IsValid t 0x1b v)))

pub write_round-IsValid :
    (t : AnsiTranscript) (b : ℕ) (s : Bytes) → IsValid t → IsValid (write_round t b s).0
unfolding write_round
write_round-IsValid t b s v =
    if-intro (λ (x : AnsiTranscript × Bytes). IsValid x.0) (is_scan_text t.state && leb 0x20 b)
      (λ _. if-intro IsValid t.alt_screen (λ _. v) (λ _. append_pending-IsValid t _ v))
      (λ _. scan_byte-IsValid t.state t b v)

write_loop-IsValid :
    (f : ℕ) (t : AnsiTranscript) (s : Bytes) → IsValid t → IsValid (write_loop f t s)
unfolding write_loop
write_loop-IsValid zero t s v = v
write_loop-IsValid (suc f) t [] v = v
write_loop-IsValid (suc f) t (b ∷ s) v = write_loop-IsValid f _ _ (write_round-IsValid t b s v)

-- Any chunk keeps the bounds of a transcript: at most 4096 lines, 131072 bytes of lines (counted
-- exactly by `total_bytes`), 131072 pending bytes, as many saved ones, and 4096 control bytes.
pub write-IsValid : (t : AnsiTranscript) (s : Bytes) → IsValid t → IsValid (write t s)
unfolding write
write-IsValid t s v = write_loop-IsValid (length s) t s v

pub empty_transcript-IsValid : IsValid empty_transcript
empty_transcript-IsValid = record {
  lines_fit = omega arith;
  counted = refl;
  bytes_fit = omega arith;
  pending_fits = omega arith;
  saved_fits = omega arith;
  control_fits = omega arith;
  started = λ e. refl;
  saved_started = λ e. refl;
}
