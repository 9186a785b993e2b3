-- ===== src/Server/Transcript.antt =====
-- internal/server/transcript.go: the recent output of a shell, kept as ANSI lines. `Write` is the
-- loop over the bytes of a chunk; the alternate screen is not recorded. A Go slice is a list, and
-- `total_bytes` a ℕ (it is the sum of the lines' lengths: Transcript/Bounds).
mod Examples
pub mod Style
pub mod Bounds
pub mod Chunks
pub mod Screen
pub mod Recent
pub mod Hidden
use ptymux.Std.Strings.{join, split, trim_suffix}
use ptymux.Std.Strconv.{atoi, ℤ}
use ptymux.Server.Cleaner.{clean_terminal_string}
use ptymux.Server.Marker.{is_internal_marker_line}
use Style.{AnsiStyle, default_style, is_default, sequence, apply_sgr, is_int}
use ptymux.Prelude.{
  ℕ, zero, suc, ◌+◌, ◌-◌, ◌*◌, ◌/◌, ◌%◌, ◌^◌, ◌≤◌, ◌<◌, min, ◌≡◌, refl, sym, ap, ◌∙◌, subst, ◌≢◌,
  ◌↔◌, ◌⊎◌, inl, inr, Bool, true, false, not, ◌&&◌, ◌||◌, Option, none, some, List, [], ◌∷◌, ◌++◌,
  map, append_assoc, append-nil, arith, ltb, leb, ◌==◌, if◌then◌else◌, ltb→lt, lt→ltb, leb→le,
  ==_iff, tests, Bool-cases, Option-cases, length, set, take, drop, length-append, length-set,
  take-append-drop, length-take, length-drop, take-of-length-le, take-length-append,
  drop-length-append, All, All-append, All-take, All-drop, Bytes, codes, bytes_eq, bytes_eq_refl,
  bytes_eq_iff, if-intro, take-append-of-le, drop-append-of-le,
}

abbrev pub max_transcript_lines : ℕ
max_transcript_lines = 4096

abbrev pub max_transcript_bytes : ℕ
max_transcript_bytes = 131072

abbrev pub max_control_bytes : ℕ
max_control_bytes = 4096

pub data AnsiScanState : Type 0 where
  scan_text scan_escape scan_csi scan_osc scan_osc_escape : AnsiScanState

pub record AnsiTranscript : Type 0 where
  pub lines : List Bytes
  pub total_bytes : ℕ
  pub pending : Bytes
  pub pending_start : Bool
  pub pending_drop : Bool
  pub saved_pending : Bytes
  pub saved_pending_start : Bool
  pub saved_pending_drop : Bool
  pub state : AnsiScanState
  pub control : Bytes
  pub style : AnsiStyle
  pub saved_style : AnsiStyle
  pub alt_screen : Bool

abbrev pub empty_transcript : AnsiTranscript
empty_transcript = record {
  lines = [];
  total_bytes = 0;
  pending = [];
  pending_start = false;
  pending_drop = false;
  saved_pending = [];
  saved_pending_start = false;
  saved_pending_drop = false;
  state = scan_text;
  control = [];
  style = default_style;
  saved_style = default_style;
  alt_screen = false;
}

pub reset_pending : AnsiTranscript → AnsiTranscript
reset_pending t = record t { pending = []; pending_start = false; pending_drop = false }

-- The size test and the write at the end of `appendPending`.
pub put_pending : AnsiTranscript → Bytes → AnsiTranscript
put_pending t input =
    if ltb max_transcript_bytes (length t.pending + length input)
    then record t { pending = []; pending_drop = true }
    else record t { pending = t.pending ++ input }

-- `appendPending(prefix)` where `pendingStart` is set
pub put_prefix : AnsiTranscript → Bytes → AnsiTranscript
put_prefix t [] = t
put_prefix t (b ∷ prefix) = if t.pending_drop then t else put_pending t (b ∷ prefix)

pub ensure_pending_start : AnsiTranscript → AnsiTranscript
unfolding put_prefix
ensure_pending_start t =
    if t.pending_start || t.pending_drop
    then t
    else put_prefix (record t { pending_start = true }) (sequence t.style)

pub append_pending : AnsiTranscript → Bytes → AnsiTranscript
append_pending t [] = t
append_pending t (b ∷ input) =
    if t.pending_drop
    then t
    else put_pending (if t.pending_start then t else ensure_pending_start t) (b ∷ input)

-- the loop of `addLine`; with no line left the source would panic, and `total` is 0 there
pub trim_lines : List Bytes → ℕ → List Bytes × ℕ
trim_lines [] total = ([], total)
trim_lines (line ∷ lines) total =
    if ltb max_transcript_lines (suc (length lines)) || ltb max_transcript_bytes total
    then trim_lines lines (total - length line)
    else (line ∷ lines, total)

pub add_line : AnsiTranscript → Bytes → AnsiTranscript
unfolding trim_lines
add_line t line =
    if is_internal_marker_line (clean_terminal_string line)
      || ltb max_transcript_bytes (length line)
    then t
    else let (lines, total) = trim_lines (t.lines ++ line ∷ []) (t.total_bytes + length line) in
      record t { lines = lines; total_bytes = total }

abbrev pub reset_sequence : Bytes
reset_sequence = 0x1b ∷ codes "[0m"

-- `line != "" && !t.style.isDefault()`
pub with_reset : AnsiStyle → Bytes → Bytes
with_reset style [] = []
with_reset style (b ∷ line) = if is_default style then b ∷ line else (b ∷ line) ++ reset_sequence

pub commit_line : AnsiTranscript → AnsiTranscript
unfolding reset_pending
commit_line t =
    if t.pending_drop
    then reset_pending t
    else reset_pending (add_line t (with_reset t.style (trim_suffix b'\r' t.pending)))

pub append_control_byte : AnsiTranscript → ℕ → AnsiTranscript
append_control_byte t b =
    if ltb (length t.control) max_control_bytes
    then record t { control = t.control ++ b ∷ [] }
    else t

pub finish_control : AnsiTranscript → AnsiTranscript
finish_control t = record t { control = []; state = scan_text }

has_parameter_in : List Bytes → ℕ → Bool
has_parameter_in [] want = false
has_parameter_in (raw ∷ parts) want =
    elim (atoi raw) [ none ↦ false | some value ↦ is_int want value ] || has_parameter_in parts want

has_csi_parameter : Bytes → ℕ → Bool
unfolding has_parameter_in
has_csi_parameter params want = has_parameter_in (split b';' params) want

pub has_alternate_screen_mode : Bytes → Bool
unfolding has_csi_parameter
has_alternate_screen_mode params =
    has_csi_parameter params 47 || has_csi_parameter params 1047 || has_csi_parameter params 1049

pub enter_alt_screen : AnsiTranscript → AnsiTranscript
unfolding reset_pending
enter_alt_screen t = reset_pending (record t {
  saved_style = t.style;
  saved_pending = t.pending;
  saved_pending_start = t.pending_start;
  saved_pending_drop = t.pending_drop;
  alt_screen = true;
})

pub leave_alt_screen : AnsiTranscript → AnsiTranscript
leave_alt_screen t = record t {
  alt_screen = false;
  style = t.saved_style;
  pending = t.saved_pending;
  pending_start = t.saved_pending_start;
  pending_drop = t.saved_pending_drop;
  saved_pending = [];
  saved_pending_start = false;
  saved_pending_drop = false;
}

-- `final == 'h'` and `final == 'l'` of an alternate screen mode
pub switch_screen : AnsiTranscript → ℕ → AnsiTranscript
switch_screen t final =
    if final == b'h' && not t.alt_screen
    then enter_alt_screen t
    else if final == b'l' && t.alt_screen
    then leave_alt_screen t
    else t

-- `strings.HasPrefix(params, "?") && hasAlternateScreenMode(params[1:])`
pub is_alternate_mode : Bytes → Bool
unfolding has_alternate_screen_mode
is_alternate_mode [] = false
is_alternate_mode (b ∷ params) = b == b'?' && has_alternate_screen_mode params

-- `handleCSI` behind the cut of the control sequence into parameters and final byte
pub handle_params : AnsiTranscript → Bytes → ℕ → AnsiTranscript
handle_params t params final =
    if (final == b'h' || final == b'l') && is_alternate_mode params
    then switch_screen t final
    else if final == b'J' && not t.alt_screen && bytes_eq params (codes "3")
    then record t { lines = []; total_bytes = 0 }
    else if not (final == b'm') || t.alt_screen
    then t
    else let t' = append_pending (ensure_pending_start t) t.control in
      record t' { style = apply_sgr t'.style params }

-- A list that is not empty as its last element and the others.
pub split_last : ℕ → Bytes → Bytes × ℕ
split_last b [] = ([], b)
split_last b (c ∷ s) = let (front, last) = split_last c s in (b ∷ front, last)

pub handle_csi : AnsiTranscript → AnsiTranscript
unfolding split_last
handle_csi t = elim t.control [
  | esc ∷ bracket ∷ b ∷ rest ↦
      let (params, final) = split_last b rest in handle_params t params final
  | _ ↦ t
]

pub write_text_byte : AnsiTranscript → ℕ → AnsiTranscript
write_text_byte t b =
    if b == 0x1b
    then record t { state = scan_escape; control = b ∷ [] }
    else if t.alt_screen
    then t
    else if b == b'\n'
    then commit_line t
    else if b == b'\r' || b == 0x08 || b == b'\t'
    then append_pending t (b ∷ [])
    else if leb 0x20 b
    then append_pending t (b ∷ [])
    else t

-- the `switch t.state` of `Write`
pub scan_byte : AnsiScanState → AnsiTranscript → ℕ → AnsiTranscript
scan_byte scan_text t b = write_text_byte t b
scan_byte scan_escape t b =
    let t' = append_control_byte t b in
    if b == b'['
    then record t' { state = scan_csi }
    else if b == b']'
    then record t' { state = scan_osc }
    else finish_control t'
scan_byte scan_csi t b =
    let t' = append_control_byte t b in
    if leb 0x40 b && leb b 0x7e then finish_control (handle_csi t') else t'
scan_byte scan_osc t b =
    if b == 0x07
    then finish_control t
    else if b == 0x1b
    then record t { state = scan_osc_escape }
    else append_control_byte t b
scan_byte scan_osc_escape t b =
    if b == b'\\'
    then finish_control t
    else record (append_control_byte (append_control_byte t 0x1b) b) { state = scan_osc }

pub is_scan_text : AnsiScanState → Bool
is_scan_text scan_text = true
is_scan_text _ = false

-- `for end < len(data) && data[end] >= 0x20 { end++ }`: the run, and what follows it
pub text_run : Bytes → Bytes × Bytes
text_run [] = ([], [])
text_run (b ∷ s) =
    let (run, rest) = text_run s in if leb 0x20 b then (b ∷ run, rest) else ([], b ∷ s)

-- One round of the loop of `Write` on the bytes that are left.
pub write_round : AnsiTranscript → ℕ → Bytes → AnsiTranscript × Bytes
unfolding is_scan_text text_run
write_round t b s =
    let (run, rest) = text_run s in
    if is_scan_text t.state && leb 0x20 b
    then (if t.alt_screen then t else append_pending t (b ∷ run), rest)
    else (scan_byte t.state t b, s)

pub write_loop : ℕ → AnsiTranscript → Bytes → AnsiTranscript
unfolding write_round
write_loop zero t input = t
write_loop (suc f) t [] = t
write_loop (suc f) t (b ∷ s) = let (t', rest) = write_round t b s in write_loop f t' rest

-- Each round takes a byte at least, so the length of the input is fuel enough.
pub write : AnsiTranscript → Bytes → AnsiTranscript
unfolding write_loop
write t input = write_loop (length input) t input

-- `transcriptSize`: the lines with a newline between them
pub transcript_size : List Bytes → ℕ
transcript_size [] = 0
transcript_size (l ∷ []) = length l
transcript_size (l ∷ m ∷ lines) = length l + 1 + transcript_size (m ∷ lines)

-- `for transcriptSize(lines) > maxTranscriptBytes && len(lines) > 0`
pub fit_lines : List Bytes → List Bytes
fit_lines [] = []
fit_lines (l ∷ lines) =
    if ltb max_transcript_bytes (transcript_size (l ∷ lines)) then fit_lines lines else l ∷ lines

-- `lines[len(lines)-count:]` if there are more than `count` lines
pub last_lines : ℕ → List Bytes → List Bytes
last_lines count lines =
    if ltb count (length lines) then drop (length lines - count) lines else lines

-- the line that is not complete yet, as a list of one line or none
pub pending_line : AnsiTranscript → List Bytes
pending_line t =
    let line = if is_default t.style then t.pending else t.pending ++ reset_sequence in
    if not t.pending_drop && ltb 0 (length t.pending)
    then (if is_internal_marker_line (clean_terminal_string line) then [] else line ∷ [])
    else []

pub recent_lines : AnsiTranscript → ℕ → Bytes
unfolding transcript_size fit_lines last_lines pending_line
recent_lines t zero = []
recent_lines t (suc n) =
    join (codes "\n") (fit_lines (last_lines (suc n) (t.lines ++ pending_line t)))
