-- ===== src/Server/Format.antt =====
-- internal/server/tab.go: how the output of a command is formatted for the client.
pub mod Prompt
mod Examples
use ptymux.Server.Cleaner.{clean_terminal_string}
use ptymux.Server.Collector.{RunCollector, complete_utf8_prefix}
use ptymux.Server.Marker.{is_internal_marker_line}
use ptymux.Std.Strings.{contains, join, split, trim_right}
use ptymux.Std.Strings.Trim.{trim_space}
use ptymux.Std.Strconv.{ℤ}
use ptymux.Prelude.{
  ℕ, zero, suc, ◌+◌, ◌-◌, ◌*◌, ◌/◌, ◌%◌, ◌^◌, ◌≤◌, ◌<◌, min, ◌≡◌, refl, sym, ap, ◌∙◌, subst, ◌≢◌,
  ◌↔◌, ◌⊎◌, inl, inr, Bool, true, false, not, ◌&&◌, ◌||◌, Option, none, some, List, [], ◌∷◌, ◌++◌,
  map, append_assoc, append-nil, arith, ltb, leb, ◌==◌, if◌then◌else◌, ltb→lt, lt→ltb, leb→le,
  ==_iff, tests, Bool-cases, Option-cases, length, set, take, drop, length-append, length-set,
  take-append-drop, length-take, length-drop, take-of-length-le, take-length-append,
  drop-length-append, All, All-append, All-take, All-drop, Bytes, codes, bytes_eq, bytes_eq_refl,
  bytes_eq_iff, if-intro, take-append-of-le, drop-append-of-le,
}

-- strings.ReplaceAll(s, "\r\n", "\n")
replace_crlf : Bytes → Bytes
replace_crlf [] = []
replace_crlf (c ∷ []) = c ∷ []
replace_crlf (c ∷ d ∷ s) =
    let joined = replace_crlf s in
    let rest = replace_crlf (d ∷ s) in if c == b'\r' && d == b'\n' then b'\n' ∷ joined else c ∷ rest

-- strings.TrimLeft(s, "\n")
trim_left_newlines : Bytes → Bytes
trim_left_newlines [] = []
trim_left_newlines (c ∷ s) = let rest = trim_left_newlines s in if c == b'\n' then rest else c ∷ s

-- strings.Trim(s, "\n"), and `trimOutputBoundary`
pub trim_output_boundary : Bytes → Bytes
unfolding trim_left_newlines trim_right
trim_output_boundary output = trim_left_newlines (trim_right b'\n' output)

is_echo_line : Bytes → Bool
unfolding is_internal_marker_line contains
is_echo_line line = is_internal_marker_line line || contains line (codes "printf '\\n%s%s:%s\\n'")

pub drop_echo_lines : List Bytes → List Bytes
unfolding is_echo_line
drop_echo_lines [] = []
drop_echo_lines (line ∷ lines) =
    let rest = drop_echo_lines lines in if is_echo_line line then rest else line ∷ rest

-- the last byte, or none for an empty text
last_byte : Bytes → Option ℕ
last_byte [] = none
last_byte (c ∷ []) = some c
last_byte (c ∷ d ∷ s) = last_byte (d ∷ s)

ends_prompt : Option ℕ → Bool
ends_prompt none = false
ends_prompt (some c) = c == b'$' || c == b'#' || c == b'>' || c == b'%'

pub is_prompt_like : Bytes → Bool
unfolding trim_space last_byte ends_prompt
is_prompt_like line = ends_prompt (last_byte (trim_space line))

-- `lines[len(lines)-1]`
pub last_line : Bytes → List Bytes → Bytes
last_line line [] = line
last_line line (l ∷ lines) = last_line l lines

-- The prompt put before the echo of the command.
pub put_prompt : Bytes → Bytes → Bytes → List Bytes → Bytes
unfolding is_prompt_like join
put_prompt output prompt first lines =
    if is_prompt_like prompt then join (codes "\n") ((prompt ++ first) ∷ lines) else output

pub format_lines : Bytes → List Bytes → Bytes → Bytes → Bytes
unfolding put_prompt last_line
format_lines output (first ∷ second ∷ lines) command prefix =
    if bytes_eq first command
    then put_prompt output (if length prefix == 0 then last_line second lines else prefix) first
        (second ∷ lines)
    else output
format_lines output _ command prefix = output

pub format_command_transcript : Bytes → Bytes → Bytes → Bytes
unfolding format_lines split
format_command_transcript output command prefix =
    format_lines output (split b'\n' output) command prefix

pub format_run_output : Bytes → Bytes → Bytes → Bytes
unfolding replace_crlf drop_echo_lines trim_output_boundary format_command_transcript
format_run_output raw command prefix =
    let cleaned = clean_terminal_string (replace_crlf raw) in
    format_command_transcript
      (trim_output_boundary (join (codes "\n") (drop_echo_lines (split b'\n' cleaned)))) command
      prefix

pub record RunResult : Type 0 where
  pub output : Bytes
  pub exit_code : ℤ
  pub truncated : Bool

-- `runCollector.result`
pub result : RunCollector → Bytes → Bytes → RunResult
unfolding complete_utf8_prefix format_run_output
result c command prefix =
    let complete = complete_utf8_prefix c.output in
    record {
      output = format_run_output (take complete c.output) command prefix;
      exit_code = c.exit_code;
      truncated = if ltb complete (length c.output) then true else c.truncated;
    }
