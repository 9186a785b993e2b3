-- ===== src/Server/Transcript/Examples.antt =====
-- The theorems on transcripts at concrete inputs.
use ptymux.Server.Transcript.Style.{AnsiStyle, default_style, is_default, sequence}
use ptymux.Server.Transcript.Style.Replay.{Replays, sequence-Replays}
use ptymux.Server.Transcript.{
  AnsiTranscript, scan_text, empty_transcript, write, recent_lines, write_loop, write_round,
  scan_byte, handle_csi, handle_params, write_text_byte, append_control_byte, finish_control,
  is_alternate_mode, switch_screen, enter_alt_screen, max_transcript_bytes,
}
use ptymux.Server.Transcript.Bounds.{IsValid, write-IsValid, empty_transcript-IsValid}
use ptymux.Server.Transcript.Chunks.{scan, write-eq-scan, write-append}
use ptymux.Server.Transcript.Screen.{
  StaysAlt, mode_47, mode_1049, mode_text, enter_sequence, leave_sequence, write-alt_screen,
}
use ptymux.Server.Transcript.Hidden.{IsVisible, write-IsVisible}
use ptymux.Server.Transcript.Recent.{IsLongest, shown_lines, recent_lines-IsLongest}
use ptymux.Std.Strings.{join, split}
use ptymux.Std.Strconv.{atoi}
use ptymux.Prelude.{
  ◌-◌, ◌≤◌, ◌≡◌, refl, inl, inr, true, false, List, [], ◌∷◌, ◌++◌, arith, length, drop, All, Bytes,
  codes,
}

-- a coloured line and the start of another one
abbrev two_lines : Bytes
two_lines = 0x1b ∷ codes "[31mred\nplain"

write-eq-scan_example : write empty_transcript two_lines ≡ scan empty_transcript two_lines
write-eq-scan_example = write-eq-scan empty_transcript two_lines empty_transcript-IsValid

write-append_example :
    write empty_transcript (two_lines ++ two_lines)
    ≡ write (write empty_transcript two_lines) two_lines
write-append_example = write-append empty_transcript two_lines two_lines empty_transcript-IsValid

write-IsValid_example : IsValid (write empty_transcript two_lines)
write-IsValid_example = write-IsValid empty_transcript two_lines empty_transcript-IsValid

-- a prompt that has been typed at, before an editor starts
abbrev prompt : AnsiTranscript
prompt = record empty_transcript { pending = codes "$ vi"; pending_start = true }

prompt-IsValid : IsValid prompt
prompt-IsValid = record {
  lines_fit = omega arith;
  counted = refl;
  bytes_fit = omega arith;
  pending_fits = omega arith;
  saved_fits = omega arith;
  control_fits = omega arith;
  started = λ e. cc;
  saved_started = λ e. refl;
}

editor-StaysAlt : StaysAlt (write prompt (enter_sequence mode_1049)) (codes "~\n")
unfolding write write_loop write_round scan_byte handle_csi handle_params split atoi write_text_byte
    append_control_byte finish_control is_alternate_mode switch_screen enter_alt_screen mode_text
editor-StaysAlt = (refl, (refl, refl))

editor-ends : (write (write prompt (enter_sequence mode_1049)) (codes "~\n")).state ≡ scan_text
unfolding write write_loop write_round scan_byte handle_csi handle_params split atoi write_text_byte
    append_control_byte finish_control is_alternate_mode switch_screen enter_alt_screen mode_text
editor-ends = refl

write-alt_screen_example :
    write (write (write prompt (enter_sequence mode_1049)) (codes "~\n")) (leave_sequence mode_47)
    ≡ record prompt {
      control = [];
      saved_pending = [];
      saved_pending_start = false;
      saved_pending_drop = false;
      saved_style = default_style;
    }
write-alt_screen_example =
    write-alt_screen mode_1049 mode_47 prompt (codes "~\n") prompt-IsValid refl refl editor-StaysAlt
      editor-ends

write-IsVisible_example : All IsVisible (shown_lines (write empty_transcript two_lines))
write-IsVisible_example = write-IsVisible empty_transcript two_lines empty_transcript-IsValid tt

recent_lines-IsLongest_example :
    (length (recent_lines prompt 2) ≤ max_transcript_bytes)
    × ((shown : List Bytes) × (recent_lines prompt 2 ≡ join (codes "\n") shown)
        × IsLongest (drop (length (shown_lines prompt) - 2) (shown_lines prompt)) shown)
recent_lines-IsLongest_example = recent_lines-IsLongest prompt 1

-- red on an RGB background
abbrev red : AnsiStyle
red = record default_style {
  fg = record { kind = 1; value = 1 };
  bg = record { kind = 2; value = 66051 };
}

red-is_default : is_default red ≡ false
unfolding is_default
red-is_default = refl

sequence-Replays_example : Replays red (sequence red)
sequence-Replays_example =
    sequence-Replays red (inr (inl (1, refl, omega arith))) (inr (inr (66051, refl, omega arith)))
      red-is_default
