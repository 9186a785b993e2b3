-- ===== src/Server/Format/Prompt.antt =====
-- What the formatting of a command's output changes.
use ptymux.Server.Format.{
  format_command_transcript, format_lines, is_prompt_like, last_line, put_prompt,
}
use ptymux.Std.Strings.{join}
use ptymux.Std.Strings.SplitJoin.{split-join, Lacks}
use ptymux.Prelude.{
  ◌≡◌, refl, ap, ◌∙◌, inl, inr, ◌&&◌, List, [], ◌∷◌, ◌++◌, append_assoc, ◌==◌, if◌then◌else◌,
  Bool-cases, length, All, Bytes, codes, bytes_eq,
}

join-prefix :
    (prompt first second : Bytes) (lines : List Bytes)
    → join (codes "\n") ((prompt ++ first) ∷ second ∷ lines)
      ≡ prompt ++ join (codes "\n") (first ∷ second ∷ lines)
unfolding join
join-prefix prompt first second lines = append_assoc prompt first _

last_line-append :
    (line last : Bytes) (lines : List Bytes) → last_line line (lines ++ last ∷ []) ≡ last
unfolding last_line
last_line-append line last [] = refl
last_line-append line last (l ∷ lines) = last_line-append l last lines

-- the prompt of the shell: the one before the command if it is known, or else the last line
abbrev pub prompt_of : Bytes → Bytes → Bytes
prompt_of prefix last = if length prefix == 0 then last else prefix

put_prompt-if :
    (output prompt first second : Bytes) (lines : List Bytes)
    → join (codes "\n") (first ∷ second ∷ lines) ≡ output
    → put_prompt output prompt first (second ∷ lines)
      ≡ (if is_prompt_like prompt then prompt ++ output else output)
unfolding put_prompt
put_prompt-if output prompt first second lines e =
    ap (λ x. if is_prompt_like prompt then x else output)
      (join-prefix prompt first second lines ∙ ap (◌++◌ prompt) e)

put_prompt_of :
    (output first second command prefix found last : Bytes) (lines : List Bytes)
    → join (codes "\n") (first ∷ second ∷ lines) ≡ output
    → found ≡ last
    → (if bytes_eq first command
        then put_prompt output (if length prefix == 0 then found else prefix) first (second ∷ lines)
        else output)
      ≡ (if bytes_eq first command && is_prompt_like (prompt_of prefix last)
          then prompt_of prefix last ++ output
          else output)
put_prompt_of output first second command prefix found last lines e f =
    elim (Bool-cases (bytes_eq first command)) [
      | inl h ↦ rw h (
          put_prompt-if output (prompt_of prefix found) first second lines e
          ∙ ap
              (λ l.
                if is_prompt_like (prompt_of prefix l)
                then prompt_of prefix l ++ output
                else output)
              f)
      | inr h ↦ rw h refl
    ]

format_lines-if :
    (output first last command prefix : Bytes) (middle : List Bytes)
    → join (codes "\n") (first ∷ middle ++ last ∷ []) ≡ output
    → format_lines output (first ∷ middle ++ last ∷ []) command prefix ≡ (
        if bytes_eq first command && is_prompt_like (prompt_of prefix last)
        then prompt_of prefix last ++ output
        else output)
unfolding format_lines last_line
format_lines-if output first last command prefix [] e =
    put_prompt_of output first last command prefix last last [] e refl
format_lines-if output first last command prefix (second ∷ lines) e =
    put_prompt_of output first second command prefix (last_line second (lines ++ last ∷ [])) last
      (lines ++ last ∷ []) e (last_line-append second last lines)

-- An output of two lines or more whose first one is the echo of the command is shown with the prompt
-- of the shell before it, if that looks like a prompt: the prompt from before the command, or, if
-- there is none, the last line. Any other output of two lines or more is shown as it is.
pub format_command_transcript-join :
    (first last command prefix : Bytes) (middle : List Bytes)
    → All (Lacks b'\n') (first ∷ middle ++ last ∷ [])
    → format_command_transcript (join (codes "\n") (first ∷ middle ++ last ∷ [])) command prefix ≡ (
        if bytes_eq first command && is_prompt_like (prompt_of prefix last)
        then prompt_of prefix last ++ join (codes "\n") (first ∷ middle ++ last ∷ [])
        else join (codes "\n") (first ∷ middle ++ last ∷ []))
unfolding format_command_transcript
format_command_transcript-join first last command prefix middle h =
    let output = join (codes "\n") (first ∷ middle ++ last ∷ []) in
    ap (λ lines. format_lines output lines command prefix)
      (split-join b'\n' first (middle ++ last ∷ []) h)
    ∙ format_lines-if output first last command prefix middle refl
