-- ===== src/Server/Cleaner.antt =====
-- internal/server/cleaner.go: the filter that turns terminal output into plain text. Its output is
-- kept as runes until `encode` writes it; an `strings.Builder` is the list that has been written.
mod Examples
pub mod Printable
pub mod Identity
use ptymux.Std.Utf8.{runes, encode}
use ptymux.Std.Strings.{trim_right}
use ptymux.Prelude.{
  ℕ, zero, suc, ◌+◌, ◌-◌, ◌*◌, ◌/◌, ◌%◌, ◌^◌, ◌≤◌, ◌<◌, min, ◌≡◌, refl, sym, ap, ◌∙◌, subst, ◌≢◌,
  ◌↔◌, ◌⊎◌, inl, inr, Bool, true, false, not, ◌&&◌, ◌||◌, Option, none, some, List, [], ◌∷◌, ◌++◌,
  map, append_assoc, append-nil, arith, ltb, leb, ◌==◌, if◌then◌else◌, ltb→lt, lt→ltb, leb→le,
  ==_iff, tests, Bool-cases, Option-cases, length, set, take, drop, length-append, length-set,
  take-append-drop, length-take, length-drop, take-of-length-le, take-length-append,
  drop-length-append, All, All-append, All-take, All-drop, Bytes, codes, bytes_eq, bytes_eq_refl,
  bytes_eq_iff, if-intro, take-append-of-le, drop-append-of-le,
}

pub data CleanerState : Type 0 where
  normal escape csi osc osc_escape skip_one : CleanerState

pub record TerminalCleaner : Type 0 where
  pub state : CleanerState
  pub line : List ℕ
  pub col : ℕ
  pub pending_cr : Bool

abbrev pub new_terminal_cleaner : TerminalCleaner
new_terminal_cleaner = record { state = normal; line = []; col = 0; pending_cr = false }

unfoldable pub is_allowed_text_rune : ℕ → Bool
is_allowed_text_rune r = if r == b'\t' then true else leb 0x20 r && not (r == 0x7f)

pub apply_pending_cr : TerminalCleaner → TerminalCleaner
apply_pending_cr c = if c.pending_cr then record c { col = 0; pending_cr = false } else c

-- `for len(c.line) < c.col { c.line = append(c.line, ' ') }`, with the rounds that are left
pad : ℕ → List ℕ → List ℕ
pad zero line = line
pad (suc n) line = pad n (line ++ b' ' ∷ [])

pub write_rune : TerminalCleaner → ℕ → TerminalCleaner
unfolding pad
write_rune c r =
    let line = pad (c.col - length c.line) c.line in
    record c {
      line = if ltb c.col (length line) then set line c.col r else line ++ r ∷ [];
      col = c.col + 1;
    }

-- The new state, and what is written.
flush_line : TerminalCleaner → TerminalCleaner × List ℕ
flush_line c = (
  record c { line = []; col = 0 },
  if ltb c.col (length c.line) then take c.col c.line else c.line,
)

backspace : TerminalCleaner → TerminalCleaner
backspace c = if ltb 0 c.col then record c { col = c.col - 1 } else c

newline : TerminalCleaner → TerminalCleaner × List ℕ
unfolding flush_line
newline c =
    let (c', out) = flush_line (if c.pending_cr then record c { pending_cr = false } else c) in
    (c', out ++ b'\n' ∷ [])

-- `case cleanerNormal`
pub normal_rune : TerminalCleaner → ℕ → TerminalCleaner × List ℕ
unfolding apply_pending_cr newline backspace is_allowed_text_rune
normal_rune c r =
    if r == 0x1b
    then (record (apply_pending_cr c) { state = escape }, [])
    else if r == 0x03
    then (apply_pending_cr c, codes "^C")
    else if r == 0x07
    then (c, [])
    else if r == b'\n'
    then newline c
    else if r == b'\r'
    then (record c { pending_cr = true }, [])
    else if r == 0x08
    then (backspace (apply_pending_cr c), [])
    else if is_allowed_text_rune r
    then (write_rune (apply_pending_cr c) r, [])
    else (c, [])

-- Text goes to the line, after a carriage return that is due.
pub normal_rune-text :
    (c : TerminalCleaner) (r : ℕ)
    → is_allowed_text_rune r ≡ true
    → normal_rune c r ≡ (write_rune (apply_pending_cr c) r, [])
unfolding normal_rune
normal_rune-text c r h = ground arith

-- the state after a rune of an escape sequence
escape_rune : CleanerState → ℕ → CleanerState
escape_rune escape r =
    if r == b'['
    then csi
    else if r == b']'
    then osc
    else if leb b'(' r && leb r b'/' && not (r == b',')
    then skip_one
    else normal
escape_rune csi r = if leb 0x40 r && leb r 0x7e then normal else csi
escape_rune osc r = if r == 0x07 then normal else if r == 0x1b then osc_escape else osc
escape_rune osc_escape r = if r == b'\\' then normal else osc
escape_rune _ r = normal

-- the body of the loop, on the state of the cleaner
pub rune_in : CleanerState → TerminalCleaner → ℕ → TerminalCleaner × List ℕ
unfolding normal_rune escape_rune
rune_in normal c r = normal_rune c r
rune_in s c r = (record c { state = escape_rune s r }, [])

abbrev pub clean_rune : TerminalCleaner → ℕ → TerminalCleaner × List ℕ
clean_rune c = rune_in c.state c

-- `for _, r := range input`
pub write_runes : TerminalCleaner → List ℕ → TerminalCleaner × List ℕ
write_runes c [] = (c, [])
write_runes c (r ∷ rs) =
    let (c', out) = clean_rune c r in let (c'', more) = write_runes c' rs in (c'', out ++ more)

unfoldable pub write_string : TerminalCleaner → Bytes → TerminalCleaner × Bytes
unfolding write_runes rune_in write_rune
write_string c input = let (c', out) = write_runes c (runes input) in (c', encode out)

unfoldable pub flush : TerminalCleaner → TerminalCleaner × Bytes
unfolding flush_line
flush c = let (c', out) = flush_line (record c { pending_cr = false }) in (c', encode out)

unfoldable pub pending : TerminalCleaner → Bool
pending c = ltb 0 (length c.line) || c.pending_cr

unfoldable pub clean_terminal_string : Bytes → Bytes
unfolding write_string flush
clean_terminal_string input =
    let (c, out) = write_string new_terminal_cleaner input in trim_right b'\n' (out ++ (flush c).1)

overwrites : clean_terminal_string (codes "abc\rX\n") ≡ codes "X"
unfolding clean_terminal_string runes encode trim_right
overwrites = refl
