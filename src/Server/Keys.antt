-- ===== src/Server/Keys.antt =====
-- internal/server/keys.go: the keys of a `keys` or `command` request as the bytes that a terminal
-- sends. `to_lower` is strings.ToLower.
mod Examples
pub mod Sequence
use ptymux.Std.Strings.{split}
use ptymux.Std.Strings.Fields.{fields}
use ptymux.Prelude.{
  ℕ, zero, suc, ◌+◌, ◌-◌, ◌*◌, ◌/◌, ◌%◌, ◌^◌, ◌≤◌, ◌<◌, min, ◌≡◌, refl, sym, ap, ◌∙◌, subst, ◌≢◌,
  ◌↔◌, ◌⊎◌, inl, inr, Bool, true, false, not, ◌&&◌, ◌||◌, Option, none, some, List, [], ◌∷◌, ◌++◌,
  map, append_assoc, append-nil, arith, ltb, leb, ◌==◌, if◌then◌else◌, ltb→lt, lt→ltb, leb→le,
  ==_iff, tests, Bool-cases, Option-cases, length, set, take, drop, length-append, length-set,
  take-append-drop, length-take, length-drop, take-of-length-le, take-length-append,
  drop-length-append, All, All-append, All-take, All-drop, Bytes, codes, bytes_eq, bytes_eq_refl,
  bytes_eq_iff, if-intro, take-append-of-le, drop-append-of-le,
}

pub data KeyError : Type 0 where
  empty_sequence : KeyError
  unsupported_modifier : Bytes → Bytes → KeyError
  unsupported_ctrl : Bytes → Bytes → KeyError
  unsupported_key : Bytes → KeyError

pub data KeyResult : Type 0 where
  ok : Bytes → KeyResult
  err : KeyError → KeyResult

abbrev pub then_append : KeyResult → KeyResult → KeyResult
then_append (ok a) (ok b) = ok (a ++ b)
then_append (ok a) (err e) = err e
then_append (err e) r = err e

abbrev escape_key : Bytes → KeyResult
escape_key s = ok (0x1b ∷ s)

single_byte : Bytes → KeyResult
single_byte (b ∷ []) = ok (b ∷ [])
single_byte press = err (unsupported_key press)

-- the switch of `parsePlainKey` on the lower-case press
named_key : Bytes → Bytes → KeyResult
unfolding single_byte
named_key press name =
    if bytes_eq name (codes "enter")
    then ok (b'\r' ∷ [])
    else if bytes_eq name (codes "esc") || bytes_eq name (codes "escape")
    then ok (0x1b ∷ [])
    else if bytes_eq name (codes "tab")
    then ok (b'\t' ∷ [])
    else if bytes_eq name (codes "backspace")
    then ok (0x7f ∷ [])
    else if bytes_eq name (codes "space")
    then ok (b' ' ∷ [])
    else if bytes_eq name (codes "up")
    then escape_key (codes "[A")
    else if bytes_eq name (codes "down")
    then escape_key (codes "[B")
    else if bytes_eq name (codes "right")
    then escape_key (codes "[C")
    else if bytes_eq name (codes "left")
    then escape_key (codes "[D")
    else if bytes_eq name (codes "home")
    then escape_key (codes "[H")
    else if bytes_eq name (codes "end")
    then escape_key (codes "[F")
    else if bytes_eq name (codes "delete")
    then escape_key (codes "[3~")
    else if bytes_eq name (codes "pageup")
    then escape_key (codes "[5~")
    else if bytes_eq name (codes "pagedown")
    then escape_key (codes "[6~")
    else single_byte press

parse_ctrl_key : Bytes → Bytes → KeyResult
parse_ctrl_key (b ∷ []) press =
    if ltb b b'a' || ltb b'z' b then err (unsupported_ctrl (b ∷ []) press) else ok ((b % 32) ∷ [])
parse_ctrl_key key press = err (unsupported_ctrl key press)

module _ (to_lower : Bytes → Bytes) where
  parse_plain_key : Bytes → KeyResult
  unfolding named_key
  parse_plain_key press = named_key press (to_lower press)

  -- `pieces`: modifiers, and the key behind the last dash
  parse_chord : Bytes → List Bytes → KeyResult
  unfolding parse_ctrl_key
  parse_chord press [] = err (unsupported_key press)
  parse_chord press (key ∷ []) = parse_ctrl_key (to_lower key) press
  parse_chord press (modifier ∷ piece ∷ pieces) =
      let rest = parse_chord press (piece ∷ pieces) in
      if bytes_eq (to_lower modifier) (codes "ctrl")
      then rest
      else err (unsupported_modifier modifier press)

  chord_or_plain : Bytes → List Bytes → KeyResult
  unfolding parse_plain_key parse_chord
  chord_or_plain press (a ∷ b ∷ pieces) = parse_chord press (a ∷ b ∷ pieces)
  chord_or_plain press _ = parse_plain_key press

  pub parse_key_press : Bytes → KeyResult
  unfolding chord_or_plain
  parse_key_press press =
      if length press == 1 then parse_plain_key press else chord_or_plain press (split b'-' press)

  -- the loop over the parts
  pub parse_presses : List Bytes → KeyResult
  unfolding parse_key_press
  parse_presses [] = ok []
  parse_presses (p ∷ ps) = then_append (parse_key_press p) (parse_presses ps)

  pub parse_parts : Bool → List Bytes → KeyResult
  unfolding parse_presses
  parse_parts append_enter [] = err empty_sequence
  parse_parts append_enter (p ∷ ps) =
      if append_enter
      then then_append (parse_presses (p ∷ ps)) (ok (b'\r' ∷ []))
      else parse_presses (p ∷ ps)

  unfoldable pub parse_key_sequence_with_options : Bytes → Bool → KeyResult
  unfolding parse_parts
  parse_key_sequence_with_options sequence append_enter = parse_parts append_enter (fields sequence)

  unfoldable pub parse_key_sequence : Bytes → KeyResult
  unfolding parse_key_sequence_with_options
  parse_key_sequence sequence = parse_key_sequence_with_options sequence true

  unfoldable pub parse_key_sequence_no_enter : Bytes → KeyResult
  unfolding parse_key_sequence_with_options
  parse_key_sequence_no_enter sequence = parse_key_sequence_with_options sequence false
