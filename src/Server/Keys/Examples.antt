-- ===== src/Server/Keys/Examples.antt =====
-- The theorems on key sequences at concrete inputs, all in lower case.
use ptymux.Server.Keys.{ok, parse_key_sequence_no_enter}
use ptymux.Server.Keys.Sequence.{parse_key_sequence-append}
use ptymux.Std.Strings.{split}
use ptymux.Std.Strings.Fields.{fields, is_space}
use ptymux.Std.Utf8.{decode_rune}
use ptymux.Prelude.{◌≡◌, refl, [], ◌∷◌, codes, bytes_eq}

ctrl_c : parse_key_sequence_no_enter (λ s. s) (codes "ctrl-c") ≡ ok (3 ∷ [])
unfolding parse_key_sequence_no_enter fields is_space decode_rune split bytes_eq
ctrl_c = refl

up : parse_key_sequence_no_enter (λ s. s) (codes "up") ≡ ok (0x1b ∷ codes "[A")
unfolding parse_key_sequence_no_enter fields is_space decode_rune split bytes_eq
up = refl

parse_key_sequence-append_example :
    parse_key_sequence_no_enter (λ s. s) (codes "ctrl-c up") ≡ ok (3 ∷ 0x1b ∷ codes "[A")
parse_key_sequence-append_example =
    parse_key_sequence-append (λ s. s) (codes "ctrl-c") (codes "up") (3 ∷ []) (0x1b ∷ codes "[A")
      ctrl_c up
