-- ===== src/Server/Cleaner/Examples.antt =====
-- The theorems on the cleaner at concrete inputs.
use ptymux.Server.Cleaner.{
  new_terminal_cleaner, write_runes, is_allowed_text_rune, clean_terminal_string,
}
use ptymux.Server.Cleaner.Printable.{IsPrintable, IsValid, write_runes-Good}
use ptymux.Server.Cleaner.Identity.{clean_terminal_string-encode}
use ptymux.Std.Utf8.{encode}
use ptymux.Std.Strings.{trim_right}
use ptymux.Prelude.{ℕ, ◌≡◌, refl, inl, inr, List, [], ◌∷◌, arith, All, codes}

new-IsValid : IsValid new_terminal_cleaner
new-IsValid = record { within = omega arith; text = tt }

write_runes-Good_example :
    IsValid (write_runes new_terminal_cleaner (codes "ab\rX\n")).0
    × All IsPrintable (write_runes new_terminal_cleaner (codes "ab\rX\n")).1
write_runes-Good_example = write_runes-Good new_terminal_cleaner (codes "ab\rX\n") new-IsValid

-- an e with an acute accent, and the end of the line
abbrev accented : List ℕ
accented = 0xe9 ∷ b'\n' ∷ []

accented-IsPrintable : All IsPrintable accented
unfolding is_allowed_text_rune
accented-IsPrintable = (inr refl, (inl refl, tt))

clean_terminal_string-encode_example :
    clean_terminal_string (encode accented) ≡ trim_right b'\n' (encode accented)
clean_terminal_string-encode_example =
    clean_terminal_string-encode accented (inl (omega arith), (inl (omega arith), tt))
      accented-IsPrintable
