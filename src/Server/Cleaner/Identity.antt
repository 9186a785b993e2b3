-- ===== src/Server/Cleaner/Identity.antt =====
-- Plain text passes through the terminal cleaner unchanged.
use ptymux.Std.Strings.{trim_right}
use ptymux.Std.Utf8.{encode, encode-append}
use ptymux.Std.Utf8.RoundTrip.{IsScalar, runes-encode}
use ptymux.Prelude.{
  ℕ, ◌≡◌, refl, sym, ap, ◌∙◌, inl, inr, true, false, List, [], ◌∷◌, ◌++◌, append_assoc, append-nil,
  arith, ltb, if◌then◌else◌, length, take, length-append, take-of-length-le, All, if-intro,
}
use ptymux.Server.Cleaner.{
  normal_rune-text, apply_pending_cr, TerminalCleaner, normal, is_allowed_text_rune, clean_rune,
  write_runes, clean_terminal_string, rune_in,
}
use ptymux.Server.Cleaner.Printable.{IsPrintable, write_rune_lem}

-- the cleaner between escape sequences, with the cursor at the end of its line
abbrev plain : List ℕ → TerminalCleaner
plain l = record { state = normal; line = l; col = length l; pending_cr = false }

newline_plain : (l : List ℕ) → clean_rune (plain l) b'\n' ≡ (plain [], l ++ b'\n' ∷ [])
unfolding rune_in
newline_plain l = ground arith

text_plain :
    (l : List ℕ) (r : ℕ)
    → is_allowed_text_rune r ≡ true
    → clean_rune (plain l) r ≡ (plain (l ++ r ∷ []), [])
unfolding rune_in
text_plain l r h = rw (normal_rune-text (plain l) r h) (
    unfold apply_pending_cr in
    rw (write_rune_lem (plain l) r (omega arith)) (ground (arith, length-append l (r ∷ []))))

-- What is written and what stays in the line spell the text.
abbrev Spells : List ℕ → List ℕ → List ℕ → Type 0
Spells l rs total =
    (out : List ℕ) × (rest : List ℕ) × (write_runes (plain l) rs ≡ (plain rest, out))
    × (out ++ rest ≡ total)

write_runes-plain : (l rs : List ℕ) → All IsPrintable rs → Spells l rs (l ++ rs)
unfolding write_runes
write_runes-plain l [] h = ([], l, refl, sym (append-nil l))
write_runes-plain l (r ∷ rs) (inl e, h) =
    let (out, rest, run, eq) = write_runes-plain [] rs h in
    ((l ++ b'\n' ∷ []) ++ out, rest, rw (e, newline_plain l, run) refl, simp (append_assoc, e, eq))
write_runes-plain l (r ∷ rs) (inr t, h) =
    let (out, rest, run, eq) = write_runes-plain (l ++ r ∷ []) rs h in
    (out, rest, rw (text_plain l r t, run) refl, eq ∙ append_assoc l (r ∷ []) rs)

take_all : (l : List ℕ) → (if ltb (length l) (length l) then take (length l) l else l) ≡ l
take_all l =
    if-intro (λ x. x ≡ l) (ltb (length l) (length l))
      (λ _. take-of-length-le (length l) l (omega arith)) (λ _. refl)

-- A text of printable scalars comes out as it went in, but for newlines at its end.
pub clean_terminal_string-encode :
    (rs : List ℕ)
    → All IsScalar rs
    → All IsPrintable rs
    → clean_terminal_string (encode rs) ≡ trim_right b'\n' (encode rs)
unfolding clean_terminal_string
clean_terminal_string-encode rs v h =
    let (out, rest, run, eq) = write_runes-plain [] rs h in
    rw (runes-encode rs v, run)
      (ap (trim_right b'\n') (
        ap (◌++◌ (encode out)) (ap encode (take_all rest))
        ∙ sym (encode-append out rest)
        ∙ ap encode eq))
