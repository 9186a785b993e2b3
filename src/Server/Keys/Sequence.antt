-- ===== src/Server/Keys/Sequence.antt =====
-- How key sequences compose.
use ptymux.Std.Strings.Fields.{fields}
use ptymux.Std.Strings.Fields.Append.{fields-append}
use ptymux.Server.Keys.{
  KeyResult, ok, err, then_append, parse_presses, parse_parts, parse_key_press, parse_key_sequence,
  parse_key_sequence_no_enter,
}
use ptymux.Prelude.{◌≡◌, refl, sym, ap, ◌∙◌, true, false, List, [], ◌∷◌, ◌++◌, append_assoc, Bytes}

then_append-nil : (r : KeyResult) → r ≡ then_append (ok []) r
then_append-nil (ok a) = refl
then_append-nil (err e) = refl

then_append_assoc :
    (p q r : KeyResult) → then_append p (then_append q r) ≡ then_append (then_append p q) r
then_append_assoc (ok a) (ok b) (ok c) = ap ok (sym (append_assoc a b c))
then_append_assoc (ok a) (ok b) (err e) = refl
then_append_assoc (ok a) (err e) r = refl
then_append_assoc (err e) q r = refl

module _ (to_lower : Bytes → Bytes) where
  enter :
      (ps : List Bytes)
      → parse_parts to_lower true ps ≡ then_append (parse_parts to_lower false ps) (ok (b'\r' ∷ []))
  unfolding parse_parts
  enter [] = refl
  enter (p ∷ ps) = refl

  -- With and without Enter a sequence fails alike, and the Enter is a carriage return at the end.
  parse_key_sequence-enter :
      (s : Bytes)
      → parse_key_sequence to_lower s
        ≡ then_append (parse_key_sequence_no_enter to_lower s) (ok (b'\r' ∷ []))
  unfolding parse_key_sequence parse_key_sequence_no_enter
  parse_key_sequence-enter s = enter (fields s)

  parse_presses-append :
      (ps qs : List Bytes)
      → parse_presses to_lower (ps ++ qs)
        ≡ then_append (parse_presses to_lower ps) (parse_presses to_lower qs)
  unfolding parse_presses
  parse_presses-append [] qs = then_append-nil (parse_presses to_lower qs)
  parse_presses-append (p ∷ ps) qs =
      ap (then_append (parse_key_press to_lower p)) (parse_presses-append ps qs)
      ∙ then_append_assoc (parse_key_press to_lower p) (parse_presses to_lower ps)
          (parse_presses to_lower qs)

  parse_parts-presses :
      (ps : List Bytes) (a : Bytes)
      → parse_parts to_lower false ps ≡ ok a
      → parse_presses to_lower ps ≡ ok a
  unfolding parse_parts
  parse_parts-presses [] a h = cc
  parse_parts-presses (p ∷ ps) a h = h

  parts-append :
      (ps qs : List Bytes) (a b : Bytes)
      → parse_parts to_lower false ps ≡ ok a
      → parse_parts to_lower false qs ≡ ok b
      → parse_parts to_lower false (ps ++ qs) ≡ ok (a ++ b)
  unfolding parse_parts
  parts-append [] qs a b h k = cc
  parts-append (p ∷ ps) qs a b h k =
      parse_presses-append (p ∷ ps) qs
      ∙ ap (λ x. then_append x (parse_presses to_lower qs)) h
      ∙ ap (then_append (ok a)) (parse_parts-presses qs b k)

  -- Two sequences that are accepted make, with a space between them, a sequence that is accepted,
  -- and it sends the bytes of the one and then those of the other.
  pub parse_key_sequence-append :
      (s t a b : Bytes)
      → parse_key_sequence_no_enter to_lower s ≡ ok a
      → parse_key_sequence_no_enter to_lower t ≡ ok b
      → parse_key_sequence_no_enter to_lower (s ++ b' ' ∷ t) ≡ ok (a ++ b)
  unfolding parse_key_sequence_no_enter
  parse_key_sequence-append s t a b h k =
      ap (parse_parts to_lower false) (fields-append s t)
      ∙ parts-append (fields s) (fields t) a b h k
