-- ===== src/Std/Strings/Fields/Append.antt =====
-- A space between two texts separates their words.
use ptymux.Std.Utf8.{decode_rune}
use ptymux.Std.Strings.Fields.{fields, fields_from, is_space, end_word}
use ptymux.Prelude.{
  ℕ, zero, suc, ◌+◌, ◌-◌, ◌≤◌, ◌<◌, ◌≡◌, refl, sym, ap, ◌∙◌, Bool, true, false, List, [], ◌∷◌, ◌++◌,
  append_assoc, arith, if◌then◌else◌, length, take, drop, length-append, length-drop, Bytes,
  take-append-of-le, drop-append-of-le,
}

-- A byte below 0x80 ends whatever rune was begun.
decode_rune-ascii :
    (b : ℕ) (s : Bytes) (c : ℕ) (t : Bytes)
    → c < 0x80
    → decode_rune (b ∷ (s ++ c ∷ t)) ≡ decode_rune (b ∷ s)
unfolding decode_rune
decode_rune-ascii b [] c t h = ground arith
decode_rune-ascii b (x ∷ []) c t h = ground arith
decode_rune-ascii b (x ∷ y ∷ []) c t h = ground arith
decode_rune-ascii b (x ∷ y ∷ z ∷ s) c t h = ground arith

size_bounds :
    (b : ℕ) (s : Bytes) → (0 < (decode_rune (b ∷ s)).1) × ((decode_rune (b ∷ s)).1 ≤ suc (length s))
unfolding decode_rune
size_bounds b [] = ground arith
size_bounds b (x ∷ []) = ground arith
size_bounds b (x ∷ y ∷ []) = ground arith
size_bounds b (x ∷ y ∷ z ∷ s) = ground arith

-- More fuel than bytes changes nothing.
fields_from-fuel :
    (f g : ℕ) (w s : Bytes) → length s ≤ f → length s ≤ g → fields_from f w s ≡ fields_from g w s
unfolding fields_from
fields_from-fuel zero zero w s h k = refl
fields_from-fuel zero (suc g) w [] h k = refl
fields_from-fuel zero (suc g) w (b ∷ s) h k = absurd (omega arith)
fields_from-fuel (suc f) zero w [] h k = refl
fields_from-fuel (suc f) zero w (b ∷ s) h k = absurd (omega arith)
fields_from-fuel (suc f) (suc g) w [] h k = refl
fields_from-fuel (suc f) (suc g) w (b ∷ s) h k =
    let n = (decode_rune (b ∷ s)).1 in
    let rest = drop (n - 1) s in
    let shorter : length rest ≤ length s = omega (arith, length-drop (n - 1) s) in
    let first = is_space (decode_rune (b ∷ s)).0 in
    let word = w ++ take n (b ∷ s) in
    ap (λ x. if first then end_word w ++ x else fields_from f word rest)
      (fields_from-fuel f g [] rest (omega arith) (omega arith))
    ∙ ap (λ x. if first then end_word w ++ fields_from g [] rest else x)
        (fields_from-fuel f g word rest (omega arith) (omega arith))

space_splits :
    (f : ℕ) (w t : Bytes) → fields_from (suc f) w (b' ' ∷ t) ≡ end_word w ++ fields_from f [] t
unfolding fields_from decode_rune is_space
space_splits f w t = refl

either :
    (c : Bool) (e x y x' y' z : List Bytes)
    → x ≡ x' ++ z
    → y ≡ y' ++ z
    → (if c then e ++ x else y) ≡ (if c then e ++ x' else y') ++ z
either true e x y x' y' z p q = ap (◌++◌ e) p ∙ sym (append_assoc e x' z)
either false e x y x' y' z p q = q

fields_from-append :
    (f : ℕ) (w s t : Bytes)
    → length s + suc (length t) ≤ f
    → fields_from f w (s ++ b' ' ∷ t) ≡ fields_from (length s) w s ++ fields_from (length t) [] t
unfolding fields_from
fields_from-append zero w s t h = absurd (omega arith)
fields_from-append (suc f) w [] t h =
    space_splits f w t
    ∙ ap (◌++◌ (end_word w)) (fields_from-fuel f (length t) [] t (omega arith) (omega arith))
fields_from-append (suc f) w (b ∷ s) t h =
    let n = (decode_rune (b ∷ s)).1 in
    let bounds : (0 < n) × (n ≤ suc (length s)) = size_bounds b s in
    let rest = drop (n - 1) s in
    let shorter : length rest ≤ length s = omega (arith, length-drop (n - 1) s) in
    let first = is_space (decode_rune (b ∷ s)).0 in
    let word = w ++ take n (b ∷ s) in
    rw
      (
        decode_rune-ascii b s b' ' t (omega arith),
        drop-append-of-le (n - 1) s (b' ' ∷ t) (omega arith),
        take-append-of-le n (b ∷ s) (b' ' ∷ t) (omega arith),
      )
      (either first (end_word w) _ _ _ _ _
        (fields_from-append f [] rest t (omega arith)
          ∙ ap (λ x. x ++ fields_from (length t) [] t)
              (fields_from-fuel (length rest) (length s) [] rest (omega arith) shorter))
        (fields_from-append f word rest t (omega arith)
          ∙ ap (λ x. x ++ fields_from (length t) [] t)
              (fields_from-fuel (length rest) (length s) word rest (omega arith) shorter)))

pub fields-append : (s t : Bytes) → fields (s ++ b' ' ∷ t) ≡ fields s ++ fields t
unfolding fields
fields-append s t =
    fields_from-append (length (s ++ b' ' ∷ t)) [] s t (omega (arith, length-append s (b' ' ∷ t)))
