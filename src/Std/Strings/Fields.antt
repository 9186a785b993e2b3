-- ===== src/Std/Strings/Fields.antt =====
-- strings.Fields: the words of a text between runs of white space (unicode.IsSpace).
pub mod Append
use ptymux.Std.Utf8.{decode_rune}
use ptymux.Prelude.{
  ℕ, zero, suc, ◌+◌, ◌-◌, ◌*◌, ◌/◌, ◌%◌, ◌^◌, ◌≤◌, ◌<◌, min, ◌≡◌, refl, sym, ap, ◌∙◌, subst, ◌≢◌,
  ◌↔◌, ◌⊎◌, inl, inr, Bool, true, false, not, ◌&&◌, ◌||◌, Option, none, some, List, [], ◌∷◌, ◌++◌,
  map, append_assoc, append-nil, arith, ltb, leb, ◌==◌, if◌then◌else◌, ltb→lt, lt→ltb, leb→le,
  ==_iff, tests, Bool-cases, Option-cases, length, set, take, drop, length-append, length-set,
  take-append-drop, length-take, length-drop, take-of-length-le, take-length-append,
  drop-length-append, All, All-append, All-take, All-drop, Bytes, codes, bytes_eq, bytes_eq_refl,
  bytes_eq_iff, if-intro, take-append-of-le, drop-append-of-le,
}

unfoldable pub is_space : ℕ → Bool
is_space r =
    leb 0x09 r && leb r 0x0d
    || r == 0x20
    || r == 0x85
    || r == 0xa0
    || r == 0x1680
    || leb 0x2000 r && leb r 0x200a
    || r == 0x2028
    || r == 0x2029
    || r == 0x202f
    || r == 0x205f
    || r == 0x3000

-- A word that has ended, if there is one.
unfoldable pub end_word : Bytes → List Bytes
end_word [] = []
end_word (b ∷ word) = (b ∷ word) ∷ []

-- `word` is what has been read of the current word.
unfoldable pub fields_from : ℕ → Bytes → Bytes → List Bytes
unfolding end_word
fields_from zero word s = end_word word
fields_from (suc f) word [] = end_word word
fields_from (suc f) word (b ∷ s) =
    let (r, size) = decode_rune (b ∷ s) in
    let rest = drop (size - 1) s in
    if is_space r
    then end_word word ++ fields_from f [] rest
    else fields_from f (word ++ take size (b ∷ s)) rest

unfoldable pub fields : Bytes → List Bytes
unfolding fields_from
fields s = fields_from (length s) [] s
