-- ===== src/Std/Utf8.antt =====
-- Package unicode/utf8: decoding and encoding of runes.
pub mod RoundTrip
pub mod Ascii
use ptymux.Prelude.{
  ℕ, zero, suc, ◌+◌, ◌-◌, ◌*◌, ◌/◌, ◌%◌, ◌^◌, ◌≤◌, ◌<◌, min, ◌≡◌, refl, sym, ap, ◌∙◌, subst, ◌≢◌,
  ◌↔◌, ◌⊎◌, inl, inr, Bool, true, false, not, ◌&&◌, ◌||◌, Option, none, some, List, [], ◌∷◌, ◌++◌,
  map, append_assoc, append-nil, arith, ltb, leb, ◌==◌, if◌then◌else◌, ltb→lt, lt→ltb, leb→le,
  ==_iff, tests, Bool-cases, Option-cases, length, set, take, drop, length-append, length-set,
  take-append-drop, length-take, length-drop, take-of-length-le, take-length-append,
  drop-length-append, All, All-append, All-take, All-drop, Bytes, codes, bytes_eq, bytes_eq_refl,
  bytes_eq_iff, if-intro, take-append-of-le, drop-append-of-le,
}

abbrev pub rune_error : ℕ
rune_error = 0xfffd

-- The table `first`: how many bytes a leading byte announces, 0 for a byte that leads no rune.
unfoldable pub lead_size : ℕ → ℕ
lead_size b =
    if ltb b 0x80
    then 1
    else if ltb b 0xc2
    then 0
    else if ltb b 0xe0
    then 2
    else if ltb b 0xf0
    then 3
    else if ltb b 0xf5
    then 4
    else 0

-- The range that the second byte must lie in.
unfoldable pub second_ok : ℕ → ℕ → Bool
second_ok b c =
    leb (if b == 0xe0 then 0xa0 else if b == 0xf0 then 0x90 else 0x80) c
    && leb c (if b == 0xed then 0x9f else if b == 0xf4 then 0x8f else 0xbf)

unfoldable pub is_continuation : ℕ → Bool
is_continuation c = leb 0x80 c && leb c 0xbf

decode_two : ℕ → Bytes → ℕ × ℕ
unfolding second_ok
decode_two b [] = (rune_error, 1)
decode_two b (c ∷ s) = if second_ok b c then ((b - 0xc0) * 64 + (c - 0x80), 2) else (rune_error, 1)

decode_three : ℕ → Bytes → ℕ × ℕ
unfolding second_ok is_continuation
decode_three b (c ∷ d ∷ s) =
    if second_ok b c && is_continuation d
    then ((b - 0xe0) * 4096 + (c - 0x80) * 64 + (d - 0x80), 3)
    else (rune_error, 1)
decode_three b _ = (rune_error, 1)

decode_four : ℕ → Bytes → ℕ × ℕ
unfolding second_ok is_continuation
decode_four b (c ∷ d ∷ e ∷ s) =
    if second_ok b c && is_continuation d && is_continuation e
    then ((b - 0xf0) * 262144 + (c - 0x80) * 4096 + (d - 0x80) * 64 + (e - 0x80), 4)
    else (rune_error, 1)
decode_four b _ = (rune_error, 1)

-- utf8.DecodeRune: the rune and the bytes that it takes; an invalid byte is (RuneError, 1).
unfoldable pub decode_rune : Bytes → ℕ × ℕ
unfolding lead_size decode_two decode_three decode_four
decode_rune [] = (rune_error, 0)
decode_rune (b ∷ s) =
    let size = lead_size b in
    if size == 1
    then (b, 1)
    else if size == 2
    then decode_two b s
    else if size == 3
    then decode_three b s
    else if size == 4
    then decode_four b s
    else (rune_error, 1)

-- utf8.FullRune: false only where more bytes may complete the rune.
unfoldable pub full_rune : Bytes → Bool
unfolding lead_size second_ok is_continuation
full_rune [] = false
full_rune (b ∷ []) = leb (lead_size b) 1
full_rune (b ∷ c ∷ []) = leb (lead_size b) 2 || not (second_ok b c)
full_rune (b ∷ c ∷ d ∷ []) = leb (lead_size b) 3 || not (second_ok b c) || not (is_continuation d)
full_rune (b ∷ c ∷ d ∷ e ∷ s) = true

-- `for _, r := range s`: the runes of a text.
unfoldable pub runes_from : ℕ → Bytes → List ℕ
unfolding decode_rune
runes_from zero s = []
runes_from (suc f) [] = []
runes_from (suc f) (b ∷ s) =
    let (r, size) = decode_rune (b ∷ s) in r ∷ runes_from f (drop (size - 1) s)

unfoldable pub runes : Bytes → List ℕ
unfolding runes_from
runes s = runes_from (length s) s

-- utf8.AppendRune; a surrogate or a value out of range is written as RuneError.
unfoldable pub encode_rune : ℕ → Bytes
encode_rune r =
    if ltb r 0x80
    then r ∷ []
    else if ltb r 0x800
    then (0xc0 + r / 64) ∷ (0x80 + r % 64) ∷ []
    else if ltb 0x10ffff r || (leb 0xd800 r && leb r 0xdfff)
    then 0xef ∷ 0xbf ∷ 0xbd ∷ []
    else if ltb r 0x10000
    then (0xe0 + r / 4096) ∷ (0x80 + r / 64 % 64) ∷ (0x80 + r % 64) ∷ []
    else (0xf0 + r / 262144) ∷ (0x80 + r / 4096 % 64) ∷ (0x80 + r / 64 % 64) ∷ (0x80 + r % 64) ∷ []

-- string(runes)
unfoldable pub encode : List ℕ → Bytes
unfolding encode_rune
encode [] = []
encode (r ∷ rs) = encode_rune r ++ encode rs

pub encode-append : (rs ss : List ℕ) → encode (rs ++ ss) ≡ encode rs ++ encode ss
unfolding encode
encode-append [] ss = refl
encode-append (r ∷ rs) ss = simp (encode-append rs ss, append_assoc)

-- utf8.Valid
unfoldable pub valid_from : ℕ → Bytes → Bool
unfolding decode_rune
valid_from zero s = true
valid_from (suc f) [] = true
valid_from (suc f) (b ∷ s) =
    let (r, size) = decode_rune (b ∷ s) in
    let rest = valid_from f (drop (size - 1) s) in if size == 1 && leb 0x80 b then false else rest

unfoldable pub valid : Bytes → Bool
unfolding valid_from
valid s = valid_from (length s) s
