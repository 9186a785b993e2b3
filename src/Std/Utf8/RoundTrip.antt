-- ===== src/Std/Utf8/RoundTrip.antt =====
-- Decoding what was encoded.
use ptymux.Std.Utf8.{runes, runes_from, encode, decode_rune, encode_rune}
use ptymux.Prelude.{
  ℕ, zero, suc, ◌+◌, ◌-◌, ◌/◌, ◌%◌, ◌≤◌, ◌<◌, ◌≡◌, refl, ap, ◌⊎◌, inl, inr, List, [], ◌∷◌, ◌++◌,
  arith, ltb, if◌then◌else◌, Bool-cases, length, length-append, drop-length-append, All, Bytes,
}

-- A Unicode scalar value: below 0x110000 and no surrogate.
abbrev pub IsScalar : ℕ → Type 0
IsScalar r = (r < 0xd800) ⊎ ((0xdfff < r) × (r < 0x110000))

-- The first byte of a rune's encoding, and the others.
lead_byte : ℕ → ℕ
lead_byte r =
    if ltb r 0x80
    then r
    else if ltb r 0x800
    then 0xc0 + r / 64
    else if ltb r 0x10000
    then 0xe0 + r / 4096
    else 0xf0 + r / 262144

tail_bytes : ℕ → Bytes
tail_bytes r =
    if ltb r 0x80
    then []
    else if ltb r 0x800
    then (0x80 + r % 64) ∷ []
    else if ltb r 0x10000
    then (0x80 + r / 64 % 64) ∷ (0x80 + r % 64) ∷ []
    else (0x80 + r / 4096 % 64) ∷ (0x80 + r / 64 % 64) ∷ (0x80 + r % 64) ∷ []

encode_rune_lem : (r : ℕ) → IsScalar r → encode_rune r ≡ lead_byte r ∷ tail_bytes r
unfolding encode_rune lead_byte tail_bytes
encode_rune_lem r h = ground arith

decode_one : (r : ℕ) (s : Bytes) → r < 0x80 → decode_rune (r ∷ s) ≡ (r, 1)
unfolding decode_rune
decode_one r s h = ground arith

decode_2 :
    (r : ℕ) (s : Bytes)
    → 0x80 ≤ r
    → r < 0x800
    → decode_rune ((0xc0 + r / 64) ∷ (0x80 + r % 64) ∷ s) ≡ (r, 2)
unfolding decode_rune
decode_2 r s h k = ground arith

decode_3 :
    (r : ℕ) (s : Bytes)
    → 0x800 ≤ r
    → r < 0x10000
    → IsScalar r
    → decode_rune ((0xe0 + r / 4096) ∷ (0x80 + r / 64 % 64) ∷ (0x80 + r % 64) ∷ s) ≡ (r, 3)
unfolding decode_rune
decode_3 r s h k v = ground arith

decode_4 :
    (r : ℕ) (s : Bytes)
    → 0x10000 ≤ r
    → r < 0x110000
    → decode_rune
        ((0xf0 + r / 262144) ∷ (0x80 + r / 4096 % 64) ∷ (0x80 + r / 64 % 64) ∷ (0x80 + r % 64) ∷ s)
      ≡ (r, 4)
unfolding decode_rune
decode_4 r s h k = ground arith

-- Decoding gives the rune and the length of its encoding.
decode_rune-encode_rune :
    (r : ℕ) (s : Bytes)
    → IsScalar r
    → decode_rune (lead_byte r ∷ (tail_bytes r ++ s)) ≡ (r, suc (length (tail_bytes r)))
unfolding lead_byte tail_bytes
decode_rune-encode_rune r s h = elim (Bool-cases (ltb r 0x80)) [
  | inl a ↦ rw a (decode_one r s (ground arith))
  | inr a ↦ elim (Bool-cases (ltb r 0x800)) [
    | inl b ↦ rw (a, b) (decode_2 r s (ground arith) (ground arith))
    | inr b ↦ elim (Bool-cases (ltb r 0x10000)) [
      | inl c ↦ rw (a, b, c) (decode_3 r s (ground arith) (ground arith) h)
      | inr c ↦ rw (a, b, c) (decode_4 r s (ground arith) (ground arith))
    ]
  ]
]

runes_from-encode :
    (f : ℕ) (rs : List ℕ) → All IsScalar rs → length (encode rs) ≤ f → runes_from f (encode rs) ≡ rs
unfolding runes_from encode
runes_from-encode zero [] h k = refl
runes_from-encode (suc f) [] h k = refl
runes_from-encode zero (r ∷ rs) h k =
    absurd
      (omega (arith, ap length (encode_rune_lem r h.0), length-append (encode_rune r) (encode rs)))
runes_from-encode (suc f) (r ∷ rs) h k =
    rw (encode_rune_lem r h.0, decode_rune-encode_rune r (encode rs) h.0)
      (rw
        (
          let e : suc (length (tail_bytes r)) - 1 ≡ length (tail_bytes r) = omega arith in e,
          drop-length-append (tail_bytes r) (encode rs),
        )
        (ap (◌∷◌ r) (
          runes_from-encode f rs h.1 (
            omega (
              arith,
              ap length (encode_rune_lem r h.0),
              length-append (encode_rune r) (encode rs),
            )))))

-- The runes of an encoded text are the runes that were encoded.
pub runes-encode : (rs : List ℕ) → All IsScalar rs → runes (encode rs) ≡ rs
unfolding runes
runes-encode rs h = runes_from-encode (length (encode rs)) rs h (omega arith)
