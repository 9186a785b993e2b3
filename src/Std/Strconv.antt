-- ===== src/Std/Strconv.antt =====
-- strconv.FormatUint in base 10 and strconv.Atoi.
pub mod RoundTrip
use ptymux.Prelude.{
  ℕ, zero, suc, ◌+◌, ◌-◌, ◌*◌, ◌/◌, ◌%◌, ◌^◌, ◌≤◌, ◌<◌, min, ◌≡◌, refl, sym, ap, ◌∙◌, subst, ◌≢◌,
  ◌↔◌, ◌⊎◌, inl, inr, Bool, true, false, not, ◌&&◌, ◌||◌, Option, none, some, List, [], ◌∷◌, ◌++◌,
  map, append_assoc, append-nil, arith, ltb, leb, ◌==◌, if◌then◌else◌, ltb→lt, lt→ltb, leb→le,
  ==_iff, tests, Bool-cases, Option-cases, length, set, take, drop, length-append, length-set,
  take-append-drop, length-take, length-drop, take-of-length-le, take-length-append,
  drop-length-append, All, All-append, All-take, All-drop, Bytes, codes, bytes_eq, bytes_eq_refl,
  bytes_eq_iff, if-intro, take-append-of-le, drop-append-of-le,
}

pub data ℤ : Type 0 where
  pos : ℕ → ℤ
  negsuc : ℕ → ℤ

-- The digits of a number, at most `fuel` of them: 20 are enough for a uint64.
unfoldable pub digits : ℕ → ℕ → Bytes
digits zero n = []
digits (suc f) n =
    let more = digits f (n / 10) in
    if ltb n 10 then (b'0' + n) ∷ [] else more ++ (b'0' + n % 10) ∷ []

unfoldable pub format_uint : ℕ → Bytes
format_uint n = digits 20 n

-- The digits of a text, and `none` at any other byte.
unfoldable pub read_digits : ℕ → Bytes → Option ℕ
read_digits n [] = some n
read_digits n (c ∷ s) =
    let rest = read_digits (n * 10 + (c - b'0')) s in
    if leb b'0' c && leb c b'9' then rest else none

negate : ℕ → ℤ
negate zero = pos zero
negate (suc n) = negsuc n

-- at least one digit, and a value in the range of int64
unfoldable pub unsigned : Bytes → Option ℕ
unfolding read_digits
unsigned [] = none
unsigned (c ∷ s) = read_digits 0 (c ∷ s)

pub positive : Option ℕ → Option ℤ
positive none = none
positive (some n) = if ltb n (2 ^ 63) then some (pos n) else none

negative : Option ℕ → Option ℤ
unfolding negate
negative none = none
negative (some n) = if leb n (2 ^ 63) then some (negate n) else none

unfoldable pub atoi : Bytes → Option ℤ
unfolding unsigned positive negative
atoi [] = none
atoi (c ∷ s) =
    if c == b'-'
    then negative (unsigned s)
    else if c == b'+'
    then positive (unsigned s)
    else positive (unsigned (c ∷ s))

length-digits : (f n : ℕ) → length (digits f n) ≤ f
unfolding digits
length-digits zero n = omega arith
length-digits (suc f) n =
    ground
      (arith, length-digits f (n / 10), length-append (digits f (n / 10)) ((b'0' + n % 10) ∷ []))

pub length-format_uint : (n : ℕ) → length (format_uint n) ≤ 20
unfolding format_uint
length-format_uint n = length-digits 20 n
