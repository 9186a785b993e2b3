-- ===== src/Std/Strconv/RoundTrip.antt =====
-- Reading a formatted number gives the number.
use ptymux.Std.Strconv.{pos, digits, format_uint, read_digits, positive, atoi}
use ptymux.Prelude.{
  ℕ, zero, suc, ◌+◌, ◌-◌, ◌*◌, ◌/◌, ◌%◌, ◌^◌, ◌≤◌, ◌<◌, ◌≡◌, refl, sym, ap, ◌∙◌, inl, inr, false,
  some, [], ◌∷◌, ◌++◌, append_assoc, append-nil, arith, ltb, ◌==◌, if◌then◌else◌, ltb→lt, lt→ltb,
  Bool-cases, All, All-append, Bytes, if-intro,
}

abbrev tens : ℕ → ℕ
tens zero = 1
tens (suc f) = 10 * tens f

-- by how much the digits of `n` move what stands before them
shift : ℕ → ℕ → ℕ
shift zero n = 1
shift (suc f) n = if ltb n 10 then 10 else shift f (n / 10) * 10

abbrev pub IsDigit : ℕ → Type 0
IsDigit c = (b'0' ≤ c) × (c ≤ b'9')

pub digits-IsDigit : (f n : ℕ) → All IsDigit (digits f n)
unfolding digits
digits-IsDigit zero n = tt
digits-IsDigit (suc f) n =
    if-intro (All IsDigit) (ltb n 10) (λ h. ground arith)
      (λ h. All-append IsDigit (digits f (n / 10)) _ (digits-IsDigit f (n / 10)) (omega arith))

read_digit :
    (acc c : ℕ) (s : Bytes)
    → c < 10
    → read_digits acc ((b'0' + c) ∷ s) ≡ read_digits (acc * 10 + c) s
unfolding read_digits
read_digit acc c s h = ground (arith, (let e : b'0' + c - b'0' ≡ c = omega arith in e))

tens-pos : (f : ℕ) → 1 < tens f → 0 < f
tens-pos zero h = absurd (omega arith)
tens-pos (suc f) h = omega arith

read_digits-digits :
    (f n acc : ℕ) (s : Bytes)
    → n < tens f
    → 0 < f
    → read_digits acc (digits f n ++ s) ≡ read_digits (acc * shift f n + n) s
unfolding digits shift
read_digits-digits zero n acc s h k = absurd (omega arith)
read_digits-digits (suc f) n acc s h k = elim (Bool-cases (ltb n 10)) [
  | inl small ↦ rw small (read_digit acc n s (ltb→lt n 10 small))
  | inr large ↦ rw large (
      ap (read_digits acc) (append_assoc (digits f (n / 10)) ((b'0' + n % 10) ∷ []) s)
      ∙ read_digits-digits f (n / 10) acc _ (omega arith)
          (tens-pos f (let m : 10 ≤ n = ground arith in omega arith))
      ∙ read_digit (acc * shift f (n / 10) + n / 10) (n % 10) s (omega arith)
      ∙ ap (λ x. read_digits x s) (omega arith))
]

-- A text that is a digit and more digits.
abbrev pub Digits : Bytes → Type 0
Digits t = (c : ℕ) × (s : Bytes) × (t ≡ c ∷ s) × IsDigit c × All IsDigit s

snoc-Digits : (xs : Bytes) (d : ℕ) → All IsDigit xs → IsDigit d → Digits (xs ++ d ∷ [])
snoc-Digits [] d h k = (d, [], refl, k, tt)
snoc-Digits (x ∷ xs) d h k =
    (x, xs ++ d ∷ [], refl, h.0, All-append IsDigit xs (d ∷ []) h.1 (k, tt))

digits-Digits : (f n : ℕ) → Digits (digits (suc f) n)
unfolding digits
digits-Digits f n =
    if-intro Digits (ltb n 10) (λ h. (b'0' + n, [], refl, ground arith, tt))
      (λ _. snoc-Digits (digits f (n / 10)) _ (digits-IsDigit f (n / 10)) (omega arith))

pub format_uint-Digits : (n : ℕ) → Digits (format_uint n)
unfolding format_uint
format_uint-Digits n = digits-Digits 19 n

atoi-Digits : (t : Bytes) → Digits t → atoi t ≡ positive (read_digits 0 t)
unfolding atoi
atoi-Digits t (c, s, e, h, k) =
    let minus : (c == b'-') ≡ false = ground arith in
    let plus : (c == b'+') ≡ false = ground arith in rw e (rw (minus, plus) refl)

read_digits-format_uint : (n : ℕ) → n < 2 ^ 63 → read_digits 0 (format_uint n) ≡ some n
unfolding format_uint
read_digits-format_uint n h =
    ap (read_digits 0) (sym (append-nil (digits 20 n)))
    ∙ read_digits-digits 20 n 0 [] (omega arith) (omega arith)
    ∙ (unfold read_digits in ap some (omega arith))

-- Reading what FormatUint writes gives the number back, below 2^63.
pub atoi-format_uint : (n : ℕ) → n < 2 ^ 63 → atoi (format_uint n) ≡ some (pos n)
atoi-format_uint n h =
    atoi-Digits (format_uint n) (format_uint-Digits n)
    ∙ ap positive (read_digits-format_uint n h)
    ∙ (unfold positive in rw (lt→ltb n _ h) refl)
