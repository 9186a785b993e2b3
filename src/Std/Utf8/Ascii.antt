-- ===== src/Std/Utf8/Ascii.antt =====
-- ASCII bytes stand for themselves and never occur within another rune.
use ptymux.Std.Utf8.{
  decode_two, decode_three, decode_four, decode_rune, second_ok, is_continuation, lead_size, runes,
  valid, valid_from, runes_from,
}
use ptymux.Prelude.{
  ℕ, zero, suc, ◌-◌, ◌≤◌, ◌<◌, ◌≡◌, refl, ap, ◌∙◌, subst, ◌≢◌, Bool, true, false, ◌&&◌, [], ◌∷◌,
  arith, ltb, leb, ◌==◌, if◌then◌else◌, lt→ltb, length, take, drop, take-append-drop, length-drop,
  All, All-append, Bytes, if-intro,
}

-- All the bytes of a rune but the first are high.
abbrev High : Bytes → ℕ × ℕ → Type 0
High s d = All (λ c. 0x80 ≤ c) (take (d.1 - 1) s)

second_ok-High : (b c : ℕ) → second_ok b c ≡ true → 0x80 ≤ c
unfolding second_ok
second_ok-High b c h = ground arith

is_continuation-High : (c : ℕ) → is_continuation c ≡ true → 0x80 ≤ c
unfolding is_continuation
is_continuation-High c h = ground arith

and-left : (a b : Bool) → (a && b) ≡ true → (a ≡ true) × (b ≡ true)
and-left true true h = (refl, refl)
and-left true false h = cc
and-left false b h = cc

if-High :
    (s : Bytes) (b : Bool) (r m : ℕ)
    → (b ≡ true → All (λ c. 0x80 ≤ c) (take (m - 1) s))
    → High s (if b then (r, m) else (0xfffd, 1))
if-High s true r m h = h refl
if-High s false r m h = tt

decode_two-High : (b : ℕ) (s : Bytes) → High s (decode_two b s)
unfolding decode_two
decode_two-High b [] = tt
decode_two-High b (c ∷ s) = if-High (c ∷ s) (second_ok b c) _ 2 (λ e. (second_ok-High b c e, tt))

decode_three-High : (b : ℕ) (s : Bytes) → High s (decode_three b s)
unfolding decode_three
decode_three-High b [] = tt
decode_three-High b (c ∷ []) = tt
decode_three-High b (c ∷ d ∷ s) = if-High (c ∷ d ∷ s) (second_ok b c && is_continuation d) _ 3 (λ e.
    let (p, q) = and-left (second_ok b c) (is_continuation d) e in
    (second_ok-High b c p, (is_continuation-High d q, tt)))

decode_four-High : (b : ℕ) (s : Bytes) → High s (decode_four b s)
unfolding decode_four
decode_four-High b [] = tt
decode_four-High b (c ∷ []) = tt
decode_four-High b (c ∷ d ∷ []) = tt
decode_four-High b (c ∷ d ∷ e ∷ s) =
    if-High (c ∷ d ∷ e ∷ s) (second_ok b c && is_continuation d && is_continuation e) _ 4 (λ k.
      let (pq, r) = and-left (second_ok b c && is_continuation d) (is_continuation e) k in
      let (p, q) = and-left (second_ok b c) (is_continuation d) pq in
      (second_ok-High b c p, (is_continuation-High d q, (is_continuation-High e r, tt))))

decode_rune-High : (b : ℕ) (s : Bytes) → High s (decode_rune (b ∷ s))
unfolding decode_rune
decode_rune-High b s =
    let P = High s in
    if-intro P (lead_size b == 1) (λ _. tt)
      (λ _.
        if-intro P (lead_size b == 2) (λ _. decode_two-High b s)
          (λ _.
            if-intro P (lead_size b == 3) (λ _. decode_three-High b s)
              (λ _. if-intro P (lead_size b == 4) (λ _. decode_four-High b s) (λ _. tt))))

decode_rune-ascii : (b : ℕ) (s : Bytes) → b < 0x80 → (decode_rune (b ∷ s)).0 ≡ b
unfolding decode_rune lead_size
decode_rune-ascii b s h = let e : ltb b 0x80 ≡ true = lt→ltb b 0x80 h in rw e refl

high-lacks : (sep : ℕ) (s : Bytes) → sep < 0x80 → All (λ c. 0x80 ≤ c) s → All (λ c. c ≢ sep) s
high-lacks sep [] h k = tt
high-lacks sep (c ∷ s) h k = ((λ e. omega (arith, k.0, e)), high-lacks sep s h k.1)

runes_from-lacks :
    (sep f : ℕ) (s : Bytes)
    → sep < 0x80
    → length s ≤ f
    → All (λ r. r ≢ sep) (runes_from f s)
    → All (λ c. c ≢ sep) s
unfolding runes_from
runes_from-lacks sep zero [] h k v = tt
runes_from-lacks sep zero (b ∷ s) h k v = absurd (omega arith)
runes_from-lacks sep (suc f) [] h k v = tt
runes_from-lacks sep (suc f) (b ∷ s) h k v =
    let n = (decode_rune (b ∷ s)).1 - 1 in
    let ih : All (λ c. c ≢ sep) (drop n s) =
      runes_from-lacks sep f (drop n s) h (omega (arith, length-drop n s)) v.1 in
    let skipped = high-lacks sep (take n s) h (decode_rune-High b s) in
    (
      λ e. v.0 (decode_rune-ascii b s (omega (arith, e)) ∙ e),
      subst (All (λ c. c ≢ sep)) (take-append-drop n s)
          (All-append (λ c. c ≢ sep) (take n s) (drop n s) skipped ih),
    )

-- A text none of whose runes is an ASCII character has no byte of that value.
pub runes-lacks :
    (sep : ℕ) (s : Bytes) → sep < 0x80 → All (λ r. r ≢ sep) (runes s) → All (λ c. c ≢ sep) s
unfolding runes
runes-lacks sep s h v = runes_from-lacks sep (length s) s h (omega arith) v

decode_rune-byte : (b : ℕ) (s : Bytes) → b < 0x80 → decode_rune (b ∷ s) ≡ (b, 1)
unfolding decode_rune lead_size
decode_rune-byte b s h = let e : ltb b 0x80 ≡ true = lt→ltb b 0x80 h in rw e refl

abbrev pub IsAscii : Bytes → Type 0
IsAscii = All (λ b. b < 0x80)

runes_from-IsAscii : (f : ℕ) (s : Bytes) → length s ≤ f → IsAscii s → runes_from f s ≡ s
unfolding runes_from
runes_from-IsAscii zero [] h v = refl
runes_from-IsAscii zero (b ∷ s) h v = absurd (omega arith)
runes_from-IsAscii (suc f) [] h v = refl
runes_from-IsAscii (suc f) (b ∷ s) h v =
    rw (decode_rune-byte b s v.0) (ap (◌∷◌ b) (runes_from-IsAscii f s (omega arith) v.1))

-- The runes of an ASCII text are its bytes.
pub runes-IsAscii : (s : Bytes) → IsAscii s → runes s ≡ s
unfolding runes
runes-IsAscii s v = runes_from-IsAscii (length s) s (omega arith) v

valid_from-IsAscii : (f : ℕ) (s : Bytes) → IsAscii s → valid_from f s ≡ true
unfolding valid_from
valid_from-IsAscii zero s v = refl
valid_from-IsAscii (suc f) [] v = refl
valid_from-IsAscii (suc f) (b ∷ s) v =
    let low : leb 0x80 b ≡ false = ground (arith, v.0) in
    rw (decode_rune-byte b s v.0) (rw low (valid_from-IsAscii f s v.1))

-- An ASCII text is valid UTF-8.
pub valid-IsAscii : (s : Bytes) → IsAscii s → valid s ≡ true
unfolding valid
valid-IsAscii s v = valid_from-IsAscii (length s) s v
