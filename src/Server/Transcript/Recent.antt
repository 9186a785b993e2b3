-- ===== src/Server/Transcript/Recent.antt =====
-- What `Read(n)` shows: the last lines that fit.
use ptymux.Std.Strings.{join}
use ptymux.Server.Transcript.{
  AnsiTranscript, max_transcript_bytes, transcript_size, fit_lines, last_lines, pending_line,
  recent_lines,
}
use ptymux.Prelude.{
  ℕ, zero, suc, ◌-◌, ◌≤◌, ◌<◌, ◌≡◌, refl, subst, inl, inr, List, [], ◌∷◌, ◌++◌, arith, ltb, ltb→lt,
  Bool-cases, length, drop, length-append, length-drop, Bytes, codes, if-intro,
}

length-join_lines : (ls : List Bytes) → length (join (codes "\n") ls) ≡ transcript_size ls
unfolding join transcript_size
length-join_lines [] = refl
length-join_lines (l ∷ []) = refl
length-join_lines (l ∷ m ∷ ls) =
    omega (arith, length-append l (b'\n' ∷ join (codes "\n") (m ∷ ls)), length-join_lines (m ∷ ls))

-- A tail of the lines that fits, and is the longest that does.
abbrev pub IsLongest : List Bytes → List Bytes → Type 0
IsLongest ls shown =
    (k : ℕ) × (shown ≡ drop k ls)
    × (transcript_size shown ≤ max_transcript_bytes)
    × ((j : ℕ) → j < k → max_transcript_bytes < transcript_size (drop j ls))

dropped :
    (l : Bytes) (ls : List Bytes) (k : ℕ)
    → max_transcript_bytes < transcript_size (l ∷ ls)
    → ((j : ℕ) → j < k → max_transcript_bytes < transcript_size (drop j ls))
    → (j : ℕ) → j < suc k
    → max_transcript_bytes < transcript_size (drop j (l ∷ ls))
dropped l ls k over rest zero h = over
dropped l ls k over rest (suc j) h = rest j (omega arith)

fit_lines-IsLongest : (ls : List Bytes) → IsLongest ls (fit_lines ls)
unfolding fit_lines
fit_lines-IsLongest [] =
    (0, refl, unfold transcript_size in omega arith, λ j h. absurd (omega arith))
fit_lines-IsLongest (l ∷ ls) =
    if-intro (IsLongest (l ∷ ls)) (ltb max_transcript_bytes (transcript_size (l ∷ ls)))
      (λ over.
        let (k, cut, fits, longest) = fit_lines-IsLongest ls in
        (suc k, cut, fits, dropped l ls k (ltb→lt _ _ over) longest))
      (λ under. (0, refl, ground arith, λ j h. absurd (omega arith)))

-- All lines that can be shown: the recorded ones, and the pending one unless it is a marker.
abbrev pub shown_lines : AnsiTranscript → List Bytes
shown_lines t = t.lines ++ pending_line t

length-last_lines : (n : ℕ) (ls : List Bytes) → length (last_lines n ls) ≤ n
unfolding last_lines
length-last_lines n ls = ground (arith, length-drop (length ls - n) ls)

last_lines-drop : (n : ℕ) (ls : List Bytes) → last_lines n ls ≡ drop (length ls - n) ls
unfolding last_lines
last_lines-drop n ls = elim (Bool-cases (ltb n (length ls))) [
  | inl more ↦ rw more refl
  | inr all ↦ let e : length ls - n ≡ 0 = ground arith in rw (all, e) refl
]

-- `RecentLines(n)` with n > 0, which takes the lines of the transcript and not those of an alternate
-- screen, gives at most 131072 bytes: lines joined by newlines, which are a tail of the last n lines
-- that can be shown, and no longer tail of those fits.
pub recent_lines-IsLongest :
    (t : AnsiTranscript) (n : ℕ)
    → (length (recent_lines t (suc n)) ≤ max_transcript_bytes)
      × ((shown : List Bytes) × (recent_lines t (suc n) ≡ join (codes "\n") shown)
          × IsLongest (drop (length (shown_lines t) - suc n) (shown_lines t)) shown)
unfolding recent_lines
recent_lines-IsLongest t n =
    let ls = last_lines (suc n) (shown_lines t) in
    let longest : IsLongest ls (fit_lines ls) = fit_lines-IsLongest ls in
    (
      omega (arith, length-join_lines (fit_lines ls), longest.2),
      (
        fit_lines ls,
        refl,
        subst (λ x. IsLongest x (fit_lines ls)) (last_lines-drop (suc n) (shown_lines t)) longest,
      ),
    )
