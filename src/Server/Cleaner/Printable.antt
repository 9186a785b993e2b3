-- ===== src/Server/Cleaner/Printable.antt =====
-- What the terminal cleaner lets through.
use ptymux.Prelude.{
  ℕ, zero, suc, ◌+◌, ◌-◌, ◌≤◌, ◌≡◌, refl, ◌⊎◌, inl, inr, true, false, List, [], ◌∷◌, ◌++◌, arith,
  ltb, ◌==◌, if◌then◌else◌, length, set, length-append, length-set, All, All-append, All-take,
  if-intro,
}
use ptymux.Server.Cleaner.{
  CleanerState, normal, TerminalCleaner, is_allowed_text_rune, apply_pending_cr, write_rune,
  flush_line, backspace, newline, normal_rune, rune_in, clean_rune, write_runes,
}

abbrev pub Allowed : List ℕ → Type 0
Allowed = All (λ r. is_allowed_text_rune r ≡ true)

-- a rune of the output: text, or the end of a line
abbrev pub IsPrintable : ℕ → Type 0
IsPrintable r = (r ≡ b'\n') ⊎ (is_allowed_text_rune r ≡ true)

-- The cursor is never beyond the line, and the line holds text only.
pub record IsValid (c : TerminalCleaner) : Type 0 where
  pub within : c.col ≤ length c.line
  pub text : Allowed c.line

Allowed-set :
    (l : List ℕ) (i r : ℕ) → is_allowed_text_rune r ≡ true → Allowed l → Allowed (set l i r)
Allowed-set [] i r h a = tt
Allowed-set (x ∷ l) zero r h a = (h, a.1)
Allowed-set (x ∷ l) (suc i) r h a = (a.0, Allowed-set l i r h a.1)

-- The padding loop of `writeRune` does not run.
pub write_rune_lem :
    (c : TerminalCleaner) (r : ℕ)
    → c.col ≤ length c.line
    → write_rune c r ≡ record c {
      line = if ltb c.col (length c.line) then set c.line c.col r else c.line ++ r ∷ [];
      col = c.col + 1;
    }
unfolding write_rune
write_rune_lem c r h = let e : c.col - length c.line ≡ 0 = omega arith in rw e

apply_pending_cr-IsValid : (c : TerminalCleaner) → IsValid c → IsValid (apply_pending_cr c)
unfolding apply_pending_cr
apply_pending_cr-IsValid c v = ground arith

write_rune-IsValid :
    (c : TerminalCleaner) (r : ℕ)
    → is_allowed_text_rune r ≡ true
    → IsValid c
    → IsValid (write_rune c r)
write_rune-IsValid c r h v = rw (write_rune_lem c r v.within) (record {
  within = ground (arith, length-set c.line c.col r, length-append c.line (r ∷ []));
  text =
      if-intro Allowed (ltb c.col (length c.line)) (λ _. Allowed-set c.line c.col r h v.text)
        (λ _. All-append _ c.line (r ∷ []) v.text (h, tt));
})

-- A step keeps the invariant and writes printable runes.
abbrev Good : TerminalCleaner × List ℕ → Type 0
Good (c, out) = IsValid c × All IsPrintable out

Allowed-IsPrintable : (l : List ℕ) → Allowed l → All IsPrintable l
Allowed-IsPrintable [] h = tt
Allowed-IsPrintable (x ∷ l) h = (inr h.0, Allowed-IsPrintable l h.1)

flush_line-Good : (c : TerminalCleaner) → IsValid c → Good (flush_line c)
unfolding flush_line
flush_line-Good c v = (
  record { within = omega arith; text = tt },
  Allowed-IsPrintable _ (
      if-intro Allowed (ltb c.col (length c.line)) (λ _. All-take _ c.col c.line v.text)
        (λ _. v.text)),
)

newline-Good : (c : TerminalCleaner) → IsValid c → Good (newline c)
unfolding newline
newline-Good c v =
    let c' : TerminalCleaner = if c.pending_cr then record c { pending_cr = false } else c in
    let g : Good (flush_line c') = flush_line-Good c' (ground arith) in
    (g.0, All-append IsPrintable _ (b'\n' ∷ []) g.1 (inl refl, tt))

backspace-IsValid : (c : TerminalCleaner) → IsValid c → IsValid (backspace c)
unfolding backspace
backspace-IsValid c v = ground arith

normal_rune-Good : (c : TerminalCleaner) (r : ℕ) → IsValid c → Good (normal_rune c r)
unfolding normal_rune is_allowed_text_rune
normal_rune-Good c r v =
    let moved : IsValid (apply_pending_cr c) = apply_pending_cr-IsValid c v in
    if-intro Good (r == 0x1b) (λ _. (record { within = moved.within; text = moved.text }, tt))
      λ _.
        if-intro Good (r == 0x03) (λ _. (moved, (inr refl, (inr refl, tt))))
          λ _.
            if-intro Good (r == 0x07) (λ _. (v, tt))
              λ _.
                if-intro Good (r == b'\n') (λ _. newline-Good c v)
                  λ _.
                    if-intro Good (r == b'\r')
                      (λ _. (record { within = v.within; text = v.text }, tt))
                      λ _.
                        if-intro Good (r == 0x08)
                          (λ _. (backspace-IsValid (apply_pending_cr c) moved, tt))
                          λ _.
                            if-intro Good (is_allowed_text_rune r)
                              (λ h. (write_rune-IsValid (apply_pending_cr c) r h moved, tt))
                              (λ _. (v, tt))

rune_in-Good : (s : CleanerState) (c : TerminalCleaner) (r : ℕ) → IsValid c → Good (rune_in s c r)
unfolding rune_in
rune_in-Good normal c r v = normal_rune-Good c r v
rune_in-Good _ c r v = (record { within = v.within; text = v.text }, tt)

-- Whatever the input, the cleaner keeps its invariant, and writes text runes and newlines only.
pub write_runes-Good :
    (c : TerminalCleaner) (rs : List ℕ)
    → IsValid c
    → IsValid (write_runes c rs).0 × All IsPrintable (write_runes c rs).1
unfolding write_runes
write_runes-Good c [] v = (v, tt)
write_runes-Good c (r ∷ rs) v =
    let g : Good (clean_rune c r) = rune_in-Good c.state c r v in
    let h : Good (write_runes (clean_rune c r).0 rs) = write_runes-Good (clean_rune c r).0 rs g.0 in
    (h.0, All-append IsPrintable (clean_rune c r).1 _ g.1 h.1)
