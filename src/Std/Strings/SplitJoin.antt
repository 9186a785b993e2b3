-- ===== src/Std/Strings/SplitJoin.antt =====
-- Splitting at a byte and joining by it undo each other.
use ptymux.Std.Strings.{split, join, add_to_first}
use ptymux.Prelude.{
  ℕ, ◌≡◌, refl, ap, ◌∙◌, subst, ◌≢◌, inl, inr, List, [], ◌∷◌, ◌++◌, arith, ◌==◌, ==_iff, Bool-cases,
  All, Bytes,
}

abbrev pub Lacks : ℕ → Bytes → Type 0
Lacks sep = All (λ c. c ≢ sep)

split-prefix : (sep : ℕ) (p s : Bytes) → Lacks sep p → split sep (p ++ sep ∷ s) ≡ p ∷ split sep s
unfolding split
split-prefix sep [] s h = ground arith
split-prefix sep (c ∷ p) s h = ground (arith, split-prefix sep p s h.1)

pub split-Lacks : (sep : ℕ) (p : Bytes) → Lacks sep p → split sep p ≡ p ∷ []
unfolding split
split-Lacks sep [] h = refl
split-Lacks sep (c ∷ p) h = ground (arith, split-Lacks sep p h.1)

-- Splitting a join gives the parts back, if there is a part and none holds the separator.
pub split-join :
    (sep : ℕ) (p : Bytes) (ps : List Bytes)
    → All (Lacks sep) (p ∷ ps)
    → split sep (join (sep ∷ []) (p ∷ ps)) ≡ p ∷ ps
unfolding join
split-join sep p [] h = split-Lacks sep p h.0
split-join sep p (q ∷ ps) h =
    split-prefix sep p (join (sep ∷ []) (q ∷ ps)) h.0 ∙ ap (◌∷◌ p) (split-join sep q ps h.1)

join-add_to_first :
    (sep c : ℕ) (ps : List Bytes) → join (sep ∷ []) (add_to_first c ps) ≡ c ∷ join (sep ∷ []) ps
unfolding join add_to_first
join-add_to_first sep c [] = refl
join-add_to_first sep c (p ∷ []) = refl
join-add_to_first sep c (p ∷ q ∷ ps) = refl

-- A split always has a part.
split-cons : (sep : ℕ) (s : Bytes) → (p : Bytes) × (ps : List Bytes) × (split sep s ≡ p ∷ ps)
unfolding split
split-cons sep [] = ([], [], refl)
split-cons sep (c ∷ s) =
    let (p, ps, e) = split-cons sep s in
    elim (Bool-cases (c == sep)) [
      | inl h ↦ ([], split sep s, rw h refl)
      | inr h ↦ (c ∷ p, ps, rw (h, e) refl)
    ]

-- Joining the parts of a split gives the text back.
pub join-split : (sep : ℕ) (s : Bytes) → join (sep ∷ []) (split sep s) ≡ s
unfolding split join
join-split sep [] = refl
join-split sep (c ∷ s) =
    let (p, ps, e) = split-cons sep s in
    let ih : join (sep ∷ []) (split sep s) ≡ s = join-split sep s in
    elim (Bool-cases (c == sep)) [
      | inl h ↦ rw h (rw e (cc ((==_iff c sep).0 h, subst (λ x. join (sep ∷ []) x ≡ s) e ih)))
      | inr h ↦ rw h (join-add_to_first sep c (split sep s) ∙ ap (◌∷◌ c) ih)
    ]
