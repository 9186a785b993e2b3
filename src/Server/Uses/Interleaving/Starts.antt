-- ===== src/Server/Uses/Interleaving/Starts.antt =====
-- Writes of the heap of starts, and who will end a start.
use ptymux.Server.Uses.{StartingTarget, get, modify}
use ptymux.Server.Uses.Interleaving.{Flight, remove_flight}
use ptymux.Prelude.{
  ℕ, zero, suc, ◌≡◌, refl, sym, ap, ◌∙◌, subst, inl, inr, Bool, true, false, ◌||◌, Option, none,
  some, List, [], ◌∷◌, ◌++◌, arith, ◌==◌, if◌then◌else◌, Bool-cases, length, if-intro,
}

-- Whether nobody has to wait for a start.
unfoldable pub done_of : Option StartingTarget → Bool
done_of none = true
done_of (some t) = t.done

abbrev pub done_at : List StartingTarget → ℕ → Bool
done_at targets i = done_of (get targets i)

unfoldable pub in_flight : ℕ → List Flight → Bool
in_flight i [] = false
in_flight i (f ∷ flights) = let rest = in_flight i flights in if f.entry == i then true else rest

zero_first : (j : ℕ) → (0 == suc j) ≡ false
zero_first j = ground arith

suc_first : (j : ℕ) → (suc j == 0) ≡ false
suc_first j = ground arith

same_index : (i j : ℕ) → (suc i == suc j) ≡ (i == j)
same_index i j = ground arith

done_at-modify :
    (f : StartingTarget → StartingTarget)
    → ((t : StartingTarget) → (f t).done ≡ t.done)
    → (xs : List StartingTarget) (i j : ℕ) → done_at (modify f xs i) j ≡ done_at xs j
unfolding modify get done_of
done_at-modify f h [] i j = refl
done_at-modify f h (x ∷ xs) zero zero = h x
done_at-modify f h (x ∷ xs) zero (suc j) = refl
done_at-modify f h (x ∷ xs) (suc i) zero = refl
done_at-modify f h (x ∷ xs) (suc i) (suc j) = done_at-modify f h xs i j

done_at-finished :
    (f : StartingTarget → StartingTarget)
    → ((t : StartingTarget) → (f t).done ≡ true)
    → (xs : List StartingTarget) (i j : ℕ)
    → done_at (modify f xs i) j ≡ (if i == j then true else done_at xs j)
unfolding modify get done_of
done_at-finished f h [] i j = if-intro (λ r. true ≡ r) (i == j) (λ _. refl) (λ _. refl)
done_at-finished f h (x ∷ xs) zero zero = h x
done_at-finished f h (x ∷ xs) zero (suc j) = rw (zero_first j) refl
done_at-finished f h (x ∷ xs) (suc i) zero = rw (suc_first i) refl
done_at-finished f h (x ∷ xs) (suc i) (suc j) = rw (same_index i j) (done_at-finished f h xs i j)

done_at-append :
    (xs : List StartingTarget) (new : StartingTarget) (j : ℕ)
    → (length xs == j) ≡ false
    → done_at (xs ++ new ∷ []) j ≡ done_at xs j
unfolding get done_of
done_at-append [] new zero h = absurd cc
done_at-append [] new (suc j) h = refl
done_at-append (x ∷ xs) new zero h = refl
done_at-append (x ∷ xs) new (suc j) h = done_at-append xs new j (sym (same_index (length xs) j) ∙ h)

in_flight-remove_flight :
    (flights : List Flight) (n j : ℕ) (f : Flight)
    → get flights n ≡ some f
    → (f.entry == j) ≡ false
    → in_flight j (remove_flight n flights) ≡ in_flight j flights
unfolding get in_flight remove_flight
in_flight-remove_flight [] n j f e h = refl
in_flight-remove_flight (x ∷ xs) zero j f e h =
    let same : x ≡ f = cc in
    subst (λ g. in_flight j xs ≡ (if g.entry == j then true else in_flight j xs)) (sym same)
      (rw h refl)
in_flight-remove_flight (x ∷ xs) (suc n) j f e h =
    ap (λ r. if x.entry == j then true else r) (in_flight-remove_flight xs n j f e h)

-- Each start is done, or the goroutine that will end it is there.
abbrev pub Told : List StartingTarget → List Flight → Type 0
Told targets flights = (i : ℕ) → (done_at targets i || in_flight i flights) ≡ true

or_true : (b : Bool) → (b || true) ≡ true
or_true true = refl
or_true false = refl

pub start-Told :
    (targets : List StartingTarget) (flights : List Flight) (new : StartingTarget) (f : Flight)
    → f.entry ≡ length targets
    → Told targets flights
    → Told (targets ++ new ∷ []) (f ∷ flights)
unfolding in_flight
start-Told targets flights new f e h i = elim (Bool-cases (length targets == i)) [
  | inl same ↦ rw (e, same) (or_true (done_at (targets ++ new ∷ []) i))
  | inr other ↦ rw (e, other, done_at-append targets new i other) (h i)
]

pub cancel-Told :
    (targets : List StartingTarget) (flights : List Flight) (i : ℕ)
    → Told targets flights
    → Told (modify (λ t. record t { canceled = true }) targets i) flights
cancel-Told targets flights i h j =
    ap (λ b. b || in_flight j flights)
      (done_at-modify (λ t. record t { canceled = true }) (λ t. refl) targets i j)
    ∙ h j

pub finished-Told :
    (targets : List StartingTarget) (flights : List Flight) (n : ℕ) (f : Flight)
    (change : StartingTarget → StartingTarget)
    → get flights n ≡ some f
    → Told targets flights
    → Told
        (modify (λ t. record (change t) { done = true }) targets f.entry)
        (remove_flight n flights)
finished-Told targets flights n f change e h j =
    ap (λ b. b || in_flight j (remove_flight n flights))
      (done_at-finished (λ t. record (change t) { done = true }) (λ t. refl) targets f.entry j)
    ∙ (elim (Bool-cases (f.entry == j)) [
      | inl same ↦ rw same refl
      | inr other ↦ rw (other, in_flight-remove_flight flights n j f e other) (h j)
    ])
