-- ===== src/Std/Map.antt =====
-- Go maps with string keys, as association lists; a key stands in a map at most once.
use ptymux.Prelude.{
  ◌≡◌, refl, sym, ◌∙◌, subst, inl, inr, true, false, Option, none, some, List, [], ◌∷◌,
  if◌then◌else◌, Bool-cases, All, Bytes, bytes_eq, bytes_eq_refl, bytes_eq_iff, if-intro,
}

differs : (a b c : Bytes) → bytes_eq a b ≡ true → bytes_eq b c ≡ false → bytes_eq a c ≡ false
differs a b c h k = subst (λ x. bytes_eq x c ≡ false) (sym ((bytes_eq_iff a b).0 h)) k

abbrev pub Map {ℓ} : Type ℓ → Type ℓ
Map A = List (Bytes × A)

module _ {ℓ} {A : Type ℓ} where
  -- `m[k]`, with `none` where Go gives the zero value
  unfoldable pub lookup : Bytes → Map A → Option A
  lookup k [] = none
  lookup k ((key, v) ∷ m) = let rest = lookup k m in if bytes_eq key k then some v else rest

  -- `m[k] = v`
  unfoldable pub insert : Bytes → A → Map A → Map A
  insert k v [] = (k, v) ∷ []
  insert k v ((key, w) ∷ m) =
      let rest = insert k v m in if bytes_eq key k then (key, v) ∷ m else (key, w) ∷ rest

  -- `delete(m, k)`
  unfoldable pub delete : Bytes → Map A → Map A
  delete k [] = []
  delete k ((key, w) ∷ m) =
      let rest = delete k m in if bytes_eq key k then rest else (key, w) ∷ rest

  unfoldable pub keys : Map A → List Bytes
  keys [] = []
  keys ((key, v) ∷ m) = key ∷ keys m

  pub lookup-insert : (k : Bytes) (v : A) (m : Map A) → lookup k (insert k v m) ≡ some v
  unfolding lookup insert
  lookup-insert k v [] = rw (bytes_eq_refl k) refl
  lookup-insert k v ((key, w) ∷ m) = elim (Bool-cases (bytes_eq key k)) [
    | inl e ↦ rw e (rw e refl)
    | inr e ↦ rw e (rw e (lookup-insert k v m))
  ]

  pub lookup-insert-other :
      (k : Bytes) (v : A) (m : Map A) (q : Bytes)
      → bytes_eq k q ≡ false
      → lookup q (insert k v m) ≡ lookup q m
  unfolding lookup insert
  lookup-insert-other k v [] q h = rw h refl
  lookup-insert-other k v ((key, w) ∷ m) q h = elim (Bool-cases (bytes_eq key k)) [
    | inl e ↦ let other : bytes_eq key q ≡ false = differs key k q e h in rw e (rw other refl)
    | inr e ↦ rw e (rw (lookup-insert-other k v m q h) refl)
  ]

  pub lookup-delete : (k : Bytes) (m : Map A) → lookup k (delete k m) ≡ none
  unfolding lookup delete
  lookup-delete k [] = refl
  lookup-delete k ((key, w) ∷ m) = elim (Bool-cases (bytes_eq key k)) [
    | inl e ↦ rw e (lookup-delete k m)
    | inr e ↦ rw e (rw e (lookup-delete k m))
  ]

  pub lookup-delete-other :
      (k : Bytes) (m : Map A) (q : Bytes)
      → bytes_eq k q ≡ false
      → lookup q (delete k m) ≡ lookup q m
  unfolding lookup delete
  lookup-delete-other k [] q h = refl
  lookup-delete-other k ((key, w) ∷ m) q h = elim (Bool-cases (bytes_eq key k)) [
    | inl e ↦
        let other : bytes_eq key q ≡ false = differs key k q e h in
        rw e (rw (lookup-delete-other k m q h) (rw other refl))
    | inr e ↦ rw e (rw (lookup-delete-other k m q h) refl)
  ]

-- A property of the values, under every key.
abbrev pub Values {ℓ κ} : {A : Type ℓ} → (A → Type κ) → Map A → Type κ
Values P = All (λ e. P e.1)

module _ {ℓ κ} {A : Type ℓ} (P : A → Type κ) where
  pub Values-insert : (k : Bytes) (v : A) (m : Map A) → P v → Values P m → Values P (insert k v m)
  unfolding insert
  Values-insert k v [] p h = (p, tt)
  Values-insert k v ((key, w) ∷ m) p h =
      if-intro (Values P) (bytes_eq key k) (λ _. (p, h.1)) (λ _. (h.0, Values-insert k v m p h.1))

  pub Values-delete : (k : Bytes) (m : Map A) → Values P m → Values P (delete k m)
  unfolding delete
  Values-delete k [] h = tt
  Values-delete k ((key, w) ∷ m) h =
      if-intro (Values P) (bytes_eq key k) (λ _. Values-delete k m h.1)
        (λ _. (h.0, Values-delete k m h.1))

  pub Values-lookup : (k : Bytes) (v : A) (m : Map A) → Values P m → lookup k m ≡ some v → P v
  unfolding lookup
  Values-lookup k v [] h e = cc
  Values-lookup k v ((key, w) ∷ m) h e = elim (Bool-cases (bytes_eq key k)) [
    | inl same ↦
        let found : lookup k ((key, w) ∷ m) ≡ some w = rw same refl in
        let value : w ≡ v = cc in subst P value h.0
    | inr other ↦
        let rest : lookup k ((key, w) ∷ m) ≡ lookup k m = rw other refl in
        Values-lookup k v m h.1 (sym rest ∙ e)
  ]
