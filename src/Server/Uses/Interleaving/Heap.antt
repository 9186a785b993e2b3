-- ===== src/Server/Uses/Interleaving/Heap.antt =====
-- Reads of the heap of tabs behind writes, and uses counted.
use ptymux.Server.Uses.{begin_tab, finish_tab, touch_tab, Tab, get, modify}
use ptymux.Server.Uses.Interleaving.{count, remove_use}
use ptymux.Prelude.{
  ℕ, zero, suc, ◌+◌, ◌-◌, ◌≤◌, ◌<◌, ◌≡◌, refl, ap, subst, inl, inr, false, Option, none, some, List,
  [], ◌∷◌, ◌++◌, arith, ltb, ◌==◌, if◌then◌else◌, ltb→lt, ==_iff, Bool-cases, length,
}

-- The use count of the tab at an index, 0 where there is none.
abbrev pub active_of : Option Tab → ℕ
active_of none = 0
active_of (some t) = t.active

abbrev pub active_at : List Tab → ℕ → ℕ
active_at tabs i = active_of (get tabs i)

zero_differs : (j : ℕ) → (0 == suc j) ≡ false
zero_differs j = ground arith

suc_differs : (j : ℕ) → (suc j == 0) ≡ false
suc_differs j = ground arith

suc_same : (i j : ℕ) → (suc i == suc j) ≡ (i == j)
suc_same i j = ground arith

pub length-modify :
    {A : Type 0} (f : A → A) (xs : List A) (i : ℕ) → length (modify f xs i) ≡ length xs
unfolding modify
length-modify f [] i = refl
length-modify f (x ∷ xs) zero = refl
length-modify f (x ∷ xs) (suc i) = ap suc (length-modify f xs i)

-- A write changes the count at its index only.
pub active_at-modify :
    (f : Tab → Tab) (g : ℕ → ℕ)
    → ((t : Tab) → (f t).active ≡ g t.active)
    → (xs : List Tab) (i j : ℕ) → i < length xs
    → active_at (modify f xs i) j ≡ (if i == j then g (active_at xs j) else active_at xs j)
unfolding modify get
active_at-modify f g h [] i j p = absurd (omega (arith, p))
active_at-modify f g h (x ∷ xs) zero zero p = h x
active_at-modify f g h (x ∷ xs) zero (suc j) p = rw (zero_differs j) refl
active_at-modify f g h (x ∷ xs) (suc i) zero p = rw (suc_differs i) refl
active_at-modify f g h (x ∷ xs) (suc i) (suc j) p =
    rw (suc_same i j) (active_at-modify f g h xs i j (omega (arith, p)))

pub active_at-append :
    (xs : List Tab) (new : Tab) (j : ℕ)
    → active_at (xs ++ new ∷ []) j ≡ (if length xs == j then new.active else active_at xs j)
unfolding get
active_at-append [] new zero = refl
active_at-append [] new (suc j) = rw (zero_differs j) refl
active_at-append (x ∷ xs) new zero = rw (suc_differs (length xs)) refl
active_at-append (x ∷ xs) new (suc j) = rw (suc_same (length xs) j) (active_at-append xs new j)

pub active_at_beyond : (xs : List Tab) (i : ℕ) → length xs ≤ i → active_at xs i ≡ 0
unfolding get
active_at_beyond [] i h = refl
active_at_beyond (x ∷ xs) zero h = absurd (omega (arith, h))
active_at_beyond (x ∷ xs) (suc i) h = active_at_beyond xs i (omega (arith, h))

-- the use that is removed is one of the tab
remove_one :
    (tab j d n : ℕ) (m : ℕ)
    → (tab ≡ j → 0 < n)
    → m ≡ n - (if tab == j then 1 else 0)
    → d + m ≡ d + n - (if tab == j then 1 else 0)
remove_one tab j d n m p e = ground arith

pub count-remove_use :
    (tab j : ℕ) (uses : List ℕ)
    → 0 < count tab uses
    → count j (remove_use tab uses) ≡ count j uses - (if tab == j then 1 else 0)
unfolding count remove_use
count-remove_use tab j [] h = absurd (omega (arith, h))
count-remove_use tab j (x ∷ xs) h = elim (Bool-cases (x == tab)) [
  | inl e ↦ rw e (
      subst (λ t. count j xs ≡ (if x == j then 1 else 0) + count j xs - (if t == j then 1 else 0))
        ((==_iff x tab).0 e) (ground arith))
  | inr e ↦
      let more : 0 < count tab xs = ground arith in
      rw e (
        remove_one tab j (if x == j then 1 else 0) (count j xs) (count j (remove_use tab xs))
          (λ same. subst (λ t. 0 < count t xs) same more) (count-remove_use tab j xs more))
]

modify_beyond : {A : Type 0} (f : A → A) (xs : List A) (i : ℕ) → length xs ≤ i → modify f xs i ≡ xs
unfolding modify
modify_beyond f [] i h = refl
modify_beyond f (x ∷ xs) zero h = absurd (omega (arith, h))
modify_beyond f (x ∷ xs) (suc i) h = ap (λ ys. x ∷ ys) (modify_beyond f xs i (omega (arith, h)))

none_taken : (n i j : ℕ) → (i ≡ j → n ≡ 0) → n ≡ n - (if i == j then 1 else 0)
none_taken n i j h = ground arith

-- A begun use of a tab counts one for it, if the tab is there.
pub active_at-begin_tab :
    (now : ℕ) (xs : List Tab) (i j : ℕ)
    → active_at xs j ≡ active_at (modify (begin_tab now) xs i) j - (if i == j then 1 else 0)
active_at-begin_tab now xs i j = elim (Bool-cases (ltb i (length xs))) [
  | inl e ↦
      rw (active_at-modify (begin_tab now) (λ n. n + 1) (λ t. refl) xs i j (ltb→lt i (length xs) e))
        (ground arith)
  | inr e ↦
      let beyond = active_at_beyond xs i (ground arith) in
      rw (modify_beyond (begin_tab now) xs i (ground arith))
        (none_taken (active_at xs j) i j (λ same. subst (λ k. active_at xs k ≡ 0) same beyond))
]

pub active_at-finish_tab :
    (now : ℕ) (xs : List Tab) (i j : ℕ)
    → active_at (modify (finish_tab now) xs i) j ≡ active_at xs j - (if i == j then 1 else 0)
active_at-finish_tab now xs i j = elim (Bool-cases (ltb i (length xs))) [
  | inl e ↦
      rw
        (active_at-modify (finish_tab now) (λ n. n - 1) (λ t. refl) xs i j (ltb→lt i (length xs) e))
        (ground arith)
  | inr e ↦
      let beyond = active_at_beyond xs i (ground arith) in
      rw (modify_beyond (finish_tab now) xs i (ground arith))
        (none_taken (active_at xs j) i j (λ same. subst (λ k. active_at xs k ≡ 0) same beyond))
]

pub active_at-touch_tab :
    (now : ℕ) (xs : List Tab) (i j : ℕ) → active_at (modify (touch_tab now) xs i) j ≡ active_at xs j
active_at-touch_tab now xs i j = elim (Bool-cases (ltb i (length xs))) [
  | inl e ↦
      rw (active_at-modify (touch_tab now) (λ n. n) (λ t. refl) xs i j (ltb→lt i (length xs) e))
        (ground arith)
  | inr e ↦ rw (modify_beyond (touch_tab now) xs i (ground arith)) refl
]
