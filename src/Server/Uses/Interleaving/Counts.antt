-- ===== src/Server/Uses/Interleaving/Counts.antt =====
-- What the writes of tabs and sessions do to the use counts.
use ptymux.Server.Store.{Sessions, find_tab, install_tab, remove_tab}
use ptymux.Server.Store.Laws.{same_target, find_tab-install_tab, find_tab-install_tab-other}
use ptymux.Server.Store.Removal.{find_tab-remove_tab, find_tab-remove_tab-other}
use ptymux.Server.Uses.{TargetKey, Tab, modify, begin_tab, finish_tab, touch_tab}
use ptymux.Server.Uses.Interleaving.{Config, count, remove_use}
use ptymux.Server.Uses.Interleaving.Heap.{
  active_at, length-modify, active_at-modify, active_at-append, active_at_beyond, count-remove_use,
}
use ptymux.Prelude.{
  ℕ, suc, ◌+◌, ◌-◌, ◌<◌, ◌≡◌, refl, sym, ap, ◌∙◌, inl, inr, Bool, true, false, some, List, [], ◌∷◌,
  ◌++◌, arith, ltb, ◌==◌, if◌then◌else◌, ==_iff, Bool-cases, length, length-append, Bytes,
  bytes_eq_iff,
}

-- every target stands for a tab of the heap
abbrev pub InHeap : Sessions → ℕ → Type 0
InHeap sessions n = (s p t : Bytes) (tab : ℕ) → find_tab sessions s p t ≡ some tab → tab < n

-- The count of each tab is the number of its uses that have not ended.
abbrev pub IsCounted : List Tab → List ℕ → Type 0
IsCounted tabs uses = (tab : ℕ) → active_at tabs tab ≡ count tab uses

abbrev pub Sound : Sessions → List Tab → List ℕ → Type 0
Sound sessions tabs uses = InHeap sessions (length tabs) × IsCounted tabs uses

abbrev pub Holds : Config → Type 0
Holds c = Sound c.store.sessions c.store.tabs c.uses

same_target_sound :
    (s p t s' p' t' : Bytes) → same_target s p t s' p' t' ≡ true → (s ≡ s') × (p ≡ p') × (t ≡ t')
unfolding same_target
same_target_sound s p t s' p' t' h = (
  (bytes_eq_iff s s').0 (ground arith),
  (bytes_eq_iff p p').0 (ground arith),
  (bytes_eq_iff t t').0 (ground arith),
)

pub InHeap-remove_tab :
    (sessions : Sessions) (n : ℕ) (s p t : Bytes)
    → InHeap sessions n
    → InHeap (remove_tab sessions s p t) n
InHeap-remove_tab sessions n s p t h s' p' t' tab e =
    let none_there = find_tab-remove_tab sessions s p t in
    elim (Bool-cases (same_target s p t s' p' t')) [
      | inl same ↦ let (a, b, c) = same_target_sound s p t s' p' t' same in absurd cc
      | inr other ↦
          h s' p' t' tab (sym (find_tab-remove_tab-other sessions s p t s' p' t' other) ∙ e)
    ]

InHeap-install_tab :
    (sessions : Sessions) (n : ℕ) (s p t : Bytes)
    → InHeap sessions n
    → InHeap (install_tab sessions s p t n) (suc n)
InHeap-install_tab sessions n s p t h s' p' t' tab e =
    elim (Bool-cases (same_target s p t s' p' t')) [
      | inl same ↦
          let (a, b, c) = same_target_sound s p t s' p' t' same in
          let there = find_tab-install_tab sessions s p t n in
          let equal : some n ≡ some tab = cc in let index : n ≡ tab = cc in omega (arith, index)
      | inr other ↦
          let old : tab < n =
            h s' p' t' tab (sym (find_tab-install_tab-other sessions s p t n s' p' t' other) ∙ e) in
          omega (arith, old)
    ]

-- A write of one tab that does with its count what happens to its uses.
write-Sound :
    (sessions : Sessions) (tabs : List Tab) (uses after : List ℕ) (f : Tab → Tab) (g : ℕ → ℕ)
    (tab : ℕ)
    → tab < length tabs
    → ((t : Tab) → (f t).active ≡ g t.active)
    → ((j : ℕ) → count j after ≡ (if tab == j then g (count j uses) else count j uses))
    → Sound sessions tabs uses
    → Sound sessions (modify f tabs tab) after
write-Sound sessions tabs uses after f g tab p h k (there, counted) = (
  λ s p t i e. rw (length-modify f tabs tab) (there s p t i e),
  λ j.
      active_at-modify f g h tabs tab j p
      ∙ ap (λ n. if tab == j then g n else n) (counted j)
      ∙ sym (k j),
)

pub begin-Sound :
    (sessions : Sessions) (tabs : List Tab) (uses : List ℕ) (now tab : ℕ) (active : Bool)
    → tab < length tabs
    → Sound sessions tabs uses
    → Sound sessions
        (modify (if active then begin_tab now else touch_tab now) tabs tab)
        (if active then tab ∷ uses else uses)
unfolding count
begin-Sound sessions tabs uses now tab true p h =
    write-Sound sessions tabs uses (tab ∷ uses) (begin_tab now) (λ n. n + 1) tab p (λ t. refl)
      (λ j. ground arith) h
begin-Sound sessions tabs uses now tab false p h =
    write-Sound sessions tabs uses uses (touch_tab now) (λ n. n) tab p (λ t. refl)
      (λ j. ground arith) h

pub in_heap :
    (tabs : List Tab) (uses : List ℕ) (tab : ℕ)
    → 0 < count tab uses
    → IsCounted tabs uses
    → tab < length tabs
in_heap tabs uses tab p counted = elim (Bool-cases (ltb tab (length tabs))) [
  | inl e ↦ ground arith
  | inr e ↦
      let no_use = active_at_beyond tabs tab (ground arith) in
      let used_there = counted tab in absurd (omega (arith, p, no_use, used_there))
]

pub finish-Sound :
    (sessions : Sessions) (tabs : List Tab) (uses : List ℕ) (now tab : ℕ)
    → 0 < count tab uses
    → Sound sessions tabs uses
    → Sound sessions (modify (finish_tab now) tabs tab) (remove_use tab uses)
finish-Sound sessions tabs uses now tab p h =
    write-Sound sessions tabs uses (remove_use tab uses) (finish_tab now) (λ n. n - 1) tab
      (in_heap tabs uses tab p h.1) (λ t. refl) (λ j. count-remove_use tab j uses p ∙ ground arith)
      h

new_use :
    (j tab : ℕ) (uses : List ℕ) (active : Bool)
    → (tab == j) ≡ true
    → count j uses ≡ 0
    → (if active then 1 else 0) ≡ count j (if active then tab ∷ uses else uses)
unfolding count
new_use j tab uses true e h = rw (e, h) refl
new_use j tab uses false e h = sym h

old_use :
    (j tab : ℕ) (uses : List ℕ) (active : Bool)
    → (tab == j) ≡ false
    → count j uses ≡ count j (if active then tab ∷ uses else uses)
unfolding count
old_use j tab uses true e = rw e (omega arith)
old_use j tab uses false e = refl

new_count :
    (tabs : List Tab) (uses : List ℕ) (j n : ℕ) (active : Bool)
    → n ≡ (if active then 1 else 0)
    → IsCounted tabs uses
    → (if length tabs == j then n else active_at tabs j)
      ≡ count j (if active then length tabs ∷ uses else uses)
unfolding count
new_count tabs uses j n active e counted =
    let fresh : length tabs ≡ j → active_at tabs j ≡ 0 =
      λ same. active_at_beyond tabs j (omega (arith, same)) in
    let here = counted j in
    elim (Bool-cases (length tabs == j)) [
      | inl same ↦
          let at_end = fresh ((==_iff (length tabs) j).0 same) in
          rw (same, e) (new_use j (length tabs) uses active same (sym here ∙ at_end))
      | inr other ↦ rw other (here ∙ old_use j (length tabs) uses active other)
    ]

pub install-Sound :
    (sessions : Sessions) (tabs : List Tab) (uses : List ℕ) (key : TargetKey) (new : Tab)
    (active : Bool)
    → new.active ≡ (if active then 1 else 0)
    → Sound sessions tabs uses
    → Sound
        (install_tab sessions key.session key.pane key.tab (length tabs))
        (tabs ++ new ∷ [])
        (if active then length tabs ∷ uses else uses)
install-Sound sessions tabs uses key new active e (there, counted) = (
  λ s p t i found. rw (length-append tabs (new ∷ [])) (
      omega (
        arith,
        InHeap-install_tab sessions (length tabs) key.session key.pane key.tab there s p t i found,
      )),
  λ j. active_at-append tabs new j ∙ new_count tabs uses j new.active active e counted,
)
