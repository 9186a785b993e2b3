-- ===== src/Server/Store/Laws/Count.antt =====
-- How many targets a store has after a tab is installed.
use ptymux.Std.Map.{Map, lookup, insert}
use ptymux.Server.Store.{
  Pane, Session, Sessions, find_in_session, find_tab, session_or_new, pane_or_new,
  install_in_session, install_tab, count_tabs, target_count, target_exists,
}
use ptymux.Server.Store.Laws.{find-session_or_new, find-pane_or_new}
use ptymux.Prelude.{
  ℕ, ◌+◌, ◌≡◌, refl, ap, inl, inr, true, false, Option, none, some, [], ◌∷◌, arith, if◌then◌else◌,
  Bool-cases, length, Bytes, bytes_eq,
}

-- what a new entry adds to a count, beside the one that it replaces
unfoldable added : Option ℕ → ℕ
added none = 1
added (some old) = 0

-- the sum of the sizes of the values of a map
unfoldable total {ℓ} : {A : Type ℓ} → (A → ℕ) → Map A → ℕ
total size [] = 0
total size ((key, v) ∷ m) = size v + total size m

unfoldable size_of {ℓ} : {A : Type ℓ} → (A → ℕ) → Option A → ℕ
size_of size none = 0
size_of size (some v) = size v

total-insert {ℓ} :
    {A : Type ℓ} (size : A → ℕ) (k : Bytes) (v : A) (m : Map A)
    → total size (insert k v m) + size_of size (lookup k m) ≡ total size m + size v
unfolding total insert lookup size_of
total-insert size k v [] = omega arith
total-insert size k v ((key, w) ∷ m) = elim (Bool-cases (bytes_eq key k)) [
  | inl e ↦ rw e (omega arith)
  | inr e ↦ let rest = total-insert size k v m in rw e (omega (arith, rest))
]

length-insert :
    (t : Bytes) (tab : ℕ) (tabs : Map ℕ)
    → length (insert t tab tabs) ≡ length tabs + added (lookup t tabs)
unfolding insert lookup added
length-insert t tab [] = refl
length-insert t tab ((key, w) ∷ tabs) = elim (Bool-cases (bytes_eq key t)) [
  | inl e ↦ rw e (omega arith)
  | inr e ↦ let rest = length-insert t tab tabs in rw e (omega (arith, rest))
]

abbrev tabs_in : Pane → ℕ
tabs_in pane = length pane.tabs

abbrev targets_in : Session → ℕ
targets_in session = count_tabs session.panes

count_tabs-total : (panes : Map Pane) → count_tabs panes ≡ total tabs_in panes
unfolding count_tabs total
count_tabs-total [] = refl
count_tabs-total ((key, pane) ∷ panes) = ap (λ n. length pane.tabs + n) (count_tabs-total panes)

target_count-total : (sessions : Sessions) → target_count sessions ≡ total targets_in sessions
unfolding target_count total
target_count-total [] = refl
target_count-total ((key, session) ∷ sessions) =
    ap (λ n. count_tabs session.panes + n) (target_count-total sessions)

tabs_in-pane_or_new : (p : Bytes) (o : Option Pane) → tabs_in (pane_or_new p o) ≡ size_of tabs_in o
unfolding pane_or_new size_of
tabs_in-pane_or_new p none = refl
tabs_in-pane_or_new p (some pane) = refl

targets_in-session_or_new :
    (s : Bytes) (o : Option Session) → targets_in (session_or_new s o) ≡ size_of targets_in o
unfolding session_or_new size_of count_tabs
targets_in-session_or_new s none = refl
targets_in-session_or_new s (some session) = refl

targets_in-install_in_session :
    (session : Session) (p t : Bytes) (tab : ℕ)
    → targets_in (install_in_session session p t tab)
      ≡ targets_in session + added (find_in_session p t (some session))
unfolding install_in_session find_in_session
targets_in-install_in_session session p t tab =
    let pane = pane_or_new p (lookup p session.panes) in
    let new = record pane { tabs = insert t tab pane.tabs } in
    let one = length-insert t tab pane.tabs in
    let found = ap added (find-pane_or_new t p (lookup p session.panes)) in
    let old = tabs_in-pane_or_new p (lookup p session.panes) in
    let all = total-insert tabs_in p new session.panes in
    let before = count_tabs-total session.panes in
    let after = count_tabs-total (insert p new session.panes) in
    omega (arith, one, found, old, all, before, after)

added_lem : (o : Option ℕ) → added o ≡ (if elim o [ none ↦ false | some tab ↦ true ] then 0 else 1)
unfolding added
added_lem none = refl
added_lem (some tab) = refl

added-target_exists :
    (sessions : Sessions) (s p t : Bytes)
    → added (find_tab sessions s p t) ≡ (if target_exists sessions s p t then 0 else 1)
unfolding target_exists
added-target_exists sessions s p t = added_lem (find_tab sessions s p t)

-- After a tab is installed there is one target more if its target did not exist, and as many as before
-- if it did: no other tab goes or comes, whether or not its session and its pane are new.
pub target_count-install_tab :
    (sessions : Sessions) (s p t : Bytes) (tab : ℕ)
    → target_count (install_tab sessions s p t tab)
      ≡ target_count sessions + (if target_exists sessions s p t then 0 else 1)
unfolding install_tab find_tab
target_count-install_tab sessions s p t tab =
    let session = session_or_new s (lookup s sessions) in
    let new = install_in_session session p t tab in
    let one = targets_in-install_in_session session p t tab in
    let found = ap added (find-session_or_new p t s (lookup s sessions)) in
    let old = targets_in-session_or_new s (lookup s sessions) in
    let all = total-insert targets_in s new sessions in
    let before = target_count-total sessions in
    let after = target_count-total (insert s new sessions) in
    let exists = added-target_exists sessions s p t in
    omega (arith, one, found, old, all, before, after, exists)
