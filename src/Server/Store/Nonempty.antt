-- ===== src/Server/Store/Nonempty.antt =====
-- Which operations leave no session and no pane empty.
use ptymux.Std.Map.{
  Map, Values, lookup, insert, delete, Values-insert, Values-delete, Values-lookup,
}
use ptymux.Server.Store.{
  Pane, Session, Sessions, is_nil, session_or_new, pane_or_new, install_in_session, install_tab,
  remove_from_panes, keep_session, remove_tab,
}
use ptymux.Server.Store.Removal.{remove_tab-no_session, remove_tab-no_pane, remove_tab-pane}
use ptymux.Prelude.{
  ℕ, ◌≡◌, refl, sym, subst, inl, inr, false, [], ◌∷◌, Option-cases, Bytes, bytes_eq, if-intro,
}

-- Every pane has a tab.
abbrev FullPanes : Map Pane → Type 0
FullPanes = Values (λ pane. is_nil pane.tabs ≡ false)

-- A session has a pane, and each of its panes a tab.
pub record IsFull (session : Session) : Type 0 where
  pub some_pane : is_nil session.panes ≡ false
  pub panes_full : Values (λ pane. is_nil pane.tabs ≡ false) session.panes

abbrev pub IsTidy : Sessions → Type 0
IsTidy = Values IsFull

insert-is_nil {ℓ} : {A : Type ℓ} (k : Bytes) (v : A) (m : Map A) → is_nil (insert k v m) ≡ false
unfolding insert is_nil
insert-is_nil k v [] = refl
insert-is_nil {A = A} k v ((key, w) ∷ m) =
    if-intro {A = Map A} (λ x. is_nil x ≡ false) (bytes_eq key k) (λ _. refl) (λ _. refl)

panes-session_or_new :
    (name : Bytes) (sessions : Sessions)
    → IsTidy sessions
    → FullPanes (session_or_new name (lookup name sessions)).panes
unfolding session_or_new
panes-session_or_new name sessions h = elim (Option-cases (lookup name sessions)) [
  | inl e ↦ rw e tt
  | inr (session, e) ↦ rw e (Values-lookup IsFull name session sessions h e).panes_full
]

install_in_session-IsFull :
    (session : Session) (p t : Bytes) (tab : ℕ)
    → FullPanes session.panes
    → IsFull (install_in_session session p t tab)
unfolding install_in_session
install_in_session-IsFull session p t tab h =
    let pane = pane_or_new p (lookup p session.panes) in
    let new = record pane { tabs = insert t tab pane.tabs } in
    record {
      some_pane = insert-is_nil p new session.panes;
      panes_full =
          Values-insert (λ pane. is_nil pane.tabs ≡ false) p new session.panes
            (insert-is_nil t tab pane.tabs) h;
    }

-- Installing a tab leaves no empty session and no empty pane, if there was none.
pub install_tab-IsTidy :
    (sessions : Sessions) (s p t : Bytes) (tab : ℕ)
    → IsTidy sessions
    → IsTidy (install_tab sessions s p t tab)
unfolding install_tab
install_tab-IsTidy sessions s p t tab h =
    let session = session_or_new s (lookup s sessions) in
    Values-insert IsFull s (install_in_session session p t tab) sessions
      (install_in_session-IsFull session p t tab (panes-session_or_new s sessions h)) h

remove_from_panes-full :
    (panes : Map Pane) (p t : Bytes) (pane : Pane)
    → FullPanes panes
    → FullPanes (remove_from_panes panes p t pane)
unfolding remove_from_panes
remove_from_panes-full panes p t pane h =
    let P : Pane → Type 0 = λ x. is_nil x.tabs ≡ false in
    if-intro FullPanes (is_nil (delete t pane.tabs)) (λ _. Values-delete P p panes h)
      (λ e. Values-insert P p (record pane { tabs = delete t pane.tabs }) panes e h)

keep_session-IsTidy :
    (sessions : Sessions) (s : Bytes) (session : Session) (panes : Map Pane)
    → FullPanes panes
    → IsTidy sessions
    → IsTidy (keep_session sessions s session panes)
unfolding keep_session
keep_session-IsTidy sessions s session panes full h =
    if-intro IsTidy (is_nil panes) (λ _. Values-delete IsFull s sessions h)
      (λ e.
        Values-insert IsFull s (record session { panes = panes }) sessions
          (record { some_pane = e; panes_full = full }) h)

-- Removing a tab leaves no empty session and no empty pane, if there was none.
pub remove_tab-IsTidy :
    (sessions : Sessions) (s p t : Bytes) → IsTidy sessions → IsTidy (remove_tab sessions s p t)
remove_tab-IsTidy sessions s p t h = elim (Option-cases (lookup s sessions)) [
  | inl e ↦ subst IsTidy (sym (remove_tab-no_session sessions s p t e)) h
  | inr (session, e) ↦
      let full = (Values-lookup IsFull s session sessions h e).panes_full in
      elim (Option-cases (lookup p session.panes)) [
        | inl k ↦ subst IsTidy (sym (remove_tab-no_pane sessions s p t session e k)) h
        | inr (pane, k) ↦ subst IsTidy (sym (remove_tab-pane sessions s p t session pane e k)) (
            keep_session-IsTidy sessions s session (remove_from_panes session.panes p t pane)
              (remove_from_panes-full session.panes p t pane full) h)
      ]
]
