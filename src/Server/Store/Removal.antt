-- ===== src/Server/Store/Removal.antt =====
-- Removing a tab removes that target only, whatever panes and sessions go with it.
use ptymux.Std.Map.{
  Map, lookup, insert, delete, lookup-insert, lookup-insert-other, lookup-delete,
  lookup-delete-other,
}
use ptymux.Server.Store.{
  Pane, Session, Sessions, is_nil, find_in_pane, find_in_session, find_tab, remove_from_panes,
  keep_session, remove_from_session, remove_tab,
}
use ptymux.Server.Store.Laws.{same_target}
use ptymux.Prelude.{
  ℕ, ◌≡◌, refl, sym, ap, ◌∙◌, subst, inl, inr, false, ◌&&◌, none, some, [], ◌∷◌, arith,
  if◌then◌else◌, Bool-cases, Option-cases, Bytes, bytes_eq, bytes_eq_iff, if-intro,
}

find-kept_tabs :
    (panes : Map Pane) (p name t' : Bytes) (tabs : Map ℕ)
    → find_in_pane t' (
        lookup p (
          if is_nil tabs
          then delete p panes
          else insert p (record { name = name; tabs = tabs }) panes))
      ≡ lookup t' tabs
unfolding find_in_pane is_nil lookup
find-kept_tabs panes p name t' [] = ap (find_in_pane t') (lookup-delete p panes)
find-kept_tabs panes p name t' (x ∷ xs) =
    ap (find_in_pane t') (lookup-insert p (record { name = name; tabs = x ∷ xs }) panes)

-- What is found in the pane that lost the tab.
find-remove_from_panes :
    (panes : Map Pane) (p t : Bytes) (pane : Pane) (t' : Bytes)
    → find_in_pane t' (lookup p (remove_from_panes panes p t pane)) ≡ lookup t' (delete t pane.tabs)
unfolding remove_from_panes
find-remove_from_panes panes p t pane t' = find-kept_tabs panes p pane.name t' (delete t pane.tabs)

lookup-remove_from_panes :
    (panes : Map Pane) (p t : Bytes) (pane : Pane) (p' : Bytes)
    → bytes_eq p p' ≡ false
    → lookup p' (remove_from_panes panes p t pane) ≡ lookup p' panes
unfolding remove_from_panes
lookup-remove_from_panes panes p t pane p' h =
    let tabs = delete t pane.tabs in
    if-intro (λ m. lookup p' m ≡ lookup p' panes) (is_nil tabs)
      (λ _. lookup-delete-other p panes p' h)
      (λ _. lookup-insert-other p (record pane { tabs = tabs }) panes p' h)

-- What is found in the session that lost the tab, and in the others.
find-keep_session :
    (sessions : Sessions) (s name : Bytes) (p' t' : Bytes) (old panes : Map Pane)
    → find_in_session p' t'
        (lookup s (keep_session sessions s (record { name = name; panes = old }) panes))
      ≡ find_in_pane t' (lookup p' panes)
unfolding keep_session find_in_session is_nil find_in_pane lookup
find-keep_session sessions s name p' t' old [] =
    ap (find_in_session p' t') (lookup-delete s sessions)
find-keep_session sessions s name p' t' old (x ∷ xs) =
    ap (find_in_session p' t') (lookup-insert s (record { name = name; panes = x ∷ xs }) sessions)

lookup-keep_session :
    (sessions : Sessions) (s : Bytes) (session : Session) (panes : Map Pane) (s' : Bytes)
    → bytes_eq s s' ≡ false
    → lookup s' (keep_session sessions s session panes) ≡ lookup s' sessions
unfolding keep_session
lookup-keep_session sessions s session panes s' h =
    if-intro (λ m. lookup s' m ≡ lookup s' sessions) (is_nil panes)
      (λ _. lookup-delete-other s sessions s' h)
      (λ _. lookup-insert-other s (record session { panes = panes }) sessions s' h)

pub remove_tab-no_session :
    (sessions : Sessions) (s p t : Bytes)
    → lookup s sessions ≡ none
    → remove_tab sessions s p t ≡ sessions
unfolding remove_tab
remove_tab-no_session sessions s p t e = rw (e, remove_tab) refl

pub remove_tab-no_pane :
    (sessions : Sessions) (s p t : Bytes) (session : Session)
    → lookup s sessions ≡ some session
    → lookup p session.panes ≡ none
    → remove_tab sessions s p t ≡ sessions
unfolding remove_tab remove_from_session
remove_tab-no_pane sessions s p t session e k =
    rw (e, remove_tab) (rw (k, remove_from_session) refl)

pub remove_tab-pane :
    (sessions : Sessions) (s p t : Bytes) (session : Session) (pane : Pane)
    → lookup s sessions ≡ some session
    → lookup p session.panes ≡ some pane
    → remove_tab sessions s p t
      ≡ keep_session sessions s session (remove_from_panes session.panes p t pane)
unfolding remove_tab remove_from_session
remove_tab-pane sessions s p t session pane e k =
    rw (e, remove_tab) (rw (k, remove_from_session) refl)

-- A target that is removed is not found any more.
pub find_tab-remove_tab :
    (sessions : Sessions) (s p t : Bytes) → find_tab (remove_tab sessions s p t) s p t ≡ none
unfolding find_tab find_in_session find_in_pane
find_tab-remove_tab sessions s p t = elim (Option-cases (lookup s sessions)) [
  | inl e ↦
      ap (λ m. find_tab m s p t) (remove_tab-no_session sessions s p t e)
      ∙ ap (find_in_session p t) e
  | inr (session, e) ↦ elim (Option-cases (lookup p session.panes)) [
    | inl k ↦
        ap (λ m. find_tab m s p t) (remove_tab-no_pane sessions s p t session e k)
        ∙ ap (find_in_session p t) e
        ∙ ap (find_in_pane t) k
    | inr (pane, k) ↦
        ap (λ m. find_tab m s p t) (remove_tab-pane sessions s p t session pane e k)
        ∙ find-keep_session sessions s session.name p t session.panes
            (remove_from_panes session.panes p t pane)
        ∙ find-remove_from_panes session.panes p t pane t
        ∙ lookup-delete t pane.tabs
  ]
]

find-remove_from_panes-other :
    (panes : Map Pane) (p t : Bytes) (pane : Pane) (p' t' : Bytes)
    → lookup p panes ≡ some pane
    → (bytes_eq p p' && bytes_eq t t') ≡ false
    → find_in_pane t' (lookup p' (remove_from_panes panes p t pane))
      ≡ find_in_pane t' (lookup p' panes)
unfolding find_in_pane
find-remove_from_panes-other panes p t pane p' t' k h = elim (Bool-cases (bytes_eq p p')) [
  | inl e ↦
      let other : bytes_eq t t' ≡ false = ground arith in
      subst
        (λ x.
          find_in_pane t' (lookup x (remove_from_panes panes p t pane))
          ≡ find_in_pane t' (lookup x panes))
        ((bytes_eq_iff p p').0 e)
        (find-remove_from_panes panes p t pane t'
          ∙ lookup-delete-other t pane.tabs t' other
          ∙ sym (ap (find_in_pane t') k))
  | inr e ↦ ap (find_in_pane t') (lookup-remove_from_panes panes p t pane p' e)
]

-- Removing a tab changes no other target: it is found, or not found, as it was before.
pub find_tab-remove_tab-other :
    (sessions : Sessions) (s p t s' p' t' : Bytes)
    → same_target s p t s' p' t' ≡ false
    → find_tab (remove_tab sessions s p t) s' p' t' ≡ find_tab sessions s' p' t'
unfolding find_tab find_in_session same_target
find_tab-remove_tab-other sessions s p t s' p' t' h = elim (Option-cases (lookup s sessions)) [
  | inl e ↦ ap (λ m. find_tab m s' p' t') (remove_tab-no_session sessions s p t e)
  | inr (session, e) ↦ elim (Option-cases (lookup p session.panes)) [
    | inl k ↦ ap (λ m. find_tab m s' p' t') (remove_tab-no_pane sessions s p t session e k)
    | inr (pane, k) ↦
        let panes = remove_from_panes session.panes p t pane in
        ap (λ m. find_tab m s' p' t') (remove_tab-pane sessions s p t session pane e k)
        ∙ elim (Bool-cases (bytes_eq s s')) [
          | inl same ↦
              let other : (bytes_eq p p' && bytes_eq t t') ≡ false = ground arith in
              subst
                (λ x.
                  find_in_session p' t' (lookup x (keep_session sessions s session panes))
                  ≡ find_in_session p' t' (lookup x sessions))
                ((bytes_eq_iff s s').0 same)
                (find-keep_session sessions s session.name p' t' session.panes panes
                  ∙ find-remove_from_panes-other session.panes p t pane p' t' k other
                  ∙ sym (ap (find_in_session p' t') e))
          | inr differs ↦
              ap (find_in_session p' t') (lookup-keep_session sessions s session panes s' differs)
        ]
  ]
]
