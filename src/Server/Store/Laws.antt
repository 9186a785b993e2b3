-- ===== src/Server/Store/Laws.antt =====
-- Installing and removing a tab change that target only.
pub mod Count
use ptymux.Std.Map.{lookup, insert, lookup-insert, lookup-insert-other}
use ptymux.Server.Store.{
  Pane, Session, Sessions, find_in_pane, find_in_session, find_tab, session_or_new, pane_or_new,
  install_in_session, install_tab,
}
use ptymux.Prelude.{
  ℕ, zero, suc, ◌+◌, ◌-◌, ◌*◌, ◌/◌, ◌%◌, ◌^◌, ◌≤◌, ◌<◌, min, ◌≡◌, refl, sym, ap, ◌∙◌, subst, ◌≢◌,
  ◌↔◌, ◌⊎◌, inl, inr, Bool, true, false, not, ◌&&◌, ◌||◌, Option, none, some, List, [], ◌∷◌, ◌++◌,
  map, append_assoc, append-nil, arith, ltb, leb, ◌==◌, if◌then◌else◌, ltb→lt, lt→ltb, leb→le,
  ==_iff, tests, Bool-cases, Option-cases, length, set, take, drop, length-append, length-set,
  take-append-drop, length-take, length-drop, take-of-length-le, take-length-append,
  drop-length-append, All, All-append, All-take, All-drop, Bytes, codes, bytes_eq, bytes_eq_refl,
  bytes_eq_iff, if-intro, take-append-of-le, drop-append-of-le, Option-intro,
}

-- The comparison of two `targetKey`s.
unfoldable pub same_target : Bytes → Bytes → Bytes → Bytes → Bytes → Bytes → Bool
same_target s p t s' p' t' = bytes_eq s s' && (bytes_eq p p' && bytes_eq t t')

find-session_or_new :
    (p t name : Bytes) (o : Option Session)
    → find_in_session p t (some (session_or_new name o)) ≡ find_in_session p t o
unfolding find_in_session session_or_new lookup find_in_pane
find-session_or_new p t name none = refl
find-session_or_new p t name (some s) = refl

find-pane_or_new :
    (t name : Bytes) (o : Option Pane) → lookup t (pane_or_new name o).tabs ≡ find_in_pane t o
unfolding find_in_pane pane_or_new lookup
find-pane_or_new t name none = refl
find-pane_or_new t name (some s) = refl

find-install_in_session :
    (session : Session) (p t : Bytes) (tab : ℕ)
    → find_in_session p t (some (install_in_session session p t tab)) ≡ some tab
unfolding find_in_session install_in_session find_in_pane
find-install_in_session session p t tab =
    let pane = pane_or_new p (lookup p session.panes) in
    rw (lookup-insert p (record pane { tabs = insert t tab pane.tabs }) session.panes)
      (lookup-insert t tab pane.tabs)

-- A target that is installed is found.
pub find_tab-install_tab :
    (sessions : Sessions) (s p t : Bytes) (tab : ℕ)
    → find_tab (install_tab sessions s p t tab) s p t ≡ some tab
unfolding find_tab install_tab
find_tab-install_tab sessions s p t tab =
    let session = session_or_new s (lookup s sessions) in
    rw (lookup-insert s (install_in_session session p t tab) sessions)
      (find-install_in_session session p t tab)

find-install_in_session-other :
    (session : Session) (p t : Bytes) (tab : ℕ) (p' t' : Bytes)
    → (bytes_eq p p' && bytes_eq t t') ≡ false
    → find_in_session p' t' (some (install_in_session session p t tab))
      ≡ find_in_session p' t' (some session)
unfolding find_in_session install_in_session find_in_pane
find-install_in_session-other session p t tab p' t' h =
    let pane = pane_or_new p (lookup p session.panes) in
    let new = record pane { tabs = insert t tab pane.tabs } in
    elim (Bool-cases (bytes_eq p p')) [
      | inl e ↦
          let other : bytes_eq t t' ≡ false = ground arith in
          subst
            (λ x.
              find_in_pane t' (lookup x (insert p new session.panes))
              ≡ find_in_pane t' (lookup x session.panes))
            ((bytes_eq_iff p p').0 e)
            (ap (find_in_pane t') (lookup-insert p new session.panes)
              ∙ lookup-insert-other t tab pane.tabs t' other
              ∙ find-pane_or_new t' p (lookup p session.panes))
      | inr e ↦ ap (find_in_pane t') (lookup-insert-other p new session.panes p' e)
    ]

-- Installing a tab changes no other target: it is found, or not found, as it was before.
pub find_tab-install_tab-other :
    (sessions : Sessions) (s p t : Bytes) (tab : ℕ) (s' p' t' : Bytes)
    → same_target s p t s' p' t' ≡ false
    → find_tab (install_tab sessions s p t tab) s' p' t' ≡ find_tab sessions s' p' t'
unfolding find_tab install_tab same_target
find_tab-install_tab-other sessions s p t tab s' p' t' h =
    let session = session_or_new s (lookup s sessions) in
    let new = install_in_session session p t tab in
    elim (Bool-cases (bytes_eq s s')) [
      | inl e ↦
          let other : (bytes_eq p p' && bytes_eq t t') ≡ false = ground arith in
          subst
            (λ x.
              find_in_session p' t' (lookup x (insert s new sessions))
              ≡ find_in_session p' t' (lookup x sessions))
            ((bytes_eq_iff s s').0 e)
            (ap (find_in_session p' t') (lookup-insert s new sessions)
              ∙ find-install_in_session-other session p t tab p' t' other
              ∙ find-session_or_new p' t' s (lookup s sessions))
      | inr e ↦ ap (find_in_session p' t') (lookup-insert-other s new sessions s' e)
    ]

pub find_tab-empty : (s p t : Bytes) → find_tab [] s p t ≡ none
unfolding find_tab find_in_session lookup
find_tab-empty s p t = refl
