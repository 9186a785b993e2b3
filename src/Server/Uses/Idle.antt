-- ===== src/Server/Uses/Idle.antt =====
-- Only idle tabs are closed for being idle, and a tab in use is not idle.
use ptymux.Server.Store.{Sessions, remove_tab}
use ptymux.Server.Uses.{
  Tab, TargetKey, Store, get, is_idle, tab_is_idle, remove_idle, all_targets, close_idle_targets,
}
use ptymux.Prelude.{
  ℕ, ◌+◌, ◌≤◌, ◌<◌, ◌≡◌, refl, true, Option, none, some, List, [], ◌∷◌, arith, ◌==◌, All, if-intro,
}

-- The tab may be closed: it is there, nobody uses it, and its last use is long enough ago.
abbrev pub IsIdle : ℕ → ℕ → List Tab → ℕ → Type 0
IsIdle now idle_for tabs i =
    (t : Tab) × (get tabs i ≡ some t) × (t.active ≡ 0) × (t.last_used_at + idle_for ≤ now)

tab_is_idle-IsIdle :
    (now idle_for : ℕ) (tabs : List Tab) (i : ℕ) (o : Option Tab)
    → 0 < idle_for
    → get tabs i ≡ o
    → tab_is_idle now idle_for o ≡ true
    → IsIdle now idle_for tabs i
unfolding tab_is_idle is_idle
tab_is_idle-IsIdle now idle_for tabs i none p e h = cc
tab_is_idle-IsIdle now idle_for tabs i (some t) p e h = (t, e, ground arith, ground arith)

remove_idle-IsIdle :
    (tabs : List Tab) (now idle_for : ℕ) (targets : List (TargetKey × ℕ)) (sessions : Sessions)
    → 0 < idle_for
    → All (IsIdle now idle_for tabs) (remove_idle tabs now idle_for targets sessions).1
unfolding remove_idle
remove_idle-IsIdle tabs now idle_for [] sessions p = tt
remove_idle-IsIdle tabs now idle_for ((k, i) ∷ targets) sessions p =
    if-intro (λ (r : Sessions × List ℕ). All (IsIdle now idle_for tabs) r.1)
      (tab_is_idle now idle_for (get tabs i))
      (λ e. (
        tab_is_idle-IsIdle now idle_for tabs i (get tabs i) p refl e,
        remove_idle-IsIdle tabs now idle_for targets (remove_tab sessions k.session k.pane k.tab) p,
      ))
      (λ _. remove_idle-IsIdle tabs now idle_for targets sessions p)

-- Each tab that `CloseIdleTargets` closes is one that nobody uses and that was last used at least
-- `idle_for` before the call.
pub close_idle_targets-IsIdle :
    (st : Store) (now idle_for : ℕ)
    → All (IsIdle now idle_for st.tabs) (close_idle_targets st now idle_for).1
unfolding close_idle_targets
close_idle_targets-IsIdle st now idle_for =
    if-intro (λ (r : Store × List ℕ). All (IsIdle now idle_for st.tabs) r.1) (idle_for == 0)
      (λ _. tt)
      (λ e.
        remove_idle-IsIdle st.tabs now idle_for (all_targets st.sessions) st.sessions
          (ground arith))
