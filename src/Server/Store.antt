-- ===== src/Server/Store.antt =====
-- internal/server/store.go: the sessions, panes and tabs that a daemon keeps, as far as one holder of
-- the lock sees them. A `*Tab` is a number, which a heap of tabs would be read at: two tabs are the
-- same exactly if these are equal.
mod Examples
pub mod Laws
pub mod Nonempty
pub mod Removal
use ptymux.Std.Map.{Map, lookup, insert, delete, keys}
use ptymux.Prelude.{
  ℕ, zero, suc, ◌+◌, ◌-◌, ◌*◌, ◌/◌, ◌%◌, ◌^◌, ◌≤◌, ◌<◌, min, ◌≡◌, refl, sym, ap, ◌∙◌, subst, ◌≢◌,
  ◌↔◌, ◌⊎◌, inl, inr, Bool, true, false, not, ◌&&◌, ◌||◌, Option, none, some, List, [], ◌∷◌, ◌++◌,
  map, append_assoc, append-nil, arith, ltb, leb, ◌==◌, if◌then◌else◌, ltb→lt, lt→ltb, leb→le,
  ==_iff, tests, Bool-cases, Option-cases, length, set, take, drop, length-append, length-set,
  take-append-drop, length-take, length-drop, take-of-length-le, take-length-append,
  drop-length-append, All, All-append, All-take, All-drop, Bytes, codes, bytes_eq, bytes_eq_refl,
  bytes_eq_iff, if-intro, take-append-of-le, drop-append-of-le, Option-intro,
}

pub record Pane : Type 0 where
  pub name : Bytes
  pub tabs : Map ℕ

pub record Session : Type 0 where
  pub name : Bytes
  pub panes : Map Pane

abbrev pub Sessions : Type 0
Sessions = Map Session

unfoldable pub is_nil {ℓ} : {A : Type ℓ} → List A → Bool
is_nil [] = true
is_nil (x ∷ xs) = false

find_in_pane : Bytes → Option Pane → Option ℕ
unfolding lookup
find_in_pane tab none = none
find_in_pane tab (some pane) = lookup tab pane.tabs

find_in_session : Bytes → Bytes → Option Session → Option ℕ
unfolding lookup find_in_pane
find_in_session pane tab none = none
find_in_session pane tab (some session) = find_in_pane tab (lookup pane session.panes)

unfoldable pub find_tab : Sessions → Bytes → Bytes → Bytes → Option ℕ
unfolding lookup find_in_session
find_tab sessions session pane tab = find_in_session pane tab (lookup session sessions)

-- The session or the pane of that name, or a new one.
session_or_new : Bytes → Option Session → Session
session_or_new name none = record { name = name; panes = [] }
session_or_new name (some session) = session

pane_or_new : Bytes → Option Pane → Pane
pane_or_new name none = record { name = name; tabs = [] }
pane_or_new name (some pane) = pane

install_in_session : Session → Bytes → Bytes → ℕ → Session
unfolding lookup insert pane_or_new
install_in_session session pane_name tab_name tab =
    let pane = pane_or_new pane_name (lookup pane_name session.panes) in
    record session {
      panes = insert pane_name (record pane { tabs = insert tab_name tab pane.tabs }) session.panes;
    }

unfoldable pub install_tab : Sessions → Bytes → Bytes → Bytes → ℕ → Sessions
unfolding lookup insert session_or_new install_in_session
install_tab sessions session_name pane_name tab_name tab =
    let session = session_or_new session_name (lookup session_name sessions) in
    insert session_name (install_in_session session pane_name tab_name tab) sessions

-- The panes without the tab, and without its pane if that is left empty.
pub remove_from_panes : Map Pane → Bytes → Bytes → Pane → Map Pane
unfolding insert delete is_nil
remove_from_panes panes pane_name tab_name pane =
    let tabs = delete tab_name pane.tabs in
    if is_nil tabs
    then delete pane_name panes
    else insert pane_name (record pane { tabs = tabs }) panes

-- The sessions after that change of one of them, which is dropped if it is left empty.
pub keep_session : Sessions → Bytes → Session → Map Pane → Sessions
unfolding insert delete is_nil
keep_session sessions session_name session panes =
    if is_nil panes
    then delete session_name sessions
    else insert session_name (record session { panes = panes }) sessions

remove_from_session : Sessions → Bytes → Bytes → Bytes → Session → Sessions
unfolding lookup remove_from_panes keep_session
remove_from_session sessions session_name pane_name tab_name session =
    elim (lookup pane_name session.panes) [
      | none ↦ sessions
      | some pane ↦
          keep_session sessions session_name session
            (remove_from_panes session.panes pane_name tab_name pane)
    ]

pub remove_tab : Sessions → Bytes → Bytes → Bytes → Sessions
unfolding lookup remove_from_session
remove_tab sessions session_name pane_name tab_name = elim (lookup session_name sessions) [
  | none ↦ sessions
  | some session ↦ remove_from_session sessions session_name pane_name tab_name session
]

count_tabs : Map Pane → ℕ
count_tabs [] = 0
count_tabs ((name, pane) ∷ panes) = length pane.tabs + count_tabs panes

pub target_count : Sessions → ℕ
unfolding count_tabs
target_count [] = 0
target_count ((name, session) ∷ sessions) = count_tabs session.panes + target_count sessions

pub target_exists : Sessions → Bytes → Bytes → Bytes → Bool
target_exists sessions session pane tab = elim (find_tab sessions session pane tab) [
  | none ↦ false
  | some t ↦ true
]

pub empty : Sessions → Bool
unfolding is_nil
empty sessions = is_nil sessions
