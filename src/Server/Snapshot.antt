-- ===== src/Server/Snapshot.antt =====
-- internal/server/store.go: the listing of a store, sorted by name.
pub mod Sorted
use ptymux.Std.Map.{Map, lookup, keys}
use ptymux.Server.Store.{Pane, Session, Sessions, is_nil}
use ptymux.Prelude.{
  ℕ, zero, suc, ◌+◌, ◌-◌, ◌*◌, ◌/◌, ◌%◌, ◌^◌, ◌≤◌, ◌<◌, min, ◌≡◌, refl, sym, ap, ◌∙◌, subst, ◌≢◌,
  ◌↔◌, ◌⊎◌, inl, inr, Bool, true, false, not, ◌&&◌, ◌||◌, Option, none, some, List, [], ◌∷◌, ◌++◌,
  map, append_assoc, append-nil, arith, ltb, leb, ◌==◌, if◌then◌else◌, ltb→lt, lt→ltb, leb→le,
  ==_iff, tests, Bool-cases, Option-cases, length, set, take, drop, length-append, length-set,
  take-append-drop, length-take, length-drop, take-of-length-le, take-length-append,
  drop-length-append, All, All-append, All-take, All-drop, Bytes, codes, bytes_eq, bytes_eq_refl,
  bytes_eq_iff, if-intro, take-append-of-le, drop-append-of-le,
}

-- `a < b` on Go strings
unfoldable pub bytes_ltb : Bytes → Bytes → Bool
bytes_ltb a [] = false
bytes_ltb [] (y ∷ ys) = true
bytes_ltb (x ∷ xs) (y ∷ ys) =
    let rest = bytes_ltb xs ys in if ltb x y then true else if x == y then rest else false

insert_sorted : Bytes → List Bytes → List Bytes
unfolding bytes_ltb
insert_sorted k [] = k ∷ []
insert_sorted k (x ∷ xs) =
    let rest = insert_sorted k xs in if bytes_ltb x k then x ∷ rest else k ∷ x ∷ xs

-- sort.Strings
unfoldable pub sort_strings : List Bytes → List Bytes
unfolding insert_sorted
sort_strings [] = []
sort_strings (x ∷ xs) = insert_sorted x (sort_strings xs)

pub record TabSnapshot : Type 0 where
  pub name : Bytes

pub record PaneSnapshot : Type 0 where
  pub name : Bytes
  pub tabs : List TabSnapshot

pub record SessionSnapshot : Type 0 where
  pub name : Bytes
  pub panes : List PaneSnapshot

pub record Snapshot : Type 0 where
  pub sessions : List SessionSnapshot

pub tab_snapshots : List Bytes → List TabSnapshot
tab_snapshots [] = []
tab_snapshots (n ∷ names) = record { name = n } ∷ tab_snapshots names

pane_snapshot : Pane → PaneSnapshot
unfolding tab_snapshots sort_strings keys
pane_snapshot pane = record {
  name = pane.name;
  tabs = tab_snapshots (sort_strings (keys pane.tabs));
}

-- `session.Panes[name]` for the sorted names; each of them is a key.
pub pane_snapshots : Map Pane → List Bytes → List PaneSnapshot
unfolding pane_snapshot lookup
pane_snapshots panes [] = []
pane_snapshots panes (n ∷ names) =
    let rest = pane_snapshots panes names in
    elim (lookup n panes) [ none ↦ rest | some pane ↦ pane_snapshot pane ∷ rest ]

session_snapshot : Session → SessionSnapshot
unfolding pane_snapshots sort_strings keys
session_snapshot session = record {
  name = session.name;
  panes = pane_snapshots session.panes (sort_strings (keys session.panes));
}

pub session_snapshots : Sessions → List Bytes → List SessionSnapshot
unfolding session_snapshot lookup
session_snapshots sessions [] = []
session_snapshots sessions (n ∷ names) =
    let rest = session_snapshots sessions names in
    elim (lookup n sessions) [ none ↦ rest | some session ↦ session_snapshot session ∷ rest ]

-- `snapshotLocked`
pub snapshot : Sessions → Snapshot
unfolding session_snapshots sort_strings keys
snapshot sessions = record { sessions = session_snapshots sessions (sort_strings (keys sessions)) }

pub bare_panes : List Bytes → List PaneSnapshot
bare_panes [] = []
bare_panes (n ∷ names) = record { name = n; tabs = [] } ∷ bare_panes names

abbrev one_session : Session → List PaneSnapshot → Snapshot
one_session session panes = record { sessions = record { name = session.name; panes = panes } ∷ [] }

target_tabs : Pane → Bytes → List TabSnapshot
unfolding tab_snapshots sort_strings keys lookup is_nil
target_tabs pane tab_name =
    if is_nil tab_name
    then tab_snapshots (sort_strings (keys pane.tabs))
    else elim (lookup tab_name pane.tabs) [ none ↦ [] | some tab ↦ record { name = tab_name } ∷ [] ]

target_panes : Session → Bytes → Bytes → Snapshot
unfolding bare_panes sort_strings keys lookup target_tabs is_nil
target_panes session pane_name tab_name =
    if is_nil pane_name
    then one_session session (bare_panes (sort_strings (keys session.panes)))
    else elim (lookup pane_name session.panes) [
      | none ↦ record { sessions = [] }
      | some pane ↦
          one_session session (record { name = pane.name; tabs = target_tabs pane tab_name } ∷ [])
    ]

unfoldable pub snapshot_target : Sessions → Bytes → Bytes → Bytes → Snapshot
unfolding snapshot target_panes lookup is_nil
snapshot_target sessions session_name pane_name tab_name =
    if is_nil session_name then snapshot sessions else elim (lookup session_name sessions) [
      | none ↦ record { sessions = [] }
      | some session ↦ target_panes session pane_name tab_name
    ]
