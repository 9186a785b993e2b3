-- ===== src/Server/Uses.antt =====
-- internal/server/store.go: tabs in use and their closing. The heap of tabs grows at its end, so that a
-- `*Tab` is an index that stays; the runner of a tab goes by the same index. An error value is a
-- number, and `close` is what `Close` of each runner returns. One call holds the lock at a time;
-- what a call does between two holds of the lock is a definition of its own.
pub mod Idle
pub mod Interleaving
pub mod Grants
mod Examples
use ptymux.Std.Map.{Map}
use ptymux.Server.Store.{Pane, Session, Sessions, find_tab, install_tab, remove_tab}
use ptymux.Server.Protocol.{InvalidRequest, validate_complete_target}
use ptymux.Prelude.{
  ℕ, zero, suc, ◌+◌, ◌-◌, ◌*◌, ◌/◌, ◌%◌, ◌^◌, ◌≤◌, ◌<◌, min, ◌≡◌, refl, sym, ap, ◌∙◌, subst, ◌≢◌,
  ◌↔◌, ◌⊎◌, inl, inr, Bool, true, false, not, ◌&&◌, ◌||◌, Option, none, some, List, [], ◌∷◌, ◌++◌,
  map, append_assoc, append-nil, arith, ltb, leb, ◌==◌, if◌then◌else◌, ltb→lt, lt→ltb, leb→le,
  ==_iff, tests, Bool-cases, Option-cases, length, set, take, drop, length-append, length-set,
  take-append-drop, length-take, length-drop, take-of-length-le, take-length-append,
  drop-length-append, All, All-append, All-take, All-drop, Bytes, codes, bytes_eq, bytes_eq_refl,
  bytes_eq_iff, if-intro, take-append-of-le, drop-append-of-le, Option-intro,
}

-- the fields that calls change; `last_used_at` is 0 for the zero time
pub record Tab : Type 0 where
  pub name : Bytes
  pub last_used_at : ℕ
  pub active : ℕ

pub record TargetKey : Type 0 where
  pub session : Bytes
  pub pane : Bytes
  pub tab : Bytes

-- A `*startingTarget` is an index into a heap too.
pub record StartingTarget : Type 0 where
  pub done : Bool
  pub canceled : Bool
  pub start_err : Option ℕ
  pub close_err : Option ℕ

pub record Store : Type 0 where
  pub sessions : Sessions
  pub starting : List (TargetKey × ℕ)
  pub tabs : List Tab
  pub targets : List StartingTarget

-- A write through a pointer.
unfoldable pub modify {ℓ} : {A : Type ℓ} → (A → A) → List A → ℕ → List A
modify f [] i = []
modify f (x ∷ xs) zero = f x ∷ xs
modify f (x ∷ xs) (suc i) = x ∷ modify f xs i

unfoldable pub get {ℓ} : {A : Type ℓ} → List A → ℕ → Option A
get [] i = none
get (x ∷ xs) zero = some x
get (x ∷ xs) (suc i) = get xs i

same_key : TargetKey → TargetKey → Bool
same_key a b = bytes_eq a.session b.session && (bytes_eq a.pane b.pane && bytes_eq a.tab b.tab)

find_starting : TargetKey → List (TargetKey × ℕ) → Option ℕ
unfolding same_key
find_starting key [] = none
find_starting key ((k, i) ∷ starting) =
    let rest = find_starting key starting in if same_key k key then some i else rest

delete_starting : TargetKey → List (TargetKey × ℕ) → List (TargetKey × ℕ)
unfolding same_key
delete_starting key [] = []
delete_starting key ((k, i) ∷ starting) =
    let rest = delete_starting key starting in if same_key k key then rest else (k, i) ∷ rest

abbrev pub begin_tab : ℕ → Tab → Tab
begin_tab now t = record t { active = t.active + 1; last_used_at = now }

abbrev pub finish_tab : ℕ → Tab → Tab
finish_tab now t = record t { active = t.active - 1; last_used_at = now }

abbrev pub touch_tab : ℕ → Tab → Tab
touch_tab now t = record t { last_used_at = now }

abbrev pub with_tab : Store → (Tab → Tab) → ℕ → Store
with_tab st f tab = record st { tabs = modify f st.tabs tab }

abbrev pub find : Store → TargetKey → Option ℕ
find st key = find_tab st.sessions key.session key.pane key.tab

-- `BeginExistingUse` at the time `now`
unfoldable pub begin_existing_use : Store → TargetKey → ℕ → Store × Option ℕ
unfolding modify
begin_existing_use st key now = elim (find st key) [
  | none ↦ (st, none)
  | some tab ↦ (with_tab st (begin_tab now) tab, some tab)
]

-- the function that `finishUse` returns
unfoldable pub finish_use : Store → ℕ → ℕ → Store
unfolding modify
finish_use st tab now = with_tab st (finish_tab now) tab

unfoldable pub touch_target : Store → TargetKey → ℕ → Store
unfolding modify
touch_target st key now = elim (find st key) [
  | none ↦ st
  | some tab ↦ with_tab st (touch_tab now) tab
]

-- every target with its tab, in the order of the maps
pane_targets : Bytes → Bytes → Map ℕ → List (TargetKey × ℕ)
pane_targets session pane [] = []
pane_targets session pane ((tab, i) ∷ tabs) =
    (record { session = session; pane = pane; tab = tab }, i) ∷ pane_targets session pane tabs

session_targets : Bytes → Map Pane → List (TargetKey × ℕ)
unfolding pane_targets
session_targets session [] = []
session_targets session ((name, pane) ∷ panes) =
    pane_targets session name pane.tabs ++ session_targets session panes

pub all_targets : Sessions → List (TargetKey × ℕ)
unfolding session_targets
all_targets [] = []
all_targets ((name, session) ∷ sessions) =
    session_targets name session.panes ++ all_targets sessions

-- not in use, and used last at least `idle_for` before `now`
pub is_idle : ℕ → ℕ → Tab → Bool
is_idle now idle_for t =
    t.active == 0 && (not (t.last_used_at == 0) && leb idle_for (now - t.last_used_at))

tab_is_idle : ℕ → ℕ → Option Tab → Bool
unfolding is_idle
tab_is_idle now idle_for none = false
tab_is_idle now idle_for (some t) = is_idle now idle_for t

-- the loop of `CloseIdleTargets`: the sessions that are left, and the tabs to close
pub remove_idle : List Tab → ℕ → ℕ → List (TargetKey × ℕ) → Sessions → Sessions × List ℕ
unfolding tab_is_idle get
remove_idle tabs now idle_for [] sessions = (sessions, [])
remove_idle tabs now idle_for ((k, i) ∷ targets) sessions =
    let (kept, closing) =
      remove_idle tabs now idle_for targets (remove_tab sessions k.session k.pane k.tab) in
    let skipped = remove_idle tabs now idle_for targets sessions in
    if tab_is_idle now idle_for (get tabs i) then (kept, i ∷ closing) else skipped

-- the first error of `closeTabs`
unfoldable pub close_tabs : (ℕ → Option ℕ) → List ℕ → Option ℕ
close_tabs close [] = none
close_tabs close (tab ∷ tabs) =
    let rest = close_tabs close tabs in elim (close tab) [ none ↦ rest | some e ↦ some e ]

-- `CloseIdleTargets` while it holds the lock: the tabs that it closes then.
pub close_idle_targets : Store → ℕ → ℕ → Store × List ℕ
unfolding remove_idle all_targets
close_idle_targets st now idle_for =
    let (sessions, closing) =
      remove_idle st.tabs now idle_for (all_targets st.sessions) st.sessions in
    if idle_for == 0 then (st, []) else (record st { sessions = sessions }, closing)

-- What `getOrCreate` finds when it gets the lock.
pub data Entry : Type 0 where
  refused : InvalidRequest → Entry
  existing : ℕ → Entry
  waiting : ℕ → Entry
  starts : ℕ → Entry

abbrev new_starting : StartingTarget
new_starting = record { done = false; canceled = false; start_err = none; close_err = none }

start_or_wait : Store → TargetKey → Store × Entry
unfolding find_starting
start_or_wait st key = elim (find_starting key st.starting) [
  | some i ↦ (st, waiting i)
  | none ↦
      let i = length st.targets in
      (
        record st { starting = (key, i) ∷ st.starting; targets = st.targets ++ new_starting ∷ [] },
        starts i,
      )
]

find_or_start : Store → TargetKey → ℕ → Bool → Store × Entry
unfolding start_or_wait modify
find_or_start st key now active = elim (find st key) [
  | some tab ↦ (with_tab st (if active then begin_tab now else touch_tab now) tab, existing tab)
  | none ↦ start_or_wait st key
]

-- `getOrCreate` up to the first release of the lock
unfoldable pub enter : Store → TargetKey → ℕ → Bool → Store × Entry
unfolding find_or_start
enter st key now active = elim (validate_complete_target key.session key.pane key.tab) [
  | some e ↦ (st, refused e)
  | none ↦ find_or_start st key now active
]

finished : Store → TargetKey → ℕ → (StartingTarget → StartingTarget) → Store
unfolding delete_starting modify
finished st key i f = record st {
  starting = delete_starting key st.starting;
  targets = modify (λ t. record (f t) { done = true }) st.targets i;
}

-- The new runner is kept: its tab is put at the end of the heap and installed.
pub install_started : Store → TargetKey → ℕ → ℕ → Bool → Store × Option ℕ
unfolding finished
install_started st key i now active =
    let tab = length st.tabs in
    let new : Tab = record {
      name = key.tab;
      last_used_at = now;
      active = if active then 1 else 0;
    } in
    (
      finished
          (record st {
            sessions = install_tab st.sessions key.session key.pane key.tab tab;
            tabs = st.tabs ++ new ∷ [];
          })
          key i (λ t. t),
      some tab,
    )

-- `getOrCreate` behind `newRunner`, which returned `start_err`; `close_err` is what `Close` of a runner
-- that is not wanted any more returns.
unfoldable pub finish_start :
    Store → TargetKey → ℕ → Option ℕ → Option ℕ → ℕ → Bool → Store × Option ℕ
unfolding finished install_started get
finish_start st key i start_err close_err now active =
    let canceled : Bool = elim (get st.targets i) [ none ↦ false | some t ↦ t.canceled ] in
    if canceled
    then (finished st key i (λ t. record t { close_err = close_err }), none)
    else elim start_err [
      | some e ↦ (finished st key i (λ t. record t { start_err = some e }), none)
      | none ↦ install_started st key i now active
    ]

cancel : Store → Option ℕ → Store
unfolding modify
cancel st none = st
cancel st (some i) = record st { targets = modify (λ t. record t { canceled = true }) st.targets i }

-- `closeTarget` up to the release of the lock: the tab to close, and the start to wait for.
unfoldable pub close_target : Store → TargetKey → Bool → Store × Option ℕ × Option ℕ
unfolding cancel find_starting
close_target st key cancel_starting =
    let starting = if cancel_starting then find_starting key st.starting else none in
    let sessions : Sessions = elim (find st key) [
      | none ↦ st.sessions
      | some tab ↦ remove_tab st.sessions key.session key.pane key.tab
    ] in
    (cancel (record st { sessions = sessions }) starting, find st key, starting)

cancel_all : List (TargetKey × ℕ) → List StartingTarget → List StartingTarget
unfolding modify
cancel_all [] targets = targets
cancel_all ((k, i) ∷ starting) targets =
    cancel_all starting (modify (λ t. record t { canceled = true }) targets i)

-- `CloseAll` up to the release of the lock: the tabs to close, and the starts to wait for.
unfoldable pub close_all : Store → Store × List ℕ × List ℕ
unfolding cancel_all all_targets
close_all st = (
  record st { sessions = []; targets = cancel_all st.starting st.targets },
  map (λ e. e.1) (all_targets st.sessions),
  map (λ e. e.1) st.starting,
)

-- `removeWhenDone` when the runner of `tab` is done: whether it closes the runner.
pub remove_when_done : Store → TargetKey → ℕ → Store × Bool
remove_when_done st key tab = elim (find st key) [
  | none ↦ (st, false)
  | some found ↦
      if found == tab
      then (record st { sessions = remove_tab st.sessions key.session key.pane key.tab }, true)
      else (st, false)
]
