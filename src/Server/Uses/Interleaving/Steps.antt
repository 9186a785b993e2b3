-- ===== src/Server/Uses/Interleaving/Steps.antt =====
-- The use counts of the tabs in every interleaving.
use ptymux.Server.Protocol.{validate_complete_target}
use ptymux.Server.Store.{Sessions, remove_tab}
use ptymux.Server.Store.Laws.{find_tab-empty}
use ptymux.Server.Uses.{
  TargetKey, Store, Tab, get, begin_existing_use, finish_use, touch_target, enter, Entry,
  find_or_start, start_or_wait, finish_start, install_started, finished, close_target, close_all,
  close_idle_targets, remove_idle, remove_when_done, tab_is_idle, find, all_targets, find_starting,
  cancel,
}
use ptymux.Server.Uses.Interleaving.{
  Config, Event, begins_existing, touches, enters, ends_start, finishes, closes_idle, closes,
  closes_all, runner_done, Flight, count, remove_flight, used, entered, ended, step, run, initial,
}
use ptymux.Server.Uses.Interleaving.Heap.{active_of, active_at}
use ptymux.Prelude.{
  ℕ, ◌≡◌, refl, sym, ap, ◌∙◌, Bool, true, false, Option, none, some, List, [], ◌∷◌, ltb, ◌==◌,
  if◌then◌else◌, ltb→lt, length, All, if-intro, Option-intro,
}
use ptymux.Server.Uses.Interleaving.Counts.{
  InHeap, IsCounted, Holds, InHeap-remove_tab, begin-Sound, finish-Sound, install-Sound,
}
use ptymux.Server.Uses.Idle.{IsIdle, close_idle_targets-IsIdle}

begins_existing-Holds :
    (c : Config) (key : TargetKey) (now : ℕ)
    → Holds c
    → Holds (used c true (begin_existing_use c.store key now))
unfolding used begin_existing_use
begins_existing-Holds c key now h =
    Option-intro (λ (r : Store × Option ℕ). Holds (used c true r)) (find c.store key) (λ _. h)
      (λ tab e.
        begin-Sound c.store.sessions c.store.tabs c.uses now tab true
          (h.0 key.session key.pane key.tab tab e) h)

touches-Holds :
    (c : Config) (key : TargetKey) (now : ℕ)
    → Holds c
    → Holds (record c { store = touch_target c.store key now })
unfolding touch_target
touches-Holds c key now h =
    Option-intro (λ st. Holds (record c { store = st })) (find c.store key) (λ _. h)
      (λ tab e.
        begin-Sound c.store.sessions c.store.tabs c.uses now tab false
          (h.0 key.session key.pane key.tab tab e) h)

enters-Holds :
    (c : Config) (key : TargetKey) (now : ℕ) (active : Bool)
    → Holds c
    → Holds (entered c key active (enter c.store key now active))
unfolding entered enter find_or_start start_or_wait
enters-Holds c key now active h =
    let P : Store × Entry → Type 0 = λ r. Holds (entered c key active r) in
    Option-intro P (validate_complete_target key.session key.pane key.tab)
      (λ _.
        Option-intro P (find c.store key)
          (λ _. Option-intro P (find_starting key c.store.starting) (λ _. h) (λ i _. h))
          (λ tab e.
            begin-Sound c.store.sessions c.store.tabs c.uses now tab active
              (h.0 key.session key.pane key.tab tab e) h))
      (λ err _. h)

finish_start-Holds :
    (c : Config) (key : TargetKey) (i : ℕ) (start_err close_err : Option ℕ) (now : ℕ)
    (active : Bool)
    → Holds c
    → Holds (used c active (finish_start c.store key i start_err close_err now active))
unfolding finish_start finished install_started used
finish_start-Holds c key i start_err close_err now active h =
    let P : Store × Option ℕ → Type 0 = λ r. Holds (used c active r) in
    if-intro P (elim (get c.store.targets i) as (λ _. Bool) [ none ↦ false | some t ↦ t.canceled ])
      (λ _. h)
      (λ _.
        Option-intro P start_err
          (λ _.
            install-Sound c.store.sessions c.store.tabs c.uses key
              (record { name = key.tab; last_used_at = now; active = if active then 1 else 0 })
              active refl h)
          (λ e _. h))

ended-Holds :
    (c : Config) (n : ℕ) (start_err close_err : Option ℕ) (now : ℕ) (flight : Option Flight)
    → Holds c
    → Holds (ended c n start_err close_err now flight)
unfolding ended
ended-Holds c n start_err close_err now none h = h
ended-Holds c n start_err close_err now (some f) h =
    finish_start-Holds (record c { flights = remove_flight n c.flights }) f.key f.entry start_err
      close_err now f.active h

cancel-Holds :
    (c : Config) (st : Store) (starting : Option ℕ)
    → Holds (record c { store = st })
    → Holds (record c { store = cancel st starting })
unfolding cancel
cancel-Holds c st none h = h
cancel-Holds c st (some i) h = h

close_target-Holds :
    (c : Config) (key : TargetKey) (cancel_starting : Bool)
    → Holds c
    → Holds (record c { store = (close_target c.store key cancel_starting).0 })
unfolding close_target
close_target-Holds c key cancel_starting h =
    cancel-Holds c _ (if cancel_starting then find_starting key c.store.starting else none) (
      Option-intro (λ sessions. InHeap sessions (length c.store.tabs)) (find c.store key) (λ _. h.0)
          (λ tab _.
            InHeap-remove_tab c.store.sessions (length c.store.tabs) key.session key.pane key.tab
              h.0),
      h.1,
    )

remove_idle-InHeap :
    (tabs : List Tab) (now idle_for n : ℕ) (targets : List (TargetKey × ℕ)) (sessions : Sessions)
    → InHeap sessions n
    → InHeap (remove_idle tabs now idle_for targets sessions).0 n
unfolding remove_idle
remove_idle-InHeap tabs now idle_for n [] sessions h = h
remove_idle-InHeap tabs now idle_for n ((k, i) ∷ targets) sessions h =
    if-intro (λ (r : Sessions × List ℕ). InHeap r.0 n) (tab_is_idle now idle_for (get tabs i))
      (λ _.
        remove_idle-InHeap tabs now idle_for n targets (remove_tab sessions k.session k.pane k.tab)
          (InHeap-remove_tab sessions n k.session k.pane k.tab h))
      (λ _. remove_idle-InHeap tabs now idle_for n targets sessions h)

closes_idle-Holds :
    (c : Config) (now idle_for : ℕ)
    → Holds c
    → Holds (record c { store = (close_idle_targets c.store now idle_for).0 })
unfolding close_idle_targets
closes_idle-Holds c now idle_for h =
    if-intro (λ (r : Store × List ℕ). Holds (record c { store = r.0 })) (idle_for == 0) (λ _. h)
      (λ _. (
        remove_idle-InHeap c.store.tabs now idle_for (length c.store.tabs)
            (all_targets c.store.sessions) c.store.sessions h.0,
        h.1,
      ))

runner_done-Holds :
    (c : Config) (key : TargetKey) (tab : ℕ)
    → Holds c
    → Holds (record c { store = (remove_when_done c.store key tab).0 })
unfolding remove_when_done
runner_done-Holds c key tab h =
    let P : Store × Bool → Type 0 = λ r. Holds (record c { store = r.0 }) in
    Option-intro P (find c.store key) (λ _. h)
      (λ found _.
        if-intro P (found == tab)
          (λ _. (
            InHeap-remove_tab c.store.sessions (length c.store.tabs) key.session key.pane key.tab
                h.0,
            h.1,
          ))
          (λ _. h))

InHeap-empty : (n : ℕ) → InHeap [] n
InHeap-empty n s p t tab e = let nothing = find_tab-empty s p t in absurd cc

pub step-Holds : (c : Config) (event : Event) → Holds c → Holds (step c event)
unfolding step close_all finish_use
step-Holds c (begins_existing key now) h = begins_existing-Holds c key now h
step-Holds c (touches key now) h = touches-Holds c key now h
step-Holds c (enters key now active) h = enters-Holds c key now active h
step-Holds c (ends_start n start_err close_err now) h =
    ended-Holds c n start_err close_err now (get c.flights n) h
step-Holds c (finishes tab now) h =
    if-intro Holds (ltb 0 (count tab c.uses))
      (λ e.
        finish-Sound c.store.sessions c.store.tabs c.uses now tab (ltb→lt 0 (count tab c.uses) e) h)
      (λ _. h)
step-Holds c (closes key cancel_starting) h = close_target-Holds c key cancel_starting h
step-Holds c closes_all h = (InHeap-empty (length c.store.tabs), h.1)
step-Holds c (closes_idle now idle_for) h = closes_idle-Holds c now idle_for h
step-Holds c (runner_done key tab) h = runner_done-Holds c key tab h

run-Holds : (c : Config) (events : List Event) → Holds c → Holds (run c events)
unfolding run
run-Holds c [] h = h
run-Holds c (e ∷ events) h = run-Holds (step c e) events (step-Holds c e h)

-- In every interleaving that starts from an empty store, the use count of each tab is the number of
-- its uses that have not ended, whatever is closed or canceled meanwhile.
pub run-active_at :
    (events : List Event) (tab : ℕ)
    → active_at (run initial events).store.tabs tab ≡ count tab (run initial events).uses
unfolding get count
run-active_at events = (run-Holds initial events (InHeap-empty 0, λ tab. refl)).1

unused :
    (tabs : List Tab) (uses : List ℕ) (now idle_for : ℕ) (closing : List ℕ)
    → IsCounted tabs uses
    → All (IsIdle now idle_for tabs) closing
    → All (λ tab. count tab uses ≡ 0) closing
unused tabs uses now idle_for [] counted idle = tt
unused tabs uses now idle_for (tab ∷ closing) counted ((t, found, free, old), idle) = (
  sym (counted tab) ∙ ap active_of found ∙ free,
  unused tabs uses now idle_for closing counted idle,
)

-- In every interleaving, `CloseIdleTargets` closes no tab that a call is still using.
pub close_idle_targets-count :
    (events : List Event) (now idle_for : ℕ)
    → All
        (λ tab. count tab (run initial events).uses ≡ 0)
        (close_idle_targets (run initial events).store now idle_for).1
close_idle_targets-count events now idle_for =
    unused (run initial events).store.tabs (run initial events).uses now idle_for
      (close_idle_targets (run initial events).store now idle_for).1 (run-active_at events)
      (close_idle_targets-IsIdle (run initial events).store now idle_for)
