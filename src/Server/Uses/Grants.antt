-- ===== src/Server/Uses/Grants.antt =====
-- What the critical sections in which a call gets a tab do to the use counts.
use ptymux.Server.Protocol.{validate_complete_target}
use ptymux.Server.Uses.{
  TargetKey, Store, Tab, get, begin_existing_use, finish_use, touch_target, enter, Entry, refused,
  existing, waiting, starts, finish_start, find, find_or_start, start_or_wait, find_starting,
  finished, install_started, begin_tab, with_tab, close_target, cancel, close_all,
}
use ptymux.Server.Uses.Interleaving.Heap.{
  active_at, active_at-append, active_at_beyond, active_at-begin_tab, active_at-finish_tab,
  active_at-touch_tab,
}
use ptymux.Prelude.{
  ℕ, ◌-◌, ◌≡◌, refl, sym, ◌∙◌, Bool, true, false, Option, none, some, List, [], ◌∷◌, ◌++◌, arith,
  ◌==◌, if◌then◌else◌, length, if-intro, Option-intro,
}

-- Every tab is in use as often.
abbrev pub SameUses : Store → Store → Type 0
SameUses a b = (tab : ℕ) → active_at a.tabs tab ≡ active_at b.tabs tab

-- The tab is in use once more, and the others are as often.
abbrev pub OneMore : Store → Store → ℕ → Type 0
OneMore a b tab = (i : ℕ) → active_at a.tabs i ≡ active_at b.tabs i - (if tab == i then 1 else 0)

begin_tab-OneMore : (st : Store) (now tab : ℕ) → OneMore st (with_tab st (begin_tab now) tab) tab
begin_tab-OneMore st now tab i = active_at-begin_tab now st.tabs tab i

-- What stands behind `enter`.
unfoldable pub Entered : Store → Store × Entry → Type 0
Entered a (b, refused e) = SameUses a b
Entered a (b, existing tab) = OneMore a b tab
Entered a (b, waiting i) = SameUses a b
Entered a (b, starts i) = SameUses a b

pub enter-Entered : (st : Store) (key : TargetKey) (now : ℕ) → Entered st (enter st key now true)
unfolding enter find_or_start start_or_wait Entered
enter-Entered st key now =
    Option-intro (Entered st) (validate_complete_target key.session key.pane key.tab)
      (λ _.
        Option-intro (Entered st) (find st key)
          (λ _.
            Option-intro (Entered st) (find_starting key st.starting) (λ _ i. refl) (λ n _ i. refl))
          (λ tab _. begin_tab-OneMore st now tab))
      (λ e _ i. refl)

append-OneMore :
    (tabs : List Tab) (new : Tab) (i : ℕ)
    → new.active ≡ 1
    → active_at tabs i ≡ active_at (tabs ++ new ∷ []) i - (if length tabs == i then 1 else 0)
append-OneMore tabs new i h =
    let fresh : length tabs ≡ i → active_at tabs i ≡ 0 =
      λ same. active_at_beyond tabs i (omega (arith, same)) in
    rw (active_at-append tabs new i, h) (ground arith)

-- the tab of a start that was neither canceled nor failed
unfoldable pub Started : Store → Bool → Option ℕ → Store × Option ℕ → Type 0
Started a canceled err (b, none) = SameUses a b
Started a canceled err (b, some tab) = (canceled ≡ false) × (err ≡ none) × OneMore a b tab

abbrev pub canceled_at : Store → ℕ → Bool
canceled_at st i = elim (get st.targets i) [ none ↦ false | some t ↦ t.canceled ]

pub finish_start-Started :
    (st : Store) (key : TargetKey) (i : ℕ) (start_err close_err : Option ℕ) (now : ℕ)
    → Started st (canceled_at st i) start_err (finish_start st key i start_err close_err now true)
unfolding Started finish_start finished install_started
finish_start-Started st key i start_err close_err now =
    if-intro (Started st (canceled_at st i) start_err) (canceled_at st i) (λ _ j. refl)
      (λ e.
        Option-intro (Started st (canceled_at st i) start_err) start_err
          (λ h. (
            e,
            h,
            λ j.
                append-OneMore st.tabs (record { name = key.tab; last_used_at = now; active = 1 }) j
                  refl,
          ))
          (λ err h j. refl))

pub begin_existing_use-OneMore :
    (st : Store) (key : TargetKey) (now : ℕ) → Started st false none (begin_existing_use st key now)
unfolding Started begin_existing_use
begin_existing_use-OneMore st key now =
    Option-intro (Started st false none) (find st key) (λ _ i. refl)
      (λ tab _. (refl, refl, begin_tab-OneMore st now tab))

pub finish_use-SameUses :
    (a b : Store) (tab now : ℕ) → OneMore a b tab → SameUses a (finish_use b tab now)
unfolding finish_use
finish_use-SameUses a b tab now h i = h i ∙ sym (active_at-finish_tab now b.tabs tab i)

pub touch_target-SameUses :
    (st : Store) (key : TargetKey) (now : ℕ) → SameUses st (touch_target st key now)
unfolding touch_target
touch_target-SameUses st key now =
    Option-intro (SameUses st) (find st key) (λ _ i. refl)
      (λ tab _ i. sym (active_at-touch_tab now st.tabs tab i))

cancel-SameUses : (st : Store) (starting : Option ℕ) → SameUses st (cancel st starting)
unfolding cancel
cancel-SameUses st none i = refl
cancel-SameUses st (some n) i = refl

pub close_target-SameUses :
    (st : Store) (key : TargetKey) (cancel_starting : Bool)
    → SameUses st (close_target st key cancel_starting).0
unfolding close_target
close_target-SameUses st key cancel_starting =
    cancel-SameUses _ (if cancel_starting then find_starting key st.starting else none)

pub close_all-SameUses : (st : Store) → SameUses st (close_all st).0
unfolding close_all
close_all-SameUses st i = refl
