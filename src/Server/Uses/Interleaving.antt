-- ===== src/Server/Uses/Interleaving.antt =====
-- internal/server/store.go: the calls of many goroutines on one store. An event is what one of them does
-- while it holds the lock once, so that a list of events is an interleaving. Besides the store, the
-- configuration has the uses whose function of `finishUse` has not been called yet, and the starts
-- that are between the two critical sections of `getOrCreate`.
pub mod Heap
pub mod Counts
pub mod Steps
pub mod Starts
pub mod Waits
mod Examples
use ptymux.Server.Uses.{
  TargetKey, Store, Tab, StartingTarget, get, modify, begin_existing_use, finish_use, touch_target,
  enter, Entry, refused, existing, waiting, starts, finish_start, close_target, close_all,
  close_idle_targets, remove_when_done,
}
use ptymux.Prelude.{
  ℕ, zero, suc, ◌+◌, ◌-◌, ◌*◌, ◌/◌, ◌%◌, ◌^◌, ◌≤◌, ◌<◌, min, ◌≡◌, refl, sym, ap, ◌∙◌, subst, ◌≢◌,
  ◌↔◌, ◌⊎◌, inl, inr, Bool, true, false, not, ◌&&◌, ◌||◌, Option, none, some, List, [], ◌∷◌, ◌++◌,
  map, append_assoc, append-nil, arith, ltb, leb, ◌==◌, if◌then◌else◌, ltb→lt, lt→ltb, leb→le,
  ==_iff, tests, Bool-cases, Option-cases, length, set, take, drop, length-append, length-set,
  take-append-drop, length-take, length-drop, take-of-length-le, take-length-append,
  drop-length-append, All, All-append, All-take, All-drop, Bytes, codes, bytes_eq, bytes_eq_refl,
  bytes_eq_iff, if-intro, take-append-of-le, drop-append-of-le, Option-intro,
}

-- a start in flight: its target, its entry, and whether the caller will use the tab
pub record Flight : Type 0 where
  pub key : TargetKey
  pub entry : ℕ
  pub active : Bool

pub record Config : Type 0 where
  pub store : Store
  pub uses : List ℕ
  pub flights : List Flight

pub data Event : Type 0 where
  begins_existing touches : TargetKey → ℕ → Event
  enters : TargetKey → ℕ → Bool → Event
  ends_start : ℕ → Option ℕ → Option ℕ → ℕ → Event
  finishes closes_idle : ℕ → ℕ → Event
  closes : TargetKey → Bool → Event
  closes_all : Event
  runner_done : TargetKey → ℕ → Event

-- How often a tab is in use.
unfoldable pub count : ℕ → List ℕ → ℕ
count tab [] = 0
count tab (x ∷ xs) = (if x == tab then 1 else 0) + count tab xs

unfoldable pub remove_use : ℕ → List ℕ → List ℕ
remove_use tab [] = []
remove_use tab (x ∷ xs) = let rest = remove_use tab xs in if x == tab then xs else x ∷ rest

unfoldable pub remove_flight : ℕ → List Flight → List Flight
remove_flight n [] = []
remove_flight zero (x ∷ xs) = xs
remove_flight (suc n) (x ∷ xs) = x ∷ remove_flight n xs

pub used : Config → Bool → Store × Option ℕ → Config
used c active (st, none) = record c { store = st }
used c active (st, some tab) = record c {
  store = st;
  uses = if active then tab ∷ c.uses else c.uses;
}

pub entered : Config → TargetKey → Bool → Store × Entry → Config
entered c key active (st, refused e) = record c { store = st }
entered c key active (st, existing tab) = record c {
  store = st;
  uses = if active then tab ∷ c.uses else c.uses;
}
entered c key active (st, waiting i) = record c { store = st }
entered c key active (st, starts i) = record c {
  store = st;
  flights = record { key = key; entry = i; active = active } ∷ c.flights;
}

ended : Config → ℕ → Option ℕ → Option ℕ → ℕ → Option Flight → Config
unfolding used remove_flight
ended c n start_err close_err now none = c
ended c n start_err close_err now (some f) =
    used (record c { flights = remove_flight n c.flights }) f.active
      (finish_start c.store f.key f.entry start_err close_err now f.active)

-- An event that no goroutine can take changes nothing.
pub step : Config → Event → Config
unfolding used entered ended count remove_use get
step c (begins_existing key now) = used c true (begin_existing_use c.store key now)
step c (touches key now) = record c { store = touch_target c.store key now }
step c (enters key now active) = entered c key active (enter c.store key now active)
step c (ends_start n start_err close_err now) = ended c n start_err close_err now (get c.flights n)
step c (finishes tab now) =
    if ltb 0 (count tab c.uses)
    then record c { store = finish_use c.store tab now; uses = remove_use tab c.uses }
    else c
step c (closes key cancel_starting) = record c {
  store = (close_target c.store key cancel_starting).0;
}
step c closes_all = record c { store = (close_all c.store).0 }
step c (closes_idle now idle_for) = record c { store = (close_idle_targets c.store now idle_for).0 }
step c (runner_done key tab) = record c { store = (remove_when_done c.store key tab).0 }

unfoldable pub run : Config → List Event → Config
run c [] = c
run c (e ∷ events) = run (step c e) events

abbrev pub initial : Config
initial = record {
  store = record { sessions = []; starting = []; tabs = []; targets = [] };
  uses = [];
  flights = [];
}
