-- ===== src/Server/Uses/Interleaving/Waits.antt =====
-- The starts of runners in every interleaving: whoever waits for one is told that it is done.
use ptymux.Server.Protocol.{validate_complete_target}
use ptymux.Server.Uses.{
  TargetKey, Store, StartingTarget, get, modify, begin_existing_use, touch_target, enter, Entry,
  find_or_start, start_or_wait, finish_start, install_started, finished, close_target, close_all,
  close_idle_targets, remove_when_done, find, find_starting, cancel, cancel_all, finish_use,
  new_starting,
}
use ptymux.Server.Uses.Interleaving.{
  Config, Event, begins_existing, touches, enters, ends_start, finishes, closes_idle, closes,
  closes_all, runner_done, Flight, count, remove_flight, used, entered, ended, step, run, initial,
}
use ptymux.Prelude.{
  ℕ, ◌-◌, ◌≡◌, refl, sym, ap, ◌∙◌, subst, Bool, true, false, ◌||◌, Option, none, some, List, [],
  ◌∷◌, arith, ltb, ◌==◌, if◌then◌else◌, length, if-intro, Option-intro,
}
use ptymux.Server.Uses.Interleaving.Starts.{
  done_of, done_at, in_flight, Told, start-Told, cancel-Told, finished-Told,
}

abbrev pub Awaited : Config → Type 0
Awaited c = Told c.store.targets c.flights

enters-Awaited :
    (c : Config) (key : TargetKey) (now : ℕ) (active : Bool)
    → Awaited c
    → Awaited (entered c key active (enter c.store key now active))
unfolding entered enter find_or_start start_or_wait
enters-Awaited c key now active h =
    let P : Store × Entry → Type 0 = λ r. Awaited (entered c key active r) in
    Option-intro P (validate_complete_target key.session key.pane key.tab)
      (λ _.
        Option-intro P (find c.store key)
          (λ _.
            Option-intro P (find_starting key c.store.starting)
              (λ _.
                start-Told c.store.targets c.flights new_starting
                  (record { key = key; entry = length c.store.targets; active = active }) refl h)
              (λ i _. h))
          (λ tab _. h))
      (λ err _. h)

begins_existing-Awaited :
    (c : Config) (key : TargetKey) (now : ℕ)
    → Awaited c
    → Awaited (used c true (begin_existing_use c.store key now))
unfolding used begin_existing_use
begins_existing-Awaited c key now h =
    Option-intro (λ (r : Store × Option ℕ). Awaited (used c true r)) (find c.store key) (λ _. h)
      (λ tab _. h)

touches-Awaited :
    (c : Config) (key : TargetKey) (now : ℕ)
    → Awaited c
    → Awaited (record c { store = touch_target c.store key now })
unfolding touch_target
touches-Awaited c key now h =
    Option-intro (λ st. Awaited (record c { store = st })) (find c.store key) (λ _. h) (λ tab _. h)

ended-Awaited :
    (c : Config) (n : ℕ) (start_err close_err : Option ℕ) (now : ℕ) (flight : Option Flight)
    → get c.flights n ≡ flight
    → Awaited c
    → Awaited (ended c n start_err close_err now flight)
unfolding ended finish_start finished install_started used
ended-Awaited c n start_err close_err now none e h = h
ended-Awaited c n start_err close_err now (some f) e h =
    let left : Config = record c { flights = remove_flight n c.flights } in
    let P : Store × Option ℕ → Type 0 = λ r. Awaited (used left f.active r) in
    if-intro P
      (elim (get c.store.targets f.entry) as (λ _. Bool) [ none ↦ false | some t ↦ t.canceled ])
      (λ _.
        finished-Told c.store.targets c.flights n f (λ t. record t { close_err = close_err }) e h)
      (λ _.
        Option-intro P start_err (λ _. finished-Told c.store.targets c.flights n f (λ t. t) e h)
          (λ err _.
            finished-Told c.store.targets c.flights n f (λ t. record t { start_err = some err }) e
              h))

close_target-Awaited :
    (c : Config) (st : Store) (starting : Option ℕ)
    → st.targets ≡ c.store.targets
    → Awaited c
    → Awaited (record c { store = cancel st starting })
unfolding cancel
close_target-Awaited c st none e h = subst (λ targets. Told targets c.flights) (sym e) h
close_target-Awaited c st (some i) e h =
    cancel-Told st.targets c.flights i (subst (λ targets. Told targets c.flights) (sym e) h)

cancel_all-Told :
    (starting : List (TargetKey × ℕ)) (targets : List StartingTarget) (flights : List Flight)
    → Told targets flights
    → Told (cancel_all starting targets) flights
unfolding cancel_all
cancel_all-Told [] targets flights h = h
cancel_all-Told ((k, i) ∷ starting) targets flights h =
    cancel_all-Told starting (modify (λ t. record t { canceled = true }) targets i) flights
      (cancel-Told targets flights i h)

closes_idle-Awaited :
    (c : Config) (now idle_for : ℕ)
    → Awaited c
    → Awaited (record c { store = (close_idle_targets c.store now idle_for).0 })
unfolding close_idle_targets
closes_idle-Awaited c now idle_for h =
    if-intro (λ (r : Store × List ℕ). Awaited (record c { store = r.0 })) (idle_for == 0) (λ _. h)
      (λ _. h)

runner_done-Awaited :
    (c : Config) (key : TargetKey) (tab : ℕ)
    → Awaited c
    → Awaited (record c { store = (remove_when_done c.store key tab).0 })
unfolding remove_when_done
runner_done-Awaited c key tab h =
    let P : Store × Bool → Type 0 = λ r. Awaited (record c { store = r.0 }) in
    Option-intro P (find c.store key) (λ _. h)
      (λ found _. if-intro P (found == tab) (λ _. h) (λ _. h))

step-Awaited : (c : Config) (event : Event) → Awaited c → Awaited (step c event)
unfolding step close_all close_target finish_use
step-Awaited c (begins_existing key now) h = begins_existing-Awaited c key now h
step-Awaited c (touches key now) h = touches-Awaited c key now h
step-Awaited c (enters key now active) h = enters-Awaited c key now active h
step-Awaited c (ends_start n start_err close_err now) h =
    ended-Awaited c n start_err close_err now (get c.flights n) refl h
step-Awaited c (finishes tab now) h = if-intro Awaited (ltb 0 (count tab c.uses)) (λ _. h) (λ _. h)
step-Awaited c (closes key cancel_starting) h =
    close_target-Awaited c _ (if cancel_starting then find_starting key c.store.starting else none)
      refl h
step-Awaited c closes_all h = cancel_all-Told c.store.starting c.store.targets c.flights h
step-Awaited c (closes_idle now idle_for) h = closes_idle-Awaited c now idle_for h
step-Awaited c (runner_done key tab) h = runner_done-Awaited c key tab h

run-Awaited : (c : Config) (events : List Event) → Awaited c → Awaited (run c events)
unfolding run
run-Awaited c [] h = h
run-Awaited c (e ∷ events) h = run-Awaited (step c e) events (step-Awaited c e h)

-- how each start in flight ends, one after the other
unfoldable pub endings : List (Option ℕ × Option ℕ × ℕ) → List Event
endings [] = []
endings ((start_err, close_err, now) ∷ outcomes) =
    ends_start 0 start_err close_err now ∷ endings outcomes

used-flights :
    (c : Config) (active : Bool) (r : Store × Option ℕ) → (used c active r).flights ≡ c.flights
unfolding used
used-flights c active (st, none) = refl
used-flights c active (st, some tab) = refl

length-remove_flight :
    (flights : List Flight) → length (remove_flight 0 flights) ≡ length flights - 1
unfolding remove_flight
length-remove_flight [] = refl
length-remove_flight (x ∷ xs) = omega arith

no_flight : (flights : List Flight) → get flights 0 ≡ none → length flights ≡ length flights - 1
unfolding get
no_flight [] h = refl
no_flight (x ∷ xs) h = absurd cc

length-ended :
    (c : Config) (start_err close_err : Option ℕ) (now : ℕ) (flight : Option Flight)
    → get c.flights 0 ≡ flight
    → length (ended c 0 start_err close_err now flight).flights ≡ length c.flights - 1
unfolding ended
length-ended c start_err close_err now none e = no_flight c.flights e
length-ended c start_err close_err now (some f) e =
    ap length (
      used-flights (record c { flights = remove_flight 0 c.flights }) f.active
        (finish_start c.store f.key f.entry start_err close_err now f.active))
    ∙ length-remove_flight c.flights

all_ended :
    (c : Config) (outcomes : List (Option ℕ × Option ℕ × ℕ))
    → length outcomes ≡ length c.flights
    → length (run c (endings outcomes)).flights ≡ 0
unfolding run endings step
all_ended c [] h = sym h
all_ended c ((start_err, close_err, now) ∷ outcomes) h =
    let fewer = length-ended c start_err close_err now (get c.flights 0) refl in
    all_ended (step c (ends_start 0 start_err close_err now)) outcomes (omega (arith, h, fewer))

or_false : (b : Bool) → (b || false) ≡ true → b ≡ true
or_false true h = refl
or_false false h = h

initially : Awaited initial
unfolding get done_of
initially i = refl

none_waits :
    (targets : List StartingTarget) (flights : List Flight) (i : ℕ)
    → length flights ≡ 0
    → Told targets flights
    → done_at targets i ≡ true
unfolding in_flight
none_waits targets [] i e h = or_false (done_at targets i) (h i)
none_waits targets (f ∷ flights) i e h = absurd (omega (arith, e))

-- In every interleaving, once the starts in flight have ended, in whatever way, every start is done,
-- so that no call waits for one any more.
pub run-endings :
    (events : List Event) (outcomes : List (Option ℕ × Option ℕ × ℕ)) (i : ℕ)
    → length outcomes ≡ length (run initial events).flights
    → done_at (run (run initial events) (endings outcomes)).store.targets i ≡ true
run-endings events outcomes i h =
    let c = run initial events in
    let after = run c (endings outcomes) in
    none_waits after.store.targets after.flights i (all_ended c outcomes h)
      (run-Awaited c (endings outcomes) (run-Awaited initial events initially))
