-- ===== src/Server/Daemon/Lifecycle.antt =====
-- What any interleaving of a daemon's goroutines keeps of it.
use ptymux.Server.Daemon.{
  Listener, no_listener, open_listener, closed_listener, Daemon, close_listener, listen,
  set_connection, register_connection, mark_connection, mark_connection_active, without,
  remove_connection, StopStage, admitting, marking, telling, closing, returned, has_listener,
  mark_stopping, request_stop, close_stop_ack, mark_activity, Goroutine, sweeping, looking, timing,
  stops, over, cleanup_idle,
}
use ptymux.Server.Store.{is_nil}
use ptymux.Prelude.{
  ℕ, zero, suc, ◌+◌, ◌-◌, ◌≤◌, ◌≡◌, refl, sym, ap, subst, Bool, true, false, not, ◌||◌, List, [],
  ◌∷◌, arith, leb, ◌==◌, length, if-intro, Option-intro,
}

-- The goroutine at a place in the list goes on by one step.
unfoldable pub advance : ℕ → Daemon → List Goroutine → Daemon × List Goroutine
advance _ d [] = (d, [])
advance zero d (g ∷ others) = let (d', next) = cleanup_idle d g in (d', next ∷ others)
advance (suc n) d (g ∷ others) = let (d', others') = advance n d others in (d', g ∷ others')

pub data DaemonEvent : Type 0 where
  listens acknowledges : DaemonEvent
  accepts activates removes works cleans advances : ℕ → DaemonEvent
  requests_stop : Bool → DaemonEvent

unfoldable pub step : Daemon → List Goroutine → DaemonEvent → Daemon × List Goroutine
step d gs listens = ((listen d).0, gs)
step d gs acknowledges = (close_stop_ack d, gs)
step d gs (accepts conn) = ((register_connection d conn).0, gs)
step d gs (activates conn) = (mark_connection_active d conn, gs)
step d gs (removes conn) = (remove_connection d conn, gs)
step d gs (works now) = (mark_activity d now, gs)
step d gs (cleans now) = (d, sweeping now ∷ gs)
step d gs (requests_stop with_ack) = (d, stops (admitting with_ack) ∷ gs)
step d gs (advances n) = advance n d gs

unfoldable pub run : Daemon → List Goroutine → List DaemonEvent → Daemon × List Goroutine
run d gs [] = (d, gs)
run d gs (e ∷ events) = let (d', gs') = step d gs e in run d' gs' events

unfoldable pub is_open : Listener → Bool
is_open open_listener = true
is_open _ = false

-- before its section of `lifecycleMu`
unfoldable pub is_marking : Goroutine → Bool
is_marking (stops (marking _)) = true
is_marking _ = false

-- about to close `d.stopped`
unfoldable pub is_telling : Goroutine → Bool
is_telling (stops (telling _ _)) = true
is_telling _ = false

-- going to close the listener that it found
unfoldable pub is_closing : Goroutine → Bool
is_closing (stops (telling heard _)) = heard
is_closing (stops (closing heard _)) = heard
is_closing _ = false

unfoldable pub any_of : (Goroutine → Bool) → List Goroutine → Bool
any_of p [] = false
any_of p (g ∷ gs) = p g || any_of p gs

-- A daemon of which some goroutine is `marking`, `telling` or `closing`. A stop is known to the service
-- before the daemon; those that wait for it are told, and the listener is closed, but for a goroutine
-- that is about to.
pub record IsOrderlyWith (d : Daemon) (some_marking some_telling some_closing : Bool) : Type 0 where
  pub bounded : length d.connections ≤ d.options.max_connections
  pub stops_first : (not d.stopped || d.stopping) ≡ true
  pub admits_nothing : (not d.stopping || d.service.stopping) ≡ true
  pub admission_first : (not some_marking || d.service.stopping) ≡ true
  pub marked_first : (not some_telling || d.stopping) ≡ true
  pub told : (not d.stopping || (d.stopped || some_telling)) ≡ true
  pub hears_nothing : (not d.stopping || (not (is_open d.listener) || some_closing)) ≡ true

unfoldable pub IsOrderly : Daemon → List Goroutine → Type 0
IsOrderly d gs =
    IsOrderlyWith d (any_of is_marking gs) (any_of is_telling gs) (any_of is_closing gs)

length-set_connection :
    (conn : ℕ) (active : Bool) (cs : List (ℕ × Bool))
    → length (set_connection conn active cs) ≤ length cs + 1
unfolding set_connection
length-set_connection conn active [] = omega arith
length-set_connection conn active ((c, a) ∷ cs) =
    let rest = length-set_connection conn active cs in
    if-intro (λ (r : List (ℕ × Bool)). length r ≤ suc (length cs) + 1) (c == conn)
      (λ _. omega arith) (λ _. omega (arith, rest))

length-mark_connection :
    (conn : ℕ) (cs : List (ℕ × Bool)) → length (mark_connection conn cs) ≡ length cs
unfolding mark_connection
length-mark_connection conn [] = refl
length-mark_connection conn ((c, a) ∷ cs) = ap suc (length-mark_connection conn cs)

length-without : (conn : ℕ) (cs : List (ℕ × Bool)) → length (without conn cs) ≤ length cs
unfolding without
length-without conn [] = omega arith
length-without conn ((c, a) ∷ cs) =
    let rest = length-without conn cs in
    if-intro (λ (r : List (ℕ × Bool)). length r ≤ suc (length cs)) (c == conn)
      (λ _. omega (arith, rest)) (λ _. omega (arith, rest))

or_true : (b : Bool) → (b || true) ≡ true
or_true true = refl
or_true false = refl

or_assoc : (a b c : Bool) → (a || (b || c)) ≡ ((a || b) || c)
or_assoc true b c = refl
or_assoc false b c = refl

or_left_comm : (a b c : Bool) → (a || (b || c)) ≡ (b || (a || c))
or_left_comm true b c = sym (or_true b)
or_left_comm false b c = refl

closed_listener_lem : (l : Listener) → not (is_open (close_listener l)) ≡ true
unfolding is_open close_listener
closed_listener_lem no_listener = refl
closed_listener_lem open_listener = refl
closed_listener_lem closed_listener = refl

heard_lem : (l : Listener) (c : Bool) → (not (is_open l) || (has_listener l || c)) ≡ true
unfolding is_open has_listener
heard_lem no_listener c = refl
heard_lem open_listener c = refl
heard_lem closed_listener c = refl

-- A stop's next step, beside goroutines of which some may be at each stage.
request_stop-IsOrderlyWith :
    (d : Daemon) (s : StopStage) (m t c : Bool)
    → IsOrderlyWith d
        (is_marking (stops s) || m)
        (is_telling (stops s) || t)
        (is_closing (stops s) || c)
    → let (d', s') = request_stop d s in
      IsOrderlyWith d'
        (is_marking (stops s') || m)
        (is_telling (stops s') || t)
        (is_closing (stops s') || c)
unfolding request_stop mark_stopping is_marking is_telling is_closing
request_stop-IsOrderlyWith d (admitting with_ack) m t c h = record {
  bounded = h.bounded;
  stops_first = h.stops_first;
  admits_nothing = or_true (not d.stopping);
  admission_first = refl;
  marked_first = h.marked_first;
  told = h.told;
  hears_nothing = h.hears_nothing;
}
request_stop-IsOrderlyWith d (marking with_ack) m t c h = record {
  bounded = h.bounded;
  stops_first = or_true (not d.stopped);
  admits_nothing = h.admission_first;
  admission_first = rw (h.admission_first) (or_true (not m));
  marked_first = refl;
  told = or_true d.stopped;
  hears_nothing = heard_lem d.listener c;
}
request_stop-IsOrderlyWith d (telling heard ack) m t c h = record {
  bounded = h.bounded;
  stops_first = h.marked_first;
  admits_nothing = h.admits_nothing;
  admission_first = h.admission_first;
  marked_first = rw (h.marked_first) (or_true (not t));
  told = or_true (not d.stopping);
  hears_nothing = h.hears_nothing;
}
request_stop-IsOrderlyWith d (closing true ack) m t c h = record {
  bounded = h.bounded;
  stops_first = h.stops_first;
  admits_nothing = h.admits_nothing;
  admission_first = h.admission_first;
  marked_first = h.marked_first;
  told = h.told;
  hears_nothing = rw (closed_listener_lem d.listener) (or_true (not d.stopping));
}
request_stop-IsOrderlyWith d (closing false ack) m t c h = h
request_stop-IsOrderlyWith d (returned ack) m t c h = h

cleanup_idle-IsOrderlyWith :
    (d : Daemon) (g : Goroutine) (m t c : Bool)
    → IsOrderlyWith d (is_marking g || m) (is_telling g || t) (is_closing g || c)
    → let (d', g') = cleanup_idle d g in
      IsOrderlyWith d' (is_marking g' || m) (is_telling g' || t) (is_closing g' || c)
unfolding cleanup_idle is_marking is_telling is_closing
cleanup_idle-IsOrderlyWith d (sweeping now) m t c h =
    if-intro
      (λ (r : Daemon × Goroutine).
        IsOrderlyWith r.0 (is_marking r.1 || m) (is_telling r.1 || t) (is_closing r.1 || c))
      (not d.options.enabled) (λ _. h)
      (λ _. record {
        bounded = h.bounded;
        stops_first = h.stops_first;
        admits_nothing = h.admits_nothing;
        admission_first = h.admission_first;
        marked_first = h.marked_first;
        told = h.told;
        hears_nothing = h.hears_nothing;
      })
cleanup_idle-IsOrderlyWith d (looking now) m t c h =
    if-intro
      (λ (r : Daemon × Goroutine).
        IsOrderlyWith r.0 (is_marking r.1 || m) (is_telling r.1 || t) (is_closing r.1 || c))
      (d.options.daemon_idle_timeout == 0 || not (is_nil d.service.store.sessions)) (λ _. h)
      (λ _. h)
cleanup_idle-IsOrderlyWith d (timing now) m t c h =
    if-intro
      (λ (r : Daemon × Goroutine).
        IsOrderlyWith r.0 (is_marking r.1 || m) (is_telling r.1 || t) (is_closing r.1 || c))
      (leb d.options.daemon_idle_timeout (now - d.last_activity)) (λ _. h) (λ _. h)
cleanup_idle-IsOrderlyWith d (stops s) m t c h = request_stop-IsOrderlyWith d s m t c h
cleanup_idle-IsOrderlyWith d over m t c h = h

moved :
    (d : Daemon) {m m' t t' c c' : Bool}
    → m ≡ m'
    → t ≡ t'
    → c ≡ c'
    → IsOrderlyWith d m t c
    → IsOrderlyWith d m' t' c'
moved d {m} {m'} {t} {t'} {c} {c'} p q r h =
    subst (λ b. IsOrderlyWith d m' t' b) r
      (subst (λ b. IsOrderlyWith d m' b c) q (subst (λ b. IsOrderlyWith d b t c) p h))

-- the same within a list of goroutines, beside others before it
advance-IsOrderlyWith :
    (n : ℕ) (d : Daemon) (gs : List Goroutine) (m t c : Bool)
    → IsOrderlyWith d
        (m || any_of is_marking gs)
        (t || any_of is_telling gs)
        (c || any_of is_closing gs)
    → let (d', gs') = advance n d gs in
      IsOrderlyWith d'
        (m || any_of is_marking gs')
        (t || any_of is_telling gs')
        (c || any_of is_closing gs')
unfolding advance any_of
advance-IsOrderlyWith zero d [] m t c h = h
advance-IsOrderlyWith (suc n) d [] m t c h = h
advance-IsOrderlyWith zero d (g ∷ gs) m t c h =
    let next = (cleanup_idle d g).1 in
    let m' = any_of is_marking gs in
    let t' = any_of is_telling gs in
    let c' = any_of is_closing gs in
    let kept = cleanup_idle-IsOrderlyWith d g (m || m') (t || t') (c || c') (
      moved d (or_left_comm m (is_marking g) m') (or_left_comm t (is_telling g) t')
        (or_left_comm c (is_closing g) c') h) in
    moved (cleanup_idle d g).0 (or_left_comm (is_marking next) m m')
      (or_left_comm (is_telling next) t t') (or_left_comm (is_closing next) c c') kept
advance-IsOrderlyWith (suc n) d (g ∷ gs) m t c h =
    let (d', gs') = advance n d gs in
    let kept =
      advance-IsOrderlyWith n d gs (m || is_marking g) (t || is_telling g) (c || is_closing g) (
        moved d (or_assoc m (is_marking g) (any_of is_marking gs))
          (or_assoc t (is_telling g) (any_of is_telling gs))
          (or_assoc c (is_closing g) (any_of is_closing gs)) h) in
    moved d' (sym (or_assoc m (is_marking g) (any_of is_marking gs')))
      (sym (or_assoc t (is_telling g) (any_of is_telling gs')))
      (sym (or_assoc c (is_closing g) (any_of is_closing gs'))) kept

step-IsOrderly :
    (d : Daemon) (gs : List Goroutine) (e : DaemonEvent)
    → IsOrderly d gs
    → let (d', gs') = step d gs e in IsOrderly d' gs'
unfolding IsOrderly step listen register_connection mark_connection_active remove_connection
    mark_activity close_stop_ack any_of is_marking is_telling is_closing
step-IsOrderly d gs listens h =
    if-intro (λ (r : Daemon × Bool). IsOrderly r.0 gs) d.stopping (λ _. h)
      (λ e. record {
        bounded = h.bounded;
        stops_first = h.stops_first;
        admits_nothing = h.admits_nothing;
        admission_first = h.admission_first;
        marked_first = h.marked_first;
        told = h.told;
        hears_nothing = rw e refl;
      })
step-IsOrderly d gs acknowledges h =
    Option-intro (λ d'. IsOrderly d' gs) d.stop_ack (λ _. h)
      (λ closed _. record {
        bounded = h.bounded;
        stops_first = h.stops_first;
        admits_nothing = h.admits_nothing;
        admission_first = h.admission_first;
        marked_first = h.marked_first;
        told = h.told;
        hears_nothing = h.hears_nothing;
      })
step-IsOrderly d gs (accepts conn) h =
    if-intro (λ (r : Daemon × Bool). IsOrderly r.0 gs)
      (d.stopping || leb d.options.max_connections (length d.connections)) (λ _. h)
      (λ e. record {
        bounded = let more = length-set_connection conn false d.connections in ground arith;
        stops_first = h.stops_first;
        admits_nothing = h.admits_nothing;
        admission_first = h.admission_first;
        marked_first = h.marked_first;
        told = h.told;
        hears_nothing = h.hears_nothing;
      })
step-IsOrderly d gs (activates conn) h = record {
  bounded = rw (length-mark_connection conn d.connections) h.bounded;
  stops_first = h.stops_first;
  admits_nothing = h.admits_nothing;
  admission_first = h.admission_first;
  marked_first = h.marked_first;
  told = h.told;
  hears_nothing = h.hears_nothing;
}
step-IsOrderly d gs (removes conn) h = record {
  bounded =
      let fewer = length-without conn d.connections in
      let bound = h.bounded in omega (arith, fewer, bound);
  stops_first = h.stops_first;
  admits_nothing = h.admits_nothing;
  admission_first = h.admission_first;
  marked_first = h.marked_first;
  told = h.told;
  hears_nothing = h.hears_nothing;
}
step-IsOrderly d gs (works now) h = record {
  bounded = h.bounded;
  stops_first = h.stops_first;
  admits_nothing = h.admits_nothing;
  admission_first = h.admission_first;
  marked_first = h.marked_first;
  told = h.told;
  hears_nothing = h.hears_nothing;
}
step-IsOrderly d gs (cleans now) h = h
step-IsOrderly d gs (requests_stop with_ack) h = h
step-IsOrderly d gs (advances n) h = advance-IsOrderlyWith n d gs false false false h

-- Whatever the goroutines of a daemon do, in any order, and wherever each of those that stop it or clean
-- up stands between its locks, the daemon stays orderly: its connections are within their limit; its
-- service admits nothing from before the daemon is marked as stopping; when it is marked, those that
-- wait for its stop have been told or a goroutine is about to tell them, and its listener is not open or
-- a goroutine is about to close it.
pub run-IsOrderly :
    (d : Daemon) (gs : List Goroutine) (events : List DaemonEvent)
    → IsOrderly d gs
    → let (d', gs') = run d gs events in IsOrderly d' gs'
unfolding run
run-IsOrderly d gs [] h = h
run-IsOrderly d gs (e ∷ events) h =
    let (d', gs') = step d gs e in run-IsOrderly d' gs' events (step-IsOrderly d gs e h)
