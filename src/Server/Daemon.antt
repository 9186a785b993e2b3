-- ===== src/Server/Daemon.antt =====
-- internal/server/daemon.go: the connections of a daemon, its stop and its idle release. A connection is
-- a number; a channel is whether it has been closed. An operation that holds one lock is one function of
-- the daemon. `requestStop` and `cleanupIdle` hold several locks in turn: they are goroutines, and a step
-- of one is what it does up to the next place where another goroutine can come between.
pub mod Lifecycle
mod Examples
use ptymux.Server.Service.Targets.{Service}
use ptymux.Server.Service.Handle.{stop_admission}
use ptymux.Server.Uses.{Store, close_idle_targets}
use ptymux.Server.Store.{is_nil}
use ptymux.Std.Strconv.{ℤ, pos, negsuc}
use ptymux.Prelude.{
  ℕ, zero, suc, ◌+◌, ◌-◌, ◌*◌, ◌/◌, ◌%◌, ◌^◌, ◌≤◌, ◌<◌, min, ◌≡◌, refl, sym, ap, ◌∙◌, subst, ◌≢◌,
  ◌↔◌, ◌⊎◌, inl, inr, Bool, true, false, not, ◌&&◌, ◌||◌, Option, none, some, List, [], ◌∷◌, ◌++◌,
  map, append_assoc, append-nil, arith, ltb, leb, ◌==◌, if◌then◌else◌, ltb→lt, lt→ltb, leb→le,
  ==_iff, tests, Bool-cases, Option-cases, length, set, take, drop, length-append, length-set,
  take-append-drop, length-take, length-drop, take-of-length-le, take-length-append,
  drop-length-append, All, All-append, All-take, All-drop, Bytes, codes, bytes_eq, bytes_eq_refl,
  bytes_eq_iff, if-intro, take-append-of-le, drop-append-of-le, Option-intro,
}

pub data Listener : Type 0 where
  no_listener open_listener closed_listener : Listener

-- the options that stay as they are; a duration that is not positive is 0
pub record DaemonOptions : Type 0 where
  pub enabled : Bool
  pub target_idle_timeout : ℕ
  pub daemon_idle_timeout : ℕ
  pub max_connections : ℕ

pub record Daemon : Type 0 where
  pub service : Service
  pub options : DaemonOptions
  pub listener : Listener
  pub connections : List (ℕ × Bool)
  pub stopping : Bool
  pub stop_ack : Option Bool
  pub stopped : Bool
  pub last_activity : ℕ

abbrev pub default_max_connections : ℕ
default_max_connections = 128

pub max_connections_or_default : ℤ → ℕ
max_connections_or_default (pos zero) = default_max_connections
max_connections_or_default (pos (suc n)) = suc n
max_connections_or_default (negsuc n) = default_max_connections

unfoldable pub close_listener : Listener → Listener
close_listener no_listener = no_listener
close_listener open_listener = closed_listener
close_listener closed_listener = closed_listener

-- `Serve` when it has its listener: whether it goes on
pub listen : Daemon → Daemon × Bool
listen d = if d.stopping then (d, false) else (record d { listener = open_listener }, true)

set_connection : ℕ → Bool → List (ℕ × Bool) → List (ℕ × Bool)
set_connection conn active [] = (conn, active) ∷ []
set_connection conn active ((c, a) ∷ connections) =
    let rest = set_connection conn active connections in
    if c == conn then (conn, active) ∷ connections else (c, a) ∷ rest

pub register_connection : Daemon → ℕ → Daemon × Bool
unfolding set_connection
register_connection d conn =
    if d.stopping || leb d.options.max_connections (length d.connections)
    then (d, false)
    else (record d { connections = set_connection conn false d.connections }, true)

mark_connection : ℕ → List (ℕ × Bool) → List (ℕ × Bool)
mark_connection conn [] = []
mark_connection conn ((c, a) ∷ connections) =
    (c, if c == conn then true else a) ∷ mark_connection conn connections

pub mark_connection_active : Daemon → ℕ → Daemon
unfolding mark_connection
mark_connection_active d conn = record d { connections = mark_connection conn d.connections }

without : ℕ → List (ℕ × Bool) → List (ℕ × Bool)
without conn [] = []
without conn ((c, a) ∷ connections) =
    let rest = without conn connections in if c == conn then rest else (c, a) ∷ rest

pub remove_connection : Daemon → ℕ → Daemon
unfolding without
remove_connection d conn = record d { connections = without conn d.connections }

-- the connections that `closeReadingConnections` closes
pub reading_connections : List (ℕ × Bool) → List ℕ
reading_connections [] = []
reading_connections ((c, a) ∷ connections) =
    let rest = reading_connections connections in if a then rest else c ∷ rest

-- What a `requestStop` does next: its argument, or whether it found a listener and which
-- acknowledgement it returns
pub data StopStage : Type 0 where
  admitting marking : Bool → StopStage
  telling closing : Bool → Option Bool → StopStage
  returned : Option Bool → StopStage

has_listener : Listener → Bool
has_listener no_listener = false
has_listener _ = true

-- what `requestStop` does under `lifecycleMu`. The acknowledgement is that of the first stop.
pub mark_stopping : Daemon → Bool → Daemon × StopStage
unfolding has_listener
mark_stopping d with_ack =
    let ack = if d.stopping then d.stop_ack else if with_ack then some false else d.stop_ack in
    (record d { stopping = true; stop_ack = ack }, telling (has_listener d.listener) ack)

-- `StopAdmission`, the section of `lifecycleMu`, `close(d.stopped)` and `listener.Close()`
pub request_stop : Daemon → StopStage → Daemon × StopStage
unfolding close_listener
request_stop d (admitting with_ack) =
    (record d { service = stop_admission d.service }, marking with_ack)
request_stop d (marking with_ack) = mark_stopping d with_ack
request_stop d (telling heard ack) = (record d { stopped = true }, closing heard ack)
request_stop d (closing heard ack) =
    (if heard then record d { listener = close_listener d.listener } else d, returned ack)
request_stop d (returned ack) = (d, returned ack)

-- what `handle` does when it has answered a stop
pub close_stop_ack : Daemon → Daemon
close_stop_ack d = elim d.stop_ack [ none ↦ d | some closed ↦ record d { stop_ack = some true } ]

pub mark_activity : Daemon → ℕ → Daemon
mark_activity d now = record d { last_activity = now }

-- A goroutine that stops the daemon, or that is in `cleanupIdle` with its time: before
-- `CloseIdleTargets`, before `Empty`, before it reads the last activity, or over
pub data Goroutine : Type 0 where
  sweeping looking timing : ℕ → Goroutine
  stops : StopStage → Goroutine
  over : Goroutine

-- The tabs that a sweep takes out of the store are closed by then.
pub cleanup_idle : Daemon → Goroutine → Daemon × Goroutine
unfolding is_nil
cleanup_idle d (sweeping now) =
    let store = (close_idle_targets d.service.store now d.options.target_idle_timeout).0 in
    if not d.options.enabled
    then (d, over)
    else (record d { service = record d.service { store = store } }, looking now)
cleanup_idle d (looking now) =
    if d.options.daemon_idle_timeout == 0 || not (is_nil d.service.store.sessions)
    then (d, over)
    else (d, timing now)
cleanup_idle d (timing now) =
    let idle_for = now - d.last_activity in
    if leb d.options.daemon_idle_timeout idle_for then (d, stops (admitting false)) else (d, over)
cleanup_idle d (stops stage) = let (d', next) = request_stop d stage in (d', stops next)
cleanup_idle d over = (d, over)
