-- ===== src/Server/Daemon/Examples.antt =====
-- The theorem on daemons at a concrete input.
use ptymux.Server.Daemon.{Daemon, no_listener, default_max_connections}
use ptymux.Server.Daemon.Lifecycle.{
  DaemonEvent, listens, accepts, activates, cleans, requests_stop, advances, acknowledges, run,
  any_of, IsOrderly, run-IsOrderly,
}
use ptymux.Prelude.{refl, true, false, none, List, [], ◌∷◌, arith}

abbrev fresh_daemon : Daemon
fresh_daemon = record {
  service = record {
    store = record { sessions = []; starting = []; tabs = []; targets = [] };
    stopping = false;
    operations = 0;
  };
  options = record {
    enabled = true;
    target_idle_timeout = 60;
    daemon_idle_timeout = 600;
    max_connections = default_max_connections;
  };
  listener = no_listener;
  connections = [];
  stopping = false;
  stop_ack = none;
  stopped = false;
  last_activity = 1;
}

fresh_daemon-IsOrderly : IsOrderly fresh_daemon []
unfolding IsOrderly any_of
fresh_daemon-IsOrderly = record {
  bounded = omega arith;
  stops_first = refl;
  admits_nothing = refl;
  admission_first = refl;
  marked_first = refl;
  told = refl;
  hears_nothing = refl;
}

-- Two goroutines stop the daemon while clients come: one is told to by a client, one by the clean-up.
abbrev stopped_twice : List DaemonEvent
stopped_twice =
    listens
    ∷ accepts 1
    ∷ activates 1
    ∷ cleans 900
    ∷ advances 0
    ∷ advances 0
    ∷ requests_stop true
    ∷ advances 0
    ∷ advances 1
    ∷ advances 0
    ∷ accepts 2
    ∷ advances 1
    ∷ advances 0
    ∷ advances 1
    ∷ advances 0
    ∷ advances 1
    ∷ advances 1
    ∷ acknowledges
    ∷ []

run-IsOrderly_example : let (d, gs) = run fresh_daemon [] stopped_twice in IsOrderly d gs
run-IsOrderly_example = run-IsOrderly fresh_daemon [] stopped_twice fresh_daemon-IsOrderly
