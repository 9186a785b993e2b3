-- ===== src/Server/Uses/Examples.antt =====
-- The theorem on idle tabs at a concrete input.
use ptymux.Server.Uses.{Store, close_idle_targets}
use ptymux.Server.Uses.Idle.{IsIdle, close_idle_targets-IsIdle}
use ptymux.Prelude.{[], ◌∷◌, All, codes}

-- one tab that was used at 5 and is not in use
abbrev one_idle : Store
one_idle = record {
  sessions =
      (
        codes "work",
        record {
          name = codes "work";
          panes = (codes "1", record { name = codes "1"; tabs = (codes "build", 0) ∷ [] }) ∷ [];
        },
      )
      ∷ [];
  starting = [];
  tabs = record { name = codes "build"; last_used_at = 5; active = 0 } ∷ [];
  targets = [];
}

close_idle_targets-IsIdle_example :
    All (IsIdle 100 60 one_idle.tabs) (close_idle_targets one_idle 100 60).1
close_idle_targets-IsIdle_example = close_idle_targets-IsIdle one_idle 100 60
