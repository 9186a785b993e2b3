-- ===== src/Server/Uses/Interleaving/Examples.antt =====
-- The theorems on interleavings at concrete inputs.
use ptymux.Server.Uses.{
  TargetKey, close_idle_targets, enter, find_or_start, start_or_wait, close_target, cancel,
}
use ptymux.Server.Protocol.{validate_complete_target, validate_target_component}
use ptymux.Std.Utf8.{runes, valid}
use ptymux.Server.Store.{find_tab}
use ptymux.Server.Uses.Interleaving.{
  Event, enters, ends_start, closes, closes_idle, count, run, step, entered, initial,
}
use ptymux.Server.Uses.Interleaving.Heap.{active_at}
use ptymux.Server.Uses.Interleaving.Steps.{run-active_at, close_idle_targets-count}
use ptymux.Server.Uses.Interleaving.Starts.{done_at}
use ptymux.Server.Uses.Interleaving.Waits.{endings, run-endings}
use ptymux.Prelude.{◌≡◌, refl, sym, true, none, List, [], ◌∷◌, length, All, codes}

abbrev build : TargetKey
build = record { session = codes "work"; pane = codes "1"; tab = codes "build" }

-- A start whose tab is used then, while the target is closed.
abbrev used_then_closed : List Event
used_then_closed =
    enters build 1 true ∷ ends_start 0 none none 2 ∷ closes build true ∷ closes_idle 100 5 ∷ []

-- A start that is canceled before its runner is there.
abbrev canceled_start : List Event
canceled_start = enters build 1 true ∷ closes build true ∷ []

run-active_at_example :
    active_at (run initial used_then_closed).store.tabs 0
    ≡ count 0 (run initial used_then_closed).uses
run-active_at_example = run-active_at used_then_closed 0

close_idle_targets-count_example :
    All
      (λ tab. count tab (run initial used_then_closed).uses ≡ 0)
      (close_idle_targets (run initial used_then_closed).store 100 5).1
close_idle_targets-count_example = close_idle_targets-count used_then_closed 100 5

one_flight : length (run initial canceled_start).flights ≡ 1
unfolding run step entered enter find_or_start start_or_wait validate_complete_target find_tab
    close_target cancel validate_target_component valid runes
one_flight = refl

run-endings_example :
    done_at (run (run initial canceled_start) (endings ((none, none, 3) ∷ []))).store.targets 0
    ≡ true
run-endings_example = run-endings canceled_start ((none, none, 3) ∷ []) 0 (sym one_flight)
