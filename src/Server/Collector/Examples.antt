-- ===== src/Server/Collector/Examples.antt =====
-- The theorems on the collector at concrete inputs.
use ptymux.Server.Collector.{RunCollector, new_run_collector, append_output}
use ptymux.Server.Collector.Window.{IsWindow, append_output-IsWindow}
use ptymux.Prelude.{refl, ◌++◌, codes}

-- a collector for 4 bytes that has seen "abc"
abbrev part_full : RunCollector
part_full = record (new_run_collector (codes "__DONE__") 4) { output = codes "abc" }

append_output-IsWindow_example :
    IsWindow (append_output part_full (codes "def")) (codes "abc" ++ codes "def")
append_output-IsWindow_example =
    append_output-IsWindow part_full (codes "abc") (codes "def")
      (record { kept = refl; cut = refl })
