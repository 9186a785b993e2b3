-- ===== src/App/Target/Examples.antt =====
-- The theorem on target paths at a concrete input.
use ptymux.App.Target.{Names, apply_target}
use ptymux.App.Target.Paths.{apply_target-join}
use ptymux.Server.Protocol.{validate_complete_target, validate_target_component}
use ptymux.Std.Strings.{join}
use ptymux.Std.Utf8.{valid, runes}
use ptymux.Prelude.{◌≡◌, refl, false, none, some, [], ◌∷◌, codes}

abbrev defaults : Names
defaults = record { session = []; pane = codes "default"; tab = codes "default" }

build_accepted : validate_complete_target (codes "work") (codes "1") (codes "build") ≡ none
unfolding validate_complete_target validate_target_component valid runes
build_accepted = refl

apply_target-join_example :
    apply_target defaults (join (b'/' ∷ []) (codes "work" ∷ codes "1" ∷ codes "build" ∷ [])) false
    ≡ some (record { session = codes "work"; pane = codes "1"; tab = codes "build" })
apply_target-join_example =
    apply_target-join defaults false (codes "work") (codes "1") (codes "build") build_accepted
