-- ===== src/App/Target/Paths.antt =====
-- A target that the daemon accepts is what the command line reads from its path.
use ptymux.App.Target.{Names, any_empty, checked, apply_target}
use ptymux.Server.Protocol.{is_empty, validate_complete_target}
use ptymux.Server.Protocol.Targets.{
  validate_complete_target-IsTarget, split-join-validate_complete_target,
}
use ptymux.Std.Strings.{join}
use ptymux.Prelude.{◌<◌, ◌≡◌, refl, ap, ◌∙◌, Bool, false, none, some, [], ◌∷◌, arith, length, Bytes}

is_empty_of_nonempty : (s : Bytes) → 0 < length s → is_empty s ≡ false
unfolding is_empty
is_empty_of_nonempty [] h = absurd (omega arith)
is_empty_of_nonempty (c ∷ s) h = refl

-- The path of a target that the daemon accepts is read as that target, whatever the defaults are
-- and whether a partial target is allowed.
pub apply_target-join :
    (cfg : Names) (partial : Bool) (session pane tab : Bytes)
    → validate_complete_target session pane tab ≡ none
    → apply_target cfg (join (b'/' ∷ []) (session ∷ pane ∷ tab ∷ [])) partial
      ≡ some (record { session = session; pane = pane; tab = tab })
unfolding apply_target checked any_empty
apply_target-join cfg partial session pane tab h =
    let v = validate_complete_target-IsTarget session pane tab h in
    let s = is_empty_of_nonempty session v.session_ok.nonempty in
    let p = is_empty_of_nonempty pane v.pane_ok.nonempty in
    let t = is_empty_of_nonempty tab v.tab_ok.nonempty in
    ap (checked cfg partial) (split-join-validate_complete_target session pane tab h)
    ∙ rw (s, p, t) refl
