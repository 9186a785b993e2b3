-- ===== src/App/Target.antt =====
-- internal/app/parse.go: how a target on the command line sets the names of a configuration.
pub mod Paths
mod Examples
use ptymux.Server.Protocol.{is_empty}
use ptymux.Std.Strings.{split, join}
use ptymux.Prelude.{
  ℕ, zero, suc, ◌+◌, ◌-◌, ◌*◌, ◌/◌, ◌%◌, ◌^◌, ◌≤◌, ◌<◌, min, ◌≡◌, refl, sym, ap, ◌∙◌, subst, ◌≢◌,
  ◌↔◌, ◌⊎◌, inl, inr, Bool, true, false, not, ◌&&◌, ◌||◌, Option, none, some, List, [], ◌∷◌, ◌++◌,
  map, append_assoc, append-nil, arith, ltb, leb, ◌==◌, if◌then◌else◌, ltb→lt, lt→ltb, leb→le,
  ==_iff, tests, Bool-cases, Option-cases, length, set, take, drop, length-append, length-set,
  take-append-drop, length-take, length-drop, take-of-length-le, take-length-append,
  drop-length-append, All, All-append, All-take, All-drop, Bytes, codes, bytes_eq, bytes_eq_refl,
  bytes_eq_iff, if-intro, take-append-of-le, drop-append-of-le,
}

-- the fields of `Config` that a target sets
pub record Names : Type 0 where
  pub session : Bytes
  pub pane : Bytes
  pub tab : Bytes

unfoldable pub any_empty : List Bytes → Bool
any_empty [] = false
any_empty (p ∷ ps) = let rest = any_empty ps in if is_empty p then true else rest

-- A part that is missing is cleared for a partial target, and else keeps its default.
abbrev missing : Bool → Bytes → Bytes
missing partial old = if partial then [] else old

assign : Names → Bool → List Bytes → Option Names
assign cfg partial [] = none
assign cfg partial (a ∷ []) =
    some (record { session = a; pane = missing partial cfg.pane; tab = missing partial cfg.tab })
assign cfg partial (a ∷ b ∷ []) =
    some (record { session = a; pane = b; tab = missing partial cfg.tab })
assign cfg partial (a ∷ b ∷ c ∷ []) = some (record { session = a; pane = b; tab = c })
assign cfg partial (a ∷ b ∷ c ∷ d ∷ ps) = none

checked : Names → Bool → List Bytes → Option Names
unfolding assign any_empty
checked cfg partial parts =
    if ltb 3 (length parts) || any_empty parts then none else assign cfg partial parts

-- `none` is the error of an invalid target.
pub apply_target : Names → Bytes → Bool → Option Names
unfolding checked split
apply_target cfg target partial = checked cfg partial (split b'/' target)

-- The names and the command, the words behind the target; `none` is an error.
pub apply_command_target : Names → List Bytes → Option (Names × Bytes)
apply_command_target cfg (target ∷ word ∷ words) = elim (apply_target cfg target false) [
  | none ↦ none
  | some names ↦ some (names, join (b' ' ∷ []) (word ∷ words))
]
apply_command_target cfg _ = none

pub apply_target_only : Names → List Bytes → Option Names
apply_target_only cfg (target ∷ []) = apply_target cfg target false
apply_target_only cfg _ = none
