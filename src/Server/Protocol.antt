-- ===== src/Server/Protocol.antt =====
-- internal/server/protocol.go: the requests that a client may send and their validation. An error
-- value that may be nil is an Option; an error keeps which rule was broken, not its message.
mod Examples
pub mod Targets
pub mod Requests
use ptymux.Std.Utf8.{runes, valid}
use ptymux.Std.Strconv.{ℤ, pos, negsuc}
use ptymux.Prelude.{
  ℕ, zero, suc, ◌+◌, ◌-◌, ◌*◌, ◌/◌, ◌%◌, ◌^◌, ◌≤◌, ◌<◌, min, ◌≡◌, refl, sym, ap, ◌∙◌, subst, ◌≢◌,
  ◌↔◌, ◌⊎◌, inl, inr, Bool, true, false, not, ◌&&◌, ◌||◌, Option, none, some, List, [], ◌∷◌, ◌++◌,
  map, append_assoc, append-nil, arith, ltb, leb, ◌==◌, if◌then◌else◌, ltb→lt, lt→ltb, leb→le,
  ==_iff, tests, Bool-cases, Option-cases, length, set, take, drop, length-append, length-set,
  take-append-drop, length-take, length-drop, take-of-length-le, take-length-append,
  drop-length-append, All, All-append, All-take, All-drop, Bytes, codes, bytes_eq, bytes_eq_refl,
  bytes_eq_iff, if-intro, take-append-of-le, drop-append-of-le,
}

abbrev pub max_target_component_bytes : ℕ
max_target_component_bytes = 64

abbrev pub max_action_bytes : ℕ
max_action_bytes = 32

abbrev pub max_command_bytes : ℕ
max_command_bytes = 131072

abbrev pub max_read_count : ℕ
max_read_count = 4096

pub record Request : Type 0 where
  pub action : Bytes
  pub session : Bytes
  pub pane : Bytes
  pub tab : Bytes
  pub command : Bytes
  pub follow : Bool
  pub wait_millis : ℤ
  pub read_count : ℤ
  pub stream_version : ℤ
  pub stream_action : Bytes

pub data Field : Type 0 where
  session_field pane_field tab_field : Field

pub data InvalidRequest : Type 0 where
  action_required action_invalid : InvalidRequest
  component_required component_not_utf8 component_too_long component_reserved :
      Field → InvalidRequest
  prefix_requires_session prefix_requires_pane : InvalidRequest
  input_not_utf8 input_too_long read_count_out_of_range negative_wait : InvalidRequest

-- `if err := ...; err != nil { return err }`, and what follows
infixr 4 ◌or_else◌
abbrev pub ◌or_else◌ : Option InvalidRequest → Option InvalidRequest → Option InvalidRequest
none or_else rest = rest
some e or_else rest = some e

unfoldable pub is_empty : Bytes → Bool
is_empty [] = true
is_empty (c ∷ s) = false

unfoldable pub validate_action : Bytes → Option InvalidRequest
unfolding is_empty
validate_action action =
    if is_empty action
    then some action_required
    else if not (valid action) || ltb max_action_bytes (length action)
    then some action_invalid
    else none

-- unicode.IsControl: the category Cc
unfoldable pub is_control : ℕ → Bool
is_control r = ltb r 0x20 || (leb 0x7f r && ltb r 0xa0)

unfoldable pub is_reserved : ℕ → Bool
unfolding is_control
is_reserved r = r == b'/' || r == 0 || is_control r

unfoldable pub any_reserved : List ℕ → Bool
unfolding is_reserved
any_reserved [] = false
any_reserved (r ∷ rs) = let rest = any_reserved rs in if is_reserved r then true else rest

unfoldable pub validate_target_component : Field → Bytes → Option InvalidRequest
unfolding is_empty any_reserved
validate_target_component field value =
    if is_empty value
    then some (component_required field)
    else if not (valid value)
    then some (component_not_utf8 field)
    else if ltb max_target_component_bytes (length value)
    then some (component_too_long field)
    else if any_reserved (runes value)
    then some (component_reserved field)
    else none

unfoldable pub validate_complete_target : Bytes → Bytes → Bytes → Option InvalidRequest
validate_complete_target session pane tab =
    validate_target_component session_field session
    or_else validate_target_component pane_field pane
    or_else validate_target_component tab_field tab

pub validate_target_prefix : Bytes → Bytes → Bytes → Option InvalidRequest
validate_target_prefix session pane tab =
    if is_empty session
    then (if not (is_empty pane) || not (is_empty tab) then some prefix_requires_session else none)
    else validate_target_component session_field session
      or_else (if is_empty pane
          then (if not (is_empty tab) then some prefix_requires_pane else none)
          else validate_target_component pane_field pane
            or_else (if is_empty tab then none else validate_target_component tab_field tab))

unfoldable pub validate_command : Bytes → Option InvalidRequest
validate_command command =
    if not (valid command)
    then some input_not_utf8
    else if ltb max_command_bytes (length command)
    then some input_too_long
    else none

unfoldable pub validate_read_count : ℤ → Option InvalidRequest
validate_read_count (pos n) = if ltb max_read_count n then some read_count_out_of_range else none
validate_read_count (negsuc n) = some read_count_out_of_range

unfoldable pub one_of : Bytes → List Bytes → Bool
one_of s [] = false
one_of s (t ∷ ts) = bytes_eq s t || one_of s ts

pub is_stream_request : Request → Bool
is_stream_request req =
    bytes_eq req.action (codes "follow")
    || bytes_eq req.action (codes "ctrl-c")
    || (bytes_eq req.action (codes "send") && req.follow)
    || (bytes_eq req.action (codes "command") && req.follow)
    || (bytes_eq req.action (codes "keys") && req.follow)

unfoldable pub validate_wait : ℤ → Option InvalidRequest
validate_wait (pos n) = none
validate_wait (negsuc n) = some negative_wait

-- the actions of `case "close", "create", ...`, which address one tab
abbrev pub tab_actions : List Bytes
tab_actions =
    codes "close"
    ∷ codes "create"
    ∷ codes "run"
    ∷ codes "idle"
    ∷ codes "send"
    ∷ codes "text"
    ∷ codes "command"
    ∷ codes "keys"
    ∷ codes "read"
    ∷ codes "follow"
    ∷ codes "ctrl-c"
    ∷ []

-- the switch on the action
unfoldable pub validate_action_target : Bytes → Bytes → Bytes → Bytes → Option InvalidRequest
unfolding one_of
validate_action_target action session pane tab =
    if one_of action (codes "daemon" ∷ codes "stop" ∷ [])
    then none
    else if bytes_eq action (codes "list")
    then validate_target_prefix session pane tab
    else if bytes_eq action (codes "kill")
    then (if is_empty session && is_empty pane && is_empty tab
        then none
        else validate_complete_target session pane tab)
    else if one_of action tab_actions
    then validate_complete_target session pane tab
    else none

unfoldable pub validate_request : Request → Option InvalidRequest
validate_request req =
    validate_action req.action
    or_else validate_command req.command
    or_else validate_read_count req.read_count
    or_else validate_wait req.wait_millis
    or_else validate_action_target req.action req.session req.pane req.tab
