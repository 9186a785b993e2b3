-- ===== src/Remote/Protocol.antt =====
-- internal/remote/protocol.go: the requests of a remote client and their validation. A
-- `*ProtocolError` that may be nil is an Option; an error keeps its code and which rule was broken.
pub mod Requests
mod Examples
use ptymux.Server.Protocol.{
  InvalidRequest, is_empty, max_action_bytes, one_of, validate_command, validate_complete_target,
  validate_read_count, validate_target_prefix,
}
use ptymux.Std.Strconv.{ℤ, pos, negsuc}
use ptymux.Std.Utf8.{valid}
use ptymux.Prelude.{
  ℕ, zero, suc, ◌+◌, ◌-◌, ◌*◌, ◌/◌, ◌%◌, ◌^◌, ◌≤◌, ◌<◌, min, ◌≡◌, refl, sym, ap, ◌∙◌, subst, ◌≢◌,
  ◌↔◌, ◌⊎◌, inl, inr, Bool, true, false, not, ◌&&◌, ◌||◌, Option, none, some, List, [], ◌∷◌, ◌++◌,
  map, append_assoc, append-nil, arith, ltb, leb, ◌==◌, if◌then◌else◌, ltb→lt, lt→ltb, leb→le,
  ==_iff, tests, Bool-cases, Option-cases, length, set, take, drop, length-append, length-set,
  take-append-drop, length-take, length-drop, take-of-length-le, take-length-append,
  drop-length-append, All, All-append, All-take, All-drop, Bytes, codes, bytes_eq, bytes_eq_refl,
  bytes_eq_iff, if-intro, take-append-of-le, drop-append-of-le,
}

abbrev pub protocol_version : ℕ
protocol_version = 1

abbrev pub max_request_id_bytes : ℕ
max_request_id_bytes = 128

pub record Target : Type 0 where
  pub session : Bytes
  pub pane : Bytes
  pub tab : Bytes

pub record RemoteRequest : Type 0 where
  pub version : ℤ
  pub id : Bytes
  pub operation : Bytes
  pub target : Target
  pub input : Bytes
  pub read_count : ℤ

-- The codes, and for ErrorBadRequest the rule.
pub data ProtocolError : Type 0 where
  unsupported_version invalid_request_id invalid_operation invalid_input : ProtocolError
  invalid_read_count invalid_target : ProtocolError

pub valid_request_id : Bytes → Bool
valid_request_id id = not (is_empty id) && (valid id && leb (length id) max_request_id_bytes)

is_protocol_version : ℤ → Bool
is_protocol_version (pos n) = n == protocol_version
is_protocol_version (negsuc n) = false

-- `if err := ...; err != nil`, with the error that is returned
abbrev replaced :
    Option InvalidRequest → ProtocolError → Option ProtocolError → Option ProtocolError
replaced none e rest = rest
replaced (some x) e rest = some e

abbrev pub target_operations : List Bytes
target_operations =
    codes "create"
    ∷ codes "send"
    ∷ codes "text"
    ∷ codes "keys"
    ∷ codes "read"
    ∷ codes "follow"
    ∷ codes "close"
    ∷ []

-- the switch on the operation
pub validate_operation_target : Bytes → Target → Option ProtocolError
unfolding one_of
validate_operation_target operation t =
    if bytes_eq operation (codes "list")
    then replaced (validate_target_prefix t.session t.pane t.tab) invalid_target none
    else if one_of operation target_operations
    then replaced (validate_complete_target t.session t.pane t.tab) invalid_target none
    else some invalid_operation

pub validate_remote_request : RemoteRequest → Option ProtocolError
unfolding is_protocol_version
validate_remote_request request =
    if not (is_protocol_version request.version)
    then some unsupported_version
    else if not (valid_request_id request.id)
    then some invalid_request_id
    else if not (valid request.operation) || ltb max_action_bytes (length request.operation)
    then some invalid_operation
    else replaced (validate_command request.input) invalid_input (
        replaced (validate_read_count request.read_count) invalid_read_count
          (validate_operation_target request.operation request.target))
