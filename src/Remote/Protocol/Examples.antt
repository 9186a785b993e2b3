-- ===== src/Remote/Protocol/Examples.antt =====
-- The theorem on remote requests at a concrete input.
use ptymux.Server.Protocol.{
  is_empty, one_of, validate_command, validate_complete_target, validate_read_count,
  validate_target_component,
}
use ptymux.Remote.Protocol.{
  RemoteRequest, target_operations, valid_request_id, validate_operation_target,
  validate_remote_request,
}
use ptymux.Remote.Protocol.Requests.{IsSafeRemote, validate_remote_request-IsSafeRemote}
use ptymux.Std.Strconv.{pos}
use ptymux.Std.Utf8.{valid, runes}
use ptymux.Prelude.{◌≡◌, refl, true, none, codes, bytes_eq}

abbrev send_request : RemoteRequest
send_request = record {
  version = pos 1;
  id = codes "7";
  operation = codes "send";
  target = record { session = codes "work"; pane = codes "1"; tab = codes "build" };
  input = codes "make";
  read_count = pos 0;
}

sends : one_of send_request.operation target_operations ≡ true
unfolding one_of bytes_eq
sends = refl

send_accepted : validate_remote_request send_request ≡ none
unfolding validate_remote_request valid_request_id valid validate_operation_target one_of bytes_eq
    is_empty validate_command validate_read_count validate_complete_target validate_target_component
    runes
send_accepted = refl

validate_remote_request-IsSafeRemote_example : IsSafeRemote send_request
validate_remote_request-IsSafeRemote_example =
    validate_remote_request-IsSafeRemote send_request sends send_accepted
