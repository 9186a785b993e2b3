-- ===== src/Server/Protocol/Examples.antt =====
-- The theorems on requests at concrete inputs.
use ptymux.Server.Protocol.{
  Request, one_of, tab_actions, validate_request, validate_complete_target, validate_action,
  validate_command, validate_read_count, validate_wait, validate_action_target,
  validate_target_component,
}
use ptymux.Server.Protocol.Requests.{IsSafe, validate_request-IsSafe}
use ptymux.Std.Strconv.{pos}
use ptymux.Std.Utf8.{runes, valid}
use ptymux.Prelude.{◌≡◌, refl, true, false, none, [], codes, bytes_eq}

abbrev follow_request : Request
follow_request = record {
  action = codes "follow";
  session = codes "work";
  pane = codes "1";
  tab = codes "build";
  command = [];
  follow = false;
  wait_millis = pos 0;
  read_count = pos 0;
  stream_version = pos 1;
  stream_action = [];
}

accepted : validate_request follow_request ≡ none
unfolding validate_request validate_action valid validate_command validate_read_count validate_wait
    validate_action_target bytes_eq validate_complete_target validate_target_component runes
accepted = refl

addresses_tab : one_of follow_request.action tab_actions ≡ true
unfolding one_of bytes_eq
addresses_tab = refl

validate_request-IsSafe_example : IsSafe follow_request
validate_request-IsSafe_example = validate_request-IsSafe follow_request addresses_tab accepted
