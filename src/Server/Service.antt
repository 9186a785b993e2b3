-- ===== src/Server/Service.antt =====
-- internal/server/service.go: the validation of a request whose answer is streamed.
pub mod Targets
pub mod Handle
use ptymux.Server.Keys.{
  KeyError, KeyResult, ok, err, parse_key_sequence, parse_key_sequence_no_enter,
}
use ptymux.Server.Protocol.{InvalidRequest, Request, validate_request}
use ptymux.Prelude.{
  ℕ, zero, suc, ◌+◌, ◌-◌, ◌*◌, ◌/◌, ◌%◌, ◌^◌, ◌≤◌, ◌<◌, min, ◌≡◌, refl, sym, ap, ◌∙◌, subst, ◌≢◌,
  ◌↔◌, ◌⊎◌, inl, inr, Bool, true, false, not, ◌&&◌, ◌||◌, Option, none, some, List, [], ◌∷◌, ◌++◌,
  map, append_assoc, append-nil, arith, ltb, leb, ◌==◌, if◌then◌else◌, ltb→lt, lt→ltb, leb→le,
  ==_iff, tests, Bool-cases, Option-cases, length, set, take, drop, length-append, length-set,
  take-append-drop, length-take, length-drop, take-of-length-le, take-length-append,
  drop-length-append, All, All-append, All-take, All-drop, Bytes, codes, bytes_eq, bytes_eq_refl,
  bytes_eq_iff, if-intro, take-append-of-le, drop-append-of-le, Option-intro,
}

pub data StreamRequestError : Type 0 where
  invalid : InvalidRequest → StreamRequestError
  bad_keys : KeyError → StreamRequestError

abbrev pub error_of : KeyResult → Option StreamRequestError
error_of (ok keys) = none
error_of (err e) = some (bad_keys e)

module _ (to_lower : Bytes → Bytes) where
  pub validate_stream_keys : Bytes → Bytes → Option StreamRequestError
  unfolding bytes_eq
  validate_stream_keys action command =
      if bytes_eq action (codes "command")
      then error_of (parse_key_sequence to_lower command)
      else if bytes_eq action (codes "keys")
      then error_of (parse_key_sequence_no_enter to_lower command)
      else none

  unfoldable pub validate_stream_request : Request → Option StreamRequestError
  unfolding validate_stream_keys
  validate_stream_request req = elim (validate_request req) [
    | some e ↦ some (invalid e)
    | none ↦ validate_stream_keys req.action req.command
  ]
