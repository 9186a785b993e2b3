-- ===== src/Remote/Protocol/Requests.antt =====
-- What an accepted remote request looks like.
use ptymux.Server.Protocol.{
  InvalidRequest, one_of, validate_command, validate_complete_target, validate_read_count,
  max_command_bytes,
}
use ptymux.Server.Protocol.Targets.{IsTarget, validate_complete_target-IsTarget}
use ptymux.Server.Protocol.Requests.{validate_command-bounds, one_of-All}
use ptymux.Remote.Protocol.{
  Target, RemoteRequest, ProtocolError, invalid_target, replaced, target_operations,
  valid_request_id, validate_operation_target, validate_remote_request,
}
use ptymux.Std.Utf8.{valid}
use ptymux.Prelude.{
  ◌≤◌, ◌≡◌, refl, sym, ◌∙◌, Bool, true, false, not, Option, none, some, arith, if◌then◌else◌,
  length, Bytes, bytes_eq,
}

replaced-none :
    (a : Option InvalidRequest) (e : ProtocolError) (b : Option ProtocolError)
    → replaced a e b ≡ none
    → (a ≡ none) × (b ≡ none)
replaced-none none e b h = (refl, h)
replaced-none (some x) e b h = cc

if-none :
    (c : Bool) (e : ProtocolError) (b : Option ProtocolError)
    → (if c then some e else b) ≡ none
    → (c ≡ false) × (b ≡ none)
if-none true e b h = cc
if-none false e b h = (refl, h)

-- The switch sends an operation of the second case to the check of a complete target.
operation_target :
    (operation : Bytes) (t : Target)
    → one_of operation target_operations ≡ true
    → validate_operation_target operation t ≡ none
    → validate_complete_target t.session t.pane t.tab ≡ none
unfolding validate_operation_target bytes_eq one_of
operation_target operation t o h =
    let P : Bytes → Type 0 = λ x.
      validate_operation_target x t
      ≡ replaced (validate_complete_target t.session t.pane t.tab) invalid_target none in
    let switch : P operation =
      one_of-All P operation target_operations o
        (refl, (refl, (refl, (refl, (refl, (refl, (refl, tt))))))) in
    (replaced-none (validate_complete_target t.session t.pane t.tab) invalid_target none
      (sym switch ∙ h)).0

-- What the handlers may rely on.
pub record IsSafeRemote (request : RemoteRequest) : Type 0 where
  pub id_ok : valid_request_id request.id ≡ true
  pub target_ok : IsTarget request.target.session request.target.pane request.target.tab
  pub utf8 : valid request.input ≡ true
  pub bounded : length request.input ≤ max_command_bytes

-- A remote request whose operation addresses one tab is accepted only with a valid request ID,
-- three valid components and an input that is UTF-8 within its bound.
pub validate_remote_request-IsSafeRemote :
    (request : RemoteRequest)
    → one_of request.operation target_operations ≡ true
    → validate_remote_request request ≡ none
    → IsSafeRemote request
unfolding validate_remote_request
validate_remote_request-IsSafeRemote request o h =
    let (_, h1) = if-none _ _ _ h in
    let (id, h2) = if-none (not (valid_request_id request.id)) _ _ h1 in
    let (_, h3) = if-none _ _ _ h2 in
    let (c, h4) = replaced-none (validate_command request.input) _ _ h3 in
    let (_, h5) = replaced-none (validate_read_count request.read_count) _ _ h4 in
    let bounds = validate_command-bounds request.input c in
    record {
      id_ok = ground arith;
      target_ok =
          validate_complete_target-IsTarget request.target.session request.target.pane
            request.target.tab (operation_target request.operation request.target o h5);
      utf8 = bounds.0;
      bounded = bounds.1;
    }
