-- ===== src/App/Operations/Payloads.antt =====
-- The operations that carry input.
use ptymux.App.Operations.{is_remote_operation, payload_operations, remote_operation_has_payload}
use ptymux.Remote.Protocol.{target_operations}
use ptymux.Server.Protocol.{one_of}
use ptymux.Server.Protocol.Requests.{one_of-All}
use ptymux.Prelude.{◌≡◌, refl, true, Bytes, bytes_eq}

-- An operation that carries input is one that the command line knows, and the server takes it to
-- address one tab.
remote_operation_has_payload-target :
    (operation : Bytes)
    → remote_operation_has_payload operation ≡ true
    → (is_remote_operation operation ≡ true) × (one_of operation target_operations ≡ true)
unfolding remote_operation_has_payload is_remote_operation one_of bytes_eq
remote_operation_has_payload-target operation h =
    one_of-All (λ x. (is_remote_operation x ≡ true) × (one_of x target_operations ≡ true)) operation
      payload_operations h ((refl, refl), ((refl, refl), ((refl, refl), tt)))
