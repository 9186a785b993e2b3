-- ===== src/App/Operations.antt =====
-- internal/app/parse.go: the words of the command line that name operations or ask for help.
pub mod Payloads
use ptymux.Server.Protocol.{one_of}
use ptymux.Prelude.{
  ℕ, zero, suc, ◌+◌, ◌-◌, ◌*◌, ◌/◌, ◌%◌, ◌^◌, ◌≤◌, ◌<◌, min, ◌≡◌, refl, sym, ap, ◌∙◌, subst, ◌≢◌,
  ◌↔◌, ◌⊎◌, inl, inr, Bool, true, false, not, ◌&&◌, ◌||◌, Option, none, some, List, [], ◌∷◌, ◌++◌,
  map, append_assoc, append-nil, arith, ltb, leb, ◌==◌, if◌then◌else◌, ltb→lt, lt→ltb, leb→le,
  ==_iff, tests, Bool-cases, Option-cases, length, set, take, drop, length-append, length-set,
  take-append-drop, length-take, length-drop, take-of-length-le, take-length-append,
  drop-length-append, All, All-append, All-take, All-drop, Bytes, codes, bytes_eq, bytes_eq_refl,
  bytes_eq_iff, if-intro, take-append-of-le, drop-append-of-le, Option-intro,
}

abbrev pub remote_operations : List Bytes
remote_operations =
    codes "register"
    ∷ codes "rotate"
    ∷ codes "revoke"
    ∷ codes "create"
    ∷ codes "list"
    ∷ codes "send"
    ∷ codes "text"
    ∷ codes "keys"
    ∷ codes "read"
    ∷ codes "follow"
    ∷ codes "close"
    ∷ []

pub is_remote_operation : Bytes → Bool
unfolding one_of
is_remote_operation value = one_of value remote_operations

abbrev pub payload_operations : List Bytes
payload_operations = codes "send" ∷ codes "text" ∷ codes "keys" ∷ []

pub remote_operation_has_payload : Bytes → Bool
unfolding one_of
remote_operation_has_payload operation = one_of operation payload_operations

pub is_help_arg : Bytes → Bool
unfolding bytes_eq
is_help_arg arg = bytes_eq arg (codes "-h") || bytes_eq arg (codes "--help")

pub has_help_arg : List Bytes → Bool
unfolding is_help_arg
has_help_arg [] = false
has_help_arg (arg ∷ args) = let rest = has_help_arg args in if is_help_arg arg then true else rest
