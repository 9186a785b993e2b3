-- ===== src/Remote/Names.antt =====
-- internal/remote/registry.go: the names of registered clients.
pub mod Components
use ptymux.Prelude.{
  ℕ, zero, suc, ◌+◌, ◌-◌, ◌*◌, ◌/◌, ◌%◌, ◌^◌, ◌≤◌, ◌<◌, min, ◌≡◌, refl, sym, ap, ◌∙◌, subst, ◌≢◌,
  ◌↔◌, ◌⊎◌, inl, inr, Bool, true, false, not, ◌&&◌, ◌||◌, Option, none, some, List, [], ◌∷◌, ◌++◌,
  map, append_assoc, append-nil, arith, ltb, leb, ◌==◌, if◌then◌else◌, ltb→lt, lt→ltb, leb→le,
  ==_iff, tests, Bool-cases, Option-cases, length, set, take, drop, length-append, length-set,
  take-append-drop, length-take, length-drop, take-of-length-le, take-length-append,
  drop-length-append, All, All-append, All-take, All-drop, Bytes, codes, bytes_eq, bytes_eq_refl,
  bytes_eq_iff, if-intro, take-append-of-le, drop-append-of-le, Option-intro,
}

unfoldable pub ascii_alphanumeric : ℕ → Bool
ascii_alphanumeric c = (leb b'a' c && leb c b'z') || (leb b'0' c && leb c b'9')

unfoldable pub is_name_byte : ℕ → Bool
unfolding ascii_alphanumeric
is_name_byte c = ascii_alphanumeric c || c == b'.' || c == b'_' || c == b'-'

unfoldable pub all_name_bytes : Bytes → Bool
unfolding is_name_byte
all_name_bytes [] = true
all_name_bytes (c ∷ s) = let rest = all_name_bytes s in if is_name_byte c then rest else false

unfoldable pub valid_client_name : Bytes → Bool
unfolding all_name_bytes
valid_client_name name =
    if ltb (length name) 1 || ltb 64 (length name) then false else all_name_bytes name
