-- ===== src/Remote/Names/Components.antt =====
-- The name of a client may stand in a target.
use ptymux.Remote.Names.{is_name_byte, all_name_bytes, valid_client_name, ascii_alphanumeric}
use ptymux.Server.Protocol.{
  Field, is_empty, is_reserved, is_control, any_reserved, validate_target_component,
}
use ptymux.Std.Utf8.Ascii.{IsAscii, runes-IsAscii, valid-IsAscii}
use ptymux.Prelude.{
  ℕ, ◌≡◌, refl, inl, inr, true, false, none, [], ◌∷◌, arith, ltb, Bool-cases, length, Bytes,
}

all_name_bytes-IsAscii : (s : Bytes) → all_name_bytes s ≡ true → IsAscii s
unfolding all_name_bytes is_name_byte ascii_alphanumeric
all_name_bytes-IsAscii [] h = tt
all_name_bytes-IsAscii (c ∷ s) h = (ground arith, all_name_bytes-IsAscii s (ground arith))

is_reserved-is_name_byte : (c : ℕ) → is_name_byte c ≡ true → is_reserved c ≡ false
unfolding is_name_byte is_reserved is_control ascii_alphanumeric
is_reserved-is_name_byte c h = ground arith

any_reserved-all_name_bytes : (s : Bytes) → all_name_bytes s ≡ true → any_reserved s ≡ false
unfolding all_name_bytes any_reserved
any_reserved-all_name_bytes [] h = refl
any_reserved-all_name_bytes (c ∷ s) h = elim (Bool-cases (is_name_byte c)) [
  | inl e ↦ rw (is_reserved-is_name_byte c e) (any_reserved-all_name_bytes s (ground arith))
  | inr e ↦ absurd (ground arith)
]

-- Every name that a client may register under is a valid component of a target.
validate_target_component-valid_client_name :
    (field : Field) (name : Bytes)
    → valid_client_name name ≡ true
    → validate_target_component field name ≡ none
unfolding validate_target_component valid_client_name is_empty
validate_target_component-valid_client_name field [] h = absurd (ground arith)
validate_target_component-valid_client_name field (c ∷ s) h =
    let name : all_name_bytes (c ∷ s) ≡ true = ground arith in
    let short : ltb 64 (length (c ∷ s)) ≡ false = ground arith in
    let ascii : IsAscii (c ∷ s) = all_name_bytes-IsAscii (c ∷ s) name in
    rw (valid-IsAscii (c ∷ s) ascii) (
      rw short
        (rw (runes-IsAscii (c ∷ s) ascii) (rw (any_reserved-all_name_bytes (c ∷ s) name) refl)))
