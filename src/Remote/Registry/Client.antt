-- ===== src/Remote/Registry/Client.antt =====
-- internal/remote/registry.go: the records of clients, what they are checked for, and credentials.
-- A time is a number, and 0 the zero time. SHA-256, base64 and the encoding of JSON are parameters.
use ptymux.Remote.Names.{valid_client_name}
use ptymux.Prelude.{
  ℕ, ◌≡◌, refl, Bool, true, false, not, ◌&&◌, ◌||◌, Option, none, some, ltb, leb, ◌==◌,
  if◌then◌else◌, length, Bytes, bytes_eq,
}

-- What the registry uses of crypto/sha256 and encoding/base64.
pub record Crypto : Type 0 where
  pub sha256 : Bytes → Bytes
  pub encode : Bytes → Bytes
  pub decode : Bytes → Option Bytes
  pub sha256_size : (s : Bytes) → length (sha256 s) ≡ 32
  pub decode-encode : (s : Bytes) → decode (encode s) ≡ some s

-- A status that is read from a file may be any text.
pub data ClientStatus : Type 0 where
  pending active revoked unknown : ClientStatus

unfoldable pub is_status : ClientStatus → ClientStatus → Bool
is_status pending pending = true
is_status active active = true
is_status revoked revoked = true
is_status _ _ = false

pub record StoredClient : Type 0 where
  pub owner_id : Bytes
  pub name : Bytes
  pub password_sha256 : Bytes
  pub credential_generation : ℕ
  pub status : ClientStatus
  pub created_at : ℕ
  pub updated_at : ℕ
  pub revoked_at : Option ℕ

pub record ClientRecord : Type 0 where
  pub owner_id : Bytes
  pub name : Bytes
  pub credential_generation : ℕ
  pub status : ClientStatus
  pub created_at : ℕ
  pub updated_at : ℕ
  pub revoked_at : Option ℕ

pub record Principal : Type 0 where
  pub owner_id : Bytes
  pub name : Bytes
  pub credential_generation : ℕ

abbrev pub public_record : StoredClient → ClientRecord
public_record c = record {
  owner_id = c.owner_id;
  name = c.name;
  credential_generation = c.credential_generation;
  status = c.status;
  created_at = c.created_at;
  updated_at = c.updated_at;
  revoked_at = c.revoked_at;
}

abbrev pub principal_for : StoredClient → Principal
principal_for c = record {
  owner_id = c.owner_id;
  name = c.name;
  credential_generation = c.credential_generation;
}

pub data InvalidClient : Type 0 where
  bad_name bad_owner bad_digest bad_generation bad_timestamps bad_revocation : InvalidClient
  bad_status : InvalidClient

-- the timestamps of a revoked client
revocation_ok : StoredClient → Option ℕ → Bool
revocation_ok c none = false
revocation_ok c (some t) = leb c.created_at t && leb t c.updated_at

unfoldable pub is_none {ℓ} : {A : Type ℓ} → Option A → Bool
is_none none = true
is_none (some a) = false

-- the switch on the status
status_error : StoredClient → ClientStatus → Option InvalidClient
unfolding is_none revocation_ok
status_error c pending = if is_none c.revoked_at then none else some bad_revocation
status_error c active = if is_none c.revoked_at then none else some bad_revocation
status_error c revoked = if revocation_ok c c.revoked_at then none else some bad_revocation
status_error c unknown = some bad_status

module _ (lib : Crypto) where
  -- base64 of one of two lengths
  unfoldable pub decodes_to : Bytes → ℕ → ℕ → Bool
  decodes_to text m n = elim (lib.decode text) [
    | none ↦ false
    | some s ↦ length s == m || length s == n
  ]

  unfoldable pub validate_stored_client : StoredClient → Option InvalidClient
  unfolding decodes_to status_error
  validate_stored_client c =
      if not (valid_client_name c.name)
      then some bad_name
      else if not (decodes_to c.owner_id 16 32)
      then some bad_owner
      else if not (decodes_to c.password_sha256 32 32)
      then some bad_digest
      else if c.credential_generation == 0
      then some bad_generation
      else if c.created_at == 0 || c.updated_at == 0 || ltb c.updated_at c.created_at
      then some bad_timestamps
      else status_error c c.status

  unfoldable pub digest_string : Bytes → Bytes
  digest_string password = lib.encode (lib.sha256 password)

  digest_matches : Bytes → Option Bytes → Bool
  unfolding bytes_eq
  digest_matches actual none = false
  digest_matches actual (some expected) = length expected == 32 && bytes_eq actual expected

  -- If the credential is not valid, the comparison with the dummy digest is made but not used.
  unfoldable pub credential_matches : Bytes → Bytes → Bool → Bool
  unfolding digest_matches
  credential_matches digest password valid =
      let equal = digest_matches (lib.sha256 password) (lib.decode digest) in
      if valid then equal else false

  -- The credential of a password matches the passwords of the same digest.
  pub credential_matches-digest_string :
      (old new : Bytes)
      → credential_matches (digest_string new) old true ≡ bytes_eq (lib.sha256 old) (lib.sha256 new)
  unfolding credential_matches digest_matches digest_string
  credential_matches-digest_string old new =
      rw (lib.decode-encode (lib.sha256 new)) (rw (lib.sha256_size new) refl)
