-- ===== src/Remote/Registry.antt =====
-- internal/remote/registry.go: the registry of clients and its file. Each operation holds `writeMu`
-- throughout, so that it is a function from a registry to the next one. What the operating system
-- and the random generator answer is an argument: a token is `none` if it could not be made, and
-- `Files` says how far `persist` gets. The file is the list of the clients that it holds.
pub mod Client
pub mod Effects
pub mod Steps
pub mod Credentials
pub mod Passwords
pub mod Lifecycle
pub mod Load
mod Examples
use ptymux.Remote.Registry.Client.{
  Crypto, ClientStatus, pending, active, revoked, is_status, StoredClient, ClientRecord, Principal,
  public_record, principal_for, credential_matches, digest_string, validate_stored_client,
}
use ptymux.Remote.Names.{valid_client_name}
use ptymux.Server.Snapshot.{sort_strings}
use ptymux.Std.Map.{Map, lookup, insert, keys}
use ptymux.Prelude.{
  ℕ, zero, suc, ◌+◌, ◌-◌, ◌*◌, ◌/◌, ◌%◌, ◌^◌, ◌≤◌, ◌<◌, min, ◌≡◌, refl, sym, ap, ◌∙◌, subst, ◌≢◌,
  ◌↔◌, ◌⊎◌, inl, inr, Bool, true, false, not, ◌&&◌, ◌||◌, Option, none, some, List, [], ◌∷◌, ◌++◌,
  map, append_assoc, append-nil, arith, ltb, leb, ◌==◌, if◌then◌else◌, ltb→lt, lt→ltb, leb→le,
  ==_iff, tests, Bool-cases, Option-cases, length, set, take, drop, length-append, length-set,
  take-append-drop, length-take, length-drop, take-of-length-le, take-length-append,
  drop-length-append, All, All-append, All-take, All-drop, Bytes, codes, bytes_eq, bytes_eq_refl,
  bytes_eq_iff, if-intro, take-append-of-le, drop-append-of-le,
}

abbrev pub max_registry_size : ℕ
max_registry_size = 4194304

pub record Registry : Type 0 where
  pub clients : Map StoredClient
  pub closed : Bool
  pub file : List StoredClient

pub data RegistryError : Type 0 where
  invalid_client_name registry_closed client_name_unavailable : RegistryError
  authentication_failed no_random not_saved : RegistryError

-- A value and a nil error; a value and a `committedRegistryError`; an error only.
pub data Reply {ℓ} (A : Type ℓ) : Type ℓ where
  done : A → Reply A
  committed : A → Reply A
  failed : RegistryError → Reply A

-- Whether the temporary file was made and written, whether it replaced the registry's file, and
-- whether the directory was synced then.
pub record Files : Type 0 where
  pub written : Bool
  pub renamed : Bool
  pub synced : Bool

-- the clients in the order of their names
pub clients_of : Map StoredClient → List Bytes → List StoredClient
unfolding lookup
clients_of clients [] = []
clients_of clients (n ∷ names) =
    let rest = clients_of clients names in
    elim (lookup n clients) [ none ↦ rest | some c ↦ c ∷ rest ]

unfoldable pub sorted_clients : Map StoredClient → List StoredClient
unfolding clients_of sort_strings keys
sorted_clients clients = clients_of clients (sort_strings (keys clients))

-- the name is free if it is unknown or its client revoked
pub is_free : Option StoredClient → Bool
unfolding is_status
is_free none = true
is_free (some c) = is_status c.status revoked

-- A pending registration keeps its owner and its time of creation.
pub prepare_owner : Option StoredClient → Option Bytes → Option Bytes
unfolding is_status
prepare_owner none fresh = fresh
prepare_owner (some c) fresh = if is_status c.status pending then some c.owner_id else fresh

pub prepare_created : Option StoredClient → ℕ → ℕ
unfolding is_status
prepare_created none now = now
prepare_created (some c) now =
    if is_status c.status pending && not (c.created_at == 0) then c.created_at else now

pub is_active : Option StoredClient → Bool
unfolding is_status
is_active none = false
is_active (some c) = is_status c.status active

abbrev pub revoked_client : StoredClient → ℕ → StoredClient
revoked_client c now = record c { status = revoked; updated_at = now; revoked_at = some now }

module _ (lib : Crypto) where
  abbrev pub new_client : Bytes → Bytes → Bytes → ClientStatus → ℕ → ℕ → StoredClient
  new_client owner_id name password status created_at now = record {
    owner_id = owner_id;
    name = name;
    password_sha256 = digest_string lib password;
    credential_generation = 1;
    status = status;
    created_at = created_at;
    updated_at = now;
    revoked_at = none;
  }

  -- The password from an earlier preparation recovers that registration.
  pub recover : Registry → Bytes → Option StoredClient → Registry × Reply (ClientRecord × Bytes)
  unfolding credential_matches is_status
  recover r password none = (r, failed authentication_failed)
  recover r password (some c) =
      if credential_matches lib c.password_sha256 password (is_status c.status pending)
      then (r, done (public_record c, password))
      else (r, failed authentication_failed)

  -- `authenticateLocked`, with the client whose credential it was
  pub authenticate_client : Bytes → Bytes → Option StoredClient → Option StoredClient
  unfolding credential_matches is_status
  authenticate_client name password none = none
  authenticate_client name password (some c) =
      if credential_matches lib c.password_sha256 password
        (is_status c.status active && valid_client_name name)
      then some c
      else none

  abbrev pub authenticate_locked : Registry → Bytes → Bytes → Option StoredClient
  authenticate_locked r name password = authenticate_client name password (lookup name r.clients)

  pub authenticate : Registry → Bytes → Bytes → Reply Principal
  unfolding authenticate_client
  authenticate r name password =
      if r.closed then failed registry_closed else elim (authenticate_locked r name password) [
        | none ↦ failed authentication_failed
        | some c ↦ done (principal_for c)
      ]

  -- the counter is a uint64
  abbrev pub rotated : StoredClient → Bytes → ℕ → StoredClient
  rotated c password now = record c {
    password_sha256 = digest_string lib password;
    credential_generation = (c.credential_generation + 1) % 2 ^ 64;
    updated_at = now;
  }

-- `json_size` is the length of the encoded file.
module _ (json_size : List StoredClient → ℕ) where
  -- whether `persist` replaces the file
  unfoldable pub replaces : Files → Map StoredClient → Bool
  unfolding sorted_clients
  replaces files clients =
      leb (json_size (sorted_clients clients)) max_registry_size && (files.written && files.renamed)

  abbrev pub published : Registry → Map StoredClient → Registry
  published r clients = record r { clients = clients; file = sorted_clients clients }

  -- `persistAndPublish`, and the reply that the callers make of its error
  pub persist_and_publish {ℓ} :
      {A : Type ℓ} → Registry → Map StoredClient → Files → A → Registry × Reply A
  unfolding replaces
  persist_and_publish r clients files value =
      if replaces files clients
      then (published r clients, if files.synced then done value else committed value)
      else (r, failed not_saved)

  module _ (lib : Crypto) where
    pub create :
        Registry
        → Bytes
        → Option Bytes
        → Option Bytes
        → ClientStatus
        → ℕ
        → ℕ
        → Files
        → Registry × Reply (ClientRecord × Bytes)
    unfolding digest_string persist_and_publish
    create r name (some owner_id) (some password) status created_at now files =
        let client = new_client lib owner_id name password status created_at now in
        persist_and_publish r (insert name client r.clients) files (public_record client, password)
    create r name owner_id password status created_at now files = (r, failed no_random)

    pub register :
        Registry
        → Bytes
        → Option Bytes
        → Option Bytes
        → ℕ
        → Files
        → Registry × Reply (ClientRecord × Bytes)
    unfolding create is_free
    register r name owner_id password now files =
        if not (valid_client_name name)
        then (r, failed invalid_client_name)
        else if r.closed
        then (r, failed registry_closed)
        else if is_free (lookup name r.clients)
        then create r name owner_id password active now now files
        else (r, failed client_name_unavailable)

    pub prepare_registration :
        Registry
        → Bytes
        → Bytes
        → Option Bytes
        → Option Bytes
        → ℕ
        → Files
        → Registry × Reply (ClientRecord × Bytes)
    unfolding create recover prepare_owner prepare_created is_active
    prepare_registration r name password owner_id fresh now files =
        let existing = lookup name r.clients in
        if not (valid_client_name name)
        then (r, failed invalid_client_name)
        else if r.closed
        then (r, failed registry_closed)
        else if is_active existing
        then (r, failed client_name_unavailable)
        else if not (length password == 0)
        then recover lib r password existing
        else create r name (prepare_owner existing owner_id) fresh pending
            (prepare_created existing now) now files

    pub commit_client :
        Registry → Bytes → Bytes → ℕ → Files → Option StoredClient → Registry × Reply Principal
    unfolding credential_matches is_status persist_and_publish
    commit_client r name password now files none = (r, failed authentication_failed)
    commit_client r name password now files (some c) =
        let client = record c { status = active; updated_at = now } in
        if credential_matches lib c.password_sha256 password
          (is_status c.status pending && valid_client_name name)
        then persist_and_publish r (insert name client r.clients) files (principal_for client)
        else (r, failed authentication_failed)

    pub commit_registration : Registry → Bytes → Bytes → ℕ → Files → Registry × Reply Principal
    unfolding commit_client
    commit_registration r name password now files =
        if r.closed
        then (r, failed registry_closed)
        else commit_client r name password now files (lookup name r.clients)

    pub rotate_client :
        Registry
        → Bytes
        → Option Bytes
        → ℕ
        → Files
        → Option StoredClient
        → Registry × Reply (Bytes × Principal)
    unfolding digest_string persist_and_publish
    rotate_client r name fresh now files none = (r, failed authentication_failed)
    rotate_client r name none now files (some c) = (r, failed no_random)
    rotate_client r name (some password) now files (some c) =
        let client = rotated lib c password now in
        persist_and_publish r (insert name client r.clients) files (password, principal_for client)

    pub rotate :
        Registry → Bytes → Bytes → Option Bytes → ℕ → Files → Registry × Reply (Bytes × Principal)
    unfolding rotate_client authenticate_client
    rotate r name password fresh now files =
        if r.closed
        then (r, failed registry_closed)
        else rotate_client r name fresh now files (authenticate_locked lib r name password)

    pub revoke_client :
        Registry → Bytes → ℕ → Files → Option StoredClient → Registry × Reply (Unit {0})
    unfolding persist_and_publish
    revoke_client r name now files none = (r, failed authentication_failed)
    revoke_client r name now files (some c) =
        persist_and_publish r (insert name (revoked_client c now) r.clients) files tt

    pub revoke : Registry → Bytes → Bytes → ℕ → Files → Registry × Reply (Unit {0})
    unfolding revoke_client authenticate_client
    revoke r name password now files =
        if r.closed
        then (r, failed registry_closed)
        else revoke_client r name now files (authenticate_locked lib r name password)

abbrev pub close : Registry → Registry
close r = record r { closed = true }
