-- ===== src/Remote/Registry/Load/Examples.antt =====
-- The theorems on loading at a concrete input, and a file that is not loaded again.
use ptymux.Remote.Registry.{
  Registry, prepare_registration, create, commit_registration, commit_client, persist_and_publish,
  replaces, sorted_clients,
}
use ptymux.Remote.Names.{valid_client_name}
use ptymux.Server.Snapshot.{sort_strings}
use ptymux.Remote.Registry.Client.{
  StoredClient, active, bad_timestamps, credential_matches, is_status, validate_stored_client,
}
use ptymux.Remote.Registry.Examples.{plain, no_size, fresh_registry, unsynced, plain_sha256}
use ptymux.Remote.Registry.Load.{RegistryFile, loaded, rejected, invalid_record, load, load_clients}
use ptymux.Remote.Registry.Load.Loaded.{IsStored, load-IsStored, load-lookup}
use ptymux.Std.Strconv.{pos}
use ptymux.Std.Map.{Map, lookup}
use ptymux.Prelude.{◌≡◌, refl, none, some, List, [], ◌∷◌, All, Bytes, codes, bytes_eq}

abbrev owner : Bytes
owner = codes "0123456789abcdef"

abbrev laptop : StoredClient
laptop = record {
  owner_id = owner;
  name = codes "laptop";
  password_sha256 = plain_sha256 (codes "secret");
  credential_generation = 1;
  status = active;
  created_at = 5;
  updated_at = 5;
  revoked_at = none;
}

abbrev file_of : List StoredClient → RegistryFile
file_of clients = record { size = 100; version = pos 1; clients = some clients }

abbrev one_client : Map StoredClient
one_client = (codes "laptop", laptop) ∷ []

laptop_loaded : load plain (file_of (laptop ∷ [])) ≡ loaded one_client
unfolding load load_clients validate_stored_client valid_client_name bytes_eq
laptop_loaded = refl

load-IsStored_example : All (IsStored plain one_client) (laptop ∷ [])
load-IsStored_example =
    load-IsStored plain (file_of (laptop ∷ [])) (laptop ∷ []) one_client refl laptop_loaded

laptop_found : lookup (codes "laptop") one_client ≡ some laptop
unfolding lookup bytes_eq
laptop_found = refl

load-lookup_example : (laptop.name ≡ codes "laptop") × (validate_stored_client plain laptop ≡ none)
load-lookup_example =
    load-lookup plain (file_of (laptop ∷ [])) one_client (codes "laptop") laptop laptop_loaded
      laptop_found

-- A registration that is prepared at 5, and committed at 4 because the clock was set back.
abbrev set_back : Registry
set_back =
    (commit_registration no_size plain
      (prepare_registration no_size plain fresh_registry (codes "laptop") [] (some owner)
        (some (codes "secret")) 5 unsynced).0
      (codes "laptop") (codes "secret") 4 unsynced).0

-- The file that it leaves is rejected when the registry is opened again.
set_back_rejected : load plain (file_of set_back.file) ≡ rejected (invalid_record bad_timestamps)
unfolding load load_clients validate_stored_client valid_client_name bytes_eq prepare_registration
    create commit_registration commit_client persist_and_publish replaces lookup sorted_clients
    sort_strings credential_matches is_status
set_back_rejected = refl
