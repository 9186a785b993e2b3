-- ===== src/Remote/Registry/Load.antt =====
-- internal/remote/registry.go: the clients of a registry's file, read when it is opened. The decoding of
-- the file's JSON is the caller's; `none` stands for clients that are missing.
pub mod Loaded
mod Examples
use ptymux.Remote.Registry.{max_registry_size}
use ptymux.Remote.Registry.Client.{Crypto, StoredClient, InvalidClient, validate_stored_client}
use ptymux.Server.Protocol.{one_of}
use ptymux.Std.Strconv.{ℤ, pos, negsuc}
use ptymux.Std.Map.{Map, lookup, insert}
use ptymux.Prelude.{
  ℕ, zero, suc, ◌+◌, ◌-◌, ◌*◌, ◌/◌, ◌%◌, ◌^◌, ◌≤◌, ◌<◌, min, ◌≡◌, refl, sym, ap, ◌∙◌, subst, ◌≢◌,
  ◌↔◌, ◌⊎◌, inl, inr, Bool, true, false, not, ◌&&◌, ◌||◌, Option, none, some, List, [], ◌∷◌, ◌++◌,
  map, append_assoc, append-nil, arith, ltb, leb, ◌==◌, if◌then◌else◌, ltb→lt, lt→ltb, leb→le,
  ==_iff, tests, Bool-cases, Option-cases, length, set, take, drop, length-append, length-set,
  take-append-drop, length-take, length-drop, take-of-length-le, take-length-append,
  drop-length-append, All, All-append, All-take, All-drop, Bytes, codes, bytes_eq, bytes_eq_refl,
  bytes_eq_iff, if-intro, take-append-of-le, drop-append-of-le, Option-intro,
}

pub record RegistryFile : Type 0 where
  pub size : ℕ
  pub version : ℤ
  pub clients : Option (List StoredClient)

pub data LoadError : Type 0 where
  too_large unsupported_version no_clients : LoadError
  invalid_record : InvalidClient → LoadError
  duplicate_name duplicate_owner : Bytes → LoadError

pub data Load : Type 0 where
  loaded : Map StoredClient → Load
  rejected : LoadError → Load

is_registry_version : ℤ → Bool
is_registry_version (pos n) = n == 1
is_registry_version (negsuc n) = false

unfoldable pub is_known : Option StoredClient → Bool
is_known none = false
is_known (some c) = true

module _ (lib : Crypto) where
  -- the loop, with the clients so far and their owners
  unfoldable pub load_clients : List StoredClient → Map StoredClient → List Bytes → Load
  unfolding is_known lookup insert one_of
  load_clients [] clients owners = loaded clients
  load_clients (c ∷ cs) clients owners =
      let rest = load_clients cs (insert c.name c clients) (c.owner_id ∷ owners) in
      elim (validate_stored_client lib c) [
        | some e ↦ rejected (invalid_record e)
        | none ↦
            if is_known (lookup c.name clients)
            then rejected (duplicate_name c.name)
            else if one_of c.owner_id owners
            then rejected (duplicate_owner c.owner_id)
            else rest
      ]

  listed : Option (List StoredClient) → Load
  unfolding load_clients
  listed none = rejected no_clients
  listed (some cs) = load_clients cs [] []

  -- `load`, if there is a file
  pub load : RegistryFile → Load
  unfolding listed is_registry_version
  load file =
      if ltb max_registry_size file.size
      then rejected too_large
      else if not (is_registry_version file.version)
      then rejected unsupported_version
      else listed file.clients
