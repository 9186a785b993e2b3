-- ===== src/Remote/Registry/Examples.antt =====
-- The theorems on the registry at concrete inputs.
use ptymux.Remote.Registry.Client.{
  Crypto, active, credential_matches, StoredClient, ClientRecord, Principal,
}
use ptymux.Remote.Registry.{
  Registry, failed, authentication_failed, Files, replaces, persist_and_publish, authenticate,
  register, create, rotate, rotate_client, authenticate_client, revoke, revoke_client,
  sorted_clients,
}
use ptymux.Remote.Registry.Effects.{Call, register_call, run}
use ptymux.Remote.Registry.Lifecycle.{IsAligned, here, after, Reach-IsAligned}
use ptymux.Remote.Registry.Credentials.{Gave}
use ptymux.Remote.Registry.Passwords.{
  register-OnlyPassword, rotate-OnlyPassword, revoke-authenticate,
}
use ptymux.Remote.Names.{valid_client_name}
use ptymux.Std.Map.{lookup}
use ptymux.Prelude.{
  ℕ, zero, suc, ◌≡◌, refl, inr, true, false, none, some, List, [], ◌∷◌, ◌++◌, arith, length, take,
  length-append, length-take, Bytes, codes, bytes_eq,
}

-- A digest that keeps the first 32 bytes, and an encoding that keeps the text.
abbrev pub zeros : ℕ → Bytes
zeros zero = []
zeros (suc n) = 0 ∷ zeros n

abbrev pub plain_sha256 : Bytes → Bytes
plain_sha256 s = take 32 (s ++ zeros 32)

pub plain_sha256_size : (s : Bytes) → length (plain_sha256 s) ≡ 32
plain_sha256_size s = omega (arith, length-take 32 (s ++ zeros 32), length-append s (zeros 32))

abbrev pub plain : Crypto
plain = record {
  sha256 = plain_sha256;
  encode = λ s. s;
  decode = λ s. some s;
  sha256_size = plain_sha256_size;
  decode-encode = λ s. refl;
}

abbrev pub no_size : List StoredClient → ℕ
no_size clients = 0

abbrev pub fresh_registry : Registry
fresh_registry = record { clients = []; closed = false; file = [] }

-- the rename succeeds and the directory cannot be synced
abbrev pub unsynced : Files
unsynced = record { written = true; renamed = true; synced = false }

abbrev laptop : ClientRecord
laptop = record {
  owner_id = codes "owner";
  name = codes "laptop";
  credential_generation = 1;
  status = active;
  created_at = 5;
  updated_at = 5;
  revoked_at = none;
}

abbrev laptop_call : Call
laptop_call = register_call [] (some (codes "owner")) (some (codes "secret")) 5 unsynced

laptop_given :
    Gave
      (register no_size plain fresh_registry
        (codes "laptop")
        (some (codes "owner"))
        (some (codes "secret"))
        5
        unsynced).1
      (laptop, codes "secret")
unfolding register valid_client_name create persist_and_publish replaces lookup
laptop_given = inr refl

register-OnlyPassword_example :
    authenticate plain
      (register no_size plain fresh_registry
        (codes "laptop")
        (some (codes "owner"))
        (some (codes "secret"))
        5
        unsynced).0
      (codes "laptop")
      (codes "guess")
    ≡ failed authentication_failed
unfolding bytes_eq
register-OnlyPassword_example =
    register-OnlyPassword no_size plain fresh_registry (codes "laptop") (some (codes "owner"))
      (some (codes "secret")) 5 unsynced laptop (codes "secret") laptop_given (codes "guess")

-- a registry with that client
abbrev with_laptop : Registry
with_laptop = record {
  clients =
      (
        codes "laptop",
        record {
          owner_id = codes "owner";
          name = codes "laptop";
          password_sha256 = plain_sha256 (codes "secret");
          credential_generation = 1;
          status = active;
          created_at = 5;
          updated_at = 5;
          revoked_at = none;
        },
      )
      ∷ [];
  closed = false;
  file = [];
}

abbrev rotated_laptop : Principal
rotated_laptop = record {
  owner_id = codes "owner";
  name = codes "laptop";
  credential_generation = 2;
}

laptop_rotated :
    Gave
      (rotate no_size plain with_laptop
        (codes "laptop")
        (codes "secret")
        (some (codes "new"))
        6
        unsynced).1
      (codes "new", rotated_laptop)
unfolding rotate rotate_client authenticate_client credential_matches bytes_eq valid_client_name
    persist_and_publish replaces lookup
laptop_rotated = inr refl

rotate-OnlyPassword_example :
    authenticate plain
      (rotate no_size plain with_laptop
        (codes "laptop")
        (codes "secret")
        (some (codes "new"))
        6
        unsynced).0
      (codes "laptop")
      (codes "guess")
    ≡ failed authentication_failed
unfolding bytes_eq
rotate-OnlyPassword_example =
    rotate-OnlyPassword no_size plain with_laptop (codes "laptop") (codes "secret")
      (some (codes "new")) 6 unsynced (codes "new") rotated_laptop laptop_rotated (codes "guess")

laptop_revoked :
    Gave (revoke no_size plain with_laptop (codes "laptop") (codes "secret") 6 unsynced).1 tt
unfolding revoke revoke_client authenticate_client credential_matches bytes_eq valid_client_name
    persist_and_publish replaces lookup
laptop_revoked = inr refl

revoke-authenticate_example :
    authenticate plain
      (revoke no_size plain with_laptop (codes "laptop") (codes "secret") 6 unsynced).0
      (codes "laptop")
      (codes "secret")
    ≡ failed authentication_failed
revoke-authenticate_example =
    revoke-authenticate no_size plain with_laptop (codes "laptop") (codes "secret") 6 unsynced
      (codes "secret") laptop_revoked

fresh_registry-IsAligned : IsAligned fresh_registry
unfolding sorted_clients
fresh_registry-IsAligned = refl

Reach-IsAligned_example : IsAligned (run no_size plain fresh_registry (codes "laptop") laptop_call)
Reach-IsAligned_example =
    Reach-IsAligned no_size plain fresh_registry-IsAligned (after here (codes "laptop") laptop_call)
