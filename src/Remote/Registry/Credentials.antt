-- ===== src/Remote/Registry/Credentials.antt =====
-- Which passwords authenticate after an operation that gave its caller a value, that is, one that
-- ended well or with an error behind the replacement of the file.
use ptymux.Remote.Registry.Client.{
  Crypto, active, is_status, StoredClient, Principal, principal_for, credential_matches,
  digest_string, credential_matches-digest_string,
}
use ptymux.Remote.Registry.{
  Registry, Reply, done, committed, failed, RegistryError, not_saved, authentication_failed, Files,
  replaces, published, persist_and_publish, authenticate_client, authenticate,
}
use ptymux.Remote.Names.{valid_client_name}
use ptymux.Std.Map.{Map, insert, lookup-insert}
use ptymux.Prelude.{
  ℕ, ◌≡◌, refl, ap, ◌∙◌, ◌⊎◌, inl, inr, Bool, true, false, ◌&&◌, Option, none, some, List,
  if◌then◌else◌, Bytes, bytes_eq, if-intro,
}

-- The caller got the value.
abbrev pub Gave : {A : Type 0} → Reply A → A → Type 0
Gave reply a = (reply ≡ done a) ⊎ (reply ≡ committed a)

pub Gave-failed : {A : Type 0} (a : A) (e : RegistryError) → ¬ Gave (failed e) a
Gave-failed a e (inl h) = cc
Gave-failed a e (inr h) = cc

Gave-if : {A : Type 0} (v a : A) (b : Bool) → Gave (if b then done v else committed v) a → v ≡ a
Gave-if v a true (inl h) = cc
Gave-if v a true (inr h) = cc
Gave-if v a false (inl h) = cc
Gave-if v a false (inr h) = cc

module _ (json_size : List StoredClient → ℕ) (lib : Crypto) where
  -- the principal that the password authenticates when the name stands for that client
  abbrev pub answer : Option StoredClient → Reply Principal
  answer none = failed authentication_failed
  answer (some c) = done (principal_for c)

  pub authenticate-published :
      (r : Registry) (name password : Bytes) (c : StoredClient)
      → r.closed ≡ false
      → authenticate lib (published json_size r (insert name c r.clients)) name password
        ≡ answer (authenticate_client lib name password (some c))
  unfolding authenticate
  authenticate-published r name password c h = rw h (rw (lookup-insert name c r.clients) refl)

  -- What a save that gave its value has done.
  pub persist_and_publish-Gave :
      {A : Type 0} (r : Registry) (clients : Map StoredClient) (files : Files) (value a : A)
      → Gave (persist_and_publish json_size r clients files value).1 a
      → ((persist_and_publish json_size r clients files value).0 ≡ published json_size r clients)
        × (value ≡ a)
  unfolding persist_and_publish
  persist_and_publish-Gave {A = A} r clients files value a g =
      if-intro
        (λ (x : Registry × Reply A).
          Gave x.1 a → (x.0 ≡ published json_size r clients) × (value ≡ a))
        (replaces json_size files clients) (λ _ h. (refl, Gave-if value a files.synced h))
        (λ _ h. absurd (Gave-failed a not_saved h)) g

  -- Which passwords authenticate an active client.
  pub authenticate_client-digest :
      (name old password : Bytes) (c : StoredClient)
      → c.password_sha256 ≡ digest_string lib password
      → (is_status c.status active && valid_client_name name) ≡ true
      → authenticate_client lib name old (some c)
        ≡ (if bytes_eq (lib.sha256 old) (lib.sha256 password) then some c else none)
  unfolding authenticate_client
  authenticate_client-digest name old password c d v =
      let found : credential_matches lib c.password_sha256 old
            (is_status c.status active && valid_client_name name)
          ≡ bytes_eq (lib.sha256 old) (lib.sha256 password) =
        ap (λ x. credential_matches lib x old (is_status c.status active && valid_client_name name))
          d
        ∙ ap (λ b. credential_matches lib (digest_string lib password) old b) v
        ∙ credential_matches-digest_string lib old password in
      ap (λ b. if b then some c else none) found

  -- No password authenticates a client that is not active.
  pub authenticate_client-inactive :
      (name password : Bytes) (c : StoredClient)
      → is_status c.status active ≡ false
      → authenticate_client lib name password (some c) ≡ none
  unfolding authenticate_client credential_matches
  authenticate_client-inactive name password c h = rw h refl
