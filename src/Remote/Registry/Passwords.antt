-- ===== src/Remote/Registry/Passwords.antt =====
-- The passwords that authenticate after an operation.
use ptymux.Remote.Registry.Client.{
  Crypto, active, is_status, StoredClient, ClientRecord, Principal, public_record, principal_for,
  digest_string,
}
use ptymux.Remote.Registry.{
  Registry, Reply, done, failed, no_random, invalid_client_name, client_name_unavailable,
  registry_closed, authentication_failed, Files, published, new_client, create, is_free, register,
  authenticate_client, authenticate, rotated, rotate_client, rotate, revoked_client, revoke_client,
  revoke,
}
use ptymux.Remote.Registry.Steps.{authenticate_client-valid}
use ptymux.Remote.Registry.Credentials.{
  Gave, Gave-failed, answer, authenticate-published, persist_and_publish-Gave,
  authenticate_client-digest, authenticate_client-inactive,
}
use ptymux.Remote.Names.{valid_client_name}
use ptymux.Std.Map.{lookup, insert}
use ptymux.Prelude.{
  ℕ, ◌≡◌, refl, sym, ap, ◌∙◌, subst, Bool, true, false, not, ◌&&◌, Option, none, some, List,
  if◌then◌else◌, Bytes, bytes_eq, if-intro,
}

module _ (json_size : List StoredClient → ℕ) (lib : Crypto) where
  -- The passwords that authenticate are those of the same digest, and as that principal.
  abbrev pub OnlyPassword : Registry → Bytes → Bytes → Principal → Type 0
  OnlyPassword r name password principal =
      (other : Bytes)
      → authenticate lib r name other ≡ (
          if bytes_eq (lib.sha256 other) (lib.sha256 password)
          then done principal
          else failed authentication_failed)

  answer-if :
      (b : Bool) (c : StoredClient)
      → answer json_size lib (if b then some c else none)
        ≡ (if b then done (principal_for c) else failed authentication_failed)
  answer-if true c = refl
  answer-if false c = refl

  saved-OnlyPassword :
      (r : Registry) (name password : Bytes) (c : StoredClient)
      → r.closed ≡ false
      → c.password_sha256 ≡ digest_string lib password
      → (is_status c.status active && valid_client_name name) ≡ true
      → OnlyPassword
          (published json_size r (insert name c r.clients))
          name
          password
          (principal_for c)
  saved-OnlyPassword r name password c h d v other =
      authenticate-published json_size lib r name other c h
      ∙ ap (answer json_size lib)
          (authenticate_client-digest json_size lib name other password c d v)
      ∙ answer-if (bytes_eq (lib.sha256 other) (lib.sha256 password)) c

  rotate_client-OnlyPassword :
      (r : Registry) (name : Bytes) (fresh : Option Bytes) (now : ℕ) (files : Files)
      (found : Option StoredClient) (password : Bytes) (principal : Principal)
      → r.closed ≡ false
      → ((c : StoredClient)
          → found ≡ some c
          → (is_status c.status active && valid_client_name name) ≡ true)
      → Gave (rotate_client json_size lib r name fresh now files found).1 (password, principal)
      → OnlyPassword
          (rotate_client json_size lib r name fresh now files found).0
          name
          password
          principal
  unfolding rotate_client
  rotate_client-OnlyPassword r name fresh now files none password principal h known g =
      absurd (Gave-failed _ authentication_failed g)
  rotate_client-OnlyPassword r name none now files (some c) password principal h known g =
      absurd (Gave-failed _ no_random g)
  rotate_client-OnlyPassword r name (some p) now files (some c) password principal h known g =
      let client = rotated lib c p now in
      let (saved, value) =
        persist_and_publish-Gave json_size lib r (insert name client r.clients) files
          (p, principal_for client) (password, principal) g in
      subst (λ x. OnlyPassword x name password principal) (sym saved)
        (subst
          (λ (v : Bytes × Principal).
            OnlyPassword (published json_size r (insert name client r.clients)) name v.0 v.1)
          value (saved-OnlyPassword r name p client h refl (known c refl)))

  -- A rotation that gave a new password: only passwords of its digest authenticate then, and
  -- as the principal that was given with it.
  pub rotate-OnlyPassword :
      (r : Registry) (name old : Bytes) (fresh : Option Bytes) (now : ℕ) (files : Files)
      (password : Bytes) (principal : Principal)
      → Gave (rotate json_size lib r name old fresh now files).1 (password, principal)
      → OnlyPassword (rotate json_size lib r name old fresh now files).0 name password principal
  unfolding rotate
  rotate-OnlyPassword r name old fresh now files password principal =
      if-intro
        (λ (x : Registry × Reply (Bytes × Principal)).
          Gave x.1 (password, principal) → OnlyPassword x.0 name password principal)
        r.closed (λ _ g. absurd (Gave-failed _ registry_closed g))
        (λ h.
          rotate_client-OnlyPassword r name fresh now files
            (authenticate_client lib name old (lookup name r.clients)) password principal h
            (λ c e.
              (authenticate_client-valid json_size lib name old (lookup name r.clients) c e).1))

  revoke_client-refuses :
      (r : Registry) (name : Bytes) (now : ℕ) (files : Files) (found : Option StoredClient)
      (any : Bytes)
      → r.closed ≡ false
      → Gave (revoke_client json_size lib r name now files found).1 tt
      → authenticate lib (revoke_client json_size lib r name now files found).0 name any
        ≡ failed authentication_failed
  unfolding revoke_client is_status
  revoke_client-refuses r name now files none any h g =
      absurd (Gave-failed _ authentication_failed g)
  revoke_client-refuses r name now files (some c) any h g =
      let client = revoked_client c now in
      ap (λ x. authenticate lib x name any)
        (persist_and_publish-Gave json_size lib r (insert name client r.clients) files tt tt g).0
      ∙ authenticate-published json_size lib r name any client h
      ∙ ap (answer json_size lib) (authenticate_client-inactive json_size lib name any client refl)

  -- After a revocation no password authenticates.
  pub revoke-authenticate :
      (r : Registry) (name password : Bytes) (now : ℕ) (files : Files) (any : Bytes)
      → Gave (revoke json_size lib r name password now files).1 tt
      → authenticate lib (revoke json_size lib r name password now files).0 name any
        ≡ failed authentication_failed
  unfolding revoke
  revoke-authenticate r name password now files any =
      if-intro
        (λ (x : Registry × Reply (Unit {0})).
          Gave x.1 tt → authenticate lib x.0 name any ≡ failed authentication_failed)
        r.closed (λ _ g. absurd (Gave-failed _ registry_closed g))
        (λ h.
          revoke_client-refuses r name now files
            (authenticate_client lib name password (lookup name r.clients)) any h)

  create-OnlyPassword :
      (r : Registry) (name : Bytes) (owner_id fresh : Option Bytes) (created now : ℕ)
      (files : Files) (client : ClientRecord) (password : Bytes)
      → r.closed ≡ false
      → valid_client_name name ≡ true
      → Gave
          (create json_size lib r name owner_id fresh active created now files).1
          (client, password)
      → OnlyPassword
          (create json_size lib r name owner_id fresh active created now files).0
          name
          password
          (record { owner_id = client.owner_id; name = name; credential_generation = 1 })
  unfolding create is_status
  create-OnlyPassword r name none fresh created now files client password h v g =
      absurd (Gave-failed _ no_random g)
  create-OnlyPassword r name (some o) none created now files client password h v g =
      absurd (Gave-failed _ no_random g)
  create-OnlyPassword r name (some o) (some p) created now files client password h v g =
      let c = new_client lib o name p active created now in
      let (saved, value) =
        persist_and_publish-Gave json_size lib r (insert name c r.clients) files
          (public_record c, p) (client, password) g in
      subst
        (λ x.
          OnlyPassword x name password
            (record { owner_id = client.owner_id; name = name; credential_generation = 1 }))
        (sym saved)
        (subst
          (λ (w : ClientRecord × Bytes).
            OnlyPassword (published json_size r (insert name c r.clients)) name w.1
              (record { owner_id = w.0.owner_id; name = name; credential_generation = 1 }))
          value (saved-OnlyPassword r name p c h refl v))

  not-false : (b : Bool) → not b ≡ false → b ≡ true
  not-false true h = refl
  not-false false h = cc

  -- A registration that gave a password: only passwords of its digest authenticate then,
  -- and as the owner that was given with it, in the first generation.
  pub register-OnlyPassword :
      (r : Registry) (name : Bytes) (owner_id fresh : Option Bytes) (now : ℕ) (files : Files)
      (client : ClientRecord) (password : Bytes)
      → Gave (register json_size lib r name owner_id fresh now files).1 (client, password)
      → OnlyPassword
          (register json_size lib r name owner_id fresh now files).0
          name
          password
          (record { owner_id = client.owner_id; name = name; credential_generation = 1 })
  unfolding register
  register-OnlyPassword r name owner_id fresh now files client password =
      let P : Registry × Reply (ClientRecord × Bytes) → Type 0 = λ x.
        Gave x.1 (client, password)
        → OnlyPassword x.0 name password
            (record { owner_id = client.owner_id; name = name; credential_generation = 1 }) in
      if-intro P (not (valid_client_name name))
        (λ _ g. absurd (Gave-failed _ invalid_client_name g))
        (λ v.
          if-intro P r.closed (λ _ g. absurd (Gave-failed _ registry_closed g))
            (λ h.
              if-intro P (is_free (lookup name r.clients))
                (λ _.
                  create-OnlyPassword r name owner_id fresh now now files client password h
                    (not-false (valid_client_name name) v))
                (λ _ g. absurd (Gave-failed _ client_name_unavailable g))))
