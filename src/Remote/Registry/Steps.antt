-- ===== src/Remote/Registry/Steps.antt =====
-- Every operation has an effect: committing, rotating and revoking, and the operations together.
use ptymux.Remote.Registry.Client.{
  Crypto, pending, active, is_status, StoredClient, credential_matches, Principal,
}
use ptymux.Remote.Registry.{
  Registry, Reply, Files, commit_client, commit_registration, authenticate_client, rotated,
  rotate_client, rotate, revoked_client, revoke_client, revoke,
}
use ptymux.Remote.Registry.Effects.{
  Move, commits, rotates, revokes, Call, register_call, prepare_call, commit_call, revoke_call,
  rotate_call, close_call, run, Effect, same, closes, persist_and_publish-Effect, register-Effect,
  prepare_registration-Effect,
}
use ptymux.Remote.Names.{valid_client_name}
use ptymux.Std.Map.{lookup}
use ptymux.Prelude.{
  ℕ, ◌≡◌, refl, sym, ◌∙◌, subst, inl, inr, Bool, true, false, ◌&&◌, Option, none, some, List,
  Bool-cases, Bytes, if-intro,
}

module _ (json_size : List StoredClient → ℕ) (lib : Crypto) where
  and-first : (a b : Bool) → (a && b) ≡ true → a ≡ true
  and-first true b h = refl
  and-first false b h = cc

  -- A credential that is checked as not valid does not match.
  pub credential_matches-valid :
      (digest password : Bytes) (valid : Bool)
      → credential_matches lib digest password valid ≡ true
      → valid ≡ true
  unfolding credential_matches
  credential_matches-valid digest password true h = refl
  credential_matches-valid digest password false h = h

  commit_client-Effect :
      (r : Registry) (name password : Bytes) (now : ℕ) (files : Files) (old : Option StoredClient)
      → r.closed ≡ false
      → lookup name r.clients ≡ old
      → Effect json_size lib r name
          (commit_call password now files)
          (commit_client json_size lib r name password now files old).0
  unfolding commit_client
  commit_client-Effect r name password now files none h e = same refl
  commit_client-Effect r name password now files (some c) h e =
      let valid = is_status c.status pending && valid_client_name name in
      if-intro
        (λ (x : Registry × Reply Principal).
          Effect json_size lib r name (commit_call password now files) x.0)
        (credential_matches lib c.password_sha256 password valid)
        (λ m.
          persist_and_publish-Effect json_size lib r name (commit_call password now files)
            (record c { status = active; updated_at = now }) files _ h
            (subst
              (λ o.
                Move lib name (commit_call password now files) o
                  (record c { status = active; updated_at = now }))
              (sym e)
              (commits c now (
                and-first (is_status c.status pending) (valid_client_name name)
                  (credential_matches-valid c.password_sha256 password valid m)))))
        (λ _. same refl)

  -- The client that a password authenticates is the one that is stored, and its credential counts.
  pub authenticate_client-valid :
      (name password : Bytes) (old : Option StoredClient) (c : StoredClient)
      → authenticate_client lib name password old ≡ some c
      → (old ≡ some c) × ((is_status c.status active && valid_client_name name) ≡ true)
  unfolding authenticate_client
  authenticate_client-valid name password none c h = absurd cc
  authenticate_client-valid name password (some d) c h =
      let valid = is_status d.status active && valid_client_name name in
      elim (Bool-cases (credential_matches lib d.password_sha256 password valid)) [
        | inl m ↦
            let found : authenticate_client lib name password (some d) ≡ some d =
              rw (m, authenticate_client) refl in
            let e : some d ≡ some c = sym found ∙ h in
            let same_client : d ≡ c = cc in
            (
              e,
              subst
                  (λ (x : StoredClient).
                    (is_status x.status active && valid_client_name name) ≡ true)
                  same_client (credential_matches-valid d.password_sha256 password valid m),
            )
        | inr m ↦
            let found : authenticate_client lib name password (some d) ≡ none =
              rw (m, authenticate_client) refl in
            absurd (let bad : none ≡ some c = sym found ∙ h in cc)
      ]

  authenticate_client-active :
      (name password : Bytes) (old : Option StoredClient) (c : StoredClient)
      → authenticate_client lib name password old ≡ some c
      → (old ≡ some c) × (is_status c.status active ≡ true)
  authenticate_client-active name password old c h =
      let (e, valid) = authenticate_client-valid name password old c h in
      (e, and-first (is_status c.status active) (valid_client_name name) valid)

  rotate_client-Effect :
      (r : Registry) (name sent : Bytes) (fresh : Option Bytes) (now : ℕ) (files : Files)
      (found : Option StoredClient)
      → r.closed ≡ false
      → ((c : StoredClient)
          → found ≡ some c
          → (lookup name r.clients ≡ some c) × (is_status c.status active ≡ true))
      → Effect json_size lib r name
          (rotate_call sent fresh now files)
          (rotate_client json_size lib r name fresh now files found).0
  unfolding rotate_client
  rotate_client-Effect r name sent fresh now files none h known = same refl
  rotate_client-Effect r name sent none now files (some c) h known = same refl
  rotate_client-Effect r name sent (some p) now files (some c) h known =
      let (here, on) = known c refl in
      persist_and_publish-Effect json_size lib r name (rotate_call sent (some p) now files)
        (rotated lib c p now) files _ h
        (subst (λ o. Move lib name (rotate_call sent (some p) now files) o (rotated lib c p now))
          (sym here) (rotates c p now on))

  revoke_client-Effect :
      (r : Registry) (name sent : Bytes) (now : ℕ) (files : Files) (found : Option StoredClient)
      → r.closed ≡ false
      → ((c : StoredClient)
          → found ≡ some c
          → (lookup name r.clients ≡ some c) × (is_status c.status active ≡ true))
      → Effect json_size lib r name
          (revoke_call sent now files)
          (revoke_client json_size lib r name now files found).0
  unfolding revoke_client
  revoke_client-Effect r name sent now files none h known = same refl
  revoke_client-Effect r name sent now files (some c) h known =
      let (here, on) = known c refl in
      persist_and_publish-Effect json_size lib r name (revoke_call sent now files)
        (revoked_client c now) files tt h
        (subst (λ o. Move lib name (revoke_call sent now files) o (revoked_client c now)) (sym here)
          (revokes c now on))

  -- Every call leaves the registry as it is, closes it, or writes the client of its name by one of
  -- the moves, and publishes that.
  pub run-Effect :
      (r : Registry) (name : Bytes) (call : Call)
      → Effect json_size lib r name call (run json_size lib r name call)
  unfolding run commit_registration rotate revoke
  run-Effect r name (register_call password owner_id fresh now files) =
      register-Effect json_size lib r name password owner_id fresh now files
  run-Effect r name (prepare_call password owner_id fresh now files) =
      prepare_registration-Effect json_size lib r name password owner_id fresh now files
  run-Effect r name (commit_call password now files) =
      if-intro
        (λ (x : Registry × Reply Principal).
          Effect json_size lib r name (commit_call password now files) x.0)
        r.closed (λ _. same refl)
        (λ h. commit_client-Effect r name password now files (lookup name r.clients) h refl)
  run-Effect r name (revoke_call password now files) =
      if-intro
        (λ (x : Registry × Reply (Unit {0})).
          Effect json_size lib r name (revoke_call password now files) x.0)
        r.closed (λ _. same refl)
        (λ h.
          revoke_client-Effect r name password now files
            (authenticate_client lib name password (lookup name r.clients)) h
            (authenticate_client-active name password (lookup name r.clients)))
  run-Effect r name (rotate_call password fresh now files) =
      if-intro
        (λ (x : Registry × Reply (Bytes × Principal)).
          Effect json_size lib r name (rotate_call password fresh now files) x.0)
        r.closed (λ _. same refl)
        (λ h.
          rotate_client-Effect r name password fresh now files
            (authenticate_client lib name password (lookup name r.clients)) h
            (authenticate_client-active name password (lookup name r.clients)))
  run-Effect r name close_call = closes refl
