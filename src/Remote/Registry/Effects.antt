-- ===== src/Remote/Registry/Effects.antt =====
-- What the operations do to the registry: nothing, or one client is written and published.
use ptymux.Remote.Registry.Client.{
  Crypto, ClientStatus, pending, active, is_status, StoredClient, credential_matches, ClientRecord,
}
use ptymux.Remote.Registry.{
  Registry, Reply, Files, replaces, published, persist_and_publish, new_client, create, is_free,
  register, recover, prepare_owner, prepare_created, is_active, prepare_registration,
  commit_registration, rotated, rotate, revoked_client, revoke, close,
}
use ptymux.Remote.Names.{valid_client_name}
use ptymux.Std.Map.{lookup, insert}
use ptymux.Prelude.{
  ℕ, ◌≡◌, refl, Bool, true, false, not, Option, none, some, List, ◌==◌, length, Bytes, if-intro,
}

-- The arguments of an operation, and what the system answers.
pub data Call : Type 0 where
  register_call prepare_call : Bytes → Option Bytes → Option Bytes → ℕ → Files → Call
  commit_call revoke_call : Bytes → ℕ → Files → Call
  rotate_call : Bytes → Option Bytes → ℕ → Files → Call
  close_call : Call

-- What stands for a name before and after a write, and the call that wrote it.
pub data Move (lib : Crypto) (name : Bytes)
    : Call → Option StoredClient → StoredClient → Type 0 where
  registers :
      {sent : Bytes} {owner fresh : Option Bytes} {files : Files} (old : Option StoredClient)
      (owner_id password : Bytes) (now : ℕ)
      → valid_client_name name ≡ true
      → is_free old ≡ true
      → Move lib name
          (register_call sent owner fresh now files)
          old
          (new_client lib owner_id name password active now now)
  prepares :
      {sent : Bytes} {token : Option Bytes} {files : Files} (old : Option StoredClient)
      (owner_id password : Bytes) (fresh : Option Bytes) (now : ℕ)
      → valid_client_name name ≡ true
      → is_active old ≡ false
      → prepare_owner old fresh ≡ some owner_id
      → Move lib name
          (prepare_call sent fresh token now files)
          old
          (new_client lib owner_id name password pending (prepare_created old now) now)
  commits :
      {sent : Bytes} {files : Files} (c : StoredClient) (now : ℕ)
      → is_status c.status pending ≡ true
      → Move lib name
          (commit_call sent now files)
          (some c)
          (record c { status = active; updated_at = now })
  rotates :
      {sent : Bytes} {fresh : Option Bytes} {files : Files} (c : StoredClient) (password : Bytes)
      (now : ℕ)
      → is_status c.status active ≡ true
      → Move lib name (rotate_call sent fresh now files) (some c) (rotated lib c password now)
  revokes :
      {sent : Bytes} {files : Files} (c : StoredClient) (now : ℕ)
      → is_status c.status active ≡ true
      → Move lib name (revoke_call sent now files) (some c) (revoked_client c now)

module _ (json_size : List StoredClient → ℕ) (lib : Crypto) where
  -- The registry after a call for a name; the reply is left out.
  unfoldable pub run : Registry → Bytes → Call → Registry
  run r name (register_call password owner_id fresh now files) =
      (register json_size lib r name owner_id fresh now files).0
  run r name (prepare_call password owner_id fresh now files) =
      (prepare_registration json_size lib r name password owner_id fresh now files).0
  run r name (commit_call password now files) =
      (commit_registration json_size lib r name password now files).0
  run r name (revoke_call password now files) = (revoke json_size lib r name password now files).0
  run r name (rotate_call password fresh now files) =
      (rotate json_size lib r name password fresh now files).0
  run r name close_call = close r

  pub data Effect (r : Registry) (name : Bytes) (call : Call) (next : Registry) : Type 0 where
    same : next ≡ r → Effect r name call next
    closes : next ≡ close r → Effect r name call next
    writes :
        (c : StoredClient)
        → r.closed ≡ false
        → Move lib name call (lookup name r.clients) c
        → next ≡ published json_size r (insert name c r.clients)
        → Effect r name call next

  pub persist_and_publish-Effect :
      {A : Type 0} (r : Registry) (name : Bytes) (call : Call) (c : StoredClient) (files : Files)
      (value : A)
      → r.closed ≡ false
      → Move lib name call (lookup name r.clients) c
      → Effect r name call (persist_and_publish json_size r (insert name c r.clients) files value).0
  unfolding persist_and_publish
  persist_and_publish-Effect {A = A} r name call c files value h m =
      if-intro (λ (x : Registry × Reply A). Effect r name call x.0)
        (replaces json_size files (insert name c r.clients)) (λ _. writes c h m refl)
        (λ _. same refl)

  not-true : (b : Bool) → not b ≡ false → b ≡ true
  not-true true h = refl
  not-true false h = cc

  create-Effect :
      (r : Registry) (name : Bytes) (call : Call) (owner_id fresh : Option Bytes)
      (status : ClientStatus) (created now : ℕ) (files : Files)
      → r.closed ≡ false
      → ((o p : Bytes)
          → owner_id ≡ some o
          → fresh ≡ some p
          → Move lib name call (lookup name r.clients) (new_client lib o name p status created now))
      → Effect r name call (create json_size lib r name owner_id fresh status created now files).0
  unfolding create
  create-Effect r name call none fresh status created now files h m = same refl
  create-Effect r name call (some o) none status created now files h m = same refl
  create-Effect r name call (some o) (some p) status created now files h m =
      persist_and_publish-Effect r name call (new_client lib o name p status created now) files _ h
        (m o p refl refl)

  pub register-Effect :
      (r : Registry) (name sent : Bytes) (owner_id fresh : Option Bytes) (now : ℕ) (files : Files)
      → Effect r name
          (register_call sent owner_id fresh now files)
          (register json_size lib r name owner_id fresh now files).0
  unfolding register
  register-Effect r name sent owner_id fresh now files =
      let call = register_call sent owner_id fresh now files in
      let P : Registry × Reply _ → Type 0 = λ x. Effect r name call x.0 in
      if-intro P (not (valid_client_name name)) (λ _. same refl)
        (λ valid.
          if-intro P r.closed (λ _. same refl)
            (λ open_.
              if-intro P (is_free (lookup name r.clients))
                (λ free.
                  create-Effect r name call owner_id fresh active now now files open_
                    (λ o p _ _. registers (lookup name r.clients) o p now (not-true _ valid) free))
                (λ _. same refl)))

  recover-same :
      (r : Registry) (password : Bytes) (old : Option StoredClient)
      → (recover lib r password old).0 ≡ r
  unfolding recover
  recover-same r password none = refl
  recover-same r password (some c) =
      if-intro (λ (x : Registry × Reply (ClientRecord × Bytes)). x.0 ≡ r)
        (credential_matches lib c.password_sha256 password (is_status c.status pending)) (λ _. refl)
        (λ _. refl)

  pub prepare_registration-Effect :
      (r : Registry) (name password : Bytes) (owner_id fresh : Option Bytes) (now : ℕ)
      (files : Files)
      → Effect r name
          (prepare_call password owner_id fresh now files)
          (prepare_registration json_size lib r name password owner_id fresh now files).0
  unfolding prepare_registration
  prepare_registration-Effect r name password owner_id fresh now files =
      let call = prepare_call password owner_id fresh now files in
      let old = lookup name r.clients in
      let P : Registry × Reply (ClientRecord × Bytes) → Type 0 = λ x. Effect r name call x.0 in
      if-intro P (not (valid_client_name name)) (λ _. same refl)
        (λ valid.
          if-intro P r.closed (λ _. same refl)
            (λ open_.
              if-intro P (is_active old) (λ _. same refl)
                (λ inactive.
                  if-intro P (not (length password == 0)) (λ _. same (recover-same r password old))
                    (λ _.
                      create-Effect r name call (prepare_owner old owner_id) fresh pending
                        (prepare_created old now) now files open_
                        (λ o p e _. prepares old o p owner_id now (not-true _ valid) inactive e)))))
