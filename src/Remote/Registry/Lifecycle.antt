-- ===== src/Remote/Registry/Lifecycle.antt =====
-- What any sequence of operations does to the clients and to the file.
use ptymux.Remote.Registry.Client.{Crypto, pending, active, revoked, unknown, StoredClient}
use ptymux.Remote.Registry.{Registry, Files, sorted_clients}
use ptymux.Remote.Registry.Effects.{
  Call, register_call, prepare_call, commit_call, rotate_call, revoke_call, run, Effect, same,
  closes, writes,
}
use ptymux.Remote.Registry.Steps.{run-Effect}
use ptymux.Prelude.{ℕ, ◌+◌, ◌%◌, ◌^◌, ◌≡◌, refl, sym, subst, ◌⊎◌, Option, none, some, List, Bytes}

-- How a call may change what stands for its name. A client of unknown status may only come from a
-- registry that was not loaded.
pub data Changes : Call → Option StoredClient → Option StoredClient → Type 0 where
  keeps : {call : Call} (old : Option StoredClient) → Changes call old old
  registered :
      {sent : Bytes} {owner fresh : Option Bytes} {now : ℕ} {files : Files} (d : StoredClient)
      → d.status ≡ active
      → Changes (register_call sent owner fresh now files) none (some d)
  reregistered :
      {sent : Bytes} {owner fresh : Option Bytes} {now : ℕ} {files : Files} (c d : StoredClient)
      → c.status ≡ revoked
      → d.status ≡ active
      → Changes (register_call sent owner fresh now files) (some c) (some d)
  prepared :
      {sent : Bytes} {owner fresh : Option Bytes} {now : ℕ} {files : Files} (d : StoredClient)
      → d.status ≡ pending
      → Changes (prepare_call sent owner fresh now files) none (some d)
  reprepared :
      {sent : Bytes} {owner fresh : Option Bytes} {now : ℕ} {files : Files} (c d : StoredClient)
      → c.status ≡ pending
      → d.status ≡ pending
      → d.owner_id ≡ c.owner_id
      → Changes (prepare_call sent owner fresh now files) (some c) (some d)
  renewed :
      {sent : Bytes} {owner fresh : Option Bytes} {now : ℕ} {files : Files} (c d : StoredClient)
      → (c.status ≡ revoked) ⊎ (c.status ≡ unknown)
      → d.status ≡ pending
      → owner ≡ some d.owner_id
      → Changes (prepare_call sent owner fresh now files) (some c) (some d)
  committed :
      {sent : Bytes} {now : ℕ} {files : Files} (c : StoredClient)
      → c.status ≡ pending
      → Changes
          (commit_call sent now files)
          (some c)
          (some (record c { status = active; updated_at = now }))
  rotated_to :
      {sent : Bytes} {fresh : Option Bytes} {now : ℕ} {files : Files} (c : StoredClient)
      (digest : Bytes)
      → c.status ≡ active
      → Changes (rotate_call sent fresh now files) (some c) (
          some (record c {
            password_sha256 = digest;
            credential_generation = (c.credential_generation + 1) % 2 ^ 64;
            updated_at = now;
          }))
  dropped :
      {sent : Bytes} {now : ℕ} {files : Files} (c : StoredClient)
      → c.status ≡ active
      → Changes
          (revoke_call sent now files)
          (some c)
          (some (record c { status = revoked; updated_at = now; revoked_at = some now }))

-- An invariant of the file: it holds the clients that are published.
abbrev pub IsAligned : Registry → Type 0
IsAligned r = r.file ≡ sorted_clients r.clients

module _ (json_size : List StoredClient → ℕ) (lib : Crypto) where
  -- the registries that a sequence of calls leads to
  pub data Reach (r : Registry) : Registry → Type 0 where
    here : Reach r r
    after :
        {s : Registry}
        → Reach r s
        → (name : Bytes) (call : Call) → Reach r (run json_size lib s name call)

  Effect-IsAligned :
      (r : Registry) (name : Bytes) (call : Call) (next : Registry)
      → Effect json_size lib r name call next
      → IsAligned r
      → IsAligned next
  Effect-IsAligned r name call next (same e) h = subst IsAligned (sym e) h
  Effect-IsAligned r name call next (closes e) h = subst IsAligned (sym e) h
  Effect-IsAligned r name call next (writes c o m e) h = subst IsAligned (sym e) refl

  -- Whatever the calls are and however their file operations end, the file holds the clients that
  -- the registry answers from, if it did so at the start.
  pub Reach-IsAligned : {r s : Registry} → IsAligned r → Reach r s → IsAligned s
  Reach-IsAligned h here = h
  Reach-IsAligned h (after {s = s} p name call) =
      Effect-IsAligned s name call (run json_size lib s name call)
        (run-Effect json_size lib s name call) (Reach-IsAligned h p)
