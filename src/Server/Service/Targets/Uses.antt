-- ===== src/Server/Service/Targets/Uses.antt =====
-- What a call does to the use counts until it has its tab, and behind that.
use ptymux.Server.Uses.Grants.{
  SameUses, OneMore, Entered, enter-Entered, Started, canceled_at, finish_start-Started,
  begin_existing_use-OneMore, finish_use-SameUses,
}
use ptymux.Server.Service.Targets.{
  Service, Response, Others, Use, refuses, no_tab, still_waiting, uses_tab, key_of, started, start,
  waited, proceed, get_or_create, found, got, begin_target_use, finish, use_target,
}
use ptymux.Server.Protocol.{Request}
use ptymux.Server.Uses.{
  TargetKey, Store, StartingTarget, get, begin_existing_use, enter, Entry, refused, existing,
  waiting, starts, finish_start,
}
use ptymux.Prelude.{
  ℕ, ◌-◌, ◌≡◌, refl, ap, ◌∙◌, Bool, true, false, Option, none, some, List, [], ◌∷◌, ◌==◌,
  if◌then◌else◌, All, if-intro, Option-intro,
}

pub Given : Store → Store × Use → Type 0
Given a (b, refuses e) = SameUses a b
Given a (b, no_tab) = SameUses a b
Given a (b, still_waiting) = SameUses a b
Given a (b, uses_tab tab) = OneMore a b tab

-- what the others do keeps the uses
pub record IsQuiet (o : Others) : Type 0 where
  pub before : (s : Service) → SameUses s.store (o.before_use s).store
  pub before_operations : (s : Service) → s.operations ≡ (o.before_use s).operations
  pub meanwhile : All (λ wait. (st : Store) → SameUses st (wait st)) o.while_waiting
  pub starting : (st : Store) → SameUses st (o.while_starting st)
  pub running : (s : Service) → SameUses s.store (o.while_running s).store
  pub running_operations : (s : Service) → s.operations ≡ (o.while_running s).operations

started-Given :
    (a b : Store) (canceled : Bool) (err tab : Option ℕ)
    → Started a canceled err (b, tab)
    → Given a (b, started canceled err tab)
unfolding Given started Started
started-Given a b true err none h = h
started-Given a b false none none h = h
started-Given a b false (some e) none h = h
started-Given a b true err (some tab) h = let bad : true ≡ false = h.0 in absurd cc
started-Given a b false none (some tab) h = h.2
started-Given a b false (some e) (some tab) h = let bad : some e ≡ none = h.1 in absurd cc

after_same : (a b : Store) (r : Store × Use) → SameUses a b → Given b r → Given a r
unfolding Given
after_same a b (c, refuses e) h g = λ i. h i ∙ g i
after_same a b (c, no_tab) h g = λ i. h i ∙ g i
after_same a b (c, still_waiting) h g = λ i. h i ∙ g i
after_same a b (c, uses_tab tab) h g = λ i. h i ∙ g i

start-Given :
    (o : Others) (st : Store) (key : TargetKey) (i : ℕ) → IsQuiet o → Given st (start o st key i)
unfolding start
start-Given o st key i q =
    let before = o.while_starting st in
    let ended = finish_start before key i o.start_err o.close_err o.started_at true in
    after_same st before _ (q.starting st) (
      started-Given before ended.0 (canceled_at before i) o.start_err ended.1
        (finish_start-Started before key i o.start_err o.close_err o.started_at))

waited-Given :
    (a b : Store) (t : Option StartingTarget) (retry : Store × Use)
    → SameUses a b
    → Given a retry
    → Given a (waited t b retry)
unfolding Given waited
waited-Given a b none retry h g = g
waited-Given a b (some t) retry h g =
    if-intro (Given a) t.canceled (λ _. h)
      (λ _. Option-intro (Given a) t.start_err (λ _. g) (λ e _. h))

proceed-Given :
    (o : Others) (a : Store) (key : TargetKey) (r : Store × Entry) (wait : Store → ℕ → Store × Use)
    → IsQuiet o
    → Entered a r
    → ((b : Store) (i : ℕ) → SameUses a b → Given a (wait b i))
    → Given a (proceed o key r wait)
unfolding Given proceed Entered
proceed-Given o a key (b, refused e) wait q h w = h
proceed-Given o a key (b, existing tab) wait q h w = h
proceed-Given o a key (b, starts i) wait q h w =
    after_same a b (start o b key i) h (start-Given o b key i q)
proceed-Given o a key (b, waiting i) wait q h w = w b i h

get_or_create-Given :
    (o : Others) (waits : List (Store → Store)) (st : Store) (key : TargetKey)
    → IsQuiet o
    → All (λ wait. (st : Store) → SameUses st (wait st)) waits
    → Given st (get_or_create o waits st key)
unfolding get_or_create Given
get_or_create-Given o [] st key q w =
    proceed-Given o st key (enter st key o.entered_at true) _ q (enter-Entered st key o.entered_at)
      (λ b i h. h)
get_or_create-Given o (meanwhile ∷ waits) st key q (h, w) =
    proceed-Given o st key (enter st key o.entered_at true) _ q (enter-Entered st key o.entered_at)
      (λ b i same.
        let next = meanwhile b in
        let retry = get_or_create o waits next key in
        let behind : SameUses st next = λ j. same j ∙ h b j in
        waited-Given st next (get next.targets i) retry behind
          (after_same st next retry behind (get_or_create-Given o waits next key q w)))

found-Given :
    (s : Service) (r : Store × Option ℕ)
    → Started s.store false none r
    → (Given s.store ((found s r).0.store, (found s r).1))
      × (s.operations ≡ (found s r).0.operations)
unfolding found Given Started
found-Given s (b, none) h = (h, refl)
found-Given s (b, some tab) h = (h.2, refl)

got-Given :
    (s : Service) (r : Store × Use)
    → Given s.store r
    → (Given s.store ((got s r).0.store, (got s r).1)) × (s.operations ≡ (got s r).0.operations)
unfolding got
got-Given s (b, use_) h = (h, refl)

begin_target_use-Given :
    (o : Others) (s : Service) (req : Request) (create_missing : Bool)
    → IsQuiet o
    → (Given s.store (
      (begin_target_use o s req create_missing).0.store,
      (begin_target_use o s req create_missing).1,
    ))
      × (s.operations ≡ (begin_target_use o s req create_missing).0.operations)
unfolding begin_target_use Given
begin_target_use-Given o s req false q =
    found-Given s (begin_existing_use s.store (key_of req) o.entered_at)
      (begin_existing_use-OneMore s.store (key_of req) o.entered_at)
begin_target_use-Given o s req true q =
    if-intro
      (λ (r : Service × Use). (Given s.store (r.0.store, r.1)) × (s.operations ≡ r.0.operations))
      s.stopping (λ _. (λ i. refl, refl))
      (λ _.
        got-Given s (get_or_create o o.while_waiting s.store (key_of req))
          (get_or_create-Given o o.while_waiting s.store (key_of req) q q.meanwhile))

-- The uses and the operations are as they were.
abbrev pub Keeps : Service → Service → Type 0
Keeps a b = SameUses a.store b.store × (a.operations ≡ b.operations)

-- A property of the service behind a call that has returned.
unfoldable pub Returned : {A : Type 0} → (Service → Type 0) → Option (Service × A) → Type 0
Returned P none = Unit {0}
Returned P (some r) = P r.0

finish-Keeps :
    (o : Others) (a : Service) (s : Service) (use_ : Use) (respond : ℕ → Response)
    → IsQuiet o
    → Given a.store (s.store, use_)
    → a.operations ≡ s.operations
    → Returned (Keeps a) (finish o (s, use_) respond)
unfolding Given Returned finish
finish-Keeps o a s (refuses e) respond q h n = (h, n)
finish-Keeps o a s no_tab respond q h n = (h, n)
finish-Keeps o a s still_waiting respond q h n = tt
finish-Keeps o a s (uses_tab tab) respond q h n =
    let after = o.while_running s in
    (
      finish_use-SameUses a.store after.store tab o.finished_at
          (λ i. h i ∙ ap (λ n. n - (if tab == i then 1 else 0)) (q.running s i)),
      n ∙ q.running_operations s,
    )

pub use_target-Keeps :
    (o : Others) (s : Service) (req : Request) (create_missing : Bool) (respond : ℕ → Response)
    → IsQuiet o
    → Returned (Keeps s) (use_target o s req create_missing respond)
unfolding use_target
use_target-Keeps o s req create_missing respond q =
    let before = o.before_use s in
    let begun = begin_target_use o before req create_missing in
    let (given, same) = begin_target_use-Given o before req create_missing q in
    finish-Keeps o s begun.0 begun.1 respond q
      (after_same s.store before.store (begun.0.store, begun.1) (q.before s) given)
      (q.before_operations s ∙ same)
