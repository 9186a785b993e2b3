-- ===== src/Server/Service/Targets.antt =====
-- internal/server/service.go: how a call gets the tab of its request, and gives it back. Others hold
-- the locks while a call does not, so what they do then is an argument of the call, as are the
-- answers of the runners and the times. A wait for the start that another call has begun takes one
-- element of `while_waiting`.
pub mod Uses
use ptymux.Server.Service.{
  StreamRequestError, validate_stream_request, invalid as invalid_stream, bad_keys,
}
use ptymux.Server.Protocol.{
  InvalidRequest, Request, validate_request, validate_complete_target, is_empty,
}
use ptymux.Server.Uses.{
  TargetKey, Store, StartingTarget, get, begin_existing_use, finish_use, touch_target, enter, Entry,
  refused, existing, waiting, starts, finish_start, close_target, close_all, close_tabs,
}
use ptymux.Server.Snapshot.{Snapshot, snapshot_target}
use ptymux.Server.Format.{RunResult}
use ptymux.Std.Strconv.{ℤ, pos, negsuc}
use ptymux.Prelude.{
  ℕ, zero, suc, ◌+◌, ◌-◌, ◌*◌, ◌/◌, ◌%◌, ◌^◌, ◌≤◌, ◌<◌, min, ◌≡◌, refl, sym, ap, ◌∙◌, subst, ◌≢◌,
  ◌↔◌, ◌⊎◌, inl, inr, Bool, true, false, not, ◌&&◌, ◌||◌, Option, none, some, List, [], ◌∷◌, ◌++◌,
  map, append_assoc, append-nil, arith, ltb, leb, ◌==◌, if◌then◌else◌, ltb→lt, lt→ltb, leb→le,
  ==_iff, tests, Bool-cases, Option-cases, length, set, take, drop, length-append, length-set,
  take-append-drop, length-take, length-drop, take-of-length-le, take-length-append,
  drop-length-append, All, All-append, All-take, All-drop, Bytes, codes, bytes_eq, bytes_eq_refl,
  bytes_eq_iff, if-intro, take-append-of-le, drop-append-of-le, Option-intro,
}

pub record Service : Type 0 where
  pub store : Store
  pub stopping : Bool
  pub operations : ℕ

-- The methods of a Runner; a duration is the two's complement of an int64 of nanoseconds.
pub data RunnerCall : Type 0 where
  run_call send_call text_call command_call keys_call : Bytes → RunnerCall
  send_wait command_wait keys_wait : Bytes → ℕ → RunnerCall
  read_call : ℤ → RunnerCall

pub data FollowCall : Type 0 where
  ctrl_c_follow follow : FollowCall
  command_follow keys_follow send_follow : Bytes → FollowCall

pub data Answer : Type 0 where
  answered : RunResult → Answer
  went_wrong : ℕ → Answer

pub data ServiceError : Type 0 where
  service_stopping target_not_found : ServiceError
  invalid : InvalidRequest → ServiceError
  invalid_stream_request : StreamRequestError → ServiceError
  raised : ℕ → ServiceError
  unknown_action not_streaming : Bytes → ServiceError

pub data Response : Type 0 where
  failed : ServiceError → Response
  result : RunResult → Response
  listing : Snapshot → Response
  empty : Response

pub record Others : Type 0 where
  pub before_use : Service → Service
  pub while_waiting : List (Store → Store)
  pub while_starting : Store → Store
  pub while_running : Service → Service
  pub start_err : Option ℕ
  pub close_err : Option ℕ
  pub entered_at : ℕ
  pub started_at : ℕ
  pub finished_at : ℕ
  pub runner : ℕ → RunnerCall → Answer
  pub follower : ℕ → FollowCall → Option ℕ
  pub close : ℕ → Option ℕ

-- What `beginTargetUse` gives; a call may wait for another one still.
pub data Use : Type 0 where
  refuses : ServiceError → Use
  no_tab still_waiting : Use
  uses_tab : ℕ → Use

abbrev pub key_of : Request → TargetKey
key_of req = record { session = req.session; pane = req.pane; tab = req.tab }

unfoldable pub started : Bool → Option ℕ → Option ℕ → Use
started true err tab = no_tab
started false (some e) tab = refuses (raised e)
started false none none = no_tab
started false none (some tab) = uses_tab tab

-- the rest of `getOrCreate` for the call that starts the runner
unfoldable pub start : Others → Store → TargetKey → ℕ → Store × Use
unfolding started finish_start get
start o st key i =
    let before = o.while_starting st in
    let canceled : Bool = elim (get before.targets i) [ none ↦ false | some t ↦ t.canceled ] in
    let (after, tab) = finish_start before key i o.start_err o.close_err o.started_at true in
    (after, started canceled o.start_err tab)

-- What follows the wait for another call's start: an error of it, or another round.
waited : Option StartingTarget → Store → Store × Use → Store × Use
waited none st retry = retry
waited (some t) st retry =
    if t.canceled
    then (st, no_tab)
    else elim t.start_err [ none ↦ retry | some e ↦ (st, refuses (raised e)) ]

unfoldable pub proceed :
    Others → TargetKey → Store × Entry → (Store → ℕ → Store × Use) → Store × Use
unfolding start
proceed o key (st, refused e) wait = (st, refuses (invalid e))
proceed o key (st, existing tab) wait = (st, uses_tab tab)
proceed o key (st, starts i) wait = start o st key i
proceed o key (st, waiting i) wait = wait st i

-- `BeginUseWithError`
unfoldable pub get_or_create : Others → List (Store → Store) → Store → TargetKey → Store × Use
unfolding proceed waited enter get
get_or_create o [] st key =
    proceed o key (enter st key o.entered_at true) (λ entered i. (entered, still_waiting))
get_or_create o (meanwhile ∷ waits) st key =
    proceed o key (enter st key o.entered_at true) (λ entered i.
      waited (get (meanwhile entered).targets i) (meanwhile entered)
        (get_or_create o waits (meanwhile entered) key))

found : Service → Store × Option ℕ → Service × Use
found s (st, none) = (record s { store = st }, no_tab)
found s (st, some tab) = (record s { store = st }, uses_tab tab)

unfoldable pub got : Service → Store × Use → Service × Use
got s (st, use_) = (record s { store = st }, use_)

unfoldable pub begin_target_use : Others → Service → Request → Bool → Service × Use
unfolding get_or_create begin_existing_use found got
begin_target_use o s req false = found s (begin_existing_use s.store (key_of req) o.entered_at)
begin_target_use o s req true =
    if s.stopping
    then (s, refuses service_stopping)
    else got s (get_or_create o o.while_waiting s.store (key_of req))

-- `none` if the call has not returned
unfoldable pub finish : Others → Service × Use → (ℕ → Response) → Option (Service × Response)
unfolding finish_use
finish o (s, refuses e) respond = some (s, failed e)
finish o (s, no_tab) respond = some (s, failed target_not_found)
finish o (s, still_waiting) respond = none
finish o (s, uses_tab tab) respond =
    let after = o.while_running s in
    some (record after { store = finish_use after.store tab o.finished_at }, respond tab)

unfoldable pub use_target :
    Others → Service → Request → Bool → (ℕ → Response) → Option (Service × Response)
unfolding finish begin_target_use
use_target o s req create_missing respond =
    finish o (begin_target_use o (o.before_use s) req create_missing) respond
