-- ===== src/Server/Service/Handle.antt =====
-- internal/server/service.go: the handling of requests, with their answers.
pub mod Balance
mod Examples
use ptymux.Server.Service.Targets.{
  Service, RunnerCall, run_call, send_call, text_call, command_call, keys_call, send_wait,
  command_wait, keys_wait, read_call, FollowCall, ctrl_c_follow, follow, command_follow,
  keys_follow, send_follow, Answer, answered, went_wrong, ServiceError, service_stopping,
  target_not_found, invalid, invalid_stream_request, raised, unknown_action, not_streaming,
  Response, failed, result, listing, empty, Others, key_of, use_target,
}
use ptymux.Server.Service.{
  StreamRequestError, validate_stream_request, invalid as invalid_stream, bad_keys,
}
use ptymux.Server.Protocol.{
  InvalidRequest, Request, validate_request, validate_complete_target, is_empty,
}
use ptymux.Server.Uses.{
  TargetKey, Store, StartingTarget, get, begin_existing_use, finish_use, touch_target, enter, Entry,
  refused, existing, waiting, starts, finish_start, close_target, close_all, close_tabs,
}
use ptymux.Server.Snapshot.{Snapshot, snapshot_target}
use ptymux.Server.Format.{RunResult}
use ptymux.Std.Strconv.{ℤ, pos, negsuc}
use ptymux.Prelude.{
  ℕ, zero, suc, ◌+◌, ◌-◌, ◌*◌, ◌/◌, ◌%◌, ◌^◌, ◌≤◌, ◌<◌, min, ◌≡◌, refl, sym, ap, ◌∙◌, subst, ◌≢◌,
  ◌↔◌, ◌⊎◌, inl, inr, Bool, true, false, not, ◌&&◌, ◌||◌, Option, none, some, List, [], ◌∷◌, ◌++◌,
  map, append_assoc, append-nil, arith, ltb, leb, ◌==◌, if◌then◌else◌, ltb→lt, lt→ltb, leb→le,
  ==_iff, tests, Bool-cases, Option-cases, length, set, take, drop, length-append, length-set,
  take-append-drop, length-take, length-drop, take-of-length-le, take-length-append,
  drop-length-append, All, All-append, All-take, All-drop, Bytes, codes, bytes_eq, bytes_eq_refl,
  bytes_eq_iff, if-intro, take-append-of-le, drop-append-of-le, Option-intro,
}

-- a number of milliseconds as a Duration
unfoldable pub duration : ℤ → ℕ
duration (pos n) = n * 1000000 % 2 ^ 64
duration (negsuc n) = (2 ^ 64 - suc n * 1000000 % 2 ^ 64) % 2 ^ 64

unfoldable pub is_positive : ℤ → Bool
is_positive (pos n) = not (n == 0)
is_positive (negsuc n) = false

-- The wait of "idle": half a second, if the duration is not positive.
abbrev idle_wait : ℤ → ℕ
idle_wait n =
    let wait = duration n in if ltb 0 wait && ltb wait (2 ^ 63) then wait else 500 * 1000000

waits_for : Request → (Bytes → ℕ → RunnerCall) → (Bytes → RunnerCall) → RunnerCall
unfolding duration is_positive
waits_for req waiting_call plain =
    if is_positive req.wait_millis
    then waiting_call req.command (duration req.wait_millis)
    else plain req.command

-- The runner's part of a request. The answer to a plain call, which has an error only, has no result.
pub runner_call : Request → Option RunnerCall
unfolding waits_for bytes_eq
runner_call req =
    if bytes_eq req.action (codes "run")
    then some (run_call req.command)
    else if bytes_eq req.action (codes "idle")
    then some (send_wait req.command (idle_wait req.wait_millis))
    else if bytes_eq req.action (codes "send")
    then some (waits_for req send_wait send_call)
    else if bytes_eq req.action (codes "text")
    then some (text_call req.command)
    else if bytes_eq req.action (codes "command")
    then some (waits_for req command_wait command_call)
    else if bytes_eq req.action (codes "keys")
    then some (waits_for req keys_wait keys_call)
    else if bytes_eq req.action (codes "read")
    then some (read_call req.read_count)
    else none

has_result : RunnerCall → Bool
has_result (send_call s) = false
has_result (text_call s) = false
has_result (command_call s) = false
has_result (keys_call s) = false
has_result _ = true

respond : RunnerCall → Answer → Response
unfolding has_result
respond call (went_wrong e) = failed (raised e)
respond call (answered r) = if has_result call then result r else empty

error_response : Option ℕ → Response
error_response none = empty
error_response (some e) = failed (raised e)

first_error : Option ℕ → Option ℕ → Option ℕ
first_error (some e) later = some e
first_error none later = later

-- what `Close` returned for a start that was waited for
start_close_err : Store → Option ℕ → Option ℕ
unfolding get
start_close_err st none = none
start_close_err st (some i) = elim (get st.targets i) [ none ↦ none | some t ↦ t.close_err ]

closed_tab : (ℕ → Option ℕ) → Option ℕ → Option ℕ
closed_tab close none = none
closed_tab close (some tab) = close tab

-- whether the wait for a start is over
start_done : Store → Option ℕ → Bool
unfolding get
start_done st none = true
start_done st (some i) = elim (get st.targets i) [ none ↦ true | some t ↦ t.done ]

-- A call returns when what it waits for is done.
once : {A : Type 0} → Bool → A → Option A
once true a = some a
once false a = none

-- `closeTarget`: whether there was something to close, and the first error; `none` while it waits for
-- a start that it has canceled
pub close_one : Others → Service → TargetKey → Bool → Option (Service × Option (Option ℕ))
unfolding close_target closed_tab first_error start_close_err start_done once
close_one o s key cancel_starting =
    let (st, tab, starting) = close_target s.store key cancel_starting in
    let closing = record s { store = st } in
    let after = o.while_running closing in
    let err = first_error (closed_tab o.close tab) (start_close_err after.store starting) in
    let closed : Option (Service × Option (Option ℕ)) =
      once (start_done after.store starting) (after, some err) in
    elim tab [
      | some i ↦ closed
      | none ↦ elim starting [ some i ↦ closed | none ↦ some (closing, none) ]
    ]

first_start_err : Store → List ℕ → Option ℕ
unfolding start_close_err first_error
first_start_err st [] = none
first_start_err st (i ∷ starting) =
    first_error (start_close_err st (some i)) (first_start_err st starting)

starts_done : Store → List ℕ → Bool
unfolding start_done
starts_done st [] = true
starts_done st (i ∷ starting) = start_done st (some i) && starts_done st starting

-- `CloseAll`; `none` while it waits for a start that it has canceled
pub close_every : Others → Service → Option (Service × Option ℕ)
unfolding close_all close_tabs first_error first_start_err starts_done once
close_every o s =
    let (st, tabs, starting) = close_all s.store in
    let after = o.while_running (record s { store = st }) in
    once (starts_done after.store starting)
      (after, first_error (close_tabs o.close tabs) (first_start_err after.store starting))

flat : Option (Option ℕ) → Option ℕ
flat none = none
flat (some e) = e

reply_with : {A : Type 0} → (A → Response) → Option (Service × A) → Option (Service × Response)
reply_with reply none = none
reply_with reply (some (s, a)) = some (s, reply a)

pub kill : Others → Service → Request → Option (Service × Response)
unfolding close_one close_every error_response flat is_empty reply_with
kill o s req =
    if is_empty req.session
    then reply_with error_response (close_every o s)
    else reply_with (λ err. error_response (flat err)) (close_one o s (key_of req) true)

-- "list": the target is used now, if it is one; then the lock is held again.
pub list : Others → Service → Request → Service × Response
unfolding touch_target snapshot_target is_empty
list o s req =
    let partial = is_empty req.session || is_empty req.pane || is_empty req.tab in
    let touched =
      if partial then s else record s { store = touch_target s.store (key_of req) o.entered_at } in
    let after = o.while_running touched in
    (after, listing (snapshot_target after.store.sessions req.session req.pane req.tab))

-- The tab is given back at once, but others may get the locks between.
pub create : Others → Service → Request → Option (Service × Response)
unfolding use_target
create o s req = use_target o s req true (λ tab. empty)

-- the switch of `HandleWithDone`
pub dispatch : Others → Service → Request → Bool → Option (Service × Response)
unfolding create use_target runner_call respond list kill bytes_eq
dispatch o s req create_missing =
    if bytes_eq req.action (codes "create") then create o s req else elim (runner_call req) [
      | some call ↦ use_target o s req create_missing (λ tab. respond call (o.runner tab call))
      | none ↦
          if bytes_eq req.action (codes "list")
          then some (list o (o.before_use s) req)
          else if bytes_eq req.action (codes "kill") || bytes_eq req.action (codes "close")
          then kill o (o.before_use s) req
          else some (s, failed (unknown_action req.action))
    ]

end_operation : Service × Response → Service × Response
end_operation (s, r) = (record s { operations = s.operations - 1 }, r)

-- `beginOperation`, and the deferred end of the operation
pub operation : Service → (Service → Option (Service × Response)) → Option (Service × Response)
unfolding end_operation
operation s body =
    if s.stopping
    then some (s, failed service_stopping)
    else elim (body (record s { operations = s.operations + 1 })) [
      | none ↦ none
      | some r ↦ some (end_operation r)
    ]

pub handle_with_done : Others → Service → Request → Bool → Option (Service × Response)
unfolding operation dispatch validate_request
handle_with_done o s req create_missing = operation s (λ s. elim (validate_request req) [
  | some e ↦ some (s, failed (invalid e))
  | none ↦ dispatch o s req create_missing
])

follow_call : Request → Option FollowCall
unfolding bytes_eq
follow_call req =
    if bytes_eq req.action (codes "ctrl-c")
    then some ctrl_c_follow
    else if bytes_eq req.action (codes "follow")
    then some follow
    else if bytes_eq req.action (codes "command")
    then some (command_follow req.command)
    else if bytes_eq req.action (codes "keys")
    then some (keys_follow req.command)
    else if bytes_eq req.action (codes "send")
    then some (send_follow req.command)
    else none

follow_tab : Others → Request → ℕ → Response
unfolding follow_call error_response
follow_tab o req tab = elim (follow_call req) [
  | none ↦ failed (not_streaming req.action)
  | some call ↦ error_response (o.follower tab call)
]

-- `Stream`: an error, or nothing
pub stream : (Bytes → Bytes) → Others → Service → Request → Bool → Option (Service × Response)
unfolding operation use_target follow_tab validate_stream_request
stream to_lower o s req create_missing = operation s (λ s.
    elim (validate_stream_request to_lower req) [
      | some e ↦ some (s, failed (invalid_stream_request e))
      | none ↦ use_target o s req create_missing (follow_tab o req)
    ])

pub create_target : Others → Service → Request → Option (Service × Response)
unfolding operation create validate_complete_target
create_target o s req = operation s (λ s.
    elim (validate_complete_target req.session req.pane req.tab) [
      | some e ↦ some (s, failed (invalid e))
      | none ↦ create o s req
    ])

existing_response : Option (Option ℕ) → Response
unfolding error_response
existing_response none = failed target_not_found
existing_response (some err) = error_response err

pub close_existing : Others → Service → Request → Option (Service × Response)
unfolding operation close_one existing_response reply_with validate_complete_target
close_existing o s req = operation s (λ s.
    elim (validate_complete_target req.session req.pane req.tab) [
      | some e ↦ some (s, failed (invalid e))
      | none ↦ reply_with existing_response (close_one o (o.before_use s) (key_of req) false)
    ])

abbrev pub stop_admission : Service → Service
stop_admission s = record s { stopping = true }
