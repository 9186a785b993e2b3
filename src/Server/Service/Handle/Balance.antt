-- ===== src/Server/Service/Handle/Balance.antt =====
-- Every request gives back what it uses.
use ptymux.Server.Service.{validate_stream_request}
use ptymux.Server.Service.Targets.{
  Service, ServiceError, Response, Others, failed, empty, key_of, use_target, invalid,
  invalid_stream_request,
}
use ptymux.Server.Service.Targets.Uses.{IsQuiet, Keeps, Returned, use_target-Keeps}
use ptymux.Server.Service.Handle.{
  create, dispatch, runner_call, respond, list, kill, close_one, close_every, operation,
  end_operation, handle_with_done, stream, follow_tab, create_target, close_existing,
  existing_response, error_response, flat, once, reply_with, start_done, starts_done, first_error,
  closed_tab, start_close_err,
}
use ptymux.Server.Uses.{touch_target, close_target, close_all}
use ptymux.Server.Uses.Grants.{
  SameUses, touch_target-SameUses, close_target-SameUses, close_all-SameUses,
}
use ptymux.Server.Protocol.{Request, is_empty, validate_request, validate_complete_target}
use ptymux.Prelude.{
  ℕ, ◌+◌, ◌-◌, ◌≡◌, refl, ap, ◌∙◌, subst, Bool, true, false, ◌||◌, Option, none, some, arith,
  if◌then◌else◌, Bytes, codes, bytes_eq, if-intro, Option-intro,
}

create-Keeps :
    (o : Others) (s : Service) (req : Request) → IsQuiet o → Returned (Keeps s) (create o s req)
unfolding create
create-Keeps o s req q = use_target-Keeps o s req true (λ tab. empty) q

then_running : (o : Others) (a b : Service) → IsQuiet o → Keeps a b → Keeps a (o.while_running b)
then_running o a b q (uses, operations) =
    (λ i. uses i ∙ q.running b i, operations ∙ q.running_operations b)

list-Keeps : (o : Others) (s : Service) (req : Request) → IsQuiet o → Keeps s (list o s req).0
unfolding list
list-Keeps o s req q =
    let touched : Service =
      if is_empty req.session || is_empty req.pane || is_empty req.tab
      then s
      else record s { store = touch_target s.store (key_of req) o.entered_at } in
    then_running o s touched q (
      if-intro (Keeps s) (is_empty req.session || is_empty req.pane || is_empty req.tab)
        (λ _. (λ i. refl, refl))
        (λ _. (touch_target-SameUses s.store (key_of req) o.entered_at, refl)))

once-Returned :
    {A : Type 0} (P : Service → Type 0) (b : Bool) (s : Service) (a : A)
    → P s
    → Returned P (once b (s, a))
unfolding Returned once
once-Returned P true s a h = h
once-Returned P false s a h = tt

reply_with-Returned :
    {A : Type 0} (P : Service → Type 0) (reply : A → Response) (r : Option (Service × A))
    → Returned P r
    → Returned P (reply_with reply r)
unfolding Returned reply_with
reply_with-Returned P reply none h = tt
reply_with-Returned P reply (some (s, a)) h = h

close_one-Keeps :
    (o : Others) (s : Service) (req : Request) (cancel_starting : Bool)
    → IsQuiet o
    → Returned (Keeps s) (close_one o s (key_of req) cancel_starting)
unfolding close_one Returned
close_one-Keeps o s req cancel_starting q =
    let (st, tab, starting) = close_target s.store (key_of req) cancel_starting in
    let closing : Service = record s { store = st } in
    let closed : Keeps s closing =
      (close_target-SameUses s.store (key_of req) cancel_starting, refl) in
    let after : Keeps s (o.while_running closing) = then_running o s closing q closed in
    let P : Option (Service × Option (Option ℕ)) → Type 0 = Returned (Keeps s) in
    let done_then =
      once-Returned (Keeps s) (start_done (o.while_running closing).store starting)
        (o.while_running closing)
        (some (
          first_error (closed_tab o.close tab)
            (start_close_err (o.while_running closing).store starting)))
        after in
    Option-intro P tab (λ _. Option-intro P starting (λ _. closed) (λ i _. done_then))
      (λ i _. done_then)

kill-Keeps :
    (o : Others) (s : Service) (req : Request) → IsQuiet o → Returned (Keeps s) (kill o s req)
unfolding kill close_every
kill-Keeps o s req q =
    let (st, tabs, starting) = close_all s.store in
    let closing : Service = record s { store = st } in
    if-intro (Returned (Keeps s)) (is_empty req.session)
      (λ _. reply_with-Returned (Keeps s) error_response _ (
        once-Returned (Keeps s) (starts_done (o.while_running closing).store starting)
          (o.while_running closing) _
          (then_running o s closing q (close_all-SameUses s.store, refl))))
      (λ _.
        reply_with-Returned (Keeps s) (λ err. error_response (flat err)) _
          (close_one-Keeps o s req true q))

after_kept :
    (a b : Service) (r : Option (Service × Response))
    → Keeps a b
    → Returned (Keeps b) r
    → Returned (Keeps a) r
unfolding Returned
after_kept a b none h g = tt
after_kept a b (some r) (h, n) (g, m) = (λ i. h i ∙ g i, n ∙ m)

dispatch-Keeps :
    (o : Others) (s : Service) (req : Request) (create_missing : Bool)
    → IsQuiet o
    → Returned (Keeps s) (dispatch o s req create_missing)
unfolding dispatch Returned
dispatch-Keeps o s req create_missing q =
    let P : Option (Service × Response) → Type 0 = Returned (Keeps s) in
    let before : Keeps s (o.before_use s) = (q.before s, q.before_operations s) in
    if-intro P (bytes_eq req.action (codes "create")) (λ _. create-Keeps o s req q)
      (λ _.
        Option-intro P (runner_call req)
          (λ _.
            if-intro P (bytes_eq req.action (codes "list"))
              (λ _.
                after_kept s (o.before_use s) (some (list o (o.before_use s) req)) before
                  (list-Keeps o (o.before_use s) req q))
              (λ _.
                if-intro P
                  (bytes_eq req.action (codes "kill") || bytes_eq req.action (codes "close"))
                  (λ _.
                    after_kept s (o.before_use s) (kill o (o.before_use s) req) before
                      (kill-Keeps o (o.before_use s) req q))
                  (λ _. (λ i. refl, refl))))
          (λ call _.
            use_target-Keeps o s req create_missing (λ tab. respond call (o.runner tab call)) q))

ends :
    (a s : Service) (r : Option (Service × Response))
    → a.operations ≡ s.operations - 1
    → SameUses a.store s.store
    → Returned (Keeps s) r
    → Returned (Keeps a) (elim r [ none ↦ none | some x ↦ some (end_operation x) ])
unfolding Returned end_operation
ends a s none n h k = tt
ends a s (some (b, response)) n h (k, m) = (λ i. h i ∙ k i, n ∙ ap (λ x. x - 1) m)

operation-Keeps :
    (s : Service) (body : Service → Option (Service × Response))
    → ((s : Service) → Returned (Keeps s) (body s))
    → Returned (Keeps s) (operation s body)
unfolding operation Returned
operation-Keeps s body h =
    let begun : Service = record s { operations = s.operations + 1 } in
    if-intro (Returned (Keeps s)) s.stopping (λ _. (λ i. refl, refl))
      (λ _. ends s begun (body begun) (omega arith) (λ i. refl) (h begun))

-- a request that is checked first
checked-Keeps :
    {E : Type 0} (s : Service) (check : Option E) (error : E → ServiceError)
    (body : Option (Service × Response))
    → Returned (Keeps s) body
    → Returned (Keeps s) (elim check [ none ↦ body | some e ↦ some (s, failed (error e)) ])
unfolding Returned
checked-Keeps s none error body h = h
checked-Keeps s (some e) error body h = (λ i. refl, refl)

handle_with_done-Keeps :
    (o : Others) (s : Service) (req : Request) (create_missing : Bool)
    → IsQuiet o
    → Returned (Keeps s) (handle_with_done o s req create_missing)
unfolding handle_with_done
handle_with_done-Keeps o s req create_missing q = operation-Keeps s _ (λ s.
    checked-Keeps s (validate_request req) invalid (dispatch o s req create_missing)
      (dispatch-Keeps o s req create_missing q))

stream-Keeps :
    (to_lower : Bytes → Bytes) (o : Others) (s : Service) (req : Request) (create_missing : Bool)
    → IsQuiet o
    → Returned (Keeps s) (stream to_lower o s req create_missing)
unfolding stream
stream-Keeps to_lower o s req create_missing q = operation-Keeps s _ (λ s.
    checked-Keeps s (validate_stream_request to_lower req) invalid_stream_request
      (use_target o s req create_missing (follow_tab o req))
      (use_target-Keeps o s req create_missing (follow_tab o req) q))

create_target-Keeps :
    (o : Others) (s : Service) (req : Request)
    → IsQuiet o
    → Returned (Keeps s) (create_target o s req)
unfolding create_target
create_target-Keeps o s req q = operation-Keeps s _ (λ s.
    checked-Keeps s (validate_complete_target req.session req.pane req.tab) invalid (create o s req)
      (create-Keeps o s req q))

close_existing-Keeps :
    (o : Others) (s : Service) (req : Request)
    → IsQuiet o
    → Returned (Keeps s) (close_existing o s req)
unfolding close_existing
close_existing-Keeps o s req q = operation-Keeps s _ (λ s.
    let before = o.before_use s in
    let closed = reply_with existing_response (close_one o before (key_of req) false) in
    checked-Keeps s (validate_complete_target req.session req.pane req.tab) invalid closed (
      after_kept s before closed (q.before s, q.before_operations s)
        (reply_with-Returned (Keeps before) existing_response
          (close_one o before (key_of req) false) (close_one-Keeps o before req false q))))

-- the methods of a service that answer requests
pub data Method : Type 0 where
  handles streams : Bool → Method
  creates closes_existing : Method

module _ (to_lower : Bytes → Bytes) where
  unfoldable pub call : Others → Service → Request → Method → Option (Service × Response)
  call o s req (handles create_missing) = handle_with_done o s req create_missing
  call o s req (streams create_missing) = stream to_lower o s req create_missing
  call o s req creates = create_target o s req
  call o s req closes_existing = close_existing o s req

  returns-Keeps :
      (o : Others) (s : Service) (req : Request) (method : Method)
      → IsQuiet o
      → Returned (Keeps s) (call o s req method)
  unfolding call
  returns-Keeps o s req (handles create_missing) q = handle_with_done-Keeps o s req create_missing q
  returns-Keeps o s req (streams create_missing) q = stream-Keeps to_lower o s req create_missing q
  returns-Keeps o s req creates q = create_target-Keeps o s req q
  returns-Keeps o s req closes_existing q = close_existing-Keeps o s req q

  -- Behind a request that returns, whatever its action, its answer and its errors, every tab is in
  -- use as often as before, and as many operations run, if the others keep both meanwhile.
  pub call-Keeps :
      (o : Others) (s : Service) (req : Request) (method : Method) (r : Service × Response)
      → IsQuiet o
      → call o s req method ≡ some r
      → Keeps s r.0
  unfolding Returned
  call-Keeps o s req method r q h = subst (Returned (Keeps s)) h (returns-Keeps o s req method q)
