-- ===== src/Server/Protocol/Requests.antt =====
-- What an accepted request looks like.
use ptymux.Server.Protocol.{
  Request, ◌or_else◌, one_of, tab_actions, validate_action, validate_command, validate_read_count,
  validate_wait, validate_action_target, validate_complete_target, validate_request,
  is_stream_request, max_command_bytes,
}
use ptymux.Server.Protocol.Targets.{IsTarget, or_else-none, validate_complete_target-IsTarget}
use ptymux.Std.Utf8.{valid}
use ptymux.Prelude.{
  ◌≤◌, ◌≡◌, refl, sym, ◌∙◌, subst, inl, inr, true, none, List, [], ◌∷◌, arith, Bool-cases, length,
  All, Bytes, bytes_eq, bytes_eq_iff,
}

-- What holds of each text of a list holds of a text that is one of them.
pub one_of-All :
    (P : Bytes → Type 0) (a : Bytes) (ts : List Bytes) → one_of a ts ≡ true → All P ts → P a
unfolding one_of
one_of-All P a [] h v = absurd cc
one_of-All P a (t ∷ ts) h v = elim (Bool-cases (bytes_eq a t)) [
  | inl e ↦ subst P (sym ((bytes_eq_iff a t).0 e)) v.0
  | inr e ↦ one_of-All P a ts (ground arith) v.1
]

-- The switch sends an action of the last case to the check of a complete target.
tab_action :
    (a session pane tab : Bytes)
    → one_of a tab_actions ≡ true
    → validate_action_target a session pane tab ≡ validate_complete_target session pane tab
unfolding validate_action_target one_of bytes_eq
tab_action a session pane tab h =
    one_of-All
      (λ x. validate_action_target x session pane tab ≡ validate_complete_target session pane tab) a
      tab_actions h
      (refl, (refl, (refl, (refl, (refl, (refl, (refl, (refl, (refl, (refl, (refl, tt)))))))))))

is_stream_request-tab_action :
    (req : Request) → is_stream_request req ≡ true → one_of req.action tab_actions ≡ true
unfolding is_stream_request one_of
is_stream_request-tab_action req h = ground arith

-- What the handlers may rely on in an accepted request that addresses one tab.
pub record IsSafe (req : Request) : Type 0 where
  pub target : IsTarget req.session req.pane req.tab
  pub utf8 : valid req.command ≡ true
  pub bounded : length req.command ≤ max_command_bytes

pub validate_command-bounds :
    (command : Bytes)
    → validate_command command ≡ none
    → (valid command ≡ true) × (length command ≤ max_command_bytes)
unfolding validate_command
validate_command-bounds command h = (ground arith, ground arith)

-- A request whose action addresses one tab is accepted only with three valid components and a
-- command that is UTF-8 within its bound.
pub validate_request-IsSafe :
    (req : Request)
    → one_of req.action tab_actions ≡ true
    → validate_request req ≡ none
    → IsSafe req
unfolding validate_request
validate_request-IsSafe req t h =
    let target = validate_action_target req.action req.session req.pane req.tab in
    let wait = validate_wait req.wait_millis in
    let count = validate_read_count req.read_count in
    let command = validate_command req.command in
    let (_, h1) =
      or_else-none (validate_action req.action) (command or_else count or_else wait or_else target)
        h in
    let (c, h2) = or_else-none command (count or_else wait or_else target) h1 in
    let (_, h3) = or_else-none count (wait or_else target) h2 in
    let (_, h4) = or_else-none wait target h3 in
    let bounds = validate_command-bounds req.command c in
    record {
      target =
          validate_complete_target-IsTarget req.session req.pane req.tab
            (sym (tab_action req.action req.session req.pane req.tab t) ∙ h4);
      utf8 = bounds.0;
      bounded = bounds.1;
    }

-- A request whose answer is streamed is accepted only with three valid components and a command
-- that is UTF-8 within its bound.
is_stream_request-IsSafe :
    (req : Request) → is_stream_request req ≡ true → validate_request req ≡ none → IsSafe req
is_stream_request-IsSafe req s h =
    validate_request-IsSafe req (is_stream_request-tab_action req s) h
