-- ===== src/Server/Service/Handle/Examples.antt =====
-- The theorems on requests at a concrete input.
use ptymux.Server.Service.Targets.{
  Service, Others, answered, result, use_target, begin_target_use, finish, get_or_create, proceed,
  start, got, started,
}
use ptymux.Server.Service.Targets.Uses.{IsQuiet, Keeps}
use ptymux.Server.Service.Handle.Balance.{handles, call, call-Keeps}
use ptymux.Server.Protocol.{
  Request, validate_request, validate_action, validate_command, validate_read_count, validate_wait,
  validate_action_target, validate_complete_target, validate_target_component,
}
use ptymux.Server.Service.Handle.{handle_with_done, operation, dispatch, runner_call, respond}
use ptymux.Server.Uses.{enter, finish_start, finish_use}
use ptymux.Server.Store.{find_tab, install_tab}
use ptymux.Std.Utf8.{valid, runes}
use ptymux.Server.Format.{RunResult}
use ptymux.Std.Strconv.{pos}
use ptymux.Prelude.{◌≡◌, refl, true, false, none, some, [], ◌∷◌, codes, bytes_eq}

-- The others do nothing, and each runner answers at once.
abbrev alone : Others
alone = record {
  before_use = λ s. s;
  while_waiting = [];
  while_starting = λ st. st;
  while_running = λ s. s;
  start_err = none;
  close_err = none;
  entered_at = 1;
  started_at = 2;
  finished_at = 3;
  runner =
      λ tab call. answered (record { output = codes "done"; exit_code = pos 0; truncated = false });
  follower = λ tab call. none;
  close = λ tab. none;
}

alone-IsQuiet : IsQuiet alone
alone-IsQuiet = record {
  before = λ s i. refl;
  before_operations = λ s. refl;
  meanwhile = tt;
  starting = λ st i. refl;
  running = λ s i. refl;
  running_operations = λ s. refl;
}

abbrev fresh_service : Service
fresh_service = record {
  store = record { sessions = []; starting = []; tabs = []; targets = [] };
  stopping = false;
  operations = 0;
}

abbrev run_request : Request
run_request = record {
  action = codes "run";
  session = codes "work";
  pane = codes "1";
  tab = codes "build";
  command = codes "make";
  follow = false;
  wait_millis = pos 0;
  read_count = pos 0;
  stream_version = pos 1;
  stream_action = [];
}

-- The tab is there behind the request, and not in use.
abbrev after_run : Service
after_run = record {
  store = record {
    sessions =
        (
          codes "work",
          record {
            name = codes "work";
            panes = (codes "1", record { name = codes "1"; tabs = (codes "build", 0) ∷ [] }) ∷ [];
          },
        )
        ∷ [];
    starting = [];
    tabs = record { name = codes "build"; last_used_at = 3; active = 0 } ∷ [];
    targets = record { done = true; canceled = false; start_err = none; close_err = none } ∷ [];
  };
  stopping = false;
  operations = 0;
}

abbrev made : RunResult
made = record { output = codes "done"; exit_code = pos 0; truncated = false }

ran : call (λ s. s) alone fresh_service run_request (handles true) ≡ some (after_run, result made)
unfolding call handle_with_done operation dispatch runner_call respond use_target begin_target_use
    finish get_or_create proceed start got started enter find_tab install_tab finish_start
    finish_use validate_request validate_action valid validate_command validate_read_count
    validate_wait validate_action_target bytes_eq validate_complete_target validate_target_component
    runes
ran = refl

call-Keeps_example : Keeps fresh_service after_run
call-Keeps_example =
    call-Keeps (λ s. s) alone fresh_service run_request (handles true) (after_run, result made)
      alone-IsQuiet ran
