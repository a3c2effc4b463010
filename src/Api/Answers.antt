-- ===== src/Api/Answers.antt =====
-- What the routes answer.
use production_agent_runtime.Common.{
  ◌≡◌, refl, Bool, true, false, Option, some, List, ◌++◌, Text, text, strip, is_blank,
}
use production_agent_runtime.Common.Exec.{err, ◌>>=◌, run_not_found_error, value_error}
use production_agent_runtime.Adapters.Queue
use production_agent_runtime.Runtime.State.{Runtime, contains}
use production_agent_runtime.Runtime.Registry
use production_agent_runtime.Runtime.Submit.{submit}
use production_agent_runtime.Runtime.Control
use production_agent_runtime.Api.{RunRequest, Problem, replied, unhandled, is_valid}
use production_agent_runtime.Api.Errors.{reply_to, is_runtime_error, not_found_handler}
use production_agent_runtime.Api.Handlers.{
  submit_run, submit_valid, route, get_run, read_run, cancel_run, stop_run,
}

get-unknown :
    (id : Text) (s : Runtime)
    → contains s.runs id ≡ false
    → Registry.get id s ≡ (err (run_not_found_error (text "unknown run: " ++ id)), s)
unfolding Registry.get
get-unknown id s unknown = rw unknown refl

-- An identifier that the engine has no run for is answered with 404, by GET and by the
-- cancellation, and the engine stays as it is.
pub unknown_run :
    (id : Text) (include_audit : Bool) (s : Runtime)
    → contains s.runs id ≡ false
    → let answer = replied (not_found_handler (text "unknown run: " ++ id)) in
      (get_run id include_audit (some s) ≡ (answer, some s))
      × (cancel_run id (some s) ≡ (answer, some s))
unfolding get_run cancel_run route read_run stop_run reply_to Control.cancel ◌>>=◌
unknown_run id include_audit s unknown =
    (rw (get-unknown id s unknown) refl, rw (get-unknown id s unknown) refl)

-- A request whose input is white space fits the fields' constraints, and the engine refuses it with
-- an exception that no handler answers; nothing changes.
pub submit_run-blank :
    (problems : RunRequest → Option Text → List Problem) (request : RunRequest) (key : Option Text)
    (s : Runtime)
    → is_valid request key ≡ true
    → is_blank (strip request.input) ≡ true
    → submit_run problems request key (some s)
      ≡ (unhandled (value_error (text "run input must not be empty")), some s)
unfolding submit_run route submit_valid submit reply_to is_runtime_error ◌>>=◌
submit_run-blank problems request key s valid blank = rw (valid, blank) refl

-- what a cleanup does not touch
record SameQueue (before s : Runtime) : Type 0 where
  queue : s.queue ≡ before.queue
  config : s.config ≡ before.config
