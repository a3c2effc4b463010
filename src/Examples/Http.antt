-- ===== src/Examples/Http.antt =====
-- The HTTP interface on concrete inputs.
use production_agent_runtime.Common.{◌≡◌, refl, none, some, [], ◌∷◌, text, strip, lstrip}
use production_agent_runtime.Common.Exec.{value_error}
use production_agent_runtime.Models.{simple}
use production_agent_runtime.Adapters.Queue
use production_agent_runtime.Adapters.Queue.{RunTask}
use production_agent_runtime.Runtime.State.{Runtime}
use production_agent_runtime.Api.{RunRequest, unhandled, is_valid, has_length}
use production_agent_runtime.Api.Handlers.{submit_run}
use production_agent_runtime.Api.Answers.{submit_run-blank}
use production_agent_runtime.Examples.Engine.{new, first, engine}

-- a request whose input is a space
abbrev blank : RunRequest
blank = record { input = 32 ∷ []; pattern = simple; session_id = none }

submit_run-blank_example :
    submit_run (λ r k. []) blank none (some (engine new))
    ≡ (unhandled (value_error (text "run input must not be empty")), some (engine new))
unfolding is_valid has_length strip lstrip
submit_run-blank_example = submit_run-blank (λ r k. []) blank none (engine new) refl refl

abbrev request : RunRequest
request = record { input = 104 ∷ []; pattern = simple; session_id = none }

-- the engine with a task in its queue, which has room for one
abbrev busy : Runtime
busy = record (engine new) {
  queue = record {
    capacity = 1;
    items = record { run_id = first; attempt = 1; enqueued_at = 1 } ∷ [];
    unfinished = 1;
  };
}
