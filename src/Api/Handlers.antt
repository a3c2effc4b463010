-- ===== src/Api/Handlers.antt =====
-- The routes of `create_app` in api.py.
use production_agent_runtime.Common.{
  ℕ, Bool, true, false, Option, none, some, List, [], ◌∷◌, map, Text, text, length, if◌then◌else◌,
}
use production_agent_runtime.Common.Dict.{Dict}
use production_agent_runtime.Common.Int.{pos_part}
use production_agent_runtime.Common.Strings.{decimal}
use production_agent_runtime.Common.Json.{
  Json, null, bool, number, string, array, object, end, field, of_list,
}
use production_agent_runtime.Common.Exec.{Exec, Result, ok, err, pure, gets, ◌>>=◌, key_error}
use production_agent_runtime.Models.{RunRecord}
use production_agent_runtime.Models.Encode.{run_fields}
use production_agent_runtime.Events.{list_events}
use production_agent_runtime.Events.Encode.{event_to_dict}
use production_agent_runtime.Metrics.{value_of}
use production_agent_runtime.Metrics.Render.{Formats, render_prometheus}
use production_agent_runtime.Runtime.State.{Runtime, load}
use production_agent_runtime.Runtime.Registry
use production_agent_runtime.Runtime.Registry.{list_runs}
use production_agent_runtime.Runtime.Submit.{submit}
use production_agent_runtime.Runtime.Control
use production_agent_runtime.Api.{
  App, RunRequest, Problem, Response, Reply, replied, is_valid, validation_handler,
}
use production_agent_runtime.Api.Errors.{reply_to}

-- RunResponse: the default of `audit` is null
unfoldable pub run_response : RunRecord → Json → Json
run_response run audit = object (run_fields run (field (text "audit") audit end))

abbrev pub with_status : ℕ → Dict Text → Json → Response
with_status status headers content = record {
  status = status;
  content = content;
  headers = headers;
}

abbrev pub as_reply : Result Response → Reply
as_reply (ok response) = replied response
as_reply (err e) = reply_to e

-- a route that needs the runtime: runtime = state["runtime"]
unfoldable pub route : Exec Runtime Response → App → Reply × App
route handler none = (reply_to (key_error (text "runtime")), none)
route handler (some runtime) = let (r, runtime') = handler runtime in (as_reply r, some runtime')

abbrev key_header : Option Text → Dict Text
key_header none = []
key_header (some key) = (text "Idempotency-Key", key) ∷ []

-- `submit_run` for a valid request; `submit` returns the run
unfoldable pub submit_valid : RunRequest → Option Text → Exec Runtime Response
submit_valid request key = do
  id ← submit request.input request.pattern request.session_id key
  run ← load id
  pure (with_status 202 (key_header key) (run_response run null))

-- POST /v1/runs; `problems` is what FastAPI reports of a request that is not valid
unfoldable pub submit_run :
    (RunRequest → Option Text → List Problem) → RunRequest → Option Text → App → Reply × App
submit_run problems request key app =
    if is_valid request key
    then route (submit_valid request key) app
    else (replied (validation_handler (problems request key)), app)

-- runtime.audit_events(trace_id)
unfoldable pub audit_events : Option Text → Runtime → Json
audit_events trace_id s = array (of_list (map event_to_dict (list_events trace_id s.events.audit)))

abbrev pub audit_of : Bool → RunRecord → Runtime → Json
audit_of true run s = audit_events (some run.trace_id) s
audit_of false run s = null

unfoldable pub read_run : Text → Bool → Exec Runtime Response
read_run id include_audit = do
  run ← Registry.get id
  audit ← gets (audit_of include_audit run)
  pure (with_status 200 [] (run_response run audit))

-- GET /v1/runs/{run_id}
unfoldable pub get_run : Text → Bool → App → Reply × App
get_run id include_audit app = route (read_run id include_audit) app

unfoldable pub stop_run : Text → Exec Runtime Response
stop_run id = do
  cancelled ← Control.cancel id
  run ← Registry.get id
  pure (
      with_status 200 [] (
        object (
          field (text "cancelled") (bool cancelled)
            (field (text "run") (run_response run null) end))))

-- POST /v1/runs/{run_id}/cancel
unfoldable pub cancel_run : Text → App → Reply × App
cancel_run id app = route (stop_run id) app

abbrev health : Text → Bool → ℕ → ℕ → ℕ → Response
health status is_ready depth capacity retained = with_status 200 [] (
    object (
      field (text "status") (string status) (
        field (text "ready") (bool is_ready) (
          field (text "queue_depth") (number (decimal depth)) (
            field (text "queue_capacity") (number (decimal capacity))
              (field (text "retained_runs") (number (decimal retained)) end))))))

-- GET /healthz
unfoldable pub healthz : App → Response
healthz none = health (text "starting") false 0 0 0
healthz (some s) =
    health (text "ok") true (pos_part (value_of s.metrics (text "run_queue_depth")))
      s.queue.capacity (length (list_runs s))

-- the text of GET /metrics
unfoldable pub metrics_text : Formats → App → Text
metrics_text formats none = text "agent_runtime_ready 0\n"
metrics_text formats (some s) = render_prometheus formats s.metrics
