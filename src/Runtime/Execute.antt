-- ===== src/Runtime/Execute.antt =====
-- The worker and the execution of a run: `_worker_loop`, `_execute`, `_complete` and `_execute_tool`
-- of runtime.py, cut at the points where they suspend. Each piece is one step of the event loop.
use production_agent_runtime.Common.{
  ℕ, ◌-◌, Bool, true, false, Option, none, some, [], ◌∷◌, ◌++◌, Text, text, if◌then◌else◌,
}
use production_agent_runtime.Common.Int.{pos, negsuc, pos_part}
use production_agent_runtime.Common.Exec.{
  Exec, Exception, Result, ok, err, pure, gets, ◌>>=◌, ◌>>◌, key_error, configuration_error,
  invalid_state_transition, run_not_found_error, run_queue_full_error, idempotency_conflict_error,
  tool_error, tool_not_found_error, transient_llm_error, permanent_llm_error, circuit_open_error,
  value_error, runtime_error, type_error, attribute_error, timeout_error, queue_full,
  zero_division_error, cancelled_error,
}
use production_agent_runtime.Models.{
  RunRecord, RunStep, LlmResponse, running, waiting, succeeded, failed, cancelled, is_terminal,
  state_eq, llm, tool,
}
use production_agent_runtime.Events.{str, int}
use production_agent_runtime.Sessions
use production_agent_runtime.Sessions.{SessionStore}
use production_agent_runtime.Fsm
use production_agent_runtime.Runtime.State.{
  Runtime, perf_counter, load, update, increment, increment_by, set_gauge, emit, fsm,
  set_completion, update_registry_metrics,
}

-- type(exc).__name__
unfoldable pub type_name : Exception → Text
type_name (configuration_error m) = text "ConfigurationError"
type_name (invalid_state_transition m) = text "InvalidStateTransition"
type_name (run_not_found_error m) = text "RunNotFoundError"
type_name (run_queue_full_error n) = text "RunQueueFullError"
type_name (idempotency_conflict_error m) = text "IdempotencyConflictError"
type_name (tool_error m) = text "ToolError"
type_name (tool_not_found_error m) = text "ToolNotFoundError"
type_name (transient_llm_error m) = text "TransientLLMError"
type_name (permanent_llm_error m) = text "PermanentLLMError"
type_name (circuit_open_error m) = text "CircuitOpenError"
type_name (value_error m) = text "ValueError"
type_name (runtime_error m) = text "RuntimeError"
type_name (key_error m) = text "KeyError"
type_name (type_error m) = text "TypeError"
type_name (attribute_error m) = text "AttributeError"
type_name timeout_error = text "TimeoutError"
type_name queue_full = text "QueueFull"
type_name zero_division_error = text "ZeroDivisionError"
type_name cancelled_error = text "CancelledError"

-- str(exc)
unfoldable pub message_of : Exception → Text
message_of (configuration_error m) = m
message_of (invalid_state_transition m) = m
message_of (run_not_found_error m) = m
message_of (run_queue_full_error n) = text "run queue is at capacity"
message_of (idempotency_conflict_error m) = m
message_of (tool_error m) = m
message_of (tool_not_found_error m) = m
message_of (transient_llm_error m) = m
message_of (permanent_llm_error m) = m
message_of (circuit_open_error m) = m
message_of (value_error m) = m
message_of (runtime_error m) = m
message_of (key_error m) = m
message_of (type_error m) = m
message_of (attribute_error m) = m
message_of zero_division_error = text "float division by zero"
message_of _ = []

abbrev pub set_error : Text → RunRecord → RunRecord
set_error error run = record run { error = some error }

abbrev pub set_output : Text → RunRecord → RunRecord
set_output output run = record run { output = some output }

abbrev pub add_step : RunStep → RunRecord → RunRecord
add_step step run = record run { steps = run.steps ++ step ∷ [] }

-- if test: self.metrics.increment(name)
unfoldable pub increment_if : Bool → Text → Exec Runtime Unit
increment_if true name = increment name
increment_if false name = pure tt

-- `except Exception`
unfoldable pub on_error : Text → Exception → Exec Runtime Unit
on_error id e = do
  let error = type_name e ++ (text ": " ++ message_of e)
  update id (set_error error)
  moved ← Fsm.transition_if_allowed fsm id failed (text "execution error")
  increment_if moved (text "runs_failed_total")
  run ← load id
  emit (text "run.error") run.trace_id run.id ((text "error", str error) ∷ [])

-- the `except` clauses
unfoldable pub handle : Text → Result (Unit {0}) → Exec Runtime Unit
handle id (ok u) = pure tt
handle id (err cancelled_error) = do
  Fsm.transition_if_allowed fsm id cancelled (text "task cancelled")
  pure tt
handle id (err e) = on_error id e

unfoldable pub signal_if : Bool → Text → Exec Runtime Unit
signal_if true id = set_completion true id
signal_if false id = pure tt

-- `finally`
unfoldable pub conclude : Text → Exec Runtime Unit
conclude id = do
  increment_by (negsuc 0) (text "runs_active")
  run ← load id
  signal_if (is_terminal run.state) id
  update_registry_metrics

-- the end of `_execute`, for a body that returned or raised
unfoldable pub settle : Text → Result (Unit {0}) → Exec Runtime Unit
settle id r = do handle id r; conclude id

-- a piece of the body: if it raises, `_execute` ends, and there is nothing to go on with
unfoldable pub protect : {A : Type 0} → Text → Exec Runtime A → Exec Runtime (Option A)
protect id body s =
    let (r, s') = body s in
    elim r [ ok a ↦ (ok (some a), s') | err e ↦ (settle id (err e) >> pure none) s' ]

-- the transition to RUNNING, and the clock at the start of the pattern
unfoldable pub acquire : Text → Exec Runtime (Option ℕ)
acquire id = protect id (Fsm.transition fsm id running (text "worker acquired") >> perf_counter)

-- `_execute` up to the start of the pattern, whose time is returned; a cancelled run goes straight
-- to `finally`
unfoldable pub begin : Text → Exec Runtime (Option ℕ)
begin id = do
  increment (text "runs_active")
  limit ← gets (λ s. pos_part s.config.max_concurrency)
  set_gauge (text "runtime_concurrency_limit") limit
  run ← load id
  if state_eq run.state cancelled then conclude id >> pure none else acquire id

-- `_complete` up to the call of the client; `messages` is len(request.messages)
unfoldable pub request_llm : Text → Text → ℕ → Exec Runtime ℕ
request_llm id step messages = do
  Fsm.transition fsm id waiting (text "LLM: " ++ step)
  run ← load id
  emit (text "llm.requested") run.trace_id run.id
      ((text "step", str step) ∷ (text "messages", int messages) ∷ [])
  perf_counter

-- `finally` of `_complete` and `_execute_tool`
unfoldable pub resume : Text → Text → Exec Runtime Unit
resume id reason = do Fsm.transition_if_current fsm id waiting running reason; pure tt

unfoldable pub note_llm : Text → Text → ℕ → Result LlmResponse → Exec Runtime Unit
note_llm id step started (err e) = pure tt
note_llm id step started (ok response) = do
  ended ← perf_counter
  update id (
      add_step (record {
        type = llm;
        name = step;
        model = some response.model;
        latency = ended - started;
      }))

-- the rest of `_complete`, with the client's answer
unfoldable pub llm_returned : Text → Text → ℕ → Result LlmResponse → Exec Runtime Unit
llm_returned id step started answer = do
  note_llm id step started answer
  resume id (text "LLM returned: " ++ step)

-- `_execute_tool` up to the call of the tool
unfoldable pub request_tool : Text → Text → Text → Exec Runtime ℕ
request_tool id name step = do
  Fsm.transition fsm id waiting (text "tool: " ++ name)
  run ← load id
  emit (text "tool.requested") run.trace_id run.id
      ((text "step", str step) ∷ (text "tool", str name) ∷ [])
  perf_counter

unfoldable pub note_tool : Text → Text → ℕ → Result Text → Exec Runtime Unit
note_tool id name started (err e) = pure tt
note_tool id name started (ok result) = do
  ended ← perf_counter
  update id
      (add_step (record { type = tool; name = name; model = none; latency = ended - started }))

-- the rest of `_execute_tool`, with the tool's answer
unfoldable pub tool_returned : Text → Text → ℕ → Result Text → Exec Runtime Unit
tool_returned id name started answer = do
  note_tool id name started answer
  resume id (text "tool returned: " ++ name)

abbrev with_sessions : Result (Unit {0}) × SessionStore → Runtime → Result (Unit {0}) × Runtime
with_sessions (r, sessions) s = (r, record s { sessions = sessions })

-- self.sessions.append_turn(session_id, user, assistant)
unfoldable pub append_turn : Text → Text → Text → Exec Runtime Unit
append_turn session_id user assistant s =
    with_sessions (Sessions.append_turn session_id user assistant s.sessions) s

-- `_execute` behind the pattern's output; `started` is the clock at the pattern's start
unfoldable pub complete_run : Text → ℕ → Text → Exec Runtime Unit
complete_run id started output = do
  update id (set_output output)
  run ← load id
  append_turn run.session_id run.input output
  ended ← perf_counter
  increment_by (pos (ended - started)) (text "run_latency_seconds_sum")
  increment (text "run_latency_seconds_count")
  done ← Fsm.transition_if_current fsm id running succeeded (text "agent completed")
  increment_if done (text "runs_succeeded_total")

-- the pattern returns or raises, and `_execute` ends
unfoldable pub finish : Text → ℕ → Result Text → Exec Runtime Unit
finish id started (err e) s = settle id (err e) s
finish id started (ok output) s = let (r, s') = complete_run id started output s in settle id r s'
