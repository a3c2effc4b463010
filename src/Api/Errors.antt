-- ===== src/Api/Errors.antt =====
-- The exception handlers of `create_app` in api.py.
use production_agent_runtime.Common.{
  ℕ, ◌≡◌, ◌⊎◌, Bool, true, false, Option, none, some, [], ◌∷◌, Text, text,
}
use production_agent_runtime.Common.Dict
use production_agent_runtime.Common.Strings.{decimal}
use production_agent_runtime.Common.Json
use production_agent_runtime.Common.Json.{Json, bool, object}
use production_agent_runtime.Common.Exec.{
  Exception, configuration_error, invalid_state_transition, run_not_found_error,
  run_queue_full_error, idempotency_conflict_error, tool_error, tool_not_found_error,
  transient_llm_error, permanent_llm_error, circuit_open_error,
}
use production_agent_runtime.Runtime.Execute.{message_of}
use production_agent_runtime.Api.{Response, Reply, replied, unhandled, error_response}

-- `not_found_handler`
unfoldable pub not_found_handler : Text → Response
not_found_handler message = error_response 404 (text "run_not_found") message false none []

-- `idempotency_conflict_handler`
unfoldable pub idempotency_conflict_handler : Text → Response
idempotency_conflict_handler message =
    error_response 409 (text "idempotency_conflict") message false none []

-- `queue_full_handler`
unfoldable pub queue_full_handler : Text → ℕ → Response
queue_full_handler message retry_after =
    error_response 429 (text "run_queue_full") message true none
      ((text "Retry-After", decimal retry_after) ∷ [])

-- `runtime_error_handler`
unfoldable pub runtime_error_handler : Text → Response
runtime_error_handler message = error_response 503 (text "runtime_error") message true none []

-- the classes that derive from AgentRuntimeError
unfoldable pub is_runtime_error : Exception → Bool
is_runtime_error (configuration_error m) = true
is_runtime_error (invalid_state_transition m) = true
is_runtime_error (run_not_found_error m) = true
is_runtime_error (run_queue_full_error n) = true
is_runtime_error (idempotency_conflict_error m) = true
is_runtime_error (tool_error m) = true
is_runtime_error (tool_not_found_error m) = true
is_runtime_error (transient_llm_error m) = true
is_runtime_error (permanent_llm_error m) = true
is_runtime_error (circuit_open_error m) = true
is_runtime_error e = false

abbrev pub general : Bool → Exception → Reply
general true e = replied (runtime_error_handler (message_of e))
general false e = unhandled e

-- the reply to a request whose handler raised
unfoldable pub reply_to : Exception → Reply
reply_to (run_not_found_error m) = replied (not_found_handler m)
reply_to (idempotency_conflict_error m) = replied (idempotency_conflict_handler m)
reply_to (run_queue_full_error n) =
    replied (queue_full_handler (message_of (run_queue_full_error n)) n)
reply_to e = general (is_runtime_error e) e

abbrev in_error : Option Json → Option Json
in_error (some (object fields)) = Json.get fields (text "retryable")
in_error _ = none

-- the field `retryable` of a response's error
abbrev pub retryable_of : Json → Option Json
retryable_of (object fields) = in_error (Json.get fields (text "error"))
retryable_of _ = none

-- what a client may do about the response: wait and retry (429), retry (503), or neither
abbrev pub TellsRetry : Response → Type 0
TellsRetry r =
    ((r.status ≡ 429)
      × ((retryable_of r.content ≡ some (bool true))
          × ((n : ℕ) × (Dict.get r.headers (text "Retry-After") ≡ some (decimal n)))))
    ⊎ (((r.status ≡ 503) × ((retryable_of r.content ≡ some (bool true)) × (r.headers ≡ [])))
        ⊎ (((r.status ≡ 404) ⊎ (r.status ≡ 409))
            × ((retryable_of r.content ≡ some (bool false)) × (r.headers ≡ []))))

abbrev pub IsAnswered : Reply → Bool → Type 0
IsAnswered (replied r) is_known = (is_known ≡ true) × TellsRetry r
IsAnswered (unhandled e) is_known = is_known ≡ false
