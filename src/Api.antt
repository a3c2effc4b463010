-- ===== src/Api.antt =====
-- src/agent_runtime/api.py: the handlers of the HTTP interface over the engine. FastAPI is a
-- parameter where the code relies on it: what it reports of a request that does not fit
-- `RunRequest`. It calls the handler of an exception's nearest class; an exception without one is
-- answered by the server, with status 500.
pub mod Errors
pub mod Handlers
pub mod Answers
use production_agent_runtime.Common.{
  ℕ, Bool, true, false, ◌&&◌, Option, none, some, List, [], ◌∷◌, map, Text, text, length, leb,
}
use production_agent_runtime.Common.Dict.{Dict}
use production_agent_runtime.Common.Strings.{decimal}
use production_agent_runtime.Common.Json.{
  Json, bool, string, array, object, Fields, end, field, of_list,
}
use production_agent_runtime.Common.Exec.{Exception}
use production_agent_runtime.Models.{AgentKind}
use production_agent_runtime.Runtime.State.{Runtime}

-- RunRequest
pub record RunRequest : Type 0 where
  pub input : Text
  pub pattern : AgentKind
  pub session_id : Option Text

-- an entry of RequestValidationError.errors()
pub record Problem : Type 0 where
  pub location : List Text
  pub message : Text
  pub type : Text

pub record Response : Type 0 where
  pub status : ℕ
  pub content : Json
  pub headers : Dict Text

-- what the interface makes of a request
pub data Reply : Type 0 where
  replied : Response → Reply
  unhandled : Exception → Reply

-- `state`, which has the runtime between the start and the end of the lifespan
abbrev pub App : Type 0
App = Option Runtime

-- min_length and max_length
unfoldable pub has_length : ℕ → ℕ → Text → Bool
has_length least most s = leb least (length s) && leb (length s) most

abbrev pub fits : ℕ → ℕ → Option Text → Bool
fits least most none = true
fits least most (some s) = has_length least most s

-- the constraints on the fields of RunRequest, and on the header Idempotency-Key
unfoldable pub is_valid : RunRequest → Option Text → Bool
unfolding has_length
is_valid request key =
    has_length 1 32768 request.input && fits 1 128 request.session_id && fits 1 128 key

abbrev details_field : Option Json → Fields
details_field none = end
details_field (some details) = field (text "details") details end

-- `_error_response`
unfoldable pub error_response : ℕ → Text → Text → Bool → Option Json → Dict Text → Response
error_response status code message retryable details headers = record {
  status = status;
  content = object (
      field (text "error")
        (object (
          field (text "code") (string code) (
            field (text "message") (string message)
              (field (text "retryable") (bool retryable) (details_field details)))))
        end);
  headers = headers;
}

unfoldable pub problem_to_json : Problem → Json
problem_to_json p = object (
    field (text "location") (array (of_list (map string p.location)))
      (field (text "message") (string p.message) (field (text "type") (string p.type) end)))

-- `validation_handler`
unfoldable pub validation_handler : List Problem → Response
unfolding error_response
validation_handler problems =
    error_response 422 (text "validation_error") (text "request validation failed") false
      (some (array (of_list (map problem_to_json problems)))) []
