-- ===== src/Models.antt =====
-- src/agent_runtime/models.py: the domain objects. A string-valued `Enum` is a data type with its
-- `value`; times are numbers of clock ticks.
pub mod Encode
use production_agent_runtime.Common.{
  ℕ, zero, suc, Bool, true, false, ◌||◌, not, Option, none, some, List, [], ◌∷◌, ◌++◌, Text, text,
  text_eq, strip, is_blank, if◌then◌else◌,
}
use production_agent_runtime.Common.Dict
use production_agent_runtime.Common.Dict.{Dict}
use production_agent_runtime.Common.Int.{ℤ, pos, negsuc}
use production_agent_runtime.Common.Exec.{Result, ok, err, value_error, key_error}

pub data RunState : Type 0 where
  created ready running waiting succeeded failed cancelled : RunState

pub data AgentKind : Type 0 where
  simple react reflection plan_solve : AgentKind

-- RunState.value
unfoldable pub state_value : RunState → Text
state_value created = text "created"
state_value ready = text "ready"
state_value running = text "running"
state_value waiting = text "waiting"
state_value succeeded = text "succeeded"
state_value failed = text "failed"
state_value cancelled = text "cancelled"

-- AgentKind.value
unfoldable pub kind_value : AgentKind → Text
kind_value simple = text "simple"
kind_value react = text "react"
kind_value reflection = text "reflection"
kind_value plan_solve = text "plan_solve"

-- `==` on the two enumerations
abbrev pub state_eq : RunState → RunState → Bool
state_eq created created = true
state_eq ready ready = true
state_eq running running = true
state_eq waiting waiting = true
state_eq succeeded succeeded = true
state_eq failed failed = true
state_eq cancelled cancelled = true
state_eq _ _ = false

abbrev pub kind_eq : AgentKind → AgentKind → Bool
kind_eq simple simple = true
kind_eq react react = true
kind_eq reflection reflection = true
kind_eq plan_solve plan_solve = true
kind_eq _ _ = false

-- {SUCCEEDED, FAILED, CANCELLED}: `_TERMINAL_STATES` of runtime.py, and the set in `_apply`
abbrev pub is_terminal : RunState → Bool
is_terminal succeeded = true
is_terminal failed = true
is_terminal cancelled = true
is_terminal _ = false

pub record Message : Type 0 where
  pub role : Text
  pub content : Text
  pub name : Option Text

unfoldable pub is_role : Text → Bool
is_role r =
    text_eq r (text "system")
    || text_eq r (text "user")
    || text_eq r (text "assistant")
    || text_eq r (text "tool")

-- Message(role, content, name), with `__post_init__`
unfoldable pub new_message : Text → Text → Option Text → Result Message
unfolding is_role
new_message role content name =
    if not (is_role role)
    then err (value_error (text "unsupported message role: " ++ role))
    else if is_blank (strip content)
    then err (value_error (text "message content must not be empty"))
    else ok (record { role = role; content = content; name = name })

-- `if self.name: value["name"] = self.name`
abbrev put_name : Dict Text → Option Text → Dict Text
put_name value none = value
put_name value (some n) = if is_blank n then value else Dict.put value (text "name") n

unfoldable pub message_to_dict : Message → Dict Text
message_to_dict m = put_name ((text "role", m.role) ∷ (text "content", m.content) ∷ []) m.name

abbrev truthy_name : Option Text → Option Text
truthy_name none = none
truthy_name (some n) = if is_blank n then none else some n

-- `value[key]` raises KeyError
abbrev read_message : Option Text → Option Text → Option Text → Result Message
read_message none content name = err (key_error (text "role"))
read_message (some role) none name = err (key_error (text "content"))
read_message (some role) (some content) name = new_message role content (truthy_name name)

unfoldable pub message_from_dict : Dict Text → Result Message
unfolding new_message
message_from_dict value =
    read_message (Dict.get value (text "role")) (Dict.get value (text "content"))
      (Dict.get value (text "name"))

pub record LlmRequest : Type 0 where
  pub messages : List Message
  pub model : Option Text
  pub temperature : ℤ
  pub max_tokens : ℤ

abbrev is_empty {ℓ} : {A : Type ℓ} → List A → Bool
is_empty [] = true
is_empty (x ∷ xs) = false

-- x < 0 and x <= 0
abbrev pub is_negative : ℤ → Bool
is_negative (pos n) = false
is_negative (negsuc n) = true

abbrev pub not_positive : ℤ → Bool
not_positive (pos zero) = true
not_positive (pos (suc n)) = false
not_positive (negsuc n) = true

-- LLMRequest(messages, model, temperature, max_tokens), with `__post_init__`
unfoldable pub new_request : List Message → Option Text → ℤ → ℤ → Result LlmRequest
new_request messages model temperature max_tokens =
    if is_empty messages
    then err (value_error (text "LLM request requires at least one message"))
    else if is_negative temperature || not_positive max_tokens
    then err (value_error (text "invalid generation parameters"))
    else ok (record {
      messages = messages;
      model = model;
      temperature = temperature;
      max_tokens = max_tokens;
    })

pub record LlmResponse : Type 0 where
  pub content : Text
  pub model : Text
  pub prompt_tokens : Option ℤ
  pub completion_tokens : Option ℤ
  pub finish_reason : Option Text

-- an entry of `RunRecord.transitions`; the dictionary holds the states' values
pub record Transition : Type 0 where
  pub from_state : RunState
  pub to_state : RunState
  pub at_time : ℕ
  pub reason : Option Text

pub data StepType : Type 0 where
  llm tool : StepType

-- an entry of `RunRecord.steps`
pub record RunStep : Type 0 where
  pub type : StepType
  pub name : Text
  pub model : Option Text
  pub latency : ℕ

pub record RunRecord : Type 0 where
  pub id : Text
  pub input : Text
  pub kind : AgentKind
  pub session_id : Text
  pub trace_id : Text
  pub state : RunState
  pub output : Option Text
  pub error : Option Text
  pub created_at : ℕ
  pub updated_at : ℕ
  pub started_at : Option ℕ
  pub finished_at : Option ℕ
  pub transitions : List Transition
  pub steps : List RunStep
  pub cancel_requested : Bool

-- RunRecord(id, input, kind, session_id, trace_id), with `__post_init__`; the default factories of
-- `created_at` and `updated_at` read the clock one after the other
unfoldable pub new_run : Text → Text → AgentKind → Text → Text → ℕ → ℕ → Result RunRecord
new_run id input kind session_id trace_id created_at updated_at =
    if is_blank id || is_blank (strip input) || is_blank session_id
    then err (value_error (text "run id, input, and session id are required"))
    else ok (record {
      id = id;
      input = input;
      kind = kind;
      session_id = session_id;
      trace_id = trace_id;
      state = created;
      output = none;
      error = none;
      created_at = created_at;
      updated_at = updated_at;
      started_at = none;
      finished_at = none;
      transitions = [];
      steps = [];
      cancel_requested = false;
    })
