-- ===== src/Providers/OpenAi.antt =====
-- OpenAICompatibleClient of llm/openai_compatible.py. `urllib` and `json` are parameters.
use production_agent_runtime.Common.{
  ℕ, Bool, true, false, ◌||◌, ◌==◌, not, Option, none, some, [], ◌∷◌, ◌++◌, map, Text, text,
  is_blank, if◌then◌else◌,
}
use production_agent_runtime.Common.Dict
use production_agent_runtime.Common.Dict.{Dict}
use production_agent_runtime.Common.Int.{ℤ}
use production_agent_runtime.Common.Strings.{decimal, rstrip_by}
use production_agent_runtime.Common.Json
use production_agent_runtime.Common.Json.{
  Json, null, bool, number, string, array, object, nil, cons, Fields, end, field, of_list,
}
use production_agent_runtime.Common.Exec.{
  Exception, Result, ok, err, permanent_llm_error, transient_llm_error, attribute_error,
}
use production_agent_runtime.Common.Exec.Results.{◌>>=◌}
use production_agent_runtime.Models.{Message, LlmRequest, LlmResponse, message_to_dict}
use production_agent_runtime.Config.{ProviderConfig}

-- an HTTP request that is sent
pub record HttpRequest : Type 0 where
  pub url : Text
  pub body : Json  -- encoded by json.dumps
  pub headers : Dict Text
  pub timeout : ℤ

-- What `urlopen` and `read` make of it: a body, as `json.loads` finds it; an HTTP error with at most
-- 2048 bytes of its text; URLError, TimeoutError or ConnectionError; or another exception.
pub data Fetched : Type 0 where
  answered : Option Json → Fetched
  http_error : ℕ → Text → Fetched
  unavailable : Text → Fetched
  broken : Exception → Fetched

-- Python on decoded values: str(v), whether a number's text stands for 0, int(v), and how a
-- temperature is written
pub record Python : Type 0 where
  pub show : Json → Text
  pub is_zero : Text → Bool
  pub to_int : Json → Result ℤ
  pub show_number : ℤ → Text

-- bool(v)
unfoldable pub is_true : Python → Json → Bool
is_true python null = false
is_true python (bool b) = b
is_true python (number n) = not (python.is_zero n)
is_true python (string s) = not (is_blank s)
is_true python (array nil) = false
is_true python (array (cons v vs)) = true
is_true python (object end) = false
is_true python (object (field key v rest)) = true

-- str(v)
abbrev pub to_text : Python → Json → Text
to_text python (string s) = s
to_text python v = python.show v

-- request.model or self.config.model
abbrev pub model_or : Text → Option Text → Text
model_or default none = default
model_or default (some model) = if is_blank model then default else model

abbrev as_fields : Dict Text → Fields
as_fields [] = end
as_fields ((key, s) ∷ d) = field key (string s) (as_fields d)

unfoldable pub payload : Python → ProviderConfig → LlmRequest → Json
payload python config request = object (
    field (text "model") (string (model_or config.model request.model)) (
      field (text "messages")
        (array (
          of_list (map (λ (m : Message). object (as_fields (message_to_dict m))) request.messages)))
        (field (text "temperature") (number (python.show_number request.temperature)) (
          field (text "max_tokens") (number (python.show_number request.max_tokens))
            (field (text "stream") (bool false) end)))))

-- os.environ.get(self.config.api_key_env, "")
abbrev authorize : Option Text → Dict Text → Dict Text
authorize none headers = headers
authorize (some key) headers =
    if is_blank key
    then headers
    else Dict.put headers (text "Authorization") (text "Bearer " ++ key)

unfoldable pub http_request :
    Python → (Text → Option Text) → ProviderConfig → LlmRequest → HttpRequest
http_request python environ config request = record {
  url = rstrip_by (λ c. c == b'/') config.base_url ++ text "/chat/completions";
  body = payload python config request;
  headers =
      authorize (environ config.api_key_env) ((text "Content-Type", text "application/json") ∷ []);
  timeout = config.timeout;
}

-- `_TRANSIENT_STATUS`
unfoldable pub is_transient_status : ℕ → Bool
is_transient_status code =
    code == 408
    || code == 409
    || code == 425
    || code == 429
    || code == 500
    || code == 502
    || code == 503
    || code == 504

-- v[key], none where it raises KeyError or TypeError
abbrev pub item : Text → Json → Option Json
item key (object fields) = Json.get fields key
item key _ = none

-- v[0], none where it raises KeyError, IndexError or TypeError; a decoded object has no key 0
abbrev pub first_item : Json → Option Json
first_item (array (cons v vs)) = some v
first_item (string (c ∷ s)) = some (string (c ∷ []))
first_item _ = none

abbrev pub then_item : Option Json → (Json → Option Json) → Option Json
then_item none f = none
then_item (some v) f = f v

-- choice = body["choices"][0]
abbrev pub choice_of : Json → Option Json
choice_of body = then_item (item (text "choices") body) first_item

-- choice["message"]["content"]
abbrev pub content_of : Json → Option Json
content_of choice = then_item (item (text "message") choice) (item (text "content"))

-- v.get(key)
abbrev pub get_item : Text → Json → Result (Option Json)
get_item key (object fields) = ok (Json.get fields key)
get_item key _ = err (attribute_error (text "'get'"))

-- `_optional_int`
abbrev pub optional_int : Python → Option Json → Result (Option ℤ)
optional_int python none = ok none
optional_int python (some null) = ok none
optional_int python (some v) = elim (python.to_int v) [ ok n ↦ ok (some n) | err e ↦ err e ]

abbrev pub invalid : {A : Type 0} → Result A
invalid = err (permanent_llm_error (text "provider returned an invalid response"))

-- a value that may be missing, as the first that is true
abbrev first_true : Python → Option Json → Text → Text
first_true python none default = default
first_true python (some v) default = if is_true python v then to_text python v else default

-- a text is passed on; the program reads no other reason
abbrev text_or_none : Option Json → Option Text
text_or_none (some (string s)) = some s
text_or_none _ = none

-- LLMResponse(…), for the choice and its content
unfoldable pub respond : Python → Text → Json → Json → Json → Json → Result LlmResponse
respond python default body choice content usage = do
  model ← get_item (text "model") body
  prompt ← get_item (text "prompt_tokens") usage
  prompt_tokens ← optional_int python prompt
  completion ← get_item (text "completion_tokens") usage
  completion_tokens ← optional_int python completion
  reason ← get_item (text "finish_reason") choice
  ok (record {
    content = to_text python content;
    model = first_true python model default;
    prompt_tokens = prompt_tokens;
    completion_tokens = completion_tokens;
    finish_reason = text_or_none reason;
  })

-- usage = body.get("usage") or {}
abbrev pub usage_of : Python → Json → Json
usage_of python body = elim (then_item (some body) (item (text "usage"))) [
  | none ↦ object end
  | some v ↦ if is_true python v then v else object end
]

abbrev pub with_content : Python → Text → Json → Json → Option Json → Result LlmResponse
with_content python default body choice none = invalid
with_content python default body choice (some content) =
    respond python default body choice content (usage_of python body)

abbrev pub with_choice : Python → Text → Json → Option Json → Result LlmResponse
with_choice python default body none = invalid
with_choice python default body (some choice) =
    with_content python default body choice (content_of choice)

-- what `_request` makes of the outcome
unfoldable pub receive : Python → Text → Fetched → Result LlmResponse
receive python default (answered none) = invalid
receive python default (answered (some body)) = with_choice python default body (choice_of body)
receive python default (http_error code detail) =
    let message = text "provider HTTP " ++ (decimal code ++ (text ": " ++ detail)) in
    if is_transient_status code
    then err (transient_llm_error message)
    else err (permanent_llm_error message)
receive python default (unavailable message) =
    err (transient_llm_error (text "provider unavailable: " ++ message))
receive python default (broken e) = err e

-- `_request`, with the network as a function of the HTTP request
unfoldable pub request_once :
    Python
    → (Text → Option Text)
    → (HttpRequest → Fetched)
    → ProviderConfig
    → LlmRequest
    → Result LlmResponse
request_once python environ network config request =
    receive python (model_or config.model request.model)
      (network (http_request python environ config request))
