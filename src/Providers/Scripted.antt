-- ===== src/Providers/Scripted.antt =====
-- ScriptedLLMClient of llm/mock.py.
use production_agent_runtime.Common.{
  ℕ, suc, ◌+◌, ◌-◌, ◌≡◌, refl, ap, ◌∙◌, none, List, [], ◌∷◌, ◌++◌, map, take, length, replicate,
  Text, text, arith,
}
use production_agent_runtime.Common.Exec.{Exec, Result, ok, err, runtime_error}
use production_agent_runtime.Models.{LlmRequest, LlmResponse}

pub record ScriptedClient : Type 0 where
  pub responses : List Text
  pub model : Text
  pub calls : ℕ

abbrev pub scripted_response : Text → Text → LlmResponse
scripted_response model content = record {
  content = content;
  model = model;
  prompt_tokens = none;
  completion_tokens = none;
  finish_reason = none;
}

abbrev exhausted : Result LlmResponse
exhausted = err (runtime_error (text "scripted LLM responses exhausted"))

abbrev pop : List Text → Exec ScriptedClient LlmResponse
pop [] client = (exhausted, record client { calls = client.calls + 1 })
pop (content ∷ later) client = (
  ok (scripted_response client.model content),
  record client { responses = later; calls = client.calls + 1 },
)

-- `complete`; the request is not looked at
unfoldable pub complete : LlmRequest → Exec ScriptedClient LlmResponse
complete request client = pop client.responses client

-- the results of one call after the other
unfoldable pub complete_all : List LlmRequest → ScriptedClient → List (Result LlmResponse)
complete_all [] client = []
complete_all (request ∷ requests) client =
    let (r, client') = complete request client in r ∷ complete_all requests client'

abbrev answers_of : Text → List Text → List (Result LlmResponse)
answers_of model contents = map (λ content. ok (scripted_response model content)) contents

times : (n m : ℕ) → n ≡ m → replicate n exhausted ≡ replicate m exhausted
times n m same = ap (λ (k : ℕ). replicate k exhausted) same

complete_all-empty :
    (requests : List LlmRequest) (model : Text) (calls : ℕ)
    → complete_all requests (record { responses = []; model = model; calls = calls })
      ≡ replicate (length requests) exhausted
unfolding complete_all complete
complete_all-empty [] model calls = refl
complete_all-empty (request ∷ requests) model calls =
    ap (◌∷◌ exhausted) (complete_all-empty requests model (calls + 1))

-- The calls are answered with the script's responses in their order, whatever is asked; each call
-- behind the last response raises the error that the script is exhausted.
pub complete_all-script :
    (requests : List LlmRequest) (responses : List Text) (model : Text) (calls : ℕ)
    → complete_all requests (record { responses = responses; model = model; calls = calls })
      ≡ answers_of model (take (length requests) responses)
        ++ replicate (length requests - length responses) exhausted
unfolding complete_all complete
complete_all-script [] responses model calls = times 0 (0 - length responses) (omega arith)
complete_all-script (request ∷ requests) [] model calls =
    complete_all-empty (request ∷ requests) model calls
    ∙ times (suc (length requests)) (suc (length requests) - 0) (omega arith)
complete_all-script (request ∷ requests) (content ∷ responses) model calls =
    ap (◌∷◌ (ok (scripted_response model content))) (
      complete_all-script requests responses model (calls + 1)
      ∙ ap
          (λ (rest : List (Result LlmResponse)).
            answers_of model (take (length requests) responses) ++ rest)
          (times (length requests - length responses)
            (suc (length requests) - suc (length responses)) (omega arith)))
