-- ===== src/Providers/Mock.antt =====
-- MockLLMClient of llm/mock.py; `lower` is str.lower, and `dumps` is json.dumps.
use production_agent_runtime.Common.{
  ℕ, ◌+◌, ◌||◌, none, some, List, [], ◌∷◌, ◌++◌, map, take, Text, text, if◌then◌else◌,
}
use production_agent_runtime.Common.Strings.{has_part, join}
use production_agent_runtime.Common.Json.{Json, string, array, object, end, field, nil, cons}
use production_agent_runtime.Models.{Message, LlmRequest, LlmResponse}

pub record MockClient : Type 0 where
  pub model : Text
  pub calls : ℕ

-- messages[-1].content; a request has a message
abbrev pub latest_of : List Message → Text
latest_of [] = []
latest_of (m ∷ []) = m.content
latest_of (m ∷ n ∷ messages) = latest_of (n ∷ messages)

abbrev pub content_of_message : Message → Text
content_of_message m = m.content

unfoldable pub mock_content : (Text → Text) → (Json → Text) → List Message → Text
mock_content lower dumps messages =
    let combined = join (text "\n") (map content_of_message messages) in
    let latest = latest_of messages in
    let lowered = lower combined in
    if has_part (text "json array") lowered || has_part (text "json 字符串数组") combined
    then dumps (array (cons (string (text "分析需求")) (cons (string (text "形成答案")) nil)))
    else if has_part (text "react controller") lowered || has_part (text "react 控制器") combined
    then dumps (
        object (
          field (text "thought") (string (text "mock backend direct answer"))
            (field (text "final") (string (text "[mock] " ++ take 160 latest)) end)))
    else if has_part (text "critique") lowered || has_part (text "批判") combined
    then text "检查事实依据、遗漏条件和表达清晰度。"
    else if has_part (text "revise") lowered || has_part (text "修订") combined
    then text "[mock revised] " ++ take 220 latest
    else if has_part (text "synthesize") lowered || has_part (text "综合") combined
    then text "[mock synthesis] " ++ take 220 latest
    else text "[mock] " ++ take 220 latest

-- `complete`
unfoldable pub complete :
    (Text → Text) → (Json → Text) → LlmRequest → MockClient → LlmResponse × MockClient
complete lower dumps request client = (
  record {
    content = mock_content lower dumps request.messages;
    model = client.model;
    prompt_tokens = none;
    completion_tokens = none;
    finish_reason = some (text "stop");
  },
  record client { calls = client.calls + 1 },
)
