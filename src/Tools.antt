-- ===== src/Tools.antt =====
-- src/agent_runtime/tools.py: the registry of tools. A call runs in three parts with suspensions
-- between them: the lookup, the entry to the tool's bulkhead, and what follows the tool's outcome.
-- What a tool's function returns is of any type V; timeouts are whole clock ticks.
pub mod Describe
pub mod Bulkhead
pub mod Failures
pub mod Calculator
use production_agent_runtime.Common.{
  ℕ, zero, suc, ◌+◌, Bool, true, false, ◌||◌, Option, none, some, List, [], ◌∷◌, ◌++◌, map, Text,
  text, strip, is_blank, text_eq, is_some, if◌then◌else◌,
}
use production_agent_runtime.Common.Dict
use production_agent_runtime.Common.Dict.{Dict}
use production_agent_runtime.Common.Int.{ℤ, pos, pos_part}
use production_agent_runtime.Common.Json.{Json, object}
use production_agent_runtime.Common.Exec.{
  Exec, Exception, Result, ok, err, pure, raise, gets, modify, refuse_if, ◌>>=◌, ◌>>◌, value_error,
  tool_error, tool_not_found_error, timeout_error, cancelled_error,
}
use production_agent_runtime.Models.{not_positive}
use production_agent_runtime.Metrics.{Metrics, increment}
use production_agent_runtime.Runtime.Execute.{message_of}

-- `free` is the semaphore's value; a function that is no coroutine has threads of its own.
pub record Tool : Type 0 where
  pub name : Text
  pub description : Text
  pub is_coroutine : Bool
  pub free : ℕ
  pub workers : Option ℕ
  pub timeout : ℕ
  pub is_shut_down : Bool

pub record ToolRegistry : Type 0 where
  pub default_timeout : ℕ
  pub metrics : Metrics
  pub tools : Dict Tool

-- ToolRegistry(default_timeout_seconds, …, metrics)
abbrev pub new_registry : ℕ → Metrics → ToolRegistry
new_registry default_timeout metrics = record {
  default_timeout = default_timeout;
  metrics = metrics;
  tools = [];
}

-- timeout_seconds or self.default_timeout_seconds
abbrev pub timeout_or : ℕ → Option ℕ → ℕ
timeout_or default none = default
timeout_or default (some zero) = default
timeout_or default (some (suc n)) = suc n

abbrev threads : Bool → ℕ → Option ℕ
threads true n = none
threads false n = some n

abbrev pub new_tool : Text → Text → Bool → ℤ → ℕ → Tool
new_tool name description is_coroutine max_concurrency timeout = record {
  name = name;
  description = description;
  is_coroutine = is_coroutine;
  free = pos_part max_concurrency;
  workers = threads is_coroutine (pos_part max_concurrency);
  timeout = timeout;
  is_shut_down = false;
}

abbrev pub put_tool : Tool → ToolRegistry → ToolRegistry
put_tool tool r = record r { tools = Dict.put r.tools tool.name tool }

-- not name.strip() or name in self._tools
abbrev pub is_refused : Text → ToolRegistry → Bool
is_refused name r = is_blank (strip name) || is_some (Dict.get r.tools name)

unfoldable pub register : Text → Text → Bool → ℤ → Option ℕ → Exec ToolRegistry Unit
register name description is_coroutine max_concurrency timeout r =
    (do
      refuse_if (is_refused name r) (value_error (text "invalid or duplicate tool name: " ++ name))
      refuse_if (not_positive max_concurrency)
          (value_error (text "tool max_concurrency must be positive"))
      modify (
          put_tool (
            new_tool name description is_coroutine max_concurrency
              (timeout_or r.default_timeout timeout))))
      r

-- tool = self._tools.get(name)
abbrev pub known : Text → Option Tool → Exec ToolRegistry Tool
known name none = raise (tool_not_found_error (text "unknown tool: " ++ name))
known name (some tool) = pure tool

unfoldable pub find_tool : Text → Exec ToolRegistry Tool
find_tool name r = known name (Dict.get r.tools name) r

unfoldable pub check_arguments : Json → Exec ToolRegistry Unit
check_arguments (object fields) = pure tt
check_arguments v = raise (tool_error (text "tool arguments must be an object"))

unfoldable pub count : Text → Exec ToolRegistry Unit
count name = modify λ r. record r { metrics = increment name r.metrics }

-- one try to enter `async with tool.semaphore`: false where the call has to wait
abbrev pub take_slot : Tool → ℕ → Exec ToolRegistry Bool
take_slot tool zero = pure false
take_slot tool (suc n) =
    modify (put_tool (record tool { free = n })) >> (count (text "tool_calls_total") >> pure true)

unfoldable pub enter : Text → Exec ToolRegistry Bool
enter name = do tool ← find_tool name; take_slot tool tool.free

-- the end of `async with`
unfoldable pub release : Text → Exec ToolRegistry Unit
release name = do tool ← find_tool name; modify (put_tool (record tool { free = tool.free + 1 }))

-- what the tool's function returned
pub data Output (V : Type 0) : Type 0 where
  str : Text → Output V
  other : V → Output V

-- the exception that leaves the `try`
unfoldable pub as_tool_error : Text → Exception → Exception
as_tool_error name timeout_error = tool_error (text "tool timed out: " ++ name)
as_tool_error name cancelled_error = cancelled_error
as_tool_error name (tool_error m) = tool_error m
as_tool_error name (tool_not_found_error m) = tool_not_found_error m
as_tool_error name e = tool_error (text "tool failed: " ++ (name ++ (text ": " ++ message_of e)))

-- a cancellation is no `Exception`, and is not counted
abbrev pub count_error : Exception → Exec ToolRegistry Unit
count_error cancelled_error = pure tt
count_error e = count (text "tool_errors_total")

module _ {V : Type 0} (dumps : V → Result Text) where
  -- the text of the result; `dumps` is json.dumps, which raises what it cannot encode
  unfoldable pub shown : Output V → Result Text
  shown (str s) = ok s
  shown (other v) = dumps v

  -- the rest of `execute`, for the outcome of `wait_for`
  unfoldable pub leave : Text → Result (Output V) → Exec ToolRegistry Text
  leave name (ok result) = do release name; λ r. (shown result, r)
  leave name (err e) = do count_error e; release name; raise (as_tool_error name e)

  -- `execute`: before each try to enter, and while the tool runs, other tasks use the registry. The
  -- result is none while the call still waits for a slot.
  unfoldable pub wait_and_run :
      Text
      → List (ToolRegistry → ToolRegistry)
      → (ToolRegistry → ToolRegistry)
      → Result (Output V)
      → Exec ToolRegistry (Option Text)
  wait_and_run name [] during outcome = pure none
  wait_and_run name (before ∷ tries) during outcome = do
    modify before
    entered ← enter name
    (if entered
        then modify during >> (leave name outcome >>= λ result. pure (some result))
        else wait_and_run name tries during outcome)

  unfoldable pub execute :
      Text
      → Json
      → List (ToolRegistry → ToolRegistry)
      → (ToolRegistry → ToolRegistry)
      → Result (Output V)
      → Exec ToolRegistry (Option Text)
  execute name arguments tries during outcome = do
    find_tool name
    check_arguments arguments
    wait_and_run name tries during outcome

-- tool.executor.shutdown(wait=True, cancel_futures=True)
abbrev shut_down : Option ℕ → Tool → Tool
shut_down none tool = tool
shut_down (some n) tool = record tool { is_shut_down = true }

unfoldable pub shut_all : Dict Tool → Dict Tool
shut_all [] = []
shut_all ((name, tool) ∷ tools) = (name, shut_down tool.workers tool) ∷ shut_all tools

-- `close`
unfoldable pub close : ToolRegistry → ToolRegistry
close r = record r { tools = shut_all r.tools }

-- `register_builtin_tools`
unfoldable pub register_builtin_tools : Exec ToolRegistry Unit
register_builtin_tools = do
  register (text "calculator")
      (text "Evaluate arithmetic. Arguments: {\"expression\": \"(2 + 3) * 4\"}.") false (pos 4) none
  register (text "echo") (text "Return text unchanged. Arguments: {\"text\": \"value\"}.") false
      (pos 4) none
