-- ===== src/Models/Encode.antt =====
-- `to_dict` of RunRecord (models.py), with the dictionaries of its transitions (`_apply` of fsm.py)
-- and of its steps (`_complete` and `_execute_tool` of runtime.py).
use production_agent_runtime.Common.{
  ℕ, Option, none, some, map, Text, text, is_blank, if◌then◌else◌,
}
use production_agent_runtime.Common.Strings.{decimal}
use production_agent_runtime.Common.Json.{
  Json, null, number, string, array, object, Fields, end, field, of_list,
}
use production_agent_runtime.Models.{
  RunRecord, RunStep, StepType, Transition, llm, tool, state_value, kind_value,
}

abbrev pub or_null : {A : Type 0} → (A → Json) → Option A → Json
or_null encode none = null
or_null encode (some a) = encode a

-- a clock's reading, or a duration
abbrev pub as_number : ℕ → Json
as_number n = number (decimal n)

-- if reason: transition["reason"] = reason
abbrev reason_field : Option Text → Fields
reason_field none = end
reason_field (some reason) =
    if is_blank reason then end else field (text "reason") (string reason) end

unfoldable pub transition_to_dict : Transition → Json
transition_to_dict t = object (
    field (text "from") (string (state_value t.from_state)) (
      field (text "to") (string (state_value t.to_state))
        (field (text "at") (as_number t.at_time) (reason_field t.reason))))

abbrev step_fields : StepType → RunStep → Fields
step_fields llm step = field (text "type") (string (text "llm")) (
    field (text "name") (string step.name) (
      field (text "model") (or_null string step.model)
        (field (text "latency_seconds") (as_number step.latency) end)))
step_fields tool step = field (text "type") (string (text "tool")) (
    field (text "name") (string step.name)
      (field (text "latency_seconds") (as_number step.latency) end))

unfoldable pub step_to_dict : RunStep → Json
step_to_dict step = object (step_fields step.type step)

-- the entries of `to_dict`, and further ones behind them
unfoldable pub run_fields : RunRecord → Fields → Fields
run_fields run rest = field (text "id") (string run.id) (
    field (text "input") (string run.input) (
      field (text "kind") (string (kind_value run.kind)) (
        field (text "session_id") (string run.session_id) (
          field (text "trace_id") (string run.trace_id) (
            field (text "state") (string (state_value run.state)) (
              field (text "output") (or_null string run.output) (
                field (text "error") (or_null string run.error) (
                  field (text "created_at") (as_number run.created_at) (
                    field (text "updated_at") (as_number run.updated_at) (
                      field (text "started_at") (or_null as_number run.started_at) (
                        field (text "finished_at") (or_null as_number run.finished_at) (
                          field (text "transitions")
                            (array (of_list (map transition_to_dict run.transitions)))
                            (field (text "steps") (array (of_list (map step_to_dict run.steps)))
                              rest)))))))))))))

-- `to_dict`
unfoldable pub run_to_dict : RunRecord → Json
run_to_dict run = object (run_fields run end)
