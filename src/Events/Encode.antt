-- ===== src/Events/Encode.antt =====
-- `Event.to_dict` of events.py.
use production_agent_runtime.Common.{[], ◌∷◌, text}
use production_agent_runtime.Common.Dict.{Dict}
use production_agent_runtime.Common.Strings.{decimal}
use production_agent_runtime.Common.Json.{Json, number, string, object, Fields, end, field}
use production_agent_runtime.Events.{Event, Value, str, int}

abbrev value_to_json : Value → Json
value_to_json (str s) = string s
value_to_json (int n) = number (decimal n)

unfoldable pub payload_fields : Dict Value → Fields
payload_fields [] = end
payload_fields ((key, v) ∷ payload) = field key (value_to_json v) (payload_fields payload)

unfoldable pub event_to_dict : Event → Json
event_to_dict event = object (
    field (text "id") (string event.id) (
      field (text "topic") (string event.topic) (
        field (text "trace_id") (string event.trace_id) (
          field (text "agent_id") (string event.agent_id) (
            field (text "timestamp") (number (decimal event.timestamp))
              (field (text "payload") (object (payload_fields event.payload)) end))))))
