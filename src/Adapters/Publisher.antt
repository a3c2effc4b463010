-- ===== src/Adapters/Publisher.antt =====
-- InMemoryEventPublisher of adapters/memory.py, and PublishedEvent of ports.py. An event is copied on
-- its way in and out, so nobody else changes the stored one.
use production_agent_runtime.Common.{ℕ, List, [], ◌∷◌, ◌++◌, Text}
use production_agent_runtime.Common.Json.{Fields}

pub record PublishedEvent : Type 0 where
  pub id : Text
  pub topic : Text
  pub trace_id : Text
  pub agent_id : Text
  pub payload : Fields
  pub timestamp : ℕ

-- `_events`
abbrev pub Published : Type 0
Published = List PublishedEvent

unfoldable pub publish : PublishedEvent → Published → Published
publish event events = events ++ event ∷ []

-- `list`
abbrev pub list : Published → List PublishedEvent
list events = events
