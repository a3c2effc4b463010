-- ===== src/Sessions.antt =====
-- src/agent_runtime/sessions.py, and the repository of adapters/memory.py over it: the bounded
-- conversation store. The lock is free at every suspension point, so each method is atomic.
pub mod Bounded
use production_agent_runtime.Common.{
  ℕ, Option, none, some, List, [], Text, text, leb, deque_append, if◌then◌else◌,
}
use production_agent_runtime.Common.Dict
use production_agent_runtime.Common.Dict.{Dict}
use production_agent_runtime.Common.Exec.{
  Exec, Result, ok, err, pure, raise, ◌>>=◌, ◌>>◌, value_error,
}
use production_agent_runtime.Models.{Message, new_message}

pub record SessionStore : Type 0 where
  pub max_messages : ℕ
  pub sessions : Dict (List Message)

-- SessionStore(max_messages)
unfoldable pub new_store : ℕ → Result SessionStore
new_store max_messages =
    if leb max_messages 0
    then err (value_error (text "max_messages must be positive"))
    else ok (record { max_messages = max_messages; sessions = [] })

-- a missing session reads as an empty one
abbrev or_empty : Option (List Message) → List Message
or_empty none = []
or_empty (some h) = h

unfoldable pub history : Dict (List Message) → Text → List Message
history sessions session_id = or_empty (Dict.get sessions session_id)

abbrev pub get : Text → SessionStore → List Message
get session_id s = history s.sessions session_id

-- history.append(message): nothing is appended if the message was refused
unfoldable pub push_message : Text → Result Message → Exec SessionStore Unit
push_message session_id (ok m) s = (
  ok tt,
  record s {
    sessions = Dict.put s.sessions session_id (deque_append s.max_messages (get session_id s) m);
  },
)
push_message session_id (err e) s = (err e, s)

unfoldable pub append_message : Text → Text → Text → Exec SessionStore Unit
unfolding push_message
append_message session_id role content = push_message session_id (new_message role content none)

-- self._sessions[session_id] makes the entry
unfoldable pub open_session : Text → Exec SessionStore Unit
open_session session_id s =
    (ok tt, record s { sessions = Dict.put s.sessions session_id (get session_id s) })

unfoldable pub append_turn : Text → Text → Text → Exec SessionStore Unit
unfolding open_session append_message
append_turn session_id user assistant = do
  open_session session_id
  append_message session_id (text "user") user
  append_message session_id (text "assistant") assistant

-- `clear`, and `delete` of the repository
unfoldable pub clear : Text → SessionStore → SessionStore
clear session_id s = record s { sessions = Dict.remove s.sessions session_id }
