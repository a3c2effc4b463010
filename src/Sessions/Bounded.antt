-- ===== src/Sessions/Bounded.antt =====
-- Sessions stay within their bound, and hold the latest messages.
use production_agent_runtime.Common.{
  ◌≡◌, refl, ◌≤◌, true, false, none, List, [], ◌∷◌, ◌++◌, Text, text, text_eq, text_eq_refl, strip,
  is_blank, length, take_last, length-deque_append, deque_append, deque_append_twice, arith,
  if◌then◌else◌,
}
use production_agent_runtime.Common.Dict
use production_agent_runtime.Common.Dict.{Dict, get-put}
use production_agent_runtime.Common.Exec.{Result, ok, err, value_error, ◌>>=◌}
use production_agent_runtime.Common.Exec.Keeps.{Keeps, keeps_rules}
use production_agent_runtime.Models.{Message, new_message}
use production_agent_runtime.Sessions.{
  SessionStore, history, get, push_message, append_message, open_session, append_turn,
}

-- the messages of one turn
abbrev pub said : Text → Text → Message
said role content = record { role = role; content = content; name = none }

new_message_ok :
    (content : Text)
    → is_blank (strip content) ≡ false
    → (new_message (text "user") content none ≡ ok (said (text "user") content))
      × (new_message (text "assistant") content none ≡ ok (said (text "assistant") content))
unfolding new_message text text_eq
new_message_ok content h = (rw h, rw h)

-- Every session is within the bound.
pub record IsBounded (s : SessionStore) : Type 0 where
  pub at_key : (session_id : Text) → length (get session_id s) ≤ s.max_messages

append_message_ok :
    (s : SessionStore) (session_id role content : Text) (m : Message)
    → new_message role content none ≡ ok m
    → append_message session_id role content s ≡ (
      ok tt,
      record s {
        sessions =
            Dict.put s.sessions session_id (deque_append s.max_messages (get session_id s) m);
      },
    )
unfolding append_message
append_message_ok s session_id role content m e = rw (e, append_message)

history-put :
    (sessions : Dict (List Message)) (session_id other : Text) (h : List Message)
    → history (Dict.put sessions session_id h) other
      ≡ (if text_eq session_id other then h else history sessions other)
unfolding history
history-put sessions session_id other h = rw get-put (ground arith)

module _ (s : SessionStore) (session_id : Text) where
  -- the store after the session's history has been replaced
  abbrev with_history : List Message → SessionStore
  with_history h = record s { sessions = Dict.put s.sessions session_id h }

abbrev appended : SessionStore → Text → Message → SessionStore
appended s session_id m =
    with_history s session_id (deque_append s.max_messages (get session_id s) m)

abbrev opened : SessionStore → Text → SessionStore
opened s session_id = with_history s session_id (get session_id s)

append_turn_ok :
    (s : SessionStore) (session_id user assistant : Text)
    → is_blank (strip user) ≡ false
    → is_blank (strip assistant) ≡ false
    → append_turn session_id user assistant s ≡ (
      ok tt,
      appended
          (appended (opened s session_id) session_id (said (text "user") user))
          session_id
          (said (text "assistant") assistant),
    )
unfolding append_turn ◌>>=◌
append_turn_ok s session_id user assistant hu ha =
    let start : SessionStore = opened s session_id in
    let u : Message = said (text "user") user in
    rw (append_message_ok start session_id (text "user") user u (new_message_ok user hu).0) (
      append_message_ok (appended start session_id u) session_id (text "assistant") assistant _
        (new_message_ok assistant ha).1)

-- The history that a turn leaves.
get-appended :
    (s : SessionStore) (session_id other : Text) (u a : Message)
    → IsBounded s
    → get other (appended (appended (opened s session_id) session_id u) session_id a) ≡ (
        if text_eq session_id other
        then take_last s.max_messages (get session_id s ++ u ∷ a ∷ [])
        else get other s)
get-appended s session_id other u a bounded =
    let twice =
      deque_append_twice s.max_messages (get session_id s) u a (bounded.at_key session_id) in
    simp (history-put, text_eq_refl) (ground (arith, twice))

-- In a bounded store, a turn with a question and an answer that are not blank returns; then the
-- session holds the latest `max_messages` of its messages and the two new ones, and every other
-- session is as before.
pub get-append_turn :
    (s : SessionStore) (session_id user assistant other : Text)
    → is_blank (strip user) ≡ false
    → is_blank (strip assistant) ≡ false
    → IsBounded s
    → let (r, s') = append_turn session_id user assistant s in
      (r ≡ ok tt)
      × (get other s' ≡ (
          if text_eq session_id other
          then take_last s.max_messages
              (get session_id s ++ said (text "user") user ∷ said (text "assistant") assistant ∷ [])
          else get other s))
get-append_turn s session_id user assistant other hu ha bounded =
    rw (append_turn_ok s session_id user assistant hu ha)
      (refl, get-appended s session_id other _ _ bounded)

push_message-IsBounded :
    (session_id : Text) (r : Result Message) → Keeps IsBounded (push_message session_id r)
unfolding push_message
push_message-IsBounded session_id (ok m) = record {
  at = λ s h. record {
    at_key = λ other.
        rw history-put
          (ground (arith, h.at_key other, length-deque_append s.max_messages (get session_id s) m));
  };
}
push_message-IsBounded session_id (err e) = record { at = λ s h. h }

append_message-IsBounded :
    (session_id role content : Text) → Keeps IsBounded (append_message session_id role content)
unfolding append_message
append_message-IsBounded session_id role content =
    push_message-IsBounded session_id (new_message role content none)

open_session-IsBounded : (session_id : Text) → Keeps IsBounded (open_session session_id)
unfolding open_session
open_session-IsBounded session_id = record {
  at = λ s h. record {
    at_key = λ other. rw history-put (ground (arith, h.at_key other, h.at_key session_id));
  };
}

-- A turn keeps every session within the bound, whether its messages are accepted or refused.
pub append_turn-IsBounded :
    (session_id user assistant : Text) → Keeps IsBounded (append_turn session_id user assistant)
unfolding append_turn
append_turn-IsBounded session_id user assistant =
    search (keeps_rules, open_session-IsBounded, append_message-IsBounded)

refused_content :
    (content : Text)
    → is_blank (strip content) ≡ true
    → new_message (text "assistant") content none
      ≡ err (value_error (text "message content must not be empty"))
unfolding new_message text text_eq
refused_content content h = rw h

append_turn_err :
    (s : SessionStore) (session_id user assistant : Text)
    → is_blank (strip user) ≡ false
    → is_blank (strip assistant) ≡ true
    → append_turn session_id user assistant s ≡ (
      err (value_error (text "message content must not be empty")),
      appended (opened s session_id) session_id (said (text "user") user),
    )
unfolding append_turn ◌>>=◌
append_turn_err s session_id user assistant hu ha =
    let start : SessionStore = opened s session_id in
    let u : Message = said (text "user") user in
    rw (append_message_ok start session_id (text "user") user u (new_message_ok user hu).0)
      (rw (refused_content assistant ha, append_message, push_message))

get-opened :
    (s : SessionStore) (session_id : Text) (u : Message)
    → IsBounded s
    → get session_id (appended (opened s session_id) session_id u)
      ≡ take_last s.max_messages (get session_id s ++ u ∷ [])
unfolding deque_append
get-opened s session_id u h = simp (history-put, text_eq_refl)

-- In a bounded store, a turn whose question is not blank and whose answer is blank raises
-- ValueError, and leaves the user's message in the session without an answer.
pub append_turn_half :
    (s : SessionStore) (session_id user assistant : Text)
    → is_blank (strip user) ≡ false
    → is_blank (strip assistant) ≡ true
    → IsBounded s
    → let (r, s') = append_turn session_id user assistant s in
      (r ≡ err (value_error (text "message content must not be empty")))
      × (get session_id s'
          ≡ take_last s.max_messages (get session_id s ++ said (text "user") user ∷ []))
append_turn_half s session_id user assistant hu ha h =
    rw (append_turn_err s session_id user assistant hu ha)
      (refl, get-opened s session_id (said (text "user") user) h)
