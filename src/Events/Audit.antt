-- ===== src/Events/Audit.antt =====
-- The audit trail holds the latest events, in order, and at most its capacity.
use production_agent_runtime.Common.{
  ℕ, ◌≡◌, sym, ap, ◌∙◌, ◌≤◌, List, [], ◌∷◌, ◌++◌, length, take_last, deque_append,
  deque_append-take_last, length-deque_append, take_last-of_le, arith, append-nil, append_assoc,
}
use production_agent_runtime.Events.{Event, AuditTrail, record_event}

abbrev pub record_all : List Event → AuditTrail → AuditTrail
record_all [] a = a
record_all (e ∷ es) a = record_all es (record_event e a)

record_all-take_last :
    (es past : List Event) (a : AuditTrail)
    → a.events ≡ take_last a.capacity past
    → (record_all es a).events ≡ take_last a.capacity (past ++ es)
unfolding record_event
record_all-take_last [] past a h = rw append-nil h
record_all-take_last (e ∷ es) past a h =
    record_all-take_last es (past ++ e ∷ []) (record_event e a) (
      ap (λ (l : List Event). deque_append a.capacity l e) h
      ∙ deque_append-take_last a.capacity past e)
    ∙ ap (take_last a.capacity) (append_assoc past (e ∷ []) es)

-- A trail that starts empty holds exactly the last `capacity` of the events recorded in it.
pub record_all_lem :
    (capacity : ℕ) (es : List Event)
    → (record_all es (record { capacity = capacity; events = [] })).events ≡ take_last capacity es
record_all_lem capacity es =
    record_all-take_last es [] _ (sym (take_last-of_le capacity [] (omega arith)))

-- Recording never takes the trail past its capacity.
pub length-record_event :
    (e : Event) (a : AuditTrail) → length (record_event e a).events ≤ a.capacity
unfolding record_event
length-record_event e a = length-deque_append a.capacity a.events e
