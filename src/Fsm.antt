-- ===== src/Fsm.antt =====
-- src/agent_runtime/fsm.py. A method works on the run that an identifier refers to, in a host
-- state S that has the clock, the locks and the transition hook.
pub mod Legal
pub mod History
use production_agent_runtime.Common.{
  ℕ, ◌≡◌, Bool, true, false, ◌&&◌, not, Option, none, some, List, [], ◌∷◌, ◌++◌, Text, text,
  is_blank, is_some, if◌then◌else◌,
}
use production_agent_runtime.Common.Dict
use production_agent_runtime.Common.Dict.{Dict}
use production_agent_runtime.Common.Exec.{
  Exec, pure, raise, ◌>>=◌, ◌>>◌, refuse_if, invalid_state_transition,
}
use production_agent_runtime.Models.{
  RunState, created, ready, running, waiting, succeeded, failed, cancelled, state_eq, state_value,
  is_terminal, RunRecord, Transition,
}

abbrev pub legal_transitions : List (RunState × RunState)
legal_transitions =
    (created, ready)
    ∷ (created, cancelled)
    ∷ (ready, running)
    ∷ (ready, cancelled)
    ∷ (running, waiting)
    ∷ (running, succeeded)
    ∷ (running, failed)
    ∷ (running, cancelled)
    ∷ (waiting, running)
    ∷ (waiting, failed)
    ∷ (waiting, cancelled)
    ∷ (failed, ready)
    ∷ []

-- (source, target) in edges
unfoldable pub is_edge : List (RunState × RunState) → RunState → RunState → Bool
is_edge [] source target = false
is_edge ((s, t) ∷ edges) source target =
    let rest = is_edge edges source target in
    if state_eq s source && state_eq t target then true else rest

unfoldable pub can_transition : RunState → RunState → Bool
unfolding is_edge
can_transition source target = is_edge legal_transitions source target

-- `if target == RUNNING and run.started_at is None`
abbrev start_time : RunState → ℕ → Option ℕ → Option ℕ
start_time target now (some t) = some t
start_time target now none = if state_eq target running then some now else none

-- the changes that `_apply` makes to the run at the time `now`
unfoldable pub stamp : ℕ → RunState → RunState → Text → RunRecord → RunRecord
stamp now source target reason run = record run {
  state = target;
  updated_at = now;
  started_at = start_time target now run.started_at;
  finished_at = if is_terminal target then some now else run.finished_at;
  transitions =
      run.transitions
      ++ record {
        from_state = source;
        to_state = target;
        at_time = now;
        reason = if is_blank reason then none else some reason;
      }
        ∷ [];
}

abbrev pub Hook : Type 0 → Type 0
Hook S = RunRecord → RunState → RunState → Text → Exec S Unit

pub record StateMachine (S : Type 0) : Type 0 where
  pub hook : Option (Hook S)
  pub lock_for : Text → Exec S Unit
  pub time : Exec S ℕ
  pub load : Text → Exec S RunRecord
  pub store : RunRecord → Exec S Unit

module _ {S : Type 0} (m : StateMachine S) where
  abbrev pub call_hook : Option (Hook S) → Hook S
  call_hook none run source target reason = pure tt
  call_hook (some hook) run source target reason = hook run source target reason

  unfoldable pub apply : RunRecord → RunState → RunState → Text → Exec S Unit
  apply run source target reason = do
    now ← m.time
    let moved = stamp now source target reason run
    m.store moved
    call_hook m.hook moved source target reason

  unfoldable pub illegal : RunState → RunState → Text
  illegal source target =
      text "illegal run state transition: "
      ++ (state_value source ++ (text " -> " ++ state_value target))

  unfoldable pub transition : Text → RunState → Text → Exec S Unit
  transition id target reason = do
    m.lock_for id
    run ← m.load id
    refuse_if (not (can_transition run.state target))
        (invalid_state_transition (illegal run.state target))
    apply run run.state target reason

  unfoldable pub transition_if_current : Text → RunState → RunState → Text → Exec S Bool
  transition_if_current id expected target reason = do
    m.lock_for id
    run ← m.load id
    if not (state_eq run.state expected) then pure false else do
      refuse_if (not (can_transition expected target))
          (invalid_state_transition (illegal expected target))
      apply run expected target reason
      pure true

  unfoldable pub transition_if_allowed : Text → RunState → Text → Exec S Bool
  transition_if_allowed id target reason = do
    m.lock_for id
    run ← m.load id
    if not (can_transition run.state target)
        then pure false
        else do apply run run.state target reason; pure true

-- `_locks`: whether each run's lock is held
abbrev pub Locks : Type 0
Locks = Dict Bool

abbrev setdefault : Locks → Text → Option Bool → Locks
setdefault locks id none = Dict.put locks id false
setdefault locks id (some held) = locks

-- `_lock_for`
unfoldable pub lock_for : Text → Locks → Locks
lock_for id locks = setdefault locks id (Dict.get locks id)

abbrev drop_lock : Locks → Text → Option Bool → Locks
drop_lock locks id none = locks
drop_lock locks id (some held) = if held then locks else Dict.remove locks id

unfoldable pub discard : Text → Locks → Locks
discard id locks = drop_lock locks id (Dict.get locks id)
