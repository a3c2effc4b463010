-- ===== src/Runtime/Always.antt =====
-- What holds of every run, whatever the callers, workers, providers and tools do, in any order.
use production_agent_runtime.Common.{
  ℕ, ◌≡◌, sym, ◌∙◌, ◌≢◌, ◌⊎◌, true, some, List, [], ◌∷◌, Text, arith,
}
use production_agent_runtime.Common.Dict
use production_agent_runtime.Common.Exec.{ok}
use production_agent_runtime.Common.Exec.Keeps.{Keeps, Keeps-bind, Keeps-pure}
use production_agent_runtime.Models.{RunRecord, RunState, cancelled, succeeded, AgentKind, new_run}
use production_agent_runtime.Fsm.{can_transition, stamp}
use production_agent_runtime.Fsm.History.{HasHistory, stamp-HasHistory, new_run-HasHistory}
use production_agent_runtime.Runtime.State.{Runtime}
use production_agent_runtime.Runtime.Invariant.{IsKept, AllRuns}
use production_agent_runtime.Runtime.Kept.{
  begin-Keeps, request_llm-Keeps, llm_returned-Keeps, request_tool-Keeps, tool_returned-Keeps,
  finish-Keeps, worker_take-Keeps, worker_release-Keeps,
}
use production_agent_runtime.Runtime.KeptByCalls.{submit-Keeps}
use production_agent_runtime.Runtime.KeptByControl.{
  wait-Keeps, cancel-Keeps, retry-Keeps, close-Keeps, finish_close-Keeps,
}
use production_agent_runtime.Runtime.Steps.{
  Action, submits, waits, cancels, retries, closes, closes_events, takes, begins, requests_llm,
  gets_answer, requests_tool, gets_result, finishes, releases, perform, run_actions,
}

module _ (Fresh : Text → Type 0) (R : RunRecord → Type 0) (kept : IsKept Fresh R) where
  abbrev Q : Runtime → Type 0
  Q = AllRuns Fresh R

  perform-Keeps : (a : Action) → Keeps Q (perform a)
  unfolding perform
  perform-Keeps (submits input kind session_id key) =
      Keeps-bind _ _ (submit-Keeps Fresh R kept input kind session_id key) (λ _. Keeps-pure tt)
  perform-Keeps (waits id) = Keeps-bind _ _ (wait-Keeps Fresh R kept id) (λ _. Keeps-pure tt)
  perform-Keeps (cancels id) = Keeps-bind _ _ (cancel-Keeps Fresh R kept id) (λ _. Keeps-pure tt)
  perform-Keeps (retries id) = Keeps-bind _ _ (retry-Keeps Fresh R kept id) (λ _. Keeps-pure tt)
  perform-Keeps closes = close-Keeps Fresh R kept
  perform-Keeps closes_events = finish_close-Keeps Fresh R kept
  perform-Keeps takes = worker_take-Keeps Fresh R kept
  perform-Keeps (begins id) = Keeps-bind _ _ (begin-Keeps Fresh R kept id) (λ _. Keeps-pure tt)
  perform-Keeps (requests_llm id step messages) =
      Keeps-bind _ _ (request_llm-Keeps Fresh R kept id step messages) (λ _. Keeps-pure tt)
  perform-Keeps (gets_answer id step started answer) =
      llm_returned-Keeps Fresh R kept id step started answer
  perform-Keeps (requests_tool id name step) =
      Keeps-bind _ _ (request_tool-Keeps Fresh R kept id name step) (λ _. Keeps-pure tt)
  perform-Keeps (gets_result id name started answer) =
      tool_returned-Keeps Fresh R kept id name started answer
  perform-Keeps (finishes id started answer) = finish-Keeps Fresh R kept id started answer
  perform-Keeps (releases id) = worker_release-Keeps Fresh R kept id

  pub run_actions-AllRuns : (actions : List Action) (s : Runtime) → Q s → Q (run_actions actions s)
  unfolding run_actions
  run_actions-AllRuns [] s h = h
  run_actions-AllRuns (a ∷ actions) s h =
      run_actions-AllRuns actions (perform a s).1 ((perform-Keeps a).at s h)

history_kept : IsKept (λ id. Unit) HasHistory
history_kept = record {
  by_stamp = stamp-HasHistory;
  by_creation = λ id input kind session_id trace_id t u run fresh made.
      new_run-HasHistory id input kind session_id trace_id t u run made;
  by_step = λ step run h. record {
    path = h.path;
    was_started = h.was_started;
    was_finished = h.was_finished;
  };
  by_output = λ output run h. record {
    path = h.path;
    was_started = h.was_started;
    was_finished = h.was_finished;
  };
  by_error = λ error run h. record {
    path = h.path;
    was_started = h.was_started;
    was_finished = h.was_finished;
  };
  by_request =
      λ run h. record { path = h.path; was_started = h.was_started; was_finished = h.was_finished };
  by_reset = λ run is_ready h. record {
    path = h.path;
    was_started = h.was_started;
    was_finished = λ over. ground (arith, is_ready, over);
  };
}

abbrev pub AllHistories : Runtime → Type 0
AllHistories = AllRuns (λ id. Unit) HasHistory

-- If, of every run, the transition log is a path of the diagram from CREATED to its state, with a
-- start time while it is RUNNING, WAITING, SUCCEEDED or FAILED and a finish time while it is
-- terminal, and each object is filed under its own identifier, then this holds of every run after
-- any actions in any order.
pub run_actions-HasHistory :
    (actions : List Action) (s : Runtime) (id : Text) (run : RunRecord)
    → AllHistories s
    → Dict.get (run_actions actions s).objects id ≡ some run
    → HasHistory run
run_actions-HasHistory actions s id run h e =
    ((run_actions-AllRuns (λ id. Unit) HasHistory history_kept actions s h).runs_have id run e).1

-- the run that `id` refers to is in the state
abbrev pub StaysIn : Text → RunState → RunRecord → Type 0
StaysIn id final run = run.id ≡ id → run.state ≡ final

no_way_out : (s t : RunState) → (s ≡ cancelled) ⊎ (s ≡ succeeded) → can_transition s t ≡ true → ⊥
unfolding can_transition
no_way_out s t final allowed = ground arith

id_of_new :
    (id input : Text) (kind : AgentKind) (session_id trace_id : Text) (t u : ℕ) (run : RunRecord)
    → new_run id input kind session_id trace_id t u ≡ ok run
    → run.id ≡ id
unfolding new_run
id_of_new id input kind session_id trace_id t u run h = ground arith

final_kept :
    (id : Text) (final : RunState)
    → (final ≡ cancelled) ⊎ (final ≡ succeeded)
    → IsKept (λ fresh. fresh ≢ id) (StaysIn id final)
final_kept id final over = record {
  by_stamp = λ now target reason run allowed stays same.
      absurd (no_way_out final target over (rw (stays (unfold stamp in same)) at allowed));
  by_creation = λ new_id input kind session_id trace_id t u run fresh made same.
      absurd (fresh (sym (id_of_new new_id input kind session_id trace_id t u run made) ∙ same));
  by_step = λ step run stays. stays;
  by_output = λ output run stays. stays;
  by_error = λ error run stays. stays;
  by_request = λ run stays. stays;
  by_reset = λ run is_ready stays. stays;
}

-- Where each object is filed under its own identifier, a run that is CANCELLED or SUCCEEDED stays
-- so after any actions in any order, as long as no generated identifier repeats its own: no late
-- answer of a model or a tool, and no retry, brings it back.
pub run_actions-final :
    (actions : List Action) (s : Runtime) (id : Text) (final : RunState) (run : RunRecord)
    → (final ≡ cancelled) ⊎ (final ≡ succeeded)
    → AllRuns (λ fresh. fresh ≢ id) (StaysIn id final) s
    → Dict.get (run_actions actions s).objects id ≡ some run
    → run.state ≡ final
run_actions-final actions s id final run over h e =
    let (same, stays) =
      (run_actions-AllRuns (λ fresh. fresh ≢ id) (StaysIn id final) (final_kept id final over)
          actions s h).runs_have
        id run e in
    stays same
