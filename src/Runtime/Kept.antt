-- ===== src/Runtime/Kept.antt =====
-- Every method of the runtime keeps what every change of a run keeps: the methods of the workers.
use production_agent_runtime.Common.{ℕ, refl, Bool, true, false, Option, none, some, Text}
use production_agent_runtime.Common.Exec.{
  Exec, Exception, Result, ok, err, pure, ◌>>◌, cancelled_error,
}
use production_agent_runtime.Common.Exec.Keeps.{Keeps, Keeps-pure, Keeps-read, Keeps-bind}
use production_agent_runtime.Models.{RunRecord, RunStep, LlmResponse}
use production_agent_runtime.Adapters.Queue.{RunTask}
use production_agent_runtime.Adapters.Queue
use production_agent_runtime.Runtime.State.{Runtime, update, contains}
use production_agent_runtime.Runtime.Invariant.{IsKept, AllRuns, Keeps-quiet}
use production_agent_runtime.Runtime.KeptByFsm.{update-Keeps, run_rules}
use production_agent_runtime.Runtime.Execute.{
  add_step, set_output, set_error, increment_if, on_error, handle, signal_if, conclude, settle,
  protect, acquire, begin, request_llm, resume, note_llm, llm_returned, request_tool, note_tool,
  tool_returned, append_turn, complete_run, finish,
}
use production_agent_runtime.Runtime.Worker.{
  stale_if, is_stale, task_done, dispatch, work_on, worker_take, worker_release,
}

module _ (Fresh : Text → Type 0) (R : RunRecord → Type 0) (kept : IsKept Fresh R) where
  abbrev Q : Runtime → Type 0
  Q = AllRuns Fresh R

  update_error-Keeps : (id error : Text) → Keeps Q (update id (set_error error))
  update_error-Keeps id error = update-Keeps Fresh R id (set_error error) (kept.by_error error)

  update_output-Keeps : (id output : Text) → Keeps Q (update id (set_output output))
  update_output-Keeps id output =
      update-Keeps Fresh R id (set_output output) (kept.by_output output)

  update_steps-Keeps : (id : Text) (step : RunStep) → Keeps Q (update id (add_step step))
  update_steps-Keeps id step = update-Keeps Fresh R id (add_step step) (kept.by_step step)

  increment_if-Keeps : (b : Bool) (name : Text) → Keeps Q (increment_if b name)
  unfolding increment_if
  increment_if-Keeps true name = search run_rules
  increment_if-Keeps false name = search run_rules

  on_error-Keeps : (id : Text) (e : Exception) → Keeps Q (on_error id e)
  unfolding on_error
  on_error-Keeps id e = search (run_rules, update_error-Keeps, increment_if-Keeps) depth 8

  handle-Keeps : (id : Text) (r : Result (Unit {0})) → Keeps Q (handle id r)
  unfolding handle
  handle-Keeps id (ok u) = search run_rules
  handle-Keeps id (err cancelled_error) = search run_rules
  handle-Keeps id (err e) = on_error-Keeps id e

  signal_if-Keeps : (b : Bool) (id : Text) → Keeps Q (signal_if b id)
  unfolding signal_if
  signal_if-Keeps true id = search run_rules
  signal_if-Keeps false id = search run_rules

  conclude-Keeps : (id : Text) → Keeps Q (conclude id)
  unfolding conclude
  conclude-Keeps id = search (run_rules, signal_if-Keeps) depth 8

  settle-Keeps : (id : Text) (r : Result (Unit {0})) → Keeps Q (settle id r)
  unfolding settle
  settle-Keeps id r = Keeps-bind _ _ (handle-Keeps id r) (λ _. conclude-Keeps id)

  ended :
      {A : Type 0} (id : Text) (r : Result A) (s : Runtime)
      → Q s
      → Q
          (elim r as (λ _. Result (Option A) × Runtime) [
            | ok a ↦ (ok (some a), s)
            | err e ↦ (settle id (err e) >> pure none) s
          ]).1
  ended id (ok a) s h = h
  ended id (err e) s h = (Keeps-bind _ _ (settle-Keeps id (err e)) (λ _. Keeps-pure none)).at s h

  protect-Keeps :
      {A : Type 0} (id : Text) (body : Exec Runtime A) → Keeps Q body → Keeps Q (protect id body)
  unfolding protect
  protect-Keeps id body k = record { at = λ s h. ended id (body s).0 (body s).1 (k.at s h) }

  acquire-Keeps : (id : Text) → Keeps Q (acquire id)
  unfolding acquire
  acquire-Keeps id = protect-Keeps id _ (search run_rules)

  pub begin-Keeps : (id : Text) → Keeps Q (begin id)
  unfolding begin
  begin-Keeps id = search (run_rules, conclude-Keeps, acquire-Keeps) depth 8

  pub request_llm-Keeps : (id step : Text) (messages : ℕ) → Keeps Q (request_llm id step messages)
  unfolding request_llm
  request_llm-Keeps id step messages = search run_rules depth 8

  resume-Keeps : (id reason : Text) → Keeps Q (resume id reason)
  unfolding resume
  resume-Keeps id reason = search run_rules

  note_llm-Keeps :
      (id step : Text) (started : ℕ) (answer : Result LlmResponse)
      → Keeps Q (note_llm id step started answer)
  unfolding note_llm
  note_llm-Keeps id step started (ok response) = search (run_rules, update_steps-Keeps)
  note_llm-Keeps id step started (err e) = search run_rules

  pub llm_returned-Keeps :
      (id step : Text) (started : ℕ) (answer : Result LlmResponse)
      → Keeps Q (llm_returned id step started answer)
  unfolding llm_returned
  llm_returned-Keeps id step started answer = search (run_rules, note_llm-Keeps, resume-Keeps)

  pub request_tool-Keeps : (id name step : Text) → Keeps Q (request_tool id name step)
  unfolding request_tool
  request_tool-Keeps id name step = search run_rules depth 8

  note_tool-Keeps :
      (id name : Text) (started : ℕ) (answer : Result Text)
      → Keeps Q (note_tool id name started answer)
  unfolding note_tool
  note_tool-Keeps id name started (ok result) = search (run_rules, update_steps-Keeps)
  note_tool-Keeps id name started (err e) = search run_rules

  pub tool_returned-Keeps :
      (id name : Text) (started : ℕ) (answer : Result Text)
      → Keeps Q (tool_returned id name started answer)
  unfolding tool_returned
  tool_returned-Keeps id name started answer = search (run_rules, note_tool-Keeps, resume-Keeps)

  append_turn-Keeps :
      (session_id user assistant : Text) → Keeps Q (append_turn session_id user assistant)
  unfolding append_turn
  append_turn-Keeps session_id user assistant = record {
    at = λ s h. record { runs_have = h.runs_have; ids_fresh = h.ids_fresh };
  }

  complete_run-Keeps :
      (id : Text) (started : ℕ) (output : Text) → Keeps Q (complete_run id started output)
  unfolding complete_run
  complete_run-Keeps id started output =
      search (run_rules, update_output-Keeps, append_turn-Keeps, increment_if-Keeps) depth 12

  pub finish-Keeps :
      (id : Text) (started : ℕ) (answer : Result Text) → Keeps Q (finish id started answer)
  unfolding finish
  finish-Keeps id started (err e) = settle-Keeps id (err e)
  finish-Keeps id started (ok output) = record {
    at = λ s h.
        (settle-Keeps id (complete_run id started output s).0).at
          (complete_run id started output s).1 ((complete_run-Keeps id started output).at s h);
  }

  is_stale-Keeps : (id : Text) → Keeps Q (is_stale id)
  unfolding is_stale
  is_stale-Keeps id =
      Keeps-read (λ s. contains s.runs id) (λ registered. stale_if registered id)
        elim [ true ↦ search run_rules | false ↦ search run_rules ]

  task_done-Keeps : Keeps Q task_done
  unfolding task_done
  task_done-Keeps =
      Keeps-bind _ _
        (record { at = λ s h. record { runs_have = h.runs_have; ids_fresh = h.ids_fresh } })
        (λ _. search run_rules)

  dispatch-Keeps : (id : Text) (stale : Bool) → Keeps Q (dispatch id stale)
  unfolding dispatch
  dispatch-Keeps id true = task_done-Keeps
  dispatch-Keeps id false = Keeps-quiet Fresh R _ (λ s. refl) (λ s. refl) (λ s. refl)

  work_on-Keeps : (task : Option RunTask) → Keeps Q (work_on task)
  unfolding work_on
  work_on-Keeps none = search run_rules
  work_on-Keeps (some task) = search (run_rules, is_stale-Keeps, dispatch-Keeps)

  pub worker_take-Keeps : Keeps Q worker_take
  unfolding worker_take
  worker_take-Keeps = record {
    at = λ s h.
        (work_on-Keeps (Queue.get s.queue).0).at _
          (record { runs_have = h.runs_have; ids_fresh = h.ids_fresh });
  }

  pub worker_release-Keeps : (id : Text) → Keeps Q (worker_release id)
  unfolding worker_release
  worker_release-Keeps id =
      Keeps-bind _ _ (Keeps-quiet Fresh R _ (λ s. refl) (λ s. refl) (λ s. refl))
        (λ _. task_done-Keeps)
