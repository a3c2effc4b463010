-- ===== src/Runtime/KeptByControl.antt =====
-- Every method of the runtime keeps what every change of a run keeps: `wait`, `cancel`, `retry` and `close`.
use production_agent_runtime.Common.{refl, Bool, true, false, none, some, List, [], ◌∷◌, Text}
use production_agent_runtime.Common.Dict
use production_agent_runtime.Common.Dict.{get-put}
use production_agent_runtime.Common.Exec.Keeps.{Keeps, Keeps-read, Keeps-bind}
use production_agent_runtime.Models.{RunRecord}
use production_agent_runtime.Runtime.State.{Runtime, update}
use production_agent_runtime.Runtime.Control.{
  waited, wait_for, wait, request_cancel, finish_cancel, cancel, retry, close_run, close_runs,
  shut_down, close, finish_close,
}
use production_agent_runtime.Runtime.Invariant.{IsKept, AllRuns, Keeps-quiet}
use production_agent_runtime.Runtime.KeptByFsm.{update-Keeps, run_rules}
use production_agent_runtime.Runtime.Reopen.{reopen-Keeps}
use production_agent_runtime.Runtime.KeptByCalls.{get-Keeps, refuse_if_full-Keeps, enqueue-Keeps}

module _ (Fresh : Text → Type 0) (R : RunRecord → Type 0) (kept : IsKept Fresh R) where
  abbrev Q : Runtime → Type 0
  Q = AllRuns Fresh R

  wait_for-Keeps : (run : RunRecord) (id : Text) → Keeps Q (wait_for run id)
  unfolding wait_for
  wait_for-Keeps run id =
      Keeps-read (λ s. Dict.get s.completion id) (waited run)
        elim [ none ↦ search run_rules | some is_set ↦ search run_rules ]

  pub wait-Keeps : (id : Text) → Keeps Q (wait id)
  unfolding wait
  wait-Keeps id = search (run_rules, get-Keeps, wait_for-Keeps)

  finish_cancel-Keeps : (id : Text) (done : Bool) → Keeps Q (finish_cancel id done)
  unfolding finish_cancel
  finish_cancel-Keeps id true = search run_rules
  finish_cancel-Keeps id false = search run_rules

  request-Keeps : (id : Text) → Keeps Q (update id request_cancel)
  request-Keeps id = update-Keeps Fresh R id request_cancel kept.by_request

  pub cancel-Keeps : (id : Text) → Keeps Q (cancel id)
  unfolding cancel
  cancel-Keeps id = search (run_rules, get-Keeps, request-Keeps, finish_cancel-Keeps) depth 8

  pub retry-Keeps : (id : Text) → Keeps Q (retry id)
  unfolding retry
  retry-Keeps id =
      search (run_rules, get-Keeps, refuse_if_full-Keeps, reopen-Keeps, enqueue-Keeps) depth 10

  close_run-Keeps : (id : Text) → Keeps Q (close_run id)
  unfolding close_run
  close_run-Keeps id = search run_rules depth 8

  close_runs-Keeps : (ids : List Text) → Keeps Q (close_runs ids)
  unfolding close_runs
  close_runs-Keeps [] = search run_rules
  close_runs-Keeps (id ∷ ids) = Keeps-bind _ _ (close_run-Keeps id) (λ _. close_runs-Keeps ids)

  shut_down-Keeps : (closed : Bool) (ids : List Text) → Keeps Q (shut_down closed ids)
  unfolding shut_down
  shut_down-Keeps true ids = search run_rules
  shut_down-Keeps false ids =
      Keeps-bind _ _ (Keeps-quiet Fresh R _ (λ s. refl) (λ s. refl) (λ s. refl)) λ _.
        Keeps-bind _ _ (close_runs-Keeps ids)
          λ _. Keeps-quiet Fresh R _ (λ s. refl) (λ s. refl) (λ s. refl)

  pub close-Keeps : Keeps Q close
  unfolding close
  close-Keeps = record { at = λ s h. (shut_down-Keeps s.closed s.runs).at s h }

  pub finish_close-Keeps : Keeps Q finish_close
  unfolding finish_close
  finish_close-Keeps = Keeps-quiet Fresh R _ (λ s. refl) (λ s. refl) (λ s. refl)
