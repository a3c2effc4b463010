-- ===== src/Adapters/Runs.antt =====
-- InMemoryRunRepository of adapters/memory.py, and IdempotencyRecord of ports.py. The repository holds
-- references to runs and reads `id` and `created_at`, which nothing changes after a run is made.
pub mod Linked
use production_agent_runtime.Common.{
  ℕ, [], Bool, true, false, Option, none, some, List, ◌++◌, Text, text, text_eq, is_some, not,
  if◌then◌else◌,
}
use production_agent_runtime.Common.Dict
use production_agent_runtime.Common.Dict.{Dict}
use production_agent_runtime.Common.Exec.{Exec, Result, ok, err, value_error}
use production_agent_runtime.Runtime.Registry.{sort_down}

pub record IdempotencyRecord : Type 0 where
  pub key : Text
  pub run_id : Text
  pub request_fingerprint : Text

pub record RunRepository (Run : Type 0) : Type 0 where
  pub runs : Dict Run
  pub idempotency : Dict IdempotencyRecord
  pub idempotency_by_run : Dict Text

module _ (Run : Type 0) (id : Run → Text) (created_at : Run → ℕ) where
  abbrev pub new_repository : RunRepository Run
  new_repository = record { runs = []; idempotency = []; idempotency_by_run = [] }

  abbrev pub insert_run : Run → RunRepository Run → RunRepository Run
  insert_run run s = record s { runs = Dict.put s.runs (id run) run }

  abbrev refuse : Text → Exec (RunRepository Run) Unit
  refuse message s = (err (value_error message), s)

  abbrev pub insert_indexed : Run → IdempotencyRecord → RunRepository Run → RunRepository Run
  insert_indexed run entry s = record s {
    runs = Dict.put s.runs (id run) run;
    idempotency = Dict.put s.idempotency entry.key entry;
    idempotency_by_run = Dict.put s.idempotency_by_run (id run) entry.key;
  }

  -- behind the test for a duplicate run
  abbrev pub insert : Run → Option IdempotencyRecord → Exec (RunRepository Run) Unit
  insert run none s = (ok tt, insert_run run s)
  insert run (some entry) s =
      if not (text_eq entry.run_id (id run))
      then refuse (text "idempotency record must reference the added run") s
      else if is_some (Dict.get s.idempotency entry.key)
      then refuse (text "duplicate idempotency key: " ++ entry.key) s
      else (ok tt, insert_indexed run entry s)

  unfoldable pub add : Run → Option IdempotencyRecord → Exec (RunRepository Run) Unit
  add run idempotency s =
      if is_some (Dict.get s.runs (id run))
      then refuse (text "duplicate run id: " ++ id run) s
      else insert run idempotency s

  unfoldable pub get : Text → RunRepository Run → Option Run
  get run_id s = Dict.get s.runs run_id

  unfoldable pub list : RunRepository Run → List Run
  list s = sort_down created_at (Dict.values s.runs)

  unfoldable pub find_idempotency : Text → RunRepository Run → Option IdempotencyRecord
  find_idempotency key s = Dict.get s.idempotency key

  abbrev pub without_key : Option Text → Dict IdempotencyRecord → Dict IdempotencyRecord
  without_key none idempotency = idempotency
  without_key (some key) idempotency = Dict.remove idempotency key

  unfoldable pub delete : Text → RunRepository Run → RunRepository Run
  delete run_id s = record s {
    runs = Dict.remove s.runs run_id;
    idempotency = without_key (Dict.get s.idempotency_by_run run_id) s.idempotency;
    idempotency_by_run = Dict.remove s.idempotency_by_run run_id;
  }
