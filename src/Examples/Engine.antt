-- ===== src/Examples/Engine.antt =====
-- The engine on concrete inputs.
use mathlib.Core.Option.{some-injective}
use production_agent_runtime.Common.{
  ℕ, ◌≤◌, ◌+◌, ◌≡◌, refl, ◌≢◌, inl, inr, true, false, none, some, [], ◌∷◌, Text, text_eq, arith,
  Bool-cases, text_eq_iff, ◌∙◌,
}
use production_agent_runtime.Common.Dict
use production_agent_runtime.Common.Int.{pos}
use production_agent_runtime.Common.Exec.{err, ◌>>=◌, cancelled_error, key_error}
use production_agent_runtime.Models.{RunRecord, simple, created, cancelled}
use production_agent_runtime.Config.{RuntimeConfig}
use production_agent_runtime.Fsm.{can_transition}
use production_agent_runtime.Fsm
use production_agent_runtime.Fsm.Legal.{cancel_created}
use production_agent_runtime.Fsm.History.{HasHistory}
use production_agent_runtime.Adapters.Queue
use production_agent_runtime.Runtime.State.{Runtime, fsm, load, lock_for, contains}
use production_agent_runtime.Runtime.Registry.{cleanup_runs, evict}
use production_agent_runtime.Runtime.Registry
use production_agent_runtime.Runtime.Submit.{refuse_if_full, refuse_full}
use production_agent_runtime.Runtime.Control.{retry, reopen}
use production_agent_runtime.Runtime.Execute.{settle}
use production_agent_runtime.Runtime.Steps.{retries, perform, run_actions}
use production_agent_runtime.Runtime.Always.{StaysIn, run_actions-HasHistory, run_actions-final}
use production_agent_runtime.Runtime.Cleanup.{cleanup_runs-contains}
use production_agent_runtime.Runtime.State.{Indexed}
use production_agent_runtime.Runtime.Submit.{submit, same_request}
use production_agent_runtime.Runtime.Replay.{IsLive, IsIndexed, submit-replay}
use production_agent_runtime.Common.{text, strip, lstrip, sym, if◌then◌else◌}
use production_agent_runtime.Common.Exec.{ok, idempotency_conflict_error}
use production_agent_runtime.Runtime.Resubmit.{IsNew, Repeats, submit-Repeats}
use production_agent_runtime.Runtime.Eviction.{settle-evict}

abbrev pub first : Text
first = 97 ∷ []

abbrev pub new : RunRecord
new = record {
  id = first;
  input = 104 ∷ [];
  kind = simple;
  session_id = 115 ∷ [];
  trace_id = 116 ∷ [];
  state = created;
  output = none;
  error = none;
  created_at = 1;
  updated_at = 2;
  started_at = none;
  finished_at = none;
  transitions = [];
  steps = [];
  cancel_requested = false;
}

-- the run after a cancellation
abbrev over : RunRecord
over = record new {
  state = cancelled;
  finished_at = some 9;
  transitions =
      record { from_state = created; to_state = cancelled; at_time = 9; reason = none } ∷ [];
}

abbrev config : RuntimeConfig
config = record {
  max_concurrency = pos 1;
  queue_capacity = pos 1;
  queue_retry_after = pos 1;
  thread_workers = pos 1;
  max_agent_steps = pos 1;
  tool_timeout = pos 1;
  run_timeout = pos 1;
  run_retention = pos 1;
  max_run_records = pos 2;
  history_messages = pos 1;
  audit_capacity = pos 1;
}

-- an engine that has one run
abbrev pub engine : RunRecord → Runtime
engine run = record {
  world = record { time = λ n. 10 + n; perf_counter = λ n. n; uuid = λ n. (98 + n) ∷ [] };
  times_read = 0;
  perf_read = 0;
  uuids_drawn = 0;
  config = config;
  metrics = [];
  events = record {
    audit = record { capacity = 1; events = [] };
    subscriptions = [];
    started = true;
  };
  sessions = record { max_messages = 1; sessions = [] };
  locks = [];
  objects = (first, run) ∷ [];
  runs = first ∷ [];
  completion = (first, false) ∷ [];
  idempotency_index = [];
  idempotency_by_run = [];
  queue = record { capacity = 1; items = []; unfinished = 0 };
  workers = 1;
  tasks = [];
  started = true;
  closed = false;
}

only_run :
    (run : RunRecord) (j : Text) (r : RunRecord)
    → Dict.get (engine run).objects j ≡ some r
    → (text_eq first j ≡ true) × (some run ≡ some r)
unfolding Dict.get
only_run run j r at = elim (Bool-cases (text_eq first j)) [
  | inl same ↦ (same, rw same at at)
  | inr other ↦ ground (arith, rw other at at)
]

engine-runs :
    (R : RunRecord → Type 0) (run : RunRecord)
    → run.id ≡ first
    → R run
    → (j : Text) (r : RunRecord) → Dict.get (engine run).objects j ≡ some r
    → (r.id ≡ j) × R r
engine-runs R run named holds j r at =
    let (same, e) = only_run run j r at in
    rw (← some-injective run r e) (named ∙ (text_eq_iff first j).0 same, holds)

over-HasHistory : HasHistory over
over-HasHistory = record {
  path = (refl, cancel_created, refl);
  was_started = λ p. ground (arith, p);
  was_finished = λ p. refl;
}

run_actions-HasHistory_example : HasHistory over
unfolding run_actions perform retry Registry.get contains refuse_if_full refuse_full Queue.full
    Queue.qsize reopen Fsm.transition fsm lock_for load can_transition ◌>>=◌ Dict.get text_eq
run_actions-HasHistory_example =
    run_actions-HasHistory (retries first ∷ []) (engine over) first over
      (record {
        runs_have = engine-runs HasHistory over refl over-HasHistory;
        ids_fresh = λ n le. tt;
      })
      refl

other_ids : (n : ℕ) → 0 ≤ n → (98 + n) ∷ [] ≢ first
other_ids n le e = ground (arith, e)

run_actions-final_example : over.state ≡ cancelled
unfolding run_actions perform retry Registry.get contains refuse_if_full refuse_full Queue.full
    Queue.qsize reopen Fsm.transition fsm lock_for load can_transition ◌>>=◌ Dict.get text_eq
run_actions-final_example =
    run_actions-final (retries first ∷ []) (engine over) first cancelled over (inl refl)
      (record {
        runs_have = engine-runs (StaysIn first cancelled) over refl (λ e. refl);
        ids_fresh = other_ids;
      })
      refl

cleanup_runs-contains_example : contains (cleanup_runs 2 (engine new)).1.runs first ≡ true
unfolding Dict.get text_eq contains
cleanup_runs-contains_example =
    cleanup_runs-contains 2 (engine new) first new
      (λ j r at. (engine-runs (λ run. Unit) new refl tt j r at).0) refl refl refl

settle-evict_example :
    (settle first (err cancelled_error) (evict first (engine over)).1).0 ≡ err (key_error first)
unfolding Dict.get text_eq
settle-evict_example = settle-evict (engine over) first over refl refl

abbrev key : Text
key = 107 ∷ []

abbrev entry : Indexed
entry = record { run_id = first; input = 104 ∷ []; kind = simple; session_id = none }

-- an engine whose run has an idempotency key
abbrev keyed : Runtime
keyed = record (engine new) {
  idempotency_index = (key, entry) ∷ [];
  idempotency_by_run = (first, key) ∷ [];
}

keyed-IsLive : IsLive keyed entry
unfolding Dict.get text_eq
keyed-IsLive = record {
  run = new;
  filed = λ j r at. (engine-runs (λ run. Unit) new refl tt j r at).0;
  at_id = refl;
  live = refl;
}

keyed-IsIndexed : IsIndexed key entry keyed keyed
unfolding Dict.get text_eq contains
keyed-IsIndexed = record {
  registered = refl;
  indexed = refl;
  only = λ j at. elim (Bool-cases (text_eq first j)) [
    | inl same ↦ sym ((text_eq_iff first j).0 same)
    | inr other ↦ let gone : none ≡ some key = rw other at at in ground (arith, gone)
  ];
  same_objects = refl;
  same_queue = refl;
}

submit-replay_example :
    let (r, s') = submit (32 ∷ 104 ∷ []) simple none (some key) keyed in
    (r ≡ (
      if same_request entry (strip (32 ∷ 104 ∷ [])) simple none
      then ok first
      else err (
          idempotency_conflict_error
            (text "idempotency key was already used with a different request"))))
    × (s'.objects ≡ keyed.objects)
    × (s'.queue ≡ keyed.queue)
unfolding strip lstrip
submit-replay_example =
    submit-replay keyed (32 ∷ 104 ∷ []) key simple none entry refl refl keyed-IsLive keyed-IsIndexed
      refl refl

-- an engine without runs
abbrev vacant : Runtime
vacant = record (engine new) { objects = []; runs = []; completion = [] }

vacant-IsNew : IsNew key vacant
unfolding Dict.get Queue.full Queue.qsize
vacant-IsNew = record {
  unused = record {
    filed = λ j r at. ground (arith, at);
    unused = λ j at. ground (arith, at);
    started = refl;
    closed = refl;
    room = refl;
  };
  fresh = refl;
  ids_named = λ n. refl;
}

submit-Repeats_example :
    let (r, s') = submit (104 ∷ []) simple none (some key) vacant in
    Repeats (104 ∷ []) key simple none r s'
unfolding strip lstrip
submit-Repeats_example = submit-Repeats (104 ∷ []) key simple none vacant vacant-IsNew refl refl
