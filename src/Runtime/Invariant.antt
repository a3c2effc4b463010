-- ===== src/Runtime/Invariant.antt =====
-- A property of runs that every change the runtime makes to a run keeps holds of all runs, always.
use mathlib.Core.Option.{some-injective}
use production_agent_runtime.Common.{
  ℕ, ◌≤◌, ◌≡◌, refl, Bool, true, Option, none, some, Text, text_eq, text_eq_iff, Bool-cases, inl,
  inr, arith,
}
use production_agent_runtime.Common.Dict
use production_agent_runtime.Common.Dict.{Dict, get-put}
use production_agent_runtime.Common.Int.{ℤ}
use production_agent_runtime.Events.{Event, Value}
use production_agent_runtime.Common.Exec.{ok, key_error, modify}
use production_agent_runtime.Common.Exec.Keeps.{
  Keeps, keeps_rules, Keeps-read, Keeps-raise, Triple, Returned, Triple-bind, Keeps-of_Triple,
}
use production_agent_runtime.Models.{RunState, AgentKind, RunRecord, RunStep, ready, new_run}
use production_agent_runtime.Fsm.{can_transition, stamp}
use production_agent_runtime.Runtime.State.{
  Runtime, found, write_event, time, perf_counter, uuid4, load, store, update, increment,
  increment_by, set_gauge, publish, emit, on_transition, lock_for, update_registry_metrics,
  set_completion,
}
use production_agent_runtime.Runtime.Control.{request_cancel, reset}
use production_agent_runtime.Runtime.Execute.{set_error, set_output, add_step}

-- What a run may be changed by: a legal transition, and writes to fields that the state machine does
-- not read. `Fresh` is what is known of an identifier that has just been generated.
pub record IsKept (Fresh : Text → Type 0) (R : RunRecord → Type 0) : Type 0 where
  pub by_stamp :
      (now : ℕ) (target : RunState) (reason : Text) (run : RunRecord)
      → can_transition run.state target ≡ true
      → R run
      → R (stamp now run.state target reason run)
  pub by_creation :
      (id input : Text) (kind : AgentKind) (session_id trace_id : Text) (t u : ℕ) (run : RunRecord)
      → Fresh id
      → new_run id input kind session_id trace_id t u ≡ ok run
      → R run
  pub by_step : (step : RunStep) (run : RunRecord) → R run → R (add_step step run)
  pub by_output : (output : Text) (run : RunRecord) → R run → R (set_output output run)
  pub by_error : (error : Text) (run : RunRecord) → R run → R (set_error error run)
  pub by_request : (run : RunRecord) → R run → R (request_cancel run)
  pub by_reset : (run : RunRecord) → run.state ≡ ready → R run → R (reset run)

-- every object is found under its own identifier and has R, and the identifiers to come are fresh
pub record AllRuns (Fresh : Text → Type 0) (R : RunRecord → Type 0) (s : Runtime) : Type 0 where
  pub runs_have :
      (id : Text) (run : RunRecord) → Dict.get s.objects id ≡ some run → (run.id ≡ id) × R run
  pub ids_fresh : (n : ℕ) → s.uuids_drawn ≤ n → Fresh (s.world.uuid n)

module _ (Fresh : Text → Type 0) (R : RunRecord → Type 0) where
  abbrev pub P : Runtime → Type 0
  P = AllRuns Fresh R

  -- a step that leaves the objects and the generated identifiers alone
  pub Keeps-quiet :
      (f : Runtime → Runtime)
      → ((s : Runtime) → (f s).objects ≡ s.objects)
      → ((s : Runtime) → (f s).world ≡ s.world)
      → ((s : Runtime) → (f s).uuids_drawn ≡ s.uuids_drawn)
      → Keeps P (modify f)
  Keeps-quiet f same_objects same_world same_draws = record {
    at = λ s h. record {
      runs_have = λ id run e. h.runs_have id run (rw (same_objects s) at e);
      ids_fresh = λ n le. rw (same_world s) (h.ids_fresh n (rw (same_draws s) at le));
    };
  }

  pub time-Keeps : Keeps P time
  unfolding time
  time-Keeps = record { at = λ s h. record { runs_have = h.runs_have; ids_fresh = h.ids_fresh } }

  pub perf_counter-Keeps : Keeps P perf_counter
  unfolding perf_counter
  perf_counter-Keeps = record {
    at = λ s h. record { runs_have = h.runs_have; ids_fresh = h.ids_fresh };
  }

  pub uuid4-Triple : Triple P uuid4 Fresh
  unfolding uuid4
  uuid4-Triple = record {
    at = λ s h. (
      record { runs_have = h.runs_have; ids_fresh = λ n le. h.ids_fresh n (omega arith) },
      h.ids_fresh s.uuids_drawn (omega arith),
    );
  }

  pub increment-Keeps : (name : Text) → Keeps P (increment name)
  unfolding increment
  increment-Keeps name = Keeps-quiet _ (λ s. refl) (λ s. refl) (λ s. refl)

  pub increment_by-Keeps : (v : ℤ) (name : Text) → Keeps P (increment_by v name)
  unfolding increment_by
  increment_by-Keeps v name = Keeps-quiet _ (λ s. refl) (λ s. refl) (λ s. refl)

  pub set_gauge-Keeps : (name : Text) (n : ℕ) → Keeps P (set_gauge name n)
  unfolding set_gauge
  set_gauge-Keeps name n = Keeps-quiet _ (λ s. refl) (λ s. refl) (λ s. refl)

  pub publish-Keeps : (event : Event) → Keeps P (publish event)
  unfolding publish
  publish-Keeps event = Keeps-quiet _ (λ s. refl) (λ s. refl) (λ s. refl)

  pub uuid4-Keeps : Keeps P uuid4
  uuid4-Keeps = Keeps-of_Triple uuid4 uuid4-Triple

  pub emit-Keeps :
      (topic trace_id agent_id : Text) (payload : Dict Value)
      → Keeps P (emit topic trace_id agent_id payload)
  unfolding emit
  emit-Keeps topic trace_id agent_id payload =
      search (keeps_rules, uuid4-Keeps, time-Keeps, publish-Keeps)

  pub on_transition-Keeps :
      (run : RunRecord) (source target : RunState) (reason : Text)
      → Keeps P (on_transition run source target reason)
  unfolding on_transition
  on_transition-Keeps run source target reason = search (keeps_rules, increment-Keeps, emit-Keeps)

  pub lock_for-Keeps : (id : Text) → Keeps P (lock_for id)
  unfolding lock_for
  lock_for-Keeps id = Keeps-quiet _ (λ s. refl) (λ s. refl) (λ s. refl)

  pub update_registry_metrics-Keeps : Keeps P update_registry_metrics
  unfolding update_registry_metrics
  update_registry_metrics-Keeps = search (keeps_rules, set_gauge-Keeps)

  pub set_completion-Keeps : (b : Bool) (id : Text) → Keeps P (set_completion b id)
  unfolding set_completion
  set_completion-Keeps b id =
      Keeps-read (λ s. Dict.get s.completion id) (write_event b id)
        elim [
          | none ↦ Keeps-raise (key_error id)
          | some old ↦ Keeps-quiet _ (λ s. refl) (λ s. refl) (λ s. refl)
        ]

  found-at :
      (id : Text) (o : Option RunRecord) (s : Runtime)
      → Dict.get s.objects id ≡ o
      → P s
      → P (found o s).1 × Returned (found o s).0 (λ run. (run.id ≡ id) × R run)
  found-at id none s e h = (h, tt)
  found-at id (some run) s e h = (h, h.runs_have id run e)

  pub load-Triple : (id : Text) → Triple P (load id) (λ run. (run.id ≡ id) × R run)
  unfolding load
  load-Triple id = record { at = λ s h. found-at id (Dict.get s.objects id) s refl h }

  written :
      (objects : Dict RunRecord) (run : RunRecord) (id : Text) (other : RunRecord)
      → R run
      → (Dict.get objects id ≡ some other → (other.id ≡ id) × R other)
      → Dict.get (Dict.put objects run.id run) id ≡ some other
      → (other.id ≡ id) × R other
  written objects run id other r before e = elim (Bool-cases (text_eq run.id id)) [
    | inl same ↦
        let found_run : run ≡ other = some-injective run other (rw (get-put, same) at e) in
        rw (← found_run) ((text_eq_iff run.id id).0 same, r)
    | inr apart ↦ before (rw (get-put, apart) at e)
  ]

  pub store-Triple : (run : RunRecord) → R run → Triple P (store run) (λ _. Unit)
  unfolding store
  store-Triple run r = record {
    at = λ s h. (
      record {
        runs_have = λ id other e. written s.objects run id other r (h.runs_have id other) e;
        ids_fresh = h.ids_fresh;
      },
      tt,
    );
  }

  pub update-Triple :
      (id : Text) (f : RunRecord → RunRecord)
      → ((run : RunRecord) → R run → R (f run))
      → Triple P (update id f) (λ _. Unit)
  unfolding update
  update-Triple id f keeps =
      Triple-bind _ _ (load-Triple id) (λ run r. store-Triple (f run) (keeps run r.1))
