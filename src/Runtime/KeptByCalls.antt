-- ===== src/Runtime/KeptByCalls.antt =====
-- Every method of the runtime keeps what every change of a run keeps: the methods that callers use.
use production_agent_runtime.Common.{
  ℕ, ◌≡◌, refl, Bool, true, false, Option, none, some, List, [], ◌∷◌, Text,
}
use production_agent_runtime.Common.Dict
use production_agent_runtime.Common.Dict.{get-put}
use production_agent_runtime.Common.Exec.{Result, ok, err}
use production_agent_runtime.Common.Exec.Keeps.{
  Keeps, Keeps-read, Keeps-bind, Triple, Triple-bind, Triple-of_Keeps, Keeps-of_Triple,
}
use production_agent_runtime.Models.{RunRecord, AgentKind}
use production_agent_runtime.Adapters.Queue.{RunTask, full}
use production_agent_runtime.Runtime.State.{Runtime, Indexed, contains}
use production_agent_runtime.Runtime.Registry.{get_if, get, evict, evict_all, cleanup_runs}
use production_agent_runtime.Runtime.Submit.{
  launch, start_if, start, replay_indexed, replay_entry, replay, refuse_full, refuse_if_full,
  choose_session, lift, register, put_task, enqueue, create, admit_run, accept, replay_or_accept,
  submit,
}
use production_agent_runtime.Runtime.Invariant.{
  IsKept, AllRuns, Keeps-quiet, uuid4-Triple, time-Keeps, uuid4-Keeps, store-Triple,
}
use production_agent_runtime.Runtime.KeptByFsm.{run_rules}

module _ (Fresh : Text → Type 0) (R : RunRecord → Type 0) (kept : IsKept Fresh R) where
  abbrev Q : Runtime → Type 0
  Q = AllRuns Fresh R

  pub get-Keeps : (id : Text) → Keeps Q (get id)
  unfolding get
  get-Keeps id =
      Keeps-read (λ s. contains s.runs id) (λ registered. get_if registered id)
        elim [ true ↦ search run_rules | false ↦ search run_rules ]

  evict-Keeps : (id : Text) → Keeps Q (evict id)
  unfolding evict
  evict-Keeps id =
      Keeps-bind _ _ (Keeps-quiet Fresh R _ (λ s. refl) (λ s. refl) (λ s. refl))
        (λ _. search run_rules)

  evict_all-Keeps : (ids : List Text) → Keeps Q (evict_all ids)
  unfolding evict_all
  evict_all-Keeps [] = search run_rules
  evict_all-Keeps (id ∷ ids) = Keeps-bind _ _ (evict-Keeps id) (λ _. evict_all-Keeps ids)

  cleanup_runs-Keeps : (reserve : ℕ) → Keeps Q (cleanup_runs reserve)
  unfolding cleanup_runs
  cleanup_runs-Keeps reserve = search (run_rules, evict_all-Keeps) depth 8

  launch-Keeps : Keeps Q launch
  unfolding launch
  launch-Keeps = Keeps-bind _ _ (search run_rules) λ limit.
      Keeps-bind _ _ (Keeps-quiet Fresh R _ (λ s. refl) (λ s. refl) (λ s. refl)) λ _.
        Keeps-bind _ _ (search run_rules) λ _. Keeps-bind _ _ (search run_rules) λ _.
          Keeps-bind _ _ (search run_rules)
            λ _. Keeps-quiet Fresh R _ (λ s. refl) (λ s. refl) (λ s. refl)

  start_if-Keeps : (closed started : Bool) → Keeps Q (start_if closed started)
  unfolding start_if
  start_if-Keeps true started = search run_rules
  start_if-Keeps false true = search run_rules
  start_if-Keeps false false = launch-Keeps

  start-Keeps : Keeps Q start
  unfolding start
  start-Keeps = record { at = λ s h. (start_if-Keeps s.closed s.started).at s h }

  replay_indexed-Keeps :
      (registered : Bool) (key : Text) (e : Indexed) (input : Text) (kind : AgentKind)
      (session_id : Option Text)
      → Keeps Q (replay_indexed registered key e input kind session_id)
  unfolding replay_indexed
  replay_indexed-Keeps true key e input kind session_id = search run_rules
  replay_indexed-Keeps false key e input kind session_id =
      Keeps-bind _ _ (Keeps-quiet Fresh R _ (λ s. refl) (λ s. refl) (λ s. refl))
        (λ _. search run_rules)

  replay_entry-Keeps :
      (key : Text) (entry : Option Indexed) (input : Text) (kind : AgentKind)
      (session_id : Option Text)
      → Keeps Q (replay_entry key entry input kind session_id)
  unfolding replay_entry
  replay_entry-Keeps key none input kind session_id = record { at = λ s h. h }
  replay_entry-Keeps key (some e) input kind session_id = record {
    at =
        λ s h. (replay_indexed-Keeps (contains s.runs e.run_id) key e input kind session_id).at s h;
  }

  replay-Keeps :
      (key : Option Text) (input : Text) (kind : AgentKind) (session_id : Option Text)
      → Keeps Q (replay key input kind session_id)
  unfolding replay
  replay-Keeps none input kind session_id = record { at = λ s h. h }
  replay-Keeps (some key) input kind session_id = record {
    at = λ s h.
        (replay_entry-Keeps key (Dict.get s.idempotency_index key) input kind session_id).at s h;
  }

  refuse_full-Keeps : (b : Bool) → Keeps Q (refuse_full b)
  unfolding refuse_full
  refuse_full-Keeps true = search run_rules
  refuse_full-Keeps false = search run_rules

  pub refuse_if_full-Keeps : Keeps Q refuse_if_full
  unfolding refuse_if_full
  refuse_if_full-Keeps = record { at = λ s h. (refuse_full-Keeps (full s.queue)).at s h }

  choose_session-Keeps : (session_id : Option Text) → Keeps Q (choose_session session_id)
  unfolding choose_session
  choose_session-Keeps none = search run_rules
  choose_session-Keeps (some id) = search run_rules

  created-Triple :
      (r : Result RunRecord) → ((run : RunRecord) → r ≡ ok run → R run) → Triple Q (lift r) R
  unfolding lift
  created-Triple (ok run) h = record { at = λ s q. (q, h run refl) }
  created-Triple (err e) h = record { at = λ s q. (q, tt) }

  create-Triple :
      (input : Text) (kind : AgentKind) (session_id : Option Text)
      → Triple Q (create input kind session_id) R
  unfolding create
  create-Triple input kind session_id = Triple-bind _ _ (uuid4-Triple Fresh R) λ id fresh.
      Triple-bind _ _ (Triple-of_Keeps _ (choose_session-Keeps session_id)) λ session _.
        Triple-bind _ _ (Triple-of_Keeps _ (uuid4-Keeps Fresh R)) λ trace_id _.
          Triple-bind _ _ (Triple-of_Keeps _ (time-Keeps Fresh R)) λ t _.
            Triple-bind _ _ (Triple-of_Keeps _ (time-Keeps Fresh R)) λ u _.
              created-Triple _
                (λ run e. kept.by_creation id input kind session trace_id t u run fresh e)

  register-Keeps :
      (run : RunRecord) (session_id key : Option Text)
      → R run
      → Keeps Q (register run session_id key)
  unfolding register
  register-Keeps run session_id key r =
      Keeps-bind _ _ (Keeps-of_Triple _ (store-Triple Fresh R run r))
        (λ _. Keeps-quiet Fresh R _ (λ s. refl) (λ s. refl) (λ s. refl))

  put_task-Keeps : (task : RunTask) → Keeps Q (put_task task)
  unfolding put_task
  put_task-Keeps task = record {
    at = λ s h. record { runs_have = h.runs_have; ids_fresh = h.ids_fresh };
  }

  lift-Keeps : (r : Result RunTask) → Keeps Q (lift r)
  unfolding lift
  lift-Keeps r = record { at = λ s h. h }

  pub enqueue-Keeps : (id : Text) → Keeps Q (enqueue id)
  unfolding enqueue
  enqueue-Keeps id = search (run_rules, lift-Keeps, put_task-Keeps)

  admit_run-Keeps :
      (session_id key : Option Text) (run : RunRecord)
      → R run
      → Keeps Q (admit_run session_id key run)
  unfolding admit_run
  admit_run-Keeps session_id key run r =
      Keeps-bind _ _ (register-Keeps run session_id key r)
        (λ _. search (run_rules, enqueue-Keeps) depth 8)

  accept-Keeps :
      (input : Text) (kind : AgentKind) (session_id key : Option Text)
      → Keeps Q (accept input kind session_id key)
  unfolding accept
  accept-Keeps input kind session_id key = Keeps-bind _ _ refuse_if_full-Keeps λ _.
      Keeps-of_Triple _ (
        Triple-bind _ _ (create-Triple input kind session_id)
          λ run r. Triple-of_Keeps _ (admit_run-Keeps session_id key run r))

  replay_or_accept-Keeps :
      (input : Text) (kind : AgentKind) (session_id key earlier : Option Text)
      → Keeps Q (replay_or_accept input kind session_id key earlier)
  replay_or_accept-Keeps input kind session_id key none = accept-Keeps input kind session_id key
  replay_or_accept-Keeps input kind session_id key (some id) = search run_rules

  pub submit-Keeps :
      (input : Text) (kind : AgentKind) (session_id key : Option Text)
      → Keeps Q (submit input kind session_id key)
  unfolding submit
  submit-Keeps input kind session_id key =
      search (run_rules, start-Keeps, cleanup_runs-Keeps, replay-Keeps, replay_or_accept-Keeps)
        depth 10
