-- ===== src/Runtime/Held.antt =====
-- What each part of a submission makes of the engine: the run stays registered under its key.
use mathlib.Core.Option.{some-injective}
use production_agent_runtime.Common.{
  ℕ, ◌≡◌, refl, sym, ap, ◌∙◌, Bool, true, false, some, List, [], ◌∷◌, ◌++◌, Text, text, text_eq,
  text_eq_iff, text_eq_refl, is_blank, Bool-cases, inl, inr, arith,
}
use production_agent_runtime.Common.Dict
use production_agent_runtime.Common.Dict.{Dict, get-put}
use production_agent_runtime.Common.Exec.{◌>>=◌}
use production_agent_runtime.Common.Exec.Keeps.{Leads}
use production_agent_runtime.Models.{RunRecord, RunState, created, ready}
use production_agent_runtime.Events
use production_agent_runtime.Fsm
use production_agent_runtime.Fsm.{can_transition, stamp}
use production_agent_runtime.Adapters.Queue
use production_agent_runtime.Adapters.Queue.{TaskQueue}
use production_agent_runtime.Runtime.State.{
  Runtime, Indexed, fsm, load, store, time, uuid4, publish, emit, increment, set_gauge, lock_for,
  on_transition, update_registry_metrics, contains,
}
use production_agent_runtime.Runtime.Submit.{enqueue, put_task, lift}

-- the part of the state that a submission is about
pub record View : Type 0 where
  pub objects : Dict RunRecord
  pub runs : List Text
  pub index : Dict Indexed
  pub by_run : Dict Text
  pub queue : TaskQueue
  pub started : Bool
  pub closed : Bool

abbrev pub view : Runtime → View
view s = record {
  objects = s.objects;
  runs = s.runs;
  index = s.idempotency_index;
  by_run = s.idempotency_by_run;
  queue = s.queue;
  started = s.started;
  closed = s.closed;
}

-- the run is registered under the key, in the given state
pub record Held (key : Text) (e : Indexed) (state : RunState) (v : View) : Type 0 where
  pub registered : contains v.runs e.run_id ≡ true
  pub indexed : Dict.get v.index key ≡ some e
  pub only : (j : Text) → Dict.get v.by_run j ≡ some key → j ≡ e.run_id
  pub filed : (j : Text) (r : RunRecord) → Dict.get v.objects j ≡ some r → r.id ≡ j
  pub run : RunRecord
  pub at_id : Dict.get v.objects e.run_id ≡ some run
  pub in_state : run.state ≡ state
  pub started : v.started ≡ true
  pub closed : v.closed ≡ false

-- an engine that has not met the key
pub record IsUnused (key : Text) (s : Runtime) : Type 0 where
  pub filed : (j : Text) (r : RunRecord) → Dict.get s.objects j ≡ some r → r.id ≡ j
  pub unused : (j : Text) → Dict.get s.idempotency_by_run j ≡ some key → ⊥
  pub started : s.started ≡ true
  pub closed : s.closed ≡ false
  pub room : Queue.full s.queue ≡ false

pub put-filed :
    (objects : Dict RunRecord) (run : RunRecord)
    → ((j : Text) (r : RunRecord) → Dict.get objects j ≡ some r → r.id ≡ j)
    → (j : Text) (r : RunRecord) → Dict.get (Dict.put objects run.id run) j ≡ some r
    → r.id ≡ j
put-filed objects run filed j r at = elim (Bool-cases (text_eq run.id j)) [
  | inl same ↦
      let here : some run ≡ some r = rw (get-put, same) at at in
      ap (λ (x : RunRecord). x.id) (sym (some-injective run r here)) ∙ (text_eq_iff run.id j).0 same
  | inr other ↦ filed j r (rw (get-put, other) at at)
]

pub contains-last : (xs : List Text) (id : Text) → contains (xs ++ id ∷ []) id ≡ true
unfolding contains
contains-last [] id = rw (text_eq_refl id) refl
contains-last (x ∷ xs) id = ground (arith, contains-last xs id)

Full : View → Type 0
Full v = Queue.full v.queue ≡ false

abbrev pub Never : Runtime → Type 0
Never s = ⊥

module _ (key : Text) (e : Indexed) where
  -- with room in the queue
  pub record Waiting (state : RunState) (v : View) : Type 0 where
    pub held : Held key e state v
    pub room : Queue.full v.queue ≡ false

  abbrev pub W : RunState → Runtime → Type 0
  W state s = Waiting state (view s)

  pub increment-Leads :
      (state : RunState) (name : Text) → Leads (W state) (increment name) (W state) Never
  unfolding increment
  increment-Leads state name = record { at = λ s h. h }

  pub emit-Leads :
      (state : RunState) (topic trace_id agent_id : Text) (payload : Dict Events.Value)
      → Leads (W state) (emit topic trace_id agent_id payload) (W state) Never
  unfolding emit uuid4 time publish ◌>>=◌
  emit-Leads state topic trace_id agent_id payload = record { at = λ s h. h }

  moved :
      (run : RunRecord) (now : ℕ) (v : View)
      → Held key e created v
      → Dict.get v.objects e.run_id ≡ some run
      → run.state ≡ created
      → let new = stamp now run.state ready (text "accepted") run in
        Held key e ready (record v { objects = Dict.put v.objects new.id new })
  unfolding stamp
  moved run now v h at is_created = record {
    registered = h.registered;
    indexed = h.indexed;
    only = h.only;
    filed = put-filed v.objects (stamp now run.state ready (text "accepted") run) h.filed;
    run = stamp now run.state ready (text "accepted") run;
    at_id =
        get-put v.objects run.id e.run_id (stamp now run.state ready (text "accepted") run)
        ∙ (rw ((text_eq_iff run.id e.run_id).1 (h.filed e.run_id run at)) refl);
    in_state = refl;
    started = h.started;
    closed = h.closed;
  }

  allowed : (run : RunRecord) → run.state ≡ created → can_transition run.state ready ≡ true
  unfolding can_transition
  allowed run is_created = ap (λ (state : RunState). can_transition state ready) is_created

  pub transition-Leads :
      Leads (W created) (Fsm.transition fsm e.run_id ready (text "accepted")) (W ready) Never
  unfolding Fsm.transition fsm lock_for load Fsm.apply time store on_transition increment emit uuid4
      publish ◌>>=◌
  transition-Leads = record {
    at = λ s h.
        let now : ℕ = s.world.time s.times_read in
        rw (h.held.at_id, allowed h.held.run h.held.in_state)
          (record {
            held = moved h.held.run now (view s) h.held h.held.at_id h.held.in_state;
            room = h.room;
          });
  }

  abbrev pub H : Runtime → Type 0
  H s = Held key e ready (view s)

  pub enqueue-Leads : is_blank e.run_id ≡ false → Leads (W ready) (enqueue e.run_id) H Never
  unfolding enqueue time Queue.new_task put_task Queue.put_nowait lift ◌>>=◌
  enqueue-Leads named = record {
    at = λ s h.
        rw (named, h.room)
          (record {
            registered = h.held.registered;
            indexed = h.held.indexed;
            only = h.held.only;
            filed = h.held.filed;
            run = h.held.run;
            at_id = h.held.at_id;
            in_state = h.held.in_state;
            started = h.held.started;
            closed = h.held.closed;
          });
  }

  pub update-Leads : Leads H update_registry_metrics H Never
  unfolding update_registry_metrics set_gauge ◌>>=◌
  update-Leads = record { at = λ s h. h }
