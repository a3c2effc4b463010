-- ===== src/Runtime/Replay.antt =====
-- A repeated submission under an idempotency key.
use mathlib.Core.Option.{some-injective}
use production_agent_runtime.Common.{
  ℕ, ◌↔◌, ◌≡◌, refl, sym, ap, ◌∙◌, ◌≢◌, Bool, true, false, Option, none, some, List, [], ◌∷◌, Text,
  text, text_eq, text_eq_iff, strip, is_blank, All, Bool-cases, inl, inr, arith, if◌then◌else◌,
}
use production_agent_runtime.Common.Dict
use production_agent_runtime.Common.Dict.{Dict, get-remove}
use production_agent_runtime.Common.Exec.{
  Result, ok, err, continue, ◌>>=◌, idempotency_conflict_error,
}
use production_agent_runtime.Models.{RunRecord, AgentKind, kind_eq, is_terminal}
use production_agent_runtime.Runtime.State.{
  Runtime, Indexed, time, increment, set_gauge, update_registry_metrics, contains,
}
use production_agent_runtime.Runtime.Registry.{forget_key, removal, evict, evict_all, cleanup_runs}
use production_agent_runtime.Runtime.Cleanup.{contains-without, All-removal}
use production_agent_runtime.Runtime.Submit.{
  option_eq, start, start_if, same_request, replay, replay_entry, replay_indexed, is_bad_key,
  submit,
}

-- The key's entry is that of a registered run, which is the only one that has the key. `s` has the
-- objects and the queue of `before`.
pub record IsIndexed (key : Text) (e : Indexed) (before s : Runtime) : Type 0 where
  pub registered : contains s.runs e.run_id ≡ true
  pub indexed : Dict.get s.idempotency_index key ≡ some e
  pub only : (j : Text) → Dict.get s.idempotency_by_run j ≡ some key → j ≡ e.run_id
  pub same_objects : s.objects ≡ before.objects
  pub same_queue : s.queue ≡ before.queue

module _ (key : Text) (e : Indexed) (before : Runtime) where
  -- another run's key is another key
  get-forget_key :
      (index : Dict Indexed) (other : Option Text)
      → other ≢ some key
      → Dict.get index key ≡ some e
      → Dict.get (forget_key other index) key ≡ some e
  get-forget_key index none apart h = h
  get-forget_key index (some k) apart h = elim (Bool-cases (text_eq k key)) [
    | inl same ↦ absurd (apart (ap some ((text_eq_iff k key).0 same)))
    | inr other ↦ rw (get-remove, other) h
  ]

  evict-IsIndexed :
      (id : Text) (s : Runtime)
      → text_eq id e.run_id ≡ false
      → IsIndexed key e before s
      → IsIndexed key e before (evict id s).1
  unfolding evict increment ◌>>=◌
  evict-IsIndexed id s apart h = record {
    registered = contains-without e.run_id id s.runs apart ∙ h.registered;
    indexed =
        get-forget_key s.idempotency_index (Dict.get s.idempotency_by_run id)
          (λ at.
            let clash : true ≡ false = sym ((text_eq_iff id e.run_id).1 (h.only id at)) ∙ apart in
            ground (arith, clash))
          h.indexed;
    only = λ j at. elim (Bool-cases (text_eq id j)) [
      | inl same ↦ let gone : none ≡ some key = rw (get-remove, same) at at in ground (arith, gone)
      | inr other ↦ h.only j (rw (get-remove, other) at at)
    ];
    same_objects = h.same_objects;
    same_queue = h.same_queue;
  }

  evict_all-IsIndexed :
      (ids : List Text) (s : Runtime)
      → All (λ id. text_eq id e.run_id ≡ false) ids
      → IsIndexed key e before s
      → ((evict_all ids s).0 ≡ ok tt) × IsIndexed key e before (evict_all ids s).1
  unfolding evict_all evict increment ◌>>=◌
  evict_all-IsIndexed [] s apart h = (refl, h)
  evict_all-IsIndexed (id ∷ ids) s apart h =
      evict_all-IsIndexed ids (evict id s).1 apart.1 (evict-IsIndexed id s apart.0 h)

-- the run of an entry is registered under its own identifier and not over
pub record IsLive (s : Runtime) (e : Indexed) : Type 0 where
  pub run : RunRecord
  pub filed : (j : Text) (r : RunRecord) → Dict.get s.objects j ≡ some r → r.id ≡ j
  pub at_id : Dict.get s.objects e.run_id ≡ some run
  pub live : is_terminal run.state ≡ false

updated :
    (r : Result Unit) (s before : Runtime) (key : Text) (e : Indexed)
    → r ≡ ok tt
    → IsIndexed key e before s
    → ((continue r (λ _. update_registry_metrics) s).0 ≡ ok tt)
      × IsIndexed key e before (continue r (λ _. update_registry_metrics) s).1
unfolding update_registry_metrics set_gauge ◌>>=◌
updated r s before key e returned h = rw returned (
  refl,
  record {
    registered = h.registered;
    indexed = h.indexed;
    only = h.only;
    same_objects = h.same_objects;
    same_queue = h.same_queue;
  },
)

cleanup_runs-IsIndexed :
    (reserve : ℕ) (s : Runtime) (key : Text) (e : Indexed)
    → IsLive s e
    → IsIndexed key e s s
    → ((cleanup_runs reserve s).0 ≡ ok tt) × IsIndexed key e s (cleanup_runs reserve s).1
unfolding cleanup_runs time ◌>>=◌
cleanup_runs-IsIndexed reserve s key e l h =
    let s' : Runtime = (time s).1 in
    let ids : List Text = removal (s.world.time s.times_read) reserve s' in
    let others : All (λ x. text_eq x e.run_id ≡ false) ids =
      All-removal s' e.run_id l.run l.filed l.at_id l.live (s.world.time s.times_read) reserve in
    let (returned, kept) = evict_all-IsIndexed key e s ids s' others (record {
      registered = h.registered;
      indexed = h.indexed;
      only = h.only;
      same_objects = h.same_objects;
      same_queue = h.same_queue;
    }) in
    updated (evict_all ids s').0 (evict_all ids s').1 s key e returned kept

kind_eq_iff : (a b : AgentKind) → (kind_eq a b ≡ true) ↔ (a ≡ b)
kind_eq_iff a b = ground arith

option_eq_iff : (a b : Option Text) → (option_eq a b ≡ true) ↔ (a ≡ b)
option_eq_iff none none = (λ h. refl, λ h. refl)
option_eq_iff none (some b) = ground arith
option_eq_iff (some a) none = ground arith
option_eq_iff (some a) (some b) =
    (λ h. ap some ((text_eq_iff a b).0 h), λ h. (text_eq_iff a b).1 (some-injective a b h))

-- A request is taken for the one of an entry exactly when its input, its kind and its session are the
-- entry's.
pub same_request_iff :
    (e : Indexed) (input : Text) (kind : AgentKind) (session_id : Option Text)
    → (same_request e input kind session_id ≡ true)
      ↔ ((input ≡ e.input) × (kind ≡ e.kind) × (session_id ≡ e.session_id))
unfolding same_request
same_request_iff e input kind session_id = ground (
  arith,
  text_eq_iff input e.input,
  kind_eq_iff kind e.kind,
  option_eq_iff session_id e.session_id,
)

start_if-started :
    (s : Runtime) (closed started : Bool)
    → closed ≡ false
    → started ≡ true
    → start_if closed started s ≡ (ok tt, s)
unfolding start_if
start_if-started s closed started c d = rw c (rw d refl)

pub start-started : (s : Runtime) → s.closed ≡ false → s.started ≡ true → start s ≡ (ok tt, s)
unfolding start
start-started s c d = start_if-started s s.closed s.started c d

-- The engine is started and not closed, each object is filed under its own identifier, a key has
-- an entry, and the entry's run is registered, not terminal, and the only one with the key. Then
-- a submission under the key, which is of an accepted length, and with an input that is not blank
-- leaves the objects and the queue as they are: it returns the entry's run if the request is the
-- same, and raises the conflict if not.
pub submit-replay :
    (s : Runtime) (input_text key : Text) (kind : AgentKind) (session_id : Option Text)
    (e : Indexed)
    → s.started ≡ true
    → s.closed ≡ false
    → IsLive s e
    → IsIndexed key e s s
    → is_blank (strip input_text) ≡ false
    → is_bad_key (some key) ≡ false
    → let (r, s') = submit input_text kind session_id (some key) s in
      (r ≡ (
        if same_request e (strip input_text) kind session_id
        then ok e.run_id
        else err (
            idempotency_conflict_error
              (text "idempotency key was already used with a different request"))))
      × (s'.objects ≡ s.objects)
      × (s'.queue ≡ s.queue)
unfolding submit replay replay_entry replay_indexed increment ◌>>=◌
submit-replay s input_text key kind session_id e started unclosed l h written good =
    let (returned, kept) = cleanup_runs-IsIndexed 1 s key e l h in
    rw written (
      rw (start-started s unclosed started) (
        rw good (
          rw returned (
            rw kept.indexed (
              rw kept.registered
                (elim (Bool-cases (same_request e (strip input_text) kind session_id)) [
                  | inl same ↦ rw same (refl, kept.same_objects, kept.same_queue)
                  | inr differs ↦ rw differs (refl, kept.same_objects, kept.same_queue)
                ]))))))
