-- ===== src/Runtime/Reopen.antt =====
-- A transition that returns leaves its run in the target state, so `retry` clears the times of a run
-- that is not terminal any more.
use mathlib.Core.Option.{some-injective}
use production_agent_runtime.Common.{
  ℕ, ◌≡◌, refl, sym, ◌∙◌, some, Text, text, text_eq, text_eq_iff, Bool-cases, inl, inr,
}
use production_agent_runtime.Common.Dict
use production_agent_runtime.Common.Dict.{Dict, get-put}
use production_agent_runtime.Common.Exec.Keeps.{
  Keeps, Triple-of_Keeps, Triple-refuse_if, Leads, Leads-bind, Leads-bind_Triple, Leads-of_Keeps,
  Keeps-of_Leads,
}
use production_agent_runtime.Models.{RunRecord, RunState, ready}
use production_agent_runtime.Fsm.{stamp, apply, transition}
use production_agent_runtime.Runtime.State.{Runtime, fsm, store, update}
use production_agent_runtime.Runtime.Control.{reset, reopen}
use production_agent_runtime.Runtime.Invariant.{
  IsKept, AllRuns, lock_for-Keeps, load-Triple, store-Triple, time-Keeps, on_transition-Keeps,
}
use production_agent_runtime.Runtime.KeptByFsm.{false-of_not}

module _ (Fresh : Text → Type 0) (R : RunRecord → Type 0) (kept : IsKept Fresh R) (id : Text)
    (target : RunState) where
  abbrev Q : Runtime → Type 0
  Q = AllRuns Fresh R

  -- as R, with the run's state known
  abbrev Moved : RunRecord → Type 0
  Moved run = R run × (run.id ≡ id → run.state ≡ target)

  weaken : (s : Runtime) → AllRuns Fresh Moved s → Q s
  weaken s h = record {
    runs_have = λ k run e. let (same, (r, m)) = h.runs_have k run e in (same, r);
    ids_fresh = h.ids_fresh;
  }

  -- only the object that is written has the identifier
  stored :
      (objects : Dict RunRecord) (run : RunRecord) (k : Text) (other : RunRecord)
      → run.id ≡ id
      → Moved run
      → (Dict.get objects k ≡ some other → (other.id ≡ k) × R other)
      → Dict.get (Dict.put objects run.id run) k ≡ some other
      → (other.id ≡ k) × Moved other
  stored objects run k other at_id moved before e = elim (Bool-cases (text_eq run.id k)) [
    | inl same ↦
        let found_run : run ≡ other = some-injective run other (rw (get-put, same) at e) in
        rw (← found_run) ((text_eq_iff run.id k).0 same, moved)
    | inr apart ↦
        let (at_k, r) = before (rw (get-put, apart) at e) in
        (at_k, (r, λ p. cc ((text_eq_iff run.id k).1 (at_id ∙ sym p ∙ at_k))))
  ]

  store-Leads :
      (run : RunRecord) → run.id ≡ id → Moved run → Leads Q (store run) (AllRuns Fresh Moved) Q
  unfolding store
  store-Leads run at_id moved = record {
    at = λ s h. record {
      runs_have = λ k other e. stored s.objects run k other at_id moved (h.runs_have k other) e;
      ids_fresh = h.ids_fresh;
    };
  }

  pub transition-Leads :
      (reason : Text) → Leads Q (transition fsm id target reason) (AllRuns Fresh Moved) Q
  unfolding transition apply fsm
  transition-Leads reason =
      Leads-bind_Triple _ _ (λ s h. h) (Triple-of_Keeps _ (lock_for-Keeps Fresh R id))
        λ _ _.
          Leads-bind_Triple _ _ (λ s h. h) (load-Triple Fresh R id)
            λ run r.
              Leads-bind_Triple _ _ (λ s h. h) (Triple-refuse_if _ _)
                λ _ allowed.
                  Leads-bind_Triple _ _ (λ s h. h) (Triple-of_Keeps _ (time-Keeps Fresh R))
                    λ now _.
                      Leads-bind _ _
                        (store-Leads (stamp now run.state target reason run) (at_id now run r.0) (
                          kept.by_stamp now target reason run (false-of_not _ allowed) r.1,
                          state_of now run,
                        ))
                        λ _. Leads-of_Keeps _ weaken (on_transition-Keeps Fresh Moved _ _ _ _)
    where
      at_id :
          (now : ℕ) (run : RunRecord)
          → run.id ≡ id
          → (stamp now run.state target reason run).id ≡ id
      at_id now run e = unfold stamp in e

      state_of :
          (now : ℕ) (run : RunRecord)
          → (stamp now run.state target reason run).id ≡ id
          → (stamp now run.state target reason run).state ≡ target
      state_of now run e = unfold stamp in refl

-- `retry` clears the fields of a run that has just become READY.
pub reopen-Keeps :
    (Fresh : Text → Type 0) (R : RunRecord → Type 0)
    → IsKept Fresh R
    → (id : Text) → Keeps (AllRuns Fresh R) (reopen id)
unfolding reopen update store
reopen-Keeps Fresh R kept id = Keeps-of_Leads _ (
    Leads-bind _ _ (transition-Leads Fresh R kept id ready (text "manual retry")) λ _.
      Leads-bind_Triple _ _ (weaken Fresh R kept id ready)
        (load-Triple Fresh (Moved Fresh R kept id ready) id)
        λ run r. record {
          at = λ s h.
              ((store-Triple Fresh R (reset run) (kept.by_reset run (r.1.1 r.0) r.1.0)).at s
                (weaken Fresh R kept id ready s h)).0;
        })
