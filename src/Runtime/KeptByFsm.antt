-- ===== src/Runtime/KeptByFsm.antt =====
-- The state machine, over the store of the engine, keeps what every legal transition keeps.
use mathlib.Core.Path.{subst}
use production_agent_runtime.Common.{ℕ, ◌≡◌, refl, Bool, true, false, not, Text}
use production_agent_runtime.Common.Exec.Keeps.{
  Keeps, keeps_rules, Keeps-modify, Keeps-read, Keeps-raise, Triple-read, Triple, Returned,
  Triple-bind, Triple-pure, Triple-raise, Triple-if, Triple-of_Keeps, Keeps-of_Triple,
  Triple-refuse_if,
}
use production_agent_runtime.Models.{
  RunState, RunRecord, created, ready, running, waiting, succeeded, failed, cancelled, state_eq,
}
use production_agent_runtime.Fsm.{
  can_transition, stamp, apply, transition, transition_if_current, transition_if_allowed,
}
use production_agent_runtime.Runtime.State.{Runtime, load, update, fsm}
use production_agent_runtime.Runtime.Invariant.{
  IsKept, AllRuns, Keeps-quiet, time-Keeps, perf_counter-Keeps, uuid4-Triple, increment-Keeps,
  increment_by-Keeps, set_gauge-Keeps, publish-Keeps, uuid4-Keeps, emit-Keeps, on_transition-Keeps,
  lock_for-Keeps, update_registry_metrics-Keeps, set_completion-Keeps, load-Triple, store-Triple,
  update-Triple,
}

state_eq-path : (a b : RunState) → state_eq a b ≡ true → a ≡ b
state_eq-path created created h = refl
state_eq-path ready ready h = refl
state_eq-path running running h = refl
state_eq-path waiting waiting h = refl
state_eq-path succeeded succeeded h = refl
state_eq-path failed failed h = refl
state_eq-path cancelled cancelled h = refl
state_eq-path _ _ h = cc

pub false-of_not : (b : Bool) → not b ≡ false → b ≡ true
false-of_not true h = refl
false-of_not false h = cc

-- The state machine's methods keep what every legal transition keeps.
module _ (Fresh : Text → Type 0) (R : RunRecord → Type 0) (kept : IsKept Fresh R) where
  abbrev Q : Runtime → Type 0
  Q = AllRuns Fresh R

  pub apply-Triple :
      (run : RunRecord) (source target : RunState) (reason : Text)
      → run.state ≡ source
      → can_transition source target ≡ true
      → R run
      → Triple Q (apply fsm run source target reason) (λ _. Unit)
  unfolding apply fsm
  apply-Triple run source target reason at_source allowed r =
      Triple-bind _ _ (Triple-of_Keeps _ (time-Keeps Fresh R)) λ now _.
        Triple-bind _ _ (store-Triple Fresh R (stamp now source target reason run) (stamped now))
          λ _ _. Triple-of_Keeps _ (on_transition-Keeps Fresh R _ source target reason)
    where
      stamped : (now : ℕ) → R (stamp now source target reason run)
      stamped now =
          subst (λ (st : RunState). R (stamp now st target reason run)) at_source
            (kept.by_stamp now target reason run (rw at_source allowed) r)

  pub transition-Triple :
      (id : Text) (target : RunState) (reason : Text)
      → Triple Q (transition fsm id target reason) (λ _. Unit)
  unfolding transition fsm
  transition-Triple id target reason =
      Triple-bind _ _ (Triple-of_Keeps _ (lock_for-Keeps Fresh R id)) λ _ _.
        Triple-bind _ _ (load-Triple Fresh R id) λ run r.
          Triple-bind _ _ (Triple-refuse_if _ _)
            λ _ allowed. apply-Triple run run.state target reason refl (false-of_not _ allowed) r.1

  pub transition_if_current-Triple :
      (id : Text) (expected target : RunState) (reason : Text)
      → Triple Q (transition_if_current fsm id expected target reason) (λ _. Unit)
  unfolding transition_if_current fsm
  transition_if_current-Triple id expected target reason =
      Triple-bind _ _ (Triple-of_Keeps _ (lock_for-Keeps Fresh R id)) λ _ _.
        Triple-bind _ _ (load-Triple Fresh R id) λ run r.
          Triple-if _ _ _ (λ _. Triple-pure false tt)
            λ same. Triple-bind _ _ (Triple-refuse_if _ _) λ _ allowed.
              Triple-bind _ _
                (apply-Triple run expected target reason
                  (state_eq-path run.state expected (false-of_not _ same)) (false-of_not _ allowed)
                  r.1)
                λ _ _. Triple-pure true tt

  pub transition_if_allowed-Triple :
      (id : Text) (target : RunState) (reason : Text)
      → Triple Q (transition_if_allowed fsm id target reason) (λ _. Unit)
  unfolding transition_if_allowed fsm
  transition_if_allowed-Triple id target reason =
      Triple-bind _ _ (Triple-of_Keeps _ (lock_for-Keeps Fresh R id)) λ _ _.
        Triple-bind _ _ (load-Triple Fresh R id) λ run r.
          Triple-if _ _ _ (λ _. Triple-pure false tt)
            λ allowed.
              Triple-bind _ _
                (apply-Triple run run.state target reason refl (false-of_not _ allowed) r.1)
                λ _ _. Triple-pure true tt

  pub transition-Keeps :
      (id : Text) (target : RunState) (reason : Text) → Keeps Q (transition fsm id target reason)
  transition-Keeps id target reason = Keeps-of_Triple _ (transition-Triple id target reason)

  pub transition_if_current-Keeps :
      (id : Text) (expected target : RunState) (reason : Text)
      → Keeps Q (transition_if_current fsm id expected target reason)
  transition_if_current-Keeps id expected target reason =
      Keeps-of_Triple _ (transition_if_current-Triple id expected target reason)

  pub transition_if_allowed-Keeps :
      (id : Text) (target : RunState) (reason : Text)
      → Keeps Q (transition_if_allowed fsm id target reason)
  transition_if_allowed-Keeps id target reason =
      Keeps-of_Triple _ (transition_if_allowed-Triple id target reason)

pub load-Keeps :
    (Fresh : Text → Type 0) (R : RunRecord → Type 0) (id : Text) → Keeps (AllRuns Fresh R) (load id)
load-Keeps Fresh R id = Keeps-of_Triple _ (load-Triple Fresh R id)

pub update-Keeps :
    (Fresh : Text → Type 0) (R : RunRecord → Type 0) (id : Text) (f : RunRecord → RunRecord)
    → ((run : RunRecord) → R run → R (f run))
    → Keeps (AllRuns Fresh R) (update id f)
update-Keeps Fresh R id f h = Keeps-of_Triple _ (update-Triple Fresh R id f h)

pub ruleset run_rules = (
  keeps_rules, time-Keeps, perf_counter-Keeps, increment-Keeps, increment_by-Keeps, set_gauge-Keeps,
  uuid4-Keeps, emit-Keeps, lock_for-Keeps, update_registry_metrics-Keeps, set_completion-Keeps,
  load-Keeps, transition-Keeps, transition_if_current-Keeps, transition_if_allowed-Keeps,
)
