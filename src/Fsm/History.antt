-- ===== src/Fsm/History.antt =====
-- The transition log of a run is a path of the diagram from CREATED to the run's state.
use production_agent_runtime.Common.{
  ℕ, ◌≡◌, refl, sym, ◌∙◌, ◌⊎◌, Bool, true, false, List, [], ◌∷◌, ◌++◌, Text, is_some, arith,
}
use production_agent_runtime.Common.Exec.{ok}
use production_agent_runtime.Models.{
  RunState, created, running, waiting, succeeded, failed, is_terminal, AgentKind, RunRecord,
  Transition, new_run,
}
use production_agent_runtime.Fsm.{can_transition, stamp}
use production_agent_runtime.Fsm.Legal.{Legal, can_transition-iff-Legal}

-- The entries follow one another from s to t, and each is an edge of the diagram.
abbrev pub Chain : RunState → List Transition → RunState → Type 0
Chain s [] t = s ≡ t
Chain s (x ∷ xs) t = (x.from_state ≡ s) × Legal x.from_state x.to_state × Chain x.to_state xs t

Chain-append :
    (s : RunState) {t u : RunState} (xs : List Transition) (x : Transition)
    → Chain s xs t
    → x.from_state ≡ t
    → Legal x.from_state x.to_state
    → x.to_state ≡ u
    → Chain s (xs ++ x ∷ []) u
Chain-append s [] x c e l f = (e ∙ sym c, l, f)
Chain-append s (y ∷ xs) x c e l f = (c.0, c.1, Chain-append y.to_state xs x c.2 e l f)

-- the states that only a run which has been RUNNING is in
abbrev pub has_run : RunState → Bool
has_run running = true
has_run waiting = true
has_run succeeded = true
has_run failed = true
has_run _ = false

pub record HasHistory (run : RunRecord) : Type 0 where
  pub path : Chain created run.transitions run.state
  pub was_started : has_run run.state ≡ true → is_some run.started_at ≡ true
  pub was_finished : is_terminal run.state ≡ true → is_some run.finished_at ≡ true

-- every state after RUNNING is entered from one that has run, and RUNNING itself from READY
started_before :
    (s t : RunState)
    → can_transition s t ≡ true
    → has_run t ≡ true
    → (t ≡ running) ⊎ (has_run s ≡ true)
unfolding can_transition
started_before s t allowed h = ground arith

-- A legal transition keeps the log a path of the diagram from CREATED to the run's state, and the
-- time stamps in step with the state.
pub stamp-HasHistory :
    (now : ℕ) (target : RunState) (reason : Text) (run : RunRecord)
    → can_transition run.state target ≡ true
    → HasHistory run
    → HasHistory (stamp now run.state target reason run)
unfolding stamp
stamp-HasHistory now target reason run allowed h = record {
  path =
      Chain-append created run.transitions _ h.path refl
        ((can_transition-iff-Legal run.state target).0 allowed) refl;
  was_started = λ r. ground (arith, started_before run.state target allowed r, h.was_started);
  was_finished = λ r. ground arith;
}

pub new_run-HasHistory :
    (id input : Text) (kind : AgentKind) (session_id trace_id : Text) (t u : ℕ) (run : RunRecord)
    → new_run id input kind session_id trace_id t u ≡ ok run
    → HasHistory run
unfolding new_run
new_run-HasHistory id input kind session_id trace_id t u run h = ground arith
