-- ===== src/Fsm/Legal.antt =====
-- The transition diagram of docs/state-machine.md, against the table and the test of fsm.py.
use production_agent_runtime.Common.{◌≡◌, refl, ◌↔◌, ◌≢◌, true}
use production_agent_runtime.Models.{
  RunState, created, ready, running, waiting, succeeded, failed, cancelled, is_terminal,
}
use production_agent_runtime.Fsm.{can_transition}

pub data Legal : RunState → RunState → Type 0 where
  accept : Legal created ready
  cancel_created : Legal created cancelled
  acquire : Legal ready running
  cancel_ready : Legal ready cancelled
  wait : Legal running waiting
  succeed : Legal running succeeded
  fail : Legal running failed
  cancel_running : Legal running cancelled
  resume : Legal waiting running
  fail_waiting : Legal waiting failed
  cancel_waiting : Legal waiting cancelled
  retry : Legal failed ready

ruleset legal_rules = (
  accept, cancel_created, acquire, cancel_ready, wait, succeed, fail, cancel_running, resume,
  fail_waiting, cancel_waiting, retry,
)

Legal-can_transition : {s t : RunState} → Legal s t → can_transition s t ≡ true
unfolding can_transition
Legal-can_transition accept = refl
Legal-can_transition _ = refl

can_transition-Legal : (s t : RunState) → can_transition s t ≡ true → Legal s t
unfolding can_transition
can_transition-Legal created ready h = accept
can_transition-Legal created cancelled h = cancel_created
can_transition-Legal ready running h = acquire
can_transition-Legal ready cancelled h = cancel_ready
can_transition-Legal running waiting h = wait
can_transition-Legal running succeeded h = succeed
can_transition-Legal running failed h = fail
can_transition-Legal running cancelled h = cancel_running
can_transition-Legal waiting running h = resume
can_transition-Legal waiting failed h = fail_waiting
can_transition-Legal waiting cancelled h = cancel_waiting
can_transition-Legal failed ready h = retry
can_transition-Legal _ _ h = cc

-- The test of fsm.py accepts a pair of states exactly when the documented diagram has that edge.
pub can_transition-iff-Legal : (s t : RunState) → (can_transition s t ≡ true) ↔ Legal s t
can_transition-iff-Legal s t = (can_transition-Legal s t, Legal-can_transition)

infix 40 ◌⟶*◌
pub data ◌⟶*◌ : RunState → RunState → Type 0 where
  here : {s : RunState} → s ⟶* s
  then : {s t u : RunState} → Legal s t → t ⟶* u → s ⟶* u

-- From every state but CANCELLED the diagram has a path to SUCCEEDED.
pub ⟶*-succeeded : (s : RunState) → s ≢ cancelled → s ⟶* succeeded
⟶*-succeeded cancelled h = absurd (h refl)
⟶*-succeeded created h = then accept (then acquire (then succeed here))
⟶*-succeeded ready h = then acquire (then succeed here)
⟶*-succeeded running h = then succeed here
⟶*-succeeded waiting h = then resume (then succeed here)
⟶*-succeeded succeeded h = here
⟶*-succeeded failed h = then retry (then acquire (then succeed here))

-- SUCCEEDED and CANCELLED have no way out.
pub final_absorbing : {s t : RunState} → s ⟶* t → (is_terminal s ≡ true) → s ≢ failed → s ≡ t
final_absorbing here h n = refl
final_absorbing (then retry r) h n = absurd (n refl)
final_absorbing (then accept r) h n = cc
final_absorbing (then _ r) h n = cc
