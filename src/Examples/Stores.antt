-- ===== src/Examples/Stores.antt =====
-- The stores of the in-memory adapters on concrete inputs.
use production_agent_runtime.Common.{
  ℕ, ◌≡◌, refl, false, some, List, [], ◌∷◌, ◌++◌, Text, text, text_eq, take_last, strip, lstrip,
  if◌then◌else◌, arith, Bool-cases, inl, inr,
}
use production_agent_runtime.Common.Dict
use production_agent_runtime.Common.Int.{pos}
use production_agent_runtime.Common.Exec.{ok, err, value_error}
use production_agent_runtime.Sessions.{SessionStore, append_turn, history, get}
use production_agent_runtime.Sessions.Bounded.{IsBounded, said, get-append_turn, append_turn_half}
use production_agent_runtime.Adapters.Leases.{Leases, acquire, owner}
use production_agent_runtime.Adapters.Leases.Exclusion.{
  Call, acquires, renews, releases, asks, perform_all, acquire-excluded, acquire-owner,
}
use production_agent_runtime.Adapters.Runs
use production_agent_runtime.Adapters.Runs.{
  IdempotencyRecord, new_repository, find_idempotency, add, delete,
}
use production_agent_runtime.Adapters.Runs.Linked.{
  Change, adds, deletes, change, change_all, find_idempotency-get,
}
use production_agent_runtime.Common.{is_some, true}
use production_agent_runtime.Adapters.Checkpoints.{Checkpoint, Checkpoints, save, load}
use production_agent_runtime.Adapters.Checkpoints.Monotone.{load-save}

abbrev session : Text
session = 115 ∷ []

abbrev question : Text
question = 104 ∷ 105 ∷ []

abbrev reply : Text
reply = 121 ∷ []

abbrev blank : Text
blank = 32 ∷ []

abbrev sessions : SessionStore
sessions = record { max_messages = 2; sessions = (session, said question reply ∷ []) ∷ [] }

sessions-IsBounded : IsBounded sessions
unfolding history Dict.get
sessions-IsBounded = record {
  at_key = λ id. elim (Bool-cases (text_eq session id)) [
    | inl same ↦ rw same (omega arith)
    | inr other ↦ rw other (omega arith)
  ];
}

get-append_turn_example :
    let (r, s') = append_turn session question reply sessions in
    (r ≡ ok tt)
    × (get session s' ≡ (
        if text_eq session session
        then take_last 2 (
            get session sessions
            ++ said (text "user") question ∷ said (text "assistant") reply ∷ [])
        else get session sessions))
unfolding strip lstrip
get-append_turn_example =
    get-append_turn sessions session question reply session refl refl sessions-IsBounded

append_turn_half_example :
    let (r, s') = append_turn session question blank sessions in
    (r ≡ err (value_error (text "message content must not be empty")))
    × (get session s' ≡ take_last 2 (get session sessions ++ said (text "user") question ∷ []))
unfolding strip lstrip
append_turn_half_example =
    append_turn_half sessions session question blank refl refl sessions-IsBounded

abbrev resource : Text
resource = 114 ∷ []

abbrev alice : Text
alice = 97 ∷ []

abbrev bob : Text
bob = 98 ∷ []

abbrev leases : Leases
leases = (resource, record { owner_id = alice; expires_at = 50 }) ∷ []

abbrev calls : List Call
calls =
    acquires 10 resource bob (pos 5)
    ∷ renews 12 resource bob (pos 5)
    ∷ releases resource bob
    ∷ asks 49 resource
    ∷ []

acquire-excluded_example :
    acquire 49 resource bob (pos 9) (perform_all calls leases)
    ≡ (ok false, perform_all calls leases)
unfolding Dict.get text_eq
acquire-excluded_example =
    acquire-excluded calls leases resource bob (record { owner_id = alice; expires_at = 50 }) 49
      (pos 9) refl (omega arith, (refl, (refl, (omega arith, tt)))) (omega arith) refl refl

acquire-owner_example :
    (owner 54 resource (perform_all calls (acquire 5 resource alice (pos 50) []).1)).0 ≡ some alice
unfolding Dict.get text_eq
acquire-owner_example =
    acquire-owner calls [] resource alice 5 54 (pos 50) refl refl
      (omega arith, (refl, (refl, (omega arith, tt)))) (omega arith)

abbrev checkpoint : ℕ → Checkpoint Text
checkpoint step = record { run_id = resource; step = step; state = alice; updated_at = 7 }

abbrev checkpoints : Checkpoints Text
checkpoints = (resource, checkpoint 3) ∷ []

load-save_example :
    load Text resource (save Text (checkpoint 4) checkpoints).1 ≡ some (checkpoint 4)
unfolding Dict.get text_eq
load-save_example = load-save Text (checkpoint 4) (checkpoint 3) checkpoints refl (omega arith)

abbrev second : IdempotencyRecord
second = record { key = bob; run_id = bob; request_fingerprint = blank }

abbrev changes : List (Change Text (λ run. run) (λ run. 0))
changes =
    adds alice (some (record { key = alice; run_id = alice; request_fingerprint = blank }))
    ∷ adds bob (some second)
    ∷ deletes alice
    ∷ adds resource (some second)
    ∷ []

find_idempotency-get_example :
    is_some (
      Runs.get Text
        (λ run. run)
        (λ run. 0)
        bob
        (change_all Text
          (λ run. run)
          (λ run. 0)
          changes
          (new_repository Text (λ run. run) (λ run. 0))))
    ≡ true
unfolding find_idempotency change_all change add delete Dict.get Dict.put Dict.remove text_eq
find_idempotency-get_example =
    find_idempotency-get Text (λ run. run) (λ run. 0) changes bob second refl
