-- ===== src/Adapters/Leases.antt =====
-- InMemoryLeaseManager of adapters/memory.py. The clock's reading is an argument of each method, and
-- the lock is free at every suspension point, so each method is atomic.
pub mod Exclusion
use production_agent_runtime.Common.{
  ℕ, ◌+◌, Bool, true, false, ◌||◌, not, Option, none, some, Text, text, text_eq, is_blank, ltb, leb,
  if◌then◌else◌,
}
use production_agent_runtime.Common.Dict
use production_agent_runtime.Common.Dict.{Dict}
use production_agent_runtime.Common.Int.{ℤ, pos_part}
use production_agent_runtime.Common.Exec.{Exec, ok, err, value_error}
use production_agent_runtime.Models.{not_positive}

pub record Lease : Type 0 where
  pub owner_id : Text
  pub expires_at : ℕ

abbrev pub Leases : Type 0
Leases = Dict Lease

-- `_validate`
abbrev pub is_invalid : Text → Text → ℤ → Bool
is_invalid resource_id owner_id ttl = is_blank resource_id || is_blank owner_id || not_positive ttl

abbrev pub refuse : Exec Leases Bool
refuse leases =
    (err (value_error (text "lease requires resource, owner, and a positive TTL")), leases)

abbrev pub put_lease : ℕ → Text → Text → ℤ → Exec Leases Bool
put_lease now resource_id owner_id ttl leases = (
  ok true,
  Dict.put leases resource_id (record { owner_id = owner_id; expires_at = now + pos_part ttl }),
)

abbrev pub grant : ℕ → Text → Text → ℤ → Option Lease → Exec Leases Bool
grant now resource_id owner_id ttl none leases = put_lease now resource_id owner_id ttl leases
grant now resource_id owner_id ttl (some current) leases =
    if ltb now current.expires_at
    then (ok (text_eq current.owner_id owner_id), leases)
    else put_lease now resource_id owner_id ttl leases

unfoldable pub acquire : ℕ → Text → Text → ℤ → Exec Leases Bool
acquire now resource_id owner_id ttl leases =
    if is_invalid resource_id owner_id ttl
    then refuse leases
    else grant now resource_id owner_id ttl (Dict.get leases resource_id) leases

abbrev pub extend : ℕ → Text → Text → ℤ → Option Lease → Exec Leases Bool
extend now resource_id owner_id ttl none leases = (ok false, leases)
extend now resource_id owner_id ttl (some current) leases =
    if not (text_eq current.owner_id owner_id) || leb current.expires_at now
    then (ok false, leases)
    else put_lease now resource_id owner_id ttl leases

unfoldable pub renew : ℕ → Text → Text → ℤ → Exec Leases Bool
renew now resource_id owner_id ttl leases =
    if is_invalid resource_id owner_id ttl
    then refuse leases
    else extend now resource_id owner_id ttl (Dict.get leases resource_id) leases

abbrev pub release_if : Text → Text → Option Lease → Exec Leases Bool
release_if resource_id owner_id none leases = (ok false, leases)
release_if resource_id owner_id (some current) leases =
    if text_eq current.owner_id owner_id
    then (ok true, Dict.remove leases resource_id)
    else (ok false, leases)

unfoldable pub release : Text → Text → Exec Leases Bool
release resource_id owner_id leases =
    release_if resource_id owner_id (Dict.get leases resource_id) leases

abbrev pub owner_if : ℕ → Text → Option Lease → Leases → Option Text × Leases
owner_if now resource_id none leases = (none, leases)
owner_if now resource_id (some current) leases =
    if leb current.expires_at now
    then (none, Dict.remove leases resource_id)
    else (some current.owner_id, leases)

unfoldable pub owner : ℕ → Text → Leases → Option Text × Leases
owner now resource_id leases = owner_if now resource_id (Dict.get leases resource_id) leases
