-- ===== src/Adapters/Leases/Exclusion.antt =====
-- A lease excludes every other owner until it expires or its owner releases it.
use production_agent_runtime.Common.{
  ℕ, ◌+◌, ◌<◌, ◌≡◌, refl, ap, ◌∙◌, Bool, true, false, none, some, List, [], ◌∷◌, Text, text_eq,
  text_eq_iff, text_eq_refl, if◌then◌else◌, arith, All, Option-cases, Bool-cases, inl, inr, ◌⊎◌,
}
use production_agent_runtime.Common.Dict
use production_agent_runtime.Common.Dict.{get-put, get-remove}
use production_agent_runtime.Common.Int.{ℤ, pos_part}
use production_agent_runtime.Common.Exec.{ok}
use production_agent_runtime.Adapters.Leases.{
  Lease, Leases, is_invalid, acquire, renew, release, owner,
}

-- a call of the lease manager, with the clock's reading
pub data Call : Type 0 where
  acquires : ℕ → Text → Text → ℤ → Call
  renews : ℕ → Text → Text → ℤ → Call
  releases : Text → Text → Call
  asks : ℕ → Text → Call

unfoldable pub perform : Call → Leases → Leases
perform (acquires now resource_id owner_id ttl) leases =
    (acquire now resource_id owner_id ttl leases).1
perform (renews now resource_id owner_id ttl) leases = (renew now resource_id owner_id ttl leases).1
perform (releases resource_id owner_id) leases = (release resource_id owner_id leases).1
perform (asks now resource_id) leases = (owner now resource_id leases).1

unfoldable pub perform_all : List Call → Leases → Leases
perform_all [] leases = leases
perform_all (c ∷ calls) leases = perform_all calls (perform c leases)

-- a call that the owner does not make, at a time before the lease ends
abbrev pub Foreign : Text → ℕ → Call → Type 0
Foreign owner_id end (acquires now r o ttl) = now < end
Foreign owner_id end (renews now r o ttl) = text_eq o owner_id ≡ false
Foreign owner_id end (releases r o) = text_eq o owner_id ≡ false
Foreign owner_id end (asks now r) = now < end

module _ (resource_id : Text) (lease : Lease) where
  abbrev Holds : Leases → Type 0
  Holds leases = Dict.get leases resource_id ≡ some lease

  put-Holds :
      (r : Text) (new : Lease) (leases : Leases)
      → text_eq r resource_id ≡ false
      → Holds leases
      → Holds (Dict.put leases r new)
  put-Holds r new leases other h = rw get-put (rw other h)

  remove-Holds :
      (r : Text) (leases : Leases)
      → text_eq r resource_id ≡ false
      → Holds leases
      → Holds (Dict.remove leases r)
  remove-Holds r leases other h = rw get-remove (rw other h)

  -- a resource is another one, or it is the one that is leased
  resource-cases :
      (r : Text) (leases : Leases)
      → Holds leases
      → (text_eq r resource_id ≡ false) ⊎ (Dict.get leases r ≡ some lease)
  resource-cases r leases h = elim (Bool-cases (text_eq r resource_id)) [
    | inl same ↦ inr (ap (Dict.get leases) ((text_eq_iff r resource_id).0 same) ∙ h)
    | inr other ↦ inl other
  ]

  if-Holds :
      {A : Type 0} (test : Bool) (x y : A × Leases)
      → Holds x.1
      → Holds y.1
      → Holds (if test then x else y).1
  if-Holds true x y hx hy = hx
  if-Holds false x y hx hy = hy

  ruleset held = (if-Holds, put-Holds, remove-Holds)

  acquire-Holds :
      (now : ℕ) (r o : Text) (ttl : ℤ) (leases : Leases)
      → now < lease.expires_at
      → Holds leases
      → Holds (acquire now r o ttl leases).1
  unfolding acquire
  acquire-Holds now r o ttl leases f h = elim (resource-cases r leases h) [
    | inl other ↦ elim (Option-cases (Dict.get leases r)) [
      | inl absent ↦ rw absent (search held)
      | inr (old, at) ↦ rw at (search held)
    ]
    | inr at ↦ rw at (ground arith)
  ]

  renew-Holds :
      (now : ℕ) (r o : Text) (ttl : ℤ) (leases : Leases)
      → text_eq o lease.owner_id ≡ false
      → Holds leases
      → Holds (renew now r o ttl leases).1
  unfolding renew
  renew-Holds now r o ttl leases f h = elim (resource-cases r leases h) [
    | inl other ↦ elim (Option-cases (Dict.get leases r)) [
      | inl absent ↦ rw absent (search held)
      | inr (old, at) ↦ rw at (search held)
    ]
    | inr at ↦ rw at (ground (arith, text_eq_iff o lease.owner_id, text_eq_iff lease.owner_id o))
  ]

  release-Holds :
      (r o : Text) (leases : Leases)
      → text_eq o lease.owner_id ≡ false
      → Holds leases
      → Holds (release r o leases).1
  unfolding release
  release-Holds r o leases f h = elim (resource-cases r leases h) [
    | inl other ↦ elim (Option-cases (Dict.get leases r)) [
      | inl absent ↦ rw absent h
      | inr (old, at) ↦ rw at (search held)
    ]
    | inr at ↦ rw at (ground (arith, text_eq_iff o lease.owner_id, text_eq_iff lease.owner_id o))
  ]

  owner-Holds :
      (now : ℕ) (r : Text) (leases : Leases)
      → now < lease.expires_at
      → Holds leases
      → Holds (owner now r leases).1
  unfolding owner
  owner-Holds now r leases f h = elim (resource-cases r leases h) [
    | inl other ↦ elim (Option-cases (Dict.get leases r)) [
      | inl absent ↦ rw absent h
      | inr (old, at) ↦ rw at (search held)
    ]
    | inr at ↦ rw at (ground arith)
  ]

  perform-Holds :
      (c : Call) (leases : Leases)
      → Foreign lease.owner_id lease.expires_at c
      → Holds leases
      → Holds (perform c leases)
  unfolding perform
  perform-Holds (acquires now r o ttl) leases f h = acquire-Holds now r o ttl leases f h
  perform-Holds (renews now r o ttl) leases f h = renew-Holds now r o ttl leases f h
  perform-Holds (releases r o) leases f h = release-Holds r o leases f h
  perform-Holds (asks now r) leases f h = owner-Holds now r leases f h

  perform_all-Holds :
      (calls : List Call) (leases : Leases)
      → All (Foreign lease.owner_id lease.expires_at) calls
      → Holds leases
      → Holds (perform_all calls leases)
  unfolding perform_all
  perform_all-Holds [] leases f h = h
  perform_all-Holds (c ∷ calls) leases f h =
      perform_all-Holds calls (perform c leases) f.1 (perform-Holds c leases f.0 h)

-- A lease held on a resource stays, whatever calls come before it expires that are not its
-- owner's own renewal or release, and until it expires another owner's valid attempt to acquire
-- the resource is then refused and changes nothing.
pub acquire-excluded :
    (calls : List Call) (leases : Leases) (resource_id other : Text) (lease : Lease) (now : ℕ)
    (ttl : ℤ)
    → Dict.get leases resource_id ≡ some lease
    → All (Foreign lease.owner_id lease.expires_at) calls
    → now < lease.expires_at
    → text_eq lease.owner_id other ≡ false
    → is_invalid resource_id other ttl ≡ false
    → acquire now resource_id other ttl (perform_all calls leases)
      ≡ (ok false, perform_all calls leases)
unfolding acquire
acquire-excluded calls leases resource_id other lease now ttl h foreign before differs valid =
    let at : Dict.get (perform_all calls leases) resource_id ≡ some lease =
      perform_all-Holds resource_id lease calls leases foreign h in
    rw at (ground arith)

-- An owner that acquires a resource without a lease, with valid arguments, is shown as the owner
-- until the lease expires, whatever calls come meanwhile that are not its own renewal or release.
pub acquire-owner :
    (calls : List Call) (leases : Leases) (resource_id owner_id : Text) (now later : ℕ) (ttl : ℤ)
    → Dict.get leases resource_id ≡ none
    → is_invalid resource_id owner_id ttl ≡ false
    → All (Foreign owner_id (now + pos_part ttl)) calls
    → later < now + pos_part ttl
    → (owner later resource_id
        (perform_all calls (acquire now resource_id owner_id ttl leases).1)).0
      ≡ some owner_id
unfolding acquire owner
acquire-owner calls leases resource_id owner_id now later ttl absent valid foreign before =
    let lease : Lease = record { owner_id = owner_id; expires_at = now + pos_part ttl } in
    let new : Dict.get (Dict.put leases resource_id lease) resource_id ≡ some lease =
      rw get-put (rw (text_eq_refl resource_id) refl) in
    let at : Dict.get (perform_all calls (Dict.put leases resource_id lease)) resource_id
        ≡ some lease =
      perform_all-Holds resource_id lease calls _ foreign new in
    rw valid (rw absent (rw at (ground arith)))
