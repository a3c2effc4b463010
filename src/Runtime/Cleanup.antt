-- ===== src/Runtime/Cleanup.antt =====
-- `_cleanup_runs` never evicts a run that is not terminal.
use production_agent_runtime.Common.{
  ℕ, zero, suc, ◌≡◌, refl, Bool, true, false, Bool-cases, inl, inr, some, List, [], ◌∷◌, map, Text,
  text_eq, text_eq_iff, keep, All, All-append, Option-cases, sym, ap, ◌∙◌, leb, arith,
}
use mathlib.Core.Option.{some-injective}
use production_agent_runtime.Common.Dict
use production_agent_runtime.Common.Dict.{Dict}
use production_agent_runtime.Common.Exec.{Result, ok, err, continue, ◌>>=◌}
use production_agent_runtime.Models.{RunRecord, is_terminal}
use production_agent_runtime.Runtime.State.{
  Runtime, time, increment, set_gauge, update_registry_metrics, contains,
}
use production_agent_runtime.Runtime.Registry.{
  insert_by, sort_by, objects_of, is_done, finish_time, terminal_runs, id_of, make_room, removal,
  without, evict, evict_all, cleanup_runs,
}

module _ {ℓ κ} {A : Type ℓ} (P : A → Type κ) (key : A → ℕ) where
  All-insert_by : (x : A) (ys : List A) → P x → All P ys → All P (insert_by key x ys)
  unfolding insert_by
  All-insert_by x [] p h = (p, tt)
  All-insert_by x (y ∷ ys) p h = elim (Bool-cases (leb (key x) (key y))) [
    | inl le ↦ rw le (p, (h.0, h.1))
    | inr gt ↦ rw gt (h.0, All-insert_by x ys p h.1)
  ]

  All-sort_by : (xs : List A) → All P xs → All P (sort_by key xs)
  unfolding sort_by
  All-sort_by [] h = h
  All-sort_by (x ∷ xs) h = All-insert_by x (sort_by key xs) h.0 (All-sort_by xs h.1)

module _ (s : Runtime) (id : Text) (run : RunRecord)
    (named : (j : Text) (r : RunRecord) → Dict.get s.objects j ≡ some r → r.id ≡ j)
    (registered : Dict.get s.objects id ≡ some run) (live : is_terminal run.state ≡ false) where
  abbrev Named : Text → Type 0
  Named x = text_eq x id ≡ false

  abbrev Other : RunRecord → Type 0
  Other r = Named r.id

  done-Other :
      (j : Text) (r : RunRecord) → Dict.get s.objects j ≡ some r → is_done r ≡ true → Other r
  done-Other j r at done = elim (Bool-cases (text_eq r.id id)) [
    | inl same ↦
        let same_id : j ≡ id = sym (named j r at) ∙ (text_eq_iff r.id id).0 same in
        let same_run : some r ≡ some run = sym at ∙ ap (Dict.get s.objects) same_id ∙ registered in
        let clash : true ≡ false = sym done ∙ ap is_done (some-injective r run same_run) ∙ live in
        ground arith
    | inr other ↦ other
  ]

  All-keep_done : (ids : List Text) → All Other (keep is_done (objects_of s.objects ids))
  unfolding keep objects_of
  All-keep_done [] = tt
  All-keep_done (j ∷ ids) = elim (Option-cases (Dict.get s.objects j)) [
    | inl absent ↦ rw absent (All-keep_done ids)
    | inr (r, at) ↦ rw at (elim (Bool-cases (is_done r)) [
      | inl done ↦ rw done (done-Other j r at done, All-keep_done ids)
      | inr waiting ↦ rw waiting (All-keep_done ids)
    ])
  ]

  All-make_room :
      (n : ℕ) (chosen : List Text) (terminal : List RunRecord)
      → All Named chosen
      → All Other terminal
      → All Named (make_room n chosen terminal)
  unfolding make_room
  All-make_room zero chosen terminal h k = h
  All-make_room (suc n) chosen [] h k = h
  All-make_room (suc n) chosen (r ∷ terminal) h k = elim (Bool-cases (contains chosen r.id)) [
    | inl old ↦ rw old (All-make_room (suc n) chosen terminal h k.1)
    | inr new ↦
        rw new (All-make_room n _ terminal (All-append _ chosen (r.id ∷ []) h (k.0, tt)) k.1)
  ]

  All-ids :
      (test : RunRecord → Bool) (rs : List RunRecord)
      → All Other rs
      → All Named (map id_of (keep test rs))
  unfolding keep
  All-ids test [] h = tt
  All-ids test (r ∷ rs) h = elim (Bool-cases (test r)) [
    | inl good ↦ rw good (h.0, All-ids test rs h.1)
    | inr bad ↦ rw bad (All-ids test rs h.1)
  ]

  pub All-removal : (now reserve : ℕ) → All Named (removal now reserve s)
  unfolding removal terminal_runs
  All-removal now reserve =
      let over : All Other (terminal_runs s) =
        All-sort_by Other finish_time _ (All-keep_done s.runs) in
      All-make_room _ _ _ (All-ids _ _ over) over

module _ (id : Text) where
  pub contains-without :
      (x : Text) (ids : List Text)
      → text_eq x id ≡ false
      → contains (without x ids) id ≡ contains ids id
  unfolding contains without
  contains-without x [] other = refl
  contains-without x (y ∷ ids) other =
      ground
        (arith, contains-without x ids other, text_eq_iff x id, text_eq_iff y id, text_eq_iff y x)

  contains-evict_all :
      (ids : List Text) (s : Runtime)
      → All (λ x. text_eq x id ≡ false) ids
      → contains (evict_all ids s).1.runs id ≡ contains s.runs id
  unfolding evict_all evict increment ◌>>=◌
  contains-evict_all [] s h = refl
  contains-evict_all (x ∷ ids) s h = contains-evict_all ids _ h.1 ∙ contains-without x s.runs h.0

continue_runs :
    (r : Result Unit) (s : Runtime) → (continue r (λ _. update_registry_metrics) s).1.runs ≡ s.runs
unfolding update_registry_metrics set_gauge ◌>>=◌
continue_runs (ok a) s = refl
continue_runs (err e) s = refl

-- Where each object is filed under its own identifier, `_cleanup_runs` leaves every registered
-- run that is not terminal in the registry, whatever the retention, the bound and the number of
-- places to reserve.
pub cleanup_runs-contains :
    (reserve : ℕ) (s : Runtime) (id : Text) (run : RunRecord)
    → ((j : Text) (r : RunRecord) → Dict.get s.objects j ≡ some r → r.id ≡ j)
    → Dict.get s.objects id ≡ some run
    → is_terminal run.state ≡ false
    → contains s.runs id ≡ true
    → contains (cleanup_runs reserve s).1.runs id ≡ true
unfolding cleanup_runs time update_registry_metrics set_gauge ◌>>=◌
cleanup_runs-contains reserve s id run named registered live there =
    let ids : List Text = removal (s.world.time s.times_read) reserve (time s).1 in
    let others : All (λ x. text_eq x id ≡ false) ids =
      All-removal (time s).1 id run named registered live (s.world.time s.times_read) reserve in
    ap (λ (runs : List Text). contains runs id)
      (continue_runs (evict_all ids (time s).1).0 (evict_all ids (time s).1).1)
    ∙ contains-evict_all id ids (time s).1 others
    ∙ there
