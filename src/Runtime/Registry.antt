-- ===== src/Runtime/Registry.antt =====
-- The registry of runs: `_cleanup_runs` of runtime.py, `get` and `list_runs`.
use production_agent_runtime.Common.{
  ℕ, zero, suc, ◌+◌, ◌-◌, Bool, true, false, Option, none, some, List, [], ◌∷◌, ◌++◌, map, Text,
  text, text_eq, length, keep, leb, ltb, if◌then◌else◌,
}
use production_agent_runtime.Common.Dict
use production_agent_runtime.Common.Dict.{Dict}
use production_agent_runtime.Common.Int.{pos_part}
use production_agent_runtime.Common.Exec.{
  Exec, pure, raise, gets, modify, ◌>>=◌, ◌>>◌, run_not_found_error,
}
use production_agent_runtime.Models.{RunRecord, is_terminal}
use production_agent_runtime.Fsm
use production_agent_runtime.Runtime.State.{
  Runtime, Indexed, time, increment, update_registry_metrics, contains, load,
}

-- `sorted(xs, key=key)`: equal keys keep their order
unfoldable pub insert_by {ℓ} : {A : Type ℓ} → (A → ℕ) → A → List A → List A
insert_by key x [] = x ∷ []
insert_by key x (y ∷ ys) =
    let rest = insert_by key x ys in if leb (key x) (key y) then x ∷ y ∷ ys else y ∷ rest

unfoldable pub sort_by {ℓ} : {A : Type ℓ} → (A → ℕ) → List A → List A
unfolding insert_by
sort_by key [] = []
sort_by key (x ∷ xs) = insert_by key x (sort_by key xs)

-- `sorted(xs, key=key, reverse=True)`: equal keys keep their order here too
unfoldable pub insert_down {ℓ} : {A : Type ℓ} → (A → ℕ) → A → List A → List A
insert_down key x [] = x ∷ []
insert_down key x (y ∷ ys) =
    let rest = insert_down key x ys in if leb (key y) (key x) then x ∷ y ∷ ys else y ∷ rest

unfoldable pub sort_down {ℓ} : {A : Type ℓ} → (A → ℕ) → List A → List A
unfolding insert_down
sort_down key [] = []
sort_down key (x ∷ xs) = insert_down key x (sort_down key xs)

-- self._runs.values()
abbrev and_then : Option RunRecord → List RunRecord → List RunRecord
and_then none rest = rest
and_then (some run) rest = run ∷ rest

unfoldable pub objects_of : Dict RunRecord → List Text → List RunRecord
objects_of objects [] = []
objects_of objects (id ∷ ids) = and_then (Dict.get objects id) (objects_of objects ids)

-- run.finished_at or run.updated_at
abbrev or_updated : Option ℕ → ℕ → ℕ
or_updated none updated_at = updated_at
or_updated (some zero) updated_at = updated_at
or_updated (some (suc t)) updated_at = suc t

abbrev pub finish_time : RunRecord → ℕ
finish_time run = or_updated run.finished_at run.updated_at

abbrev pub is_done : RunRecord → Bool
is_done run = is_terminal run.state

-- `terminal`: the registered terminal runs, the oldest first
unfoldable pub terminal_runs : Runtime → List RunRecord
terminal_runs s = sort_by finish_time (keep is_done (objects_of s.objects s.runs))

-- finish time < now - retention, with the subtraction moved to the other side
abbrev pub is_expired : ℕ → Runtime → RunRecord → Bool
is_expired now s run = ltb (finish_time run + pos_part s.config.run_retention) now

abbrev pub id_of : RunRecord → Text
id_of run = run.id

-- the loop over `terminal` that makes room: `overflow` more runs, not yet chosen, are added
unfoldable pub make_room : ℕ → List Text → List RunRecord → List Text
make_room zero remove_ids terminal = remove_ids
make_room (suc overflow) remove_ids [] = remove_ids
make_room (suc overflow) remove_ids (run ∷ terminal) =
    let skip = make_room (suc overflow) remove_ids terminal in
    let add = make_room overflow (remove_ids ++ run.id ∷ []) terminal in
    if contains remove_ids run.id then skip else add

-- `remove_ids` of `_cleanup_runs`; `-` stops at 0, as `max(0, …)` does
unfoldable pub removal : ℕ → ℕ → Runtime → List Text
removal now reserve s =
    let terminal = terminal_runs s in
    let remove_ids = map id_of (keep (is_expired now s) terminal) in
    let retained_after_ttl = length s.runs - length remove_ids in
    make_room (retained_after_ttl + reserve - pos_part s.config.max_run_records) remove_ids terminal

-- self._runs.pop(id, None)
unfoldable pub without : Text → List Text → List Text
without id [] = []
without id (x ∷ xs) = let rest = without id xs in if text_eq x id then rest else x ∷ rest

-- `key = self._idempotency_by_run.pop(id, None)`, and the index entry of that key
abbrev pub forget_key : Option Text → Dict Indexed → Dict Indexed
forget_key none index = index
forget_key (some key) index = Dict.remove index key

-- the body of the loop over `remove_ids`
unfoldable pub evict : Text → Exec Runtime Unit
evict id = do
  modify λ s. record s {
    runs = without id s.runs;
    completion = Dict.remove s.completion id;
    idempotency_by_run = Dict.remove s.idempotency_by_run id;
    idempotency_index = forget_key (Dict.get s.idempotency_by_run id) s.idempotency_index;
    locks = Fsm.discard id s.locks;
  }
  increment (text "runs_evicted_total")

unfoldable pub evict_all : List Text → Exec Runtime Unit
evict_all [] = pure tt
evict_all (id ∷ ids) = do evict id; evict_all ids

-- `_cleanup_runs`. The set is traversed in the order of `terminal`.
unfoldable pub cleanup_runs : ℕ → Exec Runtime Unit
cleanup_runs reserve = do
  now ← time
  remove_ids ← gets (removal now reserve)
  evict_all remove_ids
  update_registry_metrics

abbrev pub get_if : Bool → Text → Exec Runtime RunRecord
get_if true id = load id
get_if false id = raise (run_not_found_error (text "unknown run: " ++ id))

-- `get`
unfoldable pub get : Text → Exec Runtime RunRecord
get id s = get_if (contains s.runs id) id s

-- `list_runs`
unfoldable pub list_runs : Runtime → List RunRecord
list_runs s = sort_down (λ run. run.created_at) (objects_of s.objects s.runs)
